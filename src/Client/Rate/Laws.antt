-- ===== src/Client/Rate/Laws.antt =====
-- The share of requests among the packets.
use da_bao.Base.{
  ℕ, zero, suc, ◌+◌, ◌*◌, ◌<◌, ◌≡◌, refl, ap, ◌∙◌, arith, min, up, List, [], ◌∷◌, if◌then◌else◌,
  ◌==◌,
}
use mathlib.Core.Path.{subst}
use da_bao.Client.Rate.{request_pkt, get_pkt_type_num, types}

abbrev pub requests : List ℕ → ℕ
requests [] = 0
requests (type ∷ rest) = (if type == request_pkt then 1 else 0) + requests rest

-- Below the end of a round a call counts on.
types_within :
    (upper_bound n counter : ℕ)
    → counter + n < 100
    → upper_bound < 100
    → ((types upper_bound n counter).1 ≡ counter + n)
      × (requests (types upper_bound n counter).0 + min counter upper_bound
          ≡ min (counter + n) upper_bound)
unfolding types get_pkt_type_num
types_within upper_bound zero counter h b = ground arith
types_within upper_bound (suc n) counter h b =
    ground (arith, types_within upper_bound n (suc counter) (omega arith) b)

types_add :
    (upper_bound m n counter : ℕ)
    → ((types upper_bound (up m n) counter).1
        ≡ (types upper_bound n (types upper_bound m counter).1).1)
      × (requests (types upper_bound (up m n) counter).0
          ≡ requests (types upper_bound m counter).0
            + requests (types upper_bound n (types upper_bound m counter).1).0)
unfolding types
types_add upper_bound zero n counter = (refl, omega arith)
types_add upper_bound (suc m) n counter =
    let rest = types_add upper_bound m n (get_pkt_type_num upper_bound counter).1 in
    (rest.0, omega (arith, rest.1))

last_of_round :
    (upper_bound : ℕ)
    → upper_bound < 100
    → ((types upper_bound 1 99).1 ≡ 0) × (requests (types upper_bound 1 99).0 ≡ 0)
unfolding types get_pkt_type_num
last_of_round upper_bound b = ground arith

one_round :
    (upper_bound : ℕ)
    → upper_bound < 100
    → ((types upper_bound (up 99 1) 0).1 ≡ 0)
      × (requests (types upper_bound (up 99 1) 0).0 ≡ upper_bound)
one_round upper_bound b = (
  (types_add upper_bound 99 1 0).0 ∙ ap (λ c. (types upper_bound 1 c).1) start.0 ∙ last.0,
  (types_add upper_bound 99 1 0).1
      ∙ ap (λ c. requests (types upper_bound 99 0).0 + requests (types upper_bound 1 c).0) start.0
      ∙ omega (arith, start.1, last.1),
)
  where
    start :
        ((types upper_bound 99 0).1 ≡ 99)
        × (requests (types upper_bound 99 0).0 + min 0 upper_bound ≡ min 99 upper_bound)
    start = types_within upper_bound 99 0 (omega arith) b

    last : ((types upper_bound 1 99).1 ≡ 0) × (requests (types upper_bound 1 99).0 ≡ 0)
    last = last_of_round upper_bound b

abbrev hundreds : ℕ → ℕ
hundreds zero = 0
hundreds (suc rounds) = up 99 (up 1 (hundreds rounds))

hundreds_lem : (rounds : ℕ) → hundreds rounds ≡ rounds * 100
hundreds_lem zero = refl
hundreds_lem (suc rounds) = omega (arith, hundreds_lem rounds)

rounds_lem :
    (upper_bound rounds : ℕ)
    → upper_bound < 100
    → ((types upper_bound (hundreds rounds) 0).1 ≡ 0)
      × (requests (types upper_bound (hundreds rounds) 0).0 ≡ rounds * upper_bound)
unfolding types
rounds_lem upper_bound zero b = omega arith
rounds_lem upper_bound (suc rounds) b =
    let more = types_add upper_bound 100 (hundreds rounds) 0 in
    let first = one_round upper_bound b in
    let rest = rounds_lem upper_bound rounds b in
    (
      more.0 ∙ ap (λ c. (types upper_bound (hundreds rounds) c).1) first.0 ∙ rest.0,
      more.1
          ∙ ap
              (λ c.
                requests (types upper_bound 100 0).0
                + requests (types upper_bound (hundreds rounds) c).0)
              first.0
          ∙ omega (arith, first.1, rest.1),
    )

-- In any number of rounds of a hundred packets that start with the counter at zero, exactly
-- upper_bound of each hundred are requests, if that is below a hundred, and the counter is then
-- zero again.
pub types_rounds :
    (upper_bound rounds : ℕ)
    → upper_bound < 100
    → ((types upper_bound (rounds * 100) 0).1 ≡ 0)
      × (requests (types upper_bound (rounds * 100) 0).0 ≡ rounds * upper_bound)
types_rounds upper_bound rounds b =
    subst
      (λ n.
        ((types upper_bound n 0).1 ≡ 0)
        × (requests (types upper_bound n 0).0 ≡ rounds * upper_bound))
      (hundreds_lem rounds) (rounds_lem upper_bound rounds b)
