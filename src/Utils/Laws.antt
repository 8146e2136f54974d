-- ===== src/Utils/Laws.antt =====
-- Shuffling stays in the array and keeps its entries.
use da_bao.Base.{ℕ, zero, suc, ◌+◌, ◌-◌, ◌/◌, ◌≤◌, ◌<◌, ◌≡◌, refl, sym, ap, ◌∙◌, arith}
use da_bao.Base.{List, [], ◌∷◌, length, get_or, set, ltb, if◌then◌else◌, ◌==◌, length-set}
use da_bao.Utils.{swap, count_up, draw, shuffer_loop, shuffer, init_id_map}

-- How often `v` stands in a list.
abbrev pub count_of : ℕ → List ℕ → ℕ
count_of v [] = 0
count_of v (x ∷ xs) = (if v == x then 1 else 0) + count_of v xs

count_of-set :
    (v : ℕ) (xs : List ℕ) (i x : ℕ)
    → i < length xs
    → count_of v (set xs i x) + (if v == get_or xs i 0 then 1 else 0)
      ≡ count_of v xs + (if v == x then 1 else 0)
count_of-set v [] i x h = absurd (omega arith)
count_of-set v (y ∷ xs) zero x h = omega arith
count_of-set v (y ∷ xs) (suc i) x h = omega (arith, count_of-set v xs i x (omega arith))

get_or-set_same : (xs : List ℕ) (i j : ℕ) → get_or (set xs j (get_or xs i 0)) i 0 ≡ get_or xs i 0
get_or-set_same [] i j = refl
get_or-set_same (x ∷ xs) zero zero = refl
get_or-set_same (x ∷ xs) zero (suc j) = refl
get_or-set_same (x ∷ xs) (suc i) zero = refl
get_or-set_same (x ∷ xs) (suc i) (suc j) = get_or-set_same xs i j

count_of-swap :
    (v : ℕ) (xs : List ℕ) (i j : ℕ)
    → i < length xs
    → j < length xs
    → count_of v (swap xs i j) ≡ count_of v xs
unfolding swap
count_of-swap v xs i j hi hj = ground (
  arith,
  count_of-set v xs j (get_or xs i 0) hj,
  count_of-set v (set xs j (get_or xs i 0)) i (get_or xs j 0)
      (omega (arith, length-set xs j (get_or xs i 0))),
  get_or-set_same xs i j,
)

div-lt : (r m k : ℕ) → r ≤ m → 0 < k → r / (m / k + 1) < k
div-lt r m k h p = grind arith

length-swap : (xs : List ℕ) (i j : ℕ) → length (swap xs i j) ≡ length xs
unfolding swap
length-swap xs i j =
    length-set (set xs j (get_or xs i 0)) i (get_or xs j 0) ∙ length-set xs j (get_or xs i 0)

module _ (rand : ℕ → ℕ) (rand_max : ℕ) (in_range : (i : ℕ) → rand i ≤ rand_max) where
  -- If `rand` stays below its limit, each round draws a place of the array, from its own on.
  pub draw-lt :
      (size i : ℕ) → i < size → (i ≤ draw rand rand_max size i) × (draw rand rand_max size i < size)
  unfolding draw
  draw-lt size i h =
      (omega arith, omega (arith, div-lt (rand i) rand_max (size - i) (in_range i) (omega arith)))

  shuffer_loop_lem :
      (size n i : ℕ) (xs : List ℕ)
      → i + n ≤ size
      → length xs ≡ size
      → (length (shuffer_loop rand rand_max size n i xs) ≡ size)
        × ((v : ℕ) → count_of v (shuffer_loop rand rand_max size n i xs) ≡ count_of v xs)
  unfolding shuffer_loop
  shuffer_loop_lem size zero i xs h e = (e, λ v. refl)
  shuffer_loop_lem size (suc n) i xs h e =
      let j : ℕ = draw rand rand_max size i in
      let rest =
        shuffer_loop_lem size n (suc i) (swap xs i j) (omega arith) (length-swap xs i j ∙ e) in
      (
        rest.0,
        λ v.
            rest.1 v
            ∙ count_of-swap v xs i j (omega arith) (omega (arith, draw-lt size i (omega arith))),
      )

  -- If rand stays below its limit, shuffling a whole array keeps its length and how often every
  -- number stands in it.
  pub shuffer_lem :
      (xs : List ℕ)
      → (length (shuffer rand rand_max xs (length xs)) ≡ length xs)
        × ((v : ℕ) → count_of v (shuffer rand rand_max xs (length xs)) ≡ count_of v xs)
  unfolding shuffer
  shuffer_lem xs = ground (arith, shuffer_loop_lem (length xs) (length xs) 0 xs (omega arith) refl)

  length-count_up : (a n : ℕ) → length (count_up a n) ≡ n
  length-count_up a zero = refl
  length-count_up a (suc n) = ap suc (length-count_up (suc a) n)

  count_of-count_up :
      (v a n : ℕ)
      → count_of v (count_up a n) ≡ (if ltb v a then 0 else if ltb v (a + n) then 1 else 0)
  count_of-count_up v a zero = ground arith
  count_of-count_up v a (suc n) = ground (arith, count_of-count_up v (suc a) n)

  -- If rand stays below its limit and the range is not reversed, the table of identifiers holds
  -- each number from index_start up to below index_end once and no other.
  pub init_id_map_lem :
      (index_start index_end v : ℕ)
      → index_start ≤ index_end
      → count_of v (init_id_map rand rand_max index_start index_end)
        ≡ (if ltb v index_start then 0 else if ltb v index_end then 1 else 0)
  unfolding init_id_map
  init_id_map_lem index_start index_end v h = ground (
    arith,
    ap (λ n. count_of v (shuffer rand rand_max (count_up index_start size) n))
        (sym (length-count_up index_start size)),
    (shuffer_lem (count_up index_start size)).1 v,
    count_of-count_up v index_start size,
  )
    where
      size : ℕ
      size = index_end - index_start
