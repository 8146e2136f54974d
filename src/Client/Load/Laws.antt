-- ===== src/Client/Load/Laws.antt =====
-- The number of connections follows the settings, and the shares of the addresses.
use da_bao.Base.{
  ℕ, ◌+◌, ◌*◌, ◌/◌, ◌≤◌, ◌<◌, ◌≡◌, arith, Bool, Bool-cases, inl, inr, true, false, List, zero, suc,
  ap, ◌∙◌, Option, none, some,
}
use da_bao.Base.Int.{ℤ, pos, negsuc, ◌+ℤ◌, ◌-ℤ◌, ltb_ℤ, pos_part}
use da_bao.Epoll.{Timeval}
use da_bao.Client.Events.{Client, on_wakeup}
use da_bao.Client.Load.{
  shares, max_conn_per_port, Attempt, update_connections, add_connections, delete_connections,
  add_to_port, delete_from_port, each_port, port_loop,
}

-- The connections that are left when all that are to be closed have been.
abbrev pub target : Client → ℤ
target c = c.connections -ℤ c.close_conns

quotient : (c n : ℕ) → 0 < n → (n * (c / n) ≤ c) × (c < n * (c / n) + n)
quotient c n h = ground arith

below_quotient : (c n k : ℕ) → 0 < n → k < c / n → n * k ≤ c
below_quotient c n k h b = grind arith

-- Each address gets at most 60000 connections, together they are no more than asked for, and
-- without that limit fewer than one for each address are missing.
pub shares_lem :
    (connections ips : ℕ)
    → 0 < ips
    → let average = (shares connections ips).0 in
      (average ≤ max_conn_per_port)
      × (ips * average ≤ connections)
      × ((shares connections ips).1 ≤ connections)
      × (connections / ips ≤ max_conn_per_port → connections < ips * average + ips)
unfolding shares
shares_lem connections ips h =
    ground (arith, quotient connections ips h, below_quotient connections ips max_conn_per_port h)

-- A difference that is positive, and one that is not negative either way.
above_lem : (m n : ℤ) → ltb_ℤ m n ≡ true → pos (pos_part (n -ℤ m)) ≡ n -ℤ m
unfolding ◌-ℤ◌
above_lem (pos m) (pos n) h = ground arith
above_lem (pos m) (negsuc n) h = ground arith
above_lem (negsuc m) (pos n) h = ground arith
above_lem (negsuc m) (negsuc n) h = ground arith

neither_lem : (m n : ℤ) → ltb_ℤ m n ≡ false → ltb_ℤ n m ≡ false → n -ℤ m ≡ pos 0
unfolding ◌-ℤ◌
neither_lem (pos m) (pos n) h h' = ground arith
neither_lem (pos m) (negsuc n) h h' = ground arith
neither_lem (negsuc m) (pos n) h h' = ground arith
neither_lem (negsuc m) (negsuc n) h h' = ground arith

add_more : (a k d : ℤ) → (a +ℤ d) -ℤ k ≡ (a -ℤ k) +ℤ d
unfolding ◌+ℤ◌ ◌-ℤ◌
add_more a k d = ground arith

take_less : (a k d : ℤ) → a -ℤ (k +ℤ d) ≡ (a -ℤ k) +ℤ (pos 0 -ℤ d)
unfolding ◌+ℤ◌ ◌-ℤ◌
take_less a k d = ground arith

turned : (m n : ℤ) → pos 0 -ℤ (m -ℤ n) ≡ n -ℤ m
unfolding ◌-ℤ◌
turned m n = ground arith

as_before : (a : ℤ) → a +ℤ pos 0 ≡ a
unfolding ◌+ℤ◌
as_before a = ground arith

-- Only the loop over a single port ends well.
each_port-single :
    (ports : ℕ) (round : ℕ → Client → Option Client) (conns : ℕ) (c : Client) {c' : Client}
    → each_port (pos ports) round conns c ≡ some c'
    → round conns c ≡ some c'
unfolding each_port port_loop
each_port-single zero round conns c e = cc
each_port-single (suc zero) round conns c {c'} e =
    let whole : conns / 1 ≡ conns = omega arith in rw (← whole) (once (round (conns / 1) c) e)
  where
    once :
        (o : Option Client)
        → elim o [ none ↦ none | some c1 ↦ port_loop (round (conns / 1)) 0 1 c1 ] ≡ some c'
        → o ≡ some c'
    once none h = cc
    once (some c1) h = h
each_port-single (suc (suc k)) round conns c {c'} e =
    absurd (twice (round (conns / suc (suc k)) c) e)
  where
    twice :
        (o : Option Client)
        → elim o [ none ↦ none | some c1 ↦ port_loop (round (conns / suc (suc k))) (suc k) 1 c1 ]
          ≡ some c'
        → ⊥
    twice none h = cc
    twice (some c1) h = cc

module _ (virtual_delay : ℤ → ℤ → ℤ) (epoch : ℤ) (interval ports : ℕ) (no_value : Bool)
    (attempts : ℕ → List Attempt) (ips efd : ℕ) (now time : Timeval) where
  target-add :
      (conns : ℕ) (c : Client) {c' : Client}
      → add_connections virtual_delay epoch interval
          (pos ports)
          no_value
          attempts
          ips
          efd
          now
          time
          conns
          c
        ≡ some c'
      → target c' ≡ target c +ℤ pos conns
  unfolding add_connections add_to_port
  target-add conns c e =
      let once =
        each_port-single ports
          (add_to_port virtual_delay epoch interval (pos ports) no_value attempts ips efd now time)
          conns c e in
      ground (arith, once, add_more c.connections c.close_conns (pos conns))

  target-delete :
      (conns : ℕ) (c : Client) {c' : Client}
      → delete_connections virtual_delay epoch interval
          (pos ports)
          no_value
          attempts
          ips
          efd
          now
          time
          conns
          c
        ≡ some c'
      → target c' ≡ target c +ℤ (pos 0 -ℤ pos conns)
  unfolding delete_connections delete_from_port
  target-delete conns c e =
      let once =
        each_port-single ports
          (delete_from_port virtual_delay epoch interval (pos ports) no_value attempts ips efd now
            time)
          conns c e in
      ground (arith, once, take_less c.connections c.close_conns (pos conns))

  -- When the setting goes from one number of connections to another and the update ends, with a
  -- number of ports that is not negative, the number of connections less those still to close
  -- changes by the same difference.
  pub target-update_connections :
      (prior_conns conns : ℤ) (c : Client) {c' : Client}
      → update_connections virtual_delay epoch interval
          (pos ports)
          no_value
          attempts
          ips
          efd
          now
          time
          prior_conns
          conns
          c
        ≡ some c'
      → target c' ≡ target c +ℤ (conns -ℤ prior_conns)
  unfolding update_connections
  target-update_connections prior_conns conns c {c'} e =
      elim (Bool-cases (ltb_ℤ prior_conns conns)) [
        | inl more ↦
            target-add (pos_part (conns -ℤ prior_conns)) c (rw more at e)
            ∙ ap (λ d. target c +ℤ d) (above_lem prior_conns conns more)
        | inr not_more ↦ elim (Bool-cases (ltb_ℤ conns prior_conns)) [
          | inl fewer ↦
              target-delete (pos_part (prior_conns -ℤ conns)) c (rw (not_more, fewer) at e)
              ∙ ap (λ d. target c +ℤ (pos 0 -ℤ d)) (above_lem conns prior_conns fewer)
              ∙ ap (λ d. target c +ℤ d) (turned prior_conns conns)
          | inr same ↦
              ground (arith, neither_lem prior_conns conns not_more same, as_before (target c))
        ]
      ]

all_closed : (a : ℤ) (n : ℕ) → (a -ℤ pos n) -ℤ (pos n -ℤ pos n) ≡ a -ℤ pos n
unfolding ◌-ℤ◌
all_closed (pos a) n = ground arith
all_closed (negsuc a) n = ground arith

-- The wake-up that closes them leaves that number as it is.
pub target-on_wakeup : (efd : ℕ) (c : Client) → target (on_wakeup efd c) ≡ target c
unfolding on_wakeup
target-on_wakeup efd c = grind (arith, all_closed)
