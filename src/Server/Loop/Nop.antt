-- ===== src/Server/Loop/Nop.antt =====
-- The delay of `nop` ends.
use da_bao.Base.{
  ℕ, zero, suc, ◌+◌, ◌-◌, ◌*◌, ◌/◌, ◌%◌, ◌^◌, ◌≤◌, ◌<◌, ◌≡◌, refl, ap, ◌∙◌, arith, Bool-cases, inl,
  inr, false, leb, leb→le, Option, some,
}
use da_bao.Base.Int.{ℤ, pos, negsuc, ◌+ℤ◌, ◌-ℤ◌, ◌*ℤ◌, to_u32, to_u32-signed32}
use native.Mathlib.Decide.{dec_lt}
use da_bao.Epoll.{Timeval}
use da_bao.Server.Loop.{get_time_diff, nop_loop, nop}

-- The reading of a clock that shows `us` microseconds.
abbrev pub reading : ℕ → Timeval
reading us = record { tv_sec = pos (us / 1000000); tv_usec = pos (us % 1000000) }

seconds_lem : (a b : ℕ) → b ≤ a → (pos a -ℤ pos b) *ℤ pos 1000000 ≡ pos ((a - b) * 1000000)
unfolding ◌-ℤ◌ ◌*ℤ◌
seconds_lem a b h = ground arith

total_lem : (d a b : ℕ) → b ≤ d + a → pos d +ℤ (pos a -ℤ pos b) ≡ pos (d + a - b)
unfolding ◌-ℤ◌ ◌+ℤ◌
total_lem d a b h = ground arith

to_u32-le : (z : ℤ) → to_u32 z ≤ 2 ^ 32 - 1
to_u32-le (pos n) = omega arith
to_u32-le (negsuc n) = omega arith

get_time_diff_lem :
    (start now : ℕ)
    → start ≤ now
    → now - start < 2 ^ 32
    → to_u32 (get_time_diff (reading start) (reading now)) ≡ now - start
unfolding get_time_diff
get_time_diff_lem start now le fits =
    to_u32-signed32 _ (to_u32-le _)
    ∙ ap to_u32 (
        ap (λ s. s +ℤ (pos (now % 1000000) -ℤ pos (start % 1000000)))
          (seconds_lem (now / 1000000) (start / 1000000) (omega arith))
        ∙ total_lem ((now / 1000000 - start / 1000000) * 1000000) (now % 1000000) (start % 1000000)
            (omega arith)
        ∙ ap pos whole)
    ∙ omega arith
  where
    whole :
        (now / 1000000 - start / 1000000) * 1000000 + now % 1000000 - start % 1000000 ≡ now - start
    whole = omega arith

-- A clock, in microseconds, that advances with every reading and shows less than 2 ^ 32 of them.
pub record Advances (start : ℕ) (clock : ℕ → ℕ) (delay : ℕ) : Type 0 where
  pub started : start ≤ clock 0
  pub later : (i : ℕ) → clock i < clock (suc i)
  pub short : (i : ℕ) → i ≤ delay → clock i - start < 2 ^ 32

module _ (start : ℕ) (clock : ℕ → ℕ) (delay : ℕ) (advances : Advances start clock delay) where
  le-clock : (i : ℕ) → start + i ≤ clock i
  le-clock zero = omega (arith, advances.started)
  le-clock (suc i) = omega (arith, le-clock i, advances.later i)

  passed :
      (i : ℕ)
      → i ≤ delay
      → to_u32 (get_time_diff (reading start) (reading (clock i))) ≡ clock i - start
  passed i le = get_time_diff_lem start (clock i) (omega (arith, le-clock i)) (advances.short i le)

  -- The reading that ends the delay, and what it shows.
  abbrev pub EndsAt : Option ℕ → ℕ → Type 0
  EndsAt o first =
      (k : ℕ) × (o ≡ some k)
      × (k ≤ delay)
      × (delay ≤ clock k - start)
      × ((i : ℕ) → first ≤ i → i < k → clock i - start < delay)

  not_over : (a b : ℕ) → leb a b ≡ false → b < a
  not_over a b h = ground arith

  nop_loop-EndsAt :
      (fuel i : ℕ)
      → i + fuel ≡ suc delay
      → i ≤ delay
      → EndsAt (nop_loop delay (reading start) (λ j. reading (clock j)) fuel i) i
  unfolding nop_loop
  nop_loop-EndsAt zero i h le = absurd (omega arith)
  nop_loop-EndsAt (suc fuel) i h le =
      elim (Bool-cases (leb delay (to_u32 (get_time_diff (reading start) (reading (clock i)))))) [
        | inl over ↦ rw over (
          i,
          refl,
          le,
          omega (arith, passed i le, leb→le delay _ over),
          λ j h' lt. absurd (omega arith),
        )
        | inr waits ↦
            let short : clock i - start < delay =
              omega (arith, passed i le, not_over delay _ waits) in
            let (k, e, le', long, before) =
              nop_loop-EndsAt fuel (suc i) (omega arith) (omega (arith, le-clock i, short)) in
            rw waits (
              k,
              e,
              le',
              long,
              λ j h' lt. elim (dec_lt i j) [
                | yes later ↦ before j (omega arith) lt
                | no same ↦ (let e : j ≡ i = omega arith in rw e short)
              ],
            )
      ]

  -- On a clock that advances with every reading and does not run 2 ^ 32 microseconds past its
  -- start, delay + 1 readings are enough for nop, which ends at the first that is delay
  -- microseconds past the start.
  pub nop-EndsAt : EndsAt (nop delay (reading start) (λ j. reading (clock j)) (suc delay)) 0
  unfolding nop
  nop-EndsAt =
      ground (arith, nop_loop-EndsAt (suc delay) 0 (omega arith) (omega arith), advances.started)
