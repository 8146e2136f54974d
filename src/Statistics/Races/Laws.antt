-- ===== src/Statistics/Races/Laws.antt =====
-- How far a counter may be from the number of packets that were counted.
use mathlib.Core.Path.{subst}
use da_bao.Base.{
  ℕ, zero, suc, ◌+◌, ◌≤◌, ◌<◌, ◌≡◌, refl, ap, sym, ◌∙◌, arith, Bool-cases, inl, inr, ◌==◌, ==_iff,
  List, [], ◌∷◌, length, set, get_or, get_or-set_self, get_or-set_ne, u32,
}
use da_bao.Statistics.Races.{
  Phase, outside, loaded, Counting, phase_of, Move, load, store, Moves, stay, and_then,
}

-- Neither the counter nor a number in hand is ahead of the packets that were counted since it was `k`.
pub record Bounded (k : ℕ) (s : Counting) : Type 0 where
  pub counter : s.counter ≤ k + s.counted
  pub in_hand : (i value : ℕ) → phase_of s i ≡ loaded value → value ≤ k + s.counted

u32_le : (n : ℕ) → u32 n ≤ n
u32_le n = omega arith

-- What a worker has in hand when another, or itself, has moved.
in_hand_after :
    (workers : List Phase) (i j value b : ℕ) (phase : Phase)
    → i < length workers
    → (phase ≡ loaded value → value ≤ b)
    → (get_or workers j outside ≡ loaded value → value ≤ b)
    → get_or (set workers i phase) j outside ≡ loaded value
    → value ≤ b
in_hand_after workers i j value b phase there new old e = elim (Bool-cases (i == j)) [
  | inl same ↦ new (
      sym (get_or-set_self workers i phase outside there)
      ∙ ap (λ n. get_or (set workers i phase) n outside) ((==_iff i j).0 same)
      ∙ e)
  | inr other ↦ old (sym (get_or-set_ne workers phase outside (ground arith)) ∙ e)
]

Move-Bounded : (k : ℕ) {s t : Counting} → Move s t → Bounded k s → Bounded k t
Move-Bounded k {s} (load i there out) b = record {
  counter = b.counter;
  in_hand = λ j value e.
      in_hand_after s.workers i j value (k + s.counted) (loaded s.counter) there
        (λ h. ground (arith, b.counter)) (b.in_hand j value) e;
}
Move-Bounded k {s} (store i v there in_it) b = record {
  counter = omega (arith, u32_le (v + 1), b.in_hand i v in_it);
  in_hand = λ j value e.
      in_hand_after s.workers i j value (k + (s.counted + 1)) outside there (λ h. cc)
        (λ h. omega (arith, b.in_hand j value h)) e;
}

-- No run counts a packet twice.
pub Moves-Bounded : (k : ℕ) {s t : Counting} → Moves s t → Bounded k s → Bounded k t
Moves-Bounded k stay b = b
Moves-Bounded k (and_then m ms) b = Moves-Bounded k ms (Move-Bounded k m b)

abbrev pub two_workers : Phase → ℕ → ℕ → Counting
two_workers p c n = record { counter = c; workers = p ∷ outside ∷ []; counted = n }

then_Moves : {s t u : Counting} → Moves s t → Moves t u → Moves s u
then_Moves stay ns = ns
then_Moves (and_then m ms) ns = and_then m (then_Moves ms ns)

-- The second worker counts `k` packets while the first has `p` in hand.
alone : (k c n : ℕ) (p : Phase) → (c' : ℕ) × Moves (two_workers p c n) (two_workers p c' (k + n))
alone zero c n p =
    (c, subst (λ m. Moves (two_workers p c n) (two_workers p c m)) (omega arith) stay)
alone (suc k) c n p =
    let (c', rest) = alone k (u32 (c + 1)) (n + 1) p in
    (
      c',
      subst (λ m. Moves (two_workers p c n) (two_workers p c' m)) (omega arith)
          (and_then (load 1 (omega arith) refl) (and_then (store 1 c (omega arith) refl) rest)),
    )

-- For every k there is a run of two workers, at first without a number in hand, in which k + 1
-- packets are counted and the counter is only one higher, modulo 2 ^ 32.
pub lost_counts :
    (k c : ℕ) → Moves (two_workers outside c 0) (two_workers outside (u32 (c + 1)) (suc k))
lost_counts k c =
    let (c', others) = alone k c 0 (loaded c) in
    and_then (load 0 (omega arith) refl) (
      then_Moves others (
        subst (λ m. Moves (two_workers (loaded c) c' (k + 0)) (two_workers outside (u32 (c + 1)) m))
          (omega arith) (and_then (store 0 c (omega arith) refl) stay)))
