-- ===== src/Server/Cipher/Ones.antt =====
-- Two ways to count the ones of a word: from its top bit down, and from its low bit up.
use native.Mathlib.Nat.{pow-suc, one-le-pow}
use da_bao.Base.{
  ℕ, zero, suc, ◌+◌, ◌-◌, ◌/◌, ◌%◌, ◌^◌, ◌≤◌, ◌<◌, ◌≡◌, refl, ap, ◌∙◌, arith, ◌==◌, bit_and,
  if◌then◌else◌, ◌>>>◌,
}
use da_bao.Base.Bits.{bit_and_digit, bit_and_low}
use da_bao.Cipher.Block.{cal_nonzero_loop, cal_nonzero_bits}
use da_bao.Server.Cipher.{binary_loop, get_counter}

-- The ones among the low `n` bits.
abbrev pub ones : ℕ → ℕ → ℕ
ones zero x = 0
ones (suc n) x = x % 2 + ones n (x / 2)

ones_zero : (n : ℕ) → ones n 0 ≡ 0
ones_zero zero = refl
ones_zero (suc n) = omega (arith, ones_zero n)

-- The bits of `x` behind the low `n`.
abbrev high : ℕ → ℕ → ℕ
high zero x = x
high (suc n) x = high n (x / 2)

ones_top : (n x : ℕ) → ones (suc n) x ≡ ones n x + high n x % 2
ones_top zero x = omega arith
ones_top (suc n) x = omega (arith, ones_top n (x / 2))

add_zero : (a : ℕ) → a + 0 ≡ a
add_zero a = omega arith

half-pow : (n : ℕ) → 2 ^ suc n / 2 ≡ 2 ^ n
half-pow n = omega (arith, pow-suc 2 n)

even-pow : (n : ℕ) → 2 ^ suc n % 2 ≡ 0
even-pow n = omega (arith, pow-suc 2 n)

bit_and_power : (n x : ℕ) → bit_and x (2 ^ n) ≡ (if high n x % 2 == 0 then 0 else 2 ^ n)
bit_and_power zero x = ground (arith, bit_and_low 1 x)
bit_and_power (suc n) x = ground (
  arith,
  pow-suc 2 n,
  bit_and_digit x (2 ^ suc n),
  even-pow n,
  ap (bit_and (x / 2)) (half-pow n),
  bit_and_power n (x / 2),
)

-- Whether a bit is set, as the loop tests it.
abbrev counted : ℕ → ℕ → ℕ → ℕ
counted x cmp counter = if bit_and x cmp == 0 then counter else counter + 1

counted_lem : (n x counter : ℕ) → counted x (2 ^ n) counter ≡ counter + high n x % 2
counted_lem n x counter = ground (arith, bit_and_power n x, one-le-pow n 2)

binary_step :
    (n x cmp counter : ℕ)
    → binary_loop (suc n) x cmp counter ≡ binary_loop n x (cmp >>> 1) (counted x cmp counter)
unfolding binary_loop
binary_step n x cmp counter = refl

binary_end : (x cmp counter : ℕ) → binary_loop 0 x cmp counter ≡ counter
unfolding binary_loop
binary_end x cmp counter = refl

binary_loop_lem :
    (n x counter : ℕ) → binary_loop (suc n) x (2 ^ n) counter ≡ ones (suc n) x + counter
binary_loop_lem zero x counter =
    binary_step 0 x (2 ^ 0) counter ∙ binary_end x _ _ ∙ counted_lem 0 x counter ∙ omega arith
binary_loop_lem (suc n) x counter =
    binary_step (suc n) x (2 ^ suc n) counter
    ∙ ap (λ c. binary_loop (suc n) x c (counted x (2 ^ suc n) counter)) (half-pow n)
    ∙ binary_loop_lem n x (counted x (2 ^ suc n) counter)
    ∙ ap (λ c. ones (suc n) x + c) (counted_lem (suc n) x counter)
    ∙ omega (arith, ones_top (suc n) x)

cal_nonzero_loop_lem : (n x result : ℕ) → cal_nonzero_loop n x result ≡ ones n x + result
unfolding cal_nonzero_loop
cal_nonzero_loop_lem zero x result = omega arith
cal_nonzero_loop_lem (suc n) x result = ground (
  arith,
  ones_zero n,
  cal_nonzero_loop_lem n ((x - 1) / 2) (result + 1),
  cal_nonzero_loop_lem n (x / 2) result,
)

-- A word of `n` bits has no ones behind them.
ones_fit : (n m x : ℕ) → n ≤ m → x < 2 ^ n → ones m x ≡ ones n x
ones_fit zero m x le h = let empty : x ≡ 0 = omega arith in rw empty (ones_zero m)
ones_fit (suc n) zero x le h = absurd (omega arith)
ones_fit (suc n) (suc m) x le h =
    ap (λ k. x % 2 + k) (ones_fit n m (x / 2) (omega arith) (omega (arith, pow-suc 2 n)))

get_counter_loop : (x : ℕ) → get_counter x ≡ binary_loop 16 x (2 ^ 15) 0
unfolding get_counter
get_counter_loop x = refl

cal_nonzero_bits_loop : (x : ℕ) → cal_nonzero_bits x ≡ cal_nonzero_loop 32 x 0
unfolding cal_nonzero_bits
cal_nonzero_bits_loop x = refl

pub get_counter-cal_nonzero_bits :
    (x : ℕ) → x < 2 ^ 16 → (get_counter x ≡ ones 16 x) × (cal_nonzero_bits x ≡ ones 16 x)
get_counter-cal_nonzero_bits x h = (
  get_counter_loop x ∙ binary_loop_lem 15 x 0 ∙ add_zero (ones 16 x),
  cal_nonzero_bits_loop x
      ∙ cal_nonzero_loop_lem 32 x 0
      ∙ add_zero (ones 32 x)
      ∙ ones_fit 16 32 x (omega arith) h,
)
