-- ===== src/Base/Bits.antt =====
-- Laws of `^`, `|` and `&` at every width, from their meaning digit by digit.
use Prim.Native.Nat.{ℕ, zero, suc, ◌+◌, ◌-◌, ◌*◌, ◌/◌, ◌%◌, ◌^◌, ◌≤◌, ◌<◌, min, max}
use Prim.Native.Nat.{bit_and, bit_or, bit_xor, differ}
use Prim.Native.Nat.{digits, bitwise, bit_and-bitwise, bit_or-bitwise, bit_xor-bitwise}
use mathlib.Core.Path.{◌≡◌, refl, ap}
use native.Mathlib.Nat.{pow-suc, one-le-pow}
use native.Mathlib.Omega.{arith}

-- `bitwise` is a recursion whose fuel is its first operand: more fuel changes nothing.
digits_more :
    (z : ℕ → ℕ) (f : ℕ → ℕ → ℕ) (k n a b : ℕ) → a ≤ k → a ≤ n → digits z f k a b ≡ digits z f n a b
digits_more z f zero zero zero b h h' = refl
digits_more z f zero (suc n) zero b h h' = refl
digits_more z f (suc k) zero zero b h h' = refl
digits_more z f (suc k) (suc n) zero b h h' = refl
digits_more z f zero n (suc a) b h h' = absurd (omega arith)
digits_more z f (suc k) zero (suc a) b h h' = absurd (omega arith)
digits_more z f (suc k) (suc n) (suc a) b h h' =
    ap (λ q. q * 2 + f (suc a % 2) (b % 2))
      (digits_more z f k n (suc a / 2) (b / 2) (omega arith) (omega arith))

bitwise_digit :
    (z : ℕ → ℕ) (f : ℕ → ℕ → ℕ) (a b : ℕ)
    → bitwise z f (suc a) b ≡ bitwise z f (suc a / 2) (b / 2) * 2 + f (suc a % 2) (b % 2)
bitwise_digit z f a b =
    ap (λ q. q * 2 + f (suc a % 2) (b % 2))
      (digits_more z f a (suc a / 2) (suc a / 2) (b / 2) (omega arith) (omega arith))

pub bit_xor_digit : (a b : ℕ) → bit_xor a b ≡ bit_xor (a / 2) (b / 2) * 2 + differ (a % 2) (b % 2)
bit_xor_digit zero b = simp bit_xor-bitwise (omega arith)
bit_xor_digit (suc a) b = simp bit_xor-bitwise (bitwise_digit (λ y. y) differ a b)

pub bit_or_digit : (a b : ℕ) → bit_or a b ≡ bit_or (a / 2) (b / 2) * 2 + max (a % 2) (b % 2)
bit_or_digit zero b = simp bit_or-bitwise (omega arith)
bit_or_digit (suc a) b = simp bit_or-bitwise (bitwise_digit (λ y. y) max a b)

pub bit_and_digit : (a b : ℕ) → bit_and a b ≡ bit_and (a / 2) (b / 2) * 2 + min (a % 2) (b % 2)
bit_and_digit zero b = simp bit_and-bitwise (omega arith)
bit_and_digit (suc a) b = simp bit_and-bitwise (bitwise_digit (λ y. 0) min a b)

-- `^` on single digits.
differ-lt : (x y : ℕ) → x < 2 → y < 2 → differ x y < 2
differ-lt zero y h h' = h'
differ-lt (suc zero) zero h h' = omega arith
differ-lt (suc zero) (suc y) h h' = omega arith
differ-lt (suc (suc x)) y h h' = absurd (omega arith)

differ_comm : (x y : ℕ) → differ x y ≡ differ y x
differ_comm zero zero = refl
differ_comm zero (suc y) = refl
differ_comm (suc x) zero = refl
differ_comm (suc x) (suc y) = differ_comm x y

differ_twice : (x y : ℕ) → x < 2 → y < 2 → differ (differ x y) y ≡ x
differ_twice zero zero h h' = refl
differ_twice zero (suc zero) h h' = refl
differ_twice (suc zero) zero h h' = refl
differ_twice (suc zero) (suc zero) h h' = refl
differ_twice x (suc (suc y)) h h' = absurd (omega arith)
differ_twice (suc (suc x)) y h h' = absurd (omega arith)

-- A word of `k` bits.
module _ where
  pub bit_xor-lt : (k a b : ℕ) → a < 2 ^ k → b < 2 ^ k → bit_xor a b < 2 ^ k
  bit_xor-lt zero zero zero ha hb = omega arith
  bit_xor-lt zero (suc a) b ha hb = absurd (omega arith)
  bit_xor-lt zero a (suc b) ha hb = absurd (omega arith)
  bit_xor-lt (suc k) a b ha hb = omega (
    arith,
    pow-suc 2 k,
    bit_xor_digit a b,
    differ-lt (a % 2) (b % 2) (omega arith) (omega arith),
    bit_xor-lt k (a / 2) (b / 2) (omega (arith, pow-suc 2 k)) (omega (arith, pow-suc 2 k)),
  )

  pub bit_xor_comm : (k a b : ℕ) → a < 2 ^ k → b < 2 ^ k → bit_xor a b ≡ bit_xor b a
  bit_xor_comm zero zero zero ha hb = refl
  bit_xor_comm zero (suc a) b ha hb = absurd (omega arith)
  bit_xor_comm zero a (suc b) ha hb = absurd (omega arith)
  bit_xor_comm (suc k) a b ha hb = omega (
    arith,
    bit_xor_digit a b,
    bit_xor_digit b a,
    differ_comm (a % 2) (b % 2),
    bit_xor_comm k (a / 2) (b / 2) (omega (arith, pow-suc 2 k)) (omega (arith, pow-suc 2 k)),
  )

  -- Masking twice with one word gives the word back.
  pub bit_xor_twice : (k a b : ℕ) → a < 2 ^ k → b < 2 ^ k → bit_xor (bit_xor a b) b ≡ a
  bit_xor_twice zero zero zero ha hb = refl
  bit_xor_twice zero (suc a) b ha hb = absurd (omega arith)
  bit_xor_twice zero a (suc b) ha hb = absurd (omega arith)
  bit_xor_twice (suc k) a b ha hb = ground (
    arith,
    bit_xor_digit a b,
    bit_xor_digit (bit_xor a b) b,
    differ-lt (a % 2) (b % 2),
    differ_twice (a % 2) (b % 2),
    bit_xor_twice k (a / 2) (b / 2) (omega (arith, pow-suc 2 k)) (omega (arith, pow-suc 2 k)),
  )

bit_or-zero : (k a : ℕ) → a < 2 ^ k → bit_or a 0 ≡ a
bit_or-zero zero zero ha = refl
bit_or-zero zero (suc a) ha = absurd (omega arith)
bit_or-zero (suc k) a ha =
    omega (arith, bit_or_digit a 0, bit_or-zero k (a / 2) (omega (arith, pow-suc 2 k)))

bit_xor-zero : (k a : ℕ) → a < 2 ^ k → bit_xor a 0 ≡ a
bit_xor-zero zero zero ha = refl
bit_xor-zero zero (suc a) ha = absurd (omega arith)
bit_xor-zero (suc k) a ha = omega (
  arith,
  bit_xor_digit a 0,
  differ_comm (a % 2) 0,
  bit_xor-zero k (a / 2) (omega (arith, pow-suc 2 k)),
)

bit_and-zero : (k a : ℕ) → a < 2 ^ k → bit_and a 0 ≡ 0
bit_and-zero zero zero ha = refl
bit_and-zero zero (suc a) ha = absurd (omega arith)
bit_and-zero (suc k) a ha =
    omega (arith, bit_and_digit a 0, bit_and-zero k (a / 2) (omega (arith, pow-suc 2 k)))

pub lt-two-pow : (a : ℕ) → a < 2 ^ a
lt-two-pow zero = omega arith
lt-two-pow (suc a) = omega (arith, pow-suc 2 a, lt-two-pow a)

twice_high : (q k : ℕ) → q * 2 ^ suc k ≡ q * 2 ^ k * 2
twice_high q k = grind (arith, pow-suc)

-- `(q << k) | r` is a sum where `r` has `k` bits.
pub bit_or_join : (k q r : ℕ) → r < 2 ^ k → bit_or (q * 2 ^ k) r ≡ q * 2 ^ k + r
bit_or_join zero q zero h = ground (arith, bit_or-zero q q, lt-two-pow q)
bit_or_join zero q (suc r) h = absurd (omega arith)
bit_or_join (suc k) q r h = ground (
  arith,
  twice_high q k,
  bit_or_digit (q * 2 ^ suc k) r,
  bit_or_join k q (r / 2) (omega (arith, pow-suc 2 k)),
)

-- So is `(q << k) ^ r`.
pub bit_xor_join : (k q r : ℕ) → r < 2 ^ k → bit_xor (q * 2 ^ k) r ≡ q * 2 ^ k + r
bit_xor_join zero q zero h = ground (arith, bit_xor-zero q q, lt-two-pow q)
bit_xor_join zero q (suc r) h = absurd (omega arith)
bit_xor_join (suc k) q r h = ground (
  arith,
  twice_high q k,
  bit_xor_digit (q * 2 ^ suc k) r,
  bit_xor_join k q (r / 2) (omega (arith, pow-suc 2 k)),
)

bit_and_low_split : (k q r : ℕ) → r < 2 ^ k → bit_and (q * 2 ^ k + r) (2 ^ k - 1) ≡ r
bit_and_low_split zero q r h =
    omega (arith, bit_and-zero (q * 1 + r) (q * 1 + r) (lt-two-pow (q * 1 + r)))
bit_and_low_split (suc k) q r h = ground (
  arith,
  twice_high q k,
  pow-suc 2 k,
  one-le-pow k 2,
  bit_and_digit (q * 2 ^ suc k + r) (2 ^ suc k - 1),
  bit_and_low_split k q (r / 2) (omega (arith, pow-suc 2 k)),
)

-- A mask of `k` low ones is the remainder by `2 ^ k`.
pub bit_and_low : (k a : ℕ) → bit_and a (2 ^ k - 1) ≡ a % 2 ^ k
bit_and_low k a = ground (arith, one-le-pow k 2, bit_and_low_split k (a / 2 ^ k) (a % 2 ^ k))

pub bit_or_comm : (k a b : ℕ) → a < 2 ^ k → b < 2 ^ k → bit_or a b ≡ bit_or b a
bit_or_comm zero zero zero ha hb = refl
bit_or_comm zero (suc a) b ha hb = absurd (omega arith)
bit_or_comm zero a (suc b) ha hb = absurd (omega arith)
bit_or_comm (suc k) a b ha hb = omega (
  arith,
  bit_or_digit a b,
  bit_or_digit b a,
  bit_or_comm k (a / 2) (b / 2) (omega (arith, pow-suc 2 k)) (omega (arith, pow-suc 2 k)),
)

pub two-pow_add : (c d e : ℕ) → c + d ≡ e → 2 ^ c * 2 ^ d ≡ 2 ^ e
two-pow_add zero d e h = let same : d ≡ e = omega arith in rw same (omega arith)
two-pow_add (suc c) d zero h = absurd (omega arith)
two-pow_add (suc c) d (suc e) h =
    grind (arith, pow-suc 2 c, pow-suc 2 e, two-pow_add c d e (omega arith))
