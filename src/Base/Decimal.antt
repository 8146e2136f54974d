-- ===== src/Base/Decimal.antt =====
-- Decimal numbers as `sprintf` prints them.
use Prim.Native.Nat.{ℕ, zero, suc, ◌+◌, ◌/◌, ◌%◌, ◌≤◌, ◌<◌}
use mathlib.Core.Path.{◌≡◌}
use mathlib.Core.List.{List, [], ◌∷◌, ◌++◌}
use native.Mathlib.Omega.{arith}
use da_bao.Base.Tests.{ltb, if◌then◌else◌}
use da_bao.Base.Lists.{All, All-append, length, length-append}

-- The decimal digits of a number below 10 ^ n.
abbrev pub digits : ℕ → ℕ → List ℕ
digits zero x = []
digits (suc n) x = if ltb x 10 then (b'0' + x) ∷ [] else digits n (x / 10) ++ ((b'0' + x % 10) ∷ [])

pub digits_small : (n x : ℕ) → x < 10 → digits (suc n) x ≡ (b'0' + x) ∷ []
digits_small n x h = ground arith

pub digits_large :
    (n x : ℕ) → 10 ≤ x → digits (suc n) x ≡ digits n (x / 10) ++ ((b'0' + x % 10) ∷ [])
digits_large n x h = ground arith

abbrev pub IsDigit : ℕ → Type 0
IsDigit c = (b'0' ≤ c) × (c ≤ b'9')

pub digits-IsDigit : (n x : ℕ) → All IsDigit (digits n x)
digits-IsDigit zero x = tt
digits-IsDigit (suc n) x = ground (
  arith,
  All-append IsDigit (digits n (x / 10)) ((b'0' + x % 10) ∷ []) (digits-IsDigit n (x / 10)),
)

pub length-digits-le : (n x : ℕ) → length (digits n x) ≤ n
length-digits-le zero x = omega arith
length-digits-le (suc n) x =
    ground
      (arith, length-append (digits n (x / 10)) ((b'0' + x % 10) ∷ []), length-digits-le n (x / 10))

pub lt-length-digits : (n x : ℕ) → 0 < length (digits (suc n) x)
lt-length-digits n x = ground (arith, length-append (digits n (x / 10)) ((b'0' + x % 10) ∷ []))
