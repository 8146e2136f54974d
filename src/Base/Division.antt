-- ===== src/Base/Division.antt =====
-- Quotients and remainders by a divisor that is not a numeral.
use Prim.Native.Nat.{ℕ, zero, suc, ◌+◌, ◌-◌, ◌*◌, ◌/◌, ◌%◌, ◌≤◌, ◌<◌}
use mathlib.Core.Path.{◌≡◌, refl, sym, ap, ◌∙◌}
use mathlib.Core.Bool.{true, false}
use native.Mathlib.Omega.{arith}
use da_bao.Base.Tests.{◌==◌}

pub div_unique : (x g q : ℕ) → q * g ≤ x → x < q * g + g → x / g ≡ q
div_unique x g q lo hi = grind arith

pub mod_unique : (x n k r : ℕ) → r < n → x ≡ k * n + r → x % n ≡ r
mod_unique x n k r h e = grind arith

pub division : (q n : ℕ) → 0 < n → (q ≡ q / n * n + q % n) × (q % n < n)
division q n h = ground arith

-- The remainder goes on by one, and from the last to zero.
pub mod_suc : (q n : ℕ) → 0 < n → (q + 1) % n ≡ (q % n + 1) % n
mod_suc q n h =
    elim (q % n + 1 == n) as (λ b. (q % n + 1 == n) ≡ b → (q + 1) % n ≡ (q % n + 1) % n) [
      | true ↦ λ e.
          mod_unique (q + 1) n (q / n + 1) 0 h (grind (arith, division q n h))
          ∙ sym (mod_unique (q % n + 1) n 1 0 h (ground arith))
      | false ↦ λ e.
          mod_unique (q + 1) n (q / n) (q % n + 1) (ground (arith, division q n h))
            (omega (arith, division q n h))
          ∙ sym (
              mod_unique (q % n + 1) n 0 (q % n + 1) (ground (arith, division q n h)) (omega arith))
    ]
      refl

pub half_mod : (p x : ℕ) → 0 < p → (x / 2 % p ≡ x % (2 * p) / 2) × (x % 2 ≡ x % (2 * p) % 2)
half_mod p x h = (
  mod_unique (x / 2) p (x / (2 * p)) (x % (2 * p) / 2) (grind (arith, division x (2 * p)))
      (grind (arith, division x (2 * p))),
  sym (
      mod_unique (x % (2 * p)) 2 (x / 2 - p * (x / (2 * p))) (x % 2) (omega arith)
        (grind (arith, division x (2 * p)))),
)

pub half_div : (p x : ℕ) → 0 < p → x / 2 / p ≡ x / (2 * p)
half_div p x h =
    div_unique (x / 2) p (x / (2 * p)) (grind (arith, division x (2 * p)))
      (grind (arith, division x (2 * p)))

halves : (q : ℕ) → q ≡ q / 2 * 2 + q % 2
halves q = omega arith

between :
    (a r p x : ℕ)
    → r < 2
    → (a * 2 + r) * p ≤ x
    → x < (a * 2 + r) * p + p
    → (a * (2 * p) ≤ x) × (x < a * (2 * p) + 2 * p)
between a zero p x h lo hi = (grind arith, grind arith)
between a (suc zero) p x h lo hi = (grind arith, grind arith)
between a (suc (suc r)) p x h lo hi = absurd (omega arith)

pub div_twice : (p x : ℕ) → 0 < p → x / (2 * p) ≡ x / p / 2
div_twice p x h =
    let whole = ap (λ q. q * p) (halves (x / p)) in
    let b =
      between (x / p / 2) (x / p % 2) p x (omega arith) (omega (arith, whole, division x p h))
        (omega (arith, whole, division x p h)) in
    div_unique x (2 * p) (x / p / 2) b.0 b.1

pub div_half : (p x : ℕ) → 0 < p → x / (2 * p) * 2 + x / p % 2 ≡ x / p
div_half p x h = omega (arith, div_twice p x h)
