-- ===== src/Cluster/Text/Laws.antt =====
-- Where a separator is found, and how a printed number is read back.
use da_bao.Base.{
  ℕ, zero, suc, ◌+◌, ◌/◌, ◌%◌, ◌^◌, ◌<◌, ◌≡◌, ◌≢◌, refl, ap, ◌∙◌, arith, true, false, List, [], ◌∷◌,
  ◌++◌, Option, some, none, length, All, length-append, take_sized, ◌==◌,
}
use da_bao.Base.Decimal.{
  digits, digits_small, digits_large, IsDigit, digits-IsDigit, lt-length-digits,
}
use da_bao.Base.Int.{pos, signed32}
use da_bao.Cluster.Text.{strchr, starts_with, strstr, between, is_space, scan, atoi}
use da_bao.Base.Options.{◌>>=◌}
use mathlib.Core.List.{append_assoc}
use native.Mathlib.Decide.{dec_lt}
use native.Mathlib.Nat.{pow-suc}

pub strchr-append :
    (s rest : List ℕ) (c : ℕ) → All (λ x. x ≢ c) s → strchr (s ++ c ∷ rest) c ≡ some (c ∷ rest)
unfolding strchr
strchr-append [] rest c h = ground arith
strchr-append (x ∷ s) rest c h = ground (arith, strchr-append s rest c h.1)

pub strchr-none : (s : List ℕ) (c : ℕ) → All (λ x. x ≢ c) s → strchr s c ≡ none
unfolding strchr
strchr-none [] c h = refl
strchr-none (x ∷ s) c h = ground (arith, strchr-none s c h.1)

pub between-append : (s rest : List ℕ) → between (s ++ rest) rest ≡ s
between-append s rest = take_sized s rest _ (omega (arith, length-append s rest))

starts_with-append : (s word : List ℕ) → starts_with (word ++ s) word ≡ true
unfolding starts_with
starts_with-append [] [] = refl
starts_with-append (x ∷ s) [] = refl
starts_with-append s (w ∷ word) = ground (arith, starts_with-append s word)

-- A word is found behind a text without its first letter.
pub strstr-append :
    (s word rest : List ℕ) (w : ℕ)
    → All (λ x. x ≢ w) s
    → strstr (s ++ ((w ∷ word) ++ rest)) (w ∷ word) ≡ some ((w ∷ word) ++ rest)
unfolding strstr
strstr-append [] word rest w h = ground (arith, starts_with-append rest word)
strstr-append (x ∷ s) word rest w h = ground (arith, strstr-append s word rest w h.1)

scan_first : (x : ℕ) (rest : List ℕ) → x < 10 → scan 0 ((b'0' + x) ∷ rest) ≡ scan x rest
unfolding scan
scan_first x rest h = ground arith

scan_last : (x : ℕ) (rest : List ℕ) → scan (x / 10) ((b'0' + x % 10) ∷ rest) ≡ scan x rest
unfolding scan
scan_last x rest = ground arith

pub scan-digits :
    (n x : ℕ) (rest : List ℕ) → x < 10 ^ suc n → scan 0 (digits (suc n) x ++ rest) ≡ scan x rest
scan-digits zero x rest h = rw (digits_small zero x (omega arith)) (scan_first x rest (omega arith))
scan-digits (suc n) x rest h = elim (dec_lt x 10) [
  | yes lt ↦ rw (digits_small (suc n) x lt) (scan_first x rest lt)
  | no ge ↦ rw (digits_large (suc n) x (omega arith)) (
      rw (append_assoc (digits (suc n) (x / 10)) ((b'0' + x % 10) ∷ []) rest) (
        scan-digits n (x / 10) ((b'0' + x % 10) ∷ rest) (omega (arith, pow-suc 10 (suc n)))
        ∙ scan_last x rest))
]

signed32_small : (n : ℕ) → n < 2 ^ 31 → signed32 (n % 2 ^ 32) ≡ pos n
signed32_small n h = ground arith

digit_not_space : (c : ℕ) → IsDigit c → is_space c ≡ false
digit_not_space c h = ground arith

digit_not_minus : (c : ℕ) → IsDigit c → (c == b'-') ≡ false
digit_not_minus c h = ground arith

digit_not_plus : (c : ℕ) → IsDigit c → (c == b'+') ≡ false
digit_not_plus c h = ground arith

atoi_plain :
    (s rest : List ℕ)
    → All IsDigit s
    → 0 < length s
    → scan 0 (s ++ rest) < 2 ^ 31
    → atoi (s ++ rest) ≡ pos (scan 0 (s ++ rest))
unfolding atoi
atoi_plain [] rest h some_digit h' = absurd (omega arith)
atoi_plain (c ∷ s) rest h some_digit h' = rw (digit_not_space c h.0) (
    rw (digit_not_minus c h.0)
      (rw (digit_not_plus c h.0) (signed32_small (scan 0 ((c ∷ s) ++ rest)) h')))

-- A printed number is read back, whatever stands behind it but a digit.
pub atoi-digits :
    (n x : ℕ) (rest : List ℕ)
    → x < 10 ^ suc n
    → x < 2 ^ 31
    → ((m : ℕ) → scan m rest ≡ m)
    → atoi (digits (suc n) x ++ rest) ≡ pos x
atoi-digits n x rest h h' stop =
    let e = scan-digits n x rest h ∙ stop x in
    atoi_plain (digits (suc n) x) rest (digits-IsDigit (suc n) x) (lt-length-digits n x) (rw e h')
    ∙ ap pos e

-- Inversion of a chain that ended with a result.
pub >>=-some {ℓ κ} :
    {A : Type ℓ} {B : Type κ} (o : Option A) (f : A → Option B) {b : B}
    → (o >>= f) ≡ some b
    → (a : A) × (o ≡ some a) × (f a ≡ some b)
>>=-some none f h = cc
>>=-some (some a) f h = (a, refl, h)

pub >>=-none {ℓ κ} :
    {A : Type ℓ} {B : Type κ} (o : Option A) (f : A → Option B)
    → ((a : A) → o ≡ some a → f a ≡ none)
    → (o >>= f) ≡ none
>>=-none none f h = refl
>>=-none (some a) f h = h a refl
