-- ===== src/Cipher/Table/Laws.antt =====
-- The conversions between a number and its bits, and what the register keeps.
use da_bao.Base.{
  ℕ, zero, suc, ◌+◌, ◌-◌, ◌*◌, ◌/◌, ◌%◌, ◌^◌, ◌≤◌, ◌<◌, ◌≡◌, refl, sym, ap, ◌∙◌, arith, List,
  get_or, ◌==◌, if◌then◌else◌, u64, sar64, ltb, Bool, true, false,
}
use da_bao.Base.Division.{half_mod, half_div, div_half, mod_unique, division}
use da_bao.Base.Bits.{two-pow_add, lt-two-pow}
use native.Mathlib.Nat.{pow-suc}
use da_bao.Cipher.Table.{longlong2bits, bits2longlong}

-- Bit `i` of a number, as a character.
abbrev pub bit_of : ℕ → ℕ → ℕ
bit_of x i = if x / 2 ^ i % 2 == 0 then b'0' else b'1'

pub two-pow-pos : (n : ℕ) → 0 < 2 ^ n
two-pow-pos n = omega (arith, lt-two-pow n)

pub two-pow-suc : (n : ℕ) → 2 ^ suc n ≡ 2 * 2 ^ n
two-pow-suc n = omega (arith, pow-suc 2 n)

-- The sign that `>>` shifts in stays above the bits that are still to come.
abbrev SameBits : ℕ → ℕ → ℕ → Type 0
SameBits n x y = x % 2 ^ n ≡ y % 2 ^ n

-- A multiple of 2 ^ n does not change the bits below.
add_high : (n m x : ℕ) → 0 < 2 ^ n → (x + 2 ^ n * m) % 2 ^ n ≡ x % 2 ^ n
add_high n m x h =
    mod_unique (x + 2 ^ n * m) (2 ^ n) (x / 2 ^ n + m) (x % 2 ^ n)
      (omega (arith, division x (2 ^ n) h)) (grind (arith, division x (2 ^ n) h))

abbrev shift_right : ℕ → ℕ
shift_right x = if x % 2 == 0 then sar64 x 1 else sar64 (x - 1) 1

shift_right_lem : (x : ℕ) → shift_right x ≡ x / 2 + (if ltb x (2 ^ 63) then 0 else 2 ^ 63)
shift_right_lem x = ground arith

without_sign : (n x : ℕ) (b : Bool) → n ≤ 63 → (x + (if b then 0 else 2 ^ 63)) % 2 ^ n ≡ x % 2 ^ n
without_sign n x true h = ap (λ y. y % 2 ^ n) (omega arith)
without_sign n x false h =
    ap (λ y. (x + y) % 2 ^ n) (sym (two-pow_add n (63 - n) 63 (omega arith)))
    ∙ add_high n (2 ^ (63 - n)) x (two-pow-pos n)

shifted :
    (n x : ℕ) → n ≤ 63 → (if x % 2 == 0 then sar64 x 1 else sar64 (x - 1) 1) % 2 ^ n ≡ x / 2 % 2 ^ n
shifted n x h = ap (λ y. y % 2 ^ n) (shift_right_lem x) ∙ without_sign n (x / 2) (ltb x (2 ^ 63)) h

keep_bits :
    (n x y : ℕ)
    → n ≤ 63
    → SameBits (suc n) x y
    → (x % 2 ≡ y % 2) × SameBits n (if x % 2 == 0 then sar64 x 1 else sar64 (x - 1) 1) (y / 2)
keep_bits n x y h e =
    let two = two-pow-suc n in
    let e' : x % (2 * 2 ^ n) ≡ y % (2 * 2 ^ n) =
      ap (λ p. x % p) (sym two) ∙ e ∙ ap (λ p. y % p) two in
    let hx = half_mod (2 ^ n) x (two-pow-pos n) in
    let hy = half_mod (2 ^ n) y (two-pow-pos n) in
    (hx.1 ∙ ap (λ r. r % 2) e' ∙ sym hy.1, shifted n x h ∙ hx.0 ∙ ap (λ r. r / 2) e' ∙ sym hy.0)

get_or-longlong2bits :
    (n i x y : ℕ) → n ≤ 64 → SameBits n x y → i < n → get_or (longlong2bits n x) i 0 ≡ bit_of y i
unfolding longlong2bits
get_or-longlong2bits zero i x y h e k = absurd (omega arith)
get_or-longlong2bits (suc n) zero x y h e k = ground (arith, keep_bits n x y (omega arith) e)
get_or-longlong2bits (suc n) (suc i) x y h e k =
    get_or-longlong2bits n i _ (y / 2) (omega arith) (keep_bits n x y (omega arith) e).1
      (omega arith)
    ∙ ap (λ q. if q % 2 == 0 then b'0' else b'1')
        (half_div (2 ^ i) y (two-pow-pos i) ∙ ap (λ p. y / p) (sym (two-pow-suc i)))

-- Reading 64 bits from the highest to the lowest: what was read is the quotient so far.
bits2longlong_from :
    (n v : ℕ) (bits : List ℕ)
    → v < 2 ^ 64
    → ((i : ℕ) → i < n → get_or bits i 0 ≡ bit_of v i)
    → bits2longlong n (v / 2 ^ n) bits ≡ v
unfolding bits2longlong
bits2longlong_from zero v bits h same = omega arith
bits2longlong_from (suc n) v bits h same =
    ap (λ t. bits2longlong n t bits) one_more
    ∙ bits2longlong_from n v bits h (λ i k. same i (omega arith))
  where
    one_more :
        u64 (if get_or bits n 0 == b'0' then v / 2 ^ suc n * 2 else v / 2 ^ suc n * 2 + 1)
        ≡ v / 2 ^ n
    one_more = ground (
      arith,
      same n (omega arith),
      div_half (2 ^ n) v (two-pow-pos n),
      ap (λ p. v / p) (two-pow-suc n),
    )

-- A number below 2 ^ 64 is read back from its 64 bits, also when it is negative as a long long.
pub bits2longlong-longlong2bits : (v : ℕ) → v < 2 ^ 64 → bits2longlong 64 0 (longlong2bits 64 v) ≡ v
bits2longlong-longlong2bits v h =
    ap (λ t. bits2longlong 64 t (longlong2bits 64 v)) (omega arith)
    ∙ bits2longlong_from 64 v (longlong2bits 64 v) h
        (λ i k. get_or-longlong2bits 64 i v v (omega arith) refl k)
