-- ===== src/Cipher/Block/Words.antt =====
-- One word: the rotation of `encrypt_word` is undone by that of `decrypt_word`.
use da_bao.Base.{ℕ, zero, suc, ◌+◌, ◌-◌, ◌*◌, ◌/◌, ◌%◌, ◌^◌, ◌≤◌, ◌<◌, bit_and, bit_xor}
use da_bao.Base.{◌≡◌, arith, ap, u32, ◌<<<◌, ◌>>>◌}
use da_bao.Base.{◌∙◌, sym, ap}
use da_bao.Base.Bits.{
  bit_xor_twice, bit_xor_comm, bit_xor-lt, bit_xor_join, bit_and_low, two-pow_add,
}
use native.Mathlib.Nat.{div-le_self, div-eq_of_eq-mul_left, one-le-pow, pow-suc}
use native.Mathlib.Nat.{div-eq_of_eq-mul_left, div-lt_iff_lt-mul, div-add-mod', mod-lt}
use da_bao.Cipher.Block.{cal_nonzero_loop, cal_nonzero_bits, encrypt_word, decrypt_word}

-- A number of `k` bits has at most `k` ones.
cal_nonzero_loop-le : (n k d r : ℕ) → d < 2 ^ k → cal_nonzero_loop n d r ≤ k + r
unfolding cal_nonzero_loop
cal_nonzero_loop-le zero k d r h = omega arith
cal_nonzero_loop-le (suc n) zero d r h = ground arith
cal_nonzero_loop-le (suc n) (suc k) d r h = ground (
  arith,
  pow-suc 2 k,
  cal_nonzero_loop-le n k ((d - 1) / 2) (r + 1),
  cal_nonzero_loop-le n k (d / 2) r,
)

pub cal_nonzero_bits-le : (k d : ℕ) → d < 2 ^ k → cal_nonzero_bits d ≤ k
unfolding cal_nonzero_bits
cal_nonzero_bits-le k d h = omega (arith, cal_nonzero_loop-le 32 k d 0 h)

pub two-pow_pos : (k : ℕ) → 0 < 2 ^ k
two-pow_pos k = one-le-pow k 2 (omega arith)

-- The two halves of `x << c` of a 16-bit word, in one word: a rotation to the left.
abbrev pub turned_left : ℕ → ℕ → ℕ
turned_left c x = bit_xor (u32 (x <<< c) >>> 16) (bit_and (u32 (x <<< c)) 0xffff)

abbrev pub turned_right : ℕ → ℕ → ℕ
turned_right c y = bit_xor ((u32 (y <<< 16) >>> c) >>> 16) (bit_and (u32 (y <<< 16) >>> c) 0xffff)

pub turned_left-lt : (c x : ℕ) → turned_left c x < 65536
turned_left-lt c x = bit_xor-lt 16 _ _ (omega arith) (omega (arith, bit_and_low 16 (u32 (x <<< c))))

pub turned_right-lt : (c y : ℕ) → turned_right c y < 65536
turned_right-lt c y =
    bit_xor-lt 16 _ _ (omega (arith, div-le_self (u32 (y <<< 16)) (2 ^ c)))
      (omega (arith, bit_and_low 16 (u32 (y <<< 16) >>> c)))

-- A word is split by `2 ^ d`, and its parts change places.
module _ (p q x : ℕ) (pos : 0 < p) (pos' : 0 < q) (split : p * q ≡ 65536) (fits : x < 65536) where
  pub low_scaled : x % q * p < 65536
  low_scaled = grind arith

  pub high_small : x / q < p
  high_small = (div-lt_iff_lt-mul pos').1 (omega arith)

  pub scaled : x * p ≡ x / q * 65536 + x % q * p
  scaled = omega (arith, ap (λ (t : ℕ). t * p) (div-add-mod' x q), ap (λ (t : ℕ). x / q * t) split)

pub turned_left_split :
    (c d x : ℕ) → c + d ≡ 16 → x < 65536 → turned_left c x ≡ x % 2 ^ d * 2 ^ c + x / 2 ^ d
turned_left_split c d x e h = ground (
  arith,
  low_scaled (2 ^ c) (2 ^ d) x,
  high_small (2 ^ c) (2 ^ d) x,
  scaled (2 ^ c) (2 ^ d) x,
  one-le-pow c 2,
  one-le-pow d 2,
  two-pow_add c d 16 e,
  bit_and_low 16 (u32 (x <<< c)),
  bit_xor_comm 16 (x / 2 ^ d) (x % 2 ^ d * 2 ^ c),
  bit_xor_join c (x % 2 ^ d) (x / 2 ^ d),
)

module _ (p q a b : ℕ) (pos : 0 < p) (split : p * q ≡ 65536) (fits : a < q) (fits' : b < p) where
  joined_fits : a * p + b < 65536
  joined_fits = grind arith

  low_fits : b * q < 65536
  low_fits = grind arith

  shifted_back : (a * p + b) * 65536 / p ≡ a * 65536 + b * q
  shifted_back =
      div-eq_of_eq-mul_left pos
        (omega (arith, ap (λ (t : ℕ). (a * p + b) * t) split, ap (λ (t : ℕ). a * t * p) split))

turned_right_join :
    (c d a b : ℕ)
    → c + d ≡ 16
    → a < 2 ^ d
    → b < 2 ^ c
    → turned_right c (a * 2 ^ c + b) ≡ b * 2 ^ d + a
turned_right_join c d a b e h h' = ground (
  arith,
  joined_fits (2 ^ c) (2 ^ d) a b,
  low_fits (2 ^ c) (2 ^ d) a b,
  shifted_back (2 ^ c) (2 ^ d) a b,
  one-le-pow c 2,
  two-pow_add c d 16 e,
  bit_and_low 16 (u32 ((a * 2 ^ c + b) <<< 16) >>> c),
  bit_xor_comm 16 a (b * 2 ^ d),
  bit_xor_join d b a,
)

pub turned_right_split :
    (c d y : ℕ) → c + d ≡ 16 → y < 65536 → turned_right c y ≡ y % 2 ^ c * 2 ^ d + y / 2 ^ c
turned_right_split c d y e h =
    let parts : y / 2 ^ c * 2 ^ c + y % 2 ^ c ≡ y = div-add-mod' y (2 ^ c) in
    ap (turned_right c) (sym parts)
    ∙ turned_right_join c d (y / 2 ^ c) (y % 2 ^ c) e (high_part c d y e h)
        (mod-lt y (two-pow_pos c))
  where
    high_part : (c d y : ℕ) → c + d ≡ 16 → y < 65536 → y / 2 ^ c < 2 ^ d
    high_part c d y e h =
        (div-lt_iff_lt-mul (two-pow_pos c)).1 (omega (arith, two-pow_add c d 16 e))

-- Rotating back restores the word, in either order.
turned_right_left : (c x : ℕ) → c ≤ 16 → x < 65536 → turned_right c (turned_left c x) ≡ x
turned_right_left c x h fits =
    ap (turned_right c) (turned_left_split c d x (omega arith) fits)
    ∙ turned_right_join c d (x % 2 ^ d) (x / 2 ^ d) (omega arith) (mod-lt x (two-pow_pos d)) high
    ∙ div-add-mod' x (2 ^ d)
  where
    d : ℕ
    d = 16 - c

    high : x / 2 ^ d < 2 ^ c
    high = (div-lt_iff_lt-mul (two-pow_pos d)).1 (omega (arith, two-pow_add c d 16 (omega arith)))

swap_parts : (q a b : ℕ) → a < q → ((b * q + a) % q ≡ a) × ((b * q + a) / q ≡ b)
swap_parts q a b h = grind arith

turned_left_right : (c y : ℕ) → c ≤ 16 → y < 65536 → turned_left c (turned_right c y) ≡ y
turned_left_right c y h fits =
    ap (turned_left c) (turned_right_split c d y (omega arith) fits)
    ∙ turned_left_split c d (b * 2 ^ d + a) (omega arith)
        (omega (arith, turned_right_split c d y (omega arith) fits, turned_right-lt c y))
    ∙ rw ((swap_parts (2 ^ d) a b high).0, (swap_parts (2 ^ d) a b high).1) (div-add-mod' y (2 ^ c))
  where
    d : ℕ
    d = 16 - c

    a : ℕ
    a = y / 2 ^ c

    b : ℕ
    b = y % 2 ^ c

    high : a < 2 ^ d
    high = (div-lt_iff_lt-mul (two-pow_pos c)).1 (omega (arith, two-pow_add c d 16 (omega arith)))

module _ (chain key : ℕ) (chain_fits : chain < 65536) (key_fits : key < 65536) where
  pub encrypt_word-lt : (clr : ℕ) → encrypt_word chain clr key < 65536
  unfolding encrypt_word
  encrypt_word-lt clr = bit_xor-lt 16 _ _ (turned_left-lt (cal_nonzero_bits key) _) key_fits

  pub decrypt_word-lt : (clr : ℕ) → decrypt_word chain clr key < 65536
  unfolding decrypt_word
  decrypt_word-lt clr = bit_xor-lt 16 _ _ (turned_right-lt (cal_nonzero_bits key) _) chain_fits

  -- Decrypting a word undoes encrypting it.
  pub decrypt_word-encrypt_word :
      (clr : ℕ) → clr < 65536 → decrypt_word chain (encrypt_word chain clr key) key ≡ clr
  unfolding encrypt_word decrypt_word
  decrypt_word-encrypt_word clr fits =
      let turned = turned_left (cal_nonzero_bits key) (bit_xor chain clr) in
      ap (λ t. bit_xor (turned_right (cal_nonzero_bits key) t) chain)
        (bit_xor_comm 16 key (bit_xor turned key) key_fits
            (bit_xor-lt 16 turned key (turned_left-lt _ _) key_fits)
          ∙ bit_xor_twice 16 turned key (turned_left-lt _ _) key_fits)
      ∙ ap (λ t. bit_xor t chain)
          (turned_right_left (cal_nonzero_bits key) (bit_xor chain clr)
              (cal_nonzero_bits-le 16 key key_fits) (bit_xor-lt 16 chain clr chain_fits fits)
            ∙ bit_xor_comm 16 chain clr chain_fits fits)
      ∙ bit_xor_twice 16 clr chain fits chain_fits

  -- Encrypting a word undoes decrypting it.
  pub encrypt_word-decrypt_word :
      (clr : ℕ) → clr < 65536 → encrypt_word chain (decrypt_word chain clr key) key ≡ clr
  unfolding encrypt_word decrypt_word
  encrypt_word-decrypt_word clr fits =
      let turned = turned_right (cal_nonzero_bits key) (bit_xor key clr) in
      ap (λ t. bit_xor (turned_left (cal_nonzero_bits key) t) key)
        (bit_xor_comm 16 chain (bit_xor turned chain) chain_fits
            (bit_xor-lt 16 turned chain (turned_right-lt _ _) chain_fits)
          ∙ bit_xor_twice 16 turned chain (turned_right-lt _ _) chain_fits)
      ∙ ap (λ t. bit_xor t key)
          (turned_left_right (cal_nonzero_bits key) (bit_xor key clr)
              (cal_nonzero_bits-le 16 key key_fits) (bit_xor-lt 16 key clr key_fits fits)
            ∙ bit_xor_comm 16 key clr key_fits fits)
      ∙ bit_xor_twice 16 clr key fits key_fits
