-- ===== src/Server/Cipher/Groups.antt =====
-- One group of server/cipher.c is one word of the block cipher.
use native.Mathlib.Nat.{div-le_self}
use da_bao.Base.{
  ℕ, suc, ◌+◌, ◌-◌, ◌*◌, ◌/◌, ◌%◌, ◌^◌, ◌≤◌, ◌<◌, ◌≡◌, refl, ap, ap₂, sym, ◌∙◌, arith, List, [],
  ◌∷◌, ◌++◌, get_or, bit_or, bit_xor, u16,
}
use da_bao.Base.Bits.{bit_or_join, bit_or_comm, bit_xor_comm, bit_xor-lt, two-pow_add}
use da_bao.Cipher.Block.{encrypt_word, cal_nonzero_bits}
use da_bao.Cipher.Block.Words.{
  turned_left, turned_right, turned_left_split, turned_right_split, low_scaled, high_small, scaled,
  two-pow_pos, turned_left-lt, cal_nonzero_bits-le, encrypt_word-lt,
}
use da_bao.Cipher.Block.Bytes.{IsBytes, word_at, word_at-lt, get_or-lt}
use da_bao.Cipher.Block.Laws.{}
use da_bao.Server.Cipher.{
  get_counter, uint16_to_char, char_to_uint16, rotate_left, rotate_right, encipher_part,
  encipher_loop,
}
use da_bao.Server.Cipher.Ones.{get_counter-cal_nonzero_bits}

pub same_counter : (x : ℕ) → x < 65536 → get_counter x ≡ cal_nonzero_bits x
same_counter x h = (get_counter-cal_nonzero_bits x h).0 ∙ sym (get_counter-cal_nonzero_bits x h).1

pub word_at_lem : (ch : List ℕ) (i : ℕ) → IsBytes ch → char_to_uint16 ch i ≡ word_at ch i
unfolding char_to_uint16
word_at_lem ch i h = ground (
  arith,
  get_or-lt ch i h,
  get_or-lt ch (suc i) h,
  bit_or_join 8 (get_or ch (suc i) 0) (get_or ch i 0),
  bit_or_join 16 0 (get_or ch (suc i) 0 * 256),
)

pub uint16_to_char_lem : (v : ℕ) → v < 65536 → uint16_to_char v ≡ v % 256 ∷ v / 256 ∷ []
unfolding uint16_to_char
uint16_to_char_lem v h = ground arith

module _ (n d x : ℕ) (e : n + d ≡ 16) (fits : x < 65536) where
  -- A word that is shifted by `n` with the bits that fall out put back below.
  wrapped : u16 (bit_or (x * 2 ^ n) (x / 2 ^ d)) ≡ x % 2 ^ d * 2 ^ n + x / 2 ^ d
  wrapped =
      let above : x / 2 ^ d < 2 ^ n =
        high_small (2 ^ n) (2 ^ d) x (two-pow_pos n) (two-pow_pos d) (two-pow_add n d 16 e) fits in
      let split : x * 2 ^ n ≡ x / 2 ^ d * 65536 + x % 2 ^ d * 2 ^ n =
        scaled (2 ^ n) (2 ^ d) x (two-pow_pos n) (two-pow_pos d) (two-pow_add n d 16 e) fits in
      let fits' : x % 2 ^ d * 2 ^ n + x / 2 ^ d < 65536 =
        omega (arith, turned_left_split n d x e fits, turned_left-lt n x) in
      omega (arith, bit_or_join n x (x / 2 ^ d) above, split, fits')

  -- `ROTATE_LEFT` is the rotation of `own_encrypt`.
  rotate_left_split : u16 (bit_or (x * 2 ^ n) (x / 2 ^ d)) ≡ turned_left n x
  rotate_left_split = wrapped ∙ sym (turned_left_split n d x e fits)

rotate_left_lem : (n x : ℕ) → n ≤ 16 → x < 65536 → rotate_left x n ≡ turned_left n x
unfolding rotate_left
rotate_left_lem n x le fits = rotate_left_split n (16 - n) x (omega arith) fits

shifted-lt : (n d x : ℕ) → n + d ≡ 16 → x < 65536 → x * 2 ^ d < 2 ^ 32
shifted-lt n d x e fits = omega (
  arith,
  div-le_self x (2 ^ n),
  scaled (2 ^ d) (2 ^ n) x (two-pow_pos d) (two-pow_pos n) (two-pow_add d n 16 (omega arith)) fits,
  low_scaled (2 ^ d) (2 ^ n) x (two-pow_pos d) (two-pow_pos n) (two-pow_add d n 16 (omega arith))
      fits,
)

pub rotate_right_lem : (n x : ℕ) → n ≤ 16 → x < 65536 → rotate_right x n ≡ turned_right n x
unfolding rotate_right
rotate_right_lem n x le fits =
    ap u16 (
      bit_or_comm 32 (x / 2 ^ n) (x * 2 ^ (16 - n)) (omega (arith, div-le_self x (2 ^ n)))
        (shifted-lt n (16 - n) x (omega arith) fits))
    ∙ wrapped (16 - n) n x (omega arith) fits
    ∙ sym (turned_right_split n (16 - n) x (omega arith) fits)

-- One group is one word of `own_encrypt`.
pub encipher_part_lem :
    (chain clr key : ℕ)
    → chain < 65536
    → clr < 65536
    → key < 65536
    → encipher_part (bit_xor clr chain) key ≡ encrypt_word chain clr key
unfolding encipher_part encrypt_word
encipher_part_lem chain clr key hc hp hk =
    ap (λ t. bit_xor t key)
      (ap₂ rotate_left (bit_xor_comm 16 clr chain hp hc) (same_counter key hk)
        ∙ rotate_left_lem (cal_nonzero_bits key) (bit_xor chain clr) (cal_nonzero_bits-le 16 key hk)
            (bit_xor-lt 16 chain clr hc hp))

encipher_step :
    (n i chain : ℕ) (p key : List ℕ)
    → encipher_loop (suc n) i chain p key
      ≡ uint16_to_char
          (encipher_part (bit_xor (char_to_uint16 p (i * 2)) chain) (char_to_uint16 key (i * 2)))
        ++ encipher_loop n
            (suc i)
            (encipher_part (bit_xor (char_to_uint16 p (i * 2)) chain) (char_to_uint16 key (i * 2)))
            p
            key
unfolding encipher_loop
encipher_step n i chain p key = refl

pub encipher_round :
    (n i chain word : ℕ) (p key : List ℕ)
    → chain < 65536
    → IsBytes p
    → IsBytes key
    → word_at key (i * 2) ≡ word
    → let c = encrypt_word chain (word_at p (i * 2)) word in
      encipher_loop (suc n) i chain p key ≡ c % 256 ∷ c / 256 ∷ encipher_loop n (suc i) c p key
encipher_round n i chain word p key hc hp hk e =
    encipher_step n i chain p key
    ∙ ap (λ v. uint16_to_char v ++ encipher_loop n (suc i) v p key) same
    ∙ ap (λ l. l ++ encipher_loop n (suc i) c p key) (uint16_to_char_lem c small)
  where
    word_lt : word < 65536
    word_lt = rw (← e) (word_at-lt key (i * 2) hk)

    c : ℕ
    c = encrypt_word chain (word_at p (i * 2)) word

    small : c < 65536
    small = encrypt_word-lt chain word hc word_lt (word_at p (i * 2))

    same : encipher_part (bit_xor (char_to_uint16 p (i * 2)) chain) (char_to_uint16 key (i * 2)) ≡ c
    same =
        ap₂ (λ a k. encipher_part (bit_xor a chain) k) (word_at_lem p (i * 2) hp)
          (word_at_lem key (i * 2) hk ∙ e)
        ∙ encipher_part_lem chain (word_at p (i * 2)) word hc (word_at-lt p (i * 2) hp) word_lt
