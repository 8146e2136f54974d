-- ===== src/Server/Cipher.antt =====
-- server/cipher.c, the cipher of four 16-bit groups with its own test program.
pub mod Ones
pub mod Groups
pub mod Laws
pub mod Main
use da_bao.Base.{
  ℕ, zero, suc, ◌+◌, ◌-◌, ◌*◌, ◌/◌, ◌%◌, ◌^◌, Bool, ◌&&◌, ◌==◌, leb, bit_and, bit_or, bit_xor, List,
  [], ◌∷◌, ◌++◌, get_or, drop, Option, some, none, if◌then◌else◌, u8, u16, ◌<<<◌, ◌>>>◌,
}

-- `INITKEY`, `SIZE` and `GROUPS`
abbrev pub init_key : ℕ
init_key = 0x1234

abbrev pub size : ℕ
size = 8

abbrev pub groups : ℕ
groups = 4

-- The loop of `__binary` with `n` rounds left; what it prints is left out.
unfoldable pub binary_loop : ℕ → ℕ → ℕ → ℕ → ℕ
binary_loop zero tmp cmp counter = counter
binary_loop (suc n) tmp cmp counter =
    binary_loop n tmp (cmp >>> 1) (if bit_and tmp cmp == 0 then counter else counter + 1)

-- `getCounter`
unfoldable pub get_counter : ℕ → ℕ
unfolding binary_loop
get_counter value = binary_loop 16 value 0x8000 0

unfoldable pub uint16_to_char : ℕ → List ℕ
uint16_to_char value = u8 value ∷ u8 (value >>> 8) ∷ []

-- `charToUint16` of the two bytes from `i` on
unfoldable pub char_to_uint16 : List ℕ → ℕ → ℕ
char_to_uint16 ch i = bit_or (bit_or 0 (get_or ch (i + 1) 0 <<< 8)) (get_or ch i 0)

-- `ROTATE_LEFT` and `ROTATE_RIGHT`, stored in a `uint16_t`
unfoldable pub rotate_left : ℕ → ℕ → ℕ
rotate_left x n = u16 (bit_or (x <<< n) (x >>> (16 - n)))

unfoldable pub rotate_right : ℕ → ℕ → ℕ
rotate_right x n = u16 (bit_or (x >>> n) (x <<< (16 - n)))

-- `__encipher`
unfoldable pub encipher_part : ℕ → ℕ → ℕ
unfolding get_counter rotate_left
encipher_part plain key = bit_xor (rotate_left plain (get_counter key)) key

-- The loop of `encipher` from group `i` on, with `n` rounds left.
unfoldable pub encipher_loop : ℕ → ℕ → ℕ → List ℕ → List ℕ → List ℕ
unfolding char_to_uint16 encipher_part uint16_to_char
encipher_loop zero i cipher_key plaintext key = []
encipher_loop (suc n) i cipher_key plaintext key =
    let tmp = bit_xor (char_to_uint16 plaintext (i * 2)) cipher_key in
    let next_key = encipher_part tmp (char_to_uint16 key (i * 2)) in
    uint16_to_char next_key ++ encipher_loop n (suc i) next_key plaintext key

unfoldable pub decipher_loop : ℕ → ℕ → ℕ → List ℕ → List ℕ → List ℕ
unfolding char_to_uint16 get_counter rotate_right uint16_to_char
decipher_loop zero i cipher_key key ciphertext = []
decipher_loop (suc n) i cipher_key key ciphertext =
    let cipher_part = char_to_uint16 ciphertext (i * 2) in
    let key_part = char_to_uint16 key (i * 2) in
    let tmp = rotate_right (bit_xor cipher_part key_part) (get_counter key_part) in
    uint16_to_char (bit_xor tmp cipher_key) ++ decipher_loop n (suc i) cipher_part key ciphertext

unfoldable pub strlen : List ℕ → ℕ
strlen [] = 0
strlen (x ∷ s) = if x == 0 then 0 else suc (strlen s)

-- The three assertions that `encipher` and `decipher` start with.
abbrev pub asserted : List ℕ → List ℕ → List ℕ → Bool
asserted plaintext key ciphertext =
    leb (strlen plaintext) size && (leb (strlen key) size && leb (strlen ciphertext) size)

-- The array `ciphertext` after `encipher`; `none` is an assertion that fails.
unfoldable pub encipher : List ℕ → List ℕ → List ℕ → Option (List ℕ)
unfolding encipher_loop
encipher plaintext key ciphertext =
    if asserted plaintext key ciphertext
    then some (encipher_loop groups 0 init_key plaintext key ++ drop size ciphertext)
    else none

-- The array `plaintext` after `decipher`, which ends it with a zero.
unfoldable pub decipher : List ℕ → List ℕ → List ℕ → Option (List ℕ)
unfolding decipher_loop
decipher plaintext key ciphertext =
    if asserted plaintext key ciphertext
    then some (decipher_loop groups 0 init_key key ciphertext ++ (0 ∷ drop (size + 1) plaintext))
    else none
