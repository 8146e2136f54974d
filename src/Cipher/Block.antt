-- ===== src/Cipher/Block.antt =====
-- The block cipher of client/DES/cipher.c and server/DES/cipher.c: eight bytes as four 16-bit
-- words, chained, each rotated by the number of ones of its key word and masked with that word.
-- A `char` is its bit pattern below 256, a `long long` its pattern below 2 ^ 64.
pub mod Words
pub mod Bytes
pub mod Laws
use da_bao.Base.{ℕ, zero, suc, ◌+◌, ◌-◌, ◌*◌, ◌/◌, ◌%◌, ◌^◌, bit_and, bit_or, bit_xor}
use da_bao.Base.{List, [], ◌∷◌, ◌==◌, if◌then◌else◌, get_or, u32, u64, sar64, ◌<<<◌, ◌>>>◌}

-- `ENCRYPT`
abbrev pub encrypt_const : ℕ
encrypt_const = 0x1234

-- The loop of `cal_nonzero_bits` with `n` rounds left. Its callers pass no negative number.
unfoldable pub cal_nonzero_loop : ℕ → ℕ → ℕ → ℕ
cal_nonzero_loop zero data_in result = result
cal_nonzero_loop (suc n) data_in result =
    let rest =
      cal_nonzero_loop n (if data_in % 2 == 1 then (data_in - 1) / 2 else data_in / 2)
        (if data_in % 2 == 1 then result + 1 else result) in
    if data_in == 0 then result else rest

unfoldable pub cal_nonzero_bits : ℕ → ℕ
unfolding cal_nonzero_loop
cal_nonzero_bits data_in = cal_nonzero_loop 32 data_in 0

-- The loop of `longlong2char` with `n` rounds left.
pub longlong2char_loop : ℕ → ℕ → List ℕ
longlong2char_loop zero long_in = []
longlong2char_loop (suc n) long_in = bit_and long_in 0xff ∷ longlong2char_loop n (sar64 long_in 8)

pub longlong2char : ℕ → List ℕ
unfolding longlong2char_loop
longlong2char long_in = longlong2char_loop 8 long_in

-- `*(int*)clr` of `char clr[4] = {b0, b1, 0x00, 0x00}`, on a little-endian machine.
abbrev pub clr_data : ℕ → ℕ → ℕ
clr_data b0 b1 = b0 + 256 * b1 + 65536 * 0 + 16777216 * 0

-- `key & 0xffff`, `(key >> 16) & 0xffff`, …
abbrev pub key_word : ℕ → ℕ → ℕ
key_word key shift = bit_and (sar64 key shift) 0xffff

-- The lines of `own_encrypt` for one word: `xor_r1`, `lp_left_r` and `xor_r2`.
unfoldable pub encrypt_word : ℕ → ℕ → ℕ → ℕ
unfolding cal_nonzero_bits
encrypt_word chain clr key =
    let lp_left = u32 (bit_xor chain clr <<< cal_nonzero_bits key) in
    bit_xor (bit_xor (lp_left >>> 16) (bit_and lp_left 0xffff)) key

-- The lines of `own_decrypt` for one word: `xor_r1`, `lp_right_r` and `xor_r2`.
unfoldable pub decrypt_word : ℕ → ℕ → ℕ → ℕ
unfolding cal_nonzero_bits
decrypt_word chain clr key =
    let lp_right = u32 (bit_xor key clr <<< 16) >>> cal_nonzero_bits key in
    bit_xor (bit_xor (lp_right >>> 16) (bit_and lp_right 0xffff)) chain

-- `result << 16 | word`
abbrev pub join_word : ℕ → ℕ → ℕ
join_word result word = bit_or (u64 (result <<< 16)) word

abbrev pub join_words : ℕ → ℕ → ℕ → ℕ → ℕ
join_words r0 r1 r2 r3 = join_word (join_word (join_word r3 r2) r1) r0

-- The eight bytes that are written to `strOut`.
unfoldable pub own_encrypt : List ℕ → ℕ → List ℕ
unfolding encrypt_word longlong2char
own_encrypt str_in key =
    let xor_r20 =
      encrypt_word encrypt_const (clr_data (get_or str_in 0 0) (get_or str_in 1 0))
        (key_word key 0) in
    let xor_r21 =
      encrypt_word xor_r20 (clr_data (get_or str_in 2 0) (get_or str_in 3 0)) (key_word key 16) in
    let xor_r22 =
      encrypt_word xor_r21 (clr_data (get_or str_in 4 0) (get_or str_in 5 0)) (key_word key 32) in
    let xor_r23 =
      encrypt_word xor_r22 (clr_data (get_or str_in 6 0) (get_or str_in 7 0)) (key_word key 48) in
    longlong2char (join_words xor_r20 xor_r21 xor_r22 xor_r23)

unfoldable pub own_decrypt : List ℕ → ℕ → List ℕ
unfolding decrypt_word longlong2char
own_decrypt str_in key =
    let clr_data0 = clr_data (get_or str_in 0 0) (get_or str_in 1 0) in
    let clr_data1 = clr_data (get_or str_in 2 0) (get_or str_in 3 0) in
    let clr_data2 = clr_data (get_or str_in 4 0) (get_or str_in 5 0) in
    let clr_data3 = clr_data (get_or str_in 6 0) (get_or str_in 7 0) in
    longlong2char (
      join_words (decrypt_word encrypt_const clr_data0 (key_word key 0))
        (decrypt_word clr_data0 clr_data1 (key_word key 16))
        (decrypt_word clr_data1 clr_data2 (key_word key 32))
        (decrypt_word clr_data2 clr_data3 (key_word key 48)))
