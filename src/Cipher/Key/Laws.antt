-- ===== src/Cipher/Key/Laws.antt =====
-- The key's place in the table is in range, and depends on 14 bytes of the header.
use da_bao.Base.{ℕ, zero, suc, ◌+◌, ◌%◌, ◌^◌, ◌≤◌, ◌<◌, bit_and, bit_xor}
use da_bao.Base.{◌≡◌, arith, ap, ◌∙◌, List, get_or, sar64}
use da_bao.Base.Bits.{bit_and_low, bit_xor-lt}
use da_bao.Cipher.Key.{table_size, load_le, key_offset_loop, temp1_user_id, temp2_user_id}
use da_bao.Cipher.Key.{key_offset, get_key_from_user_id}

key_offset_loop-lt :
    (n whole shift offset : ℕ) → offset < 2 ^ 14 → key_offset_loop n whole shift offset < 2 ^ 14
unfolding key_offset_loop
key_offset_loop-lt zero whole shift offset h = h
key_offset_loop-lt (suc n) whole shift offset h =
    key_offset_loop-lt n whole (shift + 14) _
      (bit_xor-lt 14 _ _ h (omega (arith, bit_and_low 14 (sar64 whole shift))))

-- The offset that an identifier selects is below the size of the key table.
pub key_offset-lt : (user_id : List ℕ) → key_offset user_id < table_size
unfolding key_offset
key_offset-lt user_id = key_offset_loop-lt 4 _ 0 _ (key_offset_loop-lt 4 _ 0 0 (omega arith))

-- The four slices of 14 bits that a loop reads stand below bit 56.
abbrev slice : ℕ → ℕ → ℕ
slice whole shift = bit_and (sar64 whole shift) 0x3fff

module _ (x y : ℕ) (e : x % 2 ^ 56 ≡ y % 2 ^ 56) where
  slice_0 : slice x 0 ≡ slice y 0
  slice_0 = ground (arith, bit_and_low 14 (sar64 x 0), bit_and_low 14 (sar64 y 0))

  slice_14 : slice x 14 ≡ slice y 14
  slice_14 = ground (arith, bit_and_low 14 (sar64 x 14), bit_and_low 14 (sar64 y 14))

  slice_28 : slice x 28 ≡ slice y 28
  slice_28 = ground (arith, bit_and_low 14 (sar64 x 28), bit_and_low 14 (sar64 y 28))

  slice_42 : slice x 42 ≡ slice y 42
  slice_42 = ground (arith, bit_and_low 14 (sar64 x 42), bit_and_low 14 (sar64 y 42))

  loop_below_56 : (offset : ℕ) → key_offset_loop 4 x 0 offset ≡ key_offset_loop 4 y 0 offset
  unfolding key_offset_loop
  loop_below_56 offset = λ i.
      bit_xor (bit_xor (bit_xor (bit_xor offset (slice_0 i)) (slice_14 i)) (slice_28 i))
        (slice_42 i)

-- Identifiers that agree in bytes 2 to 15 select the same entry of the key table.
pub key_offset_local :
    (u v : List ℕ)
    → ((i : ℕ) → 2 ≤ i → i < 16 → get_or u i 0 ≡ get_or v i 0)
    → key_offset u ≡ key_offset v
unfolding key_offset temp1_user_id temp2_user_id
key_offset_local u v same =
    loop_below_56 _ _ low2 _
    ∙ ap (λ o. key_offset_loop 4 (load_le (temp2_user_id v)) 0 o) (loop_below_56 _ _ low1 0)
  where
    low1 : load_le (temp1_user_id u) % 2 ^ 56 ≡ load_le (temp1_user_id v) % 2 ^ 56
    low1 = ground (arith, same 15, same 14, same 13, same 12, same 11, same 10, same 9)

    low2 : load_le (temp2_user_id u) % 2 ^ 56 ≡ load_le (temp2_user_id v) % 2 ^ 56
    low2 = ground (arith, same 8, same 7, same 6, same 5, same 4, same 3, same 2)

-- So does the key itself, whatever the table holds.
pub get_key_local :
    (u v key_table : List ℕ)
    → ((i : ℕ) → 2 ≤ i → i < 16 → get_or u i 0 ≡ get_or v i 0)
    → get_key_from_user_id u key_table ≡ get_key_from_user_id v key_table
unfolding get_key_from_user_id
get_key_local u v key_table same =
    ap (λ o. get_or key_table (o % table_size) 0) (key_offset_local u v same)
