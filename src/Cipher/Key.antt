-- ===== src/Cipher/Key.antt =====
-- `get_key_from_userID` of DES/cipher.c: which entry of the key table a packet is encrypted with.
pub mod Laws
use da_bao.Base.{ℕ, zero, suc, ◌+◌, ◌*◌, ◌%◌, bit_and, bit_xor, List, [], ◌∷◌, get_or, sar64}

-- `TABLE_SIZE`
abbrev pub table_size : ℕ
table_size = 1024 * 16

-- `*(long long*)bytes`, on a little-endian machine.
abbrev pub load_le : List ℕ → ℕ
load_le [] = 0
load_le (b ∷ bs) = b + 256 * load_le bs

-- One of the two loops of four rounds, with `n` rounds left.
pub key_offset_loop : ℕ → ℕ → ℕ → ℕ → ℕ
key_offset_loop zero whole shift key_offset = key_offset
key_offset_loop (suc n) whole shift key_offset =
    key_offset_loop n whole (shift + 14) (bit_xor key_offset (bit_and (sar64 whole shift) 0x3fff))

-- `temp1UserID` and `temp2UserID`
pub temp1_user_id : List ℕ → List ℕ
temp1_user_id user_id =
    get_or user_id 15 0
    ∷ get_or user_id 14 0
    ∷ get_or user_id 13 0
    ∷ get_or user_id 12 0
    ∷ get_or user_id 11 0
    ∷ get_or user_id 10 0
    ∷ get_or user_id 9 0
    ∷ get_or user_id 8 0
    ∷ []

pub temp2_user_id : List ℕ → List ℕ
temp2_user_id user_id =
    get_or user_id 8 0
    ∷ get_or user_id 7 0
    ∷ get_or user_id 6 0
    ∷ get_or user_id 5 0
    ∷ get_or user_id 4 0
    ∷ get_or user_id 3 0
    ∷ get_or user_id 2 0
    ∷ get_or user_id 1 0
    ∷ []

pub key_offset : List ℕ → ℕ
unfolding key_offset_loop temp1_user_id temp2_user_id
key_offset user_id =
    key_offset_loop 4 (load_le (temp2_user_id user_id)) 0
      (key_offset_loop 4 (load_le (temp1_user_id user_id)) 0 0)

-- The key is read from the table that `keyTableBase` points to.
pub get_key_from_user_id : List ℕ → List ℕ → ℕ
unfolding key_offset
get_key_from_user_id user_id key_table_base =
    get_or key_table_base (key_offset user_id % table_size) 0
