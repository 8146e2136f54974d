-- ===== src/SocketTools/Laws.antt =====
-- Reading an integer back, and writing back what was read.
use da_bao.Base.{ℕ, ◌^◌, ◌<◌, ◌≡◌, refl, arith}
use da_bao.Base.{List, [], ◌∷◌, ◌++◌}
use da_bao.SocketTools.{serialize_u64, serialize_u32, serialize_u16, serialize_u8}
use da_bao.SocketTools.{deserialize_u64, deserialize_u32, deserialize_u16, deserialize_u8}

-- What stands behind a number that is written is left for the next read.
pub deserialize_u8-serialize_u8 :
    (value : ℕ) (rest : List ℕ) → deserialize_u8 (serialize_u8 value ++ rest) ≡ value
unfolding deserialize_u8 serialize_u8
deserialize_u8-serialize_u8 value rest = refl

pub deserialize_u16-serialize_u16 :
    (value : ℕ) (rest : List ℕ)
    → value < 2 ^ 16
    → deserialize_u16 (serialize_u16 value ++ rest) ≡ value
unfolding deserialize_u16 serialize_u16
deserialize_u16-serialize_u16 value rest h = omega arith

pub deserialize_u32-serialize_u32 :
    (value : ℕ) (rest : List ℕ)
    → value < 2 ^ 32
    → deserialize_u32 (serialize_u32 value ++ rest) ≡ value
unfolding deserialize_u32 serialize_u32
deserialize_u32-serialize_u32 value rest h = omega arith

pub deserialize_u64-serialize_u64 :
    (value : ℕ) (rest : List ℕ)
    → value < 2 ^ 64
    → deserialize_u64 (serialize_u64 value ++ rest) ≡ value
unfolding deserialize_u64 serialize_u64
deserialize_u64-serialize_u64 value rest h = omega arith

pub serialize_u16-deserialize_u16 :
    (a b : ℕ) (rest : List ℕ)
    → a < 256
    → b < 256
    → serialize_u16 (deserialize_u16 (a ∷ b ∷ rest)) ≡ a ∷ b ∷ []
unfolding deserialize_u16 serialize_u16
serialize_u16-deserialize_u16 a b rest ha hb = ground arith

pub serialize_u32-deserialize_u32 :
    (a b c d : ℕ) (rest : List ℕ)
    → a < 256
    → b < 256
    → c < 256
    → d < 256
    → serialize_u32 (deserialize_u32 (a ∷ b ∷ c ∷ d ∷ rest)) ≡ a ∷ b ∷ c ∷ d ∷ []
unfolding deserialize_u32 serialize_u32
serialize_u32-deserialize_u32 a b c d rest ha hb hc hd = ground arith
