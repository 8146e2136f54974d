-- ===== src/SocketTools.antt =====
-- socket_tools.c of the client and of the server: integers in network byte order.
-- A function that writes through `buffer` and returns the advanced pointer is modelled by the bytes
-- that it writes; a read takes what stands from `buffer` on.
pub mod Laws
use da_bao.Base.{ℕ, zero, suc, ◌+◌, ◌*◌, List, [], ◌∷◌, get_or, drop, u8, u16, u32, u64}
use da_bao.Base.{◌<<<◌, ◌>>>◌}

-- `for (; bit<bits; bit++) buffer[bit] = value >> (bits-1-bit)*8;` with `n` rounds left.
pub serialize_loop : ℕ → ℕ → List ℕ
serialize_loop zero value = []
serialize_loop (suc n) value = u8 (value >>> (n * 8)) ∷ serialize_loop n value

unfoldable pub serialize_u64 : ℕ → List ℕ
unfolding serialize_loop
serialize_u64 value = serialize_loop 8 value

unfoldable pub serialize_u32 : ℕ → List ℕ
unfolding serialize_loop
serialize_u32 value = serialize_loop 4 value

unfoldable pub serialize_u16 : ℕ → List ℕ
unfolding serialize_loop
serialize_u16 value = serialize_loop 2 value

unfoldable pub serialize_u8 : ℕ → List ℕ
serialize_u8 value = value ∷ []

-- `for (; i<n; i++) value = (value << 8) + buffer[i];` in a type that `wrap` cuts to its width.
pub deserialize_loop : (ℕ → ℕ) → ℕ → ℕ → List ℕ → ℕ
deserialize_loop wrap zero value buffer = value
deserialize_loop wrap (suc n) value buffer =
    deserialize_loop wrap n (wrap ((value <<< 8) + get_or buffer 0 0)) (drop 1 buffer)

unfoldable pub deserialize_u8 : List ℕ → ℕ
deserialize_u8 buffer = get_or buffer 0 0

unfoldable pub deserialize_u16 : List ℕ → ℕ
unfolding deserialize_loop
deserialize_u16 buffer = deserialize_loop u16 2 0 buffer

unfoldable pub deserialize_u32 : List ℕ → ℕ
unfolding deserialize_loop
deserialize_u32 buffer = deserialize_loop u32 4 0 buffer

unfoldable pub deserialize_u64 : List ℕ → ℕ
unfolding deserialize_loop
deserialize_u64 buffer = deserialize_loop u64 8 0 buffer
