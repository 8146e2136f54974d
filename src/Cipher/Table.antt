-- ===== src/Cipher/Table.antt =====
-- The key table of DES/cipher.c: `des_key_init` and the shift register that gives its entries.
-- A `long long` is its pattern below 2 ^ 64, a bit is one of the characters '0' and '1'.
pub mod Laws
pub mod Nonzero
use da_bao.Base.{
  ℕ, zero, suc, ◌+◌, ◌-◌, ◌*◌, ◌/◌, ◌%◌, ◌^◌, List, [], ◌∷◌, ◌++◌, get_or, ◌==◌, if◌then◌else◌, u64,
  sar64,
}

-- The loop of `longlong2bits` with `n` rounds left. Both divisions by two are exact.
pub longlong2bits : ℕ → ℕ → List ℕ
longlong2bits zero temp = []
longlong2bits (suc n) temp =
    (if temp % 2 == 0 then b'0' else b'1')
    ∷ longlong2bits n (if temp % 2 == 0 then sar64 temp 1 else sar64 (temp - 1) 1)

-- The loop of `bits2longlong` with `n` rounds left, for 64 bits: the next character is `n - 1`.
pub bits2longlong : ℕ → ℕ → List ℕ → ℕ
bits2longlong zero temp str_in = temp
bits2longlong (suc n) temp str_in =
    bits2longlong n (u64 (if get_or str_in n 0 == b'0' then temp * 2 else temp * 2 + 1)) str_in

-- `oldBits[i] == oldBits[top] ? '0' : '1'`
abbrev pub differ : List ℕ → ℕ → ℕ → ℕ
differ old_bits i top = if get_or old_bits i 0 == get_or old_bits top 0 then b'0' else b'1'

-- `n` characters of the old bits, from `i` on.
abbrev pub copied : List ℕ → ℕ → ℕ → List ℕ
copied old_bits i zero = []
copied old_bits i (suc n) = get_or old_bits i 0 ∷ copied old_bits (suc i) n

-- One of the two halves, whose first bit is `base` and whose last is `top`.
pub nxt_half : List ℕ → ℕ → ℕ → List ℕ
nxt_half old_bits base top =
    get_or old_bits top 0
    ∷ get_or old_bits base 0
    ∷ differ old_bits (base + 1) top
    ∷ (copied old_bits (base + 2) 3
        ++ (differ old_bits (base + 5) top
            ∷ differ old_bits (base + 6) top
            ∷ copied old_bits (base + 7) 24))

pub nxt_bits : List ℕ → List ℕ
unfolding nxt_half
nxt_bits old_bits = nxt_half old_bits 0 31 ++ nxt_half old_bits 32 63

pub nxt_value : ℕ → ℕ
unfolding longlong2bits bits2longlong nxt_bits
nxt_value old_l = bits2longlong 64 0 (nxt_bits (longlong2bits 64 old_l))

-- The entries that `des_key_init` stores, the first being `seed`.
pub des_key_init : ℕ → ℕ → List ℕ
unfolding nxt_value
des_key_init zero seed = []
des_key_init (suc n) seed = seed ∷ des_key_init n (nxt_value seed)
