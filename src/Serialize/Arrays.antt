-- ===== src/Serialize/Arrays.antt =====
-- The loops of serialize.c over the arrays of a struct.
use da_bao.Base.{ℕ, zero, suc, ◌<◌, ◌≡◌, refl, arith, List, [], ◌∷◌, ◌++◌, length, drop, All}
use da_bao.SocketTools.{serialize_u8, serialize_u16, serialize_u32, serialize_u64}
use da_bao.SocketTools.{deserialize_u8, deserialize_u32}
use da_bao.SocketTools.Laws.{deserialize_u8-serialize_u8, deserialize_u32-serialize_u32}
use da_bao.Base.{◌^◌}
use mathlib.Core.List.{append_assoc}

-- `for (i=0; i<n; i++) buffer = write(buffer, xs[i]);`
unfoldable pub write_each : (ℕ → List ℕ) → List ℕ → List ℕ
write_each write [] = []
write_each write (x ∷ xs) = write x ++ write_each write xs

-- `for (i=0; i<n; i++) { xs[i] = read(tmp_buf); tmp_buf += size; }`: the array, and `tmp_buf`.
unfoldable pub read_each : (List ℕ → ℕ) → ℕ → ℕ → List ℕ → List ℕ × List ℕ
read_each read size zero tmp_buf = ([], tmp_buf)
read_each read size (suc n) tmp_buf =
    let (xs, rest) = read_each read size n (drop size tmp_buf) in (read tmp_buf ∷ xs, rest)

-- An array that was written is read back, and the pointer stands behind it.
pub read_each-write_each :
    (write : ℕ → List ℕ) (read : List ℕ → ℕ) (size bound : ℕ)
    → ((x : ℕ) (rest : List ℕ) → x < bound → read (write x ++ rest) ≡ x)
    → ((x : ℕ) (rest : List ℕ) → drop size (write x ++ rest) ≡ rest)
    → (n : ℕ) (xs rest : List ℕ) → length xs ≡ n
    → All (λ x. x < bound) xs
    → read_each read size n (write_each write xs ++ rest) ≡ (xs, rest)
unfolding read_each write_each
read_each-write_each write read size bound back skip zero [] rest e h = refl
read_each-write_each write read size bound back skip zero (x ∷ xs) rest e h = absurd (omega arith)
read_each-write_each write read size bound back skip (suc n) [] rest e h = absurd (omega arith)
read_each-write_each write read size bound back skip (suc n) (x ∷ xs) rest e h = rw (
  append_assoc,
  back x (write_each write xs ++ rest) h.0,
  skip x (write_each write xs ++ rest),
  read_each-write_each write read size bound back skip n xs rest (omega arith) h.1,
)

pub skip_u8 : (x : ℕ) (rest : List ℕ) → drop 1 (serialize_u8 x ++ rest) ≡ rest
unfolding serialize_u8
skip_u8 x rest = refl

pub skip_u16 : (x : ℕ) (rest : List ℕ) → drop 2 (serialize_u16 x ++ rest) ≡ rest
unfolding serialize_u16
skip_u16 x rest = refl

pub skip_u32 : (x : ℕ) (rest : List ℕ) → drop 4 (serialize_u32 x ++ rest) ≡ rest
unfolding serialize_u32
skip_u32 x rest = refl

pub skip_u64 : (x : ℕ) (rest : List ℕ) → drop 8 (serialize_u64 x ++ rest) ≡ rest
unfolding serialize_u64
skip_u64 x rest = refl

pub read_u8s :
    (n : ℕ) (xs rest : List ℕ)
    → length xs ≡ n
    → All (λ x. x < 2 ^ 8) xs
    → read_each deserialize_u8 1 n (write_each serialize_u8 xs ++ rest) ≡ (xs, rest)
read_u8s =
    read_each-write_each serialize_u8 deserialize_u8 1 (2 ^ 8)
      (λ x rest h. deserialize_u8-serialize_u8 x rest) skip_u8

pub read_u32s :
    (n : ℕ) (xs rest : List ℕ)
    → length xs ≡ n
    → All (λ x. x < 2 ^ 32) xs
    → read_each deserialize_u32 4 n (write_each serialize_u32 xs ++ rest) ≡ (xs, rest)
read_u32s =
    read_each-write_each serialize_u32 deserialize_u32 4 (2 ^ 32) deserialize_u32-serialize_u32
      skip_u32
