-- ===== src/Cipher/Table/Nonzero.antt =====
-- No entry of the key table is zero if the first is not.
use da_bao.Base.{
  ℕ, zero, suc, ◌+◌, ◌-◌, ◌*◌, ◌^◌, ◌<◌, ◌≡◌, refl, sym, ap, ◌∙◌, arith, List, [], ◌∷◌, ◌++◌,
  get_or, ◌==◌, if◌then◌else◌, u64, All, length, ltb, Bool, true, false,
}
use da_bao.Base.Bits.{two-pow_add}
use da_bao.Cipher.Table.{
  longlong2bits, bits2longlong, nxt_half, nxt_bits, nxt_value, des_key_init, copied, differ,
}
use da_bao.Cipher.Table.Laws.{bits2longlong-longlong2bits, two-pow-pos, two-pow-suc}

abbrev ZeroFrom : List ℕ → ℕ → ℕ → Type 0
ZeroFrom bits base n = (k : ℕ) → k < n → get_or bits (base + k) 0 ≡ b'0'

at_index : (xs : List ℕ) (i j : ℕ) → i ≡ j → get_or xs i 0 ≡ get_or xs j 0
at_index xs i j e = ap (λ k. get_or xs k 0) e

get_or-copied :
    (old : List ℕ) (i n k : ℕ) → k < n → get_or (copied old i n) k 0 ≡ get_or old (i + k) 0
get_or-copied old i zero k h = absurd (omega arith)
get_or-copied old i (suc n) zero h = ap (λ j. get_or old j 0) (omega arith)
get_or-copied old i (suc n) (suc k) h =
    get_or-copied old (suc i) n k (omega arith) ∙ ap (λ j. get_or old j 0) (omega arith)

differ_zero :
    (old : List ℕ) (i top : ℕ)
    → differ old i top ≡ b'0'
    → get_or old top 0 ≡ b'0'
    → get_or old i 0 ≡ b'0'
differ_zero old i top e z = ground arith

module _ (old : List ℕ) (base : ℕ)
    (zeros : (k : ℕ) → k < 32 → get_or (nxt_half old base (base + 31)) k 0 ≡ b'0') where
  top_zero : get_or old (base + 31) 0 ≡ b'0'
  unfolding nxt_half
  top_zero = zeros 0 (omega arith)

  half_zero : ZeroFrom old base 32
  unfolding nxt_half
  half_zero zero h = ap (λ j. get_or old j 0) (omega arith) ∙ zeros 1 (omega arith)
  half_zero (suc zero) h = differ_zero old (base + 1) (base + 31) (zeros 2 (omega arith)) top_zero
  half_zero (suc (suc zero)) h = ap (λ j. get_or old j 0) (omega arith) ∙ zeros 3 (omega arith)
  half_zero (suc (suc (suc zero))) h =
      ap (λ j. get_or old j 0) (omega arith) ∙ zeros 4 (omega arith)
  half_zero (suc (suc (suc (suc zero)))) h =
      ap (λ j. get_or old j 0) (omega arith) ∙ zeros 5 (omega arith)
  half_zero (suc (suc (suc (suc (suc zero))))) h =
      differ_zero old (base + 5) (base + 31) (zeros 6 (omega arith)) top_zero
  half_zero (suc (suc (suc (suc (suc (suc zero)))))) h =
      differ_zero old (base + 6) (base + 31) (zeros 7 (omega arith)) top_zero
  half_zero (suc (suc (suc (suc (suc (suc (suc k))))))) h = rest (k == 24) refl
    where
      rest :
          (b : Bool)
          → (k == 24) ≡ b
          → get_or old (base + (suc (suc (suc (suc (suc (suc (suc k)))))))) 0 ≡ b'0'
      rest true e = ap (λ j. get_or old j 0) (ground arith) ∙ top_zero
      rest false e =
          ap (λ j. get_or old j 0) (omega arith)
          ∙ sym (get_or-copied old (base + 7) 24 k (ground arith))
          ∙ zeros (suc (suc (suc (suc (suc (suc (suc (suc k)))))))) (ground arith)

below_64 : (n m t : ℕ) → n + m ≡ 64 → t < 2 ^ m → t < 2 ^ 64
below_64 n m t h k = grind (arith, two-pow_add n m 64 h, two-pow-pos n)

module _ (n m temp : ℕ) (bits : List ℕ) (h : suc n + m ≡ 64) (f : temp < 2 ^ m) where
  next : ℕ
  next = if get_or bits n 0 == b'0' then temp * 2 else temp * 2 + 1

  bound : next < 2 ^ suc m
  unfolding next
  bound = ground (arith, two-pow-suc m)

  whole : u64 next ≡ next
  whole = omega (arith, below_64 n (suc m) next (omega arith) bound)

  one_more_zero : (next ≡ 0) × ZeroFrom bits 0 n → (temp ≡ 0) × ZeroFrom bits 0 (suc n)
  unfolding next
  one_more_zero rest = (ground (arith, rest.0), λ k l. last k l (k == n) refl)
    where
      last : (k : ℕ) → k < suc n → (b : Bool) → (k == n) ≡ b → get_or bits (0 + k) 0 ≡ b'0'
      last k l true q = at_index bits (0 + k) n (ground arith) ∙ ground (arith, rest.0)
      last k l false q = rest.1 k (ground arith)

-- If bits read as zero, each is '0': nothing is lost above the 64 bits.
reads_zero :
    (n m temp : ℕ) (bits : List ℕ)
    → n + m ≡ 64
    → temp < 2 ^ m
    → bits2longlong n temp bits ≡ 0
    → (temp ≡ 0) × ZeroFrom bits 0 n
unfolding bits2longlong next
reads_zero zero m temp bits h f e = (e, λ k l. absurd (omega arith))
reads_zero (suc n) m temp bits h f e = one_more_zero n m temp bits h f (
    reads_zero n (suc m) (next n m temp bits h f) bits (omega arith) (bound n m temp bits h f)
      (ap (λ t. bits2longlong n t bits) (sym (whole n m temp bits h f)) ∙ e))

zero_reads : (n : ℕ) (bits : List ℕ) → ZeroFrom bits 0 n → bits2longlong n 0 bits ≡ 0
unfolding bits2longlong
zero_reads zero bits z = refl
zero_reads (suc n) bits z =
    ap (λ c. bits2longlong n (u64 (if c == b'0' then 0 * 2 else 0 * 2 + 1)) bits)
      (ap (λ j. get_or bits j 0) (omega arith) ∙ z n (omega arith))
    ∙ zero_reads n bits (λ k l. z k (omega arith))

get_or-left : (xs ys : List ℕ) (k : ℕ) → k < length xs → get_or (xs ++ ys) k 0 ≡ get_or xs k 0
get_or-left [] ys k h = absurd (omega arith)
get_or-left (x ∷ xs) ys zero h = refl
get_or-left (x ∷ xs) ys (suc k) h = get_or-left xs ys k (omega arith)

get_or-right : (xs ys : List ℕ) (k : ℕ) → get_or (xs ++ ys) (length xs + k) 0 ≡ get_or ys k 0
get_or-right [] ys k = ap (λ j. get_or ys j 0) (omega arith)
get_or-right (x ∷ xs) ys k =
    at_index (x ∷ (xs ++ ys)) (length (x ∷ xs) + k) (suc (length xs + k)) (omega arith)
    ∙ get_or-right xs ys k

length-nxt_half : (old : List ℕ) (base top : ℕ) → length (nxt_half old base top) ≡ 32
unfolding nxt_half
length-nxt_half old base top = refl

-- If all the next bits are '0', so were the bits before.
nxt_bits_zero : (old : List ℕ) → ZeroFrom (nxt_bits old) 0 64 → ZeroFrom old 0 64
unfolding nxt_bits
nxt_bits_zero old z k h = part (ltb k 32) refl
  where
    low : ZeroFrom old 0 32
    low = half_zero old 0 (λ j l.
        sym (
          get_or-left (nxt_half old 0 31) (nxt_half old 32 63) j
            (omega (arith, length-nxt_half old 0 31)))
        ∙ at_index (nxt_half old 0 31 ++ nxt_half old 32 63) j (0 + j) (omega arith)
        ∙ z j (omega arith))

    high : ZeroFrom old 32 32
    high = half_zero old 32 (λ j l.
        sym (get_or-right (nxt_half old 0 31) (nxt_half old 32 63) j)
        ∙ at_index (nxt_half old 0 31 ++ nxt_half old 32 63) (length (nxt_half old 0 31) + j)
            (0 + (32 + j)) (omega (arith, length-nxt_half old 0 31))
        ∙ z (32 + j) (omega arith))

    part : (b : Bool) → ltb k 32 ≡ b → get_or old (0 + k) 0 ≡ b'0'
    part true e = low k (ground arith)
    part false e =
        at_index old (0 + k) (32 + (k - 32)) (ground arith) ∙ high (k - 32) (ground arith)

-- Only zero is followed by zero.
pub nxt_value_zero : (v : ℕ) → v < 2 ^ 64 → nxt_value v ≡ 0 → v ≡ 0
unfolding nxt_value
nxt_value_zero v h e =
    sym (bits2longlong-longlong2bits v h)
    ∙ zero_reads 64 (longlong2bits 64 v) (
        nxt_bits_zero (longlong2bits 64 v)
          (reads_zero 64 0 0 (nxt_bits (longlong2bits 64 v)) refl (omega arith) e).1)

bits2longlong-lt : (n temp : ℕ) (bits : List ℕ) → temp < 2 ^ 64 → bits2longlong n temp bits < 2 ^ 64
unfolding bits2longlong
bits2longlong-lt zero temp bits h = h
bits2longlong-lt (suc n) temp bits h = bits2longlong-lt n _ bits (omega arith)

nxt_value-lt : (v : ℕ) → nxt_value v < 2 ^ 64
unfolding nxt_value
nxt_value-lt v = bits2longlong-lt 64 0 (nxt_bits (longlong2bits 64 v)) (omega arith)

-- A key table whose seed is positive and fits 64 bits holds no key that is zero, and every key fits
-- 64 bits.
pub des_key_init-All :
    (n seed : ℕ)
    → 0 < seed
    → seed < 2 ^ 64
    → All (λ key. (0 < key) × (key < 2 ^ 64)) (des_key_init n seed)
unfolding des_key_init
des_key_init-All zero seed p h = tt
des_key_init-All (suc n) seed p h = (
  (p, h),
  des_key_init-All n (nxt_value seed) (grind (arith, nxt_value_zero seed h)) (nxt_value-lt seed),
)
