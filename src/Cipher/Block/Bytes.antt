-- ===== src/Cipher/Block/Bytes.antt =====
-- The bytes of a word, of a `long long` and of a block.
use da_bao.Base.{ℕ, zero, suc, ◌+◌, ◌*◌, ◌/◌, ◌%◌, ◌^◌, ◌≤◌, ◌<◌}
use da_bao.Base.{◌≡◌, refl, arith, ap, ap₂, ◌∙◌, List, [], ◌∷◌, length, get_or, All, take}
use da_bao.Base.{sar64}
use da_bao.Base.Bits.{bit_or_join, bit_and_low}
use da_bao.Cipher.Block.{longlong2char_loop, longlong2char, clr_data, key_word}
use da_bao.Cipher.Block.{join_word, join_words}

-- The `n` low bytes of a number, the lowest first.
pub le_bytes : ℕ → ℕ → List ℕ
le_bytes zero x = []
le_bytes (suc n) x = x % 256 ∷ le_bytes n (x / 256)

-- The sign that `>>` shifts in stays above the bytes that are still to come.
abbrev SameLow : ℕ → ℕ → ℕ → Type 0
SameLow n x y = x % 2 ^ n ≡ y % 2 ^ n

keep_low :
    (n x y : ℕ)
    → n < 8
    → SameLow (8 * suc n) x y
    → SameLow 8 x y × SameLow (8 * n) (sar64 x 8) (y / 256)
keep_low zero x y h e = ground arith
keep_low (suc zero) x y h e = ground arith
keep_low (suc (suc zero)) x y h e = ground arith
keep_low (suc (suc (suc zero))) x y h e = ground arith
keep_low (suc (suc (suc (suc zero)))) x y h e = ground arith
keep_low (suc (suc (suc (suc (suc zero))))) x y h e = ground arith
keep_low (suc (suc (suc (suc (suc (suc zero)))))) x y h e = ground arith
keep_low (suc (suc (suc (suc (suc (suc (suc zero))))))) x y h e = ground arith
keep_low (suc (suc (suc (suc (suc (suc (suc (suc n)))))))) x y h e = absurd (omega arith)

loop_bytes : (n x y : ℕ) → n ≤ 8 → SameLow (8 * n) x y → longlong2char_loop n x ≡ le_bytes n y
unfolding longlong2char_loop le_bytes
loop_bytes zero x y h e = refl
loop_bytes (suc n) x y h e =
    let low = keep_low n x y h e in
    ap₂ ◌∷◌ (bit_and_low 8 x ∙ low.0) (loop_bytes n (sar64 x 8) (y / 256) (omega arith) low.1)

pub longlong2char_lem : (x : ℕ) → longlong2char x ≡ le_bytes 8 x
unfolding longlong2char
longlong2char_lem x = loop_bytes 8 x x (omega arith) refl

-- Four words as bytes, each with its low byte first.
abbrev pub word_bytes : ℕ → ℕ → ℕ → ℕ → List ℕ
word_bytes r0 r1 r2 r3 =
    r0 % 256 ∷ r0 / 256 ∷ r1 % 256 ∷ r1 / 256 ∷ r2 % 256 ∷ r2 / 256 ∷ r3 % 256 ∷ r3 / 256 ∷ []

join_word-eq-add :
    (result word : ℕ)
    → result < 2 ^ 48
    → word < 65536
    → join_word result word ≡ result * 65536 + word
join_word-eq-add result word h h' = ground (arith, bit_or_join 16 result word)

pub longlong2char-join_words :
    (r0 r1 r2 r3 : ℕ)
    → r0 < 65536
    → r1 < 65536
    → r2 < 65536
    → r3 < 65536
    → longlong2char (join_words r0 r1 r2 r3) ≡ word_bytes r0 r1 r2 r3
longlong2char-join_words r0 r1 r2 r3 h0 h1 h2 h3 =
    longlong2char_lem _ ∙ ap (le_bytes 8) joined ∙ split
  where
    joined : join_words r0 r1 r2 r3 ≡ ((r3 * 65536 + r2) * 65536 + r1) * 65536 + r0
    joined =
        ap (λ t. join_word (join_word t r1) r0) (join_word-eq-add r3 r2 (omega arith) h2)
        ∙ ap (λ t. join_word t r0) (join_word-eq-add (r3 * 65536 + r2) r1 (omega arith) h1)
        ∙ join_word-eq-add ((r3 * 65536 + r2) * 65536 + r1) r0 (omega arith) h0

    split : le_bytes 8 (((r3 * 65536 + r2) * 65536 + r1) * 65536 + r0) ≡ word_bytes r0 r1 r2 r3
    split = unfold le_bytes in ground arith

pub key_word-lt : (key shift : ℕ) → key_word key shift < 65536
key_word-lt key shift = omega (arith, bit_and_low 16 (sar64 key shift))

unfoldable pub IsBytes : List ℕ → Type 0
IsBytes xs = All (λ b. b < 256) xs

pub get_or-lt : (xs : List ℕ) (i : ℕ) → IsBytes xs → get_or xs i 0 < 256
unfolding IsBytes
get_or-lt [] i h = omega arith
get_or-lt (x ∷ xs) zero h = h.0
get_or-lt (x ∷ xs) (suc i) h = get_or-lt xs i h.1

-- The word that stands at byte `i` of a block.
abbrev pub word_at : List ℕ → ℕ → ℕ
word_at xs i = clr_data (get_or xs i 0) (get_or xs (suc i) 0)

pub word_at-lt : (xs : List ℕ) (i : ℕ) → IsBytes xs → word_at xs i < 65536
word_at-lt xs i h = omega (arith, get_or-lt xs i h, get_or-lt xs (suc i) h)

pub word_bytes-IsBytes :
    (r0 r1 r2 r3 : ℕ)
    → r0 < 65536
    → r1 < 65536
    → r2 < 65536
    → r3 < 65536
    → IsBytes (word_bytes r0 r1 r2 r3)
unfolding IsBytes
word_bytes-IsBytes r0 r1 r2 r3 h0 h1 h2 h3 = ground arith

-- A word put together from its two bytes.
pub word_rejoined : (r : ℕ) → clr_data (r % 256) (r / 256) ≡ r
word_rejoined r = omega arith

-- The first eight bytes, one by one.
abbrev pub first_eight : List ℕ → List ℕ
first_eight xs =
    get_or xs 0 0
    ∷ get_or xs 1 0
    ∷ get_or xs 2 0
    ∷ get_or xs 3 0
    ∷ get_or xs 4 0
    ∷ get_or xs 5 0
    ∷ get_or xs 6 0
    ∷ get_or xs 7 0
    ∷ []

pub take_eight : (xs : List ℕ) → 8 ≤ length xs → take 8 xs ≡ first_eight xs
take_eight (a ∷ b ∷ c ∷ d ∷ e ∷ f ∷ g ∷ h ∷ xs) le = refl
take_eight _ le = absurd (omega arith)

pub word_bytes-word_at :
    (xs : List ℕ)
    → IsBytes xs
    → word_bytes (word_at xs 0) (word_at xs 2) (word_at xs 4) (word_at xs 6) ≡ first_eight xs
word_bytes-word_at xs h = ground (
  arith,
  get_or-lt xs 0 h,
  get_or-lt xs 1 h,
  get_or-lt xs 2 h,
  get_or-lt xs 3 h,
  get_or-lt xs 4 h,
  get_or-lt xs 5 h,
  get_or-lt xs 6 h,
  get_or-lt xs 7 h,
)

pub word_bytes_cong :
    {r0 r1 r2 r3 s0 s1 s2 s3 : ℕ}
    → r0 ≡ s0
    → r1 ≡ s1
    → r2 ≡ s2
    → r3 ≡ s3
    → word_bytes r0 r1 r2 r3 ≡ word_bytes s0 s1 s2 s3
word_bytes_cong e0 e1 e2 e3 = λ i. word_bytes (e0 i) (e1 i) (e2 i) (e3 i)
