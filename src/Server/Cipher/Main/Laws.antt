-- ===== src/Server/Cipher/Main/Laws.antt =====
-- The test program of server/cipher.c finds its plaintext again.
use da_bao.Base.{
  ℕ, zero, suc, ◌≤◌, ◌<◌, ◌≡◌, refl, ◌∙◌, arith, Bool-cases, inl, inr, ◌&&◌, true, leb→le, false,
  leb, List, [], ◌∷◌, ◌++◌, length, get_or, take, drop, replicate, some, none, if◌then◌else◌, All,
  All-append, All-drop, length-append, length-drop,
}
use da_bao.Cipher.Block.Bytes.{IsBytes}
use da_bao.Server.Cipher.{init_key, size, strlen, asserted, encipher, encipher_loop, decipher}
use da_bao.Server.Cipher.Laws.{decipher-encipher}
use da_bao.Server.Cipher.Main.{buf_size, finished, overflowed, strcpy, c_str, round_trip, main}
use da_bao.Server.Database.Laws.{same_text_refl}

-- The bytes of an argument.
abbrev pub IsText : List ℕ → Type 0
IsText s = All (λ b. (0 < b) × (b < 256)) s

IsText-IsBytes : (s : List ℕ) → IsText s → IsBytes s
unfolding IsBytes
IsText-IsBytes [] h = tt
IsText-IsBytes (x ∷ s) h = (h.0.1, IsText-IsBytes s h.1)

strlen-text : (s rest : List ℕ) → IsText s → strlen (s ++ (0 ∷ rest)) ≡ length s
unfolding strlen
strlen-text [] rest h = refl
strlen-text (x ∷ s) rest h = ground (arith, h.0.0, strlen-text s rest h.1)

-- A zero at an index bounds the length of the string.
strlen-le : (xs : List ℕ) (n : ℕ) → get_or xs n 1 ≡ 0 → strlen xs ≤ n
unfolding strlen
strlen-le [] n e = omega arith
strlen-le (x ∷ xs) zero e = ground (arith, e)
strlen-le (x ∷ xs) (suc n) e = ground (arith, strlen-le xs n e)

-- The first bytes of an array that holds a text, and a zero behind them, hold the text.
c_str-take :
    (s rest tail : List ℕ) (n : ℕ)
    → IsText s
    → length s ≤ n
    → c_str (take n (s ++ (0 ∷ rest)) ++ (0 ∷ tail)) ≡ s
unfolding c_str
c_str-take [] rest tail zero h le = refl
c_str-take [] rest tail (suc n) h le = refl
c_str-take (x ∷ s) rest tail zero h le = ground (arith, le)
c_str-take (x ∷ s) rest tail (suc n) h le =
    let more = c_str-take s rest tail n h.1 (omega (arith, le)) in ground (arith, h.0.0, more)

c_str-text : (s rest : List ℕ) → IsText s → c_str (s ++ (0 ∷ rest)) ≡ s
unfolding c_str
c_str-text [] rest h = refl
c_str-text (x ∷ s) rest h = let more = c_str-text s rest h.1 in ground (arith, h.0.0, more)

get_or-drop : (n : ℕ) (xs : List ℕ) → get_or (drop n xs) 0 1 ≡ get_or xs n 1
get_or-drop zero xs = refl
get_or-drop (suc n) [] = refl
get_or-drop (suc n) (x ∷ xs) = get_or-drop n xs

-- The array that `strcpy` makes of a text.
abbrev filled : List ℕ → List ℕ
filled s = s ++ (0 ∷ drop (suc (length s)) (replicate buf_size 0))

strcpy-filled : (s : List ℕ) → length s ≤ size → strcpy (replicate buf_size 0) s ≡ some (filled s)
unfolding strcpy
strcpy-filled s le = ground (arith, le)

filled-IsBytes : (s : List ℕ) → IsText s → IsBytes (filled s)
unfolding IsBytes
filled-IsBytes s h =
    All-append _ s _ (IsText-IsBytes s h)
      (omega arith, All-drop _ (suc (length s)) (replicate buf_size 0) (ground arith))

filled-size : (s : List ℕ) → size ≤ length (filled s)
filled-size s =
    let rest : List ℕ = drop (suc (length s)) (replicate buf_size 0) in
    omega (
      arith,
      length-append s (0 ∷ rest),
      length-drop {A = ℕ} (suc (length s)) (replicate buf_size 0),
    )

filled-fits : (s : List ℕ) → IsText s → length s ≤ size → leb (strlen (filled s)) size ≡ true
filled-fits s h le = rw (strlen-text s _ h) (ground (arith, le))

round_trip_lem :
    (plaintext key ciphertext solution s : List ℕ) {written back : List ℕ}
    → encipher plaintext key ciphertext ≡ some written
    → decipher solution key written ≡ some back
    → c_str plaintext ≡ s
    → c_str back ≡ s
    → round_trip plaintext key ciphertext solution ≡ finished s s
unfolding round_trip
round_trip_lem plaintext key ciphertext solution s e d p b =
    simp (round_trip, e, d, p, b, same_text_refl s) refl

main-round_trip :
    (plain_text key_text ciphertext solution : List ℕ) {plaintext key : List ℕ}
    → strcpy (replicate buf_size 0) plain_text ≡ some plaintext
    → leb (strlen plaintext) size ≡ true
    → strcpy (replicate buf_size 0) key_text ≡ some key
    → leb (strlen key) size ≡ true
    → main (plain_text ∷ key_text ∷ []) ciphertext solution
      ≡ round_trip plaintext key ciphertext solution
unfolding main
main-round_trip plain_text key_text ciphertext solution p fits k key_fits =
    simp (main, p, fits, k, key_fits) refl

module _ (plain_text key_text ciphertext solution : List ℕ) (plain : IsText plain_text)
    (key : IsText key_text) (plain_fits : length plain_text ≤ size)
    (key_fits : length key_text ≤ size) (bytes : IsBytes ciphertext)
    (ends : get_or ciphertext size 1 ≡ 0) (solution_fits : strlen solution ≤ size) where
  abbrev written : List ℕ
  written = encipher_loop 4 0 init_key (filled plain_text) (filled key_text) ++ drop size ciphertext

  enciphers : encipher (filled plain_text) (filled key_text) ciphertext ≡ some written
  unfolding encipher
  enciphers =
      rw (filled-fits plain_text plain plain_fits)
        (rw (filled-fits key_text key key_fits) (ground (arith, strlen-le ciphertext size ends)))

  written_ends : get_or written size 1 ≡ 0
  unfolding encipher_loop
  written_ends = get_or-drop size ciphertext ∙ ends

  asserts_hold : asserted solution (filled key_text) written ≡ true
  asserts_hold =
      rw (filled-fits key_text key key_fits)
        (ground (arith, solution_fits, strlen-le written size written_ends))

  deciphers :
      decipher solution (filled key_text) written
      ≡ some (take size (filled plain_text) ++ (0 ∷ drop 9 solution))
  deciphers =
      decipher-encipher (filled plain_text) (filled key_text) ciphertext solution
        (filled-IsBytes plain_text plain) (filled-IsBytes key_text key) bytes
        (filled-size plain_text) enciphers asserts_hold

  main-finished :
      main (plain_text ∷ key_text ∷ []) ciphertext solution ≡ finished plain_text plain_text
  main-finished =
      main-round_trip plain_text key_text ciphertext solution (strcpy-filled plain_text plain_fits)
        (filled-fits plain_text plain plain_fits) (strcpy-filled key_text key_fits)
        (filled-fits key_text key key_fits)
      ∙ round_trip_lem (filled plain_text) (filled key_text) ciphertext solution plain_text
          enciphers deciphers (c_str-text plain_text _ plain)
          (c_str-take plain_text _ _ size plain plain_fits)

strcpy-spills : (s : List ℕ) → leb (length s) size ≡ false → strcpy (replicate buf_size 0) s ≡ none
unfolding strcpy
strcpy-spills s e = ground (arith, e)

main-first_spills :
    (plain_text key_text ciphertext solution : List ℕ)
    → leb (length plain_text) size ≡ false
    → main (plain_text ∷ key_text ∷ []) ciphertext solution ≡ overflowed
unfolding main
main-first_spills plain_text key_text ciphertext solution e =
    simp (main, strcpy-spills plain_text e) refl

main-second_spills :
    (plain_text key_text ciphertext solution : List ℕ)
    → IsText plain_text
    → length plain_text ≤ size
    → leb (length key_text) size ≡ false
    → main (plain_text ∷ key_text ∷ []) ciphertext solution ≡ overflowed
unfolding main
main-second_spills plain_text key_text ciphertext solution h le e =
    simp (main, strcpy-filled plain_text le, filled-fits plain_text h le, strcpy-spills key_text e)
      refl

-- On two arguments of bytes that are not zero, when the last byte of the array for the ciphertext
-- is zero and the array for the solution holds at most eight characters at first, the program of
-- server/cipher.c passes all its assertions and prints the first argument twice, as given and as
-- deciphered, if both arguments have at most eight characters, and otherwise copies one past the
-- end of its array.
pub main_lem :
    (plain_text key_text ciphertext solution : List ℕ)
    → IsText plain_text
    → IsText key_text
    → IsBytes ciphertext
    → get_or ciphertext size 1 ≡ 0
    → strlen solution ≤ size
    → main (plain_text ∷ key_text ∷ []) ciphertext solution ≡ (
        if leb (length plain_text) size && leb (length key_text) size
        then finished plain_text plain_text
        else overflowed)
main_lem plain_text key_text ciphertext solution plain key bytes ends fits =
    elim (Bool-cases (leb (length plain_text) size)) [
      | inl le ↦ elim (Bool-cases (leb (length key_text) size)) [
        | inl le' ↦
            simp (le, le')
              (main-finished plain_text key_text ciphertext solution plain key (leb→le _ _ le)
                (leb→le _ _ le') bytes ends fits)
        | inr gt ↦
            simp (le, gt)
              (main-second_spills plain_text key_text ciphertext solution plain (leb→le _ _ le) gt)
      ]
      | inr gt ↦ simp gt (main-first_spills plain_text key_text ciphertext solution gt)
    ]
