-- ===== src/Cipher/Block/Laws.antt =====
-- Whole blocks: what is written, and the round trips.
use da_bao.Base.{ℕ, suc, ◌/◌, ◌%◌, ◌≤◌, ◌<◌}
use da_bao.Base.{
  ◌≡◌, refl, arith, ap, ap₂, ◌∙◌, List, [], ◌∷◌, length, get_or, take, sym, get_or-take,
}
use da_bao.Cipher.Block.{encrypt_const, clr_data, key_word}
use da_bao.Cipher.Block.{encrypt_word, decrypt_word, own_encrypt, own_decrypt}
use da_bao.Cipher.Block.Bytes.{
  IsBytes, word_at, word_at-lt, key_word-lt, word_bytes, longlong2char-join_words,
  word_bytes-IsBytes, word_rejoined, take_eight, word_bytes-word_at, word_bytes_cong,
}
use da_bao.Cipher.Block.Words.{encrypt_word-lt, decrypt_word-lt}
use da_bao.Cipher.Block.Words.{decrypt_word-encrypt_word, encrypt_word-decrypt_word}

-- The chain of words that `own_encrypt` computes.
module _ (xs : List ℕ) (key : ℕ) where
  abbrev pub cipher0 : ℕ
  cipher0 = encrypt_word encrypt_const (word_at xs 0) (key_word key 0)

  abbrev pub cipher1 : ℕ
  cipher1 = encrypt_word cipher0 (word_at xs 2) (key_word key 16)

  abbrev pub cipher2 : ℕ
  cipher2 = encrypt_word cipher1 (word_at xs 4) (key_word key 32)

  abbrev pub cipher3 : ℕ
  cipher3 = encrypt_word cipher2 (word_at xs 6) (key_word key 48)

  pub cipher0-lt : cipher0 < 65536
  cipher0-lt = encrypt_word-lt _ _ (omega arith) (key_word-lt key 0) _

  pub cipher1-lt : cipher1 < 65536
  cipher1-lt = encrypt_word-lt _ _ cipher0-lt (key_word-lt key 16) _

  pub cipher2-lt : cipher2 < 65536
  cipher2-lt = encrypt_word-lt _ _ cipher1-lt (key_word-lt key 32) _

  pub cipher3-lt : cipher3 < 65536
  cipher3-lt = encrypt_word-lt _ _ cipher2-lt (key_word-lt key 48) _

  pub own_encrypt_lem : own_encrypt xs key ≡ word_bytes cipher0 cipher1 cipher2 cipher3
  unfolding own_encrypt
  own_encrypt_lem = longlong2char-join_words _ _ _ _ cipher0-lt cipher1-lt cipher2-lt cipher3-lt

-- The words that `own_decrypt` computes.
module _ (xs : List ℕ) (key : ℕ) where
  abbrev pub plain0 : ℕ
  plain0 = decrypt_word encrypt_const (word_at xs 0) (key_word key 0)

  abbrev pub plain1 : ℕ
  plain1 = decrypt_word (word_at xs 0) (word_at xs 2) (key_word key 16)

  abbrev pub plain2 : ℕ
  plain2 = decrypt_word (word_at xs 2) (word_at xs 4) (key_word key 32)

  abbrev pub plain3 : ℕ
  plain3 = decrypt_word (word_at xs 4) (word_at xs 6) (key_word key 48)

  pub own_decrypt_lem : IsBytes xs → own_decrypt xs key ≡ word_bytes plain0 plain1 plain2 plain3
  unfolding own_decrypt
  own_decrypt_lem h =
      longlong2char-join_words _ _ _ _ (decrypt_word-lt _ _ (omega arith) (key_word-lt key 0) _)
        (decrypt_word-lt _ _ (word_at-lt xs 0 h) (key_word-lt key 16) _)
        (decrypt_word-lt _ _ (word_at-lt xs 2 h) (key_word-lt key 32) _)
        (decrypt_word-lt _ _ (word_at-lt xs 4 h) (key_word-lt key 48) _)

pub own_encrypt-IsBytes : (xs : List ℕ) (key : ℕ) → IsBytes (own_encrypt xs key)
own_encrypt-IsBytes xs key = rw (own_encrypt_lem xs key) (
    word_bytes-IsBytes _ _ _ _ (cipher0-lt xs key) (cipher1-lt xs key) (cipher2-lt xs key)
      (cipher3-lt xs key))

-- Decrypting what was encrypted with the same key gives the first eight bytes back, for every key
-- and every eight bytes or more.
pub own_decrypt-own_encrypt :
    (xs : List ℕ) (key : ℕ)
    → IsBytes xs
    → 8 ≤ length xs
    → own_decrypt (own_encrypt xs key) key ≡ take 8 xs
own_decrypt-own_encrypt xs key h le =
    ap (λ l. own_decrypt l key) (own_encrypt_lem xs key)
    ∙ own_decrypt_lem (word_bytes c0 c1 c2 c3) key (
        word_bytes-IsBytes c0 c1 c2 c3 (cipher0-lt xs key) (cipher1-lt xs key) (cipher2-lt xs key)
          (cipher3-lt xs key))
    ∙ word_bytes_cong (back encrypt_const 0 0 (omega arith) refl (word_rejoined c0))
        (back c0 2 16 (cipher0-lt xs key) (word_rejoined c0) (word_rejoined c1))
        (back c1 4 32 (cipher1-lt xs key) (word_rejoined c1) (word_rejoined c2))
        (back c2 6 48 (cipher2-lt xs key) (word_rejoined c2) (word_rejoined c3))
    ∙ word_bytes-word_at xs h
    ∙ sym (take_eight xs le)
  where
    c0 : ℕ
    c0 = cipher0 xs key

    c1 : ℕ
    c1 = cipher1 xs key

    c2 : ℕ
    c2 = cipher2 xs key

    c3 : ℕ
    c3 = cipher3 xs key

    back :
        (chain i shift : ℕ)
        → chain < 65536
        → {chain' c : ℕ} → chain' ≡ chain
        → c ≡ encrypt_word chain (word_at xs i) (key_word key shift)
        → decrypt_word chain' c (key_word key shift) ≡ word_at xs i
    back chain i shift fits e e' =
        rw (e, e')
          (decrypt_word-encrypt_word chain (key_word key shift) fits (key_word-lt key shift)
            (word_at xs i) (word_at-lt xs i h))

-- Encrypting what was decrypted with the same key gives the first eight bytes back, for every key
-- and every eight bytes or more.
pub own_encrypt-own_decrypt :
    (xs : List ℕ) (key : ℕ)
    → IsBytes xs
    → 8 ≤ length xs
    → own_encrypt (own_decrypt xs key) key ≡ take 8 xs
own_encrypt-own_decrypt xs key h le =
    ap (λ l. own_encrypt l key) (own_decrypt_lem xs key h)
    ∙ own_encrypt_lem (word_bytes p0 p1 p2 p3) key
    ∙ word_bytes_cong w0 w1 w2 w3
    ∙ word_bytes-word_at xs h
    ∙ sym (take_eight xs le)
  where
    p0 : ℕ
    p0 = plain0 xs key

    p1 : ℕ
    p1 = plain1 xs key

    p2 : ℕ
    p2 = plain2 xs key

    p3 : ℕ
    p3 = plain3 xs key

    back :
        (chain i shift : ℕ)
        → chain < 65536
        → {chain' p : ℕ} → chain' ≡ chain
        → p ≡ decrypt_word chain (word_at xs i) (key_word key shift)
        → encrypt_word chain' p (key_word key shift) ≡ word_at xs i
    back chain i shift fits e e' =
        rw (e, e')
          (encrypt_word-decrypt_word chain (key_word key shift) fits (key_word-lt key shift)
            (word_at xs i) (word_at-lt xs i h))

    w0 : cipher0 (word_bytes p0 p1 p2 p3) key ≡ word_at xs 0
    w0 = back encrypt_const 0 0 (omega arith) refl (word_rejoined p0)

    w1 : cipher1 (word_bytes p0 p1 p2 p3) key ≡ word_at xs 2
    w1 = back (word_at xs 0) 2 16 (word_at-lt xs 0 h) w0 (word_rejoined p1)

    w2 : cipher2 (word_bytes p0 p1 p2 p3) key ≡ word_at xs 4
    w2 = back (word_at xs 2) 4 32 (word_at-lt xs 2 h) w1 (word_rejoined p2)

    w3 : cipher3 (word_bytes p0 p1 p2 p3) key ≡ word_at xs 6
    w3 = back (word_at xs 4) 6 48 (word_at-lt xs 4 h) w2 (word_rejoined p3)

pub length-own_encrypt : (xs : List ℕ) (key : ℕ) → length (own_encrypt xs key) ≡ 8
length-own_encrypt xs key = rw (own_encrypt_lem xs key)

-- A cut block decrypts as far as it goes: the first four bytes of the plaintext need only the
-- first four bytes of the ciphertext.
pub own_decrypt_prefix :
    (xs ys : List ℕ) (key : ℕ)
    → IsBytes xs
    → IsBytes ys
    → take 4 xs ≡ take 4 ys
    → take 4 (own_decrypt xs key) ≡ take 4 (own_decrypt ys key)
own_decrypt_prefix xs ys key hx hy e =
    ap (take 4) (own_decrypt_lem xs key hx)
    ∙ ap₂ start (same 0 (omega arith)) (same 2 (omega arith))
    ∙ ap (take 4) (sym (own_decrypt_lem ys key hy))
  where
    start : ℕ → ℕ → List ℕ
    start w0 w1 =
        let p0 = decrypt_word encrypt_const w0 (key_word key 0) in
        let p1 = decrypt_word w0 w1 (key_word key 16) in
        p0 % 256 ∷ p0 / 256 ∷ p1 % 256 ∷ p1 / 256 ∷ []

    same : (i : ℕ) → i < 3 → word_at xs i ≡ word_at ys i
    same i h =
        ap₂ clr_data
          (sym (get_or-take 4 xs i 0 (omega arith))
            ∙ ap (λ l. get_or l i 0) e
            ∙ get_or-take 4 ys i 0 (omega arith))
          (sym (get_or-take 4 xs (suc i) 0 (omega arith))
            ∙ ap (λ l. get_or l (suc i) 0) e
            ∙ get_or-take 4 ys (suc i) 0 (omega arith))
