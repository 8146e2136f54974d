-- ===== src/Server/Cipher/Laws.antt =====
-- server/cipher.c computes the block cipher of DES/cipher.c.
use da_bao.Base.{
  ℕ, suc, ◌+◌, ◌*◌, ◌/◌, ◌%◌, ◌^◌, ◌≤◌, ◌<◌, ◌≡◌, refl, ap, ap₂, sym, ◌∙◌, arith, List, [], ◌∷◌,
  ◌++◌, drop, take, length, some, none, if◌then◌else◌, bit_xor, sar64, Bool, true, false,
  All-append, All-drop,
}
use da_bao.Base.Bits.{bit_and_low, bit_xor_comm, bit_xor-lt}
use da_bao.Cipher.Block.{key_word, decrypt_word, own_encrypt, own_decrypt, cal_nonzero_bits}
use da_bao.Cipher.Block.Words.{cal_nonzero_bits-le, decrypt_word-lt}
use da_bao.Cipher.Block.Bytes.{IsBytes, word_at, word_at-lt}
use da_bao.Cipher.Block.Laws.{
  cipher0, cipher1, cipher2, cipher3, cipher0-lt, cipher1-lt, cipher2-lt, own_encrypt_lem,
  own_decrypt_lem, plain0, plain1, plain2, plain3, own_decrypt-own_encrypt, own_encrypt-IsBytes,
}
use da_bao.Server.Cipher.{
  init_key, get_counter, uint16_to_char, char_to_uint16, rotate_right, encipher_loop, decipher_loop,
  asserted, encipher, decipher,
}
use da_bao.Server.Cipher.Groups.{
  same_counter, word_at_lem, uint16_to_char_lem, rotate_right_lem, encipher_round,
}

encipher_end : (i chain : ℕ) (p key : List ℕ) → encipher_loop 0 i chain p key ≡ []
unfolding encipher_loop
encipher_end i chain p key = refl

-- The eight bytes of a key as a `long long`.
abbrev pub key_of : List ℕ → ℕ
key_of key =
    word_at key 0 + word_at key 2 * 2 ^ 16 + word_at key 4 * 2 ^ 32 + word_at key 6 * 2 ^ 48

module _ (w0 w1 w2 w3 : ℕ) (h0 : w0 < 65536) (h1 : w1 < 65536) (h2 : w2 < 65536)
    (h3 : w3 < 65536) where
  key_word0 : key_word (w0 + w1 * 2 ^ 16 + w2 * 2 ^ 32 + w3 * 2 ^ 48) 0 ≡ w0
  key_word0 =
      ground (arith, bit_and_low 16 (sar64 (w0 + w1 * 2 ^ 16 + w2 * 2 ^ 32 + w3 * 2 ^ 48) 0))

  key_word1 : key_word (w0 + w1 * 2 ^ 16 + w2 * 2 ^ 32 + w3 * 2 ^ 48) 16 ≡ w1
  key_word1 =
      ground (arith, bit_and_low 16 (sar64 (w0 + w1 * 2 ^ 16 + w2 * 2 ^ 32 + w3 * 2 ^ 48) 16))

  key_word2 : key_word (w0 + w1 * 2 ^ 16 + w2 * 2 ^ 32 + w3 * 2 ^ 48) 32 ≡ w2
  key_word2 =
      ground (arith, bit_and_low 16 (sar64 (w0 + w1 * 2 ^ 16 + w2 * 2 ^ 32 + w3 * 2 ^ 48) 32))

  key_word3 : key_word (w0 + w1 * 2 ^ 16 + w2 * 2 ^ 32 + w3 * 2 ^ 48) 48 ≡ w3
  key_word3 =
      ground (arith, bit_and_low 16 (sar64 (w0 + w1 * 2 ^ 16 + w2 * 2 ^ 32 + w3 * 2 ^ 48) 48))

module _ (key : List ℕ) (hk : IsBytes key) where
  key_at0 : word_at key 0 ≡ key_word (key_of key) 0
  key_at0 = sym (
      key_word0 _ _ _ _ (word_at-lt key 0 hk) (word_at-lt key 2 hk) (word_at-lt key 4 hk)
        (word_at-lt key 6 hk))

  key_at2 : word_at key 2 ≡ key_word (key_of key) 16
  key_at2 = sym (
      key_word1 _ _ _ _ (word_at-lt key 0 hk) (word_at-lt key 2 hk) (word_at-lt key 4 hk)
        (word_at-lt key 6 hk))

  key_at4 : word_at key 4 ≡ key_word (key_of key) 32
  key_at4 = sym (
      key_word2 _ _ _ _ (word_at-lt key 0 hk) (word_at-lt key 2 hk) (word_at-lt key 4 hk)
        (word_at-lt key 6 hk))

  key_at6 : word_at key 6 ≡ key_word (key_of key) 48
  key_at6 = sym (
      key_word3 _ _ _ _ (word_at-lt key 0 hk) (word_at-lt key 2 hk) (word_at-lt key 4 hk)
        (word_at-lt key 6 hk))

  encipher_loop_lem :
      (p : List ℕ) → IsBytes p → encipher_loop 4 0 init_key p key ≡ own_encrypt p (key_of key)
  encipher_loop_lem p hp =
      encipher_round 3 0 init_key (key_word (key_of key) 0) p key (omega arith) hp hk key_at0
      ∙ ap (put (cipher0 p (key_of key))) (
          encipher_round 2 1 _ (key_word (key_of key) 16) p key (cipher0-lt p (key_of key)) hp hk
            key_at2)
      ∙ ap (λ l. put (cipher0 p (key_of key)) (put (cipher1 p (key_of key)) l))
          (encipher_round 1 2 _ (key_word (key_of key) 32) p key (cipher1-lt p (key_of key)) hp hk
            key_at4)
      ∙ ap
          (λ l.
            put (cipher0 p (key_of key))
              (put (cipher1 p (key_of key)) (put (cipher2 p (key_of key)) l)))
          (encipher_round 0 3 _ (key_word (key_of key) 48) p key (cipher2-lt p (key_of key)) hp hk
              key_at6
            ∙ ap (put (cipher3 p (key_of key))) (encipher_end 4 _ p key))
      ∙ sym (own_encrypt_lem p (key_of key))
    where
      put : ℕ → List ℕ → List ℕ
      put w l = w % 256 ∷ w / 256 ∷ l

decipher_part_lem :
    (chain clr key : ℕ)
    → chain < 65536
    → clr < 65536
    → key < 65536
    → bit_xor (rotate_right (bit_xor clr key) (get_counter key)) chain ≡ decrypt_word chain clr key
unfolding decrypt_word
decipher_part_lem chain clr key hc hp hk =
    ap (λ t. bit_xor t chain)
      (ap₂ rotate_right (bit_xor_comm 16 clr key hp hk) (same_counter key hk)
        ∙ rotate_right_lem (cal_nonzero_bits key) (bit_xor key clr) (cal_nonzero_bits-le 16 key hk)
            (bit_xor-lt 16 key clr hk hp))

decipher_step :
    (n i chain : ℕ) (key c : List ℕ)
    → decipher_loop (suc n) i chain key c
      ≡ uint16_to_char (
          bit_xor
            (rotate_right
              (bit_xor (char_to_uint16 c (i * 2)) (char_to_uint16 key (i * 2)))
              (get_counter (char_to_uint16 key (i * 2))))
            chain)
        ++ decipher_loop n (suc i) (char_to_uint16 c (i * 2)) key c
unfolding decipher_loop
decipher_step n i chain key c = refl

decipher_end : (i chain : ℕ) (key c : List ℕ) → decipher_loop 0 i chain key c ≡ []
unfolding decipher_loop
decipher_end i chain key c = refl

decipher_round :
    (n i chain word : ℕ) (key c : List ℕ)
    → chain < 65536
    → IsBytes c
    → IsBytes key
    → word_at key (i * 2) ≡ word
    → let p = decrypt_word chain (word_at c (i * 2)) word in
      decipher_loop (suc n) i chain key c
      ≡ p % 256 ∷ p / 256 ∷ decipher_loop n (suc i) (word_at c (i * 2)) key c
decipher_round n i chain word key c hc hp hk e =
    decipher_step n i chain key c
    ∙ ap₂
        (λ a k.
          uint16_to_char (bit_xor (rotate_right (bit_xor a k) (get_counter k)) chain)
          ++ decipher_loop n (suc i) a key c)
        (word_at_lem c (i * 2) hp) (word_at_lem key (i * 2) hk ∙ e)
    ∙ ap (λ v. uint16_to_char v ++ decipher_loop n (suc i) (word_at c (i * 2)) key c)
        (decipher_part_lem chain (word_at c (i * 2)) word hc (word_at-lt c (i * 2) hp) word_lt)
    ∙ ap (λ l. l ++ decipher_loop n (suc i) (word_at c (i * 2)) key c)
        (uint16_to_char_lem (decrypt_word chain (word_at c (i * 2)) word)
          (decrypt_word-lt chain word hc word_lt (word_at c (i * 2))))
  where
    word_lt : word < 65536
    word_lt = rw (← e) (word_at-lt key (i * 2) hk)

decipher_loop_lem :
    (key c : List ℕ)
    → IsBytes key
    → IsBytes c
    → decipher_loop 4 0 init_key key c ≡ own_decrypt c (key_of key)
decipher_loop_lem key c hk hc =
    decipher_round 3 0 init_key (key_word (key_of key) 0) key c (omega arith) hc hk (key_at0 key hk)
    ∙ ap (put (plain0 c (key_of key))) (
        decipher_round 2 1 _ (key_word (key_of key) 16) key c (word_at-lt c 0 hc) hc hk
          (key_at2 key hk))
    ∙ ap (λ l. put (plain0 c (key_of key)) (put (plain1 c (key_of key)) l))
        (decipher_round 1 2 _ (key_word (key_of key) 32) key c (word_at-lt c 2 hc) hc hk
          (key_at4 key hk))
    ∙ ap
        (λ l.
          put (plain0 c (key_of key)) (put (plain1 c (key_of key)) (put (plain2 c (key_of key)) l)))
        (decipher_round 0 3 _ (key_word (key_of key) 48) key c (word_at-lt c 4 hc) hc hk
            (key_at6 key hk)
          ∙ ap (put (plain3 c (key_of key))) (decipher_end 4 _ key c))
    ∙ sym (own_decrypt_lem c (key_of key) hc)
  where
    put : ℕ → List ℕ → List ℕ
    put w l = w % 256 ∷ w / 256 ∷ l

-- On bytes, encipher of server/cipher.c writes what own_encrypt of DES/cipher.c gives for the key
-- read as one number, in front of the rest of the array, if its assertions hold, and stops if they
-- do not.
pub encipher-own_encrypt :
    (plaintext key ciphertext : List ℕ)
    → IsBytes plaintext
    → IsBytes key
    → encipher plaintext key ciphertext ≡ (
        if asserted plaintext key ciphertext
        then some (own_encrypt plaintext (key_of key) ++ drop 8 ciphertext)
        else none)
unfolding encipher
encipher-own_encrypt plaintext key ciphertext hp hk =
    ap (λ l. if asserted plaintext key ciphertext then some (l ++ drop 8 ciphertext) else none)
      (encipher_loop_lem key hk plaintext hp)

pub decipher-own_decrypt :
    (plaintext key ciphertext : List ℕ)
    → IsBytes key
    → IsBytes ciphertext
    → decipher plaintext key ciphertext ≡ (
        if asserted plaintext key ciphertext
        then some (own_decrypt ciphertext (key_of key) ++ (0 ∷ drop 9 plaintext))
        else none)
unfolding decipher
decipher-own_decrypt plaintext key ciphertext hk hc =
    ap (λ l. if asserted plaintext key ciphertext then some (l ++ (0 ∷ drop 9 plaintext)) else none)
      (decipher_loop_lem key ciphertext hk hc)

-- What stands behind a block does not change how the block decrypts.
own_decrypt-append :
    (p rest : List ℕ) (key : ℕ)
    → own_decrypt (own_encrypt p key ++ rest) key ≡ own_decrypt (own_encrypt p key) key
unfolding own_decrypt
own_decrypt-append p rest key = rw (own_encrypt_lem p key) refl

written-IsBytes :
    (p rest : List ℕ) (key : ℕ) → IsBytes rest → IsBytes (own_encrypt p key ++ drop 8 rest)
unfolding IsBytes
written-IsBytes p rest key h =
    All-append _ (own_encrypt p key) (drop 8 rest) (own_encrypt-IsBytes p key) (All-drop _ 8 rest h)

if_some : {A : Type 0} (b : Bool) (x : A) {y : A} → (if b then some x else none) ≡ some y → x ≡ y
if_some true x e = ground arith
if_some false x e = cc

-- If enciphering a plaintext of eight bytes or more ends and the assertions of decipher hold for
-- what was written, decipher with the same key gives the first eight bytes and a zero, in front of
-- the rest of its array.
pub decipher-encipher :
    (plaintext key ciphertext solution : List ℕ) {written : List ℕ}
    → IsBytes plaintext
    → IsBytes key
    → IsBytes ciphertext
    → 8 ≤ length plaintext
    → encipher plaintext key ciphertext ≡ some written
    → asserted solution key written ≡ true
    → decipher solution key written ≡ some (take 8 plaintext ++ (0 ∷ drop 9 solution))
decipher-encipher plaintext key ciphertext solution {written} hp hk hc le e ok =
    decipher-own_decrypt solution key written hk bytes
    ∙ rw ok (ap (λ l. some (l ++ (0 ∷ drop 9 solution))) back)
  where
    block : List ℕ
    block = own_encrypt plaintext (key_of key)

    same : block ++ drop 8 ciphertext ≡ written
    same =
        if_some (asserted plaintext key ciphertext) (block ++ drop 8 ciphertext)
          (sym (encipher-own_encrypt plaintext key ciphertext hp hk) ∙ e)

    bytes : IsBytes written
    bytes = rw (← same) (written-IsBytes plaintext ciphertext (key_of key) hc)

    back : own_decrypt written (key_of key) ≡ take 8 plaintext
    back =
        rw (← same) (own_decrypt-append plaintext (drop 8 ciphertext) (key_of key))
        ∙ own_decrypt-own_encrypt plaintext (key_of key) hp le
