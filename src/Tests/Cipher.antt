-- ===== src/Tests/Cipher.antt =====
-- The cipher of server/cipher.c on its test program's kind of input.
use da_bao.Base.{ℕ, ◌≡◌, refl, arith, true, List, [], ◌∷◌, ◌++◌, some, none, drop, if◌then◌else◌}
use da_bao.Cipher.Block.{own_encrypt}
use da_bao.Cipher.Block.Bytes.{IsBytes}
use da_bao.Cluster.Text.{codes}
use da_bao.Server.Cipher.{init_key, asserted, strlen, encipher, encipher_loop}
use da_bao.Server.Cipher.Laws.{key_of, encipher-own_encrypt}
use da_bao.Server.Cipher.Main.{main, strcpy, overflowed, finished}
use da_bao.Server.Cipher.Main.Laws.{main_lem}

abbrev plaintext : List ℕ
plaintext = codes "plaintxt" ++ (0 ∷ [])

abbrev key : List ℕ
key = codes "secret42" ++ (0 ∷ [])

abbrev empty : List ℕ
empty = 0 ∷ 0 ∷ 0 ∷ 0 ∷ 0 ∷ 0 ∷ 0 ∷ 0 ∷ 0 ∷ []

plaintext-IsBytes : IsBytes plaintext
unfolding IsBytes
plaintext-IsBytes = ground arith

key-IsBytes : IsBytes key
unfolding IsBytes
key-IsBytes = ground arith

empty-IsBytes : IsBytes empty
unfolding IsBytes
empty-IsBytes = ground arith

abbrev written : List ℕ
written = encipher_loop 4 0 init_key plaintext key ++ (0 ∷ [])

enciphered : encipher plaintext key empty ≡ some written
unfolding encipher strlen
enciphered = refl

fits : asserted empty key written ≡ true
unfolding strlen encipher_loop
fits = refl

encipher-own_encrypt_example : encipher plaintext key empty ≡ (
    if asserted plaintext key empty
    then some (own_encrypt plaintext (key_of key) ++ drop 8 empty)
    else none)
encipher-own_encrypt_example =
    encipher-own_encrypt plaintext key empty plaintext-IsBytes key-IsBytes

-- With nine characters the first argument does not fit its array.
too_long : main (codes "plaintext" ∷ codes "secret" ∷ []) empty empty ≡ overflowed
unfolding main strcpy
too_long = refl

main_lem_example :
    main (codes "plain" ∷ codes "secret42" ∷ []) empty empty
    ≡ finished (codes "plain") (codes "plain")
unfolding strlen
main_lem_example =
    main_lem (codes "plain") (codes "secret42") empty empty (ground arith) (ground arith)
      empty-IsBytes refl (omega arith)
