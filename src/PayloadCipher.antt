-- ===== src/PayloadCipher.antt =====
-- DES/payload_cipher.c of the client and of the server: sixteen blocks under one key.
-- The global `keyTableBase` is the parameter `key_table_base`.
pub mod Laws
use da_bao.Base.{ℕ, zero, suc, List, [], ◌++◌, take, drop}
use da_bao.Cipher.Block.{own_encrypt, own_decrypt}
use da_bao.Cipher.Key.{get_key_from_user_id}

-- `CIPHER_SIZE` and `GROUPS`
abbrev pub cipher_size : ℕ
cipher_size = 8

abbrev pub groups : ℕ
groups = 16

pub encrypt : List ℕ → ℕ → List ℕ
encrypt plain key = own_encrypt plain key

pub decrypt : List ℕ → ℕ → List ℕ
decrypt cipher key = own_decrypt cipher key

-- The loop of `encrypt_payload` with `n` rounds left: what stands from `payload + i*CIPHER_SIZE`
-- on, and what is written from `ciphertext + i*CIPHER_SIZE` on.
pub encrypt_groups : ℕ → List ℕ → ℕ → List ℕ
unfolding encrypt
encrypt_groups zero payload key = []
encrypt_groups (suc n) payload key =
    encrypt (take cipher_size payload) key ++ encrypt_groups n (drop cipher_size payload) key

pub decrypt_groups : ℕ → List ℕ → ℕ → List ℕ
unfolding decrypt
decrypt_groups zero ciphertext key = []
decrypt_groups (suc n) ciphertext key =
    decrypt (take cipher_size ciphertext) key ++ decrypt_groups n (drop cipher_size ciphertext) key

-- The bytes written to `ciphertext`.
unfoldable pub encrypt_payload : List ℕ → List ℕ → List ℕ → List ℕ
unfolding encrypt_groups
encrypt_payload payload user_id key_table_base =
    encrypt_groups groups payload (get_key_from_user_id user_id key_table_base)

-- The bytes written to `payload`.
unfoldable pub decrypt_payload : List ℕ → List ℕ → List ℕ → List ℕ
unfolding decrypt_groups
decrypt_payload user_id ciphertext key_table_base =
    decrypt_groups groups ciphertext (get_key_from_user_id user_id key_table_base)
