-- ===== src/PayloadCipher/Laws.antt =====
-- What one side encrypts the other decrypts, also when the last block is cut short.
use da_bao.Base.{ℕ, zero, suc, ◌*◌, ◌≤◌, ◌<◌, ◌≡◌, refl, arith, ap, ◌∙◌, sym}
use da_bao.Base.{
  List, ◌++◌, length, take, drop, up, take-up, take-up_append, take-take-up, length-drop,
  length-take,
}
use da_bao.Base.{
  take-up_first, take-up_rest, All-take, All-drop, All-append, length-append, drop_sized,
}
use mathlib.Core.List.{append-nil}
use da_bao.Cipher.Block.{own_encrypt, own_decrypt}
use da_bao.Cipher.Block.Bytes.{IsBytes}
use da_bao.Cipher.Block.Laws.{own_decrypt-own_encrypt, own_decrypt_prefix, length-own_encrypt}
use da_bao.Cipher.Block.Laws.{own_encrypt-IsBytes}
use da_bao.Cipher.Key.{get_key_from_user_id}
use da_bao.PayloadCipher.{encrypt_groups, decrypt_groups}
use da_bao.PayloadCipher.{encrypt_payload, decrypt_payload}

-- The length of `n` whole blocks and half of one more.
abbrev pub cut : ℕ → ℕ
cut zero = 4
cut (suc n) = up 8 (cut n)

pub IsBytes-take : (n : ℕ) (xs : List ℕ) → IsBytes xs → IsBytes (take n xs)
unfolding IsBytes
IsBytes-take n xs h = All-take (λ b. b < 256) n xs h

pub IsBytes-drop : (n : ℕ) (xs : List ℕ) → IsBytes xs → IsBytes (drop n xs)
unfolding IsBytes
IsBytes-drop n xs h = All-drop (λ b. b < 256) n xs h

-- One whole block.
module _ (payload : List ℕ) (key : ℕ) (h : IsBytes payload) (le : 8 ≤ length payload) where
  block_returns : own_decrypt (own_encrypt (take 8 payload) key) key ≡ take 8 payload
  block_returns =
      own_decrypt-own_encrypt (take 8 payload) key (IsBytes-take 8 payload h)
        (omega (arith, length-take 8 payload))
      ∙ take-take-up 8 0 payload

-- A ciphertext that agrees with the encryption of `payload` on `n` blocks and a half decrypts to
-- `payload` on `n` blocks and a half.
decrypt_cut :
    (n : ℕ) (payload received : List ℕ) (key : ℕ)
    → IsBytes payload
    → IsBytes received
    → up 4 (cut n) ≤ length payload
    → take (cut n) received ≡ take (cut n) (encrypt_groups (suc n) payload key)
    → take (cut n) (decrypt_groups (suc n) received key) ≡ take (cut n) payload
unfolding encrypt_groups decrypt_groups
decrypt_cut zero payload received key hp hr le e =
    ap (take 4) (append-nil (own_decrypt (take 8 received) key))
    ∙ own_decrypt_prefix (take 8 received) block key (IsBytes-take 8 received hr)
        (own_encrypt-IsBytes (take 8 payload) key)
        (take-take-up 4 4 received ∙ e ∙ ap (take 4) (append-nil block))
    ∙ ap (take 4) (block_returns payload key hp le)
    ∙ take-take-up 4 4 payload
  where
    block : List ℕ
    block = own_encrypt (take 8 payload) key
decrypt_cut (suc n) payload received key hp hr le e =
    ap (λ b. take (up 8 (cut n)) (b ++ rest))
      (ap (λ b. own_decrypt b key) same_block ∙ block_returns payload key hp (omega arith))
    ∙ take-up_append 8 (cut n) (take 8 payload) rest (omega (arith, length-take 8 payload))
    ∙ ap (λ l. take 8 payload ++ l)
        (decrypt_cut n (drop 8 payload) (drop 8 received) key (IsBytes-drop 8 payload hp)
          (IsBytes-drop 8 received hr) (omega (arith, length-drop 8 payload)) same_rest)
    ∙ sym (take-up 8 (cut n) payload)
  where
    block : List ℕ
    block = own_encrypt (take 8 payload) key

    rest : List ℕ
    rest = decrypt_groups (suc n) (drop 8 received) key

    more : List ℕ
    more = encrypt_groups (suc n) (drop 8 payload) key

    sized : length block ≡ 8
    sized = length-own_encrypt (take 8 payload) key

    same_block : take 8 received ≡ block
    same_block =
        take-up_first 8 (cut n) received (block ++ more) e
        ∙ take-up_append 8 0 block more sized
        ∙ append-nil block

    same_rest : take (cut n) (drop 8 received) ≡ take (cut n) more
    same_rest =
        take-up_rest 8 (cut n) received (block ++ more) e
        ∙ ap (take (cut n)) (drop_sized block more 8 sized)

-- If the first 124 bytes received are the first 124 of the ciphertext, decrypting with the same
-- identifier and table gives the first 124 bytes of the plaintext, whatever stands behind them.
pub decrypt_payload-encrypt_payload :
    (payload received user_id key_table_base : List ℕ)
    → IsBytes payload
    → IsBytes received
    → 128 ≤ length payload
    → take 124 received ≡ take 124 (encrypt_payload payload user_id key_table_base)
    → take 124 (decrypt_payload user_id received key_table_base) ≡ take 124 payload
unfolding encrypt_payload decrypt_payload
decrypt_payload-encrypt_payload payload received user_id key_table_base hp hr le e =
    decrypt_cut 15 payload received (get_key_from_user_id user_id key_table_base) hp hr le e

-- Only the key that the identifier selects matters.
pub decrypt_payload_key :
    (u v ciphertext key_table : List ℕ)
    → get_key_from_user_id u key_table ≡ get_key_from_user_id v key_table
    → decrypt_payload u ciphertext key_table ≡ decrypt_payload v ciphertext key_table
unfolding decrypt_payload
decrypt_payload_key u v ciphertext key_table e = ap (decrypt_groups 16 ciphertext) e

length-encrypt_groups : (n : ℕ) (xs : List ℕ) (key : ℕ) → length (encrypt_groups n xs key) ≡ 8 * n
unfolding encrypt_groups
length-encrypt_groups zero xs key = refl
length-encrypt_groups (suc n) xs key = omega (
  arith,
  length-append (own_encrypt (take 8 xs) key) (encrypt_groups n (drop 8 xs) key),
  length-own_encrypt (take 8 xs) key,
  length-encrypt_groups n (drop 8 xs) key,
)

pub length-encrypt_payload :
    (payload user_id key_table : List ℕ) → length (encrypt_payload payload user_id key_table) ≡ 128
unfolding encrypt_payload
length-encrypt_payload payload user_id key_table = length-encrypt_groups 16 payload _

encrypt_groups-IsBytes : (n : ℕ) (xs : List ℕ) (key : ℕ) → IsBytes (encrypt_groups n xs key)
unfolding encrypt_groups IsBytes
encrypt_groups-IsBytes zero xs key = tt
encrypt_groups-IsBytes (suc n) xs key =
    All-append (λ b. b < 256) (own_encrypt (take 8 xs) key) (encrypt_groups n (drop 8 xs) key)
      (own_encrypt-IsBytes (take 8 xs) key) (encrypt_groups-IsBytes n (drop 8 xs) key)

pub encrypt_payload-IsBytes :
    (payload user_id key_table : List ℕ) → IsBytes (encrypt_payload payload user_id key_table)
unfolding encrypt_payload
encrypt_payload-IsBytes payload user_id key_table = encrypt_groups-IsBytes 16 payload _
