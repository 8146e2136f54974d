-- ===== src/Wire/Laws.antt =====
-- The server gets the packet that the client built.
use da_bao.Base.{ℕ, ◌≤◌, ◌≡◌, arith, ap, ap₂, ◌∙◌, sym}
use da_bao.Base.{List, ◌++◌, length, take, drop, get_or}
use da_bao.Base.{length-append, length-take, length-drop, take-up_append}
use da_bao.Base.{take-append-drop, drop-take-up, get_or-take, take_sized, drop_sized}
use mathlib.Core.List.{append_assoc}
use da_bao.Cipher.Block.Bytes.{IsBytes}
use da_bao.Cipher.Key.Laws.{get_key_local}
use da_bao.Cipher.Key.{get_key_from_user_id}
use da_bao.Payload.{PacketFormat}
use da_bao.Serialize.Packet.{serialize_payload, deserialize_payload, IsPacket}
use da_bao.Serialize.Packet.Laws.{
  deserialize_payload-serialize_payload, length-serialize_payload, serialize_payload-IsBytes,
  append-IsBytes,
}
use da_bao.PayloadCipher.{encrypt_payload, decrypt_payload}
use da_bao.PayloadCipher.Laws.{
  decrypt_payload-encrypt_payload, decrypt_payload_key, length-encrypt_payload,
  encrypt_payload-IsBytes, IsBytes-take, IsBytes-drop,
}
use da_bao.Wire.{payload_cipher, client_message, buf_plain, server_payload}

module _ (key_table : List ℕ) (p : PacketFormat) (beyond behind : List ℕ) (v : IsPacket p)
    (long : 4 ≤ length beyond) (long' : 4 ≤ length behind) (bytes : IsBytes beyond)
    (bytes' : IsBytes behind) where
  sent : List ℕ
  sent = serialize_payload p

  user_id : List ℕ
  user_id = drop 6 sent

  cipher : List ℕ
  cipher = encrypt_payload (drop 22 (sent ++ beyond)) user_id key_table

  sent_size : length sent ≡ 146
  unfolding sent
  sent_size = length-serialize_payload p v

  head_size : length (take 22 sent) ≡ 22
  head_size = omega (arith, length-take 22 sent, sent_size)

  cipher_size : length cipher ≡ 128
  unfolding cipher
  cipher_size = length-encrypt_payload (drop 22 (sent ++ beyond)) user_id key_table

  -- The message is the head and the 124 bytes of ciphertext that it has room for.
  message_parts : client_message key_table p beyond ≡ take 22 sent ++ take 124 cipher
  unfolding client_message payload_cipher sent user_id cipher
  message_parts = take-up_append 22 124 (take 22 sent) cipher head_size

  pub length-client_message : length (client_message key_table p beyond) ≡ 146
  unfolding cipher
  length-client_message =
      ap length message_parts
      ∙ omega (
        arith,
        length-append (take 22 sent) (take 124 cipher),
        head_size,
        length-take 124 cipher,
        cipher_size,
      )

  -- What the server has from `PAYLOAD_OFFSET` on.
  received : List ℕ
  received = take 124 cipher ++ behind

  buffer_parts : client_message key_table p beyond ++ behind ≡ take 22 sent ++ received
  unfolding received
  buffer_parts =
      ap (λ l. l ++ behind) message_parts ∙ append_assoc (take 22 sent) (take 124 cipher) behind

  head_received : take 22 (take 22 sent ++ received) ≡ take 22 sent
  head_received = take_sized (take 22 sent) received 22 head_size

  rest_received : drop 22 (take 22 sent ++ received) ≡ received
  rest_received = drop_sized (take 22 sent) received 22 head_size

  cipher_received : take 124 received ≡ take 124 cipher
  unfolding received
  cipher_received =
      take_sized (take 124 cipher) behind 124 (omega (arith, length-take 124 cipher, cipher_size))

  received-IsBytes : IsBytes received
  unfolding received cipher
  received-IsBytes =
      append-IsBytes (take 124 cipher) behind
        (IsBytes-take 124 cipher
          (encrypt_payload-IsBytes (drop 22 (sent ++ beyond)) user_id key_table))
        bytes'

  plain-IsBytes : IsBytes (drop 22 (sent ++ beyond))
  unfolding sent
  plain-IsBytes =
      IsBytes-drop 22 (sent ++ beyond)
        (append-IsBytes sent beyond (serialize_payload-IsBytes p v) bytes)

  -- Both sides take the key from the same bytes of the head.
  same_key :
      get_key_from_user_id (drop 6 (take 22 sent)) key_table
      ≡ get_key_from_user_id user_id key_table
  unfolding user_id
  same_key =
      get_key_local _ _ key_table
        (λ i h h'. ap (λ l. get_or l i 0) (drop-take-up 6 16 sent) ∙ get_or-take 16 user_id i 0 h')

  decrypted : List ℕ
  decrypted = decrypt_payload (drop 6 (take 22 sent)) received key_table

  decrypted_start : take 124 decrypted ≡ drop 22 sent
  unfolding decrypted user_id cipher
  decrypted_start =
      ap (take 124) (decrypt_payload_key _ _ received key_table same_key)
      ∙ decrypt_payload-encrypt_payload (drop 22 (sent ++ beyond)) received user_id key_table
          plain-IsBytes received-IsBytes
          (omega (arith, length-drop 22 (sent ++ beyond), length-append sent beyond, sent_size))
          cipher_received
      ∙ ap (take 124) rest_beyond
      ∙ take_sized (drop 22 sent) beyond 124 (omega (arith, length-drop 22 sent, sent_size))
    where
      rest_beyond : drop 22 (sent ++ beyond) ≡ drop 22 sent ++ beyond
      rest_beyond =
          ap (λ l. drop 22 (l ++ beyond)) (sym (take-append-drop 22 sent))
          ∙ ap (drop 22) (append_assoc (take 22 sent) (drop 22 sent) beyond)
          ∙ drop_sized (take 22 sent) (drop 22 sent ++ beyond) 22 head_size

  -- The decrypted buffer starts with the packet as it was serialized.
  plain_parts : take 22 sent ++ decrypted ≡ sent ++ drop 124 decrypted
  plain_parts =
      ap (λ l. take 22 sent ++ l) (sym (take-append-drop 124 decrypted))
      ∙ ap (λ l. take 22 sent ++ (l ++ drop 124 decrypted)) decrypted_start
      ∙ sym (append_assoc (take 22 sent) (drop 22 sent) (drop 124 decrypted))
      ∙ ap (λ l. l ++ drop 124 decrypted) (take-append-drop 22 sent)

  -- The packet that the client builds, serializes, encrypts and cuts at 146 bytes is the packet
  -- that the server decrypts and deserializes, if both have the same key table, the packet's fields
  -- fit their widths and arrays, and at least four bytes stand behind each array.
  pub server_payload-client_message :
      server_payload key_table (client_message key_table p beyond ++ behind) ≡ p
  unfolding server_payload buf_plain decrypted sent
  server_payload-client_message =
      ap (server_payload key_table) buffer_parts
      ∙ ap₂ (λ h r. deserialize_payload (h ++ decrypt_payload (drop 6 h) r key_table)) head_received
          rest_received
      ∙ ap deserialize_payload plain_parts
      ∙ deserialize_payload-serialize_payload p (drop 124 decrypted) v
