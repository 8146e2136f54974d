-- ===== src/Tests/Wire.antt =====
-- A request packet of connection 7, encrypted and read again.
use da_bao.Base.{
  ℕ, zero, suc, ◌^◌, ◌≤◌, ◌<◌, ◌≡◌, refl, arith, List, [], ◌∷◌, ◌++◌, All, take, get_or, length,
  replicate,
}
use da_bao.Cipher.Block.{own_encrypt, own_decrypt}
use da_bao.Cipher.Block.Bytes.{IsBytes}
use da_bao.Cipher.Block.Laws.{own_decrypt-own_encrypt, own_decrypt_prefix}
use da_bao.Cipher.Table.{des_key_init}
use da_bao.Cipher.Table.Nonzero.{des_key_init-All}
use da_bao.Payload.{PacketFormat, init_payload, client_set_payload, payload_size}
use da_bao.Serialize.Packet.{IsPacket, serialize_payload, deserialize_payload}
use da_bao.Serialize.Packet.Laws.{deserialize_payload-serialize_payload, length-serialize_payload}
use da_bao.Wire.{build_payload, client_message, server_payload}
use da_bao.Wire.Laws.{server_payload-client_message}

abbrev pub request : PacketFormat
request = build_payload (replicate 10 300) 1 7

abbrev pub eight : List ℕ
eight = 1 ∷ 2 ∷ 3 ∷ 4 ∷ 5 ∷ 255 ∷ 7 ∷ 8 ∷ []

-- Sixteen times the same byte, as an identifier and as what stands behind a packet.
abbrev pub identifier : List ℕ
identifier = replicate 16 9

replicate-All : (n x k : ℕ) → x < k → All (λ y. y < k) (replicate n x)
replicate-All zero x k h = tt
replicate-All (suc n) x k h = (h, replicate-All n x k h)

pub replicate-IsBytes : (n x : ℕ) → x < 256 → IsBytes (replicate n x)
unfolding IsBytes
replicate-IsBytes n x h = replicate-All n x 256 h

pub request-IsPacket : IsPacket request
unfolding build_payload client_set_payload init_payload
request-IsPacket = record {
  zero_fill_size = refl;
  zero_fill_bytes = replicate-All 6 0 (2 ^ 8) (omega arith);
  direction_byte = omega arith;
  type_byte = omega arith;
  user_id_size = refl;
  user_id_words = omega arith;
  reserve_short = omega arith;
  type_affirm_byte = omega arith;
  family_long = omega arith;
  src_device_id_size = refl;
  src_device_id_words = omega arith;
  dst_device_id_size = refl;
  dst_device_id_words = omega arith;
  operation_size = refl;
  operation_words = omega arith;
  state_bytes_size = refl;
  state_bytes = replicate-All 67 b'a' (2 ^ 8) (omega arith);
}

eight-IsBytes : IsBytes eight
unfolding IsBytes
eight-IsBytes = omega arith

four-IsBytes : IsBytes (1 ∷ 2 ∷ 3 ∷ 4 ∷ [])
unfolding IsBytes
four-IsBytes = omega arith

own_decrypt-own_encrypt_example :
    own_decrypt (own_encrypt eight 0x0102030405060708) 0x0102030405060708 ≡ eight
own_decrypt-own_encrypt_example =
    own_decrypt-own_encrypt eight 0x0102030405060708 eight-IsBytes (omega arith)

own_decrypt_prefix_example :
    take 4 (own_decrypt eight 77) ≡ take 4 (own_decrypt (1 ∷ 2 ∷ 3 ∷ 4 ∷ []) 77)
own_decrypt_prefix_example =
    own_decrypt_prefix eight (1 ∷ 2 ∷ 3 ∷ 4 ∷ []) 77 eight-IsBytes four-IsBytes refl

same_from_2 : (i : ℕ) → 2 ≤ i → i < 16 → get_or (3 ∷ 1 ∷ eight) i 0 ≡ get_or (0 ∷ 2 ∷ eight) i 0
same_from_2 zero h k = absurd (omega arith)
same_from_2 (suc zero) h k = absurd (omega arith)
same_from_2 (suc (suc i)) h k = refl

deserialize_payload-serialize_payload_example :
    deserialize_payload (serialize_payload request ++ eight) ≡ request
deserialize_payload-serialize_payload_example =
    deserialize_payload-serialize_payload request eight request-IsPacket

length-serialize_payload_example : length (serialize_payload request) ≡ payload_size
length-serialize_payload_example = length-serialize_payload request request-IsPacket

server_payload-client_message_example :
    server_payload eight (client_message eight request identifier ++ identifier) ≡ request
server_payload-client_message_example =
    server_payload-client_message eight request identifier identifier request-IsPacket (omega arith)
      (omega arith) (replicate-IsBytes 16 9 (omega arith)) (replicate-IsBytes 16 9 (omega arith))

-- `INIT_SEED`
abbrev init_seed : ℕ
init_seed = 0x5555555555555557

des_key_init-All_example : All (λ key. (0 < key) × (key < 2 ^ 64)) (des_key_init 3 init_seed)
des_key_init-All_example = des_key_init-All 3 init_seed (omega arith) (omega arith)
