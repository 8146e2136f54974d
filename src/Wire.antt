-- ===== src/Wire.antt =====
-- The message on the wire: the branch for EPOLLOUT of `epollLoop` in client/client.c, compiled with
-- CIPHER, and the start of a round of `processPackets` in server/server.c.
-- The cipher works on sixteen blocks, 128 bytes, of which the arrays have 124: the client encrypts
-- the four bytes `beyond` its array as well, and both store four bytes behind an array's end. Those
-- bytes are listed here, so that nothing else is overwritten.
pub mod Laws
use da_bao.Base.{ℕ, List, ◌++◌, take, drop}
use da_bao.Payload.{PacketFormat, init_payload, client_set_payload, payload_size, payload_offset}
use da_bao.Payload.{zero_fill_offset}
use da_bao.Serialize.Packet.{serialize_payload, deserialize_payload}
use da_bao.PayloadCipher.{encrypt_payload, decrypt_payload}

-- `USER_TO_SERVER` and `SERVER_TO_APP`
abbrev pub user_to_server : ℕ
user_to_server = 0x00

abbrev pub server_to_app : ℕ
server_to_app = 0x03

-- `initPayload` and `setPayload` for the connection `fd`.
unfoldable pub build_payload : List ℕ → ℕ → ℕ → PacketFormat
build_payload map pkt_type fd = client_set_payload map init_payload pkt_type user_to_server fd

-- `payload_cipher`: the head in clear, the rest encrypted with the key of the header's identifier.
unfoldable pub payload_cipher : List ℕ → PacketFormat → List ℕ → List ℕ
payload_cipher key_table payload beyond =
    let payload_buf = serialize_payload payload in
    take payload_offset payload_buf
    ++ encrypt_payload (drop payload_offset (payload_buf ++ beyond))
        (drop zero_fill_offset payload_buf) key_table

-- The bytes that `write` is given: `pbuf - payload_buf` of them, the length of a packet.
unfoldable pub client_message : List ℕ → PacketFormat → List ℕ → List ℕ
unfolding payload_cipher
client_message key_table payload beyond =
    take payload_size (payload_cipher key_table payload beyond)

-- `buf_plain`: the head is copied, the rest decrypted with the key of the head.
unfoldable pub buf_plain : List ℕ → List ℕ → List ℕ
buf_plain key_table packet_buf =
    let head = take payload_offset packet_buf in
    head ++ decrypt_payload (drop zero_fill_offset head) (drop payload_offset packet_buf) key_table

unfoldable pub server_payload : List ℕ → List ℕ → PacketFormat
unfolding buf_plain
server_payload key_table packet_buf = deserialize_payload (buf_plain key_table packet_buf)
