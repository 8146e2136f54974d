-- ===== src/Server/Process/Laws.antt =====
-- What a worker does with a packet that the client sent.
use da_bao.Base.{
  ℕ, ◌≤◌, ◌≡◌, ap, ◌∙◌, arith, List, ◌++◌, length, some, none, if◌then◌else◌, ◌==◌, Bool,
}
use da_bao.Cipher.Block.Bytes.{IsBytes}
use da_bao.Payload.{PacketFormat}
use da_bao.Serialize.Packet.{serialize_payload, IsPacket}
use da_bao.Ring.{EpollPacket}
use da_bao.Wire.{client_message, server_payload, server_to_app}
use da_bao.Wire.Laws.{server_payload-client_message}
use da_bao.Server.Receive.{Server}
use da_bao.Server.Database.{Redis, process_database}
use da_bao.Server.Process.{
  Delays, request_pkt, set_direction, get_pkt_type, process_request_pkt, process_packet,
}

module _ {R : Type 0} (redis : Redis R) (key_table : List ℕ) (p : PacketFormat)
    (beyond behind : List ℕ) (v : IsPacket p) (long : 4 ≤ length beyond) (long' : 4 ≤ length behind)
    (bytes : IsBytes beyond) (bytes' : IsBytes behind) where
  -- When a packet that the client encrypted reaches a worker with the same key table, the database
  -- is updated for that packet, and a request, whether it can be written or not, is answered with
  -- the same packet, unencrypted and with its direction set to SERVER_TO_APP, while no other packet
  -- is answered, if the packet's fields fit their widths and arrays and at least four bytes stand
  -- behind each array.
  pub process_packet_answer :
      (packet : EpollPacket) (delays : Delays) (written : Bool) (s : Server) (r : R)
      → packet.buf ≡ client_message key_table p beyond ++ behind
      → ((process_packet redis key_table packet delays written s r).0 ≡ (
          if p.type == request_pkt
          then some (serialize_payload (record p { direction = server_to_app }))
          else none))
        × ((process_packet redis key_table packet delays written s r).2
            ≡ process_database redis p r)
  unfolding process_packet process_request_pkt set_direction get_pkt_type
  process_packet_answer packet delays written s r e = ground (arith, read)
    where
      read : server_payload key_table packet.buf ≡ p
      read =
          ap (server_payload key_table) e
          ∙ server_payload-client_message key_table p beyond behind v long long' bytes bytes'
