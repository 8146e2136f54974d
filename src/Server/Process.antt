-- ===== src/Server/Process.antt =====
-- A round of `processPackets` in server/server.c, between taking a packet from the ring and the next.
pub mod Laws
use da_bao.Base.{ℕ, List, ◌==◌, Option, some, none, Bool, true, false}
use da_bao.Base.Int.{ℤ}
use da_bao.Payload.{PacketFormat}
use da_bao.Serialize.Packet.{serialize_payload}
use da_bao.Wire.{server_payload, server_to_app}
use da_bao.Ring.{EpollPacket}
use da_bao.Statistics.Server.{
  incre_send_pkts, incre_request_pkts, update_db_delay, update_cipher_delay,
}
use da_bao.Server.Receive.{Server, delete_epoll_event}
use da_bao.Server.Database.{Redis, process_database}

-- `REQUEST_PKT`
abbrev pub request_pkt : ℕ
request_pkt = 1

unfoldable pub set_direction : PacketFormat → ℕ → PacketFormat
set_direction payload direction = record payload { direction = direction }

unfoldable pub get_pkt_type : PacketFormat → ℕ
get_pkt_type payload = payload.type

-- The bytes that are written, and the server when `write` has succeeded or not.
unfoldable pub process_request_pkt : Bool → PacketFormat → Server → List ℕ × Server
process_request_pkt written payload s = (
  serialize_payload payload,
  elim written [
    | true ↦ record s { stats = incre_send_pkts s.stats }
    | false ↦ delete_epoll_event s
  ],
)

-- What the clock shows around the two measured parts, in microseconds.
pub record Delays : Type 0 where
  pub cipher_delay : ℤ
  pub db_delay : ℤ

module _ {R : Type 0} (redis : Redis R) (key_table : List ℕ) where
  -- The bytes written, if any, and the states of the server and of the database.
  unfoldable pub process_packet :
      EpollPacket → Delays → Bool → Server → R → Option (List ℕ) × Server × R
  unfolding process_request_pkt set_direction get_pkt_type
  process_packet packet delays written s r =
      let payload = server_payload key_table packet.buf in
      let r' = process_database redis payload r in
      let s' = record s {
        stats = update_db_delay delays.db_delay (update_cipher_delay delays.cipher_delay s.stats);
      } in
      elim (get_pkt_type payload == request_pkt) [
        | true ↦
            let (reply, s'') =
              process_request_pkt written (set_direction payload server_to_app)
                (record s' { stats = incre_request_pkts s'.stats }) in
            (some reply, s'', r')
        | false ↦ (none, s', r')
      ]
