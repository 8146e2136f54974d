-- ===== src/Payload.antt =====
-- payload.c and payload.h: the packet, its initial contents and the fields that a sender sets.
use da_bao.Base.{ℕ, List, get_or, set, replicate}

-- `PAYLOAD_SIZE`, `STATE_SIZE`, `PAYLOAD_OFFSET`, `ZERO_FILL_OFFSET`
abbrev pub payload_size : ℕ
payload_size = 146

abbrev pub state_size : ℕ
state_size = 67

abbrev pub payload_offset : ℕ
payload_offset = 22

abbrev pub zero_fill_offset : ℕ
zero_fill_offset = 6

-- `struct packet_format`; `zero_fill` is its field `zero`.
pub record PacketFormat : Type 0 where
  pub zero_fill : List ℕ
  pub direction : ℕ
  pub type : ℕ
  pub user_id : List ℕ
  pub reserve : ℕ
  pub type_affirm : ℕ
  pub family : ℕ
  pub src_device_id : List ℕ
  pub dst_device_id : List ℕ
  pub operation : List ℕ
  pub state : List ℕ

-- `memset(payload, 0, …)` and then `memset(payload->state, 'a', …)`.
unfoldable pub init_payload : PacketFormat
init_payload = record {
  zero_fill = replicate zero_fill_offset 0;
  direction = 0;
  type = 0;
  user_id = replicate 3 0;
  reserve = 0;
  type_affirm = 0;
  family = 0;
  src_device_id = replicate 4 0;
  dst_device_id = replicate 4 0;
  operation = replicate 4 0;
  state = replicate state_size b'a';
}

-- client/payload.c: `map` is the shuffled table of identifiers, read at `ID`.
unfoldable pub client_set_payload : List ℕ → PacketFormat → ℕ → ℕ → ℕ → PacketFormat
client_set_payload map payload pkt_type direction id = record payload {
  type = pkt_type;
  direction = direction;
  user_id = set (set (set payload.user_id 0 id) 1 (get_or map id 0)) 2 id;
  type_affirm = pkt_type;
  src_device_id = set payload.src_device_id 0 (get_or map id 0);
  dst_device_id = set payload.dst_device_id 0 id;
}

-- server/payload.c
unfoldable pub server_set_payload : PacketFormat → ℕ → ℕ → ℕ → PacketFormat
server_set_payload payload pkt_type direction id = record payload {
  direction = direction;
  type = pkt_type;
  type_affirm = pkt_type;
  user_id = set payload.user_id 0 id;
  src_device_id = set payload.src_device_id 0 id;
  dst_device_id = set payload.dst_device_id 0 id;
}
