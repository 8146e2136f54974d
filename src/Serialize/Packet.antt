-- ===== src/Serialize/Packet.antt =====
-- `serialize_payload` and the two versions of `deserialize_payload`.
pub mod Laws
use da_bao.Base.{ℕ, ◌+◌, ◌^◌, ◌<◌, ◌≡◌, List, [], ◌++◌, length, drop, All}
use da_bao.Payload.{PacketFormat, zero_fill_offset, state_size}
use da_bao.SocketTools.{serialize_u8, serialize_u16, serialize_u32, serialize_u64}
use da_bao.SocketTools.{deserialize_u8, deserialize_u16, deserialize_u32, deserialize_u64}
use da_bao.Serialize.Arrays.{write_each, read_each}

unfoldable pub serialize_payload : PacketFormat → List ℕ
serialize_payload info =
    write_each serialize_u8 info.zero_fill
    ++ (serialize_u8 info.direction
        ++ (serialize_u8 info.type
            ++ (write_each serialize_u32 info.user_id
                ++ (serialize_u16 info.reserve
                    ++ (serialize_u8 info.type_affirm
                        ++ (serialize_u64 info.family
                            ++ (write_each serialize_u32 info.src_device_id
                                ++ (write_each serialize_u32 info.dst_device_id
                                    ++ (write_each serialize_u32 info.operation
                                        ++ write_each serialize_u8 info.state)))))))))

-- server/serialize.c
unfoldable pub deserialize_payload : List ℕ → PacketFormat
deserialize_payload buffer =
    let (zero_fill, b1) = read_each deserialize_u8 1 zero_fill_offset buffer in
    let b2 = drop 1 b1 in
    let b3 = drop 1 b2 in
    let (user_id, b4) = read_each deserialize_u32 4 3 b3 in
    let b5 = drop 2 b4 in
    let b6 = drop 1 b5 in
    let b7 = drop 8 b6 in
    let (src_device_id, b8) = read_each deserialize_u32 4 4 b7 in
    let (dst_device_id, b9) = read_each deserialize_u32 4 4 b8 in
    let (operation, b10) = read_each deserialize_u32 4 4 b9 in
    let (state, b11) = read_each deserialize_u8 1 state_size b10 in
    record {
      zero_fill = zero_fill;
      direction = deserialize_u8 b1;
      type = deserialize_u8 b2;
      user_id = user_id;
      reserve = deserialize_u16 b4;
      type_affirm = deserialize_u8 b5;
      family = deserialize_u64 b6;
      src_device_id = src_device_id;
      dst_device_id = dst_device_id;
      operation = operation;
      state = state;
    }

-- client/serialize.c: the loop for the destination stores into `info->srcDeviceID` once more, and
-- `info->dstDeviceID` keeps what it held.
unfoldable pub client_deserialize_payload : List ℕ → PacketFormat → PacketFormat
client_deserialize_payload buffer info =
    let (zero_fill, b1) = read_each deserialize_u8 1 zero_fill_offset buffer in
    let b2 = drop 1 b1 in
    let b3 = drop 1 b2 in
    let (user_id, b4) = read_each deserialize_u32 4 3 b3 in
    let b5 = drop 2 b4 in
    let b6 = drop 1 b5 in
    let b7 = drop 8 b6 in
    let (first_src_device_id, b8) = read_each deserialize_u32 4 4 b7 in
    let (src_device_id, b9) = read_each deserialize_u32 4 4 b8 in
    let (operation, b10) = read_each deserialize_u32 4 4 b9 in
    let (state, b11) = read_each deserialize_u8 1 state_size b10 in
    record {
      zero_fill = zero_fill;
      direction = deserialize_u8 b1;
      type = deserialize_u8 b2;
      user_id = user_id;
      reserve = deserialize_u16 b4;
      type_affirm = deserialize_u8 b5;
      family = deserialize_u64 b6;
      src_device_id = src_device_id;
      dst_device_id = info.dst_device_id;
      operation = operation;
      state = state;
    }

-- The sizes of the arrays and the widths of the fields of `struct packet_format`.
pub record IsPacket (p : PacketFormat) : Type 0 where
  pub zero_fill_size : length p.zero_fill ≡ zero_fill_offset
  pub zero_fill_bytes : All (λ x. x < 2 ^ 8) p.zero_fill
  pub direction_byte : p.direction < 2 ^ 8
  pub type_byte : p.type < 2 ^ 8
  pub user_id_size : length p.user_id ≡ 3
  pub user_id_words : All (λ x. x < 2 ^ 32) p.user_id
  pub reserve_short : p.reserve < 2 ^ 16
  pub type_affirm_byte : p.type_affirm < 2 ^ 8
  pub family_long : p.family < 2 ^ 64
  pub src_device_id_size : length p.src_device_id ≡ 4
  pub src_device_id_words : All (λ x. x < 2 ^ 32) p.src_device_id
  pub dst_device_id_size : length p.dst_device_id ≡ 4
  pub dst_device_id_words : All (λ x. x < 2 ^ 32) p.dst_device_id
  pub operation_size : length p.operation ≡ 4
  pub operation_words : All (λ x. x < 2 ^ 32) p.operation
  pub state_bytes_size : length p.state ≡ state_size
  pub state_bytes : All (λ x. x < 2 ^ 8) p.state
