-- ===== src/Serialize/Packet/Laws.antt =====
-- The server reads back the packet that was sent, and echoes the bytes that it read.
use da_bao.Base.{
  ℕ, suc, ◌*◌, ◌^◌, ◌<◌, ◌≡◌, refl, arith, ap, List, [], ◌∷◌, ◌++◌, length, All, All-append,
  length-append,
}
use da_bao.Cipher.Block.Bytes.{IsBytes}
use mathlib.Core.List.{append_assoc}
use da_bao.Payload.{PacketFormat, payload_size}
use da_bao.SocketTools.{serialize_u8, serialize_u16, serialize_u32, serialize_u64}
use da_bao.SocketTools.Laws.{
  deserialize_u8-serialize_u8, deserialize_u16-serialize_u16, deserialize_u64-serialize_u64,
}
use da_bao.Serialize.Arrays.{skip_u8, skip_u16, skip_u64, read_u8s, read_u32s, write_each}
use da_bao.Serialize.Packet.{
  serialize_payload, deserialize_payload, client_deserialize_payload, IsPacket,
}

ruleset reading = (
  append_assoc, read_u8s, read_u32s, skip_u8, skip_u16, skip_u64, deserialize_u8-serialize_u8,
  deserialize_u16-serialize_u16, deserialize_u64-serialize_u64,
)

module _ (p : PacketFormat) (rest : List ℕ) (v : IsPacket p) where
  -- The server reads back every packet that was serialized, whatever bytes stand behind it, if its
  -- fields fit their widths and arrays.
  pub deserialize_payload-serialize_payload : deserialize_payload (serialize_payload p ++ rest) ≡ p
  unfolding deserialize_payload serialize_payload
  deserialize_payload-serialize_payload = simp (
    reading, v.zero_fill_size, v.zero_fill_bytes, v.user_id_size, v.user_id_words, v.reserve_short,
    v.family_long, v.src_device_id_size, v.src_device_id_words, v.dst_device_id_size,
    v.dst_device_id_words, v.operation_size, v.operation_words, v.state_bytes_size, v.state_bytes,
  )

  -- The client's reader gives a serialized packet with the destination in place of the source, and
  -- with the destination that its argument held, if the packet's fields fit their widths and
  -- arrays.
  pub client_deserialize_payload-serialize_payload :
      (info : PacketFormat)
      → client_deserialize_payload (serialize_payload p ++ rest) info
        ≡ record p { src_device_id = p.dst_device_id; dst_device_id = info.dst_device_id }
  unfolding client_deserialize_payload serialize_payload
  client_deserialize_payload-serialize_payload info = simp (
    reading, v.zero_fill_size, v.zero_fill_bytes, v.user_id_size, v.user_id_words, v.reserve_short,
    v.family_long, v.src_device_id_size, v.src_device_id_words, v.dst_device_id_size,
    v.dst_device_id_words, v.operation_size, v.operation_words, v.state_bytes_size, v.state_bytes,
  )

length-write_u8s : (xs : List ℕ) → length (write_each serialize_u8 xs) ≡ length xs
unfolding write_each serialize_u8
length-write_u8s [] = refl
length-write_u8s (x ∷ xs) = ap suc (length-write_u8s xs)

length-write_u32s : (xs : List ℕ) → length (write_each serialize_u32 xs) ≡ 4 * length xs
unfolding write_each serialize_u32
length-write_u32s [] = refl
length-write_u32s (x ∷ xs) = omega (arith, length-write_u32s xs)

-- A packet takes the 146 bytes of `PAYLOAD_SIZE`.
pub length-serialize_payload :
    (p : PacketFormat) → IsPacket p → length (serialize_payload p) ≡ payload_size
unfolding serialize_payload serialize_u8 serialize_u16 serialize_u64
length-serialize_payload p v = simp (
  length-append, length-write_u8s, length-write_u32s, v.zero_fill_size, v.user_id_size,
  v.src_device_id_size, v.dst_device_id_size, v.operation_size, v.state_bytes_size,
)

write_u8s-IsBytes : (xs : List ℕ) → All (λ x. x < 2 ^ 8) xs → IsBytes (write_each serialize_u8 xs)
unfolding write_each serialize_u8 IsBytes
write_u8s-IsBytes [] h = tt
write_u8s-IsBytes (x ∷ xs) h = (h.0, write_u8s-IsBytes xs h.1)

write_u32s-IsBytes : (xs : List ℕ) → IsBytes (write_each serialize_u32 xs)
unfolding write_each serialize_u32 IsBytes
write_u32s-IsBytes [] = tt
write_u32s-IsBytes (x ∷ xs) =
    (omega arith, (omega arith, (omega arith, (omega arith, write_u32s-IsBytes xs))))

pub append-IsBytes : (xs ys : List ℕ) → IsBytes xs → IsBytes ys → IsBytes (xs ++ ys)
unfolding IsBytes
append-IsBytes = All-append (λ b. b < 256)

words-IsBytes : (x y : ℕ) → IsBytes (serialize_u16 x) × IsBytes (serialize_u64 y)
unfolding IsBytes serialize_u16 serialize_u64
words-IsBytes x y = omega arith

byte-IsBytes : (x : ℕ) → x < 256 → IsBytes (serialize_u8 x)
unfolding IsBytes serialize_u8
byte-IsBytes x h = (h, tt)

pub serialize_payload-IsBytes : (p : PacketFormat) → IsPacket p → IsBytes (serialize_payload p)
unfolding serialize_payload
serialize_payload-IsBytes p v =
    append-IsBytes _ _ (write_u8s-IsBytes p.zero_fill v.zero_fill_bytes) (
      append-IsBytes _ _ (byte-IsBytes p.direction v.direction_byte) (
        append-IsBytes _ _ (byte-IsBytes p.type v.type_byte) (
          append-IsBytes _ _ (write_u32s-IsBytes p.user_id) (
            append-IsBytes _ _ (words-IsBytes p.reserve 0).0 (
              append-IsBytes _ _ (byte-IsBytes p.type_affirm v.type_affirm_byte) (
                append-IsBytes _ _ (words-IsBytes 0 p.family).1 (
                  append-IsBytes _ _ (write_u32s-IsBytes p.src_device_id) (
                    append-IsBytes _ _ (write_u32s-IsBytes p.dst_device_id) (
                      append-IsBytes _ _ (write_u32s-IsBytes p.operation)
                        (write_u8s-IsBytes p.state v.state_bytes))))))))))
