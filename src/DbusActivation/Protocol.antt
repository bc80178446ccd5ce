-- ===== src/DbusActivation/Protocol.antt =====
-- internal/dbusactivation/protocol.go: packets.
use servicectl.Base.{
  ℕ, ◌+◌, Bool, ◌&&◌, not, [], ◌∷◌, ◌++◌, length, ltb, leb, ◌==◌, Result, ok, err, if◌then◌else◌,
  nat_eq,
}
use servicectl.Base.Text.{Text, text, text_eq, take, drop}
use servicectl.DbusActivation.Wire.{
  WireError, bad_type, bad_flags, payload_too_long, unexpected_end, bad_magic, bad_version,
  wrong_length, put_number, number_from,
}

-- A message type, `MessageHello` to `MessagePing`, is its number on the wire.
pub record Packet : Type 0 where
  pub message_type : ℕ
  pub request_id : ℕ
  pub flags : ℕ
  pub payload : Text

abbrev pub protocol_version : ℕ
protocol_version = 1

abbrev pub header_size : ℕ
header_size = 28

abbrev pub max_payload : ℕ
max_payload = 65536

abbrev pub protocol_magic : Text
protocol_magic = text "SDBUS" ++ (0 ∷ 0 ∷ 1 ∷ [])

unfoldable pub valid_message_type : ℕ → Bool
valid_message_type t = leb 1 t && leb t 8

unfoldable pub packet_header : Packet → Text
unfolding put_number
packet_header p =
    protocol_magic
    ++ (put_number 2 protocol_version
        ++ (put_number 2 p.message_type
            ++ (put_number 8 p.request_id
                ++ (put_number 4 (length p.payload) ++ put_number 4 p.flags))))

-- `WritePacket` into a buffer, which is `EncodePacket`.
unfoldable pub encode_packet : Packet → Result WireError Text
unfolding packet_header valid_message_type
encode_packet p =
    if not (valid_message_type p.message_type)
    then err (bad_type p.message_type)
    else if not (p.flags == 0)
    then err (bad_flags p.flags)
    else if ltb max_payload (length p.payload)
    then err (payload_too_long (length p.payload))
    else ok (packet_header p ++ p.payload)

-- The number in the bytes of a slice.
unfoldable pub number_at : Text → ℕ → ℕ → ℕ
unfolding number_from take drop
number_at bytes first size = number_from 0 (take size (drop first bytes))

-- The fields of a header, of bytes of some length that begin with the magic or do not.
unfoldable pub checked_packet : ℕ → Bool → ℕ → Packet → ℕ → Result WireError Packet
unfolding valid_message_type
checked_packet total magic version p size =
    if ltb total header_size
    then err unexpected_end
    else if not magic
    then err bad_magic
    else if not (version == protocol_version)
    then err (bad_version version)
    else if not (valid_message_type p.message_type)
    then err (bad_type p.message_type)
    else if not (p.flags == 0)
    then err (bad_flags p.flags)
    else if ltb max_payload size
    then err (payload_too_long size)
    else if not (total == header_size + size)
    then err (wrong_length total size)
    else ok p

unfoldable pub decode_packet : Text → Result WireError Packet
unfolding number_at checked_packet take drop
decode_packet bytes =
    checked_packet (length bytes) (take 8 bytes == protocol_magic) (number_at bytes 8 2)
      (record {
        message_type = number_at bytes 10 2;
        request_id = number_at bytes 12 8;
        flags = number_at bytes 24 4;
        payload = drop header_size bytes;
      })
      (number_at bytes 20 4)
