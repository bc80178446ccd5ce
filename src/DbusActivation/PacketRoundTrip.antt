-- ===== src/DbusActivation/PacketRoundTrip.antt =====
-- internal/dbusactivation/protocol.go: packets are read back as they were written.
use servicectl.Base.{
  ℕ, ◌+◌, ◌<◌, ◌≤◌, ◌^◌, Bool, true, ◌++◌, ◌≡◌, refl, ◌∙◌, length, ok, nat_eq, arith, subst, ==_iff,
}
use servicectl.Base.Text.{Text, text_eq, take, drop}
use servicectl.DbusActivation.Wire.{put_number, number_from-put_number}
use servicectl.DbusActivation.Protocol.{
  Packet, encode_packet, decode_packet, packet_header, number_at, max_payload, valid_message_type,
  checked_packet, protocol_magic,
}

-- What the fields of a written packet are read as.
header_fields :
    (p : Packet)
    → p.message_type < 2 ^ 16
    → p.request_id < 2 ^ 64
    → p.flags < 2 ^ 32
    → length p.payload < 2 ^ 32
    → (number_at (packet_header p ++ p.payload) 8 2 ≡ 1)
      × (number_at (packet_header p ++ p.payload) 10 2 ≡ p.message_type)
      × (number_at (packet_header p ++ p.payload) 12 8 ≡ p.request_id)
      × (number_at (packet_header p ++ p.payload) 20 4 ≡ length p.payload)
      × (number_at (packet_header p ++ p.payload) 24 4 ≡ p.flags)
unfolding number_at packet_header put_number take drop
header_fields p a b c d = (
  refl,
  number_from-put_number 2 p.message_type a,
  number_from-put_number 8 p.request_id b,
  number_from-put_number 4 (length p.payload) d,
  number_from-put_number 4 p.flags c,
)

encode_packet-ok :
    (p : Packet) {bytes : Text}
    → encode_packet p ≡ ok bytes
    → (valid_message_type p.message_type ≡ true)
      × (p.flags ≡ 0)
      × (length p.payload ≤ max_payload)
      × (packet_header p ++ p.payload ≡ bytes)
unfolding encode_packet
encode_packet-ok p h = (ground arith, ground arith, ground arith, ground arith)

header_length : (p : Packet) → length (packet_header p ++ p.payload) ≡ 28 + length p.payload
unfolding packet_header put_number
header_length p = omega arith

header_magic : (p : Packet) → take 8 (packet_header p ++ p.payload) ≡ protocol_magic
unfolding packet_header take
header_magic p = refl

after_header : (p : Packet) → drop 28 (packet_header p ++ p.payload) ≡ p.payload
unfolding packet_header put_number drop
after_header p = refl

checked_packet-ok :
    (p : Packet) (total size : ℕ)
    → valid_message_type p.message_type ≡ true
    → p.flags ≡ 0
    → size ≤ max_payload
    → total ≡ 28 + size
    → checked_packet total true 1 p size ≡ ok p
unfolding checked_packet
checked_packet-ok p total size good plain short same = ground arith

same_checked :
    (total size v t i f n : ℕ) (m : Bool) (rest : Text) (p : Packet)
    → m ≡ true
    → v ≡ 1
    → t ≡ p.message_type
    → i ≡ p.request_id
    → f ≡ p.flags
    → rest ≡ p.payload
    → size ≡ n
    → checked_packet total m v
        (record { message_type = t; request_id = i; flags = f; payload = rest })
        size
      ≡ checked_packet total true 1 p n
same_checked total size v t i f n m rest p h1 h2 h3 h4 h5 h6 h7 = cc

-- The packet of a header that is read as the fields of another.
decode_header :
    (p : Packet) (bytes : Text)
    → take 8 bytes ≡ protocol_magic
    → number_at bytes 8 2 ≡ 1
    → (number_at bytes 10 2 ≡ p.message_type)
      × (number_at bytes 12 8 ≡ p.request_id)
      × (number_at bytes 20 4 ≡ length p.payload)
      × (number_at bytes 24 4 ≡ p.flags)
    → drop 28 bytes ≡ p.payload
    → decode_packet bytes ≡ checked_packet (length bytes) true 1 p (length p.payload)
unfolding decode_packet
decode_header p bytes magic version (a, b, c, d) rest =
    same_checked _ _ _ _ _ _ _ _ _ p ((==_iff (take 8 bytes) protocol_magic).1 magic) version a b d
      rest c

type_fits : (p : Packet) → valid_message_type p.message_type ≡ true → p.message_type < 2 ^ 16
unfolding valid_message_type
type_fits p good = ground arith

-- A packet that EncodePacket accepts is decoded from its bytes as it was.
pub decode_packet-encode_packet :
    (p : Packet) (bytes : Text)
    → p.request_id < 2 ^ 64
    → encode_packet p ≡ ok bytes
    → decode_packet bytes ≡ ok p
decode_packet-encode_packet p bytes low h =
    let (good, plain, short, same) = encode_packet-ok p h in
    let found = packet_header p ++ p.payload in
    let (version, a, b, c, d) =
      header_fields p (type_fits p good) low (omega arith) (omega arith) in
    subst (λ b. decode_packet b ≡ ok p) same
      (decode_header p found (header_magic p) version (a, b, c, d) (after_header p)
        ∙ checked_packet-ok p (length found) (length p.payload) good plain short (header_length p))
