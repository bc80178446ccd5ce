-- ===== src/Logd/Sink.antt =====
-- cmd/sys-logd/worker.go: brokerSink, which sends the records of one service to the broker. The
-- socket and the length of a packet in JSON are outside.
use servicectl.Base.{
  ℕ, ◌+◌, ◌%◌, ◌^◌, Bool, true, false, not, Option, none, some, List, [], ◌∷◌, ◌==◌, nat_eq, ltb,
  Result, ok, err, if◌then◌else◌,
}
use servicectl.Base.Text.{Text}
use servicectl.Base.Atoi.{positive}
use servicectl.Logd.Protocol.{
  Packet, PacketKind, PacketError, hello, log, ack, nack, validate_protocol_packet,
}

-- What the sink does to its connection, the last first.
pub data Act : Type 0 where
  dialled : Act
  sent : Packet → Act
  heard : Packet → Act
  hung_up : Act

-- The other end: whether a connection is made, whether a packet can be sent, and what is read, each
-- after the acts so far.
pub record Line : Type 0 where
  pub dial : List Act → Option Text
  pub send : List Act → Packet → Option Text
  pub hear : List Act → Result Text Packet
  pub json_length : Packet → ℕ

pub data SinkError : Type 0 where
  not_dialled : Text → SinkError
  not_encoded : PacketError → SinkError
  too_long : ℕ → SinkError
  not_sent : Text → SinkError
  not_heard : Text → SinkError
  not_decoded : PacketError → SinkError
  broker_nack : Bool → Text → SinkError
  unexpected : Packet → SinkError

pub record BrokerSink : Type 0 where
  pub connected : Bool
  pub seq : ℕ
  pub acts : List Act

abbrev pub Attempt : Type 0
Attempt = BrokerSink × Option SinkError

abbrev pub note : Act → BrokerSink → BrokerSink
note act s = record s { acts = act ∷ s.acts }

unfoldable pub close_locked : BrokerSink → BrokerSink
close_locked s = if s.connected then record s { connected = false; acts = hung_up ∷ s.acts } else s

-- An error closes the connection.
unfoldable pub hang_up : SinkError → BrokerSink → Attempt
unfolding close_locked
hang_up e s = (close_locked s, some e)

-- `sink.seq++`, on 64 bits and without the zero.
unfoldable pub next_sequence : ℕ → ℕ
next_sequence seq = let next = (seq + 1) % 2 ^ 64 in if next == 0 then (next + 1) % 2 ^ 64 else next

abbrev pub plain_packet : PacketKind → ℕ → ℕ → Text → Packet
plain_packet kind sequence priority message = record {
  version = positive 1;
  kind = kind;
  sequence = sequence;
  priority = positive priority;
  message = message;
  retryable = false;
  error = [];
}

unfoldable pub check_length : ℕ → Packet → Result SinkError Packet
check_length size p = if ltb (2 ^ 20) size then err (too_long size) else ok p

unfoldable pub encode_protocol_packet :
    Line → Packet → Result PacketError Packet → Result SinkError Packet
unfolding check_length
encode_protocol_packet line p (err e) = err (not_encoded e)
encode_protocol_packet line p (ok _) = check_length (line.json_length p) p

unfoldable pub sending : BrokerSink → Packet → Option Text → Attempt
sending s p none = (note (sent p) s, none)
sending s p (some message) = (s, some (not_sent message))

-- The write of a packet that was encoded, or why it was not.
unfoldable pub send_encoded : Line → BrokerSink → Packet → Result SinkError Packet → Attempt
unfolding sending
send_encoded line s p (err e) = (s, some e)
send_encoded line s p (ok _) = sending s p (line.send s.acts p)

unfoldable pub write_packet_locked : Line → Packet → BrokerSink → Attempt
unfolding send_encoded encode_protocol_packet
write_packet_locked line p s =
    send_encoded line s p (encode_protocol_packet line p (validate_protocol_packet p))

unfoldable pub or_hang_up : Attempt → Attempt
unfolding hang_up
or_hang_up (s, none) = (s, none)
or_hang_up (s, some e) = hang_up e s

unfoldable pub greet_broker : Line → BrokerSink → Option Text → Attempt
unfolding or_hang_up write_packet_locked
greet_broker line s (some message) = (s, some (not_dialled message))
greet_broker line s none = or_hang_up (
    write_packet_locked line (plain_packet hello 0 0 [])
      (record s { connected = true; acts = dialled ∷ s.acts }))

unfoldable pub ensure_connected_locked : Line → BrokerSink → Attempt
unfolding greet_broker
ensure_connected_locked line s =
    if s.connected then (s, none) else greet_broker line s (line.dial s.acts)

-- The broker's response to a packet.
unfoldable pub judge : ℕ → Packet → PacketKind → BrokerSink → Attempt
unfolding hang_up
judge sequence response nack s = hang_up (broker_nack response.retryable response.error) s
judge sequence response ack s =
    if not (response.sequence == sequence) then hang_up (unexpected response) s else (s, none)
judge sequence response _ s = hang_up (unexpected response) s

unfoldable pub hear_checked : ℕ → BrokerSink → Result PacketError Packet → Attempt
unfolding judge hang_up
hear_checked sequence s (err e) = hang_up (not_decoded e) s
hear_checked sequence s (ok p) = judge sequence p p.kind (note (heard p) s)

unfoldable pub hear_response : ℕ → BrokerSink → Result Text Packet → Attempt
unfolding hear_checked
hear_response sequence s (err message) = hang_up (not_heard message) s
hear_response sequence s (ok p) = hear_checked sequence s (validate_protocol_packet p)

unfoldable pub await_response : Line → ℕ → Attempt → Attempt
unfolding hear_response
await_response line sequence (s, none) = hear_response sequence s (line.hear s.acts)
await_response line sequence (s, some e) = hang_up e s

unfoldable pub send_record : Line → Text → Attempt → Attempt
unfolding await_response
send_record line message (s, some e) = (s, some e)
send_record line message (s, none) =
    let sequence = next_sequence s.seq in
    await_response line sequence
      (write_packet_locked line (plain_packet log sequence 6 message) (record s { seq = sequence }))

unfoldable pub write_message : Line → Text → BrokerSink → Attempt
unfolding send_record
write_message line message s = send_record line message (ensure_connected_locked line s)
