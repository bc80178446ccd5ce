-- ===== src/Logd/Protocol.antt =====
-- cmd/sys-logd/protocol.go: the packets of the broker and their check. JSON stands outside: a packet
-- is the value that the decoder gives.
use servicectl.Base.{
  ℕ, zero, suc, Bool, true, false, not, ◌||◌, ◌==◌, nat_eq, leb, if◌then◌else◌, Result, ok, err,
}
use servicectl.Base.Text.{Text, is_empty}
use servicectl.Base.Atoi.{Signed, positive, negative}

pub data PacketKind : Type 0 where
  hello : PacketKind
  log : PacketKind
  ack : PacketKind
  nack : PacketKind
  other : Text → PacketKind

pub record Packet : Type 0 where
  pub version : Signed
  pub kind : PacketKind
  pub sequence : ℕ
  pub priority : Signed
  pub message : Text
  pub retryable : Bool
  pub error : Text

pub data PacketError : Type 0 where
  unsupported_version : Signed → PacketError
  hello_with_fields : PacketError
  zero_sequence : PacketKind → PacketError
  priority_out_of_range : Signed → PacketError
  empty_message : PacketError
  log_with_response_fields : PacketError
  ack_with_fields : PacketError
  nack_of_invalid_shape : PacketError
  unsupported_kind : Text → PacketError

abbrev is_zero : Signed → Bool
is_zero (positive zero) = true
is_zero (negative zero) = true
is_zero _ = false

abbrev is_one : Signed → Bool
is_one (positive (suc zero)) = true
is_one _ = false

abbrev in_priorities : Signed → Bool
in_priorities (positive n) = leb n 7
in_priorities (negative zero) = true
in_priorities (negative (suc n)) = false

-- The switch on the kind.
unfoldable pub validate_kind : PacketKind → Packet → Result PacketError Packet
validate_kind hello p =
    if not (p.sequence == 0)
      || (not (is_zero p.priority)
          || (not (is_empty p.message) || (p.retryable || not (is_empty p.error))))
    then err hello_with_fields
    else ok p
validate_kind log p =
    if p.sequence == 0
    then err (zero_sequence log)
    else if not (in_priorities p.priority)
    then err (priority_out_of_range p.priority)
    else if is_empty p.message
    then err empty_message
    else if p.retryable || not (is_empty p.error)
    then err log_with_response_fields
    else ok p
validate_kind ack p =
    if p.sequence == 0
    then err (zero_sequence ack)
    else if not (is_zero p.priority)
        || (not (is_empty p.message) || (p.retryable || not (is_empty p.error)))
    then err ack_with_fields
    else ok p
validate_kind nack p =
    if not (is_zero p.priority) || (not (is_empty p.message) || is_empty p.error)
    then err nack_of_invalid_shape
    else ok p
validate_kind (other kind) p = err (unsupported_kind kind)

unfoldable pub validate_protocol_packet : Packet → Result PacketError Packet
unfolding validate_kind
validate_protocol_packet p =
    if not (is_one p.version) then err (unsupported_version p.version) else validate_kind p.kind p
