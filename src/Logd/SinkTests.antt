-- ===== src/Logd/SinkTests.antt =====
-- Runs of the sinks of cmd/sys-logd on concrete lines and sinks, and the theorems applied to them.
use servicectl.Base.{◌≡◌, refl, ℕ, false, none, some, List, [], ◌∷◌, Result, ok, err, arith}
use servicectl.Base.Text.{Text, text}
use servicectl.Logd.Protocol.{Packet, PacketKind, validate_protocol_packet}
use servicectl.Logd.Sink
use servicectl.Logd.Sink.{Act, Line, BrokerSink, plain_packet}
use servicectl.Logd.Acknowledged.{Acknowledged, Ends, write_message-Ends}
use servicectl.Logd.Fallback
use servicectl.Logd.Fallback.{MessageSink, FallbackSink}
use servicectl.Logd.Backoff.{writes, given, write_message-backs_off}

-- A broker that acknowledges what it was sent last.
abbrev reply : List Act → Result Text Packet
reply (Act.sent p ∷ _) = ok (plain_packet PacketKind.ack p.sequence 0 [])
reply _ = err (text "timeout")

abbrev good_line : Line
good_line = record { dial = λ _. none; send = λ _ _. none; hear = reply; json_length = λ _. 80 }

abbrev new_sink : BrokerSink
new_sink = record { connected = false; seq = 0; acts = [] }

acknowledged : (Sink.write_message good_line (text "started") new_sink).1 ≡ none
unfolding Sink.write_message Sink.ensure_connected_locked Sink.next_sequence
    validate_protocol_packet
acknowledged = refl

write_message-Ends_example :
    Ends (Acknowledged (text "started")) (Sink.write_message good_line (text "started") new_sink)
write_message-Ends_example = write_message-Ends good_line (text "started") new_sink

-- Sinks that keep their messages, and one that takes none.
abbrev keeping : MessageSink (List Text)
keeping = record { write = λ m s. (m ∷ s, none); close = λ s. (s, none) }

abbrev refusing : MessageSink (List Text)
refusing = record { write = λ m s. (m ∷ s, some (text "refused")); close = λ s. (s, none) }

abbrev pair_of_sinks : FallbackSink (List Text) (List Text)
pair_of_sinks = record { broker = []; fallback = []; retry_interval = 10; broker_disabled = 0 }

abbrev early_writes : List (ℕ × Text)
early_writes = (9, text "second") ∷ (14, text "third") ∷ []

write_message-backs_off_example :
    ((writes refusing keeping early_writes
        ((Fallback.write_message refusing keeping 5 (text "first") pair_of_sinks).0)).broker
      ≡ text "first" ∷ [])
    × ((writes refusing keeping early_writes
          ((Fallback.write_message refusing keeping 5 (text "first") pair_of_sinks).0)).fallback
        ≡ given refusing keeping early_writes (text "first" ∷ []))
    × ((Fallback.write_message refusing keeping 15 (text "fourth") (
          writes refusing keeping early_writes
            ((Fallback.write_message refusing keeping 5 (text "first") pair_of_sinks).0))).0.broker
        ≡ text "fourth" ∷ text "first" ∷ [])
write_message-backs_off_example =
    write_message-backs_off refusing keeping 5 15 (text "first") (text "fourth") early_writes
      pair_of_sinks (text "refused") (ground arith) refl (ground arith, (ground arith, tt))
      (ground arith)
