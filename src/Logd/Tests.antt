-- ===== src/Logd/Tests.antt =====
-- Runs of the model of cmd/sys-logd on concrete connections, and the theorems applied to them.
use servicectl.Base.{
  get_or, get, put, contains, ℕ, true, false, List, [], ◌∷◌, ◌≡◌, refl, ◌↔◌, ◌<◌, length,
}
use servicectl.Base.{Option, none, some, ok}
use servicectl.Base.Text.{Text, text}
use servicectl.Base.Atoi.{positive}
use servicectl.Logd.Protocol.{Packet, PacketKind, validate_protocol_packet}
use servicectl.Logd.Serve.{
  BrokerDependencies, Deed, Read, arrived, receive, not_journaled, serve_packets,
  serve_broker_connection,
}
use servicectl.Logd.Delivery.{Delivery, due, log_packets, serve_broker_connection-Delivery}
use servicectl.Logd.Limiter.{
  Limiter, new_limiter, acquire, release, count, remove, listening, connected, closed,
}
use servicectl.Logd.Limits.{Counts, Serves-Counts, acquire_iff}

-- Two connections of one user fill that user's share.
abbrev after_two : Limiter
after_two = (acquire 1000 ((acquire 1000 (new_limiter 8 2)).0)).0

abbrev two_users : List ℕ
two_users = 1000 ∷ 1000 ∷ []

third_refused : (acquire 1000 after_two).1 ≡ false
unfolding acquire new_limiter get_or get put contains remove
third_refused = refl

other_admitted : (acquire 1001 after_two).1 ≡ true
unfolding acquire new_limiter get_or get put contains remove
other_admitted = refl

Serves-Counts_example : Counts 8 2 (release 1000 after_two) (1000 ∷ [])
unfolding acquire new_limiter get_or get put contains remove
Serves-Counts_example =
    Serves-Counts 8 2 (closed 1000 refl (connected 1000 (connected 1000 listening)))

acquire_iff_example :
    ((acquire 1001 after_two).1 ≡ true) ↔ ((length two_users < 8) × (count 1001 two_users < 2))
unfolding acquire new_limiter get_or get put contains remove
acquire_iff_example = acquire_iff 8 2 1001 (connected 1000 (connected 1000 listening))

-- A broker that routes every peer and never fails to answer; its journal is full after two records.
abbrev full : List Deed → Option Text
full (_ ∷ _ ∷ _ ∷ _ ∷ _) = some (text "no space left on device")
full _ = none

abbrev small_journal : BrokerDependencies
small_journal = record {
  Peer = ℕ;
  Route = ℕ;
  resolve_route = λ peer. ok peer;
  write_journal = λ history _ _ _. full history;
  send = λ _. none;
}

abbrev packet : PacketKind → ℕ → Text → Packet
packet kind sequence message = record {
  version = positive 1;
  kind = kind;
  sequence = sequence;
  priority = positive 0;
  message = message;
  retryable = false;
  error = [];
}

abbrev record_of : ℕ → Read
record_of n = arrived (packet PacketKind.log n (text "line"))

abbrev greeting : Read
greeting = arrived (packet PacketKind.hello 0 [])

third_refused_by_journal :
    (serve_broker_connection small_journal 7
      (greeting ∷ record_of 1 ∷ record_of 2 ∷ record_of 3 ∷ [])).1
    ≡ some (not_journaled (text "no space left on device"))
unfolding serve_broker_connection serve_packets validate_protocol_packet
third_refused_by_journal = refl

serve_broker_connection-Delivery_example :
    Delivery
      (due
        (receive greeting)
        (small_journal.resolve_route 7)
        (log_packets (record_of 1 ∷ record_of 2 ∷ record_of 3 ∷ [])))
      (serve_broker_connection small_journal 7
        (greeting ∷ record_of 1 ∷ record_of 2 ∷ record_of 3 ∷ []))
serve_broker_connection-Delivery_example =
    serve_broker_connection-Delivery small_journal 7 greeting
      (record_of 1 ∷ record_of 2 ∷ record_of 3 ∷ [])
