-- ===== src/Logd/Serve.antt =====
-- cmd/sys-logd/broker.go: serveBrokerConnection, which takes the log records of one peer, with both
-- of its dependencies present.
use servicectl.Base.{ℕ, Bool, true, false, Option, none, some, List, [], ◌∷◌, Result, ok, err}
use servicectl.Base.Text.{Text}
use servicectl.Base.Atoi.{Signed}
use servicectl.Logd.Protocol.{Packet, PacketKind, PacketError, hello, log, validate_protocol_packet}

-- What a read of the connection gives: the value of a packet, the end, a deadline that passed, or an
-- error, of the socket or of the decoder.
pub data Read : Type 0 where
  arrived : Packet → Read
  ended : Read
  timed_out : Read
  broken : Text → Read

pub data ServeError : Type 0 where
  not_read : Text → ServeError
  end_of_stream : ServeError
  not_valid : PacketError → ServeError
  not_hello : PacketKind → ServeError
  not_a_log : PacketKind → ServeError
  no_route : Text → ServeError
  not_journaled : Text → ServeError
  not_sent : Text → ServeError

-- What the broker does: a record goes to the journal, and packets to the peer. The error's text is
-- what a refusal carries.
pub data Deed : Type 0 where
  journaled : Packet → Deed
  acked : ℕ → Deed
  nacked : ℕ → Bool → ServeError → Deed

-- The route of a peer, the journal and the connection's other end are outside. Their answers may
-- depend on what was done before, the last first.
pub record BrokerDependencies : Type 1 where
  pub Peer : Type 0
  pub Route : Type 0
  pub resolve_route : Peer → Result Text Route
  pub write_journal : List Deed → Route → Signed → Text → Option Text
  pub send : List Deed → Option Text

-- readBrokerPacket after the decoder: a read's packet, or why there is none.
pub data Received : Type 0 where
  got : Packet → Received
  end_seen : Received
  quiet : Received
  failed : ServeError → Received

checked : Result PacketError Packet → Received
checked (ok p) = got p
checked (err e) = failed (not_valid e)

unfoldable pub receive : Read → Received
unfolding checked
receive (arrived p) = checked (validate_protocol_packet p)
receive ended = end_seen
receive timed_out = quiet
receive (broken message) = failed (not_read message)

abbrev pub Outcome : Type 0
Outcome = List Deed × Option ServeError

abbrev pub with_deeds : Deed → Deed → Outcome → Outcome
with_deeds d e (deeds, result) = (d ∷ e ∷ deeds, result)

-- After the write to the journal and after the acknowledgement was sent, `next` being the rounds
-- that follow.
unfoldable pub after_send : Packet → Outcome → Option Text → Outcome
after_send p next none = with_deeds (journaled p) (acked p.sequence) next
after_send p next (some message) = (journaled p ∷ [], some (not_sent message))

unfoldable pub after_journal : Packet → Outcome → Option Text → Option Text → Outcome
unfolding after_send
after_journal p next sending none = after_send p next sending
after_journal p next sending (some message) =
    (nacked p.sequence true (not_journaled message) ∷ [], some (not_journaled message))

-- A packet that was received in the loop, by its kind.
unfoldable pub take_packet : PacketKind → Packet → Outcome → Outcome
take_packet log p outcome = outcome
take_packet kind p outcome = (nacked p.sequence false (not_a_log kind) ∷ [], some (not_a_log kind))

unfoldable pub take_received : (Packet → Outcome) → Received → Outcome
unfolding take_packet
take_received record_packet (got p) = take_packet p.kind p (record_packet p)
take_received record_packet end_seen = ([], none)
take_received record_packet quiet = ([], none)
take_received record_packet (failed e) = (nacked 0 false e ∷ [], some e)

module _ (deps : BrokerDependencies) where
  -- The loop over the reads; a peer that sends nothing more has closed the connection.
  unfoldable pub serve_packets : deps.Route → List Deed → List Read → Outcome
  unfolding take_received after_journal receive
  serve_packets route history [] = ([], none)
  serve_packets route history (read ∷ reads) =
      take_received
        (λ p.
          after_journal p (serve_packets route (acked p.sequence ∷ journaled p ∷ history) reads)
            (deps.send (journaled p ∷ history))
            (deps.write_journal history route p.priority p.message))
        (receive read)

  unfoldable pub start_serving : Result Text (deps.Route) → List Read → Outcome
  start_serving (err message) reads =
      (nacked 0 false (no_route message) ∷ [], some (no_route message))
  start_serving (ok route) reads = serve_packets route [] reads

  unfoldable pub greet_kind : deps.Peer → PacketKind → List Read → Outcome
  unfolding start_serving
  greet_kind peer hello reads = start_serving (deps.resolve_route peer) reads
  greet_kind peer kind reads = (nacked 0 false (not_hello kind) ∷ [], some (not_hello kind))

  unfoldable pub greet : deps.Peer → Received → List Read → Outcome
  unfolding greet_kind
  greet peer (got p) reads = greet_kind peer p.kind reads
  greet peer end_seen reads = (nacked 0 false end_of_stream ∷ [], some end_of_stream)
  greet peer quiet reads = ([], none)
  greet peer (failed e) reads = (nacked 0 false e ∷ [], some e)

  unfoldable pub serve_broker_connection : deps.Peer → List Read → Outcome
  unfolding greet receive
  serve_broker_connection peer [] = greet peer end_seen []
  serve_broker_connection peer (read ∷ reads) = greet peer (receive read) reads
