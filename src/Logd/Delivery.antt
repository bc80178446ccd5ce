-- ===== src/Logd/Delivery.antt =====
-- Proofs about serveBrokerConnection of cmd/sys-logd/broker.go: which records reach the journal and
-- which acknowledgements the peer.
use servicectl.Base.{Option, none, some, List, [], ◌∷◌, ◌≡◌, refl, ap, Result, ok, err}
use servicectl.Base.Text.{Text}
use servicectl.Logd.Protocol.{Packet, PacketKind, hello, log, ack, nack, other}
use servicectl.Logd.Serve.{
  Read, Received, got, end_seen, quiet, failed, Deed, journaled, acked, nacked, Outcome, ServeError,
  BrokerDependencies, receive, with_deeds, after_send, after_journal, take_packet, take_received,
  serve_packets, start_serving, greet_kind, greet, serve_broker_connection,
}

log_or : PacketKind → Packet → List Packet → List Packet
log_or log p rest = p ∷ rest
log_or _ p rest = []

leading : Received → List Packet → List Packet
unfolding log_or
leading (got p) rest = log_or p.kind p rest
leading _ rest = []

-- The log packets that a peer sends before anything else, one after the other.
unfoldable pub log_packets : List Read → List Packet
unfolding leading receive
log_packets [] = []
log_packets (read ∷ reads) = leading (receive read) (log_packets reads)

after_hello : PacketKind → List Packet → List Packet
after_hello hello packets = packets
after_hello _ packets = []

served_to : {A : Type 0} → Result Text A → List Packet → List Packet
served_to (ok route) packets = packets
served_to (err _) packets = []

-- What is due for a connection: the log packets after a greeting, if the peer has a route.
unfoldable pub due : {A : Type 0} → Received → Result Text A → List Packet → List Packet
unfolding after_hello served_to
due (got p) route packets = after_hello p.kind (served_to route packets)
due _ route packets = []

-- Every record goes to the journal, and then its sequence number back to the peer.
unfoldable pub confirmed : List Packet → List Deed
confirmed [] = []
confirmed (p ∷ rest) = journaled p ∷ acked p.sequence ∷ confirmed rest

-- A refusal, or nothing.
pub NoRecord : List Deed → Type 0
NoRecord [] = Unit
NoRecord (nacked _ _ _ ∷ rest) = NoRecord rest
NoRecord (_ ∷ rest) = ⊥

-- How an outcome may come about for the packets that are due: all of them confirmed in their order,
-- or confirmed up to a refusal, or up to a record whose acknowledgement could not be sent.
pub data Delivery : List Packet → Outcome → Type 0 where
  all : Delivery [] ([], none)
  refused :
      {packets : List Packet} {deeds : List Deed} (e : ServeError)
      → NoRecord deeds
      → Delivery packets (deeds, some e)
  unconfirmed :
      {packets : List Packet} (p : Packet) (e : ServeError)
      → Delivery (p ∷ packets) (journaled p ∷ [], some e)
  one :
      {packets : List Packet} {outcome : Outcome} (p : Packet)
      → Delivery packets outcome
      → Delivery (p ∷ packets) (with_deeds (journaled p) (acked p.sequence) outcome)

after_journal-Delivery :
    (packets : List Packet) (p : Packet) (next : Outcome) (sending writing : Option Text)
    → Delivery packets next
    → Delivery (p ∷ packets) (after_journal p next sending writing)
unfolding after_journal after_send NoRecord
after_journal-Delivery packets p next none none d = one p d
after_journal-Delivery packets p next (some _) none d = unconfirmed p _
after_journal-Delivery packets p next sending (some _) d = refused _ tt

take_packet-Delivery :
    (kind : PacketKind) (packets : List Packet) (p : Packet) (outcome : Outcome)
    → Delivery (p ∷ packets) outcome
    → Delivery (log_or kind p packets) (take_packet kind p outcome)
unfolding take_packet log_or NoRecord
take_packet-Delivery log packets p outcome d = d
take_packet-Delivery hello packets p outcome d = refused _ tt
take_packet-Delivery ack packets p outcome d = refused _ tt
take_packet-Delivery nack packets p outcome d = refused _ tt
take_packet-Delivery (other _) packets p outcome d = refused _ tt

take_received-Delivery :
    (record_packet : Packet → Outcome) (r : Received) (packets : List Packet)
    → ((p : Packet) → Delivery (p ∷ packets) (record_packet p))
    → Delivery (leading r packets) (take_received record_packet r)
unfolding take_received leading NoRecord
take_received-Delivery record_packet (got p) packets d =
    take_packet-Delivery p.kind packets p _ (d p)
take_received-Delivery record_packet end_seen packets d = all
take_received-Delivery record_packet quiet packets d = all
take_received-Delivery record_packet (failed e) packets d = refused e tt

module _ (deps : BrokerDependencies) where
  serve_packets-Delivery :
      (route : deps.Route) (history : List Deed) (reads : List Read)
      → Delivery (log_packets reads) (serve_packets deps route history reads)
  unfolding serve_packets log_packets
  serve_packets-Delivery route history [] = all
  serve_packets-Delivery route history (read ∷ reads) =
      take_received-Delivery _ (receive read) (log_packets reads) (λ p.
        after_journal-Delivery (log_packets reads) p _ _ _
          (serve_packets-Delivery route (acked p.sequence ∷ journaled p ∷ history) reads))

  start_serving-Delivery :
      (r : Result Text (deps.Route)) (reads : List Read)
      → Delivery (served_to r (log_packets reads)) (start_serving deps r reads)
  unfolding start_serving served_to NoRecord
  start_serving-Delivery (ok route) reads = serve_packets-Delivery route [] reads
  start_serving-Delivery (err message) reads = refused _ tt

  greet_kind-Delivery :
      (peer : deps.Peer) (kind : PacketKind) (reads : List Read)
      → Delivery
          (after_hello kind (served_to (deps.resolve_route peer) (log_packets reads)))
          (greet_kind deps peer kind reads)
  unfolding greet_kind after_hello NoRecord
  greet_kind-Delivery peer hello reads = start_serving-Delivery (deps.resolve_route peer) reads
  greet_kind-Delivery peer log reads = refused _ tt
  greet_kind-Delivery peer ack reads = refused _ tt
  greet_kind-Delivery peer nack reads = refused _ tt
  greet_kind-Delivery peer (other _) reads = refused _ tt

  greet-Delivery :
      (peer : deps.Peer) (r : Received) (reads : List Read)
      → Delivery (due r (deps.resolve_route peer) (log_packets reads)) (greet deps peer r reads)
  unfolding greet due NoRecord
  greet-Delivery peer (got p) reads = greet_kind-Delivery peer p.kind reads
  greet-Delivery peer end_seen reads = refused _ tt
  greet-Delivery peer quiet reads = all
  greet-Delivery peer (failed e) reads = refused e tt

  -- Whatever a peer sends, and whichever writes and answers fail: the broker journals the log
  -- packets that are due, in their order, none twice, and acknowledges each after it was journaled,
  -- until the end, a refusal, or an acknowledgement that could not be sent.
  pub serve_broker_connection-Delivery :
      (peer : deps.Peer) (first : Read) (reads : List Read)
      → Delivery
          (due (receive first) (deps.resolve_route peer) (log_packets reads))
          (serve_broker_connection deps peer (first ∷ reads))
  unfolding serve_broker_connection
  serve_broker_connection-Delivery peer first reads = greet-Delivery peer (receive first) reads

Delivery-confirmed :
    {packets : List Packet} {outcome : Outcome}
    → Delivery packets outcome
    → outcome.1 ≡ none
    → outcome.0 ≡ confirmed packets
unfolding confirmed
Delivery-confirmed all h = refl
Delivery-confirmed (refused e _) h = cc
Delivery-confirmed (unconfirmed p e) h = cc
Delivery-confirmed (one p d) h =
    ap (λ ds. journaled p ∷ acked p.sequence ∷ ds) (Delivery-confirmed d h)

-- Where the broker reports no error, every log packet that is due was journaled and acknowledged,
-- one after the other, and nothing else was done.
pub serve_broker_connection-confirmed :
    (deps : BrokerDependencies) (peer : deps.Peer) (first : Read) (reads : List Read)
    → (serve_broker_connection deps peer (first ∷ reads)).1 ≡ none
    → (serve_broker_connection deps peer (first ∷ reads)).0
      ≡ confirmed (due (receive first) (deps.resolve_route peer) (log_packets reads))
serve_broker_connection-confirmed deps peer first reads h =
    Delivery-confirmed (serve_broker_connection-Delivery deps peer first reads) h
