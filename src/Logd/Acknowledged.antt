-- ===== src/Logd/Acknowledged.antt =====
-- Proofs about brokerSink of cmd/sys-logd/worker.go.
use servicectl.Base.{
  ap, ℕ, ◌^◌, ◌≤◌, ◌<◌, ◌≡◌, refl, true, false, not, Option, none, some, List, [], ◌∷◌, ◌==◌,
  nat_eq, ==_iff, Result, ok, err, if-intro, arith,
}
use servicectl.Base.Text.{Text}
use servicectl.Logd.Protocol.{
  Packet, PacketKind, PacketError, hello, log, ack, nack, other, validate_protocol_packet,
}
use servicectl.Logd.Sink.{
  Act, dialled, sent, heard, Line, SinkError, broker_nack, unexpected, not_decoded, not_heard,
  BrokerSink, Attempt, close_locked, hang_up, next_sequence, plain_packet, send_encoded, sending,
  write_packet_locked, or_hang_up, greet_broker, ensure_connected_locked, judge, hear_checked,
  hear_response, await_response, send_record, write_message,
}

-- The last acts of a sink: it sent a log packet with the message, and heard an acknowledgement of
-- that packet's sequence number.
pub record Acknowledged (message : Text) (acts : List Act) : Type 0 where
  pub packet : Packet
  pub response : Packet
  pub before : List Act
  pub last : acts ≡ heard response ∷ sent packet ∷ before
  pub is_log : packet.kind ≡ log
  pub carries : packet.message ≡ message
  pub is_ack : response.kind ≡ ack
  pub matches : response.sequence ≡ packet.sequence

-- An attempt without an error keeps its connection, and one with an error has none; what holds of
-- the acts is said of the first kind.
pub Ends : (List Act → Type 0) → Attempt → Type 0
Ends P (s, none) = (s.connected ≡ true) × P s.acts
Ends P (s, some e) = s.connected ≡ false

hang_up-Ends : (P : List Act → Type 0) (e : SinkError) (s : BrokerSink) → Ends P (hang_up e s)
unfolding hang_up close_locked Ends
hang_up-Ends P e s =
    if-intro (λ (t : BrokerSink). t.connected ≡ false) s.connected (λ _. refl) (λ h. h)

-- An attempt that sent the packet, or has an error.
Sent : Packet → Attempt → Type 0
Sent p (s, none) = (s.connected ≡ true) × ((before : List Act) × (s.acts ≡ sent p ∷ before))
Sent p (s, some e) = Unit

module _ (message : Text) where
  judge-Ends :
      (p r : Packet) (before : List Act) (kind : PacketKind) (s : BrokerSink)
      → p.kind ≡ log
      → p.message ≡ message
      → r.kind ≡ kind
      → s.connected ≡ true
      → s.acts ≡ heard r ∷ sent p ∷ before
      → Ends (Acknowledged message) (judge p.sequence r kind s)
  unfolding judge Ends
  judge-Ends p r before nack s l m k c a =
      hang_up-Ends (Acknowledged message) (broker_nack r.retryable r.error) s
  judge-Ends p r before ack s l m k c a =
      if-intro (Ends (Acknowledged message)) (not (r.sequence == p.sequence))
        (λ _. hang_up-Ends (Acknowledged message) (unexpected r) s)
        (λ h. (
          c,
          record {
            packet = p;
            response = r;
            before = before;
            last = a;
            is_log = l;
            carries = m;
            is_ack = k;
            matches = ground (arith, h, ==_iff r.sequence p.sequence);
          },
        ))
  judge-Ends p r before hello s l m k c a = hang_up-Ends (Acknowledged message) (unexpected r) s
  judge-Ends p r before log s l m k c a = hang_up-Ends (Acknowledged message) (unexpected r) s
  judge-Ends p r before (other _) s l m k c a = hang_up-Ends (Acknowledged message) (unexpected r) s

  hear_checked-Ends :
      (p : Packet) (before : List Act) (s : BrokerSink) (r : Result PacketError Packet)
      → p.kind ≡ log
      → p.message ≡ message
      → s.connected ≡ true
      → s.acts ≡ sent p ∷ before
      → Ends (Acknowledged message) (hear_checked p.sequence s r)
  unfolding hear_checked
  hear_checked-Ends p before s (err e) l m c a =
      hang_up-Ends (Acknowledged message) (not_decoded e) s
  hear_checked-Ends p before s (ok r) l m c a =
      judge-Ends p r before r.kind _ l m refl c (ap (◌∷◌ (heard r)) a)

  hear_response-Ends :
      (p : Packet) (before : List Act) (s : BrokerSink) (r : Result Text Packet)
      → p.kind ≡ log
      → p.message ≡ message
      → s.connected ≡ true
      → s.acts ≡ sent p ∷ before
      → Ends (Acknowledged message) (hear_response p.sequence s r)
  unfolding hear_response
  hear_response-Ends p before s (err e) l m c a =
      hang_up-Ends (Acknowledged message) (not_heard e) s
  hear_response-Ends p before s (ok r) l m c a =
      hear_checked-Ends p before s (validate_protocol_packet r) l m c a

  await_response-Ends :
      (line : Line) (p : Packet) (a : Attempt)
      → p.kind ≡ log
      → p.message ≡ message
      → Sent p a
      → Ends (Acknowledged message) (await_response line p.sequence a)
  unfolding await_response Sent
  await_response-Ends line p (s, none) l m h =
      hear_response-Ends p (h.1.0) s (line.hear s.acts) l m (h.0) (h.1.1)
  await_response-Ends line p (s, some e) l m h = hang_up-Ends (Acknowledged message) e s

-- The write of a packet on an open connection: it was sent, or there is an error.
sending-Sent :
    (p : Packet) (s : BrokerSink) (o : Option Text) → s.connected ≡ true → Sent p (sending s p o)
unfolding Sent sending
sending-Sent p s none c = (c, (s.acts, refl))
sending-Sent p s (some _) c = tt

send_encoded-Sent :
    (line : Line) (p : Packet) (s : BrokerSink) (r : Result SinkError Packet)
    → s.connected ≡ true
    → Sent p (send_encoded line s p r)
unfolding send_encoded Sent
send_encoded-Sent line p s (err e) c = tt
send_encoded-Sent line p s (ok _) c = sending-Sent p s (line.send s.acts p) c

write_packet_locked-Sent :
    (line : Line) (p : Packet) (s : BrokerSink)
    → s.connected ≡ true
    → Sent p (write_packet_locked line p s)
unfolding write_packet_locked
write_packet_locked-Sent line p s c = send_encoded-Sent line p s _ c

-- An attempt that leaves a connection exactly if it has no error.
Open : Attempt → Type 0
Open (s, none) = s.connected ≡ true
Open (s, some e) = s.connected ≡ false

or_hang_up-Open : (p : Packet) (a : Attempt) → Sent p a → Open (or_hang_up a)
unfolding or_hang_up Sent Open hang_up close_locked
or_hang_up-Open p (s, none) h = h.0
or_hang_up-Open p (s, some e) h =
    if-intro (λ (t : BrokerSink). t.connected ≡ false) s.connected (λ _. refl) (λ h. h)

greet_broker-Open :
    (line : Line) (s : BrokerSink) (o : Option Text)
    → s.connected ≡ false
    → Open (greet_broker line s o)
unfolding greet_broker Open
greet_broker-Open line s none c = or_hang_up-Open _ _ (
    write_packet_locked-Sent line (plain_packet hello 0 0 [])
      (record s { connected = true; acts = dialled ∷ s.acts }) refl)
greet_broker-Open line s (some _) c = c

ensure_connected-Open : (line : Line) (s : BrokerSink) → Open (ensure_connected_locked line s)
unfolding ensure_connected_locked Open
ensure_connected-Open line s =
    if-intro Open s.connected (λ h. h) (λ h. greet_broker-Open line s (line.dial s.acts) h)

send_record-Ends :
    (line : Line) (message : Text) (a : Attempt)
    → Open a
    → Ends (Acknowledged message) (send_record line message a)
unfolding send_record Open Ends
send_record-Ends line message (s, some e) c = c
send_record-Ends line message (s, none) c =
    await_response-Ends message line (plain_packet log (next_sequence s.seq) 6 message) _ refl refl
      (write_packet_locked-Sent line (plain_packet log (next_sequence s.seq) 6 message)
        (record s { seq = next_sequence s.seq }) c)

-- From any state of the sink, and however the other end behaves: a write without an error ends with
-- the message sent in a log packet and an acknowledgement of its sequence number, on a connection
-- that stays open; after a write with an error there is no connection.
pub write_message-Ends :
    (line : Line) (message : Text) (s : BrokerSink)
    → Ends (Acknowledged message) (write_message line message s)
unfolding write_message
write_message-Ends line message s = send_record-Ends line message _ (ensure_connected-Open line s)

-- The sequence numbers of a sink fit 64 bits and are never zero.
pub next_sequence-bounds : (seq : ℕ) → (1 ≤ next_sequence seq) × (next_sequence seq < 2 ^ 64)
unfolding next_sequence
next_sequence-bounds seq = ground arith
