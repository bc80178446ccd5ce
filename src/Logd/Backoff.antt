-- ===== src/Logd/Backoff.antt =====
-- Proofs about the fallback of cmd/sys-logd/fallback.go.
use servicectl.Base.{
  ap, ◌∙◌, ℕ, List, [], ◌∷◌, All, ◌+◌, ◌≤◌, ◌<◌, ◌≡◌, refl, Option, none, some, not, if-intro, ltb,
  arith,
}
use servicectl.Base.Text.{Text}
use servicectl.Logd.Fallback.{
  MessageSink, FallbackSink, FallbackError, fall_back, after_broker, write_message,
}

module _ {B F : Type 0} (b : MessageSink B) (f : MessageSink F) where
  -- WriteMessage at each of some times, one after the other.
  unfoldable pub writes : List (ℕ × Text) → FallbackSink B F → FallbackSink B F
  writes [] s = s
  writes ((now, message) ∷ rest) s = writes rest ((write_message b f now message s).0)

  -- The fallback after it was given the messages.
  unfoldable pub given : List (ℕ × Text) → F → F
  given [] x = x
  given ((now, message) ∷ rest) x = given rest ((f.write message x).0)

  -- The broker is in a state, not to be asked before a time, and the fallback is in a state.
  Rests : B → ℕ → F → FallbackSink B F → Type 0
  Rests x until y s = (s.broker ≡ x) × (s.broker_disabled ≡ until) × (s.fallback ≡ y)

  write_message-Rests :
      (now until : ℕ) (message : Text) (x : B) (y : F) (s : FallbackSink B F)
      → now < until
      → Rests x until y s
      → Rests x until ((f.write message y).0) (write_message b f now message s).0
  unfolding Rests write_message fall_back
  write_message-Rests now until message x y s early (broker, disabled, fallback) =
      if-intro
        (λ (r : FallbackSink B F × Option FallbackError). Rests x until ((f.write message y).0) r.0)
        (not (ltb now s.broker_disabled)) (λ h. absurd (ground (arith, h, early, disabled)))
        (λ h. (broker, disabled, ap (λ z. (f.write message z).0) fallback))

  writes-Rests :
      (ws : List (ℕ × Text)) (until : ℕ) (x : B) (y : F) (s : FallbackSink B F)
      → All (λ (w : ℕ × Text). w.0 < until) ws
      → Rests x until y s
      → Rests x until (given ws y) (writes ws s)
  unfolding writes given
  writes-Rests [] until x y s early h = h
  writes-Rests ((now, message) ∷ rest) until x y s early h =
      writes-Rests rest until x ((f.write message y).0) _ early.1
        (write_message-Rests now until message x y s early.0 h)

  after_broker-Rests :
      (now : ℕ) (message : Text) (s : FallbackSink B F) {o : Option Text} {error : Text}
      → o ≡ some error
      → Rests s.broker
          (now + s.retry_interval)
          ((f.write message s.fallback).0)
          (after_broker b f now message s o).0
  unfolding Rests after_broker fall_back
  after_broker-Rests now message s {o = none} h = cc
  after_broker-Rests now message s {o = some e} h = (refl, refl, refl)

  -- A failure of the broker.
  failed-Rests :
      (now : ℕ) (message : Text) (s : FallbackSink B F) {error : Text}
      → s.broker_disabled ≤ now
      → (b.write message s.broker).1 ≡ some error
      → Rests
          ((b.write message s.broker).0)
          (now + s.retry_interval)
          ((f.write message s.fallback).0)
          (write_message b f now message s).0
  unfolding write_message
  failed-Rests now message s due failed =
      let After : FallbackSink B F → Type 0 =
        Rests ((b.write message s.broker).0) (now + s.retry_interval)
          ((f.write message s.fallback).0) in
      if-intro (λ (r : FallbackSink B F × Option FallbackError). After r.0)
        (not (ltb now s.broker_disabled))
        (λ _.
          after_broker-Rests now message (record s { broker = (b.write message s.broker).0 })
            failed)
        (λ h. absurd (ground (arith, h, due)))

  after_broker-broker :
      (now : ℕ) (message : Text) (s : FallbackSink B F) (o : Option Text)
      → (after_broker b f now message s o).0.broker ≡ s.broker
  unfolding after_broker fall_back
  after_broker-broker now message s none = refl
  after_broker-broker now message s (some e) = refl

  due-broker :
      (later until : ℕ) (next : Text) (x : B) (y : F) (s : FallbackSink B F)
      → until ≤ later
      → Rests x until y s
      → (write_message b f later next s).0.broker ≡ (b.write next x).0
  unfolding Rests write_message
  due-broker later until next x y s due (broker, disabled, fallback) =
      if-intro (λ (r : FallbackSink B F × Option FallbackError). r.0.broker ≡ (b.write next x).0)
        (not (ltb later s.broker_disabled))
        (λ h.
          after_broker-broker later next (record s { broker = (b.write next s.broker).0 })
            ((b.write next s.broker).1)
          ∙ ap (λ z. (b.write next z).0) broker)
        (λ h. absurd (ground (arith, h, due, disabled)))

  -- Let the broker be due and refuse a message. However many messages are then written at times
  -- within the retry interval, the broker is given none of them, and the fallback is given the
  -- refused message and all of them, in order. The first message at or after the end of the interval
  -- is given to the broker again.
  pub write_message-backs_off :
      (now later : ℕ) (message next : Text) (ws : List (ℕ × Text)) (s : FallbackSink B F)
      (error : Text)
      → s.broker_disabled ≤ now
      → (b.write message s.broker).1 ≡ some error
      → All (λ (w : ℕ × Text). w.0 < now + s.retry_interval) ws
      → now + s.retry_interval ≤ later
      → ((writes ws ((write_message b f now message s).0)).broker ≡ (b.write message s.broker).0)
        × ((writes ws ((write_message b f now message s).0)).fallback
            ≡ given ws ((f.write message s.fallback).0))
        × ((write_message b f later next (writes ws ((write_message b f now message s).0))).0.broker
            ≡ (b.write next ((b.write message s.broker).0)).0)
  unfolding Rests
  write_message-backs_off now later message next ws s error due failed early over =
      let rests =
        writes-Rests ws (now + s.retry_interval) _ _ _ early
          (failed-Rests now message s due failed) in
      (rests.0, rests.2, due-broker later (now + s.retry_interval) next _ _ _ over rests)
