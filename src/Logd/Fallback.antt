-- ===== src/Logd/Fallback.antt =====
-- cmd/sys-logd/fallback.go: a sink that turns to another where the broker fails. Times and durations
-- are numbers of one unit, the zero time is 0, and the clock's value is an argument.
use servicectl.Base.{ℕ, suc, ◌+◌, Option, none, some, if◌then◌else◌, ltb, not}
use servicectl.Base.Text.{Text}
use servicectl.Base.Atoi.{Signed, positive}

-- The interface messageSink: what a write does to the sink, and its error.
pub record MessageSink (S : Type 0) : Type 0 where
  pub write : Text → S → S × Option Text
  pub close : S → S × Option Text

pub record FallbackSink (B F : Type 0) : Type 0 where
  pub broker : B
  pub fallback : F
  pub retry_interval : ℕ
  pub broker_disabled : ℕ

pub data FallbackError : Type 0 where
  both_failed : Text → Text → FallbackError
  failed_in_backoff : Text → FallbackError

pub data CloseError : Type 0 where
  both_closes_failed : Text → Text → CloseError
  close_failed : Text → CloseError

-- The interval, or a second in its place, counted in the unit of the clock.
unfoldable pub interval_or : ℕ → Signed → ℕ
interval_or second (positive (suc n)) = suc n
interval_or second _ = second

unfoldable pub new_fallback_sink : {B F : Type 0} → ℕ → Signed → B → F → FallbackSink B F
unfolding interval_or
new_fallback_sink second interval broker fallback = record {
  broker = broker;
  fallback = fallback;
  retry_interval = interval_or second interval;
  broker_disabled = 0;
}

module _ {B F : Type 0} (b : MessageSink B) (f : MessageSink F) where
  unfoldable pub answer : (Text → FallbackError) → Option Text → Option FallbackError
  answer wrap none = none
  answer wrap (some message) = some (wrap message)

  -- The write to the fallback, with what its error becomes.
  unfoldable pub fall_back :
      (Text → FallbackError) → Text → FallbackSink B F → FallbackSink B F × Option FallbackError
  unfolding answer
  fall_back wrap message s =
      let written = f.write message s.fallback in
      (record s { fallback = written.0 }, answer wrap (written.1))

  -- What follows the write to the broker at a time.
  unfoldable pub after_broker :
      ℕ → Text → FallbackSink B F → Option Text → FallbackSink B F × Option FallbackError
  unfolding fall_back
  after_broker now message s none = (record s { broker_disabled = 0 }, none)
  after_broker now message s (some error) =
      fall_back (both_failed error) message (record s { broker_disabled = now + s.retry_interval })

  unfoldable pub write_message :
      ℕ → Text → FallbackSink B F → FallbackSink B F × Option FallbackError
  unfolding after_broker
  write_message now message s =
      let written = b.write message s.broker in
      if not (ltb now s.broker_disabled)
      then after_broker now message (record s { broker = written.0 }) (written.1)
      else fall_back failed_in_backoff message s

  unfoldable pub close_results : Option Text → Option Text → Option CloseError
  close_results (some e) (some g) = some (both_closes_failed e g)
  close_results (some e) none = some (close_failed e)
  close_results none (some g) = some (close_failed g)
  close_results none none = none

  unfoldable pub close_sink : FallbackSink B F → FallbackSink B F × Option CloseError
  unfolding close_results
  close_sink s =
      let broker = b.close s.broker in
      let fallback = f.close s.fallback in
      (record s { broker = broker.0; fallback = fallback.0 }, close_results (broker.1) (fallback.1))
