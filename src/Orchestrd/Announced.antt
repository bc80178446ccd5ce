-- ===== src/Orchestrd/Announced.antt =====
-- Proofs that the daemon of cmd/sys-orchestrd tells the bus what it writes to its state file.
use servicectl.Base.{
  true, false, not, ◌&&◌, List, [], ◌∷◌, ◌+◌, ◌≡◌, refl, leb, ◌==◌, nat_eq, if-intro,
}
use servicectl.Base.Text.{Text}
use servicectl.Orchestrd.Daemon.{
  Daemon, OperationError, Effect, Report, wrote, published, announce, error_text,
}
use servicectl.Orchestrd.Fuse.{record_attempt_success, record_attempt_failure, clear_fuse}
use servicectl.Orchestrd.World.{World, name_unit}
use servicectl.Orchestrd.Handlers.{EventEnvelope, know_units, handle_event}
use servicectl.Orchestrd.Stable.{Stable, IsQuiet, handle_event-Stable}

-- Two reports of the same state; their subjects are a unit and the daemon's object.
pub SameReport : Report → Report → Type 0
SameReport p q =
    (p.service ≡ q.service)
    × (p.state ≡ q.state)
    × (p.reason ≡ q.reason)
    × (p.failure_count ≡ q.failure_count)
    × (p.fused ≡ q.fused)

-- A log that grew by acts that are no reports, and by pairs: a state that is written, and at once
-- published.
pub data Announces : List Effect → List Effect → Type 0 where
  same_log : {l : List Effect} → Announces l l
  act : {l m : List Effect} (e : Effect) → IsQuiet e → Announces l m → Announces l (e ∷ m)
  pair :
      {l m : List Effect} (p q : Report)
      → SameReport p q
      → Announces l m
      → Announces l (published p ∷ wrote q ∷ m)

module _ (l : List Effect) where
  abbrev Announced : Daemon → Type 0
  Announced d = Announces l d.log

  announce-Announced :
      (state reason : Text) (d : Daemon) → Announced d → Announced (announce state reason d)
  unfolding announce SameReport
  announce-Announced state reason d a = pair _ _ (refl, refl, refl, refl, refl) a

  success-Announced : (d : Daemon) → Announced d → Announced (record_attempt_success d)
  unfolding record_attempt_success
  success-Announced d a = if-intro Announced d.fused (λ _. a) (λ _. a)

  failure-Announced :
      (e : OperationError) (d : Daemon) → Announced d → Announced (record_attempt_failure e d)
  unfolding record_attempt_failure
  failure-Announced e d a =
      if-intro Announced (leb d.max_failures (d.failure_count + 1))
        (λ _.
          announce-Announced _ _
            (record d {
              failure_count = d.failure_count + 1;
              fused = true;
              fuse_reason = error_text e;
            })
            a)
        (λ _. announce-Announced _ _ (record d { failure_count = d.failure_count + 1 }) a)

  clear_fuse-Announced :
      (trigger : Text) (d : Daemon) → Announced d → Announced (clear_fuse trigger d)
  unfolding clear_fuse
  clear_fuse-Announced trigger d a =
      if-intro Announced (not d.fused && d.failure_count == 0) (λ _. a)
        (λ _.
          announce-Announced _ _ (record d { fused = false; fuse_reason = []; failure_count = 0 })
            a)

  Announced-Stable : Stable Announced
  unfolding name_unit know_units
  Announced-Stable = record {
    acts = λ e d q a. act e q a;
    announces = announce-Announced;
    names = λ unit d a. a;
    joins = λ groups d a. a;
    knows = λ units d a. a;
    succeeds = success-Announced;
    fails = failure-Announced;
    clears = clear_fuse-Announced;
  }

-- While the daemon handles an event, on every path, it writes no state to its file that it does not
-- publish at once, with the same reason, counter and fuse, and it publishes no other state.
pub handle_event-Announces :
    (w : World) (event : EventEnvelope) (d : Daemon) → Announces d.log (handle_event w event d).log
handle_event-Announces w event d =
    handle_event-Stable (Announced d.log) (Announced-Stable d.log) w event d same_log
