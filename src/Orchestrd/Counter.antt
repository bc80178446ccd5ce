-- ===== src/Orchestrd/Counter.antt =====
-- Proofs about the failure counter and the fuse of cmd/sys-orchestrd/main.go.
use servicectl.Base.{
  zero, suc, Bool, true, false, not, ◌&&◌, Option, none, some, List, [], ◌+◌, ◌≤◌, ◌≡◌, refl, ◌↔◌,
  leb, ◌==◌, nat_eq, arith, if-intro,
}
use servicectl.Base.Atoi.{atoi, Signed, positive, negative}
use servicectl.Base.Text.{is_empty, trim_space, Text}
use servicectl.Orchestrd.Daemon.{
  Daemon, OperationError, Effect, announce, write_state, does, max_failure_threshold, threshold,
}
use servicectl.Orchestrd.Fuse.{record_attempt_success, record_attempt_failure, clear_fuse}
use servicectl.Orchestrd.World.{World, name_unit}
use servicectl.Orchestrd.Handlers.{know_units}
use servicectl.Orchestrd.Steps.{new_daemon, Reaches, here, synced, group_synced, handled}
use servicectl.Orchestrd.Stable.{
  Stable, handle_event-Stable, initial_sync-Stable, initial_group_sync-Stable,
}

-- The fuse is open exactly when the counter has reached its bound, and a closed fuse has no reason.
pub record IsFuseConsistent (d : Daemon) : Type 0 where
  pub positive : 1 ≤ d.max_failures
  pub fused_iff : (d.fused ≡ true) ↔ (d.max_failures ≤ d.failure_count)
  pub no_reason : d.fused ≡ false → d.fuse_reason ≡ []

success-IsFuseConsistent :
    (d : Daemon) → IsFuseConsistent d → IsFuseConsistent (record_attempt_success d)
unfolding record_attempt_success
success-IsFuseConsistent d c =
    if-intro IsFuseConsistent d.fused
      (λ _. record {
        positive = c.positive;
        fused_iff = ground (arith, c.positive);
        no_reason = λ _. refl;
      })
      (λ closed. record {
        positive = c.positive;
        fused_iff = ground (arith, c.positive, closed);
        no_reason = c.no_reason;
      })

failure-IsFuseConsistent :
    (e : OperationError) (d : Daemon)
    → IsFuseConsistent d
    → IsFuseConsistent (record_attempt_failure e d)
unfolding record_attempt_failure announce
failure-IsFuseConsistent e d c =
    if-intro IsFuseConsistent (leb d.max_failures (d.failure_count + 1))
      (λ reached. record {
        positive = c.positive;
        fused_iff = ground (arith, reached);
        no_reason = λ h. cc;
      })
      (λ below. record {
        positive = c.positive;
        fused_iff = ground (arith, below, c.fused_iff.0, c.fused_iff.1);
        no_reason = c.no_reason;
      })

clear_fuse-IsFuseConsistent :
    (trigger : Text) (d : Daemon) → IsFuseConsistent d → IsFuseConsistent (clear_fuse trigger d)
unfolding clear_fuse announce
clear_fuse-IsFuseConsistent trigger d c =
    if-intro IsFuseConsistent (not d.fused && d.failure_count == 0) (λ _. c)
      (λ _. record {
        positive = c.positive;
        fused_iff = ground (arith, c.positive);
        no_reason = λ _. refl;
      })

-- Two daemons with the same counter and fuse.
same_fuse :
    (d : Daemon) (u : Text) (s : Text) (gs us : List Text) (l : List Effect)
    → IsFuseConsistent d
    → IsFuseConsistent (record d { unit = u; state = s; groups = gs; group_units = us; log = l })
same_fuse d u s gs us l c = record {
  positive = c.positive;
  fused_iff = c.fused_iff;
  no_reason = c.no_reason;
}

pub writes :
    (state reason : Text) (d : Daemon)
    → IsFuseConsistent d
    → IsFuseConsistent (write_state state reason d)
unfolding write_state
writes state reason d c = same_fuse d _ _ _ _ _ c

pub IsFuseConsistent-Stable : Stable IsFuseConsistent
unfolding announce name_unit know_units
IsFuseConsistent-Stable = record {
  acts = λ e d _ c. same_fuse d _ _ _ _ _ c;
  announces = λ state reason d c. same_fuse d _ _ _ _ _ c;
  names = λ unit d c. same_fuse d _ _ _ _ _ c;
  joins = λ groups d c. same_fuse d _ _ _ _ _ c;
  knows = λ units d c. same_fuse d _ _ _ _ _ c;
  succeeds = success-IsFuseConsistent;
  fails = failure-IsFuseConsistent;
  clears = clear_fuse-IsFuseConsistent;
}

-- The failure of a run.
pub failed_run :
    (e : OperationError) (effect : Effect) (d : Daemon)
    → IsFuseConsistent d
    → IsFuseConsistent (record_attempt_failure e (does effect d))
failed_run e effect d c =
    failure-IsFuseConsistent e _ (same_fuse d d.unit d.state d.groups d.group_units _ c)

threshold-pos : (o : Option Signed) → 1 ≤ threshold o
unfolding threshold
threshold-pos (some (positive (suc n))) = ground arith
threshold-pos (some (positive zero)) = ground arith
threshold-pos (some (negative n)) = ground arith
threshold-pos none = ground arith

pub max_failure_threshold-pos : (setting : Text) → 1 ≤ max_failure_threshold setting
unfolding max_failure_threshold
max_failure_threshold-pos setting =
    if-intro (◌≤◌ 1) (is_empty (trim_space setting)) (λ _. ground arith)
      (λ _. threshold-pos (atoi (trim_space setting)))

new_daemon-IsFuseConsistent :
    (unit group : Text) (user_mode : Bool) (setting : Text)
    → IsFuseConsistent (new_daemon unit group user_mode setting)
unfolding new_daemon announce write_state
new_daemon-IsFuseConsistent unit group user_mode setting = record {
  positive = max_failure_threshold-pos setting;
  fused_iff = ground (arith, max_failure_threshold-pos setting);
  no_reason = λ _. refl;
}

-- Whatever the world answers and whichever events come in whichever order, the fuse of the daemon
-- that `main` makes is open exactly when its failure counter has reached the bound, which is at
-- least one, and a closed fuse holds no reason.
pub Reaches-IsFuseConsistent :
    (w : World) (unit group : Text) (user_mode : Bool) (setting : Text) {d : Daemon}
    → Reaches w (new_daemon unit group user_mode setting) d
    → IsFuseConsistent d
Reaches-IsFuseConsistent w unit group user_mode setting r = go r
  where
    go : {d : Daemon} → Reaches w (new_daemon unit group user_mode setting) d → IsFuseConsistent d
    go here = new_daemon-IsFuseConsistent unit group user_mode setting
    go (synced {d = d} rounds r) =
        initial_sync-Stable IsFuseConsistent IsFuseConsistent-Stable writes w rounds d (go r)
    go (group_synced {d = d} r) =
        initial_group_sync-Stable IsFuseConsistent IsFuseConsistent-Stable w d (go r)
    go (handled {d = d} event r) =
        handle_event-Stable IsFuseConsistent IsFuseConsistent-Stable w event d (go r)
