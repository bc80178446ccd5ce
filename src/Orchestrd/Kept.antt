-- ===== src/Orchestrd/Kept.antt =====
-- Proofs about initialSync of cmd/sys-orchestrd/main.go: what the daemon keeps while it runs no
-- program, as with an open fuse.
use servicectl.Base.{ℕ, zero, suc, Bool, true, List, ◌∷◌, ◌≡◌, refl, ◌∙◌, Result, ok, err, if-intro}
use servicectl.Base.Text.{Text, text}
use servicectl.Orchestrd.Daemon.{
  Daemon, OperationError, Effect, asked_unit, does, announce, write_state,
}
use servicectl.Orchestrd.Fuse.{attempt_start_with_retry}
use servicectl.Orchestrd.World.{
  World, Reply, GroupState, UnitSnapshot, answered, run_servicectl, query_unit, refresh_groups,
  keep_groups, snapshot_is_running,
}
use servicectl.Orchestrd.Handlers.{sync_unit, initial_sync}
use servicectl.Orchestrd.Retry.{runs}

-- What a daemon keeps while it runs no program.
pub record Kept (before d : Daemon) : Type 0 where
  pub fused : d.fused ≡ before.fused
  pub count : d.failure_count ≡ before.failure_count
  pub bound : d.max_failures ≡ before.max_failures
  pub unit : d.unit ≡ before.unit
  pub ran : runs d.log ≡ runs before.log

keep_groups-Kept :
    (e : Effect) (before d : Daemon) (r : Reply (List GroupState))
    → runs (e ∷ d.log) ≡ runs d.log
    → Kept before d
    → Kept before (keep_groups (does e d) r)
unfolding keep_groups
keep_groups-Kept e before d (answered _) q k = record {
  fused = k.fused;
  count = k.count;
  bound = k.bound;
  unit = k.unit;
  ran = q ∙ k.ran;
}
keep_groups-Kept e before d _ q k = record {
  fused = k.fused;
  count = k.count;
  bound = k.bound;
  unit = k.unit;
  ran = q ∙ k.ran;
}

refresh_groups-Kept :
    (w : World) (before d : Daemon) → Kept before d → Kept before (refresh_groups w d)
unfolding refresh_groups runs
refresh_groups-Kept w before d k = keep_groups-Kept _ before d _ refl k

announce-Kept :
    (state reason : Text) (before d : Daemon)
    → Kept before d
    → Kept before (announce state reason d)
unfolding announce runs
announce-Kept state reason before d k = record {
  fused = k.fused;
  count = k.count;
  bound = k.bound;
  unit = k.unit;
  ran = k.ran;
}

pub write_state-Kept : (state reason : Text) (d : Daemon) → Kept d (write_state state reason d)
unfolding write_state runs
write_state-Kept state reason d = record {
  fused = refl;
  count = refl;
  bound = refl;
  unit = refl;
  ran = refl;
}

Kept-refl : (d : Daemon) → Kept d d
Kept-refl d = record { fused = refl; count = refl; bound = refl; unit = refl; ran = refl }

Kept-trans : {a b c : Daemon} → Kept a b → Kept b c → Kept a c
Kept-trans k l = record {
  fused = l.fused ∙ k.fused;
  count = l.count ∙ k.count;
  bound = l.bound ∙ k.bound;
  unit = l.unit ∙ k.unit;
  ran = l.ran ∙ k.ran;
}

asked-Kept : (unit : Text) (d : Daemon) → Kept d (does (asked_unit unit) d)
unfolding runs
asked-Kept unit d = record { fused = refl; count = refl; bound = refl; unit = refl; ran = refl }

-- The daemon that a round is about to start its unit with.
abbrev pub ready : World → Daemon → Daemon
ready w d = refresh_groups w (announce (text "starting") (text "initial-start") d)

pub ready-Kept : (w : World) (d : Daemon) → Kept d (ready w d)
ready-Kept w d = refresh_groups-Kept w d _ (announce-Kept _ _ d d (Kept-refl d))

pub running-Kept :
    (w : World) (d : Daemon)
    → Kept d (announce (text "running") (text "initial-state") (refresh_groups w d))
running-Kept w d = announce-Kept _ _ d _ (refresh_groups-Kept w d d (Kept-refl d))

-- An open fuse lets a round run nothing.
attempt-fused :
    (w : World) (before d : Daemon)
    → d.fused ≡ true
    → Kept before d
    → Kept before ((attempt_start_with_retry (run_servicectl w (text "start")) d).0)
unfolding attempt_start_with_retry
attempt-fused w before d h k =
    if-intro (λ (r : Daemon × Bool). Kept before (r.0)) d.fused (λ _. k) (λ f. cc)

pub sync_unit-fused :
    (w : World) (d : Daemon) (r : Result OperationError UnitSnapshot)
    → d.fused ≡ true
    → Kept d ((sync_unit w d r).0)
unfolding sync_unit
sync_unit-fused w d (err e) h = write_state-Kept _ _ d
sync_unit-fused w d (ok snapshot) h =
    if-intro (λ (r : Daemon × Bool). Kept d (r.0)) (snapshot_is_running snapshot)
      (λ _. running-Kept w d)
      (λ _. attempt-fused w d (ready w d) ((ready-Kept w d).fused ∙ h) (ready-Kept w d))

pub initial_sync-fused :
    (w : World) (rounds : ℕ) (d : Daemon) → d.fused ≡ true → Kept d ((initial_sync w rounds d).0)
unfolding initial_sync query_unit
initial_sync-fused w zero d h = Kept-refl d
initial_sync-fused w (suc rounds) d h =
    let k =
      Kept-trans (asked-Kept d.unit d)
        (sync_unit-fused w (does (asked_unit d.unit) d) ((query_unit w d.unit d).1) h) in
    if-intro (λ (r : Daemon × Bool). Kept d (r.0)) _ (λ _. k)
      (λ _. Kept-trans k (initial_sync-fused w rounds _ (k.fused ∙ h)))
