-- ===== src/Orchestrd/Tests.antt =====
-- Runs of the model of cmd/sys-orchestrd on concrete worlds, and the theorems applied to them.
use servicectl.Base.{true, false, none, some, List, [], ◌∷◌, ◌+◌, ◌≤◌, ◌≡◌, refl}
use servicectl.Base.Text.{text, text_beq, to_lower, trim_space}
use servicectl.Orchestrd.Daemon.{Daemon, Effect, announce, write_state, max_failure_threshold}
use servicectl.Orchestrd.Fuse.{attempt_start_with_retry, record_attempt_failure, clear_fuse}
use servicectl.Orchestrd.World.{
  World, answered, refused, run_servicectl, query_unit, snapshot_is_running, refresh_groups,
}
use servicectl.Orchestrd.Handlers.{EventEnvelope, handle_event, initial_sync}
use servicectl.Orchestrd.Steps.{new_daemon, here, synced, handled}
use servicectl.Orchestrd.Counter.{IsFuseConsistent, Reaches-IsFuseConsistent}
use servicectl.Orchestrd.Retry.{runs}
use servicectl.Orchestrd.Announced.{Announces, handle_event-Announces}
use servicectl.Orchestrd.Sync.{IsDown, initial_sync-runs, initial_sync-stuck}

-- A world in which the unit is down and no start succeeds.
abbrev broken : World
broken = record {
  run = λ _ _ _ _. some (text "exit status 1");
  start_order = λ _ _ _. ([], none);
  unit = λ _ _. answered (record { state = text "STOPPED"; managed_by = []; manager_pid = [] });
  group = λ _ _. refused (text "404 Not Found");
  unit_groups = λ _ _. refused (text "404 Not Found");
}

abbrev web : Daemon
web = new_daemon (text "web.service") [] false []

abbrev crash : EventEnvelope
crash = record {
  source = text "sys-notifyd";
  kind = text "unit.failure";
  payload = (text "failure", text "exit-code") ∷ [];
}

abbrev property_change : EventEnvelope
property_change = record {
  source = text "sys-propertyd";
  kind = text "property.changed";
  payload = [];
}

-- Three failed starts blow the fuse of a new daemon.
blown : (initial_sync broken 1 web).0.fused ≡ true
unfolding new_daemon initial_sync query_unit snapshot_is_running text_beq to_lower trim_space
    attempt_start_with_retry refresh_groups announce max_failure_threshold run_servicectl
    record_attempt_failure
blown = refl

blown_runs : runs (initial_sync broken 4 web).0.log ≡ 3
unfolding runs new_daemon initial_sync query_unit snapshot_is_running text_beq to_lower trim_space
    attempt_start_with_retry refresh_groups announce max_failure_threshold run_servicectl
    record_attempt_failure
blown_runs = refl

-- The state that it shows from the second round on.
blown_state : (initial_sync broken 2 web).0.state ≡ text "starting"
unfolding new_daemon initial_sync query_unit snapshot_is_running text_beq to_lower trim_space
    attempt_start_with_retry refresh_groups announce max_failure_threshold run_servicectl
    record_attempt_failure
blown_state = refl

cleared : (handle_event broken property_change ((initial_sync broken 1 web).0)).fused ≡ false
unfolding handle_event clear_fuse new_daemon initial_sync query_unit snapshot_is_running text_beq
    to_lower trim_space attempt_start_with_retry refresh_groups announce max_failure_threshold
    run_servicectl record_attempt_failure
cleared = refl

broken-IsDown : (l : List Effect) → IsDown (broken.unit l ((initial_sync broken 1 web).0.unit))
unfolding IsDown snapshot_is_running text_beq to_lower trim_space
broken-IsDown l = refl

web-IsFuseConsistent : IsFuseConsistent web
web-IsFuseConsistent = Reaches-IsFuseConsistent broken (text "web.service") [] false [] here

web_closed : web.fused ≡ false
unfolding new_daemon write_state
web_closed = refl

Reaches-IsFuseConsistent_example :
    IsFuseConsistent (handle_event broken property_change ((initial_sync broken 2 web).0))
Reaches-IsFuseConsistent_example =
    Reaches-IsFuseConsistent broken (text "web.service") [] false []
      (handled property_change (synced 2 here))

handle_event-Announces_example : Announces web.log (handle_event broken crash web).log
handle_event-Announces_example = handle_event-Announces broken crash web

initial_sync-runs_example :
    runs (initial_sync broken 5 web).0.log + web.failure_count ≤ runs web.log + web.max_failures
initial_sync-runs_example = initial_sync-runs broken 5 web web-IsFuseConsistent web_closed

initial_sync-stuck_example :
    ((initial_sync broken 7 ((initial_sync broken 1 web).0)).1 ≡ false)
    × ((initial_sync broken 7 ((initial_sync broken 1 web).0)).0.fused ≡ true)
    × (runs (initial_sync broken 7 ((initial_sync broken 1 web).0)).0.log
        ≡ runs (initial_sync broken 1 web).0.log)
initial_sync-stuck_example =
    initial_sync-stuck broken 7 ((initial_sync broken 1 web).0) blown broken-IsDown
