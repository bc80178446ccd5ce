-- ===== src/Orchestrd/Handlers.antt =====
-- cmd/sys-orchestrd/main.go and group_mode.go: the handlers of events and the first
-- synchronisation.
use servicectl.Base.{
  ℕ, zero, suc, Bool, true, false, not, ◌&&◌, ◌||◌, Option, none, some, List, [], ◌∷◌, ◌++◌, Map,
  get_or, contains, Result, ok, err, ◌==◌, if◌then◌else◌,
}
use servicectl.Base.Text.{Text, text, trim_space, is_empty, to_lower, text_eq}
use servicectl.Orchestrd.Daemon.{
  Daemon, OperationError, write_state, announce, first_non_empty, is_group_mode, error_text,
}
use servicectl.Orchestrd.Fuse.{
  record_attempt_success, record_attempt_failure, clear_fuse, attempt_start_with_retry,
}
use servicectl.Orchestrd.World.{
  World, GroupState, UnitSnapshot, run_servicectl, run_group_action, query_unit, query_group,
  refresh_groups, start_order_for_group_units, snapshot_is_running,
}

-- The fields of visionapi.EventEnvelope that the daemon reads.
pub record EventEnvelope : Type 0 where
  pub source : Text
  pub kind : Text
  pub payload : Map Text Text

abbrev pub field : EventEnvelope → Text → Text
field event key = get_or event.payload key []

abbrev pub is_enabled : EventEnvelope → Bool
is_enabled event =
    to_lower (trim_space (field event (text "enabled"))) == text "yes"
    || trim_space (field event (text "enabled")) == text "1"

unfoldable pub reverse_service_order : List Text → List Text
reverse_service_order [] = []
reverse_service_order (unit ∷ rest) = reverse_service_order rest ++ unit ∷ []

-- What follows the stop of a unit or of a group.
unfoldable pub finish_stop : Text → Daemon → Option OperationError → Daemon
finish_stop group d (some e) = record_attempt_failure e d
finish_stop group d none =
    announce (text "waiting") (text "group-disabled:" ++ group) (record_attempt_success d)

unfoldable pub start_unit : World → Text → Daemon → Daemon
start_unit w reason d =
    (attempt_start_with_retry (run_servicectl w (text "start"))
      (announce (text "starting") reason d)).0

query_failure : Text → OperationError → OperationError
query_failure unit e = record {
  executor = text "sysvision-api";
  action = text "query-unit";
  target = unit;
  detail = [];
  error = some (error_text e);
  is_permanent = false;
}

-- A group of the unit is enabled, and the unit's state was asked for.
unfoldable pub join_group : World → Text → Daemon → Result OperationError UnitSnapshot → Daemon
unfolding start_unit query_failure
join_group w group d (err e) = record_attempt_failure (query_failure d.unit e) d
join_group w group d (ok snapshot) =
    if snapshot_is_running snapshot then d else start_unit w (text "group-enabled:" ++ group) d

unfoldable pub handle_group_change : World → EventEnvelope → Daemon → Daemon
unfolding finish_stop join_group
handle_group_change w event d =
    let group = trim_space (field event (text "group")) in
    let answer = query_unit w d.unit d in
    let stopping = announce (text "stopping") (text "group-disabled:" ++ group) d in
    let outcome = run_servicectl w (text "stop") stopping in
    if is_empty group || not (contains d.groups group)
    then d
    else if is_enabled event
    then join_group w group (answer.0) (answer.1)
    else finish_stop group (outcome.0) (outcome.1)

-- The start of the group's units once their order was asked for.
unfoldable pub start_ordered : World → Text → Daemon → Result OperationError (List Text) → Daemon
start_ordered w reason d (err e) = record_attempt_failure e d
start_ordered w reason d (ok units) =
    let outcome = attempt_start_with_retry (run_group_action w (text "start") units) d in
    if not (outcome.1) then outcome.0 else announce (text "running") reason (outcome.0)

unfoldable pub start_group : World → Text → Daemon → Daemon
unfolding start_ordered
start_group w reason d =
    let starting = announce (text "starting") reason d in
    let order = start_order_for_group_units w starting.group_units starting in
    start_ordered w reason (order.0) (order.1)

unfoldable pub group_not_found : Daemon → Daemon
group_not_found d =
    announce (text "waiting") (text "group-not-found:" ++ d.group) (record d { group_units = [] })

unfoldable pub know_units : List Text → Daemon → Daemon
know_units units d = record d { group_units = units }

-- The change of the daemon's own group, once its state was asked for.
unfoldable pub change_own_group : World → EventEnvelope → Text → Daemon → Option GroupState → Daemon
unfolding start_group finish_stop group_not_found know_units
change_own_group w event group d none = group_not_found d
change_own_group w event group d (some state) =
    let known = know_units state.units d in
    let stopping = announce (text "stopping") (text "group-disabled:" ++ group) known in
    let outcome =
      run_group_action w (text "stop") (reverse_service_order known.group_units) stopping in
    if is_enabled event
    then start_group w (text "group-enabled:" ++ group)
        (clear_fuse (text "group-change-enabled") known)
    else finish_stop group (outcome.0) (outcome.1)

unfoldable pub handle_group_scoped_change : World → EventEnvelope → Daemon → Daemon
unfolding change_own_group handle_group_change
handle_group_scoped_change w event d =
    let group = trim_space (field event (text "group")) in
    let answer = query_group w d.group d in
    if is_empty group
    then d
    else if is_group_mode d
    then (if group == d.group then change_own_group w event group (answer.0) (answer.1) else d)
    else if not (contains d.groups group)
    then d
    else handle_group_change w event d

unfoldable pub sync_group : World → Daemon → Option GroupState → Daemon
unfolding start_group group_not_found know_units
sync_group w d none = group_not_found d
sync_group w d (some state) =
    let known = know_units state.units d in
    if not state.enabled
    then announce (text "waiting") (text "group-disabled") known
    else start_group w (text "group-enabled") (clear_fuse (text "group-enabled") known)

unfoldable pub initial_group_sync : World → Daemon → Daemon
unfolding sync_group
initial_group_sync w d = let answer = query_group w d.group d in sync_group w (answer.0) (answer.1)

-- The two changes that a phase and a state of the child may report.
unfoldable pub report_ready : Text → Text → Daemon → Daemon
report_ready phase child d =
    if phase == text "ready" || child == text "running"
    then announce (text "running") (first_non_empty (phase ∷ child ∷ [])) d
    else d

unfoldable pub report_stopping : Text → Text → Daemon → Daemon
report_stopping phase child d =
    if phase == text "stopping" || child == text "stopping"
    then announce (text "stopping") (first_non_empty (phase ∷ child ∷ [])) d
    else d

-- The three sources of events.
unfoldable pub handle_notify : EventEnvelope → Daemon → Daemon
unfolding report_ready report_stopping
handle_notify event d =
    let failure = trim_space (field event (text "failure")) in
    let phase = trim_space (field event (text "phase")) in
    let child = trim_space (field event (text "child_state")) in
    if not (is_empty failure)
    then announce (text "failed") failure d
    else report_stopping phase child (report_ready phase child d)

unfoldable pub handle_servicectl : EventEnvelope → Daemon → Daemon
handle_servicectl event d =
    if field event (text "action") == text "stop" && field event (text "result") == text "ok"
    then announce (text "waiting") (text "stopped") d
    else d

-- A change of a property or of a group closes the fuse.
unfoldable pub renew : EventEnvelope → Daemon → Daemon
renew event d =
    if event.kind == text "group.changed" || event.kind == text "property.changed"
    then clear_fuse (text "property-change") d
    else d

unfoldable pub handle_property : World → EventEnvelope → Daemon → Daemon
unfolding renew handle_group_scoped_change
handle_property w event d =
    let cleared = renew event d in
    if event.kind == text "group.changed"
    then handle_group_scoped_change w event cleared
    else cleared

unfoldable pub handle_event : World → EventEnvelope → Daemon → Daemon
unfolding handle_notify handle_servicectl handle_property
handle_event w event d =
    if event.source == text "sys-notifyd"
    then handle_notify event d
    else if event.source == text "servicectl"
    then handle_servicectl event d
    else if event.source == text "sys-propertyd"
    then handle_property w event d
    else d

-- One round of initialSync, once the unit's state was asked for: the daemon, and whether it is in
-- step with its unit.
unfoldable pub sync_unit : World → Daemon → Result OperationError UnitSnapshot → Daemon × Bool
sync_unit w d (err e) = (write_state (text "waiting") (text "initial-sync") d, false)
sync_unit w d (ok snapshot) =
    if snapshot_is_running snapshot
    then (announce (text "running") (text "initial-state") (refresh_groups w d), true)
    else attempt_start_with_retry (run_servicectl w (text "start"))
        (refresh_groups w (announce (text "starting") (text "initial-start") d))

-- The rounds that the context allows; the Boolean says whether the loop returned by itself.
unfoldable pub initial_sync : World → ℕ → Daemon → Daemon × Bool
unfolding sync_unit
initial_sync w zero d = (d, false)
initial_sync w (suc rounds) d =
    let answer = query_unit w d.unit d in
    let round = sync_unit w (answer.0) (answer.1) in
    let rest = initial_sync w rounds (round.0) in if round.1 then round else rest
