-- ===== src/Orchestrd/World.antt =====
-- cmd/sys-orchestrd/main.go and group_mode.go: the calls of programs and of the query interface.
-- What the world answers may depend on all that was done before.
use servicectl.Base.{
  Bool, true, false, not, Option, none, some, List, [], ◌∷◌, ◌++◌, map, Result, ok, err, ◌==◌, suc,
  if◌then◌else◌,
}
use servicectl.Base.Text.{
  Text, text, trim_space, is_empty, trim_suffix, has_suffix, text_eq, split_lines, to_lower,
}
use servicectl.Base.Atoi.{atoi, positive}
use servicectl.Orchestrd.Daemon.{
  Daemon, OperationError, Effect, ran, ordered, asked_unit, asked_group, asked_unit_groups, does,
  is_permanent_start_error,
}

-- The fields of visionapi.UnitSnapshot and visionapi.GroupState that the daemon reads.
pub record UnitSnapshot : Type 0 where
  pub state : Text
  pub managed_by : Text
  pub manager_pid : Text

pub record GroupState : Type 0 where
  pub name : Text
  pub units : List Text
  pub enabled : Bool

-- An answer of the HTTP interface: no connection, another status, no JSON, or a value.
pub data Reply (A : Type 0) : Type 0 where
  unreachable : Text → Reply A
  refused : Text → Reply A
  garbled : Text → Reply A
  answered : A → Reply A

-- The answers of the world to a call after the effects in the list. A program that fails gives a
-- message; `group-start-order` gives its output too.
pub record World : Type 0 where
  pub run : List Effect → Bool → Text → Text → Option Text
  pub start_order : List Effect → Bool → Text → Text × Option Text
  pub unit : List Effect → Text → Reply UnitSnapshot
  pub group : List Effect → Text → Reply GroupState
  pub unit_groups : List Effect → Text → Reply (List GroupState)

unfoldable pub run_servicectl : World → Text → Daemon → Daemon × Option OperationError
run_servicectl w action d = (
  does (ran d.user_mode action d.unit) d,
  elim (w.run d.log d.user_mode action d.unit) [
    | none ↦ none
    | some message ↦ some (record {
      executor = text "servicectl";
      action = action;
      target = d.unit;
      detail = [];
      error = some message;
      is_permanent = is_permanent_start_error message;
    })
  ],
)

-- The loop over the units stops at the first that fails.
unfoldable pub after_unit :
    (Daemon → Daemon × Option OperationError)
    → Daemon
    → Option OperationError
    → Daemon × Option OperationError
after_unit next d none = next d
after_unit next d (some e) = (d, some e)

-- Each unit becomes the daemon's unit.
unfoldable pub name_unit : Text → Daemon → Daemon
name_unit unit d = record d {
  unit = trim_suffix (trim_space unit) (text ".service") ++ text ".service";
}

unfoldable pub run_group_action : World → Text → List Text → Daemon → Daemon × Option OperationError
unfolding after_unit name_unit
run_group_action w action [] d = (d, none)
run_group_action w action (unit ∷ rest) d =
    let outcome = run_servicectl w action (name_unit unit d) in
    after_unit (run_group_action w action rest) (outcome.0) (outcome.1)

query_error : Text → Text → OperationError
query_error unit message = record {
  executor = text "sysvision-api";
  action = text "query-unit";
  target = unit;
  detail = [];
  error = some message;
  is_permanent = false;
}

unfoldable pub read_unit : Text → Reply UnitSnapshot → Result OperationError UnitSnapshot
unfolding query_error
read_unit unit (unreachable message) = err (query_error unit message)
read_unit unit (refused status) =
    err (query_error unit (text "sysvision query returned " ++ status))
read_unit unit (garbled message) = err (query_error unit message)
read_unit unit (answered snapshot) = ok snapshot

unfoldable pub query_unit : World → Text → Daemon → Daemon × Result OperationError UnitSnapshot
unfolding read_unit
query_unit w unit d = (does (asked_unit unit) d, read_unit unit (w.unit d.log unit))

unfoldable pub query_group : World → Text → Daemon → Daemon × Option GroupState
query_group w name d = (
  does (asked_group (trim_space name)) d,
  elim (w.group d.log (trim_space name)) [ answered state ↦ some state | _ ↦ none ],
)

unfoldable pub keep_groups : Daemon → Reply (List GroupState) → Daemon
keep_groups d (answered groups) = record d { groups = map (λ g. trim_space g.name) groups }
keep_groups d _ = d

unfoldable pub refresh_groups : World → Daemon → Daemon
unfolding keep_groups
refresh_groups w d = keep_groups (does (asked_unit_groups d.unit) d) (w.unit_groups d.log d.unit)

-- A line of the order, with the suffix that it may lack.
service_line : Text → Text
service_line line =
    if not (has_suffix line (text ".service")) then line ++ text ".service" else line

service_lines : List Text → List Text
unfolding service_line
service_lines [] = []
service_lines (line ∷ rest) =
    let kept = service_lines rest in
    if is_empty (trim_space line) then kept else service_line (trim_space line) ∷ kept

order_or : List Text → List Text → List Text
order_or fallback [] = fallback
order_or fallback (line ∷ rest) = line ∷ rest

order_detail : Text → Text
order_detail output =
    if is_empty (trim_space output) then text "group-start-order failed" else trim_space output

unfoldable pub start_order_for_group_units :
    World → List Text → Daemon → Daemon × Result OperationError (List Text)
unfolding service_lines order_or order_detail
start_order_for_group_units w fallback d =
    let answer = w.start_order d.log d.user_mode d.group in
    (
      does (ordered d.user_mode d.group) d,
      elim (answer.1) [
        | some message ↦ err (record {
          executor = text "servicectl";
          action = text "group-start-order";
          target = d.group;
          detail = order_detail (answer.0);
          error = some message;
          is_permanent = is_permanent_start_error (order_detail (answer.0));
        })
        | none ↦ ok (order_or fallback (service_lines (split_lines (trim_space (answer.0)))))
      ],
    )

unfoldable pub snapshot_is_running : UnitSnapshot → Bool
snapshot_is_running s =
    if not (to_lower (trim_space s.state) == text "started")
    then false
    else if not (to_lower (trim_space s.managed_by) == text "sys-notifyd")
    then true
    else elim (atoi (trim_space s.manager_pid)) [ some (positive (suc n)) ↦ true | _ ↦ false ]
