-- ===== src/DbusActivation/Engine.antt =====
-- internal/dbusactivation/engine.go: the job that starts a service and waits for its bus name. The
-- bus, the resolver and the starter are outside; what the select of the loop receives is a list.
use servicectl.Base.{
  ℕ, Bool, true, false, ◌&&◌, not, Option, none, some, List, [], ◌∷◌, ◌==◌, Result, ok, err,
  if◌then◌else◌,
}
use servicectl.Base.Text.{Text, text, text_eq, is_empty}
use servicectl.DbusActivation.Messages.{ActivationResult}
use servicectl.DbusActivation.Routes.{
  Route, RouteError, unit_not_found, ambiguous_unit, unknown_service, duplicate_service,
}

-- What the bus answers to the question for the owner of a name, `ErrNoOwner` apart.
pub data OwnerAnswer : Type 0 where
  no_owner : OwnerAnswer
  owned_by : Text → OwnerAnswer
  bus_failed : Text → OwnerAnswer

-- The calls that a job makes, and the changes of owners it hears of.
pub data Act : Type 0 where
  asked : OwnerAnswer → Act
  watched : Act
  unwatched : Act
  heard : Text → Text → Act
  started : Route → List Text → Bool → Act
  stopped : Act

-- The exit of a child: by a status of 0, by another status, or by a signal.
pub data Exit : Type 0 where
  exited_well : Exit
  exited_badly : Text → Exit
  signalled : Text → Exit

pub data Event : Type 0 where
  expired : Text → Event
  cancelled : Text → Event
  changed : Text → Text → Event
  monitor_stopped : Event
  exited : Exit → Event

-- What is outside, each answer according to the calls so far, the last first. A start returns
-- whether what it started can be stopped.
pub record Backend : Type 0 where
  pub resolve : Result RouteError Route
  pub watch : List Act → Option Text
  pub owner : List Act → OwnerAnswer
  pub start : List Act → Route → List Text → Result Text Bool
  pub events : List Event

abbrev pub success : ActivationResult
success = record { code = 0; detail = [] }

abbrev pub failure : ℕ → Text → ActivationResult
failure code detail = record { code = code; detail = detail }

unfoldable pub result_from_child_exit : Exit → ActivationResult
result_from_child_exit exited_well =
    failure 9 (text "service exited before acquiring its D-Bus name")
result_from_child_exit (exited_badly message) = failure 9 message
result_from_child_exit (signalled message) = failure 10 message

-- The codes are those of the source. An error of the last case has the text `failed` here, while
-- the source prints the error.
unfoldable pub result_from_error : RouteError → ActivationResult
result_from_error (unknown_service message) = failure 2 message
result_from_error (duplicate_service message) = failure 14 message
result_from_error (unit_not_found message) = failure 16 message
result_from_error (ambiguous_unit message n) = failure 5 message
result_from_error _ = failure 11 (text "failed")

-- The calls, whether the wait succeeded, and the result.
abbrev pub Waited : Type 0
Waited = List Act × (Bool × ActivationResult)

-- The answer of the bus after the child has exited.
unfoldable pub after_exit : Exit → List Act → OwnerAnswer → Waited
unfolding result_from_child_exit
after_exit exit acts (bus_failed message) = (acts, (false, failure 20 message))
after_exit exit acts no_owner = (acts, (false, result_from_child_exit exit))
after_exit exit acts (owned_by owner) =
    if is_empty owner then (acts, (false, result_from_child_exit exit)) else (acts, (true, success))

-- The loop of the job. The context of a job has a deadline, so that the loop ends.
unfoldable pub wait : Backend → Text → List Event → List Act → Waited
unfolding after_exit
wait b name [] acts = (acts, (false, failure 19 (text "context deadline exceeded")))
wait b name (expired message ∷ events) acts = (acts, (false, failure 19 message))
wait b name (cancelled message ∷ events) acts = (acts, (false, failure 11 message))
wait b name (monitor_stopped ∷ events) acts =
    (acts, (false, failure 20 (text "D-Bus name monitor stopped")))
wait b name (exited exit ∷ events) acts =
    after_exit exit (asked (b.owner acts) ∷ acts) (b.owner acts)
wait b name (changed changed_name owner ∷ events) acts =
    let told = heard changed_name owner ∷ acts in
    let more = wait b name events told in
    if changed_name == name && not (is_empty owner) then (told, (true, success)) else more

-- The calls and the result of a job.
abbrev pub Done : Type 0
Done = List Act × ActivationResult

-- The deferred calls after a start.
unfoldable pub clean_up : Bool → Waited → Done
clean_up can_stop (acts, (succeeded, result)) =
    ((if not succeeded && can_stop then unwatched ∷ stopped ∷ acts else unwatched ∷ acts), result)

unfoldable pub after_start : Backend → Text → Route → List Text → List Act → Result Text Bool → Done
unfolding wait clean_up
after_start b name route environment acts (err message) = (unwatched ∷ acts, failure 7 message)
after_start b name route environment acts (ok can_stop) =
    clean_up can_stop (wait b name b.events (started route environment can_stop ∷ acts))

unfoldable pub start_service : Backend → Text → Route → List Text → List Act → Done
unfolding after_start
start_service b name route environment acts =
    after_start b name route environment acts (b.start acts route environment)

-- Once the changes are watched, the owner is asked for again.
unfoldable pub after_watch : Backend → Text → Route → List Text → List Act → OwnerAnswer → Done
unfolding start_service
after_watch b name route environment acts (bus_failed message) =
    (unwatched ∷ acts, failure 20 message)
after_watch b name route environment acts no_owner = start_service b name route environment acts
after_watch b name route environment acts (owned_by owner) =
    if is_empty owner
    then start_service b name route environment acts
    else (unwatched ∷ acts, success)

unfoldable pub watch_name : Backend → Text → Route → List Text → Option Text → Done
unfolding after_watch
watch_name b name route environment (some message) = ([], failure 20 message)
watch_name b name route environment none =
    let answer = b.owner (watched ∷ []) in
    after_watch b name route environment (asked answer ∷ watched ∷ []) answer

unfoldable pub with_route : Backend → Text → List Text → Result RouteError Route → Done
unfolding watch_name result_from_error
with_route b name environment (err e) = ([], result_from_error e)
with_route b name environment (ok route) = watch_name b name route environment (b.watch [])

unfoldable pub activate_job : Backend → Text → List Text → Done
unfolding with_route
activate_job b name environment = with_route b name environment b.resolve
