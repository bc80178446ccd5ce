-- ===== src/DbusActivation/Outcome.antt =====
-- internal/dbusactivation/engine.go: what a job that has ended says of the name and the service.
use servicectl.Base.{
  ◌≡◌, ◌≢◌, refl, Bool, true, false, ◌&&◌, ◌||◌, not, Option, none, some, List, [], ◌∷◌, ◌==◌,
  Result, ok, err, if-intro, arith,
}
use servicectl.Base.Text.{Text, text_eq, is_empty}
use servicectl.DbusActivation.Messages.{ActivationResult}
use servicectl.DbusActivation.Routes.{
  Route, RouteError, unit_not_found, ambiguous_unit, unknown_service, duplicate_service,
  no_resolver, other_error,
}
use servicectl.DbusActivation.Engine.{
  OwnerAnswer, no_owner, owned_by, bus_failed, Act, asked, watched, unwatched, heard, started,
  stopped, Exit, exited_well, exited_badly, signalled, Event, expired, cancelled, changed,
  monitor_stopped, exited, Backend, success, failure, result_from_child_exit, result_from_error,
  Waited, after_exit, wait, Done, clean_up, after_start, start_service, after_watch, watch_name,
  with_route, activate_job,
}

-- Whether the bus has named an owner of the name.
unfoldable pub is_owned : Text → List Act → Bool
is_owned name [] = false
is_owned name (asked (owned_by owner) ∷ acts) = not (is_empty owner) || is_owned name acts
is_owned name (heard changed_name owner ∷ acts) =
    (changed_name == name && not (is_empty owner)) || is_owned name acts
is_owned name (_ ∷ acts) = is_owned name acts

-- Whether the changes are still watched.
unfoldable pub is_watching : List Act → Bool
is_watching [] = false
is_watching (watched ∷ acts) = true
is_watching (unwatched ∷ acts) = false
is_watching (_ ∷ acts) = is_watching acts

-- Whether something was started that the engine can stop and has not stopped.
unfoldable pub is_left : List Act → Bool
is_left [] = false
is_left (started route environment can_stop ∷ acts) = can_stop
is_left (stopped ∷ acts) = false
is_left (_ ∷ acts) = is_left acts

-- A wait that ended well has an owner, and only such a wait has the code of success.
pub record IsWait (name : Text) (can_stop : Bool) (w : Waited) : Type 0 where
  pub left : is_left w.0 ≡ can_stop
  pub found : w.1.0 ≡ true → is_owned name w.0 ≡ true
  pub told : w.1.0 ≡ true → w.1.1.code ≡ 0
  pub else_told : w.1.0 ≡ false → w.1.1.code ≢ 0

failed-IsWait :
    (name : Text) (can_stop : Bool) (acts : List Act) (result : ActivationResult)
    → is_left acts ≡ can_stop
    → result.code ≢ 0
    → IsWait name can_stop (acts, (false, result))
failed-IsWait name can_stop acts result h k = record {
  left = h;
  found = λ e. cc;
  told = λ e. cc;
  else_told = λ e. k;
}

good-IsWait :
    (name : Text) (can_stop : Bool) (acts : List Act)
    → is_left acts ≡ can_stop
    → is_owned name acts ≡ true
    → IsWait name can_stop (acts, (true, success))
good-IsWait name can_stop acts h k = record {
  left = h;
  found = λ e. k;
  told = λ e. refl;
  else_told = λ e. cc;
}

result_from_child_exit-fails : (exit : Exit) → (result_from_child_exit exit).code ≢ 0
unfolding result_from_child_exit
result_from_child_exit-fails exited_well = λ e. absurd (omega arith)
result_from_child_exit-fails (exited_badly m) = λ e. absurd (omega arith)
result_from_child_exit-fails (signalled m) = λ e. absurd (omega arith)

result_from_error-fails : (e : RouteError) → (result_from_error e).code ≢ 0
unfolding result_from_error
result_from_error-fails (unknown_service m) = λ e. absurd (omega arith)
result_from_error-fails (duplicate_service m) = λ e. absurd (omega arith)
result_from_error-fails (unit_not_found m) = λ e. absurd (omega arith)
result_from_error-fails (ambiguous_unit m n) = λ e. absurd (omega arith)
result_from_error-fails no_resolver = λ e. absurd (omega arith)
result_from_error-fails (other_error m) = λ e. absurd (omega arith)

module _ (name : Text) (can_stop : Bool) where
  after_exit-IsWait :
      (exit : Exit) (acts : List Act) (answer : OwnerAnswer)
      → is_left acts ≡ can_stop
      → IsWait name can_stop (after_exit exit (asked answer ∷ acts) answer)
  unfolding after_exit is_owned is_left
  after_exit-IsWait exit acts (bus_failed m) h =
      failed-IsWait name can_stop (asked (bus_failed m) ∷ acts) (failure 20 m) h
        (λ e. absurd (omega arith))
  after_exit-IsWait exit acts no_owner h =
      failed-IsWait name can_stop (asked no_owner ∷ acts) (result_from_child_exit exit) h
        (result_from_child_exit-fails exit)
  after_exit-IsWait exit acts (owned_by owner) h =
      if-intro (IsWait name can_stop) (is_empty owner)
        (λ _.
          failed-IsWait name can_stop (asked (owned_by owner) ∷ acts) (result_from_child_exit exit)
            h (result_from_child_exit-fails exit))
        (λ filled. good-IsWait name can_stop (asked (owned_by owner) ∷ acts) h (rw filled refl))

  wait-IsWait :
      (b : Backend) (events : List Event) (acts : List Act)
      → is_left acts ≡ can_stop
      → IsWait name can_stop (wait b name events acts)
  unfolding wait is_left is_owned
  wait-IsWait b [] acts h = failed-IsWait name can_stop acts _ h (λ e. absurd (omega arith))
  wait-IsWait b (expired m ∷ events) acts h =
      failed-IsWait name can_stop acts _ h (λ e. absurd (omega arith))
  wait-IsWait b (cancelled m ∷ events) acts h =
      failed-IsWait name can_stop acts _ h (λ e. absurd (omega arith))
  wait-IsWait b (monitor_stopped ∷ events) acts h =
      failed-IsWait name can_stop acts _ h (λ e. absurd (omega arith))
  wait-IsWait b (exited exit ∷ events) acts h = after_exit-IsWait exit acts (b.owner acts) h
  wait-IsWait b (changed changed_name owner ∷ events) acts h =
      if-intro (IsWait name can_stop) (changed_name == name && not (is_empty owner))
        (λ mine. good-IsWait name can_stop (heard changed_name owner ∷ acts) h (rw mine refl))
        (λ _. wait-IsWait b events (heard changed_name owner ∷ acts) h)

-- What holds of every job that has ended.
pub record IsDone (name : Text) (d : Done) : Type 0 where
  pub owned : d.1.code ≡ 0 → is_owned name d.0 ≡ true
  pub unwatching : is_watching d.0 ≡ false
  pub nothing_left : d.1.code ≢ 0 → is_left d.0 ≡ false

clean_up-IsDone :
    (name : Text) (can_stop succeeded : Bool) (acts : List Act) (result : ActivationResult)
    → IsWait name can_stop (acts, (succeeded, result))
    → IsDone name (clean_up can_stop (acts, (succeeded, result)))
unfolding clean_up is_owned is_watching is_left
clean_up-IsDone name can_stop true acts result w = record {
  owned = λ e. w.found refl;
  unwatching = refl;
  nothing_left = λ e. absurd (e (w.told refl));
}
clean_up-IsDone name true false acts result w = record {
  owned = λ e. absurd (w.else_told refl e);
  unwatching = refl;
  nothing_left = λ e. refl;
}
clean_up-IsDone name false false acts result w = record {
  owned = λ e. absurd (w.else_told refl e);
  unwatching = refl;
  nothing_left = λ e. w.left;
}

refused :
    (name : Text) (acts : List Act) (result : ActivationResult)
    → result.code ≢ 0
    → is_watching acts ≡ false
    → is_left acts ≡ false
    → IsDone name (acts, result)
refused name acts result h k l = record {
  owned = λ e. absurd (h e);
  unwatching = k;
  nothing_left = λ e. l;
}

module _ (b : Backend) (name : Text) (route : Route) (environment : List Text) where
  after_start-IsDone :
      (acts : List Act) (answer : Result Text Bool)
      → is_left acts ≡ false
      → IsDone name (after_start b name route environment acts answer)
  unfolding after_start is_watching is_left
  after_start-IsDone acts (err m) h =
      refused name (unwatched ∷ acts) (failure 7 m) (λ e. absurd (omega arith)) refl h
  after_start-IsDone acts (ok can_stop) h =
      clean_up-IsDone name can_stop _ _ _
        (wait-IsWait name can_stop b b.events (started route environment can_stop ∷ acts) refl)

  after_watch-IsDone :
      (acts : List Act) (answer : OwnerAnswer)
      → is_left acts ≡ false
      → IsDone name (after_watch b name route environment (asked answer ∷ acts) answer)
  unfolding after_watch start_service is_watching is_left is_owned
  after_watch-IsDone acts (bus_failed m) h =
      refused name _ (failure 20 m) (λ e. absurd (omega arith)) refl h
  after_watch-IsDone acts no_owner h = after_start-IsDone (asked no_owner ∷ acts) _ h
  after_watch-IsDone acts (owned_by owner) h =
      if-intro (IsDone name) (is_empty owner)
        (λ _. after_start-IsDone (asked (owned_by owner) ∷ acts) _ h)
        (λ filled. record {
          owned = λ e. rw filled refl;
          unwatching = refl;
          nothing_left = λ e. absurd (e refl);
        })

  watch_name-IsDone :
      (answer : Option Text) → IsDone name (watch_name b name route environment answer)
  unfolding watch_name is_left is_watching
  watch_name-IsDone (some m) = refused name [] (failure 20 m) (λ e. absurd (omega arith)) refl refl
  watch_name-IsDone none = after_watch-IsDone (watched ∷ []) (b.owner (watched ∷ [])) refl

with_route-IsDone :
    (b : Backend) (name : Text) (environment : List Text) (answer : Result RouteError Route)
    → IsDone name (with_route b name environment answer)
unfolding with_route is_left is_watching
with_route-IsDone b name environment (err e) =
    refused name [] (result_from_error e) (result_from_error-fails e) refl refl
with_route-IsDone b name environment (ok route) =
    watch_name-IsDone b name route environment (b.watch [])

-- However the bus, the resolver, the starter and the events behave: a job reports success only if the
-- bus has named an owner of the name; it watches nothing when it ends; and where it reports no
-- success, nothing that it started and could stop is left.
pub activate_job-IsDone :
    (b : Backend) (name : Text) (environment : List Text)
    → IsDone name (activate_job b name environment)
unfolding activate_job
activate_job-IsDone b name environment = with_route-IsDone b name environment b.resolve
