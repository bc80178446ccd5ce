-- ===== src/Cgroups/Migrate.antt =====
-- internal/cgrouptrack/migrate.go: the processes of a unit are moved into its control group, round by
-- round. How an error is printed is outside; a migrator that lacks its table or groups is left out.
use servicectl.Base.{
  ℕ, zero, suc, ◌||◌, not, Option, none, some, List, [], ◌∷◌, ◌++◌, length, ◌==◌, nat_eq, Map,
  get_or, put, contains, Result, ok, err, if◌then◌else◌,
}
use servicectl.Base.Text.{Text, text, text_eq}
use servicectl.Cgroups.Descendants.{Process, descendants}
use servicectl.Cgroups.Units.{UnitError, InstanceIdentity, validate_instance}
use servicectl.Cgroups.Moves.{
  Act, World, Identity, Step, identity_changed, move_and_verify, Snapshot, is_foreign,
  process_snapshot, inspected, ensured, context_error, move_error,
}

pub data State : Type 0 where
  tracked : State
  partial : State
  degraded : State

pub record Migration : Type 0 where
  pub state : State
  pub moved : List ℕ
  pub skipped : List (ℕ × Text)
  pub error : Option Text

-- The calls and the result of a migration.
abbrev pub Done : Type 0
Done = List Act × Migration

unfoldable pub stopped_at : State → List Act → List ℕ → List (ℕ × Text) → Option Text → Done
stopped_at state acts moved skipped error =
    (acts, record { state = state; moved = moved; skipped = skipped; error = error })

-- A process after an attempt to move it, with what follows.
unfoldable pub after_attempt :
    (List Act → List ℕ → List (ℕ × Text) → Done) → ℕ → List ℕ → List (ℕ × Text) → Step → Done
unfolding stopped_at
after_attempt next pid moved skipped (acts, none) = next acts (moved ++ (pid ∷ [])) skipped
after_attempt next pid moved skipped (acts, some (context_error message)) =
    stopped_at partial acts moved skipped (some message)
after_attempt next pid moved skipped (acts, some (move_error message)) =
    next acts moved (skipped ++ ((pid, message) ∷ []))

unfoldable pub by_pid : Map ℕ Process → List Process → Map ℕ Process
by_pid m [] = m
by_pid m (p ∷ rest) = by_pid (put m p.pid p) rest

abbrev pub no_process : Process
no_process = record { pid = 0; ppid = 0; uid = 0; start_time = 0 }

unfoldable pub move_new :
    World
    → List Process
    → List ℕ
    → (List Act → List ℕ → List (ℕ × Text) → Done)
    → List Act
    → List ℕ
    → List (ℕ × Text)
    → Done
unfolding after_attempt by_pid
move_new w ps [] next acts moved skipped = next acts moved skipped
move_new w ps (pid ∷ rest) next acts moved skipped =
    after_attempt (move_new w ps rest next) pid moved skipped
      (move_and_verify w (get_or (by_pid [] ps) pid no_process) acts)

unfoldable pub not_moved : List ℕ → List ℕ → List ℕ
not_moved moved [] = []
not_moved moved (pid ∷ rest) =
    let more = not_moved moved rest in if contains moved pid then more else pid ∷ more

-- `Descendants`, whose search has fuel of one more than the processes.
unfoldable pub descendants_of : ℕ → List Process → List ℕ
descendants_of root ps = elim (descendants (suc (length ps)) root ps) [
  | none ↦ []
  | some found ↦ found
]

unfoldable pub move_or_end :
    World
    → List Process
    → (List Act → List ℕ → List (ℕ × Text) → Done)
    → List Act
    → List ℕ
    → List (ℕ × Text)
    → List ℕ
    → Done
unfolding move_new stopped_at
move_or_end w ps next acts moved skipped [] = stopped_at tracked acts moved skipped none
move_or_end w ps next acts moved skipped (pid ∷ rest) =
    move_new w ps (pid ∷ rest) next acts moved skipped

unfoldable pub after_snapshot :
    World
    → Identity
    → (List Act → List ℕ → List (ℕ × Text) → Done)
    → List ℕ
    → List (ℕ × Text)
    → Snapshot
    → Done
unfolding move_or_end not_moved descendants_of stopped_at
after_snapshot w id next moved skipped (acts, (more, err message)) =
    stopped_at degraded acts moved (skipped ++ more) (some message)
after_snapshot w id next moved skipped (acts, (more, ok ps)) =
    move_or_end w ps next acts moved (skipped ++ more)
      (not_moved moved (descendants_of id.main_pid ps))

unfoldable pub unless_expired :
    (List Act → Done) → List Act → List ℕ → List (ℕ × Text) → Option Text → Done
unfolding stopped_at
unless_expired next acts moved skipped none = next acts
unless_expired next acts moved skipped (some message) =
    stopped_at partial acts moved skipped (some message)

-- The rounds, at most as many as their limit.
unfoldable pub rounds : World → Identity → ℕ → List Act → List ℕ → List (ℕ × Text) → Done
unfolding after_snapshot unless_expired
rounds w id zero acts moved skipped =
    stopped_at partial acts moved skipped
      (some (text "migration did not converge within round limit"))
rounds w id (suc n) acts moved skipped =
    unless_expired
      (λ told. after_snapshot w id (rounds w id n) moved skipped (process_snapshot w id told)) acts
      moved skipped (w.expired acts)

unfoldable pub after_main : World → Identity → ℕ → ℕ → Step → Done
unfolding rounds stopped_at
after_main w id n pid (acts, none) = rounds w id n acts (pid ∷ []) []
after_main w id n pid (acts, some (context_error message)) =
    stopped_at degraded acts [] [] (some message)
after_main w id n pid (acts, some (move_error message)) =
    stopped_at degraded acts [] [] (some message)

unfoldable pub after_ensure : World → Identity → ℕ → Process → List Act → Option Text → Done
unfolding after_main stopped_at
after_ensure w id n main acts (some message) = stopped_at degraded acts [] [] (some message)
after_ensure w id n main acts none = after_main w id n main.pid (move_and_verify w main acts)

unfoldable pub with_main : World → Identity → ℕ → List Act → Result Text Process → Done
unfolding after_ensure stopped_at is_foreign
with_main w id n acts (err message) = stopped_at degraded acts [] [] (some message)
with_main w id n acts (ok main) =
    if not (main.start_time == id.main_start_time) || is_foreign id main
    then stopped_at degraded acts [] [] (some identity_changed)
    else after_ensure w id n main (ensured ∷ acts) (w.ensure acts)

-- `MaxRounds`, or 8 where it is not positive.
unfoldable pub round_limit : ℕ → ℕ
round_limit zero = 8
round_limit (suc n) = suc n

-- What a migration reads of the run of a unit.
unfoldable pub identity_of : InstanceIdentity → Identity
identity_of i = record {
  main_pid = i.main_pid;
  main_start_time = i.main_pid_start_time;
  owner = if i.key.mode == text "user" then some i.key.uid else none;
}

unfoldable pub migrate_valid :
    World → (UnitError → Text) → ℕ → Result UnitError InstanceIdentity → Done
unfolding with_main round_limit stopped_at identity_of
migrate_valid w print max_rounds (err e) = stopped_at degraded [] [] [] (some (print e))
migrate_valid w print max_rounds (ok i) =
    let id = identity_of i in
    with_main w id (round_limit max_rounds) (inspected id.main_pid ∷ []) (w.inspect [] id.main_pid)

unfoldable pub migrate : World → (UnitError → Text) → InstanceIdentity → ℕ → Done
unfolding migrate_valid validate_instance
migrate w print i max_rounds = migrate_valid w print max_rounds (validate_instance i)
