-- ===== src/Cgroups/Moves.antt =====
-- internal/cgrouptrack/migrate.go: one process is moved and looked for in the control group, and the
-- snapshot of the processes. The process table, the control groups and the clock are outside.
use servicectl.Base.{
  ℕ, Bool, false, ◌&&◌, not, Option, none, some, List, [], ◌∷◌, ◌++◌, ◌==◌, nat_eq, ltb, Result, ok,
  err, if◌then◌else◌,
}
use servicectl.Base.Sort.{sort_by}
use servicectl.Base.Text.{Text, text, text_eq}
use servicectl.Cgroups.Descendants.{Process}

pub data Act : Type 0 where
  inspected : ℕ → Act
  listed_pids : Act
  ensured : Act
  moved_pid : ℕ → Act
  listed_group : ℕ → Result Text (List ℕ) → Act

-- What is outside, each answer according to the calls so far, the last first.
pub record World : Type 0 where
  pub inspect : List Act → ℕ → Result Text Process
  pub list_pids : List Act → Result Text (List ℕ)
  pub ensure : List Act → Option Text
  pub move_pid : List Act → ℕ → Option Text
  pub pids : List Act → Result Text (List ℕ)
  pub expired : List Act → Option Text

-- Whose processes are moved, with the owner that they have to have, for a unit of a user.
pub record Identity : Type 0 where
  pub main_pid : ℕ
  pub main_start_time : ℕ
  pub owner : Option ℕ

-- Why a process was not moved; the first kind ends the migration.
pub data MoveError : Type 0 where
  context_error : Text → MoveError
  move_error : Text → MoveError

-- The calls so far, and an error if there was one.
abbrev pub Step : Type 0
Step = List Act × Option MoveError

abbrev pub identity_changed : Text
identity_changed = text "process identity changed"

unfoldable pub same_process : Process → Process → Bool
same_process p q = p.start_time == q.start_time && p.uid == q.uid

-- `sort.SearchInts` in ids that are sorted, as PIDs returns them: the first that is not smaller.
unfoldable pub is_found : ℕ → List ℕ → Bool
is_found pid [] = false
is_found pid (p ∷ rest) = let later = is_found pid rest in if ltb p pid then later else p == pid

unfoldable pub after_listing : ℕ → List Act → Result Text (List ℕ) → Step
unfolding is_found
after_listing pid acts (err message) = (acts, some (move_error message))
after_listing pid acts (ok pids) =
    if is_found pid pids
    then (acts, none)
    else (acts, some (move_error (text "cgroup membership was not observed")))

unfoldable pub list_group : World → ℕ → List Act → Step
unfolding after_listing
list_group w pid acts =
    let answer = w.pids acts in after_listing pid (listed_group pid answer ∷ acts) answer

-- The next step where the process is still the one that was found.
unfoldable pub if_same : Process → (List Act → Step) → List Act → Result Text Process → Step
unfolding same_process
if_same before next acts (err message) = (acts, some (move_error message))
if_same before next acts (ok now) =
    let rest = next acts in
    if same_process now before then rest else (acts, some (move_error identity_changed))

unfoldable pub check_after : World → Process → List Act → Step
unfolding if_same list_group
check_after w before acts =
    if_same before (list_group w before.pid) (inspected before.pid ∷ acts)
      (w.inspect acts before.pid)

unfoldable pub after_move : World → Process → List Act → Option Text → Step
unfolding check_after
after_move w before acts (some message) = (acts, some (move_error message))
after_move w before acts none = check_after w before acts

unfoldable pub move_process : World → Process → List Act → Step
unfolding after_move
move_process w before acts =
    after_move w before (moved_pid before.pid ∷ acts) (w.move_pid acts before.pid)

unfoldable pub move_unless : World → Process → List Act → Option Text → Step
unfolding if_same move_process
move_unless w before acts (some message) = (acts, some (context_error message))
move_unless w before acts none =
    if_same before (move_process w before) (inspected before.pid ∷ acts) (w.inspect acts before.pid)

unfoldable pub move_and_verify : World → Process → List Act → Step
unfolding move_unless
move_and_verify w before acts = move_unless w before acts (w.expired acts)

-- A snapshot: the calls, what was skipped, and the processes or an error.
abbrev pub Snapshot : Type 0
Snapshot = List Act × (List (ℕ × Text) × Result Text (List Process))

unfoldable pub is_foreign : Identity → Process → Bool
is_foreign id p = elim id.owner [ none ↦ false | some uid ↦ not (p.uid == uid) ]

-- One id of the table.
unfoldable pub add_process :
    Identity
    → (List (ℕ × Text) → List Process → Snapshot)
    → ℕ
    → List Act
    → List (ℕ × Text)
    → List Process
    → Result Text Process
    → Snapshot
unfolding is_foreign
add_process id next pid acts skipped found (err message) =
    let rest = next (skipped ++ ((pid, message) ∷ [])) found in
    if pid == id.main_pid then (acts, (skipped, err message)) else rest
add_process id next pid acts skipped found (ok p) =
    let without =
      next (skipped ++ ((pid, text "process UID does not match user service") ∷ [])) found in
    let with_it = next skipped (found ++ (p ∷ [])) in if is_foreign id p then without else with_it

unfoldable pub inspect_all :
    World → Identity → List ℕ → List Act → List (ℕ × Text) → List Process → Snapshot
unfolding add_process
inspect_all w id [] acts skipped found =
    (acts, (skipped, ok (sort_by (λ p q. ltb p.pid q.pid) found)))
inspect_all w id (pid ∷ rest) acts skipped found =
    let told = inspected pid ∷ acts in
    add_process id (inspect_all w id rest told) pid told skipped found (w.inspect acts pid)

unfoldable pub inspect_listed : World → Identity → List Act → Result Text (List ℕ) → Snapshot
unfolding inspect_all
inspect_listed w id acts (err message) = (acts, ([], err message))
inspect_listed w id acts (ok pids) = inspect_all w id pids acts [] []

unfoldable pub process_snapshot : World → Identity → List Act → Snapshot
unfolding inspect_listed
process_snapshot w id acts = inspect_listed w id (listed_pids ∷ acts) (w.list_pids acts)
