-- ===== src/Cgroups/Observed.antt =====
-- internal/cgrouptrack/migrate.go: a process that was moved has been seen in the control group.
use servicectl.Base.{
  ℕ, ◌≡◌, true, Option, none, some, List, [], ◌∷◌, ◌==◌, nat_eq, contains, Result, ok, err,
  if-intro, arith,
}
use servicectl.Base.Text.{Text}
use servicectl.Cgroups.Descendants.{Process}
use servicectl.Cgroups.Moves.{
  Act, listed_group, inspected, World, Identity, MoveError, move_error, Step, same_process,
  identity_changed, is_foreign, is_found, after_listing, list_group, if_same, check_after,
  after_move, move_process, move_unless, move_and_verify, Snapshot, add_process, inspect_all,
  inspect_listed, process_snapshot,
}

-- The control group was listed with the process in it.
pub data Observed (pid : ℕ) : List Act → Type 0 where
  now :
      (pids : List ℕ) (acts : List Act)
      → contains pids pid ≡ true
      → Observed pid (listed_group pid (ok pids) ∷ acts)
  before : (a : Act) (acts : List Act) → Observed pid acts → Observed pid (a ∷ acts)

is_found-contains : (pid : ℕ) (pids : List ℕ) → is_found pid pids ≡ true → contains pids pid ≡ true
unfolding is_found contains
is_found-contains pid [] h = h
is_found-contains pid (p ∷ rest) h = ground (arith, is_found-contains pid rest)

-- A step that forgets nothing, and ends without an error only where the process was seen.
pub record IsStep (acts : List Act) (pid : ℕ) (s : Step) : Type 0 where
  pub keeps : (c : ℕ) → Observed c acts → Observed c s.0
  pub found : s.1 ≡ none → Observed pid s.0

module _ (pid : ℕ) where
  later : (a : Act) (acts : List Act) (s : Step) → IsStep (a ∷ acts) pid s → IsStep acts pid s
  later a acts s i = record { keeps = λ c o. i.keeps c (before a acts o); found = i.found }

  failed-IsStep : (acts : List Act) (e : MoveError) → IsStep acts pid (acts, some e)
  failed-IsStep acts e = record { keeps = λ c o. o; found = λ h. absurd cc }

  after_listing-IsStep :
      (acts : List Act) (answer : Result Text (List ℕ))
      → IsStep acts pid (after_listing pid (listed_group pid answer ∷ acts) answer)
  unfolding after_listing
  after_listing-IsStep acts (err message) =
      later _ acts _ (failed-IsStep (listed_group pid (err message) ∷ acts) _)
  after_listing-IsStep acts (ok pids) =
      if-intro (IsStep acts pid) (is_found pid pids)
        (λ h. record {
          keeps = λ c o. before _ acts o;
          found = λ _. now pids acts (is_found-contains pid pids h);
        })
        (λ h. later _ acts _ (failed-IsStep (listed_group pid (ok pids) ∷ acts) _))

  if_same-IsStep :
      (p : Process) (next : List Act → Step) (acts : List Act)
      → IsStep acts pid (next acts)
      → (answer : Result Text Process) → IsStep acts pid (if_same p next acts answer)
  unfolding if_same
  if_same-IsStep p next acts i (err message) = failed-IsStep acts _
  if_same-IsStep p next acts i (ok q) =
      if-intro (IsStep acts pid) (same_process q p) (λ h. i)
        (λ h. failed-IsStep acts (move_error identity_changed))

module _ (w : World) (p : Process) where
  check_after-IsStep : (acts : List Act) → IsStep acts p.pid (check_after w p acts)
  unfolding check_after list_group
  check_after-IsStep acts = later p.pid _ acts _ (
      if_same-IsStep p.pid p (list_group w p.pid) _ (after_listing-IsStep p.pid _ _)
        (w.inspect acts p.pid))

  after_move-IsStep :
      (acts : List Act) (e : Option Text) → IsStep acts p.pid (after_move w p acts e)
  unfolding after_move
  after_move-IsStep acts (some message) = failed-IsStep p.pid acts _
  after_move-IsStep acts none = check_after-IsStep acts

  move_unless-IsStep :
      (acts : List Act) (e : Option Text) → IsStep acts p.pid (move_unless w p acts e)
  unfolding move_unless move_process
  move_unless-IsStep acts (some message) = failed-IsStep p.pid acts _
  move_unless-IsStep acts none = later p.pid _ acts _ (
      if_same-IsStep p.pid p (move_process w p) _
        (later p.pid _ _ _ (after_move-IsStep _ (w.move_pid (inspected p.pid ∷ acts) p.pid)))
        (w.inspect acts p.pid))

  pub move_and_verify-IsStep : (acts : List Act) → IsStep acts p.pid (move_and_verify w p acts)
  unfolding move_and_verify
  move_and_verify-IsStep acts = move_unless-IsStep acts (w.expired acts)

-- A snapshot forgets nothing.
module _ (w : World) (id : Identity) (c : ℕ) where
  add_process-Keeps :
      (next : List (ℕ × Text) → List Process → Snapshot) (pid : ℕ) (acts : List Act)
      → Observed c acts
      → ((skipped : List (ℕ × Text)) (found : List Process) → Observed c (next skipped found).0)
      → (skipped : List (ℕ × Text)) (found : List Process) (answer : Result Text Process)
      → Observed c (add_process id next pid acts skipped found answer).0
  unfolding add_process
  add_process-Keeps next pid acts o onwards skipped found (err message) =
      if-intro (λ (s : Snapshot). Observed c s.0) (pid == id.main_pid) (λ _. o)
        (λ _. onwards _ found)
  add_process-Keeps next pid acts o onwards skipped found (ok p) =
      if-intro (λ (s : Snapshot). Observed c s.0) (is_foreign id p) (λ _. onwards _ found)
        (λ _. onwards skipped _)

  inspect_all-Keeps :
      (pids : List ℕ) (acts : List Act) (skipped : List (ℕ × Text)) (found : List Process)
      → Observed c acts
      → Observed c (inspect_all w id pids acts skipped found).0
  unfolding inspect_all
  inspect_all-Keeps [] acts skipped found o = o
  inspect_all-Keeps (pid ∷ rest) acts skipped found o =
      add_process-Keeps (inspect_all w id rest (inspected pid ∷ acts)) pid _ (before _ acts o)
        (λ more next. inspect_all-Keeps rest _ more next (before _ acts o)) skipped found
        (w.inspect acts pid)

  inspect_listed-Keeps :
      (acts : List Act) (answer : Result Text (List ℕ))
      → Observed c acts
      → Observed c (inspect_listed w id acts answer).0
  unfolding inspect_listed
  inspect_listed-Keeps acts (err message) o = o
  inspect_listed-Keeps acts (ok pids) o = inspect_all-Keeps pids acts [] [] o

  pub process_snapshot-Keeps :
      (acts : List Act) → Observed c acts → Observed c (process_snapshot w id acts).0
  unfolding process_snapshot
  process_snapshot-Keeps acts o = inspect_listed-Keeps _ (w.list_pids acts) (before _ acts o)
