-- ===== src/Cgroups/Settled.antt =====
-- internal/cgrouptrack/migrate.go: what a migration has done when it reports a tracked unit.
use servicectl.Base.{
  ℕ, zero, suc, ◌≡◌, refl, sym, ap, ◌∙◌, subst, ◌||◌, not, Option, none, some, List, [], ◌∷◌, ◌==◌,
  ==_iff, nat_eq, contains, Result, ok, err, if-intro, >>=-eq-ok, arith,
}
use servicectl.Base.Text.{Text}
use servicectl.Cgroups.Units.{
  UnitError, InstanceIdentity, validate, check_instance, validate_instance,
}
use servicectl.Cgroups.Descendants.{Process}
use servicectl.Cgroups.Moves.{
  Act, World, Identity, context_error, move_error, Step, move_and_verify, Snapshot,
  process_snapshot, is_foreign, ensured,
}
use servicectl.Cgroups.Migrate.{
  degraded, Done, stopped_at, not_moved, descendants_of, move_or_end, after_snapshot,
  unless_expired, rounds, after_main, after_ensure, with_main, round_limit, identity_of,
  migrate_valid, migrate,
}
use servicectl.Cgroups.Observed.{Observed, IsStep, move_and_verify-IsStep, process_snapshot-Keeps}
use servicectl.Cgroups.Moved.{
  Holds, IsMigrated, Goes, stopped-IsMigrated, move_new-IsMigrated, all_moved, not_moved-known,
}

module _ (w : World) (id : Identity) where
  module _ (next : List Act → List ℕ → List (ℕ × Text) → Done) (goes : Goes w id next) where
    move_or_end-IsMigrated :
        (told acts : List Act) (moved : List ℕ) (more skipped : List (ℕ × Text)) (ps : List Process)
        → process_snapshot w id told ≡ (acts, (more, ok ps))
        → Holds id acts moved
        → (pids : List ℕ) → not_moved moved (descendants_of id.main_pid ps) ≡ pids
        → IsMigrated w id (move_or_end w ps next acts moved skipped pids)
    unfolding move_or_end stopped_at
    move_or_end-IsMigrated told acts moved more skipped ps last h [] same = record {
      observed = h.observed;
      settled = λ _. (
        refl,
        record {
          told = told;
          skipped = more;
          processes = ps;
          last = last;
          main = h.main;
          all = all_moved w id moved ps same;
        },
      );
    }
    move_or_end-IsMigrated told acts moved more skipped ps last h (pid ∷ rest) same =
        move_new-IsMigrated w id ps next goes (pid ∷ rest)
          (λ c k. not_moved-known w id moved ps c (ap (λ l. contains l c) same ∙ k)) acts moved
          skipped h

    after_snapshot-IsMigrated :
        (told : List Act) (moved : List ℕ) (skipped : List (ℕ × Text)) (s : Snapshot)
        → process_snapshot w id told ≡ s
        → Holds id told moved
        → IsMigrated w id (after_snapshot w id next moved skipped s)
    unfolding after_snapshot
    after_snapshot-IsMigrated told moved skipped (acts, (more, err message)) last h =
        (stopped-IsMigrated w id acts moved _ (some message) (λ c o.
          subst (λ (s : Snapshot). Observed c s.0) last
            (process_snapshot-Keeps w id c told (h.observed c o)))).1
    after_snapshot-IsMigrated told moved skipped (acts, (more, ok ps)) last h =
        move_or_end-IsMigrated told acts moved more _ ps last
          record {
            observed = λ c o.
                subst (λ (s : Snapshot). Observed c s.0) last
                  (process_snapshot-Keeps w id c told (h.observed c o));
            main = h.main;
          }
          _ refl

  unless_expired-IsMigrated :
      (next : List Act → Done) (acts : List Act) (moved : List ℕ) (skipped : List (ℕ × Text))
      → Holds id acts moved
      → IsMigrated w id (next acts)
      → (e : Option Text) → IsMigrated w id (unless_expired next acts moved skipped e)
  unfolding unless_expired
  unless_expired-IsMigrated next acts moved skipped h i none = i
  unless_expired-IsMigrated next acts moved skipped h i (some message) =
      (stopped-IsMigrated w id acts moved skipped (some message) h.observed).0

  rounds-IsMigrated : (n : ℕ) → Goes w id (rounds w id n)
  unfolding rounds Goes
  rounds-IsMigrated zero acts moved skipped h =
      (stopped-IsMigrated w id acts moved skipped _ h.observed).0
  rounds-IsMigrated (suc n) acts moved skipped h =
      unless_expired-IsMigrated
        (λ told. after_snapshot w id (rounds w id n) moved skipped (process_snapshot w id told))
        acts moved skipped h
        (after_snapshot-IsMigrated (rounds w id n) (rounds-IsMigrated n) acts moved skipped
          (process_snapshot w id acts) refl h)
        (w.expired acts)

  -- Before the first process is moved.
  degraded-IsMigrated :
      (acts : List Act) (e : Option Text) → IsMigrated w id (stopped_at degraded acts [] [] e)
  unfolding contains
  degraded-IsMigrated acts e = (stopped-IsMigrated w id acts [] [] e (λ c h. absurd cc)).1

  after_main-IsMigrated :
      (n pid : ℕ) (acts : List Act) (s : Step)
      → pid ≡ id.main_pid
      → IsStep acts pid s
      → IsMigrated w id (after_main w id n pid s)
  unfolding after_main Goes contains
  after_main-IsMigrated n pid acts (told, none) same i =
      rounds-IsMigrated n told (pid ∷ []) [] record {
        observed =
            λ c o. subst (λ k. Observed k told) ((==_iff pid c).0 (ground arith)) (i.found refl);
        main = ground (arith, ==_iff pid id.main_pid, same);
      }
  after_main-IsMigrated n pid acts (told, some (context_error m)) same i =
      degraded-IsMigrated told _
  after_main-IsMigrated n pid acts (told, some (move_error m)) same i = degraded-IsMigrated told _

  after_ensure-IsMigrated :
      (n : ℕ) (p : Process)
      → p.pid ≡ id.main_pid
      → (acts : List Act) (e : Option Text) → IsMigrated w id (after_ensure w id n p acts e)
  unfolding after_ensure
  after_ensure-IsMigrated n p same acts (some message) = degraded-IsMigrated acts _
  after_ensure-IsMigrated n p same acts none =
      after_main-IsMigrated n p.pid acts (move_and_verify w p acts) same
        (move_and_verify-IsStep w p acts)

  with_main-IsMigrated :
      (n : ℕ) (acts : List Act) (answer : Result Text Process)
      → ((p : Process) → answer ≡ ok p → p.pid ≡ id.main_pid)
      → IsMigrated w id (with_main w id n acts answer)
  unfolding with_main
  with_main-IsMigrated n acts (err message) named = degraded-IsMigrated acts _
  with_main-IsMigrated n acts (ok p) named =
      if-intro (IsMigrated w id) (not (p.start_time == id.main_start_time) || is_foreign id p)
        (λ _. degraded-IsMigrated acts _)
        (λ _. after_ensure-IsMigrated n p (named p refl) (ensured ∷ acts) (w.ensure acts))

-- What is accepted is the run that was checked.
validate_instance-same : (i j : InstanceIdentity) → validate_instance i ≡ ok j → i ≡ j
unfolding validate_instance check_instance
validate_instance-same i j h =
    let (n, valid, last) = >>=-eq-ok (validate i.key) (λ _. check_instance i) h in ground arith

-- Where Inspect answers for the process that it is asked for: a process that Migrate reports as
-- moved was seen in the unit's control group; and where Migrate reports the unit as tracked, there
-- is no error, and the last snapshot of the processes, after which nothing else was called, has no
-- descendant of the main process that was not moved, and the main process was moved.
pub migrate-IsMigrated :
    (w : World) (print : UnitError → Text) (i : InstanceIdentity)
    → ((acts : List Act) (pid : ℕ) (p : Process) → w.inspect acts pid ≡ ok p → p.pid ≡ pid)
    → (max_rounds : ℕ) → IsMigrated w (identity_of i) (migrate w print i max_rounds)
unfolding migrate
migrate-IsMigrated w print i named max_rounds = go (validate_instance i) refl
  where
    go :
        (r : Result UnitError InstanceIdentity)
        → validate_instance i ≡ r
        → IsMigrated w (identity_of i) (migrate_valid w print max_rounds r)
    go (err e) h = degraded-IsMigrated w (identity_of i) [] (some (print e))
    go (ok j) h =
        subst (λ k. IsMigrated w (identity_of k) (migrate_valid w print max_rounds (ok j)))
          (sym (validate_instance-same i j h))
          (with_main-IsMigrated w (identity_of j) (round_limit max_rounds) _
            (w.inspect [] j.main_pid) (named [] j.main_pid))
