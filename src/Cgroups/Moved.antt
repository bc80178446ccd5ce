-- ===== src/Cgroups/Moved.antt =====
-- internal/cgrouptrack/migrate.go: what holds of a migration while it moves processes.
use servicectl.Base.{
  ℕ, suc, ◌≡◌, ◌↔◌, refl, sym, ap, subst, true, ◌&&◌, ◌||◌, not, Option, none, some, List, [], ◌∷◌,
  ◌++◌, map, length, ◌==◌, ==_iff, nat_eq, Map, get_or, put, get_or-put, contains, contains-append,
  ok, arith, inl, inr, Bool-cases,
}
use servicectl.Base.Text.{Text}
use servicectl.Cgroups.Descendants.{Process}
use servicectl.Cgroups.Reached.{Descends, Descends-pid, pid_of, descendants-Descends}
use servicectl.Cgroups.Moves.{
  Act, World, Identity, context_error, move_error, Step, move_and_verify, process_snapshot,
}
use servicectl.Cgroups.Migrate.{
  tracked, partial, degraded, Done, stopped_at, after_attempt, by_pid, no_process, move_new,
  not_moved, descendants_of,
}
use servicectl.Cgroups.Observed.{Observed, IsStep, move_and_verify-IsStep}

by_pid-pid :
    (ps : List Process) (m : Map ℕ Process) (pid : ℕ)
    → (contains (map pid_of ps) pid || (get_or m pid no_process).pid == pid) ≡ true
    → (get_or (by_pid m ps) pid no_process).pid ≡ pid
unfolding by_pid contains pid_of
by_pid-pid [] m pid h = ground arith
by_pid-pid (p ∷ ps) m pid h =
    by_pid-pid ps (put m p.pid p) pid (ground (arith, get_or-put m p.pid pid p no_process))

-- The descendants that are found.
descendants_of-contains :
    (root : ℕ) (ps : List Process) (c : ℕ)
    → (contains (descendants_of root ps) c ≡ true) ↔ Descends root ps c
unfolding descendants_of
descendants_of-contains root ps c =
    let (found, h, d, iff) = descendants-Descends (suc (length ps)) root ps (omega arith) in
    subst (λ o. (contains (elim o [ none ↦ [] | some f ↦ f ]) c ≡ true) ↔ Descends root ps c)
      (sym h) (iff c)

not_moved-contains :
    (moved pids : List ℕ) (c : ℕ)
    → contains (not_moved moved pids) c ≡ (contains pids c && not (contains moved c))
unfolding not_moved contains
not_moved-contains moved [] c = refl
not_moved-contains moved (pid ∷ rest) c = ground (arith, not_moved-contains moved rest c)

-- What holds of the calls and the moved processes in every round.
pub record Holds (id : Identity) (acts : List Act) (moved : List ℕ) : Type 0 where
  pub observed : (c : ℕ) → contains moved c ≡ true → Observed c acts
  pub main : contains moved id.main_pid ≡ true

-- The last snapshot shows no process of the unit that was not moved.
pub record IsSettled (w : World) (id : Identity) (d : Done) : Type 0 where
  pub told : List Act
  pub skipped : List (ℕ × Text)
  pub processes : List Process
  pub last : process_snapshot w id told ≡ (d.0, (skipped, ok processes))
  pub main : contains d.1.moved id.main_pid ≡ true
  pub all : (c : ℕ) → Descends id.main_pid processes c → contains d.1.moved c ≡ true

pub record IsMigrated (w : World) (id : Identity) (d : Done) : Type 0 where
  pub observed : (c : ℕ) → contains d.1.moved c ≡ true → Observed c d.0
  pub settled : d.1.state ≡ tracked → (d.1.error ≡ none) × IsSettled w id d

-- A step of the loop that hands on to `next`.
unfoldable pub Goes : World → Identity → (List Act → List ℕ → List (ℕ × Text) → Done) → Type 0
Goes w id next =
    (acts : List Act) (moved : List ℕ) (skipped : List (ℕ × Text))
    → Holds id acts moved
    → IsMigrated w id (next acts moved skipped)

module _ (w : World) (id : Identity) where
  pub stopped-IsMigrated :
      (acts : List Act) (moved : List ℕ) (skipped : List (ℕ × Text)) (e : Option Text)
      → ((c : ℕ) → contains moved c ≡ true → Observed c acts)
      → IsMigrated w id (stopped_at partial acts moved skipped e)
        × IsMigrated w id (stopped_at degraded acts moved skipped e)
  unfolding stopped_at
  stopped-IsMigrated acts moved skipped e o = (
    record { observed = o; settled = λ h. absurd cc },
    record { observed = o; settled = λ h. absurd cc },
  )

  pub after_attempt-IsMigrated :
      (next : List Act → List ℕ → List (ℕ × Text) → Done)
      → Goes w id next
      → (pid : ℕ) (acts : List Act) (moved : List ℕ) (skipped : List (ℕ × Text)) (s : Step)
      → Holds id acts moved
      → IsStep acts pid s
      → IsMigrated w id (after_attempt next pid moved skipped s)
  unfolding after_attempt Goes contains
  after_attempt-IsMigrated next goes pid acts moved skipped (told, none) h i =
      goes told (moved ++ (pid ∷ [])) skipped record {
        observed = λ c o. elim (Bool-cases (contains moved c)) [
          | inl old ↦ i.keeps c (h.observed c old)
          | inr new ↦
              subst (λ k. Observed k told)
                ((==_iff pid c).0 (ground (arith, contains-append moved (pid ∷ []) c)))
                (i.found refl)
        ];
        main = ground (arith, contains-append moved (pid ∷ []) id.main_pid, h.main);
      }
  after_attempt-IsMigrated next goes pid acts moved skipped (told, some (context_error m)) h i =
      (stopped-IsMigrated told moved skipped (some m) (λ c o. i.keeps c (h.observed c o))).0
  after_attempt-IsMigrated next goes pid acts moved skipped (told, some (move_error m)) h i =
      goes told moved _ record { observed = λ c o. i.keeps c (h.observed c o); main = h.main }

  pub move_new-IsMigrated :
      (ps : List Process) (next : List Act → List ℕ → List (ℕ × Text) → Done)
      → Goes w id next
      → (pids : List ℕ) → ((c : ℕ) → contains pids c ≡ true → contains (map pid_of ps) c ≡ true)
      → (acts : List Act) (moved : List ℕ) (skipped : List (ℕ × Text)) → Holds id acts moved
      → IsMigrated w id (move_new w ps pids next acts moved skipped)
  unfolding move_new Goes contains
  move_new-IsMigrated ps next goes [] known acts moved skipped h = goes acts moved skipped h
  move_new-IsMigrated ps next goes (pid ∷ rest) known acts moved skipped h =
      let p = get_or (by_pid [] ps) pid no_process in
      let same : p.pid ≡ pid = by_pid-pid ps [] pid (ground (arith, known pid)) in
      let step =
        subst (λ k. IsStep acts k (move_and_verify w p acts)) same
          (move_and_verify-IsStep w p acts) in
      after_attempt-IsMigrated (move_new w ps rest next)
        (move_new-IsMigrated ps next goes rest (λ c k. known c (ground arith))) pid acts moved
        skipped (move_and_verify w p acts) h step

  -- Nothing new: all descendants were moved before.
  pub all_moved :
      (moved : List ℕ) (ps : List Process)
      → not_moved moved (descendants_of id.main_pid ps) ≡ []
      → (c : ℕ) → Descends id.main_pid ps c
      → contains moved c ≡ true
  unfolding contains
  all_moved moved ps empty c d = ground (
    arith,
    not_moved-contains moved (descendants_of id.main_pid ps) c,
    ap (λ l. contains l c) empty,
    (descendants_of-contains id.main_pid ps c).1 d,
  )

  pub not_moved-known :
      (moved : List ℕ) (ps : List Process) (c : ℕ)
      → contains (not_moved moved (descendants_of id.main_pid ps)) c ≡ true
      → contains (map pid_of ps) c ≡ true
  not_moved-known moved ps c k = Descends-pid id.main_pid ps (
      (descendants_of-contains id.main_pid ps c).0
        (ground (arith, not_moved-contains moved (descendants_of id.main_pid ps) c)))
