-- ===== src/Orchestrd/Sync.antt =====
-- Proofs about initialSync of cmd/sys-orchestrd/main.go: how often it runs servicectl, and what it
-- does once the fuse is open.
use servicectl.Base.{
  ℕ, zero, suc, Bool, true, false, List, ◌+◌, ◌≤◌, ◌≡◌, refl, ◌∙◌, sym, subst, Result, ok, err,
  if-intro, arith, ◌⊎◌, inl, inr, Bool-cases,
}
use servicectl.Base.Text.{Text, text}
use servicectl.Orchestrd.Daemon.{Daemon, OperationError, Effect, asked_unit, does}
use servicectl.Orchestrd.Fuse.{attempt_start_with_retry}
use servicectl.Orchestrd.World.{
  World, Reply, UnitSnapshot, answered, unreachable, refused, garbled, read_unit, run_servicectl,
  query_unit, snapshot_is_running,
}
use servicectl.Orchestrd.Handlers.{sync_unit, initial_sync}
use servicectl.Orchestrd.Stable.{refresh_groups-Stable, sync_unit-Stable}
use servicectl.Orchestrd.Counter.{IsFuseConsistent, IsFuseConsistent-Stable, writes}
use servicectl.Orchestrd.Retry.{runs, Settled, below_bound, attempt_start_with_retry-Settled}
use servicectl.Orchestrd.Kept.{
  Kept, write_state-Kept, ready, ready-Kept, running-Kept, sync_unit-fused, initial_sync-fused,
}

-- A round with a closed fuse: it ran nothing, or it ran at most what the counter is short of the
-- bound, and the fuse is open if that did not start the unit.
Round : Daemon → Daemon × Bool → Type 0
Round d r =
    Kept d (r.0)
    ⊎ ((runs r.0.log + d.failure_count ≤ runs d.log + d.max_failures)
        × (r.1 ≡ false → r.0.fused ≡ true))

attempt-Round :
    (w : World) (before d : Daemon)
    → IsFuseConsistent d
    → d.fused ≡ false
    → Kept before d
    → Round before (attempt_start_with_retry (run_servicectl w (text "start")) d)
unfolding Round
attempt-Round w before d c closed k = elim (Bool-cases (r.1)) [
  | inl done ↦ inr (
    ground (arith, (s.succeeded done).2, k.count, k.bound, k.ran),
    λ h. absurd (differ (sym done ∙ h)),
  )
  | inr failed ↦
      inr (ground (arith, (s.gave_up failed).1, k.count, k.bound, k.ran), λ _. (s.gave_up failed).0)
]
  where
    r : Daemon × Bool
    r = attempt_start_with_retry (run_servicectl w (text "start")) d

    s : Settled d r
    s = attempt_start_with_retry-Settled w (text "start") d c closed

    differ : true ≡ false → ⊥
    differ h = cc

sync_unit-Round :
    (w : World) (d : Daemon) (r : Result OperationError UnitSnapshot)
    → IsFuseConsistent d
    → d.fused ≡ false
    → Round d (sync_unit w d r)
unfolding sync_unit Round
sync_unit-Round w d (err e) c closed = inl (write_state-Kept _ _ d)
sync_unit-Round w d (ok snapshot) c closed =
    if-intro (Round d) (snapshot_is_running snapshot) (λ _. inl (running-Kept w d))
      (λ _.
        attempt-Round w d (ready w d)
          (refresh_groups-Stable IsFuseConsistent IsFuseConsistent-Stable w _
            (IsFuseConsistent-Stable.announces _ _ d c))
          ((ready-Kept w d).fused ∙ closed) (ready-Kept w d))

-- A bound on the runs by what the counter is short of its bound.
abbrev Bounded : Daemon → Daemon → Type 0
Bounded d r = runs r.log + d.failure_count ≤ runs d.log + d.max_failures

Round-Bounded :
    (d : Daemon) (r : Daemon × Bool)
    → IsFuseConsistent d
    → d.fused ≡ false
    → Round d r
    → Bounded d (r.0)
unfolding Round
Round-Bounded d r c closed (inl k) = ground (arith, k.ran, below_bound d c closed)
Round-Bounded d r c closed (inr (bound, _)) = bound

-- The rounds that follow a round that did not start the unit.
next-Round :
    (w : World) (rounds : ℕ) (d : Daemon) (r : Daemon × Bool)
    → (r.0.fused ≡ false → Bounded (r.0) ((initial_sync w rounds (r.0)).0))
    → d.fused ≡ false
    → r.1 ≡ false
    → Round d r
    → Bounded d ((initial_sync w rounds (r.0)).0)
unfolding Round
next-Round w rounds d r again closed going (inl k) =
    ground (arith, again (k.fused ∙ closed), k.ran, k.count, k.bound)
next-Round w rounds d r again closed going (inr (bound, opens)) =
    ground (arith, bound, (initial_sync-fused w rounds (r.0) (opens going)).ran)

-- The synchronisation of a unit runs servicectl at most as often as the counter is short of the
-- bound, however many rounds it makes and whatever the answers are.
pub initial_sync-runs :
    (w : World) (rounds : ℕ) (d : Daemon)
    → IsFuseConsistent d
    → d.fused ≡ false
    → runs (initial_sync w rounds d).0.log + d.failure_count ≤ runs d.log + d.max_failures
unfolding initial_sync query_unit runs
initial_sync-runs w zero d c closed = ground (arith, below_bound d c closed)
initial_sync-runs w (suc rounds) d c closed =
    if-intro (λ (r : Daemon × Bool). Bounded d (r.0)) (round.1)
      (λ _. Round-Bounded asked round c₁ closed one)
      (λ going.
        next-Round w rounds asked round
          (initial_sync-runs w rounds (round.0)
            (sync_unit-Stable IsFuseConsistent IsFuseConsistent-Stable writes w asked answer c₁))
          closed going one)
  where
    asked : Daemon
    asked = does (asked_unit d.unit) d

    answer : Result OperationError UnitSnapshot
    answer = (query_unit w d.unit d).1

    c₁ : IsFuseConsistent asked
    c₁ = IsFuseConsistent-Stable.acts (asked_unit d.unit) d tt c

    round : Daemon × Bool
    round = sync_unit w asked answer

    one : Round asked round
    one = sync_unit-Round w asked answer c₁ closed

-- An answer that does not say that the unit runs.
unfoldable pub IsDown : Reply UnitSnapshot → Type 0
IsDown (answered snapshot) = snapshot_is_running snapshot ≡ false
IsDown _ = Unit

-- The same, of what queryUnit makes of it.
Down : Result OperationError UnitSnapshot → Type 0
Down (err _) = Unit
Down (ok snapshot) = snapshot_is_running snapshot ≡ false

read_unit-Down : (unit : Text) (r : Reply UnitSnapshot) → IsDown r → Down (read_unit unit r)
unfolding read_unit IsDown Down
read_unit-Down unit (answered snapshot) h = h
read_unit-Down unit (unreachable _) h = tt
read_unit-Down unit (refused _) h = tt
read_unit-Down unit (garbled _) h = tt

sync_unit-stays :
    (w : World) (d : Daemon) (r : Result OperationError UnitSnapshot)
    → d.fused ≡ true
    → Down r
    → (sync_unit w d r).1 ≡ false
unfolding sync_unit Down attempt_start_with_retry
sync_unit-stays w d (err e) h down = refl
sync_unit-stays w d (ok snapshot) h down =
    if-intro (λ (r : Daemon × Bool). r.1 ≡ false) (snapshot_is_running snapshot) (λ f. cc)
      (λ _.
        if-intro (λ (r : Daemon × Bool). r.1 ≡ false) ((ready w d).fused) (λ _. refl)
          (λ f. absurd (differ (sym ((ready-Kept w d).fused ∙ h) ∙ f))))
  where
    differ : true ≡ false → ⊥
    differ e = cc

initial_sync-stays :
    (w : World) (rounds : ℕ) (d : Daemon)
    → d.fused ≡ true
    → ((l : List Effect) → IsDown (w.unit l d.unit))
    → (initial_sync w rounds d).1 ≡ false
unfolding initial_sync query_unit
initial_sync-stays w zero d h down = refl
initial_sync-stays w (suc rounds) d h down =
    if-intro (λ (r : Daemon × Bool). r.1 ≡ false) (round.1) (λ f. absurd (differ (sym stays ∙ f)))
      (λ _.
        initial_sync-stays w rounds (round.0) (k.fused ∙ h)
          (λ l. subst (λ u. IsDown (w.unit l u)) (sym k.unit) (down l)))
  where
    round : Daemon × Bool
    round = sync_unit w (does (asked_unit d.unit) d) (read_unit d.unit (w.unit d.log d.unit))

    k : Kept (does (asked_unit d.unit) d) (round.0)
    k = sync_unit-fused w _ _ h

    stays : round.1 ≡ false
    stays = sync_unit-stays w _ _ h (read_unit-Down d.unit _ (down d.log))

    differ : false ≡ true → ⊥
    differ e = cc

-- Once the fuse is open, the synchronisation of a unit whose state is never running does not end:
-- after any number of rounds it has not returned, has run nothing more, and the fuse is still open.
pub initial_sync-stuck :
    (w : World) (rounds : ℕ) (d : Daemon)
    → d.fused ≡ true
    → ((l : List Effect) → IsDown (w.unit l d.unit))
    → ((initial_sync w rounds d).1 ≡ false)
      × ((initial_sync w rounds d).0.fused ≡ true)
      × (runs (initial_sync w rounds d).0.log ≡ runs d.log)
initial_sync-stuck w rounds d h down =
    let k = initial_sync-fused w rounds d h in
    (initial_sync-stays w rounds d h down, k.fused ∙ h, k.ran)
