-- ===== src/Orchestrd/Retry.antt =====
-- Proofs about the retry loop of cmd/sys-orchestrd/main.go: how often it runs a program, and what
-- its result says about the fuse.
use servicectl.Base.{
  ℕ, zero, suc, Bool, true, false, Option, none, some, List, [], ◌∷◌, ◌+◌, ◌≤◌, ◌≡◌, refl, leb,
  arith, if-intro,
}
use servicectl.Base.Text.{Text, text_eq}
use servicectl.Orchestrd.Daemon.{Daemon, OperationError, Effect, ran, announce, does}
use servicectl.Orchestrd.Fuse.{
  record_attempt_success, record_attempt_failure, settle, retry, attempt_start_with_retry,
}
use servicectl.Orchestrd.World.{World, run_servicectl}
use servicectl.Orchestrd.Counter.{IsFuseConsistent, failed_run}

-- The runs of servicectl among the effects.
unfoldable pub runs : List Effect → ℕ
runs [] = 0
runs (ran _ _ _ ∷ rest) = runs rest + 1
runs (_ ∷ rest) = runs rest

-- What an attempt leaves, against the daemon that began it.
pub record Settled (d : Daemon) (r : Daemon × Bool) : Type 0 where
  pub succeeded :
      r.1 ≡ true
      → (r.0.fused ≡ false)
        × (r.0.failure_count ≡ 0)
        × (runs r.0.log + d.failure_count ≤ runs d.log + d.max_failures)
  pub gave_up :
      r.1 ≡ false
      → (r.0.fused ≡ true) × (runs r.0.log + d.failure_count ≡ runs d.log + d.max_failures)

after_success :
    (d : Daemon)
    → ((record_attempt_success d).fused ≡ false)
      × ((record_attempt_success d).failure_count ≡ 0)
      × (runs (record_attempt_success d).log ≡ runs d.log)
unfolding record_attempt_success
after_success d =
    if-intro (λ (r : Daemon). (r.fused ≡ false) × (r.failure_count ≡ 0) × (runs r.log ≡ runs d.log))
      d.fused (λ _. (refl, refl, refl)) (λ closed. (closed, refl, refl))

after_failure :
    (e : OperationError) (d : Daemon)
    → ((record_attempt_failure e d).failure_count ≡ d.failure_count + 1)
      × ((record_attempt_failure e d).max_failures ≡ d.max_failures)
      × (runs (record_attempt_failure e d).log ≡ runs d.log)
unfolding record_attempt_failure announce runs
after_failure e d =
    if-intro
      (λ (r : Daemon).
        (r.failure_count ≡ d.failure_count + 1)
        × (r.max_failures ≡ d.max_failures)
        × (runs r.log ≡ runs d.log))
      (leb d.max_failures (d.failure_count + 1)) (λ _. (refl, refl, refl)) (λ _. (refl, refl, refl))

pub below_bound :
    (d : Daemon) → IsFuseConsistent d → d.fused ≡ false → d.failure_count + 1 ≤ d.max_failures
below_bound d c closed = ground (arith, c.fused_iff.1, closed)

-- One run, and what the rounds that follow it make of a failure.
settle-Settled :
    (again : Daemon → Daemon × Bool) (d : Daemon) (effect : Effect) (o : Option OperationError)
    → IsFuseConsistent d
    → d.fused ≡ false
    → runs (effect ∷ d.log) ≡ runs d.log + 1
    → ((e : OperationError)
        → (record_attempt_failure e (does effect d)).fused ≡ false
        → Settled
            (record_attempt_failure e (does effect d))
            (again (record_attempt_failure e (does effect d))))
    → Settled d (settle again (does effect d) o)
unfolding settle
settle-Settled again d effect none c closed one follows =
    let (f, n, l) = after_success (does effect d) in
    record {
      succeeded = λ _. (f, n, ground (arith, l, one, n, below_bound d c closed));
      gave_up = λ h. cc;
    }
settle-Settled again d effect (some e) c closed one follows =
    if-intro (Settled d) ((record_attempt_failure e (does effect d)).fused)
      (λ fused. record {
        succeeded = λ h. cc;
        gave_up = λ _. (
          fused,
          ground (arith, n, m, l, one, below_bound d c closed, (failed.fused_iff).0 fused),
        );
      })
      (λ again_closed.
        let s = follows e again_closed in
        record {
          succeeded = λ h. let (f, z, b) = s.succeeded h in (f, z, ground (arith, n, m, l, one, b));
          gave_up = λ h. let (f, b) = s.gave_up h in (f, ground (arith, n, m, l, one, b));
        })
  where
    n : (record_attempt_failure e (does effect d)).failure_count ≡ d.failure_count + 1
    n = (after_failure e (does effect d)).0

    m : (record_attempt_failure e (does effect d)).max_failures ≡ d.max_failures
    m = (after_failure e (does effect d)).1

    l : runs (record_attempt_failure e (does effect d)).log ≡ runs (effect ∷ d.log)
    l = (after_failure e (does effect d)).2

    failed : IsFuseConsistent (record_attempt_failure e (does effect d))
    failed = failed_run e effect d c

retry-Settled :
    (w : World) (action : Text) (rounds : ℕ) (d : Daemon)
    → IsFuseConsistent d
    → d.fused ≡ false
    → d.max_failures ≤ d.failure_count + rounds
    → Settled d (retry rounds (run_servicectl w action) d)
unfolding retry run_servicectl runs
retry-Settled w action zero d c closed enough = ground (arith, below_bound d c closed)
retry-Settled w action (suc rounds) d c closed enough =
    settle-Settled (retry rounds (run_servicectl w action)) d (ran d.user_mode action d.unit) _ c
      closed refl
      (λ e again_closed. retry-Settled w action rounds _ (failed_run e _ d c) again_closed (
        let (n, m, _) = after_failure e (does (ran d.user_mode action d.unit) d) in
        ground (arith, n, m)))

pub attempt_start_with_retry-Settled :
    (w : World) (action : Text) (d : Daemon)
    → IsFuseConsistent d
    → d.fused ≡ false
    → Settled d (attempt_start_with_retry (run_servicectl w action) d)
unfolding attempt_start_with_retry
attempt_start_with_retry-Settled w action d c closed =
    if-intro (Settled d) d.fused (λ fused. cc)
      (λ _. retry-Settled w action d.max_failures d c closed (ground arith))
