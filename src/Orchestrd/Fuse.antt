-- ===== src/Orchestrd/Fuse.antt =====
-- cmd/sys-orchestrd/main.go: the failure counter, the fuse, and the retry loop. Log lines and the
-- pause between two attempts are left out, so that a reason that is only logged is no argument.
use servicectl.Base.{
  ℕ, zero, suc, Bool, true, false, Option, none, some, [], ◌∷◌, ◌++◌, ◌+◌, if◌then◌else◌, leb, ◌==◌,
  nat_eq, not, ◌&&◌,
}
use servicectl.Base.Text.{Text, text}
use servicectl.Orchestrd.Daemon.{Daemon, OperationError, error_text, announce, first_non_empty}

unfoldable pub record_attempt_success : Daemon → Daemon
record_attempt_success d =
    let counted = record d { failure_count = 0 } in
    if counted.fused then record counted { fused = false; fuse_reason = [] } else counted

abbrev failure_word : OperationError → Text
failure_word e = first_non_empty (e.action ∷ text "start-error" ∷ [])

unfoldable pub record_attempt_failure : OperationError → Daemon → Daemon
record_attempt_failure e d =
    let counted = record d { failure_count = d.failure_count + 1 } in
    if leb counted.max_failures counted.failure_count
    then announce (text "failed") (text "fused:" ++ failure_word e)
        (record counted { fused = true; fuse_reason = error_text e })
    else announce (text "failed") (failure_word e) counted

unfoldable pub clear_fuse : Text → Daemon → Daemon
clear_fuse trigger d =
    if not d.fused && d.failure_count == 0
    then d
    else announce (text "waiting") (text "fuse-cleared:" ++ trigger)
        (record d { fused = false; fuse_reason = []; failure_count = 0 })

-- What a run of a program leaves: the daemon, and the error if it failed.
abbrev pub Runner : Type 0
Runner = Daemon → Daemon × Option OperationError

-- What the loop does with the error of a run, and the rounds that may follow.
unfoldable pub settle : (Daemon → Daemon × Bool) → Daemon → Option OperationError → Daemon × Bool
settle again d none = (record_attempt_success d, true)
settle again d (some e) =
    let failed = record_attempt_failure e d in
    let rest = again failed in if failed.fused then (failed, false) else rest

-- The loop, with the number of rounds that are left.
unfoldable pub retry : ℕ → Runner → Daemon → Daemon × Bool
unfolding settle
retry zero runner d = (d, false)
retry (suc rounds) runner d =
    let outcome = runner d in settle (retry rounds runner) (outcome.0) (outcome.1)

unfoldable pub attempt_start_with_retry : Runner → Daemon → Daemon × Bool
unfolding retry
attempt_start_with_retry runner d = if d.fused then (d, false) else retry d.max_failures runner d
