-- ===== src/Logd/Limiter.antt =====
-- cmd/sys-logd/broker.go: the limiter of connections, and how the accept loop of runBroker uses it.
-- The lock makes each call one step.
use servicectl.Base.{
  ℕ, suc, Bool, true, false, ◌||◌, List, [], ◌∷◌, ◌+◌, ◌-◌, ◌≡◌, Map, get_or, put, delete, contains,
  leb, ◌==◌, nat_eq, if◌then◌else◌,
}
use servicectl.Base.Atoi.{Signed, positive}

pub record Limiter : Type 0 where
  pub max_total : ℕ
  pub max_per_uid : ℕ
  pub total : ℕ
  pub per_uid : Map ℕ ℕ

unfoldable pub new_limiter : ℕ → ℕ → Limiter
new_limiter max_total max_per_uid = record {
  max_total = max_total;
  max_per_uid = max_per_uid;
  total = 0;
  per_uid = [];
}

unfoldable pub acquire : ℕ → Limiter → Limiter × Bool
acquire uid l =
    if leb l.max_total l.total || leb l.max_per_uid (get_or l.per_uid uid 0) then (l, false) else (
      record l { total = l.total + 1; per_uid = put l.per_uid uid (get_or l.per_uid uid 0 + 1) },
      true,
    )

unfoldable pub release : ℕ → Limiter → Limiter
release uid l =
    let count = get_or l.per_uid uid 0 in
    let lowered = put l.per_uid uid (count - 1) in
    if count == 0 then l else record l {
      total = l.total - 1;
      per_uid = if get_or lowered uid 0 == 0 then delete lowered uid else lowered;
    }

-- A limit of the configuration, or its default where it is not positive.
unfoldable pub limit_or : ℕ → Signed → ℕ
limit_or standard (positive (suc n)) = suc n
limit_or standard _ = standard

-- The limiter of runBroker, with the constants of the source.
unfoldable pub broker_limiter : Signed → Signed → Limiter
unfolding new_limiter limit_or
broker_limiter connections per_uid = new_limiter (limit_or 256 connections) (limit_or 32 per_uid)

unfoldable pub count : ℕ → List ℕ → ℕ
count uid [] = 0
count uid (other ∷ rest) = if other == uid then count uid rest + 1 else count uid rest

unfoldable pub remove : ℕ → List ℕ → List ℕ
remove uid [] = []
remove uid (other ∷ rest) =
    let kept = remove uid rest in if other == uid then rest else other ∷ kept

-- The accept loop with the users of the connections that are open: a connection that is not
-- admitted is closed at once, and the worker of one that is gives it back when it ends.
pub data Serves (start : Limiter) : Limiter → List ℕ → Type 0 where
  listening : Serves start start []
  connected :
      {l : Limiter} {users : List ℕ} (uid : ℕ)
      → Serves start l users
      → Serves start ((acquire uid l).0) (if (acquire uid l).1 then uid ∷ users else users)
  closed :
      {l : Limiter} {users : List ℕ} (uid : ℕ)
      → contains users uid ≡ true
      → Serves start l users
      → Serves start (release uid l) (remove uid users)
