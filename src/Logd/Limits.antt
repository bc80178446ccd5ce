-- ===== src/Logd/Limits.antt =====
-- Proofs that the limiter of cmd/sys-logd/broker.go counts the open connections.
use servicectl.Base.{
  ◌≢◌, ◌↔◌, ℕ, Bool, true, ◌||◌, none, some, List, [], ◌∷◌, ◌+◌, ◌-◌, ◌≤◌, ◌<◌, ◌≡◌, refl, Map, get,
  get_or, put, delete, contains, leb, ◌==◌, nat_eq, ==_iff, if◌then◌else◌, if-intro, length,
  get_or-put, get-put, get-delete, arith,
}
use servicectl.Logd.Limiter.{
  Limiter, new_limiter, acquire, release, count, remove, Serves, listening, connected, closed,
}

count-remove :
    (uid other : ℕ) (users : List ℕ)
    → contains users uid ≡ true
    → count other (remove uid users)
      ≡ (if uid == other then count other users - 1 else count other users)
unfolding count remove contains
count-remove uid other [] h = cc
count-remove uid other (u ∷ users) h = ground (arith, count-remove uid other users)

length-remove :
    (uid : ℕ) (users : List ℕ)
    → contains users uid ≡ true
    → length (remove uid users) + 1 ≡ length users
unfolding remove contains
length-remove uid [] h = cc
length-remove uid (u ∷ users) h = ground (arith, length-remove uid users)

count-contains : (uid : ℕ) (users : List ℕ) → contains users uid ≡ true → 1 ≤ count uid users
unfolding count contains
count-contains uid [] h = cc
count-contains uid (u ∷ users) h = ground (arith, count-contains uid users)

-- A limiter stands for the users of the open connections: it counts them, in total and by user, it
-- is within its limits, and it holds no user without a connection.
pub record Counts (max_total max_per_uid : ℕ) (l : Limiter) (users : List ℕ) : Type 0 where
  pub same_total : l.max_total ≡ max_total
  pub same_per_uid : l.max_per_uid ≡ max_per_uid
  pub total : l.total ≡ length users
  pub by_user : (uid : ℕ) → get_or l.per_uid uid 0 ≡ count uid users
  pub within_total : length users ≤ max_total
  pub within_user : (uid : ℕ) → count uid users ≤ max_per_uid
  pub no_leak : (uid : ℕ) → get l.per_uid uid ≢ some 0

new_limiter-Counts :
    (max_total max_per_uid : ℕ)
    → Counts max_total max_per_uid (new_limiter max_total max_per_uid) []
unfolding new_limiter get get_or count
new_limiter-Counts max_total max_per_uid = record {
  same_total = refl;
  same_per_uid = refl;
  total = refl;
  by_user = λ uid. refl;
  within_total = ground arith;
  within_user = λ uid. ground arith;
  no_leak = λ uid h. cc;
}

-- A user's counter after it was lowered to a number; at zero its entry goes.
get-lowered :
    (m : Map ℕ ℕ) (uid u k : ℕ)
    → get (if get_or (put m uid k) uid 0 == 0 then delete (put m uid k) uid else put m uid k) u
      ≡ (if uid == u then (if k == 0 then none else some k) else get m u)
get-lowered m uid u k = ground (
  arith,
  get-put m uid u k,
  get_or-put m uid uid k 0,
  ==_iff uid uid,
  get-delete (put m uid k) uid u,
)

get_or-lowered :
    (m : Map ℕ ℕ) (uid u k : ℕ)
    → get_or (if get_or (put m uid k) uid 0 == 0 then delete (put m uid k) uid else put m uid k) u 0
      ≡ (if uid == u then k else get_or m u 0)
unfolding get_or
get_or-lowered m uid u k = ground (arith, get-lowered m uid u k)

module _ (max_total max_per_uid : ℕ) where
  acquire-Counts :
      (uid : ℕ) (l : Limiter) (users : List ℕ)
      → Counts max_total max_per_uid l users
      → Counts max_total max_per_uid
          ((acquire uid l).0)
          (if (acquire uid l).1 then uid ∷ users else users)
  unfolding acquire count
  acquire-Counts uid l users c =
      if-intro
        (λ (r : Limiter × Bool).
          Counts max_total max_per_uid (r.0) (if r.1 then uid ∷ users else users))
        (leb l.max_total l.total || leb l.max_per_uid (get_or l.per_uid uid 0)) (λ _. c)
        (λ free. record {
          same_total = c.same_total;
          same_per_uid = c.same_per_uid;
          total = ground (arith, c.total);
          by_user = λ u. ground (
            arith,
            get_or-put l.per_uid uid u (get_or l.per_uid uid 0 + 1) 0,
            c.by_user u,
            c.by_user uid,
          );
          within_total = ground (arith, free, c.total, c.same_total);
          within_user = λ u.
              ground (arith, free, c.by_user u, c.by_user uid, c.within_user u, c.same_per_uid);
          no_leak = λ u.
              ground (arith, get-put l.per_uid uid u (get_or l.per_uid uid 0 + 1), c.no_leak u);
        })

  release-Counts :
      (uid : ℕ) (l : Limiter) (users : List ℕ)
      → contains users uid ≡ true
      → Counts max_total max_per_uid l users
      → Counts max_total max_per_uid (release uid l) (remove uid users)
  unfolding release
  release-Counts uid l users h c =
      if-intro (λ (r : Limiter). Counts max_total max_per_uid r (remove uid users))
        (get_or l.per_uid uid 0 == 0) (λ none_open. absurd (ground (arith, none_open, some_open)))
        (λ _. record {
          same_total = c.same_total;
          same_per_uid = c.same_per_uid;
          total = ground (arith, c.total, length-remove uid users h);
          by_user = λ u. ground (
            arith,
            get_or-lowered l.per_uid uid u (get_or l.per_uid uid 0 - 1),
            count-remove uid u users h,
            c.by_user u,
            c.by_user uid,
          );
          within_total = ground (arith, length-remove uid users h, c.within_total);
          within_user = λ u. ground (arith, count-remove uid u users h, c.within_user u);
          no_leak = λ u.
              ground (arith, get-lowered l.per_uid uid u (get_or l.per_uid uid 0 - 1), c.no_leak u);
        })
    where
      some_open : 1 ≤ get_or l.per_uid uid 0
      some_open = ground (arith, c.by_user uid, count-contains uid users h)

-- Whatever connections come and end in whichever order, the limiter counts the open ones, in total
-- and by user, both within the limits, and keeps no entry for a user without a connection.
pub Serves-Counts :
    (max_total max_per_uid : ℕ) {l : Limiter} {users : List ℕ}
    → Serves (new_limiter max_total max_per_uid) l users
    → Counts max_total max_per_uid l users
Serves-Counts max_total max_per_uid listening = new_limiter-Counts max_total max_per_uid
Serves-Counts max_total max_per_uid (connected uid s) =
    acquire-Counts max_total max_per_uid uid _ _ (Serves-Counts max_total max_per_uid s)
Serves-Counts max_total max_per_uid (closed uid h s) =
    release-Counts max_total max_per_uid uid _ _ h (Serves-Counts max_total max_per_uid s)

-- In the accept loop, a connection is admitted exactly if there is room for one more, in total and
-- for its user.
pub acquire_iff :
    (max_total max_per_uid uid : ℕ) {l : Limiter} {users : List ℕ}
    → Serves (new_limiter max_total max_per_uid) l users
    → ((acquire uid l).1 ≡ true) ↔ ((length users < max_total) × (count uid users < max_per_uid))
unfolding acquire
acquire_iff max_total max_per_uid uid s =
    let c = Serves-Counts max_total max_per_uid s in
    ground (arith, c.total, c.by_user uid, c.same_total, c.same_per_uid)
