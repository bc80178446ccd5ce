-- ===== src/EnabledDag/Grown.antt =====
-- Proofs about the steps of buildEnabledServiceDAG (enabled_dag.go): what the graph keeps while it
-- grows.
use servicectl.Base.{
  ℕ, ◌<◌, ◌≡◌, refl, Bool, true, false, ◌||◌, List, [], ◌∷◌, ◌++◌, some, ◌==◌, ==_iff,
  if◌then◌else◌, if-intro, contains, contains-append, Distinct, Map, get, get_or, get-put,
  get_or-put, is_some, arith,
}
use servicectl.Base.Text.{Text, text_eq, text_beq, is_empty}
use servicectl.EnabledDag.Build.{
  Build, UnitFiles, mark_node, give_hint, set_owner, offer_owner, set_dependency,
  start_dependencies,
}

-- The graph so far, where a dependency may still wait for its node if the test says so.
pub record Grown (waits : Text → Bool) (b : Build) : Type 0 where
  pub seen : (x : Text) → contains b.seen_node x ≡ contains b.dag.nodes x
  pub distinct : Distinct b.dag.nodes
  pub named : contains b.dag.nodes [] ≡ false
  pub hinted : (x : Text) → contains b.dag.nodes x ≡ true → is_some (get b.dag.order_hint x) ≡ true
  pub below : (x : Text) (k : ℕ) → get b.dag.order_hint x ≡ some k → k < b.order_counter
  pub injective :
      (x y : Text) (k : ℕ)
      → get b.dag.order_hint x ≡ some k
      → get b.dag.order_hint y ≡ some k
      → x ≡ y
  pub closed :
      (n d : Text)
      → contains (get_or b.dag.deps_by_node n []) d ≡ true
      → (contains b.dag.nodes d || waits d) ≡ true

Distinct-append_one :
    (xs : List Text) (x : Text) → Distinct xs → contains xs x ≡ false → Distinct (xs ++ x ∷ [])
unfolding contains
Distinct-append_one [] x d h = (refl, tt)
Distinct-append_one (y ∷ xs) x d h = (
  ground (arith, contains-append xs (x ∷ []) y, ==_iff x y, ==_iff y x, d.0, h),
  Distinct-append_one xs x d.1 (ground (arith, h)),
)

is_empty-eq : (name : Text) → (name == []) ≡ is_empty name
unfolding text_beq
is_empty-eq [] = refl
is_empty-eq (c ∷ name) = refl

give_hint-some :
    (service : Text) (b : Build) → is_some (get (give_hint service b).dag.order_hint service) ≡ true
unfolding give_hint
give_hint-some service b =
    if-intro (λ (r : Build). is_some (get r.dag.order_hint service) ≡ true)
      (is_some (get b.dag.order_hint service)) (λ h. h)
      (λ _.
        ground
          (arith, get-put b.dag.order_hint service service b.order_counter, ==_iff service service))

mark_node-contains :
    (name : Text) (b : Build) {waits : Text → Bool}
    → Grown waits b
    → is_empty name ≡ false
    → contains (mark_node name b).dag.nodes name ≡ true
unfolding mark_node contains
mark_node-contains name b g h =
    if-intro (λ (r : Build). contains r.dag.nodes name ≡ true)
      (is_empty name || contains b.seen_node name) (λ old. ground (arith, old, h, g.seen name))
      (λ _. ground (arith, contains-append b.dag.nodes (name ∷ []) name, ==_iff name name))

module _ (waits : Text → Bool) where
  give_hint-Grown : (service : Text) (b : Build) → Grown waits b → Grown waits (give_hint service b)
  unfolding give_hint
  give_hint-Grown service b g =
      if-intro (Grown waits) (is_some (get b.dag.order_hint service)) (λ _. g)
        (λ fresh. record {
          seen = g.seen;
          distinct = g.distinct;
          named = g.named;
          hinted = λ x h.
              ground (arith, get-put b.dag.order_hint service x b.order_counter, g.hinted x h);
          below = λ x k h.
              ground (arith, get-put b.dag.order_hint service x b.order_counter, g.below x k, h);
          injective = λ x y k h j. ground (
            arith,
            get-put b.dag.order_hint service x b.order_counter,
            get-put b.dag.order_hint service y b.order_counter,
            ==_iff service x,
            ==_iff service y,
            g.below x k,
            g.below y k,
            g.injective x y k,
            h,
            j,
          );
          closed = g.closed;
        })

  mark_node-Grown :
      (name : Text) (b : Build)
      → is_some (get b.dag.order_hint name) ≡ true
      → Grown waits b
      → Grown waits (mark_node name b)
  unfolding mark_node contains
  mark_node-Grown name b hint g =
      if-intro (Grown waits) (is_empty name || contains b.seen_node name) (λ _. g)
        (λ new. record {
          seen = λ x. ground (arith, contains-append b.dag.nodes (name ∷ []) x, g.seen x);
          distinct =
              Distinct-append_one b.dag.nodes name g.distinct (ground (arith, new, g.seen name));
          named =
              ground
                (arith, contains-append b.dag.nodes (name ∷ []) [], g.named, new, is_empty-eq name);
          hinted = λ x h. ground (
            arith,
            contains-append b.dag.nodes (name ∷ []) x,
            h,
            g.hinted x,
            ==_iff name x,
            hint,
          );
          below = g.below;
          injective = g.injective;
          closed =
              λ n d h. ground (arith, contains-append b.dag.nodes (name ∷ []) d, g.closed n d h);
        })

  -- Changes that the invariant does not see.
  pub owned :
      (b : Build) (owners : Map Text Text) (queue : List Text)
      → Grown waits b
      → Grown waits (record b { dag = record (b.dag) { owner_by_unit = owners }; queue = queue })
  owned b owners queue g = record {
    seen = g.seen;
    distinct = g.distinct;
    named = g.named;
    hinted = g.hinted;
    below = g.below;
    injective = g.injective;
    closed = g.closed;
  }

  set_owner-Grown :
      (service owner : Text) (b : Build) → Grown waits b → Grown waits (set_owner service owner b)
  unfolding set_owner
  set_owner-Grown service owner b g = owned b _ b.queue g

  offer_owner-Grown :
      (service owner : Text) (b : Build) → Grown waits b → Grown waits (offer_owner service owner b)
  unfolding offer_owner
  offer_owner-Grown service owner b g =
      if-intro (Grown waits) (is_some (get b.dag.owner_by_unit service)) (λ _. g)
        (λ _. set_owner-Grown service owner b g)

  pub start_dependencies-Grown :
      (u : UnitFiles) (name : Text) (b : Build)
      → Grown waits b
      → Grown waits (start_dependencies u name b)
  unfolding start_dependencies contains
  start_dependencies-Grown u name b g =
      if-intro (Grown waits) (is_some (get b.dag.deps_by_node name)) (λ _. g)
        (λ fresh. record {
          seen = g.seen;
          distinct = g.distinct;
          named = g.named;
          hinted = g.hinted;
          below = g.below;
          injective = g.injective;
          closed =
              λ n d h. ground (arith, get_or-put b.dag.deps_by_node name n [] [], g.closed n d, h);
        })

-- The test of no dependency, and of one that waits.
abbrev pub nothing : Text → Bool
nothing d = false

set_dependency-Grown :
    (u : UnitFiles) (name dep : Text) (b : Build)
    → Grown nothing b
    → Grown (λ d. dep == d) (set_dependency u name dep b)
unfolding set_dependency contains
set_dependency-Grown u name dep b g = record {
  seen = g.seen;
  distinct = g.distinct;
  named = g.named;
  hinted = g.hinted;
  below = g.below;
  injective = g.injective;
  closed = λ n d h.
      let deps = get_or b.dag.deps_by_node name [] in
      ground (
        arith,
        get_or-put b.dag.deps_by_node name n (if contains deps dep then deps else deps ++ dep ∷ [])
            [],
        contains-append deps (dep ∷ []) d,
        g.closed n d,
        g.closed name d,
        h,
      );
}

-- The waiting dependency has its node.
arrived :
    (dep : Text) (b : Build)
    → contains b.dag.nodes dep ≡ true
    → Grown (λ d. dep == d) b
    → Grown nothing b
arrived dep b node g = record {
  seen = g.seen;
  distinct = g.distinct;
  named = g.named;
  hinted = g.hinted;
  below = g.below;
  injective = g.injective;
  closed = λ n d h. ground (arith, g.closed n d h, ==_iff dep d, node);
}

-- A dependency that is noted gets its hint and its node.
pub link :
    (u : UnitFiles) (name dep : Text) (b : Build)
    → is_empty dep ≡ false
    → Grown nothing b
    → Grown nothing (mark_node dep (give_hint dep (set_dependency u name dep b)))
link u name dep b full g =
    let noted = set_dependency-Grown u name dep b g in
    let hinted = give_hint-Grown (λ d. dep == d) dep _ noted in
    let marked = mark_node-Grown (λ d. dep == d) dep _ (give_hint-some dep _) hinted in
    arrived dep _ (mark_node-contains dep _ hinted full) marked

-- A root that has its hint and its owner gets its node.
pub root :
    (service owner : Text) (b : Build)
    → Grown nothing b
    → Grown nothing (mark_node service (set_owner service owner (give_hint service b)))
unfolding set_owner
root service owner b g =
    mark_node-Grown nothing service _ (give_hint-some service b)
      (set_owner-Grown nothing service owner _ (give_hint-Grown nothing service b g))

offered_hint :
    (service owner : Text) (b : Build)
    → is_some (get b.dag.order_hint service) ≡ true
    → is_some (get (offer_owner service owner b).dag.order_hint service) ≡ true
unfolding offer_owner set_owner
offered_hint service owner b h =
    if-intro (λ (r : Build). is_some (get r.dag.order_hint service) ≡ true)
      (is_some (get b.dag.owner_by_unit service)) (λ _. h) (λ _. h)

pub group_root :
    (service owner : Text) (b : Build)
    → Grown nothing b
    → Grown nothing (mark_node service (offer_owner service owner (give_hint service b)))
group_root service owner b g =
    mark_node-Grown nothing service _ (offered_hint service owner _ (give_hint-some service b))
      (offer_owner-Grown nothing service owner _ (give_hint-Grown nothing service b g))
