-- ===== src/EnabledDag/Closed.antt =====
-- Proofs that the graph of buildEnabledServiceDAG (enabled_dag.go) is complete: what it mentions, it
-- has.
use servicectl.Base.{
  ◌>>=◌, subst, ℕ, zero, suc, ◌≡◌, refl, true, false, ◌||◌, List, [], ◌∷◌, Option, none, some, ◌==◌,
  if-intro, contains, Distinct, Map, get, get_or, Result, ok, err, is_some, arith, map,
}
use servicectl.Base.Text.{Text, text_eq, is_empty, text_ltb}
use servicectl.Base.Sort.{sort_by}
use servicectl.EnabledDag.Names.{s6_group_orchestrd_service_name, is_unit_not_found_error}
use servicectl.EnabledDag.Graph.{ServiceDag, SystemdUnit, loose_dependencies, Depends, deps_of}
use servicectl.EnabledDag.Build.{
  Build, BuildError, UnitFiles, EnabledRootSet, normalize, add_standalone, add_group_units,
  add_groups, add_dependencies, add_unit, look_up, drain_queue, expand, drain,
  build_enabled_service_dag,
}
use servicectl.EnabledDag.Grown.{
  Grown, nothing, owned, link, root, group_root, start_dependencies-Grown,
}

-- What holds of a result if it is no error.
unfoldable pub IfOk {ℓ κ} : {E : Type ℓ} {A : Type κ} → (A → Type 0) → Result E A → Type 0
IfOk P (ok a) = P a
IfOk P (err e) = Unit

pub IfOk-bind :
    {E A C : Type 0} (P : A → Type 0) (Q : C → Type 0) (r : Result E A) (f : A → Result E C)
    → IfOk P r
    → ((a : A) → P a → IfOk Q (f a))
    → IfOk Q (r >>= f)
unfolding IfOk
IfOk-bind P Q (ok a) f h k = k a h
IfOk-bind P Q (err e) f h k = tt

-- A graph in which every dependency is a node, no node occurs twice or has no name, and every node
-- has a hint of its own.
pub record IsComplete (g : ServiceDag) : Type 0 where
  pub distinct : Distinct g.nodes
  pub named : contains g.nodes [] ≡ false
  pub hinted : (n : Text) → contains g.nodes n ≡ true → is_some (get g.order_hint n) ≡ true
  pub own_hint :
      (m n : Text) (k : ℕ) → get g.order_hint m ≡ some k → get g.order_hint n ≡ some k → m ≡ n
  pub closed : (n d : Text) → Depends g n d → contains g.nodes d ≡ true

complete : (b : Build) → Grown nothing b → IsComplete b.dag
unfolding deps_of
complete b g = record {
  distinct = g.distinct;
  named = g.named;
  hinted = g.hinted;
  own_hint = g.injective;
  closed = λ n d h. ground (arith, g.closed n d h);
}

pub popped :
    (b : Build) (rest : List Text) → Grown nothing b → Grown nothing (record b { queue = rest })
popped b rest g = owned nothing b b.dag.owner_by_unit rest g

pub nothing_yet : Grown nothing (record {
  dag = record { nodes = []; deps_by_node = []; order_hint = []; owner_by_unit = [] };
  seen_node = [];
  queue = [];
  order_counter = 0;
})
unfolding contains get get_or
nothing_yet = record {
  seen = λ x. refl;
  distinct = tt;
  named = refl;
  hinted = λ x h. cc;
  below = λ x k h. cc;
  injective = λ x y k h j. cc;
  closed = λ n d h. cc;
}

module _ (u : UnitFiles) where
  pub add_standalone-Grown :
      (raws : List Text) (b : Build) → Grown nothing b → Grown nothing (add_standalone u b raws)
  unfolding add_standalone
  add_standalone-Grown [] b g = g
  add_standalone-Grown (raw ∷ rest) b g = add_standalone-Grown rest _ (
      if-intro (Grown nothing) (is_empty (normalize u raw)) (λ _. g)
        (λ _. root (normalize u raw) _ b g))

  add_group_units-Grown :
      (owner : Text) (raws : List Text) (b : Build)
      → Grown nothing b
      → Grown nothing (add_group_units u owner b raws)
  unfolding add_group_units
  add_group_units-Grown owner [] b g = g
  add_group_units-Grown owner (raw ∷ rest) b g = add_group_units-Grown owner rest _ (
      if-intro (Grown nothing) (is_empty (normalize u raw)) (λ _. g)
        (λ _. group_root (normalize u raw) owner b g))

  pub add_groups-Grown :
      (groups : Map Text (List Text)) (names : List Text) (b : Build)
      → Grown nothing b
      → Grown nothing (add_groups u groups b names)
  unfolding add_groups
  add_groups-Grown groups [] b g = g
  add_groups-Grown groups (name ∷ rest) b g =
      add_groups-Grown groups rest _
        (add_group_units-Grown (s6_group_orchestrd_service_name name) (get_or groups name []) b g)

  add_dependencies-Grown :
      (name : Text) (deps : List Text) (b : Build)
      → Grown nothing b
      → Grown nothing (add_dependencies u name b deps)
  unfolding add_dependencies
  add_dependencies-Grown name [] b g = g
  add_dependencies-Grown name (raw ∷ rest) b g = add_dependencies-Grown name rest _ (
      if-intro (Grown nothing) (is_empty (normalize u raw) || normalize u raw == name) (λ _. g)
        (λ h. link u name (normalize u raw) b (ground (arith, h)) g))

  add_unit-Grown :
      (name : Text) (deps : List Text) (b : Build)
      → Grown nothing b
      → Grown nothing (add_unit u name b deps)
  unfolding add_unit
  add_unit-Grown name [] b g = g
  add_unit-Grown name (dep ∷ deps) b g =
      add_dependencies-Grown name (dep ∷ deps) _ (start_dependencies-Grown nothing u name b g)

  pub look_up-Grown :
      (name : Text) (b : Build) (r : Result Text (Option SystemdUnit))
      → Grown nothing b
      → IfOk (Grown nothing) (look_up u name b r)
  unfolding look_up IfOk
  look_up-Grown name b (err message) g =
      if-intro (IfOk (Grown nothing)) (is_unit_not_found_error message) (λ _. g) (λ _. tt)
  look_up-Grown name b (ok none) g = g
  look_up-Grown name b (ok (some unit)) g = add_unit-Grown name (loose_dependencies unit) b g

  drain_queue-IsComplete :
      (next : Build → Result BuildError ServiceDag) (b : Build) (queue : List Text)
      → ((c : Build) → Grown nothing c → IfOk IsComplete (next c))
      → Grown nothing b
      → IfOk IsComplete (drain_queue u next b queue)
  unfolding drain_queue expand IfOk
  drain_queue-IsComplete next b [] k g = complete b g
  drain_queue-IsComplete next b (name ∷ rest) k g =
      IfOk-bind (Grown nothing) IsComplete
        (look_up u name (record b { queue = rest }) (u.lookup name)) next
        (look_up-Grown name _ (u.lookup name) (popped b rest g)) k

  drain-IsComplete : (fuel : ℕ) (b : Build) → Grown nothing b → IfOk IsComplete (drain u fuel b)
  unfolding drain IfOk
  drain-IsComplete zero b g = tt
  drain-IsComplete (suc fuel) b g =
      drain_queue-IsComplete (drain u fuel) b b.queue (λ c. drain-IsComplete fuel c) g

-- A graph that buildEnabledServiceDAG returns has every dependency as a node, each node once and
-- none without a name, and a hint for every node that no other name has.
pub build_enabled_service_dag-IsComplete :
    (u : UnitFiles) (fuel : ℕ) (roots : EnabledRootSet) {g : ServiceDag}
    → build_enabled_service_dag u fuel roots ≡ ok g
    → IsComplete g
unfolding build_enabled_service_dag IfOk
build_enabled_service_dag-IsComplete u fuel roots h = subst (IfOk IsComplete) h (
    drain-IsComplete u fuel _ (
      add_groups-Grown u roots.groups (sort_by text_ltb (map (λ e. e.0) roots.groups)) _
        (add_standalone-Grown u roots.standalone _ nothing_yet)))
