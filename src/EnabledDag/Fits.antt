-- ===== src/EnabledDag/Fits.antt =====
-- Proofs that the steps of buildEnabledServiceDAG (enabled_dag.go) stay within a list of names that
-- covers the roots and the dependencies.
use servicectl.Base.{
  ℕ, ◌+◌, ◌<◌, ◌≡◌, refl, true, ◌||◌, List, [], ◌∷◌, Option, none, some, ◌==◌, ==_iff, if-intro,
  contains, contains-append, length, length-append, All, Map, get, get_or, Result, ok, err, is_some,
  arith,
}
use servicectl.Base.Pigeonhole.{IsSubset}
use servicectl.Base.Text.{Text, text_eq, is_empty}
use servicectl.EnabledDag.Names.{s6_group_orchestrd_service_name, is_unit_not_found_error}
use servicectl.EnabledDag.Graph.{SystemdUnit, loose_dependencies}
use servicectl.EnabledDag.Build.{
  Build, UnitFiles, EnabledRootSet, mark_node, give_hint, set_owner, offer_owner, normalize,
  add_standalone, add_group_units, add_groups, set_dependency, add_dependencies, start_dependencies,
  add_unit, look_up,
}
use servicectl.EnabledDag.Closed.{IfOk}

-- The graph and the queue stay within the names, and the fuel is enough for what is in the queue
-- and for the names that are no nodes.
pub record Fits (names : List Text) (fuel : ℕ) (b : Build) : Type 0 where
  pub nodes_inside : IsSubset b.dag.nodes names
  pub queue_inside : IsSubset b.queue names
  pub budget : length names + length b.queue < fuel + length b.dag.nodes

-- Each text of the list is blank, or its name is among the names.
unfoldable pub Within : UnitFiles → List Text → List Text → Type 0
Within u names raws =
    All (λ raw. (is_empty (normalize u raw) || contains names (normalize u raw)) ≡ true) raws

-- The names hold all roots, and all dependencies of the units that they name.
pub record Covers (u : UnitFiles) (roots : EnabledRootSet) (names : List Text) : Type 0 where
  pub standalone : Within u names roots.standalone
  pub grouped : (group : Text) → Within u names (get_or roots.groups group [])
  pub looked_up :
      (n : Text) (unit : SystemdUnit)
      → contains names n ≡ true
      → u.lookup n ≡ ok (some unit)
      → Within u names (loose_dependencies unit)

module _ (names : List Text) (fuel : ℕ) where
  mark_node-Fits :
      (name : Text) (b : Build)
      → contains names name ≡ true
      → Fits names fuel b
      → Fits names fuel (mark_node name b)
  unfolding mark_node contains
  mark_node-Fits name b among f =
      if-intro (Fits names fuel) (is_empty name || contains b.seen_node name) (λ _. f)
        (λ _. record {
          nodes_inside = λ x h. ground (
            arith,
            contains-append b.dag.nodes (name ∷ []) x,
            f.nodes_inside x,
            ==_iff name x,
            h,
            among,
          );
          queue_inside = λ x h. ground (
            arith,
            contains-append b.queue (name ∷ []) x,
            f.queue_inside x,
            ==_iff name x,
            h,
            among,
          );
          budget = ground (
            arith,
            length-append b.dag.nodes (name ∷ []),
            length-append b.queue (name ∷ []),
            f.budget,
          );
        })

  -- Steps that leave the nodes and the queue alone.
  give_hint-Fits :
      (service : Text) (b : Build) → Fits names fuel b → Fits names fuel (give_hint service b)
  unfolding give_hint
  give_hint-Fits service b f =
      if-intro (Fits names fuel) (is_some (get b.dag.order_hint service)) (λ _. f)
        (λ _. record {
          nodes_inside = f.nodes_inside;
          queue_inside = f.queue_inside;
          budget = f.budget;
        })

  set_owner-Fits :
      (service owner : Text) (b : Build)
      → Fits names fuel b
      → Fits names fuel (set_owner service owner b)
  unfolding set_owner
  set_owner-Fits service owner b f = record {
    nodes_inside = f.nodes_inside;
    queue_inside = f.queue_inside;
    budget = f.budget;
  }

  offer_owner-Fits :
      (service owner : Text) (b : Build)
      → Fits names fuel b
      → Fits names fuel (offer_owner service owner b)
  unfolding offer_owner
  offer_owner-Fits service owner b f =
      if-intro (Fits names fuel) (is_some (get b.dag.owner_by_unit service)) (λ _. f)
        (λ _. set_owner-Fits service owner b f)

  module _ (u : UnitFiles) where
    set_dependency-Fits :
        (name dep : Text) (b : Build)
        → Fits names fuel b
        → Fits names fuel (set_dependency u name dep b)
    unfolding set_dependency
    set_dependency-Fits name dep b f = record {
      nodes_inside = f.nodes_inside;
      queue_inside = f.queue_inside;
      budget = f.budget;
    }

    start_dependencies-Fits :
        (name : Text) (b : Build)
        → Fits names fuel b
        → Fits names fuel (start_dependencies u name b)
    unfolding start_dependencies
    start_dependencies-Fits name b f =
        if-intro (Fits names fuel) (is_some (get b.dag.deps_by_node name)) (λ _. f)
          (λ _. record {
            nodes_inside = f.nodes_inside;
            queue_inside = f.queue_inside;
            budget = f.budget;
          })

    pub add_standalone-Fits :
        (raws : List Text) (b : Build)
        → Within u names raws
        → Fits names fuel b
        → Fits names fuel (add_standalone u b raws)
    unfolding add_standalone Within
    add_standalone-Fits [] b w f = f
    add_standalone-Fits (raw ∷ rest) b w f = add_standalone-Fits rest _ (w.1) (
        if-intro (Fits names fuel) (is_empty (normalize u raw)) (λ _. f)
          (λ full.
            mark_node-Fits (normalize u raw) _ (ground (arith, w.0, full))
              (set_owner-Fits (normalize u raw) _ _ (give_hint-Fits (normalize u raw) b f))))

    add_group_units-Fits :
        (owner : Text) (raws : List Text) (b : Build)
        → Within u names raws
        → Fits names fuel b
        → Fits names fuel (add_group_units u owner b raws)
    unfolding add_group_units Within
    add_group_units-Fits owner [] b w f = f
    add_group_units-Fits owner (raw ∷ rest) b w f = add_group_units-Fits owner rest _ (w.1) (
        if-intro (Fits names fuel) (is_empty (normalize u raw)) (λ _. f)
          (λ full.
            mark_node-Fits (normalize u raw) _ (ground (arith, w.0, full))
              (offer_owner-Fits (normalize u raw) owner _ (give_hint-Fits (normalize u raw) b f))))

    pub add_groups-Fits :
        (groups : Map Text (List Text)) (group_names : List Text) (b : Build)
        → ((group : Text) → Within u names (get_or groups group []))
        → Fits names fuel b
        → Fits names fuel (add_groups u groups b group_names)
    unfolding add_groups
    add_groups-Fits groups [] b w f = f
    add_groups-Fits groups (group ∷ rest) b w f = add_groups-Fits groups rest _ w (
        add_group_units-Fits (s6_group_orchestrd_service_name group) (get_or groups group []) b
          (w group) f)

    add_dependencies-Fits :
        (name : Text) (deps : List Text) (b : Build)
        → Within u names deps
        → Fits names fuel b
        → Fits names fuel (add_dependencies u name b deps)
    unfolding add_dependencies Within
    add_dependencies-Fits name [] b w f = f
    add_dependencies-Fits name (raw ∷ rest) b w f = add_dependencies-Fits name rest _ (w.1) (
        if-intro (Fits names fuel) (is_empty (normalize u raw) || normalize u raw == name) (λ _. f)
          (λ new.
            mark_node-Fits (normalize u raw) _ (ground (arith, w.0, new)) (
              give_hint-Fits (normalize u raw) _ (set_dependency-Fits name (normalize u raw) b f))))

    add_unit-Fits :
        (name : Text) (deps : List Text) (b : Build)
        → Within u names deps
        → Fits names fuel b
        → Fits names fuel (add_unit u name b deps)
    unfolding add_unit
    add_unit-Fits name [] b w f = f
    add_unit-Fits name (dep ∷ deps) b w f =
        add_dependencies-Fits name (dep ∷ deps) _ w (start_dependencies-Fits name b f)

    pub look_up-Fits :
        (name : Text) (b : Build) (r : Result Text (Option SystemdUnit))
        → ((unit : SystemdUnit) → r ≡ ok (some unit) → Within u names (loose_dependencies unit))
        → Fits names fuel b
        → IfOk (Fits names fuel) (look_up u name b r)
    unfolding look_up IfOk
    look_up-Fits name b (err message) w f =
        if-intro (IfOk (Fits names fuel)) (is_unit_not_found_error message) (λ _. f) (λ _. tt)
    look_up-Fits name b (ok none) w f = f
    look_up-Fits name b (ok (some unit)) w f =
        add_unit-Fits name (loose_dependencies unit) b (w unit refl) f
