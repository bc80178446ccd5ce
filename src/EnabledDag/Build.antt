-- ===== src/EnabledDag/Build.antt =====
-- buildEnabledServiceDAG of enabled_dag.go: the roots, then a search over the unit files.
use servicectl.Base.{
  ℕ, zero, suc, ◌+◌, Bool, ◌||◌, List, [], ◌∷◌, ◌++◌, Option, some, none, ◌==◌, map, if◌then◌else◌,
  contains, Map, get, get_or, put, Result, ok, err, ◌>>=◌, is_some,
}
use servicectl.Base.Text.{Text, text_eq, is_empty, text_ltb}
use servicectl.Base.Sort.{sort_by}
use servicectl.EnabledDag.Names.{
  normalize_service_unit_name, s6_orchestrd_service_name, s6_group_orchestrd_service_name,
  is_unit_not_found_error,
}
use servicectl.EnabledDag.Graph.{ServiceDag, SystemdUnit, loose_dependencies}

pub record EnabledRootSet : Type 0 where
  pub standalone : List Text
  pub groups : Map Text (List Text)

-- The unit files: `lookup` with its error's message, and whether `wireplumber` can be parsed.
pub record UnitFiles : Type 0 where
  pub wireplumber : Bool
  pub lookup : Text → Result Text (Option SystemdUnit)

-- The variables of the function: `queue` holds the names that the loop has not read yet.
pub record Build : Type 0 where
  pub dag : ServiceDag
  pub seen_node : List Text
  pub queue : List Text
  pub order_counter : ℕ

pub data BuildError : Type 0 where
  lookup_failed : Text → BuildError
  out_of_fuel : BuildError

unfoldable pub mark_node : Text → Build → Build
mark_node name b = if is_empty name || contains b.seen_node name then b else record b {
  seen_node = name ∷ b.seen_node;
  dag = record (b.dag) { nodes = b.dag.nodes ++ name ∷ [] };
  queue = b.queue ++ name ∷ [];
}

-- `orderHint[service]` is given once.
unfoldable pub give_hint : Text → Build → Build
give_hint service b = if is_some (get b.dag.order_hint service) then b else record b {
  dag = record (b.dag) { order_hint = put b.dag.order_hint service b.order_counter };
  order_counter = b.order_counter + 1;
}

unfoldable pub set_owner : Text → Text → Build → Build
set_owner service owner b = record b {
  dag = record (b.dag) { owner_by_unit = put b.dag.owner_by_unit service owner };
}

-- A group owns what has no owner yet.
unfoldable pub offer_owner : Text → Text → Build → Build
unfolding set_owner
offer_owner service owner b =
    if is_some (get b.dag.owner_by_unit service) then b else set_owner service owner b

module _ (u : UnitFiles) where
  unfoldable pub normalize : Text → Text
  normalize = normalize_service_unit_name u.wireplumber

  unfoldable pub add_standalone : Build → List Text → Build
  add_standalone b [] = b
  add_standalone b (raw ∷ rest) =
      let service = normalize raw in
      let owner = s6_orchestrd_service_name u.wireplumber service in
      add_standalone
        (if is_empty service
          then b
          else mark_node service (set_owner service owner (give_hint service b)))
        rest

  unfoldable pub add_group_units : Text → Build → List Text → Build
  add_group_units owner b [] = b
  add_group_units owner b (raw ∷ rest) =
      let service = normalize raw in
      add_group_units owner
        (if is_empty service
          then b
          else mark_node service (offer_owner service owner (give_hint service b)))
        rest

  unfoldable pub add_groups : Map Text (List Text) → Build → List Text → Build
  add_groups groups b [] = b
  add_groups groups b (group ∷ rest) =
      add_groups groups
        (add_group_units (s6_group_orchestrd_service_name group) b (get_or groups group [])) rest

  -- `g.depsByNode[name][dep] = true`.
  unfoldable pub set_dependency : Text → Text → Build → Build
  set_dependency name dep b =
      let deps = get_or b.dag.deps_by_node name [] in
      record b {
        dag = record (b.dag) {
          deps_by_node =
              put b.dag.deps_by_node name (if contains deps dep then deps else deps ++ dep ∷ []);
        };
      }

  unfoldable pub add_dependencies : Text → Build → List Text → Build
  add_dependencies name b [] = b
  add_dependencies name b (dep_raw ∷ rest) =
      let dep = normalize dep_raw in
      add_dependencies name
        (if is_empty dep || dep == name
          then b
          else mark_node dep (give_hint dep (set_dependency name dep b)))
        rest

  -- An entry of `depsByNode` is made for a unit that has dependencies.
  unfoldable pub start_dependencies : Text → Build → Build
  start_dependencies name b =
      if is_some (get b.dag.deps_by_node name)
      then b
      else record b { dag = record (b.dag) { deps_by_node = put b.dag.deps_by_node name [] } }

  unfoldable pub add_unit : Text → Build → List Text → Build
  unfolding start_dependencies
  add_unit name b [] = b
  add_unit name b (dep ∷ deps) = add_dependencies name (start_dependencies name b) (dep ∷ deps)

  -- What the lookup of a name adds.
  unfoldable pub look_up : Text → Build → Result Text (Option SystemdUnit) → Result BuildError Build
  unfolding add_unit
  look_up name b (err message) =
      if is_unit_not_found_error message then ok b else err (lookup_failed message)
  look_up name b (ok none) = ok b
  look_up name b (ok (some unit)) = ok (add_unit name b (loose_dependencies unit))

  -- One round of the loop over the queue.
  unfoldable pub expand : Text → Build → Result BuildError Build
  unfolding look_up
  expand name b = look_up name b (u.lookup name)

  unfoldable pub drain_queue :
      (Build → Result BuildError ServiceDag) → Build → List Text → Result BuildError ServiceDag
  unfolding expand
  drain_queue next b [] = ok b.dag
  drain_queue next b (name ∷ rest) = expand name (record b { queue = rest }) >>= next

  -- The rounds of the loop; the last one finds the queue empty.
  unfoldable pub drain : ℕ → Build → Result BuildError ServiceDag
  unfolding drain_queue
  drain zero b = err out_of_fuel
  drain (suc fuel) b = drain_queue (drain fuel) b b.queue

  unfoldable pub build_enabled_service_dag : ℕ → EnabledRootSet → Result BuildError ServiceDag
  unfolding drain add_groups add_standalone
  build_enabled_service_dag fuel roots = drain fuel (
      add_groups roots.groups
        (add_standalone
          (record {
            dag = record { nodes = []; deps_by_node = []; order_hint = []; owner_by_unit = [] };
            seen_node = [];
            queue = [];
            order_counter = 0;
          })
          roots.standalone)
        (sort_by text_ltb (map (λ e. e.0) roots.groups)))
