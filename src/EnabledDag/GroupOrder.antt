-- ===== src/EnabledDag/GroupOrder.antt =====
-- group_order.go: the order in which the units of a group start.
use servicectl.Base.{
  ℕ, Bool, ◌&&◌, ◌||◌, not, Option, none, some, List, [], ◌∷◌, ◌++◌, contains, Result, ok, err,
  if◌then◌else◌,
}
use servicectl.Base.Text.{Text, text_eq, is_empty}
use servicectl.EnabledDag.Names.{normalize_service_unit_name}
use servicectl.EnabledDag.Graph.{ServiceDag}
use servicectl.EnabledDag.Build.{UnitFiles, EnabledRootSet, BuildError, build_enabled_service_dag}
use servicectl.EnabledDag.Visit.{OrderError, topological_services}

pub data GroupOrderError : Type 0 where
  group_not_found : GroupOrderError
  build_failed : BuildError → GroupOrderError
  order_failed : OrderError → GroupOrderError

-- The names of `groupSet`.
unfoldable pub group_set : Bool → List Text → List Text
group_set wireplumber [] = []
group_set wireplumber (raw ∷ units) =
    let normalized = normalize_service_unit_name wireplumber raw in
    let rest = group_set wireplumber units in
    if is_empty normalized then rest else normalized ∷ rest

unfoldable pub append_unless : Bool → Text → List Text → List Text
append_unless skip name result = if skip then result else result ++ (name ∷ [])

-- The loop over the order. The seen names are those of the result, in this loop and the next.
unfoldable pub pick_ordered : List Text → List Text → List Text → List Text
unfolding append_unless
pick_ordered group [] result = result
pick_ordered group (name ∷ order) result =
    pick_ordered group order
      (append_unless (not (contains group name && not (contains result name))) name result)

unfoldable pub add_others : Bool → List Text → List Text → List Text
unfolding append_unless
add_others wireplumber [] result = result
add_others wireplumber (raw ∷ units) result =
    let normalized = normalize_service_unit_name wireplumber raw in
    add_others wireplumber units
      (append_unless (is_empty normalized || contains result normalized) normalized result)

unfoldable pub in_group_order : Bool → List Text → List Text → List Text
unfolding group_set pick_ordered add_others
in_group_order wireplumber units order =
    add_others wireplumber units (pick_ordered (group_set wireplumber units) order [])

unfoldable pub order_group :
    UnitFiles → List Text → Result OrderError (List Text) → Result GroupOrderError (List Text)
unfolding in_group_order
order_group u units (err e) = err (order_failed e)
order_group u units (ok order) = ok (in_group_order u.wireplumber units order)

unfoldable pub order_built :
    UnitFiles → List Text → Result BuildError ServiceDag → Result GroupOrderError (List Text)
unfolding order_group topological_services
order_built u units (err e) = err (build_failed e)
order_built u units (ok g) = order_group u units (topological_services g)

-- What the group's state and the enabled roots are is asked outside.
unfoldable pub resolve_group_start_order :
    UnitFiles → ℕ → EnabledRootSet → Option (List Text) → Result GroupOrderError (List Text)
unfolding order_built build_enabled_service_dag
resolve_group_start_order u fuel roots none = err group_not_found
resolve_group_start_order u fuel roots (some units) =
    order_built u units (build_enabled_service_dag u fuel roots)
