-- ===== src/EnabledDag/GroupTests.antt =====
-- group_order.go: the order of a group of three units, one of them outside the graph.
use servicectl.Base.{◌≡◌, refl, subst, false, List, [], ◌∷◌, some, ok, contains, get_or, get, put}
use servicectl.Base.Text.{
  Text, text, text_eq, text_beq, text_ltb, trim_space, trim_suffix, has_suffix, has_byte,
  join_lines, split_lines,
}
use servicectl.Base.Sort.{sort_by}
use servicectl.EnabledDag.Names.{
  IsClean, normalize_service_unit_name, resolve_unit_alias, unique_lines_preserve_order,
}
use servicectl.EnabledDag.Graph.{
  ServiceDag, compare_by_hint, hint_less, deps_of, ordered_nodes, ordered_deps,
}
use servicectl.EnabledDag.Build.{build_enabled_service_dag}
use servicectl.EnabledDag.Visit.{
  mark_of, set_mark, finish, visit_all, visit, universe, dep_names, search_fuel, search_all,
  topological_services,
}
use servicectl.EnabledDag.Topological.{HasCleanNames}
use servicectl.EnabledDag.GroupOrder.{
  group_set, append_unless, pick_ordered, add_others, in_group_order, order_group, order_built,
  resolve_group_start_order,
}
use servicectl.EnabledDag.GroupStart.{IsGroupOrder, resolve_group_start_order-IsGroupOrder}
use servicectl.EnabledDag.BuildTests.{files, roots, built, build_files}
use servicectl.EnabledDag.Tests.{IsClean-members}

abbrev members : List Text
members = text "cron" ∷ text "web" ∷ text "db.service" ∷ []

abbrev in_order : List Text
in_order = text "db.service" ∷ text "web.service" ∷ text "cron.service" ∷ []

web-IsClean : IsClean (text "web.service")
unfolding trim_space has_byte
web-IsClean = record { trimmed = refl; one_line = refl; nonempty = refl }

db-IsClean : IsClean (text "db.service")
unfolding trim_space has_byte
db-IsClean = record { trimmed = refl; one_line = refl; nonempty = refl }

built_clean : HasCleanNames built
unfolding universe dep_names
built_clean =
    IsClean-members (text "web.service" ∷ text "db.service" ∷ text "db.service" ∷ [])
      (web-IsClean, (db-IsClean, (db-IsClean, tt)))

all_clean : (g : ServiceDag) → build_enabled_service_dag files 3 roots ≡ ok g → HasCleanNames g
all_clean g h = subst HasCleanNames same built_clean
  where
    same : built ≡ g
    same = cc (build_files)

built_order : topological_services built ≡ ok (text "db.service" ∷ text "web.service" ∷ [])
unfolding topological_services search_all search_fuel universe dep_names visit visit_all mark_of
    set_mark finish ordered_nodes ordered_deps deps_of hint_less compare_by_hint sort_by text_ltb
    text_beq get_or get put trim_space join_lines split_lines contains unique_lines_preserve_order
built_order = refl

group_resolved : resolve_group_start_order files 3 roots (some members) ≡ ok in_order
unfolding resolve_group_start_order order_built order_group in_group_order group_set pick_ordered
    add_others append_unless normalize_service_unit_name trim_space has_suffix trim_suffix
    resolve_unit_alias text_beq contains
group_resolved = rw (build_files, order_built, built_order) refl

resolve_group_start_order-IsGroupOrder_example :
    (g : ServiceDag) × (build_enabled_service_dag files 3 roots ≡ ok g)
    × IsGroupOrder g (group_set false members) in_order
resolve_group_start_order-IsGroupOrder_example =
    resolve_group_start_order-IsGroupOrder files 3 roots members in_order all_clean group_resolved
