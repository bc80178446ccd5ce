-- ===== src/EnabledDag/Tests.antt =====
-- Runs of the graph of enabled services, and its theorems at those inputs.
use servicectl.Base.{
  ◌≡◌, refl, true, List, [], ◌∷◌, ok, err, contains, get, get_or, put, arith, Bool-cases, inl, inr,
  All, subst, ◌==◌, ==_iff,
}
use mathlib.Core.Bool.{false≢true}
use servicectl.Base.Text.{
  Text, text, text_eq, text_beq, text_ltb, trim_space, trim_suffix, has_suffix, join_lines,
  split_lines, has_byte,
}
use servicectl.Base.Sort.{sort_by}
use servicectl.EnabledDag.Names.{
  IsClean, unique_lines_preserve_order, normalize_service_unit_name, resolve_unit_alias,
}
use servicectl.EnabledDag.Graph.{
  ServiceDag, Leads, one, more, deps_of, ordered_nodes, ordered_deps, hint_less,
}
use servicectl.EnabledDag.Visit.{
  cycle_detected, mark_of, set_mark, finish, visit_all, visit, universe, dep_names, search_fuel,
  search_all, topological_services,
}
use servicectl.EnabledDag.Topological.{HasCleanNames, topological_services-Decides, Decides}
use servicectl.EnabledDag.Acyclic.{topological_services-finds_cycle}

abbrev web : Text
web = text "web.service"

abbrev db : Text
db = text "db.service"

abbrev net : Text
net = text "net.service"

-- `web` needs `db` and `net`, `db` needs `net`.
abbrev chain : ServiceDag
chain = record {
  nodes = web ∷ db ∷ net ∷ [];
  deps_by_node = (web, net ∷ db ∷ []) ∷ (db, net ∷ []) ∷ [];
  order_hint = (web, 0) ∷ (db, 1) ∷ (net, 2) ∷ [];
  owner_by_unit = [];
}

-- `net` needs `db` as well.
abbrev ring : ServiceDag
ring = record chain { deps_by_node = (web, net ∷ db ∷ []) ∷ (db, net ∷ []) ∷ (net, db ∷ []) ∷ [] }

chain_order : topological_services chain ≡ ok (net ∷ db ∷ web ∷ [])
unfolding topological_services search_all search_fuel universe dep_names ordered_nodes ordered_deps
    deps_of hint_less sort_by visit visit_all mark_of set_mark finish get get_or put text_beq
    text_ltb unique_lines_preserve_order join_lines split_lines trim_space contains
chain_order = refl

ring_cycle : topological_services ring ≡ err (cycle_detected db)
unfolding topological_services search_all search_fuel universe dep_names ordered_nodes ordered_deps
    deps_of hint_less sort_by visit visit_all mark_of set_mark finish get get_or put text_beq
    text_ltb
ring_cycle = refl

normalized :
    (normalize_service_unit_name true (text " pipewire-session-manager.service\n")
      ≡ text "wireplumber.service")
    × (normalize_service_unit_name true (text "multi-user.target") ≡ [])
unfolding normalize_service_unit_name resolve_unit_alias trim_space trim_suffix has_suffix text_beq
normalized = (refl, refl)

web-IsClean : IsClean web
unfolding trim_space has_byte
web-IsClean = record { trimmed = refl; one_line = refl; nonempty = refl }

db-IsClean : IsClean db
unfolding trim_space has_byte
db-IsClean = record { trimmed = refl; one_line = refl; nonempty = refl }

net-IsClean : IsClean net
unfolding trim_space has_byte
net-IsClean = record { trimmed = refl; one_line = refl; nonempty = refl }

-- All members of the list are clean if its entries are.
pub IsClean-members :
    (ns : List Text) → All IsClean ns → (n : Text) → contains ns n ≡ true → IsClean n
unfolding contains
IsClean-members [] a n h = absurd (false≢true h)
IsClean-members (x ∷ ns) a n h = elim (Bool-cases (x == n)) [
  | inl same ↦ subst IsClean ((==_iff x n).0 same) a.0
  | inr other ↦ IsClean-members ns a.1 n (ground arith)
]

chain_clean : HasCleanNames chain
unfolding universe dep_names
chain_clean =
    IsClean-members (web ∷ db ∷ net ∷ net ∷ db ∷ net ∷ [])
      (web-IsClean, (db-IsClean, (net-IsClean, (net-IsClean, (db-IsClean, (net-IsClean, tt))))))

ring_clean : HasCleanNames ring
unfolding universe dep_names
ring_clean = IsClean-members (web ∷ db ∷ net ∷ net ∷ db ∷ net ∷ db ∷ []) (
  web-IsClean,
  (db-IsClean, (net-IsClean, (net-IsClean, (db-IsClean, (net-IsClean, (db-IsClean, tt)))))),
)

topological_services-Decides_example : Decides ring (topological_services ring)
topological_services-Decides_example = topological_services-Decides ring ring_clean

web_listed : contains ring.nodes web ≡ true
unfolding contains text_beq
web_listed = refl

web-Leads-net : Leads ring web net
unfolding contains text_beq deps_of get_or get
web-Leads-net = one refl

net-Leads-net : Leads ring net net
unfolding contains text_beq deps_of get_or get
net-Leads-net = more {b = db} (one refl) refl

topological_services-finds_cycle_example :
    (d : Text) × (topological_services ring ≡ err (cycle_detected d))
topological_services-finds_cycle_example =
    topological_services-finds_cycle ring web net ring_clean web_listed web-Leads-net net-Leads-net
