-- ===== src/EnabledDag/Graph.antt =====
-- serviceDAG of enabled_dag.go: its fields, its edges and the order of its names.
use Prim.Native.Nat.{Ordering}
use servicectl.Base.{
  ℕ, ◌≡◌, Bool, true, false, not, List, [], ◌++◌, Option, some, ◌==◌, if◌then◌else◌, ltb, nat_eq,
  contains, Map, get, get_or,
}
use servicectl.Base.Text.{Text, text_eq, text_ltb}
use servicectl.Base.Sort.{sort_by, contains-sort_by}

pub record ServiceDag : Type 0 where
  pub nodes : List Text
  pub deps_by_node : Map Text (List Text)
  pub order_hint : Map Text ℕ
  pub owner_by_unit : Map Text Text

-- The lists of names of a unit file that the graph is built from.
pub record SystemdUnit : Type 0 where
  pub requires : List Text
  pub wants : List Text
  pub after : List Text
  pub binds_to : List Text
  pub part_of : List Text

unfoldable pub loose_dependencies : SystemdUnit → List Text
loose_dependencies u = u.requires ++ (u.wants ++ (u.after ++ (u.binds_to ++ u.part_of)))

compare_names : Text → Text → Ordering
compare_names a b =
    if text_ltb a b then Ordering.lt else if text_ltb b a then Ordering.gt else Ordering.eq

compare_hints : Option ℕ → Option ℕ → Text → Text → Ordering
unfolding compare_names
compare_hints (some ha) (some hb) a b =
    if not (ha == hb) then (if ltb ha hb then Ordering.lt else Ordering.gt) else compare_names a b
compare_hints _ _ a b = compare_names a b

unfoldable pub compare_by_hint : Map Text ℕ → Text → Text → Ordering
unfolding compare_hints
compare_by_hint hint a b = compare_hints (get hint a) (get hint b) a b

-- The `less` of both calls of `sort.Slice`.
unfoldable pub hint_less : Map Text ℕ → Text → Text → Bool
unfolding compare_by_hint
hint_less hint a b = elim (compare_by_hint hint a b) [ Ordering.lt ↦ true | _ ↦ false ]

-- `g.depsByNode[name]`.
unfoldable pub deps_of : ServiceDag → Text → List Text
deps_of g name = get_or g.deps_by_node name []

-- `name` is started after `dep`.
abbrev pub Depends : ServiceDag → Text → Text → Type 0
Depends g name dep = contains (deps_of g name) dep ≡ true

-- One or more dependencies lead from the first name to the second.
pub data Leads (g : ServiceDag) (a : Text) : Text → Type 0 where
  one : {b : Text} → Depends g a b → Leads g a b
  more : {b c : Text} → Leads g a b → Depends g b c → Leads g a c

unfoldable pub ordered_nodes : ServiceDag → List Text
ordered_nodes g = sort_by (hint_less g.order_hint) g.nodes

unfoldable pub ordered_deps : ServiceDag → Text → List Text
ordered_deps g name = sort_by (hint_less g.order_hint) (deps_of g name)

pub contains-ordered_nodes :
    (g : ServiceDag) (n : Text) → contains (ordered_nodes g) n ≡ contains g.nodes n
unfolding ordered_nodes
contains-ordered_nodes g n = contains-sort_by (hint_less g.order_hint) g.nodes n

pub contains-ordered_deps :
    (g : ServiceDag) (name n : Text)
    → contains (ordered_deps g name) n ≡ contains (deps_of g name) n
unfolding ordered_deps
contains-ordered_deps g name n = contains-sort_by (hint_less g.order_hint) (deps_of g name) n
