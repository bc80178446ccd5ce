-- ===== src/EnabledDag/Visit.antt =====
-- TopologicalServices of enabled_dag.go: the depth-first search with its marks.
use servicectl.Base.{
  ℕ, zero, suc, List, [], ◌∷◌, ◌++◌, Map, get_or, put, Result, ok, err, ◌>>=◌, length,
}
use servicectl.Base.Text.{Text, text_eq, join_lines}
use servicectl.EnabledDag.Names.{unique_lines_preserve_order}
use servicectl.EnabledDag.Graph.{ServiceDag, ordered_nodes, ordered_deps}

-- The values 0, 1 and 2 of `mark[name]`.
pub data Mark : Type 0 where
  unseen visiting done : Mark

pub record Search : Type 0 where
  pub mark : Map Text Mark
  pub result : List Text

pub data OrderError : Type 0 where
  cycle_detected : Text → OrderError
  out_of_fuel : OrderError

unfoldable pub mark_of : Search → Text → Mark
mark_of s name = get_or s.mark name unseen

unfoldable pub set_mark : Search → Text → Mark → Search
set_mark s name m = record s { mark = put s.mark name m }

-- `mark[name] = 2` and the append to `result`.
unfoldable pub finish : Search → Text → Search
finish s name = record s { mark = put s.mark name done; result = s.result ++ name ∷ [] }

-- The loop over names that stops at the first error.
unfoldable pub visit_all :
    (Text → Search → Result OrderError Search) → List Text → Search → Result OrderError Search
visit_all step [] s = ok s
visit_all step (name ∷ rest) s = do t ← step name s; visit_all step rest t

-- The fuel bounds how deep the calls go.
unfoldable pub visit : ServiceDag → ℕ → Text → Search → Result OrderError Search
visit g zero name s = err out_of_fuel
visit g (suc fuel) name s = elim (mark_of s name) [
  | done ↦ ok s
  | visiting ↦ err (cycle_detected name)
  | unseen ↦ visit_all (visit g fuel) (ordered_deps g name) (set_mark s name visiting) >>= λ t.
      ok (finish t name)
]

unfoldable pub dep_names : Map Text (List Text) → List Text
dep_names [] = []
dep_names ((_, deps) ∷ rest) = deps ++ dep_names rest

-- The names that the search can meet.
unfoldable pub universe : ServiceDag → List Text
universe g = g.nodes ++ dep_names g.deps_by_node

unfoldable pub search_fuel : ServiceDag → ℕ
search_fuel g = suc (length (universe g))

abbrev pub empty_search : Search
empty_search = record { mark = []; result = [] }

-- The search over all the nodes.
unfoldable pub search_all : ServiceDag → Result OrderError Search
search_all g = visit_all (visit g (search_fuel g)) (ordered_nodes g) empty_search

unfoldable pub topological_services : ServiceDag → Result OrderError (List Text)
topological_services g =
    search_all g >>= λ s. ok (unique_lines_preserve_order (join_lines s.result))
