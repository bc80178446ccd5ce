-- ===== src/EnabledDag/Topological.antt =====
-- TopologicalServices of enabled_dag.go as a whole: the start order, the report of a cycle, and the
-- end of the search.
use servicectl.Base.{
  ℕ, zero, suc, ◌≡◌, ◌≢◌, refl, sym, subst, ◌∙◌, inl, inr, true, List, [], ◌∷◌, arith, ==_iff,
  contains, contains-append, Result, ok, err, ◌>>=◌, All, Distinct, get_or, get,
}
use servicectl.Base.Text.{Text, text_eq, join_lines}
use servicectl.EnabledDag.Names.{
  IsClean, unique_lines_preserve_order, unique_lines_preserve_order-join_lines,
}
use servicectl.EnabledDag.Graph.{
  ServiceDag, Leads, ordered_nodes, ordered_deps, contains-ordered_nodes, contains-ordered_deps,
}
use servicectl.EnabledDag.Visit.{
  visiting, Search, OrderError, cycle_detected, out_of_fuel, mark_of, set_mark, finish, visit_all,
  visit, universe, search_fuel, empty_search, search_all, topological_services,
}
use servicectl.EnabledDag.Order.{
  DepsFirst, IsSound, VisitedAll, Reports, visit-Reports, visit_all-Reports, Mark-cases,
}
use servicectl.EnabledDag.Fuel.{
  Ends, visit-Ends, visit_all-Ends, contains-universe_dep, contains-universe_node,
  unseen_count-le-length, unseen_count,
}

-- Only names of the graph come into the result.
abbrev Inside : ServiceDag → Search → Type 0
Inside g s = (n : Text) → contains s.result n ≡ true → contains (universe g) n ≡ true

abbrev OnOk : (Search → Type 0) → Result OrderError Search → Type 0
OnOk P (ok t) = P t
OnOk P (err _) = Unit

OnOk-bind :
    (P Q : Search → Type 0) (r : Result OrderError Search) (f : Search → Result OrderError Search)
    → OnOk P r
    → ((t : Search) → P t → OnOk Q (f t))
    → OnOk Q (r >>= f)
OnOk-bind P Q (ok t) f h k = k t h
OnOk-bind P Q (err e) f h k = tt

visit_all-Inside :
    (g : ServiceDag) (step : Text → Search → Result OrderError Search)
    → ((name : Text) (s : Search)
        → contains (universe g) name ≡ true
        → Inside g s
        → OnOk (Inside g) (step name s))
    → (names : List Text) → ((d : Text) → contains names d ≡ true → contains (universe g) d ≡ true)
    → (s : Search) → Inside g s
    → OnOk (Inside g) (visit_all step names s)
unfolding visit_all contains
visit_all-Inside g step h [] q s i = i
visit_all-Inside g step h (name ∷ rest) q s i =
    OnOk-bind (Inside g) (Inside g) (step name s) (visit_all step rest)
      (h name s (q name (ground (arith, ==_iff name name))) i)
      λ t j. visit_all-Inside g step h rest (λ d e. q d (ground arith)) t j

finish-Inside :
    (g : ServiceDag) (t : Search) (name : Text)
    → contains (universe g) name ≡ true
    → Inside g t
    → Inside g (finish t name)
unfolding finish contains
finish-Inside g t name c i n h =
    ground (arith, contains-append t.result (name ∷ []) n, ==_iff name n, i n)

visit-Inside :
    (g : ServiceDag) (fuel : ℕ) (name : Text) (s : Search)
    → contains (universe g) name ≡ true
    → Inside g s
    → OnOk (Inside g) (visit g fuel name s)
unfolding visit set_mark
visit-Inside g zero name s c i = tt
visit-Inside g (suc fuel) name s c i = elim (Mark-cases (mark_of s name)) [
  | inl e ↦
      rw (e, visit)
        (OnOk-bind (Inside g) (Inside g)
          (visit_all (visit g fuel) (ordered_deps g name) (set_mark s name visiting))
          (λ t. ok (finish t name))
          (visit_all-Inside g (visit g fuel) (visit-Inside g fuel) (ordered_deps g name)
            (λ d q. contains-universe_dep g name d (sym (contains-ordered_deps g name d) ∙ q))
            (set_mark s name visiting) i)
          (λ t j. finish-Inside g t name c j))
  | inr (inl e) ↦ rw (e, visit) tt
  | inr (inr e) ↦ rw (e, visit) i
]

abbrev SearchedAll : ServiceDag → Search → Type 0
SearchedAll g = VisitedAll g empty_search (ordered_nodes g)

empty_search-IsSound : (g : ServiceDag) → IsSound g empty_search
unfolding mark_of contains get_or get
empty_search-IsSound g = record { listed = λ n. refl; distinct = tt; ordered = tt }

search_all-Reports : (g : ServiceDag) → Reports g (SearchedAll g) (search_all g)
unfolding search_all mark_of get_or get
search_all-Reports g =
    visit_all-Reports g (visit g (search_fuel g)) (visit-Reports g (search_fuel g))
      (ordered_nodes g) empty_search (empty_search-IsSound g) (λ d q m e. cc)

search_all-Inside : (g : ServiceDag) → OnOk (Inside g) (search_all g)
unfolding search_all contains
search_all-Inside g =
    visit_all-Inside g (visit g (search_fuel g)) (visit-Inside g (search_fuel g)) (ordered_nodes g)
      (λ d q. contains-universe_node g d (sym (contains-ordered_nodes g d) ∙ q)) empty_search
      (λ n h. cc)

search_all-Ends :
    (g : ServiceDag) → Ends (universe g) (unseen_count empty_search (universe g)) (search_all g)
unfolding search_all search_fuel
search_all-Ends g =
    visit_all-Ends (universe g) (visit g (search_fuel g)) (unseen_count empty_search (universe g))
      (λ n s l c m b.
        visit-Ends g (search_fuel g) n s l c m
          (omega (arith, unseen_count-le-length empty_search (universe g))))
      (ordered_nodes g) (λ d q. contains-universe_node g d (sym (contains-ordered_nodes g d) ∙ q))
      empty_search (unseen_count empty_search (universe g)) (omega arith) (omega arith)

-- Names that joining by line breaks keeps apart.
abbrev pub HasCleanNames : ServiceDag → Type 0
HasCleanNames g = (n : Text) → contains (universe g) n ≡ true → IsClean n

All-IsClean : (ns : List Text) → ((n : Text) → contains ns n ≡ true → IsClean n) → All IsClean ns
unfolding contains
All-IsClean [] h = tt
All-IsClean (n ∷ ns) h =
    (h n (ground (arith, ==_iff n n)), All-IsClean ns (λ m e. h m (ground arith)))

-- An order in which the services can be started: all nodes, each once, behind its dependencies.
pub record IsStartOrder (g : ServiceDag) (order : List Text) : Type 0 where
  pub complete : (n : Text) → contains g.nodes n ≡ true → contains order n ≡ true
  pub distinct : Distinct order
  pub deps_first : DepsFirst g [] order

searched-IsStartOrder : (g : ServiceDag) (s : Search) → SearchedAll g s → IsStartOrder g s.result
searched-IsStartOrder g s v = record {
  complete =
      λ n h. v.sound.listed n ∙ ground (arith, v.finished n (contains-ordered_nodes g n ∙ h));
  distinct = v.sound.distinct;
  deps_first = v.sound.ordered;
}

-- What the three possible ends of the search are to say.
abbrev pub Decides : ServiceDag → Result OrderError (List Text) → Type 0
Decides g (ok order) = IsStartOrder g order
Decides g (err (cycle_detected c)) = Leads g c c
Decides g (err out_of_fuel) = ⊥

-- For a graph whose names are clean, TopologicalServices returns an order that lists every node,
-- each once, and no service before one that it depends on, or it reports a service from which
-- dependencies lead back to itself; it does not run out of fuel.
pub topological_services-Decides :
    (g : ServiceDag) → HasCleanNames g → Decides g (topological_services g)
unfolding topological_services
topological_services-Decides g clean =
    go (search_all g) (search_all-Reports g) (search_all-Inside g) (search_all-Ends g)
  where
    go :
        (r : Result OrderError Search)
        → Reports g (SearchedAll g) r
        → OnOk (Inside g) r
        → Ends (universe g) (unseen_count empty_search (universe g)) r
        → Decides g (r >>= λ s. ok (unique_lines_preserve_order (join_lines s.result)))
    go (ok s) v i e =
        rw
          (unique_lines_preserve_order-join_lines s.result
            (All-IsClean s.result (λ n h. clean n (i n h))) v.sound.distinct)
          (searched-IsStartOrder g s v)
    go (err (cycle_detected c)) v i e = v
    go (err out_of_fuel) v i e = e

-- A reported cycle is there: dependencies lead from the named service back to it.
pub topological_services-cycle :
    (g : ServiceDag) (c : Text) → topological_services g ≡ err (cycle_detected c) → Leads g c c
unfolding topological_services
topological_services-cycle g c h = go (search_all g) (search_all-Reports g) h
  where
    go :
        (r : Result OrderError Search)
        → Reports g (SearchedAll g) r
        → (r >>= λ s. ok (unique_lines_preserve_order (join_lines s.result)))
          ≡ err (cycle_detected c)
        → Leads g c c
    go (ok s) v e = cc
    go (err (cycle_detected d)) v e = subst (λ x. Leads g x x) (cc) v
    go (err out_of_fuel) v e = cc

-- The search of every graph ends: its fuel, one more than the names of the graph, is enough.
pub topological_services-total : (g : ServiceDag) → topological_services g ≢ err out_of_fuel
unfolding topological_services
topological_services-total g = go (search_all g) (search_all-Ends g)
  where
    go :
        (r : Result OrderError Search)
        → Ends (universe g) (unseen_count empty_search (universe g)) r
        → (r >>= λ s. ok (unique_lines_preserve_order (join_lines s.result))) ≢ err out_of_fuel
    go (ok s) v e = cc
    go (err (cycle_detected d)) v e = cc
    go (err out_of_fuel) v e = v

-- For a graph whose names are clean, the order that is returned lists every node, each once, and
-- no service before one that it depends on.
pub topological_services-IsStartOrder :
    (g : ServiceDag) (order : List Text)
    → HasCleanNames g
    → topological_services g ≡ ok order
    → IsStartOrder g order
topological_services-IsStartOrder g order clean h =
    subst (Decides g) h (topological_services-Decides g clean)
