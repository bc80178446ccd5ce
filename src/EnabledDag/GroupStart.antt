-- ===== src/EnabledDag/GroupStart.antt =====
-- group_order.go: what resolveGroupStartOrder returns.
use servicectl.Base.{
  ℕ, ◌≡◌, refl, sym, ◌∙◌, subst, Bool, true, false, ◌||◌, some, List, [], ◌∷◌, ◌==◌, ==_iff,
  contains, Distinct, Result, ok, err, arith, inl, inr, Bool-cases,
}
use servicectl.Base.Text.{Text, text_eq, is_empty}
use servicectl.EnabledDag.Names.{normalize_service_unit_name}
use servicectl.EnabledDag.Graph.{ServiceDag, Depends}
use servicectl.EnabledDag.Build.{UnitFiles, EnabledRootSet, BuildError, build_enabled_service_dag}
use servicectl.EnabledDag.Visit.{OrderError, topological_services}
use servicectl.EnabledDag.Topological.{
  HasCleanNames, IsStartOrder, topological_services-IsStartOrder,
}
use servicectl.EnabledDag.GroupOrder.{
  group_set, append_unless, pick_ordered, add_others, in_group_order, order_group, order_built,
  resolve_group_start_order,
}
use servicectl.EnabledDag.Grouped.{
  precedes, DepsFirst-precedes, precedes-Distinct, contains-append_unless, append_unless-Distinct,
  precedes-append_unless, same_member, pick_ordered-contains, pick_ordered-Distinct,
  pick_ordered-precedes,
}

module _ (wireplumber : Bool) where
  skips : Text → List Text → Bool
  skips name r = is_empty name || contains r name

  add_others-contains :
      (units r : List Text) (c : Text)
      → contains (add_others wireplumber units r) c
        ≡ (contains r c || contains (group_set wireplumber units) c)
  unfolding add_others group_set contains skips
  add_others-contains [] r c = ground arith
  add_others-contains (raw ∷ units) r c =
      let name = normalize_service_unit_name wireplumber raw in
      ground (
        arith,
        add_others-contains units (append_unless (skips name r) name r) c,
        contains-append_unless (skips name r) name r c,
        same_member r name c,
      )

  add_others-Distinct :
      (units r : List Text) → Distinct r → Distinct (add_others wireplumber units r)
  unfolding add_others skips
  add_others-Distinct [] r d = d
  add_others-Distinct (raw ∷ units) r d =
      let name = normalize_service_unit_name wireplumber raw in
      add_others-Distinct units (append_unless (skips name r) name r)
        (append_unless-Distinct (skips name r) name r d (λ kept. ground arith))

  add_others-keeps :
      (units r : List Text) (d n : Text)
      → precedes r d n ≡ true
      → precedes (add_others wireplumber units r) d n ≡ true
  unfolding add_others skips
  add_others-keeps [] r d n h = h
  add_others-keeps (raw ∷ units) r d n h =
      let name = normalize_service_unit_name wireplumber raw in
      add_others-keeps units (append_unless (skips name r) name r) d n
        (precedes-append_unless (skips name r) name r d n h)

-- The units of the group, each once, and each behind what it depends on in the graph.
pub record IsGroupOrder (g : ServiceDag) (members result : List Text) : Type 0 where
  pub complete : (n : Text) → contains result n ≡ contains members n
  pub distinct : Distinct result
  pub deps_first :
      (n d : Text)
      → contains g.nodes n ≡ true
      → Depends g n d
      → contains result n ≡ true
      → contains result d ≡ true
      → precedes result d n ≡ true

in_group_order-IsGroupOrder :
    (wireplumber : Bool) (units : List Text) (g : ServiceDag) (order : List Text)
    → IsStartOrder g order
    → IsGroupOrder g (group_set wireplumber units) (in_group_order wireplumber units order)
unfolding in_group_order
in_group_order-IsGroupOrder wireplumber units g order start =
    let group = group_set wireplumber units in
    let picked = pick_ordered group order [] in
    let all : (c : Text) → contains (add_others wireplumber units picked) c ≡ contains group c =
      λ c.
        unfold contains in
        ground (
          arith,
          add_others-contains wireplumber units picked c,
          pick_ordered-contains group order [] c,
        ) in
    record {
      complete = all;
      distinct =
          add_others-Distinct wireplumber units picked (pick_ordered-Distinct group order [] tt);
      deps_first = λ n d node dep hn hd.
          let ahead =
            DepsFirst-precedes g [] order d n start.deps_first dep (unfold contains in refl)
              (start.complete n node) in
          let apart : (d == n) ≡ false = elim (Bool-cases (d == n)) [
            | inl same ↦ absurd (
                ground (
                  arith,
                  subst (λ m. precedes order d m ≡ true) (sym ((==_iff d n).0 same)) ahead,
                  precedes-Distinct order d start.distinct,
                ))
            | inr other ↦ other
          ] in
          add_others-keeps wireplumber units picked d n (
            pick_ordered-precedes group d n order [] apart (unfold contains in refl)
              (unfold contains in refl) ahead (sym (all d) ∙ hd) (sym (all n) ∙ hn));
    }

-- An order that resolveGroupStartOrder returns, where the names of the graph that it builds are
-- clean: it has each unit of the group under its normalized name once and nothing else, and no
-- unit that the graph has before another unit of the group that it depends on.
pub resolve_group_start_order-IsGroupOrder :
    (u : UnitFiles) (fuel : ℕ) (roots : EnabledRootSet) (units result : List Text)
    → ((g : ServiceDag) → build_enabled_service_dag u fuel roots ≡ ok g → HasCleanNames g)
    → resolve_group_start_order u fuel roots (some units) ≡ ok result
    → (g : ServiceDag) × (build_enabled_service_dag u fuel roots ≡ ok g)
      × IsGroupOrder g (group_set u.wireplumber units) result
unfolding resolve_group_start_order
resolve_group_start_order-IsGroupOrder u fuel roots units result clean =
    built (build_enabled_service_dag u fuel roots) refl
  where
    ordered :
        (g : ServiceDag)
        → HasCleanNames g
        → (r : Result OrderError (List Text)) → topological_services g ≡ r
        → order_group u units r ≡ ok result
        → IsGroupOrder g (group_set u.wireplumber units) result
    ordered g names (err e) h k = absurd cc
    ordered g names (ok order) h k = subst (IsGroupOrder g (group_set u.wireplumber units)) (cc) (
        in_group_order-IsGroupOrder u.wireplumber units g order
          (topological_services-IsStartOrder g order names h))

    built :
        (b : Result BuildError ServiceDag)
        → build_enabled_service_dag u fuel roots ≡ b
        → order_built u units b ≡ ok result
        → (g : ServiceDag) × (build_enabled_service_dag u fuel roots ≡ ok g)
          × IsGroupOrder g (group_set u.wireplumber units) result
    built (err e) h k = absurd cc
    built (ok g) h k = (g, h, ordered g (clean g h) (topological_services g) refl k)
