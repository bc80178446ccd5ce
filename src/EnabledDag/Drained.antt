-- ===== src/EnabledDag/Drained.antt =====
-- Proofs that the loop of buildEnabledServiceDAG (enabled_dag.go) ends where the unit files mention
-- finitely many names.
use servicectl.Base.{
  ℕ, zero, suc, ◌+◌, ◌<◌, ◌≡◌, ◌≢◌, refl, subst, true, List, [], ◌∷◌, Option, none, some, ==_iff,
  if-intro, contains, length, Result, ok, err, >>=-ne_err, arith, map,
}
use servicectl.Base.Pigeonhole.{IsSubset, length-le_of_subset}
use servicectl.Base.Text.{Text, text_eq, text_ltb}
use servicectl.Base.Sort.{sort_by}
use servicectl.EnabledDag.Names.{is_unit_not_found_error}
use servicectl.EnabledDag.Graph.{SystemdUnit}
use servicectl.EnabledDag.Build.{
  Build, BuildError, out_of_fuel, UnitFiles, EnabledRootSet, look_up, expand, drain_queue, drain,
  build_enabled_service_dag,
}
use servicectl.EnabledDag.Grown.{Grown, nothing}
use servicectl.EnabledDag.Closed.{
  IfOk, look_up-Grown, popped, add_standalone-Grown, add_groups-Grown, nothing_yet,
}
use servicectl.EnabledDag.Fits.{Fits, Covers, look_up-Fits, add_groups-Fits, add_standalone-Fits}

no_member : (x : Text) → contains [] x ≡ true → ⊥
unfolding contains
no_member x h = cc

look_up-ne :
    (u : UnitFiles) (name : Text) (b : Build) (r : Result Text (Option SystemdUnit))
    → look_up u name b r ≢ err out_of_fuel
unfolding look_up
look_up-ne u name b (err message) =
    if-intro (λ (r : Result BuildError Build). r ≢ err out_of_fuel)
      (is_unit_not_found_error message) (λ _ h. cc) (λ _ h. cc)
look_up-ne u name b (ok none) = λ h. cc
look_up-ne u name b (ok (some unit)) = λ h. cc

module _ (u : UnitFiles) (roots : EnabledRootSet) (names : List Text)
    (covers : Covers u roots names) where
  drain_queue-ne :
      (fuel : ℕ) (b : Build) (queue : List Text)
      → ((c : Build) → Grown nothing c → Fits names fuel c → drain u fuel c ≢ err out_of_fuel)
      → b.queue ≡ queue
      → Grown nothing b
      → Fits names (suc fuel) b
      → drain_queue u (drain u fuel) b queue ≢ err out_of_fuel
  unfolding drain_queue expand contains IfOk
  drain_queue-ne fuel b [] next q g f = λ h. cc
  drain_queue-ne fuel b (name ∷ rest) next q g f =
      >>=-ne_err (look_up u name (record b { queue = rest }) (u.lookup name)) (drain u fuel)
        (look_up-ne u name _ (u.lookup name))
        (λ c done.
          next c
            (subst (IfOk (Grown nothing)) done
              (look_up-Grown u name _ (u.lookup name) (popped b rest g)))
            (subst (IfOk (Fits names fuel)) done (
              look_up-Fits names fuel u name _ (u.lookup name)
                (λ unit found. covers.looked_up name unit among found) shorter)))
    where
      full : Fits names (suc fuel) (record b { queue = name ∷ rest })
      full = record {
        nodes_inside = f.nodes_inside;
        queue_inside = subst (λ qs. IsSubset qs names) q f.queue_inside;
        budget = subst (λ qs. length names + length qs < suc fuel + length b.dag.nodes) q f.budget;
      }

      among : contains names name ≡ true
      among = full.queue_inside name (ground (arith, ==_iff name name))

      shorter : Fits names fuel (record b { queue = rest })
      shorter = record {
        nodes_inside = f.nodes_inside;
        queue_inside = λ x h. full.queue_inside x (ground (arith, h));
        budget = ground (arith, full.budget);
      }

  drain-ne :
      (fuel : ℕ) (b : Build)
      → Grown nothing b
      → Fits names fuel b
      → drain u fuel b ≢ err out_of_fuel
  unfolding drain
  drain-ne zero b g f =
      λ h. ground (arith, f.budget, length-le_of_subset b.dag.nodes names g.distinct f.nodes_inside)
  drain-ne (suc fuel) b g f = drain_queue-ne fuel b b.queue (λ c. drain-ne fuel c) refl g f

  -- Where a list of names holds the roots and all that the units of the list depend on, the loop of
  -- buildEnabledServiceDAG ends: fuel of one more than the names is enough.
  pub build_enabled_service_dag-total :
      build_enabled_service_dag u (suc (length names)) roots ≢ err out_of_fuel
  unfolding build_enabled_service_dag
  build_enabled_service_dag-total =
      drain-ne (suc (length names)) _
        (add_groups-Grown u roots.groups group_names _
          (add_standalone-Grown u roots.standalone _ nothing_yet))
        (add_groups-Fits names _ u roots.groups group_names _ covers.grouped
          (add_standalone-Fits names _ u roots.standalone _ covers.standalone start))
    where
      group_names : List Text
      group_names = sort_by text_ltb (map (λ e. e.0) roots.groups)

      start : Fits names (suc (length names)) (record {
        dag = record { nodes = []; deps_by_node = []; order_hint = []; owner_by_unit = [] };
        seen_node = [];
        queue = [];
        order_counter = 0;
      })
      start = record {
        nodes_inside = λ x h. absurd (no_member x h);
        queue_inside = λ x h. absurd (no_member x h);
        budget = ground arith;
      }
