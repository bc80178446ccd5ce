-- ===== src/Restart/Restarted.antt =====
-- deps.go: reverseRestartClosure finds the started services that depend on a service.
use servicectl.Base.{
  suc, ◌≡◌, ◌↔◌, refl, sym, ap, ◌∙◌, Bool, true, ◌&&◌, some, List, [], length, contains, Distinct,
  arith,
}
use servicectl.Base.Text.{Text, text_eq}
use servicectl.Restart.Dependents.{
  Units, normalize_service_name, list_service_unit_names, dependents_by_unit, dependents_of,
}
use servicectl.Restart.Closure.{Visits, order_of, reverse_restart_closure}
use servicectl.Restart.Searched.{Restarts, direct, below, IsFit, IsVisited, step_of}
use servicectl.Restart.Ended.{visit_dependents-Ends}
use servicectl.Restart.Table.{is_dependent, dependents_of-contains}

-- A started unit that depends on another; the target of the restart is nobody's dependent.
unfoldable pub is_step : Units → Text → Text → Text → Bool
unfolding is_dependent
is_step u target name c = is_dependent u target name c && u.is_started c

Restarts-map :
    (f g : Text → Text → Bool) (root : Text)
    → ((d c : Text) → f d c ≡ g d c)
    → {c : Text} → Restarts f root c
    → Restarts g root c
Restarts-map f g root same (direct c h) = direct c (sym (same root c) ∙ h)
Restarts-map f g root same (below d c r h) =
    below d c (Restarts-map f g root same r) (sym (same d c) ∙ h)

module _ (u : Units) (target : Text) where
  abbrev deps : Text → List Text
  deps = dependents_of (dependents_by_unit u target)

  abbrev names : List Text
  names = list_service_unit_names u

  abbrev start : Visits
  start = record { visited = []; order = [] }

  step_of-is_step : (d c : Text) → step_of u deps names target d c ≡ is_step u target d c
  unfolding step_of is_step
  step_of-is_step d c = ap (λ b. b && u.is_started c) (dependents_of-contains u target d c)

  start-IsFit : IsFit names start
  unfolding contains
  start-IsFit = record {
    once = tt;
    ordered_once = tt;
    within = λ c h. absurd cc;
    known = λ c h. absurd cc;
  }

  deps-listed : (d c : Text) → contains (deps d) c ≡ true → contains names c ≡ true
  unfolding is_dependent
  deps-listed d c h = ground (arith, dependents_of-contains u target d c)

  -- After the search, what can be reached is visited.
  Restarts-visited :
      (t : Visits)
      → IsVisited (step_of u deps names target) u.is_started target (deps target) start t
      → {c : Text} → Restarts (step_of u deps names target) target c
      → contains t.visited c ≡ true
  unfolding step_of contains
  Restarts-visited t i (direct c h) = i.covers c (ground arith) (ground arith)
  Restarts-visited t i (below d c r h) = i.closed d c refl (Restarts-visited t i r) h

  found_iff :
      (t : Visits)
      → IsVisited (step_of u deps names target) u.is_started target (deps target) start t
      → (c : Text) → (contains t.order c ≡ true) ↔ Restarts (is_step u target) target c
  unfolding contains
  found_iff t i c = (
    λ h.
        Restarts-map (step_of u deps names target) (is_step u target) target step_of-is_step
          (i.sound c refl (ground (arith, i.in_order c))),
    λ r. ground (
      arith,
      i.in_order c,
      Restarts-visited t i (
          Restarts-map (is_step u target) (step_of u deps names target) target
            (λ d c. sym (step_of-is_step d c)) r),
    ),
  )

-- The search of reverseRestartClosure ends, fuel of one more than the units of the directories
-- being enough, and its result has each unit once that is started and depends on the restarted
-- service, at once or through other such units, and nothing else.
pub reverse_restart_closure-Restarts :
    (u : Units) (unit_name : Text)
    → (order : List Text) × (reverse_restart_closure u unit_name ≡ some order)
      × Distinct order
      × ((c : Text)
          → (contains order c ≡ true)
            ↔ Restarts
                (is_step u (normalize_service_name u.wireplumber unit_name))
                (normalize_service_name u.wireplumber unit_name)
                c)
unfolding reverse_restart_closure
reverse_restart_closure-Restarts u unit_name =
    let target = normalize_service_name u.wireplumber unit_name in
    let names = list_service_unit_names u in
    let (t, h, f, i) =
      visit_dependents-Ends u (deps u target) names target (deps-listed u target)
        (suc (length names)) target (start u target) (start-IsFit u target) (λ c h. direct c h)
        (omega arith) in
    (t.order, ap order_of h, f.ordered_once, found_iff u target t i)
