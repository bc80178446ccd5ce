-- ===== src/Restart/Closure.antt =====
-- deps.go: reverseRestartClosure, the started services that depend on a service.
use servicectl.Base.{
  ℕ, zero, suc, ◌||◌, not, Option, none, some, List, [], ◌∷◌, ◌++◌, length, contains, if◌then◌else◌,
}
use servicectl.Base.Text.{Text, text_eq}
use servicectl.Restart.Dependents.{
  Units, normalize_service_name, list_service_unit_names, dependents_by_unit, dependents_of,
}

pub record Visits : Type 0 where
  pub visited : List Text
  pub order : List Text

unfoldable pub mark_visited : Text → Visits → Visits
mark_visited name s = record s { visited = name ∷ s.visited }

unfoldable pub order_dependent : Text → Visits → Visits
order_dependent name s = record s { order = s.order ++ (name ∷ []) }

unfoldable pub order_after : Text → Option Visits → Option Visits
unfolding order_dependent
order_after name none = none
order_after name (some s) = some (order_dependent name s)

-- One round of the loop in `visit`.
unfoldable pub visit_one : Units → (Text → Visits → Option Visits) → Text → Visits → Option Visits
unfolding order_after mark_visited
visit_one u search dependent s =
    let after = order_after dependent (search dependent (mark_visited dependent s)) in
    if contains s.visited dependent || not (u.is_started dependent) then some s else after

unfoldable pub then_visit : (Visits → Option Visits) → Option Visits → Option Visits
then_visit next none = none
then_visit next (some s) = next s

unfoldable pub visit_each :
    Units → (Text → Visits → Option Visits) → List Text → Visits → Option Visits
unfolding visit_one then_visit
visit_each u search [] s = some s
visit_each u search (dependent ∷ rest) s =
    then_visit (visit_each u search rest) (visit_one u search dependent s)

-- The closure `visit`, on fuel; `none` where the fuel is spent.
unfoldable pub visit_dependents : Units → (Text → List Text) → ℕ → Text → Visits → Option Visits
unfolding visit_each
visit_dependents u dependents zero name s = none
visit_dependents u dependents (suc fuel) name s =
    visit_each u (visit_dependents u dependents fuel) (dependents name) s

unfoldable pub order_of : Option Visits → Option (List Text)
order_of none = none
order_of (some s) = some s.order

unfoldable pub reverse_restart_closure : Units → Text → Option (List Text)
unfolding visit_dependents order_of dependents_of
reverse_restart_closure u unit_name =
    let target = normalize_service_name u.wireplumber unit_name in
    let table = dependents_by_unit u target in
    order_of (
      visit_dependents u (dependents_of table) (suc (length (list_service_unit_names u))) target
        (record { visited = []; order = [] }))
