-- ===== src/Propertyd/Effective.antt =====
-- cmd/sys-propertyd/main.go: which units unitLists takes as effective.
use servicectl.Base.{
  ◌≡◌, refl, ◌∙◌, Bool, true, false, ◌&&◌, ◌||◌, not, List, [], ◌∷◌, ◌==◌, ==_iff, get_or, put,
  contains, if-intro, arith,
}
use servicectl.Base.Sort.{contains-sort_by}
use servicectl.Base.Text.{Text, text_eq, text_ltb, is_empty}
use servicectl.Propertyd.Store.{
  Mode, Membership, ModeState, Daemon, mode_state, normalize_unit_name, present_names,
  sorted_membership,
}
use servicectl.Propertyd.Lists.{
  add_replacement, replacement_of, add_units, no_group, add_groups, effective_units,
}

-- Whether a unit is among names as they stand in a group's definition.
unfoldable pub names_unit : List Text → Text → Bool
names_unit [] u = false
names_unit (name ∷ names) u =
    (not (is_empty (normalize_unit_name name)) && normalize_unit_name name == u)
    || names_unit names u

unfoldable pub in_groups : ModeState → List Text → Text → Bool
unfolding names_unit
in_groups s [] u = false
in_groups s (group ∷ groups) u =
    names_unit (get_or s.groups group no_group).units u || in_groups s groups u

present_names-put :
    (m : Membership) (name u : Text)
    → contains (present_names (put m name true)) u ≡ (name == u || contains (present_names m) u)
unfolding present_names put contains
present_names-put [] name u = refl
present_names-put ((k, b) ∷ m) name u =
    ground (arith, ==_iff k name, ==_iff k u, ==_iff name u, present_names-put m name u)

replacement_of-contains :
    (m : Membership) (names : List Text) (u : Text)
    → contains (present_names (replacement_of m names)) u
      ≡ (contains (present_names m) u || names_unit names u)
unfolding replacement_of add_replacement names_unit
replacement_of-contains m [] u = ground arith
replacement_of-contains m (name ∷ names) u =
    let n = normalize_unit_name name in
    if-intro
      (λ (k : Membership).
        contains (present_names (replacement_of k names)) u
        ≡ (contains (present_names m) u || ((not (is_empty n) && n == u) || names_unit names u)))
      (is_empty n) (λ h. ground (arith, replacement_of-contains m names u))
      (λ h. ground (arith, replacement_of-contains (put m n true) names u, present_names-put m n u))

add_units-contains :
    (m : Membership) (units : List Text) (u : Text)
    → contains (present_names (add_units m units)) u
      ≡ (contains (present_names m) u || contains units u)
unfolding add_units contains
add_units-contains m [] u = ground arith
add_units-contains m (unit ∷ units) u =
    ground (arith, add_units-contains (put m unit true) units u, present_names-put m unit u)

add_groups-contains :
    (s : ModeState) (m : Membership) (groups : List Text) (u : Text)
    → contains (present_names (add_groups s m groups)) u
      ≡ (contains (present_names m) u || in_groups s groups u)
unfolding add_groups in_groups
add_groups-contains s m [] u = ground arith
add_groups-contains s m (group ∷ groups) u = ground (
  arith,
  add_groups-contains s (replacement_of m (get_or s.groups group no_group).units) groups u,
  replacement_of-contains m (get_or s.groups group no_group).units u,
)

-- The effective units of a mode are those that are listed as enabled, those that are listed as
-- running, and the units that the definition of an enabled group names, in their full spelling.
pub effective_units-contains :
    (mode : Mode) (d : Daemon) (u : Text)
    → contains (effective_units mode d) u ≡ (
        contains (sorted_membership (mode_state mode d).enabled_units) u
        || (contains (sorted_membership (mode_state mode d).runner_units) u
            || in_groups
                (mode_state mode d)
                (sorted_membership (mode_state mode d).enabled_groups)
                u))
unfolding effective_units contains
effective_units-contains mode d u =
    let s = mode_state mode d in
    let enabled = sorted_membership s.enabled_units in
    let running = sorted_membership s.runner_units in
    let groups = sorted_membership s.enabled_groups in
    sorted (add_groups s (add_units (add_units [] enabled) running) groups)
    ∙ ground (
      arith,
      add_groups-contains s (add_units (add_units [] enabled) running) groups u,
      add_units-contains (add_units [] enabled) running u,
      add_units-contains [] enabled u,
    )
  where
    sorted : (m : Membership) → contains (sorted_membership m) u ≡ contains (present_names m) u
    sorted m = contains-sort_by text_ltb (present_names m) u
