-- ===== src/Restart/Table.antt =====
-- deps.go: the table of reverseRestartClosure holds for each name the units that need it.
use servicectl.Base.{
  ◌≡◌, ap, ◌∙◌, Bool, true, false, ◌&&◌, ◌||◌, not, Option, none, some, List, [], ◌∷◌, ◌++◌, ◌==◌,
  ==_iff, get, get_or, put, get_or-put, contains, contains-append, arith,
}
use servicectl.Base.Sort.{contains-sort_by}
use servicectl.Base.Text.{Text, text_eq, text_ltb}
use servicectl.EnabledDag.Graph.{SystemdUnit}
use servicectl.Restart.Dependents.{
  Units, reverse_restart_dependencies, list_service_unit_names, Dependents, add_dependent,
  add_unit_dependents, add_candidates, dependents_by_unit, dependents_of,
}

unfoldable pub unit_needs : Units → Option SystemdUnit → Text → Bool
unit_needs u none name = false
unit_needs u (some unit) name = contains (reverse_restart_dependencies u.wireplumber unit) name

-- A unit other than the target whose file names a unit in Requires, BindsTo or PartOf.
unfoldable pub is_dependent : Units → Text → Text → Text → Bool
unfolding unit_needs
is_dependent u target name c =
    contains (list_service_unit_names u) c && (not (c == target) && unit_needs u (u.parse c) name)

add_dependent-contains :
    (candidate : Text) (m : Dependents) (deps : List Text) (name c : Text)
    → contains (get_or (add_dependent candidate m deps) name []) c
      ≡ (contains (get_or m name []) c || (contains deps name && candidate == c))
unfolding add_dependent contains
add_dependent-contains candidate m [] name c = ground arith
add_dependent-contains candidate m (dep ∷ rest) name c = ground (
  arith,
  add_dependent-contains candidate (put m dep (get_or m dep [] ++ (candidate ∷ []))) rest name c,
  get_or-put m dep name (get_or m dep [] ++ (candidate ∷ [])) [],
  contains-append (get_or m name []) (candidate ∷ []) c,
  same_entry m dep name,
)
  where
    same_entry :
        (m : Dependents) (dep name : Text)
        → (dep == name) ≡ true
        → get_or m dep [] ≡ get_or m name []
    same_entry m dep name h = ap (λ k. get_or m k []) ((==_iff dep name).0 h)

add_unit_dependents-contains :
    (u : Units) (candidate : Text) (m : Dependents) (p : Option SystemdUnit) (name c : Text)
    → contains (get_or (add_unit_dependents u.wireplumber candidate m p) name []) c
      ≡ (contains (get_or m name []) c || (unit_needs u p name && candidate == c))
unfolding add_unit_dependents unit_needs
add_unit_dependents-contains u candidate m none name c = ground arith
add_unit_dependents-contains u candidate m (some unit) name c =
    add_dependent-contains candidate m (reverse_restart_dependencies u.wireplumber unit) name c

add_candidates-contains :
    (u : Units) (target : Text) (m : Dependents) (candidates : List Text) (name c : Text)
    → contains (get_or (add_candidates u target m candidates) name []) c ≡ (
        contains (get_or m name []) c
        || (contains candidates c && (not (c == target) && unit_needs u (u.parse c) name)))
unfolding add_candidates contains
add_candidates-contains u target m [] name c = ground arith
add_candidates-contains u target m (candidate ∷ rest) name c = ground (
  arith,
  add_candidates-contains u target m rest name c,
  add_candidates-contains u target
      (add_unit_dependents u.wireplumber candidate m (u.parse candidate)) rest name c,
  add_unit_dependents-contains u candidate m (u.parse candidate) name c,
  same_target candidate c,
  same_needs candidate c,
)
  where
    same_target : (a b : Text) → (a == b) ≡ true → (a == target) ≡ (b == target)
    same_target a b h = ap (λ k. k == target) ((==_iff a b).0 h)

    same_needs :
        (a b : Text)
        → (a == b) ≡ true
        → unit_needs u (u.parse a) name ≡ unit_needs u (u.parse b) name
    same_needs a b h = ap (λ k. unit_needs u (u.parse k) name) ((==_iff a b).0 h)

pub dependents_of-contains :
    (u : Units) (target name c : Text)
    → contains (dependents_of (dependents_by_unit u target) name) c ≡ is_dependent u target name c
unfolding dependents_of dependents_by_unit is_dependent get_or get contains
dependents_of-contains u target name c =
    contains-sort_by text_ltb (get_or (dependents_by_unit u target) name []) c
    ∙ add_candidates-contains u target [] (list_service_unit_names u) name c
