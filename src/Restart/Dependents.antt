-- ===== src/Restart/Dependents.antt =====
-- deps.go: which services depend on which, among the unit files of the directories.
use servicectl.Base.{
  Bool, ◌||◌, not, Option, none, some, List, [], ◌∷◌, ◌++◌, ◌==◌, Map, get_or, put, contains,
  if◌then◌else◌,
}
use servicectl.Base.Sort.{sort_by}
use servicectl.Base.Text.{
  Text, text, text_eq, text_ltb, is_empty, trim_space, trim_suffix, has_suffix,
}
use servicectl.EnabledDag.Graph.{SystemdUnit}
use servicectl.EnabledDag.Names.{resolve_unit_alias}

pub record DirEntry : Type 0 where
  pub file_name : Text
  pub is_dir : Bool

-- What is outside: whether a unit file `wireplumber` can be parsed, the directories, of which `none`
-- cannot be read, the unit files that can be parsed, and which units are started.
pub record Units : Type 0 where
  pub wireplumber : Bool
  pub directories : List (Option (List DirEntry))
  pub parse : Text → Option SystemdUnit
  pub is_started : Text → Bool

unfoldable pub include_dependency_name : Text → Bool
include_dependency_name dep =
    let clean = trim_space dep in
    not (is_empty clean || (has_suffix clean (text ".target") || has_suffix clean (text ".socket")))

unfoldable pub normalize_service_name : Bool → Text → Text
normalize_service_name wireplumber name =
    let clean = trim_suffix (trim_space name) (text ".service") in
    if is_empty clean
    then []
    else trim_suffix (resolve_unit_alias wireplumber clean) (text ".service")

-- The loop of reverseRestartDependencies with `seen`, whose members are those of the result.
unfoldable pub collect_dependencies : Bool → List Text → List Text → List Text
collect_dependencies wireplumber seen [] = []
collect_dependencies wireplumber seen (dep ∷ rest) =
    let name = normalize_service_name wireplumber dep in
    let skipped = collect_dependencies wireplumber seen rest in
    let kept = collect_dependencies wireplumber (name ∷ seen) rest in
    if is_empty name || not (include_dependency_name name) || contains seen name
    then skipped
    else name ∷ kept

unfoldable pub reverse_restart_dependencies : Bool → SystemdUnit → List Text
reverse_restart_dependencies wireplumber u =
    collect_dependencies wireplumber [] (u.requires ++ (u.binds_to ++ u.part_of))

-- The loop over the entries of a directory; the units so far are also the seen ones.
unfoldable pub list_entries : Bool → List Text → List DirEntry → List Text
list_entries wireplumber units [] = units
list_entries wireplumber units (entry ∷ rest) =
    let name = normalize_service_name wireplumber entry.file_name in
    let skipped = list_entries wireplumber units rest in
    let kept = list_entries wireplumber (units ++ (name ∷ [])) rest in
    if entry.is_dir
      || not (has_suffix entry.file_name (text ".service"))
      || (is_empty name || contains units name)
    then skipped
    else kept

unfoldable pub list_directories : Bool → List Text → List (Option (List DirEntry)) → List Text
unfolding list_entries
list_directories wireplumber units [] = units
list_directories wireplumber units (none ∷ rest) = list_directories wireplumber units rest
list_directories wireplumber units (some entries ∷ rest) =
    list_directories wireplumber (list_entries wireplumber units entries) rest

unfoldable pub list_service_unit_names : Units → List Text
list_service_unit_names u = sort_by text_ltb (list_directories u.wireplumber [] u.directories)

abbrev pub Dependents : Type 0
Dependents = Map Text (List Text)

unfoldable pub add_dependent : Text → Dependents → List Text → Dependents
add_dependent candidate m [] = m
add_dependent candidate m (dep ∷ rest) =
    add_dependent candidate (put m dep (get_or m dep [] ++ (candidate ∷ []))) rest

unfoldable pub add_unit_dependents : Bool → Text → Dependents → Option SystemdUnit → Dependents
unfolding add_dependent reverse_restart_dependencies
add_unit_dependents wireplumber candidate m none = m
add_unit_dependents wireplumber candidate m (some unit) =
    add_dependent candidate m (reverse_restart_dependencies wireplumber unit)

unfoldable pub add_candidates : Units → Text → Dependents → List Text → Dependents
unfolding add_unit_dependents
add_candidates u target m [] = m
add_candidates u target m (candidate ∷ rest) =
    let skipped = add_candidates u target m rest in
    let added =
      add_candidates u target (add_unit_dependents u.wireplumber candidate m (u.parse candidate))
        rest in
    if candidate == target then skipped else added

unfoldable pub dependents_by_unit : Units → Text → Dependents
unfolding add_candidates list_service_unit_names
dependents_by_unit u target = add_candidates u target [] (list_service_unit_names u)

-- `dependentsByUnit[name]`, once it is sorted.
unfoldable pub dependents_of : Dependents → Text → List Text
dependents_of m name = sort_by text_ltb (get_or m name [])
