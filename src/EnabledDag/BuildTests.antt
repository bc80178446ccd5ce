-- ===== src/EnabledDag/BuildTests.antt =====
-- A run of the construction of the graph of enabled services, and its theorems at that input.
use servicectl.Base.{
  suc, Bool, true, false, List, [], ◌∷◌, Option, none, some, ◌≡◌, ◌≢◌, refl, subst, Result, ok, err,
  ◌==◌, if◌then◌else◌, contains, get_or, get, put, length,
}
use servicectl.Base.Text.{Text, text, text_eq, text_beq, trim_space, trim_suffix, has_suffix}
use servicectl.Base.Sort.{sort_by}
use servicectl.EnabledDag.Names.{
  normalize_service_unit_name, resolve_unit_alias, s6_orchestrd_service_name,
}
use servicectl.EnabledDag.Graph.{ServiceDag, SystemdUnit, loose_dependencies}
use servicectl.EnabledDag.Build.{
  UnitFiles, EnabledRootSet, mark_node, set_owner, give_hint, add_dependencies, set_dependency,
  out_of_fuel, build_enabled_service_dag, normalize,
}
use servicectl.EnabledDag.Project.{
  project_orchestrd_dependencies, needs, project_orchestrd_dependencies-needs,
}
use servicectl.EnabledDag.Closed.{IsComplete, build_enabled_service_dag-IsComplete}
use servicectl.EnabledDag.Fits.{Covers, Within}
use servicectl.EnabledDag.Drained.{build_enabled_service_dag-total}

-- `web` wants `db`, given without its suffix; nothing else has a unit file.
abbrev pub web_unit : SystemdUnit
web_unit = record { requires = []; wants = text "db" ∷ []; after = []; binds_to = []; part_of = [] }

abbrev pub read_web : Bool → Result Text (Option SystemdUnit)
read_web t = if t then ok (some web_unit) else ok none

abbrev pub files : UnitFiles
files = record { wireplumber = false; lookup = λ name. read_web (name == text "web.service") }

abbrev pub roots : EnabledRootSet
roots = record { standalone = text " web " ∷ []; groups = [] }

abbrev names : List Text
names = text "web.service" ∷ text "db.service" ∷ []

web_covered : Within files names (loose_dependencies web_unit)
unfolding Within loose_dependencies normalize normalize_service_unit_name trim_space has_suffix
    trim_suffix resolve_unit_alias text_beq contains get_or get
web_covered = (refl, tt)

unit_covered :
    (t : Bool) (unit : SystemdUnit)
    → read_web t ≡ ok (some unit)
    → Within files names (loose_dependencies unit)
unit_covered true unit e =
    subst (λ v. Within files names (loose_dependencies v)) same_unit web_covered
  where
    same_unit : web_unit ≡ unit
    same_unit = cc
unit_covered false unit e = cc

names-Covers : Covers files roots names
unfolding Within normalize normalize_service_unit_name trim_space has_suffix trim_suffix
    resolve_unit_alias text_beq contains get_or get
names-Covers = record {
  standalone = (refl, tt);
  grouped = λ group. tt;
  looked_up = λ n unit h e. unit_covered (n == text "web.service") unit e;
}

abbrev pub built : ServiceDag
built = record {
  nodes = text "web.service" ∷ text "db.service" ∷ [];
  deps_by_node = (text "web.service", text "db.service" ∷ []) ∷ [];
  order_hint = (text "web.service", 0) ∷ (text "db.service", 1) ∷ [];
  owner_by_unit = (text "web.service", text "web-orchestrd") ∷ [];
}

pub build_files : build_enabled_service_dag files 3 roots ≡ ok built
unfolding build_enabled_service_dag sort_by put mark_node set_owner give_hint loose_dependencies
    add_dependencies set_dependency s6_orchestrd_service_name normalize normalize_service_unit_name
    trim_space has_suffix trim_suffix resolve_unit_alias text_beq contains get_or get
build_files = refl

build_enabled_service_dag-IsComplete_example : IsComplete built
build_enabled_service_dag-IsComplete_example =
    build_enabled_service_dag-IsComplete files 3 roots build_files

build_enabled_service_dag-total_example :
    build_enabled_service_dag files (suc (length names)) roots ≢ err out_of_fuel
build_enabled_service_dag-total_example =
    build_enabled_service_dag-total files roots names names-Covers

-- `web` and `db` under their own owners.
abbrev owned_dag : ServiceDag
owned_dag = record built {
  owner_by_unit =
      (text "web.service", text "web-orchestrd") ∷ (text "db.service", text "db-orchestrd") ∷ [];
}

web_needs_db :
    contains
      (get_or (project_orchestrd_dependencies owned_dag) (text "web-orchestrd") [])
      (text "db-orchestrd")
    ≡ true
unfolding project_orchestrd_dependencies put text_beq contains get_or get trim_space
web_needs_db = refl

project_orchestrd_dependencies-needs_example :
    contains
      (get_or (project_orchestrd_dependencies owned_dag) (text "web-orchestrd") [])
      (text "db-orchestrd")
    ≡ needs owned_dag owned_dag.deps_by_node (text "web-orchestrd") (text "db-orchestrd")
project_orchestrd_dependencies-needs_example =
    project_orchestrd_dependencies-needs owned_dag (text "web-orchestrd") (text "db-orchestrd")
