-- ===== src/DbusActivation/Routes.antt =====
-- internal/dbusactivation/routes.go: whether a service is started by its unit or by its command.
use servicectl.Base.{
  ℕ, Bool, false, ◌&&◌, ◌||◌, not, Option, none, some, List, [], ◌∷◌, ◌++◌, length, ◌==◌, nat_eq,
  Result, ok, err, if◌then◌else◌,
}
use servicectl.Base.Text.{
  Text, text, text_eq, is_empty, has_byte, trim_space, trim_suffix, split_on,
}

pub data RouteError : Type 0 where
  unit_not_found : Text → RouteError
  ambiguous_unit : Text → ℕ → RouteError
  unknown_service : Text → RouteError
  duplicate_service : Text → RouteError
  no_resolver : RouteError
  other_error : Text → RouteError

pub record ManagedRoute : Type 0 where
  pub unit : Text
  pub service_name : Text
  pub control_path : Text

pub data Route : Type 0 where
  managed : ManagedRoute → Route
  native : List Text → Text → Route

-- What is read from a service file.
pub record ServiceDefinition : Type 0 where
  pub name : Text
  pub argv : List Text
  pub user : Text
  pub systemd_service : Text
  pub path : Text
  pub priority : ℕ

-- The interface that finds units, whose files are outside.
pub record UnitResolver : Type 0 where
  pub resolve_explicit : Text → Result RouteError ManagedRoute
  pub resolve_bus_name : Text → Result RouteError (List ManagedRoute)

-- `path.Clean` on the parts of a path: the parts so far, the last first.
unfoldable pub clean_parts : Bool → List Text → List Text → List Text
clean_parts rooted kept [] = kept
clean_parts rooted kept (part ∷ rest) =
    let skip = clean_parts rooted kept rest in
    let push = clean_parts rooted (part ∷ kept) rest in
    let up : List Text = elim kept [
      | [] ↦ if rooted then skip else push
      | top ∷ below ↦ if top == text ".." then push else clean_parts rooted below rest
    ] in
    if is_empty part || part == text "." then skip else if part == text ".." then up else push

join_parts : List Text → Text → Text
join_parts [] path = path
join_parts (part ∷ []) path = part ++ path
join_parts (part ∷ next ∷ above) path = join_parts (next ∷ above) (b'/' ∷ part ++ path)

is_rooted : Text → Bool
is_rooted [] = false
is_rooted (c ∷ s) = c == b'/'

-- `filepath.Clean`.
unfoldable pub clean : Text → Text
unfolding clean_parts join_parts is_rooted split_on
clean path =
    let rooted = is_rooted path in
    let joined = join_parts (clean_parts rooted [] (split_on b'/' path)) [] in
    if rooted then b'/' ∷ joined else if is_empty joined then text "." else joined

unfoldable pub is_no_unit : Text → Bool
is_no_unit stem =
    is_empty stem
    || stem == text "."
    || stem == text ".."
    || has_byte stem b'/'
    || has_byte stem b'\\'
    || has_byte stem 0

-- A name of a unit without its suffix, the empty text if it is no name.
unfoldable pub normalize_unit : Text → Text
unfolding is_no_unit
normalize_unit name =
    let stem = trim_suffix (trim_space name) (text ".service") in
    if is_no_unit stem then [] else stem

unfoldable pub normalize_managed_route : ManagedRoute → ManagedRoute
unfolding normalize_unit
normalize_managed_route route = record route { unit = normalize_unit route.unit }

unfoldable pub legacy_managed_route : List Text → Option ManagedRoute
unfolding clean normalize_unit
legacy_managed_route (program ∷ command ∷ target ∷ []) =
    let cleaned = clean program in
    let unit = normalize_unit target in
    if not (command == text "activate-dbus")
    then none
    else if not (cleaned == text "/usr/bin/servicectl")
        && not (cleaned == text "/usr/local/bin/servicectl")
    then none
    else if is_empty unit
    then none
    else some (record { unit = unit; service_name = []; control_path = [] })
legacy_managed_route _ = none

unfoldable pub resolved : Result RouteError ManagedRoute → Result RouteError Route
unfolding normalize_managed_route
resolved (err e) = err e
resolved (ok route) = ok (managed (normalize_managed_route route))

-- `resolver.ResolveExplicit`. The source panics on a nil resolver here; the model has an error of its
-- own for that.
unfoldable pub explicit : Option UnitResolver → Text → Result RouteError Route
unfolding resolved
explicit none unit = err no_resolver
explicit (some r) unit = resolved (r.resolve_explicit unit)

unfoldable pub legacy_resolved :
    ManagedRoute → Result RouteError ManagedRoute → Result RouteError Route
unfolding normalize_managed_route
legacy_resolved route (ok found) = ok (managed (normalize_managed_route found))
legacy_resolved route (err (unit_not_found _)) = ok (managed route)
legacy_resolved route (err e) = err e

unfoldable pub legacy : Option UnitResolver → ManagedRoute → Result RouteError Route
unfolding legacy_resolved
legacy none route = ok (managed route)
legacy (some r) route = legacy_resolved route (r.resolve_explicit route.unit)

unfoldable pub command_of : Text → Text → List Text → Result RouteError Route
command_of name user [] = err (unknown_service name)
command_of name user (program ∷ rest) = ok (native (program ∷ rest) user)

unfoldable pub command_route : ServiceDefinition → Result RouteError Route
unfolding command_of
command_route d = command_of d.name d.user d.argv

unfoldable pub matched :
    ServiceDefinition → Result RouteError (List ManagedRoute) → Result RouteError Route
unfolding normalize_managed_route command_route
matched d (err e) = err e
matched d (ok []) = command_route d
matched d (ok (route ∷ [])) = ok (managed (normalize_managed_route route))
matched d (ok (route ∷ next ∷ rest)) = err (ambiguous_unit d.name (length (route ∷ next ∷ rest)))

unfoldable pub by_bus_name : Option UnitResolver → ServiceDefinition → Result RouteError Route
unfolding matched command_route
by_bus_name none d = command_route d
by_bus_name (some r) d = matched d (r.resolve_bus_name d.name)

unfoldable pub after_legacy :
    Option UnitResolver → ServiceDefinition → Option ManagedRoute → Result RouteError Route
unfolding legacy by_bus_name
after_legacy resolver d (some route) = legacy resolver route
after_legacy resolver d none = by_bus_name resolver d

unfoldable pub select_route : ServiceDefinition → Option UnitResolver → Result RouteError Route
unfolding explicit after_legacy
select_route d resolver =
    if not (is_empty (trim_space d.systemd_service))
    then explicit resolver d.systemd_service
    else after_legacy resolver d (legacy_managed_route d.argv)
