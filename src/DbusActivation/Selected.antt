-- ===== src/DbusActivation/Selected.antt =====
-- internal/dbusactivation/routes.go: what SelectRoute may return.
use servicectl.Base.{
  ◌≡◌, ◌≢◌, refl, subst, true, false, ◌&&◌, not, Option, none, some, List, [], ◌∷◌, ◌==◌, nat_eq,
  Result, ok, err, if-intro, arith, ==_iff,
}
use servicectl.Base.Text.{Text, text, text_eq, is_empty, has_byte, trim_space, trim_suffix}
use servicectl.DbusActivation.Routes.{
  RouteError, unit_not_found, ambiguous_unit, unknown_service, duplicate_service, no_resolver,
  other_error, ManagedRoute, Route, managed, native, ServiceDefinition, UnitResolver,
  normalize_unit, clean, normalize_managed_route, legacy_managed_route, resolved, explicit,
  legacy_resolved, legacy, command_of, is_no_unit, command_route, matched, by_bus_name,
  after_legacy, select_route,
}

-- A text that is safe as a part of a path, or empty.
pub record IsUnit (u : Text) : Type 0 where
  pub no_slash : has_byte u b'/' ≡ false
  pub no_backslash : has_byte u b'\\' ≡ false
  pub no_zero : has_byte u 0 ≡ false
  pub not_dot : u ≢ text "."
  pub not_dots : u ≢ text ".."

is_no_unit-IsUnit : (stem : Text) → is_no_unit stem ≡ false → IsUnit stem
unfolding is_no_unit
is_no_unit-IsUnit stem h = record {
  no_slash = ground arith;
  no_backslash = ground arith;
  no_zero = ground arith;
  not_dot = λ e. absurd (ground (arith, ==_iff stem (text ".")));
  not_dots = λ e. absurd (ground (arith, ==_iff stem (text "..")));
}

empty-IsUnit : IsUnit []
unfolding has_byte
empty-IsUnit = record {
  no_slash = refl;
  no_backslash = refl;
  no_zero = refl;
  not_dot = λ e. cc;
  not_dots = λ e. cc;
}

normalize_unit-IsUnit : (name : Text) → IsUnit (normalize_unit name)
unfolding normalize_unit
normalize_unit-IsUnit name =
    let stem = trim_suffix (trim_space name) (text ".service") in
    if-intro IsUnit (is_no_unit stem) (λ _. empty-IsUnit) (λ h. is_no_unit-IsUnit stem h)

-- That no unit claims the name of a service.
unfoldable pub Unclaimed : Option UnitResolver → ServiceDefinition → Type 0
Unclaimed none d = Unit
Unclaimed (some r) d = r.resolve_bus_name d.name ≡ ok []

-- What a result may be: a unit's name that is safe in a path; or the definition's own command, where
-- the definition names no unit, does not forward to one, and no unit claims the name.
unfoldable pub Fits : Option UnitResolver → ServiceDefinition → Result RouteError Route → Type 0
Fits resolver d (err e) = Unit
Fits resolver d (ok (managed route)) = IsUnit route.unit
Fits resolver d (ok (native argv user)) =
    (is_empty (trim_space d.systemd_service) ≡ true)
    × (legacy_managed_route d.argv ≡ none)
    × Unclaimed resolver d
    × (argv ≡ d.argv)
    × (user ≡ d.user)
    × (argv ≢ [])

module _ (resolver : Option UnitResolver) (d : ServiceDefinition) where
  resolved-Fits : (r : Result RouteError ManagedRoute) → Fits resolver d (resolved r)
  unfolding Fits resolved normalize_managed_route
  resolved-Fits (err e) = tt
  resolved-Fits (ok route) = normalize_unit-IsUnit route.unit

  legacy_resolved-Fits :
      (route : ManagedRoute) (r : Result RouteError ManagedRoute)
      → IsUnit route.unit
      → Fits resolver d (legacy_resolved route r)
  unfolding Fits legacy_resolved normalize_managed_route
  legacy_resolved-Fits route (ok found) h = normalize_unit-IsUnit found.unit
  legacy_resolved-Fits route (err (unit_not_found u)) h = h
  legacy_resolved-Fits route (err (ambiguous_unit u n)) h = tt
  legacy_resolved-Fits route (err (unknown_service u)) h = tt
  legacy_resolved-Fits route (err (duplicate_service u)) h = tt
  legacy_resolved-Fits route (err no_resolver) h = tt
  legacy_resolved-Fits route (err (other_error u)) h = tt

  command_of-Fits :
      (argv : List Text)
      → argv ≡ d.argv
      → is_empty (trim_space d.systemd_service) ≡ true
      → legacy_managed_route d.argv ≡ none
      → Unclaimed resolver d
      → Fits resolver d (command_of d.name d.user argv)
  unfolding Fits command_of
  command_of-Fits [] same blank own free = tt
  command_of-Fits (program ∷ rest) same blank own free = (blank, own, free, same, refl, λ e. cc)

module _ (d : ServiceDefinition) where
  matched-Fits :
      (r : UnitResolver) (found : Result RouteError (List ManagedRoute))
      → r.resolve_bus_name d.name ≡ found
      → is_empty (trim_space d.systemd_service) ≡ true
      → legacy_managed_route d.argv ≡ none
      → Fits (some r) d (matched d found)
  unfolding Fits matched Unclaimed normalize_managed_route command_route
  matched-Fits r (err e) same blank own = tt
  matched-Fits r (ok []) same blank own = command_of-Fits (some r) d d.argv refl blank own same
  matched-Fits r (ok (route ∷ [])) same blank own = normalize_unit-IsUnit route.unit
  matched-Fits r (ok (route ∷ next ∷ rest)) same blank own = tt

  by_bus_name-Fits :
      (resolver : Option UnitResolver)
      → is_empty (trim_space d.systemd_service) ≡ true
      → legacy_managed_route d.argv ≡ none
      → Fits resolver d (by_bus_name resolver d)
  unfolding by_bus_name command_route Unclaimed
  by_bus_name-Fits none blank own = command_of-Fits none d d.argv refl blank own tt
  by_bus_name-Fits (some r) blank own = matched-Fits r (r.resolve_bus_name d.name) refl blank own

legacy_managed_route-IsUnit :
    (argv : List Text) (route : ManagedRoute)
    → legacy_managed_route argv ≡ some route
    → IsUnit route.unit
unfolding legacy_managed_route
legacy_managed_route-IsUnit (program ∷ command ∷ target ∷ []) route =
    let cleaned = clean program in
    let Good : Option ManagedRoute → Type 0 = λ o. o ≡ some route → IsUnit route.unit in
    if-intro Good (not (command == text "activate-dbus")) (λ _ h. cc)
      (λ _.
        if-intro Good
          (not (cleaned == text "/usr/bin/servicectl")
            && not (cleaned == text "/usr/local/bin/servicectl"))
          (λ _ h. cc)
          (λ _.
            if-intro Good (is_empty (normalize_unit target)) (λ _ h. cc)
              (λ _ h. subst IsUnit (cc) (normalize_unit-IsUnit target))))
legacy_managed_route-IsUnit [] route = λ h. cc
legacy_managed_route-IsUnit (a ∷ []) route = λ h. cc
legacy_managed_route-IsUnit (a ∷ b ∷ []) route = λ h. cc
legacy_managed_route-IsUnit (a ∷ b ∷ c ∷ e ∷ rest) route = λ h. cc

explicit-Fits :
    (resolver : Option UnitResolver) (d : ServiceDefinition) (unit : Text)
    → Fits resolver d (explicit resolver unit)
unfolding explicit Fits
explicit-Fits none d unit = tt
explicit-Fits (some r) d unit = resolved-Fits (some r) d (r.resolve_explicit unit)

legacy-Fits :
    (resolver : Option UnitResolver) (d : ServiceDefinition) (route : ManagedRoute)
    → IsUnit route.unit
    → Fits resolver d (legacy resolver route)
unfolding legacy Fits
legacy-Fits none d route h = h
legacy-Fits (some r) d route h =
    legacy_resolved-Fits (some r) d route (r.resolve_explicit route.unit) h

after_legacy-Fits :
    (resolver : Option UnitResolver) (d : ServiceDefinition) (o : Option ManagedRoute)
    → legacy_managed_route d.argv ≡ o
    → is_empty (trim_space d.systemd_service) ≡ true
    → Fits resolver d (after_legacy resolver d o)
unfolding after_legacy
after_legacy-Fits resolver d (some route) same blank =
    legacy-Fits resolver d route (legacy_managed_route-IsUnit d.argv route same)
after_legacy-Fits resolver d none same blank = by_bus_name-Fits d resolver blank same

-- A managed route that SelectRoute returns names a unit that is safe in a path, or none; a native
-- route is the definition's own command and user, and is returned only where the definition names no
-- unit, its command does not forward to one, and no unit claims the bus name.
pub select_route-Fits :
    (d : ServiceDefinition) (resolver : Option UnitResolver)
    → Fits resolver d (select_route d resolver)
unfolding select_route
select_route-Fits d resolver =
    if-intro (Fits resolver d) (not (is_empty (trim_space d.systemd_service)))
      (λ _. explicit-Fits resolver d d.systemd_service)
      (λ h. after_legacy-Fits resolver d (legacy_managed_route d.argv) refl (ground arith))
