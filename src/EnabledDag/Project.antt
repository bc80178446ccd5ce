-- ===== src/EnabledDag/Project.antt =====
-- OwnerOf and ProjectOrchestrdDependencies of enabled_dag.go. Go visits the entries of a map in no
-- fixed order; here they come as the map lists them.
use servicectl.Base.{
  subst, sym, Bool-cases, inl, inr, ==_refl, Bool, true, false, not, ◌&&◌, ◌||◌, List, [], ◌∷◌,
  ◌++◌, ◌≡◌, refl, ◌∙◌, ap, Map, get, get_or, put, get_or-put, contains, contains-append, is_some,
  ◌==◌, ==_iff, if◌then◌else◌, if-intro, arith,
}
use servicectl.Base.Text.{Text, text_eq, is_empty, trim_space}
use servicectl.EnabledDag.Names.{normalize_service_unit_name}
use servicectl.EnabledDag.Graph.{ServiceDag}

-- `g.ownerByUnit[name]`.
unfoldable pub owner : ServiceDag → Text → Text
owner g name = get_or g.owner_by_unit name []

unfoldable pub owner_of : Bool → ServiceDag → Text → Text
unfolding owner
owner_of wireplumber g unit = owner g (normalize_service_unit_name wireplumber unit)

-- `if result[name] == nil { result[name] = make(...) }`.
unfoldable pub ensure : Text → Map Text (List Text) → Map Text (List Text)
ensure name result = if is_some (get result name) then result else put result name []

unfoldable pub start_owners : Map Text Text → Map Text (List Text) → Map Text (List Text)
unfolding ensure
start_owners [] result = result
start_owners ((_, name) ∷ rest) result =
    start_owners rest (if is_empty (trim_space name) then result else ensure name result)

-- `result[source][target] = true`.
unfoldable pub set_target : Text → Text → Map Text (List Text) → Map Text (List Text)
set_target source target result =
    let targets = get_or result source [] in
    put result source (if contains targets target then targets else targets ++ target ∷ [])

unfoldable pub add_targets :
    ServiceDag → Text → List Text → Map Text (List Text) → Map Text (List Text)
unfolding owner set_target
add_targets g source [] result = result
add_targets g source (dep ∷ rest) result =
    let target = owner g dep in
    add_targets g source rest
      (if is_empty target || target == source then result else set_target source target result)

unfoldable pub add_sources :
    ServiceDag → Map Text (List Text) → Map Text (List Text) → Map Text (List Text)
unfolding owner ensure add_targets
add_sources g [] result = result
add_sources g ((service, deps) ∷ rest) result =
    let source = owner g service in
    add_sources g rest
      (if is_empty source then result else add_targets g source deps (ensure source result))

unfoldable pub project_orchestrd_dependencies : ServiceDag → Map Text (List Text)
unfolding start_owners add_sources
project_orchestrd_dependencies g = add_sources g g.deps_by_node (start_owners g.owner_by_unit [])

-- Whether one of the dependencies is owned by the second, which is an owner other than the first.
unfoldable pub any_owned : ServiceDag → List Text → Text → Text → Bool
unfolding owner
any_owned g [] a b = false
any_owned g (dep ∷ rest) a b =
    (owner g dep == b && (not (is_empty b) && not (b == a))) || any_owned g rest a b

-- Whether a service of the first owner depends on a service of the second.
unfoldable pub needs : ServiceDag → Map Text (List Text) → Text → Text → Bool
unfolding any_owned
needs g [] a b = false
needs g ((service, deps) ∷ rest) a b =
    (owner g service == a && (not (is_empty a) && any_owned g deps a b)) || needs g rest a b

missing :
    (name : Text) (m : Map Text (List Text)) → is_some (get m name) ≡ false → get_or m name [] ≡ []
unfolding get_or
missing name m h = ground (arith, h)

ensure-same :
    (name : Text) (m : Map Text (List Text)) (a b : Text)
    → contains (get_or (ensure name m) a []) b ≡ contains (get_or m a []) b
unfolding ensure contains
ensure-same name m a b =
    if-intro (λ (r : Map Text (List Text)). contains (get_or r a []) b ≡ contains (get_or m a []) b)
      (is_some (get m name)) (λ _. refl)
      (λ fresh. ground (arith, get_or-put m name a [] [], missing name m fresh, ==_iff name a))

set_target-contains :
    (source target : Text) (m : Map Text (List Text)) (a b : Text)
    → contains (get_or (set_target source target m) a []) b
      ≡ (contains (get_or m a []) b || (source == a && target == b))
unfolding set_target contains
set_target-contains source target m a b =
    let targets = get_or m source [] in
    ground (
      arith,
      get_or-put m source a (if contains targets target then targets else targets ++ target ∷ [])
          [],
      contains-append targets (target ∷ []) b,
      ==_iff source a,
      ==_iff target b,
    )

same_empty : (s a : Text) → (s == a) ≡ true → is_empty s ≡ is_empty a
same_empty s a e = ap (λ t. is_empty t) ((==_iff s a).0 e)

-- The tests of a target, said of the second owner.
same_tests :
    (t s a b : Text)
    → (not (is_empty t || t == s) && (s == a && t == b))
      ≡ (s == a && (t == b && (not (is_empty b) && not (b == a))))
same_tests t s a b = elim (Bool-cases (s == a)) [
  | inr f ↦ ground (arith, f)
  | inl e ↦ elim (Bool-cases (t == b)) [
    | inr f ↦ ground (arith, f)
    | inl h ↦
        subst
          (λ s.
            (not (is_empty t || t == s) && (s == a && t == b))
            ≡ (s == a && (t == b && (not (is_empty b) && not (b == a)))))
          (sym ((==_iff s a).0 e))
          (subst
            (λ t.
              (not (is_empty t || t == a) && (a == a && t == b))
              ≡ (a == a && (t == b && (not (is_empty b) && not (b == a)))))
            (sym ((==_iff t b).0 h)) (ground (arith, ==_refl a, ==_refl b)))
  ]
]

add_targets-contains :
    (g : ServiceDag) (source : Text) (deps : List Text) (m : Map Text (List Text)) (a b : Text)
    → contains (get_or (add_targets g source deps m) a []) b
      ≡ (contains (get_or m a []) b || (source == a && any_owned g deps a b))
unfolding add_targets any_owned
add_targets-contains g source [] m a b = ground arith
add_targets-contains g source (dep ∷ rest) m a b =
    add_targets-contains g source rest _ a b ∙ one_target
  where
    target : Text
    target = owner g dep

    stepped :
        contains
          (get_or
            (if is_empty target || target == source then m else set_target source target m)
            a
            [])
          b
        ≡ (contains (get_or m a []) b
            || (not (is_empty target || target == source) && (source == a && target == b)))
    stepped =
        if-intro
          (λ (r : Map Text (List Text)). contains (get_or r a []) b ≡ (
            contains (get_or m a []) b
            || (not (is_empty target || target == source) && (source == a && target == b))))
          (is_empty target || target == source) (λ h. ground (arith, h))
          (λ h. set_target-contains source target m a b ∙ ground (arith, h))

    one_target :
        (contains
            (get_or
              (if is_empty target || target == source then m else set_target source target m)
              a
              [])
            b
          || (source == a && any_owned g rest a b))
        ≡ (contains (get_or m a []) b
            || (source == a
                && ((target == b && (not (is_empty b) && not (b == a))) || any_owned g rest a b)))
    one_target =
        ap (λ x. x || (source == a && any_owned g rest a b)) stepped
        ∙ ground (arith, same_tests target source a b)

add_sources-contains :
    (g : ServiceDag) (entries m : Map Text (List Text)) (a b : Text)
    → contains (get_or (add_sources g entries m) a []) b
      ≡ (contains (get_or m a []) b || needs g entries a b)
unfolding add_sources needs
add_sources-contains g [] m a b = ground arith
add_sources-contains g ((service, deps) ∷ rest) m a b =
    add_sources-contains g rest _ a b ∙ ap (λ x. x || needs g rest a b) one_source ∙ ground arith
  where
    source : Text
    source = owner g service

    one_source :
        contains
          (get_or (if is_empty source then m else add_targets g source deps (ensure source m)) a [])
          b
        ≡ (contains (get_or m a []) b
            || (source == a && (not (is_empty a) && any_owned g deps a b)))
    one_source =
        if-intro
          (λ (r : Map Text (List Text)). contains (get_or r a []) b ≡ (
            contains (get_or m a []) b
            || (source == a && (not (is_empty a) && any_owned g deps a b))))
          (is_empty source) (λ h. ground (arith, h, same_empty source a))
          (λ h.
            add_targets-contains g source deps (ensure source m) a b
            ∙ ground (arith, h, same_empty source a, ensure-same source m a b))

start_owners-same :
    (owners : Map Text Text) (m : Map Text (List Text)) (a b : Text)
    → contains (get_or (start_owners owners m) a []) b ≡ contains (get_or m a []) b
unfolding start_owners
start_owners-same [] m a b = refl
start_owners-same ((_, name) ∷ rest) m a b =
    start_owners-same rest _ a b
    ∙ if-intro
        (λ (r : Map Text (List Text)). contains (get_or r a []) b ≡ contains (get_or m a []) b)
        (is_empty (trim_space name)) (λ _. refl) (λ _. ensure-same name m a b)

none_yet : (a b : Text) → contains (get_or {V = List Text} [] a []) b ≡ false
unfolding get_or get contains
none_yet a b = refl

-- ProjectOrchestrdDependencies lets an owner depend on another exactly if a service of the one
-- depends on a service of the other, and the two are different and not empty.
pub project_orchestrd_dependencies-needs :
    (g : ServiceDag) (a b : Text)
    → contains (get_or (project_orchestrd_dependencies g) a []) b ≡ needs g g.deps_by_node a b
unfolding project_orchestrd_dependencies
project_orchestrd_dependencies-needs g a b =
    add_sources-contains g g.deps_by_node _ a b
    ∙ ap (λ x. x || needs g g.deps_by_node a b)
        (start_owners-same g.owner_by_unit [] a b ∙ none_yet a b)
