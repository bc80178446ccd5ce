-- ===== src/DbusActivation/Precedence.antt =====
-- internal/dbusactivation/servicefile.go: which service file counts where several define a name.
use servicectl.Base.{
  ◌≡◌, refl, sym, ap, ◌∙◌, subst, Bool, true, false, Option, none, some, List, [], ◌∷◌, ltb, ◌==◌,
  ==_iff, ==_refl, nat_eq, get, put, delete, get-put, get-delete, Result, ok, err, if◌then◌else◌,
  if-intro, arith,
}
use servicectl.Base.Text.{Text, text_eq}
use servicectl.DbusActivation.Routes.{ServiceDefinition}
use servicectl.DbusActivation.ServiceFile.{FileError}
use servicectl.DbusActivation.Index.{
  IndexError, Index, Built, placed, beside, add_new, add_unless, add_definition, add_parsed, Found,
  unknown, one_of, several, found_definition, found_duplicate, lookup, duplicate_definition,
}

-- What is found after one more definition of the name.
unfoldable pub next_found : ServiceDefinition → Found → Found
next_found d unknown = one_of d
next_found d several = several
next_found d (one_of e) =
    if ltb e.priority d.priority
    then one_of e
    else if e.priority == d.priority
    then several
    else one_of d

found_by : Option IndexError → Option ServiceDefinition → Found
found_by (some duplicate) o = several
found_by none o = found_definition o

lookup-found_by :
    (i : Index) (name : Text) (o : Option IndexError) (p : Option ServiceDefinition)
    → get i.duplicates name ≡ o
    → get i.definitions name ≡ p
    → lookup i name ≡ found_by o p
unfolding lookup found_duplicate found_by
lookup-found_by i name (some duplicate) p h k = rw h refl
lookup-found_by i name none p h k = rw (h, k) refl

beside-chosen :
    (first same : Bool) (d existing : ServiceDefinition) (i : Index) (errors : List IndexError)
    (duplicate : IndexError)
    → get i.duplicates d.name ≡ none
    → get i.definitions d.name ≡ some existing
    → lookup (placed first same d duplicate (i, errors)).0 d.name
      ≡ (if first then one_of existing else if same then several else one_of d)
unfolding placed found_by found_definition
beside-chosen true same d existing i errors duplicate h k =
    lookup-found_by i d.name none (some existing) h k
beside-chosen false true d existing i errors duplicate h k =
    lookup-found_by _ d.name (some duplicate) (get (delete i.definitions d.name) d.name)
      (ground (arith, get-put i.duplicates d.name d.name duplicate, ==_refl d.name)) refl
beside-chosen false false d existing i errors duplicate h k =
    lookup-found_by (record i { definitions = put i.definitions d.name d }) d.name none (some d) h
      (ground (arith, get-put i.definitions d.name d.name d, ==_refl d.name))

beside-same :
    (d existing : ServiceDefinition) (built : Built)
    → get built.0.duplicates d.name ≡ none
    → get built.0.definitions d.name ≡ some existing
    → lookup (beside d existing built).0 d.name ≡ next_found d (one_of existing)
unfolding beside next_found
beside-same d existing (i, errors) h k =
    beside-chosen (ltb existing.priority d.priority) (existing.priority == d.priority) d existing i
      errors (duplicate_definition d.name existing.path d.path) h k

add_new-same :
    (d : ServiceDefinition) (built : Built) (o : Option ServiceDefinition)
    → get built.0.duplicates d.name ≡ none
    → get built.0.definitions d.name ≡ o
    → lookup (add_new d built o).0 d.name ≡ next_found d (found_definition o)
unfolding add_new next_found found_definition found_by
add_new-same d (i, errors) none h k =
    lookup-found_by (record i { definitions = put i.definitions d.name d }) d.name none (some d) h
      (ground (arith, get-put i.definitions d.name d.name d, ==_refl d.name))
add_new-same d built (some existing) h k = beside-same d existing built h k

add_unless-same :
    (d : ServiceDefinition) (built : Built) (o : Option IndexError)
    → get built.0.duplicates d.name ≡ o
    → lookup (add_unless d built o).0 d.name ≡ next_found d (lookup built.0 d.name)
unfolding add_unless next_found found_by
add_unless-same d built (some duplicate) h =
    let found =
      lookup-found_by built.0 d.name (some duplicate) (get built.0.definitions d.name) h refl in
    found ∙ ap (next_found d) (sym found)
add_unless-same d built none h =
    let o = get built.0.definitions d.name in
    add_new-same d built o h refl
    ∙ ap (next_found d) (sym (lookup-found_by built.0 d.name none o h refl))

-- Another name is found as before.
lookup-other :
    (i j : Index) (name : Text)
    → get i.duplicates name ≡ get j.duplicates name
    → get i.definitions name ≡ get j.definitions name
    → lookup i name ≡ lookup j name
lookup-other i j name h k =
    lookup-found_by i name (get j.duplicates name) (get j.definitions name) h k
    ∙ sym (lookup-found_by j name (get j.duplicates name) (get j.definitions name) refl refl)

beside-other :
    (d existing : ServiceDefinition) (built : Built) (name : Text)
    → (d.name == name) ≡ false
    → lookup (beside d existing built).0 name ≡ lookup built.0 name
unfolding beside placed
beside-other d existing (i, errors) name apart =
    let Same : Built → Type 0 = λ b. lookup b.0 name ≡ lookup i name in
    let duplicate = duplicate_definition d.name existing.path d.path in
    if-intro Same (ltb existing.priority d.priority) (λ _. refl)
      (λ _.
        if-intro Same (existing.priority == d.priority)
          (λ _.
            lookup-other _ i name (ground (arith, get-put i.duplicates d.name name duplicate))
              (ground (arith, get-delete i.definitions d.name name)))
          (λ _. lookup-other _ i name refl (ground (arith, get-put i.definitions d.name name d))))

add_new-other :
    (d : ServiceDefinition) (built : Built) (name : Text) (o : Option ServiceDefinition)
    → (d.name == name) ≡ false
    → lookup (add_new d built o).0 name ≡ lookup built.0 name
unfolding add_new
add_new-other d (i, errors) name none apart =
    lookup-other _ i name refl (ground (arith, get-put i.definitions d.name name d))
add_new-other d built name (some existing) apart = beside-other d existing built name apart

add_unless-other :
    (d : ServiceDefinition) (built : Built) (name : Text) (o : Option IndexError)
    → (d.name == name) ≡ false
    → lookup (add_unless d built o).0 name ≡ lookup built.0 name
unfolding add_unless
add_unless-other d built name (some duplicate) apart = refl
add_unless-other d built name none apart =
    add_new-other d built name (get built.0.definitions d.name) apart

-- The definitions of a name among those that are read.
unfoldable pub named : Text → Result FileError ServiceDefinition → List ServiceDefinition
named name (err e) = []
named name (ok d) = if d.name == name then d ∷ [] else []

unfoldable pub found_after : List ServiceDefinition → Found → Found
unfolding next_found
found_after [] f = f
found_after (d ∷ rest) f = found_after rest (next_found d f)

pub add_parsed-found :
    (name : Text) (r : Result FileError ServiceDefinition) (built : Built)
    → lookup (add_parsed r built).0 name ≡ found_after (named name r) (lookup built.0 name)
unfolding add_parsed found_after named add_definition
add_parsed-found name (err e) (i, errors) = refl
add_parsed-found name (ok d) built =
    let Right : List ServiceDefinition → Type 0 = λ ds.
      lookup (add_unless d built (get built.0.duplicates d.name)).0 name
      ≡ found_after ds (lookup built.0 name) in
    if-intro Right (d.name == name)
      (λ same.
        subst
          (λ n.
            lookup (add_unless d built (get built.0.duplicates d.name)).0 n
            ≡ next_found d (lookup built.0 n))
          ((==_iff d.name name).0 same)
          (add_unless-same d built (get built.0.duplicates d.name) refl))
      (λ apart. add_unless-other d built name (get built.0.duplicates d.name) apart)
