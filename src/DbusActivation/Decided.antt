-- ===== src/DbusActivation/Decided.antt =====
-- internal/dbusactivation/servicefile.go: Lookup after BuildIndex.
use servicectl.Base.{
  ℕ, suc, ◌<◌, ◌≡◌, refl, sym, ap, ◌∙◌, subst, List, [], ◌∷◌, nat_eq, arith, All, get,
}
use servicectl.Base.Text.{Text, text_eq}
use servicectl.DbusActivation.Routes.{ServiceDefinition}
use servicectl.DbusActivation.Index.{
  Entry, Directory, missing, unreadable_directory, holding, Built, add_entries, add_directory,
  add_directories, build_index, Found, unknown, one_of, several, lookup, empty_index,
  found_duplicate,
}
use servicectl.DbusActivation.Precedence.{found_after}
use servicectl.DbusActivation.Lookup.{
  defined_in, decided, first_found, add_entries-found, found_after-several, found_after-later,
  found_after-unknown, defined_in-priority,
}

-- What the directories from a priority on add to what was found before.
After : Text → ℕ → List Directory → Found → Found
After name p directories unknown = first_found name p directories
After name p directories f = f

-- What was found comes from an earlier directory.
IsEarlier : ℕ → Found → Type 0
IsEarlier p (one_of d) = d.priority < p
IsEarlier p _ = Unit

early_one : (p : ℕ) (d : ServiceDefinition) → IsEarlier p (one_of d) → d.priority < p
unfolding IsEarlier
early_one p d h = h

later_one : (p : ℕ) (d : ServiceDefinition) → IsEarlier p (one_of d) → IsEarlier (suc p) (one_of d)
unfolding IsEarlier
later_one p d h = omega (arith, h)

several_early : (p : ℕ) → IsEarlier p several
unfolding IsEarlier
several_early p = tt

still_early : (p : ℕ) (f : Found) → IsEarlier p f → IsEarlier (suc p) f
unfolding IsEarlier
still_early p unknown h = tt
still_early p (one_of d) h = omega (arith, h)
still_early p several h = tt

After-nothing : (name : Text) (p : ℕ) (f : Found) → After name p [] f ≡ f
unfolding After first_found
After-nothing name p unknown = refl
After-nothing name p (one_of d) = refl
After-nothing name p several = refl

After-missing :
    (name : Text) (p : ℕ) (rest : List Directory) (f : Found)
    → After name (suc p) rest f ≡ After name p (missing ∷ rest) f
unfolding After first_found
After-missing name p rest unknown = refl
After-missing name p rest (one_of d) = refl
After-missing name p rest several = refl

After-unreadable :
    (name : Text) (p : ℕ) (rest : List Directory) (m : Text) (f : Found)
    → After name (suc p) rest f ≡ After name p (unreadable_directory m ∷ rest) f
unfolding After first_found
After-unreadable name p rest m unknown = refl
After-unreadable name p rest m (one_of d) = refl
After-unreadable name p rest m several = refl

decided-IsEarlier :
    (p : ℕ) (ds : List ServiceDefinition)
    → All (λ d. d.priority ≡ p) ds
    → IsEarlier (suc p) (decided ds unknown)
unfolding IsEarlier decided
decided-IsEarlier p [] h = tt
decided-IsEarlier p (d ∷ []) h = omega (arith, h.0)
decided-IsEarlier p (d ∷ e ∷ rest) h = tt

After-decided :
    (name : Text) (p : ℕ) (ds : List ServiceDefinition) (rest : List Directory)
    → After name p rest (decided ds unknown) ≡ decided ds (first_found name p rest)
unfolding After decided
After-decided name p [] rest = refl
After-decided name p (d ∷ []) rest = refl
After-decided name p (d ∷ e ∷ more) rest = refl

-- A directory, and what the directories after it make of what was found.
directory_found :
    (name directory : Text) (p : ℕ) (entries : List Entry) (rest : List Directory) (f : Found)
    → IsEarlier p f
    → let found = found_after (defined_in name directory p entries) f in
      IsEarlier (suc p) found
      × (After name (suc p) rest found ≡ After name p (holding directory entries ∷ rest) f)
unfolding After first_found IsEarlier
directory_found name directory p entries rest unknown early =
    let ds = defined_in name directory p entries in
    let all = defined_in-priority name directory p entries in
    let same = found_after-unknown p ds all in
    (
      subst (IsEarlier (suc p)) (sym same) (decided-IsEarlier p ds all),
      ap (After name (suc p) rest) same ∙ After-decided name (suc p) ds rest,
    )
directory_found name directory p entries rest (one_of d) early =
    let ds = defined_in name directory p entries in
    let same =
      found_after-later p d ds (early_one p d early)
        (defined_in-priority name directory p entries) in
    (subst (IsEarlier (suc p)) (sym same) (later_one p d early), ap (After name (suc p) rest) same)
directory_found name directory p entries rest several early =
    let same = found_after-several (defined_in name directory p entries) in
    (subst (IsEarlier (suc p)) (sym same) (several_early p), ap (After name (suc p) rest) same)

add_directories-found :
    (name : Text) (p : ℕ) (directories : List Directory) (built : Built)
    → IsEarlier p (lookup built.0 name)
    → lookup (add_directories p directories built).0 name
      ≡ After name p directories (lookup built.0 name)
unfolding add_directories add_directory
add_directories-found name p [] built early = sym (After-nothing name p (lookup built.0 name))
add_directories-found name p (missing ∷ rest) built early =
    add_directories-found name (suc p) rest built (still_early p (lookup built.0 name) early)
    ∙ After-missing name p rest (lookup built.0 name)
add_directories-found name p (unreadable_directory m ∷ rest) (i, errors) early =
    add_directories-found name (suc p) rest (i, _) (still_early p (lookup i name) early)
    ∙ After-unreadable name p rest m (lookup i name)
add_directories-found name p (holding directory entries ∷ rest) built early =
    let next = add_entries directory p entries built in
    let same = add_entries-found name directory p entries built in
    let (earlier, step) =
      directory_found name directory p entries rest (lookup built.0 name) early in
    add_directories-found name (suc p) rest next (subst (IsEarlier (suc p)) (sym same) earlier)
    ∙ ap (After name (suc p) rest) same
    ∙ step

-- Lookup in the index that BuildIndex makes finds what the first directory with a definition of the
-- name has: the definition, where that directory defines the name once, and a duplicate, where it
-- defines it more often, whatever the later directories have.
pub lookup-build_index :
    (name : Text) (directories : List Directory)
    → lookup (build_index directories).0 name ≡ first_found name 0 directories
unfolding build_index After lookup found_duplicate get IsEarlier
lookup-build_index name directories = add_directories-found name 0 directories (empty_index, []) tt
