-- ===== src/DbusActivation/Lookup.antt =====
-- internal/dbusactivation/servicefile.go: the definitions of one directory in the index.
use servicectl.Base.{
  ℕ, suc, ◌<◌, ◌≡◌, refl, sym, ap, ◌∙◌, Bool, true, false, List, [], ◌∷◌, ◌++◌, ◌==◌, nat_eq,
  Result, ok, err, if◌then◌else◌, if-intro, arith, All,
}
use servicectl.Base.Text.{Text, text_eq}
use servicectl.DbusActivation.Routes.{ServiceDefinition}
use servicectl.DbusActivation.ServiceFile.{FileError}
use servicectl.DbusActivation.Priority.{parse_service_file-priority}
use servicectl.DbusActivation.Index.{
  Entry, Directory, holding, Built, add_parsed, is_skipped_entry, parse_entry, add_entries, Found,
  unknown, one_of, several, lookup,
}
use servicectl.DbusActivation.Precedence.{next_found, named, found_after, add_parsed-found}

-- The definitions of a name in the files of a directory.
unfoldable pub defined_in : Text → Text → ℕ → List Entry → List ServiceDefinition
unfolding named
defined_in name directory priority [] = []
defined_in name directory priority (e ∷ rest) =
    let more = defined_in name directory priority rest in
    if is_skipped_entry e then more else named name (parse_entry directory priority e) ++ more

-- The first directory with a definition of the name decides: one definition counts, several are
-- refused.
unfoldable pub decided : List ServiceDefinition → Found → Found
decided [] later = later
decided (d ∷ []) later = one_of d
decided (d ∷ e ∷ rest) later = several

unfoldable pub first_found : Text → ℕ → List Directory → Found
unfolding decided defined_in
first_found name priority [] = unknown
first_found name priority (holding directory entries ∷ rest) =
    decided (defined_in name directory priority entries) (first_found name (suc priority) rest)
first_found name priority (_ ∷ rest) = first_found name (suc priority) rest

found_after-append :
    (ds es : List ServiceDefinition) (f : Found)
    → found_after (ds ++ es) f ≡ found_after es (found_after ds f)
unfolding found_after
found_after-append [] es f = refl
found_after-append (d ∷ ds) es f = found_after-append ds es (next_found d f)

pick : Bool → Built → Built → Built
pick b x y = if b then x else y

chosen :
    (name directory : Text) (priority : ℕ) (rest : List Entry) (built : Built) (skip : Bool)
    (r : Result FileError ServiceDefinition)
    → lookup (add_entries directory priority rest built).0 name
      ≡ found_after (defined_in name directory priority rest) (lookup built.0 name)
    → lookup (add_entries directory priority rest (add_parsed r built)).0 name
      ≡ found_after (defined_in name directory priority rest) (lookup (add_parsed r built).0 name)
    → lookup
        (pick skip
          (add_entries directory priority rest built)
          (add_entries directory priority rest (add_parsed r built))).0
        name
      ≡ found_after
          (if skip
            then defined_in name directory priority rest
            else named name r ++ defined_in name directory priority rest)
          (lookup built.0 name)
unfolding pick
chosen name directory priority rest built true r h k = h
chosen name directory priority rest built false r h k =
    let more = defined_in name directory priority rest in
    k
    ∙ ap (found_after more) (add_parsed-found name r built)
    ∙ sym (found_after-append (named name r) more (lookup built.0 name))

pub add_entries-found :
    (name directory : Text) (priority : ℕ) (entries : List Entry) (built : Built)
    → lookup (add_entries directory priority entries built).0 name
      ≡ found_after (defined_in name directory priority entries) (lookup built.0 name)
unfolding add_entries defined_in found_after pick
add_entries-found name directory priority [] built = refl
add_entries-found name directory priority (e ∷ rest) built =
    chosen name directory priority rest built (is_skipped_entry e)
      (parse_entry directory priority e) (add_entries-found name directory priority rest built)
      (add_entries-found name directory priority rest
        (add_parsed (parse_entry directory priority e) built))

-- Definitions of one directory.
pub found_after-several : (ds : List ServiceDefinition) → found_after ds several ≡ several
unfolding found_after next_found
found_after-several [] = refl
found_after-several (d ∷ ds) = found_after-several ds

next_found-tie :
    (d e : ServiceDefinition) → d.priority ≡ e.priority → next_found e (one_of d) ≡ several
unfolding next_found
next_found-tie d e h = ground arith

next_found-later :
    (d e : ServiceDefinition) → d.priority < e.priority → next_found e (one_of d) ≡ one_of d
unfolding next_found
next_found-later d e h = ground arith

pub found_after-later :
    (p : ℕ) (d : ServiceDefinition) (ds : List ServiceDefinition)
    → d.priority < p
    → All (λ e. e.priority ≡ p) ds
    → found_after ds (one_of d) ≡ one_of d
unfolding found_after
found_after-later p d [] h all = refl
found_after-later p d (e ∷ ds) h all =
    ap (found_after ds) (next_found-later d e (omega (arith, all.0)))
    ∙ found_after-later p d ds h all.1

pub found_after-unknown :
    (p : ℕ) (ds : List ServiceDefinition)
    → All (λ d. d.priority ≡ p) ds
    → found_after ds unknown ≡ decided ds unknown
unfolding found_after decided next_found
found_after-unknown p [] h = refl
found_after-unknown p (d ∷ []) h = refl
found_after-unknown p (d ∷ e ∷ rest) h =
    ap (found_after rest) (next_found-tie d e (h.0 ∙ sym h.1.0)) ∙ found_after-several rest

named-priority :
    (name : Text) (p : ℕ) (r : Result FileError ServiceDefinition)
    → ((d : ServiceDefinition) → r ≡ ok d → d.priority ≡ p)
    → All (λ d. d.priority ≡ p) (named name r)
unfolding named
named-priority name p (err e) h = tt
named-priority name p (ok d) h =
    if-intro (All (λ d. d.priority ≡ p)) (d.name == name) (λ _. (h d refl, tt)) (λ _. tt)

All-append-priority :
    (p : ℕ) (ds es : List ServiceDefinition)
    → All (λ d. d.priority ≡ p) ds
    → All (λ d. d.priority ≡ p) es
    → All (λ d. d.priority ≡ p) (ds ++ es)
All-append-priority p [] es h k = k
All-append-priority p (d ∷ ds) es h k = (h.0, All-append-priority p ds es h.1 k)

pub defined_in-priority :
    (name directory : Text) (p : ℕ) (entries : List Entry)
    → All (λ d. d.priority ≡ p) (defined_in name directory p entries)
unfolding defined_in parse_entry
defined_in-priority name directory p [] = tt
defined_in-priority name directory p (e ∷ rest) =
    let more = defined_in-priority name directory p rest in
    if-intro (All (λ d. d.priority ≡ p)) (is_skipped_entry e) (λ _. more)
      (λ _.
        All-append-priority p _ _
          (named-priority name p (parse_entry directory p e)
            (λ d h. parse_service_file-priority (directory ++ (b'/' ∷ e.file_name)) p e.lines d h))
          more)
