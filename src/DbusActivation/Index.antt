-- ===== src/DbusActivation/Index.antt =====
-- internal/dbusactivation/servicefile.go: the index of the service files.
use servicectl.Base.{
  ℕ, suc, Bool, ◌||◌, not, Option, none, some, List, [], ◌∷◌, ◌++◌, ltb, ◌==◌, nat_eq, Map, get,
  put, delete, Result, ok, err, if◌then◌else◌,
}
use servicectl.Base.Text.{Text, text, text_eq, has_suffix}
use servicectl.DbusActivation.Routes.{ServiceDefinition}
use servicectl.DbusActivation.ServiceFile.{FileError, parse_service_file}

pub record Entry : Type 0 where
  pub file_name : Text
  pub is_dir : Bool
  pub lines : Result FileError (List Text)

-- A directory as it is read: missing, unreadable, or its entries.
pub data Directory : Type 0 where
  missing : Directory
  unreadable_directory : Text → Directory
  holding : Text → List Entry → Directory

pub data IndexError : Type 0 where
  directory_error : Text → IndexError
  file_error : FileError → IndexError
  duplicate_definition : Text → Text → Text → IndexError

pub record Index : Type 0 where
  pub definitions : Map Text ServiceDefinition
  pub duplicates : Map Text IndexError

-- The index and the errors so far, the last first.
abbrev pub Built : Type 0
Built = Index × List IndexError

abbrev pub empty_index : Index
empty_index = record { definitions = []; duplicates = [] }

-- A definition beside one of the same name, which comes first or is in the same directory.
unfoldable pub placed : Bool → Bool → ServiceDefinition → IndexError → Built → Built
placed first same d duplicate (i, errors) =
    if first
    then (i, errors)
    else if same
    then (
      record {
        definitions = delete i.definitions d.name;
        duplicates = put i.duplicates d.name duplicate;
      },
      duplicate ∷ errors,
    )
    else (record i { definitions = put i.definitions d.name d }, errors)

unfoldable pub beside : ServiceDefinition → ServiceDefinition → Built → Built
unfolding placed
beside d existing built =
    placed (ltb existing.priority d.priority) (existing.priority == d.priority) d
      (duplicate_definition d.name existing.path d.path) built

unfoldable pub add_new : ServiceDefinition → Built → Option ServiceDefinition → Built
unfolding beside
add_new d (i, errors) none = (record i { definitions = put i.definitions d.name d }, errors)
add_new d built (some existing) = beside d existing built

unfoldable pub add_unless : ServiceDefinition → Built → Option IndexError → Built
unfolding add_new
add_unless d built (some duplicate) = built
add_unless d built none = add_new d built (get built.0.definitions d.name)

unfoldable pub add_definition : ServiceDefinition → Built → Built
unfolding add_unless
add_definition d built = add_unless d built (get built.0.duplicates d.name)

unfoldable pub add_parsed : Result FileError ServiceDefinition → Built → Built
unfolding add_definition
add_parsed (err e) (i, errors) = (i, file_error e ∷ errors)
add_parsed (ok d) built = add_definition d built

unfoldable pub is_skipped_entry : Entry → Bool
is_skipped_entry e = e.is_dir || not (has_suffix e.file_name (text ".service"))

unfoldable pub parse_entry : Text → ℕ → Entry → Result FileError ServiceDefinition
parse_entry directory priority e =
    parse_service_file (directory ++ (b'/' ∷ e.file_name)) priority e.lines

unfoldable pub add_entries : Text → ℕ → List Entry → Built → Built
unfolding is_skipped_entry parse_entry add_parsed
add_entries directory priority [] built = built
add_entries directory priority (e ∷ rest) built =
    let skip = add_entries directory priority rest built in
    let next =
      add_entries directory priority rest (add_parsed (parse_entry directory priority e) built) in
    if is_skipped_entry e then skip else next

unfoldable pub add_directory : ℕ → Directory → Built → Built
unfolding add_entries
add_directory priority missing built = built
add_directory priority (unreadable_directory m) (i, errors) = (i, directory_error m ∷ errors)
add_directory priority (holding directory entries) built =
    add_entries directory priority entries built

unfoldable pub add_directories : ℕ → List Directory → Built → Built
unfolding add_directory
add_directories priority [] built = built
add_directories priority (d ∷ rest) built =
    add_directories (suc priority) rest (add_directory priority d built)

unfoldable pub build_index : List Directory → Built
unfolding add_directories
build_index directories = add_directories 0 directories (empty_index, [])

-- What Lookup finds.
pub data Found : Type 0 where
  unknown : Found
  one_of : ServiceDefinition → Found
  several : Found

unfoldable pub found_definition : Option ServiceDefinition → Found
found_definition none = unknown
found_definition (some d) = one_of d

unfoldable pub found_duplicate : Index → Text → Option IndexError → Found
unfolding found_definition
found_duplicate i name (some duplicate) = several
found_duplicate i name none = found_definition (get i.definitions name)

unfoldable pub lookup : Index → Text → Found
unfolding found_duplicate
lookup i name = found_duplicate i name (get i.duplicates name)
