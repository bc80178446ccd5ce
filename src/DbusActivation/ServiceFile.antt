-- ===== src/DbusActivation/ServiceFile.antt =====
-- internal/dbusactivation/servicefile.go: the service files of the bus. The checks of a file's owner
-- and mode are outside: a file is the lines that were read, or the error of the reading.
use mathlib.Core.List.{reverse}
use servicectl.Base.{
  ℕ, Bool, true, false, ◌&&◌, ◌||◌, not, Option, none, some, List, [], ◌∷◌, ◌==◌, nat_eq, Result,
  ok, err, ◌>>=◌, if◌then◌else◌,
}
use servicectl.Base.Text.{
  Text, text, text_eq, is_empty, trim_space, has_prefix, strip_prefix, strip_suffix,
}
use servicectl.DbusActivation.Environment.{cut_equals}
use servicectl.DbusActivation.Messages.{is_bus_name}
use servicectl.DbusActivation.Routes.{ServiceDefinition}

pub data FileError : Type 0 where
  unreadable : Text → FileError
  invalid_line : Text → FileError
  trailing_escape : FileError
  unterminated_quote : FileError
  empty_command : FileError
  missing_section : FileError
  invalid_name : Text → FileError
  missing_user : FileError
  nothing_to_start : FileError

abbrev pub is_empty_list : List Text → Bool
is_empty_list [] = true
is_empty_list (_ ∷ _) = false

-- The state of the loop over a command line: the words so far and the letters of the current one,
-- each the last first, the open quote or 0, and the two flags.
pub record Words : Type 0 where
  pub result : List Text
  pub current : Text
  pub quote : ℕ
  pub escaped : Bool
  pub has_token : Bool

abbrev no_words : Words
no_words = record { result = []; current = []; quote = 0; escaped = false; has_token = false }

unfoldable pub flush : Words → Words
flush w =
    if w.has_token
    then record w { result = reverse w.current ∷ w.result; current = []; has_token = false }
    else w

write_letter : ℕ → Words → Words
write_letter c w = record w { current = c ∷ w.current; has_token = true }

is_space : ℕ → Bool
is_space c = c == b' ' || c == b'\t' || c == b'\n' || c == b'\r'

unfoldable pub next_letter : ℕ → Words → Words
unfolding flush write_letter is_space
next_letter c w =
    if w.escaped
    then record (write_letter c w) { escaped = false }
    else if c == b'\\'
    then record w { escaped = true; has_token = true }
    else if not (w.quote == 0)
    then (if c == w.quote then record w { quote = 0; has_token = true } else write_letter c w)
    else if c == b'\'' || c == b'"'
    then record w { quote = c; has_token = true }
    else if is_space c
    then flush w
    else write_letter c w

letters : Text → Words → Words
unfolding next_letter
letters [] w = w
letters (c ∷ s) w = letters s (next_letter c w)

words_of : Words → Result FileError (List Text)
words_of w = let all = reverse w.result in if is_empty_list all then err empty_command else ok all

-- The source goes by runes and the model by bytes: the two agree on valid UTF-8, while the source
-- puts U+FFFD for what is not.
unfoldable pub split_command_line : Text → Result FileError (List Text)
unfolding letters flush words_of
split_command_line command =
    let w = letters command no_words in
    if w.escaped
    then err trailing_escape
    else if not (w.quote == 0)
    then err unterminated_quote
    else words_of (flush w)

-- The section and the definition so far.
pub record Parse : Type 0 where
  pub section : Text
  pub definition : ServiceDefinition

unfoldable pub set_argv : Parse → Result FileError (List Text) → Result FileError Parse
set_argv p (err e) = err e
set_argv p (ok argv) = ok (record p { definition = record p.definition { argv = argv } })

unfoldable pub set_key : Text → Text → Parse → Result FileError Parse
unfolding set_argv
set_key key value p =
    if key == text "Name"
    then ok (record p { definition = record p.definition { name = value } })
    else if key == text "Exec"
    then set_argv p (split_command_line value)
    else if key == text "User"
    then ok (record p { definition = record p.definition { user = value } })
    else if key == text "SystemdService"
    then ok (record p { definition = record p.definition { systemd_service = value } })
    else ok p

unfoldable pub set_pair : Text → Parse → Option (Text × Text) → Result FileError Parse
unfolding set_key
set_pair line p none = err (invalid_line line)
set_pair line p (some (key, value)) = set_key (trim_space key) (trim_space value) p

-- The text between brackets around a line.
unfoldable pub bracketed : Text → Option Text
bracketed line = elim (strip_prefix (text "[") line) [
  | none ↦ none
  | some rest ↦ strip_suffix (text "]") rest
]

unfoldable pub in_section : Text → Parse → Option Text → Result FileError Parse
unfolding set_pair
in_section line p (some name) = ok (record p { section = trim_space name })
in_section line p none =
    if p.section == text "D-BUS Service" then set_pair line p (cut_equals line) else ok p

unfoldable pub parse_line : Text → Parse → Result FileError Parse
unfolding in_section bracketed
parse_line raw p =
    let line = trim_space raw in
    if is_empty line || has_prefix line (text "#") || has_prefix line (text ";")
    then ok p
    else in_section line p (bracketed line)

unfoldable pub parse_lines : List Text → Parse → Result FileError Parse
unfolding parse_line
parse_lines [] p = ok p
parse_lines (line ∷ rest) p = parse_line line p >>= parse_lines rest

unfoldable pub check_definition : Parse → Result FileError ServiceDefinition
check_definition p =
    let d = p.definition in
    if is_empty p.section
    then err missing_section
    else if not (is_bus_name d.name)
    then err (invalid_name d.name)
    else if is_empty (trim_space d.user) && is_empty (trim_space d.systemd_service)
    then err missing_user
    else if is_empty_list d.argv && is_empty (trim_space d.systemd_service)
    then err nothing_to_start
    else ok d

abbrev pub empty_definition : Text → ℕ → ServiceDefinition
empty_definition path priority = record {
  name = [];
  argv = [];
  user = [];
  systemd_service = [];
  path = path;
  priority = priority;
}

unfoldable pub parse_service_file :
    Text → ℕ → Result FileError (List Text) → Result FileError ServiceDefinition
unfolding parse_lines check_definition
parse_service_file path priority lines =
    lines
    >>= (λ all.
        parse_lines all (record { section = []; definition = empty_definition path priority }))
    >>= check_definition
