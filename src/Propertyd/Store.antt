-- ===== src/Propertyd/Store.antt =====
-- cmd/sys-propertyd/main.go: the state of the daemon, and how it is written to the state file.
use servicectl.Base.{
  Bool, true, false, ◌&&◌, not, Option, none, some, List, [], ◌∷◌, ◌++◌, map, length, ◌==◌, nat_eq,
  Map, get_or, put, delete, if◌then◌else◌,
}
use servicectl.Base.Sort.{sort_by}
use servicectl.Base.Text.{
  Text, text, text_eq, text_ltb, is_empty, trim_space, to_lower, has_suffix, join_lines,
}

-- The modes that normalizeMode accepts.
pub data Mode : Type 0 where
  system user : Mode

abbrev pub mode_name : Mode → Text
mode_name system = text "system"
mode_name user = text "user"

pub record GroupDefinition : Type 0 where
  pub units : List Text
  pub targets : List Text

abbrev pub Membership : Type 0
Membership = Map Text Bool

-- What the maps of the daemon hold for one mode.
pub record ModeState : Type 0 where
  pub enabled_units : Membership
  pub enabled_groups : Membership
  pub runner_units : Membership
  pub enabled_initialized : Bool
  pub runtime : Map Text Text
  pub groups : Map Text GroupDefinition
  pub targets : Map Text Text

pub data EventKind : Type 0 where
  unit_list_changed property_changed group_changed : EventKind

pub record Event : Type 0 where
  pub mode : Text
  pub kind : EventKind
  pub payload : Map Text Text

-- The daemon, with the state file and the published events, the last first.
pub record Daemon : Type 0 where
  pub persistent : Map Text Text
  pub of_system : ModeState
  pub of_user : ModeState
  pub file : Text
  pub events : List Event

pub data PropertyError : Type 0 where
  mode_required unit_required group_required key_required : PropertyError
  write_error : Text → PropertyError

-- What `os.WriteFile` does: it writes, or it fails and leaves something in the file.
pub data Write : Type 0 where
  written : Write
  failed : Text → Text → Write

unfoldable pub mode_state : Mode → Daemon → ModeState
mode_state system d = d.of_system
mode_state user d = d.of_user

unfoldable pub set_mode_state : Mode → ModeState → Daemon → Daemon
set_mode_state system s d = record d { of_system = s }
set_mode_state user s d = record d { of_user = s }

unfoldable pub normalize_mode : Text → Option Mode
normalize_mode mode =
    let name = trim_space (to_lower mode) in
    if name == text "system" then some system else if name == text "user" then some user else none

unfoldable pub normalize_unit_name : Text → Text
normalize_unit_name name =
    let clean = trim_space name in
    if is_empty clean
    then []
    else if not (has_suffix clean (text ".service"))
    then clean ++ text ".service"
    else clean

unfoldable pub set_membership : Membership → Text → Bool → Membership
set_membership values name present = if present then put values name true else delete values name

abbrev pub same_value : Bool → Bool → Bool
same_value a b = if a then b else not b

unfoldable pub all_present : Membership → Membership → Bool
all_present [] right = true
all_present ((name, present) ∷ left) right =
    same_value present (get_or right name false) && all_present left right

unfoldable pub membership_equal : Membership → Membership → Bool
unfolding all_present
membership_equal left right =
    if not (length left == length right) then false else all_present left right

unfoldable pub present_names : Membership → List Text
present_names [] = []
present_names ((name, present) ∷ values) =
    let rest = present_names values in if present then name ∷ rest else rest

unfoldable pub sorted_membership : Membership → List Text
unfolding present_names
sorted_membership values = sort_by text_ltb (present_names values)

unfoldable pub sorted_map_keys : Map Text Text → List Text
sorted_map_keys m = sort_by text_ltb (map (λ (e : Text × Text). e.0) m)

-- `prefix + key + "=" + m[key]` for each key.
unfoldable pub value_lines : Text → Map Text Text → List Text
unfolding sorted_map_keys
value_lines prefix m =
    map (λ key. prefix ++ (key ++ (text "=" ++ get_or m key []))) (sorted_map_keys m)

unfoldable pub member_lines : Text → Membership → List Text
unfolding sorted_membership
member_lines prefix values = map (λ name. prefix ++ (name ++ text "=1")) (sorted_membership values)

unfoldable pub enabled_lines : Mode → ModeState → List Text
unfolding member_lines
enabled_lines mode s =
    let prefix = text "enable." ++ mode_name mode in
    (if s.enabled_initialized then (prefix ++ text ".initialized=1") ∷ [] else [])
    ++ (member_lines (prefix ++ text ".unit.") s.enabled_units
        ++ member_lines (prefix ++ text ".group.") s.enabled_groups)

-- The text that saveStateLocked writes.
unfoldable pub state_content : Daemon → Text
unfolding value_lines enabled_lines
state_content d =
    let lines =
      value_lines [] d.persistent
      ++ (value_lines (text "prop.system.") d.of_system.runtime
          ++ (value_lines (text "prop.user.") d.of_user.runtime
              ++ (enabled_lines system d.of_system ++ enabled_lines user d.of_user))) in
    let content = join_lines (sort_by text_ltb lines) in
    if is_empty content then [] else content ++ text "\n"

-- An operation's new state and its error.
abbrev pub Outcome : Type 0
Outcome = Daemon × Option PropertyError

unfoldable pub save_state : Write → Daemon → Outcome
unfolding state_content
save_state written d = (record d { file = state_content d }, none)
save_state (failed message left) d = (record d { file = left }, some (write_error message))

unfoldable pub publish : Text → EventKind → Map Text Text → Daemon → Daemon
publish mode kind payload d = record d {
  events = record { mode = mode; kind = kind; payload = payload } ∷ d.events;
}

-- What is published after the state file was written.
unfoldable pub then_publish : (Daemon → Daemon) → Outcome → Outcome
then_publish f (d, none) = (f d, none)
then_publish f (d, some e) = (d, some e)
