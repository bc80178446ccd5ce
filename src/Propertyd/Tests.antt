-- ===== src/Propertyd/Tests.antt =====
-- cmd/sys-propertyd: runs of the daemon, and the theorems at them.
use servicectl.Base.{
  ◌≡◌, refl, true, false, ◌&&◌, ◌||◌, none, some, [], ◌∷◌, ◌==◌, nat_eq, get, get_or, put, contains,
  if◌then◌else◌,
}
use servicectl.Base.Sort.{sort_by}
use servicectl.Base.Text.{
  Text, text, text_eq, text_beq, text_ltb, is_empty, trim_space, to_lower, has_suffix, join_lines,
}
use servicectl.Propertyd.Store.{
  system, user, ModeState, Daemon, Write, written, failed, write_error, mode_state, normalize_mode,
  normalize_unit_name, sorted_membership, state_content,
}
use servicectl.Propertyd.Lists.{set_enabled_unit, effective_units}
use servicectl.Propertyd.Steps.{enabling_unit, run}
use servicectl.Propertyd.Unseen.{IsSaved, Leaves}
use servicectl.Propertyd.Saved.{run-Leaves}
use servicectl.Propertyd.Effects.{
  unit_enabled, same_mode, set_enabled_unit-sets, set_enabled_unit-again,
}
use servicectl.Propertyd.Effective.{in_groups, effective_units-contains}

-- The group `web` of two units is enabled.
abbrev with_group : ModeState
with_group = record {
  enabled_units = [];
  enabled_groups = (text "web", true) ∷ [];
  runner_units = [];
  enabled_initialized = true;
  runtime = [];
  groups =
      (text "web", record { units = text "nginx" ∷ text "php.service" ∷ []; targets = [] }) ∷ [];
  targets = [];
}

abbrev nothing : ModeState
nothing = record {
  enabled_units = [];
  enabled_groups = [];
  runner_units = [];
  enabled_initialized = false;
  runtime = [];
  groups = [];
  targets = [];
}

abbrev content : Text
content = text "enable.system.group.web=1\nenable.system.initialized=1\n"

abbrev daemon : Daemon
daemon = record {
  persistent = [];
  of_system = with_group;
  of_user = nothing;
  file = content;
  events = [];
}

saved : IsSaved daemon
unfolding state_content join_lines sort_by text_ltb
saved = refl

run-Leaves_example :
    Leaves written daemon (run (enabling_unit (text "User") (text "mpd") true) written daemon)
run-Leaves_example = run-Leaves written daemon saved (enabling_unit (text "User") (text "mpd") true)

known : normalize_mode (text "User") ≡ some user
unfolding normalize_mode to_lower trim_space text_beq
known = refl

named : is_empty (normalize_unit_name (text "mpd")) ≡ false
unfolding normalize_unit_name trim_space has_suffix
named = refl

set_enabled_unit-sets_example :
    unit_enabled
      (set_enabled_unit written daemon (text "User") (text "mpd") true).0
      system
      (text "mpd")
    ≡ (if same_mode user system && normalize_unit_name (text "mpd") == text "mpd"
        then true
        else unit_enabled daemon system (text "mpd"))
set_enabled_unit-sets_example =
    set_enabled_unit-sets written daemon (text "User") (text "mpd") true user known named system
      (text "mpd")

abbrev full : Write
full = failed (text "no space left on device") []

refused :
    (set_enabled_unit full daemon (text "user") (text "mpd") true).1
    ≡ some (write_error (text "no space left on device"))
unfolding set_enabled_unit normalize_mode to_lower trim_space text_beq has_suffix get_or get
refused = refl

set_enabled_unit-again_example :
    (set_enabled_unit written
        (set_enabled_unit full daemon (text "user") (text "mpd") true).0
        (text "user")
        (text "mpd")
        true
      ≡ ((set_enabled_unit full daemon (text "user") (text "mpd") true).0, none))
    × ((set_enabled_unit full daemon (text "user") (text "mpd") true).0.file ≡ [])
set_enabled_unit-again_example =
    set_enabled_unit-again daemon (text "user") (text "mpd") true (text "no space left on device")
      [] written refused

effective_units-contains_example :
    contains (effective_units system daemon) (text "nginx.service") ≡ (
      contains (sorted_membership with_group.enabled_units) (text "nginx.service")
      || (contains (sorted_membership with_group.runner_units) (text "nginx.service")
          || in_groups with_group
              (sorted_membership with_group.enabled_groups)
              (text "nginx.service")))
unfolding mode_state
effective_units-contains_example = effective_units-contains system daemon (text "nginx.service")

listed : effective_units system daemon ≡ text "nginx.service" ∷ text "php.service" ∷ []
unfolding effective_units sorted_membership sort_by text_ltb get_or get put trim_space has_suffix
    text_beq
listed = refl
