-- ===== src/Propertyd/Lists.antt =====
-- cmd/sys-propertyd/main.go: the lists of enabled units and groups and of running units.
use servicectl.Base.{
  Bool, true, false, ◌&&◌, not, Option, none, some, List, [], ◌∷◌, ◌++◌, Map, get_or, put, delete,
  if◌then◌else◌,
}
use servicectl.Base.Text.{Text, text, text_eq, is_empty, trim_space}
use servicectl.Propertyd.Store.{
  Mode, mode_name, GroupDefinition, Membership, ModeState, unit_list_changed, Daemon, mode_required,
  unit_required, group_required, Write, mode_state, set_mode_state, normalize_mode,
  normalize_unit_name, set_membership, membership_equal, same_value, sorted_membership, Outcome,
  save_state, publish, then_publish,
}

-- util.YesNo
abbrev pub yes_no : Bool → Text
yes_no value = if value then text "yes" else text "no"

-- What is published of a list.
unfoldable pub list_changed : Mode → Map Text Text → Daemon → Daemon
unfolding publish
list_changed mode payload = publish (mode_name mode) unit_list_changed payload

unfoldable pub member_payload : Text → Text → Text → Bool → Map Text Text
member_payload list kind name present =
    (text "list", list) ∷ (kind, name) ∷ (text "present", yes_no present) ∷ []

unfoldable pub replace_payload : Text → Map Text Text
replace_payload list = (text "list", list) ∷ (text "replace", text "yes") ∷ []

-- A change of the enabled units or groups of a mode: it is saved and published.
unfoldable pub save_enabled : Write → Mode → ModeState → Map Text Text → Daemon → Outcome
unfolding save_state then_publish set_mode_state list_changed
save_enabled w mode s payload d =
    then_publish (list_changed mode payload)
      (save_state w (set_mode_state mode (record s { enabled_initialized = true }) d))

unfoldable pub enable_unit : Write → Daemon → Mode → Text → Bool → Outcome
unfolding save_enabled mode_state set_membership member_payload
enable_unit w d mode unit enabled =
    let s = mode_state mode d in
    let changed = not (same_value (get_or s.enabled_units unit false) enabled) in
    if is_empty unit
    then (d, some unit_required)
    else if not changed && s.enabled_initialized
    then (d, none)
    else save_enabled w mode
        (record s { enabled_units = set_membership s.enabled_units unit enabled })
        (member_payload (text "enabled") (text "unit") unit enabled) d

unfoldable pub in_mode : Daemon → (Mode → Outcome) → Option Mode → Outcome
in_mode d next none = (d, some mode_required)
in_mode d next (some mode) = next mode

unfoldable pub set_enabled_unit : Write → Daemon → Text → Text → Bool → Outcome
unfolding in_mode enable_unit normalize_mode normalize_unit_name
set_enabled_unit w d mode unit enabled =
    in_mode d (λ m. enable_unit w d m (normalize_unit_name unit) enabled) (normalize_mode mode)

unfoldable pub add_replacement : Membership → Text → Membership
add_replacement replacement normalized =
    if is_empty normalized then replacement else put replacement normalized true

-- The loop of replaceEnabledList and replaceRunnerList.
unfoldable pub replacement_of : Membership → List Text → Membership
unfolding add_replacement normalize_unit_name
replacement_of replacement [] = replacement
replacement_of replacement (unit ∷ units) =
    replacement_of (add_replacement replacement (normalize_unit_name unit)) units

unfoldable pub enable_list : Write → Daemon → Membership → Mode → Outcome
unfolding save_enabled mode_state membership_equal replace_payload
enable_list w d replacement mode =
    let s = mode_state mode d in
    if membership_equal s.enabled_units replacement && s.enabled_initialized
    then (d, none)
    else save_enabled w mode (record s { enabled_units = replacement })
        (replace_payload (text "enabled")) d

unfoldable pub replace_enabled_list : Write → Daemon → Text → List Text → Outcome
unfolding in_mode enable_list normalize_mode replacement_of
replace_enabled_list w d mode units =
    in_mode d (enable_list w d (replacement_of [] units)) (normalize_mode mode)

unfoldable pub enable_group : Write → Daemon → Text → Bool → Mode → Outcome
unfolding save_enabled mode_state set_membership member_payload
enable_group w d group enabled mode =
    let s = mode_state mode d in
    let changed = not (same_value (get_or s.enabled_groups group false) enabled) in
    if is_empty group
    then (d, some group_required)
    else if not changed && s.enabled_initialized
    then (d, none)
    else save_enabled w mode
        (record s { enabled_groups = set_membership s.enabled_groups group enabled })
        (member_payload (text "enabled-groups") (text "group") group enabled)
        (record d { persistent = delete d.persistent (text "persist.group." ++ group) })

unfoldable pub set_enabled_group : Write → Daemon → Text → Text → Bool → Outcome
unfolding in_mode enable_group normalize_mode
set_enabled_group w d mode group enabled =
    in_mode d (enable_group w d (trim_space group) enabled) (normalize_mode mode)

unfoldable pub run_list : Daemon → Membership → Mode → Outcome
unfolding mode_state set_mode_state membership_equal list_changed replace_payload
run_list d replacement mode =
    let s = mode_state mode d in
    if membership_equal s.runner_units replacement then (d, none) else (
      list_changed mode (replace_payload (text "runner"))
          (set_mode_state mode (record s { runner_units = replacement }) d),
      none,
    )

unfoldable pub replace_runner_list : Daemon → Text → List Text → Outcome
unfolding in_mode run_list normalize_mode replacement_of
replace_runner_list d mode units =
    in_mode d (run_list d (replacement_of [] units)) (normalize_mode mode)

unfoldable pub run_unit : Daemon → Text → Bool → Mode → Outcome
unfolding mode_state set_mode_state set_membership list_changed member_payload
run_unit d unit running mode =
    let s = mode_state mode d in
    if is_empty unit
    then (d, some unit_required)
    else if same_value (get_or s.runner_units unit false) running
    then (d, none)
    else (
      list_changed mode (member_payload (text "runner") (text "unit") unit running) (
          set_mode_state mode
            (record s { runner_units = set_membership s.runner_units unit running }) d),
      none,
    )

unfoldable pub set_runner_unit : Daemon → Text → Text → Bool → Outcome
unfolding in_mode run_unit normalize_mode normalize_unit_name
set_runner_unit d mode unit running =
    in_mode d (run_unit d (normalize_unit_name unit) running) (normalize_mode mode)

-- The loops of unitLists over `effective`.
unfoldable pub add_units : Membership → List Text → Membership
add_units effective [] = effective
add_units effective (unit ∷ units) = add_units (put effective unit true) units

abbrev pub no_group : GroupDefinition
no_group = record { units = []; targets = [] }

unfoldable pub add_groups : ModeState → Membership → List Text → Membership
unfolding replacement_of
add_groups s effective [] = effective
add_groups s effective (group ∷ groups) =
    add_groups s (replacement_of effective (get_or s.groups group no_group).units) groups

-- Its EffectiveUnits.
unfoldable pub effective_units : Mode → Daemon → List Text
unfolding mode_state add_units add_groups sorted_membership
effective_units mode d =
    let s = mode_state mode d in
    sorted_membership (
      add_groups s
        (add_units (add_units [] (sorted_membership s.enabled_units))
          (sorted_membership s.runner_units))
        (sorted_membership s.enabled_groups))
