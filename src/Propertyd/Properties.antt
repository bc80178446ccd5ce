-- ===== src/Propertyd/Properties.antt =====
-- cmd/sys-propertyd/main.go: setProperty and what the daemon answers about a property or a group.
use servicectl.Base.{
  Bool, true, false, ◌||◌, Option, none, some, [], ◌∷◌, ◌==◌, Map, put, delete, if◌then◌else◌,
}
use servicectl.Base.Text.{Text, text, text_eq, is_empty, trim_space, to_lower, strip_prefix}
use servicectl.Propertyd.Store.{
  Mode, system, user, mode_name, property_changed, group_changed, Daemon, key_required, Write,
  mode_state, set_mode_state, normalize_mode, set_membership, Outcome, save_state, publish,
  then_publish,
}
use servicectl.Propertyd.Lists.{yes_no, in_mode}

-- util.ExternalManagedValueEnabled
unfoldable pub external_managed_value_enabled : Text → Bool
external_managed_value_enabled value =
    let v = trim_space (to_lower value) in
    v == text "1" || v == text "true" || v == text "yes" || v == text "on"

unfoldable pub group_payload : Text → Text → Bool → Map Text Text
group_payload group value persistent =
    (text "group", group)
    ∷ (text "enabled", yes_no (value == text "1"))
    ∷ (text "persistent", yes_no persistent)
    ∷ []

-- A prefix that is not there leaves the key as it is, as `strings.TrimPrefix`.
unfoldable pub publish_persistent_group : Text → Option Text → Daemon → Daemon
unfolding publish group_payload
publish_persistent_group value none d = d
publish_persistent_group value (some group) d =
    publish (text "user") group_changed (group_payload group value true)
      (publish (text "system") group_changed (group_payload group value true) d)

unfoldable pub publish_runtime_group : Text → Text → Option Text → Daemon → Daemon
unfolding publish group_payload
publish_runtime_group mode value none d = d
publish_runtime_group mode value (some group) d =
    publish mode group_changed (group_payload group value false) d

unfoldable pub publish_property : Text → Text → Bool → Text → Daemon → Daemon
unfolding publish
publish_property key value persistent mode d =
    let payload =
      (text "key", key) ∷ (text "value", value) ∷ (text "persistent", yes_no persistent) ∷ [] in
    if persistent
    then publish (text "user") property_changed payload
        (publish (text "system") property_changed payload d)
    else publish mode property_changed payload d

unfoldable pub publish_property_change : Text → Text → Bool → Text → Daemon → Daemon
unfolding publish_property publish_persistent_group publish_runtime_group
publish_property_change key value persistent mode d =
    publish_runtime_group mode value (strip_prefix (text "prop.group.") key) (
      publish_persistent_group value (strip_prefix (text "persist.group.") key)
        (publish_property key value persistent mode d))

unfoldable pub enable_in : Mode → Text → Bool → Daemon → Daemon
unfolding mode_state set_mode_state set_membership
enable_in mode group enabled d =
    let s = mode_state mode d in
    set_mode_state mode
      (record s {
        enabled_groups = set_membership s.enabled_groups group enabled;
        enabled_initialized = true;
      })
      d

-- A persistent property of a group is kept in the list of enabled groups.
unfoldable pub set_group_property : Write → Daemon → Text → Text → Bool → Text → Outcome
unfolding enable_in save_state then_publish publish_property_change
set_group_property w d key group enabled mode =
    let both = enable_in user group enabled (enable_in system group enabled d) in
    then_publish (publish_property_change key (if enabled then text "1" else text "0") true mode)
      (save_state w (record both { persistent = delete both.persistent key }))

is_unset : Text → Bool
is_unset value = is_empty value || value == text "0" || to_lower value == text "false"

unfoldable pub put_value : Map Text Text → Text → Text → Map Text Text
unfolding is_unset
put_value store key value = if is_unset value then delete store key else put store key value

unfoldable pub shown_value : Text → Text
unfolding is_unset
shown_value value = if is_unset value then text "0" else value

unfoldable pub set_runtime : Write → Daemon → Text → Text → Mode → Outcome
unfolding mode_state set_mode_state put_value shown_value save_state then_publish
    publish_property_change
set_runtime w d key value mode =
    let s = mode_state mode d in
    then_publish (publish_property_change key (shown_value value) false (mode_name mode))
      (save_state w (set_mode_state mode (record s { runtime = put_value s.runtime key value }) d))

unfoldable pub set_persistent : Write → Daemon → Text → Text → Text → Option Text → Outcome
unfolding set_group_property external_managed_value_enabled put_value shown_value save_state
    then_publish publish_property_change
set_persistent w d key value mode (some group) =
    set_group_property w d key group (external_managed_value_enabled value) mode
set_persistent w d key value mode none =
    then_publish (publish_property_change key (shown_value value) true mode)
      (save_state w (record d { persistent = put_value d.persistent key value }))

unfoldable pub set_property : Write → Daemon → Text → Text → Bool → Text → Outcome
unfolding in_mode set_runtime set_persistent normalize_mode
set_property w d key value persistent mode =
    if is_empty key
    then (d, some key_required)
    else if persistent
    then set_persistent w d key value mode (strip_prefix (text "persist.group.") key)
    else in_mode d (set_runtime w d key value) (normalize_mode mode)
