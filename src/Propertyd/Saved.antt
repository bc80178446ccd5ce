-- ===== src/Propertyd/Saved.antt =====
-- cmd/sys-propertyd/main.go: the state file holds the state of the daemon.
use servicectl.Base.{
  refl, Bool, true, false, ◌&&◌, Option, none, some, [], ◌++◌, Map, get_or, delete, if◌then◌else◌,
  if-intro,
}
use servicectl.Base.Text.{Text, text, text_eq, is_empty, trim_space, strip_prefix}
use servicectl.Propertyd.Store.{
  Membership, Mode, system, user, Daemon, Write, mode_name, mode_state, set_mode_state,
  normalize_mode, normalize_unit_name, set_membership, membership_equal, same_value, Outcome,
}
use servicectl.Propertyd.Lists.{
  in_mode, member_payload, replace_payload, list_changed, save_enabled, enable_unit, enable_list,
  enable_group, run_list, run_unit, replacement_of, set_enabled_unit, replace_enabled_list,
  set_enabled_group, replace_runner_list, set_runner_unit,
}
use servicectl.Propertyd.Properties.{
  enable_in, put_value, shown_value, external_managed_value_enabled, set_group_property,
  set_runtime, set_persistent, set_property,
}
use servicectl.Propertyd.Steps.{
  Operation, run, enabling_unit, replacing_enabled, enabling_group, replacing_runner, running_unit,
  setting_property,
}
use servicectl.Propertyd.Unseen.{
  IsSaved, Leaves, IsSaved-kept, list_changed-Keeps, Keeps-trans, property-Leaves,
  save_enabled-Leaves, runner_units-Keeps,
}

module _ (w : Write) (d : Daemon) (saved : IsSaved d) where
  in_mode-Leaves :
      (next : Mode → Outcome)
      → ((mode : Mode) → Leaves w d (next mode))
      → (mode : Option Mode) → Leaves w d (in_mode d next mode)
  unfolding in_mode
  in_mode-Leaves next h none = refl
  in_mode-Leaves next h (some mode) = h mode

  -- The early returns, and a change that is published alone.
  unchanged-or : (b : Bool) (o : Outcome) → Leaves w d o → Leaves w d (if b then (d, none) else o)
  unchanged-or b o h = if-intro (Leaves w d) b (λ _. saved) (λ _. h)

  published :
      (mode : Mode) (payload : Map Text Text) (units : Map Text Bool)
      → Leaves w d (
        list_changed mode payload
            (set_mode_state mode (record (mode_state mode d) { runner_units = units }) d),
        none,
      )
  published mode payload units =
      IsSaved-kept d _
        (Keeps-trans d _ _ (runner_units-Keeps mode d units) (list_changed-Keeps mode payload _))
        saved

  enable_unit-Leaves :
      (mode : Mode) (unit : Text) (enabled : Bool) → Leaves w d (enable_unit w d mode unit enabled)
  unfolding enable_unit
  enable_unit-Leaves mode unit enabled =
      if-intro (Leaves w d) (is_empty unit) (λ _. refl)
        (λ _. unchanged-or _ _ (
          save_enabled-Leaves w d d mode
            (record (mode_state mode d) {
              enabled_units = set_membership (mode_state mode d).enabled_units unit enabled;
            })
            (member_payload (text "enabled") (text "unit") unit enabled)))

  enable_group-Leaves :
      (group : Text) (enabled : Bool) (mode : Mode)
      → Leaves w d (enable_group w d group enabled mode)
  unfolding enable_group
  enable_group-Leaves group enabled mode =
      if-intro (Leaves w d) (is_empty group) (λ _. refl)
        (λ _. unchanged-or _ _ (
          save_enabled-Leaves w d
            (record d { persistent = delete d.persistent (text "persist.group." ++ group) }) mode
            (record (mode_state mode d) {
              enabled_groups = set_membership (mode_state mode d).enabled_groups group enabled;
            })
            (member_payload (text "enabled-groups") (text "group") group enabled)))

  run_unit-Leaves :
      (unit : Text) (running : Bool) (mode : Mode) → Leaves w d (run_unit d unit running mode)
  unfolding run_unit
  run_unit-Leaves unit running mode =
      if-intro (Leaves w d) (is_empty unit) (λ _. refl)
        (λ _.
          unchanged-or (same_value (get_or (mode_state mode d).runner_units unit false) running) _ (
            published mode (member_payload (text "runner") (text "unit") unit running)
              (set_membership (mode_state mode d).runner_units unit running)))

  set_runtime-Leaves :
      (key value : Text) (mode : Mode) → Leaves w d (set_runtime w d key value mode)
  unfolding set_runtime
  set_runtime-Leaves key value mode =
      property-Leaves w d
        (set_mode_state mode
          (record (mode_state mode d) { runtime = put_value (mode_state mode d).runtime key value })
          d)
        key (shown_value value) false (mode_name mode)

  set_persistent-Leaves :
      (key value mode : Text) (group : Option Text)
      → Leaves w d (set_persistent w d key value mode group)
  unfolding set_persistent set_group_property
  set_persistent-Leaves key value mode none =
      property-Leaves w d (record d { persistent = put_value d.persistent key value }) key
        (shown_value value) true mode
  set_persistent-Leaves key value mode (some group) =
      let enabled = external_managed_value_enabled value in
      let both = enable_in user group enabled (enable_in system group enabled d) in
      property-Leaves w d (record both { persistent = delete both.persistent key }) key
        (if enabled then text "1" else text "0") true mode

  enable_list-Leaves :
      (replacement : Membership) (mode : Mode) → Leaves w d (enable_list w d replacement mode)
  unfolding enable_list
  enable_list-Leaves replacement mode =
      unchanged-or
        (membership_equal (mode_state mode d).enabled_units replacement
          && (mode_state mode d).enabled_initialized)
        (save_enabled w mode (record (mode_state mode d) { enabled_units = replacement })
          (replace_payload (text "enabled")) d)
        (save_enabled-Leaves w d d mode (record (mode_state mode d) { enabled_units = replacement })
          (replace_payload (text "enabled")))

  run_list-Leaves :
      (replacement : Membership) (mode : Mode) → Leaves w d (run_list d replacement mode)
  unfolding run_list
  run_list-Leaves replacement mode =
      unchanged-or (membership_equal (mode_state mode d).runner_units replacement)
        (
          list_changed mode (replace_payload (text "runner"))
              (set_mode_state mode (record (mode_state mode d) { runner_units = replacement }) d),
          none,
        )
        (published mode (replace_payload (text "runner")) replacement)

  -- Every operation of the daemon: where the state file holds the state and the operation reports
  -- no error, the file holds the state after it, too; where the write fails, the error is that of
  -- the write; and any other error leaves the daemon as it was.
  pub run-Leaves : (o : Operation) → Leaves w d (run o w d)
  unfolding run set_enabled_unit replace_enabled_list set_enabled_group replace_runner_list
      set_runner_unit set_property
  run-Leaves (enabling_unit mode unit enabled) =
      in_mode-Leaves (λ m. enable_unit w d m (normalize_unit_name unit) enabled)
        (λ m. enable_unit-Leaves m (normalize_unit_name unit) enabled) (normalize_mode mode)
  run-Leaves (replacing_enabled mode units) =
      in_mode-Leaves (enable_list w d (replacement_of [] units))
        (enable_list-Leaves (replacement_of [] units)) (normalize_mode mode)
  run-Leaves (enabling_group mode group enabled) =
      in_mode-Leaves (enable_group w d (trim_space group) enabled)
        (enable_group-Leaves (trim_space group) enabled) (normalize_mode mode)
  run-Leaves (replacing_runner mode units) =
      in_mode-Leaves (run_list d (replacement_of [] units))
        (run_list-Leaves (replacement_of [] units)) (normalize_mode mode)
  run-Leaves (running_unit mode unit running) =
      in_mode-Leaves (run_unit d (normalize_unit_name unit) running)
        (run_unit-Leaves (normalize_unit_name unit) running) (normalize_mode mode)
  run-Leaves (setting_property mode key value persistent) =
      if-intro (Leaves w d) (is_empty key) (λ _. refl)
        (λ _.
          if-intro (Leaves w d) persistent
            (λ _. set_persistent-Leaves key value mode (strip_prefix (text "persist.group.") key))
            (λ _.
              in_mode-Leaves (set_runtime w d key value) (set_runtime-Leaves key value)
                (normalize_mode mode)))
