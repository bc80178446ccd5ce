-- ===== src/Propertyd/Unseen.antt =====
-- cmd/sys-propertyd/main.go: what a write of the state file leaves, and changes that it does not see.
use servicectl.Base.{◌≡◌, refl, sym, ◌∙◌, Bool, Option, none, some, Map, if-intro}
use servicectl.Base.Text.{Text, text_eq}
use servicectl.Propertyd.Store.{
  Mode, system, user, ModeState, Daemon, mode_required, unit_required, group_required, key_required,
  write_error, Write, written, failed, mode_state, set_mode_state, state_content, Outcome,
  save_state, publish, then_publish, EventKind,
}
use servicectl.Propertyd.Lists.{list_changed, save_enabled}
use servicectl.Propertyd.Properties.{
  publish_persistent_group, publish_runtime_group, publish_property, publish_property_change,
}

abbrev pub IsSaved : Daemon → Type 0
IsSaved d = d.file ≡ state_content d

-- What an operation leaves: after success the file holds the state, after a failed write what that
-- has left, and after any other error the daemon is as it was.
abbrev pub Leaves : Write → Daemon → Outcome → Type 0
Leaves w d (e, none) = IsSaved e
Leaves w d (e, some (write_error message)) = w ≡ failed message e.file
Leaves w d (e, some mode_required) = e ≡ d
Leaves w d (e, some unit_required) = e ≡ d
Leaves w d (e, some group_required) = e ≡ d
Leaves w d (e, some key_required) = e ≡ d

-- A change that the state file does not see.
abbrev pub Keeps : Daemon → Daemon → Type 0
Keeps d e = (e.file ≡ d.file) × (state_content e ≡ state_content d)

pub IsSaved-kept : (d e : Daemon) → Keeps d e → IsSaved d → IsSaved e
IsSaved-kept d e k saved = k.0 ∙ saved ∙ sym k.1

pub publish-Keeps :
    (mode : Text) (kind : EventKind) (payload : Map Text Text) (d : Daemon)
    → Keeps d (publish mode kind payload d)
unfolding publish state_content
publish-Keeps mode kind payload d = (refl, refl)

pub list_changed-Keeps :
    (mode : Mode) (payload : Map Text Text) (d : Daemon) → Keeps d (list_changed mode payload d)
unfolding list_changed state_content
list_changed-Keeps mode payload d = (refl, refl)

pub Keeps-trans : (d e f : Daemon) → Keeps d e → Keeps e f → Keeps d f
Keeps-trans d e f k l = (l.0 ∙ k.0, l.1 ∙ k.1)

module _ (key value : Text) (persistent : Bool) (mode : Text) where
  pub publish_property-Keeps : (d : Daemon) → Keeps d (publish_property key value persistent mode d)
  unfolding publish_property state_content
  publish_property-Keeps d = if-intro (Keeps d) persistent (λ _. (refl, refl)) (λ _. (refl, refl))

  pub publish_persistent_group-Keeps :
      (group : Option Text) (d : Daemon) → Keeps d (publish_persistent_group value group d)
  unfolding publish_persistent_group state_content
  publish_persistent_group-Keeps none d = (refl, refl)
  publish_persistent_group-Keeps (some group) d = (refl, refl)

  pub publish_runtime_group-Keeps :
      (group : Option Text) (d : Daemon) → Keeps d (publish_runtime_group mode value group d)
  unfolding publish_runtime_group state_content
  publish_runtime_group-Keeps none d = (refl, refl)
  publish_runtime_group-Keeps (some group) d = (refl, refl)

  pub publish_property_change-Keeps :
      (d : Daemon) → Keeps d (publish_property_change key value persistent mode d)
  unfolding publish_property_change
  publish_property_change-Keeps d =
      Keeps-trans d _ _ (publish_property-Keeps d)
        (Keeps-trans _ _ _ (publish_persistent_group-Keeps _ _) (publish_runtime_group-Keeps _ _))

written_content : (d : Daemon) → IsSaved (record d { file = state_content d })
unfolding state_content
written_content d = refl

-- A write, with what is published after it.
pub save_state-Leaves :
    (f : Daemon → Daemon)
    → ((e : Daemon) → Keeps e (f e))
    → (w : Write) (d0 d : Daemon) → Leaves w d0 (then_publish f (save_state w d))
unfolding then_publish save_state
save_state-Leaves f quiet written d0 d =
    let e : Daemon = record d { file = state_content d } in
    IsSaved-kept e (f e) (quiet e) (written_content d)
save_state-Leaves f quiet (failed message left) d0 d = refl

pub property-Leaves :
    (w : Write) (d0 d : Daemon) (key value : Text) (persistent : Bool) (mode : Text)
    → Leaves w d0
        (then_publish (publish_property_change key value persistent mode) (save_state w d))
property-Leaves w d0 d key value persistent mode =
    save_state-Leaves (publish_property_change key value persistent mode)
      (publish_property_change-Keeps key value persistent mode) w d0 d

pub save_enabled-Leaves :
    (w : Write) (d0 d : Daemon) (mode : Mode) (s : ModeState) (payload : Map Text Text)
    → Leaves w d0 (save_enabled w mode s payload d)
unfolding save_enabled
save_enabled-Leaves w d0 d mode s payload =
    save_state-Leaves (list_changed mode payload) (list_changed-Keeps mode payload) w d0 _

-- Running units are not saved.
pub runner_units-Keeps :
    (mode : Mode) (d : Daemon) (units : Map Text Bool)
    → Keeps d (set_mode_state mode (record (mode_state mode d) { runner_units = units }) d)
unfolding set_mode_state mode_state state_content
runner_units-Keeps system d units = (refl, refl)
runner_units-Keeps user d units = (refl, refl)
