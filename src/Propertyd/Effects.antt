-- ===== src/Propertyd/Effects.antt =====
-- cmd/sys-propertyd/main.go: what an enabled unit changes, and a change whose write has failed.
use servicectl.Base.{
  ◌≡◌, refl, sym, ap, ◌∙◌, Bool, true, false, ◌&&◌, not, Option, none, some, ◌==◌, ==_iff, Map,
  get_or, get_or-put, get-delete, if◌then◌else◌, if-intro, arith,
}
use servicectl.Base.Text.{Text, text, text_eq, is_empty}
use servicectl.Propertyd.Store.{
  Mode, system, user, Membership, ModeState, Daemon, write_error, Write, written, failed,
  mode_state, set_mode_state, normalize_mode, normalize_unit_name, set_membership, same_value,
  Outcome, save_state, publish, then_publish,
}
use servicectl.Propertyd.Lists.{
  in_mode, list_changed, save_enabled, enable_unit, set_enabled_unit, member_payload,
}

unfoldable pub same_mode : Mode → Mode → Bool
same_mode system system = true
same_mode system user = false
same_mode user system = false
same_mode user user = true

get_or-set_membership :
    (m : Membership) (name other : Text) (present : Bool)
    → get_or (set_membership m name present) other false
      ≡ (if name == other then present else get_or m other false)
unfolding set_membership get_or
get_or-set_membership m name other present =
    ground (arith, get_or-put m name other true false, get-delete m name other)

mode_state-set :
    (m n : Mode) (s : ModeState) (d : Daemon)
    → mode_state n (set_mode_state m s d) ≡ (if same_mode m n then s else mode_state n d)
unfolding mode_state set_mode_state same_mode
mode_state-set system system s d = refl
mode_state-set system user s d = refl
mode_state-set user system s d = refl
mode_state-set user user s d = refl

-- What a mode holds does not depend on the file and the events.
save_enabled-mode_state :
    (w : Write) (m n : Mode) (s : ModeState) (payload : Map Text Text) (d : Daemon)
    → mode_state n (save_enabled w m s payload d).0
      ≡ (if same_mode m n then record s { enabled_initialized = true } else mode_state n d)
unfolding save_enabled save_state then_publish list_changed publish mode_state set_mode_state
    same_mode
save_enabled-mode_state written system system s payload d = refl
save_enabled-mode_state written system user s payload d = refl
save_enabled-mode_state written user system s payload d = refl
save_enabled-mode_state written user user s payload d = refl
save_enabled-mode_state (failed message left) system system s payload d = refl
save_enabled-mode_state (failed message left) system user s payload d = refl
save_enabled-mode_state (failed message left) user system s payload d = refl
save_enabled-mode_state (failed message left) user user s payload d = refl

unfoldable pub unit_enabled : Daemon → Mode → Text → Bool
unit_enabled d m u = get_or (mode_state m d).enabled_units u false

same_mode-eq : (m n : Mode) → same_mode m n ≡ true → m ≡ n
unfolding same_mode
same_mode-eq system system h = refl
same_mode-eq system user h = cc
same_mode-eq user system h = cc
same_mode-eq user user h = refl

same_value-eq : (a b : Bool) → same_value a b ≡ true → a ≡ b
same_value-eq a b h = ground arith

changed_state : Daemon → Mode → Text → Bool → ModeState
changed_state d m unit enabled = record (mode_state m d) {
  enabled_units = set_membership (mode_state m d).enabled_units unit enabled;
}

module _ (d : Daemon) (m : Mode) (unit : Text) (enabled : Bool) (w : Write) where
  -- Nothing to do: the unit is as it is to be.
  as_it_is :
      (n : Mode) (u : Text)
      → same_value (unit_enabled d m unit) enabled ≡ true
      → unit_enabled d n u ≡ (if same_mode m n && unit == u then enabled else unit_enabled d n u)
  as_it_is n u h =
      if-intro (λ b. unit_enabled d n u ≡ b) (same_mode m n && unit == u)
        (λ same.
          let mode_same = same_mode-eq m n (ground arith) in
          let unit_same = (==_iff unit u).0 (ground arith) in
          ap (λ k. unit_enabled d k u) (sym mode_same)
          ∙ ap (unit_enabled d m) (sym unit_same)
          ∙ same_value-eq (unit_enabled d m unit) enabled h)
        (λ _. refl)

  as_asked :
      (payload : Map Text Text) (n : Mode) (u : Text)
      → unit_enabled (save_enabled w m (changed_state d m unit enabled) payload d).0 n u
        ≡ (if same_mode m n && unit == u then enabled else unit_enabled d n u)
  unfolding unit_enabled changed_state
  as_asked payload n u =
      ap (λ (s : ModeState). get_or s.enabled_units u false)
        (save_enabled-mode_state w m n (changed_state d m unit enabled) payload d)
      ∙ ground (
        arith,
        same_mode-eq m n,
        get_or-set_membership (mode_state m d).enabled_units unit u enabled,
      )

  enable_unit-sets :
      is_empty unit ≡ false
      → (n : Mode) (u : Text)
      → unit_enabled (enable_unit w d m unit enabled).0 n u
        ≡ (if same_mode m n && unit == u then enabled else unit_enabled d n u)
  unfolding enable_unit changed_state unit_enabled
  enable_unit-sets named n u =
      let Sets : Outcome → Type 0 = λ o.
        unit_enabled o.0 n u
        ≡ (if same_mode m n && unit == u then enabled else unit_enabled d n u) in
      if-intro Sets (is_empty unit) (λ h. absurd (ground arith))
        (λ _.
          if-intro Sets
            (not (not (same_value (get_or (mode_state m d).enabled_units unit false) enabled))
              && (mode_state m d).enabled_initialized)
            (λ h. as_it_is n u (ground arith))
            (λ _. as_asked (member_payload (text "enabled") (text "unit") unit enabled) n u))

-- Whatever the write does, setEnabledUnit for a mode and a name that are accepted makes the unit as
-- it was asked in the mode, and leaves each other unit and the other mode as they were.
pub set_enabled_unit-sets :
    (w : Write) (d : Daemon) (mode unit : Text) (enabled : Bool) (m : Mode)
    → normalize_mode mode ≡ some m
    → is_empty (normalize_unit_name unit) ≡ false
    → (n : Mode) (u : Text)
    → unit_enabled (set_enabled_unit w d mode unit enabled).0 n u
      ≡ (if same_mode m n && normalize_unit_name unit == u then enabled else unit_enabled d n u)
unfolding set_enabled_unit in_mode
set_enabled_unit-sets w d mode unit enabled m known named n u =
    rw (known, in_mode) (enable_unit-sets d m (normalize_unit_name unit) enabled w named n u)

same_mode_refl : (m : Mode) → same_mode m m ≡ true
unfolding same_mode
same_mode_refl system = refl
same_mode_refl user = refl

-- A change whose write has failed, and the same call once more.
module _ (d : Daemon) (unit : Text) (enabled : Bool) (message left : Text) (w : Write) where
  -- The change is in the memory, so that the call finds nothing to do.
  save_enabled-again :
      (m : Mode) (payload : Map Text Text) (e : Daemon)
      → (save_enabled (failed message left) m (changed_state d m unit enabled) payload d).0 ≡ e
      → is_empty unit ≡ false
      → enable_unit w e m unit enabled ≡ (e, none)
  unfolding enable_unit changed_state
  save_enabled-again m payload e first named =
      let state =
        sym (ap (mode_state m) first)
        ∙ save_enabled-mode_state (failed message left) m m (changed_state d m unit enabled) payload
            d
        ∙ ap
            (λ b.
              if b
              then record (changed_state d m unit enabled) { enabled_initialized = true }
              else mode_state m d)
            (same_mode_refl m) in
      ground (
        arith,
        ap (λ (s : ModeState). get_or s.enabled_units unit false) state,
        ap (λ (s : ModeState). s.enabled_initialized) state,
        get_or-set_membership (mode_state m d).enabled_units unit unit enabled,
        ==_iff unit unit,
      )

  save_enabled-file :
      (m : Mode) (s : ModeState) (payload : Map Text Text)
      → (save_enabled (failed message left) m s payload d).0.file ≡ left
  unfolding save_enabled save_state then_publish
  save_enabled-file m s payload = refl

  abbrev Ignores : (Daemon → Outcome) → Outcome → Type 0
  Ignores call first =
      first.1 ≡ some (write_error message)
      → (call first.0 ≡ (first.0, none)) × (first.0.file ≡ left)

  enable_unit-Ignores :
      (m : Mode)
      → Ignores
          (λ e. enable_unit w e m unit enabled)
          (enable_unit (failed message left) d m unit enabled)
  unfolding changed_state
  enable_unit-Ignores m =
      let Good : Outcome → Type 0 = Ignores (λ e. enable_unit w e m unit enabled) in
      let payload = member_payload (text "enabled") (text "unit") unit enabled in
      unfold enable_unit in
      if-intro Good (is_empty unit) (λ _ h. absurd cc)
        (λ named.
          if-intro Good
            (not (not (same_value (get_or (mode_state m d).enabled_units unit false) enabled))
              && (mode_state m d).enabled_initialized)
            (λ _ h. absurd cc)
            (λ _ h. (
              save_enabled-again m payload _ refl named,
              save_enabled-file m (changed_state d m unit enabled) payload,
            )))

  in_mode-Ignores :
      (mode : Option Mode)
      → Ignores
          (λ e. in_mode e (λ m. enable_unit w e m unit enabled) mode)
          (in_mode d (λ m. enable_unit (failed message left) d m unit enabled) mode)
  unfolding in_mode
  in_mode-Ignores none h = absurd cc
  in_mode-Ignores (some m) h = enable_unit-Ignores m h

-- Where the write of a setEnabledUnit fails, the same call once more reports success and does
-- nothing at all, whatever its write would do: the file stays as the failed write has left it.
pub set_enabled_unit-again :
    (d : Daemon) (mode unit : Text) (enabled : Bool) (message left : Text) (w : Write)
    → (set_enabled_unit (failed message left) d mode unit enabled).1 ≡ some (write_error message)
    → (set_enabled_unit w
          (set_enabled_unit (failed message left) d mode unit enabled).0
          mode
          unit
          enabled
        ≡ ((set_enabled_unit (failed message left) d mode unit enabled).0, none))
      × ((set_enabled_unit (failed message left) d mode unit enabled).0.file ≡ left)
unfolding set_enabled_unit
set_enabled_unit-again d mode unit enabled message left w h =
    in_mode-Ignores d (normalize_unit_name unit) enabled message left w (normalize_mode mode) h
