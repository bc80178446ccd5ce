-- ===== src/Cgroups/Directories.antt =====
-- internal/cgrouptrack/types.go: a unit's directory stands for the unit.
use servicectl.Base.{
  ℕ, ◌≡◌, refl, sym, ap, ◌∙◌, subst, true, false, [], ◌∷◌, ◌++◌, ◌==◌, ==_iff, nat_eq, Result, ok,
  if-intro, ◌>>=◌, >>=-eq-ok, arith,
}
use servicectl.Base.Text.{Text, text_eq, text_beq, is_empty, has_suffix, trim_suffix}
use servicectl.Base.Suffix.{trim_suffix-append, trim_suffix-has_suffix}
use servicectl.Cgroups.Units.{
  UnitKey, UnitError, service_suffix, validate_unit_name, check_mode, validate, directory_name,
  check_directory, decode_unit_directory,
}

-- What an accepted name ends with.
validate_unit_name-suffix :
    (name n : Text)
    → validate_unit_name name ≡ ok n
    → (has_suffix name service_suffix ≡ true) × ((name == service_suffix) ≡ false)
unfolding validate_unit_name
validate_unit_name-suffix name n h = (ground arith, ground arith)

check_mode-unit : (k : UnitKey) (n : Text) → check_mode k ≡ ok n → n ≡ k.unit
unfolding check_mode
check_mode-unit k n h = ground arith

validate-suffix :
    (k : UnitKey) (n : Text)
    → validate k ≡ ok n
    → (trim_suffix k.unit service_suffix ++ service_suffix ≡ k.unit)
      × ((k.unit == service_suffix) ≡ false)
unfolding validate
validate-suffix k n h =
    let (m, first, last) = >>=-eq-ok (check_mode k) validate_unit_name h in
    let named = subst (λ u. validate_unit_name u ≡ ok n) (check_mode-unit k m first) last in
    let (ends, apart) = validate_unit_name-suffix k.unit n named in
    (trim_suffix-has_suffix k.unit service_suffix ends, apart)

not_empty : (d : Text) → ((d ++ service_suffix) == service_suffix) ≡ false → is_empty d ≡ false
unfolding text_beq
not_empty [] h = absurd (ground arith)
not_empty (c ∷ d) h = refl

-- A key whose unit is a directory with the suffix.
decoded :
    (mode : Text) (uid : ℕ) (d n : Text)
    → validate (record { mode = mode; uid = uid; unit = d ++ service_suffix }) ≡ ok n
    → decode_unit_directory mode uid d
      ≡ ok (record { mode = mode; uid = uid; unit = d ++ service_suffix })
unfolding decode_unit_directory check_directory
decoded mode uid d n h =
    let k : UnitKey = record { mode = mode; uid = uid; unit = d ++ service_suffix } in
    let apart = (validate-suffix k n h).1 in
    let same =
      (==_iff (trim_suffix (d ++ service_suffix) service_suffix) d).1
        (trim_suffix-append d service_suffix) in
    rw (not_empty d apart, h, same) refl

ok_injective : (a b : Text) → ◌≡◌ {A = Result UnitError Text} (ok a) (ok b) → a ≡ b
ok_injective a b h = cc

forth :
    (k : UnitKey) (d : Text) → directory_name k ≡ ok d → decode_unit_directory k.mode k.uid d ≡ ok k
unfolding directory_name
forth k d h =
    let (n, valid, last) = >>=-eq-ok (validate k) (λ _. ok (trim_suffix k.unit service_suffix)) h in
    let same : d ++ service_suffix ≡ k.unit =
      ap (λ t. t ++ service_suffix) (sym (ok_injective (trim_suffix k.unit service_suffix) d last))
      ∙ (validate-suffix k n valid).0 in
    let Key : Text → UnitKey = λ u. record { mode = k.mode; uid = k.uid; unit = u } in
    decoded k.mode k.uid d n (ap (λ u. validate (Key u)) same ∙ valid) ∙ ap (λ u. ok (Key u)) same

check_directory-ok : (d c : Text) (key k : UnitKey) → check_directory d key c ≡ ok k → key ≡ k
unfolding check_directory
check_directory-ok d c key k h = ground arith

checked :
    (key k : UnitKey) (d : Text)
    → trim_suffix key.unit service_suffix ≡ d
    → (validate key >>= (λ _. check_directory d key (trim_suffix key.unit service_suffix))) ≡ ok k
    → directory_name k ≡ ok d
unfolding directory_name
checked key k d stem h =
    let (n, valid, last) =
      >>=-eq-ok (validate key) (λ _. check_directory d key (trim_suffix key.unit service_suffix))
        h in
    let same = check_directory-ok d (trim_suffix key.unit service_suffix) key k last in
    subst (λ k. (validate k >>= (λ _. ok (trim_suffix k.unit service_suffix))) ≡ ok d) same
      (rw (valid, stem) refl)

-- What an accepted directory is decoded to.
back :
    (k : UnitKey) (d : Text) → decode_unit_directory k.mode k.uid d ≡ ok k → directory_name k ≡ ok d
unfolding decode_unit_directory
back k d =
    let key : UnitKey = record { mode = k.mode; uid = k.uid; unit = d ++ service_suffix } in
    let Good : Result UnitError UnitKey → Type 0 = λ r. r ≡ ok k → directory_name k ≡ ok d in
    if-intro Good (is_empty d) (λ _ h. cc)
      (λ _ h. checked key k d (trim_suffix-append d service_suffix) h)

-- The directory of a valid unit is decoded to the unit, for the unit's mode and user; and what
-- DecodeUnitDirectory accepts is a valid unit with that directory.
pub decode_unit_directory_iff :
    (k : UnitKey) (d : Text)
    → (directory_name k ≡ ok d → decode_unit_directory k.mode k.uid d ≡ ok k)
      × (decode_unit_directory k.mode k.uid d ≡ ok k → directory_name k ≡ ok d)
decode_unit_directory_iff k d = (λ h. forth k d h, λ h. back k d h)
