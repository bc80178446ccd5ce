-- ===== src/Cgroups/Units.antt =====
-- internal/cgrouptrack/types.go: units of the system and of users, and their directories.
use servicectl.Base.{
  ℕ, suc, Bool, false, ◌||◌, not, [], ◌∷◌, ◌++◌, length, ltb, ◌==◌, nat_eq, Result, ok, err,
  if◌then◌else◌, ◌>>=◌,
}
use servicectl.Base.Text.{
  Text, text, text_eq, is_empty, has_byte, has_prefix, has_suffix, trim_suffix, trim_space,
}
use servicectl.DbusActivation.Wire.{is_utf8}

pub data UnitError : Type 0 where
  system_uid : UnitError
  invalid_mode : Text → UnitError
  invalid_length : UnitError
  forbidden_part : UnitError
  control_character : UnitError
  no_service_suffix : UnitError
  forbidden_stem : UnitError
  empty_directory : UnitError
  not_canonical : UnitError
  missing_boot_or_epoch : UnitError
  missing_pid_or_generation : UnitError

pub record UnitKey : Type 0 where
  pub mode : Text
  pub uid : ℕ
  pub unit : Text

abbrev pub service_suffix : Text
service_suffix = text ".service"

-- `strings.Count(name, ".service")`: the occurrences cannot overlap.
unfoldable pub count_suffixes : Text → ℕ
count_suffixes [] = 0
count_suffixes (c ∷ s) =
    let rest = count_suffixes s in if has_prefix (c ∷ s) service_suffix then suc rest else rest

unfoldable pub has_control : Text → Bool
has_control [] = false
has_control (c ∷ s) = (ltb c 0x20 || c == 0x7F) || has_control s

unfoldable pub validate_unit_name : Text → Result UnitError Text
unfolding count_suffixes has_control
validate_unit_name name =
    let stem = trim_suffix name service_suffix in
    if is_empty name || ltb 255 (length name) || not (is_utf8 name)
    then err invalid_length
    else if name == text "."
        || name == text ".."
        || has_byte name b'/'
        || has_byte name b'\\'
        || has_byte name 0
    then err forbidden_part
    else if has_control name
    then err control_character
    else if not (has_suffix name service_suffix)
        || not (count_suffixes name == 1)
        || name == service_suffix
    then err no_service_suffix
    else if stem == text "." || stem == text ".."
    then err forbidden_stem
    else ok name

unfoldable pub check_mode : UnitKey → Result UnitError Text
check_mode k =
    if k.mode == text "system"
    then (if not (k.uid == 0) then err system_uid else ok k.unit)
    else if k.mode == text "user"
    then ok k.unit
    else err (invalid_mode k.mode)

unfoldable pub validate : UnitKey → Result UnitError Text
unfolding check_mode validate_unit_name
validate k = check_mode k >>= validate_unit_name

unfoldable pub directory_name : UnitKey → Result UnitError Text
directory_name k = validate k >>= λ _. ok (trim_suffix k.unit service_suffix)

unfoldable pub check_directory : Text → UnitKey → Text → Result UnitError UnitKey
check_directory directory k canonical =
    if not (canonical == directory) then err not_canonical else ok k

unfoldable pub decode_unit_directory : Text → ℕ → Text → Result UnitError UnitKey
unfolding check_directory
decode_unit_directory mode uid directory =
    let k : UnitKey = record { mode = mode; uid = uid; unit = directory ++ service_suffix } in
    if is_empty directory
    then err empty_directory
    else validate k >>= λ _. check_directory directory k (trim_suffix k.unit service_suffix)

-- A run of a unit. A main process id that is not positive is 0.
pub record InstanceIdentity : Type 0 where
  pub key : UnitKey
  pub boot_id : Text
  pub main_pid : ℕ
  pub main_pid_start_time : ℕ
  pub vision_epoch : Text
  pub generation : ℕ

unfoldable pub check_instance : InstanceIdentity → Result UnitError InstanceIdentity
check_instance i =
    if is_empty (trim_space i.boot_id) || is_empty (trim_space i.vision_epoch)
    then err missing_boot_or_epoch
    else if i.main_pid == 0 || (i.main_pid_start_time == 0 || i.generation == 0)
    then err missing_pid_or_generation
    else ok i

unfoldable pub validate_instance : InstanceIdentity → Result UnitError InstanceIdentity
unfolding check_instance
validate_instance i = validate i.key >>= λ _. check_instance i
