-- ===== src/DbusActivation/Environment.antt =====
-- internal/dbusactivation/environment.go: the filter of an environment, and the store that keeps the
-- environments of the frontends with their generations.
use servicectl.Base.{
  ℕ, ◌+◌, ◌-◌, ◌*◌, ◌^◌, Bool, ◌||◌, Option, none, some, List, [], ◌∷◌, length, nat_beq, ltb,
  Result, ok, err, ◌>>=◌, if◌then◌else◌, nat_eq, Map, get, put, contains,
}
use servicectl.Base.Text.{Text, text, text_eq, is_empty, has_byte}

abbrev pub blocked_environment : List Text
blocked_environment =
    text "LD_PRELOAD"
    ∷ text "LD_LIBRARY_PATH"
    ∷ text "LD_AUDIT"
    ∷ text "GCONV_PATH"
    ∷ text "GLIBC_TUNABLES"
    ∷ text "MALLOC_TRACE"
    ∷ text "PYTHONHOME"
    ∷ text "PYTHONPATH"
    ∷ text "PERL5LIB"
    ∷ text "PERLLIB"
    ∷ text "RUBYLIB"
    ∷ text "RUBYOPT"
    ∷ text "NODE_OPTIONS"
    ∷ text "NODE_PATH"
    ∷ text "BASH_ENV"
    ∷ text "ENV"
    ∷ text "DBUS_SESSION_BUS_ADDRESS"
    ∷ text "DBUS_SESSION_BUS_PID"
    ∷ text "DBUS_SESSION_BUS_WINDOWID"
    ∷ text "DBUS_STARTER_ADDRESS"
    ∷ text "DBUS_STARTER_BUS_TYPE"
    ∷ text "DISPLAY"
    ∷ text "WAYLAND_DISPLAY"
    ∷ text "XAUTHORITY"
    ∷ text "SSH_AUTH_SOCK"
    ∷ text "NOTIFY_SOCKET"
    ∷ text "LISTEN_FDS"
    ∷ text "LISTEN_PID"
    ∷ text "LISTEN_FDNAMES"
    ∷ text "WATCHDOG_PID"
    ∷ text "WATCHDOG_USEC"
    ∷ text "INVOCATION_ID"
    ∷ text "JOURNAL_STREAM"
    ∷ text "MANAGERPID"
    ∷ text "SYSTEMD_EXEC_PID"
    ∷ []

pub data EnvironmentError : Type 0 where
  value_too_long : EnvironmentError
  too_many_entries : EnvironmentError
  too_long_in_total : EnvironmentError

-- `strings.Cut(entry, "=")`.
unfoldable pub cut_equals : Text → Option (Text × Text)
cut_equals [] = none
cut_equals (c ∷ s) =
    let rest = cut_equals s in
    if nat_beq c b'='
    then some ([], s)
    else elim rest [ none ↦ none | some (key, value) ↦ some (c ∷ key, value) ]

-- The variables so far, with the size of their entries in total.
pub record Filtered : Type 0 where
  pub values : Map Text Text
  pub total : ℕ

unfoldable pub is_skipped : Text → Text → Bool
is_skipped key value =
    (is_empty key || has_byte key b'=' || has_byte key 0 || has_byte value 0)
    || contains blocked_environment key

-- `total -= ...` for the entry that is replaced.
unfoldable pub without_entry : Text → Filtered → ℕ
without_entry key f = elim (get f.values key) [
  | none ↦ f.total
  | some old ↦ f.total - (length key + length old + 2)
]

unfoldable pub add_variable : Text → Text → Filtered → Filtered
unfolding without_entry
add_variable key value f = record {
  values = put f.values key value;
  total = without_entry key f + (length key + length value + 2);
}

unfoldable pub check_limits : Filtered → Result EnvironmentError Filtered
check_limits f =
    if ltb 256 (length f.values)
    then err too_many_entries
    else if ltb (32 * 2 ^ 10) f.total
    then err too_long_in_total
    else ok f

unfoldable pub filter_entry : Option (Text × Text) → Filtered → Result EnvironmentError Filtered
unfolding is_skipped add_variable check_limits
filter_entry none f = ok f
filter_entry (some (key, value)) f =
    if is_skipped key value
    then ok f
    else if ltb (8 * 2 ^ 10) (length value)
    then err value_too_long
    else check_limits (add_variable key value f)

unfoldable pub filter_entries : List Text → Filtered → Result EnvironmentError Filtered
unfolding cut_equals filter_entry
filter_entries [] f = ok f
filter_entries (entry ∷ rest) f = filter_entry (cut_equals entry) f >>= filter_entries rest

unfoldable pub filter_environment : List Text → Result EnvironmentError (Map Text Text)
unfolding filter_entries
filter_environment entries =
    filter_entries entries (record { values = []; total = 0 }) >>= λ f. ok f.values
