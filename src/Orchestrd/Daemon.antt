-- ===== src/Orchestrd/Daemon.antt =====
-- cmd/sys-orchestrd/main.go: the daemon's state, its errors, and what it does to the world.
use servicectl.Base.{
  ℕ, suc, Bool, not, ◌&&◌, ◌||◌, Option, none, some, List, [], ◌∷◌, ◌++◌, ◌==◌, nat_eq,
  if◌then◌else◌,
}
use servicectl.Base.Text.{Text, text, trim_space, is_empty, to_lower, contains_text}
use servicectl.Base.Atoi.{Signed, atoi, positive}

pub record OperationError : Type 0 where
  pub executor : Text
  pub action : Text
  pub target : Text
  pub detail : Text
  pub error : Option Text
  pub is_permanent : Bool

-- `strings.ReplaceAll(s, "\n", " | ")`.
replace_line_breaks : Text → Text
replace_line_breaks [] = []
replace_line_breaks (c ∷ s) =
    let rest = replace_line_breaks s in if c == b'\n' then text " | " ++ rest else c ∷ rest

-- `strings.Join(parts, " ")`.
join_words : List Text → Text
join_words [] = []
join_words (w ∷ []) = w
join_words (w ∷ v ∷ rest) = w ++ (text " " ++ join_words (v ∷ rest))

abbrev part : Text → Text → Text → List Text
part value key shown = if not (is_empty (trim_space value)) then (key ++ shown) ∷ [] else []

abbrev error_part : Option Text → List Text
error_part none = []
error_part (some message) = (text "error=" ++ message) ∷ []

unfoldable pub error_text : OperationError → Text
unfolding join_words replace_line_breaks
error_text e = join_words (
    part e.executor (text "executor=") e.executor
    ++ (part e.action (text "action=") e.action
        ++ (part e.target (text "target=") e.target
            ++ (part e.detail (text "detail=") (replace_line_breaks (trim_space e.detail))
                ++ error_part e.error))))

-- A state as it stands in the state file or in an event on the bus; the subject is the unit in the
-- one and the daemon's object in the other.
pub record Report : Type 0 where
  pub subject : Text
  pub service : Text
  pub state : Text
  pub reason : Text
  pub failure_count : ℕ
  pub fused : Bool

-- What the daemon does to the world, the program runs with their mode, action and unit.
pub data Effect : Type 0 where
  wrote : Report → Effect
  published : Report → Effect
  ran : Bool → Text → Text → Effect
  ordered : Bool → Text → Effect
  asked_unit : Text → Effect
  asked_group : Text → Effect
  asked_unit_groups : Text → Effect

pub record Daemon : Type 0 where
  pub unit : Text
  pub group : Text
  pub user_mode : Bool
  pub service_name : Text
  pub state : Text
  pub max_failures : ℕ
  pub failure_count : ℕ
  pub fused : Bool
  pub fuse_reason : Text
  pub groups : List Text
  pub group_units : List Text
  -- What was done, the last first.
  pub log : List Effect

unfoldable pub is_group_mode : Daemon → Bool
is_group_mode d = not (is_empty (trim_space d.group))

unfoldable pub object_name : Daemon → Text
unfolding is_group_mode
object_name d = if is_group_mode d then text "group:" ++ d.group else d.unit

abbrev pub does : Effect → Daemon → Daemon
does effect d = record d { log = effect ∷ d.log }

abbrev report : Daemon → Text → Text → Text → Report
report d subject state reason = record {
  subject = subject;
  service = d.service_name;
  state = state;
  reason = reason;
  failure_count = d.failure_count;
  fused = d.fused;
}

unfoldable pub write_state : Text → Text → Daemon → Daemon
write_state state reason d =
    does (wrote (report d d.unit state reason)) (record d { state = state })

unfoldable pub publish_state : Text → Text → Daemon → Daemon
unfolding object_name
publish_state state reason d = does (published (report d (object_name d) state reason)) d

-- The two calls that follow each other almost everywhere.
unfoldable pub announce : Text → Text → Daemon → Daemon
unfolding write_state publish_state
announce state reason d = publish_state state reason (write_state state reason d)

unfoldable pub first_non_empty : List Text → Text
first_non_empty [] = []
first_non_empty (value ∷ rest) =
    let next = first_non_empty rest in
    if not (is_empty (trim_space value)) then trim_space value else next

-- The bound for what `strconv.Atoi` reads: three where it reads no number of at least one.
unfoldable pub threshold : Option Signed → ℕ
threshold (some (positive (suc n))) = suc n
threshold _ = 3

unfoldable pub max_failure_threshold : Text → ℕ
unfolding threshold
max_failure_threshold setting =
    let value = trim_space setting in if is_empty value then 3 else threshold (atoi value)

unfoldable pub is_permanent_start_error : Text → Bool
is_permanent_start_error message =
    let v = to_lower (trim_space message) in
    not (is_empty v)
    && (contains_text v (text "not found")
        || (contains_text v (text "cycle detected") || contains_text v (text "invalid")))
