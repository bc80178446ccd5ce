-- ===== src/StatusView/Model.antt =====
-- The data of internal/statusview/model.go. A named string type of the source has its constants
-- and `other`, for every other string. Times and process numbers are only carried along.
use servicectl.Base.{ℕ, Bool, List, [], ◌∷◌, Option}
use servicectl.Base.Text.{Text, text, text_eq}

pub data RuntimeState : Type 0 where
  failed activating deactivating active inactive unknown : RuntimeState
  other : Text → RuntimeState

pub data Health : Type 0 where
  healthy failed degraded unknown : Health
  other : Text → Health

pub data Relation : Type 0 where
  controls activates supervises accounts observes : Relation
  other : Text → Relation

pub data DiagnosticSeverity : Type 0 where
  failed degraded unknown info : DiagnosticSeverity
  other : Text → DiagnosticSeverity

pub data DiagnosticDomain : Type 0 where
  runtime orchestration output : DiagnosticDomain
  other : Text → DiagnosticDomain

pub record Summary : Type 0 where
  pub runtime_state : RuntimeState
  pub orchestration_health : Health
  pub aggregate_health : Health
  pub display_state : Text
  pub enabled_state : Text
  pub main_pid : ℕ

pub record Evidence : Type 0 where
  pub source : Text
  pub result : Text
  pub authoritative : Bool
  pub checked_at : ℕ
  pub source_observed_at : Option ℕ
  pub detail : Text

pub record Node : Type 0 where
  pub id : Text
  pub type_name : Text
  pub name : Text
  pub scope : Text
  pub health : Health
  pub state : Text
  pub expected : Bool
  pub observed_at : ℕ
  pub evidence : List Evidence
  pub pid : ℕ
  pub manager_pid : ℕ
  pub child_pids : List ℕ
  pub endpoint : Text
  pub bus_owner : Text
  pub cgroup_path : Text

pub record Edge : Type 0 where
  pub from : Text
  pub to : Text
  pub relation : Relation
  pub primary : Bool

pub record Graph : Type 0 where
  pub nodes : List Node
  pub edges : List Edge

pub record Diagnostic : Type 0 where
  pub severity : DiagnosticSeverity
  pub domain : DiagnosticDomain
  pub code : Text
  pub message : Text
  pub affects_health : Bool
  pub observed_at : ℕ
  pub node_id : Text
  pub hint : Text
  pub source : Text

pub record Model : Type 0 where
  pub observed_at : ℕ
  pub unit : Text
  pub summary : Summary
  pub orchestration : Graph
  pub diagnostics : List Diagnostic

-- The strings of the constants.
unfoldable pub runtime_text : RuntimeState → Text
runtime_text RuntimeState.failed = text "failed"
runtime_text RuntimeState.activating = text "activating"
runtime_text RuntimeState.deactivating = text "deactivating"
runtime_text RuntimeState.active = text "active"
runtime_text RuntimeState.inactive = text "inactive"
runtime_text RuntimeState.unknown = text "unknown"
runtime_text (RuntimeState.other s) = s

unfoldable pub health_text : Health → Text
health_text Health.healthy = text "healthy"
health_text Health.failed = text "failed"
health_text Health.degraded = text "degraded"
health_text Health.unknown = text "unknown"
health_text (Health.other s) = s

unfoldable pub relation_text : Relation → Text
relation_text Relation.controls = text "controls"
relation_text Relation.activates = text "activates"
relation_text Relation.supervises = text "supervises"
relation_text Relation.accounts = text "accounts"
relation_text Relation.observes = text "observes"
relation_text (Relation.other s) = s

abbrev pub ids : List Node → List Text
ids [] = []
ids (n ∷ ns) = n.id ∷ ids ns
