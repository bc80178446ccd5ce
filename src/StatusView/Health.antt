-- ===== src/StatusView/Health.antt =====
-- deriveNodeHealth, aggregateHealth and their helpers of internal/statusview/model.go.
use servicectl.Base.{ℕ, Bool, true, false, not, List, [], ◌∷◌, ◌++◌, ltb, ◌==◌, if◌then◌else◌}
use servicectl.Base.Text.{Text, text, text_eq}
use servicectl.StatusView.Model.{
  RuntimeState, Health, DiagnosticSeverity, DiagnosticDomain, Node, Diagnostic, Model, runtime_text,
  health_text,
}

unfoldable pub health_rank : Health → ℕ
health_rank Health.failed = 3
health_rank Health.degraded = 2
health_rank Health.unknown = 1
health_rank Health.healthy = 0
health_rank (Health.other s) = 0

unfoldable pub more_severe : Health → Health → Health
more_severe left right = if ltb (health_rank left) (health_rank right) then right else left

-- The health of the service follows its runtime state.
unfoldable pub service_health : RuntimeState → Health
service_health RuntimeState.failed = Health.failed
service_health RuntimeState.unknown = Health.unknown
service_health RuntimeState.activating = Health.healthy
service_health RuntimeState.deactivating = Health.healthy
service_health RuntimeState.active = Health.healthy
service_health RuntimeState.inactive = Health.healthy
service_health (RuntimeState.other s) = Health.healthy

-- Only the service counts as failed.
unfoldable pub capped_health : Health → Health
capped_health Health.failed = Health.degraded
capped_health Health.healthy = Health.healthy
capped_health Health.degraded = Health.degraded
capped_health Health.unknown = Health.unknown
capped_health (Health.other s) = Health.other s

unfoldable pub derive_node : RuntimeState → Text → Node → Node
derive_node runtime service_id node =
    if node.id == service_id
    then record node { health = service_health runtime }
    else record node { health = capped_health node.health }

-- deriveNodeHealth, on the nodes.
unfoldable pub derive_node_health : RuntimeState → Text → List Node → List Node
derive_node_health runtime service_id [] = []
derive_node_health runtime service_id (node ∷ rest) =
    derive_node runtime service_id node ∷ derive_node_health runtime service_id rest

unfoldable pub diagnostic_health : DiagnosticSeverity → Health
diagnostic_health DiagnosticSeverity.failed = Health.failed
diagnostic_health DiagnosticSeverity.degraded = Health.degraded
diagnostic_health DiagnosticSeverity.unknown = Health.unknown
diagnostic_health DiagnosticSeverity.info = Health.healthy
diagnostic_health (DiagnosticSeverity.other s) = Health.healthy

abbrev pub is_failed : DiagnosticSeverity → Bool
is_failed DiagnosticSeverity.failed = true
is_failed _ = false

abbrev pub is_orchestration : DiagnosticDomain → Bool
is_orchestration DiagnosticDomain.orchestration = true
is_orchestration _ = false

-- The variables `orchestration` and `aggregate`.
pub record Totals : Type 0 where
  pub orchestration : Health
  pub aggregate : Health

unfoldable pub add_node : Text → Totals → Node → Totals
add_node service_id t node =
    if node.id == service_id
    then record t { aggregate = more_severe t.aggregate node.health }
    else record {
      orchestration = more_severe t.orchestration node.health;
      aggregate = more_severe t.aggregate node.health;
    }

unfoldable pub add_nodes : Text → Totals → List Node → Totals
unfolding add_node
add_nodes service_id t [] = t
add_nodes service_id t (node ∷ rest) = add_nodes service_id (add_node service_id t node) rest

unfoldable pub add_diagnostic : Totals → Diagnostic → Totals
unfolding diagnostic_health
add_diagnostic t d =
    let health = diagnostic_health d.severity in
    if not d.affects_health then t else record {
      orchestration =
          if is_orchestration d.domain then more_severe t.orchestration health else t.orchestration;
      aggregate =
          if not (is_failed d.severity) then more_severe t.aggregate health else t.aggregate;
    }

unfoldable pub add_diagnostics : Totals → List Diagnostic → Totals
unfolding add_diagnostic
add_diagnostics t [] = t
add_diagnostics t (d ∷ rest) = add_diagnostics (add_diagnostic t d) rest

unfoldable pub totals : Text → List Node → List Diagnostic → Totals
unfolding add_nodes add_diagnostics
totals service_id nodes diagnostics =
    add_diagnostics
      (add_nodes service_id (record { orchestration = Health.healthy; aggregate = Health.healthy })
        nodes)
      diagnostics

abbrev pub is_healthy : Health → Bool
is_healthy Health.healthy = true
is_healthy _ = false

abbrev is_runtime_failed : RuntimeState → Bool
is_runtime_failed RuntimeState.failed = true
is_runtime_failed _ = false

unfoldable pub display_state : RuntimeState → Health → Text
unfolding runtime_text health_text
display_state runtime aggregate =
    if is_runtime_failed runtime
    then runtime_text RuntimeState.failed
    else if is_healthy aggregate
    then runtime_text runtime
    else runtime_text runtime ++ (text " (" ++ (health_text aggregate ++ text ")"))

unfoldable pub aggregate_health : Text → Model → Model
unfolding display_state
aggregate_health service_id model =
    let t = totals service_id model.orchestration.nodes model.diagnostics in
    record model {
      summary = record (model.summary) {
        orchestration_health = t.orchestration;
        aggregate_health = t.aggregate;
        display_state = display_state model.summary.runtime_state t.aggregate;
      };
    }

unfoldable pub exit_code : Model → ℕ
exit_code model = if is_healthy model.summary.aggregate_health then 0 else 3
