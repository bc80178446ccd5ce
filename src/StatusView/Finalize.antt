-- ===== src/StatusView/Finalize.antt =====
-- Finalize of internal/statusview/model.go: check, derive, sort, aggregate. Its copy of the model
-- is the model, since values do not change here.
use Prim.Native.Nat.{max}
use servicectl.Base.{
  ℕ, ◌≡◌, ◌↔◌, inl, inr, refl, subst, true, not, ◌&&◌, List, [], ◌∷◌, arith, ◌==◌, if◌then◌else◌,
  Result, ok, ◌>>=◌, >>=-eq-ok, worst, worst-zero_iff, All, Bool-cases,
}
use servicectl.Base.Text.{Text, text_eq}
use servicectl.Base.Sort.{worst-sort_by}
use servicectl.StatusView.Model.{RuntimeState, Health, Node, Graph, Diagnostic, Model}
use servicectl.StatusView.Validate.{GraphError, validate_graph}
use servicectl.StatusView.Topology.{IsTopology, validate_graph-IsTopology}
use servicectl.StatusView.Health.{
  health_rank, more_severe, service_health, capped_health, derive_node, derive_node_health,
  diagnostic_health, is_failed, is_healthy, Totals, add_node, add_nodes, add_diagnostic,
  add_diagnostics, totals, aggregate_health, exit_code,
}
use servicectl.StatusView.Arrange.{node_less, sort_graph}

unfoldable pub finalize : Model → Result GraphError Model
finalize model = do
  service_id ← validate_graph model.orchestration
  let derived = derive_node_health model.summary.runtime_state service_id model.orchestration.nodes
  let graph = sort_graph (record (model.orchestration) { nodes = derived })
  ok (aggregate_health service_id (record model { orchestration = graph }))

rank-more_severe :
    (a b : Health) → health_rank (more_severe a b) ≡ max (health_rank a) (health_rank b)
unfolding more_severe
rank-more_severe a b = ground arith

-- The rank that a node of the input counts with.
unfoldable pub node_rank : RuntimeState → Text → Node → ℕ
node_rank runtime service_id node =
    if node.id == service_id
    then health_rank (service_health runtime)
    else health_rank (capped_health node.health)

-- The rank that a diagnostic counts with in the aggregate.
unfoldable pub diagnostic_rank : Diagnostic → ℕ
diagnostic_rank d =
    if d.affects_health && not (is_failed d.severity)
    then health_rank (diagnostic_health d.severity)
    else 0

own_rank : Node → ℕ
own_rank node = health_rank node.health

add_nodes-rank :
    (service_id : Text) (t : Totals) (nodes : List Node)
    → health_rank (add_nodes service_id t nodes).aggregate
      ≡ max (health_rank t.aggregate) (worst own_rank nodes)
unfolding add_nodes worst own_rank
add_nodes-rank service_id t [] = omega arith
add_nodes-rank service_id t (node ∷ rest) = ground (
  arith,
  add_nodes-rank service_id (add_node service_id t node) rest,
  rank-more_severe t.aggregate node.health,
)

add_diagnostics-rank :
    (t : Totals) (ds : List Diagnostic)
    → health_rank (add_diagnostics t ds).aggregate
      ≡ max (health_rank t.aggregate) (worst diagnostic_rank ds)
unfolding add_diagnostics worst diagnostic_rank
add_diagnostics-rank t [] = omega arith
add_diagnostics-rank t (d ∷ rest) = ground (
  arith,
  add_diagnostics-rank (add_diagnostic t d) rest,
  rank-more_severe t.aggregate (diagnostic_health d.severity),
)

worst-derived :
    (runtime : RuntimeState) (service_id : Text) (nodes : List Node)
    → worst own_rank (derive_node_health runtime service_id nodes)
      ≡ worst (node_rank runtime service_id) nodes
unfolding derive_node_health derive_node worst own_rank node_rank
worst-derived runtime service_id [] = refl
worst-derived runtime service_id (node ∷ rest) =
    ground (arith, worst-derived runtime service_id rest)

-- What Finalize returns for a model that passes the check.
unfoldable pub finalized : Text → Model → Model
finalized service_id model =
    let derived =
      derive_node_health model.summary.runtime_state service_id model.orchestration.nodes in
    aggregate_health service_id (record model {
      orchestration = sort_graph (record (model.orchestration) { nodes = derived });
    })

pub finalize-ok :
    (model f : Model)
    → finalize model ≡ ok f
    → (service_id : Text) × (validate_graph model.orchestration ≡ ok service_id)
      × (finalized service_id model ≡ f)
unfolding finalize finalized
finalize-ok model f h =
    let (service_id, e, k) = >>=-eq-ok (validate_graph model.orchestration) _ h in
    (service_id, e, cc)

worst-sort_graph : (g : Graph) → worst own_rank (sort_graph g).nodes ≡ worst own_rank g.nodes
unfolding sort_graph
worst-sort_graph g = worst-sort_by node_less own_rank g.nodes

rank-healthy : health_rank Health.healthy ≡ 0
unfolding health_rank
rank-healthy = refl

finalized-rank :
    (service_id : Text) (model : Model)
    → health_rank (finalized service_id model).summary.aggregate_health
      ≡ max
          (worst (node_rank model.summary.runtime_state service_id) model.orchestration.nodes)
          (worst diagnostic_rank model.diagnostics)
unfolding finalized aggregate_health totals
finalized-rank service_id model =
    let start : Totals = record { orchestration = Health.healthy; aggregate = Health.healthy } in
    let runtime = model.summary.runtime_state in
    let derived = derive_node_health runtime service_id model.orchestration.nodes in
    let sorted = sort_graph (record (model.orchestration) { nodes = derived }) in
    omega (
      arith,
      add_diagnostics-rank (add_nodes service_id start sorted.nodes) model.diagnostics,
      add_nodes-rank service_id start sorted.nodes,
      worst-sort_graph (record (model.orchestration) { nodes = derived }),
      worst-derived runtime service_id model.orchestration.nodes,
      rank-healthy,
    )

-- The aggregate health of a finalized model is as severe as the most severe part that counts: the
-- service by its runtime state, every other node with failed read as degraded, and the diagnostics
-- that affect health and are not failures.
pub finalize-rank :
    (model f : Model)
    → finalize model ≡ ok f
    → (service_id : Text) × IsTopology model.orchestration service_id
      × (health_rank f.summary.aggregate_health
          ≡ max
              (worst (node_rank model.summary.runtime_state service_id) model.orchestration.nodes)
              (worst diagnostic_rank model.diagnostics))
finalize-rank model f h =
    let (service_id, e, k) = finalize-ok model f h in
    (
      service_id,
      validate_graph-IsTopology model.orchestration service_id e,
      subst
          (λ g.
            health_rank g.summary.aggregate_health
            ≡ max
                (worst (node_rank model.summary.runtime_state service_id) model.orchestration.nodes)
                (worst diagnostic_rank model.diagnostics))
          k (finalized-rank service_id model),
    )

-- A health of rank 0 that was not read from a node is `healthy`.
abbrev IsPlain : Health → Type 0
IsPlain h = health_rank h ≡ 0 → h ≡ Health.healthy

more_severe-IsPlain : (a b : Health) → IsPlain a → IsPlain (more_severe a b)
unfolding more_severe
more_severe-IsPlain a b h = ground arith

add_nodes-IsPlain :
    (service_id : Text) (t : Totals) (nodes : List Node)
    → IsPlain t.aggregate
    → IsPlain (add_nodes service_id t nodes).aggregate
unfolding add_nodes
add_nodes-IsPlain service_id t [] h = h
add_nodes-IsPlain service_id t (node ∷ rest) h =
    add_nodes-IsPlain service_id (add_node service_id t node) rest
      (elim (Bool-cases (node.id == service_id)) [
        | inl e ↦ rw (e, add_node) (more_severe-IsPlain t.aggregate node.health h)
        | inr e ↦ rw (e, add_node) (more_severe-IsPlain t.aggregate node.health h)
      ])

add_diagnostics-IsPlain :
    (t : Totals) (ds : List Diagnostic)
    → IsPlain t.aggregate
    → IsPlain (add_diagnostics t ds).aggregate
unfolding add_diagnostics
add_diagnostics-IsPlain t [] h = h
add_diagnostics-IsPlain t (d ∷ rest) h =
    add_diagnostics-IsPlain (add_diagnostic t d) rest
      (ground (arith, more_severe-IsPlain t.aggregate (diagnostic_health d.severity) h))

finalized-IsPlain :
    (service_id : Text) (model : Model)
    → IsPlain (finalized service_id model).summary.aggregate_health
unfolding finalized aggregate_health totals
finalized-IsPlain service_id model =
    let start : Totals = record { orchestration = Health.healthy; aggregate = Health.healthy } in
    let runtime = model.summary.runtime_state in
    let derived = derive_node_health runtime service_id model.orchestration.nodes in
    let sorted = sort_graph (record (model.orchestration) { nodes = derived }) in
    add_diagnostics-IsPlain (add_nodes service_id start sorted.nodes) model.diagnostics
      (add_nodes-IsPlain service_id start sorted.nodes (λ e. refl))

-- Nothing that counts is unhealthy.
pub record IsQuiet (service_id : Text) (model : Model) : Type 0 where
  pub nodes :
      All (λ n. node_rank model.summary.runtime_state service_id n ≡ 0) model.orchestration.nodes
  pub diagnostics : All (λ d. diagnostic_rank d ≡ 0) model.diagnostics

rank-is_healthy : (a : Health) → IsPlain a → (health_rank a ≡ 0) ↔ (is_healthy a ≡ true)
unfolding health_rank
rank-is_healthy Health.healthy h = (λ e. refl, λ e. refl)
rank-is_healthy a h = ground arith

exit_code-rank :
    (f : Model)
    → IsPlain f.summary.aggregate_health
    → (exit_code f ≡ 0) ↔ (health_rank f.summary.aggregate_health ≡ 0)
unfolding exit_code
exit_code-rank f h = ground (arith, rank-is_healthy f.summary.aggregate_health h)

-- The exit code of a finalized model is 0 exactly when nothing that counts is unhealthy.
pub exit_code-IsQuiet :
    (model f : Model)
    → finalize model ≡ ok f
    → (service_id : Text) × IsTopology model.orchestration service_id
      × ((exit_code f ≡ 0) ↔ IsQuiet service_id model)
exit_code-IsQuiet model f h =
    let (service_id, e, k) = finalize-ok model f h in
    let runtime = model.summary.runtime_state in
    let nodes = worst-zero_iff (node_rank runtime service_id) model.orchestration.nodes in
    let diagnostics = worst-zero_iff diagnostic_rank model.diagnostics in
    let code = exit_code-rank (finalized service_id model) (finalized-IsPlain service_id model) in
    (
      service_id,
      validate_graph-IsTopology model.orchestration service_id e,
      subst (λ g. (exit_code g ≡ 0) ↔ IsQuiet service_id model) k
          (
            λ z. record {
              nodes = nodes.0 (omega (arith, finalized-rank service_id model, code.0 z));
              diagnostics =
                  diagnostics.0 (omega (arith, finalized-rank service_id model, code.0 z));
            },
            λ q. code.1 (
                omega (
                  arith,
                  finalized-rank service_id model,
                  nodes.1 q.nodes,
                  diagnostics.1 q.diagnostics,
                )),
          ),
    )
