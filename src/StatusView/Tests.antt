-- ===== src/StatusView/Tests.antt =====
-- Runs of the status model on one topology, and the theorems at that input.
use servicectl.Base.{◌≡◌, ◌≢◌, ◌↔◌, refl, true, List, [], ◌∷◌, ok, err, contains, get, get_or, put}
use servicectl.Base.Text.{Text, text, text_eq, text_ltb, text_beq}
use servicectl.Base.Sort.{sort_by}
use servicectl.StatusView.Model.{
  RuntimeState, Health, Relation, DiagnosticSeverity, DiagnosticDomain, Node, Edge, Graph,
  Diagnostic, Model, runtime_text, health_text, relation_text,
}
use servicectl.StatusView.Validate.{
  out_of_fuel, wrong_roots, validate_node_ids, find_service, require_service, read_edges, read_edge,
  add_primary, collect, uncounted, walk, check_paths, validate_graph,
}
use servicectl.StatusView.Topology.{IsTopology, validate_graph-IsTopology, validate_graph-total}
use servicectl.StatusView.Health.{
  health_rank, service_health, capped_health, derive_node_health, aggregate_health, more_severe,
  totals, derive_node, exit_code,
}
use servicectl.StatusView.Arrange.{sort_graph, node_less, edge_less, place_of}
use servicectl.StatusView.Finalize.{finalize, IsQuiet, exit_code-IsQuiet}
use servicectl.StatusView.Sorted.{Arranges, finalize-Arranges}

abbrev node : Text → Text → Health → Node
node id kind health = record {
  id = id;
  type_name = kind;
  name = id;
  scope = text "system";
  health = health;
  state = [];
  expected = true;
  observed_at = 0;
  evidence = [];
  pid = 0;
  manager_pid = 0;
  child_pids = [];
  endpoint = [];
  bus_owner = [];
  cgroup_path = [];
}

abbrev edge : Text → Text → Edge
edge from to = record { from = from; to = to; relation = Relation.controls; primary = true }

-- The orchestrator, Dinit and the service, out of order.
abbrev nodes : List Node
nodes =
    node (text "svc") (text "service") Health.healthy
    ∷ node (text "orch") (text "orchestrator") Health.failed
    ∷ node (text "dinit") (text "manager") Health.healthy
    ∷ []

abbrev edges : List Edge
edges = edge (text "orch") (text "dinit") ∷ edge (text "dinit") (text "svc") ∷ []

abbrev graph : Graph
graph = record { nodes = nodes; edges = edges }

abbrev diagnostic : Diagnostic
diagnostic = record {
  severity = DiagnosticSeverity.failed;
  domain = DiagnosticDomain.orchestration;
  code = [];
  message = [];
  affects_health = true;
  observed_at = 0;
  node_id = [];
  hint = [];
  source = [];
}

abbrev model : Model
model = record {
  observed_at = 0;
  unit = text "svc";
  summary = record {
    runtime_state = RuntimeState.active;
    orchestration_health = Health.unknown;
    aggregate_health = Health.unknown;
    display_state = [];
    enabled_state = [];
    main_pid = 7;
  };
  orchestration = graph;
  diagnostics = diagnostic ∷ [];
}

validated : validate_graph graph ≡ ok (text "svc")
unfolding validate_graph validate_node_ids find_service require_service read_edges read_edge
    add_primary collect uncounted walk check_paths contains get get_or put text_beq
validated = refl

-- A closed ring of primary edges has no root.
abbrev ring : Graph
ring = record { nodes = nodes; edges = edge (text "svc") (text "orch") ∷ edges }

ring_refused : validate_graph ring ≡ err (wrong_roots 0)
unfolding validate_graph validate_node_ids find_service require_service read_edges read_edge
    add_primary collect uncounted walk check_paths contains get get_or put text_beq
ring_refused = refl

result : Model
unfolding finalize validate_graph validate_node_ids find_service require_service read_edges
    read_edge add_primary collect uncounted walk check_paths contains get get_or put text_beq
    derive_node_health derive_node service_health capped_health aggregate_health totals more_severe
    health_rank sort_graph sort_by node_less edge_less place_of text_ltb runtime_text health_text
    relation_text
result = elim (finalize model) [ ok f ↦ f | err _ ↦ model ]

finalized_ok : finalize model ≡ ok result
unfolding result
finalized_ok = refl

degraded :
    (result.summary.aggregate_health ≡ Health.degraded)
    × (result.summary.display_state ≡ text "active (degraded)")
    × (exit_code result ≡ 3)
unfolding result exit_code
degraded = (refl, refl, refl)

validate_graph-IsTopology_example : IsTopology graph (text "svc")
validate_graph-IsTopology_example = validate_graph-IsTopology graph (text "svc") validated

validate_graph-total_example : validate_graph ring ≢ err out_of_fuel
validate_graph-total_example = validate_graph-total ring

exit_code-IsQuiet_example :
    (service_id : Text) × IsTopology graph service_id
    × ((exit_code result ≡ 0) ↔ IsQuiet service_id model)
exit_code-IsQuiet_example = exit_code-IsQuiet model result finalized_ok

finalize-Arranges_example :
    (service_id : Text) × IsTopology graph service_id
    × Arranges
        (record graph { nodes = derive_node_health RuntimeState.active service_id nodes })
        result.orchestration
finalize-Arranges_example = finalize-Arranges model result finalized_ok
