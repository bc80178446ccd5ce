-- ===== src/StatusView/Sorted.antt =====
-- The order that Finalize gives the nodes and the edges.
use mathlib.Core.List.{Perm}
use servicectl.Base.{
  ◌≡◌, refl, sym, ◌∙◌, subst, Bool, true, false, not, ◌&&◌, List, [], ◌∷◌, arith, ==_iff, ok,
}
use servicectl.Base.Text.{Text, text_eq, text_ltb, text_beq, text_ltb_irrefl}
use servicectl.Base.Keys.{keys_ltb, keys_ltb_asym, keys_not_lt_trans}
use servicectl.Base.Sort.{IsSorted, sort_by, sort_by-perm, sort_by-IsSorted}
use servicectl.StatusView.Model.{Node, Edge, Graph, Model, relation_text}
use servicectl.StatusView.Arrange.{node_less, place_of, edge_less, sort_graph}
use servicectl.StatusView.Health.{derive_node_health, aggregate_health}
use servicectl.StatusView.Topology.{IsTopology, validate_graph-IsTopology}
use servicectl.StatusView.Finalize.{finalize, finalized, finalize-ok}

-- What a node is sorted by.
pub node_key : Node → List Text
node_key n = n.type_name ∷ n.scope ∷ n.id ∷ []

node_less-key : (a b : Node) → node_less a b ≡ keys_ltb (node_key a) (node_key b)
unfolding node_less keys_ltb node_key
node_less-key a b = ground (arith, ==_iff a.id b.id, text_ltb_irrefl b.id)

primary_key : Bool → Text
primary_key true = []
primary_key false = 0 ∷ []

-- What an edge is sorted by, given the sorted nodes.
pub edge_key : List Node → Edge → List Text
edge_key nodes e =
    let target = place_of (record { type_name = []; scope = [] }) nodes e.to in
    e.from
    ∷ relation_text e.relation
    ∷ target.type_name
    ∷ target.scope
    ∷ e.to
    ∷ primary_key e.primary
    ∷ []

primary_key-ltb : (a b : Bool) → (a && not b) ≡ keys_ltb (primary_key a ∷ []) (primary_key b ∷ [])
unfolding keys_ltb primary_key text_ltb text_beq
primary_key-ltb true true = refl
primary_key-ltb true false = refl
primary_key-ltb false true = refl
primary_key-ltb false false = refl

edge_less-key :
    (nodes : List Node) (a b : Edge)
    → edge_less nodes a b ≡ keys_ltb (edge_key nodes a) (edge_key nodes b)
unfolding edge_less keys_ltb edge_key
edge_less-key nodes a b = rw (primary_key-ltb a.primary b.primary)

node_less-asym : (a b : Node) → node_less a b ≡ true → node_less b a ≡ false
node_less-asym a b h =
    node_less-key b a ∙ keys_ltb_asym (node_key a) (node_key b) (sym (node_less-key a b) ∙ h)

node_less_trans :
    (a b c : Node) → node_less b a ≡ false → node_less c b ≡ false → node_less c a ≡ false
node_less_trans a b c h k =
    node_less-key c a
    ∙ keys_not_lt_trans (node_key a) (node_key b) (node_key c) (sym (node_less-key b a) ∙ h)
        (sym (node_less-key c b) ∙ k)

module _ (nodes : List Node) where
  edge_less-asym : (a b : Edge) → edge_less nodes a b ≡ true → edge_less nodes b a ≡ false
  edge_less-asym a b h =
      edge_less-key nodes b a
      ∙ keys_ltb_asym (edge_key nodes a) (edge_key nodes b) (sym (edge_less-key nodes a b) ∙ h)

  edge_less_trans :
      (a b c : Edge)
      → edge_less nodes b a ≡ false
      → edge_less nodes c b ≡ false
      → edge_less nodes c a ≡ false
  edge_less_trans a b c h k =
      edge_less-key nodes c a
      ∙ keys_not_lt_trans (edge_key nodes a) (edge_key nodes b) (edge_key nodes c)
          (sym (edge_less-key nodes b a) ∙ h) (sym (edge_less-key nodes c b) ∙ k)

-- The graph `h` holds the nodes and edges of `g` in order.
pub record Arranges (g h : Graph) : Type 0 where
  pub nodes_sorted : IsSorted node_less h.nodes
  pub edges_sorted : IsSorted (edge_less h.nodes) h.edges
  pub nodes_perm : Perm h.nodes g.nodes
  pub edges_perm : Perm h.edges g.edges

sort_graph-Arranges : (g : Graph) → Arranges g (sort_graph g)
unfolding sort_graph
sort_graph-Arranges g = record {
  nodes_sorted = sort_by-IsSorted node_less node_less-asym node_less_trans g.nodes;
  edges_sorted =
      sort_by-IsSorted (edge_less (sort_by node_less g.nodes))
        (edge_less-asym (sort_by node_less g.nodes)) (edge_less_trans (sort_by node_less g.nodes))
        g.edges;
  nodes_perm = sort_by-perm node_less g.nodes;
  edges_perm = sort_by-perm (edge_less (sort_by node_less g.nodes)) g.edges;
}

-- Finalize returns the nodes, with their derived health, and the edges of the model, none lost or
-- added, each sorted: no node and no edge stands behind one that it is less than.
pub finalize-Arranges :
    (model f : Model)
    → finalize model ≡ ok f
    → (service_id : Text) × IsTopology model.orchestration service_id
      × Arranges
          (record (model.orchestration) {
            nodes =
                derive_node_health model.summary.runtime_state service_id model.orchestration.nodes;
          })
          f.orchestration
unfolding finalized aggregate_health
finalize-Arranges model f h =
    let (service_id, e, k) = finalize-ok model f h in
    (
      service_id,
      validate_graph-IsTopology model.orchestration service_id e,
      subst
          (λ (g : Model).
            Arranges
              (record (model.orchestration) {
                nodes =
                    derive_node_health model.summary.runtime_state service_id
                      model.orchestration.nodes;
              })
              g.orchestration)
          k (sort_graph-Arranges _),
    )
