-- ===== src/StatusView/Arrange.antt =====
-- sortGraph of internal/statusview/model.go.
use servicectl.Base.{Bool, not, ◌&&◌, List, [], ◌∷◌, ◌==◌, if◌then◌else◌}
use servicectl.Base.Text.{Text, text_eq, text_ltb}
use servicectl.Base.Sort.{sort_by}
use servicectl.StatusView.Model.{Node, Edge, Graph, relation_text}

unfoldable pub node_less : Node → Node → Bool
node_less left right =
    if not (left.type_name == right.type_name)
    then text_ltb left.type_name right.type_name
    else if not (left.scope == right.scope)
    then text_ltb left.scope right.scope
    else text_ltb left.id right.id

-- The type and the scope of a node.
pub record Place : Type 0 where
  pub type_name : Text
  pub scope : Text

-- `nodeByID[id]`, of which the comparison reads these: the last node with the id, or the zero node.
unfoldable pub place_of : Place → List Node → Text → Place
place_of found [] id = found
place_of found (n ∷ ns) id =
    place_of (if n.id == id then record { type_name = n.type_name; scope = n.scope } else found) ns
      id

unfoldable pub edge_less : List Node → Edge → Edge → Bool
edge_less nodes left right =
    let zero_place : Place = record { type_name = []; scope = [] } in
    let left_target = place_of zero_place nodes left.to in
    let right_target = place_of zero_place nodes right.to in
    if not (left.from == right.from)
    then text_ltb left.from right.from
    else if not (relation_text left.relation == relation_text right.relation)
    then text_ltb (relation_text left.relation) (relation_text right.relation)
    else if not (left_target.type_name == right_target.type_name)
    then text_ltb left_target.type_name right_target.type_name
    else if not (left_target.scope == right_target.scope)
    then text_ltb left_target.scope right_target.scope
    else if not (left.to == right.to)
    then text_ltb left.to right.to
    else left.primary && not right.primary

unfoldable pub sort_graph : Graph → Graph
sort_graph g =
    let nodes = sort_by node_less g.nodes in
    record { nodes = nodes; edges = sort_by (edge_less nodes) g.edges }
