-- ===== src/StatusView/Validate.antt =====
-- ValidateNodeIDs and validateGraph of internal/statusview/model.go. Go's maps of counters read 0
-- where a key is missing, and `next` reads the empty text.
use servicectl.Base.{
  ℕ, zero, suc, ◌+◌, Bool, false, not, List, [], ◌∷◌, ◌++◌, Result, ok, err, ◌>>=◌, ◌==◌, nat_eq,
  ltb, if◌then◌else◌, contains, Map, get_or, put, length,
}
use servicectl.Base.Text.{Text, text, text_eq, is_empty}
use servicectl.StatusView.Model.{Node, Edge, Graph, ids}

pub data GraphError : Type 0 where
  duplicate_node : Text → GraphError
  multiple_services : Text → Text → GraphError
  no_service : GraphError
  missing_from missing_to : Text → GraphError
  multiple_outgoing multiple_incoming : Text → GraphError
  wrong_roots : ℕ → GraphError
  service_not_terminal : Text → GraphError
  terminal_not_service : Text → GraphError
  primary_cycle : Text → GraphError
  disconnected : ℕ → ℕ → GraphError
  out_of_fuel : GraphError

-- The loop of ValidateNodeIDs with its set.
unfoldable pub validate_ids : List Text → List Node → Result GraphError (Unit {0})
validate_ids seen [] = ok tt
validate_ids seen (node ∷ rest) =
    let later = validate_ids (node.id ∷ seen) rest in
    if contains seen node.id then err (duplicate_node node.id) else later

unfoldable pub validate_node_ids : List Node → Result GraphError (Unit {0})
unfolding validate_ids
validate_node_ids = validate_ids []

-- The loop over the nodes that looks for the service.
unfoldable pub find_service : Text → List Node → Result GraphError Text
find_service service_id [] = ok service_id
find_service service_id (node ∷ rest) =
    let same = find_service service_id rest in
    let found = find_service node.id rest in
    if node.type_name == text "service"
    then (if not (is_empty service_id) then err (multiple_services service_id node.id) else found)
    else same

-- The maps of the loop over the edges.
pub record Paths : Type 0 where
  pub incoming : Map Text ℕ
  pub outgoing : Map Text ℕ
  pub next : Map Text Text
  pub primary_nodes : List Text
  pub primary_edges : ℕ

abbrev pub no_paths : Paths
no_paths = record { incoming = []; outgoing = []; next = []; primary_nodes = []; primary_edges = 0 }

abbrev pub add_member : List Text → Text → List Text
add_member set id = if contains set id then set else set ++ id ∷ []

-- `m[key]++`.
abbrev pub increment : Map Text ℕ → Text → Map Text ℕ
increment m key = put m key (get_or m key 0 + 1)

-- What a primary edge adds to the maps.
unfoldable pub collect : Edge → Paths → Paths
collect edge p = record {
  incoming = increment p.incoming edge.to;
  outgoing = increment p.outgoing edge.from;
  next = put p.next edge.from edge.to;
  primary_nodes = add_member (add_member p.primary_nodes edge.from) edge.to;
  primary_edges = p.primary_edges + 1;
}

unfoldable pub add_primary : Edge → Paths → Result GraphError Paths
add_primary edge p =
    let q = collect edge p in
    if ltb 1 (get_or q.outgoing edge.from 0)
    then err (multiple_outgoing edge.from)
    else if ltb 1 (get_or q.incoming edge.to 0)
    then err (multiple_incoming edge.to)
    else ok q

-- One round of the loop over the edges; `node_ids` are the keys of `nodes`.
unfoldable pub read_edge : List Text → Edge → Paths → Result GraphError Paths
read_edge node_ids edge p =
    if not (contains node_ids edge.from)
    then err (missing_from edge.from)
    else if not (contains node_ids edge.to)
    then err (missing_to edge.to)
    else if not edge.primary
    then ok p
    else add_primary edge p

unfoldable pub read_edges : List Text → List Edge → Paths → Result GraphError Paths
read_edges node_ids [] p = ok p
read_edges node_ids (edge ∷ rest) p = read_edge node_ids edge p >>= read_edges node_ids rest

-- The names of the set that have no entry in the map of counters.
unfoldable pub uncounted : Map Text ℕ → List Text → List Text
uncounted m [] = []
uncounted m (id ∷ rest) = if get_or m id 0 == 0 then id ∷ uncounted m rest else uncounted m rest

-- The walk along `next` from `current`, with the visited names, the last one first.
unfoldable pub walk : ℕ → Map Text Text → List Text → Text → Result GraphError (List Text)
walk zero next visited current = err out_of_fuel
walk (suc fuel) next visited current =
    let rest = walk fuel next (current ∷ visited) (get_or next current []) in
    if is_empty current
    then ok visited
    else if contains visited current
    then err (primary_cycle current)
    else rest

abbrev pub is_only : List Text → Text → Bool
is_only (t ∷ []) id = t == id
is_only _ id = false

-- What follows the loop over the edges, with the set's roots.
unfoldable pub check_walk : Text → Paths → Text → Result GraphError Text
check_walk service_id p root = walk (length p.primary_nodes + 2) p.next [] root >>= λ visited.
    if not (length visited == length p.primary_nodes)
    then err (disconnected (length visited) (length p.primary_nodes))
    else ok service_id

unfoldable pub check_ends : Text → Paths → List Text → Result GraphError Text
unfolding check_walk
check_ends service_id p (root ∷ []) =
    if not (get_or p.outgoing service_id 0 == 0)
    then err (service_not_terminal service_id)
    else if not (is_only (uncounted p.outgoing p.primary_nodes) service_id)
    then err (terminal_not_service service_id)
    else check_walk service_id p root
check_ends service_id p roots = err (wrong_roots (length roots))

unfoldable pub check_paths : Text → Paths → Result GraphError Text
unfolding check_ends
check_paths service_id p =
    if p.primary_edges == 0
    then ok service_id
    else check_ends service_id p (uncounted p.incoming p.primary_nodes)

unfoldable pub require_service : Text → Result GraphError Text
require_service service_id = if is_empty service_id then err no_service else ok service_id

unfoldable pub validate_graph : Graph → Result GraphError Text
validate_graph g = do
  _ ← validate_node_ids g.nodes
  found ← find_service [] g.nodes
  service_id ← require_service found
  p ← read_edges (ids g.nodes) g.edges no_paths
  check_paths service_id p
