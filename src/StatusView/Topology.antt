-- ===== src/StatusView/Topology.antt =====
-- What validateGraph promises of a topology that passes.
use servicectl.Base.{
  ◌≡◌, ◌≢◌, ◌⊎◌, inl, inr, refl, sym, subst, true, false, not, ◌&&◌, List, [], ◌∷◌, ok, err,
  >>=-eq-ok, >>=-ne_err, ◌==◌, ==_iff, ==_refl, nat_eq, if◌then◌else◌, contains, Distinct, arith,
  Bool-cases,
}
use servicectl.Base.Text.{Text, text, text_eq, is_empty}
use servicectl.StatusView.Model.{Node, Edge, Graph, ids}
use servicectl.StatusView.Validate.{
  GraphError, out_of_fuel, Paths, no_paths, read_edge, add_primary, validate_ids, validate_node_ids,
  find_service, read_edges, require_service, validate_graph,
}
use servicectl.StatusView.Edges.{has_primary, AllHaveEnds, read_edges-Collects}
use servicectl.StatusView.Path.{PrimaryPath, check_paths-ok, check_paths-ne}

-- The ids of the nodes of type `service` that have one.
unfoldable pub named_services : List Node → List Text
named_services [] = []
named_services (node ∷ rest) =
    if node.type_name == text "service" && not (is_empty node.id)
    then node.id ∷ named_services rest
    else named_services rest

pub record IsTopology (g : Graph) (service_id : Text) : Type 0 where
  pub distinct : Distinct (ids g.nodes)
  pub service : named_services g.nodes ≡ service_id ∷ []
  pub ends : AllHaveEnds (ids g.nodes) g.edges
  pub path : ((f t : Text) → has_primary g.edges f t ≡ false) ⊎ PrimaryPath g.edges service_id

validate_ids-Distinct :
    (seen : List Text) (nodes : List Node) {u : Unit {0}}
    → validate_ids seen nodes ≡ ok u
    → Distinct (ids nodes) × ((a : Text) → contains (ids nodes) a ≡ true → contains seen a ≡ false)
unfolding validate_ids contains
validate_ids-Distinct seen [] h = (tt, λ a k. cc)
validate_ids-Distinct seen (node ∷ rest) {u} h = elim (Bool-cases (contains seen node.id)) [
  | inl old ↦ absurd (no_error (rw (old, validate_ids) at h))
  | inr new ↦
      let (d, away) = validate_ids-Distinct (node.id ∷ seen) rest (rw (new, validate_ids) at h) in
      ((apart away, d), λ a k. ground (arith, away a, ==_iff node.id a))
]
  where
    no_error : {x : GraphError} → err x ≢ ok u
    no_error k = cc

    apart :
        ((a : Text) → contains (ids rest) a ≡ true → contains (node.id ∷ seen) a ≡ false)
        → contains (ids rest) node.id ≡ false
    apart away = elim (Bool-cases (contains (ids rest) node.id)) [
      | inl k ↦ absurd (cc (away node.id k, ==_refl node.id))
      | inr k ↦ k
    ]

find_service-ok :
    (acc : Text) (nodes : List Node) {r : Text}
    → find_service acc nodes ≡ ok r
    → (is_empty acc ≡ false → (named_services nodes ≡ []) × (r ≡ acc))
      × (is_empty acc ≡ true → (is_empty r ≡ true) ⊎ (named_services nodes ≡ r ∷ []))
unfolding find_service named_services
find_service-ok acc [] h = (λ e. (refl, ground arith), λ e. inl (ground arith))
find_service-ok acc (node ∷ rest) {r} h =
    ground (arith, find_service-ok acc rest {r = r}, find_service-ok node.id rest {r = r})

require_service-ok :
    (found r : Text) → require_service found ≡ ok r → (is_empty r ≡ false) × (found ≡ r)
unfolding require_service
require_service-ok found r h = ground arith

-- A topology that validateGraph accepts has distinct node ids and one service node with an id, all
-- its edges join nodes, and its primary edges, if any, form one path that ends at the service.
pub validate_graph-IsTopology :
    (g : Graph) (service_id : Text) → validate_graph g ≡ ok service_id → IsTopology g service_id
unfolding validate_graph
validate_graph-IsTopology g service_id h =
    let (u, e₁, h₁) = >>=-eq-ok (validate_node_ids g.nodes) _ h in
    let (found, e₂, h₂) = >>=-eq-ok (find_service [] g.nodes) _ h₁ in
    let (id, e₃, h₃) = >>=-eq-ok (require_service found) _ h₂ in
    let (p, e₄, h₄) = >>=-eq-ok (read_edges (ids g.nodes) g.edges no_paths) _ h₃ in
    let (collects, ends) = read_edges-Collects (ids g.nodes) g.edges p e₄ in
    let (same, path) = check_paths-ok g.edges p collects id service_id h₄ in
    subst (IsTopology g) (sym same) (record {
      distinct = (validate_ids-Distinct [] g.nodes {u = u} (unfold validate_node_ids in e₁)).0;
      service = named found id e₂ e₃;
      ends = ends;
      path = path;
    })
  where
    named :
        (found id : Text)
        → find_service [] g.nodes ≡ ok found
        → require_service found ≡ ok id
        → named_services g.nodes ≡ id ∷ []
    named found id e k =
        let (full, same) = require_service-ok found id k in
        ground (arith, (find_service-ok [] g.nodes {r = found} e).1 refl)

validate_ids-ne : (seen : List Text) (nodes : List Node) → validate_ids seen nodes ≢ err out_of_fuel
unfolding validate_ids
validate_ids-ne seen [] = cc
validate_ids-ne seen (node ∷ rest) = ground (arith, validate_ids-ne (node.id ∷ seen) rest)

find_service-ne : (acc : Text) (nodes : List Node) → find_service acc nodes ≢ err out_of_fuel
unfolding find_service
find_service-ne acc [] = cc
find_service-ne acc (node ∷ rest) =
    ground (arith, find_service-ne acc rest, find_service-ne node.id rest)

read_edges-ne :
    (node_ids : List Text) (edges : List Edge) (p : Paths)
    → read_edges node_ids edges p ≢ err out_of_fuel
unfolding read_edges read_edge add_primary
read_edges-ne node_ids [] p = cc
read_edges-ne node_ids (edge ∷ rest) p =
    >>=-ne_err (read_edge node_ids edge p) _ (ground arith) (λ q e. read_edges-ne node_ids rest q)

-- The walk along the primary edges always comes to an end, cycles included: validateGraph accepts
-- a topology or names what is wrong with it.
pub validate_graph-total : (g : Graph) → validate_graph g ≢ err out_of_fuel
unfolding validate_graph validate_node_ids require_service
validate_graph-total g =
    >>=-ne_err (validate_node_ids g.nodes) _ (validate_ids-ne [] g.nodes) λ u e₁.
      >>=-ne_err (find_service [] g.nodes) _ (find_service-ne [] g.nodes) λ found e₂.
        >>=-ne_err (require_service found) _ (ground arith) λ id e₃.
          >>=-ne_err (read_edges (ids g.nodes) g.edges no_paths) _
            (read_edges-ne (ids g.nodes) g.edges no_paths)
            λ p e₄. check_paths-ne g.edges p (read_edges-Collects (ids g.nodes) g.edges p e₄).0 id
