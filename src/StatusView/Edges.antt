-- ===== src/StatusView/Edges.antt =====
-- What the loop over the edges in validateGraph has collected.
use servicectl.Base.{
  ◌+◌, ◌≡◌, ◌≢◌, ◌⊎◌, inl, inr, refl, sym, ◌∙◌, Bool, true, false, ◌&&◌, ◌||◌, List, [], ◌∷◌, ◌++◌,
  none, some, ok, err, ◌==◌, ==_iff, nat_eq, if◌then◌else◌, contains, contains-append, Distinct,
  get, get_or, subst, append-nil, All, get-put, get_or-put, arith, Bool-cases, is_some,
  append_assoc, Result-cases,
}
use servicectl.Base.Text.{Text, text_eq}
use servicectl.StatusView.Model.{Edge}
use servicectl.StatusView.Validate.{
  GraphError, Paths, no_paths, add_member, collect, add_primary, read_edge, read_edges,
}

-- Some edge of the list is a primary one from the first name to the second.
unfoldable pub has_primary : List Edge → Text → Text → Bool
has_primary [] f t = false
has_primary (e ∷ es) f t = (e.primary && (e.from == f && e.to == t)) || has_primary es f t

pub has_primary-append :
    (es ds : List Edge) (f t : Text)
    → has_primary (es ++ ds) f t ≡ (has_primary es f t || has_primary ds f t)
unfolding has_primary
has_primary-append [] ds f t = refl
has_primary-append (e ∷ es) ds f t = ground (arith, has_primary-append es ds f t)

-- The maps hold the primary edges of the list.
pub record Collects (es : List Edge) (p : Paths) : Type 0 where
  pub next_iff : (f t : Text) → has_primary es f t ≡ true → get p.next f ≡ some t
  pub next_sound : (f t : Text) → get p.next f ≡ some t → has_primary es f t ≡ true
  pub out_count : (f : Text) → get_or p.outgoing f 0 ≡ (if is_some (get p.next f) then 1 else 0)
  pub in_count : (f t : Text) → has_primary es f t ≡ true → get_or p.incoming t 0 ≡ 1
  pub in_unique : (f h t : Text) → has_primary es f t ≡ true → has_primary es h t ≡ true → f ≡ h
  pub from_member : (f t : Text) → has_primary es f t ≡ true → contains p.primary_nodes f ≡ true
  pub to_member : (f t : Text) → has_primary es f t ≡ true → contains p.primary_nodes t ≡ true
  pub members : Distinct p.primary_nodes
  pub counted : p.primary_edges ≡ 0 → (f t : Text) → has_primary es f t ≡ false

no_paths-Collects : Collects [] no_paths
unfolding has_primary get get_or contains
no_paths-Collects = record {
  next_iff = λ f t h. cc;
  next_sound = λ f t h. cc;
  out_count = λ f. refl;
  in_count = λ f t h. cc;
  in_unique = λ f h t e k. cc;
  from_member = λ f t h. cc;
  to_member = λ f t h. cc;
  members = tt;
  counted = λ h f t. refl;
}

contains-add_member :
    (set : List Text) (a b : Text) → contains (add_member set a) b ≡ (contains set b || a == b)
unfolding contains
contains-add_member set a b = ground (arith, contains-append set (a ∷ []) b, ==_iff a b)

Distinct-snoc :
    (xs : List Text) (x : Text) → Distinct xs → contains xs x ≡ false → Distinct (xs ++ x ∷ [])
unfolding contains
Distinct-snoc [] x d h = (refl, tt)
Distinct-snoc (y ∷ ys) x d h = (
  ground (arith, contains-append ys (x ∷ []) y, ==_iff x y, ==_iff y x),
  Distinct-snoc ys x d.1 (ground arith),
)

Distinct-add_member : (set : List Text) (a : Text) → Distinct set → Distinct (add_member set a)
Distinct-add_member set a d = elim (Bool-cases (contains set a)) [
  | inl old ↦ rw old d
  | inr new ↦ rw new (Distinct-snoc set a d new)
]

-- The first primary edge from `edge.from`, and the first to `edge.to`.
module _ (es : List Edge) (p : Paths) (c : Collects es p) (edge : Edge)
    (primary : edge.primary ≡ true) (no_out : get_or p.outgoing edge.from 0 ≡ 0)
    (no_in : get_or p.incoming edge.to 0 ≡ 0) where
  added :
      (f t : Text)
      → has_primary (es ++ edge ∷ []) f t ≡ (has_primary es f t || (edge.from == f && edge.to == t))
  unfolding has_primary
  added f t = ground (arith, has_primary-append es (edge ∷ []) f t)

  fresh : get p.next edge.from ≡ none
  fresh = ground (arith, c.out_count edge.from)

  other_from : (f t : Text) → has_primary es f t ≡ true → (edge.from == f) ≡ false
  other_from f t e = ground (arith, c.next_iff f t, ==_iff edge.from f, fresh)

  other_to : (f t : Text) → has_primary es f t ≡ true → (edge.to == t) ≡ false
  other_to f t e = ground (arith, c.in_count f t, ==_iff edge.to t)

  collect_members :
      (n : Text)
      → contains (collect edge p).primary_nodes n
        ≡ (contains p.primary_nodes n || edge.from == n || edge.to == n)
  unfolding collect
  collect_members n = ground (
    arith,
    contains-add_member (add_member p.primary_nodes edge.from) edge.to n,
    contains-add_member p.primary_nodes edge.from n,
  )

  collect-Collects : Collects (es ++ edge ∷ []) (collect edge p)
  unfolding collect
  collect-Collects = record {
    next_iff = λ f t e. ground (
      arith,
      get-put p.next edge.from f edge.to,
      added f t,
      c.next_iff f t,
      other_from f t,
      ==_iff edge.from f,
      ==_iff edge.to t,
    );
    next_sound = λ f t e. ground (
      arith,
      get-put p.next edge.from f edge.to,
      added f t,
      c.next_sound f t,
      ==_iff edge.from f,
      ==_iff edge.to t,
    );
    out_count = λ f. ground (
      arith,
      get-put p.next edge.from f edge.to,
      c.out_count f,
      ==_iff edge.from f,
      get_or-put p.outgoing edge.from f (get_or p.outgoing edge.from 0 + 1) 0,
    );
    in_count = λ f t e. ground (
      arith,
      added f t,
      c.in_count f t,
      other_to f t,
      ==_iff edge.to t,
      get_or-put p.incoming edge.to t (get_or p.incoming edge.to 0 + 1) 0,
    );
    in_unique = λ f k t e g. ground (
      arith,
      added f t,
      added k t,
      c.in_unique f k t,
      other_to f t,
      other_to k t,
      ==_iff edge.from f,
      ==_iff edge.from k,
    );
    from_member = λ f t e. ground (arith, added f t, collect_members f, c.from_member f t);
    to_member = λ f t e. ground (arith, added f t, collect_members t, c.to_member f t);
    members =
        Distinct-add_member (add_member p.primary_nodes edge.from) edge.to
          (Distinct-add_member p.primary_nodes edge.from c.members);
    counted = λ e f t. absurd (omega arith);
  }

-- An edge that is not primary changes nothing.
skip-Collects :
    (es : List Edge) (p : Paths) (edge : Edge)
    → edge.primary ≡ false
    → Collects es p
    → Collects (es ++ edge ∷ []) p
skip-Collects es p edge off c = record {
  next_iff = λ f t e. c.next_iff f t (sym (same f t) ∙ e);
  next_sound = λ f t e. same f t ∙ c.next_sound f t e;
  out_count = c.out_count;
  in_count = λ f t e. c.in_count f t (sym (same f t) ∙ e);
  in_unique = λ f k t e g. c.in_unique f k t (sym (same f t) ∙ e) (sym (same k t) ∙ g);
  from_member = λ f t e. c.from_member f t (sym (same f t) ∙ e);
  to_member = λ f t e. c.to_member f t (sym (same f t) ∙ e);
  members = c.members;
  counted = λ e f t. same f t ∙ c.counted e f t;
}
  where
    same : (f t : Text) → has_primary (es ++ edge ∷ []) f t ≡ has_primary es f t
    same f t = unfold has_primary in ground (arith, has_primary-append es (edge ∷ []) f t)

-- Both ends of an edge are among the names.
abbrev pub HasEnds : List Text → Edge → Type 0
HasEnds node_ids edge = (contains node_ids edge.from ≡ true) × (contains node_ids edge.to ≡ true)

add_primary-ok :
    (edge : Edge) (p q : Paths)
    → add_primary edge p ≡ ok q
    → (get_or p.outgoing edge.from 0 ≡ 0) × (get_or p.incoming edge.to 0 ≡ 0) × (collect edge p ≡ q)
unfolding add_primary collect
add_primary-ok edge p q h = ground (
  arith,
  get_or-put p.outgoing edge.from edge.from (get_or p.outgoing edge.from 0 + 1) 0,
  get_or-put p.incoming edge.to edge.to (get_or p.incoming edge.to 0 + 1) 0,
  ==_iff edge.from edge.from,
  ==_iff edge.to edge.to,
)

read_edge-ok :
    (node_ids : List Text) (edge : Edge) (p q : Paths)
    → read_edge node_ids edge p ≡ ok q
    → HasEnds node_ids edge
      × (((edge.primary ≡ true) × (add_primary edge p ≡ ok q)) ⊎ ((edge.primary ≡ false) × (p ≡ q)))
unfolding read_edge
read_edge-ok node_ids edge p q h = ground arith

read_edge-Collects :
    (node_ids : List Text) (es : List Edge) (edge : Edge) (p q : Paths)
    → Collects es p
    → read_edge node_ids edge p ≡ ok q
    → Collects (es ++ edge ∷ []) q
read_edge-Collects node_ids es edge p q c h = elim ((read_edge-ok node_ids edge p q h).1) [
  | inl (on, a) ↦
      let (out, into, e) = add_primary-ok edge p q a in
      subst (Collects (es ++ edge ∷ [])) e (collect-Collects es p c edge on out into)
  | inr (off, e) ↦ subst (Collects (es ++ edge ∷ [])) e (skip-Collects es p edge off c)
]

abbrev pub AllHaveEnds : List Text → List Edge → Type 0
AllHaveEnds node_ids = All (HasEnds node_ids)

read_edges_from :
    (node_ids : List Text) (es ds : List Edge) (p q : Paths)
    → Collects es p
    → read_edges node_ids ds p ≡ ok q
    → Collects (es ++ ds) q × AllHaveEnds node_ids ds
unfolding read_edges
read_edges_from node_ids es [] p q c h =
    (subst (Collects (es ++ [])) (cc) (subst (λ l. Collects l p) (sym (append-nil es)) c), tt)
read_edges_from node_ids es (edge ∷ ds) p q c h = elim (Result-cases (read_edge node_ids edge p)) [
  | inl (r, e) ↦
      let (all, ends) =
        read_edges_from node_ids (es ++ edge ∷ []) ds r q
          (read_edge-Collects node_ids es edge p r c e) (rw (e, read_edges) at h) in
      (
        subst (λ l. Collects l q) (append_assoc es (edge ∷ []) ds) all,
        ((read_edge-ok node_ids edge p r e).0, ends),
      )
  | inr (x, e) ↦ absurd (no_error x (rw (e, read_edges) at h))
]
  where
    no_error : (x : GraphError) → err x ≢ ok q
    no_error x k = cc

-- After the loop the maps hold the primary edges, and every edge has both ends.
pub read_edges-Collects :
    (node_ids : List Text) (es : List Edge) (p : Paths)
    → read_edges node_ids es no_paths ≡ ok p
    → Collects es p × AllHaveEnds node_ids es
read_edges-Collects node_ids es p h = read_edges_from node_ids [] es no_paths p no_paths-Collects h
