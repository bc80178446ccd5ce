-- ===== src/StatusView/Path.antt =====
-- What a topology that passes validateGraph looks like: its primary edges form one path that ends
-- at the service.
use servicectl.Base.{
  ℕ, ◌+◌, ◌≡◌, ◌≢◌, ◌⊎◌, inl, inr, refl, sym, subst, true, false, not, List, [], ◌∷◌, Option-cases,
  Result, ok, err, ◌>>=◌, >>=-ne_err, ◌==◌, ==_iff, nat_eq, if◌then◌else◌, contains, Distinct, Map,
  get, get_or, arith, Bool-cases, is_some, length,
}
use mathlib.Core.Bool.{false≢true}
use servicectl.Base.Text.{Text, text_eq, is_empty}
use servicectl.Base.Pigeonhole.{IsSubset, subset_of_length}
use servicectl.StatusView.Model.{Edge}
use servicectl.StatusView.Validate.{
  GraphError, disconnected, out_of_fuel, Paths, uncounted, walk, is_only, check_walk, check_ends,
  check_paths,
}
use servicectl.StatusView.Edges.{has_primary, Collects}
use servicectl.StatusView.Walk.{IsLinked, Precedes, Walked, walk-Walked, walk-ends}

-- `f` stands behind `t`, next to it.
abbrev pub Follows : List Text → Text → Text → Type 0
Follows [] f t = ⊥
Follows (b ∷ []) f t = ⊥
Follows (b ∷ a ∷ rest) f t = ((a ≡ f) × (b ≡ t)) ⊎ Follows (a ∷ rest) f t

-- Each name is reached by a primary edge from the one behind it.
abbrev pub IsPath : List Edge → List Text → Type 0
IsPath es [] = Unit
IsPath es (b ∷ []) = Unit
IsPath es (b ∷ a ∷ rest) = (has_primary es a b ≡ true) × IsPath es (a ∷ rest)

-- The primary edges are one path, listed from the service back to its root.
pub record PrimaryPath (es : List Edge) (service_id : Text) : Type 0 where
  pub rest : List Text
  pub distinct : Distinct (service_id ∷ rest)
  pub linked : IsPath es (service_id ∷ rest)
  pub covers : (f t : Text) → has_primary es f t ≡ true → Follows (service_id ∷ rest) f t

abbrev IsHead : List Text → Text → Type 0
IsHead [] f = ⊥
IsHead (b ∷ _) f = b ≡ f

-- A name of the list stands at its head, or next behind where `next` leads from it.
found_behind :
    (next : Map Text Text) (v : List Text) (current f t : Text)
    → IsLinked next v
    → Precedes next v current
    → contains v f ≡ true
    → get_or next f [] ≡ t
    → (IsHead v f × (t ≡ current)) ⊎ Follows v f t
unfolding contains
found_behind next [] current f t l p c e = cc
found_behind next (b ∷ []) current f t l p c e =
    inl (ground (arith, ==_iff b f), ground (arith, ==_iff b f))
found_behind next (b ∷ a ∷ rest) current f t l p c e = elim (Bool-cases (b == f)) [
  | inl here ↦ inl ((==_iff b f).0 here, ground (arith, ==_iff b f))
  | inr later ↦ elim (found_behind next (a ∷ rest) b f t l.1 l.0 (ground arith) e) [
    | inl (h, q) ↦ inr (inl (h, sym q))
    | inr w ↦ inr (inr w)
  ]
]

contains-uncounted :
    (m : Map Text ℕ) (names : List Text) (a : Text)
    → contains names a ≡ true
    → get_or m a 0 ≡ 0
    → contains (uncounted m names) a ≡ true
unfolding uncounted contains
contains-uncounted m [] a h e = h
contains-uncounted m (x ∷ names) a h e = ground (arith, ==_iff x a, contains-uncounted m names a)

uncounted-subset :
    (m : Map Text ℕ) (names : List Text) (a : Text)
    → contains (uncounted m names) a ≡ true
    → contains names a ≡ true
unfolding uncounted contains
uncounted-subset m [] a h = h
uncounted-subset m (x ∷ names) a h = ground (arith, uncounted-subset m names a)

is_only-eq :
    (l : List Text) (service_id a : Text)
    → is_only l service_id ≡ true
    → contains l a ≡ true
    → a ≡ service_id
unfolding contains
is_only-eq [] service_id a o h = cc
is_only-eq (x ∷ []) service_id a o h = ground (arith, ==_iff x a, ==_iff x service_id)
is_only-eq (x ∷ y ∷ l) service_id a o h = cc

module _ (es : List Edge) (p : Paths) (c : Collects es p) where
  next_of : (a b : Text) → get_or p.next a [] ≡ b → b ≢ [] → has_primary es a b ≡ true
  unfolding get_or
  next_of a b e n = ground (arith, c.next_sound a b)

  next_is : (f t : Text) → has_primary es f t ≡ true → get_or p.next f [] ≡ t
  unfolding get_or
  next_is f t h = ground (arith, c.next_iff f t)

  next_member :
      (a : Text)
      → is_empty (get_or p.next a []) ≡ false
      → contains p.primary_nodes (get_or p.next a []) ≡ true
  next_member a n = c.to_member a (get_or p.next a []) (next_of a _ refl (λ e. ground arith))

  linked-IsPath : (v : List Text) → contains v [] ≡ false → IsLinked p.next v → IsPath es v
  unfolding contains
  linked-IsPath [] n l = tt
  linked-IsPath (b ∷ []) n l = tt
  linked-IsPath (b ∷ a ∷ rest) n l = (
    next_of a b l.0 (λ e. ground (arith, ==_iff b [])),
    linked-IsPath (a ∷ rest) (ground arith) l.1,
  )

  -- The only name without a way out is the service, so the walk stops there.
  last_is :
      (service_id a : Text)
      → contains p.primary_nodes a ≡ true
      → contains p.primary_nodes [] ≡ false
      → get_or p.next a [] ≡ []
      → is_only (uncounted p.outgoing p.primary_nodes) service_id ≡ true
      → a ≡ service_id
  last_is service_id a m n e o =
      is_only-eq (uncounted p.outgoing p.primary_nodes) service_id a o
        (contains-uncounted p.outgoing p.primary_nodes a m (ground (arith, c.out_count a, no_way)))
    where
      no_way : is_some (get p.next a) ≡ false
      no_way = elim (Option-cases (get p.next a)) [
        | inl q ↦ rw q
        | inr (x, q) ↦
            absurd
              (cc (c.to_member a x (c.next_sound a x q), n, next_is a x (c.next_sound a x q), e))
      ]

  check_ends-ok :
      (service_id : Text) (roots : List Text) (r : Text)
      → check_ends service_id p roots ≡ ok r
      → (root : Text) × (roots ≡ root ∷ [])
        × (is_only (uncounted p.outgoing p.primary_nodes) service_id ≡ true)
        × (check_walk service_id p root ≡ ok r)
  unfolding check_ends
  check_ends-ok service_id [] r h = cc
  check_ends-ok service_id (root ∷ []) r h = (root, refl, ground arith, ground arith)
  check_ends-ok service_id (x ∷ y ∷ roots) r h = cc

  check_walk-ok :
      (service_id root r : Text)
      → check_walk service_id p root ≡ ok r
      → (v : List Text) × (walk (length p.primary_nodes + 2) p.next [] root ≡ ok v)
        × (length v ≡ length p.primary_nodes)
        × (r ≡ service_id)
  check_walk-ok service_id root r h =
      go (walk (length p.primary_nodes + 2) p.next [] root) refl (unfold check_walk in h)
    where
      go :
          (w : Result GraphError (List Text))
          → walk (length p.primary_nodes + 2) p.next [] root ≡ w
          → (w >>= λ visited.
              if not (length visited == length p.primary_nodes)
              then err (disconnected (length visited) (length p.primary_nodes))
              else ok service_id)
            ≡ ok r
          → (v : List Text) × (walk (length p.primary_nodes + 2) p.next [] root ≡ ok v)
            × (length v ≡ length p.primary_nodes)
            × (r ≡ service_id)
      go (ok v) e k = (v, e, ground arith, ground arith)
      go (err x) e k = cc

  Walked-PrimaryPath :
      (service_id root : Text) (v : List Text)
      → contains p.primary_nodes root ≡ true
      → is_only (uncounted p.outgoing p.primary_nodes) service_id ≡ true
      → length v ≡ length p.primary_nodes
      → Walked p.next p.primary_nodes v
      → PrimaryPath es service_id
  unfolding contains
  Walked-PrimaryPath service_id root [] m o len w =
      absurd (false≢true (subset_of_length [] p.primary_nodes tt w.within len root m))
  Walked-PrimaryPath service_id root (a ∷ rest) m o len w =
      subst (PrimaryPath es) at_service (record {
        rest = rest;
        distinct = w.distinct;
        linked = linked-IsPath (a ∷ rest) w.named w.linked;
        covers = λ f t h.
            elim (found_behind p.next (a ∷ rest) [] f t w.linked w.stops
              (all f (c.from_member f t h)) (next_is f t h)) [
                | inl (_, q) ↦ absurd (cc (all t (c.to_member f t h), q, w.named))
                | inr k ↦ k
              ];
      })
    where
      all : IsSubset p.primary_nodes (a ∷ rest)
      all = subset_of_length (a ∷ rest) p.primary_nodes w.distinct w.within len

      no_empty : contains p.primary_nodes [] ≡ false
      no_empty = elim (Bool-cases (contains p.primary_nodes [])) [
        | inl h ↦ absurd (cc (all [] h, w.named))
        | inr h ↦ h
      ]

      at_service : a ≡ service_id
      at_service = last_is service_id a (w.within a (ground (arith, ==_iff a a))) no_empty w.stops o

  -- A topology that passes has no primary edge, or its primary edges are one path to the service.
  pub check_paths-ok :
      (service_id r : Text)
      → check_paths service_id p ≡ ok r
      → (r ≡ service_id) × (((f t : Text) → has_primary es f t ≡ false) ⊎ PrimaryPath es service_id)
  unfolding check_paths
  check_paths-ok service_id r h = elim (Bool-cases (p.primary_edges == 0)) [
    | inl none_left ↦ (ground arith, inl (c.counted ((==_iff p.primary_edges 0).0 none_left)))
    | inr some_left ↦
        let (root, e, o, k) =
          check_ends-ok service_id (uncounted p.incoming p.primary_nodes) r (ground arith) in
        let (v, k', len, same) = check_walk-ok service_id root r k in
        let m =
          uncounted-subset p.incoming p.primary_nodes root
            (subst (λ l. contains l root ≡ true) (sym e) (self root)) in
        (
          same,
          inr (
              Walked-PrimaryPath service_id root v m o len (
                walk-Walked p.next p.primary_nodes next_member (length p.primary_nodes + 2) [] root
                  v tt tt tt (λ a q. absurd (nothing a q)) (nothing' []) (λ _. m) k')),
        )
  ]
    where
      self : (a : Text) → contains (a ∷ []) a ≡ true
      self a = unfold contains in ground (arith, ==_iff a a)

      nothing : (a : Text) → contains {A = Text} [] a ≢ true
      nothing a = unfold contains in false≢true

      nothing' : (a : Text) → contains {A = Text} [] a ≡ false
      nothing' a = unfold contains in refl

  check_walk-ne :
      (service_id root : Text)
      → contains p.primary_nodes root ≡ true
      → check_walk service_id p root ≢ err out_of_fuel
  unfolding check_walk contains
  check_walk-ne service_id root m =
      >>=-ne_err (walk (length p.primary_nodes + 2) p.next [] root) _
        (walk-ends p.next p.primary_nodes next_member (length p.primary_nodes + 2) [] root tt
          (λ a q. cc) (λ _. m) (omega arith))
        (λ v e. ground arith)

  check_ends-ne :
      (service_id : Text) (roots : List Text)
      → IsSubset roots p.primary_nodes
      → check_ends service_id p roots ≢ err out_of_fuel
  unfolding check_ends contains
  check_ends-ne service_id [] s = cc
  check_ends-ne service_id (root ∷ []) s =
      ground (arith, check_walk-ne service_id root (s root (ground (arith, ==_iff root root))))
  check_ends-ne service_id (x ∷ y ∷ roots) s = cc

  pub check_paths-ne : (service_id : Text) → check_paths service_id p ≢ err out_of_fuel
  unfolding check_paths
  check_paths-ne service_id = ground (
    arith,
    check_ends-ne service_id (uncounted p.incoming p.primary_nodes)
        (uncounted-subset p.incoming p.primary_nodes),
  )
