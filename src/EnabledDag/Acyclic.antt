-- ===== src/EnabledDag/Acyclic.antt =====
-- A start order exists only without cycles, and TopologicalServices finds every cycle.
use servicectl.Base.{
  ◌≡◌, refl, sym, subst, ◌⊎◌, inl, inr, true, false, List, [], ◌∷◌, ◌++◌, arith, ◌==◌, ==_iff,
  contains, contains-append, Bool-cases, Result, ok, err, append_assoc,
}
use servicectl.Base.Text.{Text, text_eq}
use servicectl.EnabledDag.Graph.{ServiceDag, Depends, Leads, one, more}
use servicectl.EnabledDag.Visit.{OrderError, cycle_detected, out_of_fuel, topological_services}
use servicectl.EnabledDag.Order.{DepsFirst}
use servicectl.EnabledDag.Topological.{
  HasCleanNames, topological_services-IsStartOrder, topological_services-total,
}

-- A list of names that holds all that they depend on.
abbrev IsClosed : ServiceDag → List Text → Type 0
IsClosed g ns = (a b : Text) → contains ns a ≡ true → Depends g a b → contains ns b ≡ true

Leads-closed :
    {g : ServiceDag} {a b : Text} (ns : List Text)
    → ((d : Text) → Depends g a d → contains ns d ≡ true)
    → IsClosed g ns
    → Leads g a b
    → contains ns b ≡ true
Leads-closed ns h k (one q) = h _ q
Leads-closed ns h k (more l q) = k _ _ (Leads-closed ns h k l) q

IsClosed-snoc :
    (g : ServiceDag) (ns : List Text) (x : Text)
    → IsClosed g ns
    → ((d : Text) → Depends g x d → contains ns d ≡ true)
    → IsClosed g (ns ++ x ∷ [])
unfolding contains
IsClosed-snoc g ns x k h a b m q = elim (Bool-cases (x == a)) [
  | inl same ↦
      rw contains-append
        (ground (arith, h b (subst (λ y. Depends g y b) (sym ((==_iff x a).0 same)) q)))
  | inr other ↦
      rw contains-append (ground (arith, k a b (ground (arith, contains-append ns (x ∷ []) a)) q))
]

-- No service of a start order leads back to itself.
DepsFirst-acyclic :
    (g : ServiceDag) (before ns : List Text)
    → IsClosed g before
    → ((n : Text) → contains before n ≡ true → ¬ Leads g n n)
    → DepsFirst g before ns
    → (n : Text) → contains ns n ≡ true
    → ¬ Leads g n n
unfolding contains
DepsFirst-acyclic g before [] k h d n e l = cc
DepsFirst-acyclic g before (x ∷ ns) k h d n e l = elim (Bool-cases (x == n)) [
  | inl same ↦ subst (λ y. ¬ Leads g y y) ((==_iff x n).0 same) no_loop l
  | inr other ↦
      DepsFirst-acyclic g (before ++ x ∷ []) ns (IsClosed-snoc g before x k d.0)
        (λ m c. earlier m (Bool-cases (x == m)) c) d.1 n (ground arith) l
]
  where
    no_loop : ¬ Leads g x x
    no_loop p = h x (Leads-closed before d.0 k p) p

    earlier :
        (m : Text)
        → ((x == m) ≡ true) ⊎ ((x == m) ≡ false)
        → contains (before ++ x ∷ []) m ≡ true
        → ¬ Leads g m m
    earlier m (inl same) c = subst (λ y. ¬ Leads g y y) ((==_iff x m).0 same) no_loop
    earlier m (inr other) c = h m (ground (arith, contains-append before (x ∷ []) m))

-- Where an order is returned, no node of the graph, and nothing in the order, is on a cycle.
pub topological_services-acyclic :
    (g : ServiceDag) (order : List Text) (n : Text)
    → HasCleanNames g
    → topological_services g ≡ ok order
    → contains order n ≡ true
    → ¬ Leads g n n
unfolding contains
topological_services-acyclic g order n clean h =
    DepsFirst-acyclic g [] order (λ a b m q. cc) (λ m c. cc)
      (topological_services-IsStartOrder g order clean h).deps_first n

-- All that a member of a start order leads to is in the order.
DepsFirst-member :
    (g : ServiceDag) (before ns : List Text) (n d : Text)
    → DepsFirst g before ns
    → contains ns n ≡ true
    → Depends g n d
    → contains (before ++ ns) d ≡ true
unfolding contains
DepsFirst-member g before [] n d h c q = cc
DepsFirst-member g before (x ∷ ns) n d h c q = elim (Bool-cases (x == n)) [
  | inl same ↦
      rw contains-append
        (ground (arith, h.0 d (subst (λ y. Depends g y d) (sym ((==_iff x n).0 same)) q)))
  | inr other ↦
      subst (λ l. contains l d ≡ true) (append_assoc before (x ∷ []) ns)
        (DepsFirst-member g (before ++ x ∷ []) ns n d h.1 (ground arith) q)
]

Leads-member :
    {g : ServiceDag} (order : List Text) {a b : Text}
    → DepsFirst g [] order
    → contains order a ≡ true
    → Leads g a b
    → contains order b ≡ true
Leads-member {g} order {a} h c (one {b} q) = DepsFirst-member g [] order a b h c q
Leads-member {g} order h c (more {b} {c = d} l q) =
    DepsFirst-member g [] order b d h (Leads-member order h c l) q

-- A cycle that some node leads to is always found: the search then reports a cycle.
pub topological_services-finds_cycle :
    (g : ServiceDag) (n c : Text)
    → HasCleanNames g
    → contains g.nodes n ≡ true
    → Leads g n c
    → Leads g c c
    → (d : Text) × (topological_services g ≡ err (cycle_detected d))
topological_services-finds_cycle g n c clean m l loop = go (topological_services g) refl
  where
    go :
        (r : Result OrderError (List Text))
        → topological_services g ≡ r
        → (d : Text) × (topological_services g ≡ err (cycle_detected d))
    go (ok order) e =
        let start = topological_services-IsStartOrder g order clean e in
        absurd (
          topological_services-acyclic g order c clean e
            (Leads-member order start.deps_first (start.complete n m) l) loop)
    go (err (cycle_detected d)) e = (d, e)
    go (err out_of_fuel) e = absurd (topological_services-total g e)
