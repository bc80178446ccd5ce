-- ===== src/EnabledDag/Grouped.antt =====
-- group_order.go: the order of a group has each of its units once, and keeps the order of the graph.
use servicectl.Base.{
  ◌≡◌, refl, sym, ap, subst, Bool, true, false, ◌&&◌, ◌||◌, not, List, [], ◌∷◌, ◌++◌, ◌==◌, ==_iff,
  contains, contains-append, Distinct, Distinct-snoc, if◌then◌else◌, if-intro, arith, inl, inr,
  Bool-cases,
}
use servicectl.Base.Text.{Text, text_eq}
use servicectl.EnabledDag.Graph.{ServiceDag, Depends}
use servicectl.EnabledDag.Order.{DepsFirst}
use servicectl.EnabledDag.GroupOrder.{append_unless, pick_ordered}

-- The first place of a name is before that of another, which stands in the list, too.
unfoldable pub precedes : List Text → Text → Text → Bool
precedes [] d n = false
precedes (x ∷ xs) d n = if x == d then contains xs n else if x == n then false else precedes xs d n

precedes-append :
    (xs ys : List Text) (d n : Text) → precedes xs d n ≡ true → precedes (xs ++ ys) d n ≡ true
unfolding precedes
precedes-append [] ys d n h = cc
precedes-append (x ∷ xs) ys d n h =
    ground (arith, contains-append xs ys n, precedes-append xs ys d n)

precedes-snoc :
    (xs : List Text) (d n : Text)
    → contains xs d ≡ true
    → contains xs n ≡ false
    → precedes (xs ++ (n ∷ [])) d n ≡ true
unfolding precedes contains
precedes-snoc [] d n h k = cc
precedes-snoc (x ∷ xs) d n h k =
    ground (arith, contains-append xs (n ∷ []) n, ==_iff n n, precedes-snoc xs d n)

-- In an order of the graph each name stands behind what it depends on.
pub DepsFirst-precedes :
    (g : ServiceDag) (before xs : List Text) (d n : Text)
    → DepsFirst g before xs
    → Depends g n d
    → contains before d ≡ false
    → contains xs n ≡ true
    → precedes xs d n ≡ true
unfolding precedes contains
DepsFirst-precedes g before [] d n f k new h = h
DepsFirst-precedes g before (x ∷ xs) d n f k new h =
    let here : (x == n) ≡ true → contains before d ≡ true =
      λ e. f.0 d (subst (λ m. Depends g m d) (sym ((==_iff x n).0 e)) k) in
    ground (
      arith,
      here,
      contains-append before (x ∷ []) d,
      DepsFirst-precedes g (before ++ (x ∷ [])) xs d n f.1 k,
    )

pub precedes-Distinct : (xs : List Text) (d : Text) → Distinct xs → precedes xs d d ≡ false
unfolding precedes contains
precedes-Distinct [] d k = refl
precedes-Distinct (x ∷ xs) d k =
    let here : (x == d) ≡ true → contains xs d ≡ false =
      λ e. subst (λ c. contains xs c ≡ false) ((==_iff x d).0 e) k.0 in
    ground (arith, here, precedes-Distinct xs d k.1)

pub contains-append_unless :
    (skip : Bool) (name : Text) (r : List Text) (c : Text)
    → contains (append_unless skip name r) c ≡ (contains r c || (not skip && name == c))
unfolding append_unless contains
contains-append_unless skip name r c = ground (arith, contains-append r (name ∷ []) c)

pub append_unless-Distinct :
    (skip : Bool) (name : Text) (r : List Text)
    → Distinct r
    → (skip ≡ false → contains r name ≡ false)
    → Distinct (append_unless skip name r)
unfolding append_unless
append_unless-Distinct skip name r d new =
    if-intro Distinct skip (λ _. d) (λ kept. Distinct-snoc r name d (new kept))

pub precedes-append_unless :
    (skip : Bool) (name : Text) (r : List Text) (d n : Text)
    → precedes r d n ≡ true
    → precedes (append_unless skip name r) d n ≡ true
unfolding append_unless
precedes-append_unless skip name r d n h =
    if-intro (λ l. precedes l d n ≡ true) skip (λ _. h) (λ _. precedes-append r (name ∷ []) d n h)

-- The same list holds the same names.
pub same_member : (l : List Text) (a b : Text) → (a == b) ≡ true → contains l a ≡ contains l b
same_member l a b h = ap (contains l) ((==_iff a b).0 h)

module _ (group : List Text) where
  skips : Text → List Text → Bool
  skips name r = not (contains group name && not (contains r name))

  pub pick_ordered-contains :
      (order r : List Text) (c : Text)
      → contains (pick_ordered group order r) c
        ≡ (contains r c || (contains order c && contains group c))
  unfolding pick_ordered contains skips
  pick_ordered-contains [] r c = ground arith
  pick_ordered-contains (name ∷ order) r c = ground (
    arith,
    pick_ordered-contains order (append_unless (skips name r) name r) c,
    contains-append_unless (skips name r) name r c,
    same_member group name c,
    same_member r name c,
  )

  pub pick_ordered-Distinct :
      (order r : List Text) → Distinct r → Distinct (pick_ordered group order r)
  unfolding pick_ordered skips
  pick_ordered-Distinct [] r d = d
  pick_ordered-Distinct (name ∷ order) r d =
      pick_ordered-Distinct order (append_unless (skips name r) name r)
        (append_unless-Distinct (skips name r) name r d (λ kept. ground arith))

  module _ (d n : Text) where
    pick_ordered-keeps :
        (order r : List Text)
        → precedes r d n ≡ true
        → precedes (pick_ordered group order r) d n ≡ true
    unfolding pick_ordered skips
    pick_ordered-keeps [] r h = h
    pick_ordered-keeps (name ∷ order) r h =
        pick_ordered-keeps order (append_unless (skips name r) name r)
          (precedes-append_unless (skips name r) name r d n h)

    -- The first of the two is in the result, the second comes later.
    pick_ordered-second :
        (order r : List Text)
        → contains r d ≡ true
        → contains r n ≡ false
        → contains order n ≡ true
        → contains group n ≡ true
        → precedes (pick_ordered group order r) d n ≡ true
    unfolding pick_ordered skips contains
    pick_ordered-second [] r h k l m = cc
    pick_ordered-second (name ∷ order) r h k l m = elim (Bool-cases (name == n)) [
      | inl same ↦ pick_ordered-keeps order (append_unless (skips name r) name r) (
          subst (λ x. precedes (append_unless (skips x r) x r) d n ≡ true)
            (sym ((==_iff name n).0 same)) appended)
      | inr other ↦
          pick_ordered-second order (append_unless (skips name r) name r)
            (ground (arith, contains-append_unless (skips name r) name r d))
            (ground (arith, contains-append_unless (skips name r) name r n)) (ground arith) m
    ]
      where
        appended : precedes (append_unless (skips n r) n r) d n ≡ true
        appended =
            if-intro (λ l. precedes l d n ≡ true) (skips n r) (λ e. absurd (ground arith))
              (λ _. precedes-snoc r d n h k)

    pub pick_ordered-precedes :
        (order r : List Text)
        → (d == n) ≡ false
        → contains r d ≡ false
        → contains r n ≡ false
        → precedes order d n ≡ true
        → contains group d ≡ true
        → contains group n ≡ true
        → precedes (pick_ordered group order r) d n ≡ true
    unfolding pick_ordered skips precedes
    pick_ordered-precedes [] r ne h k l a b = cc
    pick_ordered-precedes (name ∷ order) r ne h k l a b =
        let next = append_unless (skips name r) name r in
        elim (Bool-cases (name == d)) [
          | inl same ↦
              pick_ordered-second order next
                (ground (
                  arith,
                  contains-append_unless (skips name r) name r d,
                  same_member group name d,
                  same_member r name d,
                ))
                (ground (
                  arith,
                  contains-append_unless (skips name r) name r n,
                  ==_iff name d,
                  ==_iff name n,
                  ==_iff d n,
                ))
                (ground arith) b
          | inr other ↦
              pick_ordered-precedes order next ne
                (ground (arith, contains-append_unless (skips name r) name r d))
                (ground (arith, contains-append_unless (skips name r) name r n)) (ground arith) a b
        ]
