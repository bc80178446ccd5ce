-- ===== src/Restart/Searched.antt =====
-- deps.go: what the search of reverseRestartClosure visits, in which order, and that it ends.
use servicectl.Base.{
  ℕ, suc, ◌+◌, ◌≤◌, ◌<◌, ◌≡◌, refl, sym, ap, subst, Bool, true, false, ◌&&◌, ◌||◌, not, Option,
  some, List, [], ◌∷◌, length, ◌==◌, ==_iff, contains, contains-append, Distinct, Distinct-snoc,
  if-intro, arith, inl, inr, Bool-cases,
}
use servicectl.Base.Text.{Text, text_eq}
use servicectl.Restart.Dependents.{Units}
use servicectl.Restart.Closure.{
  Visits, mark_visited, order_dependent, order_after, visit_one, visit_dependents,
}

-- The chains of steps from a root.
pub data Restarts (step : Text → Text → Bool) (root : Text) : Text → Type 0 where
  direct : (c : Text) → step root c ≡ true → Restarts step root c
  below : (d c : Text) → Restarts step root d → step d c ≡ true → Restarts step root c

pub record IsFit (names : List Text) (s : Visits) : Type 0 where
  pub once : Distinct s.visited
  pub ordered_once : Distinct s.order
  pub within : (c : Text) → contains s.order c ≡ true → contains s.visited c ≡ true
  pub known : (c : Text) → contains s.visited c ≡ true → contains names c ≡ true

-- From one state to another, with names that were asked for.
pub record IsVisited (step : Text → Text → Bool) (started : Text → Bool) (root : Text)
    (ds : List Text) (s t : Visits) : Type 0 where
  pub keeps : (c : Text) → contains s.visited c ≡ true → contains t.visited c ≡ true
  pub covers : (c : Text) → contains ds c ≡ true → started c ≡ true → contains t.visited c ≡ true
  pub closed :
      (d c : Text)
      → contains s.visited d ≡ false
      → contains t.visited d ≡ true
      → step d c ≡ true
      → contains t.visited c ≡ true
  pub sound :
      (c : Text) → contains s.visited c ≡ false → contains t.visited c ≡ true → Restarts step root c
  pub in_order :
      (c : Text)
      → contains t.order c
        ≡ (contains s.order c || (contains t.visited c && not (contains s.visited c)))
  pub grows : length s.visited ≤ length t.visited

module _ (u : Units) (deps : Text → List Text) (names : List Text) (root : Text) where
  unfoldable pub step_of : Text → Text → Bool
  step_of d c = contains (deps d) c && u.is_started c

  abbrev pub Between : List Text → Visits → Visits → Type 0
  Between = IsVisited step_of u.is_started root

  abbrev pub Ends : List Text → Visits → Option Visits → Type 0
  Ends ds s r = (t : Visits) × (r ≡ some t) × IsFit names t × Between ds s t

  abbrev pub Marked : ℕ → Text → Visits → Type 0
  Marked fuel d s =
      contains names d ≡ true
      → IsFit names s
      → contains s.visited d ≡ false
      → Restarts step_of root d
      → length names < suc (fuel + length s.visited)
      → Ends (deps d) (mark_visited d s) (visit_dependents u deps fuel d (mark_visited d s))

  pub mark_visited-IsFit :
      (d : Text) (s : Visits)
      → contains names d ≡ true
      → IsFit names s
      → contains s.visited d ≡ false
      → IsFit names (mark_visited d s)
  unfolding mark_visited contains
  mark_visited-IsFit d s n f new = record {
    once = (new, f.once);
    ordered_once = f.ordered_once;
    within = λ c h. ground (arith, f.within c);
    known = λ c h. elim (Bool-cases (d == c)) [
      | inl same ↦ subst (λ e. contains names e ≡ true) ((==_iff d c).0 same) n
      | inr other ↦ f.known c (ground arith)
    ];
  }

  order_dependent-IsFit :
      (d : Text) (s t : Visits)
      → IsFit names s
      → contains s.visited d ≡ false
      → IsFit names t
      → Between (deps d) (mark_visited d s) t
      → IsFit names (order_dependent d t)
  unfolding mark_visited order_dependent contains
  order_dependent-IsFit d s t f new g i = record {
    once = g.once;
    ordered_once =
        Distinct-snoc t.order d g.ordered_once
          (ground (arith, i.in_order d, f.within d, ==_iff d d));
    within = λ c h. ground (arith, contains-append t.order (d ∷ []) c, g.within c, i.keeps c);
    known = g.known;
  }

  order_dependent-IsVisited :
      (d : Text) (s t : Visits)
      → contains s.visited d ≡ false
      → Restarts step_of root d
      → Between (deps d) (mark_visited d s) t
      → Between (d ∷ []) s (order_dependent d t)
  unfolding mark_visited order_dependent contains step_of
  order_dependent-IsVisited d s t new r i = record {
    keeps = λ c h. i.keeps c (ground arith);
    covers = λ c h k. i.keeps c (ground arith);
    closed = λ e c old now k. elim (Bool-cases (d == e)) [
      | inl same ↦
          let mine : step_of d c ≡ true =
            subst (λ e. step_of e c ≡ true) (sym ((==_iff d e).0 same)) k in
          i.covers c (ground (arith, mine)) (ground (arith, mine))
      | inr other ↦ i.closed e c (ground arith) now k
    ];
    sound = λ c old now. elim (Bool-cases (d == c)) [
      | inl same ↦ subst (Restarts step_of root) ((==_iff d c).0 same) r
      | inr other ↦ i.sound c (ground arith) now
    ];
    in_order = λ c. elim (Bool-cases (d == c)) [
      | inl same ↦
          let mine : contains s.visited c ≡ false =
            subst (λ e. contains s.visited e ≡ false) ((==_iff d c).0 same) new in
          ground (arith, contains-append t.order (d ∷ []) c, i.in_order c, i.keeps c)
      | inr other ↦ ground (arith, contains-append t.order (d ∷ []) c, i.in_order c)
    ];
    grows = omega (arith, i.grows);
  }

  skipped-IsVisited :
      (d : Text) (s : Visits)
      → (contains s.visited d || not (u.is_started d)) ≡ true
      → Between (d ∷ []) s s
  unfolding contains
  skipped-IsVisited d s skip = record {
    keeps = λ c h. h;
    covers = λ c h k.
        subst (λ e. u.is_started e ≡ true → contains s.visited e ≡ true)
          ((==_iff d c).0 (ground arith)) (λ l. ground arith) k;
    closed = λ e c old now k. absurd (ground arith);
    sound = λ c old now. absurd (ground arith);
    in_order = λ c. ground arith;
    grows = omega arith;
  }

  pub visit_one-Ends :
      (fuel : ℕ) (d : Text) (s : Visits)
      → Marked fuel d s
      → contains names d ≡ true
      → IsFit names s
      → (u.is_started d ≡ true → Restarts step_of root d)
      → length names < suc (fuel + length s.visited)
      → Ends (d ∷ []) s (visit_one u (visit_dependents u deps fuel) d s)
  unfolding visit_one
  visit_one-Ends fuel d s v n f r enough =
      if-intro (Ends (d ∷ []) s) (contains s.visited d || not (u.is_started d))
        (λ skip. (s, refl, f, skipped-IsVisited d s skip))
        (λ go.
          let new : contains s.visited d ≡ false = ground arith in
          let reached = r (ground arith) in
          let (t, h, g, i) = v n f new reached enough in
          (
            order_dependent d t,
            ap (order_after d) h,
            order_dependent-IsFit d s t f new g i,
            order_dependent-IsVisited d s t new reached i,
          ))

  pub joined :
      (d : Text) (rest : List Text) (s t r : Visits)
      → Between (d ∷ []) s t
      → Between rest t r
      → Between (d ∷ rest) s r
  unfolding contains
  joined d rest s t r i j = record {
    keeps = λ c h. j.keeps c (i.keeps c h);
    covers = λ c h k. elim (Bool-cases (d == c)) [
      | inl same ↦ j.keeps c (i.covers c (ground arith) k)
      | inr other ↦ j.covers c (ground arith) k
    ];
    closed = λ e c old now k. elim (Bool-cases (contains t.visited e)) [
      | inl seen ↦ j.keeps c (i.closed e c old seen k)
      | inr new ↦ j.closed e c new now k
    ];
    sound = λ c old now. elim (Bool-cases (contains t.visited c)) [
      | inl seen ↦ i.sound c old seen
      | inr new ↦ j.sound c new now
    ];
    in_order = λ c. ground (arith, i.in_order c, j.in_order c, i.keeps c, j.keeps c);
    grows = omega (arith, i.grows, j.grows);
  }
