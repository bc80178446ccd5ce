-- ===== src/Restart/Ended.antt =====
-- deps.go: the search of reverseRestartClosure ends, on fuel of one more than the units.
use servicectl.Base.{
  ℕ, zero, suc, ◌+◌, ◌<◌, ◌≡◌, refl, ap, ◌∙◌, true, List, [], ◌∷◌, length, ==_iff, contains, arith,
}
use servicectl.Base.Pigeonhole.{length-le_of_subset}
use servicectl.Base.Text.{Text, text_eq}
use servicectl.Restart.Dependents.{Units}
use servicectl.Restart.Closure.{Visits, mark_visited, then_visit, visit_each, visit_dependents}
use servicectl.Restart.Searched.{
  Restarts, below, IsFit, step_of, Ends, Marked, mark_visited-IsFit, visit_one-Ends, joined,
}

module _ (u : Units) (deps : Text → List Text) (names : List Text) (root : Text)
    (listed : (d c : Text) → contains (deps d) c ≡ true → contains names c ≡ true) where
  visit_each-Ends :
      (fuel : ℕ) (ds : List Text)
      → ((d : Text) (s : Visits) → Marked u deps names root fuel d s)
      → ((c : Text) → contains ds c ≡ true → contains names c ≡ true)
      → ((c : Text)
          → contains ds c ≡ true
          → u.is_started c ≡ true
          → Restarts (step_of u deps names root) root c)
      → (s : Visits) → IsFit names s
      → length names < suc (fuel + length s.visited)
      → Ends u deps names root ds s (visit_each u (visit_dependents u deps fuel) ds s)
  unfolding visit_each contains
  visit_each-Ends fuel [] v known reached s f enough = (
    s,
    refl,
    f,
    record {
      keeps = λ c h. h;
      covers = λ c h k. absurd cc;
      closed = λ d c old now k. absurd cc;
      sound = λ c old now. absurd cc;
      in_order = λ c. ground arith;
      grows = omega arith;
    },
  )
  visit_each-Ends fuel (d ∷ rest) v known reached s f enough =
      let here : contains (d ∷ rest) d ≡ true = ground (arith, ==_iff d d) in
      let (t, h, g, i) =
        visit_one-Ends u deps names root fuel d s (v d s) (known d here) f (reached d here)
          enough in
      let (r, k, e, j) =
        visit_each-Ends fuel rest v (λ c l. known c (ground arith))
          (λ c l. reached c (ground arith)) t g (omega (arith, i.grows)) in
      (
        r,
        ap (then_visit (visit_each u (visit_dependents u deps fuel) rest)) h ∙ k,
        e,
        joined u deps names root d rest s t r i j,
      )

  pub visit_dependents-Ends :
      (fuel : ℕ) (name : Text) (s : Visits)
      → IsFit names s
      → ((c : Text)
          → step_of u deps names root name c ≡ true
          → Restarts (step_of u deps names root) root c)
      → length names < fuel + length s.visited
      → Ends u deps names root (deps name) s (visit_dependents u deps fuel name s)
  unfolding visit_dependents step_of mark_visited
  visit_dependents-Ends zero name s f reached enough =
      absurd (omega (arith, length-le_of_subset s.visited names f.once f.known))
  visit_dependents-Ends (suc fuel) name s f reached enough =
      visit_each-Ends fuel (deps name)
        (λ d s n f new r enough.
          visit_dependents-Ends fuel d (mark_visited d s)
            (mark_visited-IsFit u deps names root d s n f new) (λ c k. below d c r k) (omega arith))
        (listed name) (λ c h k. reached c (ground arith)) s f (omega arith)
