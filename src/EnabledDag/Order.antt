-- ===== src/EnabledDag/Order.antt =====
-- What the search of TopologicalServices keeps true: the result holds the finished names, each
-- after all that it depends on, and a cycle is reported only where there is one.
use servicectl.Base.{
  ℕ, zero, suc, ◌≡◌, refl, sym, subst, ◌∙◌, ◌⊎◌, inl, inr, Bool, true, false, List, [], ◌∷◌, ◌++◌,
  arith, ◌==◌, ==_iff, if◌then◌else◌, contains, contains-append, Distinct, Distinct-snoc,
  get_or-put, Result, ok, err, ◌>>=◌, append-nil, append_assoc, Bool-cases,
}
use servicectl.Base.Text.{Text, text_eq}
use servicectl.EnabledDag.Graph.{
  ServiceDag, Depends, Leads, one, more, ordered_deps, contains-ordered_deps,
}
use servicectl.EnabledDag.Visit.{
  Mark, unseen, visiting, done, Search, OrderError, cycle_detected, out_of_fuel, mark_of, set_mark,
  finish, visit_all, visit,
}

abbrev pub is_done : Mark → Bool
is_done done = true
is_done _ = false

abbrev pub is_visiting : Mark → Bool
is_visiting visiting = true
is_visiting _ = false

-- Each name of the list stands behind all that it depends on, or these are in `before`.
abbrev pub DepsFirst : ServiceDag → List Text → List Text → Type 0
DepsFirst g before [] = Unit
DepsFirst g before (x ∷ xs) =
    ((d : Text) → Depends g x d → contains before d ≡ true) × DepsFirst g (before ++ x ∷ []) xs

DepsFirst-snoc :
    (g : ServiceDag) (before xs : List Text) (x : Text)
    → DepsFirst g before xs
    → ((d : Text) → Depends g x d → contains (before ++ xs) d ≡ true)
    → DepsFirst g before (xs ++ x ∷ [])
DepsFirst-snoc g before [] x h k =
    (λ d e. subst (λ l. contains l d ≡ true) (append-nil before) (k d e), tt)
DepsFirst-snoc g before (y ∷ ys) x h k = (
  h.0,
  DepsFirst-snoc g (before ++ y ∷ []) ys x h.1
      (λ d e. subst (λ l. contains l d ≡ true) (sym (append_assoc before (y ∷ []) ys)) (k d e)),
)

pub record IsSound (g : ServiceDag) (s : Search) : Type 0 where
  pub listed : (n : Text) → contains s.result n ≡ is_done (mark_of s n)
  pub distinct : Distinct s.result
  pub ordered : DepsFirst g [] s.result

-- A successful part of the search finishes names and leaves the open calls as they are.
pub record Extends (s t : Search) : Type 0 where
  pub keeps_visiting : (n : Text) → is_visiting (mark_of t n) ≡ is_visiting (mark_of s n)
  pub keeps_done : (n : Text) → mark_of s n ≡ done → mark_of t n ≡ done

Extends-refl : (s : Search) → Extends s s
Extends-refl s = record { keeps_visiting = λ n. refl; keeps_done = λ n h. h }

Extends-trans : {s t u : Search} → Extends s t → Extends t u → Extends s u
Extends-trans h k = record {
  keeps_visiting = λ n. k.keeps_visiting n ∙ h.keeps_visiting n;
  keeps_done = λ n d. k.keeps_done n (h.keeps_done n d);
}

-- A result that satisfies `P`, or a true report of a cycle.
abbrev pub Reports : ServiceDag → (Search → Type 0) → Result OrderError Search → Type 0
Reports g P (ok t) = P t
Reports g P (err (cycle_detected c)) = Leads g c c
Reports g P (err out_of_fuel) = Unit

pub Reports-bind :
    (g : ServiceDag) (P Q : Search → Type 0) (r : Result OrderError Search)
    (f : Search → Result OrderError Search)
    → Reports g P r
    → ((t : Search) → P t → Reports g Q (f t))
    → Reports g Q (r >>= f)
Reports-bind g P Q (ok t) f h k = k t h
Reports-bind g P Q (err (cycle_detected c)) f h k = h
Reports-bind g P Q (err out_of_fuel) f h k = tt

pub Reports-mono :
    (g : ServiceDag) (P Q : Search → Type 0) (r : Result OrderError Search)
    → Reports g P r
    → ((t : Search) → P t → Q t)
    → Reports g Q r
Reports-mono g P Q (ok t) h k = k t h
Reports-mono g P Q (err (cycle_detected c)) h k = h
Reports-mono g P Q (err out_of_fuel) h k = tt

pub mark_of-set_mark :
    (s : Search) (n : Text) (m : Mark) (k : Text)
    → mark_of (set_mark s n m) k ≡ (if n == k then m else mark_of s k)
unfolding mark_of set_mark
mark_of-set_mark s n m k = get_or-put s.mark n k m unseen

pub mark_of-finish :
    (s : Search) (n k : Text) → mark_of (finish s n) k ≡ (if n == k then done else mark_of s k)
unfolding mark_of finish
mark_of-finish s n k = get_or-put s.mark n k done unseen

-- Opening a name changes no more than its mark.
open-IsSound :
    (g : ServiceDag) (s : Search) (name : Text)
    → IsSound g s
    → mark_of s name ≡ unseen
    → IsSound g (set_mark s name visiting)
unfolding set_mark
open-IsSound g s name h e = record {
  listed = λ n. ground (arith, h.listed n, mark_of-set_mark s name visiting n, ==_iff name n);
  distinct = h.distinct;
  ordered = h.ordered;
}

finish-IsSound :
    (g : ServiceDag) (t : Search) (name : Text)
    → IsSound g t
    → mark_of t name ≡ visiting
    → ((d : Text) → Depends g name d → mark_of t d ≡ done)
    → IsSound g (finish t name)
unfolding finish contains
finish-IsSound g t name h e k = record {
  listed = λ n. ground (
    arith,
    h.listed n,
    mark_of-finish t name n,
    ==_iff name n,
    contains-append t.result (name ∷ []) n,
  );
  distinct = Distinct-snoc t.result name h.distinct (h.listed name ∙ ground arith);
  ordered = DepsFirst-snoc g [] t.result name h.ordered (λ d q. h.listed d ∙ ground (arith, k d q));
}

-- The names that are open all lead to the name that is visited next.
abbrev pub Trail : ServiceDag → Search → Text → Type 0
Trail g s name = (m : Text) → is_visiting (mark_of s m) ≡ true → Leads g m name

-- What one call of the search gives.
pub record Visited (g : ServiceDag) (s : Search) (name : Text) (t : Search) : Type 0 where
  pub sound : IsSound g t
  pub extends : Extends s t
  pub finished : mark_of t name ≡ done

-- What the loop over names gives.
pub record VisitedAll (g : ServiceDag) (s : Search) (names : List Text) (t : Search) : Type 0 where
  pub sound : IsSound g t
  pub extends : Extends s t
  pub finished : (d : Text) → contains names d ≡ true → mark_of t d ≡ done

Trail-Extends :
    {g : ServiceDag} {s t : Search} {name : Text} → Extends s t → Trail g s name → Trail g t name
Trail-Extends h k m e = k m (sym (h.keeps_visiting m) ∙ e)

pub visit_all-Reports :
    (g : ServiceDag) (step : Text → Search → Result OrderError Search)
    → ((name : Text) (s : Search)
        → IsSound g s
        → Trail g s name
        → Reports g (Visited g s name) (step name s))
    → (names : List Text) (s : Search) → IsSound g s
    → ((d : Text) → contains names d ≡ true → Trail g s d)
    → Reports g (VisitedAll g s names) (visit_all step names s)
unfolding visit_all contains
visit_all-Reports g step h [] s i k = record {
  sound = i;
  extends = Extends-refl s;
  finished = λ d e. cc;
}
visit_all-Reports g step h (name ∷ rest) s i k =
    Reports-bind g (Visited g s name) (VisitedAll g s (name ∷ rest)) (step name s)
      (visit_all step rest) (h name s i (k name (ground (arith, ==_iff name name))))
      λ t v.
        Reports-mono g (VisitedAll g t rest) (VisitedAll g s (name ∷ rest)) (visit_all step rest t)
          (visit_all-Reports g step h rest t v.sound
            (λ d e. Trail-Extends v.extends (k d (ground arith))))
          λ u w. record {
            sound = w.sound;
            extends = Extends-trans v.extends w.extends;
            finished = λ d e.
                ground (arith, ==_iff name d, w.finished d, w.extends.keeps_done name v.finished);
          }

pub Mark-cases : (m : Mark) → (m ≡ unseen) ⊎ (m ≡ visiting) ⊎ (m ≡ done)
Mark-cases unseen = inl refl
Mark-cases visiting = inr (inl refl)
Mark-cases done = inr (inr refl)

-- Opening a name lengthens the trail by one dependency.
Trail-open :
    (g : ServiceDag) (s : Search) (name d : Text)
    → Trail g s name
    → Depends g name d
    → Trail g (set_mark s name visiting) d
Trail-open g s name d k q m e = elim (Bool-cases (name == m)) [
  | inl same ↦ subst (λ n. Leads g n d) ((==_iff name m).0 same) (one q)
  | inr other ↦ more (k m (ground (arith, mark_of-set_mark s name visiting m))) q
]

-- Closing a name after its dependencies.
close-Visited :
    (g : ServiceDag) (s t : Search) (name : Text)
    → mark_of s name ≡ unseen
    → VisitedAll g (set_mark s name visiting) (ordered_deps g name) t
    → Visited g s name (finish t name)
close-Visited g s t name e v = record {
  sound =
      finish-IsSound g t name v.sound
        (ground (
          arith,
          v.extends.keeps_visiting name,
          mark_of-set_mark s name visiting name,
          ==_iff name name,
        ))
        (λ d q. v.finished d (contains-ordered_deps g name d ∙ q));
  extends = record {
    keeps_visiting = λ n. ground (
      arith,
      mark_of-finish t name n,
      v.extends.keeps_visiting n,
      mark_of-set_mark s name visiting n,
      ==_iff name n,
    );
    keeps_done = λ n d. ground (
      arith,
      mark_of-finish t name n,
      v.extends.keeps_done n,
      mark_of-set_mark s name visiting n,
      ==_iff name n,
    );
  };
  finished = ground (arith, mark_of-finish t name name, ==_iff name name);
}

pub visit-Reports :
    (g : ServiceDag) (fuel : ℕ) (name : Text) (s : Search)
    → IsSound g s
    → Trail g s name
    → Reports g (Visited g s name) (visit g fuel name s)
unfolding visit
visit-Reports g zero name s i k = tt
visit-Reports g (suc fuel) name s i k = elim (Mark-cases (mark_of s name)) [
  | inl e ↦
      rw (e, visit)
        (Reports-bind g (VisitedAll g (set_mark s name visiting) (ordered_deps g name))
          (Visited g s name)
          (visit_all (visit g fuel) (ordered_deps g name) (set_mark s name visiting))
          (λ t. ok (finish t name))
          (visit_all-Reports g (visit g fuel) (visit-Reports g fuel) (ordered_deps g name)
            (set_mark s name visiting) (open-IsSound g s name i e)
            (λ d q. Trail-open g s name d k (sym (contains-ordered_deps g name d) ∙ q)))
          (λ t v. close-Visited g s t name e v))
  | inr (inl e) ↦ rw (e, visit) (k name (rw e))
  | inr (inr e) ↦ rw (e, visit) (record { sound = i; extends = Extends-refl s; finished = e })
]
