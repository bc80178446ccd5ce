-- ===== src/EnabledDag/Fuel.antt =====
-- The fuel of the search of TopologicalServices is enough: every call that goes on marks one more
-- name of the graph.
use servicectl.Base.{
  ℕ, zero, suc, ◌+◌, ◌≤◌, ◌<◌, ◌≡◌, sym, ◌∙◌, inl, inr, Bool, true, false, List, [], ◌∷◌, arith,
  ==_iff, if◌then◌else◌, contains, contains-append, get, get_or, Map, Result, ok, err, ◌>>=◌,
  length,
}
use servicectl.Base.Text.{Text, text_eq}
use servicectl.EnabledDag.Graph.{ServiceDag, Depends, deps_of, ordered_deps, contains-ordered_deps}
use servicectl.EnabledDag.Visit.{
  Mark, unseen, visiting, Search, OrderError, cycle_detected, out_of_fuel, mark_of, set_mark,
  finish, visit_all, visit, universe, dep_names,
}
use servicectl.EnabledDag.Order.{Mark-cases, mark_of-set_mark, mark_of-finish}

abbrev is_unseen : Mark → Bool
is_unseen unseen = true
is_unseen _ = false

-- How many entries of the list have no mark yet.
abbrev pub unseen_count : Search → List Text → ℕ
unseen_count s [] = 0
unseen_count s (n ∷ ns) = (if is_unseen (mark_of s n) then 1 else 0) + unseen_count s ns

unseen_count-le :
    (s t : Search) (ns : List Text)
    → ((n : Text) → is_unseen (mark_of t n) ≡ true → is_unseen (mark_of s n) ≡ true)
    → unseen_count t ns ≤ unseen_count s ns
unseen_count-le s t [] h = omega arith
unseen_count-le s t (n ∷ ns) h = ground (arith, h n, unseen_count-le s t ns h)

unseen_count-open_le :
    (s : Search) (name : Text) (ns : List Text)
    → unseen_count (set_mark s name visiting) ns ≤ unseen_count s ns
unseen_count-open_le s name ns =
    unseen_count-le s (set_mark s name visiting) ns
      (λ n h. ground (arith, mark_of-set_mark s name visiting n))

unseen_count-open_lt :
    (s : Search) (name : Text) (ns : List Text)
    → contains ns name ≡ true
    → mark_of s name ≡ unseen
    → unseen_count (set_mark s name visiting) ns < unseen_count s ns
unfolding contains
unseen_count-open_lt s name [] h e = cc
unseen_count-open_lt s name (n ∷ ns) h e = ground (
  arith,
  mark_of-set_mark s name visiting n,
  ==_iff n name,
  ==_iff name n,
  unseen_count-open_le s name ns,
  unseen_count-open_lt s name ns,
)

unseen_count-finish :
    (t : Search) (name : Text) (ns : List Text)
    → unseen_count (finish t name) ns ≤ unseen_count t ns
unseen_count-finish t name ns =
    unseen_count-le t (finish t name) ns (λ n h. ground (arith, mark_of-finish t name n))

-- The search comes to an end, with no more unmarked names than before.
abbrev pub Ends : List Text → ℕ → Result OrderError Search → Type 0
Ends ns k (ok t) = unseen_count t ns ≤ k
Ends ns k (err (cycle_detected c)) = Unit
Ends ns k (err out_of_fuel) = ⊥

Ends-bind :
    (ns : List Text) (k l : ℕ) (r : Result OrderError Search)
    (f : Search → Result OrderError Search)
    → Ends ns k r
    → ((t : Search) → unseen_count t ns ≤ k → Ends ns l (f t))
    → Ends ns l (r >>= f)
Ends-bind ns k l (ok t) f h g = g t h
Ends-bind ns k l (err (cycle_detected c)) f h g = tt
Ends-bind ns k l (err out_of_fuel) f h g = h

pub visit_all-Ends :
    (ns : List Text) (step : Text → Search → Result OrderError Search) (k : ℕ)
    → ((name : Text) (s : Search) (l : ℕ)
        → contains ns name ≡ true
        → unseen_count s ns ≤ l
        → l ≤ k
        → Ends ns l (step name s))
    → (names : List Text) → ((d : Text) → contains names d ≡ true → contains ns d ≡ true)
    → (s : Search) (l : ℕ) → unseen_count s ns ≤ l
    → l ≤ k
    → Ends ns l (visit_all step names s)
unfolding visit_all contains
visit_all-Ends ns step k h [] q s l m b = m
visit_all-Ends ns step k h (name ∷ rest) q s l m b =
    Ends-bind ns l l (step name s) (visit_all step rest)
      (h name s l (q name (ground (arith, ==_iff name name))) m b)
      λ t m'. visit_all-Ends ns step k h rest (λ d e. q d (ground arith)) t l m' b

contains-dep_names :
    (m : Map Text (List Text)) (name d : Text)
    → contains (get_or m name []) d ≡ true
    → contains (dep_names m) d ≡ true
unfolding get_or get dep_names contains
contains-dep_names [] name d h = cc
contains-dep_names ((j, deps) ∷ m) name d h =
    ground (arith, contains-append deps (dep_names m) d, contains-dep_names m name d)

pub contains-universe_dep :
    (g : ServiceDag) (name d : Text) → Depends g name d → contains (universe g) d ≡ true
unfolding universe deps_of
contains-universe_dep g name d h = ground (
  arith,
  contains-append g.nodes (dep_names g.deps_by_node) d,
  contains-dep_names g.deps_by_node name d,
)

pub contains-universe_node :
    (g : ServiceDag) (n : Text) → contains g.nodes n ≡ true → contains (universe g) n ≡ true
unfolding universe
contains-universe_node g n h = ground (arith, contains-append g.nodes (dep_names g.deps_by_node) n)

pub visit-Ends :
    (g : ServiceDag) (fuel : ℕ) (name : Text) (s : Search) (l : ℕ)
    → contains (universe g) name ≡ true
    → unseen_count s (universe g) ≤ l
    → l < fuel
    → Ends (universe g) l (visit g fuel name s)
unfolding visit
visit-Ends g zero name s l c m b = absurd (omega arith)
visit-Ends g (suc fuel) name s l c m b = elim (Mark-cases (mark_of s name)) [
  | inl e ↦
      rw (e, visit)
        (Ends-bind (universe g) (unseen_count (set_mark s name visiting) (universe g)) l
          (visit_all (visit g fuel) (ordered_deps g name) (set_mark s name visiting))
          (λ t. ok (finish t name))
          (visit_all-Ends (universe g) (visit g fuel)
            (unseen_count (set_mark s name visiting) (universe g))
            (λ n s' l' c' m' b'.
              visit-Ends g fuel n s' l' c' m'
                (omega (arith, unseen_count-open_lt s name (universe g) c e)))
            (ordered_deps g name)
            (λ d q. contains-universe_dep g name d (sym (contains-ordered_deps g name d) ∙ q))
            (set_mark s name visiting) (unseen_count (set_mark s name visiting) (universe g))
            (omega arith) (omega arith))
          (λ t m'. omega (
            arith,
            unseen_count-finish t name (universe g),
            unseen_count-open_lt s name (universe g) c e,
          )))
  | inr (inl e) ↦ rw (e, visit) tt
  | inr (inr e) ↦ rw (e, visit) m
]

pub unseen_count-le-length : (s : Search) (ns : List Text) → unseen_count s ns ≤ length ns
unseen_count-le-length s [] = omega arith
unseen_count-le-length s (n ∷ ns) = ground (arith, unseen_count-le-length s ns)
