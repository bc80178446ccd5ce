-- ===== src/Cgroups/Reached.antt =====
-- internal/cgrouptrack/proc.go: Descendants finds the descendants of a process, all and only these.
use servicectl.Base.{
  ℕ, zero, suc, ◌+◌, ◌≤◌, ◌≡◌, ◌↔◌, refl, sym, ap, subst, true, false, ◌||◌, some, List, [], ◌∷◌,
  map, length, ◌==◌, ==_iff, nat_eq, contains, Distinct, arith, inl, inr, Bool-cases,
}
use servicectl.Base.Pigeonhole.{length-le_of_subset}
use servicectl.Cgroups.Descendants.{
  Process, add_children, children_of, Search, add_all, search_from, descendants,
}
use servicectl.Cgroups.Found.{is_child, children_of-is_child, add_all-Added, IsOnce, add_all-IsOnce}

-- The chains of parents in a table from a process up to the root.
pub data Descends (root : ℕ) (ps : List Process) : ℕ → Type 0 where
  child : (c : ℕ) → is_child root ps root c ≡ true → Descends root ps c
  below : (d c : ℕ) → Descends root ps d → is_child root ps d c ≡ true → Descends root ps c

unfoldable pub pid_of : Process → ℕ
pid_of p = p.pid

child_pid :
    (root : ℕ) (ps : List Process) (d c : ℕ)
    → is_child root ps d c ≡ true
    → contains (map pid_of ps) c ≡ true
unfolding is_child contains pid_of
child_pid root [] d c h = cc
child_pid root (p ∷ ps) d c h = ground (arith, child_pid root ps d c)

child_apart :
    (root : ℕ) (ps : List Process) (d c : ℕ) → is_child root ps d c ≡ true → (root == c) ≡ false
unfolding is_child
child_apart root [] d c h = cc
child_apart root (p ∷ ps) d c h = ground (arith, child_apart root ps d c)

length-map_pid : (ps : List Process) → length (map pid_of ps) ≡ length ps
length-map_pid [] = refl
length-map_pid (p ∷ ps) = ap suc (length-map_pid ps)

module _ (root : ℕ) (ps : List Process) where
  -- Between two rounds: what was found descends from the root, and the children of what does not wait
  -- are seen.
  record IsSearch (rounds : ℕ) (s : Search) : Type 0 where
    sound : (c : ℕ) → contains s.result c ≡ true → Descends root ps c
    seen : (c : ℕ) → contains s.seen c ≡ (root == c || contains s.result c)
    waits : (c : ℕ) → contains s.queue c ≡ true → contains s.seen c ≡ true
    closed :
        (d c : ℕ)
        → contains s.seen d ≡ true
        → contains s.queue d ≡ false
        → is_child root ps d c ≡ true
        → contains s.seen c ≡ true
    once : IsOnce s
    counted : rounds + length s.queue ≡ suc (length s.result)

  -- A child of what was seen descends from the root.
  child_of_seen :
      (rounds : ℕ) (s : Search) (d c : ℕ)
      → IsSearch rounds s
      → contains s.seen d ≡ true
      → is_child root ps d c ≡ true
      → Descends root ps c
  child_of_seen rounds s d c inv h k = elim (Bool-cases (contains s.result d)) [
    | inl t ↦ below d c (inv.sound d t) k
    | inr f ↦ child c (
        subst (λ d. is_child root ps d c ≡ true)
          (sym ((==_iff root d).0 (ground (arith, inv.seen d)))) k)
  ]

  after_round :
      (rounds parent : ℕ) (queue : List ℕ) (s : Search)
      → s.queue ≡ parent ∷ queue
      → IsSearch rounds s
      → IsSearch
          (suc rounds)
          (add_all (children_of (add_children root ps []) parent) (record s { queue = queue }))
  unfolding contains
  after_round rounds parent queue s same inv =
      let kids = children_of (add_children root ps []) parent in
      let popped : Search = record s { queue = queue } in
      let added = add_all-Added kids popped in
      let queued : (c : ℕ) → contains s.queue c ≡ (parent == c || contains queue c) =
        λ c. ap (λ q. contains q c) same in
      let parent_seen = inv.waits parent (ground (arith, queued parent)) in
      let is_kid = children_of-is_child root ps parent in
      record {
        sound = λ c h. elim (Bool-cases (contains s.result c)) [
          | inl t ↦ inv.sound c t
          | inr f ↦
              child_of_seen rounds s parent c inv parent_seen
                (ground (arith, added.in_result c, is_kid c))
        ];
        seen = λ c. ground (arith, inv.seen c, added.in_seen c, added.in_result c);
        waits = λ c h. ground (arith, inv.waits c, queued c, added.in_queue c, added.in_seen c);
        closed = λ d c h k l. elim (Bool-cases (parent == d)) [
          | inl t ↦
              let mine : is_child root ps parent c ≡ true =
                subst (λ d. is_child root ps d c ≡ true) (sym ((==_iff parent d).0 t)) l in
              ground (arith, mine, is_kid c, added.in_seen c)
          | inr f ↦
              ground (
                arith,
                added.in_seen d,
                added.in_queue d,
                queued d,
                added.in_seen c,
                inv.closed d c,
              )
        ];
        once =
            add_all-IsOnce kids popped
              (record { distinct = inv.once.distinct; within = inv.once.within });
        counted = omega (arith, inv.counted, added.counted, ap length same);
      }

  is_child_pid : (d c : ℕ) → is_child root ps d c ≡ true → contains (map pid_of ps) c ≡ true
  is_child_pid d c h = child_pid root ps d c h

  pub Descends-pid : {c : ℕ} → Descends root ps c → contains (map pid_of ps) c ≡ true
  Descends-pid (child c h) = is_child_pid root c h
  Descends-pid (below d c r h) = is_child_pid d c h

  Descends-apart : {c : ℕ} → Descends root ps c → (root == c) ≡ false
  Descends-apart (child c h) = child_apart root ps root c h
  Descends-apart (below d c r h) = child_apart root ps d c h

  -- With nothing left to wait, all descendants are seen.
  Descends-seen :
      (rounds : ℕ) (s : Search)
      → IsSearch rounds s
      → s.queue ≡ []
      → {c : ℕ} → Descends root ps c
      → contains s.seen c ≡ true
  unfolding contains
  Descends-seen rounds s inv empty (child c h) =
      inv.closed root c (ground (arith, inv.seen root)) (ap (λ q. contains q root) empty) h
  Descends-seen rounds s inv empty (below d c r h) =
      inv.closed d c (Descends-seen rounds s inv empty r) (ap (λ q. contains q d) empty) h

  result_short : (rounds : ℕ) (s : Search) → IsSearch rounds s → length s.result ≤ length ps
  result_short rounds s inv = omega (
    arith,
    length-map_pid ps,
    length-le_of_subset s.result (map pid_of ps) inv.once.distinct
        (λ c h. Descends-pid (inv.sound c h)),
  )

  -- The rounds that are left are enough.
  search_from-IsSearch :
      (fuel rounds : ℕ) (s : Search) (queue : List ℕ)
      → s.queue ≡ queue
      → IsSearch rounds s
      → suc (length ps) ≤ fuel + rounds
      → (found : List ℕ) × (search_from fuel (add_children root ps []) s queue ≡ some found)
        × Distinct found
        × ((c : ℕ) → (contains found c ≡ true) ↔ Descends root ps c)
  unfolding search_from contains
  search_from-IsSearch fuel rounds s [] same inv enough = (
    s.result,
    refl,
    inv.once.distinct,
    λ c. (
      inv.sound c,
      λ r. ground (arith, inv.seen c, Descends-seen rounds s inv same r, Descends-apart r),
    ),
  )
  search_from-IsSearch zero rounds s (parent ∷ queue) same inv enough =
      absurd (omega (arith, inv.counted, result_short rounds s inv, ap length same, enough))
  search_from-IsSearch (suc fuel) rounds s (parent ∷ queue) same inv enough =
      search_from-IsSearch fuel (suc rounds)
        (add_all (children_of (add_children root ps []) parent) (record s { queue = queue })) _ refl
        (after_round rounds parent queue s same inv) (omega arith)

  started : IsSearch 0 (record { seen = root ∷ []; queue = root ∷ []; result = [] })
  unfolding contains
  started = record {
    sound = λ c h. cc;
    seen = λ c. refl;
    waits = λ c h. h;
    closed = λ d c h k l. absurd (ground arith);
    once = record { distinct = tt; within = λ c h. cc };
    counted = omega arith;
  }

-- With fuel of one more than the processes of the table, the search ends, and its result has each
-- descendant of the root once and nothing else.
pub descendants-Descends :
    (fuel root : ℕ) (ps : List Process)
    → suc (length ps) ≤ fuel
    → (found : List ℕ) × (descendants fuel root ps ≡ some found)
      × Distinct found
      × ((c : ℕ) → (contains found c ≡ true) ↔ Descends root ps c)
unfolding descendants
descendants-Descends fuel root ps enough =
    search_from-IsSearch root ps fuel 0 _ (root ∷ []) refl (started root ps) (omega arith)
