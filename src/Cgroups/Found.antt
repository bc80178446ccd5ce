-- ===== src/Cgroups/Found.antt =====
-- internal/cgrouptrack/proc.go: what one round of the search for descendants adds.
use servicectl.Base.{
  ℕ, ◌+◌, ◌≡◌, ◌∙◌, Bool, true, false, ◌&&◌, ◌||◌, not, List, [], ◌∷◌, ◌++◌, length, length-append,
  ◌==◌, nat_eq, ltb, get, get_or, get_or-put, contains, contains-append, Distinct, Distinct-snoc,
  if-intro, arith,
}
use servicectl.Base.Sort.{contains-sort_by}
use servicectl.Cgroups.Descendants.{
  Process, Children, add_child, add_children, children_of, Search, add_found, add_all,
}

-- Whether a table has a process with a parent; the root counts as nobody's child.
unfoldable pub is_child : ℕ → List Process → ℕ → ℕ → Bool
is_child root [] parent c = false
is_child root (p ∷ rest) parent c =
    (not (p.pid == 0 || p.pid == root) && p.ppid == parent && p.pid == c)
    || is_child root rest parent c

add_child-contains :
    (p : Process) (m : Children) (parent c : ℕ)
    → contains (get_or (add_child p m) parent []) c
      ≡ (contains (get_or m parent []) c || (p.ppid == parent && p.pid == c))
unfolding add_child contains
add_child-contains p m parent c = ground (
  arith,
  get_or-put m p.ppid parent (get_or m p.ppid [] ++ (p.pid ∷ [])) [],
  contains-append (get_or m p.ppid []) (p.pid ∷ []) c,
)

add_children-contains :
    (root : ℕ) (ps : List Process) (m : Children) (parent c : ℕ)
    → contains (get_or (add_children root ps m) parent []) c
      ≡ (contains (get_or m parent []) c || is_child root ps parent c)
unfolding add_children is_child
add_children-contains root [] m parent c = ground arith
add_children-contains root (p ∷ ps) m parent c = ground (
  arith,
  add_children-contains root ps m parent c,
  add_children-contains root ps (add_child p m) parent c,
  add_child-contains p m parent c,
)

-- The children that the search sees of a parent.
pub children_of-is_child :
    (root : ℕ) (ps : List Process) (parent c : ℕ)
    → contains (children_of (add_children root ps []) parent) c ≡ is_child root ps parent c
unfolding children_of get_or get contains
children_of-is_child root ps parent c =
    contains-sort_by ltb (get_or (add_children root ps []) parent []) c
    ∙ add_children-contains root ps [] parent c

-- What a round has added, for children in some order.
pub record Added (kids : List ℕ) (s t : Search) : Type 0 where
  pub in_seen : (c : ℕ) → contains t.seen c ≡ (contains s.seen c || contains kids c)
  pub in_result :
      (c : ℕ)
      → contains t.result c ≡ (contains s.result c || (not (contains s.seen c) && contains kids c))
  pub in_queue :
      (c : ℕ)
      → contains t.queue c ≡ (contains s.queue c || (not (contains s.seen c) && contains kids c))
  pub counted : length t.queue + length s.result ≡ length t.result + length s.queue

add_found-Added : (child : ℕ) (s : Search) → Added (child ∷ []) s (add_found child s)
unfolding add_found contains
add_found-Added child s =
    if-intro (Added (child ∷ []) s) (contains s.seen child)
      (λ old. record {
        in_seen = λ c. ground (arith, old);
        in_result = λ c. ground (arith, old);
        in_queue = λ c. ground (arith, old);
        counted = omega arith;
      })
      (λ new. record {
        in_seen = λ c. ground arith;
        in_result = λ c. ground (arith, contains-append s.result (child ∷ []) c, new);
        in_queue = λ c. ground (arith, contains-append s.queue (child ∷ []) c, new);
        counted =
            omega (arith, length-append s.queue (child ∷ []), length-append s.result (child ∷ []));
      })

pub add_all-Added : (kids : List ℕ) (s : Search) → Added kids s (add_all kids s)
unfolding add_all contains
add_all-Added [] s = record {
  in_seen = λ c. ground arith;
  in_result = λ c. ground arith;
  in_queue = λ c. ground arith;
  counted = omega arith;
}
add_all-Added (child ∷ rest) s =
    let one = add_found-Added child s in
    let more = add_all-Added rest (add_found child s) in
    record {
      in_seen = λ c. ground (arith, one.in_seen c, more.in_seen c);
      in_result = λ c. ground (arith, one.in_seen c, one.in_result c, more.in_result c);
      in_queue = λ c. ground (arith, one.in_seen c, one.in_queue c, more.in_queue c);
      counted = omega (arith, one.counted, more.counted);
    }

-- The ids of the result are seen, and each stands in it once.
pub record IsOnce (s : Search) : Type 0 where
  pub distinct : Distinct s.result
  pub within : (c : ℕ) → contains s.result c ≡ true → contains s.seen c ≡ true

add_found-IsOnce : (child : ℕ) (s : Search) → IsOnce s → IsOnce (add_found child s)
unfolding add_found contains
add_found-IsOnce child s once =
    if-intro IsOnce (contains s.seen child) (λ _. once)
      (λ new. record {
        distinct =
            Distinct-snoc s.result child once.distinct (ground (arith, once.within child, new));
        within = λ c h. ground (arith, contains-append s.result (child ∷ []) c, once.within c);
      })

pub add_all-IsOnce : (kids : List ℕ) (s : Search) → IsOnce s → IsOnce (add_all kids s)
unfolding add_all
add_all-IsOnce [] s once = once
add_all-IsOnce (child ∷ rest) s once =
    add_all-IsOnce rest (add_found child s) (add_found-IsOnce child s once)
