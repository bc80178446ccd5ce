-- ===== src/Cgroups/Descendants.antt =====
-- internal/cgrouptrack/proc.go: the descendants of a process in a table of processes.
use servicectl.Base.{
  ℕ, zero, suc, ◌||◌, Option, none, some, List, [], ◌∷◌, ◌++◌, ◌==◌, nat_eq, ltb, Map, get_or, put,
  contains, if◌then◌else◌,
}
use servicectl.Base.Sort.{sort_by}

-- A process id is a number, 0 for one that is not positive. The handle of a process is left out: it
-- is closed before the record is used.
pub record Process : Type 0 where
  pub pid : ℕ
  pub ppid : ℕ
  pub uid : ℕ
  pub start_time : ℕ

abbrev pub Children : Type 0
Children = Map ℕ (List ℕ)

unfoldable pub add_child : Process → Children → Children
add_child p children = put children p.ppid (get_or children p.ppid [] ++ (p.pid ∷ []))

unfoldable pub add_children : ℕ → List Process → Children → Children
unfolding add_child
add_children root [] children = children
add_children root (p ∷ rest) children =
    let skip = add_children root rest children in
    let next = add_children root rest (add_child p children) in
    if p.pid == 0 || p.pid == root then skip else next

-- `children[parent]`, once it is sorted.
unfoldable pub children_of : Children → ℕ → List ℕ
children_of children parent = sort_by ltb (get_or children parent [])

-- The loop's state: the seen ids, those that wait, and the result, each in order but `seen`.
pub record Search : Type 0 where
  pub seen : List ℕ
  pub queue : List ℕ
  pub result : List ℕ

unfoldable pub add_found : ℕ → Search → Search
add_found child s = if contains s.seen child then s else record {
  seen = child ∷ s.seen;
  queue = s.queue ++ (child ∷ []);
  result = s.result ++ (child ∷ []);
}

unfoldable pub add_all : List ℕ → Search → Search
unfolding add_found
add_all [] s = s
add_all (child ∷ rest) s = add_all rest (add_found child s)

-- The loop, on fuel; `none` where the fuel is spent.
unfoldable pub search_from : ℕ → Children → Search → List ℕ → Option (List ℕ)
unfolding add_all children_of
search_from fuel children s [] = some s.result
search_from zero children s (parent ∷ queue) = none
search_from (suc fuel) children s (parent ∷ queue) =
    let next = add_all (children_of children parent) (record s { queue = queue }) in
    search_from fuel children next next.queue

unfoldable pub descendants : ℕ → ℕ → List Process → Option (List ℕ)
unfolding add_children search_from
descendants fuel root processes =
    let start = root ∷ [] in
    search_from fuel (add_children root processes [])
      (record { seen = start; queue = start; result = [] }) start
