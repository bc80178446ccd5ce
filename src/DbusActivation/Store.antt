-- ===== src/DbusActivation/Store.antt =====
-- internal/dbusactivation/environment.go: EnvironmentStore, the environments of the frontends.
use servicectl.Base.{
  ℕ, ◌+◌, ◌^◌, ◌%◌, ◌≡◌, ◌≢◌, refl, ap, Option, none, some, List, [], ◌∷◌, ◌++◌, map, Map, get,
  get_or, put, get-put, nat_eq, arith,
}
use servicectl.Base.Sort.{sort_by}
use servicectl.Base.Text.{Text, text_eq, text_ltb}

pub record Snapshot : Type 0 where
  pub generation : ℕ
  pub values : Map Text Text

-- A frontend is its number.
abbrev pub EnvironmentStore : Type 0
EnvironmentStore = Map ℕ Snapshot

abbrev pub no_snapshot : Snapshot
no_snapshot = record { generation = 0; values = [] }

-- `current.generation++`, on 64 bits.
unfoldable pub next_snapshot : Snapshot → Map Text Text → Snapshot
next_snapshot current values = record {
  generation = (current.generation + 1) % 2 ^ 64;
  values = values;
}

-- `s.snapshots[frontend]`, with the zero value where there is none.
unfoldable pub current_or : Option Snapshot → Snapshot
current_or none = no_snapshot
current_or (some current) = current

unfoldable pub replace : EnvironmentStore → ℕ → Map Text Text → EnvironmentStore × ℕ
unfolding next_snapshot current_or
replace s frontend values =
    let current = next_snapshot (current_or (get s frontend)) values in
    (put s frontend current, current.generation)

unfoldable pub keys : Map Text Text → List Text
keys values = map (λ (key, value). key) values

-- The entries `key=value` in the order of the keys.
unfoldable pub sorted_entries : Map Text Text → List Text
unfolding keys
sorted_entries values =
    map (λ key. key ++ (b'=' ∷ get_or values key [])) (sort_by text_ltb (keys values))

unfoldable pub shown : Option Snapshot → ℕ × List Text
unfolding sorted_entries
shown none = (0, [])
shown (some current) = (current.generation, sorted_entries current.values)

unfoldable pub snapshot : EnvironmentStore → ℕ → ℕ × List Text
unfolding shown
snapshot s frontend = shown (get s frontend)

same_generation : (o : Option Snapshot) → (current_or o).generation ≡ (shown o).0
unfolding current_or shown
same_generation none = refl
same_generation (some current) = refl

got_put :
    (s : EnvironmentStore) (frontend : ℕ) (v : Snapshot) → get (put s frontend v) frontend ≡ some v
got_put s frontend v = ground (arith, get-put s frontend frontend v)

got_other :
    (s : EnvironmentStore) (frontend other : ℕ) (v : Snapshot)
    → frontend ≢ other
    → get (put s frontend v) other ≡ get s other
got_other s frontend other v apart = ground (arith, get-put s frontend other v)

-- After Replace, Snapshot of the frontend has the generation that Replace returned, one more than
-- before, and the new variables; the other frontends are as before.
pub snapshot-replace :
    (s : EnvironmentStore) (frontend other : ℕ) (values : Map Text Text)
    → let after = replace s frontend values in
      (snapshot after.0 frontend ≡ (after.1, sorted_entries values))
      × (after.1 ≡ ((snapshot s frontend).0 + 1) % 2 ^ 64)
      × (frontend ≢ other → snapshot after.0 other ≡ snapshot s other)
unfolding snapshot replace next_snapshot
snapshot-replace s frontend other values =
    let current = next_snapshot (current_or (get s frontend)) values in
    (
      ap shown (got_put s frontend current),
      ap (λ n. (n + 1) % 2 ^ 64) (same_generation (get s frontend)),
      λ apart. ap shown (got_other s frontend other current apart),
    )
