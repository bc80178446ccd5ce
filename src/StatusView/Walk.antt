-- ===== src/StatusView/Walk.antt =====
-- The walk along the primary edges in validateGraph.
use servicectl.Base.{
  ℕ, zero, suc, ◌+◌, ◌≤◌, ◌≡◌, ◌≢◌, inl, inr, refl, subst, true, false, List, [], ◌∷◌, ok, err,
  ==_iff, ==_ne, nat_eq, contains, Distinct, Map, get_or, arith, Bool-cases, length,
}
use servicectl.Base.Text.{Text, text_eq, is_empty}
use servicectl.Base.Pigeonhole.{IsSubset, length-le_of_subset}
use servicectl.StatusView.Validate.{GraphError, out_of_fuel, walk}

-- A list of names, each reached along `next` from the one behind it.
abbrev pub IsLinked : Map Text Text → List Text → Type 0
IsLinked next [] = Unit
IsLinked next (b ∷ []) = Unit
IsLinked next (b ∷ a ∷ rest) = (get_or next a [] ≡ b) × IsLinked next (a ∷ rest)

-- `next` leads from the first name of the list to `current`.
abbrev pub Precedes : Map Text Text → List Text → Text → Type 0
Precedes next [] current = Unit
Precedes next (a ∷ rest) current = get_or next a [] ≡ current

IsLinked-cons :
    (next : Map Text Text) (v : List Text) (current : Text)
    → IsLinked next v
    → Precedes next v current
    → IsLinked next (current ∷ v)
IsLinked-cons next [] current l p = tt
IsLinked-cons next (a ∷ rest) current l p = (p, l)

-- What a walk that ends has visited.
pub record Walked (next : Map Text Text) (members v : List Text) : Type 0 where
  pub distinct : Distinct v
  pub linked : IsLinked next v
  pub stops : Precedes next v []
  pub within : IsSubset v members
  pub named : contains v [] ≡ false

module _ (next : Map Text Text) (members : List Text)
    (closed : (a : Text)
      → is_empty (get_or next a []) ≡ false
      → contains members (get_or next a []) ≡ true) where
  pub walk-Walked :
      (fuel : ℕ) (visited : List Text) (current : Text) (v : List Text)
      → Distinct visited
      → IsLinked next visited
      → Precedes next visited current
      → IsSubset visited members
      → contains visited [] ≡ false
      → (is_empty current ≡ false → contains members current ≡ true)
      → walk fuel next visited current ≡ ok v
      → Walked next members v
  unfolding walk contains
  walk-Walked zero visited current v d l p s n c h = cc
  walk-Walked (suc fuel) visited [] v d l p s n c h =
      subst (Walked next members) (cc)
        (record { distinct = d; linked = l; stops = p; within = s; named = n })
  walk-Walked (suc fuel) visited (x ∷ xs) v d l p s n c h =
      elim (Bool-cases (contains visited (x ∷ xs))) [
        | inl old ↦ absurd (loop (rw (old, walk) at h))
        | inr new ↦
            walk-Walked fuel ((x ∷ xs) ∷ visited) (get_or next (x ∷ xs) []) v (new, d)
              (IsLinked-cons next visited (x ∷ xs) l p) refl
              (λ a k. ground (arith, s a, c refl, ==_iff (x ∷ xs) a))
              (rw (==_ne (x ∷ xs) [] (λ e. cc)) n) (closed (x ∷ xs)) (rw (new, walk) at h)
      ]
    where
      loop : {e : GraphError} → err e ≢ ok v
      loop k = cc

  -- With more fuel than names are left the walk comes to an end.
  pub walk-ends :
      (fuel : ℕ) (visited : List Text) (current : Text)
      → Distinct visited
      → IsSubset visited members
      → (is_empty current ≡ false → contains members current ≡ true)
      → length members + 2 ≤ fuel + length visited
      → walk fuel next visited current ≢ err out_of_fuel
  unfolding walk contains
  walk-ends zero visited current d s c m =
      absurd (omega (arith, length-le_of_subset visited members d s))
  walk-ends (suc fuel) visited [] d s c m = cc
  walk-ends (suc fuel) visited (x ∷ xs) d s c m = elim (Bool-cases (contains visited (x ∷ xs))) [
    | inl old ↦ rw (old, walk) (cc)
    | inr new ↦
        rw (new, walk)
          (walk-ends fuel ((x ∷ xs) ∷ visited) (get_or next (x ∷ xs) []) (new, d)
            (λ a k. ground (arith, s a, c refl, ==_iff (x ∷ xs) a)) (closed (x ∷ xs)) (omega arith))
  ]
