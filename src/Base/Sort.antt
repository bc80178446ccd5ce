-- ===== src/Base/Sort.antt =====
-- Package sort: a stable sort by insertion, for `sort.SliceStable`, and for `sort.Slice` and
-- `sort.Strings` where the order of the elements is a strict total one.
use Prim.Native.Nat.{ℕ, max}
use mathlib.Core.Path.{◌≡◌, refl}
use mathlib.Core.Bool.{Bool, true, false, ◌||◌}
use mathlib.Core.List.{List, [], ◌∷◌, Perm}
use mathlib.Core.List.Perm
use native.Mathlib.Omega.{arith}
use servicectl.Base.Tests.{Comparable, ◌==◌, if◌then◌else◌, Bool-cases}
use servicectl.Base.Lists.{contains, All, worst}
use mathlib.Core.Logic.{inl, inr}

module _ {ℓ} {A : Type ℓ} (less : A → A → Bool) where
  insert_by : A → List A → List A
  insert_by a [] = a ∷ []
  insert_by a (x ∷ xs) = if less x a then x ∷ insert_by a xs else a ∷ x ∷ xs

  -- `x` stands before equal elements that stood behind it.
  unfoldable pub sort_by : List A → List A
  unfolding insert_by
  sort_by [] = []
  sort_by (x ∷ xs) = insert_by x (sort_by xs)

  insert_by-perm : (a : A) (xs : List A) → Perm (insert_by a xs) (a ∷ xs)
  unfolding insert_by
  insert_by-perm a [] = Perm.rfl
  insert_by-perm a (x ∷ xs) = elim (Bool-cases (less x a)) [
    | inl later ↦ rw later (Perm.trans (Perm.cons x (insert_by-perm a xs)) (Perm.swap a x xs))
    | inr here ↦ rw here Perm.rfl
  ]

  pub sort_by-perm : (xs : List A) → Perm (sort_by xs) xs
  unfolding sort_by
  sort_by-perm [] = Perm.rfl
  sort_by-perm (x ∷ xs) = Perm.trans (insert_by-perm x (sort_by xs)) (Perm.cons x (sort_by-perm xs))

  -- No element is less than one that stands before it.
  abbrev pub IsSorted : List A → Type 0
  IsSorted [] = Unit
  IsSorted (x ∷ xs) = All (λ y. less y x ≡ false) xs × IsSorted xs

  module _ (asym : (x y : A) → less x y ≡ true → less y x ≡ false)
      (trans : (x y z : A) → less y x ≡ false → less z y ≡ false → less z x ≡ false) where
    all_later :
        (a x : A) (xs : List A)
        → less x a ≡ false
        → All (λ y. less y x ≡ false) xs
        → All (λ y. less y a ≡ false) xs
    all_later a x [] h k = tt
    all_later a x (y ∷ xs) h k = (trans a x y h k.0, all_later a x xs h k.1)

    insert_by-All :
        (a x : A) (xs : List A)
        → less a x ≡ false
        → All (λ y. less y x ≡ false) xs
        → All (λ y. less y x ≡ false) (insert_by a xs)
    unfolding insert_by
    insert_by-All a x [] h k = (h, tt)
    insert_by-All a x (y ∷ xs) h k = elim (Bool-cases (less y a)) [
      | inl later ↦ rw later (k.0, insert_by-All a x xs h k.1)
      | inr here ↦ rw here (h, k)
    ]

    insert_by-IsSorted : (a : A) (xs : List A) → IsSorted xs → IsSorted (insert_by a xs)
    unfolding insert_by
    insert_by-IsSorted a [] s = (tt, tt)
    insert_by-IsSorted a (x ∷ xs) s = elim (Bool-cases (less x a)) [
      | inl later ↦
          rw later (insert_by-All a x xs (asym x a later) s.0, insert_by-IsSorted a xs s.1)
      | inr here ↦ rw here ((here, all_later a x xs here s.0), s)
    ]

    pub sort_by-IsSorted : (xs : List A) → IsSorted (sort_by xs)
    unfolding sort_by
    sort_by-IsSorted [] = tt
    sort_by-IsSorted (x ∷ xs) = insert_by-IsSorted x (sort_by xs) (sort_by-IsSorted xs)

module _ {ℓ} {A : Type ℓ} ⦃e : Comparable A⦄ (less : A → A → Bool) where
  contains-insert_by :
      (a : A) (xs : List A) (b : A) → contains (insert_by less a xs) b ≡ (a == b || contains xs b)
  unfolding insert_by contains
  contains-insert_by a [] b = refl
  contains-insert_by a (x ∷ xs) b = ground (arith, contains-insert_by a xs b)

  pub contains-sort_by : (xs : List A) (b : A) → contains (sort_by less xs) b ≡ contains xs b
  unfolding sort_by contains
  contains-sort_by [] b = refl
  contains-sort_by (x ∷ xs) b =
      ground (arith, contains-insert_by x (sort_by less xs) b, contains-sort_by xs b)

module _ {ℓ} {A : Type ℓ} (less : A → A → Bool) (f : A → ℕ) where
  worst-insert_by : (a : A) (xs : List A) → worst f (insert_by less a xs) ≡ max (f a) (worst f xs)
  unfolding insert_by worst
  worst-insert_by a [] = refl
  worst-insert_by a (x ∷ xs) = elim (Bool-cases (less x a)) [
    | inl later ↦ rw later (omega (arith, worst-insert_by a xs))
    | inr here ↦ rw here
  ]

  pub worst-sort_by : (xs : List A) → worst f (sort_by less xs) ≡ worst f xs
  unfolding sort_by worst
  worst-sort_by [] = refl
  worst-sort_by (x ∷ xs) = omega (arith, worst-insert_by x (sort_by less xs), worst-sort_by xs)
