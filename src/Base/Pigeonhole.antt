-- ===== src/Base/Pigeonhole.antt =====
-- A list without repetition is no longer than a list that holds all its members.
use servicectl.Base.Tests.{Comparable, ◌==◌, ==_iff, Bool-cases, if◌then◌else◌}
use servicectl.Base.Lists.{contains, Distinct, length}
use Prim.Native.Nat.{suc, ◌≤◌}
use mathlib.Core.Path.{◌≡◌}
use mathlib.Core.Logic.{inl, inr}
use mathlib.Core.Bool.{true, false}
use mathlib.Core.List.{List, [], ◌∷◌}
use native.Mathlib.Omega.{arith}

module _ {ℓ} {A : Type ℓ} ⦃e : Comparable A⦄ where
  abbrev pub IsSubset : List A → List A → Type ℓ
  IsSubset xs ys = (a : A) → contains xs a ≡ true → contains ys a ≡ true

  remove : A → List A → List A
  remove a [] = []
  remove a (x ∷ xs) = if x == a then xs else x ∷ remove a xs

  length-remove :
      (a : A) (xs : List A) → contains xs a ≡ true → length xs ≡ suc (length (remove a xs))
  unfolding remove contains
  length-remove a [] h = ground arith
  length-remove a (x ∷ xs) h = ground (arith, length-remove a xs)

  contains-remove_ne :
      (a b : A) (xs : List A)
      → (a == b) ≡ false
      → contains xs b ≡ true
      → contains (remove a xs) b ≡ true
  unfolding remove contains
  contains-remove_ne a b [] n h = h
  contains-remove_ne a b (x ∷ xs) n h =
      ground (arith, ==_iff x a, ==_iff a b, ==_iff x b, contains-remove_ne a b xs n)

  -- A member of the list is told from a value that is not in it.
  member_ne :
      (xs : List A) (a b : A) → contains xs a ≡ false → contains xs b ≡ true → (a == b) ≡ false
  unfolding contains
  member_ne [] a b h k = ground arith
  member_ne (x ∷ xs) a b h k = ground (arith, ==_iff a b, ==_iff x a, ==_iff x b, member_ne xs a b)

  pub length-le_of_subset : (xs ys : List A) → Distinct xs → IsSubset xs ys → length xs ≤ length ys
  unfolding contains
  length-le_of_subset [] ys d s = omega arith
  length-le_of_subset (x ∷ xs) ys d s = omega (
    arith,
    length-remove x ys (s x (ground (arith, ==_iff x x))),
    length-le_of_subset xs (remove x ys) d.1
        λ a h. contains-remove_ne x a ys (member_ne xs x a d.0 h) (s a (ground arith)),
  )

  -- If it is as long, it holds all the members of the other.
  pub subset_of_length :
      (xs ys : List A) → Distinct xs → IsSubset xs ys → length xs ≡ length ys → IsSubset ys xs
  subset_of_length xs ys d s l a h = elim (Bool-cases (contains xs a)) [
    | inl t ↦ t
    | inr f ↦ absurd (
        omega (
          arith,
          length-remove a ys h,
          length-le_of_subset xs (remove a ys) d
              (λ b k. contains-remove_ne a b ys (member_ne xs a b f k) (s b k)),
        ))
  ]
