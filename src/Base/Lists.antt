-- ===== src/Base/Lists.antt =====
-- Lists measured by native numbers, and lists read as sets.
use mathlib.Core.Logic.{◌↔◌}
use Prim.Native.Nat.{max, ℕ, zero, suc, ◌+◌}
use mathlib.Core.Path.{◌≡◌, refl}
use mathlib.Core.Bool.{Bool, false, ◌||◌}
use mathlib.Core.List.{List, [], ◌∷◌, ◌++◌}
use mathlib.Core.Option.{Option, none, some}
use native.Mathlib.Omega.{arith}
use servicectl.Base.Tests.{==_iff, Comparable, ◌==◌}

module _ {ℓ} {A : Type ℓ} where
  abbrev pub length : List A → ℕ
  length [] = 0
  length (x ∷ xs) = suc (length xs)

  pub length-append : (xs ys : List A) → length (xs ++ ys) ≡ length xs + length ys
  length-append [] ys = omega arith
  length-append (x ∷ xs) ys = omega (arith, length-append xs ys)

  abbrev pub get_elem? : List A → ℕ → Option A
  get_elem? [] i = none
  get_elem? (x ∷ xs) zero = some x
  get_elem? (x ∷ xs) (suc i) = get_elem? xs i

  abbrev pub All {κ} : (A → Type κ) → List A → Type κ
  All P [] = Unit
  All P (x ∷ xs) = P x × All P xs

module _ {ℓ} {A : Type ℓ} ⦃e : Comparable A⦄ where
  -- `_, ok := set[a]` for a set kept as a list of its members.
  unfoldable pub contains : List A → A → Bool
  contains [] a = false
  contains (x ∷ xs) a = x == a || contains xs a

  pub contains-append :
      (xs ys : List A) (a : A) → contains (xs ++ ys) a ≡ (contains xs a || contains ys a)
  unfolding contains
  contains-append [] ys a = refl
  contains-append (x ∷ xs) ys a = ground (arith, contains-append xs ys a)

  -- No value occurs twice.
  abbrev pub Distinct : List A → Type 0
  Distinct [] = Unit
  Distinct (x ∷ xs) = (contains xs x ≡ false) × Distinct xs

  pub Distinct-snoc :
      (xs : List A) (a : A) → Distinct xs → contains xs a ≡ false → Distinct (xs ++ (a ∷ []))
  unfolding contains
  Distinct-snoc [] a d h = (refl, tt)
  Distinct-snoc (x ∷ xs) a d h = (
    ground (arith, contains-append xs (a ∷ []) x, d.0, ==_iff x a, ==_iff a x),
    Distinct-snoc xs a d.1 (ground arith),
  )

-- The largest value of a measure, 0 for no element.
unfoldable pub worst {ℓ} : {A : Type ℓ} → (A → ℕ) → List A → ℕ
worst f [] = 0
worst f (x ∷ xs) = max (f x) (worst f xs)

pub worst-zero_iff {ℓ} :
    {A : Type ℓ} (f : A → ℕ) (xs : List A) → (worst f xs ≡ 0) ↔ All (λ x. f x ≡ 0) xs
unfolding worst
worst-zero_iff f [] = (λ h. tt, λ h. refl)
worst-zero_iff f (x ∷ xs) = (
  λ h. (omega arith, (worst-zero_iff f xs).0 (omega arith)),
  λ h. omega (arith, (worst-zero_iff f xs).1 h.1),
)
