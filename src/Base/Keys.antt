-- ===== src/Base/Keys.antt =====
-- Keys of several texts, compared one after the other.
use mathlib.Core.Path.{◌≡◌}
use mathlib.Core.Bool.{Bool, true, false, not}
use mathlib.Core.List.{List, [], ◌∷◌}
use native.Mathlib.Omega.{arith}
use servicectl.Base.Tests.{◌==◌, ==_iff, if◌then◌else◌}
use servicectl.Base.Text.{Text, text_eq, text_ltb, text_ltb_asym, text_not_lt_trans, text_ltb_total}

unfoldable pub keys_ltb : List Text → List Text → Bool
keys_ltb [] [] = false
keys_ltb [] (y ∷ ys) = true
keys_ltb (x ∷ xs) [] = false
keys_ltb (x ∷ xs) (y ∷ ys) = if not (x == y) then text_ltb x y else keys_ltb xs ys

pub keys_ltb_asym : (a b : List Text) → keys_ltb a b ≡ true → keys_ltb b a ≡ false
unfolding keys_ltb
keys_ltb_asym (x ∷ a) (y ∷ b) h =
    ground (arith, ==_iff x y, ==_iff y x, text_ltb_asym x y, keys_ltb_asym a b)
keys_ltb_asym _ _ h = ground arith

pub keys_not_lt_trans :
    (a b c : List Text) → keys_ltb b a ≡ false → keys_ltb c b ≡ false → keys_ltb c a ≡ false
unfolding keys_ltb
keys_not_lt_trans (x ∷ a) (y ∷ b) (z ∷ c) h k = ground (
  arith,
  ==_iff x y,
  ==_iff y x,
  ==_iff y z,
  ==_iff z y,
  ==_iff z x,
  text_not_lt_trans x y z,
  text_ltb_total x y,
  text_ltb_total y z,
  text_ltb_total z x,
  text_ltb_asym x y,
  text_ltb_asym y z,
  keys_not_lt_trans a b c,
)
keys_not_lt_trans [] [] c h k = k
keys_not_lt_trans [] (y ∷ b) [] h k = ground arith
keys_not_lt_trans [] (y ∷ b) (z ∷ c) h k = ground arith
keys_not_lt_trans _ _ _ h k = ground arith

pub keys_ltb_total : (a b : List Text) → keys_ltb a b ≡ false → keys_ltb b a ≡ false → a ≡ b
unfolding keys_ltb
keys_ltb_total (x ∷ a) (y ∷ b) h k =
    ground (arith, ==_iff x y, ==_iff y x, text_ltb_total x y, keys_ltb_total a b)
keys_ltb_total _ _ h k = ground arith
