-- ===== src/Base/Suffix.antt =====
-- Prefixes and suffixes of texts, cut off and put back.

use mathlib.Core.Path.{◌≡◌, refl, ap, sym, ◌∙◌}
use mathlib.Core.Bool.{true, false}
use mathlib.Core.Option.{Option, none, some}
use mathlib.Core.Option
use mathlib.Core.List.{[], ◌∷◌, ◌++◌, reverse, reverse-append, reverse-reverse}
use native.Mathlib.Omega.{arith}
use servicectl.Base.Text.{Text, strip_prefix, strip_suffix, has_suffix, trim_suffix}

strip_prefix-append : (p s : Text) → strip_prefix p (p ++ s) ≡ some s
unfolding strip_prefix
strip_prefix-append [] s = refl
strip_prefix-append (c ∷ p) s = ground (arith, strip_prefix-append p s)

strip_prefix-some : (p s r : Text) → strip_prefix p s ≡ some r → s ≡ p ++ r
unfolding strip_prefix
strip_prefix-some [] s r h = cc
strip_prefix-some (d ∷ p) [] r h = cc
strip_prefix-some (d ∷ p) (c ∷ s) r h = ground (arith, strip_prefix-some p s r)

strip_suffix-append : (s suffix : Text) → strip_suffix suffix (s ++ suffix) ≡ some s
unfolding strip_suffix
strip_suffix-append s suffix =
    ap (λ r. Option.map reverse (strip_prefix (reverse suffix) r)) (reverse-append s suffix)
    ∙ ap (Option.map reverse) (strip_prefix-append (reverse suffix) (reverse s))
    ∙ ap some (reverse-reverse s)

some_injective : {a b : Text} → some a ≡ some b → a ≡ b
some_injective h = cc

-- The text before a suffix, still reversed.
reversed_some :
    (suffix s : Text) (o : Option Text) (r : Text)
    → strip_prefix (reverse suffix) (reverse s) ≡ o
    → Option.map reverse o ≡ some r
    → s ≡ r ++ suffix
reversed_some suffix s none r h k = cc
reversed_some suffix s (some q) r h k =
    let same = strip_prefix-some (reverse suffix) (reverse s) q h in
    sym (reverse-reverse s)
    ∙ ap reverse same
    ∙ reverse-append (reverse suffix) q
    ∙ ap (λ t. reverse q ++ t) (reverse-reverse suffix)
    ∙ ap (λ t. t ++ suffix) (some_injective k)

strip_suffix-some : (suffix s r : Text) → strip_suffix suffix s ≡ some r → s ≡ r ++ suffix
unfolding strip_suffix
strip_suffix-some suffix s r h =
    reversed_some suffix s (strip_prefix (reverse suffix) (reverse s)) r refl h

pub trim_suffix-append : (s suffix : Text) → trim_suffix (s ++ suffix) suffix ≡ s
unfolding trim_suffix
trim_suffix-append s suffix = rw (trim_suffix, strip_suffix-append s suffix) refl

pub has_suffix-append : (s suffix : Text) → has_suffix (s ++ suffix) suffix ≡ true
unfolding has_suffix
has_suffix-append s suffix = rw (has_suffix, strip_suffix-append s suffix) refl

false_ne_true : false ≡ true → ⊥
false_ne_true h = cc

no_suffix :
    (s suffix : Text) → strip_suffix suffix s ≡ none → has_suffix s suffix ≡ true → false ≡ true
unfolding has_suffix
no_suffix s suffix h k = rw (has_suffix, h) at k

after_strip :
    (s suffix : Text) (o : Option Text)
    → strip_suffix suffix s ≡ o
    → has_suffix s suffix ≡ true
    → trim_suffix s suffix ++ suffix ≡ s
unfolding trim_suffix has_suffix
after_strip s suffix none h k = absurd (false_ne_true (no_suffix s suffix h k))
after_strip s suffix (some r) h k = rw (trim_suffix, h) (sym (strip_suffix-some suffix s r h))

pub trim_suffix-has_suffix :
    (s suffix : Text) → has_suffix s suffix ≡ true → trim_suffix s suffix ++ suffix ≡ s
trim_suffix-has_suffix s suffix h = after_strip s suffix (strip_suffix suffix s) refl h
