-- ===== src/Base/Text.antt =====
-- Go strings as the lists of their bytes, with the functions of package strings that the program
-- calls. Blanks and letter case are those of ASCII.
use Prim.Native.Nat.{ℕ, zero, suc, ◌+◌}
use Prim.Native.Char.{code}
use Prim.Native.String.{String}
use mathlib.Core.Path.{◌≡◌, refl, ap, ◌∙◌}
use mathlib.Core.Logic.{◌↔◌}
use mathlib.Core.Bool.{Bool, true, false, ◌&&◌, ◌||◌}
use mathlib.Core.List.{List, [], ◌∷◌, ◌++◌, reverse, map}
use mathlib.Core.Option
use mathlib.Core.Option.{Option, none, some}
use native.Mathlib.Omega.{arith}
use servicectl.Base.Tests.{Comparable, nat_beq, nat_eq, ltb, leb, if◌then◌else◌}
use servicectl.Base.Lists.{All, length}

abbrev pub Text : Type 0
Text = List ℕ

-- A literal of the source.
abbrev pub text : String → Text
text String.[] = []
text (String.◌∷◌ c s) = code c ∷ text s

unfoldable pub text_beq : Text → Text → Bool
text_beq [] [] = true
text_beq (x ∷ xs) (y ∷ ys) = nat_beq x y && text_beq xs ys
text_beq _ _ = false

pub text_beq_iff : (a b : Text) → (text_beq a b ≡ true) ↔ (a ≡ b)
unfolding text_beq
text_beq_iff (x ∷ a) (y ∷ b) = ground (arith, text_beq_iff a b)
text_beq_iff _ _ = ground arith

instance abbrev pub text_eq : Comparable Text
text_eq = record { same = text_beq; same_iff = text_beq_iff }

-- `a < b` on strings: the order of their bytes.
unfoldable pub text_ltb : Text → Text → Bool
text_ltb [] [] = false
text_ltb [] (y ∷ b) = true
text_ltb (x ∷ a) [] = false
text_ltb (x ∷ a) (y ∷ b) = ltb x y || (nat_beq x y && text_ltb a b)

pub text_ltb_irrefl : (a : Text) → text_ltb a a ≡ false
unfolding text_ltb
text_ltb_irrefl [] = refl
text_ltb_irrefl (x ∷ a) = ground (arith, text_ltb_irrefl a)

pub text_ltb_trans :
    (a b c : Text) → text_ltb a b ≡ true → text_ltb b c ≡ true → text_ltb a c ≡ true
unfolding text_ltb
text_ltb_trans (x ∷ a) (y ∷ b) (z ∷ c) h k = ground (arith, text_ltb_trans a b c)
text_ltb_trans _ _ _ h k = ground arith

pub text_ltb_total : (a b : Text) → text_ltb a b ≡ false → text_ltb b a ≡ false → a ≡ b
unfolding text_ltb
text_ltb_total (x ∷ a) (y ∷ b) h k = ground (arith, text_ltb_total a b)
text_ltb_total _ _ h k = ground arith

-- `strings.ContainsRune` for an ASCII character.
unfoldable pub has_byte : Text → ℕ → Bool
has_byte [] c = false
has_byte (x ∷ s) c = nat_beq x c || has_byte s c

abbrev pub is_empty : Text → Bool
is_empty [] = true
is_empty (_ ∷ _) = false

-- The ASCII characters of `unicode.IsSpace`.
unfoldable pub is_blank : ℕ → Bool
is_blank c = nat_beq c b' ' || (leb 9 c && leb c 13)

unfoldable pub trim_left : Text → Text
unfolding is_blank
trim_left [] = []
trim_left (c ∷ s) = let rest = trim_left s in if is_blank c then rest else c ∷ s

-- `strings.TrimSpace`.
unfoldable pub trim_space : Text → Text
unfolding trim_left
trim_space s = reverse (trim_left (reverse (trim_left s)))

unfoldable pub strip_prefix : Text → Text → Option Text
strip_prefix [] s = some s
strip_prefix (p ∷ ps) [] = none
strip_prefix (p ∷ ps) (c ∷ s) = if nat_beq p c then strip_prefix ps s else none

unfoldable pub strip_suffix : Text → Text → Option Text
unfolding strip_prefix
strip_suffix suffix s = Option.map reverse (strip_prefix (reverse suffix) (reverse s))

-- `strings.HasSuffix(s, suffix)`.
unfoldable pub has_suffix : Text → Text → Bool
unfolding strip_suffix
has_suffix s suffix = elim (strip_suffix suffix s) [ none ↦ false | some _ ↦ true ]

-- `strings.TrimSuffix(s, suffix)`.
unfoldable pub trim_suffix : Text → Text → Text
unfolding strip_suffix
trim_suffix s suffix = elim (strip_suffix suffix s) [ none ↦ s | some rest ↦ rest ]

unfoldable pub has_prefix : Text → Text → Bool
unfolding strip_prefix
has_prefix s prefix = elim (strip_prefix prefix s) [ none ↦ false | some _ ↦ true ]

-- `strings.Contains(s, part)`.
unfoldable pub contains_text : Text → Text → Bool
unfolding has_prefix
contains_text [] part = has_prefix [] part
contains_text (c ∷ s) part = has_prefix (c ∷ s) part || contains_text s part

-- `strings.ToLower` on ASCII.
unfoldable pub to_lower : Text → Text
to_lower = map (λ c. if leb b'A' c && leb c b'Z' then c + 32 else c)

-- `strings.Join(lines, "\n")`.
unfoldable pub join_lines : List Text → Text
join_lines [] = []
join_lines (w ∷ []) = w
join_lines (w ∷ v ∷ rest) = w ++ (b'\n' ∷ join_lines (v ∷ rest))

cons_head : ℕ → List Text → List Text
cons_head c [] = (c ∷ []) ∷ []
cons_head c (w ∷ rest) = (c ∷ w) ∷ rest

-- `strings.Split(s, sep)` for a separator of one byte.
unfoldable pub split_on : ℕ → Text → List Text
unfolding cons_head
split_on sep [] = [] ∷ []
split_on sep (c ∷ s) =
    let rest = split_on sep s in if nat_beq c sep then [] ∷ rest else cons_head c rest

-- `strings.Split(s, "\n")`.
unfoldable pub split_lines : Text → List Text
unfolding cons_head
split_lines [] = [] ∷ []
split_lines (c ∷ s) =
    let rest = split_lines s in if nat_beq c b'\n' then [] ∷ rest else cons_head c rest

split_lines_clean : (w : Text) → has_byte w b'\n' ≡ false → split_lines w ≡ w ∷ []
unfolding split_lines has_byte
split_lines_clean [] h = refl
split_lines_clean (c ∷ w) h = ground (arith, split_lines_clean w)

pub split_lines-append :
    (w s : Text) → has_byte w b'\n' ≡ false → split_lines (w ++ (b'\n' ∷ s)) ≡ w ∷ split_lines s
unfolding split_lines has_byte
split_lines-append [] s h = refl
split_lines-append (c ∷ w) s h = ground (arith, split_lines-append w s)

-- Lines without a line break are read back as they were joined.
pub split_lines-join_lines :
    (w : Text) (ws : List Text)
    → has_byte w b'\n' ≡ false
    → All (λ v. has_byte v b'\n' ≡ false) ws
    → split_lines (join_lines (w ∷ ws)) ≡ w ∷ ws
unfolding join_lines
split_lines-join_lines w [] h hs = split_lines_clean w h
split_lines-join_lines w (v ∷ ws) h hs =
    split_lines-append w (join_lines (v ∷ ws)) h
    ∙ ap (◌∷◌ w) (split_lines-join_lines v ws hs.0 hs.1)

pub text_ltb_asym : (a b : Text) → text_ltb a b ≡ true → text_ltb b a ≡ false
unfolding text_ltb
text_ltb_asym (x ∷ a) (y ∷ b) h = ground (arith, text_ltb_asym a b)
text_ltb_asym _ _ h = ground arith

pub text_not_lt_trans :
    (a b c : Text) → text_ltb b a ≡ false → text_ltb c b ≡ false → text_ltb c a ≡ false
unfolding text_ltb
text_not_lt_trans (x ∷ a) (y ∷ b) (z ∷ c) h k = ground (arith, text_not_lt_trans a b c)
text_not_lt_trans [] [] c h k = k
text_not_lt_trans [] (y ∷ b) [] h k = ground arith
text_not_lt_trans [] (y ∷ b) (z ∷ c) h k = ground arith
text_not_lt_trans _ _ _ h k = ground arith

-- `s[:k]` and `s[k:]`, for k up to the length.
unfoldable pub take : ℕ → Text → Text
take zero s = []
take (suc k) [] = []
take (suc k) (c ∷ s) = c ∷ take k s

unfoldable pub drop : ℕ → Text → Text
drop zero s = s
drop (suc k) [] = []
drop (suc k) (c ∷ s) = drop k s

pub take-append : (s t : Text) → take (length s) (s ++ t) ≡ s
unfolding take
take-append [] t = refl
take-append (c ∷ s) t = ap (◌∷◌ c) (take-append s t)

pub drop-append : (s t : Text) → drop (length s) (s ++ t) ≡ t
unfolding drop
drop-append [] t = refl
drop-append (c ∷ s) t = drop-append s t
