-- ===== src/Logd/Spill/Lines.antt =====
-- cmd/sys-logd/spill.go: the lines of a spill file and the messages they hold.
use servicectl.Base.{
  ℕ, zero, suc, false, List, [], ◌∷◌, ◌++◌, ◌≡◌, refl, sym, ap, ◌∙◌, All, append_assoc, get_or,
  nat_eq, if◌then◌else◌,
}
use servicectl.Base.Text.{Text, has_byte, is_empty, split_lines, split_lines-append}
use servicectl.Logd.Spill.Files.{Disk}
use servicectl.Logd.Spill.Replay.{trim_right_breaks, is_too_long}

-- A message as readInput routes it: one line with something in it, without the breaks that end it.
-- It may have any length.
pub record IsMessage (m : Text) : Type 0 where
  pub one_line : has_byte m b'\n' ≡ false
  pub trimmed : trim_right_breaks m ≡ m
  pub filled : is_empty m ≡ false

-- Shorter than the line of a megabyte at which the scanner of a replay fails.
abbrev pub IsShort : Text → Type 0
IsShort m = is_too_long m ≡ false

-- Messages written one line each.
unfoldable pub unlines : List Text → Text
unlines [] = []
unlines (m ∷ ms) = m ++ (b'\n' ∷ unlines ms)

-- The messages of lines that a replay reads.
unfoldable pub messages_of : List Text → List Text
messages_of [] = []
messages_of (line ∷ rest) =
    let more = messages_of rest in
    let message = trim_right_breaks line in if is_empty message then more else message ∷ more

-- The messages in the file of an index.
unfoldable pub stored : Disk → ℕ → List Text
unfolding messages_of
stored d i = messages_of (split_lines (get_or d i []))

-- The messages in the files of an index and below, in the order of a replay.
unfoldable pub backlog : Disk → ℕ → List Text
unfolding stored
backlog d zero = stored d 0
backlog d (suc i) = stored d (suc i) ++ backlog d i

pub unlines-snoc :
    (ms : List Text) (m : Text) → unlines (ms ++ (m ∷ [])) ≡ unlines ms ++ (m ++ (b'\n' ∷ []))
unfolding unlines
unlines-snoc [] m = refl
unlines-snoc (w ∷ ms) m =
    ap (λ t. w ++ (b'\n' ∷ t)) (unlines-snoc ms m)
    ∙ sym (append_assoc w (b'\n' ∷ unlines ms) (m ++ (b'\n' ∷ [])))

pub split_lines-unlines :
    (ms : List Text) → All IsMessage ms → split_lines (unlines ms) ≡ ms ++ ([] ∷ [])
unfolding unlines split_lines
split_lines-unlines [] clean = refl
split_lines-unlines (m ∷ ms) clean =
    split_lines-append m (unlines ms) clean.0.one_line ∙ ap (◌∷◌ m) (split_lines-unlines ms clean.1)

messages_of-message :
    (m : Text) (rest : List Text) → IsMessage m → messages_of (m ∷ rest) ≡ m ∷ messages_of rest
unfolding messages_of
messages_of-message m rest good = rw (good.trimmed, good.filled)

messages_of-clean : (ms : List Text) → All IsMessage ms → messages_of (ms ++ ([] ∷ [])) ≡ ms
unfolding messages_of trim_right_breaks
messages_of-clean [] clean = refl
messages_of-clean (m ∷ ms) clean =
    messages_of-message m (ms ++ ([] ∷ [])) clean.0 ∙ ap (◌∷◌ m) (messages_of-clean ms clean.1)

-- Messages that were written one line each are read back.
pub messages_of-unlines :
    (ms : List Text) → All IsMessage ms → messages_of (split_lines (unlines ms)) ≡ ms
messages_of-unlines ms clean =
    ap messages_of (split_lines-unlines ms clean) ∙ messages_of-clean ms clean
