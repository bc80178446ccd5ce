-- ===== src/Logd/SpillTests.antt =====
-- Runs of the spill files of cmd/sys-logd, and the theorems applied to them.
use mathlib.Core.List.{reverse, reverse-append, reverse-reverse}
use servicectl.Base.{
  ℕ, ◌≤◌, ◌≡◌, refl, true, false, none, some, Option, List, [], ◌∷◌, All, length, zero, suc,
  if◌then◌else◌, ◌==◌, ◌++◌, ◌∙◌, ◌+◌, ◌^◌, ap, sym, length-append, delete, get, get_or, nat_eq,
  contains, ◌⊎◌, arith,
}
use servicectl.Base.Text.{Text, text, is_empty, text_eq, text_beq, split_lines, has_byte}
use servicectl.Logd.Spill.Files.{
  Os, SpillManager, close_current, absent, opened, write_line, Call, remove_path,
}
use servicectl.Logd.Spill.Replay.{WriteLine, replay_to, trim_right_breaks, is_too_long}
use servicectl.Logd.Spill.Lines.{IsMessage, IsShort, unlines, stored}
use servicectl.Logd.Spill.Stored.{Stores}
use servicectl.Logd.Spill.Written.{after_message, write_line-Stores}
use servicectl.Logd.Spill.Replayed.{in_order, replay_to-in_order}
use servicectl.Logd.Spill.RoundTrip.{write_all, replay_to-write_all}
use servicectl.Logd.Spill.Jammed.{replays, token_too_long, replay_to-jammed}
use servicectl.Logd.Spill.Kept.{replay_to-keeps}

-- A system where nothing fails, and one where the file at an index cannot be removed.
abbrev sound_os : Os
sound_os = record { fault = λ _. none; written = 0 }

refused : ℕ → Call → Option Text
refused n (remove_path i) = if i == n then some (text "busy") else none
refused n _ = none

abbrev failing_os : Os
failing_os = record { fault = refused 1; written = 0 }

abbrev taking : WriteLine
taking = λ _ _. none

-- Room for two short lines in a file, and for two files beside the current one.
abbrev fresh : SpillManager
fresh = record { max_bytes = 10; rotations = 2; file = absent; file_size = 0; disk = [] }

fresh-Stores : Stores 2 10 (λ _. []) fresh
unfolding get_or get unlines
fresh-Stores = record {
  limit = refl;
  depth = refl;
  usable = λ e. cc;
  holds = λ i low. refl;
  clean = λ i low. tt;
  sized = λ e. cc;
}

one-IsMessage : IsMessage (text "one")
unfolding has_byte trim_right_breaks
one-IsMessage = record { one_line = refl; trimmed = refl; filled = refl }

two-IsMessage : IsMessage (text "two")
unfolding has_byte trim_right_breaks
two-IsMessage = record { one_line = refl; trimmed = refl; filled = refl }

one-IsShort : IsShort (text "one")
unfolding is_too_long
one-IsShort = refl

two-IsShort : IsShort (text "two")
unfolding is_too_long
two-IsShort = refl

write_line-Stores_example :
    ((write_line sound_os (text "one") fresh).1 ≡ none)
    × Stores 2 10
        (after_message 10 (text "one") (λ _. []))
        (write_line sound_os (text "one") fresh).0
write_line-Stores_example =
    write_line-Stores sound_os 2 10 (λ _. []) (text "one") fresh (λ _. refl) one-IsMessage
      fresh-Stores

-- A file with a line, behind an older one.
abbrev two_files : SpillManager
two_files = record {
  max_bytes = 10;
  rotations = 2;
  file = opened;
  file_size = 4;
  disk = (0, text "two\n") ∷ (1, text "one\n") ∷ [];
}

abbrev two_contents : ℕ → List Text
two_contents zero = text "two" ∷ []
two_contents (suc zero) = text "one" ∷ []
two_contents _ = []

replayed : (replay_to sound_os taking two_files).1 ≡ (text "one" ∷ text "two" ∷ [], none)
unfolding replay_to close_current get split_lines delete
replayed = refl

two_files-holds : (i : ℕ) → i ≤ 2 → get_or two_files.disk i [] ≡ unlines (two_contents i)
unfolding get_or get unlines
two_files-holds zero low = refl
two_files-holds (suc zero) low = refl
two_files-holds (suc (suc i)) low = ground arith

two_contents-clean : (i : ℕ) → i ≤ 2 → All IsMessage (two_contents i)
two_contents-clean zero low = (two-IsMessage, tt)
two_contents-clean (suc zero) low = (one-IsMessage, tt)
two_contents-clean (suc (suc i)) low = tt

two_contents-IsShort : (i : ℕ) → i ≤ 2 → All IsShort (two_contents i)
two_contents-IsShort zero low = (two-IsShort, tt)
two_contents-IsShort (suc zero) low = (one-IsShort, tt)
two_contents-IsShort (suc (suc i)) low = tt

two_files-Stores : Stores 2 10 two_contents two_files
unfolding get_or get unlines
two_files-Stores = record {
  limit = refl;
  depth = refl;
  usable = λ e. cc;
  holds = two_files-holds;
  clean = two_contents-clean;
  sized = λ e. refl;
}

replay_to-in_order_example :
    ((replay_to sound_os taking two_files).1 ≡ (in_order 2 two_contents, none))
    × Stores 2 10 (λ _. []) (replay_to sound_os taking two_files).0
replay_to-in_order_example =
    replay_to-in_order sound_os (λ _. refl) taking (λ _ _. refl) 2 10 two_contents two_files
      two_files-Stores two_contents-IsShort

fitting : length (unlines (text "one" ∷ text "two" ∷ [])) ≤ 10
unfolding unlines
fitting = omega arith

replay_to-write_all_example :
    ((write_all sound_os (text "one" ∷ text "two" ∷ []) fresh).1 ≡ none)
    × ((replay_to sound_os taking (write_all sound_os (text "one" ∷ text "two" ∷ []) fresh).0).1
        ≡ (text "one" ∷ text "two" ∷ [], none))
replay_to-write_all_example =
    replay_to-write_all sound_os taking 2 10 (text "one" ∷ text "two" ∷ []) fresh (λ _. refl)
      (λ _ _. refl) (one-IsMessage, (two-IsMessage, tt)) (one-IsShort, (two-IsShort, tt)) fitting
      fresh-Stores

two-IsStored : contains (stored two_files.disk 0) (text "two") ≡ true
unfolding contains stored get_or get split_lines trim_right_breaks text_beq
two-IsStored = refl

replay_to-keeps_example :
    (contains (replay_to failing_os taking two_files).1.0 (text "two") ≡ true)
    ⊎ (contains (stored (replay_to failing_os taking two_files).0.disk 0) (text "two") ≡ true)
replay_to-keeps_example = replay_to-keeps (text "two") failing_os taking two_files 0 two-IsStored

-- A line of a length.
letters_x : ℕ → Text
letters_x zero = []
letters_x (suc n) = b'x' ∷ letters_x n

line_of : ℕ → Text
line_of n = letters_x n ++ (b'x' ∷ [])

letters_x-length : (n : ℕ) → length (letters_x n) ≡ n
unfolding letters_x
letters_x-length zero = refl
letters_x-length (suc n) = ap suc (letters_x-length n)

line_of-length : (n : ℕ) → length (line_of n) ≡ n + 1
unfolding line_of
line_of-length n = length-append (letters_x n) (b'x' ∷ []) ∙ ap (λ k. k + 1) (letters_x-length n)

has_byte-line_of : (n : ℕ) → has_byte (line_of n) b'\n' ≡ false
unfolding line_of letters_x has_byte
has_byte-line_of zero = refl
has_byte-line_of (suc n) = has_byte-line_of n

trim_right_breaks-line_of : (n : ℕ) → trim_right_breaks (line_of n) ≡ line_of n
unfolding line_of trim_right_breaks
trim_right_breaks-line_of n =
    rw (reverse-append (letters_x n) (b'x' ∷ [])) refl
    ∙ ap reverse (sym (reverse-append (letters_x n) (b'x' ∷ [])))
    ∙ reverse-reverse (letters_x n ++ (b'x' ∷ []))

is_empty-line_of : (n : ℕ) → is_empty (line_of n) ≡ false
unfolding line_of letters_x
is_empty-line_of zero = refl
is_empty-line_of (suc n) = refl

line_of-IsMessage : (n : ℕ) → IsMessage (line_of n)
line_of-IsMessage n = record {
  one_line = has_byte-line_of n;
  trimmed = trim_right_breaks-line_of n;
  filled = is_empty-line_of n;
}

line_of-too_long : (n : ℕ) → 2 ^ 20 ≤ n + 1 → is_too_long (line_of n) ≡ true
unfolding is_too_long
line_of-too_long n h = ground (arith, line_of-length n, h)

-- A current file with a line.
abbrev one_line_of : ℕ → SpillManager
one_line_of n = record {
  max_bytes = 2 ^ 24;
  rotations = 0;
  file = absent;
  file_size = 0;
  disk = (0, unlines (line_of n ∷ [])) ∷ [];
}

one_line_of-holds : (n i : ℕ) → i ≤ 0 → get_or (one_line_of n).disk i [] ≡ unlines (line_of n ∷ [])
unfolding get_or get
one_line_of-holds n zero low = refl
one_line_of-holds n (suc i) low = ground arith

one_line_of-Stores : (n : ℕ) → Stores 0 (2 ^ 24) (λ _. line_of n ∷ []) (one_line_of n)
one_line_of-Stores n = record {
  limit = refl;
  depth = refl;
  usable = λ e. cc;
  holds = one_line_of-holds n;
  clean = λ i low. (line_of-IsMessage n, tt);
  sized = λ e. cc;
}

replay_to-jammed_example :
    ((replay_to sound_os taking (replays sound_os taking 3 (one_line_of (2 ^ 20)))).1
      ≡ ([], token_too_long))
    × Stores 0
        (2 ^ 24)
        (λ _. line_of (2 ^ 20) ∷ [])
        (replays sound_os taking 3 (one_line_of (2 ^ 20)))
replay_to-jammed_example =
    replay_to-jammed sound_os (λ _. refl) taking (λ _ _. refl) 0 (2 ^ 24) 0
      (λ _. line_of (2 ^ 20) ∷ []) [] (line_of (2 ^ 20)) [] (one_line_of (2 ^ 20)) 3
      (one_line_of-Stores (2 ^ 20)) (ground arith) refl tt (line_of-too_long (2 ^ 20) (omega arith))
      (λ i over low. ground arith)
