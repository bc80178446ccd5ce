-- ===== src/Logd/Spill/Files.antt =====
-- cmd/sys-logd/spill.go: spillManager, its writes and the rotation of its files.
use servicectl.Base.{
  ℕ, zero, suc, ◌+◌, Option, none, some, [], ◌∷◌, ◌++◌, length, nat_eq, leb, Map, get, get_or, put,
  delete, if◌then◌else◌,
}
use servicectl.Base.Text.{Text, text, take}

-- The calls of package os that can fail, with the index of the file where it varies.
pub data Call : Type 0 where
  make_dir : Call
  change_mode : Call
  open_append : Call
  stat_opened : Call
  close_opened : Call
  remove_path : ℕ → Call
  rename_path : ℕ → Call
  open_truncate : Call
  write_string : Call
  sync_opened : Call
  stat_path : ℕ → Call
  open_path : ℕ → Call

-- What the system does to one run: the calls that fail, other than for a missing file, and the
-- bytes that a failing write still writes.
pub record Os : Type 0 where
  pub fault : Call → Option Text
  pub written : ℕ

-- The open file: none, one, or one whose `Close` has failed, which is no longer usable.
pub data Handle : Type 0 where
  absent : Handle
  opened : Handle
  shut : Handle

abbrev pub Disk : Type 0
Disk = Map ℕ Text

pub record SpillManager : Type 0 where
  pub max_bytes : ℕ
  pub rotations : ℕ
  pub file : Handle
  pub file_size : ℕ
  pub disk : Disk

abbrev pub Attempt : Type 0
Attempt = SpillManager × Option Text

-- `if err := ...; err != nil { return err }` between two steps.
infixl 5 ◌and_then◌
abbrev pub ◌and_then◌ : Attempt → (SpillManager → Attempt) → Attempt
(s, none) and_then next = next s
(s, some e) and_then next = (s, some e)

abbrev already_closed : Text
already_closed = text "file already closed"

unfoldable pub closing : SpillManager → Option Text → Attempt
closing s none = (record s { file = absent; file_size = 0 }, none)
closing s (some e) = (record s { file = shut }, some e)

unfoldable pub close_handle : Os → SpillManager → Handle → Attempt
unfolding closing
close_handle os s absent = (s, none)
close_handle os s opened = closing s (os.fault close_opened)
close_handle os s shut = (s, some already_closed)

unfoldable pub close_current : Os → SpillManager → Attempt
unfolding close_handle
close_current os s = close_handle os s s.file

unfoldable pub removing : ℕ → SpillManager → Option Text → Attempt
removing i s none = (record s { disk = delete s.disk i }, none)
removing i s (some e) = (s, some e)

-- `os.Rename` of a file to the next index; a missing file is no error.
unfoldable pub move_up : Disk → ℕ → Option Text → Disk
move_up d i none = d
move_up d i (some c) = delete (put d (suc i) c) i

unfoldable pub renaming : ℕ → SpillManager → Option Text → Attempt
unfolding move_up
renaming i s none = (record s { disk = move_up s.disk i (get s.disk i) }, none)
renaming i s (some e) = (s, some (text "rotate: " ++ e))

-- The loop over the files below an index, the highest first.
unfoldable pub rename_below : Os → ℕ → SpillManager → Attempt
unfolding renaming
rename_below os zero s = (s, none)
rename_below os (suc i) s = renaming i s (os.fault (rename_path i)) and_then rename_below os i

unfoldable pub rotate_locked : Os → SpillManager → Attempt
unfolding close_current removing rename_below
rotate_locked os s =
    close_current os s
    and_then (λ t. removing t.rotations t (os.fault (remove_path t.rotations)))
    and_then (λ t. rename_below os t.rotations t)

unfoldable pub stat_current : Os → SpillManager → Option Text → Attempt
stat_current os s none = (record s { file = opened; file_size = length (get_or s.disk 0 []) }, none)
stat_current os s (some e) = (s, some e)

unfoldable pub open_current : Os → SpillManager → Option Text → Attempt
unfolding stat_current
open_current os s none =
    stat_current os (record s { disk = put s.disk 0 (get_or s.disk 0 []) }) (os.fault stat_opened)
open_current os s (some e) = (s, some e)

unfoldable pub open_if_absent : Os → SpillManager → Handle → Attempt
unfolding open_current
open_if_absent os s absent = open_current os s (os.fault open_append)
open_if_absent os s _ = (s, none)

unfoldable pub opened_current : Os → SpillManager → Attempt
unfolding open_if_absent
opened_current os s = open_if_absent os s s.file

unfoldable pub open_fresh : SpillManager → Option Text → Attempt
open_fresh s none = (record s { file = opened; file_size = 0; disk = put s.disk 0 [] }, none)
open_fresh s (some e) = (s, some e)

unfoldable pub rotated : Os → SpillManager → Attempt
unfolding rotate_locked open_fresh
rotated os s = rotate_locked os s and_then (λ t. open_fresh t (os.fault open_truncate))

unfoldable pub ensure_current_locked : Os → ℕ → SpillManager → Attempt
unfolding opened_current rotated
ensure_current_locked os next_write s =
    opened_current os s
    and_then (λ t. if leb (t.file_size + next_write) t.max_bytes then (t, none) else rotated os t)

-- The bytes that a write puts at the end of the current file.
unfoldable pub append_bytes : Text → SpillManager → SpillManager
append_bytes bytes s = record s {
  file_size = s.file_size + length bytes;
  disk = put s.disk 0 (get_or s.disk 0 [] ++ bytes);
}

unfoldable pub writing : Os → Text → SpillManager → Option Text → Attempt
unfolding append_bytes take
writing os line s none = (append_bytes line s, none)
writing os line s (some e) = (append_bytes (take os.written line) s, some e)

unfoldable pub write_handle : Os → Text → SpillManager → Handle → Attempt
unfolding writing
write_handle os line s opened = writing os line s (os.fault write_string)
write_handle os line s _ = (s, some already_closed)

unfoldable pub write_string_out : Os → Text → SpillManager → Attempt
unfolding write_handle
write_string_out os line s = write_handle os line s s.file

unfoldable pub write_line : Os → Text → SpillManager → Attempt
unfolding ensure_current_locked write_string_out
write_line os message s =
    let line = message ++ (b'\n' ∷ []) in
    (s, os.fault make_dir)
    and_then (λ t. (t, os.fault change_mode))
    and_then ensure_current_locked os (length line)
    and_then write_string_out os line
    and_then (λ t. (t, os.fault sync_opened))
