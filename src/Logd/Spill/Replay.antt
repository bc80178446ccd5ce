-- ===== src/Logd/Spill/Replay.antt =====
-- cmd/sys-logd/spill.go: what the spill files hold is delivered, and the files are removed.
use mathlib.Core.List.{reverse}
use servicectl.Base.{
  ℕ, zero, suc, ◌^◌, Bool, true, false, ◌&&◌, ◌||◌, not, Option, none, some, List, [], ◌∷◌, ◌++◌,
  length, nat_beq, nat_eq, leb, ltb, get, delete, if◌then◌else◌,
}
use servicectl.Base.Text.{Text, text, is_empty, split_lines}
use servicectl.Logd.Spill.Files.{
  Os, stat_path, open_path, remove_path, Disk, SpillManager, Handle, absent, Attempt, close_current,
}

-- The callback, which may fail according to the messages that it took before.
abbrev pub WriteLine : Type 0
WriteLine = List Text → Text → Option Text

-- The messages the callback took, the first first, and why the replay ended early.
abbrev pub Delivery : Type 0
Delivery = List Text × Option Text

drop_breaks : Text → Text
drop_breaks [] = []
drop_breaks (c ∷ s) =
    let rest = drop_breaks s in if nat_beq c b'\r' || nat_beq c b'\n' then rest else c ∷ s

-- `strings.TrimRight(line, "\r\n")`.
unfoldable pub trim_right_breaks : Text → Text
unfolding drop_breaks
trim_right_breaks s = reverse (drop_breaks (reverse s))

-- The scanner's limit: a line with its break has to fit into a buffer of a megabyte.
unfoldable pub is_too_long : Text → Bool
is_too_long line = leb (2 ^ 20) (length line)

unfoldable pub replay_lines : WriteLine → List Text → List Text → Delivery
unfolding trim_right_breaks is_too_long
replay_lines write_line [] sent = (sent, none)
replay_lines write_line (line ∷ rest) sent =
    let message = trim_right_breaks line in
    let skip = replay_lines write_line rest sent in
    let next = replay_lines write_line rest (sent ++ (message ∷ [])) in
    if is_too_long line
    then (sent, some (text "token too long"))
    else if is_empty message
    then skip
    else elim (write_line sent message) [ none ↦ next | some e ↦ (sent, some e) ]

unfoldable pub scan : WriteLine → List Text → Option Text → Delivery
unfolding replay_lines
scan write_line sent none = (sent, some (text "no such file"))
scan write_line sent (some content) = replay_lines write_line (split_lines content) sent

unfoldable pub open_and_scan : WriteLine → Disk → ℕ → List Text → Option Text → Delivery
unfolding scan
open_and_scan write_line d i sent (some e) = (sent, some e)
open_and_scan write_line d i sent none = scan write_line sent (get d i)

unfoldable pub replay_file : Os → WriteLine → Disk → ℕ → List Text → Delivery
unfolding open_and_scan
replay_file os write_line d i sent = open_and_scan write_line d i sent (os.fault (open_path i))

unfoldable pub has_content : Disk → ℕ → Bool
has_content d i = elim (get d i) [ none ↦ false | some content ↦ not (is_empty content) ]

-- Whether `os.Stat` reports a file with content.
unfoldable pub is_listed : Os → Disk → ℕ → Bool
unfolding has_content
is_listed os d i = elim (os.fault (stat_path i)) [ none ↦ has_content d i | some e ↦ false ]

-- The files with content from an index down to the current one: the oldest first.
unfoldable pub paths_from : Os → Disk → ℕ → List ℕ
unfolding is_listed
paths_from os d zero = if is_listed os d 0 then 0 ∷ [] else []
paths_from os d (suc i) =
    let rest = paths_from os d i in if is_listed os d (suc i) then suc i ∷ rest else rest

-- The disk after a replay, with the messages delivered and why it ended early.
abbrev pub Outcome : Type 0
Outcome = Disk × Delivery

unfoldable pub after_remove :
    (Disk → List Text → Outcome) → Disk → ℕ → List Text → Option Text → Outcome
after_remove next d i sent none = next (delete d i) sent
after_remove next d i sent (some e) = (d, (sent, some e))

unfoldable pub after_file : Os → (Disk → List Text → Outcome) → Disk → ℕ → Delivery → Outcome
unfolding after_remove
after_file os next d i (sent, none) = after_remove next d i sent (os.fault (remove_path i))
after_file os next d i (sent, some e) = (d, (sent, some e))

unfoldable pub replay_paths : Os → WriteLine → List ℕ → Disk → List Text → Outcome
unfolding after_file replay_file
replay_paths os write_line [] d sent = (d, (sent, none))
replay_paths os write_line (i ∷ paths) d sent =
    after_file os (replay_paths os write_line paths) d i (replay_file os write_line d i sent)

unfoldable pub after_close : Os → WriteLine → Attempt → SpillManager × Delivery
unfolding replay_paths paths_from
after_close os write_line (s, some e) = (s, ([], some e))
after_close os write_line (s, none) =
    let out = replay_paths os write_line (paths_from os s.disk s.rotations) s.disk [] in
    (record s { disk = out.0 }, out.1)

unfoldable pub replay_to : Os → WriteLine → SpillManager → SpillManager × Delivery
unfolding after_close
replay_to os write_line s = after_close os write_line (close_current os s)

any_listed : Os → Disk → ℕ → Bool
any_listed os d zero = is_listed os d 0
any_listed os d (suc i) = any_listed os d i || is_listed os d (suc i)

is_open : Handle → Bool
is_open absent = false
is_open _ = true

unfoldable pub has_spill : Os → SpillManager → Bool
unfolding any_listed is_open
has_spill os s = (is_open s.file && ltb 0 s.file_size) || any_listed os s.disk s.rotations
