-- ===== src/Logd/Spill/Kept.antt =====
-- cmd/sys-logd/spill.go: no message is lost by a replay, whatever fails.
use servicectl.Base.{
  ℕ, Bool, true, false, Option, none, some, List, [], ◌∷◌, ◌++◌, ◌≡◌, refl, sym, ap, ◌∙◌, ◌⊎◌, inl,
  inr, subst, nat_eq, ◌==◌, ==_iff, get, get_or, delete, get-delete, contains, contains-append,
  if◌then◌else◌, if-intro, Bool-cases, arith,
}
use servicectl.Base.Text.{Text, text_eq, split_lines, is_empty}
use servicectl.Logd.Spill.Files.{
  Os, Disk, SpillManager, Attempt, open_path, remove_path, close_current, close_handle, Handle,
  absent, opened, shut, closing, close_opened,
}
use servicectl.Logd.Spill.Replay.{
  WriteLine, Delivery, Outcome, replay_lines, replay_file, open_and_scan, scan, replay_paths,
  after_file, after_remove, replay_to, after_close, is_too_long, trim_right_breaks, paths_from,
}
use servicectl.Logd.Spill.Lines.{messages_of, stored}

module _ (m : Text) where
  -- A delivery that keeps what was sent, and that holds these messages if it ended well.
  Delivered : List Text → List Text → Delivery → Type 0
  Delivered sent ms out =
      (contains sent m ≡ true → contains out.0 m ≡ true)
      × (out.1 ≡ none → contains ms m ≡ true → contains out.0 m ≡ true)

  Delivered-line :
      (message : Text) (ms sent : List Text) (b : Bool) (o : Option Text) (skip next : Delivery)
      → Delivered sent ms skip
      → Delivered (sent ++ (message ∷ [])) ms next
      → Delivered sent
          (if b then ms else message ∷ ms)
          (if b then skip else elim o [ none ↦ next | some e ↦ (sent, some e) ])
  unfolding Delivered contains
  Delivered-line message ms sent true o skip next h k = h
  Delivered-line message ms sent false (some e) skip next h k = (λ x. x, λ x y. cc)
  Delivered-line message ms sent false none skip next h k =
      let both = contains-append sent (message ∷ []) m in
      (λ x. k.0 (ground arith), λ x y. ground arith)

  replay_lines-Delivered :
      (write_line : WriteLine) (lines sent : List Text)
      → Delivered sent (messages_of lines) (replay_lines write_line lines sent)
  unfolding Delivered replay_lines messages_of contains
  replay_lines-Delivered write_line [] sent = (λ h. h, λ h k. cc)
  replay_lines-Delivered write_line (line ∷ rest) sent =
      let message = trim_right_breaks line in
      let skip = replay_lines-Delivered write_line rest sent in
      let next = replay_lines-Delivered write_line rest (sent ++ (message ∷ [])) in
      let Good : Delivery → Type 0 =
        Delivered sent
          (if is_empty message then messages_of rest else message ∷ messages_of rest) in
      if-intro Good (is_too_long line) (λ t. (λ h. h, λ h k. cc))
        (λ t.
          Delivered-line message (messages_of rest) sent (is_empty message)
            (write_line sent message) _ _ skip next)

  opened_file :
      (write_line : WriteLine) (sent : List Text) (content : Option Text)
      → Delivered sent
          (messages_of (split_lines (elim content [ none ↦ [] | some c ↦ c ])))
          (scan write_line sent content)
  unfolding scan Delivered
  opened_file write_line sent none = (λ h. h, λ h. cc)
  opened_file write_line sent (some c) = replay_lines-Delivered write_line (split_lines c) sent

  open_and_scan-Delivered :
      (write_line : WriteLine) (e : Disk) (k : ℕ) (sent : List Text) (o : Option Text)
      → Delivered sent (stored e k) (open_and_scan write_line e k sent o)
  unfolding open_and_scan stored get_or Delivered
  open_and_scan-Delivered write_line e k sent (some x) = (λ h. h, λ h. cc)
  open_and_scan-Delivered write_line e k sent none = opened_file write_line sent (get e k)

  replay_file-Delivered :
      (os : Os) (write_line : WriteLine) (e : Disk) (k : ℕ) (sent : List Text)
      → Delivered sent (stored e k) (replay_file os write_line e k sent)
  unfolding replay_file
  replay_file-Delivered os write_line e k sent =
      open_and_scan-Delivered write_line e k sent (os.fault (open_path k))

  -- A message that was sent, or is in the file of an index, is so afterwards.
  Keeps : ℕ → List Text → Disk → Outcome → Type 0
  Keeps j sent e out =
      (contains sent m ≡ true → contains out.1.0 m ≡ true)
      × (contains (stored e j) m ≡ true
          → (contains out.1.0 m ≡ true) ⊎ (contains (stored out.0 j) m ≡ true))

  unchanged :
      (e : Disk) (j : ℕ) (before sent : List Text) (o : Option Text)
      → (contains before m ≡ true → contains sent m ≡ true)
      → Keeps j before e (e, (sent, o))
  unfolding Keeps
  unchanged e j before sent o h = (h, λ k. inr k)

  stored-delete : (e : Disk) (k j : ℕ) → (k == j) ≡ false → stored (delete e k) j ≡ stored e j
  unfolding stored get_or
  stored-delete e k j apart =
      let Read : Option Text → List Text =
        λ o. messages_of (split_lines (elim o [ none ↦ [] | some c ↦ c ])) in
      let same : get (delete e k) j ≡ get e j = ground (arith, get-delete e k j) in ap Read same

  after_remove-Keeps :
      (next : Disk → List Text → Outcome) (e : Disk) (k j : ℕ) (before sent : List Text)
      (o : Option Text)
      → ((f : Disk) (told : List Text) → Keeps j told f (next f told))
      → Delivered before (stored e k) (sent, none)
      → Keeps j before e (after_remove next e k sent o)
  unfolding Keeps after_remove Delivered
  after_remove-Keeps next e k j before sent (some x) more done = (done.0, λ h. inr h)
  after_remove-Keeps next e k j before sent none more done =
      let rest = more (delete e k) sent in
      (
        λ h. rest.0 (done.0 h),
        λ h. elim (Bool-cases (k == j)) [
          | inl same ↦ inl (
              rest.0 (
                done.1 refl
                  (subst (λ i. contains (stored e i) m ≡ true) (sym ((==_iff k j).0 same)) h)))
          | inr apart ↦ rest.1 (ap (λ ms. contains ms m) (stored-delete e k j apart) ∙ h)
        ],
      )

  after_file-Keeps :
      (os : Os) (next : Disk → List Text → Outcome) (e : Disk) (k j : ℕ) (before : List Text)
      (out : Delivery)
      → ((f : Disk) (told : List Text) → Keeps j told f (next f told))
      → Delivered before (stored e k) out
      → Keeps j before e (after_file os next e k out)
  unfolding after_file Delivered
  after_file-Keeps os next e k j before (sent, none) more done =
      after_remove-Keeps next e k j before sent (os.fault (remove_path k)) more done
  after_file-Keeps os next e k j before (sent, some x) more (kept, all) =
      unchanged e j before sent (some x) kept

  replay_paths-Keeps :
      (os : Os) (write_line : WriteLine) (paths : List ℕ) (e : Disk) (sent : List Text) (j : ℕ)
      → Keeps j sent e (replay_paths os write_line paths e sent)
  unfolding replay_paths
  replay_paths-Keeps os write_line [] e sent j = unchanged e j sent sent none (λ h. h)
  replay_paths-Keeps os write_line (k ∷ paths) e sent j =
      after_file-Keeps os (replay_paths os write_line paths) e k j sent
        (replay_file os write_line e k sent)
        (λ f told. replay_paths-Keeps os write_line paths f told j)
        (replay_file-Delivered os write_line e k sent)

  after_close-Keeps :
      (os : Os) (write_line : WriteLine) (a : Attempt) (j : ℕ)
      → contains (stored a.0.disk j) m ≡ true
      → (contains (after_close os write_line a).1.0 m ≡ true)
        ⊎ (contains (stored (after_close os write_line a).0.disk j) m ≡ true)
  unfolding after_close Keeps
  after_close-Keeps os write_line (s, some x) j h = inr h
  after_close-Keeps os write_line (s, none) j h =
      (replay_paths-Keeps os write_line (paths_from os s.disk s.rotations) s.disk [] j).1 h

  closing-disk : (s : SpillManager) (o : Option Text) → (closing s o).0.disk ≡ s.disk
  unfolding closing
  closing-disk s none = refl
  closing-disk s (some x) = refl

  close_handle-disk :
      (os : Os) (s : SpillManager) (h : Handle) → (close_handle os s h).0.disk ≡ s.disk
  unfolding close_handle
  close_handle-disk os s absent = refl
  close_handle-disk os s shut = refl
  close_handle-disk os s opened = closing-disk s (os.fault close_opened)

  -- A message in a spill file is, after ReplayTo, delivered or still in the file, whatever calls
  -- fail and wherever the callback fails.
  pub replay_to-keeps :
      (os : Os) (write_line : WriteLine) (s : SpillManager) (j : ℕ)
      → contains (stored s.disk j) m ≡ true
      → (contains (replay_to os write_line s).1.0 m ≡ true)
        ⊎ (contains (stored (replay_to os write_line s).0.disk j) m ≡ true)
  unfolding replay_to close_current
  replay_to-keeps os write_line s j h =
      after_close-Keeps os write_line (close_handle os s s.file) j
        (ap (λ d. contains (stored d j) m) (close_handle-disk os s s.file) ∙ h)
