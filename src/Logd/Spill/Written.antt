-- ===== src/Logd/Spill/Written.antt =====
-- cmd/sys-logd/spill.go: what WriteLine does to the messages in the spill files.
use servicectl.Base.{
  ℕ, zero, suc, ◌+◌, ◌≤◌, Bool, true, false, none, List, [], ◌∷◌, ◌++◌, ◌≡◌, refl, sym, ap, ◌∙◌,
  subst, All, length, length-append, nat_eq, leb, get_or, get_or-put, if◌then◌else◌, arith,
}
use servicectl.Base.Text.{Text}
use servicectl.Logd.Spill.Files.{
  Os, SpillManager, make_dir, change_mode, write_string, sync_opened, rotated, opened_current,
  ensure_current_locked, write_string_out, write_handle, writing, write_line, append_bytes,
}
use servicectl.Logd.Spill.Lines.{IsMessage, unlines, unlines-snoc}
use servicectl.Logd.Spill.Stored.{
  Sound, Stores, shifted, Ended, Ended-and_then, IsOpen, rotated-IsOpen, open_if_absent-IsOpen,
}

-- One more message in the current file.
unfoldable pub with_message : Text → (ℕ → List Text) → ℕ → List Text
with_message m ms zero = ms 0 ++ (m ∷ [])
with_message m ms (suc i) = ms (suc i)

-- The messages after WriteLine: the oldest file is given up where the line does not fit.
unfoldable pub after_message : ℕ → Text → (ℕ → List Text) → ℕ → List Text
unfolding with_message
after_message bytes m ms =
    let room = length (unlines (ms 0)) + length (m ++ (b'\n' ∷ [])) in
    with_message m (if leb room bytes then ms else shifted ms)

All-snoc :
    (ms : List Text) (m : Text) → All IsMessage ms → IsMessage m → All IsMessage (ms ++ (m ∷ []))
All-snoc [] m clean good = (good, tt)
All-snoc (w ∷ ms) m clean good = (clean.0, All-snoc ms m clean.1 good)

module _ (os : Os) (sound : Sound os) (r bytes : ℕ) where
  with_message-clean :
      (ms : ℕ → List Text) (m : Text)
      → IsMessage m
      → ((i : ℕ) → i ≤ r → All IsMessage (ms i))
      → (i : ℕ) → i ≤ r
      → All IsMessage (with_message m ms i)
  unfolding with_message
  with_message-clean ms m good clean zero low = All-snoc (ms 0) m (clean 0 low) good
  with_message-clean ms m good clean (suc i) low = clean (suc i) low

  append_bytes-holds :
      (ms : ℕ → List Text) (m : Text) (s : SpillManager)
      → Stores r bytes ms s
      → (i : ℕ) → i ≤ r
      → get_or (append_bytes (m ++ (b'\n' ∷ [])) s).disk i [] ≡ unlines (with_message m ms i)
  unfolding append_bytes with_message
  append_bytes-holds ms m s st zero low =
      (ground (arith, get_or-put s.disk 0 0 (get_or s.disk 0 [] ++ (m ++ (b'\n' ∷ []))) []))
      ∙ ap (λ c. c ++ (m ++ (b'\n' ∷ []))) (st.holds 0 low)
      ∙ sym (unlines-snoc (ms 0) m)
  append_bytes-holds ms m s st (suc i) low =
      (ground (arith, get_or-put s.disk 0 (suc i) (get_or s.disk 0 [] ++ (m ++ (b'\n' ∷ []))) []))
      ∙ st.holds (suc i) low

  write_string_out-Stores :
      (ms : ℕ → List Text) (m : Text) (s : SpillManager)
      → IsMessage m
      → IsOpen r bytes ms s
      → Ended (Stores r bytes (with_message m ms)) (write_string_out os (m ++ (b'\n' ∷ [])) s)
  unfolding write_string_out write_handle writing Ended IsOpen append_bytes
  write_string_out-Stores ms m s good (st, is_open) =
      rw (is_open, sound write_string)
        (
          refl,
          record {
            limit = st.limit;
            depth = st.depth;
            usable = λ e. cc;
            holds = append_bytes-holds ms m s st;
            clean = with_message-clean ms m good st.clean;
            sized = λ e.
                ap (λ n. n + length (m ++ (b'\n' ∷ []))) (st.sized is_open)
                ∙ sym (length-append (get_or s.disk 0 []) (m ++ (b'\n' ∷ [])))
                ∙ ap length (
                    sym (
                      ground (
                        arith,
                        get_or-put s.disk 0 0 (get_or s.disk 0 [] ++ (m ++ (b'\n' ∷ []))) [],
                      )));
          },
        )

  choose :
      (b : Bool) (ms : ℕ → List Text) (t : SpillManager)
      → IsOpen r bytes ms t
      → Ended
          (IsOpen r bytes (if b then ms else shifted ms))
          (if b then (t, none) else rotated os t)
  unfolding Ended
  choose true ms t is_open = (refl, is_open)
  choose false ms t is_open = rotated-IsOpen os sound r bytes ms t is_open

  ap2_leb : {a b c d : ℕ} → a ≡ b → c ≡ d → leb a c ≡ leb b d
  ap2_leb h k = cc

  fitted :
      (ms : ℕ → List Text) (size : ℕ) (t : SpillManager)
      → IsOpen r bytes ms t
      → Ended
          (IsOpen r bytes (if leb (length (unlines (ms 0)) + size) bytes then ms else shifted ms))
          (if leb (t.file_size + size) t.max_bytes then (t, none) else rotated os t)
  unfolding IsOpen
  fitted ms size t (st, is_open) =
      let room = length (unlines (ms 0)) + size in
      let same : leb room bytes ≡ leb (t.file_size + size) t.max_bytes = sym (
        ap2_leb (ap (λ n. n + size) (st.sized is_open ∙ ap length (st.holds 0 (omega arith))))
          st.limit) in
      subst
        (λ b.
          Ended (IsOpen r bytes (if leb room bytes then ms else shifted ms))
            (if b then (t, none) else rotated os t))
        same (choose (leb room bytes) ms t (st, is_open))

  -- The choice of the file for a line.
  ensure_current_locked-IsOpen :
      (ms : ℕ → List Text) (size : ℕ) (s : SpillManager)
      → Stores r bytes ms s
      → Ended
          (IsOpen r bytes (if leb (length (unlines (ms 0)) + size) bytes then ms else shifted ms))
          (ensure_current_locked os size s)
  unfolding ensure_current_locked opened_current
  ensure_current_locked-IsOpen ms size s st =
      Ended-and_then (IsOpen r bytes ms) _ _ _
        (open_if_absent-IsOpen os sound r bytes ms s s.file refl st) (fitted ms size)

-- Where no call fails and the spill files are consistent, WriteLine of a message of one line, which is
-- not empty, does not end in a break and may have any length, succeeds, keeps them consistent, and puts
-- the message at the end of the current file, after a rotation where the line would make that file
-- longer than its limit: then every file goes up by one, the oldest is given up, and the message is
-- alone in the current file.
pub write_line-Stores :
    (os : Os) (r bytes : ℕ) (ms : ℕ → List Text) (m : Text) (s : SpillManager)
    → Sound os
    → IsMessage m
    → Stores r bytes ms s
    → ((write_line os m s).1 ≡ none)
      × Stores r bytes (after_message bytes m ms) (write_line os m s).0
unfolding write_line Ended after_message
write_line-Stores os r bytes ms m s sound good st =
    let line = m ++ (b'\n' ∷ []) in
    let Before : SpillManager → Type 0 = Stores r bytes ms in
    let After : SpillManager → Type 0 = Stores r bytes (after_message bytes m ms) in
    let made = (if leb (length (unlines (ms 0)) + length line) bytes then ms else shifted ms) in
    Ended-and_then After After _ _
      (Ended-and_then (IsOpen r bytes made) After _ _
        (Ended-and_then Before (IsOpen r bytes made) _ _
          (Ended-and_then Before Before (s, os.fault make_dir) (λ t. (t, os.fault change_mode))
            (sound make_dir, st) (λ t h. (sound change_mode, h)))
          (ensure_current_locked-IsOpen os sound r bytes ms (length line)))
        (λ t. write_string_out-Stores os sound r bytes made m t good))
      (λ t h. (sound sync_opened, h))
