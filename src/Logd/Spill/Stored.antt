-- ===== src/Logd/Spill/Stored.antt =====
-- cmd/sys-logd/spill.go: what WriteLine does to the messages in the spill files.
use servicectl.Base.{
  ℕ, zero, suc, ◌≤◌, ◌<◌, none, some, List, [], ◌≡◌, ◌≢◌, refl, ◌∙◌, All, length, nat_eq, get,
  get_or, put, delete, get-put, get_or-put, get-delete, arith,
}
use servicectl.Base.Text.{Text}
use servicectl.Logd.Spill.Files.{
  Os, Call, Disk, SpillManager, Handle, absent, opened, shut, Attempt, ◌and_then◌, close_current,
  close_handle, closing, open_if_absent, open_current, stat_current, open_append, stat_opened,
  close_opened, rotate_locked, rotated, rename_below, removing, open_fresh, remove_path,
  rename_path, open_truncate,
}
use servicectl.Logd.Spill.Shift.{shift_disk, rename_below-shift_disk, shift_disk-suc}
use servicectl.Logd.Spill.Lines.{IsMessage, unlines}

-- No call fails.
abbrev pub Sound : Os → Type 0
Sound os = (c : Call) → os.fault c ≡ none

-- The spill files are consistent: they hold these messages, one per line, the current file those at
-- 0; no failed close has left its handle behind; and the size of an open file is the true one.
pub record Stores (r : ℕ) (bytes : ℕ) (ms : ℕ → List Text) (s : SpillManager) : Type 0 where
  pub limit : s.max_bytes ≡ bytes
  pub depth : s.rotations ≡ r
  pub usable : s.file ≢ shut
  pub holds : (i : ℕ) → i ≤ r → get_or s.disk i [] ≡ unlines (ms i)
  pub clean : (i : ℕ) → i ≤ r → All IsMessage (ms i)
  pub sized : s.file ≡ opened → s.file_size ≡ length (get_or s.disk 0 [])

-- Every file goes up by one, over the oldest, and the current one is empty.
unfoldable pub shifted : (ℕ → List Text) → ℕ → List Text
shifted ms zero = []
shifted ms (suc i) = ms i

-- The attempt succeeds, in a state with a property.
unfoldable pub Ended : (SpillManager → Type 0) → Attempt → Type 0
Ended P a = (a.1 ≡ none) × P a.0

pub Ended-and_then :
    (P Q : SpillManager → Type 0) (a : Attempt) (next : SpillManager → Attempt)
    → Ended P a
    → ((t : SpillManager) → P t → Ended Q (next t))
    → Ended Q (a and_then next)
unfolding Ended
Ended-and_then P Q (t, none) next h k = k t h.1
Ended-and_then P Q (t, some e) next h k = cc

-- The same, with the current file open.
unfoldable pub IsOpen : ℕ → ℕ → (ℕ → List Text) → SpillManager → Type 0
IsOpen r bytes ms s = Stores r bytes ms s × (s.file ≡ opened)

-- The same, with no file open.
unfoldable pub Closed : ℕ → ℕ → (ℕ → List Text) → SpillManager → Type 0
Closed r bytes ms s = Stores r bytes ms s × (s.file ≡ absent)

module _ (os : Os) (sound : Sound os) (r bytes : ℕ) where
  pub open_if_absent-IsOpen :
      (ms : ℕ → List Text) (s : SpillManager) (h : Handle)
      → s.file ≡ h
      → Stores r bytes ms s
      → Ended (IsOpen r bytes ms) (open_if_absent os s h)
  unfolding open_if_absent open_current stat_current Ended IsOpen
  open_if_absent-IsOpen ms s opened same st = (refl, (st, same))
  open_if_absent-IsOpen ms s shut same st = absurd (st.usable same)
  open_if_absent-IsOpen ms s absent same st =
      rw (sound open_append, sound stat_opened)
        (
          refl,
          (
            record {
              limit = st.limit;
              depth = st.depth;
              usable = λ e. cc;
              holds = λ i low.
                  ground (arith, st.holds i, get_or-put s.disk 0 i (get_or s.disk 0 []) []);
              clean = st.clean;
              sized = λ e. refl;
            },
            refl,
          ),
        )

  pub close_handle-Closed :
      (ms : ℕ → List Text) (s : SpillManager) (h : Handle)
      → s.file ≡ h
      → Stores r bytes ms s
      → Ended (Closed r bytes ms) (close_handle os s h)
  unfolding close_handle closing Ended Closed
  close_handle-Closed ms s absent same st = (refl, (st, same))
  close_handle-Closed ms s shut same st = absurd (st.usable same)
  close_handle-Closed ms s opened same st = rw (sound close_opened) (
    refl,
    (
      record {
        limit = st.limit;
        depth = st.depth;
        usable = λ e. cc;
        holds = st.holds;
        clean = st.clean;
        sized = λ e. cc;
      },
      refl,
    ),
  )

  -- The files after the steps of a rotation, from those before it.
  Moved : (SpillManager → Disk) → (ℕ → List Text) → SpillManager → Type 0
  Moved f ms u = (t : SpillManager) × Closed r bytes ms t × (u ≡ record t { disk = f t })

  without_oldest : SpillManager → Disk
  without_oldest t = delete t.disk t.rotations

  moved_up : SpillManager → Disk
  unfolding without_oldest
  moved_up t = shift_disk t.rotations (without_oldest t)

  fresh-suc :
      (d : Disk) (j : ℕ)
      → j < r
      → get_or (put (shift_disk r (delete d r)) 0 []) (suc j) [] ≡ get_or d j []
  unfolding get_or
  fresh-suc d j low =
      let e = delete d r in
      let free : get e r ≡ none = ground (arith, get-delete d r r) in
      ground (
        arith,
        get-put (shift_disk r e) 0 (suc j) [],
        shift_disk-suc r e j free low,
        get-delete d r j,
      )

  fresh-holds :
      (ms : ℕ → List Text) (t : SpillManager)
      → Stores r bytes ms t
      → (i : ℕ) → i ≤ r
      → get_or (put (shift_disk t.rotations (delete t.disk t.rotations)) 0 []) i []
        ≡ unlines (shifted ms i)
  unfolding shifted unlines
  fresh-holds ms t st zero low =
      ground (arith, get_or-put (shift_disk t.rotations (delete t.disk t.rotations)) 0 0 [] [])
  fresh-holds ms t st (suc j) low =
      rw st.depth (fresh-suc t.disk j (omega arith)) ∙ st.holds j (omega arith)

  shifted-clean :
      (ms : ℕ → List Text)
      → ((i : ℕ) → i ≤ r → All IsMessage (ms i))
      → (i : ℕ) → i ≤ r
      → All IsMessage (shifted ms i)
  unfolding shifted
  shifted-clean ms clean zero low = tt
  shifted-clean ms clean (suc j) low = clean j (omega arith)

  removing-Moved :
      (ms : ℕ → List Text) (t : SpillManager)
      → Closed r bytes ms t
      → Ended
          (Moved without_oldest ms)
          (removing t.rotations t (os.fault (remove_path t.rotations)))
  unfolding Ended Moved without_oldest removing
  removing-Moved ms t closed = rw (sound (remove_path t.rotations)) (refl, (t, closed, refl))

  rename_below-Moved :
      (ms : ℕ → List Text) (u : SpillManager)
      → Moved without_oldest ms u
      → Ended (Moved moved_up ms) (rename_below os u.rotations u)
  unfolding Ended Moved moved_up without_oldest
  rename_below-Moved ms u (t, closed, same) =
      rw
        (
          same,
          rename_below-shift_disk os t.rotations (record t { disk = delete t.disk t.rotations })
              (λ c. sound (rename_path c)),
        )
        (refl, (t, closed, refl))

  open_fresh-IsOpen :
      (ms : ℕ → List Text) (u : SpillManager)
      → Moved moved_up ms u
      → Ended (IsOpen r bytes (shifted ms)) (open_fresh u (os.fault open_truncate))
  unfolding Ended Moved moved_up without_oldest IsOpen open_fresh shifted Closed
  open_fresh-IsOpen ms u (t, closed, same) =
      rw (same, sound open_truncate)
        (
          refl,
          (
            record {
              limit = closed.0.limit;
              depth = closed.0.depth;
              usable = λ e. cc;
              holds = fresh-holds ms t closed.0;
              clean = shifted-clean ms closed.0.clean;
              sized = λ e. ground (
                arith,
                get_or-put (shift_disk t.rotations (delete t.disk t.rotations)) 0 0 [] [],
              );
            },
            refl,
          ),
        )

  pub rotated-IsOpen :
      (ms : ℕ → List Text) (s : SpillManager)
      → IsOpen r bytes ms s
      → Ended (IsOpen r bytes (shifted ms)) (rotated os s)
  unfolding rotated rotate_locked close_current IsOpen
  rotated-IsOpen ms s is_open =
      Ended-and_then (Moved moved_up ms) (IsOpen r bytes (shifted ms)) _ _
        (Ended-and_then (Moved without_oldest ms) (Moved moved_up ms) _ _
          (Ended-and_then (Closed r bytes ms) (Moved without_oldest ms) _ _
            (close_handle-Closed ms s s.file refl is_open.0) (removing-Moved ms))
          (rename_below-Moved ms))
        (open_fresh-IsOpen ms)
