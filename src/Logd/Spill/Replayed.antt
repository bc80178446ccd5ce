-- ===== src/Logd/Spill/Replayed.antt =====
-- cmd/sys-logd/spill.go: what ReplayTo delivers of the messages in the spill files.
use servicectl.Base.{
  ℕ, zero, suc, ◌≤◌, ◌<◌, false, none, some, List, [], ◌++◌, append_assoc, ◌≡◌, refl, sym, ap, ◌∙◌,
  subst, All, nat_eq, ◌==◌, get, get_or, arith, inl, inr, Bool-cases, leb,
}
use servicectl.Base.Text.{Text}
use servicectl.Logd.Spill.Files.{Os, Disk, SpillManager, Attempt, close_current}
use servicectl.Logd.Spill.Replay.{
  WriteLine, Outcome, paths_from, replay_paths, replay_to, after_close,
}
use servicectl.Logd.Spill.Lines.{IsMessage, IsShort, unlines}
use servicectl.Logd.Spill.Stored.{Sound, Stores, Closed, close_handle-Closed, Ended}
use servicectl.Logd.Spill.Steps.{Accepts, Step, Step-listed}

-- The messages of the files of an index and below, in the order of a replay.
unfoldable pub in_order : ℕ → (ℕ → List Text) → List Text
in_order zero ms = ms 0
in_order (suc i) ms = ms (suc i) ++ in_order i ms

module _ (os : Os) (sound : Sound os) (write_line : WriteLine) (takes : Accepts write_line) where
  -- The files of an index and below are delivered in order and are gone afterwards.
  Emptied : ℕ → Disk → List Text → Outcome → Type 0
  Emptied k e sent out =
      (out.1 ≡ (sent, none))
      × ((i : ℕ) → i ≤ k → get_or out.0 i [] ≡ [])
      × ((j : ℕ) → k < j → get out.0 j ≡ get e j)

  same_text : (e f : Disk) (i : ℕ) → get e i ≡ get f i → get_or e i [] ≡ get_or f i []
  unfolding get_or
  same_text e f i h = rw (get_or, h) refl

  at_end :
      (f e : Disk) (sent : List Text)
      → get_or f 0 [] ≡ []
      → ((j : ℕ) → (j == 0) ≡ false → get f j ≡ get e j)
      → Emptied 0 e sent (replay_paths os write_line [] f sent)
  unfolding Emptied replay_paths
  at_end f e sent gone kept = (
    refl,
    λ i low. subst (λ i. get_or f i [] ≡ []) (omega arith) gone,
    λ j above. kept j (ground arith),
  )

  at_most :
      (k : ℕ) (f out : Disk)
      → get_or f (suc k) [] ≡ []
      → ((i : ℕ) → i ≤ k → get_or out i [] ≡ [])
      → ((j : ℕ) → k < j → get out j ≡ get f j)
      → (i : ℕ) → i ≤ suc k
      → get_or out i [] ≡ []
  at_most k f out gone empty above i low = elim (Bool-cases (leb i k)) [
    | inl t ↦ empty i (ground arith)
    | inr t ↦
        subst (λ j. get_or out j [] ≡ []) (ground arith)
          (same_text out f (suc k) (above (suc k) (omega arith)) ∙ gone)
  ]

  one_more :
      (k : ℕ) (f e : Disk) (sent all : List Text) (out : Outcome)
      → sent ≡ all
      → get_or f (suc k) [] ≡ []
      → ((j : ℕ) → (j == suc k) ≡ false → get f j ≡ get e j)
      → Emptied k f sent out
      → Emptied (suc k) e all out
  unfolding Emptied
  one_more k f e sent all out same gone kept (told, empty, above) = (
    told ∙ ap (λ l. (l, none)) same,
    λ i low. at_most k f out.0 gone empty above i low,
    λ j high. above j (omega arith) ∙ kept j (ground arith),
  )

  -- After the last file.
  Emptied-zero :
      (ms : List Text) (e : Disk) (sent : List Text) (paths : List ℕ)
      → Step os sound write_line takes 0 ms [] e sent paths
      → Emptied 0 e (sent ++ ms) (replay_paths os write_line paths e sent)
  unfolding Step
  Emptied-zero ms e sent paths (f, run, gone, kept) =
      subst (Emptied 0 e (sent ++ ms)) (sym run) (at_end f e (sent ++ ms) gone kept)

  -- Before the files below.
  Emptied-suc :
      (k : ℕ) (ms more : List Text) (rest : List ℕ) (f e : Disk) (sent : List Text) (out : Outcome)
      → out ≡ replay_paths os write_line rest f (sent ++ ms)
      → get_or f (suc k) [] ≡ []
      → ((j : ℕ) → (j == suc k) ≡ false → get f j ≡ get e j)
      → Emptied k f ((sent ++ ms) ++ more) (replay_paths os write_line rest f (sent ++ ms))
      → Emptied (suc k) e (sent ++ (ms ++ more)) out
  Emptied-suc k ms more rest f e sent out run gone kept h =
      subst (Emptied (suc k) e (sent ++ (ms ++ more))) (sym run) (
        one_more k f e ((sent ++ ms) ++ more) (sent ++ (ms ++ more)) _ (append_assoc sent ms more)
          gone kept h)

  replay_paths-Emptied :
      (k : ℕ) (ms : ℕ → List Text) (d e : Disk) (sent : List Text)
      → ((i : ℕ) → i ≤ k → get e i ≡ get d i)
      → ((i : ℕ) → i ≤ k → get_or e i [] ≡ unlines (ms i))
      → ((i : ℕ) → i ≤ k → All IsMessage (ms i))
      → ((i : ℕ) → i ≤ k → All IsShort (ms i))
      → Emptied k e (sent ++ in_order k ms) (replay_paths os write_line (paths_from os d k) e sent)
  unfolding paths_from in_order Step
  replay_paths-Emptied zero ms d e sent g same clean short = Emptied-zero (ms 0) e sent _ (
      Step-listed os sound write_line takes 0 (ms 0) [] d e sent (g 0 (omega arith))
        (same 0 (omega arith)) (clean 0 (omega arith)) (short 0 (omega arith)))
  replay_paths-Emptied (suc k) ms d e sent g same clean short =
      let step =
        Step-listed os sound write_line takes (suc k) (ms (suc k)) (paths_from os d k) d e sent
          (g (suc k) (omega arith)) (same (suc k) (omega arith)) (clean (suc k) (omega arith))
          (short (suc k) (omega arith)) in
      let kept : (i : ℕ) → i ≤ k → get step.0 i ≡ get e i = λ i low. step.3 i (ground arith) in
      Emptied-suc k (ms (suc k)) (in_order k ms) (paths_from os d k) step.0 e sent _ step.1 step.2
        step.3
        (replay_paths-Emptied k ms d step.0 (sent ++ ms (suc k))
          (λ i low. kept i low ∙ g i (omega arith))
          (λ i low. same_text step.0 e i (kept i low) ∙ same i (omega arith))
          (λ i low. clean i (omega arith)) (λ i low. short i (omega arith)))

  after :
      (r bytes : ℕ) (ms : ℕ → List Text) (a : Attempt)
      → a.1 ≡ none
      → ((i : ℕ) → i ≤ r → All IsShort (ms i))
      → Closed r bytes ms a.0
      → ((after_close os write_line a).1 ≡ (in_order r ms, none))
        × Stores r bytes (λ _. []) (after_close os write_line a).0
  unfolding after_close Closed Emptied unlines
  after r bytes ms (s, some e) h short closed = cc
  after r bytes ms (s, none) h short (st, closed) =
      let run : ℕ → Outcome = λ n. replay_paths os write_line (paths_from os s.disk n) s.disk [] in
      let out : Emptied r s.disk (in_order r ms) (run s.rotations) =
        subst (λ n. Emptied r s.disk (in_order r ms) (run n)) (sym st.depth)
          (replay_paths-Emptied r ms s.disk s.disk [] (λ i low. refl) st.holds st.clean short) in
      (
        out.0,
        record {
          limit = st.limit;
          depth = st.depth;
          usable = st.usable;
          holds = out.1;
          clean = λ i low. tt;
          sized = λ e. cc;
        },
      )

  -- Where no call fails, the callback takes every message, and the spill files are consistent and hold
  -- messages of one line, each shorter than the megabyte at which the scanner fails, ReplayTo
  -- delivers the messages of all files once each, the oldest file first, each in the order in which
  -- it was written, and leaves no message behind.
  pub replay_to-in_order :
      (r bytes : ℕ) (ms : ℕ → List Text) (s : SpillManager)
      → Stores r bytes ms s
      → ((i : ℕ) → i ≤ r → All IsShort (ms i))
      → ((replay_to os write_line s).1 ≡ (in_order r ms, none))
        × Stores r bytes (λ _. []) (replay_to os write_line s).0
  unfolding replay_to Ended close_current
  replay_to-in_order r bytes ms s st short =
      let shut_down = close_handle-Closed os sound r bytes ms s s.file refl st in
      after r bytes ms (close_current os s) shut_down.0 short shut_down.1
