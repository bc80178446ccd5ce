-- ===== src/Logd/Spill/Jammed.antt =====
-- cmd/sys-logd/spill.go: a line that is too long for the scanner of replayFile.
use servicectl.Base.{
  ℕ, zero, suc, ◌≤◌, ◌<◌, true, false, Option, none, some, List, [], ◌∷◌, ◌++◌, append-nil,
  append_assoc, ◌≡◌, refl, sym, ap, ◌∙◌, subst, All, nat_eq, ◌==◌, get, get_or, not, arith, inl,
  inr, Bool-cases,
}
use servicectl.Base.Text.{Text, text, is_empty, split_lines}
use servicectl.Logd.Spill.Files.{
  Os, Disk, SpillManager, Attempt, close_current, open_path, stat_path,
}
use servicectl.Logd.Spill.Replay.{
  WriteLine, Outcome, paths_from, replay_paths, replay_to, after_close, replay_lines, replay_file,
  open_and_scan, scan, is_listed, has_content, after_file, is_too_long, trim_right_breaks,
}
use servicectl.Logd.Spill.Lines.{IsMessage, IsShort, unlines, split_lines-unlines}
use servicectl.Logd.Spill.Stored.{Sound, Stores, Closed, close_handle-Closed, Ended}
use servicectl.Logd.Spill.Steps.{Accepts}

-- The error of the scanner.
abbrev pub token_too_long : Option Text
token_too_long = some (text "token too long")

-- The content of a file, if there is one.
abbrev get_or_empty : Option Text → Text
get_or_empty none = []
get_or_empty (some content) = content

get_or-get : (d : Disk) (i : ℕ) → get_or d i [] ≡ get_or_empty (get d i)
unfolding get_or
get_or-get d i = by_entry (get d i) refl
  where
    by_entry : (o : Option Text) → get d i ≡ o → get_or d i [] ≡ get_or_empty (get d i)
    by_entry none h = rw (get_or, h) refl
    by_entry (some content) h = rw (get_or, h) refl

unlines_nil : unlines [] ≡ []
unfolding unlines
unlines_nil = refl

All-front : (vs ws : List Text) → All IsMessage (vs ++ ws) → All IsMessage vs
All-front [] ws all = tt
All-front (v ∷ vs) ws all = (all.0, All-front vs ws all.1)

-- The spill files after some replays.
unfoldable pub replays : Os → WriteLine → ℕ → SpillManager → SpillManager
replays os write_line zero s = s
replays os write_line (suc n) s = replays os write_line n ((replay_to os write_line s).0)

module _ (os : Os) (sound : Sound os) (write_line : WriteLine) (takes : Accepts write_line) where
  replay_lines-jammed :
      (before : List Text) (m : Text) (rest sent : List Text)
      → All IsMessage before
      → All IsShort before
      → is_too_long m ≡ true
      → replay_lines write_line (before ++ (m ∷ rest)) sent ≡ (sent ++ before, token_too_long)
  unfolding replay_lines
  replay_lines-jammed [] m rest sent clean short long =
      rw long (ap (λ l. (l, token_too_long)) (sym (append-nil sent)))
  replay_lines-jammed (w ∷ before) m rest sent clean short long =
      rw (short.0, ap is_empty clean.0.trimmed ∙ clean.0.filled, takes sent (trim_right_breaks w))
        (ap (λ v. replay_lines write_line (before ++ (m ∷ rest)) (sent ++ (v ∷ [])))
          clean.0.trimmed)
      ∙ replay_lines-jammed before m rest (sent ++ (w ∷ [])) clean.1 short.1 long
      ∙ ap (λ l. (l, token_too_long)) (append_assoc sent (w ∷ []) before)

  is_listed-content :
      (d : Disk) (i : ℕ) (o : Option Text)
      → get d i ≡ o
      → is_listed os d i ≡ not (is_empty (get_or d i []))
  unfolding is_listed has_content get_or
  is_listed-content d i none h = rw (is_listed, sound (stat_path i), has_content, get_or, h) refl
  is_listed-content d i (some content) h =
      rw (is_listed, sound (stat_path i), has_content, get_or, h) refl

  -- The first path is that of the oldest file with content.
  paths_from-oldest :
      (n k : ℕ) (d : Disk)
      → k ≤ n
      → is_listed os d k ≡ true
      → ((i : ℕ) → k < i → i ≤ n → is_listed os d i ≡ false)
      → (rest : List ℕ) × (paths_from os d n ≡ k ∷ rest)
  unfolding paths_from
  paths_from-oldest zero k d low listed none_above =
      let same : k ≡ 0 = omega arith in
      ([], rw (subst (λ i. is_listed os d i ≡ true) same listed) (ap (λ i. i ∷ []) (sym same)))
  paths_from-oldest (suc n) k d low listed none_above = elim (Bool-cases (k == suc n)) [
    | inl t ↦
        let same : k ≡ suc n = ground arith in
        (
          paths_from os d n,
          rw (subst (λ i. is_listed os d i ≡ true) same listed)
              (ap (λ i. i ∷ paths_from os d n) (sym same)),
        )
    | inr t ↦
        let found =
          paths_from-oldest n k d (ground arith) listed
            (λ i above l. none_above i above (omega arith)) in
        (found.0, rw (none_above (suc n) (ground arith) (omega arith)) found.1)
  ]

  unlines-filled :
      (before : List Text) (m : Text) (behind : List Text)
      → is_empty (unlines (before ++ (m ∷ behind))) ≡ false
  unfolding unlines
  unlines-filled [] [] behind = refl
  unlines-filled [] (c ∷ m) behind = refl
  unlines-filled ([] ∷ before) m behind = refl
  unlines-filled ((c ∷ w) ∷ before) m behind = refl

  scan-jammed :
      (before : List Text) (m : Text) (behind : List Text) (o : Option Text)
      → get_or_empty o ≡ unlines (before ++ (m ∷ behind))
      → All IsMessage (before ++ (m ∷ behind))
      → All IsShort before
      → is_too_long m ≡ true
      → scan write_line [] o ≡ (before, token_too_long)
  unfolding scan
  scan-jammed before m behind none same clean short long =
      absurd (cc (unlines-filled before m behind))
  scan-jammed before m behind (some content) same clean short long =
      ap (λ c. replay_lines write_line c [])
        (ap split_lines same
          ∙ split_lines-unlines (before ++ (m ∷ behind)) clean
          ∙ append_assoc before (m ∷ behind) ([] ∷ []))
      ∙ replay_lines-jammed before m (behind ++ ([] ∷ [])) [] (All-front before _ clean) short long

  replay_paths-jammed :
      (k : ℕ) (rest : List ℕ) (d : Disk) (before : List Text)
      → scan write_line [] (get d k) ≡ (before, token_too_long)
      → replay_paths os write_line (k ∷ rest) d [] ≡ (d, (before, token_too_long))
  unfolding replay_paths replay_file open_and_scan after_file
  replay_paths-jammed k rest d before h = rw (sound (open_path k), h) refl

  after_close-jammed :
      (r bytes k : ℕ) (ms : ℕ → List Text) (before : List Text) (m : Text) (behind : List Text)
      (a : Attempt)
      → a.1 ≡ none
      → Closed r bytes ms a.0
      → k ≤ r
      → ms k ≡ before ++ (m ∷ behind)
      → All IsShort before
      → is_too_long m ≡ true
      → ((i : ℕ) → k < i → i ≤ r → ms i ≡ [])
      → ((after_close os write_line a).1 ≡ (before, token_too_long))
        × Stores r bytes ms (after_close os write_line a).0
  unfolding after_close Closed
  after_close-jammed r bytes k ms before m behind (s, some e) h closed low here short long above =
      cc
  after_close-jammed r bytes k ms before m behind (s, none) h (st, closed) low here short long
        above =
      let held : get_or s.disk k [] ≡ unlines (before ++ (m ∷ behind)) =
        st.holds k low ∙ ap unlines here in
      let listed : is_listed os s.disk k ≡ true =
        is_listed-content s.disk k _ refl
        ∙ ap (λ c. not (is_empty c)) held
        ∙ ap not (unlines-filled before m behind) in
      let none_above : (i : ℕ) → k < i → i ≤ s.rotations → is_listed os s.disk i ≡ false =
        λ i over l.
          is_listed-content s.disk i _ refl
          ∙ ap (λ c. not (is_empty c))
              (st.holds i (omega (arith, st.depth))
                ∙ ap unlines (above i over (omega (arith, st.depth)))
                ∙ unlines_nil) in
      let paths =
        paths_from-oldest s.rotations k s.disk (omega (arith, st.depth)) listed none_above in
      let jammed =
        scan-jammed before m behind (get s.disk k) (sym (get_or-get s.disk k) ∙ held)
          (subst (All IsMessage) here (st.clean k low)) short long in
      let run : replay_paths os write_line (paths_from os s.disk s.rotations) s.disk []
          ≡ (s.disk, (before, token_too_long)) =
        ap (λ p. replay_paths os write_line p s.disk []) paths.1
        ∙ replay_paths-jammed k paths.0 s.disk before jammed in
      (
        ap (λ (out : Outcome). out.1) run,
        subst (λ (out : Outcome). Stores r bytes ms (record s { disk = out.0 })) (sym run) st,
      )

  replay_to-jammed_once :
      (r bytes k : ℕ) (ms : ℕ → List Text) (before : List Text) (m : Text) (behind : List Text)
      (s : SpillManager)
      → Stores r bytes ms s
      → k ≤ r
      → ms k ≡ before ++ (m ∷ behind)
      → All IsShort before
      → is_too_long m ≡ true
      → ((i : ℕ) → k < i → i ≤ r → ms i ≡ [])
      → ((replay_to os write_line s).1 ≡ (before, token_too_long))
        × Stores r bytes ms (replay_to os write_line s).0
  unfolding replay_to Ended close_current
  replay_to-jammed_once r bytes k ms before m behind s st low here short long above =
      let shut_down = close_handle-Closed os sound r bytes ms s s.file refl st in
      after_close-jammed r bytes k ms before m behind (close_current os s) shut_down.0 shut_down.1
        low here short long above

  -- Where no call fails and the callback takes every message, let the spill files be consistent and
  -- hold messages of one line, with one of a megabyte or more in the oldest file that is not
  -- empty, and only shorter ones before it in that file. However often ReplayTo has run, the files
  -- hold all these messages, and it delivers the ones before the long line, each time again, and
  -- fails.
  pub replay_to-jammed :
      (r bytes k : ℕ) (ms : ℕ → List Text) (before : List Text) (m : Text) (behind : List Text)
      (s : SpillManager) (n : ℕ)
      → Stores r bytes ms s
      → k ≤ r
      → ms k ≡ before ++ (m ∷ behind)
      → All IsShort before
      → is_too_long m ≡ true
      → ((i : ℕ) → k < i → i ≤ r → ms i ≡ [])
      → ((replay_to os write_line (replays os write_line n s)).1 ≡ (before, token_too_long))
        × Stores r bytes ms (replays os write_line n s)
  unfolding replays
  replay_to-jammed r bytes k ms before m behind s zero st low here short long above =
      ((replay_to-jammed_once r bytes k ms before m behind s st low here short long above).0, st)
  replay_to-jammed r bytes k ms before m behind s (suc n) st low here short long above =
      replay_to-jammed r bytes k ms before m behind ((replay_to os write_line s).0) n
        (replay_to-jammed_once r bytes k ms before m behind s st low here short long above).1 low
        here short long above
