-- ===== src/Logd/Spill/Steps.antt =====
-- cmd/sys-logd/spill.go: what a replay does to one spill file.
use servicectl.Base.{
  ℕ, Bool, true, false, Option, none, some, List, [], ◌∷◌, ◌++◌, append-nil, append_assoc, ◌≡◌,
  refl, sym, ap, ◌∙◌, subst, All, nat_eq, ◌==◌, get, get_or, delete, get-delete, arith,
  if◌then◌else◌,
}
use servicectl.Base.Text.{Text, is_empty}
use servicectl.Logd.Spill.Files.{Os, Disk, remove_path, open_path, stat_path}
use servicectl.Logd.Spill.Replay.{
  WriteLine, replay_lines, replay_file, open_and_scan, scan, is_listed, has_content, replay_paths,
  after_file, after_remove, is_too_long, trim_right_breaks,
}
use servicectl.Logd.Spill.Lines.{IsMessage, IsShort, unlines, split_lines-unlines}
use servicectl.Logd.Spill.Stored.{Sound}

unlines_empty : (ms : List Text) → unlines ms ≡ [] → ms ≡ []
unfolding unlines
unlines_empty [] h = refl
unlines_empty ([] ∷ ms) h = cc
unlines_empty ((c ∷ m) ∷ ms) h = cc

-- The callback takes every message.
abbrev pub Accepts : WriteLine → Type 0
Accepts write_line = (sent : List Text) (m : Text) → write_line sent m ≡ none

module _ (os : Os) (sound : Sound os) (write_line : WriteLine) (takes : Accepts write_line) where
  replay_lines-accepted :
      (ms sent : List Text)
      → All IsMessage ms
      → All IsShort ms
      → replay_lines write_line (ms ++ ([] ∷ [])) sent ≡ (sent ++ ms, none)
  unfolding replay_lines trim_right_breaks is_too_long
  replay_lines-accepted [] sent clean short = ap (λ l. (l, none)) (sym (append-nil sent))
  replay_lines-accepted (m ∷ ms) sent clean short =
      rw (short.0, ap is_empty clean.0.trimmed ∙ clean.0.filled, takes sent (trim_right_breaks m))
        (ap (λ w. replay_lines write_line (ms ++ ([] ∷ [])) (sent ++ (w ∷ []))) clean.0.trimmed)
      ∙ replay_lines-accepted ms (sent ++ (m ∷ [])) clean.1 short.1
      ∙ ap (λ l. (l, none)) (append_assoc sent (m ∷ []) ms)

  -- A file at the head of the paths is delivered and removed; one that is not listed is empty.
  unfoldable pub Step : ℕ → List Text → List ℕ → Disk → List Text → List ℕ → Type 0
  Step k ms rest e sent paths =
      (f : Disk) × (replay_paths os write_line paths e sent
        ≡ replay_paths os write_line rest f (sent ++ ms))
      × (get_or f k [] ≡ [])
      × ((j : ℕ) → (j == k) ≡ false → get f j ≡ get e j)

  filled : Option Text → Bool
  filled (some (c ∷ content)) = true
  filled _ = false

  is_listed-filled :
      (d : Disk) (k : ℕ) (o : Option Text) → get d k ≡ o → is_listed os d k ≡ filled o
  unfolding is_listed has_content filled
  is_listed-filled d k none h = rw (is_listed, sound (stat_path k), has_content, h) refl
  is_listed-filled d k (some []) h = rw (is_listed, sound (stat_path k), has_content, h) refl
  is_listed-filled d k (some (c ∷ content)) h =
      rw (is_listed, sound (stat_path k), has_content, h) refl

  replay_file-delivered :
      (e : Disk) (k : ℕ) (ms sent : List Text)
      → get e k ≡ some (unlines ms)
      → All IsMessage ms
      → All IsShort ms
      → replay_file os write_line e k sent ≡ (sent ++ ms, none)
  unfolding replay_file open_and_scan scan
  replay_file-delivered e k ms sent h clean short =
      rw (sound (open_path k), h, split_lines-unlines ms clean)
        (replay_lines-accepted ms sent clean short)

  untouched :
      (k : ℕ) (ms : List Text) (rest : List ℕ) (e : Disk) (sent : List Text)
      → get_or e k [] ≡ []
      → unlines ms ≡ []
      → Step k ms rest e sent rest
  unfolding Step
  untouched k ms rest e sent h none_left = (
    e,
    ap (replay_paths os write_line rest e)
        (sym (append-nil sent) ∙ ap (◌++◌ sent) (sym (unlines_empty ms none_left))),
    h,
    λ j apart. refl,
  )

  Step-filled :
      (k : ℕ) (ms : List Text) (rest : List ℕ) (e : Disk) (sent : List Text) (o : Option Text)
      → get e k ≡ o
      → get_or e k [] ≡ unlines ms
      → All IsMessage ms
      → All IsShort ms
      → Step k ms rest e sent (if filled o then k ∷ rest else rest)
  unfolding Step filled get_or replay_paths after_file after_remove
  Step-filled k ms rest e sent none h same clean short =
      untouched k ms rest e sent (ground arith) (sym same ∙ (ground arith))
  Step-filled k ms rest e sent (some []) h same clean short =
      untouched k ms rest e sent (ground arith) (sym same ∙ (ground arith))
  Step-filled k ms rest e sent (some (c ∷ content)) h same clean short =
      let got =
        replay_file-delivered e k ms sent (h ∙ ap some (sym (ground arith) ∙ same)) clean short in
      let run : after_file os (replay_paths os write_line rest) e k
            (replay_file os write_line e k sent)
          ≡ replay_paths os write_line rest (delete e k) (sent ++ ms) =
        (ap (after_file os (replay_paths os write_line rest) e k) got
          ∙ (rw (sound (remove_path k)) refl)) in
      (
        delete e k,
        run,
        ground (arith, get-delete e k k),
        λ j apart. ground (arith, get-delete e k j),
      )

  pub Step-listed :
      (k : ℕ) (ms : List Text) (rest : List ℕ) (d e : Disk) (sent : List Text)
      → get e k ≡ get d k
      → get_or e k [] ≡ unlines ms
      → All IsMessage ms
      → All IsShort ms
      → Step k ms rest e sent (if is_listed os d k then k ∷ rest else rest)
  Step-listed k ms rest d e sent g same clean short =
      subst (λ b. Step k ms rest e sent (if b then k ∷ rest else rest))
        (sym (is_listed-filled d k (get e k) (sym g)))
        (Step-filled k ms rest e sent (get e k) refl same clean short)
