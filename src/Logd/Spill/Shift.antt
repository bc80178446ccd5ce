-- ===== src/Logd/Spill/Shift.antt =====
-- cmd/sys-logd/spill.go: where the loop of rotateLocked puts the files.
use servicectl.Base.{
  ℕ, zero, suc, ◌<◌, Option, none, some, ◌≡◌, refl, ◌∙◌, nat_eq, get, put, get-put, get-delete,
  arith, ◌⊎◌, inl, inr, false, ◌==◌, Bool-cases, ltb, subst, sym,
}
use servicectl.Base.Text.{Text}
use servicectl.Logd.Spill.Files.{
  Os, Disk, SpillManager, rename_below, renaming, rename_path, move_up,
}

-- The disk after the loop where no call fails.
unfoldable pub shift_disk : ℕ → Disk → Disk
shift_disk zero d = d
shift_disk (suc i) d = shift_disk i (move_up d i (get d i))

pub rename_below-shift_disk :
    (os : Os) (i : ℕ) (s : SpillManager)
    → ((c : ℕ) → os.fault (rename_path c) ≡ none)
    → rename_below os i s ≡ (record s { disk = shift_disk i s.disk }, none)
unfolding rename_below renaming shift_disk
rename_below-shift_disk os zero s sound = refl
rename_below-shift_disk os (suc i) s sound = rw (
  sound i,
  rename_below-shift_disk os i (record s { disk = move_up s.disk i (get s.disk i) }) sound,
)

lt_or_eq : (j i : ℕ) → j < suc i → (j < i) ⊎ (j ≡ i)
lt_or_eq j i below = elim (Bool-cases (ltb j i)) [
  | inl t ↦ inl (ground arith)
  | inr t ↦ inr (ground arith)
]

move_up-source : (d : Disk) (i : ℕ) (o : Option Text) → get d i ≡ o → get (move_up d i o) i ≡ none
unfolding move_up
move_up-source d i none h = h
move_up-source d i (some c) h = ground (arith, get-delete (put d (suc i) c) i i)

move_up-target :
    (d : Disk) (i : ℕ) (o : Option Text) → get d (suc i) ≡ none → get (move_up d i o) (suc i) ≡ o
unfolding move_up
move_up-target d i none free = free
move_up-target d i (some c) free =
    ground (arith, get-delete (put d (suc i) c) i (suc i), get-put d (suc i) (suc i) c)

move_up-other :
    (d : Disk) (i j : ℕ) (o : Option Text)
    → (j == i) ≡ false
    → (j == suc i) ≡ false
    → get (move_up d i o) j ≡ get d j
unfolding move_up
move_up-other d i j none h k = refl
move_up-other d i j (some c) h k =
    ground (arith, get-delete (put d (suc i) c) i j, get-put d (suc i) j c)

shift_disk-above : (k : ℕ) (d : Disk) (j : ℕ) → k < j → get (shift_disk k d) j ≡ get d j
unfolding shift_disk
shift_disk-above zero d j above = refl
shift_disk-above (suc i) d j above =
    shift_disk-above i (move_up d i (get d i)) j (omega arith)
    ∙ move_up-other d i j (get d i) (ground arith) (ground arith)

-- Where the highest place is free, every file below it goes up by one.
pub shift_disk-suc :
    (k : ℕ) (d : Disk) (j : ℕ) → get d k ≡ none → j < k → get (shift_disk k d) (suc j) ≡ get d j
unfolding shift_disk
shift_disk-suc zero d j free below = absurd (omega arith)
shift_disk-suc (suc i) d j free below =
    let e = move_up d i (get d i) in
    elim (lt_or_eq j i below) [
      | inl less ↦
          shift_disk-suc i e j (move_up-source d i (get d i) refl) less
          ∙ move_up-other d i j (get d i) (ground arith) (ground arith)
      | inr same ↦
          subst (λ j. get (shift_disk i e) (suc j) ≡ get d j) (sym same)
            (shift_disk-above i e (suc i) (omega arith) ∙ move_up-target d i (get d i) free)
    ]

-- The current file's place is free after the loop.
pub shift_disk-zero : (k : ℕ) (d : Disk) → get d k ≡ none → get (shift_disk k d) 0 ≡ none
unfolding shift_disk
shift_disk-zero zero d free = free
shift_disk-zero (suc i) d free =
    shift_disk-zero i (move_up d i (get d i)) (move_up-source d i (get d i) refl)
