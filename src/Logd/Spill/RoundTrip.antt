-- ===== src/Logd/Spill/RoundTrip.antt =====
-- cmd/sys-logd/spill.go: messages that are spilled and then replayed.
use servicectl.Base.{
  ℕ, zero, suc, ◌+◌, ◌≤◌, true, none, List, [], ◌∷◌, ◌++◌, append-nil, append_assoc, ◌≡◌, refl, sym,
  ap, ◌∙◌, subst, All, length, length-append, leb, if◌then◌else◌, arith,
}
use servicectl.Base.Text.{Text}
use servicectl.Logd.Spill.Files.{Os, SpillManager, Attempt, ◌and_then◌, write_line}
use servicectl.Logd.Spill.Replay.{WriteLine, replay_to}
use servicectl.Logd.Spill.Lines.{IsMessage, IsShort, unlines, unlines-snoc}
use servicectl.Logd.Spill.Stored.{Sound, Stores, shifted, Ended, Ended-and_then}
use servicectl.Logd.Spill.Written.{after_message, with_message, write_line-Stores}
use servicectl.Logd.Spill.Steps.{Accepts}
use servicectl.Logd.Spill.Replayed.{in_order, replay_to-in_order}

-- WriteLine on each of some messages.
unfoldable pub write_all : Os → List Text → SpillManager → Attempt
write_all os [] s = (s, none)
write_all os (m ∷ rest) s = write_line os m s and_then write_all os rest

after_message-fits :
    (bytes : ℕ) (m : Text) (ms : ℕ → List Text)
    → length (unlines (ms 0)) + length (m ++ (b'\n' ∷ [])) ≤ bytes
    → after_message bytes m ms ≡ with_message m ms
unfolding after_message
after_message-fits bytes m ms h =
    let room = length (unlines (ms 0)) + length (m ++ (b'\n' ∷ [])) in
    let roomy : leb room bytes ≡ true = ground arith in
    ap (λ b. with_message m (if b then ms else shifted ms)) roomy

-- The current file has all messages at its end, and the other files are as before.
Appended : ℕ → ℕ → (ℕ → List Text) → List Text → SpillManager → Type 0
Appended r bytes ms added s =
    (ns : ℕ → List Text) × Stores r bytes ns s
    × (ns 0 ≡ ms 0 ++ added)
    × ((i : ℕ) → ns (suc i) ≡ ms (suc i))

unlines-cons :
    (m : Text) (rest : List Text) → unlines (m ∷ rest) ≡ (m ++ (b'\n' ∷ [])) ++ unlines rest
unfolding unlines
unlines-cons m rest = sym (append_assoc m (b'\n' ∷ []) (unlines rest))

unlines-length :
    (m : Text) (rest : List Text)
    → length (unlines (m ∷ rest)) ≡ length (m ++ (b'\n' ∷ [])) + length (unlines rest)
unlines-length m rest =
    ap length (unlines-cons m rest) ∙ length-append (m ++ (b'\n' ∷ [])) (unlines rest)

Appended-cons :
    (r bytes : ℕ) (ms : ℕ → List Text) (m : Text) (rest : List Text) (s : SpillManager)
    → Appended r bytes (with_message m ms) rest s
    → Appended r bytes ms (m ∷ rest) s
unfolding Appended with_message
Appended-cons r bytes ms m rest s (ns, st, first, others) =
    (ns, st, first ∙ append_assoc (ms 0) (m ∷ []) rest, others)

extended :
    (r bytes : ℕ) (ms : ℕ → List Text) (m : Text) (rest : List Text) (a : Attempt)
    → Ended (Appended r bytes (with_message m ms) rest) a
    → Ended (Appended r bytes ms (m ∷ rest)) a
unfolding Ended
extended r bytes ms m rest a (done, h) = (done, Appended-cons r bytes ms m rest a.0 h)

module _ (os : Os) (sound : Sound os) (r bytes : ℕ) where
  write_all-Appended :
      (added : List Text) (ms : ℕ → List Text) (s : SpillManager)
      → All IsMessage added
      → length (unlines (ms 0)) + length (unlines added) ≤ bytes
      → Stores r bytes ms s
      → Ended (Appended r bytes ms added) (write_all os added s)
  unfolding write_all Ended Appended unlines with_message
  write_all-Appended [] ms s clean fits st = (refl, (ms, st, sym (append-nil (ms 0)), λ i. refl))
  write_all-Appended (m ∷ rest) ms s clean fits st =
      let line = m ++ (b'\n' ∷ []) in
      let one : length (unlines (ms 0)) + length line ≤ bytes =
        omega (arith, unlines-length m rest) in
      let same = after_message-fits bytes m ms one in
      let total : length (unlines (with_message m ms 0)) ≡ length (unlines (ms 0)) + length line =
        ap length (unlines-snoc (ms 0) m) ∙ length-append (unlines (ms 0)) line in
      Ended-and_then (Stores r bytes (with_message m ms)) (Appended r bytes ms (m ∷ rest)) _ _
        (subst (λ ns. Ended (Stores r bytes ns) (write_line os m s)) same
          (write_line-Stores os r bytes ms m s sound clean.0 st))
        (λ t h. extended r bytes ms m rest (write_all os rest t) (
          write_all-Appended rest (with_message m ms) t clean.1
            (omega (arith, unlines-length m rest, total)) h))

in_order_first : (r : ℕ) (ns : ℕ → List Text) → ((i : ℕ) → ns (suc i) ≡ []) → in_order r ns ≡ ns 0
unfolding in_order
in_order_first zero ns h = refl
in_order_first (suc r) ns h = ap (λ l. l ++ in_order r ns) (h r) ∙ in_order_first r ns h

in_order-IsShort :
    (added : List Text) (ns : ℕ → List Text)
    → ns 0 ≡ added
    → ((i : ℕ) → ns (suc i) ≡ [])
    → All IsShort added
    → (i : ℕ) → All IsShort (ns i)
in_order-IsShort added ns first others short zero = subst (All IsShort) (sym first) short
in_order-IsShort added ns first others short (suc i) = subst (All IsShort) (sym (others i)) tt

replay-Appended :
    (os : Os) (sound : Sound os) (write : WriteLine) (r bytes : ℕ) (added : List Text) (a : Attempt)
    → Accepts write
    → All IsShort added
    → Ended (Appended r bytes (λ _. []) added) a
    → (a.1 ≡ none) × ((replay_to os write a.0).1 ≡ (added, none))
unfolding Ended Appended
replay-Appended os sound write r bytes added a takes short (done, (ns, st, first, others)) = (
  done,
  (replay_to-in_order os sound write takes r bytes ns a.0 st
        (λ i low. in_order-IsShort added ns first others short i)).0
      ∙ ap (λ l. (l, none)) (in_order_first r ns others ∙ first),
)

empty_first :
    (added : List Text) (bytes : ℕ)
    → length (unlines added) ≤ bytes
    → length (unlines []) + length (unlines added) ≤ bytes
unfolding unlines
empty_first added bytes fits = omega arith

-- Where no call fails, let the spill files be consistent and hold nothing, and let messages of one
-- line, each shorter than the megabyte at which the scanner of a replay fails, fit into one file
-- together. Writing them succeeds, and a replay to a callback that takes them delivers them, in the
-- order and the number in which they were written.
pub replay_to-write_all :
    (os : Os) (write : WriteLine) (r bytes : ℕ) (added : List Text) (s : SpillManager)
    → Sound os
    → Accepts write
    → All IsMessage added
    → All IsShort added
    → length (unlines added) ≤ bytes
    → Stores r bytes (λ _. []) s
    → ((write_all os added s).1 ≡ none)
      × ((replay_to os write (write_all os added s).0).1 ≡ (added, none))
replay_to-write_all os write r bytes added s sound takes clean short fits st =
    replay-Appended os sound write r bytes added (write_all os added s) takes short (
      write_all-Appended os sound r bytes added (λ _. []) s clean (empty_first added bytes fits) st)
