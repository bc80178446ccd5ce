-- ===== src/Base/Atoi.antt =====
-- `strconv.Atoi` on a 64-bit machine.
use Prim.Native.Nat.{ℕ, ◌+◌, ◌-◌, ◌*◌, ◌^◌}
use mathlib.Core.List.{[], ◌∷◌}
use mathlib.Core.Option.{Option, none, some}
use servicectl.Base.Tests.{ltb, leb, nat_beq, if◌then◌else◌}
use servicectl.Base.Text.{Text}

-- A signed number as its sign and its absolute value.
pub data Signed : Type 0 where
  positive : ℕ → Signed
  negative : ℕ → Signed

read_digits : ℕ → Text → Option ℕ
read_digits n [] = some n
read_digits n (c ∷ s) =
    let rest = read_digits (n * 10 + (c - b'0')) s in
    if leb b'0' c then (if leb c b'9' then rest else none) else none

read_number : Text → Option ℕ
unfolding read_digits
read_number [] = none
read_number (c ∷ s) = read_digits 0 (c ∷ s)

in_range : ℕ → (ℕ → Signed) → Option ℕ → Option Signed
in_range bound sign none = none
in_range bound sign (some n) = if ltb n bound then some (sign n) else none

unfoldable pub atoi : Text → Option Signed
unfolding read_number in_range
atoi [] = none
atoi (c ∷ s) =
    if nat_beq c b'-'
    then in_range (2 ^ 63 + 1) negative (read_number s)
    else if nat_beq c b'+'
    then in_range (2 ^ 63) positive (read_number s)
    else in_range (2 ^ 63) positive (read_number (c ∷ s))
