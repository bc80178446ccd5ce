-- ===== src/DbusActivation/Wire.antt =====
-- internal/dbusactivation/protocol.go: numbers and strings on the wire, with package
-- encoding/binary and unicode/utf8 as far as it uses them.
use servicectl.Base.{
  ℕ, zero, suc, ◌+◌, ◌*◌, ◌/◌, ◌%◌, ◌^◌, ◌<◌, Bool, true, false, ◌&&◌, ◌||◌, not, [], ◌∷◌, ◌++◌,
  ◌≡◌, refl, ◌∙◌, length, length-append, ◌-◌, nat_beq, ltb, leb, Result, ok, err, ◌>>=◌,
  if◌then◌else◌, arith,
}
use native.Mathlib.Nat.{pow-zero, pow-suc}
use servicectl.Base.Text.{Text, take, drop}

pub data WireError : Type 0 where
  unexpected_end : WireError
  bad_magic : WireError
  bad_version : ℕ → WireError
  bad_type : ℕ → WireError
  bad_flags : ℕ → WireError
  payload_too_long : ℕ → WireError
  wrong_length : ℕ → ℕ → WireError
  bad_frontend : ℕ → WireError
  bad_code : ℕ → WireError
  bad_bus_name : Text → WireError
  bad_string : WireError
  trailing_bytes : WireError
  too_many_entries : WireError
  bad_entry : Text → WireError
  duplicate_entry : Text → WireError
  environment_too_long : WireError

-- What a reader returns: a value and the bytes that are left.
abbrev pub Reading {ℓ} : Type ℓ → Type ℓ
Reading A = Result WireError (A × Text)

-- A number of `k` bytes, the highest first.
unfoldable pub put_number : ℕ → ℕ → Text
put_number zero n = []
put_number (suc k) n = put_number k (n / 256) ++ (n % 256 ∷ [])

-- The number of some bytes, after the part that was read.
unfoldable pub number_from : ℕ → Text → ℕ
number_from n [] = n
number_from n (c ∷ s) = number_from (n * 256 + c) s

-- `binary.Read` of a number of `k` bytes.
unfoldable pub read_number : ℕ → Text → Reading ℕ
unfolding number_from take drop
read_number k s =
    if ltb (length s) k then err unexpected_end else ok (number_from 0 (take k s), drop k s)

-- The state of a decoder of UTF-8: the bytes that a character still has to have, and the range of
-- the next one.
unfoldable pub utf8_from : ℕ → ℕ → ℕ → Text → Bool
utf8_from zero low high [] = true
utf8_from (suc n) low high [] = false
utf8_from (suc n) low high (c ∷ s) = leb low c && leb c high && utf8_from n 0x80 0xBF s
utf8_from zero low high (c ∷ s) =
    let in_range : ℕ → ℕ → Bool = λ a b. leb a c && leb c b in
    let plain = utf8_from 0 0 0 s in
    let two = utf8_from 1 0x80 0xBF s in
    let three = utf8_from 2 0x80 0xBF s in
    let three_e0 = utf8_from 2 0xA0 0xBF s in
    let three_ed = utf8_from 2 0x80 0x9F s in
    let four = utf8_from 3 0x80 0xBF s in
    let four_f0 = utf8_from 3 0x90 0xBF s in
    let four_f4 = utf8_from 3 0x80 0x8F s in
    if in_range 0 0x7F
    then plain
    else if in_range 0xC2 0xDF
    then two
    else if nat_beq c 0xE0
    then three_e0
    else if nat_beq c 0xED
    then three_ed
    else if in_range 0xE1 0xEF
    then three
    else if nat_beq c 0xF0
    then four_f0
    else if in_range 0xF1 0xF3
    then four
    else if nat_beq c 0xF4
    then four_f4
    else false

-- `utf8.ValidString`.
unfoldable pub is_utf8 : Text → Bool
unfolding utf8_from
is_utf8 s = utf8_from 0 0 0 s

-- `writeString16` and `writeString32`, for the bytes of the length.
unfoldable pub write_string : ℕ → Text → Result WireError Text
unfolding put_number
write_string k value =
    if not (is_utf8 value) || ltb (256 ^ k - 1) (length value)
    then err bad_string
    else ok (put_number k (length value) ++ value)

unfoldable pub read_string : ℕ → ℕ → Text → Reading Text
unfolding take drop
read_string size maximum s =
    if ltb maximum size || ltb (length s) size
    then err bad_string
    else if is_utf8 (take size s)
    then ok (take size s, drop size s)
    else err bad_string

-- `readString16` and `readString32`.
unfoldable pub read_sized : ℕ → ℕ → Text → Reading Text
unfolding read_number read_string
read_sized k maximum s = read_number k s >>= λ (size, rest). read_string size maximum rest

pub length-put_number : (k n : ℕ) → length (put_number k n) ≡ k
unfolding put_number
length-put_number zero n = refl
length-put_number (suc k) n =
    length-append (put_number k (n / 256)) (n % 256 ∷ [])
    ∙ omega (arith, length-put_number k (n / 256))

number_from-snoc : (s : Text) (n c : ℕ) → number_from n (s ++ (c ∷ [])) ≡ number_from n s * 256 + c
unfolding number_from
number_from-snoc [] n c = refl
number_from-snoc (d ∷ s) n c = number_from-snoc s (n * 256 + d) c

pub number_from-put_number : (k n : ℕ) → n < 256 ^ k → number_from 0 (put_number k n) ≡ n
unfolding put_number number_from
number_from-put_number zero n low = omega (arith, pow-zero 256)
number_from-put_number (suc k) n low =
    number_from-snoc (put_number k (n / 256)) 0 (n % 256)
    ∙ omega (arith, number_from-put_number k (n / 256) (omega (arith, low, pow-suc 256 k)))
