-- ===== src/DbusActivation/Messages.antt =====
-- internal/dbusactivation/protocol.go: the payloads of requests to activate a name and of results.
use servicectl.Base.{
  ℕ, Bool, true, false, ◌&&◌, ◌||◌, not, List, [], ◌∷◌, ◌++◌, length, nat_beq, ltb, leb, ◌==◌,
  Result, ok, err, ◌>>=◌, if◌then◌else◌, nat_eq,
}
use servicectl.Base.Text.{Text, text, text_eq, is_empty, has_byte, has_prefix, split_on}
use servicectl.DbusActivation.Wire.{
  WireError, unexpected_end, bad_frontend, bad_code, bad_bus_name, trailing_bytes, put_number,
  read_number, write_string, read_sized, is_utf8,
}

-- A frontend and a result code are their numbers on the wire.
pub record ActivateRequest : Type 0 where
  pub frontend : ℕ
  pub bus_name : Text

pub record ActivationResult : Type 0 where
  pub code : ℕ
  pub detail : Text

abbrev pub max_bus_name : ℕ
max_bus_name = 255

unfoldable pub valid_frontend : ℕ → Bool
valid_frontend f = f == 1 || f == 2

unfoldable pub valid_result_code : ℕ → Bool
valid_result_code c = leb c 22

unfoldable pub valid_element_start : ℕ → Bool
valid_element_start c =
    nat_beq c b'_' || nat_beq c b'-' || (leb b'A' c && leb c b'Z') || (leb b'a' c && leb c b'z')

unfoldable pub valid_element : ℕ → Bool
unfolding valid_element_start
valid_element c = valid_element_start c || (leb b'0' c && leb c b'9')

all_elements : Text → Bool
unfolding valid_element
all_elements [] = true
all_elements (c ∷ s) = valid_element c && all_elements s

-- One part between the dots.
valid_part : Text → Bool
unfolding valid_element_start all_elements
valid_part [] = false
valid_part (c ∷ s) = valid_element_start c && all_elements s

valid_parts : List Text → Bool
unfolding valid_part
valid_parts [] = true
valid_parts (w ∷ rest) = valid_part w && valid_parts rest

unfoldable pub is_bus_name : Text → Bool
unfolding valid_parts split_on
is_bus_name name =
    not (
      is_empty name
      || ltb max_bus_name (length name)
      || not (is_utf8 name)
      || has_prefix name (text ":")
      || not (has_byte name b'.'))
    && valid_parts (split_on b'.' name)

unfoldable pub validate_bus_name : Text → Result WireError Text
validate_bus_name name = if is_bus_name name then ok name else err (bad_bus_name name)

unfoldable pub encode_activate : ActivateRequest → Result WireError Text
unfolding valid_frontend validate_bus_name write_string
encode_activate r =
    if not (valid_frontend r.frontend)
    then err (bad_frontend r.frontend)
    else validate_bus_name r.bus_name >>= (λ name. write_string 2 name) >>= λ sized.
        ok (r.frontend ∷ sized)

-- The end of a payload.
unfoldable pub all_read {ℓ} : {A : Type ℓ} → A × Text → Result WireError A
all_read (a, []) = ok a
all_read (a, c ∷ rest) = err trailing_bytes

unfoldable pub decode_activate : Text → Result WireError ActivateRequest
unfolding valid_frontend validate_bus_name read_sized all_read
decode_activate [] = err unexpected_end
decode_activate (f ∷ payload) =
    if not (valid_frontend f)
    then err (bad_frontend f)
    else read_sized 2 max_bus_name payload >>= all_read >>= validate_bus_name >>= λ name.
        ok (record { frontend = f; bus_name = name })

unfoldable pub encode_activation_result : ActivationResult → Result WireError Text
unfolding valid_result_code write_string put_number
encode_activation_result r =
    if not (valid_result_code r.code)
    then err (bad_code r.code)
    else write_string 2 r.detail >>= λ sized. ok (put_number 2 r.code ++ sized)

unfoldable pub decode_activation_result : Text → Result WireError ActivationResult
unfolding valid_result_code read_number read_sized all_read
decode_activation_result payload = read_number 2 payload >>= λ (code, rest).
    if not (valid_result_code code)
    then err (bad_code code)
    else read_sized 2 65536 rest >>= all_read >>= λ detail.
        ok (record { code = code; detail = detail })
