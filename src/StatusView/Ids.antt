-- ===== src/StatusView/Ids.antt =====
-- internal/statusview/model.go: the canonical names of scopes, units and nodes.
use servicectl.Base.{
  ℕ, ◌+◌, ◌/◌, ◌%◌, Bool, true, false, ◌&&◌, ◌||◌, [], ◌∷◌, ◌++◌, nat_beq, ltb, leb, ◌==◌, Result,
  ok, err, none, some, if◌then◌else◌,
}
use servicectl.Base.Text.{
  Text, text, text_eq, trim_space, to_lower, has_suffix, strip_prefix, is_empty,
}

pub data IdError : Type 0 where
  negative_uid : IdError
  unsupported_mode : Text → IdError
  empty_unit_name : IdError
  missing_part : IdError
  invalid_scope : Text → IdError

-- A user id of the program, an `int`.
pub data Uid : Type 0 where
  below_zero : Uid
  uid : ℕ → Uid

-- `strconv.Itoa`, a parameter of what uses it.
abbrev pub Printer : Type 0
Printer = ℕ → Text

unfoldable pub user_scope : Printer → Uid → Result IdError Text
user_scope itoa below_zero = err negative_uid
user_scope itoa (uid n) = ok (text "user@" ++ itoa n)

unfoldable pub canonical_scope : Printer → Text → Uid → Result IdError Text
unfolding user_scope
canonical_scope itoa mode id =
    let name = to_lower (trim_space mode) in
    if name == text "system"
    then ok (text "system")
    else if name == text "user"
    then user_scope itoa id
    else err (unsupported_mode mode)

unfoldable pub with_suffix : Text → Text
with_suffix name = if has_suffix name (text ".service") then name else name ++ text ".service"

unfoldable pub canonical_unit_name : Text → Result IdError Text
unfolding with_suffix
canonical_unit_name name =
    let trimmed = trim_space name in
    if is_empty trimmed then err empty_unit_name else ok (with_suffix trimmed)

unfoldable pub is_digits : Text → Bool
is_digits [] = true
is_digits (c ∷ s) = (leb b'0' c && leb c b'9') && is_digits s

-- The user's number, after `user@`.
unfoldable pub is_user_id : Text → Bool
unfolding is_digits
is_user_id [] = false
is_user_id (c ∷ s) = is_digits (c ∷ s)

unfoldable pub is_canonical_scope : Text → Bool
unfolding is_user_id
is_canonical_scope scope =
    (scope == text "system")
    || elim (strip_prefix (text "user@") scope) [ none ↦ false | some number ↦ is_user_id number ]

unfoldable pub is_id_byte : ℕ → Bool
is_id_byte c =
    (leb b'A' c && leb c b'Z')
    || (leb b'a' c && leb c b'z')
    || (leb b'0' c && leb c b'9')
    || nat_beq c b'.'
    || nat_beq c b'_'
    || nat_beq c b'@'
    || nat_beq c b'-'

-- The digit at an index of `0123456789ABCDEF`.
unfoldable pub hex : ℕ → ℕ
hex n = if ltb n 10 then 48 + n else 55 + n

unfoldable pub encode_id_segment : Text → Text
unfolding is_id_byte hex
encode_id_segment [] = []
encode_id_segment (c ∷ segment) =
    let rest = encode_id_segment segment in
    if is_id_byte c then c ∷ rest else b'%' ∷ hex (c / 16) ∷ hex (c % 16) ∷ rest

unfoldable pub join_id : Text → Text → Text → Text
join_id kind scope identity =
    encode_id_segment kind
    ++ (b':' ∷ encode_id_segment scope ++ (b':' ∷ encode_id_segment identity))

unfoldable pub new_node_id : Text → Text → Text → Result IdError Text
unfolding join_id
new_node_id type_name scope identity =
    let kind = to_lower (trim_space type_name) in
    let place = trim_space scope in
    let name = trim_space identity in
    if is_empty kind || is_empty place || is_empty name
    then err missing_part
    else if is_canonical_scope place
    then ok (join_id kind place name)
    else err (invalid_scope place)
