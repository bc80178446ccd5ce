-- ===== src/EnabledDag/Names.antt =====
-- Names of services: normalizeServiceUnitName and uniqueLinesPreserveOrder of enabled_dag.go,
-- resolveUnitAlias of unit_parse.go, the service names of s6_backend.go and s6_backend_group.go,
-- and SanitizeS6Name of internal/util/util.go.
use mathlib.Core.List.{reverse}
use servicectl.Base.{
  ℕ, ◌≡◌, refl, sym, ap, ◌∙◌, Bool, false, ◌&&◌, ◌||◌, List, [], ◌∷◌, ◌++◌, map, arith, ◌==◌,
  if◌then◌else◌, contains, Distinct, All, append-nil, append_assoc, nat_beq,
}
use servicectl.Base.Text.{
  Text, text, text_eq, is_empty, has_byte, trim_space, trim_suffix, has_suffix, split_lines,
  join_lines, split_lines-join_lines, to_lower, contains_text,
}

-- The flag says whether a unit file `wireplumber` can be parsed.
unfoldable pub resolve_unit_alias : Bool → Text → Text
resolve_unit_alias wireplumber name =
    let clean_name = trim_suffix (trim_space name) (text ".service") in
    if clean_name == text "pipewire-session-manager" && wireplumber
    then text "wireplumber"
    else clean_name

-- The empty text for a name that is no service.
unfoldable pub normalize_service_unit_name : Bool → Text → Text
normalize_service_unit_name wireplumber raw =
    let value = trim_space raw in
    let clean = trim_suffix value (text ".service") in
    let resolved = trim_suffix (resolve_unit_alias wireplumber clean) (text ".service") in
    if is_empty value
    then []
    else if has_suffix value (text ".target") || has_suffix value (text ".socket")
    then []
    else if is_empty resolved
    then []
    else resolved ++ text ".service"

-- The replacer of SanitizeS6Name.
replace_s6_byte : ℕ → ℕ
replace_s6_byte c =
    if nat_beq c b'/' || nat_beq c b'.' || nat_beq c b':' || nat_beq c b' ' then b'-' else c

trim_dashes_left : Text → Text
trim_dashes_left [] = []
trim_dashes_left (c ∷ s) = let rest = trim_dashes_left s in if nat_beq c b'-' then rest else c ∷ s

unfoldable pub sanitize_s6_name : Text → Text → Text
unfolding replace_s6_byte trim_dashes_left
sanitize_s6_name value fallback =
    let replaced = map replace_s6_byte (trim_space value) in
    let clean = reverse (trim_dashes_left (reverse (trim_dashes_left replaced))) in
    if is_empty clean then fallback else clean

unfoldable pub s6_orchestrd_service_name : Bool → Text → Text
s6_orchestrd_service_name wireplumber unit_name =
    trim_suffix (resolve_unit_alias wireplumber unit_name) (text ".service") ++ text "-orchestrd"

unfoldable pub s6_group_orchestrd_service_name : Text → Text
s6_group_orchestrd_service_name group =
    text "group-" ++ (sanitize_s6_name group (text "group") ++ text "-orchestrd")

-- isUnitNotFoundError, on the message of an error.
unfoldable pub is_unit_not_found_error : Text → Bool
is_unit_not_found_error message = contains_text (to_lower (trim_space message)) (text "not found")

-- The loop of uniqueLinesPreserveOrder over the lines, with its set and its result.
unique_loop : List Text → List Text → List Text → List Text
unique_loop seen entries [] = entries
unique_loop seen entries (raw ∷ rest) =
    let line = trim_space raw in
    let skipped = unique_loop seen entries rest in
    let kept = unique_loop (line ∷ seen) (entries ++ line ∷ []) rest in
    if is_empty line || contains seen line then skipped else kept

unfoldable pub unique_lines_preserve_order : Text → List Text
unfolding unique_loop
unique_lines_preserve_order content = unique_loop [] [] (split_lines content)

-- A name that the lines of a text carry unchanged.
pub record IsClean (name : Text) : Type 0 where
  pub trimmed : trim_space name ≡ name
  pub one_line : has_byte name b'\n' ≡ false
  pub nonempty : is_empty name ≡ false

-- None of the names is in the list.
abbrev Apart : List Text → List Text → Type 0
Apart seen = All (λ w. contains seen w ≡ false)

Apart-cons :
    (w : Text) (seen ws : List Text) → contains ws w ≡ false → Apart seen ws → Apart (w ∷ seen) ws
unfolding contains
Apart-cons w seen [] h a = tt
Apart-cons w seen (v ∷ ws) h a = (
  ground (arith, text_eq.same_iff w v, text_eq.same_iff v w),
  Apart-cons w seen ws (ground arith) a.1,
)

unique_loop-Distinct :
    (seen entries ws : List Text)
    → All IsClean ws
    → Distinct ws
    → Apart seen ws
    → unique_loop seen entries ws ≡ entries ++ ws
unfolding unique_loop
unique_loop-Distinct seen entries [] c d a = sym (append-nil entries)
unique_loop-Distinct seen entries (w ∷ ws) c d a = ground (
  arith,
  unique_loop-Distinct (w ∷ seen) (entries ++ w ∷ []) ws c.1 d.1 (Apart-cons w seen ws d.0 a.1),
  append_assoc entries (w ∷ []) ws,
)

one_lines : (ws : List Text) → All IsClean ws → All (λ v. has_byte v b'\n' ≡ false) ws
one_lines [] c = tt
one_lines (w ∷ ws) c = (c.0.one_line, one_lines ws c.1)

Apart-nil : (ws : List Text) → Apart [] ws
unfolding contains
Apart-nil [] = tt
Apart-nil (w ∷ ws) = (refl, Apart-nil ws)

-- Joining distinct clean names by line breaks and reading the lines back changes nothing.
pub unique_lines_preserve_order-join_lines :
    (ws : List Text)
    → All IsClean ws
    → Distinct ws
    → unique_lines_preserve_order (join_lines ws) ≡ ws
unfolding unique_lines_preserve_order
unique_lines_preserve_order-join_lines [] c d = unfold trim_space join_lines split_lines in refl
unique_lines_preserve_order-join_lines (w ∷ ws) c d =
    ap (unique_loop [] []) (split_lines-join_lines w ws c.0.one_line (one_lines ws c.1))
    ∙ unique_loop-Distinct [] [] (w ∷ ws) c d (Apart-nil (w ∷ ws))
