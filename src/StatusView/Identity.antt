-- ===== src/StatusView/Identity.antt =====
-- internal/statusview/model.go: what the id of a node says of the node.
use servicectl.Base.{ℕ, ◌/◌, ◌%◌, false, [], ◌∷◌, ◌++◌, ◌≡◌, refl, ok, arith, sym, ◌∙◌}
use servicectl.Base.Text.{Text, has_byte, trim_space, to_lower}
use servicectl.StatusView.Ids.{is_id_byte, hex, encode_id_segment, join_id, new_node_id}

hex-injective : (m n : ℕ) → hex m ≡ hex n → m ≡ n
unfolding hex
hex-injective m n h = ground arith

hex_pair : (c d : ℕ) → hex (c / 16) ≡ hex (d / 16) → hex (c % 16) ≡ hex (d % 16) → c ≡ d
hex_pair c d h k =
    omega (arith, hex-injective (c / 16) (d / 16) h, hex-injective (c % 16) (d % 16) k)

encode_id_segment-injective : (a b : Text) → encode_id_segment a ≡ encode_id_segment b → a ≡ b
unfolding encode_id_segment is_id_byte
encode_id_segment-injective [] [] h = refl
encode_id_segment-injective [] (d ∷ b) h = ground arith
encode_id_segment-injective (c ∷ a) [] h = ground arith
encode_id_segment-injective (c ∷ a) (d ∷ b) h =
    ground (arith, hex_pair c d, encode_id_segment-injective a b)

-- An encoded segment does not hold the separator.
encode_id_segment-lacks_colon : (a : Text) → has_byte (encode_id_segment a) b':' ≡ false
unfolding encode_id_segment is_id_byte has_byte hex
encode_id_segment-lacks_colon [] = refl
encode_id_segment-lacks_colon (c ∷ a) = ground (arith, encode_id_segment-lacks_colon a)

-- Texts that are cut at their first colon.
cut_once :
    (a b s t : Text)
    → has_byte a b':' ≡ false
    → has_byte b b':' ≡ false
    → a ++ (b':' ∷ s) ≡ b ++ (b':' ∷ t)
    → (a ≡ b) × (s ≡ t)
unfolding has_byte
cut_once [] [] s t h k p = (refl, cc)
cut_once [] (d ∷ b) s t h k p = absurd (ground arith)
cut_once (c ∷ a) [] s t h k p = absurd (ground arith)
cut_once (c ∷ a) (d ∷ b) s t h k p =
    let rest = cut_once a b s t (ground arith) (ground arith) (cc) in (ground arith, rest.1)

join_id-injective :
    (k s i l t j : Text) → join_id k s i ≡ join_id l t j → (k ≡ l) × (s ≡ t) × (i ≡ j)
unfolding join_id
join_id-injective k s i l t j h =
    let first =
      cut_once (encode_id_segment k) (encode_id_segment l) _ _ (encode_id_segment-lacks_colon k)
        (encode_id_segment-lacks_colon l) h in
    let second =
      cut_once (encode_id_segment s) (encode_id_segment t) _ _ (encode_id_segment-lacks_colon s)
        (encode_id_segment-lacks_colon t) first.1 in
    (
      encode_id_segment-injective k l first.0,
      encode_id_segment-injective s t second.0,
      encode_id_segment-injective i j second.1,
    )

new_node_id-ok :
    (k s i : Text) {id : Text}
    → new_node_id k s i ≡ ok id
    → id ≡ join_id (to_lower (trim_space k)) (trim_space s) (trim_space i)
unfolding new_node_id
new_node_id-ok k s i h = ground arith

-- Nodes with one id have the same type up to case, the same scope and the same name, each up to
-- the blanks around it.
pub new_node_id-injective :
    (k s i l t j id : Text)
    → new_node_id k s i ≡ ok id
    → new_node_id l t j ≡ ok id
    → (to_lower (trim_space k) ≡ to_lower (trim_space l))
      × (trim_space s ≡ trim_space t)
      × (trim_space i ≡ trim_space j)
new_node_id-injective k s i l t j id h m =
    join_id-injective _ _ _ _ _ _ (sym (new_node_id-ok k s i h) ∙ new_node_id-ok l t j m)
