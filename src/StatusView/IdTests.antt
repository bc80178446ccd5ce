-- ===== src/StatusView/IdTests.antt =====
-- Runs of the canonical names of internal/statusview, and the theorems applied to them.
use servicectl.Base.{◌≡◌, refl, ok}
use servicectl.Base.Text.{text, trim_space, to_lower, text_beq, has_suffix}
use servicectl.StatusView.Ids.{
  canonical_unit_name, new_node_id, encode_id_segment, is_canonical_scope,
}
use servicectl.StatusView.Identity.{new_node_id-injective}

named : canonical_unit_name (text " nginx ") ≡ ok (text "nginx.service")
unfolding canonical_unit_name trim_space has_suffix
named = refl

made :
    new_node_id (text "Service") (text "system") (text "a b.service")
    ≡ ok (text "service:system:a%20b.service")
unfolding new_node_id trim_space to_lower is_canonical_scope text_beq encode_id_segment
made = refl

new_node_id-injective_example :
    (to_lower (trim_space (text "Service")) ≡ to_lower (trim_space (text "Service")))
    × (trim_space (text "system") ≡ trim_space (text "system"))
    × (trim_space (text "a b.service") ≡ trim_space (text "a b.service"))
new_node_id-injective_example =
    new_node_id-injective (text "Service") (text "system") (text "a b.service") (text "Service")
      (text "system") (text "a b.service") (text "service:system:a%20b.service") made made
