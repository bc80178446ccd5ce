-- ===== src/DbusActivation/IndexTests.antt =====
-- Runs of the index of service files of internal/dbusactivation, and the theorem applied to them.
use servicectl.Base.{◌≡◌, refl, false, List, [], ◌∷◌, ok, get, put}
use servicectl.Base.Text.{Text, text, text_beq, trim_space, has_suffix, has_prefix, has_byte}
use servicectl.DbusActivation.Environment.{cut_equals}
use servicectl.DbusActivation.Wire.{is_utf8}
use servicectl.DbusActivation.Messages.{is_bus_name}
use servicectl.DbusActivation.ServiceFile.{split_command_line, parse_service_file}
use servicectl.DbusActivation.Index.{Directory, missing, holding, build_index, lookup, several}
use servicectl.DbusActivation.Lookup.{first_found}
use servicectl.DbusActivation.Decided.{lookup-build_index}

split : split_command_line (text "sh -c 'a b'\\n") ≡ ok (text "sh" ∷ text "-c" ∷ text "a bn" ∷ [])
unfolding split_command_line
split = refl

-- Two files of a directory that define one name.
abbrev echo_lines : List Text
echo_lines =
    text "[D-BUS Service]" ∷ text "Name=org.a" ∷ text "Exec=/bin/echo" ∷ text "User=nobody" ∷ []

abbrev echo_directory : Directory
echo_directory = holding (text "/usr/share") (
    record { file_name = text "a.service"; is_dir = false; lines = ok echo_lines }
    ∷ record { file_name = text "b.service"; is_dir = false; lines = ok echo_lines }
    ∷ [])

refused_twice : lookup (build_index (missing ∷ echo_directory ∷ [])).0 (text "org.a") ≡ several
unfolding lookup build_index get has_suffix parse_service_file trim_space has_prefix text_beq
    cut_equals split_command_line is_bus_name is_utf8 has_byte put
refused_twice = refl

lookup-build_index_example :
    lookup (build_index (missing ∷ echo_directory ∷ [])).0 (text "org.a")
    ≡ first_found (text "org.a") 0 (missing ∷ echo_directory ∷ [])
lookup-build_index_example = lookup-build_index (text "org.a") (missing ∷ echo_directory ∷ [])
