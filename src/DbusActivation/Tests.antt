-- ===== src/DbusActivation/Tests.antt =====
-- Runs of internal/dbusactivation on concrete packets, environments and backends, and the theorems
-- applied to them.
use servicectl.Base.{
  ℕ, ◌≡◌, ◌≤◌, ◌*◌, ◌^◌, refl, true, none, some, List, [], ◌∷◌, ◌++◌, All, ok, Map, get, put,
  contains, length, nat_eq, arith,
}
use servicectl.Base.Text.{Text, text, text_eq, text_beq, has_byte, has_prefix, trim_space}
use servicectl.DbusActivation.Wire.{is_utf8}
use servicectl.DbusActivation.Protocol.{Packet, encode_packet, decode_packet, packet_header}
use servicectl.DbusActivation.PacketRoundTrip.{decode_packet-encode_packet}
use servicectl.DbusActivation.Messages.{
  ActivateRequest, ActivationResult, encode_activate, encode_activation_result, is_bus_name,
  validate_bus_name,
}
use servicectl.DbusActivation.Environment.{filter_environment}
use servicectl.DbusActivation.Filter.{
  entries_size, Allowed, assigned, filter_environment-IsFiltered,
}
use servicectl.DbusActivation.Routes.{
  native, ServiceDefinition, UnitResolver, select_route, legacy_managed_route,
}
use servicectl.DbusActivation.Selected.{Fits, select_route-Fits}
use servicectl.DbusActivation.Engine.{Backend, no_owner, changed, activate_job, success}
use servicectl.DbusActivation.Outcome.{IsDone, activate_job-IsDone}
use servicectl.DbusActivation.Jobs.{Engine, new_engine, activate, unused, activated, Runs-single}

abbrev ping : Packet
ping = record { message_type = 8; request_id = 258; flags = 0; payload = [] }

encoded : encode_packet ping ≡ ok (packet_header ping ++ [])
unfolding encode_packet
encoded = refl

decode_packet-encode_packet_example : decode_packet (packet_header ping ++ []) ≡ ok ping
decode_packet-encode_packet_example =
    decode_packet-encode_packet ping (packet_header ping ++ []) (omega arith) encoded

abbrev request : ActivateRequest
request = record { frontend = 1; bus_name = text "org.a" }

request_encoded : encode_activate request ≡ ok (1 ∷ 0 ∷ 5 ∷ text "org.a")
unfolding encode_activate validate_bus_name is_bus_name is_utf8 has_prefix has_byte
request_encoded = refl

abbrev timed_out : ActivationResult
timed_out = record { code = 19; detail = text "late" }

result_encoded : encode_activation_result timed_out ≡ ok (0 ∷ 19 ∷ 0 ∷ 4 ∷ text "late")
unfolding encode_activation_result is_utf8
result_encoded = refl

-- A blocked name, a name given twice, and an entry without a value.
abbrev some_entries : List Text
some_entries = text "ENV=x" ∷ text "LANG=C" ∷ text "LANG=de" ∷ text "TERM" ∷ []

abbrev german : Map Text Text
german = (text "LANG", text "de") ∷ []

filtered : filter_environment some_entries ≡ ok german
unfolding filter_environment has_byte text_beq contains put get
filtered = refl

filter_environment-IsFiltered_example :
    (length german ≤ 256)
    × (entries_size german ≤ 32 * 2 ^ 10)
    × All Allowed german
    × ((key : Text) → get german key ≡ assigned key some_entries none)
filter_environment-IsFiltered_example = filter_environment-IsFiltered some_entries german filtered

abbrev helper : ℕ
helper = 1

abbrev admin : ℕ
admin = 2

-- A service of its own command, whose name no unit claims.
abbrev echo_service : ServiceDefinition
echo_service = record {
  name = text "org.a";
  argv = text "/usr/bin/echo" ∷ [];
  user = text "nobody";
  systemd_service = [];
  path = text "/usr/share/org.a.service";
  priority = 0;
}

abbrev no_units : UnitResolver
no_units = record {
  resolve_explicit = λ unit. ok (record { unit = unit; service_name = []; control_path = [] });
  resolve_bus_name = λ name. ok [];
}

selected :
    select_route echo_service (some no_units)
    ≡ ok (native (text "/usr/bin/echo" ∷ []) (text "nobody"))
unfolding select_route trim_space legacy_managed_route
selected = refl

select_route-Fits_example :
    Fits (some no_units) echo_service (select_route echo_service (some no_units))
select_route-Fits_example = select_route-Fits echo_service (some no_units)

-- A bus on which the name appears after the start.
abbrev appearing : Backend
appearing = record {
  resolve = ok (native (text "/usr/bin/echo" ∷ []) (text "nobody"));
  watch = λ _. none;
  owner = λ _. no_owner;
  start = λ _ _ _. ok true;
  events = changed (text "org.b") (text ":1.7") ∷ changed (text "org.a") (text ":1.8") ∷ [];
}

succeeded : (activate_job appearing (text "org.a") []).1 ≡ success
unfolding activate_job text_beq
succeeded = refl

activate_job-IsDone_example : IsDone (text "org.a") (activate_job appearing (text "org.a") [])
activate_job-IsDone_example = activate_job-IsDone appearing (text "org.a") []

abbrev one_job : Engine
one_job = (activate (text "org.a") new_engine).0

Runs-single_example :
    ((i j : ℕ)
      → get one_job.running i ≡ some (text "org.a")
      → get one_job.running j ≡ some (text "org.a")
      → i ≡ j)
    × ((job : ℕ)
        → get one_job.running job ≡ some (text "org.a")
        → (activate (text "org.a") one_job).1 ≡ job)
    × (get (activate (text "org.a") one_job).0.running (activate (text "org.a") one_job).1
        ≡ some (text "org.a"))
Runs-single_example = Runs-single one_job (text "org.a") (activated (text "org.a") unused)
