-- ===== src/Cgroups/Tests.antt =====
-- internal/cgrouptrack: the theorems at a unit, a table of processes and a migration.
use servicectl.Base.{
  ℕ, ◌≡◌, ◌↔◌, true, none, some, List, [], ◌∷◌, ◌==◌, nat_eq, contains, Distinct, ok, if◌then◌else◌,
  arith,
}
use servicectl.Base.Text.{Text, text, text_eq}
use servicectl.Cgroups.Units.{
  InstanceIdentity, UnitError, UnitKey, directory_name, decode_unit_directory,
}
use servicectl.Cgroups.Directories.{decode_unit_directory_iff}
use servicectl.Cgroups.Descendants.{Process, descendants}
use servicectl.Cgroups.Reached.{Descends, descendants-Descends}
use servicectl.Cgroups.Moves.{Act, World}
use servicectl.Cgroups.Migrate.{identity_of, migrate}
use servicectl.Cgroups.Moved.{IsMigrated}
use servicectl.Cgroups.Settled.{migrate-IsMigrated}

abbrev nginx : UnitKey
nginx = record { mode = text "system"; uid = 0; unit = text "nginx.service" }

decode_unit_directory_iff_example :
    (directory_name nginx ≡ ok (text "nginx")
      → decode_unit_directory (text "system") 0 (text "nginx") ≡ ok nginx)
    × (decode_unit_directory (text "system") 0 (text "nginx") ≡ ok nginx
        → directory_name nginx ≡ ok (text "nginx"))
decode_unit_directory_iff_example = decode_unit_directory_iff nginx (text "nginx")

abbrev child_of : ℕ → ℕ → Process
child_of parent pid = record { pid = pid; ppid = parent; uid = 0; start_time = 40 }

-- 5 has the child 7, and that the child 9; 8 is not one of them.
abbrev table : List Process
table = child_of 1 5 ∷ child_of 5 7 ∷ child_of 1 8 ∷ child_of 7 9 ∷ []

descendants-Descends_example :
    (found : List ℕ) × (descendants 5 5 table ≡ some found)
    × Distinct found
    × ((c : ℕ) → (contains found c ≡ true) ↔ Descends 5 table c)
descendants-Descends_example = descendants-Descends 5 5 table (omega arith)

parent_of : ℕ → ℕ
parent_of pid = if pid == 7 then 5 else 1

abbrev answers : World
answers = record {
  inspect = λ acts pid. ok (child_of (parent_of pid) pid);
  list_pids = λ acts. ok (5 ∷ 7 ∷ 8 ∷ []);
  ensure = λ acts. none;
  move_pid = λ acts pid. none;
  pids = λ acts. ok (5 ∷ 7 ∷ []);
  expired = λ acts. none;
}

abbrev run_of_nginx : InstanceIdentity
run_of_nginx = record {
  key = nginx;
  boot_id = text "b";
  main_pid = 5;
  main_pid_start_time = 40;
  vision_epoch = text "e";
  generation = 1;
}

abbrev invalid : UnitError → Text
invalid e = text "invalid"

answers-named :
    (acts : List Act) (pid : ℕ) (p : Process) → answers.inspect acts pid ≡ ok p → p.pid ≡ pid
answers-named acts pid p h = ground arith

migrate-IsMigrated_example :
    IsMigrated answers (identity_of run_of_nginx) (migrate answers invalid run_of_nginx 3)
migrate-IsMigrated_example = migrate-IsMigrated answers invalid run_of_nginx answers-named 3
