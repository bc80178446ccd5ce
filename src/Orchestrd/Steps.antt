-- ===== src/Orchestrd/Steps.antt =====
-- cmd/sys-orchestrd/main.go: the daemon that `main` makes, and what it does from then on.
use servicectl.Base.{ℕ, Bool, false, not, [], ◌++◌, if◌then◌else◌}
use servicectl.Base.Text.{Text, text, trim_space, trim_suffix, is_empty}
use servicectl.EnabledDag.Names.{sanitize_s6_name}
use servicectl.Orchestrd.Daemon.{Daemon, max_failure_threshold, write_state}
use servicectl.Orchestrd.World.{World}
use servicectl.Orchestrd.Handlers.{EventEnvelope, handle_event, initial_sync, initial_group_sync}

unfoldable pub orchestrd_service_name : Text → Text → Text
orchestrd_service_name unit group =
    if not (is_empty (trim_space group))
    then text "group-" ++ (sanitize_s6_name group (text "service") ++ text "-orchestrd")
    else sanitize_s6_name (trim_suffix (trim_space unit) (text ".service")) (text "service")
      ++ text "-orchestrd"

-- The daemon of `main` after the state that `run` writes first; `setting` is the bound's variable
-- in the environment.
unfoldable pub new_daemon : Text → Text → Bool → Text → Daemon
new_daemon unit group user_mode setting = write_state (text "waiting") (text "startup") (record {
  unit = trim_space unit;
  group = trim_space group;
  user_mode = user_mode;
  service_name = orchestrd_service_name (trim_space unit) (trim_space group);
  state = text "waiting";
  max_failures = max_failure_threshold setting;
  failure_count = 0;
  fused = false;
  fuse_reason = [];
  groups = [];
  group_units = [];
  log = [];
})

-- What a daemon may have come to: its first synchronisation, of its unit or of its group (again
-- while the group is not known), and the events in the order in which they come.
pub data Reaches (w : World) (start : Daemon) : Daemon → Type 0 where
  here : Reaches w start start
  synced :
      {d : Daemon} (rounds : ℕ) → Reaches w start d → Reaches w start ((initial_sync w rounds d).0)
  group_synced : {d : Daemon} → Reaches w start d → Reaches w start (initial_group_sync w d)
  handled :
      {d : Daemon} (event : EventEnvelope)
      → Reaches w start d
      → Reaches w start (handle_event w event d)
