-- ===== src/Propertyd/Steps.antt =====
-- cmd/sys-propertyd/main.go: the operations of the daemon, one after the other.
use servicectl.Base.{Bool, List}
use servicectl.Base.Text.{Text}
use servicectl.Propertyd.Store.{Daemon, Write, Outcome}
use servicectl.Propertyd.Lists.{
  set_enabled_unit, replace_enabled_list, set_enabled_group, replace_runner_list, set_runner_unit,
}
use servicectl.Propertyd.Properties.{set_property}

-- What the handlers of changes call, with the mode first; the daemon's lock lets one run at a time.
pub data Operation : Type 0 where
  enabling_unit : Text → Text → Bool → Operation
  replacing_enabled : Text → List Text → Operation
  enabling_group : Text → Text → Bool → Operation
  replacing_runner : Text → List Text → Operation
  running_unit : Text → Text → Bool → Operation
  setting_property : Text → Text → Text → Bool → Operation

unfoldable pub run : Operation → Write → Daemon → Outcome
unfolding set_enabled_unit replace_enabled_list set_enabled_group replace_runner_list
    set_runner_unit set_property
run (enabling_unit mode unit enabled) w d = set_enabled_unit w d mode unit enabled
run (replacing_enabled mode units) w d = replace_enabled_list w d mode units
run (enabling_group mode group enabled) w d = set_enabled_group w d mode group enabled
run (replacing_runner mode units) w d = replace_runner_list d mode units
run (running_unit mode unit running) w d = set_runner_unit d mode unit running
run (setting_property mode key value persistent) w d = set_property w d key value persistent mode
