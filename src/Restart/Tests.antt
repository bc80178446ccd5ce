-- ===== src/Restart/Tests.antt =====
-- deps.go: the theorem at three units, one of them not started.
use servicectl.Base.{
  ◌≡◌, ◌↔◌, true, false, ◌||◌, not, Option, none, some, List, [], ◌∷◌, ◌==◌, contains, Distinct,
  if◌then◌else◌,
}
use servicectl.Base.Text.{Text, text, text_eq}
use servicectl.EnabledDag.Graph.{SystemdUnit}
use servicectl.Restart.Dependents.{DirEntry, Units, normalize_service_name}
use servicectl.Restart.Closure.{reverse_restart_closure}
use servicectl.Restart.Searched.{Restarts}
use servicectl.Restart.Restarted.{is_step, reverse_restart_closure-Restarts}

abbrev file : Text → DirEntry
file name = record { file_name = name; is_dir = false }

abbrev requiring : List Text → SystemdUnit
requiring names = record { requires = names; wants = []; after = []; binds_to = []; part_of = [] }

abbrev parsed : Text → Option SystemdUnit
parsed name =
    if name == text "web"
    then some (requiring (text "db.service" ∷ []))
    else if name == text "app" || name == text "old"
    then some (requiring (text "web.service" ∷ []))
    else some (requiring [])

-- `web` needs `db`; `app` and `old` need `web`; `old` is not started.
abbrev units : Units
units = record {
  wireplumber = false;
  directories =
      none
      ∷ some (file (text "db.service") ∷ file (text "web.service") ∷ file (text "README") ∷ [])
      ∷ some
          (file (text "app.service") ∷ file (text "web.service") ∷ file (text "old.service") ∷ [])
      ∷ [];
  parse = parsed;
  is_started = λ name. not (name == text "old");
}

reverse_restart_closure-Restarts_example :
    (order : List Text) × (reverse_restart_closure units (text "db") ≡ some order)
    × Distinct order
    × ((c : Text)
        → (contains order c ≡ true)
          ↔ Restarts
              (is_step units (normalize_service_name false (text "db")))
              (normalize_service_name false (text "db"))
              c)
reverse_restart_closure-Restarts_example = reverse_restart_closure-Restarts units (text "db")
