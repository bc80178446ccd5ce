-- ===== src/Orchestrd/Stable.antt =====
-- What every step of cmd/sys-orchestrd keeps if the daemon's elementary acts keep it: a property of
-- daemons goes through the handlers once, here.
use servicectl.Base.{
  ℕ, zero, suc, Bool, not, ◌||◌, ◌&&◌, Option, none, some, List, [], ◌∷◌, Result, ok, err, if-intro,
  contains, ◌==◌,
}
use servicectl.Base.Text.{Text, text, text_eq, trim_space, is_empty}
use servicectl.Orchestrd.Daemon.{
  Daemon, OperationError, Effect, wrote, published, ran, asked_unit, asked_unit_groups, does,
  announce, write_state, is_group_mode,
}
use servicectl.Orchestrd.Fuse.{
  record_attempt_success, record_attempt_failure, clear_fuse, retry, settle,
  attempt_start_with_retry, Runner,
}
use servicectl.Orchestrd.World.{
  World, GroupState, UnitSnapshot, Reply, answered, run_servicectl, run_group_action, after_unit,
  name_unit, query_unit, query_group, refresh_groups, keep_groups, start_order_for_group_units,
  snapshot_is_running,
}
use servicectl.Orchestrd.Handlers.{
  EventEnvelope, field, is_enabled, finish_stop, start_unit, join_group, handle_group_change,
  start_ordered, start_group, group_not_found, know_units, change_own_group,
  handle_group_scoped_change, sync_group, initial_group_sync, handle_notify, report_ready,
  report_stopping, renew, handle_servicectl, handle_property, handle_event, sync_unit, initial_sync,
}

-- An act that is no report of the daemon's state.
abbrev pub IsQuiet : Effect → Type 0
IsQuiet (wrote _) = ⊥
IsQuiet (published _) = ⊥
IsQuiet _ = Unit

pub record Stable (P : Daemon → Type 0) : Type 0 where
  pub acts : (e : Effect) (d : Daemon) → IsQuiet e → P d → P (does e d)
  pub announces : (state reason : Text) (d : Daemon) → P d → P (announce state reason d)
  pub names : (unit : Text) (d : Daemon) → P d → P (name_unit unit d)
  pub joins : (groups : List Text) (d : Daemon) → P d → P (record d { groups = groups })
  pub knows : (units : List Text) (d : Daemon) → P d → P (know_units units d)
  pub succeeds : (d : Daemon) → P d → P (record_attempt_success d)
  pub fails : (e : OperationError) (d : Daemon) → P d → P (record_attempt_failure e d)
  pub clears : (trigger : Text) (d : Daemon) → P d → P (clear_fuse trigger d)

module _ (P : Daemon → Type 0) (s : Stable P) where
  abbrev Keeps : Runner → Type 0
  Keeps runner = (d : Daemon) → P d → P ((runner d).0)

  run_servicectl-Stable : (w : World) (action : Text) → Keeps (run_servicectl w action)
  unfolding run_servicectl
  run_servicectl-Stable w action d p = s.acts (ran d.user_mode action d.unit) d tt p

  after_unit-Stable :
      (next : Runner) (d : Daemon) (o : Option OperationError)
      → Keeps next
      → P d
      → P ((after_unit next d o).0)
  unfolding after_unit
  after_unit-Stable next d none k p = k d p
  after_unit-Stable next d (some e) k p = p

  run_group_action-Stable :
      (w : World) (action : Text) (units : List Text) → Keeps (run_group_action w action units)
  unfolding run_group_action
  run_group_action-Stable w action [] d p = p
  run_group_action-Stable w action (unit ∷ rest) d p =
      after_unit-Stable (run_group_action w action rest) _ _ (run_group_action-Stable w action rest)
        (run_servicectl-Stable w action _ (s.names unit d p))

  settle-Stable :
      (again : Daemon → Daemon × Bool) (d : Daemon) (o : Option OperationError)
      → ((d : Daemon) → P d → P ((again d).0))
      → P d
      → P ((settle again d o).0)
  unfolding settle
  settle-Stable again d none k p = s.succeeds d p
  settle-Stable again d (some e) k p =
      if-intro (λ (r : Daemon × Bool). P (r.0)) ((record_attempt_failure e d).fused)
        (λ _. s.fails e d p) (λ _. k _ (s.fails e d p))

  retry-Stable :
      (rounds : ℕ) (runner : Runner) (d : Daemon)
      → Keeps runner
      → P d
      → P ((retry rounds runner d).0)
  unfolding retry
  retry-Stable zero runner d k p = p
  retry-Stable (suc rounds) runner d k p =
      settle-Stable (retry rounds runner) _ _ (λ d p. retry-Stable rounds runner d k p) (k d p)

  attempt-Stable :
      (runner : Runner) (d : Daemon)
      → Keeps runner
      → P d
      → P ((attempt_start_with_retry runner d).0)
  unfolding attempt_start_with_retry
  attempt-Stable runner d k p =
      if-intro (λ (r : Daemon × Bool). P (r.0)) d.fused (λ _. p)
        (λ _. retry-Stable d.max_failures runner d k p)

  finish_stop-Stable :
      (group : Text) (d : Daemon) (o : Option OperationError) → P d → P (finish_stop group d o)
  unfolding finish_stop
  finish_stop-Stable group d none p = s.announces _ _ _ (s.succeeds d p)
  finish_stop-Stable group d (some e) p = s.fails e d p

  join_group-Stable :
      (w : World) (group : Text) (d : Daemon) (r : Result OperationError UnitSnapshot)
      → P d
      → P (join_group w group d r)
  unfolding join_group start_unit
  join_group-Stable w group d (err e) p = s.fails _ d p
  join_group-Stable w group d (ok snapshot) p =
      if-intro P (snapshot_is_running snapshot) (λ _. p)
        (λ _. attempt-Stable _ _ (run_servicectl-Stable w (text "start")) (s.announces _ _ d p))

  handle_group_change-Stable :
      (w : World) (event : EventEnvelope) (d : Daemon) → P d → P (handle_group_change w event d)
  unfolding handle_group_change query_unit
  handle_group_change-Stable w event d p =
      if-intro P
        (is_empty (trim_space (field event (text "group")))
          || not (contains d.groups (trim_space (field event (text "group")))))
        (λ _. p)
        (λ _.
          if-intro P (is_enabled event)
            (λ _. join_group-Stable w _ _ _ (s.acts (asked_unit d.unit) d tt p))
            (λ _. finish_stop-Stable _ _ _ (run_servicectl-Stable w _ _ (s.announces _ _ d p))))

  start_ordered-Stable :
      (w : World) (reason : Text) (d : Daemon) (r : Result OperationError (List Text))
      → P d
      → P (start_ordered w reason d r)
  unfolding start_ordered
  start_ordered-Stable w reason d (err e) p = s.fails e d p
  start_ordered-Stable w reason d (ok units) p =
      if-intro P (not ((attempt_start_with_retry (run_group_action w (text "start") units) d).1))
        (λ _. started) (λ _. s.announces _ _ _ started)
    where
      started : P ((attempt_start_with_retry (run_group_action w (text "start") units) d).0)
      started = attempt-Stable _ d (run_group_action-Stable w (text "start") units) p

  start_group-Stable : (w : World) (reason : Text) (d : Daemon) → P d → P (start_group w reason d)
  unfolding start_group start_order_for_group_units
  start_group-Stable w reason d p =
      start_ordered-Stable w reason _ _ (s.acts _ _ tt (s.announces _ _ d p))

  group_not_found-Stable : (d : Daemon) → P d → P (group_not_found d)
  unfolding group_not_found know_units
  group_not_found-Stable d p = s.announces _ _ _ (s.knows [] d p)

  change_own_group-Stable :
      (w : World) (event : EventEnvelope) (group : Text) (d : Daemon) (o : Option GroupState)
      → P d
      → P (change_own_group w event group d o)
  unfolding change_own_group
  change_own_group-Stable w event group d none p = group_not_found-Stable d p
  change_own_group-Stable w event group d (some state) p =
      let known = s.knows state.units d p in
      if-intro P (is_enabled event) (λ _. start_group-Stable w _ _ (s.clears _ _ known))
        (λ _. finish_stop-Stable _ _ _ (run_group_action-Stable w _ _ _ (s.announces _ _ _ known)))

  handle_group_scoped_change-Stable :
      (w : World) (event : EventEnvelope) (d : Daemon)
      → P d
      → P (handle_group_scoped_change w event d)
  unfolding handle_group_scoped_change query_group
  handle_group_scoped_change-Stable w event d p =
      if-intro P (is_empty (trim_space (field event (text "group")))) (λ _. p)
        (λ _.
          if-intro P (is_group_mode d)
            (λ _.
              if-intro P (trim_space (field event (text "group")) == d.group)
                (λ _. change_own_group-Stable w event _ _ _ (s.acts _ d tt p)) (λ _. p))
            (λ _.
              if-intro P (not (contains d.groups (trim_space (field event (text "group")))))
                (λ _. p) (λ _. handle_group_change-Stable w event d p)))

  sync_group-Stable : (w : World) (d : Daemon) (o : Option GroupState) → P d → P (sync_group w d o)
  unfolding sync_group
  sync_group-Stable w d none p = group_not_found-Stable d p
  sync_group-Stable w d (some state) p =
      let known = s.knows state.units d p in
      if-intro P (not state.enabled) (λ _. s.announces _ _ _ known)
        (λ _. start_group-Stable w _ _ (s.clears _ _ known))

  pub initial_group_sync-Stable : (w : World) (d : Daemon) → P d → P (initial_group_sync w d)
  unfolding initial_group_sync query_group
  initial_group_sync-Stable w d p = sync_group-Stable w _ _ (s.acts _ d tt p)

  report_ready-Stable : (phase child : Text) (d : Daemon) → P d → P (report_ready phase child d)
  unfolding report_ready
  report_ready-Stable phase child d p =
      if-intro P (phase == text "ready" || child == text "running") (λ _. s.announces _ _ d p)
        (λ _. p)

  report_stopping-Stable :
      (phase child : Text) (d : Daemon) → P d → P (report_stopping phase child d)
  unfolding report_stopping
  report_stopping-Stable phase child d p =
      if-intro P (phase == text "stopping" || child == text "stopping") (λ _. s.announces _ _ d p)
        (λ _. p)

  handle_notify-Stable : (event : EventEnvelope) (d : Daemon) → P d → P (handle_notify event d)
  unfolding handle_notify
  handle_notify-Stable event d p =
      if-intro P (not (is_empty (trim_space (field event (text "failure")))))
        (λ _. s.announces _ _ d p) (λ _. report_stopping-Stable _ _ _ (report_ready-Stable _ _ d p))

  renew-Stable : (event : EventEnvelope) (d : Daemon) → P d → P (renew event d)
  unfolding renew
  renew-Stable event d p =
      if-intro P (event.kind == text "group.changed" || event.kind == text "property.changed")
        (λ _. s.clears _ d p) (λ _. p)

  handle_property-Stable :
      (w : World) (event : EventEnvelope) (d : Daemon) → P d → P (handle_property w event d)
  unfolding handle_property
  handle_property-Stable w event d p =
      if-intro P (event.kind == text "group.changed")
        (λ _. handle_group_scoped_change-Stable w event _ (renew-Stable event d p))
        (λ _. renew-Stable event d p)

  pub handle_event-Stable :
      (w : World) (event : EventEnvelope) (d : Daemon) → P d → P (handle_event w event d)
  unfolding handle_event handle_servicectl
  handle_event-Stable w event d p =
      if-intro P (event.source == text "sys-notifyd") (λ _. handle_notify-Stable event d p)
        (λ _.
          if-intro P (event.source == text "servicectl")
            (λ _.
              if-intro P
                (field event (text "action") == text "stop"
                  && field event (text "result") == text "ok")
                (λ _. s.announces _ _ d p) (λ _. p))
            (λ _.
              if-intro P (event.source == text "sys-propertyd")
                (λ _. handle_property-Stable w event d p) (λ _. p)))

  keep_groups-Stable : (d : Daemon) (r : Reply (List GroupState)) → P d → P (keep_groups d r)
  unfolding keep_groups
  keep_groups-Stable d (answered groups) p = s.joins _ d p
  keep_groups-Stable d _ p = p

  pub refresh_groups-Stable : (w : World) (d : Daemon) → P d → P (refresh_groups w d)
  unfolding refresh_groups
  refresh_groups-Stable w d p = keep_groups-Stable _ _ (s.acts (asked_unit_groups d.unit) d tt p)

  module _
      (writes : (state reason : Text) (d : Daemon) → P d → P (write_state state reason d)) where
    pub sync_unit-Stable :
        (w : World) (d : Daemon) (r : Result OperationError UnitSnapshot)
        → P d
        → P ((sync_unit w d r).0)
    unfolding sync_unit
    sync_unit-Stable w d (err e) p = writes _ _ d p
    sync_unit-Stable w d (ok snapshot) p =
        if-intro (λ (r : Daemon × Bool). P (r.0)) (snapshot_is_running snapshot)
          (λ _. s.announces _ _ _ (refresh_groups-Stable w d p))
          (λ _.
            attempt-Stable _ _ (run_servicectl-Stable w (text "start"))
              (refresh_groups-Stable w _ (s.announces _ _ d p)))

    pub initial_sync-Stable :
        (w : World) (rounds : ℕ) (d : Daemon) → P d → P ((initial_sync w rounds d).0)
    unfolding initial_sync query_unit
    initial_sync-Stable w zero d p = p
    initial_sync-Stable w (suc rounds) d p =
        let q = sync_unit-Stable w _ _ (s.acts _ d tt p) in
        if-intro (λ (r : Daemon × Bool). P (r.0)) _ (λ _. q) (λ _. initial_sync-Stable w rounds _ q)
