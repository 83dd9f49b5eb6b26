-- ===== src/Bringup/Commissioning/Runtime.antt =====
-- `RuntimeFailure` of `MotorCommissioningCore`: what ends a run that has begun.
use mentor_pi_ros.Prelude.{
  ℕ, Bool, true, false, not, ◌&&◌, ◌||◌, List, [], ◌∷◌, ltb, ◌==◌, ◌!=◌, if◌then◌else◌, get_or,
}
use mentor_pi_ros.Prelude.Int.{ℤ, pos, ltb_ℤ, ◌-ℤ◌}
use mentor_pi_ros.Bringup.Core.{is_some}
use mentor_pi_ros.Bringup.Commissioning.{
  Floats, State, is_none, Failure, motion_authorization_lost, heartbeat_lost, heartbeat_not_ready,
  session_invalid, session_changed, mcu_reset_detected, diagnostics_lost, diagnostics_not_active,
  diagnostics_session_mismatch, motor_state_lost, motor_state_invalid, motor_watchdog_triggered,
  drive_cadence_lost, command_publisher_conflict, command_rejected,
}
use mentor_pi_ros.Bringup.Commissioning.Motion.{
  is_fresh, motors, selected_motor_index, motor_state_is_finite, validate_motor_state_for_phase,
  validate_physical_motion,
}
use mentor_pi_ros.Bringup.Commissioning.Core.{
  authorization_or_default, diagnostics_or_default, heartbeat_or_default, is_driving,
  is_ready_heartbeat_state, session_active,
}

-- `==` on two arrays.
unfoldable pub same_counters : List ℕ → List ℕ → Bool
same_counters [] [] = true
same_counters [] (y ∷ ys) = false
same_counters (x ∷ xs) [] = false
same_counters (x ∷ xs) (y ∷ ys) = x == y && same_counters xs ys

module _ {F : Type 0} (ops : Floats F) where
  -- The last test that a state passes at `now`, after those on the session.
  abbrev pub motor_failure : State F → ℤ → Failure
  motor_failure c now =
      let m = motors ops c in
      let target = validate_motor_state_for_phase ops c in
      if not (is_some c.observed.motor_state) || not (is_fresh m.arrival_time_ms now 200)
      then motor_state_lost
      else if not (motor_state_is_finite ops c)
      then motor_state_invalid
      else if m.watchdog_stop_mask != 0
      then motor_watchdog_triggered
      else if not (is_none target)
      then target
      else validate_physical_motion ops c

  abbrev pub diagnostics_failure : State F → ℤ → Failure
  diagnostics_failure c now =
      let d = diagnostics_or_default c.observed.diagnostics in
      let b = c.baseline in
      let rejections = get_or d.motor_command_rejections (selected_motor_index ops c) 0 in
      if not (is_some c.observed.diagnostics) || not (is_fresh d.arrival_time_ms now 1500)
      then diagnostics_lost
      else if d.session_generation != b.session_id
      then diagnostics_session_mismatch
      else if c.observed.diagnostics_discontinuity
      then mcu_reset_detected
      else if d.session_state != session_active
      then diagnostics_not_active
      else if d.command_rejections != b.command_rejections || rejections != b.motor_rejections
      then command_rejected
      else if not (same_counters d.motor_lease_expiries b.motor_lease_expiries)
          || d.motor_watchdog_trips != b.motor_watchdog_trips
      then motor_watchdog_triggered
      else motor_failure c now

  unfoldable pub runtime_failure : State F → ℤ → Failure
  unfolding same_counters motor_state_is_finite validate_motor_state_for_phase
      validate_physical_motion
  runtime_failure c now =
      let o = c.observed in
      let b = c.baseline in
      let h = heartbeat_or_default o.heartbeat in
      let a = authorization_or_default o.authorization in
      if o.publisher_conflict
      then command_publisher_conflict
      else if is_driving ops c
          && ltb 0 c.drive_commands
          && (ltb_ℤ now c.last_drive_publish_time_ms
              || ltb_ℤ (pos 100) (now -ℤ c.last_drive_publish_time_ms))
      then drive_cadence_lost
      else if not o.publisher_valid
          || not (is_some o.authorization)
          || a.configuration_generation != b.configuration_generation
          || a.agent_session_id != b.session_id
      then motion_authorization_lost
      else if not (is_some o.heartbeat) || not (is_fresh h.arrival_time_ms now 1000)
      then heartbeat_lost
      else if h.agent_session_id == 0
      then session_invalid
      else if h.agent_session_id != b.session_id
      then session_changed
      else if o.heartbeat_discontinuity
      then mcu_reset_detected
      else if not (is_ready_heartbeat_state h.state)
      then heartbeat_not_ready
      else diagnostics_failure c now
