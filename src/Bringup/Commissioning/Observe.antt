-- ===== src/Bringup/Commissioning/Observe.antt =====
-- The observers of `MotorCommissioningCore`: what the topics and the graph tell it.
use mentor_pi_ros.Prelude.{
  Bool, true, false, not, ◌&&◌, ◌||◌, some, ltb, ◌==◌, if◌then◌else◌, get_or,
}
use mentor_pi_ros.Prelude.Int.{leb_ℤ}
use mentor_pi_ros.Bringup.Core.{is_some}
use mentor_pi_ros.Bringup.Commissioning.{
  Floats, State, MotorState, Authorization, Heartbeat, Diagnostics, pre_stop, post_stop,
}
use mentor_pi_ros.Bringup.Commissioning.Motion.{
  serial_number_regressed, motors, measured_at, selected_motor_index, encoder_delta,
  motor_targets_are_zero, motors_are_stationary, motor_state_is_finite, selected_target_matches,
  selected_response_direction_matches, response_threshold, has_advanced, has_receded, turns_forward,
  turns_backward,
}
use mentor_pi_ros.Bringup.Commissioning.Core.{
  heartbeat_or_default, diagnostics_or_default, is_driving,
}

module _ {F : Type 0} where
  unfoldable pub observe_motion_authorization_publisher : Bool → State F → State F
  observe_motion_authorization_publisher valid c = record c {
    observed = record (c.observed) { publisher_valid = valid };
  }

  unfoldable pub observe_motion_authorization : Authorization → State F → State F
  observe_motion_authorization a c = record c {
    observed = record (c.observed) { authorization = some a };
  }

  unfoldable pub observe_heartbeat : Heartbeat → State F → State F
  unfolding serial_number_regressed
  observe_heartbeat h c =
      let last = heartbeat_or_default c.observed.heartbeat in
      record c {
        observed = record (c.observed) {
          heartbeat_discontinuity =
              c.observed.heartbeat_discontinuity
              || (is_some c.observed.heartbeat
                  && h.agent_session_id == last.agent_session_id
                  && (serial_number_regressed h.uptime_ms last.uptime_ms
                      || serial_number_regressed h.sequence last.sequence));
          heartbeat = some h;
        };
      }

  unfoldable pub observe_diagnostics : Diagnostics → State F → State F
  unfolding serial_number_regressed
  observe_diagnostics d c =
      let last = diagnostics_or_default c.observed.diagnostics in
      record c {
        observed = record (c.observed) {
          diagnostics_discontinuity =
              c.observed.diagnostics_discontinuity
              || (is_some c.observed.diagnostics
                  && d.session_generation == last.session_generation
                  && serial_number_regressed d.uptime_ms last.uptime_ms);
          diagnostics = some d;
        };
      }

  unfoldable pub observe_command_publisher_conflict : Bool → State F → State F
  observe_command_publisher_conflict conflict c = record c {
    observed = record (c.observed) { publisher_conflict = conflict };
  }

  abbrev pub is_pre_stop : State F → Bool
  is_pre_stop c = elim (c.phase) [ pre_stop ↦ true | _ ↦ false ]

  abbrev pub is_post_stop : State F → Bool
  is_post_stop c = elim (c.phase) [ post_stop ↦ true | _ ↦ false ]

module _ {F : Type 0} (ops : Floats F) where
  -- `std::max`.
  abbrev pub larger : F → F → F
  larger a b = if ops.less a b then b else a

  -- The motors as they were last measured.
  unfoldable pub measure_motors : MotorState F → State F → State F
  measure_motors m c =
      let measured = get_or m.measured_rps (selected_motor_index ops c) ops.zero in
      record c {
        latest_encoder = m.encoder_count;
        final_measured_rps = measured;
        peak_absolute_measured_rps = larger c.peak_absolute_measured_rps (ops.absolute measured);
      }

  -- `observation.arrival_time_ms >= phase_start_time_ms_`.
  abbrev pub is_of_phase : MotorState F → State F → Bool
  is_of_phase m c = leb_ℤ c.phase_start_time_ms m.arrival_time_ms

  unfoldable pub confirm_pre_stop : MotorState F → State F → State F
  unfolding motor_targets_are_zero
  confirm_pre_stop m c = record c {
    pre_stop_zero_confirmed =
        c.pre_stop_zero_confirmed
        || (is_pre_stop c
            && ltb 0 c.pre_stop_commands
            && is_of_phase m c
            && motor_targets_are_zero ops c);
  }

  abbrev pub is_on_target : MotorState F → State F → Bool
  is_on_target m c =
      is_driving ops c
      && ltb 0 c.drive_commands
      && is_of_phase m c
      && selected_target_matches ops c 0 (motors ops c).target_rps

  abbrev pub has_responded : State F → Bool
  has_responded c =
      let delta = encoder_delta ops c (selected_motor_index ops c) in
      ops.at_most (response_threshold ops c)
        (ops.absolute (measured_at ops c (selected_motor_index ops c)))
      && selected_response_direction_matches ops c
      && ((turns_forward ops c && has_advanced ops delta)
          || (turns_backward ops c && has_receded ops delta))

  unfoldable pub note_response : MotorState F → State F → State F
  unfolding selected_target_matches encoder_delta
  note_response m c = record c {
    target_observed = c.target_observed || is_on_target m c;
    physical_response_observed =
        c.physical_response_observed || (is_on_target m c && has_responded c);
  }

  abbrev pub is_settling : MotorState F → State F → Bool
  is_settling m c = is_post_stop c && ltb 0 c.post_stop_commands && is_of_phase m c

  unfoldable pub note_settling : MotorState F → State F → State F
  unfolding motor_targets_are_zero motors_are_stationary
  note_settling m c = record c {
    post_stop_zero_seen =
        c.post_stop_zero_seen || (is_settling m c && motor_targets_are_zero ops c);
    post_stop_zero_confirmed =
        if is_settling m c
        then motor_targets_are_zero ops c && motors_are_stationary ops c
        else c.post_stop_zero_confirmed;
  }

  abbrev pub with_motor_state : MotorState F → State F → State F
  with_motor_state m c = record c { observed = record (c.observed) { motor_state = some m } }

  unfoldable pub observe_motor_state : MotorState F → State F → State F
  unfolding motor_state_is_finite measure_motors confirm_pre_stop note_response note_settling
  observe_motor_state m c =
      let seen = with_motor_state m c in
      if not (motor_state_is_finite ops seen)
        || ltb c.configuration.motor_id 1
        || ltb 4 c.configuration.motor_id
      then seen
      else note_settling m (note_response m (confirm_pre_stop m (measure_motors m seen)))
