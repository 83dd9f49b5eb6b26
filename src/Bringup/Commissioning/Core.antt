-- ===== src/Bringup/Commissioning/Core.antt =====
-- The public operations of `MotorCommissioningCore`, and the private steps that change its phase.
use text.Mathlib.Text.{◌==◌ as str_eq}
use mentor_pi_ros.Prelude.{
  ℕ, Bool, true, false, not, ◌&&◌, ◌||◌, Option, none, some, ltb, ◌==◌, ◌!=◌, if◌then◌else◌, get_or,
  replicate,
}
use mentor_pi_ros.Prelude.Int.{ℤ, pos}
use mentor_pi_ros.Bringup.Core.{is_some}
use mentor_pi_ros.Bringup.Commissioning.{
  Floats, State, Configuration, Authorization, Heartbeat, Diagnostics, awaiting_prerequisites,
  pre_stop, drive, post_stop, succeeded, failed, no_baseline, nothing_observed, is_none, Failure,
  no_failure, invalid_acknowledgement, invalid_motor_id, invalid_target, invalid_duration,
  target_not_observed, physical_response_not_observed, post_stop_not_confirmed,
}
use mentor_pi_ros.Bringup.Commissioning.Motion.{
  is_fresh, motors, measured_at, selected_motor_index, motor_targets_are_zero,
  motors_are_stationary, motor_state_is_finite,
}

abbrev pub is_ready_heartbeat_state : ℕ → Bool
is_ready_heartbeat_state state = state == 1 || state == 2

abbrev pub session_active : ℕ
session_active = 3

abbrev pub heartbeat_or_default : Option Heartbeat → Heartbeat
heartbeat_or_default none = record {
  arrival_time_ms = pos 0;
  sequence = 0;
  uptime_ms = 0;
  agent_session_id = 0;
  state = 0;
}
heartbeat_or_default (some h) = h

abbrev pub diagnostics_or_default : Option Diagnostics → Diagnostics
diagnostics_or_default none = record {
  arrival_time_ms = pos 0;
  uptime_ms = 0;
  session_generation = 0;
  command_rejections = 0;
  motor_command_rejections = replicate 4 0;
  motor_lease_expiries = replicate 4 0;
  motor_watchdog_trips = 0;
  session_state = 0;
}
diagnostics_or_default (some d) = d

abbrev pub authorization_or_default : Option Authorization → Authorization
authorization_or_default none = record {
  arrival_time_ms = pos 0;
  configuration_generation = 0;
  agent_session_id = 0;
}
authorization_or_default (some a) = a

-- The failure that is kept when another one is remembered: the first.
abbrev pub first_failure : Failure → Failure → Failure
first_failure kept found = if is_none kept && not (is_none found) then found else kept

module _ {F : Type 0} (ops : Floats F) where
  unfoldable pub validate_configuration : Configuration F → Failure
  validate_configuration f =
      let target = ops.absolute f.target_rps in
      if not (str_eq f.acknowledgement "MOTORS_RAISED_CURRENT_LIMITED")
      then invalid_acknowledgement
      else if ltb f.motor_id 1 || ltb 4 f.motor_id
      then invalid_motor_id
      else if not (ops.is_finite f.target_rps)
          || ops.less target ops.minimum_target
          || ops.less ops.maximum_target target
      then invalid_target
      else if ltb f.duration_ms 100 || ltb 5000 f.duration_ms
      then invalid_duration
      else no_failure

  -- The constructor.
  unfoldable pub initial : Configuration F → State F
  unfolding validate_configuration
  initial f = record {
    configuration = f;
    phase = if is_none (validate_configuration f) then awaiting_prerequisites else failed;
    failure = validate_configuration f;
    phase_start_time_ms = f.start_time_ms;
    observed = nothing_observed;
    baseline = no_baseline;
    latest_encoder = replicate 4 (pos 0);
    peak_absolute_measured_rps = ops.zero;
    final_measured_rps = ops.zero;
    target_observed = false;
    physical_response_observed = false;
    pre_stop_zero_confirmed = false;
    post_stop_zero_confirmed = false;
    post_stop_zero_seen = false;
    abort_requested = false;
    last_drive_publish_time_ms = pos 0;
    pre_stop_commands = 0;
    drive_commands = 0;
    post_stop_commands = 0;
  }

  abbrev pub is_complete : State F → Bool
  is_complete c = elim (c.phase) [ succeeded ↦ true | failed ↦ true | _ ↦ false ]

  -- PrerequisitesSatisfied.
  unfoldable pub prerequisites_satisfied : State F → ℤ → Bool
  unfolding motor_state_is_finite motor_targets_are_zero motors_are_stationary
  prerequisites_satisfied c now =
      let o = c.observed in
      let h = heartbeat_or_default o.heartbeat in
      let d = diagnostics_or_default o.diagnostics in
      let m = motors ops c in
      o.publisher_valid
      && is_some o.authorization
      && is_some o.heartbeat
      && is_fresh h.arrival_time_ms now 1000
      && h.agent_session_id != 0
      && (authorization_or_default o.authorization).agent_session_id == h.agent_session_id
      && is_ready_heartbeat_state h.state
      && is_some o.diagnostics
      && is_fresh d.arrival_time_ms now 1500
      && d.session_generation == h.agent_session_id
      && d.session_state == session_active
      && is_some o.motor_state
      && is_fresh m.arrival_time_ms now 200
      && motor_state_is_finite ops c
      && motor_targets_are_zero ops c
      && motors_are_stationary ops c
      && m.watchdog_stop_mask == 0
      && not o.heartbeat_discontinuity
      && not o.diagnostics_discontinuity
      && not o.publisher_conflict

  abbrev pub is_driving : State F → Bool
  is_driving c = elim (c.phase) [ drive ↦ true | _ ↦ false ]

  abbrev pub remember_failure : Failure → State F → State F
  remember_failure found c = record c { failure = first_failure c.failure found }

  unfoldable pub begin_post_stop : Failure → ℤ → State F → State F
  begin_post_stop found now c = record (remember_failure found c) {
    phase = post_stop;
    phase_start_time_ms = now;
    post_stop_commands = 0;
    post_stop_zero_confirmed = false;
    post_stop_zero_seen = false;
  }

  unfoldable pub lock_prerequisites : ℤ → State F → State F
  lock_prerequisites now c =
      let d = diagnostics_or_default c.observed.diagnostics in
      let m = motors ops c in
      let measured = measured_at ops c (selected_motor_index ops c) in
      record c {
        baseline = record {
          session_id = (heartbeat_or_default c.observed.heartbeat).agent_session_id;
          configuration_generation =
              (authorization_or_default c.observed.authorization).configuration_generation;
          command_rejections = d.command_rejections;
          motor_rejections = get_or d.motor_command_rejections (selected_motor_index ops c) 0;
          motor_lease_expiries = d.motor_lease_expiries;
          motor_watchdog_trips = d.motor_watchdog_trips;
          encoder_seen = true;
          encoder = m.encoder_count;
        };
        latest_encoder = m.encoder_count;
        final_measured_rps = measured;
        peak_absolute_measured_rps = ops.absolute measured;
        phase = pre_stop;
        phase_start_time_ms = now;
        pre_stop_zero_confirmed = false;
      }

  abbrev pub is_at_rest : State F → Bool
  is_at_rest c =
      c.post_stop_zero_confirmed && motor_targets_are_zero ops c && motors_are_stationary ops c

  unfoldable pub finish_post_stop : State F → State F
  unfolding motor_targets_are_zero motors_are_stationary
  finish_post_stop c =
      let unstopped =
        if is_at_rest c then c.failure else first_failure c.failure post_stop_not_confirmed in
      let untargeted =
        if is_none unstopped && not c.target_observed
        then first_failure unstopped target_not_observed
        else unstopped in
      let judged =
        if is_none untargeted && not c.physical_response_observed
        then first_failure untargeted physical_response_not_observed
        else untargeted in
      record c {
        failure = judged;
        phase =
            if is_none judged && c.target_observed && c.physical_response_observed && is_at_rest c
            then succeeded
            else failed;
      }
