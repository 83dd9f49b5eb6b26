-- ===== src/Bringup/Commissioning/Tick.antt =====
-- `Tick`, `RecordCommandPublished`, `RequestAbort` and `summary` of `MotorCommissioningCore`,
-- and the sequences of calls that its node makes.
use mentor_pi_ros.Prelude.{
  ℕ, Bool, true, false, not, ◌&&◌, ◌||◌, List, [], ◌∷◌, leb, if◌then◌else◌, add32,
}
use mentor_pi_ros.Prelude.Int.{ℤ, pos, ltb_ℤ, leb_ℤ, ◌-ℤ◌}
use mentor_pi_ros.Bringup.Commissioning.{
  Floats, State, MotorState, Authorization, Heartbeat, Diagnostics, Phase, awaiting_prerequisites,
  pre_stop, drive, post_stop, succeeded, failed, Command, no_command, stop_command, drive_command,
  is_none, Failure, no_failure, prerequisite_timeout, mcu_reset_detected,
  command_publisher_conflict, pre_stop_not_confirmed, target_not_observed, interrupted,
}
use mentor_pi_ros.Bringup.Commissioning.Motion.{measured_at, selected_motor_index, encoder_delta}
use mentor_pi_ros.Bringup.Commissioning.Core.{
  prerequisites_satisfied, remember_failure, begin_post_stop, lock_prerequisites, finish_post_stop,
  is_complete,
}
use mentor_pi_ros.Bringup.Commissioning.Runtime.{runtime_failure}
use mentor_pi_ros.Bringup.Commissioning.Observe.{
  observe_motion_authorization_publisher, observe_motion_authorization, observe_heartbeat,
  observe_diagnostics, observe_motor_state, observe_command_publisher_conflict,
}

pub record Summary (F : Type 0) : Type 0 where
  pub passed : Bool
  pub failure : Failure
  pub phase : Phase
  pub agent_session_id : ℕ
  pub motor_id : ℕ
  pub target_rps : F
  pub duration_ms : ℕ
  pub target_observed : Bool
  pub physical_response_observed : Bool
  pub zero_confirmed : Bool
  pub encoder_delta : ℤ
  pub peak_absolute_measured_rps : F
  pub final_measured_rps : F
  pub pre_stop_commands : ℕ
  pub drive_commands : ℕ
  pub post_stop_commands : ℕ

-- One call of the node.
pub data Event (F : Type 0) : Type 0 where
  publisher_seen : Bool → Event F
  authorized : Authorization → Event F
  heard : Heartbeat → Event F
  diagnosed : Diagnostics → Event F
  measured : MotorState F → Event F
  conflict_seen : Bool → Event F
  ticked : ℤ → Event F
  published : Command → ℤ → Event F
  aborted : ℤ → Event F

module _ {F : Type 0} (ops : Floats F) where
  abbrev pub is_out_of_time : ℤ → State F → Bool
  is_out_of_time now c =
      let start = c.configuration.start_time_ms in
      ltb_ℤ now start || leb_ℤ (pos 5000) (now -ℤ start)

  unfoldable pub tick_awaiting : ℤ → State F → Command × State F
  unfolding prerequisites_satisfied lock_prerequisites begin_post_stop
  tick_awaiting now c =
      if c.observed.publisher_conflict
      then (stop_command, begin_post_stop ops command_publisher_conflict now c)
      else if c.observed.heartbeat_discontinuity || c.observed.diagnostics_discontinuity
      then (stop_command, begin_post_stop ops mcu_reset_detected now c)
      else if prerequisites_satisfied ops c now
      then (stop_command, lock_prerequisites ops now c)
      else if is_out_of_time now c
      then (stop_command, begin_post_stop ops prerequisite_timeout now c)
      else (no_command, c)

  -- The stops before or after the drive have been sent for long enough.
  abbrev pub has_stopped : ℤ → State F → ℕ → Bool
  has_stopped now c commands = leb_ℤ (pos 500) (now -ℤ c.phase_start_time_ms) && leb 10 commands

  unfoldable pub start_drive : ℤ → State F → State F
  start_drive now c = record c {
    phase = drive;
    phase_start_time_ms = now;
    baseline = record (c.baseline) { encoder_seen = true; encoder = c.latest_encoder };
    peak_absolute_measured_rps = ops.zero;
    final_measured_rps = measured_at ops c (selected_motor_index ops c);
  }

  unfoldable pub tick_pre_stop : ℤ → State F → Command × State F
  unfolding begin_post_stop start_drive
  tick_pre_stop now c =
      if has_stopped now c c.pre_stop_commands
      then (if not c.pre_stop_zero_confirmed
          then (stop_command, begin_post_stop ops pre_stop_not_confirmed now c)
          else (drive_command, start_drive now c))
      else (stop_command, c)

  unfoldable pub tick_drive : ℤ → State F → Command × State F
  unfolding begin_post_stop
  tick_drive now c =
      let completion = if c.target_observed then no_failure else target_not_observed in
      if leb_ℤ (pos c.configuration.duration_ms) (now -ℤ c.phase_start_time_ms)
      then (stop_command, begin_post_stop ops completion now c)
      else (drive_command, c)

  unfoldable pub tick_post_stop : ℤ → State F → Command × State F
  unfolding finish_post_stop
  tick_post_stop now c =
      if has_stopped now c c.post_stop_commands
      then (no_command, finish_post_stop ops c)
      else (stop_command, c)

  -- A failure before the stops that follow the drive begins them.
  unfoldable pub unless_failing : ℤ → State F → Command × State F → Command × State F
  unfolding runtime_failure begin_post_stop
  unless_failing now c result =
      if is_none (runtime_failure ops c now)
      then result
      else (stop_command, begin_post_stop ops (runtime_failure ops c now) now c)

  unfoldable pub tick : ℤ → State F → Command × State F
  unfolding tick_awaiting tick_pre_stop tick_drive tick_post_stop unless_failing runtime_failure
  tick now c = elim (c.phase) [
    | awaiting_prerequisites ↦ tick_awaiting now c
    | pre_stop ↦ unless_failing now c (tick_pre_stop now c)
    | drive ↦ unless_failing now c (tick_drive now c)
    | post_stop ↦ tick_post_stop now (remember_failure ops (runtime_failure ops c now) c)
    | succeeded ↦ (no_command, c)
    | failed ↦ (no_command, c)
  ]

  abbrev pub count_stop : State F → State F
  count_stop c = elim (c.phase) [
    | pre_stop ↦ record c { pre_stop_commands = add32 c.pre_stop_commands 1 }
    | post_stop ↦ record c { post_stop_commands = add32 c.post_stop_commands 1 }
    | _ ↦ c
  ]

  abbrev pub count_drive : ℤ → State F → State F
  count_drive time c = elim (c.phase) [
    | drive ↦ record c {
      drive_commands = add32 c.drive_commands 1;
      last_drive_publish_time_ms = time;
    }
    | _ ↦ c
  ]

  unfoldable pub record_command_published : Command → ℤ → State F → State F
  record_command_published no_command time c = c
  record_command_published stop_command time c = count_stop c
  record_command_published drive_command time c = count_drive time c

  unfoldable pub request_abort : ℤ → State F → State F
  unfolding begin_post_stop
  request_abort now c =
      if is_complete ops c || c.abort_requested
      then c
      else begin_post_stop ops interrupted now (record c { abort_requested = true })

  abbrev pub has_succeeded : State F → Bool
  has_succeeded c = elim (c.phase) [ succeeded ↦ true | _ ↦ false ]

  unfoldable pub summary : State F → Summary F
  unfolding encoder_delta
  summary c = record {
    passed = has_succeeded c;
    failure = c.failure;
    phase = c.phase;
    agent_session_id = c.baseline.session_id;
    motor_id = c.configuration.motor_id;
    target_rps = c.configuration.target_rps;
    duration_ms = c.configuration.duration_ms;
    target_observed = c.target_observed;
    physical_response_observed = c.physical_response_observed;
    zero_confirmed = c.post_stop_zero_confirmed;
    encoder_delta =
        if c.baseline.encoder_seen then encoder_delta ops c (selected_motor_index ops c) else pos 0;
    peak_absolute_measured_rps = c.peak_absolute_measured_rps;
    final_measured_rps = c.final_measured_rps;
    pre_stop_commands = c.pre_stop_commands;
    drive_commands = c.drive_commands;
    post_stop_commands = c.post_stop_commands;
  }

  unfoldable pub step : Event F → State F → State F
  unfolding observe_motion_authorization_publisher observe_motion_authorization observe_heartbeat
      observe_diagnostics observe_motor_state observe_command_publisher_conflict tick
      record_command_published request_abort
  step (publisher_seen valid) c = observe_motion_authorization_publisher valid c
  step (authorized a) c = observe_motion_authorization a c
  step (heard h) c = observe_heartbeat h c
  step (diagnosed d) c = observe_diagnostics d c
  step (measured m) c = observe_motor_state ops m c
  step (conflict_seen conflict) c = observe_command_publisher_conflict conflict c
  step (ticked now) c = (tick now c).1
  step (published command time) c = record_command_published command time c
  step (aborted now) c = request_abort now c

  unfoldable pub run : List (Event F) → State F → State F
  unfolding step
  run [] c = c
  run (event ∷ events) c = run events (step event c)
