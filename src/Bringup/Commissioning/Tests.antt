-- ===== src/Bringup/Commissioning/Tests.antt =====
-- Tests of the commissioning of motors: a run on the second motor, in thousandths of a revolution
-- per second.
use mentor_pi_ros.Prelude.{
  ℕ, ◌+◌, ◌-◌, ◌*◌, ◌/◌, ◌≡◌, refl, true, false, List, [], ◌∷◌, ◌++◌, leb, ltb, ◌==◌, replicate,
  arith,
}
use mentor_pi_ros.Prelude.Int.{pos, ◌-ℤ◌, ◌+ℤ◌}
use mentor_pi_ros.Bringup.Commissioning.{
  Floats, State, Configuration, Authorization, stop_command, drive_command,
}
use mentor_pi_ros.Bringup.Commissioning.Motion.{
  saturating_difference, serial_number_regressed, all_of, encoder_delta, motor_targets_are_zero,
  motors_are_stationary, motor_state_is_finite, selected_target_matches, targets_allowed,
  validate_motor_state_for_phase, others_still, validate_physical_motion,
}
use mentor_pi_ros.Bringup.Commissioning.Core.{
  is_complete, validate_configuration, initial, prerequisites_satisfied, begin_post_stop,
  lock_prerequisites, finish_post_stop,
}
use mentor_pi_ros.Bringup.Commissioning.Runtime.{runtime_failure, same_counters}
use mentor_pi_ros.Bringup.Commissioning.Observe.{
  observe_motion_authorization_publisher, observe_motion_authorization, observe_heartbeat,
  observe_diagnostics, observe_motor_state, measure_motors, confirm_pre_stop, note_response,
  note_settling,
}
use mentor_pi_ros.Bringup.Commissioning.Tick.{
  Event, publisher_seen, authorized, heard, diagnosed, measured, ticked, published, aborted,
  tick_awaiting, start_drive, tick_pre_stop, tick_drive, tick_post_stop, unless_failing, tick,
  record_command_published, summary, step, run,
}
use mentor_pi_ros.Bringup.Commissioning.Safety.{is_drive, Cleared, drives-Cleared}
use mentor_pi_ros.Bringup.Commissioning.Evidence.Passed.{Witnessed, passed-Witnessed}
use mentor_pi_ros.Bringup.Commissioning.Ending.{has_ended, ended-never_drives}
use mentor_pi_ros.Bringup.Commissioning.Ending.Abort.{stops_published, aborted-completes}

-- Thousandths, which are never negative here.
abbrev thousandths : Floats ℕ
thousandths = record {
  zero = 0;
  minimum_target = 10;
  maximum_target = 250;
  target_tolerance = 0;
  maximum_measured = 3000;
  minimum_response = 2;
  unselected_motion = 20;
  tenth = 100;
  absolute = λ a. a;
  subtract = λ a b. (a - b) + (b - a);
  multiply = λ a b. a * b / 1000;
  less = ltb;
  at_most = leb;
  equal = λ a b. a == b;
  is_finite = λ _. true;
}

abbrev second_motor : Configuration ℕ
second_motor = record {
  acknowledgement = "MOTORS_RAISED_CURRENT_LIMITED";
  motor_id = 2;
  target_rps = 100;
  duration_ms = 100;
  start_time_ms = pos 0;
}

abbrev motors_at : ℕ → ℕ → ℕ → ℕ → Event ℕ
motors_at time target speed count = measured record {
  arrival_time_ms = pos time;
  target_rps = 0 ∷ target ∷ 0 ∷ 0 ∷ [];
  measured_rps = 0 ∷ speed ∷ 0 ∷ 0 ∷ [];
  encoder_count = pos 0 ∷ pos count ∷ pos 0 ∷ pos 0 ∷ [];
  watchdog_stop_mask = 0;
}

abbrev heartbeat_at : ℕ → Event ℕ
heartbeat_at time = heard record {
  arrival_time_ms = pos time;
  sequence = time;
  uptime_ms = time;
  agent_session_id = 7;
  state = 1;
}

abbrev diagnostics_at : ℕ → Event ℕ
diagnostics_at time = diagnosed record {
  arrival_time_ms = pos time;
  uptime_ms = time;
  session_generation = 7;
  command_rejections = 0;
  motor_command_rejections = replicate 4 0;
  motor_lease_expiries = replicate 4 0;
  motor_watchdog_trips = 0;
  session_state = 3;
}

abbrev permission : Authorization
permission = record { arrival_time_ms = pos 0; configuration_generation = 1; agent_session_id = 7 }

abbrev stops : List (Event ℕ)
stops = replicate 10 (published stop_command (pos 100))

-- Up to the tick that begins to drive.
abbrev preparation : List (Event ℕ)
preparation =
    publisher_seen true
    ∷ authorized permission
    ∷ heartbeat_at 0
    ∷ diagnostics_at 0
    ∷ motors_at 0 0 0 0
    ∷ ticked (pos 0)
    ∷ (stops ++ (motors_at 450 0 0 0 ∷ []))

-- The whole run.
abbrev whole_run : List (Event ℕ)
whole_run =
    preparation
    ++ (ticked (pos 500)
        ∷ published drive_command (pos 500)
        ∷ motors_at 550 100 50 5
        ∷ ticked (pos 600)
        ∷ (stops
            ++ (heartbeat_at 1000
                ∷ diagnostics_at 1000
                ∷ motors_at 1050 0 0 6
                ∷ ticked (pos 1100)
                ∷ [])))

first_drive :
    is_drive
      (tick thousandths
        (pos 500)
        (run thousandths preparation (initial thousandths second_motor))).0
    ≡ true
unfolding run step initial validate_configuration observe_motion_authorization_publisher
    observe_motion_authorization observe_heartbeat observe_diagnostics observe_motor_state
    measure_motors confirm_pre_stop note_response note_settling serial_number_regressed
    saturating_difference all_of encoder_delta motor_targets_are_zero motors_are_stationary
    motor_state_is_finite selected_target_matches targets_allowed validate_motor_state_for_phase
    others_still validate_physical_motion prerequisites_satisfied runtime_failure same_counters
    begin_post_stop lock_prerequisites finish_post_stop tick tick_awaiting tick_pre_stop tick_drive
    tick_post_stop unless_failing start_drive record_command_published ◌-ℤ◌ ◌+ℤ◌
first_drive = refl

drives-Cleared_example :
    Cleared thousandths (run thousandths preparation (initial thousandths second_motor)) (pos 500)
drives-Cleared_example = drives-Cleared thousandths second_motor preparation (pos 500) first_drive

whole_run_passes :
    (summary thousandths (run thousandths whole_run (initial thousandths second_motor))).passed
    ≡ true
unfolding summary run step initial validate_configuration observe_motion_authorization_publisher
    observe_motion_authorization observe_heartbeat observe_diagnostics observe_motor_state
    measure_motors confirm_pre_stop note_response note_settling serial_number_regressed
    saturating_difference all_of encoder_delta motor_targets_are_zero motors_are_stationary
    motor_state_is_finite selected_target_matches targets_allowed validate_motor_state_for_phase
    others_still validate_physical_motion prerequisites_satisfied runtime_failure same_counters
    begin_post_stop lock_prerequisites finish_post_stop tick tick_awaiting tick_pre_stop tick_drive
    tick_post_stop unless_failing start_drive record_command_published ◌-ℤ◌ ◌+ℤ◌
whole_run_passes = refl

passed-Witnessed_example : Witnessed thousandths second_motor whole_run
passed-Witnessed_example = passed-Witnessed thousandths second_motor whole_run whole_run_passes

-- The run just after its drive.
abbrev driven : State ℕ
driven =
    run thousandths
      (preparation
        ++ (ticked (pos 500)
            ∷ published drive_command (pos 500)
            ∷ motors_at 550 100 50 5
            ∷ ticked (pos 600)
            ∷ []))
      (initial thousandths second_motor)

driven_ended : has_ended thousandths driven ≡ true
unfolding run step initial validate_configuration observe_motion_authorization_publisher
    observe_motion_authorization observe_heartbeat observe_diagnostics observe_motor_state
    measure_motors confirm_pre_stop note_response note_settling serial_number_regressed
    saturating_difference all_of encoder_delta motor_targets_are_zero motors_are_stationary
    motor_state_is_finite selected_target_matches targets_allowed validate_motor_state_for_phase
    others_still validate_physical_motion prerequisites_satisfied runtime_failure same_counters
    begin_post_stop lock_prerequisites finish_post_stop tick tick_awaiting tick_pre_stop tick_drive
    tick_post_stop unless_failing start_drive record_command_published ◌-ℤ◌ ◌+ℤ◌
driven_ended = refl

ended-never_drives_example :
    is_drive (tick thousandths (pos 700) (run thousandths stops driven)).0 ≡ false
ended-never_drives_example = ended-never_drives thousandths driven stops (pos 700) driven_ended

-- The run whose motor is driven for the first time.
abbrev driving : State ℕ
driving =
    run thousandths (preparation ++ (ticked (pos 500) ∷ [])) (initial thousandths second_motor)

driving_goes_on : is_complete thousandths driving ≡ false
unfolding run step initial validate_configuration observe_motion_authorization_publisher
    observe_motion_authorization observe_heartbeat observe_diagnostics observe_motor_state
    measure_motors confirm_pre_stop note_response note_settling serial_number_regressed
    saturating_difference all_of encoder_delta motor_targets_are_zero motors_are_stationary
    motor_state_is_finite selected_target_matches targets_allowed validate_motor_state_for_phase
    others_still validate_physical_motion prerequisites_satisfied runtime_failure same_counters
    begin_post_stop lock_prerequisites finish_post_stop tick tick_awaiting tick_pre_stop tick_drive
    tick_post_stop unless_failing start_drive record_command_published ◌-ℤ◌ ◌+ℤ◌
driving_goes_on = refl

driving_unaborted : driving.abort_requested ≡ false
unfolding run step initial validate_configuration observe_motion_authorization_publisher
    observe_motion_authorization observe_heartbeat observe_diagnostics observe_motor_state
    measure_motors confirm_pre_stop note_response note_settling serial_number_regressed
    saturating_difference all_of encoder_delta motor_targets_are_zero motors_are_stationary
    motor_state_is_finite selected_target_matches targets_allowed validate_motor_state_for_phase
    others_still validate_physical_motion prerequisites_satisfied runtime_failure same_counters
    begin_post_stop lock_prerequisites finish_post_stop tick tick_awaiting tick_pre_stop tick_drive
    tick_post_stop unless_failing start_drive record_command_published ◌-ℤ◌ ◌+ℤ◌
driving_unaborted = refl

-- What happens after the abort: the motor still turns, stops are published, and a tick comes early.
abbrev aftermath : List (Event ℕ)
aftermath =
    motors_at 545 100 50 5
    ∷ (stops ++ (ticked (pos 700) ∷ aborted (pos 800) ∷ motors_at 900 0 0 6 ∷ []))

aborted-completes_example :
    is_complete thousandths (
      step thousandths
        (ticked (pos 1040))
        (run thousandths (aborted (pos 540) ∷ aftermath) driving))
    ≡ true
unfolding ◌-ℤ◌ stops_published
aborted-completes_example =
    aborted-completes thousandths driving (pos 540) aftermath (pos 1040) driving_goes_on
      driving_unaborted (omega arith) (omega arith) (omega arith)
