-- ===== src/Bringup/Commissioning.antt =====
-- `MotorCommissioningCore` (motor_commissioning_core.h and .cc): one motor is turned, under supervision.
-- Times in milliseconds and encoder counts are integers. `F` is the type of floats, whose
-- operations and literals are a parameter.
pub mod Motion
pub mod Core
pub mod Runtime
pub mod Observe
pub mod Tick
pub mod Supervised
pub mod Sound
pub mod Safety
pub mod Ending
pub mod Evidence
pub mod Tests
use Prim.Native.String.{String}
use mentor_pi_ros.Prelude.{ℕ, ◌-◌, Bool, true, false, List, [], ◌∷◌, Option, none, some, replicate}
use mentor_pi_ros.Prelude.Int.{ℤ, pos}

pub record Floats (F : Type 0) : Type 0 where
  pub zero : F
  pub minimum_target : F
  pub maximum_target : F
  pub target_tolerance : F
  pub maximum_measured : F
  pub minimum_response : F
  pub unselected_motion : F
  pub tenth : F
  pub absolute : F → F
  pub subtract : F → F → F
  pub multiply : F → F → F
  pub less : F → F → Bool
  pub at_most : F → F → Bool
  pub equal : F → F → Bool
  pub is_finite : F → Bool

pub data Phase : Type 0 where
  awaiting_prerequisites pre_stop drive post_stop succeeded failed : Phase

pub data Failure : Type 0 where
  no_failure invalid_acknowledgement invalid_motor_id invalid_target invalid_duration : Failure
  prerequisite_timeout motion_authorization_lost heartbeat_lost heartbeat_not_ready : Failure
  session_invalid session_changed mcu_reset_detected diagnostics_lost : Failure
  diagnostics_not_active diagnostics_session_mismatch motor_state_lost : Failure
  motor_state_invalid motor_state_unexpected_target motor_watchdog_triggered : Failure
  drive_cadence_lost motor_overspeed motor_wrong_direction unselected_motor_motion : Failure
  command_publisher_conflict command_rejected pre_stop_not_confirmed target_not_observed : Failure
  physical_response_not_observed post_stop_not_confirmed interrupted : Failure

abbrev pub is_none : Failure → Bool
is_none no_failure = true
is_none _ = false

pub data Command : Type 0 where
  no_command stop_command drive_command : Command

pub record Configuration (F : Type 0) : Type 0 where
  pub acknowledgement : String
  pub motor_id : ℕ
  pub target_rps : F
  pub duration_ms : ℕ
  pub start_time_ms : ℤ

pub record Authorization : Type 0 where
  pub arrival_time_ms : ℤ
  pub configuration_generation : ℕ
  pub agent_session_id : ℕ

pub record Heartbeat : Type 0 where
  pub arrival_time_ms : ℤ
  pub sequence : ℕ
  pub uptime_ms : ℕ
  pub agent_session_id : ℕ
  pub state : ℕ

pub record Diagnostics : Type 0 where
  pub arrival_time_ms : ℤ
  pub uptime_ms : ℕ
  pub session_generation : ℕ
  pub command_rejections : ℕ
  pub motor_command_rejections : List ℕ
  pub motor_lease_expiries : List ℕ
  pub motor_watchdog_trips : ℕ
  pub session_state : ℕ

pub record MotorState (F : Type 0) : Type 0 where
  pub arrival_time_ms : ℤ
  pub target_rps : List F
  pub measured_rps : List F
  pub encoder_count : List ℤ
  pub watchdog_stop_mask : ℕ

-- What has been observed; an option is an observation with its flag that it has been seen.
pub record Observed (F : Type 0) : Type 0 where
  pub publisher_valid : Bool
  pub authorization : Option Authorization
  pub heartbeat : Option Heartbeat
  pub heartbeat_discontinuity : Bool
  pub diagnostics : Option Diagnostics
  pub diagnostics_discontinuity : Bool
  pub motor_state : Option (MotorState F)
  pub publisher_conflict : Bool

-- What is fixed when the prerequisites are met.
pub record Baseline : Type 0 where
  pub session_id : ℕ
  pub configuration_generation : ℕ
  pub command_rejections : ℕ
  pub motor_rejections : ℕ
  pub motor_lease_expiries : List ℕ
  pub motor_watchdog_trips : ℕ
  pub encoder_seen : Bool
  pub encoder : List ℤ

pub record State (F : Type 0) : Type 0 where
  pub configuration : Configuration F
  pub phase : Phase
  pub failure : Failure
  pub phase_start_time_ms : ℤ
  pub observed : Observed F
  pub baseline : Baseline
  pub latest_encoder : List ℤ
  pub peak_absolute_measured_rps : F
  pub final_measured_rps : F
  pub target_observed : Bool
  pub physical_response_observed : Bool
  pub pre_stop_zero_confirmed : Bool
  pub post_stop_zero_confirmed : Bool
  pub post_stop_zero_seen : Bool
  pub abort_requested : Bool
  pub last_drive_publish_time_ms : ℤ
  pub pre_stop_commands : ℕ
  pub drive_commands : ℕ
  pub post_stop_commands : ℕ

abbrev pub no_baseline : Baseline
no_baseline = record {
  session_id = 0;
  configuration_generation = 0;
  command_rejections = 0;
  motor_rejections = 0;
  motor_lease_expiries = replicate 4 0;
  motor_watchdog_trips = 0;
  encoder_seen = false;
  encoder = replicate 4 (pos 0);
}

abbrev pub nothing_observed : {F : Type 0} → Observed F
nothing_observed = record {
  publisher_valid = false;
  authorization = none;
  heartbeat = none;
  heartbeat_discontinuity = false;
  diagnostics = none;
  diagnostics_discontinuity = false;
  motor_state = none;
  publisher_conflict = false;
}
