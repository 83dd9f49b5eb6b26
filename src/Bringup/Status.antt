-- ===== src/Bringup/Status.antt =====
-- The types of supervisor_core.h. `C` is the type of the deployment configuration, which the
-- supervisor only passes on. A description is a value with a constructor for each text.
use mentor_pi_ros.Prelude.{ℕ, Bool, Option, ◌==◌, ◌&&◌}

pub data HeartbeatState : Type 0 where
  booting ready degraded fault : HeartbeatState

pub record HeartbeatSample : Type 0 where
  pub uptime_ms : ℕ
  pub agent_session_id : ℕ
  pub state : HeartbeatState

pub data ApplyOperation : Type 0 where
  motor_model motor_adrc pwm_servo_offsets battery_threshold : ApplyOperation

pub data ResultCode : Type 0 where
  ok invalid_argument out_of_range busy timeout io_error unsupported partial : ResultCode

pub data SupervisorPhase : Type 0 where
  disconnected waiting_for_heartbeat waiting_for_ready applying_motor_model applying_motor_adrc
        applying_pwm_servo_offsets applying_battery_threshold phase_ready rejected :
      SupervisorPhase

pub data Description : Type 0 where
  not_discovered disappeared first_controller controller_reappeared first_heartbeat
        heartbeat_reappeared zero_session session_changed uptime_regressed waiting applied :
      Description
  pending : ApplyOperation → Description
  attempting : ℕ → ApplyOperation → Description
  returned : ApplyOperation → ResultCode → ℕ → Description
  retrying : ApplyOperation → ResultCode → Bool → ℕ → Description
  exhausted : ApplyOperation → ResultCode → Bool → Description

pub record RequestToken : Type 0 where
  pub configuration_generation : ℕ
  pub agent_session_id : ℕ
  pub request_serial : ℕ
  pub operation : ApplyOperation
  pub attempt : ℕ

-- A time point is a count of nanoseconds of the steady clock, which does not wrap.
pub record ServiceCall (C : Type 0) : Type 0 where
  pub token : RequestToken
  pub configuration : C
  pub deadline : ℕ

pub data ResponseDisposition : Type 0 where
  accepted stale : ResponseDisposition

pub record SupervisorStatus : Type 0 where
  pub phase : SupervisorPhase
  pub motion_enabled : Bool
  pub controller_present : Bool
  pub configuration_generation : ℕ
  pub agent_session_id : ℕ
  pub operation : ApplyOperation
  pub attempt : ℕ
  pub last_result : ResultCode
  pub last_detail : ℕ
  pub description : Description

pub record Supervisor (C : Type 0) : Type 0 where
  pub configuration : C
  pub status : SupervisorStatus
  pub has_session_baseline : Bool
  pub ready_heartbeat_seen : Bool
  pub configuration_started : Bool
  pub blocked_for_generation : Bool
  pub last_uptime_ms : ℕ
  pub attempts : ℕ
  pub request_serial : ℕ
  pub next_attempt_time : ℕ
  pub in_flight : Option (ServiceCall C)

abbrev pub operation_value : ApplyOperation → ℕ
operation_value motor_model = 0
operation_value motor_adrc = 1
operation_value pwm_servo_offsets = 2
operation_value battery_threshold = 3

-- `RequestToken::operator==`.
unfoldable pub token_eq : RequestToken → RequestToken → Bool
token_eq a b =
    a.configuration_generation == b.configuration_generation
    && a.agent_session_id == b.agent_session_id
    && a.request_serial == b.request_serial
    && operation_value a.operation == operation_value b.operation
    && a.attempt == b.attempt
