-- ===== src/Bringup/Core.antt =====
-- The private steps of `SupervisorCore` (supervisor_core.cc): generations, operations, retries and
-- rejection.
use mentor_pi_ros.Prelude.{
  ℕ, ◌+◌, ◌-◌, ◌*◌, Bool, true, false, ◌&&◌, Option, none, some, List, [], ◌∷◌, ltb, leb, ◌==◌,
  if◌then◌else◌, u64_max, get_or,
}
use mentor_pi_ros.Bringup.Status.{
  HeartbeatState, ready, degraded, HeartbeatSample, ApplyOperation, motor_model, motor_adrc,
  pwm_servo_offsets, battery_threshold, ResultCode, ok, busy, timeout, SupervisorPhase,
  disconnected, waiting_for_heartbeat, applying_motor_model, applying_motor_adrc,
  applying_pwm_servo_offsets, applying_battery_threshold, phase_ready, rejected, Description,
  RequestToken, Supervisor, token_eq,
}

abbrev pub milliseconds : ℕ → ℕ
milliseconds n = n * 1000000

abbrev pub response_timeout : ℕ
response_timeout = milliseconds 100

abbrev pub maximum_attempts : ℕ
maximum_attempts = 4

-- In milliseconds.
abbrev pub retry_backoff : List ℕ
retry_backoff = 100 ∷ 200 ∷ 400 ∷ []

unfoldable pub phase_for_operation : ApplyOperation → SupervisorPhase
phase_for_operation motor_model = applying_motor_model
phase_for_operation motor_adrc = applying_motor_adrc
phase_for_operation pwm_servo_offsets = applying_pwm_servo_offsets
phase_for_operation battery_threshold = applying_battery_threshold

unfoldable pub is_retryable : ResultCode → Bool
is_retryable busy = true
is_retryable timeout = true
is_retryable _ = false

abbrev pub is_ok : ResultCode → Bool
is_ok ok = true
is_ok _ = false

unfoldable pub is_ready_state : HeartbeatState → Bool
is_ready_state ready = true
is_ready_state degraded = true
is_ready_state _ = false

abbrev pub is_some : {A : Type 0} → Option A → Bool
is_some none = false
is_some (some a) = true

module _ {C : Type 0} where
  -- The constructor.
  unfoldable pub initial : C → Supervisor C
  initial configuration = record {
    configuration = configuration;
    status = record {
      phase = disconnected;
      motion_enabled = false;
      controller_present = false;
      configuration_generation = 0;
      agent_session_id = 0;
      operation = motor_model;
      attempt = 0;
      last_result = ok;
      last_detail = 0;
      description = Description.not_discovered;
    };
    has_session_baseline = false;
    ready_heartbeat_seen = false;
    configuration_started = false;
    blocked_for_generation = false;
    last_uptime_ms = 0;
    attempts = 0;
    request_serial = 0;
    next_attempt_time = 0;
    in_flight = none;
  }

  unfoldable pub invalidate_request : Supervisor C → Supervisor C
  invalidate_request s = record s { in_flight = none }

  unfoldable pub begin_generation : Supervisor C → Description → ℕ → Supervisor C
  unfolding invalidate_request
  begin_generation s reason now = invalidate_request (record s {
    status = record (s.status) {
      configuration_generation =
          if s.status.configuration_generation == u64_max
          then 1
          else s.status.configuration_generation + 1;
      motion_enabled = false;
      agent_session_id = 0;
      phase = waiting_for_heartbeat;
      operation = motor_model;
      attempt = 0;
      last_result = ok;
      last_detail = 0;
      description = reason;
    };
    has_session_baseline = false;
    ready_heartbeat_seen = false;
    configuration_started = false;
    blocked_for_generation = false;
    attempts = 0;
    next_attempt_time = now;
  })

  unfoldable pub set_session_baseline : Supervisor C → HeartbeatSample → Supervisor C
  set_session_baseline s heartbeat = record s {
    has_session_baseline = true;
    status = record (s.status) { agent_session_id = heartbeat.agent_session_id };
    last_uptime_ms = heartbeat.uptime_ms;
  }

  unfoldable pub set_operation : Supervisor C → ApplyOperation → ℕ → Supervisor C
  unfolding invalidate_request
  set_operation s operation now = invalidate_request (record s {
    status = record (s.status) {
      operation = operation;
      phase = phase_for_operation operation;
      attempt = 0;
      description = Description.pending operation;
    };
    attempts = 0;
    next_attempt_time = now;
  })

  unfoldable pub start_applying : Supervisor C → ℕ → Supervisor C
  unfolding set_operation
  start_applying s now = set_operation (record s { configuration_started = true }) motor_model now

  unfoldable pub reject : Supervisor C → ResultCode → ℕ → Description → Supervisor C
  unfolding invalidate_request
  reject s result detail reason = invalidate_request (record s {
    status = record (s.status) {
      motion_enabled = false;
      phase = rejected;
      last_result = result;
      last_detail = detail;
      description = reason;
    };
    blocked_for_generation = true;
  })

  unfoldable pub retry_or_reject : Supervisor C → ResultCode → ℕ → ℕ → Bool → Supervisor C
  unfolding reject
  retry_or_reject s result detail now client =
      let told = record s {
        status = record (s.status) { last_result = result; last_detail = detail };
      } in
      let delay = get_or retry_backoff (s.attempts - 1) 0 in
      if leb maximum_attempts s.attempts
      then reject told result detail (Description.exhausted s.status.operation result client)
      else record told {
        next_attempt_time = now + milliseconds delay;
        status = record (told.status) {
          phase = phase_for_operation s.status.operation;
          description = Description.retrying s.status.operation result client delay;
        };
      }

  -- A request that is not answered at its deadline is a timeout.
  unfoldable pub expire_request_if_due : Supervisor C → ℕ → Supervisor C
  unfolding retry_or_reject
  expire_request_if_due s now = elim (s.in_flight) [
    | none ↦ s
    | some call ↦
        if ltb now call.deadline
        then s
        else retry_or_reject
            (record s {
              in_flight = none;
              status = record (s.status) { operation = call.token.operation };
            })
            timeout 0 now true
  ]

  finish_applying : Supervisor C → Supervisor C
  finish_applying s = record s {
    status = record (s.status) {
      motion_enabled = true;
      phase = phase_ready;
      attempt = s.attempts;
      description = Description.applied;
    };
    attempts = 0;
  }

  next_operation : ApplyOperation → Supervisor C → ℕ → Supervisor C
  unfolding set_operation finish_applying
  next_operation motor_model s now = set_operation s motor_adrc now
  next_operation motor_adrc s now = set_operation s pwm_servo_offsets now
  next_operation pwm_servo_offsets s now = set_operation s battery_threshold now
  next_operation battery_threshold s now = finish_applying s

  unfoldable pub complete_operation : Supervisor C → ℕ → Supervisor C
  unfolding next_operation
  complete_operation s now = next_operation s.status.operation s now

  unfoldable pub is_current_token : Supervisor C → RequestToken → Bool
  is_current_token s token = elim (s.in_flight) [
    | none ↦ false
    | some call ↦
        token_eq call.token token
        && token.configuration_generation == s.status.configuration_generation
        && token.agent_session_id == s.status.agent_session_id
  ]
