-- ===== src/Bringup/Supervisor.antt =====
-- The handlers of `SupervisorCore` (supervisor_core.cc): the deployment configuration is applied in
-- four service calls to each controller session, and motion is enabled when all are acknowledged.
pub mod Invariant
pub mod Tokens
pub mod Applied
mod Tests
use mentor_pi_ros.Prelude.{
  ℕ, ◌+◌, Bool, true, false, not, ◌&&◌, ◌||◌, Option, none, some, List, [], ◌∷◌, ltb, leb, ◌==◌,
  ◌!=◌, same, if◌then◌else◌, sub32, u8, u64,
}
use mentor_pi_ros.Bringup.Status.{
  HeartbeatSample, ApplyOperation, ResultCode, disconnected, waiting_for_heartbeat,
  waiting_for_ready, Description, RequestToken, ServiceCall, ResponseDisposition, accepted, stale,
  Supervisor,
}
use mentor_pi_ros.Bringup.Core.{
  phase_for_operation, is_retryable, is_ok, is_ready_state, is_some, invalidate_request,
  begin_generation, set_session_baseline, start_applying, reject, retry_or_reject,
  expire_request_if_due, complete_operation, is_current_token, response_timeout,
}

-- `UptimeRegressed`: the 32-bit uptime went back.
pub uptime_regressed : ℕ → ℕ → Bool
uptime_regressed last_uptime_ms new_uptime_ms = leb 0x80000000 (sub32 new_uptime_ms last_uptime_ms)

module _ {C : Type 0} where
  pub on_controller_presence : Supervisor C → Bool → ℕ → Supervisor C
  unfolding invalidate_request begin_generation
  on_controller_presence s present now =
      if same present s.status.controller_present
      then s
      else if not present
      then invalidate_request (record s {
        status = record (s.status) {
          controller_present = false;
          motion_enabled = false;
          phase = disconnected;
          description = Description.disappeared;
        };
        has_session_baseline = false;
        ready_heartbeat_seen = false;
        configuration_started = false;
      })
      else begin_generation (record s { status = record (s.status) { controller_present = true } })
          (if s.status.configuration_generation == 0
            then Description.first_controller
            else Description.controller_reappeared)
          now

  -- A heartbeat also tells that the controller is present.
  discover : Supervisor C → ℕ → Supervisor C
  unfolding begin_generation
  discover s now =
      if s.status.controller_present
      then s
      else begin_generation (record s { status = record (s.status) { controller_present = true } })
          (if s.status.configuration_generation == 0
            then Description.first_heartbeat
            else Description.heartbeat_reappeared)
          now

  -- Applying stops until a heartbeat with a session and READY comes; a rejected generation keeps
  -- its phase.
  hold : Supervisor C → Bool → Supervisor C
  unfolding invalidate_request
  hold s no_session = invalidate_request (record s {
    status = record (s.status) {
      motion_enabled = false;
      phase =
          if s.blocked_for_generation
          then s.status.phase
          else if no_session
          then waiting_for_heartbeat
          else waiting_for_ready;
      description =
          if s.blocked_for_generation
          then s.status.description
          else if no_session
          then Description.zero_session
          else Description.waiting;
    };
    ready_heartbeat_seen = false;
    configuration_started = false;
  })

  -- The session that the heartbeat belongs to.
  follow_session : Supervisor C → HeartbeatSample → ℕ → Supervisor C
  unfolding begin_generation set_session_baseline uptime_regressed
  follow_session s heartbeat now =
      if not s.has_session_baseline
      then set_session_baseline s heartbeat
      else if heartbeat.agent_session_id != s.status.agent_session_id
      then set_session_baseline (begin_generation s Description.session_changed now) heartbeat
      else if uptime_regressed s.last_uptime_ms heartbeat.uptime_ms
      then set_session_baseline (begin_generation s Description.uptime_regressed now) heartbeat
      else record s { last_uptime_ms = heartbeat.uptime_ms }

  on_ready : Supervisor C → ℕ → Supervisor C
  unfolding start_applying
  on_ready s now =
      let seen = record s { ready_heartbeat_seen = true } in
      if not s.configuration_started && not s.blocked_for_generation
      then start_applying seen now
      else seen

  pub on_heartbeat : Supervisor C → HeartbeatSample → ℕ → Supervisor C
  on_heartbeat s heartbeat now =
      let found = discover s now in
      let followed = follow_session found heartbeat now in
      if heartbeat.agent_session_id == 0
      then hold found true
      else if not (is_ready_state heartbeat.state)
      then hold followed false
      else on_ready followed now

  -- A new attempt of the current operation.
  next_call : Supervisor C → ℕ → ServiceCall C
  next_call s now = record {
    token = record {
      configuration_generation = s.status.configuration_generation;
      agent_session_id = s.status.agent_session_id;
      request_serial = u64 (s.request_serial + 1);
      operation = s.status.operation;
      attempt = u8 (s.attempts + 1);
    };
    configuration = s.configuration;
    deadline = now + response_timeout;
  }

  pub tick : Supervisor C → ℕ → Supervisor C × Option (ServiceCall C)
  unfolding next_call
  tick s now =
      let t = expire_request_if_due s now in
      let call = next_call t now in
      if not t.status.controller_present
        || not t.has_session_baseline
        || not t.ready_heartbeat_seen
        || t.blocked_for_generation
        || t.status.motion_enabled
        || is_some t.in_flight
        || not t.configuration_started
        || ltb now t.next_attempt_time
      then (t, none)
      else (
        record t {
          attempts = call.token.attempt;
          request_serial = call.token.request_serial;
          in_flight = some call;
          status = record (t.status) {
            attempt = call.token.attempt;
            phase = phase_for_operation t.status.operation;
            description = Description.attempting call.token.attempt t.status.operation;
          };
        },
        some call,
      )

  -- What an accepted response does.
  apply_result : Supervisor C → RequestToken → ResultCode → ℕ → ℕ → Supervisor C
  unfolding complete_operation retry_or_reject reject
  apply_result s token result detail now =
      let t = record s {
        in_flight = none;
        status = record (s.status) { last_result = result; last_detail = detail };
      } in
      if is_ok result
      then complete_operation t now
      else if is_retryable result
      then retry_or_reject t result detail now false
      else reject t result detail (Description.returned token.operation result detail)

  pub on_service_result :
      Supervisor C → RequestToken → ResultCode → ℕ → ℕ → Supervisor C × ResponseDisposition
  on_service_result s token result detail now =
      let t = expire_request_if_due s now in
      if not (is_current_token t token)
      then (t, stale)
      else (apply_result t token result detail now, accepted)

-- What reaches the supervisor: the graph, heartbeats, the timer and responses, with their times.
pub data Event : Type 0 where
  presence : Bool → ℕ → Event
  heartbeat : HeartbeatSample → ℕ → Event
  timer : ℕ → Event
  response : RequestToken → ResultCode → ℕ → ℕ → Event

module _ {C : Type 0} where
  pub step : Supervisor C → Event → Supervisor C
  unfolding on_controller_presence discover hold follow_session on_ready on_heartbeat
      expire_request_if_due tick is_current_token apply_result on_service_result
  step s (presence present now) = on_controller_presence s present now
  step s (heartbeat sample now) = on_heartbeat s sample now
  step s (timer now) = (tick s now).0
  step s (response token result detail now) = (on_service_result s token result detail now).0

  pub run : Supervisor C → List Event → Supervisor C
  run s [] = s
  run s (e ∷ es) = run (step s e) es
