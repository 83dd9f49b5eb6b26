-- ===== src/Bringup/Supervisor/Tests.antt =====
-- Sessions of the supervisor; the deployment configuration is stood for by a number.
use mentor_pi_ros.Prelude.{ℕ, ◌≡◌, ◌⊎◌, ◌↔◌, refl, true, false, List, [], ◌∷◌, arith}
use mentor_pi_ros.Bringup.Status.{
  ready, degraded, HeartbeatSample, motor_model, motor_adrc, pwm_servo_offsets, battery_threshold,
  ok, busy, RequestToken, ServiceCall, Supervisor, ApplyOperation, token_eq,
}
use mentor_pi_ros.Bringup.Core.{initial, is_ready_state, is_current_token, is_retryable}
use mentor_pi_ros.Bringup.Supervisor.{
  Event, presence, heartbeat, timer, response, step, run, on_heartbeat, uptime_regressed,
}
use mentor_pi_ros.Bringup.Supervisor.Invariant.{Inv, initial-Inv, step-Inv, run-Inv}
use mentor_pi_ros.Bringup.Supervisor.Tokens.{retired_token_stays_stale}
use mentor_pi_ros.Bringup.Supervisor.Applied.{
  all_operations, before, history, motion_needs_all_operations, heartbeat_keeps_motion,
}

abbrev beat : HeartbeatSample
beat = record { uptime_ms = 500; agent_session_id = 9; state = ready }

abbrev token : ℕ → ApplyOperation → ℕ → RequestToken
token serial operation attempt = record {
  configuration_generation = 1;
  agent_session_id = 9;
  request_serial = serial;
  operation = operation;
  attempt = attempt;
}

abbrev discovered : List Event
discovered = presence true 5 ∷ heartbeat beat 10 ∷ []

abbrev asked : List Event
asked = presence true 5 ∷ heartbeat beat 10 ∷ timer 20 ∷ []

abbrev answered : List Event
answered =
    presence true 5 ∷ heartbeat beat 10 ∷ timer 20 ∷ response (token 1 motor_model 1) ok 0 30 ∷ []

abbrev configured : List Event
configured =
    presence true 5
    ∷ heartbeat beat 10
    ∷ timer 20
    ∷ response (token 1 motor_model 1) ok 0 30
    ∷ timer 40
    ∷ response (token 2 motor_adrc 1) ok 0 50
    ∷ timer 60
    ∷ response (token 3 pwm_servo_offsets 1) busy 0 70
    ∷ timer 200000000
    ∷ response (token 4 pwm_servo_offsets 2) ok 0 200000010
    ∷ timer 200000020
    ∷ response (token 5 battery_threshold 1) ok 0 200000030
    ∷ []

abbrev start : Supervisor ℕ
start = initial 7

abbrev after : List Event → Supervisor ℕ
after es = run start es

after-Inv : (es : List Event) → Inv (after es)
after-Inv es = run-Inv start es (initial-Inv 7)

moves_when_configured : (after configured).status.motion_enabled ≡ true
unfolding run step initial token_eq is_ready_state is_retryable
moves_when_configured = refl

step-Inv_example : Inv (step (after asked) (timer 100000020))
step-Inv_example = step-Inv (after asked) (timer 100000020) (after-Inv asked)

motion_needs_all_operations_example :
    ((after configured).status.motion_enabled ≡ true → history start [] configured ≡ all_operations)
    × ((after configured).configuration_started ≡ true
        → (after configured).status.motion_enabled ≡ false
        → history start [] configured ≡ before (after configured).status.operation)
motion_needs_all_operations_example = motion_needs_all_operations 7 configured

heartbeat_keeps_motion_example :
    ((on_heartbeat (after configured) beat 300000000).status.motion_enabled ≡ true) ↔ (
      ((after configured).status.motion_enabled ≡ true)
      × (beat.agent_session_id ≡ (after configured).status.agent_session_id)
      × (uptime_regressed (after configured).last_uptime_ms beat.uptime_ms ≡ false)
      × ((beat.state ≡ ready) ⊎ (beat.state ≡ degraded)))
heartbeat_keeps_motion_example =
    heartbeat_keeps_motion (after configured) beat 300000000 (after-Inv configured)

abbrev first_call : ServiceCall ℕ
first_call = record { token = token 1 motor_model 1; configuration = 7; deadline = 100000020 }

retired_token_stays_stale_example :
    is_current_token (run (after answered) (timer 40 ∷ timer 50 ∷ [])) (token 1 motor_model 1)
    ≡ false
unfolding run step initial token_eq is_ready_state is_retryable
retired_token_stays_stale_example =
    retired_token_stays_stale (after answered) (token 1 motor_model 1) (timer 40 ∷ timer 50 ∷ [])
      (after-Inv answered) (omega arith) refl refl (omega arith)
