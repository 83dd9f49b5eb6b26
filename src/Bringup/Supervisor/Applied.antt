-- ===== src/Bringup/Supervisor/Applied.antt =====
-- Motion is enabled by four acknowledgements in order, and by nothing else.
use mentor_pi_ros.Prelude.{
  ℕ, ◌≡◌, ◌↔◌, Bool, true, false, not, ◌&&◌, ◌||◌, List, [], ◌∷◌, ◌++◌, arith, ◌!=◌, if◌then◌else◌,
  Bool-cases, inl, inr, ◌⊎◌,
}
use mentor_pi_ros.Bringup.Status.{
  HeartbeatState, booting, ready, degraded, fault, HeartbeatSample, ApplyOperation, motor_model,
  motor_adrc, pwm_servo_offsets, battery_threshold, ResultCode, RequestToken, Supervisor,
  ResponseDisposition, accepted, stale, token_eq,
}
use mentor_pi_ros.Bringup.Core.{
  is_ok, initial, is_ready_state, expire_request_if_due, is_current_token,
}
use mentor_pi_ros.Bringup.Supervisor.{
  discover, hold, follow_session, on_ready, on_heartbeat, apply_result, on_service_result, Event,
  presence, heartbeat, timer, response, step, run, uptime_regressed,
}
use mentor_pi_ros.Bringup.Supervisor.Invariant.{Inv, initial-Inv, expire-Inv, step-Inv}

-- What has to be acknowledged before an operation is tried.
abbrev pub before : ApplyOperation → List ApplyOperation
before motor_model = []
before motor_adrc = motor_model ∷ []
before pwm_servo_offsets = motor_model ∷ motor_adrc ∷ []
before battery_threshold = motor_model ∷ motor_adrc ∷ pwm_servo_offsets ∷ []

abbrev pub all_operations : List ApplyOperation
all_operations = motor_model ∷ motor_adrc ∷ pwm_servo_offsets ∷ battery_threshold ∷ []

abbrev is_accepted : ResponseDisposition → Bool
is_accepted accepted = true
is_accepted stale = false

is_ready_state-eq :
    (state : HeartbeatState)
    → (is_ready_state state ≡ true) ↔ ((state ≡ ready) ⊎ (state ≡ degraded))
unfolding is_ready_state
is_ready_state-eq booting = ground arith
is_ready_state-eq ready = ground arith
is_ready_state-eq degraded = ground arith
is_ready_state-eq fault = ground arith

module _ {C : Type 0} where
  -- An accepted OK adds its operation.
  abbrev pub credit : Supervisor C → Event → List ApplyOperation → List ApplyOperation
  credit s (response token result detail now) done =
      if is_ok result && is_accepted (on_service_result s token result detail now).1
      then done ++ (token.operation ∷ [])
      else done
  credit s e done = done

  -- The operations acknowledged since the generation in which applying is under way was started.
  abbrev pub acknowledged : Supervisor C → Event → List ApplyOperation → List ApplyOperation
  acknowledged s e done =
      let s' = step s e in
      if s'.status.configuration_generation != s.status.configuration_generation
        || not s.configuration_started
        || not s'.configuration_started
      then []
      else credit s e done

  pub history : Supervisor C → List ApplyOperation → List Event → List ApplyOperation
  history s done [] = done
  history s done (e ∷ es) = history (step s e) (acknowledged s e done) es

  record Progress (s : Supervisor C) (done : List ApplyOperation) : Type 0 where
    moving : s.status.motion_enabled ≡ true → done ≡ all_operations
    applying :
        s.configuration_started ≡ true
        → s.status.motion_enabled ≡ false
        → done ≡ before s.status.operation

  expire-Progress :
      (s : Supervisor C) (now : ℕ) (done : List ApplyOperation)
      → Inv s
      → Progress s done
      → Progress (expire_request_if_due s now) done
  unfolding expire_request_if_due
  expire-Progress s now done v h = ground arith

  expire-same :
      (s : Supervisor C) (now : ℕ)
      → let t = expire_request_if_due s now in
        (t.status.configuration_generation ≡ s.status.configuration_generation)
        × (t.configuration_started ≡ s.configuration_started)
  unfolding expire_request_if_due
  expire-same s now = ground arith

  current-operation :
      (s : Supervisor C) (token : RequestToken)
      → Inv s
      → is_current_token s token ≡ true
      → (token.operation ≡ s.status.operation)
        × (s.configuration_started ≡ true)
        × (s.status.motion_enabled ≡ false)
  unfolding is_current_token token_eq
  current-operation s token v e = ground arith

  apply_result-Progress :
      (s : Supervisor C) (token : RequestToken) (result : ResultCode) (detail now : ℕ)
      (done : List ApplyOperation)
      → Progress s done
      → token.operation ≡ s.status.operation
      → s.configuration_started ≡ true
      → s.status.motion_enabled ≡ false
      → let t = apply_result s token result detail now in
        Progress t (if is_ok result then done ++ (token.operation ∷ []) else done)
        × (t.status.configuration_generation ≡ s.status.configuration_generation)
        × (t.configuration_started ≡ true)
  unfolding apply_result
  apply_result-Progress s token result detail now done h o st mo = ground arith

  response-Progress :
      (s : Supervisor C) (token : RequestToken) (result : ResultCode) (detail now : ℕ)
      (done : List ApplyOperation)
      → Inv s
      → Progress s done
      → let (s', disposition) = on_service_result s token result detail now in
        Progress s' (
          if s'.status.configuration_generation != s.status.configuration_generation
            || not s.configuration_started
            || not s'.configuration_started
          then []
          else if is_ok result && is_accepted disposition
          then done ++ (token.operation ∷ [])
          else done)
  unfolding on_service_result
  response-Progress s token result detail now done v h =
      let t = expire_request_if_due s now in
      let vt = expire-Inv s now v in
      let ht = expire-Progress s now done v h in
      let same = expire-same s now in
      elim (Bool-cases (is_current_token t token)) [
        | inl current ↦
            let o = current-operation t token vt current in
            let a = apply_result-Progress t token result detail now done ht o.0 o.1 o.2 in
            rw current (ground arith)
        | inr other ↦ rw other (ground arith)
      ]

  step-Progress :
      (s : Supervisor C) (e : Event) (done : List ApplyOperation)
      → Inv s
      → Progress s done
      → Progress (step s e) (acknowledged s e done)
  unfolding step
  step-Progress s (presence present now) done v h = ground arith
  step-Progress s (heartbeat sample now) done v h = ground arith
  step-Progress s (timer now) done v h = ground arith
  step-Progress s (response token result detail now) done v h =
      response-Progress s token result detail now done v h

  run-Progress :
      (s : Supervisor C) (done : List ApplyOperation) (es : List Event)
      → Inv s
      → Progress s done
      → Progress (run s es) (history s done es)
  unfolding run history
  run-Progress s done [] v h = h
  run-Progress s done (e ∷ es) v h =
      run-Progress (step s e) (acknowledged s e done) es (step-Inv s e v)
        (step-Progress s e done v h)

  -- After any events from start-up, if motion is enabled then the operations acknowledged with OK
  -- since the current generation began to be applied are the motor model, the ADRC parameters, the
  -- PWM offsets and the battery threshold, each once and in this order; while they are being
  -- applied, those acknowledged are the ones before the current operation.
  pub motion_needs_all_operations :
      (configuration : C) (es : List Event)
      → let s = run (initial configuration) es in
        let done = history (initial configuration) [] es in
        (s.status.motion_enabled ≡ true → done ≡ all_operations)
        × (s.configuration_started ≡ true
            → s.status.motion_enabled ≡ false
            → done ≡ before s.status.operation)
  motion_needs_all_operations configuration es =
      let start : Progress (initial configuration) [] = unfold initial in ground arith in
      let p = run-Progress (initial configuration) [] es (initial-Inv configuration) start in
      (p.moving, p.applying)

  -- A heartbeat never enables motion, and keeps it exactly when it comes from the same session, the
  -- uptime has not gone back and the controller is ready or degraded.
  pub heartbeat_keeps_motion :
      (s : Supervisor C) (sample : HeartbeatSample) (now : ℕ)
      → Inv s
      → ((on_heartbeat s sample now).status.motion_enabled ≡ true) ↔ (
          (s.status.motion_enabled ≡ true)
          × (sample.agent_session_id ≡ s.status.agent_session_id)
          × (uptime_regressed s.last_uptime_ms sample.uptime_ms ≡ false)
          × ((sample.state ≡ ready) ⊎ (sample.state ≡ degraded)))
  unfolding on_heartbeat discover hold follow_session on_ready
  heartbeat_keeps_motion s sample now h = ground (arith, is_ready_state-eq sample.state)
