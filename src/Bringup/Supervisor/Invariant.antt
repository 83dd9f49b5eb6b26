-- ===== src/Bringup/Supervisor/Invariant.antt =====
-- What holds of the supervisor between two events.
use mentor_pi_ros.Prelude.{
  ℕ, ◌≤◌, ◌<◌, ◌≡◌, ◌≢◌, Bool, true, false, Option, none, some, List, [], ◌∷◌, arith, ◌==◌, not,
  if◌then◌else◌, Bool-cases, inl, inr,
}
use mentor_pi_ros.Bringup.Status.{
  HeartbeatSample, motor_model, ResultCode, RequestToken, ServiceCall, Supervisor,
}
use mentor_pi_ros.Bringup.Core.{
  is_ready_state, is_some, initial, expire_request_if_due, is_current_token,
}
use mentor_pi_ros.Bringup.Supervisor.{
  on_controller_presence, discover, hold, follow_session, on_ready, on_heartbeat, tick,
  apply_result, on_service_result, Event, presence, heartbeat, timer, response, step, run,
}

module _ {C : Type 0} where
  abbrev pub token_of : Option (ServiceCall C) → RequestToken
  token_of none = record {
    configuration_generation = 0;
    agent_session_id = 0;
    request_serial = 0;
    operation = motor_model;
    attempt = 0;
  }
  token_of (some call) = call.token

  -- Motion needs a live, configured session with nothing in flight; the request in flight is the
  -- current attempt of the current operation of the current generation and session; there are at
  -- most four attempts, and one is left whenever a new one may be made.
  pub record Inv (s : Supervisor C) : Type 0 where
    pub moving_started : s.status.motion_enabled ≡ true → s.configuration_started ≡ true
    pub moving_unblocked : s.status.motion_enabled ≡ true → s.blocked_for_generation ≡ false
    pub moving_idle : s.status.motion_enabled ≡ true → is_some s.in_flight ≡ false
    pub started_ready : s.configuration_started ≡ true → s.ready_heartbeat_seen ≡ true
    pub ready_baseline : s.ready_heartbeat_seen ≡ true → s.has_session_baseline ≡ true
    pub baseline_present : s.has_session_baseline ≡ true → s.status.controller_present ≡ true
    pub baseline_session : s.has_session_baseline ≡ true → s.status.agent_session_id ≢ 0
    pub flying_started : is_some s.in_flight ≡ true → s.configuration_started ≡ true
    pub flying_unblocked : is_some s.in_flight ≡ true → s.blocked_for_generation ≡ false
    pub flying_generation :
        is_some s.in_flight ≡ true
        → (token_of s.in_flight).configuration_generation ≡ s.status.configuration_generation
    pub flying_session :
        is_some s.in_flight ≡ true
        → (token_of s.in_flight).agent_session_id ≡ s.status.agent_session_id
    pub flying_serial :
        is_some s.in_flight ≡ true → (token_of s.in_flight).request_serial ≡ s.request_serial
    pub flying_operation :
        is_some s.in_flight ≡ true → (token_of s.in_flight).operation ≡ s.status.operation
    pub flying_attempt : is_some s.in_flight ≡ true → (token_of s.in_flight).attempt ≡ s.attempts
    pub flying_tried : is_some s.in_flight ≡ true → 0 < s.attempts
    pub at_most_four : s.attempts ≤ 4
    pub tries_left :
        s.configuration_started ≡ true
        → s.blocked_for_generation ≡ false
        → is_some s.in_flight ≡ false
        → s.attempts < 4

  pub initial-Inv : (c : C) → Inv (initial c)
  unfolding initial
  initial-Inv c = ground arith

  presence-Inv :
      (s : Supervisor C) (present : Bool) (now : ℕ)
      → Inv s
      → Inv (on_controller_presence s present now)
  unfolding on_controller_presence
  presence-Inv s present now h = ground arith

  discover-Inv : (s : Supervisor C) (now : ℕ) → Inv s → Inv (discover s now)
  unfolding discover
  discover-Inv s now h = ground arith

  hold-Inv : (s : Supervisor C) (z : Bool) → Inv s → Inv (hold s z)
  unfolding hold
  hold-Inv s z h = ground arith

  follow_session-Inv :
      (s : Supervisor C) (hb : HeartbeatSample) (now : ℕ)
      → Inv s
      → s.status.controller_present ≡ true
      → hb.agent_session_id ≢ 0
      → Inv (follow_session s hb now)
  unfolding follow_session
  follow_session-Inv s hb now h p z = ground arith

  pub expire-Inv : (s : Supervisor C) (now : ℕ) → Inv s → Inv (expire_request_if_due s now)
  unfolding expire_request_if_due
  expire-Inv s now h = ground arith

  on_ready-Inv :
      (s : Supervisor C) (now : ℕ) → Inv s → s.has_session_baseline ≡ true → Inv (on_ready s now)
  unfolding on_ready
  on_ready-Inv s now h b = ground arith

  discover-present :
      (s : Supervisor C) (now : ℕ) → (discover s now).status.controller_present ≡ true
  unfolding discover
  discover-present s now = ground arith

  follow_session-baseline :
      (s : Supervisor C) (hb : HeartbeatSample) (now : ℕ)
      → (follow_session s hb now).has_session_baseline ≡ true
  unfolding follow_session
  follow_session-baseline s hb now = ground arith

  heartbeat-Inv :
      (s : Supervisor C) (hb : HeartbeatSample) (now : ℕ) → Inv s → Inv (on_heartbeat s hb now)
  unfolding on_heartbeat
  heartbeat-Inv s hb now h = elim (Bool-cases (hb.agent_session_id == 0)) [
    | inl zero ↦ rw zero (hold-Inv (discover s now) true (discover-Inv s now h))
    | inr some_session ↦ rw some_session (ready_or_hold (ground arith) (is_ready_state hb.state))
  ]
    where
      followed : Supervisor C
      followed = follow_session (discover s now) hb now

      followed-Inv : hb.agent_session_id ≢ 0 → Inv followed
      followed-Inv z =
          follow_session-Inv (discover s now) hb now (discover-Inv s now h) (discover-present s now)
            z

      ready_or_hold :
          hb.agent_session_id ≢ 0
          → (is_ready : Bool)
          → Inv (if not is_ready then hold followed false else on_ready followed now)
      ready_or_hold z true =
          on_ready-Inv followed now (followed-Inv z)
            (follow_session-baseline (discover s now) hb now)
      ready_or_hold z false = hold-Inv followed false (followed-Inv z)

  tick-Inv : (s : Supervisor C) (now : ℕ) → Inv s → Inv (tick s now).0
  unfolding tick
  tick-Inv s now h = ground (arith, expire-Inv s now h)

  apply_result-Inv :
      (s : Supervisor C) (token : RequestToken) (result : ResultCode) (detail now : ℕ)
      → Inv s
      → is_some s.in_flight ≡ true
      → Inv (apply_result s token result detail now)
  unfolding apply_result
  apply_result-Inv s token result detail now h f = ground arith

  is_current_token-flying :
      (s : Supervisor C) (token : RequestToken)
      → is_current_token s token ≡ true
      → is_some s.in_flight ≡ true
  unfolding is_current_token
  is_current_token-flying s token e = ground arith

  service-Inv :
      (s : Supervisor C) (token : RequestToken) (result : ResultCode) (detail now : ℕ)
      → Inv s
      → Inv (on_service_result s token result detail now).0
  unfolding on_service_result
  service-Inv s token result detail now h =
      let t = expire_request_if_due s now in
      let ht = expire-Inv s now h in
      elim (Bool-cases (is_current_token t token)) [
        | inl current ↦ rw current (
            apply_result-Inv t token result detail now ht (is_current_token-flying t token current))
        | inr stale ↦ rw stale ht
      ]

  -- Every event keeps the supervisor's invariant: motion only in a live, configured session with
  -- nothing in flight, a request in flight that is the current attempt of the current operation,
  -- generation and session, and an attempt left wherever a new one may be made.
  pub step-Inv : (s : Supervisor C) (e : Event) → Inv s → Inv (step s e)
  unfolding step
  step-Inv s (presence present now) h = presence-Inv s present now h
  step-Inv s (heartbeat sample now) h = heartbeat-Inv s sample now h
  step-Inv s (timer now) h = tick-Inv s now h
  step-Inv s (response token result detail now) h = service-Inv s token result detail now h

  pub run-Inv : (s : Supervisor C) (es : List Event) → Inv s → Inv (run s es)
  unfolding run
  run-Inv s [] h = h
  run-Inv s (e ∷ es) h = run-Inv (step s e) es (step-Inv s e h)
