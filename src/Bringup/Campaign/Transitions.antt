-- ===== src/Bringup/Campaign/Transitions.antt =====
-- `ObserveHeartbeat` and `StartTransition`: sessions that end and begin.
use mentor_pi_ros.Prelude.{
  ℕ, ◌+◌, ◌-◌, ◌/◌, Bool, true, false, not, ◌&&◌, ◌||◌, ltb, leb, ◌==◌, ◌!=◌, if◌then◌else◌, get_or,
  set, add32,
}
use mentor_pi_ros.Prelude.Int.{ℤ, negsuc, pos_part, is_negative, is_positive, leb_ℤ, ◌-ℤ◌}
use mentor_pi_ros.Bringup.Campaign.Profile.{maximum_transitions, mode_eq, reconnect_usb, reset_mcu}
use mentor_pi_ros.Bringup.Campaign.State.{
  Core, HeartbeatObservation, CampaignTransition, no_transition, reset_unknown, TransitionTrack,
  continuous, add_failure, fail_if, is_forward_progress, forget_connected, session_invalid,
  session_changed, session_cycle_missing, endpoint_recovery_timeout, unexpected_reset,
}

abbrev pub nanoseconds_per_millisecond : ℕ
nanoseconds_per_millisecond = 1_000_000

-- A reset that the diagnostics showed before the session changed.
unfoldable pub bind_reset : TransitionTrack → TransitionTrack
bind_reset t =
    if t.unbound_mcu_reset_observed && ltb t.last_index t.stored_count
    then record t {
      transitions =
          set t.transitions t.last_index (record (get_or t.transitions t.last_index no_transition) {
            mcu_uptime_regression_observed = true;
            reset_reason = t.unbound_mcu_reset_reason;
          });
      unbound_mcu_reset_observed = false;
      unbound_mcu_reset_reason = reset_unknown;
    }
    else t

abbrev pub is_valid_heartbeat : HeartbeatObservation → Bool
is_valid_heartbeat o =
    not (o.session_id == 0 || is_negative o.arrival_time_ns || (o.state != 1 && o.state != 2))

module _ {F : Type 0} where
  abbrev pub transition_at : Core F → ℕ → CampaignTransition
  transition_at c index = get_or c.transition.transitions index no_transition

  -- `pending_transition_index_ < stored_transition_count_`.
  abbrev pub has_pending : Core F → Bool
  has_pending c = ltb c.transition.pending_index c.transition.stored_count

  -- The start of the connection that ended.
  abbrev pub connected_start : Core F → ℤ
  connected_start c =
      if is_positive c.endpoint.last_recovery_time_ns
      then c.endpoint.last_recovery_time_ns
      else c.evidence_start_time_ns

  -- What is stored of a transition; the fields on the recovery keep their initial values. The
  -- positive part of a difference is its maximum with 0.
  abbrev pub describe_transition : HeartbeatObservation → Core F → CampaignTransition
  describe_transition o c = record (transition_at c c.transition.stored_count) {
    cycle = c.transition.observed_cycles;
    previous_session_id = c.heartbeat.current_session_id;
    new_session_id = o.session_id;
    heartbeat_gap_ms =
        pos_part (o.arrival_time_ns -ℤ c.heartbeat.last_time_ns) / nanoseconds_per_millisecond;
    connected_interval_ms =
        pos_part (c.heartbeat.last_time_ns -ℤ connected_start c) / nanoseconds_per_millisecond;
    heartbeat_outage_observed = c.heartbeat.outage_active;
    mcu_uptime_regression_observed = false;
    reset_reason = reset_unknown;
  }

  unfoldable pub store_transition : HeartbeatObservation → Core F → Core F
  store_transition o c =
      if ltb c.transition.stored_count maximum_transitions
      then record c {
        transition = record (c.transition) {
          transitions =
              set c.transition.transitions c.transition.stored_count (describe_transition o c);
          pending_index = c.transition.stored_count;
          stored_count = c.transition.stored_count + 1;
        };
      }
      else add_failure session_cycle_missing c

  -- The new session, its unknown endpoints, and the index of the transition just stored.
  unfoldable pub enter_session : HeartbeatObservation → Core F → Core F
  unfolding bind_reset
  enter_session o c = record c {
    heartbeat = record (c.heartbeat) { current_session_id = o.session_id };
    endpoint = record (c.endpoint) { graph_complete = false };
    telemetry = forget_connected (negsuc 0) c.telemetry;
    transition = bind_reset (record (c.transition) {
      pending_time_ns = o.arrival_time_ns;
      last_index =
          if leb c.transition.observed_cycles c.transition.stored_count
          then c.transition.stored_count - 1
          else maximum_transitions;
    });
  }

  unfoldable pub start_transition : HeartbeatObservation → Bool → Core F → Core F
  unfolding store_transition enter_session
  start_transition o uptime_regression c =
      let changed = fail_if (continuous c) session_changed c in
      let recovering =
        fail_if
          (has_pending c && not (transition_at c c.transition.pending_index).endpoint_recovered)
          endpoint_recovery_timeout changed in
      let counted = record recovering {
        transition = record (recovering.transition) {
          observed_cycles = add32 recovering.transition.observed_cycles 1;
        };
      } in
      let stored = store_transition o counted in
      let mode = c.configuration.profile.mode in
      let outage =
        fail_if (mode_eq mode reconnect_usb && not c.heartbeat.outage_active) session_invalid
          stored in
      let reset =
        fail_if (not (mode_eq mode reset_mcu) && uptime_regression) unexpected_reset outage in
      enter_session o reset

  unfoldable pub first_heartbeat : HeartbeatObservation → Core F → Core F
  first_heartbeat o c = record c {
    heartbeat = record (c.heartbeat) {
      seen = true;
      initial_session_id = o.session_id;
      current_session_id = o.session_id;
      last_sequence = o.sequence;
      last_uptime_ms = o.uptime_ms;
      last_time_ns = o.arrival_time_ns;
    };
  }

  abbrev pub set_session : ℕ → Core F → Core F
  set_session session c = record c {
    heartbeat = record (c.heartbeat) { current_session_id = session };
  }

  -- The session of a later heartbeat: it changed, the controller restarted, or it goes on.
  unfoldable pub judge_session : HeartbeatObservation → Core F → Core F
  unfolding start_transition is_forward_progress
  judge_session o c =
      let uptime_regression = not (is_forward_progress o.uptime_ms c.heartbeat.last_uptime_ms) in
      let sequence_regression = not (is_forward_progress o.sequence c.heartbeat.last_sequence) in
      if o.session_id != c.heartbeat.current_session_id
        || (uptime_regression && sequence_regression)
      then (if c.evidence_started
          then start_transition o uptime_regression c
          else set_session o.session_id c)
      else fail_if (uptime_regression || sequence_regression) session_invalid c

  unfoldable pub later_heartbeat : HeartbeatObservation → Core F → Core F
  unfolding judge_session
  later_heartbeat o c =
      let judged = judge_session o c in
      record judged {
        heartbeat = record (judged.heartbeat) {
          last_sequence = o.sequence;
          last_uptime_ms = o.uptime_ms;
          last_time_ns = o.arrival_time_ns;
          outage_active = false;
        };
      }

  unfoldable pub observe_heartbeat : HeartbeatObservation → Core F → Core F
  unfolding first_heartbeat later_heartbeat
  observe_heartbeat o c =
      let checked = fail_if (not (is_valid_heartbeat o)) session_invalid c in
      if not checked.heartbeat.seen
      then first_heartbeat o checked
      else if leb_ℤ o.arrival_time_ns checked.heartbeat.last_time_ns
      then add_failure session_invalid checked
      else later_heartbeat o checked
