-- ===== src/Bringup/Campaign/Telemetry.antt =====
-- `ObserveEndpointGraph` and `ObserveTelemetry`: the endpoints found and the samples that arrive.
use mentor_pi_ros.Prelude.{
  ℕ, ◌+◌, ◌/◌, Bool, true, false, not, ◌&&◌, ◌||◌, ltb, leb, if◌then◌else◌, get_or, set,
}
use mentor_pi_ros.Prelude.Int.{
  ℤ, pos, negsuc, pos_part, is_negative, is_positive, ltb_ℤ, leb_ℤ, ◌-ℤ◌,
}
use mentor_pi_ros.Bringup.Campaign.Profile.{telemetry_count, maximum_transitions}
use mentor_pi_ros.Bringup.Campaign.Scheduler.{saturating_add}
use mentor_pi_ros.Bringup.Campaign.State.{
  Core, continuous, add_failure, fail_if, forget_connected, requires_periodic_telemetry,
  maximum_telemetry_gap_ns, invalid_configuration, endpoint_lost, endpoint_recovery_timeout,
  invalid_telemetry, telemetry_rate,
}
use mentor_pi_ros.Bringup.Campaign.Transitions.{
  nanoseconds_per_millisecond, transition_at, has_pending,
}

module _ {F : Type 0} where
  -- The pending transition is recovered after `recovery_ns`.
  abbrev pub store_recovery : ℤ → ℤ → Core F → Core F
  store_recovery time recovery_ns c = record c {
    transition = record (c.transition) {
      transitions =
          set c.transition.transitions c.transition.pending_index
            (record (transition_at c c.transition.pending_index) {
              endpoint_recovery_ms = pos_part recovery_ns / nanoseconds_per_millisecond;
              endpoint_recovered = true;
            });
      pending_index = maximum_transitions;
    };
    endpoint = record (c.endpoint) { last_recovery_time_ns = time };
  }

  unfoldable pub recover_endpoints : ℤ → Core F → Core F
  recover_endpoints time c =
      let recovery_ns = time -ℤ c.transition.pending_time_ns in
      if not (has_pending c) || (transition_at c c.transition.pending_index).endpoint_recovered
      then c
      else if ltb_ℤ time c.transition.pending_time_ns
      then add_failure invalid_configuration c
      else fail_if (ltb_ℤ c.configuration.endpoint_recovery_limit_ns recovery_ns)
          endpoint_recovery_timeout (store_recovery time recovery_ns c)

  abbrev pub set_graph : Bool → ℤ → Core F → Core F
  set_graph complete time c = record c {
    endpoint = record (c.endpoint) {
      graph_observed = true;
      last_graph_time_ns = time;
      graph_complete = complete;
    };
    telemetry =
        if not complete
        then forget_connected (negsuc 0) c.telemetry
        else if c.evidence_started && not c.endpoint.graph_complete
        then forget_connected time c.telemetry
        else c.telemetry;
  }

  unfoldable pub observe_endpoint_graph : Bool → ℤ → Core F → Core F
  unfolding recover_endpoints
  observe_endpoint_graph complete time c =
      let graph = set_graph complete time c in
      let lost = fail_if (not complete && continuous c) endpoint_lost graph in
      if is_negative time || (c.endpoint.graph_observed && leb_ℤ time c.endpoint.last_graph_time_ns)
      then add_failure invalid_configuration c
      else if not c.evidence_started
      then graph
      else if complete
      then recover_endpoints time lost
      else lost

  -- Every sample is counted and its time noted.
  unfoldable pub note_sample : ℕ → ℤ → Core F → Core F
  unfolding saturating_add
  note_sample index time c =
      let t = c.telemetry in
      let seen = get_or t.time_seen index false in
      fail_if (seen && leb_ℤ time (get_or t.last_time_ns index (pos 0))) invalid_telemetry
        (record c {
          telemetry = record t {
            samples = set t.samples index (saturating_add (get_or t.samples index 0) 1);
            first_time_ns = if seen then t.first_time_ns else set t.first_time_ns index time;
            time_seen = set t.time_seen index true;
            last_time_ns = set t.last_time_ns index time;
          };
        })

  -- The gap to the last sample of the same connection, when there is one.
  unfoldable pub judge_gap : ℕ → ℤ → Core F → Core F
  unfolding maximum_telemetry_gap_ns
  judge_gap index time c =
      let t = c.telemetry in
      let maximum = maximum_telemetry_gap_ns c.configuration index in
      let gap = time -ℤ get_or t.last_connected_time_ns index (pos 0) in
      let late = not (is_positive gap) || ltb_ℤ maximum gap in
      let first_late = ltb_ℤ maximum (time -ℤ t.connected_epoch_start_ns) in
      if get_or t.gap_baseline_seen index false
      then fail_if late telemetry_rate (record c {
        telemetry = record t {
          connected_gap_observed = true;
          connected_gap_observed_by_stream = set t.connected_gap_observed_by_stream index true;
          connected_gap_failed = t.connected_gap_failed || late;
        };
      })
      else fail_if first_late telemetry_rate (record c {
        telemetry = record t { connected_gap_failed = t.connected_gap_failed || first_late };
      })

  unfoldable pub note_connected : ℕ → ℤ → Bool → Core F → Core F
  note_connected index time valid c =
      let t = c.telemetry in
      let samples = get_or t.current_connected_samples index 0 in
      record c {
        telemetry = record t {
          gap_baseline_seen = set t.gap_baseline_seen index true;
          last_connected_time_ns = set t.last_connected_time_ns index time;
          current_connected_samples =
              if valid && ltb samples 2
              then set t.current_connected_samples index (samples + 1)
              else t.current_connected_samples;
        };
      }

  -- Endpoints and heartbeats are there, and a connection began.
  abbrev pub is_connected : Core F → Bool
  is_connected c =
      c.endpoint.graph_complete
      && not c.heartbeat.outage_active
      && not (is_negative c.telemetry.connected_epoch_start_ns)

  unfoldable pub note_gap : ℕ → ℤ → Bool → Core F → Core F
  unfolding judge_gap note_connected requires_periodic_telemetry
  note_gap index time valid c =
      if is_connected c && requires_periodic_telemetry c.configuration index
      then note_connected index time valid (judge_gap index time c)
      else c

  abbrev pub set_invalid : ℕ → Core F → Core F
  set_invalid index c = record c {
    telemetry = record (c.telemetry) { invalid = set c.telemetry.invalid index true };
  }

  unfoldable pub observe_telemetry : ℕ → ℤ → Bool → Core F → Core F
  unfolding note_sample note_gap
  observe_telemetry index time valid c =
      let noted = note_gap index time valid (note_sample index time c) in
      if not c.evidence_started
      then c
      else if leb telemetry_count index || ltb_ℤ time c.evidence_start_time_ns
      then add_failure invalid_configuration c
      else if not valid
      then add_failure invalid_telemetry (set_invalid index noted)
      else noted
