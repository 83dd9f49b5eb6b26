-- ===== src/Bringup/Campaign/Evidence.antt =====
-- The constructor, `BeginEvidence`, the `Record…` operations and `CampaignComplete`.
use mentor_pi_ros.Prelude.{
  ℕ, zero, suc, ◌+◌, bit_and, Bool, true, false, not, ◌&&◌, ◌||◌, List, [], ◌∷◌, ltb, leb, ◌==◌,
  ◌!=◌, if◌then◌else◌, get_or, set, replicate,
}
use mentor_pi_ros.Prelude.Int.{ℤ, pos, negsuc, is_negative, is_positive, leb_ℤ, ◌-ℤ◌}
use mentor_pi_ros.Bringup.Campaign.Profile.{
  command_count, service_count, telemetry_count, maximum_transitions,
}
use mentor_pi_ros.Bringup.Campaign.Scheduler.{Scheduler, scheduler, start, saturating_add}
use mentor_pi_ros.Bringup.Campaign.State.{
  Doubles, Core, Configuration, no_transition, no_diagnostics, reset_unknown, continuous,
  add_failure, fail_if, failed, campaign_failure_bit, forget_connected, requires_periodic_telemetry,
  invalid_configuration, motor_age_baseline, nonzero_motor_attempt, service_failure,
  service_coverage,
}
use mentor_pi_ros.Bringup.Campaign.Transitions.{has_pending}
use mentor_pi_ros.Bringup.Campaign.Diagnostics.{reset_diagnostic_baseline}

module _ {F : Type 0} (ops : Doubles F) where
  abbrev pub is_invalid : Configuration F → Bool
  is_invalid configuration =
      is_negative configuration.duration_ns
      || (configuration.profile.continuous_session_required
          && not (is_positive configuration.duration_ns))
      || not (is_positive configuration.heartbeat_loss_ns)
      || not (is_positive configuration.endpoint_recovery_limit_ns)
      || is_negative configuration.minimum_telemetry_gap_ns
      || not (ops.is_finite configuration.maximum_transport_bytes_per_second)
      || ops.at_most configuration.maximum_transport_bytes_per_second (ops.literal 0)
      || ltb maximum_transitions configuration.profile.expected_cycles

  unfoldable pub initial : Configuration F → Core F
  unfolding campaign_failure_bit
  initial configuration = fail_if (is_invalid configuration) invalid_configuration (record {
    configuration = configuration;
    scheduler = scheduler configuration.profile configuration.duration_ns;
    failure_mask = 0;
    evidence_started = false;
    evidence_start_time_ns = pos 0;
    heartbeat = record {
      seen = false;
      outage_active = false;
      outage_observed_time_ns = pos 0;
      last_time_ns = pos 0;
      initial_session_id = 0;
      current_session_id = 0;
      last_sequence = 0;
      last_uptime_ms = 0;
    };
    diagnostics = record {
      seen = false;
      last = no_diagnostics;
      initial_reset_reason = 0;
      accumulated_motor_consumptions = 0;
      accumulated_motor_age_over_20_ms = 0;
      motor_command_max_age_us = 0;
      maximum_transport_interval_bytes_per_second = ops.literal 0;
      interval_observed = false;
    };
    endpoint = record {
      graph_complete = false;
      graph_observed = false;
      last_graph_time_ns = pos 0;
      last_recovery_time_ns = pos 0;
    };
    transition = record {
      pending_time_ns = pos 0;
      pending_index = maximum_transitions;
      last_index = maximum_transitions;
      unbound_mcu_reset_observed = false;
      unbound_mcu_reset_reason = reset_unknown;
      observed_cycles = 0;
      observed_mcu_resets = 0;
      transitions = replicate maximum_transitions no_transition;
      stored_count = 0;
    };
    counts = record {
      command_publications = replicate command_count 0;
      service_requests = replicate service_count 0;
      service_successes = replicate service_count 0;
      service_failures = replicate service_count 0;
      service_skips = replicate service_count 0;
    };
    telemetry = record {
      samples = replicate telemetry_count 0;
      invalid = replicate telemetry_count false;
      time_seen = replicate telemetry_count false;
      first_time_ns = replicate telemetry_count (pos 0);
      last_time_ns = replicate telemetry_count (pos 0);
      gap_baseline_seen = replicate telemetry_count false;
      last_connected_time_ns = replicate telemetry_count (pos 0);
      current_connected_samples = replicate telemetry_count 0;
      connected_epoch_start_ns = negsuc 0;
      connected_gap_observed = false;
      connected_gap_failed = false;
      connected_gap_observed_by_stream = replicate telemetry_count false;
    };
  })

-- One more, in a counter of a service.
abbrev pub count_up : List ℕ → ℕ → List ℕ
count_up counters index = set counters index (saturating_add (get_or counters index 0) 1)

module _ {F : Type 0} where
  -- A baseline of heartbeats, endpoints and motor ages has been observed.
  abbrev pub is_baseline : ℤ → Core F → Bool
  is_baseline time c = not (
      c.evidence_started
      || not c.heartbeat.seen
      || not c.diagnostics.seen
      || not c.endpoint.graph_complete
      || is_negative time
      || c.diagnostics.last.session_generation != c.heartbeat.current_session_id
      || c.diagnostics.last.motor_command_consumptions != 0
      || c.diagnostics.last.motor_command_age_over_20_ms != 0
      || c.diagnostics.last.motor_command_max_age_us != 0)

  unfoldable pub start_evidence : ℤ → Scheduler → Core F → Core F
  unfolding reset_diagnostic_baseline
  start_evidence time running c = reset_diagnostic_baseline c.diagnostics.last (record c {
    scheduler = running;
    evidence_started = true;
    evidence_start_time_ns = time;
    heartbeat = record (c.heartbeat) { initial_session_id = c.heartbeat.current_session_id };
    telemetry = forget_connected time c.telemetry;
  })

  unfoldable pub begin_evidence : ℤ → Core F → Bool × Core F
  unfolding start_evidence start
  begin_evidence time c =
      let started = start c.scheduler time in
      if failed c
      then (false, c)
      else if not (is_baseline time c)
      then (false, add_failure motor_age_baseline c)
      else if not started.0
      then (false, add_failure invalid_configuration (record c { scheduler = started.1 }))
      else (true, start_evidence time started.1 c)

  unfoldable pub record_command : ℕ → Core F → Core F
  unfolding saturating_add
  record_command index c =
      if not c.evidence_started || leb command_count index
      then add_failure invalid_configuration c
      else record c {
        counts = record (c.counts) {
          command_publications =
              set c.counts.command_publications index
                (saturating_add (get_or c.counts.command_publications index 0) 1);
        };
      }

  module _ (ops : Doubles F) where
    unfoldable pub are_zero : List F → Bool
    are_zero [] = true
    are_zero (target ∷ targets) =
        ops.is_finite target && ops.equal target (ops.literal 0) && are_zero targets

    unfoldable pub record_motor_command : ℕ → List F → Core F → Bool × Core F
    unfolding are_zero record_command
    record_motor_command update_mask targets c =
        if update_mask != 0 && bit_and update_mask 0xF0 == 0 && are_zero targets
        then (true, record_command 0 c)
        else (false, add_failure nonzero_motor_attempt c)

  abbrev pub count_failure : ℕ → Core F → Core F
  count_failure index c = record c {
    counts = record (c.counts) { service_failures = count_up c.counts.service_failures index };
  }

  abbrev pub count_success : ℕ → Core F → Core F
  count_success index c = record c {
    counts = record (c.counts) { service_successes = count_up c.counts.service_successes index };
  }

  unfoldable pub record_service_result : ℕ → ℕ → Bool → Bool → Core F → Core F
  unfolding saturating_add
  record_service_result index result_code request_sent timed_out c =
      let requested = record c {
        counts = record (c.counts) {
          service_requests =
              if request_sent
              then count_up c.counts.service_requests index
              else c.counts.service_requests;
        };
      } in
      if not c.evidence_started || leb service_count index
      then add_failure invalid_configuration c
      else if not timed_out && result_code == 0
      then (if not request_sent
          then add_failure invalid_configuration (count_failure index requested)
          else count_success index requested)
      else fail_if (continuous c) service_failure (count_failure index requested)

  unfoldable pub record_service_skipped : ℕ → Core F → Core F
  unfolding saturating_add
  record_service_skipped index c =
      if leb service_count index
      then add_failure invalid_configuration c
      else fail_if (continuous c) service_coverage (record c {
        counts = record (c.counts) { service_skips = count_up c.counts.service_skips index };
      })

  -- The loop over the streams of `CampaignComplete`.
  unfoldable pub all_connected : Core F → ℕ → ℕ → Bool
  unfolding requires_periodic_telemetry
  all_connected c zero index = true
  all_connected c (suc left) index =
      not (
        requires_periodic_telemetry c.configuration index
        && ltb (get_or c.telemetry.current_connected_samples index 0) 2)
      && all_connected c left (index + 1)

  unfoldable pub campaign_complete : Core F → ℤ → Bool
  unfolding all_connected
  campaign_complete c now =
      if not c.evidence_started
      then false
      else if continuous c
      then leb_ℤ c.configuration.duration_ns (now -ℤ c.evidence_start_time_ns)
      else if ltb c.transition.observed_cycles c.configuration.profile.expected_cycles
          || has_pending c
      then false
      else all_connected c telemetry_count 0
