-- ===== src/Bringup/Campaign/Tests.antt =====
-- A campaign of one second that passes, with whole numbers for doubles.
use mentor_pi_ros.Prelude.{
  ℕ, ◌+◌, ◌-◌, ◌*◌, ◌/◌, ◌≡◌, refl, true, false, [], ◌∷◌, ltb, leb, ◌==◌, replicate,
}
use mentor_pi_ros.Prelude.Bits.{selects}
use mentor_pi_ros.Prelude.Int.{ℤ, pos, ◌-ℤ◌}
use mentor_pi_ros.Bringup.Campaign.Profile.{CampaignProfile, load_500}
use mentor_pi_ros.Bringup.Campaign.Scheduler.{
  Slots, scheduled_slot_count, rate_slots_at_or_before, saturating_add, poll, poll_commands,
  service_slots_at_or_before, account, mark_due,
}
use mentor_pi_ros.Bringup.Campaign.State.{
  Doubles, Core, no_diagnostics, no_transition, campaign_failure_bit, maximum_telemetry_gap_ns,
  required_telemetry_rate, requires_periodic_telemetry,
}
use mentor_pi_ros.Bringup.Campaign.Evidence.{record_command}
use mentor_pi_ros.Bringup.Campaign.Polling.{
  poll_campaign, poll_schedule, check_connection, check_silence, check_session, check_recovery,
  note_outage,
}
use mentor_pi_ros.Bringup.Campaign.Finish.{
  mark_all, check_evidence, check_continuous, check_cycles, check_transitions, check_telemetry,
  check_motor_age, finalize_rates, finalize_coverage, check_all, finish,
}
use mentor_pi_ros.Bringup.Campaign.Finish.Passed.{Passed, finish-Passed}
use mentor_pi_ros.Bringup.Campaign.Trace.{command, polled, step, run}
use mentor_pi_ros.Bringup.Campaign.History.{passed-never_failed, passed-never_missed}

abbrev whole : Doubles ℕ
whole = record {
  literal = λ n. n;
  rate_tolerance = 0;
  add = λ a b. a + b;
  subtract = λ a b. a - b;
  multiply = λ a b. a * b;
  divide = λ a b. a / b;
  less = ltb;
  at_most = leb;
  equal = λ a b. a == b;
  is_finite = λ n. true;
}

abbrev profile : CampaignProfile
profile = record {
  mode = load_500;
  canonical_duration_ns = pos 3_600_000_000_000;
  command_rates =
      record { numerator = 5; denominator_seconds = 1 }
      ∷ replicate 6 (record { numerator = 1; denominator_seconds = 1 });
  service_round_period_ns = pos 60_000_000_000;
  expected_cycles = 0;
  continuous_session_required = true;
}

abbrev second : ℕ
second = 1_000_000_000

abbrev end : ℤ
end = pos 2_000_000_000

abbrev sent : Slots
sent = record { accounted = 1; skipped = 0 }

-- The campaign began at one second and has published everything.
abbrev good : Core ℕ
good = record {
  configuration = record {
    profile = profile;
    duration_ns = pos second;
    heartbeat_loss_ns = pos second;
    endpoint_recovery_limit_ns = pos (5 * second);
    minimum_telemetry_gap_ns = pos 0;
    maximum_transport_bytes_per_second = 70_000;
    require_button_stimulus = false;
    require_valid_imu = true;
  };
  scheduler = record {
    profile = profile;
    start_time_ns = pos second;
    duration_ns = pos second;
    commands = record { accounted = 5; skipped = 0 } ∷ replicate 6 sent;
    service = sent;
    started = true;
  };
  failure_mask = 0;
  evidence_started = true;
  evidence_start_time_ns = pos second;
  heartbeat = record {
    seen = true;
    outage_active = false;
    outage_observed_time_ns = pos 0;
    last_time_ns = pos (2 * second);
    initial_session_id = 7;
    current_session_id = 7;
    last_sequence = 4;
    last_uptime_ms = 2000;
  };
  diagnostics = record {
    seen = true;
    last = record no_diagnostics { session_generation = 7 };
    initial_reset_reason = 0;
    accumulated_motor_consumptions = 5;
    accumulated_motor_age_over_20_ms = 0;
    motor_command_max_age_us = 900;
    maximum_transport_interval_bytes_per_second = 1000;
    interval_observed = true;
  };
  endpoint = record {
    graph_complete = true;
    graph_observed = true;
    last_graph_time_ns = pos second;
    last_recovery_time_ns = pos 0;
  };
  transition = record {
    pending_time_ns = pos 0;
    pending_index = 100;
    last_index = 100;
    unbound_mcu_reset_observed = false;
    unbound_mcu_reset_reason = 255;
    observed_cycles = 0;
    observed_mcu_resets = 0;
    transitions = replicate 100 no_transition;
    stored_count = 0;
  };
  counts = record {
    command_publications = 5 ∷ replicate 6 1;
    service_requests = replicate 6 1;
    service_successes = replicate 6 1;
    service_failures = replicate 6 0;
    service_skips = replicate 6 0;
  };
  telemetry = record {
    samples = 2 ∷ 1 ∷ 50 ∷ 20 ∷ 50 ∷ 1 ∷ 0 ∷ [];
    invalid = replicate 7 false;
    time_seen = replicate 7 true;
    first_time_ns = replicate 7 (pos second);
    last_time_ns = replicate 7 (pos (2 * second));
    gap_baseline_seen = replicate 7 true;
    last_connected_time_ns = replicate 7 (pos (2 * second));
    current_connected_samples = replicate 7 2;
    connected_epoch_start_ns = pos second;
    connected_gap_observed = true;
    connected_gap_failed = false;
    connected_gap_observed_by_stream = replicate 7 true;
  };
}

good_passes : (finish whole end good).1.execution_passed ≡ true
unfolding finish check_all check_evidence check_continuous check_cycles check_transitions
    check_telemetry check_motor_age finalize_rates finalize_coverage mark_all scheduled_slot_count
    rate_slots_at_or_before saturating_add campaign_failure_bit maximum_telemetry_gap_ns
    required_telemetry_rate requires_periodic_telemetry ◌-ℤ◌
good_passes = refl

finish-Passed_example : Passed end good
finish-Passed_example = finish-Passed whole end good good_passes

-- One motor command is still to come.
abbrev short : Core ℕ
short = record good { counts = record (good.counts) { command_publications = 4 ∷ replicate 6 1 } }

short_passes :
    (finish whole end (run whole [] (run whole (command 0 ∷ []) short))).1.execution_passed ≡ true
unfolding run step record_command finish check_all check_evidence check_continuous check_cycles
    check_transitions check_telemetry check_motor_age finalize_rates finalize_coverage mark_all
    scheduled_slot_count rate_slots_at_or_before saturating_add campaign_failure_bit
    maximum_telemetry_gap_ns required_telemetry_rate requires_periodic_telemetry ◌-ℤ◌
short_passes = refl

passed-never_failed_example : selects (run whole (command 0 ∷ []) short).failure_mask 4 ≡ false
passed-never_failed_example = passed-never_failed whole short (command 0 ∷ []) [] end 4 short_passes

abbrev halfway : ℤ
halfway = pos 1_500_000_000

polled_passes :
    (finish whole end
      (run whole [] (step whole (polled halfway) (run whole [] good)))).1.execution_passed
    ≡ true
unfolding run step poll_campaign poll_schedule check_connection check_silence check_session
    check_recovery note_outage poll poll_commands service_slots_at_or_before account mark_due finish
    check_all check_evidence check_continuous check_cycles check_transitions check_telemetry
    check_motor_age finalize_rates finalize_coverage mark_all scheduled_slot_count
    rate_slots_at_or_before saturating_add campaign_failure_bit maximum_telemetry_gap_ns
    required_telemetry_rate requires_periodic_telemetry ◌-ℤ◌
polled_passes = refl

passed-never_missed_example :
    ((poll_campaign halfway (run whole [] good)).1.missed_command_mask ≡ 0)
    × ((poll_campaign halfway (run whole [] good)).1.missed_service_rounds ≡ 0)
passed-never_missed_example = passed-never_missed whole good [] [] halfway end polled_passes
