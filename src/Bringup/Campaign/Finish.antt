-- ===== src/Bringup/Campaign/Finish.antt =====
-- `Finish`, `FinalizeRates` and `FinalizeCoverage`: the checks at the end and the summary.
pub mod Clean
pub mod Verdict
pub mod Passed
use mentor_pi_ros.Prelude.{
  ℕ, zero, suc, ◌+◌, ◌-◌, ◌*◌, ◌/◌, ◌%◌, ◌^◌, bit_or, Bool, true, false, not, ◌&&◌, ◌||◌, List, [],
  ◌∷◌, ltb, leb, ◌==◌, ◌!=◌, same, if◌then◌else◌, get_or,
}
use mentor_pi_ros.Prelude.Int.{ℤ, pos, pos_part, eq_ℤ, is_negative, ltb_ℤ, leb_ℤ, ◌-ℤ◌}
use mentor_pi_ros.Bringup.Campaign.Profile.{
  command_count, service_count, telemetry_count, nanoseconds_per_second, CampaignMode,
  CampaignProfile, Rate, mode_eq, reconnect_usb, reset_mcu, campaign_profile_for_mode,
  profiles_equal,
}
use mentor_pi_ros.Bringup.Campaign.Scheduler.{scheduled_slot_count, no_slots}
use mentor_pi_ros.Bringup.Campaign.Scheduler.Masks.{no_rate}
use mentor_pi_ros.Bringup.Campaign.State.{
  Doubles, Core, CampaignFailure, CampaignTransition, Counts, campaign_failure_bit, continuous,
  fail_if, imu_stream, button_stream, telemetry_rates, maximum_telemetry_gap_ns,
  evidence_not_started, duration_incomplete, session_changed, command_count_mismatch,
  service_coverage, session_cycle_missing, reset_cycle_missing, telemetry_rate,
  endpoint_recovery_timeout, motor_age_evidence_missing, motor_age_p99, motor_age_maximum,
}
use mentor_pi_ros.Bringup.Campaign.Transitions.{transition_at}

pub data MetricStatus : Type 0 where
  pass fail not_observed not_applicable : MetricStatus

-- The bit that a test adds to a mask.
abbrev pub bit_when : Bool → CampaignFailure → ℕ
bit_when test failure = if test then campaign_failure_bit failure else 0

-- A loop that adds bits to the mask, with `left` rounds to go.
unfoldable pub mark_all : (ℕ → ℕ) → ℕ → ℕ → ℕ → ℕ
mark_all bits zero index mask = mask
mark_all bits (suc left) index mask = mark_all bits left (index + 1) (bit_or mask (bits index))

module _ {F : Type 0} where
  -- `for (index …) { if (test) { AddFailure(failure); } }`.
  abbrev pub fail_each : ℕ → (ℕ → ℕ) → Core F → Core F
  fail_each count bits c = record c { failure_mask = mark_all bits count 0 c.failure_mask }

  abbrev pub miscounts_command : Core F → ℕ → Bool
  miscounts_command c index =
      get_or c.counts.command_publications index 0
        != scheduled_slot_count c.configuration.duration_ns
            (get_or c.configuration.profile.command_rates index no_rate)
      || (get_or c.scheduler.commands index no_slots).skipped != 0

  -- The quotient rounds towards 0; the sum is that of 64-bit words.
  -- A negative duration, which the constructor records as a failure, has the quotient 0 here.
  abbrev pub expected_service_rounds : Core F → ℕ
  expected_service_rounds c =
      let period = pos_part c.configuration.profile.service_round_period_ns in
      (pos_part (c.configuration.duration_ns -ℤ pos 1) / period + 1) % 2 ^ 64

  abbrev pub miscounts_service : Core F → ℕ → Bool
  miscounts_service c index =
      get_or c.counts.service_requests index 0 != expected_service_rounds c
      || get_or c.counts.service_successes index 0 != expected_service_rounds c
      || get_or c.counts.service_failures index 0 != 0
      || get_or c.counts.service_skips index 0 != 0

  abbrev pub is_ignored_imu : Core F → ℕ → Bool
  is_ignored_imu c index = index == imu_stream && not c.configuration.require_valid_imu

  abbrev pub lacks_gap : Core F → ℕ → Bool
  lacks_gap c index =
      not (index == button_stream || is_ignored_imu c index)
      && not (get_or c.telemetry.connected_gap_observed_by_stream index false)

  unfoldable pub check_continuous : Core F → Core F
  unfolding scheduled_slot_count mark_all campaign_failure_bit
  check_continuous c =
      let commands =
        fail_each command_count
          (λ index. bit_when (miscounts_command c index) command_count_mismatch) c in
      fail_each service_count (λ index. bit_when (miscounts_service c index) service_coverage)
        commands

  unfoldable pub check_cycles : Core F → Core F
  unfolding mark_all campaign_failure_bit
  check_cycles c =
      let cycles =
        fail_if (ltb c.transition.observed_cycles c.configuration.profile.expected_cycles)
          session_cycle_missing c in
      let resets =
        fail_if
          (mode_eq c.configuration.profile.mode reset_mcu
            && ltb c.transition.observed_mcu_resets c.configuration.profile.expected_cycles)
          reset_cycle_missing cycles in
      fail_each telemetry_count (λ index. bit_when (lacks_gap c index) telemetry_rate) resets

  abbrev pub is_unrecovered : Core F → ℕ → Bool
  is_unrecovered c index =
      not (transition_at c index).endpoint_recovered
      || ltb 5000 (transition_at c index).endpoint_recovery_ms

  abbrev pub lacks_reset : Core F → ℕ → Bool
  lacks_reset c index =
      mode_eq c.configuration.profile.mode reset_mcu
      && not (transition_at c index).mcu_uptime_regression_observed

  unfoldable pub check_transitions : Core F → Core F
  unfolding mark_all campaign_failure_bit
  check_transitions c =
      fail_each c.transition.stored_count
        (λ index.
          bit_or (bit_when (is_unrecovered c index) endpoint_recovery_timeout)
            (bit_when (lacks_reset c index) reset_cycle_missing))
        c

  -- The button is not needed, or the IMU.
  abbrev pub is_optional : Core F → ℕ → Bool
  is_optional c index =
      (index == button_stream
        && (not (continuous c) || not c.configuration.require_button_stimulus))
      || is_ignored_imu c index

  abbrev pub is_absent : ℤ → Core F → ℕ → Bool
  is_absent finish c index =
      let maximum = maximum_telemetry_gap_ns c.configuration index in
      let delay = get_or c.telemetry.first_time_ns index (pos 0) -ℤ c.evidence_start_time_ns in
      not (get_or c.telemetry.time_seen index false)
      || is_negative delay
      || ltb_ℤ maximum delay
      || ltb_ℤ maximum (finish -ℤ get_or c.telemetry.last_time_ns index (pos 0))

  unfoldable pub check_telemetry : ℤ → Core F → Core F
  unfolding mark_all campaign_failure_bit maximum_telemetry_gap_ns
  check_telemetry finish c =
      if c.evidence_started
      then fail_each telemetry_count
          (λ index. bit_when (not (is_optional c index) && is_absent finish c index) telemetry_rate)
          c
      else c

  abbrev pub has_old_commands : Core F → Bool
  has_old_commands c =
      ltb c.diagnostics.accumulated_motor_consumptions
        (c.diagnostics.accumulated_motor_age_over_20_ms * 100 % 2 ^ 64)

  abbrev pub has_oldest_command : Core F → Bool
  has_oldest_command c = leb 100_000 c.diagnostics.motor_command_max_age_us

  unfoldable pub check_motor_age : Core F → Core F
  unfolding campaign_failure_bit
  check_motor_age c =
      if c.diagnostics.accumulated_motor_consumptions == 0
      then fail_if true motor_age_evidence_missing c
      else fail_if (has_oldest_command c) motor_age_maximum
          (fail_if (has_old_commands c) motor_age_p99 c)

  abbrev pub motor_age_status : Core F → Bool → MetricStatus
  motor_age_status c old =
      if c.diagnostics.accumulated_motor_consumptions == 0
      then not_observed
      else if old
      then fail
      else pass

  -- The checks of the evidence and of the session, before those of the counts.
  unfoldable pub check_evidence : ℤ → Core F → Core F
  unfolding campaign_failure_bit
  check_evidence finish c =
      let started = fail_if (not c.evidence_started) evidence_not_started c in
      let lasted =
        fail_if
          (c.evidence_started
            && continuous c
            && ltb_ℤ (finish -ℤ c.evidence_start_time_ns) c.configuration.duration_ns)
          duration_incomplete started in
      fail_if
        (c.heartbeat.seen
          && c.diagnostics.seen
          && c.diagnostics.last.session_generation != c.heartbeat.current_session_id)
        session_changed lasted

  abbrev pub button_observed : Core F → Bool
  button_observed c =
      ltb 0 (get_or c.telemetry.samples button_stream 0)
      && not (get_or c.telemetry.invalid button_stream false)

  abbrev pub button_status : Core F → MetricStatus
  button_status c =
      if not c.configuration.require_button_stimulus
      then not_observed
      else if button_observed c
      then pass
      else fail

  abbrev pub imu_status : Core F → MetricStatus
  imu_status c =
      if not c.configuration.require_valid_imu
      then not_observed
      else if ltb 0 (get_or c.telemetry.samples imu_stream 0)
          && not (get_or c.telemetry.invalid imu_stream false)
      then pass
      else fail

  unfoldable pub finalize_coverage : Core F → Core F
  unfolding campaign_failure_bit
  finalize_coverage c =
      fail_if (c.configuration.require_button_stimulus && not (button_observed c)) telemetry_rate c

module _ {F : Type 0} (ops : Doubles F) where
  -- The samples of a stream per second.
  abbrev pub measured_rate : ℤ → Core F → ℕ → F
  measured_rate finish c index = ops.divide (ops.literal (get_or c.telemetry.samples index 0)) (
      ops.divide (ops.literal (pos_part (finish -ℤ c.evidence_start_time_ns)))
        (ops.literal nanoseconds_per_second))

  abbrev pub is_off_rate : ℤ → Core F → ℕ → Bool
  is_off_rate finish c index =
      let rate = measured_rate finish c index in
      let expected = ops.literal (get_or telemetry_rates index 0) in
      let low = ops.multiply expected (ops.subtract (ops.literal 1) ops.rate_tolerance) in
      let high = ops.multiply expected (ops.add (ops.literal 1) ops.rate_tolerance) in
      if index == button_stream
      then c.configuration.require_button_stimulus && ops.less rate (ops.literal 1)
      else not (is_ignored_imu c index) && (ops.less rate low || ops.less high rate)

  unfoldable pub finalize_rates : ℤ → Core F → Core F
  unfolding mark_all campaign_failure_bit
  finalize_rates finish c =
      if not c.evidence_started || leb_ℤ finish c.evidence_start_time_ns
      then c
      else fail_each telemetry_count
          (λ index. bit_when (continuous c && is_off_rate finish c index) telemetry_rate) c

  unfoldable pub check_all : ℤ → Core F → Core F
  unfolding check_evidence check_continuous check_cycles check_transitions check_telemetry
      check_motor_age finalize_rates finalize_coverage
  check_all finish c =
      let begun = check_evidence finish c in
      let counted = if continuous c then check_continuous begun else check_cycles begun in
      let told = check_telemetry finish (check_transitions counted) in
      finalize_coverage (finalize_rates finish (check_motor_age told))

  abbrev pub is_canonical : Core F → Bool
  is_canonical c =
      let f = c.configuration in
      profiles_equal f.profile (campaign_profile_for_mode f.profile.mode)
      && eq_ℤ f.duration_ns f.profile.canonical_duration_ns
      && eq_ℤ f.heartbeat_loss_ns (pos 1_000_000_000)
      && eq_ℤ f.endpoint_recovery_limit_ns (pos 5_000_000_000)
      && eq_ℤ f.minimum_telemetry_gap_ns (pos 0)
      && ops.equal f.maximum_transport_bytes_per_second (ops.literal 70_000)
      && (not (continuous c) || f.require_button_stimulus)
      && f.require_valid_imu
      && (continuous c || f.profile.expected_cycles == 100)

  -- The counters that the summary copies are those of the core.
  pub record Summary : Type 0 where
    pub core : Core F
    pub evidence_finish_time_ns : ℤ
    pub canonical_profile : Bool
    pub execution_passed : Bool
    pub release_qualified : Bool
    pub motor_age_p99 : MetricStatus
    pub motor_age_maximum : MetricStatus
    pub internal_wire_traffic : MetricStatus
    pub usb_outage_rotation : MetricStatus
    pub connected_telemetry_gaps : MetricStatus
    pub button_stimulus : MetricStatus
    pub imu_function : MetricStatus

  unfoldable pub finish : ℤ → Core F → Core F × Summary
  unfolding check_all profiles_equal campaign_profile_for_mode
  finish finish_time c =
      let d = c.diagnostics in
      let checked = check_all finish_time c in
      (
        checked,
        record {
          core = checked;
          evidence_finish_time_ns = finish_time;
          canonical_profile = is_canonical c;
          execution_passed = checked.failure_mask == 0;
          release_qualified = false;
          motor_age_p99 = motor_age_status c (has_old_commands c);
          motor_age_maximum = motor_age_status c (has_oldest_command c);
          internal_wire_traffic =
              if not d.interval_observed
              then not_observed
              else if ops.less d.maximum_transport_interval_bytes_per_second
                  c.configuration.maximum_transport_bytes_per_second
              then pass
              else fail;
          usb_outage_rotation =
              if mode_eq c.configuration.profile.mode reconnect_usb
              then not_observed
              else not_applicable;
          connected_telemetry_gaps =
              if not c.telemetry.connected_gap_observed
              then not_observed
              else if c.telemetry.connected_gap_failed
              then fail
              else pass;
          button_stimulus = button_status c;
          imu_function = imu_status c;
        },
      )
