-- ===== src/Bringup/Campaign/State.antt =====
-- The observations, the configuration and the state of `QualificationCampaignCore`
-- (qualification_campaign_core.h). A stream, command or service is the number of its enumerator.
-- `F` is the type of doubles, whose operations are a parameter; a float is the double that it
-- converts to.
use mentor_pi_ros.Prelude.{
  ℕ, ◌*◌, ◌/◌, ◌^◌, bit_or, Bool, false, not, ◌&&◌, ◌||◌, List, [], ◌∷◌, ltb, ◌==◌, ◌!=◌,
  if◌then◌else◌, replicate, get_or, sub32,
}
use mentor_pi_ros.Prelude.Int.{ℤ, pos, max_ℤ}
use mentor_pi_ros.Bringup.Campaign.Profile.{
  telemetry_count, nanoseconds_per_second, CampaignProfile,
}
use mentor_pi_ros.Bringup.Campaign.Scheduler.{Scheduler}

-- What the code uses of IEEE doubles. `literal n` is the value of a literal or a converted integer.
pub record Doubles (F : Type 0) : Type 0 where
  pub literal : ℕ → F
  pub rate_tolerance : F
  pub add : F → F → F
  pub subtract : F → F → F
  pub multiply : F → F → F
  pub divide : F → F → F
  pub less : F → F → Bool
  pub at_most : F → F → Bool
  pub equal : F → F → Bool
  pub is_finite : F → Bool

pub data CampaignFailure : Type 0 where
  invalid_configuration evidence_not_started duration_incomplete schedule_missed : CampaignFailure
  command_count_mismatch nonzero_motor_attempt invalid_telemetry telemetry_rate : CampaignFailure
  session_changed session_invalid session_cycle_missing endpoint_lost : CampaignFailure
  endpoint_recovery_timeout unexpected_reset reset_cycle_missing : CampaignFailure
  diagnostic_regression diagnostic_error transport_rate motor_age_baseline : CampaignFailure
  motor_age_evidence_missing motor_age_p99 motor_age_maximum service_failure : CampaignFailure
  service_coverage : CampaignFailure

abbrev pub failure_number : CampaignFailure → ℕ
failure_number invalid_configuration = 0
failure_number evidence_not_started = 1
failure_number duration_incomplete = 2
failure_number schedule_missed = 3
failure_number command_count_mismatch = 4
failure_number nonzero_motor_attempt = 5
failure_number invalid_telemetry = 6
failure_number telemetry_rate = 7
failure_number session_changed = 8
failure_number session_invalid = 9
failure_number session_cycle_missing = 10
failure_number endpoint_lost = 11
failure_number endpoint_recovery_timeout = 12
failure_number unexpected_reset = 13
failure_number reset_cycle_missing = 14
failure_number diagnostic_regression = 15
failure_number diagnostic_error = 16
failure_number transport_rate = 17
failure_number motor_age_baseline = 18
failure_number motor_age_evidence_missing = 19
failure_number motor_age_p99 = 20
failure_number motor_age_maximum = 21
failure_number service_failure = 22
failure_number service_coverage = 23

unfoldable pub campaign_failure_bit : CampaignFailure → ℕ
campaign_failure_bit failure = 2 ^ failure_number failure

pub record HeartbeatObservation : Type 0 where
  pub arrival_time_ns : ℤ
  pub sequence : ℕ
  pub uptime_ms : ℕ
  pub session_id : ℕ
  pub state : ℕ

pub record DiagnosticsObservation : Type 0 where
  pub arrival_time_ns : ℤ
  pub transport_rx_bytes : ℕ
  pub transport_tx_bytes : ℕ
  pub hard_error_total : ℕ
  pub monotonic_counters : List ℕ
  pub uptime_ms : ℕ
  pub session_generation : ℕ
  pub motor_command_consumptions : ℕ
  pub motor_command_age_over_20_ms : ℕ
  pub motor_command_max_age_us : ℕ
  pub post_seal_allocation_attempts : ℕ
  pub session_state : ℕ
  pub reset_reason : ℕ

pub record CampaignTransition : Type 0 where
  pub cycle : ℕ
  pub previous_session_id : ℕ
  pub new_session_id : ℕ
  pub heartbeat_gap_ms : ℕ
  pub connected_interval_ms : ℕ
  pub endpoint_recovery_ms : ℕ
  pub endpoint_recovered : Bool
  pub heartbeat_outage_observed : Bool
  pub mcu_uptime_regression_observed : Bool
  pub reset_reason : ℕ

abbrev pub reset_unknown : ℕ
reset_unknown = 255

abbrev pub no_transition : CampaignTransition
no_transition = record {
  cycle = 0;
  previous_session_id = 0;
  new_session_id = 0;
  heartbeat_gap_ms = 0;
  connected_interval_ms = 0;
  endpoint_recovery_ms = 0;
  endpoint_recovered = false;
  heartbeat_outage_observed = false;
  mcu_uptime_regression_observed = false;
  reset_reason = reset_unknown;
}

pub record Configuration (F : Type 0) : Type 0 where
  pub profile : CampaignProfile
  pub duration_ns : ℤ
  pub heartbeat_loss_ns : ℤ
  pub endpoint_recovery_limit_ns : ℤ
  pub minimum_telemetry_gap_ns : ℤ
  pub maximum_transport_bytes_per_second : F
  pub require_button_stimulus : Bool
  pub require_valid_imu : Bool

pub record HeartbeatTrack : Type 0 where
  pub seen : Bool
  pub outage_active : Bool
  pub outage_observed_time_ns : ℤ
  pub last_time_ns : ℤ
  pub initial_session_id : ℕ
  pub current_session_id : ℕ
  pub last_sequence : ℕ
  pub last_uptime_ms : ℕ

pub record DiagnosticsTrack (F : Type 0) : Type 0 where
  pub seen : Bool
  pub last : DiagnosticsObservation
  pub initial_reset_reason : ℕ
  pub accumulated_motor_consumptions : ℕ
  pub accumulated_motor_age_over_20_ms : ℕ
  pub motor_command_max_age_us : ℕ
  pub maximum_transport_interval_bytes_per_second : F
  pub interval_observed : Bool

pub record EndpointTrack : Type 0 where
  pub graph_complete : Bool
  pub graph_observed : Bool
  pub last_graph_time_ns : ℤ
  pub last_recovery_time_ns : ℤ

pub record TransitionTrack : Type 0 where
  pub pending_time_ns : ℤ
  pub pending_index : ℕ
  pub last_index : ℕ
  pub unbound_mcu_reset_observed : Bool
  pub unbound_mcu_reset_reason : ℕ
  pub observed_cycles : ℕ
  pub observed_mcu_resets : ℕ
  pub transitions : List CampaignTransition
  pub stored_count : ℕ

pub record Counts : Type 0 where
  pub command_publications : List ℕ
  pub service_requests : List ℕ
  pub service_successes : List ℕ
  pub service_failures : List ℕ
  pub service_skips : List ℕ

pub record TelemetryTrack : Type 0 where
  pub samples : List ℕ
  pub invalid : List Bool
  pub time_seen : List Bool
  pub first_time_ns : List ℤ
  pub last_time_ns : List ℤ
  pub gap_baseline_seen : List Bool
  pub last_connected_time_ns : List ℤ
  pub current_connected_samples : List ℕ
  pub connected_epoch_start_ns : ℤ
  pub connected_gap_observed : Bool
  pub connected_gap_failed : Bool
  pub connected_gap_observed_by_stream : List Bool

pub record Core (F : Type 0) : Type 0 where
  pub configuration : Configuration F
  pub scheduler : Scheduler
  pub failure_mask : ℕ
  pub evidence_started : Bool
  pub evidence_start_time_ns : ℤ
  pub heartbeat : HeartbeatTrack
  pub diagnostics : DiagnosticsTrack F
  pub endpoint : EndpointTrack
  pub transition : TransitionTrack
  pub counts : Counts
  pub telemetry : TelemetryTrack

abbrev pub no_diagnostics : DiagnosticsObservation
no_diagnostics = record {
  arrival_time_ns = pos 0;
  transport_rx_bytes = 0;
  transport_tx_bytes = 0;
  hard_error_total = 0;
  monotonic_counters = replicate 70 0;
  uptime_ms = 0;
  session_generation = 0;
  motor_command_consumptions = 0;
  motor_command_age_over_20_ms = 0;
  motor_command_max_age_us = 0;
  post_seal_allocation_attempts = 0;
  session_state = 0;
  reset_reason = 0;
}

module _ {F : Type 0} where
  -- Mode and session requirements of the profile.
  abbrev pub continuous : Core F → Bool
  continuous c = c.configuration.profile.continuous_session_required

  abbrev pub add_failure : CampaignFailure → Core F → Core F
  add_failure failure c = record c {
    failure_mask = bit_or c.failure_mask (campaign_failure_bit failure);
  }

  -- `if (test) { AddFailure(failure); }`.
  abbrev pub fail_if : Bool → CampaignFailure → Core F → Core F
  fail_if test failure c = record c {
    failure_mask =
        if test then bit_or c.failure_mask (campaign_failure_bit failure) else c.failure_mask;
  }

  abbrev pub failed : Core F → Bool
  failed c = c.failure_mask != 0

unfoldable pub is_forward_progress : ℕ → ℕ → Bool
is_forward_progress current previous =
    sub32 current previous != 0 && ltb (sub32 current previous) (2 ^ 31)

abbrev pub imu_stream : ℕ
imu_stream = 4

abbrev pub button_stream : ℕ
button_stream = 6

-- In hertz.
abbrev pub telemetry_rates : List ℕ
telemetry_rates = 2 ∷ 1 ∷ 50 ∷ 20 ∷ 50 ∷ 1 ∷ 0 ∷ []

module _ {F : Type 0} where
  unfoldable pub requires_periodic_telemetry : Configuration F → ℕ → Bool
  requires_periodic_telemetry configuration index =
      if index == button_stream
      then configuration.profile.continuous_session_required
        && configuration.require_button_stimulus
      else if index == imu_stream && not configuration.require_valid_imu
      then false
      else ltb index telemetry_count && ltb 0 (get_or telemetry_rates index 0)

  unfoldable pub required_telemetry_rate : Configuration F → ℕ → ℕ
  unfolding requires_periodic_telemetry
  required_telemetry_rate configuration index =
      if not (requires_periodic_telemetry configuration index)
      then 0
      else if index == button_stream
      then 1
      else get_or telemetry_rates index 0

  -- The quotient of two seconds and a rate of the table is a whole number of nanoseconds.
  unfoldable pub maximum_telemetry_gap_ns : Configuration F → ℕ → ℤ
  unfolding required_telemetry_rate
  maximum_telemetry_gap_ns configuration index =
      let rate = required_telemetry_rate configuration index in
      if rate == 0
      then pos 0
      else max_ℤ (pos (2 * nanoseconds_per_second / rate)) configuration.minimum_telemetry_gap_ns

-- Forgets the samples of the connection that ended; `epoch` is where the next one begins.
abbrev pub forget_connected : ℤ → TelemetryTrack → TelemetryTrack
forget_connected epoch t = record t {
  gap_baseline_seen = replicate telemetry_count false;
  current_connected_samples = replicate telemetry_count 0;
  connected_epoch_start_ns = epoch;
}

unfoldable pub is_accepted_operator_reset_reason : ℕ → Bool
is_accepted_operator_reset_reason reason = reason == 0 || reason == 1 || reason == 2 || reason == 5
