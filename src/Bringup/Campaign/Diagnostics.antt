-- ===== src/Bringup/Campaign/Diagnostics.antt =====
-- `ObserveDiagnostics` and the steps it takes: counters that only grow, resets, and the traffic and
-- the motor ages between two reports.
use mentor_pi_ros.Prelude.{
  ℕ, ◌+◌, ◌-◌, ◌^◌, ◌%◌, max, Bool, true, false, not, ◌&&◌, ◌||◌, List, [], ◌∷◌, ltb, ◌==◌, ◌!=◌,
  if◌then◌else◌, set, add32,
}
use mentor_pi_ros.Prelude.Int.{pos_part, is_negative, is_positive, leb_ℤ, ◌-ℤ◌}
use mentor_pi_ros.Bringup.Campaign.Profile.{nanoseconds_per_second, mode_eq, reset_mcu}
use mentor_pi_ros.Bringup.Campaign.Scheduler.{saturating_add}
use mentor_pi_ros.Bringup.Campaign.State.{
  Doubles, Core, DiagnosticsObservation, continuous, add_failure, fail_if, is_forward_progress,
  is_accepted_operator_reset_reason, session_changed, session_invalid, unexpected_reset,
  reset_cycle_missing, diagnostic_regression, diagnostic_error, transport_rate,
}
use mentor_pi_ros.Bringup.Campaign.Transitions.{transition_at}

-- The loop over the monotonic counters; two reports have as many.
unfoldable pub any_decreased : List ℕ → List ℕ → Bool
any_decreased [] last = false
any_decreased (now ∷ counters) [] = false
any_decreased (now ∷ counters) (before ∷ last) = ltb now before || any_decreased counters last

unfoldable pub regressed : DiagnosticsObservation → DiagnosticsObservation → Bool
unfolding any_decreased
regressed o last =
    ltb o.transport_rx_bytes last.transport_rx_bytes
    || ltb o.transport_tx_bytes last.transport_tx_bytes
    || ltb o.hard_error_total last.hard_error_total
    || ltb o.motor_command_consumptions last.motor_command_consumptions
    || ltb o.motor_command_age_over_20_ms last.motor_command_age_over_20_ms
    || ltb o.motor_command_max_age_us last.motor_command_max_age_us
    || any_decreased o.monotonic_counters last.monotonic_counters

module _ {F : Type 0} where
  unfoldable pub reset_diagnostic_baseline : DiagnosticsObservation → Core F → Core F
  reset_diagnostic_baseline o c = record c {
    diagnostics = record (c.diagnostics) {
      last = o;
      motor_command_max_age_us =
          max c.diagnostics.motor_command_max_age_us o.motor_command_max_age_us;
    };
  }

  abbrev pub set_last : DiagnosticsObservation → Core F → Core F
  set_last o c = record c { diagnostics = record (c.diagnostics) { last = o } }

  abbrev pub first_diagnostics : DiagnosticsObservation → Core F → Core F
  first_diagnostics o c = record c {
    diagnostics = record (c.diagnostics) { seen = true; initial_reset_reason = o.reset_reason };
  }

  unfoldable pub add_motor_evidence : DiagnosticsObservation → Core F → Core F
  unfolding saturating_add
  add_motor_evidence o c =
      let d = c.diagnostics in
      record c {
        diagnostics = record d {
          accumulated_motor_consumptions =
              saturating_add d.accumulated_motor_consumptions
                (o.motor_command_consumptions - d.last.motor_command_consumptions);
          accumulated_motor_age_over_20_ms =
              saturating_add d.accumulated_motor_age_over_20_ms
                (o.motor_command_age_over_20_ms - d.last.motor_command_age_over_20_ms);
          motor_command_max_age_us = max d.motor_command_max_age_us o.motor_command_max_age_us;
        };
      }

  -- The cycle that a restart of the controller belongs to.
  unfoldable pub count_reset : DiagnosticsObservation → Core F → Core F
  count_reset o c =
      let t = record (c.transition) {
        observed_mcu_resets = add32 c.transition.observed_mcu_resets 1;
      } in
      if ltb t.last_index t.stored_count
        && (transition_at c t.last_index).new_session_id == o.session_generation
      then record c {
        transition = record t {
          transitions = set t.transitions t.last_index (record (transition_at c t.last_index) {
            mcu_uptime_regression_observed = true;
            reset_reason = o.reset_reason;
          });
        };
      }
      else if not t.unbound_mcu_reset_observed
      then record c {
        transition = record t {
          unbound_mcu_reset_observed = true;
          unbound_mcu_reset_reason = o.reset_reason;
        };
      }
      else add_failure reset_cycle_missing (record c { transition = t })

  module _ (ops : Doubles F) where
    abbrev pub transport_bytes_per_second : DiagnosticsObservation → DiagnosticsObservation → F
    transport_bytes_per_second o last =
        let bytes =
          (o.transport_rx_bytes
            - last.transport_rx_bytes
            + (o.transport_tx_bytes - last.transport_tx_bytes))
          % 2 ^ 64 in
        ops.multiply (ops.literal bytes) (
          ops.divide (ops.literal nanoseconds_per_second)
            (ops.literal (pos_part (o.arrival_time_ns -ℤ last.arrival_time_ns))))

    -- `std::max` on doubles.
    abbrev pub larger : F → F → F
    larger a b = if ops.less a b then b else a

    unfoldable pub measure_traffic : DiagnosticsObservation → Core F → Core F
    measure_traffic o c =
        let rate = transport_bytes_per_second o c.diagnostics.last in
        if is_positive (o.arrival_time_ns -ℤ c.diagnostics.last.arrival_time_ns)
        then fail_if (ops.at_most c.configuration.maximum_transport_bytes_per_second rate)
            transport_rate
            (record c {
              diagnostics = record (c.diagnostics) {
                maximum_transport_interval_bytes_per_second =
                    larger c.diagnostics.maximum_transport_interval_bytes_per_second rate;
                interval_observed = true;
              };
            })
        else c

    unfoldable pub accumulate_diagnostic_delta : DiagnosticsObservation → Core F → Core F
    unfolding regressed measure_traffic add_motor_evidence
    accumulate_diagnostic_delta o c =
        let erred =
          fail_if (o.hard_error_total != c.diagnostics.last.hard_error_total) diagnostic_error c in
        let reset =
          fail_if
            (not (mode_eq c.configuration.profile.mode reset_mcu)
              && o.reset_reason != c.diagnostics.initial_reset_reason)
            unexpected_reset erred in
        if regressed o c.diagnostics.last
        then add_failure diagnostic_regression c
        else add_motor_evidence o (measure_traffic o reset)

    -- What a report of a controller that restarted during the evidence says.
    unfoldable pub note_restart : DiagnosticsObservation → Bool → Core F → Core F
    unfolding count_reset is_accepted_operator_reset_reason
    note_restart o uptime_regression c =
        let unexpected =
          fail_if (not (mode_eq c.configuration.profile.mode reset_mcu)) unexpected_reset c in
        if c.evidence_started && uptime_regression
        then (if is_accepted_operator_reset_reason o.reset_reason
            then count_reset o unexpected
            else unexpected)
        else c

    -- Across generations the counters are compared; after a restart they begin again.
    unfoldable pub compare_generations : DiagnosticsObservation → Bool → Core F → Core F
    unfolding accumulate_diagnostic_delta
    compare_generations o uptime_regression c =
        if not uptime_regression
        then accumulate_diagnostic_delta o c
        else fail_if (o.hard_error_total != 0 || o.post_seal_allocation_attempts != 0)
            diagnostic_error c

    -- A report of another session generation, or of a controller that restarted.
    unfoldable pub cross_generation : DiagnosticsObservation → Bool → Core F → Core F
    unfolding note_restart compare_generations reset_diagnostic_baseline
    cross_generation o uptime_regression c =
        let restarted = note_restart o uptime_regression c in
        let changed =
          fail_if (restarted.evidence_started && continuous restarted) session_changed restarted in
        reset_diagnostic_baseline o (compare_generations o uptime_regression changed)

    -- The tests that every report undergoes.
    unfoldable pub check_diagnostics : DiagnosticsObservation → Core F → Core F
    unfolding is_accepted_operator_reset_reason
    check_diagnostics o c =
        let accepted =
          fail_if (not (is_accepted_operator_reset_reason o.reset_reason)) unexpected_reset c in
        let session =
          fail_if
            (is_negative o.arrival_time_ns || o.session_generation == 0 || o.session_state != 3)
            session_invalid accepted in
        let sealed = fail_if (o.post_seal_allocation_attempts != 0) diagnostic_error session in
        fail_if
          (c.heartbeat.seen
            && continuous c
            && o.session_generation != c.heartbeat.current_session_id)
          session_changed sealed

    unfoldable pub observe_diagnostics : DiagnosticsObservation → Core F → Core F
    unfolding check_diagnostics cross_generation accumulate_diagnostic_delta
        reset_diagnostic_baseline is_forward_progress
    observe_diagnostics o c =
        let checked = check_diagnostics o c in
        let last = c.diagnostics.last in
        let uptime_regression = not (is_forward_progress o.uptime_ms last.uptime_ms) in
        if not c.diagnostics.seen
        then reset_diagnostic_baseline o (first_diagnostics o checked)
        else if leb_ℤ o.arrival_time_ns last.arrival_time_ns
        then add_failure diagnostic_regression checked
        else if o.session_generation != last.session_generation || uptime_regression
        then cross_generation o uptime_regression checked
        else set_last o (accumulate_diagnostic_delta o checked)
