-- ===== src/Bringup/Campaign/Latch.antt =====
-- `AddFailure` (qualification_campaign_core.cc): a failure that was recorded is never cleared.
use mentor_pi_ros.Prelude.{ℕ, ◌≡◌, Bool, true, false, not, ◌&&◌, arith, bit_or, if◌then◌else◌}
use mentor_pi_ros.Prelude.Bits.{selects}
use mentor_pi_ros.Prelude.Unions.{selects-bit_or}
use mentor_pi_ros.Bringup.Campaign.State.{
  Doubles, Core, CampaignFailure, HeartbeatObservation, DiagnosticsObservation, add_failure,
  fail_if, session_invalid, continuous, campaign_failure_bit, session_changed,
  diagnostic_regression, is_forward_progress,
}
use mentor_pi_ros.Bringup.Campaign.Transitions.{
  store_transition, enter_session, start_transition, judge_session, later_heartbeat,
  first_heartbeat, observe_heartbeat, is_valid_heartbeat,
}
use mentor_pi_ros.Bringup.Campaign.Diagnostics.{
  accumulate_diagnostic_delta, measure_traffic, count_reset, cross_generation, note_restart,
  compare_generations, check_diagnostics, observe_diagnostics, reset_diagnostic_baseline,
  add_motor_evidence, first_diagnostics,
}

pub selects-bit_or_kept : (k m bits : ℕ) → selects m k ≡ true → selects (bit_or m bits) k ≡ true
selects-bit_or_kept k m bits on = ground (arith, selects-bit_or k m bits)

module _ {F : Type 0} (k : ℕ) where
  -- The failure with number `k` has been recorded.
  abbrev pub Has : Core F → Type 0
  Has c = selects c.failure_mask k ≡ true

  store_transition-Has :
      (o : HeartbeatObservation) (c : Core F) → Has c → Has (store_transition o c)
  unfolding store_transition
  store_transition-Has o c on = grind (arith, selects-bit_or_kept)

  start_transition-Has :
      (o : HeartbeatObservation) (regressed : Bool) (c : Core F)
      → Has c
      → Has (start_transition o regressed c)
  unfolding start_transition enter_session
  start_transition-Has o regressed c on = grind (arith, selects-bit_or_kept, store_transition-Has)

  judge_session-Has : (o : HeartbeatObservation) (c : Core F) → Has c → Has (judge_session o c)
  unfolding judge_session
  judge_session-Has o c on = grind (arith, selects-bit_or_kept, start_transition-Has)

  later_heartbeat-Has : (o : HeartbeatObservation) (c : Core F) → Has c → Has (later_heartbeat o c)
  unfolding later_heartbeat
  later_heartbeat-Has o c on = judge_session-Has o c on

  first_heartbeat-Has : (o : HeartbeatObservation) (c : Core F) → Has c → Has (first_heartbeat o c)
  unfolding first_heartbeat
  first_heartbeat-Has o c on = on

  -- A value of either branch has the failure when both have it.
  pub either-Has : (test : Bool) (c d : Core F) → Has c → Has d → Has (if test then c else d)
  either-Has true c d p q = p
  either-Has false c d p q = q

  fail_if-Has :
      (test : Bool) (failure : CampaignFailure) (c : Core F) → Has c → Has (fail_if test failure c)
  fail_if-Has true failure c on =
      selects-bit_or_kept k c.failure_mask (campaign_failure_bit failure) on
  fail_if-Has false failure c on = on

  add_failure-Has : (failure : CampaignFailure) (c : Core F) → Has c → Has (add_failure failure c)
  add_failure-Has failure c on = fail_if-Has true failure c on

  pub observe_heartbeat-Has :
      (o : HeartbeatObservation) (c : Core F) → Has c → Has (observe_heartbeat o c)
  unfolding observe_heartbeat
  observe_heartbeat-Has o c on =
      let checked = fail_if (not (is_valid_heartbeat o)) session_invalid c in
      let kept = fail_if-Has (not (is_valid_heartbeat o)) session_invalid c on in
      either-Has _ (first_heartbeat o checked) _ (first_heartbeat-Has o checked kept) (
        either-Has _ (add_failure session_invalid checked) (later_heartbeat o checked)
          (add_failure-Has session_invalid checked kept) (later_heartbeat-Has o checked kept))

  module _ (ops : Doubles F) where
    measure_traffic-Has :
        (o : DiagnosticsObservation) (c : Core F) → Has c → Has (measure_traffic ops o c)
    unfolding measure_traffic
    measure_traffic-Has o c on = grind (arith, selects-bit_or_kept)

    accumulate-Has :
        (o : DiagnosticsObservation) (c : Core F)
        → Has c
        → Has (accumulate_diagnostic_delta ops o c)
    unfolding accumulate_diagnostic_delta add_motor_evidence
    accumulate-Has o c on = grind (arith, selects-bit_or_kept, measure_traffic-Has)

    count_reset-Has : (o : DiagnosticsObservation) (c : Core F) → Has c → Has (count_reset o c)
    unfolding count_reset
    count_reset-Has o c on = grind (arith, selects-bit_or_kept)

    note_restart-Has :
        (o : DiagnosticsObservation) (back : Bool) (c : Core F)
        → Has c
        → Has (note_restart ops o back c)
    unfolding note_restart
    note_restart-Has o back c on = grind (arith, selects-bit_or_kept, count_reset-Has)

    compare_generations-Has :
        (o : DiagnosticsObservation) (back : Bool) (c : Core F)
        → Has c
        → Has (compare_generations ops o back c)
    unfolding compare_generations
    compare_generations-Has o back c on = grind (arith, selects-bit_or_kept, accumulate-Has)

    cross_generation-Has :
        (o : DiagnosticsObservation) (back : Bool) (c : Core F)
        → Has c
        → Has (cross_generation ops o back c)
    unfolding cross_generation reset_diagnostic_baseline
    cross_generation-Has o back c on =
        let restarted = note_restart ops o back c in
        compare_generations-Has o back _ (
          fail_if-Has (restarted.evidence_started && continuous restarted) session_changed restarted
            (note_restart-Has o back c on))

    check_diagnostics-Has :
        (o : DiagnosticsObservation) (c : Core F) → Has c → Has (check_diagnostics ops o c)
    unfolding check_diagnostics
    check_diagnostics-Has o c on = grind (arith, selects-bit_or_kept)

    pub observe_diagnostics-Has :
        (o : DiagnosticsObservation) (c : Core F) → Has c → Has (observe_diagnostics ops o c)
    unfolding observe_diagnostics reset_diagnostic_baseline
    observe_diagnostics-Has o c on =
        let checked = check_diagnostics ops o c in
        let kept = check_diagnostics-Has o c on in
        let back = not (is_forward_progress o.uptime_ms c.diagnostics.last.uptime_ms) in
        either-Has _ (reset_diagnostic_baseline o (first_diagnostics o checked)) _ kept (
          either-Has _ (add_failure diagnostic_regression checked) _
            (add_failure-Has diagnostic_regression checked kept)
            (either-Has _ (cross_generation ops o back checked) _
              (cross_generation-Has o back checked kept) (accumulate-Has o checked kept)))
