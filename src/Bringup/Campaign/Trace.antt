-- ===== src/Bringup/Campaign/Trace.antt =====
-- The calls that the campaign node makes, in any order, and what a failure means for all that follow.
use mentor_pi_ros.Prelude.{ℕ, zero, suc, ◌+◌, Bool, List, [], ◌∷◌, arith}
use mentor_pi_ros.Prelude.Int.{ℤ}
use mentor_pi_ros.Bringup.Campaign.Profile.{telemetry_count}
use mentor_pi_ros.Bringup.Campaign.State.{
  Doubles, Core, CampaignFailure, HeartbeatObservation, DiagnosticsObservation, add_failure,
}
use mentor_pi_ros.Bringup.Campaign.Transitions.{observe_heartbeat}
use mentor_pi_ros.Bringup.Campaign.Diagnostics.{observe_diagnostics, reset_diagnostic_baseline}
use mentor_pi_ros.Bringup.Campaign.Telemetry.{
  observe_endpoint_graph, recover_endpoints, note_sample, judge_gap, note_connected, note_gap,
  observe_telemetry,
}
use mentor_pi_ros.Bringup.Campaign.Evidence.{
  begin_evidence, start_evidence, record_command, record_motor_command, record_service_result,
  record_service_skipped,
}
use mentor_pi_ros.Bringup.Campaign.Polling.{
  note_outage, check_silence, poll_schedule, check_session, check_recovery, check_connection,
  poll_campaign,
}
use mentor_pi_ros.Bringup.Campaign.Latch.{
  selects-bit_or_kept, Has, observe_heartbeat-Has, observe_diagnostics-Has, either-Has,
}

-- The public operations, `LatchHarnessFailure` among them.
pub data Event (F : Type 0) : Type 0 where
  heartbeat : HeartbeatObservation → Event F
  diagnostics : DiagnosticsObservation → Event F
  endpoint_graph : Bool → ℤ → Event F
  telemetry : ℕ → ℤ → Bool → Event F
  begin : ℤ → Event F
  polled : ℤ → Event F
  motor_command : ℕ → List F → Event F
  command : ℕ → Event F
  service_result : ℕ → ℕ → Bool → Bool → Event F
  service_skipped : ℕ → Event F
  harness_failure : CampaignFailure → Event F

module _ {F : Type 0} (ops : Doubles F) where
  unfoldable pub step : Event F → Core F → Core F
  unfolding observe_heartbeat observe_diagnostics observe_endpoint_graph observe_telemetry
      begin_evidence poll_campaign record_command record_motor_command record_service_result
      record_service_skipped
  step (heartbeat o) c = observe_heartbeat o c
  step (diagnostics o) c = observe_diagnostics ops o c
  step (endpoint_graph complete time) c = observe_endpoint_graph complete time c
  step (telemetry index time valid) c = observe_telemetry index time valid c
  step (begin time) c = (begin_evidence time c).1
  step (polled time) c = (poll_campaign time c).0
  step (motor_command mask targets) c = (record_motor_command ops mask targets c).1
  step (command index) c = record_command index c
  step (service_result index code sent timed_out) c =
      record_service_result index code sent timed_out c
  step (service_skipped index) c = record_service_skipped index c
  step (harness_failure failure) c = add_failure failure c

  unfoldable pub run : List (Event F) → Core F → Core F
  unfolding step
  run [] c = c
  run (event ∷ events) c = run events (step event c)

module _ {F : Type 0} (k : ℕ) where
  recover_endpoints-Has : (time : ℤ) (c : Core F) → Has k c → Has k (recover_endpoints time c)
  unfolding recover_endpoints
  recover_endpoints-Has time c on = grind (arith, selects-bit_or_kept)

  observe_endpoint_graph-Has :
      (complete : Bool) (time : ℤ) (c : Core F)
      → Has k c
      → Has k (observe_endpoint_graph complete time c)
  unfolding observe_endpoint_graph
  observe_endpoint_graph-Has complete time c on =
      grind (arith, selects-bit_or_kept, recover_endpoints-Has)

  note_gap-Has :
      (index : ℕ) (time : ℤ) (valid : Bool) (c : Core F)
      → Has k c
      → Has k (note_gap index time valid c)
  unfolding note_gap note_connected judge_gap
  note_gap-Has index time valid c on = grind (arith, selects-bit_or_kept)

  note_sample-Has : (index : ℕ) (time : ℤ) (c : Core F) → Has k c → Has k (note_sample index time c)
  unfolding note_sample
  note_sample-Has index time c on = grind (arith, selects-bit_or_kept)

  observe_telemetry-Has :
      (index : ℕ) (time : ℤ) (valid : Bool) (c : Core F)
      → Has k c
      → Has k (observe_telemetry index time valid c)
  unfolding observe_telemetry
  observe_telemetry-Has index time valid c on =
      let sampled = note_sample index time c in
      let noted = note_gap-Has index time valid sampled (note_sample-Has index time c on) in
      grind (arith, selects-bit_or_kept)

  begin_evidence-Has : (time : ℤ) (c : Core F) → Has k c → Has k (begin_evidence time c).1
  unfolding begin_evidence start_evidence reset_diagnostic_baseline
  begin_evidence-Has time c on = grind (arith, selects-bit_or_kept)

  check_silence-Has :
      (now : ℤ) (left index : ℕ) (c : Core F) → Has k c → Has k (check_silence now left index c)
  unfolding check_silence
  check_silence-Has now zero index c on = on
  check_silence-Has now (suc left) index c on =
      check_silence-Has now left (index + 1) _ (grind (arith, selects-bit_or_kept))

  note_outage-Has : (now : ℤ) (c : Core F) → Has k c → Has k (note_outage now c)
  unfolding note_outage
  note_outage-Has now c on = grind (arith, selects-bit_or_kept)

  check_session-Has : (c : Core F) → Has k c → Has k (check_session c)
  unfolding check_session
  check_session-Has c on = grind (arith, selects-bit_or_kept)

  check_recovery-Has : (now : ℤ) (c : Core F) → Has k c → Has k (check_recovery now c)
  unfolding check_recovery
  check_recovery-Has now c on = grind (arith, selects-bit_or_kept)

  check_connection-Has : (now : ℤ) (c : Core F) → Has k c → Has k (check_connection now c)
  unfolding check_connection
  check_connection-Has now c on =
      let recovering = check_recovery now (note_outage now (check_session c)) in
      let kept =
        check_recovery-Has now (note_outage now (check_session c))
          (note_outage-Has now (check_session c) (check_session-Has c on)) in
      either-Has k _ (check_silence now telemetry_count 0 recovering) recovering
        (check_silence-Has now telemetry_count 0 recovering kept) kept

  poll_schedule-Has : (now : ℤ) (c : Core F) → Has k c → Has k (poll_schedule now c).0
  unfolding poll_schedule
  poll_schedule-Has now c on = grind (arith, selects-bit_or_kept)

  poll_campaign-Has : (now : ℤ) (c : Core F) → Has k c → Has k (poll_campaign now c).0
  unfolding poll_campaign
  poll_campaign-Has now c on =
      let kept = poll_schedule-Has now (check_connection now c) (check_connection-Has now c on) in
      grind arith

  record_command-Has : (index : ℕ) (c : Core F) → Has k c → Has k (record_command index c)
  unfolding record_command
  record_command-Has index c on = grind (arith, selects-bit_or_kept)

  record_service_result-Has :
      (index code : ℕ) (sent timed_out : Bool) (c : Core F)
      → Has k c
      → Has k (record_service_result index code sent timed_out c)
  unfolding record_service_result
  record_service_result-Has index code sent timed_out c on = grind (arith, selects-bit_or_kept)

  record_service_skipped-Has :
      (index : ℕ) (c : Core F) → Has k c → Has k (record_service_skipped index c)
  unfolding record_service_skipped
  record_service_skipped-Has index c on = grind (arith, selects-bit_or_kept)

module _ {F : Type 0} (ops : Doubles F) (k : ℕ) where
  record_motor_command-Has :
      (mask : ℕ) (targets : List F) (c : Core F)
      → Has k c
      → Has k (record_motor_command ops mask targets c).1
  unfolding record_motor_command
  record_motor_command-Has mask targets c on =
      grind (arith, selects-bit_or_kept, record_command-Has)

  step-Has : (event : Event F) (c : Core F) → Has k c → Has k (step ops event c)
  unfolding step
  step-Has (heartbeat o) c on = observe_heartbeat-Has k o c on
  step-Has (diagnostics o) c on = observe_diagnostics-Has k ops o c on
  step-Has (endpoint_graph complete time) c on = observe_endpoint_graph-Has k complete time c on
  step-Has (telemetry index time valid) c on = observe_telemetry-Has k index time valid c on
  step-Has (begin time) c on = begin_evidence-Has k time c on
  step-Has (polled time) c on = poll_campaign-Has k time c on
  step-Has (motor_command mask targets) c on = record_motor_command-Has mask targets c on
  step-Has (command index) c on = record_command-Has k index c on
  step-Has (service_result index code sent timed_out) c on =
      record_service_result-Has k index code sent timed_out c on
  step-Has (service_skipped index) c on = record_service_skipped-Has k index c on
  step-Has (harness_failure failure) c on = selects-bit_or_kept k c.failure_mask _ on

  -- A failure that has been recorded stays recorded, whatever is called afterwards.
  pub run-Has : (events : List (Event F)) (c : Core F) → Has k c → Has k (run ops events c)
  unfolding run
  run-Has [] c on = on
  run-Has (event ∷ events) c on = run-Has events (step ops event c) (step-Has event c on)
