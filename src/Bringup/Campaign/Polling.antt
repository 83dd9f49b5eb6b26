-- ===== src/Bringup/Campaign/Polling.antt =====
-- `Poll` of `QualificationCampaignCore`: the schedule, and the silences and recoveries that are due.
use mentor_pi_ros.Prelude.{
  ℕ, zero, suc, ◌+◌, Bool, true, false, not, ◌&&◌, ◌||◌, ◌!=◌, if◌then◌else◌, get_or,
}
use mentor_pi_ros.Prelude.Int.{ℤ, pos, negsuc, ltb_ℤ, leb_ℤ, ◌-ℤ◌}
use mentor_pi_ros.Bringup.Campaign.Profile.{telemetry_count, mode_eq, reconnect_usb}
use mentor_pi_ros.Bringup.Campaign.Scheduler.{poll, CampaignDueWork, no_work}
use mentor_pi_ros.Bringup.Campaign.State.{
  Core, continuous, fail_if, forget_connected, requires_periodic_telemetry,
  maximum_telemetry_gap_ns, session_changed, session_invalid, telemetry_rate,
  endpoint_recovery_timeout, schedule_missed,
}
use mentor_pi_ros.Bringup.Campaign.Transitions.{has_pending, connected_start}
use mentor_pi_ros.Bringup.Campaign.Telemetry.{is_connected}

module _ {F : Type 0} where
  -- The heartbeats have been missing for the configured time.
  unfoldable pub note_outage : ℤ → Core F → Core F
  note_outage now c =
      let outage = record c {
        heartbeat = record (c.heartbeat) { outage_active = true; outage_observed_time_ns = now };
        telemetry = forget_connected (negsuc 0) c.telemetry;
      } in
      let lost = fail_if (continuous c) session_invalid outage in
      let short = ltb_ℤ (c.heartbeat.last_time_ns -ℤ connected_start c) (pos 10_000_000_000) in
      if c.heartbeat.seen
        && leb_ℤ c.configuration.heartbeat_loss_ns (now -ℤ c.heartbeat.last_time_ns)
        && not c.heartbeat.outage_active
      then fail_if (mode_eq c.configuration.profile.mode reconnect_usb && short) session_invalid
          lost
      else c

  -- A stream that has been silent for too long.
  abbrev pub is_silent : ℤ → Core F → ℕ → Bool
  is_silent now c index =
      let baseline =
        if get_or c.telemetry.gap_baseline_seen index false
        then get_or c.telemetry.last_connected_time_ns index (pos 0)
        else c.telemetry.connected_epoch_start_ns in
      requires_periodic_telemetry c.configuration index
      && ltb_ℤ (maximum_telemetry_gap_ns c.configuration index) (now -ℤ baseline)

  -- The loop over the streams, with `left` of them to go.
  unfoldable pub check_silence : ℤ → ℕ → ℕ → Core F → Core F
  unfolding requires_periodic_telemetry maximum_telemetry_gap_ns
  check_silence now zero index c = c
  check_silence now (suc left) index c =
      let silent = is_silent now c index in
      check_silence now left (index + 1) (
        fail_if silent telemetry_rate (record c {
          telemetry = record (c.telemetry) {
            connected_gap_failed = c.telemetry.connected_gap_failed || silent;
          };
        }))

  unfoldable pub poll_schedule : ℤ → Core F → Core F × CampaignDueWork
  unfolding poll
  poll_schedule now c =
      let polled = poll c.scheduler now in
      let work = polled.1 in
      (
        fail_if (work.missed_command_mask != 0 || work.missed_service_rounds != 0) schedule_missed
            (record c { scheduler = polled.0 }),
        work,
      )

  -- Heartbeats and diagnostics tell of the same session.
  unfoldable pub check_session : Core F → Core F
  check_session c =
      fail_if
        (continuous c
          && c.heartbeat.seen
          && c.diagnostics.seen
          && c.diagnostics.last.session_generation != c.heartbeat.current_session_id)
        session_changed c

  -- A transition is still pending after the time that it has.
  unfoldable pub check_recovery : ℤ → Core F → Core F
  check_recovery now c =
      fail_if
        (has_pending c
          && ltb_ℤ c.configuration.endpoint_recovery_limit_ns (now -ℤ c.transition.pending_time_ns))
        endpoint_recovery_timeout c

  -- What a poll checks before it asks for the work that is due.
  unfoldable pub check_connection : ℤ → Core F → Core F
  unfolding note_outage check_silence check_session check_recovery
  check_connection now c =
      let recovering = check_recovery now (note_outage now (check_session c)) in
      if is_connected recovering && leb_ℤ recovering.telemetry.connected_epoch_start_ns now
      then check_silence now telemetry_count 0 recovering
      else recovering

  unfoldable pub poll_campaign : ℤ → Core F → Core F × CampaignDueWork
  unfolding check_connection poll_schedule
  poll_campaign now c =
      if not c.evidence_started then (c, no_work) else poll_schedule now (check_connection now c)
