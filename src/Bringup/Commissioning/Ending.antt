-- ===== src/Bringup/Commissioning/Ending.antt =====
-- The end of a commissioning run: the stops after the drive, and what follows them.
pub mod Abort
use mentor_pi_ros.Prelude.{
  both, both_when, ℕ, zero, suc, ◌+◌, ◌^◌, ◌≡◌, refl, ◌∙◌, ap, ◌≤◌, ◌<◌, Bool, true, false, ◌||◌,
  arith, List, [], ◌∷◌, if◌then◌else◌, replicate, add32,
}
use mentor_pi_ros.Prelude.Int.{ℤ, pos, ◌≤ℤ◌, ◌-ℤ◌}
use mentor_pi_ros.Bringup.Commissioning.{
  Floats, State, Phase, awaiting_prerequisites, pre_stop, drive, post_stop, succeeded, failed,
  Command, no_command, stop_command, drive_command, interrupted,
}
use mentor_pi_ros.Bringup.Commissioning.Core.{
  is_complete, begin_post_stop, finish_post_stop, remember_failure,
}
use mentor_pi_ros.Bringup.Commissioning.Runtime.{runtime_failure}
use mentor_pi_ros.Bringup.Commissioning.Observe.{
  observe_motor_state, is_post_stop, observe_motion_authorization_publisher,
  observe_motion_authorization, observe_heartbeat, observe_diagnostics,
  observe_command_publisher_conflict, measure_motors, confirm_pre_stop, note_response,
  note_settling,
}
use mentor_pi_ros.Bringup.Commissioning.Tick.{
  Event, publisher_seen, authorized, heard, diagnosed, measured, conflict_seen, ticked, published,
  aborted, tick_post_stop, tick, has_stopped, record_command_published, request_abort, step, run,
}
use mentor_pi_ros.Bringup.Commissioning.Sound.{at_phase}
use mentor_pi_ros.Bringup.Commissioning.Safety.{is_drive, post_stop_drives}

module _ {F : Type 0} (ops : Floats F) where
  -- The drive is over.
  abbrev pub has_ended : State F → Bool
  has_ended c = is_post_stop c || is_complete ops c

  abbrev Ended : State F → Type 0
  Ended c = has_ended c ≡ true

  either-Ended :
      (won : Bool) (c : State F) → Ended (at_phase ops (if won then succeeded else failed) c)
  either-Ended true c = refl
  either-Ended false c = refl

  finish-Ended : (c : State F) → Ended (finish_post_stop ops c)
  unfolding finish_post_stop
  finish-Ended c = either-Ended _ c

  tick-Ended :
      (now : ℤ) (p : Phase) (c : State F)
      → Ended (at_phase ops p c)
      → Ended (tick ops now (at_phase ops p c)).1
        × (is_drive (tick ops now (at_phase ops p c)).0 ≡ false)
  unfolding tick tick_post_stop
  tick-Ended now awaiting_prerequisites c h = ground (arith, h)
  tick-Ended now pre_stop c h = ground (arith, h)
  tick-Ended now drive c h = ground (arith, h)
  tick-Ended now post_stop c h =
      let stopping = at_phase ops post_stop c in
      let kept = remember_failure ops (runtime_failure ops stopping now) stopping in
      (
        both {A = Command × State F} (λ result. Ended result.1)
            (has_stopped ops now kept kept.post_stop_commands)
            {a = (no_command, finish_post_stop ops kept)} {b = (stop_command, kept)}
            (finish-Ended kept) refl,
        post_stop_drives ops now kept,
      )
  tick-Ended now succeeded c h = (refl, refl)
  tick-Ended now failed c h = (refl, refl)

  count-Ended :
      (command : Command) (time : ℤ) (p : Phase) (c : State F)
      → Ended (at_phase ops p c)
      → Ended (record_command_published ops command time (at_phase ops p c))
  unfolding record_command_published
  count-Ended no_command time p c h = h
  count-Ended stop_command time pre_stop c h = h
  count-Ended stop_command time post_stop c h = h
  count-Ended stop_command time awaiting_prerequisites c h = h
  count-Ended stop_command time drive c h = h
  count-Ended stop_command time succeeded c h = h
  count-Ended stop_command time failed c h = h
  count-Ended drive_command time awaiting_prerequisites c h = h
  count-Ended drive_command time pre_stop c h = h
  count-Ended drive_command time drive c h = h
  count-Ended drive_command time post_stop c h = h
  count-Ended drive_command time succeeded c h = h
  count-Ended drive_command time failed c h = h

  abort-Ended : (now : ℤ) (c : State F) → Ended c → Ended (request_abort ops now c)
  unfolding request_abort begin_post_stop
  abort-Ended now c h =
      both Ended (is_complete ops c || c.abort_requested) {a = c}
        {b = begin_post_stop ops interrupted now (record c { abort_requested = true })} h refl

  step-Ended : (event : Event F) (c : State F) → Ended c → Ended (step ops event c)
  unfolding step observe_motion_authorization_publisher observe_motion_authorization
      observe_heartbeat observe_diagnostics observe_command_publisher_conflict observe_motor_state
      measure_motors confirm_pre_stop note_response note_settling
  step-Ended (publisher_seen valid) c h = h
  step-Ended (authorized a) c h = h
  step-Ended (heard seen) c h = h
  step-Ended (diagnosed d) c h = h
  step-Ended (measured m) c h = both Ended _ h h
  step-Ended (conflict_seen conflict) c h = h
  step-Ended (ticked now) c h = (tick-Ended now c.phase c h).0
  step-Ended (published command time) c h = count-Ended command time c.phase c h
  step-Ended (aborted now) c h = abort-Ended now c h

  run-Ended : (events : List (Event F)) (c : State F) → Ended c → Ended (run ops events c)
  unfolding run
  run-Ended [] c h = h
  run-Ended (event ∷ events) c h = run-Ended events _ (step-Ended event c h)

  -- When the drive is over, whether it ran its time, failed or was aborted, no tick commands the
  -- motor to be driven again, whatever the node has called in between.
  pub ended-never_drives :
      (c : State F) (events : List (Event F)) (now : ℤ)
      → has_ended c ≡ true
      → is_drive (tick ops now (run ops events c)).0 ≡ false
  ended-never_drives c events now h =
      let later = run ops events c in (tick-Ended now later.phase later (run-Ended events c h)).1

  either_completes :
      (won : Bool) (c : State F)
      → is_complete ops (at_phase ops (if won then succeeded else failed) c) ≡ true
  either_completes true c = refl
  either_completes false c = refl

  completes :
      (now : ℤ) (c : State F)
      → has_stopped ops now c c.post_stop_commands ≡ true
      → is_complete ops (tick_post_stop ops now c).1 ≡ true
  unfolding tick_post_stop finish_post_stop
  completes now c due =
      both_when {A = Command × State F} (λ result. is_complete ops result.1 ≡ true)
        (has_stopped ops now c c.post_stop_commands) {a = (no_command, finish_post_stop ops c)}
        {b = (stop_command, c)} (λ _. either_completes _ c) (λ off. ground (arith, due, off))
