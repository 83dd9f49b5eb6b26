-- ===== src/Bringup/Commissioning/Sound/Steps.antt =====
-- The invariant holds after every call of the node.
use mentor_pi_ros.Prelude.{both, both_when, ◌≡◌, refl, sym, true, false, ◌||◌, arith, List, [], ◌∷◌}
use mentor_pi_ros.Prelude.Int.{ℤ}
use mentor_pi_ros.Bringup.Commissioning.{
  Floats, State, MotorState, Observed, Phase, awaiting_prerequisites, pre_stop, drive, post_stop,
  succeeded, failed, Command, no_command, stop_command, drive_command, interrupted,
}
use mentor_pi_ros.Bringup.Commissioning.Core.{is_complete}
use mentor_pi_ros.Bringup.Commissioning.Observe.{
  observe_motion_authorization_publisher, observe_motion_authorization, observe_heartbeat,
  observe_diagnostics, observe_command_publisher_conflict, with_motor_state, observe_motor_state,
  measure_motors, confirm_pre_stop, note_response, note_settling, is_post_stop,
}
use mentor_pi_ros.Bringup.Commissioning.Tick.{
  Event, publisher_seen, authorized, heard, diagnosed, measured, conflict_seen, ticked, published,
  aborted, record_command_published, request_abort, has_succeeded, step, run,
}
use mentor_pi_ros.Bringup.Commissioning.Sound.{
  kept_or, kept_if, has_failed, Sound, idle-Sound, begin_post_stop-Sound, at_phase, tick_at,
}

module _ {F : Type 0} (ops : Floats F) where
  count_at :
      (command : Command) (time : ℤ) (p : Phase) (c : State F)
      → Sound ops (at_phase ops p c)
      → Sound ops (record_command_published ops command time (at_phase ops p c))
  unfolding record_command_published
  count_at no_command time p c sound = sound
  count_at stop_command time awaiting_prerequisites c sound = sound
  count_at stop_command time pre_stop c sound = idle-Sound ops _ (sound.configured refl) refl refl
  count_at stop_command time drive c sound = sound
  count_at stop_command time post_stop c sound = idle-Sound ops _ (sound.configured refl) refl refl
  count_at stop_command time succeeded c sound = sound
  count_at stop_command time failed c sound = sound
  count_at drive_command time awaiting_prerequisites c sound = sound
  count_at drive_command time pre_stop c sound = sound
  count_at drive_command time drive c sound = record {
    configured = sound.configured;
    cleared = sound.cleared;
    won = λ h. ground (arith, h);
  }
  count_at drive_command time post_stop c sound = sound
  count_at drive_command time succeeded c sound = sound
  count_at drive_command time failed c sound = sound

  -- Only a run that has not ended is aborted, and such a run is configured.
  open_lem :
      (p : Phase) (c : State F)
      → is_complete ops (at_phase ops p c) ≡ false
      → has_failed ops (at_phase ops p c) ≡ false
  open_lem awaiting_prerequisites c h = refl
  open_lem pre_stop c h = refl
  open_lem drive c h = refl
  open_lem post_stop c h = refl
  open_lem succeeded c h = refl
  open_lem failed c h = h

  request_abort-Sound : (now : ℤ) (c : State F) → Sound ops c → Sound ops (request_abort ops now c)
  unfolding request_abort
  request_abort-Sound now c sound =
      both_when (Sound ops) (is_complete ops c || c.abort_requested) (λ _. sound)
        (λ going.
          begin_post_stop-Sound ops interrupted now (record c { abort_requested = true })
            (sound.configured (open_lem c.phase c (ground (arith, going)))))

  settled :
      (p : Phase) (c : State F)
      → has_succeeded ops (at_phase ops p c) ≡ true
      → is_post_stop (at_phase ops p c) ≡ false
  settled awaiting_prerequisites c h = refl
  settled pre_stop c h = refl
  settled drive c h = refl
  settled post_stop c h = sym h
  settled succeeded c h = refl
  settled failed c h = refl

  note_motors-Sound :
      (m : MotorState F) (c : State F)
      → Sound ops c
      → Sound ops (
          note_settling ops m
            (note_response ops m (confirm_pre_stop ops m (measure_motors ops m c))))
  unfolding note_settling note_response confirm_pre_stop measure_motors
  note_motors-Sound m c sound = record {
    configured = sound.configured;
    cleared = λ h. (kept_or _ _ (sound.cleared h).0, (sound.cleared h).1);
    won = λ h. record {
      unfailed = (sound.won h).unfailed;
      target = kept_or _ _ (sound.won h).target;
      response = kept_or _ _ (sound.won h).response;
      at_rest = kept_if (is_post_stop c) _ _ _ _ (settled c.phase c h) (sound.won h).at_rest;
    };
  }

  same_Sound :
      (c : State F) (observed : Observed F)
      → Sound ops c
      → Sound ops (record c { observed = observed })
  same_Sound c observed sound = record {
    configured = sound.configured;
    cleared = sound.cleared;
    won = λ h. record {
      unfailed = (sound.won h).unfailed;
      target = (sound.won h).target;
      response = (sound.won h).response;
      at_rest = (sound.won h).at_rest;
    };
  }

  observe_motor_state-Sound :
      (m : MotorState F) (c : State F) → Sound ops c → Sound ops (observe_motor_state ops m c)
  unfolding observe_motor_state
  observe_motor_state-Sound m c sound =
      let seen = same_Sound c _ sound in
      both (Sound ops) _ seen (note_motors-Sound m (with_motor_state ops m c) seen)

  step-Sound : (event : Event F) (c : State F) → Sound ops c → Sound ops (step ops event c)
  unfolding step observe_motion_authorization_publisher observe_motion_authorization
      observe_heartbeat observe_diagnostics observe_command_publisher_conflict
  step-Sound (publisher_seen valid) c sound = same_Sound c _ sound
  step-Sound (authorized a) c sound = same_Sound c _ sound
  step-Sound (heard h) c sound = same_Sound c _ sound
  step-Sound (diagnosed d) c sound = same_Sound c _ sound
  step-Sound (measured m) c sound = observe_motor_state-Sound m c sound
  step-Sound (conflict_seen conflict) c sound = same_Sound c _ sound
  step-Sound (ticked now) c sound = tick_at ops now c.phase c sound
  step-Sound (published command time) c sound = count_at command time c.phase c sound
  step-Sound (aborted now) c sound = request_abort-Sound now c sound

  pub run-Sound :
      (events : List (Event F)) (c : State F) → Sound ops c → Sound ops (run ops events c)
  unfolding run
  run-Sound [] c sound = sound
  run-Sound (event ∷ events) c sound = run-Sound events _ (step-Sound event c sound)
