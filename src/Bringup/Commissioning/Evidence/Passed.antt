-- ===== src/Bringup/Commissioning/Evidence/Passed.antt =====
-- A run that is reported as passed has seen what its flags stand for.
use mentor_pi_ros.Prelude.{
  both, both_when, ◌≡◌, ◌⊎◌, inl, inr, refl, Bool, true, false, not, ◌||◌, arith, List,
  if◌then◌else◌,
}
use mentor_pi_ros.Prelude.Int.{leb_ℤ, ℤ, pos, ◌-ℤ◌}
use mentor_pi_ros.Bringup.Commissioning.{
  Floats, State, Configuration, MotorState, Phase, awaiting_prerequisites, pre_stop, drive,
  post_stop, succeeded, failed, Command, no_command, stop_command, drive_command, is_none, Failure,
  interrupted, command_publisher_conflict, mcu_reset_detected, prerequisite_timeout,
  pre_stop_not_confirmed, no_failure, target_not_observed,
}
use mentor_pi_ros.Bringup.Commissioning.Motion.{motors}
use mentor_pi_ros.Bringup.Commissioning.Core.{
  initial, is_complete, begin_post_stop, finish_post_stop, lock_prerequisites,
}
use mentor_pi_ros.Bringup.Commissioning.Observe.{
  measure_motors, observe_motor_state, confirm_pre_stop, note_response, note_settling,
}
use mentor_pi_ros.Bringup.Commissioning.Tick.{
  Event, publisher_seen, authorized, heard, diagnosed, measured, conflict_seen, ticked, published,
  aborted, tick, request_abort, record_command_published, has_succeeded, summary, step, run,
}
use mentor_pi_ros.Bringup.Commissioning.Sound.{at_phase, initial-Sound}
use mentor_pi_ros.Bringup.Commissioning.Sound.Steps.{run-Sound}
use mentor_pi_ros.Bringup.Commissioning.Runtime.{runtime_failure}
use mentor_pi_ros.Bringup.Commissioning.Core.{remember_failure, prerequisites_satisfied}
use mentor_pi_ros.Bringup.Commissioning.Observe.{
  observe_motion_authorization_publisher, observe_motion_authorization, observe_heartbeat,
  observe_diagnostics, observe_command_publisher_conflict,
}
use mentor_pi_ros.Bringup.Commissioning.Tick.{
  tick_awaiting, tick_pre_stop, tick_drive, tick_post_stop, unless_failing, start_drive,
  has_stopped, is_out_of_time,
}
use mentor_pi_ros.Bringup.Commissioning.Sound.{succeeds_if}
use mentor_pi_ros.Bringup.Commissioning.Evidence.{
  OnTarget, Responding, Resting, Stopped, Ends, Measures, Ticks,
}
use mentor_pi_ros.Bringup.Commissioning.Evidence.{Occurs, newly_set}
use mentor_pi_ros.Bringup.Commissioning.Evidence.Flags.{
  rests, tick-Kept, count-Kept, abort-Kept, measured_target, measured_response, measured_rest,
}

module _ {F : Type 0} (ops : Floats F) where
  -- A property that every branch but the end of the last phase lacks.
  abbrev Wins : ℤ → State F → Command × State F → Type 0
  Wins now c result =
      has_succeeded ops result.1 ≡ true → (has_succeeded ops c ≡ true) ⊎ Ends ops now c

  begin-Wins :
      (said : Command) (found : Failure) (now : ℤ) (c : State F)
      → Wins now c (said, begin_post_stop ops found now c)
  unfolding begin_post_stop
  begin-Wins said found now c h = ground (arith, h)

  lock-Wins : (now : ℤ) (c : State F) → Wins now c (stop_command, lock_prerequisites ops now c)
  unfolding lock_prerequisites
  lock-Wins now c h = ground (arith, h)

  start_drive-Wins : (now : ℤ) (c : State F) → Wins now c (drive_command, start_drive ops now c)
  unfolding start_drive
  start_drive-Wins now c h = ground (arith, h)

  awaiting-Wins : (now : ℤ) (c : State F) → Wins now c (tick_awaiting ops now c)
  unfolding tick_awaiting
  awaiting-Wins now c =
      both (Wins now c) c.observed.publisher_conflict
        (begin-Wins stop_command command_publisher_conflict now c)
        (both (Wins now c)
          (c.observed.heartbeat_discontinuity || c.observed.diagnostics_discontinuity)
          (begin-Wins stop_command mcu_reset_detected now c)
          (both (Wins now c) (prerequisites_satisfied ops c now) (lock-Wins now c) (
            both (Wins now c) (is_out_of_time ops now c)
              (begin-Wins stop_command prerequisite_timeout now c) (λ h. inl h))))

  pre_stop-Wins : (now : ℤ) (c : State F) → Wins now c (tick_pre_stop ops now c)
  unfolding tick_pre_stop
  pre_stop-Wins now c =
      both (Wins now c) (has_stopped ops now c c.pre_stop_commands)
        (both (Wins now c) (not c.pre_stop_zero_confirmed)
          (begin-Wins stop_command pre_stop_not_confirmed now c) (start_drive-Wins now c))
        (λ h. inl h)

  drive-Wins : (now : ℤ) (c : State F) → Wins now c (tick_drive ops now c)
  unfolding tick_drive
  drive-Wins now c =
      let completion = if c.target_observed then no_failure else target_not_observed in
      both (Wins now c) (leb_ℤ (pos c.configuration.duration_ms) (now -ℤ c.phase_start_time_ms))
        {a = (stop_command, begin_post_stop ops completion now c)} {b = (drive_command, c)}
        (begin-Wins stop_command completion now c) (λ h. inl h)

  unless_failing-Wins :
      (now : ℤ) (c : State F) (result : Command × State F)
      → Wins now c result
      → Wins now c (unless_failing ops now c result)
  unfolding unless_failing
  unless_failing-Wins now c result h =
      both (Wins now c) (is_none (runtime_failure ops c now)) {a = result}
        {b = (stop_command, begin_post_stop ops (runtime_failure ops c now) now c)} h
        (begin-Wins stop_command (runtime_failure ops c now) now c)

  finish_rests :
      (c : State F) → has_succeeded ops (finish_post_stop ops c) ≡ true → Resting ops (motors ops c)
  unfolding finish_post_stop
  finish_rests c h =
      let all = succeeds_if _ h in
      rests ops (motors ops c) c refl (ground (arith, all)) (ground (arith, all))

  -- The phase of the end is the one of the stops after the drive.
  post_stop-Wins :
      (now : ℤ) (c : State F) → c.phase ≡ post_stop → Wins now c (tick_post_stop ops now c)
  unfolding tick_post_stop
  post_stop-Wins now c stopping =
      both_when (Wins now c) (has_stopped ops now c c.post_stop_commands)
        {a = (no_command, finish_post_stop ops c)} {b = (stop_command, c)}
        (λ due h. inr (record {
          stopping = stopping;
          commanded = ground (arith, due);
          waited = ground (arith, due);
          resting = finish_rests c h;
        }))
        (λ _ h. inl h)

  tick-Wins :
      (now : ℤ) (p : Phase) (c : State F)
      → Wins now (at_phase ops p c) (tick ops now (at_phase ops p c))
  unfolding tick
  tick-Wins now awaiting_prerequisites c h =
      awaiting-Wins now (at_phase ops awaiting_prerequisites c) h
  tick-Wins now pre_stop c h =
      let stopping = at_phase ops pre_stop c in
      unless_failing-Wins now stopping _ (pre_stop-Wins now stopping) h
  tick-Wins now drive c h =
      let driving = at_phase ops drive c in
      unless_failing-Wins now driving _ (drive-Wins now driving) h
  tick-Wins now post_stop c h =
      let stopping = at_phase ops post_stop c in
      let kept = remember_failure ops (runtime_failure ops stopping now) stopping in
      elim (post_stop-Wins now kept refl h) [
        | inl before ↦ inl before
        | inr ends ↦ inr (record {
          stopping = ends.stopping;
          commanded = ends.commanded;
          waited = ends.waited;
          resting = ends.resting;
        })
      ]
  tick-Wins now succeeded c h = inl h
  tick-Wins now failed c h = inl h

  count-wins :
      (command : Command) (time : ℤ) (c : State F)
      → has_succeeded ops (record_command_published ops command time c) ≡ true
      → has_succeeded ops c ≡ true
  unfolding record_command_published
  count-wins no_command time c h = h
  count-wins stop_command time c h = ground (arith, h)
  count-wins drive_command time c h = ground (arith, h)

  step_target :
      (event : Event F) (c : State F)
      → (step ops event c).target_observed ≡ true
      → (c.target_observed ≡ true) ⊎ Measures ops (OnTarget ops) event c
  unfolding step observe_motion_authorization_publisher observe_motion_authorization
      observe_heartbeat observe_diagnostics observe_command_publisher_conflict
  step_target (publisher_seen valid) c h = inl h
  step_target (authorized a) c h = inl h
  step_target (heard seen) c h = inl h
  step_target (diagnosed d) c h = inl h
  step_target (measured m) c h = measured_target ops m c h
  step_target (conflict_seen conflict) c h = inl h
  step_target (ticked now) c h = inl ((tick-Kept ops now c.phase c).target h)
  step_target (published command time) c h = inl ((count-Kept ops command time c).target h)
  step_target (aborted now) c h = inl ((abort-Kept ops now c).target h)

  step_response :
      (event : Event F) (c : State F)
      → (step ops event c).physical_response_observed ≡ true
      → (c.physical_response_observed ≡ true) ⊎ Measures ops (Responding ops) event c
  unfolding step observe_motion_authorization_publisher observe_motion_authorization
      observe_heartbeat observe_diagnostics observe_command_publisher_conflict
  step_response (publisher_seen valid) c h = inl h
  step_response (authorized a) c h = inl h
  step_response (heard seen) c h = inl h
  step_response (diagnosed d) c h = inl h
  step_response (measured m) c h = measured_response ops m c h
  step_response (conflict_seen conflict) c h = inl h
  step_response (ticked now) c h = inl ((tick-Kept ops now c.phase c).response h)
  step_response (published command time) c h = inl ((count-Kept ops command time c).response h)
  step_response (aborted now) c h = inl ((abort-Kept ops now c).response h)

  step_rest :
      (event : Event F) (c : State F)
      → (step ops event c).post_stop_zero_confirmed ≡ true
      → (c.post_stop_zero_confirmed ≡ true) ⊎ Measures ops (Stopped ops) event c
  unfolding step observe_motion_authorization_publisher observe_motion_authorization
      observe_heartbeat observe_diagnostics observe_command_publisher_conflict
  step_rest (publisher_seen valid) c h = inl h
  step_rest (authorized a) c h = inl h
  step_rest (heard seen) c h = inl h
  step_rest (diagnosed d) c h = inl h
  step_rest (measured m) c h = measured_rest ops m c h
  step_rest (conflict_seen conflict) c h = inl h
  step_rest (ticked now) c h = inl ((tick-Kept ops now c.phase c).rest h)
  step_rest (published command time) c h = inl ((count-Kept ops command time c).rest h)
  step_rest (aborted now) c h = inl ((abort-Kept ops now c).rest h)

  measured_wins :
      (m : MotorState F) (c : State F)
      → has_succeeded ops (observe_motor_state ops m c) ≡ true
      → has_succeeded ops c ≡ true
  unfolding observe_motor_state measure_motors confirm_pre_stop note_response note_settling
  measured_wins m c =
      both (λ d. has_succeeded ops d ≡ true → has_succeeded ops c ≡ true) _ (λ h. h) (λ h. h)

  abort-wins :
      (now : ℤ) (c : State F)
      → has_succeeded ops (request_abort ops now c) ≡ true
      → has_succeeded ops c ≡ true
  unfolding request_abort begin_post_stop
  abort-wins now c =
      both (λ d. has_succeeded ops d ≡ true → has_succeeded ops c ≡ true)
        (is_complete ops c || c.abort_requested) {a = c}
        {b = begin_post_stop ops interrupted now (record c { abort_requested = true })} (λ h. h)
        (λ h. ground (arith, h))

  unfinished : (f : Configuration F) → has_succeeded ops (initial ops f) ≡ false
  unfolding initial
  unfinished f = ground arith

  step_won :
      (event : Event F) (c : State F)
      → has_succeeded ops (step ops event c) ≡ true
      → (has_succeeded ops c ≡ true) ⊎ Ticks ops (Ends ops) event c
  unfolding step observe_motion_authorization_publisher observe_motion_authorization
      observe_heartbeat observe_diagnostics observe_command_publisher_conflict observe_motor_state
      measure_motors confirm_pre_stop note_response note_settling request_abort begin_post_stop
  step_won (publisher_seen valid) c h = inl h
  step_won (authorized a) c h = inl h
  step_won (heard seen) c h = inl h
  step_won (diagnosed d) c h = inl h
  step_won (measured m) c h = inl (measured_wins m c h)
  step_won (conflict_seen conflict) c h = inl h
  step_won (ticked now) c h = tick-Wins now c.phase c h
  step_won (published command time) c h = inl (count-wins command time c h)
  step_won (aborted now) c h = inl (abort-wins now c h)

  -- What has happened in a run from its start.
  pub record Witnessed (f : Configuration F) (events : List (Event F)) : Type 0 where
    pub unfailed : is_none (run ops events (initial ops f)).failure ≡ true
    pub responded : Occurs ops (Measures ops (Responding ops)) events (initial ops f)
    pub on_target : Occurs ops (Measures ops (OnTarget ops)) events (initial ops f)
    pub stopped : Occurs ops (Measures ops (Stopped ops)) events (initial ops f)
    pub ended : Occurs ops (Ticks ops (Ends ops)) events (initial ops f)

  from_start : {A : Type 0} (b : Bool) → b ≡ false → (b ≡ true) ⊎ A → A
  from_start b off (inl on) = absurd (ground (arith, off, on))
  from_start b off (inr a) = a

  -- A run that is reported as passed remembers no failure, and these calls have been made in it.
  -- In the drive, after a drive command, a motor state arrived in which the selected motor had its
  -- target and the others the target zero; and one in which, besides, the speed of the selected
  -- motor reached the response threshold, and both it and its encoder turned as they were told. In
  -- the stops after the drive, after a stop was published, one arrived in which all motors had the
  -- target zero and stood still. The tick that ended the run came when at least ten of these stops
  -- had been published over at least half a second, and all motors were at rest in the last motor
  -- state.
  pub passed-Witnessed :
      (f : Configuration F) (events : List (Event F))
      → (summary ops (run ops events (initial ops f))).passed ≡ true
      → Witnessed f events
  unfolding summary initial
  passed-Witnessed f events passed =
      let start = initial ops f in
      let won = (run-Sound ops events start (initial-Sound ops f)).won passed in
      record {
        unfailed = won.unfailed;
        responded = from_start _ refl (
            newly_set ops (λ c. c.physical_response_observed) (Measures ops (Responding ops))
              step_response events start won.response);
        on_target = from_start _ refl (
            newly_set ops (λ c. c.target_observed) (Measures ops (OnTarget ops)) step_target events
              start won.target);
        stopped = from_start _ refl (
            newly_set ops (λ c. c.post_stop_zero_confirmed) (Measures ops (Stopped ops)) step_rest
              events start won.at_rest);
        ended =
            from_start _ (unfinished f) (
              newly_set ops (has_succeeded ops) (Ticks ops (Ends ops)) step_won events start
                passed);
      }
