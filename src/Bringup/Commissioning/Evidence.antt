-- ===== src/Bringup/Commissioning/Evidence.antt =====
-- What has been observed in a run that is reported as passed.
pub mod Flags
pub mod Passed
use mentor_pi_ros.Prelude.{
  both, both_when, ℕ, zero, suc, ◌-◌, ◌+◌, ◌≤◌, ◌<◌, ◌≡◌, ◌≢◌, ◌⊎◌, inl, inr, refl, sym, subst,
  Bool, true, false, not, ◌&&◌, ◌||◌, arith, List, [], ◌∷◌, leb, ◌==◌, get_or, length,
  if◌then◌else◌, Bool-cases,
}
use mentor_pi_ros.Prelude.Int.{ℤ, pos, negsuc, ◌≤ℤ◌, ◌-ℤ◌}
use mentor_pi_ros.Bringup.Commissioning.{
  Floats, State, Configuration, MotorState, Phase, awaiting_prerequisites, pre_stop, drive,
  post_stop, succeeded, failed, Command, no_command, stop_command, drive_command, is_none, Failure,
  interrupted,
}
use mentor_pi_ros.Bringup.Commissioning.Motion.{
  all_of, saturating_difference, near_target, selected_motor_index, encoder_delta,
  selected_target_matches, motor_targets_are_zero, motors_are_stationary, response_threshold,
  turns_forward, turns_backward, motors, measured_at,
}
use mentor_pi_ros.Bringup.Commissioning.Core.{
  initial, is_driving, is_complete, begin_post_stop, finish_post_stop, lock_prerequisites,
}
use mentor_pi_ros.Bringup.Commissioning.Observe.{
  is_post_stop, measure_motors, with_motor_state, observe_motor_state, confirm_pre_stop,
  note_response, note_settling, is_on_target, has_responded, is_settling,
}
use mentor_pi_ros.Bringup.Commissioning.Tick.{
  Event, publisher_seen, authorized, heard, diagnosed, measured, conflict_seen, ticked, published,
  aborted, tick, request_abort, record_command_published, has_succeeded, summary, step, run,
}
use mentor_pi_ros.Bringup.Commissioning.Sound.{at_phase, initial-Sound}
use mentor_pi_ros.Bringup.Commissioning.Sound.Steps.{run-Sound}

module _ {F : Type 0} (ops : Floats F) where
  -- Some call of the run was made in a state with the property.
  unfoldable pub Occurs : (Event F → State F → Type 0) → List (Event F) → State F → Type 0
  Occurs P [] c = ⊥
  Occurs P (event ∷ events) c = P event c ⊎ Occurs P events (step ops event c)

  -- A tenth of the target speed, but at least the smallest response.
  abbrev threshold : Configuration F → F
  threshold f =
      let share = ops.multiply (ops.absolute f.target_rps) ops.tenth in
      if ops.less ops.minimum_response share then share else ops.minimum_response

  abbrev forward : Configuration F → Bool
  forward f = ops.less ops.zero f.target_rps

  abbrev backward : Configuration F → Bool
  backward f = ops.less f.target_rps ops.zero

  abbrev speed : MotorState F → State F → F
  speed m c = get_or m.measured_rps (c.configuration.motor_id - 1) ops.zero

  -- The ticks of its encoder since the count that was taken when the drive began.
  abbrev travel : MotorState F → State F → ℤ
  travel m c =
      let i = c.configuration.motor_id - 1 in
      get_or m.encoder_count i (pos 0) -ℤ get_or c.baseline.encoder i (pos 0)

  -- A motor state that arrives in the drive, after a drive command, and has the configured target
  -- for the selected motor and zero for the others.
  pub record OnTarget (m : MotorState F) (c : State F) : Type 0 where
    pub driving : c.phase ≡ drive
    pub commanded : 0 < c.drive_commands
    pub timely : c.phase_start_time_ms ≤ℤ m.arrival_time_ms
    pub selected :
        (i : ℕ)
        → i < length m.target_rps
        → i ≡ c.configuration.motor_id - 1
        → ops.at_most
            (ops.absolute
              (ops.subtract (get_or m.target_rps i ops.zero) c.configuration.target_rps))
            ops.target_tolerance
          ≡ true
    pub others :
        (i : ℕ)
        → i < length m.target_rps
        → i ≢ c.configuration.motor_id - 1
        → ops.equal (get_or m.target_rps i ops.zero) ops.zero ≡ true

  -- The speed of the selected motor in it reaches the threshold, and the motor and its encoder turn
  -- as the target says.
  pub record Responding (m : MotorState F) (c : State F) : Type 0 where
    pub on_target : OnTarget m c
    pub fast : ops.at_most (threshold c.configuration) (ops.absolute (speed m c)) ≡ true
    pub turns :
        ((forward c.configuration ≡ true) × (ops.less ops.zero (speed m c) ≡ true))
        ⊎ ((backward c.configuration ≡ true) × (ops.less (speed m c) ops.zero ≡ true))
    pub travels :
        ((forward c.configuration ≡ true) × (pos 2 ≤ℤ travel m c))
        ⊎ ((backward c.configuration ≡ true) × (travel m c ≤ℤ negsuc 1))

  -- The motors in it have the target zero and stand still.
  pub record Resting (m : MotorState F) : Type 0 where
    pub zero_targets :
        (i : ℕ)
        → i < length m.target_rps
        → ops.equal (get_or m.target_rps i ops.zero) ops.zero ≡ true
    pub still :
        (i : ℕ)
        → i < length m.measured_rps
        → ops.less (ops.absolute (get_or m.measured_rps i ops.zero)) ops.minimum_response ≡ true

  -- Such a motor state arrives while the motor is stopped after the drive.
  pub record Stopped (m : MotorState F) (c : State F) : Type 0 where
    pub stopping : c.phase ≡ post_stop
    pub commanded : 0 < c.post_stop_commands
    pub timely : c.phase_start_time_ms ≤ℤ m.arrival_time_ms
    pub resting : Resting m

  -- The run ends: the motor has been stopped long enough, and rests in its last state.
  pub record Ends (now : ℤ) (c : State F) : Type 0 where
    pub stopping : c.phase ≡ post_stop
    pub commanded : 10 ≤ c.post_stop_commands
    pub waited : pos 500 ≤ℤ now -ℤ c.phase_start_time_ms
    pub resting : Resting (motors ops c)

  abbrev pub Measures : (MotorState F → State F → Type 0) → Event F → State F → Type 0
  Measures P event c = elim event [ measured m ↦ P m c | _ ↦ ⊥ ]

  abbrev pub Ticks : (ℤ → State F → Type 0) → Event F → State F → Type 0
  Ticks P event c = elim event [ ticked now ↦ P now c | _ ↦ ⊥ ]

  -- A flag that is set at the end was set at the start or by some call.
  pub newly_set :
      (flag : State F → Bool) (P : Event F → State F → Type 0)
      → ((event : Event F) (c : State F)
          → flag (step ops event c) ≡ true
          → (flag c ≡ true) ⊎ P event c)
      → (events : List (Event F)) (c : State F) → flag (run ops events c) ≡ true
      → (flag c ≡ true) ⊎ Occurs P events c
  unfolding run Occurs
  newly_set flag P one [] c on = inl on
  newly_set flag P one (event ∷ events) c on =
      elim (newly_set flag P one events (step ops event c) on) [
        | inl now ↦ elim (one event c now) [ inl before ↦ inl before | inr here ↦ inr (inl here) ]
        | inr later ↦ inr (inr later)
      ]

  -- No flag is set that was not.
  pub record Kept (c d : State F) : Type 0 where
    pub target : d.target_observed ≡ true → c.target_observed ≡ true
    pub response : d.physical_response_observed ≡ true → c.physical_response_observed ≡ true
    pub rest : d.post_stop_zero_confirmed ≡ true → c.post_stop_zero_confirmed ≡ true

  pub same_Kept : (c : State F) → Kept c c
  same_Kept c = record { target = λ h. h; response = λ h. h; rest = λ h. h }

  pub begin_post_stop-Kept :
      (found : Failure) (now : ℤ) (c : State F) → Kept c (begin_post_stop ops found now c)
  unfolding begin_post_stop
  begin_post_stop-Kept found now c = record {
    target = λ h. h;
    response = λ h. h;
    rest = λ h. ground (arith, h);
  }
