-- ===== src/Bringup/Commissioning/Sound.antt =====
-- The invariant of a commissioning run: what its phase says about what has happened before.
pub mod Steps
use mentor_pi_ros.Prelude.{
  both, both_when, ◌≡◌, refl, sym, Bool, true, false, not, ◌&&◌, ◌||◌, arith, List, [], ◌∷◌, leb,
  if◌then◌else◌, Bool-cases, inl, inr,
}
use mentor_pi_ros.Prelude.Int.{ℤ}
use mentor_pi_ros.Bringup.Commissioning.{
  Floats, State, Configuration, MotorState, Observed, Phase, awaiting_prerequisites, pre_stop,
  drive, post_stop, succeeded, failed, Command, no_command, stop_command, drive_command, is_none,
  Failure, prerequisite_timeout, mcu_reset_detected, command_publisher_conflict,
  pre_stop_not_confirmed, interrupted,
}
use mentor_pi_ros.Bringup.Commissioning.Core.{
  validate_configuration, initial, is_driving, is_complete, prerequisites_satisfied,
  remember_failure, begin_post_stop, lock_prerequisites, finish_post_stop,
}
use mentor_pi_ros.Bringup.Commissioning.Runtime.{runtime_failure}
use mentor_pi_ros.Bringup.Commissioning.Observe.{
  observe_motion_authorization_publisher, observe_motion_authorization, observe_heartbeat,
  observe_diagnostics, observe_command_publisher_conflict, with_motor_state, observe_motor_state,
  measure_motors, confirm_pre_stop, note_response, note_settling, is_post_stop,
}
use mentor_pi_ros.Bringup.Commissioning.Tick.{
  Event, publisher_seen, authorized, heard, diagnosed, measured, conflict_seen, ticked, published,
  aborted, tick_awaiting, tick_pre_stop, tick_drive, tick_post_stop, unless_failing, tick,
  start_drive, has_stopped, is_out_of_time, record_command_published, request_abort, has_succeeded,
  step, run,
}

abbrev the_phase : Bool → Phase
the_phase won = if won then succeeded else failed

pub succeeds_if :
    (won : Bool) → (elim (the_phase won) [ succeeded ↦ true | _ ↦ false ]) ≡ true → won ≡ true
succeeds_if true h = refl
succeeds_if false h = h

never_drives : (won : Bool) → (elim (the_phase won) [ drive ↦ true | _ ↦ false ]) ≡ false
never_drives true = refl
never_drives false = refl

kept_or : (a b : Bool) → a ≡ true → (a || b) ≡ true
kept_or a b h = ground (arith, h)

kept_if :
    (post sent timely a b : Bool)
    → post ≡ false
    → b ≡ true
    → (if post && sent && timely then a else b) ≡ true
kept_if post sent timely a b off h = ground (arith, off, h)

module _ {F : Type 0} (ops : Floats F) where
  abbrev pub has_failed : State F → Bool
  has_failed c = elim (c.phase) [ failed ↦ true | _ ↦ false ]

  -- The flags of a success.
  pub record Flagged (c : State F) : Type 0 where
    pub unfailed : is_none c.failure ≡ true
    pub target : c.target_observed ≡ true
    pub response : c.physical_response_observed ≡ true
    pub at_rest : c.post_stop_zero_confirmed ≡ true

  pub record Sound (c : State F) : Type 0 where
    pub configured :
        has_failed c ≡ false → is_none (validate_configuration ops c.configuration) ≡ true
    pub cleared :
        is_driving ops c ≡ true
        → (c.pre_stop_zero_confirmed ≡ true) × (leb 10 c.pre_stop_commands ≡ true)
    pub won : has_succeeded ops c ≡ true → Flagged c

  abbrev Configured : State F → Type 0
  Configured c = is_none (validate_configuration ops c.configuration) ≡ true

  -- In a phase that neither drives nor ends, a valid configuration is enough.
  idle-Sound :
      (c : State F)
      → Configured c
      → is_driving ops c ≡ false
      → has_succeeded ops c ≡ false
      → Sound c
  idle-Sound c valid off unfinished = record {
    configured = λ _. valid;
    cleared = λ h. ground arith;
    won = λ h. ground arith;
  }

  begin_post_stop-Sound :
      (found : Failure) (now : ℤ) (c : State F)
      → Configured c
      → Sound (begin_post_stop ops found now c)
  unfolding begin_post_stop
  begin_post_stop-Sound found now c valid = idle-Sound _ valid refl refl

  lock_prerequisites-Sound :
      (now : ℤ) (c : State F) → Configured c → Sound (lock_prerequisites ops now c)
  unfolding lock_prerequisites
  lock_prerequisites-Sound now c valid = idle-Sound _ valid refl refl

  pub initial-Sound : (f : Configuration F) → Sound (initial ops f)
  unfolding initial
  initial-Sound f = elim (Bool-cases (is_none (validate_configuration ops f))) [
    | inl on ↦ record { configured = λ _. on; cleared = λ h. ground arith; won = λ h. ground arith }
    | inr off ↦ record {
      configured = λ h. ground arith;
      cleared = λ h. ground arith;
      won = λ h. ground arith;
    }
  ]

  finish_post_stop-Sound : (c : State F) → Configured c → Sound (finish_post_stop ops c)
  unfolding finish_post_stop
  finish_post_stop-Sound c valid = record {
    configured = λ _. valid;
    cleared = λ h. ground (arith, h, never_drives _);
    won = λ h.
        let all = succeeds_if _ h in
        record {
          unfailed = ground (arith, all);
          target = ground (arith, all);
          response = ground (arith, all);
          at_rest = ground (arith, all);
        };
  }

  start_drive-Sound :
      (now : ℤ) (c : State F)
      → Configured c
      → c.pre_stop_zero_confirmed ≡ true
      → leb 10 c.pre_stop_commands ≡ true
      → Sound (start_drive ops now c)
  unfolding start_drive
  start_drive-Sound now c valid confirmed stops = record {
    configured = λ _. valid;
    cleared = λ _. (confirmed, stops);
    won = λ h. ground (arith, h);
  }

  -- The state after a tick.
  abbrev Leads : Command × State F → Type 0
  Leads result = Sound result.1

  tick_awaiting-Sound :
      (now : ℤ) (c : State F) → Configured c → Sound c → Leads (tick_awaiting ops now c)
  unfolding tick_awaiting
  tick_awaiting-Sound now c valid sound =
      both Leads c.observed.publisher_conflict
        (begin_post_stop-Sound command_publisher_conflict now c valid)
        (both Leads (c.observed.heartbeat_discontinuity || c.observed.diagnostics_discontinuity)
          (begin_post_stop-Sound mcu_reset_detected now c valid)
          (both Leads (prerequisites_satisfied ops c now) (lock_prerequisites-Sound now c valid) (
            both Leads (is_out_of_time ops now c)
              (begin_post_stop-Sound prerequisite_timeout now c valid) sound)))

  tick_pre_stop-Sound :
      (now : ℤ) (c : State F) → Configured c → Sound c → Leads (tick_pre_stop ops now c)
  unfolding tick_pre_stop
  tick_pre_stop-Sound now c valid sound =
      both_when Leads (has_stopped ops now c c.pre_stop_commands)
        (λ stopped.
          both_when Leads (not c.pre_stop_zero_confirmed)
            (λ _. (begin_post_stop-Sound pre_stop_not_confirmed now c valid))
            (λ confirmed.
              (start_drive-Sound now c valid (ground (arith, confirmed))
                (ground (arith, stopped)))))
        (λ _. sound)

  tick_drive-Sound : (now : ℤ) (c : State F) → Configured c → Sound c → Leads (tick_drive ops now c)
  unfolding tick_drive
  tick_drive-Sound now c valid sound = both Leads _ ((begin_post_stop-Sound _ now c valid)) sound

  tick_post_stop-Sound :
      (now : ℤ) (c : State F) → Configured c → Sound c → Leads (tick_post_stop ops now c)
  unfolding tick_post_stop
  tick_post_stop-Sound now c valid sound = both Leads _ ((finish_post_stop-Sound c valid)) sound

  unless_failing-Sound :
      (now : ℤ) (c : State F) (result : Command × State F)
      → Configured c
      → Leads result
      → Leads (unless_failing ops now c result)
  unfolding unless_failing
  unless_failing-Sound now c result valid sound =
      both Leads _ sound ((begin_post_stop-Sound _ now c valid))

  abbrev pub at_phase : Phase → State F → State F
  at_phase p c = record c { phase = p }

  tick_at :
      (now : ℤ) (p : Phase) (c : State F)
      → Sound (at_phase p c)
      → Leads (tick ops now (at_phase p c))
  unfolding tick
  tick_at now awaiting_prerequisites c sound =
      tick_awaiting-Sound now (at_phase awaiting_prerequisites c) (sound.configured refl) sound
  tick_at now pre_stop c sound =
      let valid = sound.configured refl in
      unless_failing-Sound now (at_phase pre_stop c) _ valid
        (tick_pre_stop-Sound now (at_phase pre_stop c) valid sound)
  tick_at now drive c sound =
      let valid = sound.configured refl in
      unless_failing-Sound now (at_phase drive c) _ valid
        (tick_drive-Sound now (at_phase drive c) valid sound)
  tick_at now post_stop c sound =
      let stopping = at_phase post_stop c in
      let valid = sound.configured refl in
      tick_post_stop-Sound now (remember_failure ops (runtime_failure ops stopping now) stopping)
        valid (idle-Sound _ valid refl refl)
  tick_at now succeeded c sound = sound
  tick_at now failed c sound = sound
