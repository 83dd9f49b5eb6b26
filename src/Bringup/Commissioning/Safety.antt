-- ===== src/Bringup/Commissioning/Safety.antt =====
-- Safety of a commissioning run: when it drives the motor.
use mentor_pi_ros.Prelude.{◌≡◌, refl, Bool, true, false, not, arith, List, leb, if◌then◌else◌}
use mentor_pi_ros.Prelude.Int.{ℤ, pos, ◌≤ℤ◌, ◌-ℤ◌}
use mentor_pi_ros.Bringup.Commissioning.{
  Floats, State, Configuration, Phase, awaiting_prerequisites, pre_stop, drive, post_stop,
  succeeded, failed, Command, stop_command, drive_command, is_none,
}
use mentor_pi_ros.Bringup.Commissioning.Core.{
  validate_configuration, initial, is_driving, remember_failure,
}
use mentor_pi_ros.Bringup.Commissioning.Runtime.{runtime_failure}
use mentor_pi_ros.Bringup.Commissioning.Tick.{
  Event, tick_awaiting, tick_pre_stop, tick_drive, tick_post_stop, unless_failing, tick,
  has_stopped, run,
}
use mentor_pi_ros.Bringup.Commissioning.Supervised.{
  Supervised, runtime_failure-Supervised, is_none_lem,
}
use mentor_pi_ros.Bringup.Commissioning.Sound.{Sound, at_phase, initial-Sound}
use mentor_pi_ros.Bringup.Commissioning.Sound.Steps.{run-Sound}

abbrev pub is_drive : Command → Bool
is_drive command = elim command [ drive_command ↦ true | _ ↦ false ]

choice_drives :
    {S : Type 0} (test : Bool) (x y : Command × S)
    → is_drive y.0 ≡ false
    → is_drive (if test then x else y).0 ≡ true
    → (test ≡ true) × (is_drive x.0 ≡ true)
choice_drives true x y off on = (refl, on)
choice_drives false x y off on = ground arith

second_drives :
    {S : Type 0} (test : Bool) (x y : Command × S)
    → is_drive x.0 ≡ false
    → is_drive (if not test then x else y).0 ≡ true
    → test ≡ true
second_drives true x y off on = refl
second_drives false x y off on = ground arith

module _ {F : Type 0} (ops : Floats F) where
  -- What is known when the motor is driven at `now`.
  pub record Cleared (c : State F) (now : ℤ) : Type 0 where
    pub supervised : Supervised ops c now
    pub configured : is_none (validate_configuration ops c.configuration) ≡ true
    pub confirmed : c.pre_stop_zero_confirmed ≡ true
    pub stopped : leb 10 c.pre_stop_commands ≡ true
    pub waited : is_driving ops c ≡ false → pos 500 ≤ℤ now -ℤ c.phase_start_time_ms

  unless_failing_drives :
      (now : ℤ) (c : State F) (result : Command × State F)
      → is_drive (unless_failing ops now c result).0 ≡ true
      → Supervised ops c now × (is_drive result.0 ≡ true)
  unfolding unless_failing
  unless_failing_drives now c result on =
      let clear = choice_drives (is_none (runtime_failure ops c now)) result _ refl on in
      (runtime_failure-Supervised ops c now (is_none_lem _ clear.0), clear.1)

  awaiting_drives : (now : ℤ) (c : State F) → is_drive (tick_awaiting ops now c).0 ≡ false
  unfolding tick_awaiting
  awaiting_drives now c = grind arith

  pub post_stop_drives : (now : ℤ) (c : State F) → is_drive (tick_post_stop ops now c).0 ≡ false
  unfolding tick_post_stop
  post_stop_drives now c = grind arith

  tick_pre_stop_drives :
      (now : ℤ) (c : State F)
      → is_drive (tick_pre_stop ops now c).0 ≡ true
      → (pos 500 ≤ℤ now -ℤ c.phase_start_time_ms)
        × (leb 10 c.pre_stop_commands ≡ true)
        × (c.pre_stop_zero_confirmed ≡ true)
  unfolding tick_pre_stop
  tick_pre_stop_drives now c on =
      let due =
        choice_drives (has_stopped ops now c c.pre_stop_commands) _ (stop_command, c) refl on in
      (
        ground (arith, due.0),
        ground (arith, due.0),
        second_drives c.pre_stop_zero_confirmed _ _ refl due.1,
      )

  -- A state that is known to be in a phase.
  tick_drives :
      (now : ℤ) (p : Phase) (c : State F)
      → Sound ops (at_phase ops p c)
      → is_drive (tick ops now (at_phase ops p c)).0 ≡ true
      → Cleared (at_phase ops p c) now
  unfolding tick
  tick_drives now awaiting_prerequisites c sound on =
      ground (arith, on, awaiting_drives now (at_phase ops awaiting_prerequisites c))
  tick_drives now pre_stop c sound on =
      let stopping = at_phase ops pre_stop c in
      let clear = unless_failing_drives now stopping (tick_pre_stop ops now stopping) on in
      let due = tick_pre_stop_drives now stopping clear.1 in
      record {
        supervised = clear.0;
        configured = sound.configured refl;
        confirmed = due.2;
        stopped = due.1;
        waited = λ _. due.0;
      }
  tick_drives now drive c sound on =
      let driving = at_phase ops drive c in
      let clear = unless_failing_drives now driving (tick_drive ops now driving) on in
      record {
        supervised = clear.0;
        configured = sound.configured refl;
        confirmed = (sound.cleared refl).0;
        stopped = (sound.cleared refl).1;
        waited = λ h. ground (arith, h);
      }
  tick_drives now post_stop c sound on =
      let stopping = at_phase ops post_stop c in
      ground (
        arith,
        on,
        post_stop_drives now (remember_failure ops (runtime_failure ops stopping now) stopping),
      )
  tick_drives now succeeded c sound on = ground (arith, on)
  tick_drives now failed c sound on = ground (arith, on)

  -- Whatever the node has called, a tick that commands the motor to be driven has a valid
  -- configuration, has seen the zero target confirmed and at least ten stops published before the
  -- drive (over at least half a second, when this tick begins it), and supervises the motor: it
  -- hears the session it began in, with fresh heartbeat, diagnostics and motor state, an
  -- authorization of that session, and no failure of the motion.
  pub drives-Cleared :
      (f : Configuration F) (events : List (Event F)) (now : ℤ)
      → is_drive (tick ops now (run ops events (initial ops f))).0 ≡ true
      → Cleared (run ops events (initial ops f)) now
  drives-Cleared f events now on =
      let c = run ops events (initial ops f) in
      tick_drives now c.phase c (run-Sound ops events (initial ops f) (initial-Sound ops f)) on
