-- ===== src/Bringup/Commissioning/Supervised.antt =====
-- `RuntimeFailure` (motor_commissioning_core.cc): what holds of the motor, its session and its
-- authorization when it finds no failure.
use mentor_pi_ros.Prelude.{
  ℕ, ◌≡◌, refl, subst, ◌<◌, Bool, true, false, not, ◌&&◌, ◌||◌, arith, ltb, ◌==◌, ◌!=◌,
  if◌then◌else◌, get_or,
}
use mentor_pi_ros.Prelude.Int.{ℤ, pos, ◌≤ℤ◌, ◌-ℤ◌, ltb_ℤ}
use mentor_pi_ros.Bringup.Core.{is_some}
use mentor_pi_ros.Bringup.Commissioning.{
  Floats, State, is_none, Failure, no_failure, motor_state_lost, motor_state_invalid,
  motor_watchdog_triggered, diagnostics_lost, diagnostics_session_mismatch, mcu_reset_detected,
  diagnostics_not_active, command_rejected, command_publisher_conflict, drive_cadence_lost,
  motion_authorization_lost, heartbeat_lost, session_invalid, session_changed, heartbeat_not_ready,
}
use mentor_pi_ros.Bringup.Commissioning.Motion.{
  is_fresh, motors, selected_motor_index, motor_state_is_finite, validate_motor_state_for_phase,
  validate_physical_motion,
}
use mentor_pi_ros.Bringup.Commissioning.Core.{
  heartbeat_or_default, diagnostics_or_default, authorization_or_default, is_ready_heartbeat_state,
  session_active, is_driving,
}
use mentor_pi_ros.Bringup.Commissioning.Runtime.{
  runtime_failure, diagnostics_failure, motor_failure,
}

-- A time that is at most `age` before `now`.
abbrev pub Fresh : ℤ → ℤ → ℕ → Type 0
Fresh arrival now age = (arrival ≤ℤ now) × (now -ℤ arrival ≤ℤ pos age)

pub record Supervised {F : Type 0} (ops : Floats F) (c : State F) (now : ℤ) : Type 0 where
  pub alone : c.observed.publisher_conflict ≡ false
  pub cadence :
      is_driving ops c ≡ true → 0 < c.drive_commands → Fresh c.last_drive_publish_time_ms now 100
  pub authorized :
      (c.observed.publisher_valid ≡ true)
      × ((authorization_or_default c.observed.authorization).configuration_generation
          ≡ c.baseline.configuration_generation)
      × ((authorization_or_default c.observed.authorization).agent_session_id
          ≡ c.baseline.session_id)
  pub alive : Fresh (heartbeat_or_default c.observed.heartbeat).arrival_time_ms now 1000
  pub session :
      ((heartbeat_or_default c.observed.heartbeat).agent_session_id ≡ c.baseline.session_id)
      × (0 < c.baseline.session_id)
  pub unbroken :
      (c.observed.heartbeat_discontinuity ≡ false) × (c.observed.diagnostics_discontinuity ≡ false)
  pub ready : is_ready_heartbeat_state (heartbeat_or_default c.observed.heartbeat).state ≡ true
  pub diagnosed :
      Fresh (diagnostics_or_default c.observed.diagnostics).arrival_time_ms now 1500
      × ((diagnostics_or_default c.observed.diagnostics).session_generation ≡ c.baseline.session_id)
      × ((diagnostics_or_default c.observed.diagnostics).session_state ≡ session_active)
  pub unrejected :
      ((diagnostics_or_default c.observed.diagnostics).command_rejections
        ≡ c.baseline.command_rejections)
      × (get_or
            (diagnostics_or_default c.observed.diagnostics).motor_command_rejections
            (selected_motor_index ops c)
            0
          ≡ c.baseline.motor_rejections)
  pub measured : Fresh (motors ops c).arrival_time_ms now 200
  pub unstopped : (motors ops c).watchdog_stop_mask ≡ 0
  pub finite : motor_state_is_finite ops c ≡ true
  pub targets : validate_motor_state_for_phase ops c ≡ no_failure
  pub motion : validate_physical_motion ops c ≡ no_failure

-- A chain of tests that finds nothing has passed its first test.
passed_test :
    (test : Bool) (found rest : Failure)
    → is_none found ≡ false
    → (if test then found else rest) ≡ no_failure
    → (test ≡ false) × (rest ≡ no_failure)
passed_test test found rest real clear = ground arith

pub is_none_lem : (found : Failure) → is_none found ≡ true → found ≡ no_failure
is_none_lem found h = ground arith

fresh :
    (seen : Bool) (arrival now : ℤ) (age : ℕ)
    → (not seen || not (is_fresh arrival now age)) ≡ false
    → Fresh arrival now age
fresh seen arrival now age h = ground arith

from_negation : (b : Bool) → not b ≡ false → b ≡ true
from_negation b h = ground (arith, h)

is_equal : (a b : ℕ) → (a != b) ≡ false → a ≡ b
is_equal a b h = ground (arith, h)

is_positive_lem : (n : ℕ) → (n == 0) ≡ false → 0 < n
is_positive_lem n h = ground (arith, h)

neither : (a b : Bool) → (a || b) ≡ false → (a ≡ false) × (b ≡ false)
neither a b h = ground (arith, h)

target_clear :
    (target motion : Failure)
    → (if not (is_none target) then target else motion) ≡ no_failure
    → (target ≡ no_failure) × (motion ≡ no_failure)
target_clear target motion h = ground arith

recent :
    (driving : Bool) (commands : ℕ) (last now : ℤ)
    → (driving && ltb 0 commands && (ltb_ℤ now last || ltb_ℤ (pos 100) (now -ℤ last))) ≡ false
    → driving ≡ true
    → 0 < commands
    → Fresh last now 100
recent driving commands last now h on some_sent = ground arith

authorized_lem :
    (valid seen : Bool) (generation expected session locked : ℕ)
    → (not valid || not seen || generation != expected || session != locked) ≡ false
    → (valid ≡ true) × (generation ≡ expected) × (session ≡ locked)
authorized_lem valid seen generation expected session locked h = ground arith

module _ {F : Type 0} (ops : Floats F) where
  motor_clear :
      (c : State F) (now : ℤ)
      → motor_failure ops c now ≡ no_failure
      → Fresh (motors ops c).arrival_time_ms now 200
        × (motor_state_is_finite ops c ≡ true)
        × ((motors ops c).watchdog_stop_mask ≡ 0)
        × (validate_motor_state_for_phase ops c ≡ no_failure)
        × (validate_physical_motion ops c ≡ no_failure)
  motor_clear c now clear =
      let lost = passed_test _ motor_state_lost _ refl clear in
      let invalid = passed_test _ motor_state_invalid _ refl lost.1 in
      let stopped = passed_test _ motor_watchdog_triggered _ refl invalid.1 in
      let target = validate_motor_state_for_phase ops c in
      let aimed = target_clear target _ stopped.1 in
      (
        fresh (is_some c.observed.motor_state) _ now 200 lost.0,
        from_negation _ invalid.0,
        is_equal _ _ stopped.0,
        aimed.0,
        aimed.1,
      )

  diagnostics_clear :
      (c : State F) (now : ℤ)
      → diagnostics_failure ops c now ≡ no_failure
      → Fresh (diagnostics_or_default c.observed.diagnostics).arrival_time_ms now 1500
        × ((diagnostics_or_default c.observed.diagnostics).session_generation
            ≡ c.baseline.session_id)
        × (c.observed.diagnostics_discontinuity ≡ false)
        × ((diagnostics_or_default c.observed.diagnostics).session_state ≡ session_active)
        × ((diagnostics_or_default c.observed.diagnostics).command_rejections
            ≡ c.baseline.command_rejections)
        × (get_or
              (diagnostics_or_default c.observed.diagnostics).motor_command_rejections
              (selected_motor_index ops c)
              0
            ≡ c.baseline.motor_rejections)
        × (motor_failure ops c now ≡ no_failure)
  diagnostics_clear c now clear =
      let lost = passed_test _ diagnostics_lost _ refl clear in
      let changed = passed_test _ diagnostics_session_mismatch _ refl lost.1 in
      let reset = passed_test _ mcu_reset_detected _ refl changed.1 in
      let inactive = passed_test _ diagnostics_not_active _ refl reset.1 in
      let rejected = passed_test _ command_rejected _ refl inactive.1 in
      let expired = passed_test _ motor_watchdog_triggered _ refl rejected.1 in
      let counts = neither _ _ rejected.0 in
      (
        fresh (is_some c.observed.diagnostics) _ now 1500 lost.0,
        is_equal _ _ changed.0,
        reset.0,
        is_equal _ _ inactive.0,
        is_equal _ _ counts.0,
        is_equal _ _ counts.1,
        expired.1,
      )

  -- When RuntimeFailure finds no failure, the motor is supervised.
  pub runtime_failure-Supervised :
      (c : State F) (now : ℤ) → runtime_failure ops c now ≡ no_failure → Supervised ops c now
  unfolding runtime_failure
  runtime_failure-Supervised c now clear =
      let conflict = passed_test _ command_publisher_conflict _ refl clear in
      let gap = passed_test _ drive_cadence_lost _ refl conflict.1 in
      let revoked = passed_test _ motion_authorization_lost _ refl gap.1 in
      let lost = passed_test _ heartbeat_lost _ refl revoked.1 in
      let invalid = passed_test _ session_invalid _ refl lost.1 in
      let changed = passed_test _ session_changed _ refl invalid.1 in
      let reset = passed_test _ mcu_reset_detected _ refl changed.1 in
      let unready = passed_test _ heartbeat_not_ready _ refl reset.1 in
      let diagnosed = diagnostics_clear c now unready.1 in
      let motor = motor_clear c now diagnosed.6 in
      let session = is_equal _ _ changed.0 in
      record {
        alone = conflict.0;
        cadence = λ driving drives.
            recent _ c.drive_commands c.last_drive_publish_time_ms now gap.0 driving drives;
        authorized =
            authorized_lem c.observed.publisher_valid (is_some c.observed.authorization) _ _ _ _
              revoked.0;
        alive = fresh (is_some c.observed.heartbeat) _ now 1000 lost.0;
        session = (session, subst (λ n. 0 < n) session (is_positive_lem _ invalid.0));
        unbroken = (reset.0, diagnosed.2);
        ready = from_negation _ unready.0;
        diagnosed = (diagnosed.0, diagnosed.1, diagnosed.3);
        unrejected = (diagnosed.4, diagnosed.5);
        measured = motor.0;
        unstopped = motor.2;
        finite = motor.1;
        targets = motor.3;
        motion = motor.4;
      }
