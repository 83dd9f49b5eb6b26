-- ===== src/Domain/PwmChannel.antt =====
-- pwm_servo_controller.cc: what the loops of the controller do to one channel.
use mentor_pi_ros.Prelude.{
  ℕ, ◌+◌, ◌-◌, ◌*◌, ◌/◌, Bool, ◌&&◌, ◌||◌, min, max, ltb, leb, ◌==◌, if◌then◌else◌, u16, get_or,
  ◌^◌,
}
use mentor_pi_ros.Prelude.Bits.{selects}
use mentor_pi_ros.Prelude.Int.{ℤ, pos, negsuc, ◌+ℤ◌, ◌-ℤ◌, ltb_ℤ}
use mentor_pi_ros.Domain.Commands.{PwmServoOffsetCommand}

abbrev pub frame_period_ms : ℕ
frame_period_ms = 20

abbrev pub minimum_pulse_us : ℕ
minimum_pulse_us = 500

abbrev pub maximum_pulse_us : ℕ
maximum_pulse_us = 2500

abbrev pub reset_pulse_us : ℕ
reset_pulse_us = 1500

pub record Trajectory : Type 0 where
  pub start_pulse_us : ℕ
  pub total_steps : ℕ
  pub completed_steps : ℕ

-- A channel of the controller.
pub record Channel : Type 0 where
  pub target_pulse_us : ℕ
  pub output_pulse_us : ℕ
  pub offset_us : ℤ
  pub trajectory : Trajectory
  pub trajectory_target_us : ℕ
  pub logical_output_us : ℕ
  pub pending_target_us : ℕ
  pub pending_duration_ms : ℕ
  pub pending_offset_us : ℤ

-- A channel of a frame.
pub record FrameChannel : Type 0 where
  pub target_pulse_us : ℕ
  pub output_pulse_us : ℕ
  pub offset_us : ℤ
  pub trajectory : Trajectory
  pub logical_output_us : ℕ

-- `std::max(minimum, std::min(maximum, pulse))`.
abbrev pub clamp : ℤ → ℕ
clamp (pos pulse) = max minimum_pulse_us (min maximum_pulse_us pulse)
clamp (negsuc below) = minimum_pulse_us

-- `ApplyOffset`.
unfoldable pub apply_offset : ℕ → ℤ → ℕ
apply_offset logical_pulse_us offset_us = clamp (pos logical_pulse_us +ℤ offset_us)

-- `Interpolate`: the sign of the product is that of the difference, and a product of 0 rounds to 0.
unfoldable pub interpolate : Trajectory → ℕ → ℕ
interpolate t target_pulse_us =
    let backwards = ltb target_pulse_us t.start_pulse_us in
    let distance =
      if backwards
      then t.start_pulse_us - target_pulse_us
      else target_pulse_us - t.start_pulse_us in
    let rounded = (distance * t.completed_steps + t.total_steps / 2) / t.total_steps in
    if t.total_steps == 0 || leb t.total_steps t.completed_steps
    then target_pulse_us
    else if backwards
    then u16 (t.start_pulse_us + 2 ^ 16 - rounded)
    else u16 (t.start_pulse_us + rounded)

abbrev pub reset_channel : Channel
reset_channel = record {
  target_pulse_us = reset_pulse_us;
  output_pulse_us = reset_pulse_us;
  offset_us = pos 0;
  trajectory = record { start_pulse_us = reset_pulse_us; total_steps = 0; completed_steps = 0 };
  trajectory_target_us = reset_pulse_us;
  logical_output_us = reset_pulse_us;
  pending_target_us = reset_pulse_us;
  pending_duration_ms = 0;
  pending_offset_us = pos 0;
}

abbrev pub changes_offset : PwmServoOffsetCommand → ℕ → Channel → Bool
changes_offset command index c =
    let offset = get_or command.offset_us index (pos 0) in
    selects command.update_mask index && (ltb_ℤ offset c.offset_us || ltb_ℤ c.offset_us offset)

-- One channel of `HoldCurrentOutputAndCancelPending`.
abbrev pub hold_channel : ℕ → ℤ → Channel
hold_channel active_output_us active_offset_us =
    let active = clamp (pos active_output_us) in
    let logical = clamp (pos active -ℤ active_offset_us) in
    record {
      target_pulse_us = logical;
      output_pulse_us = active;
      offset_us = active_offset_us;
      trajectory = record { start_pulse_us = logical; total_steps = 0; completed_steps = 0 };
      trajectory_target_us = logical;
      logical_output_us = logical;
      pending_target_us = logical;
      pending_duration_ms = 0;
      pending_offset_us = active_offset_us;
    }

-- One channel of `PrepareFollowingFrame`.
unfoldable pub follow_channel : Channel → FrameChannel
follow_channel c =
    let moves = ltb c.trajectory.completed_steps c.trajectory.total_steps in
    let trajectory =
      if moves
      then record c.trajectory { completed_steps = u16 (c.trajectory.completed_steps + 1) }
      else c.trajectory in
    let logical =
      if moves then interpolate trajectory c.trajectory_target_us else c.logical_output_us in
    record {
      target_pulse_us = c.trajectory_target_us;
      output_pulse_us = apply_offset logical c.offset_us;
      offset_us = c.offset_us;
      trajectory = trajectory;
      logical_output_us = logical;
    }

abbrev pub is_moving : FrameChannel → Bool
is_moving c = ltb c.trajectory.completed_steps c.trajectory.total_steps

-- One channel of `PreparePendingFrame`.
unfoldable pub pend_channel : Bool → Bool → Channel → FrameChannel → FrameChannel
pend_channel changed commanded c f =
    let offset = if changed then c.pending_offset_us else f.offset_us in
    let logical = if commanded then c.logical_output_us else f.logical_output_us in
    record {
      target_pulse_us = if commanded then c.pending_target_us else f.target_pulse_us;
      output_pulse_us = apply_offset logical offset;
      offset_us = offset;
      trajectory =
          if commanded
          then record {
            start_pulse_us = c.logical_output_us;
            total_steps = u16 ((c.pending_duration_ms + frame_period_ms - 1) / frame_period_ms);
            completed_steps = 0;
          }
          else f.trajectory;
      logical_output_us = logical;
    }

-- One channel of `CommitFrame`: a command accepted since keeps its target.
unfoldable pub commit_channel : Bool → FrameChannel → Channel → Channel
commit_channel commanded f c = record c {
  target_pulse_us = if commanded then c.pending_target_us else f.target_pulse_us;
  output_pulse_us = f.output_pulse_us;
  offset_us = f.offset_us;
  trajectory = f.trajectory;
  trajectory_target_us = f.target_pulse_us;
  logical_output_us = f.logical_output_us;
}
