-- ===== src/Domain/PwmServo.antt =====
-- pwm_servo_controller.cc: trajectories of the PWM servos, prepared for a frame ahead and committed
-- when the timer has taken the frame. The arrays of the class are one list of channels; so are
-- those of a frame.
pub mod Pulses
mod Tests
use mentor_pi_ros.Prelude.{
  ℕ, ◌+◌, ◌-◌, ◌*◌, ◌/◌, Bool, false, true, not, ◌&&◌, ◌||◌, List, [], ◌∷◌, min, max, bit_and,
  bit_or, ltb, leb, ◌==◌, ◌!=◌, if◌then◌else◌, u8, u16, get_or, ◌^◌,
}
use mentor_pi_ros.Prelude.Bits.{selects}
use mentor_pi_ros.Prelude.Int.{ℤ, pos, negsuc, ◌+ℤ◌, ◌-ℤ◌, ltb_ℤ}
use mentor_pi_ros.Domain.Result.{Result, busy, is_ok, ok_result, failure}
use mentor_pi_ros.Domain.Commands.{PwmServoCommand, PwmServoOffsetCommand}
use mentor_pi_ros.Domain.Validation.{validate_pwm_servo_command, validate_pwm_servo_offsets}
use mentor_pi_ros.Domain.PwmChannel.{
  frame_period_ms, minimum_pulse_us, maximum_pulse_us, reset_pulse_us, Trajectory, Channel,
  FrameChannel, clamp, apply_offset, interpolate, reset_channel, hold_channel, follow_channel,
  is_moving, pend_channel, commit_channel, changes_offset,
}

pub record Controller : Type 0 where
  pub channels : List Channel
  pub moving_mask : ℕ
  pub pending_command_mask : ℕ
  pub pending_offset_change_mask : ℕ
  pub pending_offset_response_mask : ℕ

pub record FrameUpdate : Type 0 where
  pub channels : List FrameChannel
  pub moving_mask : ℕ
  pub offset_commit_mask : ℕ
  pub applied_pending_command_mask : ℕ
  pub applied_pending_offset_change_mask : ℕ

-- The constructor.
abbrev pub initial : Controller
initial = record {
  channels = reset_channel ∷ reset_channel ∷ reset_channel ∷ reset_channel ∷ [];
  moving_mask = 0;
  pending_command_mask = 0;
  pending_offset_change_mask = 0;
  pending_offset_response_mask = 0;
}

-- The loop of `AcceptCommand`, from channel `index` on.
unfoldable pub accept_channels : PwmServoCommand → ℕ → List Channel → List Channel
accept_channels command index [] = []
accept_channels command index (c ∷ channels) =
    let rest = accept_channels command (index + 1) channels in
    let pulse = get_or command.pulse_width_us index 0 in
    (if selects command.update_mask index
      then record c {
        pending_target_us = pulse;
        pending_duration_ms = command.duration_ms;
        target_pulse_us = pulse;
      }
      else c)
    ∷ rest

-- The masks that such a loop collects, bit by bit.
unfoldable pub collect_mask : ℕ → ℕ → List Bool → ℕ
collect_mask mask index [] = mask
collect_mask mask index (chosen ∷ rest) =
    collect_mask (if chosen then u8 (bit_or mask (2 ^ index)) else mask) (index + 1) rest

abbrev pub channel_bits : (ℕ → Channel → Bool) → ℕ → List Channel → List Bool
channel_bits chosen index [] = []
channel_bits chosen index (c ∷ channels) =
    let rest = channel_bits chosen (index + 1) channels in chosen index c ∷ rest

-- `AcceptCommand`.
unfoldable pub accept_command : PwmServoCommand → Controller → Controller × Result
accept_command command s =
    let result = validate_pwm_servo_command command in
    let bits = channel_bits (λ index _. selects command.update_mask index) 0 s.channels in
    if not (is_ok result) then (s, result) else (
      record s {
        channels = accept_channels command 0 s.channels;
        pending_command_mask = collect_mask s.pending_command_mask 0 bits;
      },
      ok_result,
    )

unfoldable pub stage_channels : PwmServoOffsetCommand → ℕ → List Channel → List Channel
stage_channels command index [] = []
stage_channels command index (c ∷ channels) =
    let rest = stage_channels command (index + 1) channels in
    (if changes_offset command index c
      then record c { pending_offset_us = get_or command.offset_us index (pos 0) }
      else c)
    ∷ rest

-- `StageOffsets`.
unfoldable pub stage_offsets : PwmServoOffsetCommand → Controller → Controller × Result
stage_offsets command s =
    let result = validate_pwm_servo_offsets command in
    let bits = channel_bits (changes_offset command) 0 s.channels in
    let change_mask = collect_mask s.pending_offset_change_mask 0 bits in
    if not (is_ok result)
    then (s, result)
    else if s.pending_offset_response_mask != 0
    then (s, failure busy 0)
    else (
      record s {
        channels = stage_channels command 0 s.channels;
        pending_offset_change_mask = change_mask;
        pending_offset_response_mask =
            if change_mask != 0 then command.update_mask else s.pending_offset_response_mask;
      },
      ok_result,
    )

unfoldable pub hold_channels : List ℕ → List ℤ → ℕ → List Channel → List Channel
hold_channels outputs offsets index [] = []
hold_channels outputs offsets index (c ∷ channels) =
    let rest = hold_channels outputs offsets (index + 1) channels in
    hold_channel (get_or outputs index 0) (get_or offsets index (pos 0)) ∷ rest

-- `HoldCurrentOutputAndCancelPending`.
unfoldable pub hold_current_output : List ℕ → List ℤ → Controller → Controller
hold_current_output active_output_us active_offset_us s = record {
  channels = hold_channels active_output_us active_offset_us 0 s.channels;
  moving_mask = 0;
  pending_command_mask = 0;
  pending_offset_change_mask = 0;
  pending_offset_response_mask = 0;
}

unfoldable pub follow_channels : List Channel → List FrameChannel
follow_channels [] = []
follow_channels (c ∷ channels) = follow_channel c ∷ follow_channels channels

unfoldable pub moving_bits : List FrameChannel → List Bool
moving_bits [] = []
moving_bits (c ∷ channels) = is_moving c ∷ moving_bits channels

-- `RefreshMovingMask`.
unfoldable pub refresh_moving_mask : FrameUpdate → FrameUpdate
refresh_moving_mask frame = record frame {
  moving_mask = collect_mask 0 0 (moving_bits frame.channels);
}

-- `PrepareFollowingFrame`.
unfoldable pub prepare_following_frame : Controller → FrameUpdate
prepare_following_frame s = refresh_moving_mask record {
  channels = follow_channels s.channels;
  moving_mask = s.moving_mask;
  offset_commit_mask = 0;
  applied_pending_command_mask = 0;
  applied_pending_offset_change_mask = 0;
}

unfoldable pub pend_channels : Controller → ℕ → List Channel → List FrameChannel → List FrameChannel
pend_channels s index [] frame = []
pend_channels s index (c ∷ channels) [] = []
pend_channels s index (c ∷ channels) (f ∷ frame) =
    let rest = pend_channels s (index + 1) channels frame in
    pend_channel (selects s.pending_offset_change_mask index) (selects s.pending_command_mask index)
      c f
    ∷ rest

-- `PreparePendingFrame`.
unfoldable pub prepare_pending_frame : FrameUpdate → Controller → FrameUpdate
prepare_pending_frame submitted_frame s = refresh_moving_mask record {
  channels = pend_channels s 0 s.channels submitted_frame.channels;
  moving_mask = submitted_frame.moving_mask;
  offset_commit_mask = bit_or submitted_frame.offset_commit_mask s.pending_offset_response_mask;
  applied_pending_command_mask = s.pending_command_mask;
  applied_pending_offset_change_mask = s.pending_offset_change_mask;
}

-- `mask & static_cast<std::uint8_t>(~removed)`.
abbrev without : ℕ → ℕ → ℕ
without mask removed = bit_and mask (0xff - u8 removed)

-- `ConfirmPendingFrameSubmitted`.
unfoldable pub confirm_pending_frame_submitted : FrameUpdate → Controller → Controller
confirm_pending_frame_submitted submitted_frame s = record s {
  pending_command_mask =
      without s.pending_command_mask submitted_frame.applied_pending_command_mask;
  pending_offset_change_mask =
      without s.pending_offset_change_mask submitted_frame.applied_pending_offset_change_mask;
}

unfoldable pub commit_channels : ℕ → ℕ → List FrameChannel → List Channel → List Channel
commit_channels pending index frame [] = []
commit_channels pending index [] (c ∷ channels) = c ∷ channels
commit_channels pending index (f ∷ frame) (c ∷ channels) =
    let rest = commit_channels pending (index + 1) frame channels in
    commit_channel (selects pending index) f c ∷ rest

-- `CommitFrame`.
unfoldable pub commit_frame : FrameUpdate → Controller → Controller
commit_frame submitted_frame s = record s {
  channels = commit_channels s.pending_command_mask 0 submitted_frame.channels s.channels;
  moving_mask = submitted_frame.moving_mask;
  pending_offset_response_mask =
      without s.pending_offset_response_mask submitted_frame.offset_commit_mask;
}
