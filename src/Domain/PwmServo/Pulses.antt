-- ===== src/Domain/PwmServo/Pulses.antt =====
-- pwm_servo_controller.cc: a trajectory arrives at its target.
use mentor_pi_ros.Prelude.{
  ℕ, zero, suc, ◌+◌, ◌^◌, ◌≤◌, ◌<◌, ◌≡◌, refl, ap, sym, subst, Bool, List, [], ◌∷◌, arith, get_or,
  length,
}
use mentor_pi_ros.Prelude.Bits.{selects}
use mentor_pi_ros.Domain.PwmChannel.{
  Channel, FrameChannel, interpolate, follow_channel, commit_channel, reset_channel,
}
use mentor_pi_ros.Domain.PwmServo.{
  Controller, follow_channels, prepare_following_frame, refresh_moving_mask, commit_channels,
  commit_frame,
}

-- A frame follows, and the timer takes it, with no command pending.
abbrev pub next_frame : Controller → Controller
next_frame s = commit_frame (prepare_following_frame s) s

unfoldable pub frames : ℕ → Controller → Controller
frames zero s = s
frames (suc n) s = frames n (next_frame s)

-- A channel whose trajectory has at most n steps left; without any it is at its target.
pub record Within (target n : ℕ) (c : Channel) : Type 0 where
  pub aims : c.trajectory_target_us ≡ target
  pub word : c.trajectory.total_steps < 2 ^ 16
  pub left : c.trajectory.total_steps ≤ c.trajectory.completed_steps + n
  pub settled :
      c.trajectory.total_steps ≤ c.trajectory.completed_steps → c.logical_output_us ≡ target

abbrev next_channel : Bool → Channel → Channel
next_channel commanded c = commit_channel commanded (follow_channel c) c

next-Within :
    (target n : ℕ) (commanded : Bool) (c : Channel)
    → Within target (suc n) c
    → Within target n (next_channel commanded c)
unfolding commit_channel follow_channel interpolate
next-Within target n commanded c h = ground arith

-- What the frame does to one channel of the list.
commit-follow_Within :
    (target n pending index : ℕ) (channels : List Channel) (i : ℕ)
    → i < length channels
    → Within target (suc n) (get_or channels i reset_channel)
    → Within target n
        (get_or (commit_channels pending index (follow_channels channels) channels) i reset_channel)
unfolding commit_channels follow_channels
commit-follow_Within target n pending index [] i lt h = absurd (omega (arith, lt))
commit-follow_Within target n pending index (c ∷ channels) zero lt h =
    next-Within target n (selects pending index) c h
commit-follow_Within target n pending index (c ∷ channels) (suc i) lt h =
    commit-follow_Within target n pending (index + 1) channels i (omega (arith, lt)) h

length-commit_channels :
    (pending index : ℕ) (frame : List FrameChannel) (channels : List Channel)
    → length (commit_channels pending index frame channels) ≡ length channels
unfolding commit_channels
length-commit_channels pending index frame [] = refl
length-commit_channels pending index [] (c ∷ channels) = refl
length-commit_channels pending index (f ∷ frame) (c ∷ channels) =
    ap suc (length-commit_channels pending (index + 1) frame channels)

-- When frames only follow one another, a channel whose trajectory has at most n steps left to a
-- target stands at the target after n frames.
pub trajectory_arrives :
    (target n : ℕ) (s : Controller) (i : ℕ)
    → i < length s.channels
    → Within target n (get_or s.channels i reset_channel)
    → (get_or (frames n s).channels i reset_channel).logical_output_us ≡ target
unfolding frames commit_frame prepare_following_frame refresh_moving_mask
trajectory_arrives target zero s i lt h = h.settled (omega (arith, h.left))
trajectory_arrives target (suc n) s i lt h =
    trajectory_arrives target n (next_frame s) i
      (subst (λ t. i < t) (sym (length-commit_channels s.pending_command_mask 0 _ s.channels)) lt)
      (commit-follow_Within target n s.pending_command_mask 0 s.channels i lt h)
