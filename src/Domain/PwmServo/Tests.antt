-- ===== src/Domain/PwmServo/Tests.antt =====
-- The first PWM servo moves from 1500 to 2000 us in 60 ms.
use mentor_pi_ros.Prelude.{◌≡◌, refl, [], ◌∷◌, arith, get_or}
use mentor_pi_ros.Domain.PwmChannel.{Trajectory, interpolate, reset_channel}
use mentor_pi_ros.Domain.PwmServo.{Controller, initial}
use mentor_pi_ros.Domain.PwmServo.Pulses.{Within, frames, trajectory_arrives}

abbrev one_of_three : Trajectory
one_of_three = record { start_pulse_us = 1500; total_steps = 3; completed_steps = 1 }

one_third : interpolate one_of_three 2000 ≡ 1667
unfolding interpolate
one_third = refl

abbrev moving : Controller
moving = record initial {
  channels =
      record reset_channel {
        target_pulse_us = 2000;
        trajectory = record { start_pulse_us = 1500; total_steps = 3; completed_steps = 0 };
        trajectory_target_us = 2000;
      }
      ∷ [];
}

moving-Within : Within 2000 3 (get_or moving.channels 0 reset_channel)
moving-Within = record {
  aims = refl;
  word = omega arith;
  left = omega arith;
  settled = λ h. absurd (omega (arith, h));
}

trajectory_arrives_example :
    (get_or (frames 3 moving).channels 0 reset_channel).logical_output_us ≡ 2000
trajectory_arrives_example = trajectory_arrives 2000 3 moving 0 (omega arith) moving-Within
