-- ===== src/Domain/Commanding/Tests.antt =====
-- Two commands for the PWM servos, read once.
use mentor_pi_ros.Prelude.{◌≡◌, refl, true, some, [], ◌∷◌, arith, get_or, if◌then◌else◌}
use mentor_pi_ros.Prelude.Bits.{selects}
use mentor_pi_ros.Domain.Result.{is_ok}
use mentor_pi_ros.Domain.Commands.{PwmServoCommand}
use mentor_pi_ros.Domain.Validation.{validate_pwm_servo_command, validate_mask, check_pulses}
use mentor_pi_ros.Domain.Mailbox.{empty, consume_whole}
use mentor_pi_ros.Domain.Commanding.{CommandMailbox, PwmCommandSnapshot, empty_pwm, publish_pwm}
use mentor_pi_ros.Domain.Commanding.Merging.{
  Ready, latest_pulse, publish_all, four_pulses, consumed_pwm_is_merged,
}

abbrev first_channel : PwmServoCommand
first_channel = record { update_mask = 1; duration_ms = 20; pulse_width_us = 1000 ∷ 0 ∷ 0 ∷ 0 ∷ [] }

abbrev second_channel : PwmServoCommand
second_channel = record {
  update_mask = 2;
  duration_ms = 40;
  pulse_width_us = 0 ∷ 2000 ∷ 0 ∷ 0 ∷ [];
}

abbrev fresh : CommandMailbox PwmCommandSnapshot
fresh = record { shadow = empty_pwm; mailbox = empty empty_pwm; overwrite_count = 0 }

fresh-Ready : Ready fresh
fresh-Ready = record {
  quiet = record {
    idle_producer = refl;
    idle_consumer = refl;
    producer_small = omega arith;
    middle_small = omega arith;
  };
  four = refl;
}

first-four : four_pulses (first_channel ∷ []) ≡ true
unfolding four_pulses
first-four = refl

second-ok : is_ok (validate_pwm_servo_command second_channel) ≡ true
unfolding validate_pwm_servo_command validate_mask check_pulses
second-ok = refl

consumed_pwm_is_merged_example :
    (let final = (publish_pwm second_channel (publish_all (first_channel ∷ []) fresh)).0 in
      ((consume_whole final.mailbox).1 ≡ some final.shadow)
      × (get_or final.shadow.pulse_width_us 0 0 ≡ (
          if selects second_channel.update_mask 0
          then get_or second_channel.pulse_width_us 0 0
          else latest_pulse (first_channel ∷ []) 0 (get_or fresh.shadow.pulse_width_us 0 0))))
consumed_pwm_is_merged_example =
    consumed_pwm_is_merged (first_channel ∷ []) second_channel fresh 0 fresh-Ready first-four refl
      second-ok (omega arith)
