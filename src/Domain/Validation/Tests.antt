-- ===== src/Domain/Validation/Tests.antt =====
-- Validation at concrete commands.
use mentor_pi_ros.Prelude.{arith, ℕ, ◌≡◌, ◌↔◌, refl, true, List, [], ◌∷◌}
use mentor_pi_ros.Domain.Result.{is_ok, invalid_argument, failure}
use mentor_pi_ros.Domain.Commands.{BusServoCommand, PwmServoCommand}
use mentor_pi_ros.Domain.Validation.{
  is_bus_servo_id, has_prior, check_ids, validate_bus_servo_id_list, validate_bus_servo_command,
  validate_pwm_servo_command,
}
use mentor_pi_ros.Domain.Validation.Masks.{ValidPwm, validate_pwm_servo_command_lem}
use mentor_pi_ros.Domain.Validation.Servos.{ValidMove, validate_bus_servo_command_lem}

abbrev two_ids : List ℕ
two_ids = 7 ∷ 9 ∷ 0 ∷ 0 ∷ 0 ∷ 0 ∷ 0 ∷ 0 ∷ 0 ∷ 0 ∷ 0 ∷ 0 ∷ 0 ∷ 0 ∷ 0 ∷ 0 ∷ []

abbrev twice : List ℕ
twice = 7 ∷ 9 ∷ 7 ∷ 0 ∷ 0 ∷ 0 ∷ 0 ∷ 0 ∷ 0 ∷ 0 ∷ 0 ∷ 0 ∷ 0 ∷ 0 ∷ 0 ∷ 0 ∷ []

abbrev two_servos : BusServoCommand
two_servos = record { count = 2; servo_id = two_ids; position = two_ids; duration_ms = 1000 }

duplicate_refused : validate_bus_servo_id_list 3 twice ≡ failure invalid_argument 3
unfolding validate_bus_servo_id_list check_ids has_prior is_bus_servo_id
duplicate_refused = refl

validate_bus_servo_command_lem_example :
    (is_ok (validate_bus_servo_command two_servos) ≡ true) ↔ ValidMove two_servos
validate_bus_servo_command_lem_example = validate_bus_servo_command_lem two_servos refl

-- The first channel is to be moved.
abbrev first_channel : PwmServoCommand
first_channel = record { update_mask = 1; duration_ms = 20; pulse_width_us = 1500 ∷ 0 ∷ 0 ∷ 0 ∷ [] }

validate_pwm_servo_command_lem_example :
    (is_ok (validate_pwm_servo_command first_channel) ≡ true) ↔ ValidPwm first_channel
validate_pwm_servo_command_lem_example =
    validate_pwm_servo_command_lem first_channel refl (omega arith)
