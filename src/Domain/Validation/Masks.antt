-- ===== src/Domain/Validation/Masks.antt =====
-- validation.cc: the update masks, and the commands that one guards.
use mentor_pi_ros.Prelude.{
  ℕ, zero, suc, ◌+◌, ◌*◌, ◌/◌, ◌^◌, ◌≤◌, ◌<◌, ◌≡◌, ◌↔◌, refl, subst, true, List, [], ◌∷◌, arith,
  get_or, length, Bool-cases, inl, inr, bit_and,
}
use mentor_pi_ros.Prelude.Bits.{bit_and-ones, bit_and-shifted, selects}
use mentor_pi_ros.Domain.Result.{is_ok}
use mentor_pi_ros.Domain.Commands.{PwmServoCommand}
use mentor_pi_ros.Domain.Validation.{validate_mask, check_pulses, validate_pwm_servo_command}

-- The bits of a 16-bit mask outside the low k.
high_bits : (mask : ℕ) → mask < 2 ^ 16 → bit_and mask 0xfff0 ≡ mask / 16 * 16
high_bits mask h = omega (arith, bit_and-shifted 4 mask 4095, bit_and-ones 12 (mask / 16))

validate_mask-four :
    (mask : ℕ)
    → mask < 2 ^ 16
    → (is_ok (validate_mask mask 0x0f) ≡ true) ↔ ((0 < mask) × (mask < 16))
unfolding validate_mask
validate_mask-four mask h = ground (arith, high_bits mask h)

check_pulses-ranged :
    (mask index : ℕ) (pulses : List ℕ) (i : ℕ)
    → is_ok (check_pulses mask index pulses) ≡ true
    → i < length pulses
    → selects mask (index + i) ≡ true
    → (500 ≤ get_or pulses i 0) × (get_or pulses i 0 ≤ 2500)
unfolding check_pulses
check_pulses-ranged mask index [] i h lt on = absurd (omega arith)
check_pulses-ranged mask index (pulse ∷ pulses) zero h lt on =
    let here : selects mask index ≡ true = subst (λ t. selects mask t ≡ true) (omega arith) on in
    ground arith
check_pulses-ranged mask index (pulse ∷ pulses) (suc i) h lt on =
    check_pulses-ranged mask (index + 1) pulses i (ground arith) (omega arith)
      (subst (λ t. selects mask t ≡ true) (omega arith) on)

ranged-check_pulses :
    (mask index : ℕ) (pulses : List ℕ)
    → ((i : ℕ)
        → i < length pulses
        → selects mask (index + i) ≡ true
        → (500 ≤ get_or pulses i 0) × (get_or pulses i 0 ≤ 2500))
    → is_ok (check_pulses mask index pulses) ≡ true
unfolding check_pulses
ranged-check_pulses mask index [] h = refl
ranged-check_pulses mask index (pulse ∷ pulses) h =
    let rest =
      ranged-check_pulses mask (index + 1) pulses (λ i lt on.
        h (suc i) (omega arith) (subst (λ t. selects mask t ≡ true) (omega arith) on)) in
    elim (Bool-cases (selects mask index)) [
      | inl on ↦
          (let here = h 0 (omega arith) (subst (λ t. selects mask t ≡ true) (omega arith) on) in
            ground arith)
      | inr off ↦ ground arith
    ]

-- What an accepted PWM command promises to the controller.
pub record ValidPwm (command : PwmServoCommand) : Type 0 where
  pub some_channel : 0 < command.update_mask
  pub four_channels : command.update_mask < 16
  pub long_enough : 20 ≤ command.duration_ms
  pub short_enough : command.duration_ms ≤ 30000
  pub smallest :
      (i : ℕ)
      → i < 4
      → selects command.update_mask i ≡ true
      → 500 ≤ get_or command.pulse_width_us i 0
  pub largest :
      (i : ℕ)
      → i < 4
      → selects command.update_mask i ≡ true
      → get_or command.pulse_width_us i 0 ≤ 2500

validate_pwm-ValidPwm :
    (command : PwmServoCommand)
    → length command.pulse_width_us ≡ 4
    → command.update_mask < 2 ^ 16
    → is_ok (validate_pwm_servo_command command) ≡ true
    → ValidPwm command
unfolding validate_pwm_servo_command
validate_pwm-ValidPwm command len word h =
    let mask = validate_mask-four command.update_mask word in
    record {
      some_channel = ground arith;
      four_channels = ground arith;
      long_enough = ground arith;
      short_enough = ground arith;
      smallest = λ i lt on. (pulse i lt on).0;
      largest = λ i lt on. (pulse i lt on).1;
    }
  where
    pulse :
        (i : ℕ)
        → i < 4
        → selects command.update_mask i ≡ true
        → (500 ≤ get_or command.pulse_width_us i 0) × (get_or command.pulse_width_us i 0 ≤ 2500)
    pulse i lt on =
        check_pulses-ranged command.update_mask 0 command.pulse_width_us i (ground arith)
          (omega arith) (subst (λ t. selects command.update_mask t ≡ true) (omega arith) on)

ValidPwm-validate_pwm :
    (command : PwmServoCommand)
    → length command.pulse_width_us ≡ 4
    → command.update_mask < 2 ^ 16
    → ValidPwm command
    → is_ok (validate_pwm_servo_command command) ≡ true
unfolding validate_pwm_servo_command
ValidPwm-validate_pwm command len word v =
    let mask = validate_mask-four command.update_mask word in
    ground (arith, pulses, v.some_channel, v.four_channels, v.long_enough, v.short_enough)
  where
    pulses : is_ok (check_pulses command.update_mask 0 command.pulse_width_us) ≡ true
    pulses = ranged-check_pulses command.update_mask 0 command.pulse_width_us (λ i lt on.
        (let selected : selects command.update_mask i ≡ true =
            subst (λ t. selects command.update_mask t ≡ true) (omega arith) on in
          (v.smallest i (omega arith) selected, v.largest i (omega arith) selected)))

-- A PWM command is accepted exactly when its mask selects at least one of the four channels and no
-- other bit, it lasts from 20 ms to 30 s, and every selected pulse is from 500 to 2500 us; the mask
-- is a 16-bit word and there are four pulses.
pub validate_pwm_servo_command_lem :
    (command : PwmServoCommand)
    → length command.pulse_width_us ≡ 4
    → command.update_mask < 2 ^ 16
    → (is_ok (validate_pwm_servo_command command) ≡ true) ↔ ValidPwm command
validate_pwm_servo_command_lem command len word =
    (validate_pwm-ValidPwm command len word, ValidPwm-validate_pwm command len word)
