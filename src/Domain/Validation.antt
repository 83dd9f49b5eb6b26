-- ===== src/Domain/Validation.antt =====
-- validation.cc: the checks that a command passes before any state changes. The two checks of
-- floating-point commands are not here.
pub mod Masks
pub mod Servos
mod Tests
use mentor_pi_ros.Prelude.{
  zero, suc, ℕ, ◌+◌, ◌-◌, Bool, true, false, not, ◌&&◌, ◌||◌, List, [], ◌∷◌, bit_and, bit_xor, ltb,
  leb, ◌==◌, ◌!=◌, if◌then◌else◌, u16, get_or,
}
use mentor_pi_ros.Prelude.Bits.{selects}
use mentor_pi_ros.Prelude.Int.{ℤ, pos, negsuc, ltb_ℤ}
use mentor_pi_ros.Domain.Result.{
  Result, ok, invalid_argument, out_of_range, is_ok, ok_result, failure,
}
use mentor_pi_ros.Domain.Commands.{
  PwmServoCommand, PwmServoOffsetCommand, BusServoCommand, StopBusServosCommand,
  ConfigureBusServoCommand, GetBusServoStateCommand, LedCommand, BuzzerCommand, RgbCommand,
  BoundedText, OledCommand, all_pwm_servo_mask, host_rgb_pixel_mask, all_oled_line_mask,
  bus_servo_batch_capacity, oled_line_capacity,
}

-- `~allowed_mask`, cast to 16 bits.
abbrev pub complement16 : ℕ → ℕ
complement16 mask = 0xffff - u16 mask

unfoldable pub validate_mask : ℕ → ℕ → Result
validate_mask mask allowed_mask =
    let invalid_bits = bit_and mask (complement16 allowed_mask) in
    if mask == 0 || invalid_bits != 0 then failure invalid_argument invalid_bits else ok_result

unfoldable pub is_bus_servo_id : ℕ → Bool
is_bus_servo_id servo_id = leb 1 servo_id && leb servo_id 253

-- The inner loop: does an earlier entry hold the same identifier?
unfoldable pub has_prior : List ℕ → ℕ → ℕ → Bool
has_prior [] index servo_id = false
has_prior (prior ∷ ids) zero servo_id = false
has_prior (prior ∷ ids) (suc index) servo_id = prior == servo_id || has_prior ids index servo_id

-- The outer loop over `count` entries from `index`; an entry past the array is not read, since the
-- count is checked first.
unfoldable pub check_ids : List ℕ → ℕ → ℕ → Result
unfolding is_bus_servo_id has_prior
check_ids ids index zero = ok_result
check_ids ids index (suc left) =
    let servo_id = get_or ids index 0 in
    let rest = check_ids ids (index + 1) left in
    if not (is_bus_servo_id servo_id)
    then failure out_of_range (u16 (index + 1))
    else if has_prior ids index servo_id
    then failure invalid_argument (u16 (index + 1))
    else rest

-- `ValidateBusServoIdList`.
unfoldable pub validate_bus_servo_id_list : ℕ → List ℕ → Result
validate_bus_servo_id_list count ids =
    if count == 0 || ltb bus_servo_batch_capacity count
    then failure invalid_argument count
    else check_ids ids 0 count

unfoldable pub check_pulses : ℕ → ℕ → List ℕ → Result
check_pulses mask index [] = ok_result
check_pulses mask index (pulse ∷ pulses) =
    let rest = check_pulses mask (index + 1) pulses in
    if selects mask index && (ltb pulse 500 || ltb 2500 pulse)
    then failure out_of_range (u16 (index + 1))
    else rest

unfoldable pub validate_pwm_servo_command : PwmServoCommand → Result
validate_pwm_servo_command command =
    let mask_result = validate_mask command.update_mask all_pwm_servo_mask in
    if not (is_ok mask_result)
    then mask_result
    else if ltb command.duration_ms 20 || ltb 30000 command.duration_ms
    then failure out_of_range 0
    else check_pulses command.update_mask 0 command.pulse_width_us

unfoldable pub check_offsets : ℕ → ℕ → List ℤ → Result
check_offsets mask index [] = ok_result
check_offsets mask index (offset ∷ offsets) =
    let rest = check_offsets mask (index + 1) offsets in
    if selects mask index && (ltb_ℤ offset (negsuc 99) || ltb_ℤ (pos 100) offset)
    then failure out_of_range (u16 (index + 1))
    else rest

unfoldable pub validate_pwm_servo_offsets : PwmServoOffsetCommand → Result
validate_pwm_servo_offsets command =
    let mask_result = validate_mask command.update_mask all_pwm_servo_mask in
    if not (is_ok mask_result)
    then mask_result
    else check_offsets command.update_mask 0 command.offset_us

unfoldable pub check_positions : List ℕ → ℕ → ℕ → Result
check_positions positions index zero = ok_result
check_positions positions index (suc left) =
    let rest = check_positions positions (index + 1) left in
    if ltb 1000 (get_or positions index 0) then failure out_of_range (u16 (index + 1)) else rest

unfoldable pub validate_bus_servo_command : BusServoCommand → Result
validate_bus_servo_command command =
    let ids_result = validate_bus_servo_id_list command.count command.servo_id in
    if not (is_ok ids_result)
    then ids_result
    else if ltb 30000 command.duration_ms
    then failure out_of_range 0
    else check_positions command.position 0 command.count

unfoldable pub validate_stop_bus_servos_command : StopBusServosCommand → Result
validate_stop_bus_servos_command command = validate_bus_servo_id_list command.count command.servo_id

unfoldable pub validate_led_command : LedCommand → Result
validate_led_command command =
    if ltb command.led_id 2 || ltb 3 command.led_id
    then failure out_of_range command.led_id
    else ok_result

unfoldable pub validate_buzzer_command : BuzzerCommand → Result
validate_buzzer_command command =
    if command.frequency_hz == 0 || command.on_time_ms == 0
    then ok_result
    else if ltb command.frequency_hz 10 || ltb 20000 command.frequency_hz
    then failure out_of_range 0
    else ok_result

unfoldable pub validate_rgb_command : RgbCommand → Result
validate_rgb_command command = validate_mask command.update_mask host_rgb_pixel_mask

unfoldable pub validate_battery_threshold : ℕ → Result
validate_battery_threshold threshold_mv =
    if ltb threshold_mv 5000 || ltb 20000 threshold_mv then failure out_of_range 0 else ok_result
