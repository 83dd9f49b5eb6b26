-- ===== src/Domain/Requests.antt =====
-- validation.cc: the checks of the requests that configure or read a bus servo, and of the lines
-- for the display.
pub mod Text
mod Tests
use mentor_pi_ros.Prelude.{
  ℕ, zero, suc, ◌+◌, Bool, true, false, not, ◌&&◌, ◌||◌, List, [], ◌∷◌, bit_and, ltb, ◌==◌, ◌!=◌,
  if◌then◌else◌, u16, get_or,
}
use mentor_pi_ros.Prelude.Bits.{selects}
use mentor_pi_ros.Prelude.Int.{pos, negsuc, ltb_ℤ}
use mentor_pi_ros.Domain.Result.{Result, invalid_argument, out_of_range, is_ok, ok_result, failure}
use mentor_pi_ros.Domain.Commands.{
  ConfigureBusServoCommand, GetBusServoStateCommand, BoundedText, OledCommand, all_oled_line_mask,
  oled_line_capacity,
}
use mentor_pi_ros.Domain.Validation.{validate_mask, is_bus_servo_id}

abbrev pub set_id : ℕ
set_id = 1

abbrev pub set_offset : ℕ
set_offset = 2

abbrev pub set_position_limits : ℕ
set_position_limits = 8

abbrev pub set_voltage_limits : ℕ
set_voltage_limits = 16

abbrev pub set_temperature_limit : ℕ
set_temperature_limit = 32

abbrev pub all_updates : ℕ
all_updates = 127

abbrev pub field_id : ℕ
field_id = 1

abbrev pub all_fields : ℕ
all_fields = 511

abbrev pub updates : ConfigureBusServoCommand → ℕ → Bool
updates command field = bit_and command.update_mask field != 0

-- The checks of the values, in their order.
unfoldable pub check_configuration : ConfigureBusServoCommand → Result
check_configuration command =
    if updates command set_id && not (is_bus_servo_id command.new_id)
    then failure out_of_range 1
    else if updates command set_offset
        && (ltb_ℤ command.offset (negsuc 124) || ltb_ℤ (pos 125) command.offset)
    then failure out_of_range 2
    else if updates command set_position_limits
        && (ltb 1000 command.position_min
            || ltb 1000 command.position_max
            || ltb command.position_max command.position_min)
    then failure
        (if ltb command.position_max command.position_min then invalid_argument else out_of_range) 4
    else if updates command set_voltage_limits
        && (ltb command.voltage_min_mv 4500
            || ltb 14000 command.voltage_min_mv
            || ltb command.voltage_max_mv 4500
            || ltb 14000 command.voltage_max_mv
            || ltb command.voltage_max_mv command.voltage_min_mv)
    then failure
        (if ltb command.voltage_max_mv command.voltage_min_mv
          then invalid_argument
          else out_of_range)
        5
    else if updates command set_temperature_limit && ltb 100 command.temperature_limit_c
    then failure out_of_range 6
    else ok_result

-- `ValidateConfigureBusServoCommand`.
unfoldable pub validate_configure_bus_servo_command : ConfigureBusServoCommand → Result
validate_configure_bus_servo_command command =
    let mask_result = validate_mask command.update_mask all_updates in
    if not (is_bus_servo_id command.servo_id)
    then failure out_of_range 0
    else if not (is_ok mask_result)
    then mask_result
    else check_configuration command

-- `ValidateGetBusServoStateCommand`.
unfoldable pub validate_get_bus_servo_state_command : GetBusServoStateCommand → Result
validate_get_bus_servo_state_command command =
    let mask_result = validate_mask command.fields all_fields in
    if not (is_ok mask_result)
    then mask_result
    else if command.servo_id == 254
    then (if command.fields == field_id then ok_result else failure invalid_argument command.fields)
    else if not (is_bus_servo_id command.servo_id)
    then failure out_of_range 0
    else ok_result

-- The loop over the characters of a text, `left` of them from `index` on.
unfoldable pub is_printable : List ℕ → ℕ → ℕ → Bool
is_printable bytes index zero = true
is_printable bytes index (suc left) =
    let rest = is_printable bytes (index + 1) left in
    let byte = get_or bytes index 0 in not (ltb byte 0x20 || ltb 0x7e byte) && rest

-- The checks of one selected line; a text that is too long is not read at its size.
unfoldable pub is_valid_text : BoundedText → Bool
is_valid_text text =
    if ltb oled_line_capacity text.size || get_or text.bytes text.size 0 != 0
    then false
    else is_printable text.bytes 0 text.size

unfoldable pub check_lines : ℕ → ℕ → List BoundedText → Result
check_lines mask line [] = ok_result
check_lines mask line (text ∷ lines) =
    let rest = check_lines mask (line + 1) lines in
    if selects mask line && not (is_valid_text text)
    then failure invalid_argument (u16 (line + 1))
    else rest

-- `ValidateOledCommand`.
unfoldable pub validate_oled_command : OledCommand → Result
validate_oled_command command =
    let mask_result = validate_mask command.update_mask all_oled_line_mask in
    if not (is_ok mask_result) then mask_result else check_lines command.update_mask 0 command.lines
