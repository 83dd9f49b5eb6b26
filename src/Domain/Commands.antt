-- ===== src/Domain/Commands.antt =====
-- commands.h: the commands of the host. A fixed array is a list; its length is stated where it
-- matters. The commands that carry floating-point numbers are not here.
use mentor_pi_ros.Prelude.{ℕ, List, Bool}
use mentor_pi_ros.Prelude.Int.{ℤ}

abbrev pub pwm_servo_count : ℕ
pwm_servo_count = 4

abbrev pub bus_servo_batch_capacity : ℕ
bus_servo_batch_capacity = 16

abbrev pub oled_line_capacity : ℕ
oled_line_capacity = 23

abbrev pub all_pwm_servo_mask : ℕ
all_pwm_servo_mask = 0x0f

-- RGB1 belongs to the firmware's status indication.
abbrev pub host_rgb_pixel_mask : ℕ
host_rgb_pixel_mask = 0x02

abbrev pub all_oled_line_mask : ℕ
all_oled_line_mask = 0x03

pub record PwmServoCommand : Type 0 where
  pub update_mask : ℕ
  pub duration_ms : ℕ
  pub pulse_width_us : List ℕ

pub record PwmServoOffsetCommand : Type 0 where
  pub update_mask : ℕ
  pub offset_us : List ℤ

pub record BusServoCommand : Type 0 where
  pub count : ℕ
  pub servo_id : List ℕ
  pub position : List ℕ
  pub duration_ms : ℕ

pub record StopBusServosCommand : Type 0 where
  pub count : ℕ
  pub servo_id : List ℕ

pub record ConfigureBusServoCommand : Type 0 where
  pub servo_id : ℕ
  pub update_mask : ℕ
  pub new_id : ℕ
  pub offset : ℤ
  pub position_min : ℕ
  pub position_max : ℕ
  pub voltage_min_mv : ℕ
  pub voltage_max_mv : ℕ
  pub temperature_limit_c : ℕ
  pub torque_enabled : Bool

pub record GetBusServoStateCommand : Type 0 where
  pub servo_id : ℕ
  pub fields : ℕ

pub record LedCommand : Type 0 where
  pub led_id : ℕ
  pub on_time_ms : ℕ
  pub off_time_ms : ℕ
  pub repeat : ℕ

pub record BuzzerCommand : Type 0 where
  pub frequency_hz : ℕ
  pub on_time_ms : ℕ
  pub off_time_ms : ℕ
  pub repeat : ℕ

pub record RgbCommand : Type 0 where
  pub update_mask : ℕ
  pub red : List ℕ
  pub green : List ℕ
  pub blue : List ℕ

-- `bytes` is a text of at most 23 characters, and a terminating zero.
pub record BoundedText : Type 0 where
  pub bytes : List ℕ
  pub size : ℕ

pub record OledCommand : Type 0 where
  pub update_mask : ℕ
  pub lines : List BoundedText

pub record RgbState : Type 0 where
  pub red : List ℕ
  pub green : List ℕ
  pub blue : List ℕ

pub record OledState : Type 0 where
  pub lines : List BoundedText
