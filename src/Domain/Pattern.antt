-- ===== src/Domain/Pattern.antt =====
-- pattern_controller.cc: blinking patterns, the three LEDs and the buzzer with its battery alarm.
pub mod Timing
pub mod Alarm
mod Tests
use mentor_pi_ros.Prelude.{
  ℕ, ◌+◌, ◌-◌, ◌*◌, ◌%◌, Bool, true, false, ◌&&◌, ◌||◌, not, List, [], ◌∷◌, map, ltb, leb, ◌==◌,
  ◌!=◌, if◌then◌else◌, u64, sub32, set, get_or,
}
use mentor_pi_ros.Domain.Result.{Result, is_ok, ok_result}
use mentor_pi_ros.Domain.Commands.{LedCommand, BuzzerCommand}
use mentor_pi_ros.Domain.Validation.{validate_led_command, validate_buzzer_command}

pub record PatternOutput : Type 0 where
  pub on : Bool
  pub complete : Bool

pub record BinaryPattern : Type 0 where
  pub on_time_ms : ℕ
  pub off_time_ms : ℕ
  pub repeat : ℕ
  pub previous_update_ms : ℕ
  pub elapsed_ms : ℕ
  pub initialized : Bool

abbrev pub idle_pattern : BinaryPattern
idle_pattern = record {
  on_time_ms = 0;
  off_time_ms = 0;
  repeat = 0;
  previous_update_ms = 0;
  elapsed_ms = 0;
  initialized = false;
}

-- `BinaryPattern::Configure`, which sets every field.
unfoldable pub configure : ℕ → ℕ → ℕ → ℕ → BinaryPattern
configure on_time_ms off_time_ms repeat now_ms = record {
  on_time_ms = on_time_ms;
  off_time_ms = off_time_ms;
  repeat = repeat;
  previous_update_ms = now_ms;
  elapsed_ms = 0;
  initialized = true;
}

-- `AccumulateElapsed`.
unfoldable pub accumulate_elapsed : BinaryPattern → ℕ → BinaryPattern
accumulate_elapsed p now_ms = record p {
  elapsed_ms = u64 (p.elapsed_ms + sub32 now_ms p.previous_update_ms);
  previous_update_ms = now_ms;
}

-- What an accumulated pattern shows.
unfoldable pub shown : BinaryPattern → PatternOutput
shown p =
    let cycle_ms = p.on_time_ms + p.off_time_ms in
    if p.repeat != 0 && leb (u64 (cycle_ms * p.repeat)) p.elapsed_ms
    then record { on = false; complete = true }
    else record { on = ltb (p.elapsed_ms % cycle_ms) p.on_time_ms; complete = false }

-- `BinaryPattern::Update`.
unfoldable pub update : BinaryPattern → ℕ → BinaryPattern × PatternOutput
update p now_ms =
    let next = accumulate_elapsed p now_ms in
    if not p.initialized || p.on_time_ms == 0
    then (p, record { on = false; complete = true })
    else if p.off_time_ms == 0
    then (p, record { on = true; complete = false })
    else (next, shown next)

-- `LedController::AcceptCommand`, on the patterns of the three LEDs.
unfoldable pub accept_led : List BinaryPattern → LedCommand → ℕ → List BinaryPattern × Result
accept_led patterns command now_ms =
    let result = validate_led_command command in
    if not (is_ok result) then (patterns, result) else (
      set patterns (command.led_id - 1)
          (configure command.on_time_ms command.off_time_ms command.repeat now_ms),
      ok_result,
    )

-- `LedController::Update`.
unfoldable pub update_leds : List BinaryPattern → ℕ → List BinaryPattern × List Bool
update_leds [] now_ms = ([], [])
update_leds (p ∷ patterns) now_ms =
    let next = update p now_ms in
    let rest = update_leds patterns now_ms in (next.0 ∷ rest.0, next.1.on ∷ rest.1)

pub record BuzzerOutput : Type 0 where
  pub frequency_hz : ℕ
  pub battery_alarm_active : Bool

pub record BuzzerController : Type 0 where
  pub host_command : BuzzerCommand
  pub host_pattern : BinaryPattern
  pub battery_pattern : BinaryPattern
  pub battery_alarm_active : Bool

abbrev pub battery_alarm_command : BuzzerCommand
battery_alarm_command = record {
  frequency_hz = 2100;
  on_time_ms = 800;
  off_time_ms = 200;
  repeat = 5;
}

abbrev pub is_forced_off : BuzzerCommand → Bool
is_forced_off command = command.frequency_hz == 0 || command.on_time_ms == 0

-- `StartHostPattern`.
unfoldable pub start_host_pattern : BuzzerController → ℕ → BuzzerController
start_host_pattern b now_ms = record b {
  host_pattern =
      configure (if is_forced_off b.host_command then 0 else b.host_command.on_time_ms)
        b.host_command.off_time_ms b.host_command.repeat now_ms;
}

-- `AcceptHostCommand`.
unfoldable pub accept_host_command :
    BuzzerController → BuzzerCommand → ℕ → BuzzerController × Result
accept_host_command b command now_ms =
    let result = validate_buzzer_command command in
    let told = record b { host_command = command } in
    if not (is_ok result)
    then (b, result)
    else (if b.battery_alarm_active then told else start_host_pattern told now_ms, ok_result)

-- `TriggerBatteryAlarm`.
unfoldable pub trigger_battery_alarm : BuzzerController → ℕ → BuzzerController
trigger_battery_alarm b now_ms = record b {
  battery_alarm_active = true;
  battery_pattern =
      configure battery_alarm_command.on_time_ms battery_alarm_command.off_time_ms
        battery_alarm_command.repeat now_ms;
}

-- The part of `Update` that plays the host's pattern.
unfoldable pub play_host : BuzzerController → ℕ → BuzzerController × BuzzerOutput
play_host b now_ms =
    let host = update b.host_pattern now_ms in
    (
      record b { host_pattern = host.0 },
      record {
        frequency_hz =
            if host.1.on && not (is_forced_off b.host_command)
            then b.host_command.frequency_hz
            else 0;
        battery_alarm_active = false;
      },
    )

-- `BuzzerController::Update`.
unfoldable pub update_buzzer : BuzzerController → ℕ → BuzzerController × BuzzerOutput
update_buzzer b now_ms =
    let battery = update b.battery_pattern now_ms in
    let alarmed = record b { battery_pattern = battery.0 } in
    if not b.battery_alarm_active
    then play_host b now_ms
    else if not battery.1.complete
    then (
      alarmed,
      record {
        frequency_hz = if battery.1.on then battery_alarm_command.frequency_hz else 0;
        battery_alarm_active = true;
      },
    )
    else play_host (start_host_pattern (record alarmed { battery_alarm_active = false }) now_ms)
        now_ms
