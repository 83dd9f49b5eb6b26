-- ===== src/Domain/Pattern/Tests.antt =====
-- A blinking pattern and a battery alarm at concrete times.
use mentor_pi_ros.Prelude.{ℕ, ◌≡◌, refl, true, false, List, [], ◌∷◌, arith, u32, ◌-◌}
use mentor_pi_ros.Domain.Commands.{BuzzerCommand}
use mentor_pi_ros.Domain.Pattern.{
  BuzzerController, idle_pattern, configure, update, trigger_battery_alarm, update_buzzer,
}
use mentor_pi_ros.Domain.Pattern.Timing.{pattern_at, advancing, updates, pattern_follows_clock}
use mentor_pi_ros.Domain.Pattern.Alarm.{
  BuzzerCall, host, tick, calls, in_order, alarm_at, alarm_is_not_interrupted,
}

abbrev quiet : BuzzerCommand
quiet = record { frequency_hz = 0; on_time_ms = 0; off_time_ms = 0; repeat = 0 }

abbrev silent : BuzzerController
silent = record {
  host_command = quiet;
  host_pattern = idle_pattern;
  battery_pattern = idle_pattern;
  battery_alarm_active = false;
}

-- The clock wraps at 2 ^ 32, which is between the two updates.
abbrev start : ℕ
start = 4294967000

ahead : advancing start (4294967200 ∷ []) 4294967350 ≡ true
unfolding advancing
ahead = refl

pattern_follows_clock_example :
    (update (updates (configure 100 50 3 (u32 start)) (4294967200 ∷ [])) (u32 4294967350)).1
    ≡ pattern_at 100 50 3 (4294967350 - start)
pattern_follows_clock_example =
    pattern_follows_clock 100 50 3 start (4294967200 ∷ []) 4294967350 (omega arith) (omega arith)
      (omega arith) (omega arith) (omega arith) ahead (omega arith)

abbrev silenced : List BuzzerCall
silenced = tick 4294967200 ∷ host quiet 4294967210 ∷ tick 4294967900 ∷ []

silenced-in_order : in_order start silenced 4294968100 ≡ true
unfolding in_order
silenced-in_order = refl

alarm_is_not_interrupted_example :
    (update_buzzer (calls silenced (trigger_battery_alarm silent (u32 start))) (u32 4294968100)).1
    ≡ alarm_at (4294968100 - start)
alarm_is_not_interrupted_example =
    alarm_is_not_interrupted silent start silenced 4294968100 silenced-in_order (omega arith)
