-- ===== src/Domain/Pattern/Alarm.antt =====
-- pattern_controller.cc, BuzzerController: the host cannot interrupt a battery alarm.
use mentor_pi_ros.Prelude.{
  ℕ, ◌+◌, ◌-◌, ◌%◌, ◌≤◌, ◌<◌, ◌≡◌, refl, ◌∙◌, Bool, true, false, ◌&&◌, List, [], ◌∷◌, arith, ltb,
  leb, if◌then◌else◌, u32,
}
use mentor_pi_ros.Domain.Commands.{BuzzerCommand}
use mentor_pi_ros.Domain.Pattern.{
  BuzzerController, BuzzerOutput, configure, update, start_host_pattern, accept_host_command,
  trigger_battery_alarm, update_buzzer,
}
use mentor_pi_ros.Domain.Pattern.Timing.{Runs, update-Runs, update-shows}

-- A call of the owner, with its time.
pub data BuzzerCall : Type 0 where
  host : BuzzerCommand → ℕ → BuzzerCall
  tick : ℕ → BuzzerCall

unfoldable pub call : BuzzerCall → BuzzerController → BuzzerController
call (host command time) b = (accept_host_command b command (u32 time)).0
call (tick time) b = (update_buzzer b (u32 time)).0

unfoldable pub calls : List BuzzerCall → BuzzerController → BuzzerController
calls [] b = b
calls (c ∷ cs) b = calls cs (call c b)

-- The updates come in the order of their times, the last at `now`.
unfoldable pub in_order : ℕ → List BuzzerCall → ℕ → Bool
in_order last [] now = leb last now
in_order last (host command time ∷ cs) now = in_order last cs now
in_order last (tick time ∷ cs) now = leb last time && in_order time cs now

in_order-le : (last : ℕ) (cs : List BuzzerCall) (now : ℕ) → in_order last cs now ≡ true → last ≤ now
unfolding in_order
in_order-le last [] now h = ground arith
in_order-le last (host command time ∷ cs) now h = in_order-le last cs now h
in_order-le last (tick time ∷ cs) now h =
    let rest = in_order-le time cs now (ground arith) in ground arith

-- The tone of the alarm at `elapsed` milliseconds: five cycles of 800 ms on and 200 ms off.
abbrev pub alarm_at : ℕ → BuzzerOutput
alarm_at elapsed = record {
  frequency_hz = if ltb (elapsed % 1000) 800 then 2100 else 0;
  battery_alarm_active = true;
}

module _ (start : ℕ) where
  record Alarmed (b : BuzzerController) (last : ℕ) : Type 0 where
    active : b.battery_alarm_active ≡ true
    runs : Runs 800 200 5 start b.battery_pattern last

  host-Alarmed :
      (b : BuzzerController) (command : BuzzerCommand) (time last : ℕ)
      → Alarmed b last
      → Alarmed (accept_host_command b command (u32 time)).0 last
  unfolding accept_host_command start_host_pattern
  host-Alarmed b command time last h = ground arith

  tick-Alarmed :
      (b : BuzzerController) (last now : ℕ)
      → Alarmed b last
      → start ≤ last
      → last ≤ now
      → now < start + 5000
      → Alarmed (update_buzzer b (u32 now)).0 now
        × ((update_buzzer b (u32 now)).1 ≡ alarm_at (now - start))
  unfolding update_buzzer
  tick-Alarmed b last now h from le before =
      let shows =
        update-shows 800 200 5 start (omega arith) (omega arith) b.battery_pattern last now h.runs
          le (omega arith) (omega arith) (omega arith) in
      let sounding : (update b.battery_pattern (u32 now)).1
          ≡ record { on = ltb ((now - start) % 1000) 800; complete = false } =
        shows ∙ ground arith in
      let runs =
        update-Runs 800 200 5 start (omega arith) (omega arith) b.battery_pattern last now h.runs le
          (omega arith) (omega arith) in
      (
        record { active = ground (arith, sounding); runs = ground (arith, sounding, runs) },
        ground (arith, sounding),
      )

  calls-Alarmed :
      (cs : List BuzzerCall) (b : BuzzerController) (last now : ℕ)
      → Alarmed b last
      → start ≤ last
      → in_order last cs now ≡ true
      → now < start + 5000
      → (update_buzzer (calls cs b) (u32 now)).1 ≡ alarm_at (now - start)
  unfolding calls call in_order
  calls-Alarmed [] b last now h from ahead before =
      (tick-Alarmed b last now h from (ground arith) before).1
  calls-Alarmed (host command time ∷ cs) b last now h from ahead before =
      calls-Alarmed cs _ last now (host-Alarmed b command time last h) from ahead before
  calls-Alarmed (tick time ∷ cs) b last now h from ahead before =
      let later = in_order-le time cs now (ground arith) in
      calls-Alarmed cs _ time now
        (tick-Alarmed b last time h from (ground arith) (omega (arith, later, before))).0
        (ground arith) (ground arith) before

-- From the trigger of a battery alarm on, for five seconds and whatever commands the host sends in
-- between, each update plays the alarm: 2100 Hz in the first 800 ms of each second, else silence.
pub alarm_is_not_interrupted :
    (b : BuzzerController) (start : ℕ) (cs : List BuzzerCall) (now : ℕ)
    → in_order start cs now ≡ true
    → now < start + 5000
    → (update_buzzer (calls cs (trigger_battery_alarm b (u32 start))) (u32 now)).1
      ≡ alarm_at (now - start)
unfolding trigger_battery_alarm configure
alarm_is_not_interrupted b start cs now ahead before =
    calls-Alarmed start cs _ start now record { active = refl; runs = ground arith } (omega arith)
      ahead before
