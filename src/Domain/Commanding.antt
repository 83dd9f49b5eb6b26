-- ===== src/Domain/Commanding.antt =====
-- command_mailboxes.cc and state_merger.cc: the mailboxes through which accepted commands reach
-- their workers. A producer merges each command into its shadow and publishes the shadow. The
-- mailbox of the motors, whose commands carry floating-point numbers, is not here; those of the
-- LEDs, the RGB pixels and the display are in Domain/Indicating.
pub mod Merging
mod Tests
use mentor_pi_ros.Prelude.{
  ℕ, false, ◌+◌, ◌-◌, Bool, not, List, [], ◌∷◌, ◌==◌, if◌then◌else◌, replicate, u32_max, get_or,
  set,
}
use mentor_pi_ros.Prelude.Bits.{selects}
use mentor_pi_ros.Domain.Result.{Result, is_ok, ok_result}
use mentor_pi_ros.Domain.Commands.{
  PwmServoCommand, BusServoCommand, LedCommand, BuzzerCommand, RgbCommand, BoundedText, OledCommand,
  RgbState, OledState, BoundedText,
}
use mentor_pi_ros.Domain.Validation.{
  validate_pwm_servo_command, validate_bus_servo_command, validate_led_command,
  validate_buzzer_command, validate_rgb_command,
}
use mentor_pi_ros.Domain.Requests.{validate_oled_command}
use mentor_pi_ros.Domain.Mailbox.{LatestMailbox, publish_whole, discard_latest}
use mentor_pi_ros.Domain.BusServo.Scheduler.{next_generation, increment}

pub record CommandAdmission : Type 0 where
  pub result : Result
  pub overwrote_unread : Bool
  pub generation : ℕ

-- A mailbox of snapshots.
pub record CommandMailbox (S : Type 0) : Type 0 where
  pub shadow : S
  pub mailbox : LatestMailbox S
  pub overwrite_count : ℕ

module _ {S : Type 0} where
  -- `PublishResult`, on the publication of a new shadow.
  unfoldable pub publish_shadow : S → ℕ → CommandMailbox S → CommandMailbox S × CommandAdmission
  publish_shadow shadow generation m =
      let published = publish_whole shadow m.mailbox in
      (
        record m {
          shadow = shadow;
          mailbox = published.0;
          overwrite_count = if published.1 then increment m.overwrite_count else m.overwrite_count;
        },
        record { result = ok_result; overwrote_unread = published.1; generation = generation },
      )

  abbrev pub refused : Result → ℕ → CommandMailbox S → CommandMailbox S × CommandAdmission
  refused result generation m =
      (m, record { result = result; overwrote_unread = false; generation = generation })

-- The loops over the fields of a snapshot: a selected field takes the value of the command, from
-- index `index` on.
module _ {A : Type 0} where
  unfoldable pub merge_selected : ℕ → ℕ → List A → List A → List A
  merge_selected mask index new [] = []
  merge_selected mask index [] (old ∷ olds) = old ∷ olds
  merge_selected mask index (new ∷ news) (old ∷ olds) =
      let rest = merge_selected mask (index + 1) news olds in
      (if selects mask index then new else old) ∷ rest

  unfoldable pub assign_selected : ℕ → ℕ → A → List A → List A
  assign_selected mask index value [] = []
  assign_selected mask index value (old ∷ olds) =
      let rest = assign_selected mask (index + 1) value olds in
      (if selects mask index then value else old) ∷ rest

pub record PwmCommandSnapshot : Type 0 where
  pub pulse_width_us : List ℕ
  pub duration_ms : List ℕ
  pub field_generation : List ℕ
  pub generation : ℕ

abbrev pub empty_pwm : PwmCommandSnapshot
empty_pwm = record {
  pulse_width_us = 1500 ∷ 1500 ∷ 1500 ∷ 1500 ∷ [];
  duration_ms = 0 ∷ 0 ∷ 0 ∷ 0 ∷ [];
  field_generation = 0 ∷ 0 ∷ 0 ∷ 0 ∷ [];
  generation = 0;
}

-- `PwmCommandMailbox::Publish`.
unfoldable pub publish_pwm :
    PwmServoCommand
    → CommandMailbox PwmCommandSnapshot
    → CommandMailbox PwmCommandSnapshot × CommandAdmission
publish_pwm command m =
    let result = validate_pwm_servo_command command in
    let generation = next_generation m.shadow.generation in
    let mask = command.update_mask in
    if not (is_ok result)
    then refused result m.shadow.generation m
    else publish_shadow
        record {
          pulse_width_us = merge_selected mask 0 command.pulse_width_us m.shadow.pulse_width_us;
          duration_ms = assign_selected mask 0 command.duration_ms m.shadow.duration_ms;
          field_generation = assign_selected mask 0 generation m.shadow.field_generation;
          generation = generation;
        }
        generation m

-- `PwmCommandMailbox::ResetMergedFields`.
unfoldable pub reset_pwm : CommandMailbox PwmCommandSnapshot → CommandMailbox PwmCommandSnapshot
reset_pwm m = record m {
  mailbox = discard_latest m.mailbox;
  shadow = record empty_pwm { generation = m.shadow.generation };
}

pub record BusMotionSnapshot : Type 0 where
  pub command : BusServoCommand
  pub generation : ℕ

-- `BusMotionMailbox::Publish`.
unfoldable pub publish_bus_motion :
    BusServoCommand
    → CommandMailbox BusMotionSnapshot
    → CommandMailbox BusMotionSnapshot × CommandAdmission
publish_bus_motion command m =
    let result = validate_bus_servo_command command in
    let generation = next_generation m.shadow.generation in
    if not (is_ok result)
    then refused result m.shadow.generation m
    else publish_shadow (record { command = command; generation = generation }) generation m

pub record BuzzerCommandSnapshot : Type 0 where
  pub command : BuzzerCommand
  pub generation : ℕ

-- `BuzzerCommandMailbox::Publish`.
unfoldable pub publish_buzzer :
    BuzzerCommand
    → CommandMailbox BuzzerCommandSnapshot
    → CommandMailbox BuzzerCommandSnapshot × CommandAdmission
publish_buzzer command m =
    let result = validate_buzzer_command command in
    let generation = next_generation m.shadow.generation in
    if not (is_ok result)
    then refused result m.shadow.generation m
    else publish_shadow (record { command = command; generation = generation }) generation m
