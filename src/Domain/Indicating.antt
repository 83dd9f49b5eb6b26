-- ===== src/Domain/Indicating.antt =====
-- command_mailboxes.cc and state_merger.cc: the mailboxes of the LEDs, the RGB pixels and the
-- display.
use mentor_pi_ros.Prelude.{ℕ, ◌-◌, not, List, [], ◌∷◌, if◌then◌else◌, replicate, set}
use mentor_pi_ros.Domain.Result.{Result, is_ok, ok_result}
use mentor_pi_ros.Domain.Commands.{
  LedCommand, RgbCommand, BoundedText, OledCommand, RgbState, OledState, BoundedText,
}
use mentor_pi_ros.Domain.Validation.{validate_led_command, validate_rgb_command}
use mentor_pi_ros.Domain.Requests.{validate_oled_command}
use mentor_pi_ros.Domain.Mailbox.{discard_latest}
use mentor_pi_ros.Domain.BusServo.Scheduler.{next_generation}
use mentor_pi_ros.Domain.Commanding.{
  CommandMailbox, CommandAdmission, publish_shadow, refused, merge_selected, assign_selected,
}

pub record LedCommandSnapshot : Type 0 where
  pub commands : List LedCommand
  pub field_generation : List ℕ
  pub generation : ℕ

-- `LedCommandMailbox::Publish`.
unfoldable pub publish_led :
    LedCommand
    → CommandMailbox LedCommandSnapshot
    → CommandMailbox LedCommandSnapshot × CommandAdmission
publish_led command m =
    let result = validate_led_command command in
    let generation = next_generation m.shadow.generation in
    let index = command.led_id - 1 in
    if not (is_ok result)
    then refused result m.shadow.generation m
    else publish_shadow
        record {
          commands = set m.shadow.commands index command;
          field_generation = set m.shadow.field_generation index generation;
          generation = generation;
        }
        generation m

-- `MergeRgbCommand`, with a state that is not null.
unfoldable pub merge_rgb_command : RgbCommand → RgbState → RgbState × Result
merge_rgb_command command state =
    let result = validate_rgb_command command in
    let mask = command.update_mask in
    if not (is_ok result) then (state, result) else (
      record {
        red = merge_selected mask 0 command.red state.red;
        green = merge_selected mask 0 command.green state.green;
        blue = merge_selected mask 0 command.blue state.blue;
      },
      ok_result,
    )

pub record RgbCommandSnapshot : Type 0 where
  pub state : RgbState
  pub field_generation : List ℕ
  pub generation : ℕ

-- `RgbCommandMailbox::Publish`.
unfoldable pub publish_rgb :
    RgbCommand
    → CommandMailbox RgbCommandSnapshot
    → CommandMailbox RgbCommandSnapshot × CommandAdmission
publish_rgb command m =
    let merged = merge_rgb_command command m.shadow.state in
    let generation = next_generation m.shadow.generation in
    if not (is_ok merged.1)
    then refused merged.1 m.shadow.generation m
    else publish_shadow
        record {
          state = merged.0;
          field_generation =
              assign_selected command.update_mask 0 generation m.shadow.field_generation;
          generation = generation;
        }
        generation m

-- `MergeOledCommand`, with a state that is not null.
unfoldable pub merge_oled_command : OledCommand → OledState → OledState × Result
merge_oled_command command state =
    let result = validate_oled_command command in
    if not (is_ok result) then (state, result) else (
      record { lines = merge_selected command.update_mask 0 command.lines state.lines },
      ok_result,
    )

pub record OledCommandSnapshot : Type 0 where
  pub state : OledState
  pub field_generation : List ℕ
  pub generation : ℕ

-- `OledCommandMailbox::Publish`.
unfoldable pub publish_oled :
    OledCommand
    → CommandMailbox OledCommandSnapshot
    → CommandMailbox OledCommandSnapshot × CommandAdmission
publish_oled command m =
    let merged = merge_oled_command command m.shadow.state in
    let generation = next_generation m.shadow.generation in
    if not (is_ok merged.1)
    then refused merged.1 m.shadow.generation m
    else publish_shadow
        record {
          state = merged.0;
          field_generation =
              assign_selected command.update_mask 0 generation m.shadow.field_generation;
          generation = generation;
        }
        generation m

abbrev idle_led : ℕ → LedCommand
idle_led led_id = record { led_id = led_id; on_time_ms = 0; off_time_ms = 0; repeat = 0 }

-- 23 characters and a terminating zero, all zero.
abbrev empty_text : BoundedText
empty_text = record { bytes = replicate 24 0; size = 0 }

-- The rest of `ResetMergedFields`: the shadow is empty but for its generation.
abbrev pub empty_led : LedCommandSnapshot
empty_led = record {
  commands = idle_led 1 ∷ idle_led 2 ∷ idle_led 3 ∷ [];
  field_generation = 0 ∷ 0 ∷ 0 ∷ [];
  generation = 0;
}

unfoldable pub reset_led : CommandMailbox LedCommandSnapshot → CommandMailbox LedCommandSnapshot
reset_led m = record m {
  mailbox = discard_latest m.mailbox;
  shadow = record empty_led { generation = m.shadow.generation };
}

abbrev pub empty_rgb : RgbCommandSnapshot
empty_rgb = record {
  state = record { red = 0 ∷ 0 ∷ []; green = 0 ∷ 0 ∷ []; blue = 0 ∷ 0 ∷ [] };
  field_generation = 0 ∷ 0 ∷ [];
  generation = 0;
}

unfoldable pub reset_rgb : CommandMailbox RgbCommandSnapshot → CommandMailbox RgbCommandSnapshot
reset_rgb m = record m {
  mailbox = discard_latest m.mailbox;
  shadow = record empty_rgb { generation = m.shadow.generation };
}

abbrev pub empty_oled : OledCommandSnapshot
empty_oled = record {
  state = record { lines = empty_text ∷ empty_text ∷ [] };
  field_generation = 0 ∷ 0 ∷ [];
  generation = 0;
}

unfoldable pub reset_oled : CommandMailbox OledCommandSnapshot → CommandMailbox OledCommandSnapshot
reset_oled m = record m {
  mailbox = discard_latest m.mailbox;
  shadow = record empty_oled { generation = m.shadow.generation };
}
