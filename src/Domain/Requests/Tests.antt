-- ===== src/Domain/Requests/Tests.antt =====
-- A display command at concrete values.
use mentor_pi_ros.Prelude.{◌≡◌, refl, true, [], ◌∷◌, arith, get_or}
use mentor_pi_ros.Domain.Result.{is_ok}
use mentor_pi_ros.Domain.Commands.{BoundedText, OledCommand}
use mentor_pi_ros.Domain.Validation.{validate_mask}
use mentor_pi_ros.Domain.Requests.{validate_oled_command, check_lines, is_valid_text, is_printable}
use mentor_pi_ros.Domain.Requests.Text.{Printable, no_text, validate_oled_command-Printable}

abbrev greeting : BoundedText
greeting = record { bytes = 0x48 ∷ 0x69 ∷ 0 ∷ []; size = 2 }

abbrev show_first : OledCommand
show_first = record { update_mask = 1; lines = greeting ∷ no_text ∷ [] }

shown_first : is_ok (validate_oled_command show_first) ≡ true
unfolding validate_oled_command validate_mask check_lines is_valid_text is_printable
shown_first = refl

validate_oled_command-Printable_example : Printable (get_or show_first.lines 0 no_text)
validate_oled_command-Printable_example =
    validate_oled_command-Printable show_first 0 shown_first (omega arith) refl
