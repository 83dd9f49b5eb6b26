-- ===== src/Domain/Requests/Text.antt =====
-- validation.cc: what an accepted command shows and sets.
use mentor_pi_ros.Prelude.{
  ℕ, zero, suc, ◌+◌, ◌≤◌, ◌<◌, ◌≡◌, ◌⊎◌, inl, inr, subst, true, List, [], ◌∷◌, arith, get_or,
  length,
}
use mentor_pi_ros.Prelude.Bits.{selects}
use mentor_pi_ros.Domain.Result.{is_ok}
use mentor_pi_ros.Domain.Commands.{BoundedText, OledCommand}
use mentor_pi_ros.Domain.Requests.{is_printable, is_valid_text, check_lines, validate_oled_command}

is_printable-range :
    (bytes : List ℕ) (index left i : ℕ)
    → is_printable bytes index left ≡ true
    → index ≤ i
    → i < index + left
    → (0x20 ≤ get_or bytes i 0) × (get_or bytes i 0 ≤ 0x7e)
unfolding is_printable
is_printable-range bytes index zero i h le lt = absurd (omega arith)
is_printable-range bytes index (suc left) i h le lt = elim position [
  | inl e ↦ subst (λ t. (0x20 ≤ get_or bytes t 0) × (get_or bytes t 0 ≤ 0x7e)) e (ground arith)
  | inr later ↦
      is_printable-range bytes (index + 1) left i (ground arith) (omega arith) (omega arith)
]
  where
    position : (index ≡ i) ⊎ (index < i)
    position = ground arith

-- A line that the display can show: at most 23 printable ASCII characters and a terminating zero.
pub record Printable (text : BoundedText) : Type 0 where
  pub short : text.size ≤ 23
  pub terminated : get_or text.bytes text.size 0 ≡ 0
  pub from_space : (i : ℕ) → i < text.size → 0x20 ≤ get_or text.bytes i 0
  pub to_tilde : (i : ℕ) → i < text.size → get_or text.bytes i 0 ≤ 0x7e

valid_text-Printable : (text : BoundedText) → is_valid_text text ≡ true → Printable text
unfolding is_valid_text
valid_text-Printable text h =
    let printable : is_printable text.bytes 0 text.size ≡ true = ground arith in
    record {
      short = ground arith;
      terminated = ground arith;
      from_space = λ i lt.
          (is_printable-range text.bytes 0 text.size i printable (omega arith) (omega arith)).0;
      to_tilde = λ i lt.
          (is_printable-range text.bytes 0 text.size i printable (omega arith) (omega arith)).1;
    }

abbrev pub no_text : BoundedText
no_text = record { bytes = []; size = 0 }

check_lines-Printable :
    (mask line : ℕ) (lines : List BoundedText) (i : ℕ)
    → is_ok (check_lines mask line lines) ≡ true
    → i < length lines
    → selects mask (line + i) ≡ true
    → Printable (get_or lines i no_text)
unfolding check_lines
check_lines-Printable mask line [] i h lt on = absurd (omega arith)
check_lines-Printable mask line (text ∷ lines) zero h lt on =
    let here : selects mask line ≡ true = subst (λ t. selects mask t ≡ true) (omega arith) on in
    valid_text-Printable text (ground arith)
check_lines-Printable mask line (text ∷ lines) (suc i) h lt on =
    check_lines-Printable mask (line + 1) lines i (ground arith) (omega arith)
      (subst (λ t. selects mask t ≡ true) (omega arith) on)

-- Every line that an accepted display command selects is at most 23 printable ASCII characters
-- with a terminating zero.
pub validate_oled_command-Printable :
    (command : OledCommand) (line : ℕ)
    → is_ok (validate_oled_command command) ≡ true
    → line < length command.lines
    → selects command.update_mask line ≡ true
    → Printable (get_or command.lines line no_text)
unfolding validate_oled_command
validate_oled_command-Printable command line h lt on =
    check_lines-Printable command.update_mask 0 command.lines line (ground arith) lt
      (subst (λ t. selects command.update_mask t ≡ true) (omega arith) on)
