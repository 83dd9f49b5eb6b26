-- ===== src/Domain/Commanding/Merging.antt =====
-- command_mailboxes.cc: an update is not lost when its publication is replaced before it is read.
use mentor_pi_ros.Prelude.{
  ℕ, zero, suc, ◌+◌, ◌<◌, ◌≡◌, refl, ap, ◌∙◌, sym, Bool, true, false, ◌&&◌, some, List, [], ◌∷◌,
  arith, get_or, length, if◌then◌else◌, bit_and, ◌==◌, Bool-cases, inl, inr,
}
use mentor_pi_ros.Prelude.Bits.{selects}
use mentor_pi_ros.Domain.Result.{is_ok}
use mentor_pi_ros.Domain.Commands.{PwmServoCommand}
use mentor_pi_ros.Domain.Validation.{validate_pwm_servo_command}
use mentor_pi_ros.Domain.Mailbox.{
  LatestMailbox, at_load, publish_whole, consume_whole, write_value, publish_value, load_state,
  exchange_state, copy_value,
}
use mentor_pi_ros.Domain.Mailbox.Refine.{index-Packed}
use mentor_pi_ros.Domain.Commanding.{
  CommandMailbox, PwmCommandSnapshot, merge_selected, publish_shadow, publish_pwm,
}

module _ {A : Type 0} where
  merge_selected-get :
      (mask index : ℕ) (news olds : List A) (i : ℕ) (d : A)
      → length news ≡ length olds
      → i < length olds
      → get_or (merge_selected mask index news olds) i d
        ≡ (if selects mask (index + i) then get_or news i d else get_or olds i d)
  unfolding merge_selected
  merge_selected-get mask index news [] i d len lt = absurd (omega (arith, lt))
  merge_selected-get mask index [] (old ∷ olds) i d len lt = absurd (omega (arith, len))
  merge_selected-get mask index (new ∷ news) (old ∷ olds) zero d len lt =
      ap (λ t. if selects mask t then new else old) (omega arith)
  merge_selected-get mask index (new ∷ news) (old ∷ olds) (suc i) d len lt =
      merge_selected-get mask (index + 1) news olds i d (omega (arith, len)) (omega (arith, lt))
      ∙ ap (λ t. if selects mask t then get_or news i d else get_or olds i d) (omega arith)

  length-merge_selected :
      (mask index : ℕ) (news olds : List A)
      → length (merge_selected mask index news olds) ≡ length olds
  unfolding merge_selected
  length-merge_selected mask index news [] = refl
  length-merge_selected mask index [] (old ∷ olds) = refl
  length-merge_selected mask index (new ∷ news) (old ∷ olds) =
      ap suc (length-merge_selected mask (index + 1) news olds)

  -- A mailbox between two calls, with no call of the consumer in progress.
  pub record Quiet (m : LatestMailbox A) : Type 0 where
    pub idle_producer : m.value_written ≡ false
    pub idle_consumer : m.consumer ≡ at_load
    pub producer_small : m.producer_index < 3
    pub middle_small : bit_and m.middle_state 3 < 3

  publish-Quiet : (value : A) (m : LatestMailbox A) → Quiet m → Quiet (publish_whole value m).0
  unfolding publish_whole write_value publish_value
  publish-Quiet value m h =
      let packed = index-Packed m.producer_index h.producer_small in
      ground (arith, packed.marked_index)

  publish-consume :
      (value : A) (m : LatestMailbox A)
      → Quiet m
      → (consume_whole (publish_whole value m).0).1 ≡ some value
  unfolding publish_whole consume_whole write_value publish_value load_state exchange_state
      copy_value
  publish-consume value m h =
      let packed = index-Packed m.producer_index h.producer_small in
      ground (arith, packed.marked_index, packed.marked_unread)

-- The pulse of a channel after some commands: that of the last accepted one that selects it.
unfoldable pub latest_pulse : List PwmServoCommand → ℕ → ℕ → ℕ
latest_pulse [] channel before = before
latest_pulse (command ∷ commands) channel before = latest_pulse commands channel (
    if is_ok (validate_pwm_servo_command command) && selects command.update_mask channel
    then get_or command.pulse_width_us channel 0
    else before)

unfoldable pub publish_all :
    List PwmServoCommand → CommandMailbox PwmCommandSnapshot → CommandMailbox PwmCommandSnapshot
publish_all [] m = m
publish_all (command ∷ commands) m = publish_all commands (publish_pwm command m).0

unfoldable pub four_pulses : List PwmServoCommand → Bool
four_pulses [] = true
four_pulses (command ∷ commands) = length command.pulse_width_us == 4 && four_pulses commands

pub record Ready (m : CommandMailbox PwmCommandSnapshot) : Type 0 where
  pub quiet : Quiet m.mailbox
  pub four : length m.shadow.pulse_width_us ≡ 4

publish_pwm-Ready :
    (command : PwmServoCommand) (m : CommandMailbox PwmCommandSnapshot)
    → Ready m
    → Ready (publish_pwm command m).0
unfolding publish_pwm publish_shadow
publish_pwm-Ready command m h = elim (Bool-cases (is_ok (validate_pwm_servo_command command))) [
  | inl accepted ↦ record {
    quiet = rw accepted (publish-Quiet _ m.mailbox h.quiet);
    four = rw accepted (
        length-merge_selected command.update_mask 0 command.pulse_width_us m.shadow.pulse_width_us
        ∙ h.four);
  }
  | inr refused ↦ record { quiet = rw refused h.quiet; four = rw refused h.four }
]

publish_pwm-pulse :
    (command : PwmServoCommand) (m : CommandMailbox PwmCommandSnapshot) (channel : ℕ)
    → length command.pulse_width_us ≡ 4
    → Ready m
    → channel < 4
    → get_or (publish_pwm command m).0.shadow.pulse_width_us channel 0 ≡ (
        if is_ok (validate_pwm_servo_command command) && selects command.update_mask channel
        then get_or command.pulse_width_us channel 0
        else get_or m.shadow.pulse_width_us channel 0)
unfolding publish_pwm publish_shadow
publish_pwm-pulse command m channel len h lt =
    elim (Bool-cases (is_ok (validate_pwm_servo_command command))) [
      | inl accepted ↦ rw accepted (
          merge_selected-get command.update_mask 0 command.pulse_width_us m.shadow.pulse_width_us
            channel 0 (len ∙ sym h.four) (omega (arith, lt, h.four))
          ∙ ap
              (λ t.
                if selects command.update_mask t
                then get_or command.pulse_width_us channel 0
                else get_or m.shadow.pulse_width_us channel 0)
              (omega arith))
      | inr refused ↦ rw refused refl
    ]

publish_all-Ready :
    (commands : List PwmServoCommand) (m : CommandMailbox PwmCommandSnapshot)
    → Ready m
    → Ready (publish_all commands m)
unfolding publish_all
publish_all-Ready [] m h = h
publish_all-Ready (command ∷ commands) m h =
    publish_all-Ready commands _ (publish_pwm-Ready command m h)

publish_all-pulse :
    (commands : List PwmServoCommand) (m : CommandMailbox PwmCommandSnapshot) (channel : ℕ)
    → four_pulses commands ≡ true
    → Ready m
    → channel < 4
    → get_or (publish_all commands m).shadow.pulse_width_us channel 0
      ≡ latest_pulse commands channel (get_or m.shadow.pulse_width_us channel 0)
unfolding publish_all latest_pulse four_pulses
publish_all-pulse [] m channel four h lt = refl
publish_all-pulse (command ∷ commands) m channel four h lt =
    publish_all-pulse commands _ channel (ground arith) (publish_pwm-Ready command m h) lt
    ∙ ap (latest_pulse commands channel) (publish_pwm-pulse command m channel (ground arith) h lt)

publish_pwm-consume :
    (command : PwmServoCommand) (m : CommandMailbox PwmCommandSnapshot)
    → Ready m
    → is_ok (validate_pwm_servo_command command) ≡ true
    → (consume_whole (publish_pwm command m).0.mailbox).1 ≡ some (publish_pwm command m).0.shadow
unfolding publish_pwm publish_shadow
publish_pwm-consume command m h accepted = rw accepted (publish-consume _ m.mailbox h.quiet)

-- Commands for the PWM servos are published one after the other, the last one accepted, and then
-- the consumer reads once. It obtains one snapshot, and in it each channel has the pulse of the
-- last accepted command that selects the channel, though the publications before it were replaced
-- unread.
pub consumed_pwm_is_merged :
    (commands : List PwmServoCommand) (last : PwmServoCommand)
    (m : CommandMailbox PwmCommandSnapshot) (channel : ℕ)
    → Ready m
    → four_pulses commands ≡ true
    → length last.pulse_width_us ≡ 4
    → is_ok (validate_pwm_servo_command last) ≡ true
    → channel < 4
    → (let final = (publish_pwm last (publish_all commands m)).0 in
        ((consume_whole final.mailbox).1 ≡ some final.shadow)
        × (get_or final.shadow.pulse_width_us channel 0 ≡ (
            if selects last.update_mask channel
            then get_or last.pulse_width_us channel 0
            else latest_pulse commands channel (get_or m.shadow.pulse_width_us channel 0))))
consumed_pwm_is_merged commands last m channel h four len accepted lt =
    let ready = publish_all-Ready commands m h in
    let before = publish_all-pulse commands m channel four h lt in
    (
      publish_pwm-consume last _ ready accepted,
      publish_pwm-pulse last _ channel len ready lt ∙ rw (accepted, before) refl,
    )
