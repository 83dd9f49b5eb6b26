-- ===== src/Bringup/Campaign/Scheduler.antt =====
-- `CampaignScheduler` (qualification_campaign_core.cc): the commands and service rounds that fall
-- due on a fixed grid of slots.
pub mod Masks
pub mod Conservation
pub mod Tests
use mentor_pi_ros.Prelude.{
  ℕ, zero, suc, ◌+◌, ◌-◌, ◌*◌, ◌/◌, ◌%◌, ◌^◌, bit_or, Bool, true, false, not, ◌&&◌, ◌||◌, List, [],
  ◌∷◌, ltb, leb, ◌==◌, if◌then◌else◌, u64_max, replicate,
}
use mentor_pi_ros.Prelude.Int.{ℤ, pos, pos_part, is_negative, is_positive, ltb_ℤ, leb_ℤ, ◌-ℤ◌}
use mentor_pi_ros.Bringup.Campaign.Profile.{
  command_count, nanoseconds_per_second, Rate, CampaignProfile,
}

unfoldable pub saturating_add : ℕ → ℕ → ℕ
saturating_add left right = if ltb (u64_max - left) right then u64_max else left + right

abbrev pub denominator_ns : Rate → ℕ
denominator_ns rate = rate.denominator_seconds * nanoseconds_per_second

-- The sum and the products fit in 64 bits for the rates of the profiles; the wrap is written out.
unfoldable pub rate_slots_at_or_before : ℤ → Rate → ℕ
unfolding saturating_add
rate_slots_at_or_before elapsed_ns rate =
    let elapsed = pos_part elapsed_ns in
    let whole_blocks = elapsed / denominator_ns rate in
    let remainder = elapsed % denominator_ns rate in
    let completed_slots =
      (whole_blocks * rate.numerator % 2 ^ 64
        + remainder * rate.numerator % 2 ^ 64 / denominator_ns rate)
      % 2 ^ 64 in
    if is_negative elapsed_ns || rate.numerator == 0 || rate.denominator_seconds == 0
    then 0
    else saturating_add completed_slots 1

unfoldable pub service_slots_at_or_before : ℤ → ℤ → ℕ
service_slots_at_or_before elapsed_ns period_ns =
    if is_negative elapsed_ns || not (is_positive period_ns)
    then 0
    else pos_part elapsed_ns / pos_part period_ns + 1

unfoldable pub scheduled_slot_count : ℤ → Rate → ℕ
unfolding rate_slots_at_or_before
scheduled_slot_count duration_ns rate =
    if not (is_positive duration_ns) || rate.numerator == 0 || rate.denominator_seconds == 0
    then 0
    else rate_slots_at_or_before (duration_ns -ℤ pos 1) rate

pub record CampaignDueWork : Type 0 where
  pub command_mask : ℕ
  pub service_round : Bool
  pub missed_command_mask : ℕ
  pub missed_service_rounds : ℕ
  pub duration_complete : Bool

abbrev pub no_work : CampaignDueWork
no_work = record {
  command_mask = 0;
  service_round = false;
  missed_command_mask = 0;
  missed_service_rounds = 0;
  duration_complete = false;
}

-- The two counters of a command: an element of `accounted_command_slots_` and of
-- `skipped_commands_`.
pub record Slots : Type 0 where
  pub accounted : ℕ
  pub skipped : ℕ

pub record Scheduler : Type 0 where
  pub profile : CampaignProfile
  pub start_time_ns : ℤ
  pub duration_ns : ℤ
  pub commands : List Slots
  pub service : Slots
  pub started : Bool

abbrev pub no_slots : Slots
no_slots = record { accounted = 0; skipped = 0 }

abbrev pub scheduler : CampaignProfile → ℤ → Scheduler
scheduler profile duration_ns = record {
  profile = profile;
  start_time_ns = pos 0;
  duration_ns = duration_ns;
  commands = replicate command_count no_slots;
  service = no_slots;
  started = false;
}

unfoldable pub start : Scheduler → ℤ → Bool × Scheduler
start s start_time_ns =
    if s.started
      || is_negative start_time_ns
      || is_negative s.duration_ns
      || not (is_positive s.profile.service_round_period_ns)
    then (false, s)
    else (true, record s { start_time_ns = start_time_ns; started = true })

-- The slots of one counter that have fallen due since it was last accounted.
abbrev pub newly_due : ℕ → Slots → ℕ
newly_due due slots = due - slots.accounted

unfoldable pub account : ℕ → Slots → Slots
unfolding saturating_add
account due slots = if leb due slots.accounted then slots else record {
  accounted = due;
  skipped =
      if ltb 1 (newly_due due slots)
      then saturating_add slots.skipped (newly_due due slots - 1)
      else slots.skipped;
}

-- `CommandBit(index)` when the test holds.
abbrev pub bit_if : Bool → ℕ → ℕ
bit_if test index = if test then 2 ^ index % 2 ^ 8 else 0

-- The bits of a command that is due, and of one that has missed slots.
unfoldable pub mark_due : ℕ → ℕ → Slots → CampaignDueWork → CampaignDueWork
mark_due index due slots work = record work {
  command_mask = bit_or work.command_mask (bit_if (ltb slots.accounted due) index);
  missed_command_mask =
      bit_or work.missed_command_mask (bit_if (ltb 1 (newly_due due slots)) index);
}

-- The loop over the commands, from `index` on: their counters and the two masks.
unfoldable pub poll_commands :
    ℤ → ℕ → List Rate → List Slots → CampaignDueWork → List Slots × CampaignDueWork
unfolding rate_slots_at_or_before account mark_due
poll_commands elapsed_ns index [] commands work = (commands, work)
poll_commands elapsed_ns index (rate ∷ rates) [] work = ([], work)
poll_commands elapsed_ns index (rate ∷ rates) (slots ∷ commands) work =
    let due = rate_slots_at_or_before elapsed_ns rate in
    let rest =
      poll_commands elapsed_ns (index + 1) rates commands (mark_due index due slots work) in
    (account due slots ∷ rest.0, rest.1)

unfoldable pub poll : Scheduler → ℤ → Scheduler × CampaignDueWork
unfolding poll_commands service_slots_at_or_before account
poll s now_ns =
    let elapsed_ns = now_ns -ℤ s.start_time_ns in
    let polled = poll_commands elapsed_ns 0 s.profile.command_rates s.commands no_work in
    let service_due = service_slots_at_or_before elapsed_ns s.profile.service_round_period_ns in
    if not s.started || ltb_ℤ now_ns s.start_time_ns
    then (s, no_work)
    else if is_positive s.duration_ns && leb_ℤ s.duration_ns elapsed_ns
    then (s, record no_work { duration_complete = true })
    else (
      record s { commands = polled.0; service = account service_due s.service },
      record polled.1 {
        service_round = ltb s.service.accounted service_due;
        missed_service_rounds = newly_due service_due s.service - 1;
      },
    )
