-- ===== src/Bringup/Campaign/Scheduler/Conservation.antt =====
-- CampaignScheduler::Poll over a sequence of polls.
use mentor_pi_ros.Prelude.{
  ℕ, ◌+◌, ◌≤◌, ◌<◌, max, ◌≡◌, refl, ap, ◌∙◌, Bool, true, false, not, ◌&&◌, List, [], ◌∷◌, arith,
  ltb, if◌then◌else◌, get_or, length, u64_max, Bool-cases, inl, inr, sym, replicate, zero, suc,
}
use mentor_pi_ros.Prelude.Bits.{selects}
use mentor_pi_ros.Prelude.Unions.{selects-none}
use mentor_pi_ros.Prelude.Int.{ℤ, is_positive, ltb_ℤ, leb_ℤ, ◌-ℤ◌}
use mentor_pi_ros.Bringup.Campaign.Profile.{command_count, CampaignProfile}
use mentor_pi_ros.Bringup.Campaign.Scheduler.{
  saturating_add, rate_slots_at_or_before, CampaignDueWork, no_work, Slots, no_slots, Scheduler,
  newly_due, account, poll_commands, poll, scheduler, start,
}
use mentor_pi_ros.Bringup.Campaign.Scheduler.Masks.{
  no_rate, poll_commands-slots, length-poll_commands, poll_commands-masks,
}

abbrev pub slots_of : Scheduler → ℕ → Slots
slots_of s command = get_or s.commands command no_slots

-- A poll that is neither before the start nor at or after the end.
abbrev pub in_window : Scheduler → ℤ → Bool
in_window s now =
    s.started
    && not (ltb_ℤ now s.start_time_ns)
    && not (is_positive s.duration_ns && leb_ℤ s.duration_ns (now -ℤ s.start_time_ns))

-- The slots of a command that lie at or before a poll.
unfoldable pub due_at : Scheduler → ℕ → ℤ → ℕ
due_at s command now =
    if in_window s now
    then rate_slots_at_or_before (now -ℤ s.start_time_ns)
        (get_or s.profile.command_rates command no_rate)
    else 0

pub rate_slots-le : (elapsed : ℤ) (s : Scheduler) (command : ℕ) → due_at s command elapsed ≤ u64_max
unfolding due_at rate_slots_at_or_before saturating_add
rate_slots-le elapsed s command = ground arith

-- What a poll does to one command.
pub record Polled (s : Scheduler) (command : ℕ) (now : ℤ) : Type 0 where
  pub slots : slots_of (poll s now).0 command ≡ account (due_at s command now) (slots_of s command)
  pub published :
      selects (poll s now).1.command_mask command
      ≡ ltb (slots_of s command).accounted (due_at s command now)
  pub missed :
      selects (poll s now).1.missed_command_mask command
      ≡ ltb 1 (newly_due (due_at s command now) (slots_of s command))
  pub same_due : (later : ℤ) → due_at (poll s now).0 command later ≡ due_at s command later
  pub same_rates : (poll s now).0.profile ≡ s.profile
  pub same_length : length (poll s now).0.commands ≡ length s.commands

poll-outside : (s : Scheduler) (now : ℤ) → in_window s now ≡ false → (poll s now).0 ≡ s
unfolding poll
poll-outside s now off = ground (arith, off)

poll-outside_masks :
    (s : Scheduler) (now : ℤ)
    → in_window s now ≡ false
    → ((poll s now).1.command_mask ≡ 0) × ((poll s now).1.missed_command_mask ≡ 0)
unfolding poll
poll-outside_masks s now off = ground (arith, off)

-- The result of the loop over the commands.
abbrev loop : Scheduler → ℤ → List Slots × CampaignDueWork
loop s now = poll_commands (now -ℤ s.start_time_ns) 0 s.profile.command_rates s.commands no_work

poll-inside :
    (s : Scheduler) (now : ℤ)
    → in_window s now ≡ true
    → ((poll s now).0.commands ≡ (loop s now).0)
      × ((poll s now).1.command_mask ≡ (loop s now).1.command_mask)
      × ((poll s now).1.missed_command_mask ≡ (loop s now).1.missed_command_mask)
unfolding poll
poll-inside s now on = ground (arith, on)

poll-same :
    (s : Scheduler) (now : ℤ)
    → ((poll s now).0.profile ≡ s.profile)
      × ((poll s now).0.start_time_ns ≡ s.start_time_ns)
      × ((poll s now).0.duration_ns ≡ s.duration_ns)
      × ((poll s now).0.started ≡ s.started)
unfolding poll
poll-same s now = ground arith

poll-same_due :
    (s : Scheduler) (now : ℤ) (command : ℕ) (later : ℤ)
    → due_at (poll s now).0 command later ≡ due_at s command later
unfolding due_at
poll-same_due s now command later =
    let same = poll-same s now in rw (same.0, same.1, same.2, same.3) refl

account_none : (slots : Slots) → account 0 slots ≡ slots
unfolding account
account_none slots = ground arith

poll-Polled :
    (s : Scheduler) (command : ℕ) (now : ℤ)
    → length s.profile.command_rates ≡ command_count
    → length s.commands ≡ command_count
    → command < command_count
    → Polled s command now
unfolding due_at
poll-Polled s command now rates commands lt = elim (Bool-cases (in_window s now)) [
  | inl on ↦
      let same = poll-inside s now on in
      let elapsed = now -ℤ s.start_time_ns in
      let first : command ≡ 0 + command = omega arith in
      let masks =
        poll_commands-masks elapsed 0 s.profile.command_rates s.commands no_work command
          (rates ∙ sym commands) (omega arith) (omega arith) in
      record {
        slots =
            rw (on, same.0)
              (poll_commands-slots elapsed 0 s.profile.command_rates s.commands no_work command
                (rates ∙ sym commands) (omega arith));
        published =
            rw (on, same.1)
              (ap (λ t. selects (loop s now).1.command_mask t) first
                ∙ masks.0
                ∙ rw (selects-none (0 + command)) refl);
        missed =
            rw (on, same.2)
              (ap (λ t. selects (loop s now).1.missed_command_mask t) first
                ∙ masks.1
                ∙ rw (selects-none (0 + command)) refl);
        same_due = poll-same_due s now command;
        same_rates = (poll-same s now).0;
        same_length =
            rw (same.0) (length-poll_commands elapsed 0 s.profile.command_rates s.commands no_work);
      }
  | inr off ↦
      let masks = poll-outside_masks s now off in
      record {
        slots = rw (off, poll-outside s now off) (sym (account_none (slots_of s command)));
        published = rw (off, masks.0) (selects-none command ∙ ground arith);
        missed = rw (off, masks.1) (selects-none command ∙ ground arith);
        same_due = poll-same_due s now command;
        same_rates = (poll-same s now).0;
        same_length = rw (poll-outside s now off) refl;
      }
]

-- The polls of a campaign, in order, with the work that each reports.
unfoldable pub poll_all : Scheduler → List ℤ → Scheduler × List CampaignDueWork
poll_all s [] = (s, [])
poll_all s (now ∷ later) =
    let rest = poll_all (poll s now).0 later in (rest.0, (poll s now).1 ∷ rest.1)

-- How many of the polls ask for a publication of the command.
unfoldable pub publications : ℕ → List CampaignDueWork → ℕ
publications command [] = 0
publications command (work ∷ works) =
    (if selects work.command_mask command then 1 else 0) + publications command works

-- The slots due at the poll at which most were.
unfoldable pub most_due : Scheduler → ℕ → List ℤ → ℕ
unfolding due_at
most_due s command [] = 0
most_due s command (now ∷ later) = max (due_at s command now) (most_due s command later)

most_due-poll :
    (s : Scheduler) (now : ℤ) (command : ℕ) (later : List ℤ)
    → most_due (poll s now).0 command later ≡ most_due s command later
unfolding most_due
most_due-poll s now command [] = refl
most_due-poll s now command (next ∷ later) =
    rw (poll-same_due s now command next, most_due-poll s now command later) refl

account-balance :
    (due : ℕ) (slots : Slots)
    → due ≤ u64_max
    → slots.skipped ≤ slots.accounted
    → ((account due slots).skipped + (if ltb slots.accounted due then 1 else 0) + slots.accounted
        ≡ (account due slots).accounted + slots.skipped)
      × ((account due slots).accounted ≡ max slots.accounted due)
      × ((account due slots).skipped ≤ (account due slots).accounted)
unfolding account saturating_add
account-balance due slots fits le = ground arith

poll_all-balance :
    (s : Scheduler) (command : ℕ) (times : List ℤ)
    → length s.profile.command_rates ≡ command_count
    → length s.commands ≡ command_count
    → command < command_count
    → (slots_of s command).skipped ≤ (slots_of s command).accounted
    → let run = poll_all s times in
      ((slots_of run.0 command).skipped
          + publications command run.1
          + (slots_of s command).accounted
        ≡ (slots_of run.0 command).accounted + (slots_of s command).skipped)
      × ((slots_of run.0 command).accounted
          ≡ max (slots_of s command).accounted (most_due s command times))
unfolding poll_all publications most_due
poll_all-balance s command [] rates commands lt le = ground arith
poll_all-balance s command (now ∷ later) rates commands lt le =
    let here = poll-Polled s command now rates commands lt in
    let due = due_at s command now in
    let step = account-balance due (slots_of s command) (rate_slots-le now s command) le in
    let rest =
      poll_all-balance (poll s now).0 command later
        (ap (λ p. length (CampaignProfile.command_rates p)) here.same_rates ∙ rates)
        (here.same_length ∙ commands) lt (rw here.slots (step.2)) in
    ground (arith, here.slots, here.published, step, rest, most_due-poll s now command later)

scheduler-empty :
    (profile : CampaignProfile) (duration : ℤ) (command : ℕ)
    → slots_of (scheduler profile duration) command ≡ no_slots
scheduler-empty profile duration command = none_of command 7
  where
    none_of : (i n : ℕ) → get_or (replicate n no_slots) i no_slots ≡ no_slots
    none_of i zero = refl
    none_of zero (suc n) = refl
    none_of (suc i) (suc n) = none_of i n

-- After any sequence of polls of a campaign that was started once, in whatever order their times
-- come, the polls that published a command and the slots counted as skipped add up to the slots
-- that had fallen due: no slot is published twice, and none is lost without being counted.
pub poll_all-conserves_slots :
    (profile : CampaignProfile) (duration begin : ℤ) (command : ℕ) (times : List ℤ)
    → length profile.command_rates ≡ command_count
    → command < command_count
    → let started = (start (scheduler profile duration) begin).1 in
      let run = poll_all started times in
      publications command run.1 + (slots_of run.0 command).skipped ≡ most_due started command times
unfolding start
poll_all-conserves_slots profile duration begin command times rates lt =
    let started = (start (scheduler profile duration) begin).1 in
    let same : (started.profile ≡ profile)
        × (started.commands ≡ (scheduler profile duration).commands) =
      ground arith in
    let empty : slots_of started command ≡ no_slots =
      rw (same.1) (scheduler-empty profile duration command) in
    let sums =
      poll_all-balance started command times
        (ap (λ p. length (CampaignProfile.command_rates p)) same.0 ∙ rates)
        (ap (λ c. length c) same.1) lt (rw empty (omega arith)) in
    ground (arith, sums, empty)
