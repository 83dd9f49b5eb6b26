-- ===== src/Bringup/Campaign/Scheduler/Masks.antt =====
-- CampaignScheduler::Poll: what one pass of the loop over the commands does to each of them.
use mentor_pi_ros.Prelude.{
  ℕ, zero, suc, ◌+◌, ◌≤◌, ◌<◌, ◌≡◌, refl, Bool, true, false, ◌||◌, List, [], ◌∷◌, arith, ltb, ◌==◌,
  if◌then◌else◌, get_or, length, bit_or,
}
use mentor_pi_ros.Prelude.Bits.{selects}
use mentor_pi_ros.Prelude.Unions.{selects-bit_or, selects-pow, selects-none}
use mentor_pi_ros.Prelude.Int.{ℤ}
use mentor_pi_ros.Bringup.Campaign.Profile.{Rate}
use mentor_pi_ros.Bringup.Campaign.Scheduler.{
  rate_slots_at_or_before, CampaignDueWork, Slots, no_slots, newly_due, account, bit_if, mark_due,
  poll_commands,
}

abbrev pub no_rate : Rate
no_rate = record { numerator = 0; denominator_seconds = 1 }

selects-bit_if :
    (test : Bool) (index command : ℕ)
    → index < 8
    → selects (bit_if test index) command ≡ (if test then index == command else false)
selects-bit_if true zero command lt = selects-pow 0 command
selects-bit_if true (suc zero) command lt = selects-pow 1 command
selects-bit_if true (suc (suc zero)) command lt = selects-pow 2 command
selects-bit_if true (suc (suc (suc zero))) command lt = selects-pow 3 command
selects-bit_if true (suc (suc (suc (suc zero)))) command lt = selects-pow 4 command
selects-bit_if true (suc (suc (suc (suc (suc zero))))) command lt = selects-pow 5 command
selects-bit_if true (suc (suc (suc (suc (suc (suc zero)))))) command lt = selects-pow 6 command
selects-bit_if true (suc (suc (suc (suc (suc (suc (suc zero))))))) command lt =
    selects-pow 7 command
selects-bit_if true (suc (suc (suc (suc (suc (suc (suc (suc index)))))))) command lt =
    absurd (omega arith)
selects-bit_if false index command lt = selects-none command

-- A mask with the bit of `index` added when the test holds.
selects-added :
    (mask : ℕ) (test : Bool) (index command : ℕ)
    → index < 8
    → selects (bit_or mask (bit_if test index)) command
      ≡ (selects mask command || (if test then index == command else false))
selects-added mask test index command lt =
    rw (selects-bit_or command mask (bit_if test index), selects-bit_if test index command lt) refl

-- The counters of the command at position `j` of the loop.
pub poll_commands-slots :
    (elapsed : ℤ) (index : ℕ) (rates : List Rate) (commands : List Slots) (work : CampaignDueWork)
    (j : ℕ)
    → length rates ≡ length commands
    → j < length rates
    → get_or (poll_commands elapsed index rates commands work).0 j no_slots
      ≡ account
          (rate_slots_at_or_before elapsed (get_or rates j no_rate))
          (get_or commands j no_slots)
unfolding poll_commands
poll_commands-slots elapsed index [] commands work j len lt = absurd (omega arith)
poll_commands-slots elapsed index (r ∷ rates) [] work j len lt = absurd (omega arith)
poll_commands-slots elapsed index (r ∷ rates) (c ∷ commands) work zero len lt = refl
poll_commands-slots elapsed index (r ∷ rates) (c ∷ commands) work (suc j) len lt =
    poll_commands-slots elapsed (index + 1) rates commands _ j (omega arith) (omega arith)

pub length-poll_commands :
    (elapsed : ℤ) (index : ℕ) (rates : List Rate) (commands : List Slots) (work : CampaignDueWork)
    → length (poll_commands elapsed index rates commands work).0 ≡ length commands
unfolding poll_commands
length-poll_commands elapsed index [] commands work = refl
length-poll_commands elapsed index (r ∷ rates) [] work = refl
length-poll_commands elapsed index (r ∷ rates) (c ∷ commands) work = omega (
  arith,
  length-poll_commands elapsed (index + 1) rates commands
      (mark_due index (rate_slots_at_or_before elapsed r) c work),
)

-- The bits below `index` are left as they were.
poll_commands-below :
    (elapsed : ℤ) (index : ℕ) (rates : List Rate) (commands : List Slots) (work : CampaignDueWork)
    (command : ℕ)
    → index + length rates ≤ 8
    → command < index
    → let polled = (poll_commands elapsed index rates commands work).1 in
      (selects polled.command_mask command ≡ selects work.command_mask command)
      × (selects polled.missed_command_mask command ≡ selects work.missed_command_mask command)
unfolding poll_commands mark_due
poll_commands-below elapsed index [] commands work command fits lt = (refl, refl)
poll_commands-below elapsed index (r ∷ rates) [] work command fits lt = (refl, refl)
poll_commands-below elapsed index (r ∷ rates) (c ∷ commands) work command fits lt =
    let due = rate_slots_at_or_before elapsed r in
    ground (
      arith,
      poll_commands-below elapsed (index + 1) rates commands (mark_due index due c work) command,
      selects-added work.command_mask (ltb c.accounted due) index command,
      selects-added work.missed_command_mask (ltb 1 (newly_due due c)) index command,
    )

-- The bits of the command at position `j`: it is to be published exactly when a slot has fallen
-- due, and has missed slots exactly when more than one has.
pub poll_commands-masks :
    (elapsed : ℤ) (index : ℕ) (rates : List Rate) (commands : List Slots) (work : CampaignDueWork)
    (j : ℕ)
    → length rates ≡ length commands
    → index + length rates ≤ 8
    → j < length rates
    → let due = rate_slots_at_or_before elapsed (get_or rates j no_rate) in
      let slots = get_or commands j no_slots in
      let polled = (poll_commands elapsed index rates commands work).1 in
      (selects polled.command_mask (index + j)
        ≡ (selects work.command_mask (index + j) || ltb slots.accounted due))
      × (selects polled.missed_command_mask (index + j)
          ≡ (selects work.missed_command_mask (index + j) || ltb 1 (newly_due due slots)))
unfolding poll_commands mark_due
poll_commands-masks elapsed index [] commands work j len fits lt = absurd (omega arith)
poll_commands-masks elapsed index (r ∷ rates) [] work j len fits lt = absurd (omega arith)
poll_commands-masks elapsed index (r ∷ rates) (c ∷ commands) work zero len fits lt =
    let due = rate_slots_at_or_before elapsed r in
    ground (
      arith,
      poll_commands-below elapsed (index + 1) rates commands (mark_due index due c work) index,
      selects-added work.command_mask (ltb c.accounted due) index index,
      selects-added work.missed_command_mask (ltb 1 (newly_due due c)) index index,
    )
poll_commands-masks elapsed index (r ∷ rates) (c ∷ commands) work (suc j) len fits lt =
    let due = rate_slots_at_or_before elapsed r in
    ground (
      arith,
      poll_commands-masks elapsed (index + 1) rates commands (mark_due index due c work) j,
      selects-added work.command_mask (ltb c.accounted due) index (index + suc j),
      selects-added work.missed_command_mask (ltb 1 (newly_due due c)) index (index + suc j),
    )
