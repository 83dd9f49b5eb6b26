-- ===== src/Bringup/Campaign/Scheduler/Tests.antt =====
-- A campaign polled late once: 20 slots of the first command fall due and 4 polls are made.
use mentor_pi_ros.Prelude.{◌+◌, ◌≡◌, refl, true, List, [], ◌∷◌, arith, replicate}
use mentor_pi_ros.Prelude.Int.{ℤ, pos, ◌-ℤ◌}
use mentor_pi_ros.Bringup.Campaign.Profile.{CampaignProfile, load_500}
use mentor_pi_ros.Bringup.Campaign.Scheduler.{
  Scheduler, start, scheduler, rate_slots_at_or_before, saturating_add,
}
use mentor_pi_ros.Bringup.Campaign.Scheduler.Conservation.{
  slots_of, due_at, most_due, poll_all, publications, poll_all-conserves_slots,
}

abbrev profile : CampaignProfile
profile = record {
  mode = load_500;
  canonical_duration_ns = pos 3_600_000_000_000;
  command_rates = replicate 7 (record { numerator = 10; denominator_seconds = 1 });
  service_round_period_ns = pos 60_000_000_000;
  expected_cycles = 0;
  continuous_session_required = true;
}

abbrev hour : ℤ
hour = pos 3_600_000_000_000

abbrev begun : Scheduler
begun = (start (scheduler profile hour) (pos 0)).1

abbrev times : List ℤ
times = pos 0 ∷ pos 100_000_000 ∷ pos 150_000_000 ∷ pos 1_800_000_000 ∷ pos 1_900_000_000 ∷ []

poll_all-conserves_slots_example :
    publications 0 (poll_all begun times).1 + (slots_of (poll_all begun times).0 0).skipped
    ≡ most_due begun 0 times
poll_all-conserves_slots_example =
    poll_all-conserves_slots profile hour (pos 0) 0 times refl (omega arith)

twenty_slots : most_due begun 0 times ≡ 20
unfolding most_due due_at rate_slots_at_or_before saturating_add start ◌-ℤ◌
twenty_slots = refl
