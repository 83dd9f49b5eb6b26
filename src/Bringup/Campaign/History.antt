-- ===== src/Bringup/Campaign/History.antt =====
-- A whole campaign: the calls of the node, in any order, and the verdict at the end.
use mentor_pi_ros.Prelude.{
  ℕ, ◌≡◌, sym, ap, ◌∙◌, Bool, true, false, not, ◌||◌, ◌!=◌, bit_or, List, arith, Bool-cases, inl,
  inr, if◌then◌else◌, ◌^◌,
}
use mentor_pi_ros.Prelude.Bits.{selects}
use mentor_pi_ros.Prelude.Unions.{selects-none, selects-bit_or, selects-pow}
use mentor_pi_ros.Prelude.Int.{ℤ}
use mentor_pi_ros.Bringup.Campaign.Scheduler.{CampaignDueWork, no_work}
use mentor_pi_ros.Bringup.Campaign.State.{Doubles, Core, campaign_failure_bit, schedule_missed}
use mentor_pi_ros.Bringup.Campaign.Polling.{poll_campaign, poll_schedule, check_connection}
use mentor_pi_ros.Bringup.Campaign.Finish.{finish}
use mentor_pi_ros.Bringup.Campaign.Finish.Passed.{finish-Passed}
use mentor_pi_ros.Bringup.Campaign.Latch.{Has}
use mentor_pi_ros.Bringup.Campaign.Trace.{Event, polled, step, run, run-Has}

not_missing : (n m : ℕ) → (n != 0 || m != 0) ≡ false → (n ≡ 0) × (m ≡ 0)
not_missing n m h = ground (arith, h)

abbrev has_missed : CampaignDueWork → Bool
has_missed work = work.missed_command_mask != 0 || work.missed_service_rounds != 0

marked : (m : ℕ) → selects (bit_or m (campaign_failure_bit schedule_missed)) 3 ≡ true
unfolding campaign_failure_bit
marked m = ground (arith, selects-bit_or 3 m (2 ^ 3), selects-pow 3 3)

module _ {F : Type 0} where
  poll_schedule-missed :
      (now : ℤ) (c : Core F)
      → has_missed (poll_schedule now c).1 ≡ true
      → Has 3 (poll_schedule now c).0
  unfolding poll_schedule
  poll_schedule-missed now c h = rw h (marked c.failure_mask)

  abbrev Marks : Core F × CampaignDueWork → Type 0
  Marks result = has_missed result.1 ≡ true → Has 3 result.0

  either-Marks :
      (test : Bool) (d e : Core F × CampaignDueWork)
      → Marks d
      → Marks e
      → Marks (if test then d else e)
  either-Marks true d e p q = p
  either-Marks false d e p q = q

  -- A poll that misses slots records it.
  poll_campaign-missed :
      (now : ℤ) (c : Core F)
      → has_missed (poll_campaign now c).1 ≡ true
      → Has 3 (poll_campaign now c).0
  unfolding poll_campaign
  poll_campaign-missed now c =
      either-Marks (not c.evidence_started) (c, no_work)
        (poll_schedule now (check_connection now c)) (λ h. absurd (ground (arith, h)))
        (poll_schedule-missed now (check_connection now c))

module _ {F : Type 0} (ops : Doubles F) where
  -- A campaign passes only if no failure was recorded at any moment: after any of the calls that
  -- came before the end, no bit of the mask was set.
  pub passed-never_failed :
      (c : Core F) (events later : List (Event F)) (time : ℤ) (k : ℕ)
      → (finish ops time (run ops later (run ops events c))).1.execution_passed ≡ true
      → selects (run ops events c).failure_mask k ≡ false
  passed-never_failed c events later time k h = elim (Bool-cases (selects middle.failure_mask k)) [
    | inl on ↦
        let kept = run-Has ops k later middle on in
        let clean = (finish-Passed ops time (run ops later middle) h).unfailed in
        let off : selects (run ops later middle).failure_mask k ≡ false =
          ap (λ m. selects m k) clean ∙ selects-none k in
        absurd (cc (kept, off))
    | inr off ↦ off
  ]
    where
      middle : Core F
      middle = run ops events c

  -- In a campaign that passes no poll ever missed a command slot or a service round.
  pub passed-never_missed :
      (c : Core F) (events later : List (Event F)) (now time : ℤ)
      → (finish ops time
          (run ops later (step ops (polled now) (run ops events c)))).1.execution_passed
        ≡ true
      → let work = (poll_campaign now (run ops events c)).1 in
        (work.missed_command_mask ≡ 0) × (work.missed_service_rounds ≡ 0)
  unfolding step
  passed-never_missed c events later now time h =
      let middle = run ops events c in
      let work = (poll_campaign now middle).1 in
      elim (Bool-cases (has_missed work)) [
        | inl missed ↦
            let kept =
              run-Has ops 3 later (poll_campaign now middle).0
                (poll_campaign-missed now middle missed) in
            let clean =
              (finish-Passed ops time (run ops later (poll_campaign now middle).0) h).unfailed in
            let off : Has 3 (run ops later (poll_campaign now middle).0) → true ≡ false =
              λ on. sym on ∙ ap (λ m. selects m 3) clean ∙ selects-none 3 in
            absurd (cc (off kept))
        | inr none ↦ not_missing work.missed_command_mask work.missed_service_rounds none
      ]
