-- ===== src/Bringup/Campaign/Finish/Clean.antt =====
-- A failure mask that is still empty after a check shows that the check found nothing.
use mentor_pi_ros.Prelude.{
  ℕ, zero, suc, ◌+◌, ◌<◌, ◌≡◌, refl, ap, ◌∙◌, Bool, true, false, bit_or, arith,
}
use mentor_pi_ros.Prelude.Bits.{pow-pos}
use mentor_pi_ros.Prelude.Unions.{bit_or-eq_zero}
use mentor_pi_ros.Bringup.Campaign.State.{
  Core, CampaignFailure, failure_number, campaign_failure_bit, fail_if,
}
use mentor_pi_ros.Bringup.Campaign.Finish.{bit_when, mark_all}

pub bit-pos : (failure : CampaignFailure) → 0 < campaign_failure_bit failure
unfolding campaign_failure_bit
bit-pos failure = pow-pos (failure_number failure)

pub bit_when-clean :
    (test : Bool) (failure : CampaignFailure) → bit_when test failure ≡ 0 → test ≡ false
bit_when-clean true failure e = absurd (omega (arith, bit-pos failure))
bit_when-clean false failure e = refl

module _ {F : Type 0} where
  pub fail_if-clean :
      (test : Bool) (failure : CampaignFailure) (c : Core F)
      → (fail_if test failure c).failure_mask ≡ 0
      → (test ≡ false) × (c.failure_mask ≡ 0)
  fail_if-clean true failure c e = absurd (
      omega
        (arith, bit-pos failure, bit_or-eq_zero c.failure_mask (campaign_failure_bit failure) e))
  fail_if-clean false failure c e = (refl, e)

mark_all-none :
    (bits : ℕ → ℕ) (left index mask : ℕ)
    → mark_all bits left index mask ≡ 0
    → (mask ≡ 0) × ((j : ℕ) → j < left → bits (index + j) ≡ 0)
unfolding mark_all
mark_all-none bits zero index mask e = (e, λ j lt. absurd (omega arith))
mark_all-none bits (suc left) index mask e =
    let rest = mark_all-none bits left (index + 1) (bit_or mask (bits index)) e in
    let here = bit_or-eq_zero mask (bits index) rest.0 in (here.0, each here.1 rest.1)
  where
    each :
        bits index ≡ 0
        → ((j : ℕ) → j < left → bits (index + 1 + j) ≡ 0)
        → (j : ℕ) → j < suc left
        → bits (index + j) ≡ 0
    each now later zero lt = ap bits (omega arith) ∙ now
    each now later (suc j) lt =
        let moved : index + suc j ≡ index + 1 + j = omega arith in
        ap bits moved ∙ later j (omega arith)

-- A loop from 0 that leaves the mask empty found nothing in any round.
pub mark_all-clean :
    (bits : ℕ → ℕ) (count mask : ℕ)
    → mark_all bits count 0 mask ≡ 0
    → (mask ≡ 0) × ((j : ℕ) → j < count → bits j ≡ 0)
mark_all-clean bits count mask e =
    let found = mark_all-none bits count 0 mask e in
    (found.0, λ j lt. let moved : j ≡ 0 + j = omega arith in ap bits moved ∙ found.1 j lt)
