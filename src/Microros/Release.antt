-- ===== src/Microros/Release.antt =====
-- Periodic releases on a fixed timeline, and the admission of a blocking operation between them
-- (runtime_core.h).
pub mod Timeline
mod Tests
use mentor_pi_ros.Prelude.{
  ℕ, ◌+◌, ◌-◌, ◌*◌, ◌/◌, Bool, true, false, ◌||◌, List, [], ◌∷◌, ltb, leb, ◌==◌, if◌then◌else◌,
  add32, sub32, u32, u64,
}

pub record PeriodicReleaseState : Type 0 where
  pub last_release_ms : ℕ
  pub period_ms : ℕ

pub periodic_release_due : ℕ → ℕ → ℕ → Bool
periodic_release_due now_ms last_release_ms period_ms =
    period_ms == 0 || leb period_ms (sub32 now_ms last_release_ms)

pub initial_periodic_release : ℕ → ℕ → ℕ → ℕ
initial_periodic_release now_ms period_ms first_delay_ms =
    if period_ms == 0
    then now_ms
    else (let bounded_delay_ms =
          if ltb first_delay_ms period_ms then first_delay_ms else period_ms in
        sub32 now_ms (period_ms - bounded_delay_ms))

-- The subtraction is read only where the release is not due, and is exact there.
pub milliseconds_until_periodic_release : ℕ → PeriodicReleaseState → ℕ
unfolding periodic_release_due
milliseconds_until_periodic_release now_ms release =
    if periodic_release_due now_ms release.last_release_ms release.period_ms
    then 0
    else release.period_ms - sub32 now_ms release.last_release_ms

slack_suffices : ℕ → ℕ → List PeriodicReleaseState → Bool
slack_suffices now_ms required_slack_ms [] = true
slack_suffices now_ms required_slack_ms (release ∷ releases) =
    let slack_ms = milliseconds_until_periodic_release now_ms release in
    let rest = slack_suffices now_ms required_slack_ms releases in
    if slack_ms == 0 || ltb slack_ms required_slack_ms then false else rest

pub can_admit_blocking_operation : ℕ → ℕ → ℕ → List PeriodicReleaseState → Bool
can_admit_blocking_operation now_ms operation_budget_ms guard_ms releases =
    slack_suffices now_ms (u64 (operation_budget_ms + guard_ms)) releases

pub advance_periodic_release : ℕ → ℕ → ℕ → ℕ
advance_periodic_release now_ms last_release_ms period_ms =
    let elapsed_ms = sub32 now_ms last_release_ms in
    if period_ms == 0 || ltb elapsed_ms period_ms
    then last_release_ms
    else add32 last_release_ms (u32 (elapsed_ms / period_ms * period_ms))
