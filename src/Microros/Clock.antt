-- ===== src/Microros/Clock.antt =====
-- Comparisons on the 32-bit millisecond clock (runtime_core.h), correct across its wrap.
use mentor_pi_ros.Prelude.{
  ℕ, ◌-◌, ◌^◌, ◌≤◌, ◌<◌, ◌≡◌, ◌↔◌, Bool, true, ◌&&◌, arith, ltb, leb, add32, sub32, is_nonneg32,
}

unfoldable pub deadline_reached : ℕ → ℕ → Bool
deadline_reached now_ms deadline_ms = is_nonneg32 (sub32 now_ms deadline_ms)

-- The subtraction `phase_budget_ms - elapsed_ms` is read only under `elapsed_ms < phase_budget_ms`.
unfoldable pub operation_fits_in_phase : ℕ → ℕ → ℕ → ℕ → Bool
operation_fits_in_phase phase_start_ms now_ms phase_budget_ms operation_budget_ms =
    let elapsed_ms = sub32 now_ms phase_start_ms in
    ltb elapsed_ms phase_budget_ms && ltb operation_budget_ms (phase_budget_ms - elapsed_ms)

unfoldable pub phase_deadline_reached : ℕ → ℕ → ℕ → Bool
phase_deadline_reached phase_start_ms now_ms phase_budget_ms =
    leb phase_budget_ms (sub32 now_ms phase_start_ms)

-- A deadline set `delay` milliseconds ahead is reached `elapsed` milliseconds later exactly when
-- `delay ≤ elapsed`, for intervals below 2 ^ 31.
pub deadline_reached-add32 :
    (start delay elapsed : ℕ)
    → start < 2 ^ 32
    → delay < 2 ^ 31
    → elapsed < 2 ^ 31
    → (deadline_reached (add32 start elapsed) (add32 start delay) ≡ true) ↔ (delay ≤ elapsed)
unfolding deadline_reached
deadline_reached-add32 start delay elapsed hs hd he = ground arith
