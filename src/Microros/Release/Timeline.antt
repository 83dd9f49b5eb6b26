-- ===== src/Microros/Release/Timeline.antt =====
-- A release keeps its timeline, however late it is.
use native.Mathlib.Nat.{add-zero, div-eq_of_lt, div-mul-le_self, mod-add-div', mod-lt}
use native.Mathlib.Decide.{dec_lt}
use mentor_pi_ros.Prelude.{ℕ, ◌*◌, ◌/◌, ◌%◌, ◌^◌, ◌<◌, ◌≡◌, false, arith, add32, sub32, sub32-add32}
use mentor_pi_ros.Microros.Release.{periodic_release_due, advance_periodic_release}

advance_periodic_release-eq :
    (last elapsed period : ℕ)
    → last < 2 ^ 32
    → elapsed < 2 ^ 32
    → 0 < period
    → advance_periodic_release (add32 last elapsed) last period
      ≡ add32 last (elapsed / period * period)
unfolding advance_periodic_release
advance_periodic_release-eq last elapsed period hl he hp =
    rw (sub32-add32 last elapsed hl he) (elim (dec_lt elapsed period) [
      | yes early ↦ rw (div-eq_of_lt early) (ground (arith, add-zero last))
      | no late ↦ ground (arith, div-mul-le_self elapsed period)
    ])

-- After a late release, `elapsed` milliseconds past the last one, the new release lies a whole
-- number of periods after the last, is not in the future, and is less than one period old: no
-- release is repeated in a burst and none is shifted.
pub advance_periodic_release_timeline :
    (last elapsed period : ℕ)
    → last < 2 ^ 32
    → elapsed < 2 ^ 32
    → 0 < period
    → let released = advance_periodic_release (add32 last elapsed) last period in
      (released ≡ add32 last (elapsed / period * period))
      × (sub32 (add32 last elapsed) released ≡ elapsed % period)
      × (periodic_release_due (add32 last elapsed) released period ≡ false)
unfolding periodic_release_due
advance_periodic_release_timeline last elapsed period hl he hp =
    rw (advance_periodic_release-eq last elapsed period hl he hp)
      (ground (arith, mod-add-div' elapsed period, mod-lt elapsed hp))
