-- ===== src/Microros/Release/Tests.antt =====
-- The release timeline and the admission test at concrete times.
use mentor_pi_ros.Prelude.{◌*◌, ◌/◌, ◌%◌, ◌≡◌, refl, false, List, [], ◌∷◌, arith, add32, sub32}
use mentor_pi_ros.Microros.Release.{
  PeriodicReleaseState, periodic_release_due, advance_periodic_release,
}
use mentor_pi_ros.Microros.Release.Timeline.{advance_periodic_release_timeline}

abbrev streams : List PeriodicReleaseState
streams =
    record { last_release_ms = 4294967290; period_ms = 50 }
    ∷ record { last_release_ms = 0; period_ms = 20 }
    ∷ []

skips_missed_releases : advance_periodic_release 95 10 20 ≡ 90
unfolding advance_periodic_release
skips_missed_releases = refl

advance_periodic_release_timeline_example :
    let released = advance_periodic_release (add32 4294967290 65) 4294967290 20 in
    (released ≡ add32 4294967290 (65 / 20 * 20))
    × (sub32 (add32 4294967290 65) released ≡ 65 % 20)
    × (periodic_release_due (add32 4294967290 65) released 20 ≡ false)
advance_periodic_release_timeline_example =
    advance_periodic_release_timeline 4294967290 65 20 (omega arith) (omega arith) (omega arith)
