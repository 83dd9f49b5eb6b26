-- ===== src/Microros/Destroy/Tests.antt =====
-- Destruction plans at concrete cursors.
use mentor_pi_ros.Prelude.{arith, ◌≡◌, refl, true, false, [], ◌∷◌}
use mentor_pi_ros.Microros.Create
use mentor_pi_ros.Microros.Create.Order
use mentor_pi_ros.Microros.Destroy.{
  disable_remote_waits, subscription_fini, EntityDestroyCursor, reset, advance, is_complete,
  request_remote_wait_abandon,
}
use mentor_pi_ros.Microros.Destroy.Order.{
  advances, visited, finalized_in_order, made_in_reverse, destruction_reverses_creation,
}
use mentor_pi_ros.Microros.Destroy.Abandon.{past_timeout, abandon_keeps_finalizers}

abbrev midway : EntityDestroyCursor
midway = record {
  kind = subscription_fini;
  index = 3;
  phase_start_ms = 100;
  started = true;
  remote_waits_abandoned = false;
  disable_remote_waits_pending = false;
}

destruction_reverses_creation_example :
    (finalized_in_order (visited 25 (reset 9))
      ≡ made_in_reverse (Create.Order.visited 49 (Create.reset 5)) [])
    × (is_complete (advances 25 (reset 9)) ≡ true)
destruction_reverses_creation_example = destruction_reverses_creation 5 9

abandon_keeps_finalizers_example :
    let c' = request_remote_wait_abandon midway in
    (visited 14 c' ≡ (disable_remote_waits, 0) ∷ visited 13 (past_timeout midway))
    × (finalized_in_order (visited 14 c') ≡ finalized_in_order (visited 13 midway))
    × ((advance c').remote_waits_abandoned ≡ true)
    × (is_complete (advances 14 c') ≡ true)
unfolding is_complete
abandon_keeps_finalizers_example =
    abandon_keeps_finalizers 13 midway (record { running = refl; planned = λ e. cc }) refl refl refl
      (omega arith)
