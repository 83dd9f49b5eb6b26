-- ===== src/Microros/Session/Tests.antt =====
-- Lives of an Agent session.
use mentor_pi_ros.Prelude.{◌<◌, ◌≡◌, ◌≢◌, ◌-◌, refl, true, false, List, [], ◌∷◌, min, u32_max}
use mentor_pi_ros.Microros.Clock.{deadline_reached}
use mentor_pi_ros.Microros.Session.{
  teardown, agent_lost, Session, fresh, active, Call, ping, created, leave_boot, tear_down,
  torn_down, advance, step, run,
}
use mentor_pi_ros.Microros.Session.Generations.{openings, generation_of, run-openings}
use mentor_pi_ros.Microros.Session.Backoff.{attempts, capped_delay, run-capped_delay}

abbrev no_agent : List Call
no_agent = leave_boot ∷ ping false 10 ∷ advance 120 ∷ ping false 130 ∷ []

abbrev two_sessions : List Call
two_sessions =
    leave_boot
    ∷ ping true 10
    ∷ created true 20
    ∷ tear_down agent_lost
    ∷ torn_down 30
    ∷ advance 130
    ∷ ping true 140
    ∷ created true 150
    ∷ []

second_generation : (run fresh two_sessions).session_generation ≡ 2
unfolding run step deadline_reached
second_generation = refl

run-openings_example :
    let s = run fresh two_sessions in
    let n = openings fresh two_sessions in
    (s.session_generation ≡ generation_of n)
    × (s.agent_reconnects ≡ min u32_max (n - 1))
    × (s.state ≡ active → (0 < n) × (s.session_generation ≢ 0))
run-openings_example = run-openings two_sessions

run-capped_delay_example :
    (0 < attempts fresh 0 no_agent)
    × ((run fresh no_agent).current_backoff_ms ≡ capped_delay (attempts fresh 0 no_agent))
unfolding run step deadline_reached
run-capped_delay_example = run-capped_delay no_agent refl

abbrev stopping : Session
stopping = record fresh { state = teardown }
