-- ===== src/Microros/Session/Graph.antt =====
-- The transition diagram of the Agent session, with the counters left out.
use mentor_pi_ros.Prelude.{arith}
use mentor_pi_ros.Microros.Session.{
  SessionState, safe_boot, wait_agent, create_entities, active, teardown, backoff, Session, Call,
  step,
}

infix 40 ◌⟶◌
pub data ◌⟶◌ : SessionState → SessionState → Type 0 where
  leave : safe_boot ⟶ wait_agent
  found : wait_agent ⟶ create_entities
  missed : wait_agent ⟶ backoff
  opened : create_entities ⟶ active
  stop : {s : SessionState} → s ⟶ teardown
  cleaned : teardown ⟶ backoff
  retry : backoff ⟶ wait_agent
  stay : {s : SessionState} → s ⟶ s

-- Every call, in every state, follows an edge of the diagram.
pub step-⟶ : (s : Session) (c : Call) → s.state ⟶ (step s c).state
unfolding step
step-⟶ s c = grind (arith, leave, found, missed, opened, stop, cleaned, retry, stay)
