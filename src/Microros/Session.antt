-- ===== src/Microros/Session.antt =====
-- `SessionLifecycle` (runtime_core.h, runtime_core.cc): the states of the Agent session, its
-- generations and the backoff between attempts.
pub mod Graph
pub mod Generations
pub mod Backoff
mod Tests
use mentor_pi_ros.Prelude.{
  ℕ, ◌+◌, ◌-◌, ◌<◌, ◌≡◌, Bool, true, false, not, ◌||◌, List, [], ◌∷◌, ltb, ◌==◌, ◌!=◌,
  if◌then◌else◌, add32, u8, u32_max, get_or,
}
use mentor_pi_ros.Microros.Clock.{deadline_reached}

pub data SessionState : Type 0 where
  safe_boot wait_agent create_entities active teardown backoff : SessionState

pub data TeardownReason : Type 0 where
  none agent_lost usart1_error rx_overrun tx_timeout entity_error memory_violation task_stall :
      TeardownReason

-- The enumeration's values, by which states are compared.
abbrev pub state_value : SessionState → ℕ
state_value safe_boot = 0
state_value wait_agent = 1
state_value create_entities = 2
state_value active = 3
state_value teardown = 4
state_value backoff = 5

abbrev pub is_in : SessionState → SessionState → Bool
is_in a b = state_value a == state_value b

abbrev pub is_not : SessionState → SessionState → Bool
is_not a b = state_value a != state_value b

pub record Session : Type 0 where
  pub state : SessionState
  pub teardown_reason : TeardownReason
  pub session_generation : ℕ
  pub agent_reconnects : ℕ
  pub backoff_deadline_ms : ℕ
  pub current_backoff_ms : ℕ
  pub backoff_index : ℕ

abbrev pub fresh : Session
fresh = record {
  state = safe_boot;
  teardown_reason = TeardownReason.none;
  session_generation = 0;
  agent_reconnects = 0;
  backoff_deadline_ms = 0;
  current_backoff_ms = 0;
  backoff_index = 0;
}

abbrev pub backoff_milliseconds : List ℕ
backoff_milliseconds = 100 ∷ 200 ∷ 400 ∷ 800 ∷ 1600 ∷ 2000 ∷ []

-- `kBackoffMilliseconds.size()`.
abbrev pub backoff_count : ℕ
backoff_count = 6

pub next_nonzero_generation : ℕ → ℕ
next_nonzero_generation generation = if generation == u32_max then 1 else generation + 1

-- `PublicationFailureReason` of runtime_core.h.
pub publication_failure_reason : Bool → TeardownReason
publication_failure_reason proves_agent_liveness =
    if proves_agent_liveness then agent_lost else entity_error

pub enter_backoff : Session → ℕ → Session
enter_backoff s now_ms =
    let index = if ltb s.backoff_index backoff_count then s.backoff_index else backoff_count - 1 in
    let delay = get_or backoff_milliseconds index 0 in
    record s {
      current_backoff_ms = delay;
      backoff_deadline_ms = add32 now_ms delay;
      backoff_index =
          if ltb (s.backoff_index + 1) backoff_count
          then u8 (s.backoff_index + 1)
          else s.backoff_index;
      state = backoff;
    }

pub leave_safe_boot : Session → Session
leave_safe_boot s =
    if is_not s.state safe_boot
    then s
    else record s { teardown_reason = TeardownReason.none; state = wait_agent }

pub on_agent_ping : Session → Bool → ℕ → Session
on_agent_ping s successful now_ms =
    if is_not s.state wait_agent
    then s
    else if successful
    then record s { state = create_entities }
    else enter_backoff s now_ms

-- The generation and the reconnects that a new session counts.
count_session : Session → Session
unfolding next_nonzero_generation
count_session s =
    if s.session_generation == 0 then record s { session_generation = 1 } else record s {
      session_generation = next_nonzero_generation s.session_generation;
      agent_reconnects =
          if s.agent_reconnects != u32_max then s.agent_reconnects + 1 else s.agent_reconnects;
    }

pub on_entities_created : Session → Bool → ℕ → Session
unfolding count_session
on_entities_created s successful now_ms =
    if is_not s.state create_entities
    then s
    else if not successful
    then record s { teardown_reason = entity_error; state = teardown }
    else record (count_session s) { backoff_index = 0; current_backoff_ms = 0; state = active }

pub begin_teardown : Session → TeardownReason → Session
begin_teardown s reason =
    if is_in s.state teardown then s else record s { teardown_reason = reason; state = teardown }

pub on_teardown_complete : Session → ℕ → Session
on_teardown_complete s now_ms = if is_not s.state teardown then s else enter_backoff s now_ms

pub advance_backoff : Session → ℕ → Session × Bool
advance_backoff s now_ms =
    if is_not s.state backoff || not (deadline_reached now_ms s.backoff_deadline_ms)
    then (s, false)
    else (record s { state = wait_agent }, true)

-- A call of the runtime on its session.
pub data Call : Type 0 where
  leave_boot : Call
  ping : Bool → ℕ → Call
  created : Bool → ℕ → Call
  tear_down : TeardownReason → Call
  torn_down : ℕ → Call
  advance : ℕ → Call

pub step : Session → Call → Session
unfolding enter_backoff leave_safe_boot on_agent_ping on_entities_created begin_teardown
    on_teardown_complete advance_backoff
step s leave_boot = leave_safe_boot s
step s (ping successful now_ms) = on_agent_ping s successful now_ms
step s (created successful now_ms) = on_entities_created s successful now_ms
step s (tear_down reason) = begin_teardown s reason
step s (torn_down now_ms) = on_teardown_complete s now_ms
step s (advance now_ms) = (advance_backoff s now_ms).0

pub run : Session → List Call → Session
run s [] = s
run s (c ∷ cs) = run (step s c) cs
