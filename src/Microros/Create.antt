-- ===== src/Microros/Create.antt =====
-- `EntityCreateCursor` (runtime_core.h, runtime_core.cc): the steps that create the entities of a
-- session, one middleware call at a time.
pub mod Order
mod Tests
use mentor_pi_ros.Prelude.{ℕ, ◌+◌, Bool, true, false, not, ◌&&◌, ltb, leb, if◌then◌else◌}
use mentor_pi_ros.Microros.Clock.{operation_fits_in_phase, phase_deadline_reached}

pub data EntityCreateStepKind : Type 0 where
  support_init set_context_create_timeout set_context_destroy_timeout node_init publisher_init
        set_publisher_timeout subscription_init service_init set_service_timeout executor_init
        executor_add_subscription executor_prime initial_time_sync complete :
      EntityCreateStepKind

abbrev pub lifecycle_publisher_count : ℕ
lifecycle_publisher_count = 7

abbrev pub lifecycle_subscription_count : ℕ
lifecycle_subscription_count = 7

abbrev pub lifecycle_service_count : ℕ
lifecycle_service_count = 7

abbrev pub create_phase_deadline_ms : ℕ
create_phase_deadline_ms = 2000

pub record EntityCreateStep : Type 0 where
  pub kind : EntityCreateStepKind
  pub index : ℕ
  pub deadline_ms : ℕ

pub record EntityCreateCursor : Type 0 where
  pub kind : EntityCreateStepKind
  pub index : ℕ
  pub phase_start_ms : ℕ
  pub started : Bool

-- kExecutorCallDeadlineMs, kInitialTimeSyncTimeoutMs and kCreateCallTimeoutMs.
pub create_step_deadline_ms : EntityCreateStepKind → ℕ
create_step_deadline_ms executor_prime = 1
create_step_deadline_ms initial_time_sync = 20
create_step_deadline_ms complete = 0
create_step_deadline_ms _ = 40

pub reset : ℕ → EntityCreateCursor
reset phase_start_ms = record {
  kind = support_init;
  index = 0;
  phase_start_ms = phase_start_ms;
  started = true;
}

pub clear : EntityCreateCursor
clear = record { kind = complete; index = 0; phase_start_ms = 0; started = false }

pub current : EntityCreateCursor → EntityCreateStep
unfolding create_step_deadline_ms
current c =
    if not c.started
    then record { kind = complete; index = 0; deadline_ms = 0 }
    else record { kind = c.kind; index = c.index; deadline_ms = create_step_deadline_ms c.kind }

-- The `switch` of `Advance`: the next kind and index.
next_step : EntityCreateStepKind → ℕ → EntityCreateStepKind × ℕ
next_step support_init index = (set_context_create_timeout, index)
next_step set_context_create_timeout index = (set_context_destroy_timeout, index)
next_step set_context_destroy_timeout index = (node_init, index)
next_step node_init index = (publisher_init, 0)
next_step publisher_init index = (set_publisher_timeout, index)
next_step set_publisher_timeout index =
    if ltb (index + 1) lifecycle_publisher_count
    then (publisher_init, index + 1)
    else (subscription_init, 0)
next_step subscription_init index =
    if leb lifecycle_subscription_count (index + 1)
    then (service_init, 0)
    else (subscription_init, index + 1)
next_step service_init index = (set_service_timeout, index)
next_step set_service_timeout index =
    if ltb (index + 1) lifecycle_service_count
    then (service_init, index + 1)
    else (executor_init, 0)
next_step executor_init index = (executor_add_subscription, 0)
next_step executor_add_subscription index =
    if leb lifecycle_subscription_count (index + 1)
    then (executor_prime, 0)
    else (executor_add_subscription, index + 1)
next_step executor_prime index = (initial_time_sync, index)
next_step initial_time_sync index = (complete, index)
next_step complete index = (complete, index)

pub advance : EntityCreateCursor → EntityCreateCursor
unfolding next_step
advance c =
    let (kind, index) = next_step c.kind c.index in
    if not c.started then c else record c { kind = kind; index = index }

abbrev is_complete_kind : EntityCreateStepKind → Bool
is_complete_kind complete = true
is_complete_kind _ = false

pub is_complete : EntityCreateCursor → Bool
is_complete c = c.started && is_complete_kind c.kind

pub current_operation_fits : EntityCreateCursor → ℕ → Bool
unfolding current is_complete
current_operation_fits c now_ms =
    not (is_complete c)
    && operation_fits_in_phase c.phase_start_ms now_ms create_phase_deadline_ms
        (current c).deadline_ms

pub deadline_of_phase_reached : EntityCreateCursor → ℕ → Bool
deadline_of_phase_reached c now_ms =
    phase_deadline_reached c.phase_start_ms now_ms create_phase_deadline_ms
