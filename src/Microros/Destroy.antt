-- ===== src/Microros/Destroy.antt =====
-- `EntityDestroyCursor` (runtime_core.h, runtime_core.cc): the steps that finalize the entities of
-- a session, and the switch from remote waits to local cleanup when the phase runs out.
pub mod Order
pub mod Abandon
mod Tests
use mentor_pi_ros.Prelude.{ℕ, ◌-◌, Bool, true, false, not, ◌&&◌, ◌||◌, ◌!=◌, if◌then◌else◌}
use mentor_pi_ros.Microros.Clock.{operation_fits_in_phase, phase_deadline_reached}
use mentor_pi_ros.Microros.Create.{
  lifecycle_publisher_count, lifecycle_subscription_count, lifecycle_service_count,
}

pub data EntityDestroyStepKind : Type 0 where
  set_context_destroy_timeout executor_fini service_fini subscription_fini publisher_fini node_fini
        support_fini disable_remote_waits complete :
      EntityDestroyStepKind

abbrev pub destroy_call_timeout_ms : ℕ
destroy_call_timeout_ms = 10

abbrev pub destroy_phase_deadline_ms : ℕ
destroy_phase_deadline_ms = 500

pub record EntityDestroyStep : Type 0 where
  pub kind : EntityDestroyStepKind
  pub index : ℕ
  pub deadline_ms : ℕ

pub record EntityDestroyCursor : Type 0 where
  pub kind : EntityDestroyStepKind
  pub index : ℕ
  pub phase_start_ms : ℕ
  pub started : Bool
  pub remote_waits_abandoned : Bool
  pub disable_remote_waits_pending : Bool

abbrev pub is_complete_kind : EntityDestroyStepKind → Bool
is_complete_kind complete = true
is_complete_kind _ = false

pub reset : ℕ → EntityDestroyCursor
reset phase_start_ms = record {
  kind = set_context_destroy_timeout;
  index = 0;
  phase_start_ms = phase_start_ms;
  started = true;
  remote_waits_abandoned = false;
  disable_remote_waits_pending = false;
}

pub clear : EntityDestroyCursor
clear = record {
  kind = complete;
  index = 0;
  phase_start_ms = 0;
  started = false;
  remote_waits_abandoned = false;
  disable_remote_waits_pending = false;
}

pub current : EntityDestroyCursor → EntityDestroyStep
current c =
    if not c.started
    then record { kind = complete; index = 0; deadline_ms = 0 }
    else if c.disable_remote_waits_pending
    then record { kind = disable_remote_waits; index = 0; deadline_ms = 0 }
    else record {
      kind = c.kind;
      index = c.index;
      deadline_ms = if is_complete_kind c.kind then 0 else destroy_call_timeout_ms;
    }

-- The `switch` of `Advance`: the next kind and index.
next_step : EntityDestroyStepKind → ℕ → EntityDestroyStepKind × ℕ
next_step set_context_destroy_timeout index = (executor_fini, index)
next_step executor_fini index = (service_fini, lifecycle_service_count - 1)
next_step service_fini index =
    if index != 0
    then (service_fini, index - 1)
    else (subscription_fini, lifecycle_subscription_count - 1)
next_step subscription_fini index =
    if index != 0
    then (subscription_fini, index - 1)
    else (publisher_fini, lifecycle_publisher_count - 1)
next_step publisher_fini index = if index != 0 then (publisher_fini, index - 1) else (node_fini, 0)
next_step node_fini index = (support_fini, index)
next_step support_fini index = (complete, index)
next_step disable_remote_waits index = (disable_remote_waits, index)
next_step complete index = (complete, index)

pub advance : EntityDestroyCursor → EntityDestroyCursor
unfolding next_step
advance c =
    let (kind, index) = next_step c.kind c.index in
    if not c.started
    then c
    else if c.disable_remote_waits_pending
    then record c { disable_remote_waits_pending = false; remote_waits_abandoned = true }
    else record c { kind = kind; index = index }

pub is_complete : EntityDestroyCursor → Bool
is_complete c = c.started && is_complete_kind c.kind && not c.disable_remote_waits_pending

skip_initial_kind : EntityDestroyStepKind → EntityDestroyStepKind
skip_initial_kind set_context_destroy_timeout = executor_fini
skip_initial_kind kind = kind

pub skip_initial_timeout_if_pending : EntityDestroyCursor → EntityDestroyCursor
unfolding skip_initial_kind
skip_initial_timeout_if_pending c = record c { kind = skip_initial_kind c.kind }

pub request_remote_wait_abandon : EntityDestroyCursor → EntityDestroyCursor
unfolding skip_initial_timeout_if_pending
request_remote_wait_abandon c =
    if not c.started || c.remote_waits_abandoned || c.disable_remote_waits_pending || is_complete c
    then c
    else record (skip_initial_timeout_if_pending c) { disable_remote_waits_pending = true }

pub mark_remote_waits_abandoned_without_boundary : EntityDestroyCursor → EntityDestroyCursor
unfolding skip_initial_timeout_if_pending
mark_remote_waits_abandoned_without_boundary c =
    if not c.started || c.remote_waits_abandoned || is_complete c
    then c
    else record (skip_initial_timeout_if_pending c) {
      disable_remote_waits_pending = false;
      remote_waits_abandoned = true;
    }

pub current_remote_operation_fits : EntityDestroyCursor → ℕ → Bool
current_remote_operation_fits c now_ms =
    not (is_complete c)
    && not c.remote_waits_abandoned
    && not c.disable_remote_waits_pending
    && operation_fits_in_phase c.phase_start_ms now_ms destroy_phase_deadline_ms
        (current c).deadline_ms

pub remote_phase_deadline_reached : EntityDestroyCursor → ℕ → Bool
remote_phase_deadline_reached c now_ms =
    phase_deadline_reached c.phase_start_ms now_ms destroy_phase_deadline_ms
