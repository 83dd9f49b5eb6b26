-- ===== src/Microros/Slice.antt =====
-- The schedulers of an ACTIVE work slice and the reading of transport errors (runtime_core.h,
-- runtime_core.cc).
pub mod Fairness
mod Tests
use mentor_pi_ros.Prelude.{
  ℕ, ◌+◌, ◌%◌, Bool, true, false, not, ◌||◌, List, [], ◌∷◌, bit_and, bit_or, ◌==◌, ◌!=◌,
  if◌then◌else◌,
}
use mentor_pi_ros.Microros.Session.{TeardownReason, usart1_error, rx_overrun, tx_timeout}

-- `RoundRobinCursor<count>`: its state is the index `next_`.
pub peek : ℕ → ℕ → ℕ → ℕ
peek count next offset = (next + offset) % count

pub advance_past : ℕ → ℕ → ℕ
advance_past count item = (item + 1) % count

abbrev pub active_work_class_count : ℕ
active_work_class_count = 3

-- `ActiveWorkScheduler::Next`: the new cursor and the class, by its value (0 for services, 1 for
-- reliable telemetry, 2 for maintenance).
pub next_class : ℕ → ℕ × ℕ
unfolding peek advance_past
next_class cursor =
    let next = peek active_work_class_count cursor 0 in
    (advance_past active_work_class_count next, next)

pub record ActiveSliceBudget : Type 0 where
  pub allowed_class : ℕ
  pub blocking_operation_started : Bool

pub reset_budget : ActiveSliceBudget → ℕ → ActiveSliceBudget
reset_budget b allowed_class = record b {
  allowed_class = allowed_class;
  blocking_operation_started = false;
}

pub try_start_blocking_operation : ActiveSliceBudget → ℕ → ActiveSliceBudget × Bool
try_start_blocking_operation b requesting_class =
    if requesting_class != b.allowed_class || b.blocking_operation_started
    then (b, false)
    else (record b { blocking_operation_started = true }, true)

-- The requests of one slice, with their answers.
pub request_all : ActiveSliceBudget → List ℕ → List Bool
unfolding try_start_blocking_operation
request_all b [] = []
request_all b (r ∷ rs) =
    let (b', started) = try_start_blocking_operation b r in started ∷ request_all b' rs

-- The bits of Usart1Error: framing, noise, overrun, parity, TX DMA, TX timeout, RX ring overrun and
-- DMA errors.
pub classify_transport_error_flags : ℕ → TeardownReason
classify_transport_error_flags error_flags =
    if bit_and error_flags 64 != 0
    then rx_overrun
    else if bit_and error_flags (bit_or 16 32) != 0
    then tx_timeout
    else if bit_and error_flags (bit_or (bit_or (bit_or 1 2) (bit_or 4 8)) 128) != 0
    then usart1_error
    else TeardownReason.none
