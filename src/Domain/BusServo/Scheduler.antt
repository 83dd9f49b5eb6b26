-- ===== src/Domain/BusServo/Scheduler.antt =====
-- BusServoScheduler: the order of moves and stops. The methods take and return the whole state;
-- the owner of the UART calls them one at a time.
pub mod Stops
pub mod Progress
pub mod Moves
mod Tests
use mentor_pi_ros.Prelude.{
  ℕ, ◌+◌, ◌-◌, ◌/◌, ◌%◌, ◌^◌, Bool, true, false, ◌&&◌, ◌||◌, not, Option, none, some, List, [], ◌∷◌,
  ltb, leb, ◌==◌, ◌!=◌, if◌then◌else◌, u8, u32_max, get_or,
}
use mentor_pi_ros.Domain.Result.{Result, busy, is_ok, ok_result, failure}
use mentor_pi_ros.Domain.Commands.{BusServoCommand, StopBusServosCommand}
use mentor_pi_ros.Domain.Validation.{validate_bus_servo_command, validate_stop_bus_servos_command}
use mentor_pi_ros.Domain.BusServo.Codec.{
  BusServoFrame, empty_frame, build_frame, move_time_write, move_stop,
}

pub data ScheduledBusFrameKind : Type 0 where
  no_frame move_frame stop_frame : ScheduledBusFrameKind

pub record ScheduledBusFrame : Type 0 where
  pub result : Result
  pub frame : BusServoFrame
  pub kind : ScheduledBusFrameKind
  pub generation : ℕ
  pub batch_index : ℕ

pub record BusMoveAdmission : Type 0 where
  pub result : Result
  pub generation : ℕ
  pub overwrote_pending : Bool

pub record MoveSlot : Type 0 where
  pub command : BusServoCommand
  pub generation : ℕ
  pub next_index : ℕ
  pub valid : Bool

pub record Scheduler : Type 0 where
  pub pending_move : MoveSlot
  pub active_move : MoveSlot
  pub stop_command : StopBusServosCommand
  pub generation : ℕ
  pub stop_watermark : ℕ
  pub stop_next_index : ℕ
  pub in_progress_kind : ScheduledBusFrameKind
  pub stop_pending : Bool
  pub frame_in_progress : Bool
  pub cancel_active_after_frame : Bool
  pub move_overwrite_count : ℕ

unfoldable pub next_generation : ℕ → ℕ
next_generation generation = if generation == u32_max then 1 else generation + 1

-- `SaturatingCounter::Increment`, with no other writer in between.
unfoldable pub increment : ℕ → ℕ
increment value = if value == u32_max then value else value + 1

abbrev invalidate : MoveSlot → MoveSlot
invalidate slot = record slot { valid = false }

-- `SubmitMove`.
unfoldable pub submit_move : BusServoCommand → Scheduler → Scheduler × BusMoveAdmission
submit_move command s =
    let result = validate_bus_servo_command command in
    let generation = next_generation s.generation in
    let overwrote = s.pending_move.valid in
    if not (is_ok result)
    then (s, record { result = result; generation = s.generation; overwrote_pending = false })
    else (
      record s {
        generation = generation;
        move_overwrite_count =
            if overwrote then increment s.move_overwrite_count else s.move_overwrite_count;
        pending_move = record {
          command = command;
          generation = generation;
          next_index = 0;
          valid = true;
        };
      },
      record { result = ok_result; generation = generation; overwrote_pending = overwrote },
    )

-- What an accepted stop does to the move in the active slot.
unfoldable pub stop_active : Scheduler → Scheduler
stop_active s =
    if not s.active_move.valid
    then s
    else if s.frame_in_progress
    then record s { cancel_active_after_frame = true }
    else record s { active_move = invalidate s.active_move }

-- `AcceptStop`.
unfoldable pub accept_stop : StopBusServosCommand → Scheduler → Scheduler × Result
accept_stop command s =
    let result = validate_stop_bus_servos_command command in
    if not (is_ok result) then (s, result) else if s.stop_pending then (s, failure busy 0) else (
      stop_active record s {
        stop_command = command;
        stop_next_index = 0;
        stop_pending = true;
        stop_watermark = s.generation;
        pending_move = invalidate s.pending_move;
      },
      ok_result,
    )

abbrev pub frame_or_empty : Option BusServoFrame → BusServoFrame
frame_or_empty none = empty_frame
frame_or_empty (some frame) = frame

-- A scheduled frame that carries no work.
abbrev pub unscheduled : Result → BusServoFrame → ScheduledBusFrame
unscheduled result frame = record {
  result = result;
  frame = frame;
  kind = no_frame;
  generation = 0;
  batch_index = 0;
}

-- The call of `BuildFrame` in `BuildMoveFrame`; an index past the array is not read, since it is
-- below the count of a valid command.
unfoldable pub encode_move : MoveSlot → Result × Option BusServoFrame
encode_move slot =
    let position = get_or slot.command.position slot.next_index 0 in
    let duration = slot.command.duration_ms in
    build_frame (get_or slot.command.servo_id slot.next_index 0) move_time_write
      (some (position % 256 ∷ u8 (position / 2 ^ 8) ∷ duration % 256 ∷ u8 (duration / 2 ^ 8) ∷ []))
      4 (some empty_frame)

-- `BuildMoveFrame`.
unfoldable pub build_move_frame : Scheduler → Scheduler × ScheduledBusFrame
build_move_frame s =
    let built = encode_move s.active_move in
    if not (is_ok built.0)
    then (
      record s { active_move = invalidate s.active_move },
      unscheduled built.0 (frame_or_empty built.1),
    )
    else (
      record s { frame_in_progress = true; in_progress_kind = move_frame },
      record {
        result = built.0;
        frame = frame_or_empty built.1;
        kind = move_frame;
        generation = s.active_move.generation;
        batch_index = s.active_move.next_index;
      },
    )

-- The call of `BuildFrame` in `BuildStopFrame`.
unfoldable pub encode_stop : StopBusServosCommand → ℕ → Result × Option BusServoFrame
encode_stop command index =
    build_frame (get_or command.servo_id index 0) move_stop none 0 (some empty_frame)

-- `BuildStopFrame`.
unfoldable pub build_stop_frame : Scheduler → Scheduler × ScheduledBusFrame
build_stop_frame s =
    let built = encode_stop s.stop_command s.stop_next_index in
    if not (is_ok built.0)
    then (record s { stop_pending = false }, unscheduled built.0 (frame_or_empty built.1))
    else (
      record s { frame_in_progress = true; in_progress_kind = stop_frame },
      record {
        result = built.0;
        frame = frame_or_empty built.1;
        kind = stop_frame;
        generation = s.stop_watermark;
        batch_index = s.stop_next_index;
      },
    )

-- The move in the pending slot becomes the active one when there is none.
unfoldable pub promote : Scheduler → Scheduler
promote s =
    if not s.active_move.valid && s.pending_move.valid
    then record s { active_move = s.pending_move; pending_move = invalidate s.pending_move }
    else s

-- `BeginFrame`.
unfoldable pub begin_frame : Scheduler → Scheduler × ScheduledBusFrame
begin_frame s =
    let promoted = promote s in
    if s.frame_in_progress
    then (s, unscheduled (failure busy 0) empty_frame)
    else if s.stop_pending
    then build_stop_frame s
    else if promoted.active_move.valid
    then build_move_frame promoted
    else (promoted, unscheduled (failure busy 0) empty_frame)

unfoldable pub complete_stop : Bool → Scheduler → Scheduler
complete_stop transmitted s =
    let next = u8 (s.stop_next_index + 1) in
    if not transmitted then record s { stop_pending = false } else record s {
      stop_next_index = next;
      stop_pending = if leb s.stop_command.count next then false else s.stop_pending;
    }

unfoldable pub complete_move : Bool → Scheduler → Scheduler
complete_move transmitted s =
    let next = u8 (s.active_move.next_index + 1) in
    if not transmitted || s.cancel_active_after_frame
    then record s { active_move = invalidate s.active_move }
    else record s {
      active_move = record s.active_move {
        next_index = next;
        valid = if leb s.active_move.command.count next then false else s.active_move.valid;
      };
    }

unfoldable pub complete_kind : ScheduledBusFrameKind → Bool → Scheduler → Scheduler
complete_kind no_frame transmitted s = s
complete_kind move_frame transmitted s = complete_move transmitted s
complete_kind stop_frame transmitted s = complete_stop transmitted s

-- `CompleteFrame`.
unfoldable pub complete_frame : Bool → Scheduler → Scheduler
complete_frame transmitted s =
    if not s.frame_in_progress then s else record (complete_kind s.in_progress_kind transmitted s) {
      frame_in_progress = false;
      cancel_active_after_frame = false;
      in_progress_kind = no_frame;
    }

-- `CancelAll`.
unfoldable pub cancel_all : Scheduler → Scheduler
cancel_all s = record s {
  pending_move = invalidate s.pending_move;
  active_move = invalidate s.active_move;
  stop_pending = false;
  frame_in_progress = false;
  cancel_active_after_frame = false;
  in_progress_kind = no_frame;
}

unfoldable pub has_work : Scheduler → Bool
has_work s = s.frame_in_progress || s.stop_pending || s.active_move.valid || s.pending_move.valid

-- The calls of the UART owner, in any order.
pub data Call : Type 0 where
  submit : BusServoCommand → Call
  stop : StopBusServosCommand → Call
  begin : Call
  complete : Bool → Call
  cancel : Call

unfoldable pub step : Call → Scheduler → Scheduler
step (submit command) s = (submit_move command s).0
step (stop command) s = (accept_stop command s).0
step begin s = (begin_frame s).0
step (complete transmitted) s = complete_frame transmitted s
step cancel s = cancel_all s

unfoldable pub run : List Call → Scheduler → Scheduler
run [] s = s
run (call ∷ calls) s = run calls (step call s)
