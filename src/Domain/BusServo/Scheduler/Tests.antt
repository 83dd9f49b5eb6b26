-- ===== src/Domain/BusServo/Scheduler/Tests.antt =====
-- The scheduler of the servo bus on a concrete move and stop.
use mentor_pi_ros.Prelude.{ℕ, ◌≡◌, refl, Bool, true, false, List, [], ◌∷◌, arith, leb}
use mentor_pi_ros.Domain.Result.{ok}
use mentor_pi_ros.Domain.Commands.{BusServoCommand, StopBusServosCommand}
use mentor_pi_ros.Domain.Validation.{
  validate_bus_servo_command, validate_stop_bus_servos_command, validate_bus_servo_id_list,
  check_ids, has_prior, is_bus_servo_id, check_positions,
}
use mentor_pi_ros.Domain.BusServo.Codec.{build_frame}
use mentor_pi_ros.Domain.BusServo.Scheduler.{
  MoveSlot, Scheduler, no_frame, move_frame, submit_move, accept_stop, begin_frame, promote,
  build_move_frame, encode_move, frame_or_empty, has_work, Call, submit, begin, complete,
  complete_frame, complete_kind, complete_move, complete_stop, build_stop_frame, encode_stop,
  next_generation, increment, stop_active, step, run,
}
use mentor_pi_ros.Domain.BusServo.Scheduler.Stops.{
  FrameOwned, step-FrameOwned, submits, stop_ends_earlier_moves,
}
use mentor_pi_ros.Domain.BusServo.Scheduler.Progress.{
  transmit, after, stop_frames, accepted_stop_is_sent,
}
use mentor_pi_ros.Domain.BusServo.Scheduler.Moves.{move_frames, admitted_move_is_sent}

abbrev ids : List ℕ
ids = 7 ∷ 9 ∷ 0 ∷ 0 ∷ 0 ∷ 0 ∷ 0 ∷ 0 ∷ 0 ∷ 0 ∷ 0 ∷ 0 ∷ 0 ∷ 0 ∷ 0 ∷ 0 ∷ []

abbrev slow_move : BusServoCommand
slow_move = record { count = 2; servo_id = ids; position = ids; duration_ms = 1000 }

abbrev fast_move : BusServoCommand
fast_move = record { count = 2; servo_id = ids; position = ids; duration_ms = 100 }

abbrev stop_both : StopBusServosCommand
stop_both = record { count = 2; servo_id = ids }

abbrev empty_slot : MoveSlot
empty_slot = record { command = slow_move; generation = 0; next_index = 0; valid = false }

abbrev idle_bus : Scheduler
idle_bus = record {
  pending_move = empty_slot;
  active_move = empty_slot;
  stop_command = stop_both;
  generation = 0;
  stop_watermark = 0;
  stop_next_index = 0;
  in_progress_kind = no_frame;
  stop_pending = false;
  frame_in_progress = false;
  cancel_active_after_frame = false;
  move_overwrite_count = 0;
}

-- One slow move is under way, its first frame not yet complete.
abbrev moving : Scheduler
moving = run (submit slow_move ∷ begin ∷ []) idle_bus

idle-FrameOwned : FrameOwned idle_bus
idle-FrameOwned = record { moving = λ e. ground (arith, e); cancelling = λ e. ground (arith, e) }

abbrev is_fast : BusServoCommand → Bool
is_fast command = leb command.duration_ms 500

moving-FrameOwned : FrameOwned moving
unfolding run
moving-FrameOwned =
    step-FrameOwned begin _ (step-FrameOwned (submit slow_move) idle_bus idle-FrameOwned)

stop_accepted : (accept_stop stop_both moving).1.code ≡ ok
unfolding accept_stop validate_stop_bus_servos_command validate_bus_servo_id_list check_ids
    has_prior is_bus_servo_id validate_bus_servo_command check_positions run step submit_move
    begin_frame build_move_frame encode_move promote build_frame
stop_accepted = refl

-- The slow move's frame ends, the two stop frames go out, and then the fast move begins.
abbrev later : List Call
later = submit fast_move ∷ complete true ∷ begin ∷ complete true ∷ begin ∷ complete true ∷ []

later_fast : submits is_fast later ≡ true
unfolding submits
later_fast = refl

fast_move_begins : (begin_frame (run later (accept_stop stop_both moving).0)).1.kind ≡ move_frame
unfolding accept_stop validate_stop_bus_servos_command validate_bus_servo_id_list check_ids
    has_prior is_bus_servo_id validate_bus_servo_command check_positions run step submit_move
    begin_frame build_move_frame encode_move promote build_frame complete_frame complete_kind
    complete_move complete_stop build_stop_frame encode_stop next_generation increment stop_active
fast_move_begins = refl

stop_ends_earlier_moves_example :
    (let next = begin_frame (run later (accept_stop stop_both moving).0) in
      (is_fast next.0.active_move.command ≡ true)
      × (next.1.frame ≡ frame_or_empty (encode_move next.0.active_move).1))
stop_ends_earlier_moves_example =
    stop_ends_earlier_moves is_fast moving stop_both later moving-FrameOwned stop_accepted
      later_fast fast_move_begins

idle_stop_accepted : (accept_stop stop_both idle_bus).1.code ≡ ok
unfolding accept_stop validate_stop_bus_servos_command validate_bus_servo_id_list check_ids
    has_prior is_bus_servo_id
idle_stop_accepted = refl

accepted_stop_is_sent_example :
    (let stopping = (accept_stop stop_both idle_bus).0 in
      (transmit 2 stopping ≡ stop_frames ids 0 2) × ((after 2 stopping).stop_pending ≡ false))
accepted_stop_is_sent_example =
    accepted_stop_is_sent idle_bus stop_both refl refl idle_stop_accepted

idle-no_work : has_work idle_bus ≡ false
unfolding has_work
idle-no_work = refl

move_admitted : (submit_move slow_move idle_bus).1.result.code ≡ ok
unfolding submit_move validate_bus_servo_command validate_bus_servo_id_list check_ids has_prior
    is_bus_servo_id check_positions
move_admitted = refl

admitted_move_is_sent_example :
    (let queued = (submit_move slow_move idle_bus).0 in
      (transmit 2 queued ≡ move_frames slow_move 0 2) × (has_work (after 2 queued) ≡ false))
admitted_move_is_sent_example =
    admitted_move_is_sent idle_bus slow_move refl idle-no_work refl move_admitted
