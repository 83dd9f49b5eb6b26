-- ===== src/Domain/BusServo/Scheduler/Progress.antt =====
-- bus_servo.cc, BusServoScheduler: an accepted batch is sent, entry by entry, when the UART owner
-- keeps transmitting.
use mentor_pi_ros.Prelude.{
  ℕ, zero, suc, ◌+◌, ◌<◌, ◌≡◌, refl, subst, true, false, some, List, [], ◌∷◌, arith, get_or, length,
  ltb,
}
use mentor_pi_ros.Domain.Result.{ok, ok_result}
use mentor_pi_ros.Domain.Commands.{StopBusServosCommand}
use mentor_pi_ros.Domain.Validation.{validate_stop_bus_servos_command}
use mentor_pi_ros.Domain.Validation.Servos.{ValidIds, validate_bus_servo_id_list_lem}
use mentor_pi_ros.Domain.BusServo.Codec.{BusServoFrame, built_frame, build_frame, move_stop}
use mentor_pi_ros.Domain.BusServo.Scheduler.{
  Scheduler, accept_stop, stop_active, begin_frame, build_stop_frame, encode_stop, complete_frame,
  complete_kind, complete_stop,
}

-- The owner's loop: begin a frame, transmit it, complete it.
unfoldable pub transmit : ℕ → Scheduler → List BusServoFrame
transmit zero s = []
transmit (suc n) s = (begin_frame s).1.frame ∷ transmit n (complete_frame true (begin_frame s).0)

unfoldable pub after : ℕ → Scheduler → Scheduler
after zero s = s
after (suc n) s = after n (complete_frame true (begin_frame s).0)

-- The frames that stop the servos at n positions of the list from i on.
unfoldable pub stop_frames : List ℕ → ℕ → ℕ → List BusServoFrame
stop_frames ids i zero = []
stop_frames ids i (suc n) = built_frame (get_or ids i 0) move_stop [] 0 ∷ stop_frames ids (i + 1) n

-- What holds of a stop whose next entry is i of the command.
record Stopping (command : StopBusServosCommand) (i : ℕ) (s : Scheduler) : Type 0 where
  idle : s.frame_in_progress ≡ false
  pending : s.stop_pending ≡ ltb i command.count
  same_command : s.stop_command ≡ command
  next : s.stop_next_index ≡ i

module _ (command : StopBusServosCommand) (valid : ValidIds command.count command.servo_id) where
  encode_stop-valid :
      (i : ℕ)
      → i < command.count
      → encode_stop command i
        ≡ (ok_result, some (built_frame (get_or command.servo_id i 0) move_stop [] 0))
  unfolding encode_stop build_frame
  encode_stop-valid i lt = ground (arith, valid.smallest i lt, valid.largest i lt)

  begin-Stopping :
      (i : ℕ) (s : Scheduler)
      → i < command.count
      → Stopping command i s
      → ((begin_frame s).1.frame ≡ built_frame (get_or command.servo_id i 0) move_stop [] 0)
        × Stopping command (i + 1) (complete_frame true (begin_frame s).0)
  unfolding begin_frame build_stop_frame complete_frame complete_kind complete_stop
  begin-Stopping i s lt h = (
    ground (arith, encode_stop-valid i lt),
    record {
      idle = ground (arith, encode_stop-valid i lt);
      pending = ground (arith, encode_stop-valid i lt, valid.batch);
      same_command = ground (arith, encode_stop-valid i lt);
      next = ground (arith, encode_stop-valid i lt, valid.batch);
    },
  )

  transmit-Stopping :
      (n i : ℕ) (s : Scheduler)
      → i + n ≡ command.count
      → Stopping command i s
      → (transmit n s ≡ stop_frames command.servo_id i n)
        × Stopping command command.count (after n s)
  unfolding transmit after stop_frames
  transmit-Stopping zero i s whole h =
      (refl, subst (λ t. Stopping command t s) (omega (arith, whole)) h)
  transmit-Stopping (suc n) i s whole h =
      let first = begin-Stopping i s (omega (arith, whole)) h in
      let rest = transmit-Stopping n (i + 1) _ (omega (arith, whole)) first.1 in
      (rw (first.0, rest.0), rest.1)

accept_stop-Stopping :
    (s : Scheduler) (command : StopBusServosCommand)
    → ValidIds command.count command.servo_id
    → s.frame_in_progress ≡ false
    → (accept_stop command s).1.code ≡ ok
    → Stopping command 0 (accept_stop command s).0
unfolding accept_stop stop_active
accept_stop-Stopping s command valid idle done = record {
  idle = ground arith;
  pending = ground (arith, valid.some_id);
  same_command = ground arith;
  next = ground arith;
}

accepted_stop-ValidIds :
    (s : Scheduler) (command : StopBusServosCommand)
    → length command.servo_id ≡ 16
    → (accept_stop command s).1.code ≡ ok
    → ValidIds command.count command.servo_id
unfolding accept_stop validate_stop_bus_servos_command
accepted_stop-ValidIds s command len done =
    (validate_bus_servo_id_list_lem command.count command.servo_id len).0 (ground arith)

-- When a stop is accepted between two frames and the owner keeps transmitting, the next frames on
-- the bus are the stop frames of the command's servos, in their order and each once, whatever
-- moves are queued; then the stop is over.
pub accepted_stop_is_sent :
    (s : Scheduler) (command : StopBusServosCommand)
    → length command.servo_id ≡ 16
    → s.frame_in_progress ≡ false
    → (accept_stop command s).1.code ≡ ok
    → (let stopping = (accept_stop command s).0 in
        (transmit command.count stopping ≡ stop_frames command.servo_id 0 command.count)
        × ((after command.count stopping).stop_pending ≡ false))
accepted_stop_is_sent s command len idle done =
    let valid = accepted_stop-ValidIds s command len done in
    let sent =
      transmit-Stopping command valid command.count 0 _ (omega arith)
        (accept_stop-Stopping s command valid idle done) in
    (sent.0, ground (arith, sent.1.pending))
