-- ===== src/Domain/BusServo/Scheduler/Moves.antt =====
-- bus_servo.cc, BusServoScheduler: an admitted move is sent, entry by entry, when the UART owner
-- keeps transmitting.
use mentor_pi_ros.Prelude.{
  ℕ, zero, suc, ◌+◌, ◌-◌, ◌/◌, ◌%◌, ◌<◌, ◌≡◌, refl, subst, true, false, some, List, [], ◌∷◌, arith,
  get_or, length, ltb,
}
use mentor_pi_ros.Domain.Result.{ok, ok_result}
use mentor_pi_ros.Domain.Commands.{BusServoCommand}
use mentor_pi_ros.Domain.Validation.Servos.{ValidMove, validate_bus_servo_command_lem}
use mentor_pi_ros.Domain.BusServo.Codec.{BusServoFrame, built_frame, build_frame, move_time_write}
use mentor_pi_ros.Domain.BusServo.Scheduler.{
  MoveSlot, Scheduler, submit_move, begin_frame, promote, build_move_frame, encode_move,
  complete_frame, complete_kind, complete_move, has_work,
}
use mentor_pi_ros.Domain.BusServo.Scheduler.Progress.{transmit, after}

-- The frame that moves the servo at position i of the command: the position and the duration, low
-- byte first.
abbrev pub move_frame_of : BusServoCommand → ℕ → BusServoFrame
move_frame_of command i =
    built_frame (get_or command.servo_id i 0) move_time_write
      (get_or command.position i 0 % 256
        ∷ get_or command.position i 0 / 256 % 256
        ∷ command.duration_ms % 256
        ∷ command.duration_ms / 256 % 256
        ∷ [])
      4

unfoldable pub move_frames : BusServoCommand → ℕ → ℕ → List BusServoFrame
move_frames command i zero = []
move_frames command i (suc n) = move_frame_of command i ∷ move_frames command (i + 1) n

-- What holds of a move whose next entry is i of the command: it waits until its first frame.
record Moving (command : BusServoCommand) (i : ℕ) (s : Scheduler) : Type 0 where
  idle : s.frame_in_progress ≡ false
  no_stop : s.stop_pending ≡ false
  kept : s.cancel_active_after_frame ≡ false
  active : s.active_move.valid ≡ ltb i command.count
  waiting : s.pending_move.valid ≡ false
  same_command : s.active_move.command ≡ command
  next : s.active_move.next_index ≡ i

module _ (command : BusServoCommand) (valid : ValidMove command) where
  encode_move-valid :
      (slot : MoveSlot) (i : ℕ)
      → slot.command ≡ command
      → slot.next_index ≡ i
      → i < command.count
      → encode_move slot ≡ (ok_result, some (move_frame_of command i))
  unfolding encode_move build_frame
  encode_move-valid slot i same at lt =
      ground (arith, valid.ids.smallest i lt, valid.ids.largest i lt)

  begin-Moving :
      (i : ℕ) (s : Scheduler)
      → i < command.count
      → Moving command i s
      → ((begin_frame s).1.frame ≡ move_frame_of command i)
        × Moving command (i + 1) (complete_frame true (begin_frame s).0)
  unfolding begin_frame promote build_move_frame complete_frame complete_kind complete_move
  begin-Moving i s lt h =
      let built = encode_move-valid s.active_move i h.same_command h.next lt in
      (
        ground arith,
        record {
          idle = ground arith;
          no_stop = ground arith;
          kept = ground arith;
          active = ground (arith, valid.ids.batch);
          waiting = ground arith;
          same_command = ground arith;
          next = ground (arith, valid.ids.batch);
        },
      )

  transmit-Moving :
      (n i : ℕ) (s : Scheduler)
      → i + n ≡ command.count
      → Moving command i s
      → (transmit n s ≡ move_frames command i n) × Moving command command.count (after n s)
  unfolding transmit after move_frames
  transmit-Moving zero i s whole h =
      (refl, subst (λ t. Moving command t s) (omega (arith, whole)) h)
  transmit-Moving (suc n) i s whole h =
      let first = begin-Moving i s (omega (arith, whole)) h in
      let rest = transmit-Moving n (i + 1) _ (omega (arith, whole)) first.1 in
      (rw (first.0, rest.0), rest.1)

-- A move in the pending slot, and an idle bus.
record Queued (command : BusServoCommand) (s : Scheduler) : Type 0 where
  idle : s.frame_in_progress ≡ false
  no_stop : s.stop_pending ≡ false
  kept : s.cancel_active_after_frame ≡ false
  free : s.active_move.valid ≡ false
  waiting : s.pending_move.valid ≡ true
  same_command : s.pending_move.command ≡ command
  next : s.pending_move.next_index ≡ 0

submit_move-Queued :
    (s : Scheduler) (command : BusServoCommand)
    → has_work s ≡ false
    → s.cancel_active_after_frame ≡ false
    → (submit_move command s).1.result.code ≡ ok
    → Queued command (submit_move command s).0
unfolding submit_move has_work
submit_move-Queued s command idle kept done = record {
  idle = ground arith;
  no_stop = ground arith;
  kept = ground arith;
  free = ground arith;
  waiting = ground arith;
  same_command = ground arith;
  next = ground arith;
}

begin-Queued :
    (s : Scheduler) (command : BusServoCommand)
    → ValidMove command
    → Queued command s
    → ((begin_frame s).1.frame ≡ move_frame_of command 0)
      × Moving command 1 (complete_frame true (begin_frame s).0)
unfolding begin_frame promote build_move_frame complete_frame complete_kind complete_move
begin-Queued s command valid h =
    let built =
      encode_move-valid command valid s.pending_move 0 h.same_command h.next valid.ids.some_id in
    (
      ground arith,
      record {
        idle = ground arith;
        no_stop = ground arith;
        kept = ground arith;
        active = ground (arith, valid.ids.batch);
        waiting = ground arith;
        same_command = ground arith;
        next = ground arith;
      },
    )

transmit-Queued :
    (n : ℕ) (s : Scheduler) (command : BusServoCommand)
    → ValidMove command
    → Queued command s
    → suc n ≡ command.count
    → (transmit (suc n) s ≡ move_frames command 0 (suc n))
      × Moving command command.count (after (suc n) s)
unfolding transmit after move_frames
transmit-Queued n s command valid h whole =
    let first = begin-Queued s command valid h in
    let rest = transmit-Moving command valid n 1 _ (omega (arith, whole)) first.1 in
    (rw (first.0, rest.0), rest.1)

Moving-has_work :
    (command : BusServoCommand) (s : Scheduler)
    → Moving command command.count s
    → has_work s ≡ false
unfolding has_work
Moving-has_work command s h = ground arith

admitted_move-ValidMove :
    (s : Scheduler) (command : BusServoCommand)
    → length command.servo_id ≡ 16
    → (submit_move command s).1.result.code ≡ ok
    → ValidMove command
unfolding submit_move
admitted_move-ValidMove s command len done =
    (validate_bus_servo_command_lem command len).0 (ground arith)

-- When a move is admitted while the scheduler has nothing to do (nor its flag set that cancels a
-- move after the current frame) and the owner keeps transmitting,
-- the next frames on the bus move the command's servos, in their order and each once, to the
-- command's positions; then nothing is left to do.
pub admitted_move_is_sent :
    (s : Scheduler) (command : BusServoCommand)
    → length command.servo_id ≡ 16
    → has_work s ≡ false
    → s.cancel_active_after_frame ≡ false
    → (submit_move command s).1.result.code ≡ ok
    → (let queued = (submit_move command s).0 in
        (transmit command.count queued ≡ move_frames command 0 command.count)
        × (has_work (after command.count queued) ≡ false))
admitted_move_is_sent s command len idle kept done =
    let valid = admitted_move-ValidMove s command len done in
    let whole : suc (command.count - 1) ≡ command.count = omega (arith, valid.ids.some_id) in
    let sent =
      transmit-Queued (command.count - 1) _ command valid
        (submit_move-Queued s command idle kept done) whole in
    let queued = (submit_move command s).0 in
    (
      subst (λ n. transmit n queued ≡ move_frames command 0 n) whole sent.0,
      Moving-has_work command _
          (subst (λ n. Moving command command.count (after n queued)) whole sent.1),
    )
