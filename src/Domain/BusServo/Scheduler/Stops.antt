-- ===== src/Domain/BusServo/Scheduler/Stops.antt =====
-- bus_servo.cc, BusServoScheduler: an accepted stop ends every earlier move.
use mentor_pi_ros.Prelude.{◌≡◌, ◌⊎◌, Bool, true, false, ◌&&◌, List, [], ◌∷◌, arith}
use mentor_pi_ros.Domain.Result.{ok}
use mentor_pi_ros.Domain.Commands.{BusServoCommand, StopBusServosCommand}
use mentor_pi_ros.Domain.BusServo.Scheduler.{
  ScheduledBusFrameKind, no_frame, move_frame, stop_frame, Scheduler, submit_move, stop_active,
  accept_stop, frame_or_empty, encode_move, build_move_frame, build_stop_frame, promote,
  begin_frame, complete_stop, complete_move, complete_kind, complete_frame, cancel_all, Call,
  submit, stop, begin, complete, cancel, step, run,
}

-- The frame in progress is a move of the active slot or a frame of the pending stop, and only a
-- move in progress is marked for cancellation.
pub record FrameOwned (s : Scheduler) : Type 0 where
  pub moving :
      s.frame_in_progress ≡ true
      → (s.in_progress_kind ≡ move_frame)
        ⊎ ((s.in_progress_kind ≡ stop_frame) × (s.stop_pending ≡ true))
  pub cancelling :
      s.cancel_active_after_frame ≡ true
      → (s.frame_in_progress ≡ true) × (s.in_progress_kind ≡ move_frame)

submit-FrameOwned :
    (s : Scheduler) (command : BusServoCommand)
    → FrameOwned s
    → FrameOwned (submit_move command s).0
unfolding submit_move
submit-FrameOwned s command h = ground arith

stop-FrameOwned :
    (s : Scheduler) (command : StopBusServosCommand)
    → FrameOwned s
    → FrameOwned (accept_stop command s).0
unfolding accept_stop stop_active
stop-FrameOwned s command h = ground arith

begin-FrameOwned : (s : Scheduler) → FrameOwned s → FrameOwned (begin_frame s).0
unfolding begin_frame build_stop_frame build_move_frame promote
begin-FrameOwned s h = ground arith

complete_kind-FrameOwned :
    (kind : ScheduledBusFrameKind) (transmitted : Bool) (s : Scheduler)
    → FrameOwned (record (complete_kind kind transmitted s) {
      frame_in_progress = false;
      cancel_active_after_frame = false;
      in_progress_kind = no_frame;
    })
complete_kind-FrameOwned kind transmitted s = ground arith

complete-FrameOwned :
    (s : Scheduler) (transmitted : Bool) → FrameOwned s → FrameOwned (complete_frame transmitted s)
unfolding complete_frame
complete-FrameOwned s transmitted h =
    ground (arith, complete_kind-FrameOwned s.in_progress_kind transmitted s)

-- Whatever the owner calls next, the frame in progress stays a move of the active slot or a frame
-- of the pending stop, and only a move in progress is marked for cancellation.
pub step-FrameOwned : (call : Call) (s : Scheduler) → FrameOwned s → FrameOwned (step call s)
unfolding step cancel_all
step-FrameOwned (submit command) s h = submit-FrameOwned s command h
step-FrameOwned (stop command) s h = stop-FrameOwned s command h
step-FrameOwned begin s h = begin-FrameOwned s h
step-FrameOwned (complete transmitted) s h = complete-FrameOwned s transmitted h
step-FrameOwned cancel s h = ground arith

-- Every move that may still send a frame passes the test.
record Fresh (p : BusServoCommand → Bool) (s : Scheduler) : Type 0 where
  inv : FrameOwned s
  waiting : s.pending_move.valid ≡ true → p s.pending_move.command ≡ true
  sending :
      s.active_move.valid ≡ true
      → s.cancel_active_after_frame ≡ false
      → p s.active_move.command ≡ true

-- Every move that is submitted passes the test.
unfoldable pub submits : (BusServoCommand → Bool) → List Call → Bool
submits p [] = true
submits p (submit command ∷ calls) = p command && submits p calls
submits p (call ∷ calls) = submits p calls

module _ (p : BusServoCommand → Bool) where
  accept_stop-Fresh :
      (s : Scheduler) (command : StopBusServosCommand)
      → FrameOwned s
      → (accept_stop command s).1.code ≡ ok
      → Fresh p (accept_stop command s).0
  unfolding accept_stop stop_active
  accept_stop-Fresh s command h done = record {
    inv = stop-FrameOwned s command h;
    waiting = ground arith;
    sending = ground arith;
  }

  submit-Fresh :
      (s : Scheduler) (command : BusServoCommand)
      → p command ≡ true
      → Fresh p s
      → Fresh p (submit_move command s).0
  unfolding submit_move
  submit-Fresh s command new h = record {
    inv = submit-FrameOwned s command h.inv;
    waiting = ground arith;
    sending = ground arith;
  }

  stop-Fresh :
      (s : Scheduler) (command : StopBusServosCommand)
      → Fresh p s
      → Fresh p (accept_stop command s).0
  unfolding accept_stop stop_active
  stop-Fresh s command h = record {
    inv = stop-FrameOwned s command h.inv;
    waiting = ground arith;
    sending = ground arith;
  }

  begin-Fresh : (s : Scheduler) → Fresh p s → Fresh p (begin_frame s).0
  unfolding begin_frame build_stop_frame build_move_frame promote
  begin-Fresh s h = record {
    inv = begin-FrameOwned s h.inv;
    waiting = ground arith;
    sending = ground arith;
  }

  complete_kind-Fresh :
      (kind : ScheduledBusFrameKind) (transmitted : Bool) (s : Scheduler)
      → Fresh p s
      → s.frame_in_progress ≡ true
      → s.in_progress_kind ≡ kind
      → Fresh p record (complete_kind kind transmitted s) {
        frame_in_progress = false;
        cancel_active_after_frame = false;
        in_progress_kind = no_frame;
      }
  unfolding complete_kind complete_move complete_stop
  complete_kind-Fresh no_frame transmitted s h flying shown = ground arith
  complete_kind-Fresh move_frame transmitted s h flying shown = ground arith
  complete_kind-Fresh stop_frame transmitted s h flying shown = ground arith

  complete-Fresh :
      (s : Scheduler) (transmitted : Bool) → Fresh p s → Fresh p (complete_frame transmitted s)
  unfolding complete_frame
  complete-Fresh s transmitted h =
      ground (arith, complete_kind-Fresh s.in_progress_kind transmitted s h)

  run-Fresh :
      (calls : List Call) (s : Scheduler)
      → submits p calls ≡ true
      → Fresh p s
      → Fresh p (run calls s)
  unfolding run submits step cancel_all
  run-Fresh [] s new h = h
  run-Fresh (submit command ∷ calls) s new h =
      run-Fresh calls _ (ground arith) (submit-Fresh s command (ground arith) h)
  run-Fresh (stop command ∷ calls) s new h = run-Fresh calls _ new (stop-Fresh s command h)
  run-Fresh (begin ∷ calls) s new h = run-Fresh calls _ new (begin-Fresh s h)
  run-Fresh (complete transmitted ∷ calls) s new h =
      run-Fresh calls _ new (complete-Fresh s transmitted h)
  run-Fresh (cancel ∷ calls) s new h = run-Fresh calls _ new (ground arith)

  begin_frame-move :
      (s : Scheduler)
      → Fresh p s
      → (begin_frame s).1.kind ≡ move_frame
      → (p (begin_frame s).0.active_move.command ≡ true)
        × ((begin_frame s).1.frame ≡ frame_or_empty (encode_move (begin_frame s).0.active_move).1)
  unfolding begin_frame build_stop_frame build_move_frame promote
  begin_frame-move s h kind = ground arith

  -- Take any test on move commands that holds of every move submitted after an accepted stop. Each
  -- move frame that begins later, whatever is called in between, encodes a move that passes the
  -- test, so a move from before the stop that is not submitted again sends no further frame.
  pub stop_ends_earlier_moves :
      (s : Scheduler) (command : StopBusServosCommand) (calls : List Call)
      → FrameOwned s
      → (accept_stop command s).1.code ≡ ok
      → submits p calls ≡ true
      → (begin_frame (run calls (accept_stop command s).0)).1.kind ≡ move_frame
      → (let next = begin_frame (run calls (accept_stop command s).0) in
          (p next.0.active_move.command ≡ true)
          × (next.1.frame ≡ frame_or_empty (encode_move next.0.active_move).1))
  stop_ends_earlier_moves s command calls h done new kind =
      begin_frame-move _ (run-Fresh calls _ new (accept_stop-Fresh s command h done)) kind
