-- ===== src/Bringup/Commissioning/Ending/Abort.antt =====
-- An aborted run completes, whatever happens while it stops.
use mentor_pi_ros.Prelude.{
  ◌⊎◌, inl, inr, sym, leb, subst, ◌&&◌, both, both_when, ℕ, ◌+◌, ◌^◌, ◌≡◌, refl, ◌∙◌, ap, ◌≤◌, ◌<◌,
  true, false, ◌||◌, arith, List, [], ◌∷◌,
}
use mentor_pi_ros.Prelude.Int.{leb_ℤ, ℤ, pos, ◌≤ℤ◌, ◌-ℤ◌}
use mentor_pi_ros.Bringup.Commissioning.{
  Floats, State, Phase, awaiting_prerequisites, pre_stop, drive, post_stop, succeeded, failed,
  Command, no_command, stop_command, drive_command, interrupted,
}
use mentor_pi_ros.Bringup.Commissioning.Core.{
  is_complete, begin_post_stop, finish_post_stop, remember_failure,
}
use mentor_pi_ros.Bringup.Commissioning.Runtime.{runtime_failure}
use mentor_pi_ros.Bringup.Commissioning.Observe.{
  observe_motor_state, is_post_stop, observe_motion_authorization_publisher,
  observe_motion_authorization, observe_heartbeat, observe_diagnostics,
  observe_command_publisher_conflict, measure_motors, confirm_pre_stop, note_response,
  note_settling,
}
use mentor_pi_ros.Bringup.Commissioning.Tick.{
  Event, publisher_seen, authorized, heard, diagnosed, measured, conflict_seen, ticked, published,
  aborted, tick_post_stop, tick, has_stopped, record_command_published, request_abort, step, run,
}
use mentor_pi_ros.Bringup.Commissioning.Sound.{at_phase}
use mentor_pi_ros.Bringup.Commissioning.{MotorState}
use mentor_pi_ros.Bringup.Commissioning.Ending.{completes, either_completes}

abbrev pub stops_in : Command → ℕ
stops_in stop_command = 1
stops_in _ = 0

abbrev pub stops_of : {F : Type 0} → Event F → ℕ
stops_of event = elim event [ published said time ↦ stops_in said | _ ↦ 0 ]

-- The stops that the calls publish.
unfoldable pub stops_published : {F : Type 0} → List (Event F) → ℕ
stops_published [] = 0
stops_published (event ∷ events) = stops_of event + stops_published events

stopped_long :
    (began start now : ℤ) (commands k : ℕ)
    → began ≡ start
    → commands ≡ k
    → 10 ≤ k
    → pos 500 ≤ℤ now -ℤ start
    → (leb_ℤ (pos 500) (now -ℤ began) && leb 10 commands) ≡ true
stopped_long began start now commands k same counted ten late =
    subst (λ t. (leb_ℤ (pos 500) (now -ℤ t) && leb 10 commands) ≡ true) (sym same)
      (ground (arith, counted, ten, late))

module _ {F : Type 0} (ops : Floats F) where
  -- A run that stops since `start` and has published `commands` stops.
  record Waiting (start : ℤ) (commands : ℕ) (c : State F) : Type 0 where
    stopping : is_post_stop c ≡ true
    requested : c.abort_requested ≡ true
    started : c.phase_start_time_ms ≡ start
    counted : c.post_stop_commands ≡ commands

  abbrev Stopping : ℤ → ℕ → State F → Type 0
  Stopping start commands c = (is_complete ops c ≡ true) ⊎ Waiting start commands c

  unstopped : (start : ℤ) (k : ℕ) (c : State F) → Stopping start k c → Stopping start (0 + k) c
  unstopped start k c h = subst (λ n. Stopping start n c) (omega arith) h

  -- What is observed changes none of this.
  carried :
      (start : ℤ) (k : ℕ) (c d : State F)
      → d.phase ≡ c.phase
      → d.abort_requested ≡ c.abort_requested
      → d.phase_start_time_ms ≡ c.phase_start_time_ms
      → d.post_stop_commands ≡ c.post_stop_commands
      → Stopping start k c
      → Stopping start k d
  carried start k c d phase requested started counted (inl done) =
      inl (ap (λ p. is_complete ops (at_phase ops p c)) phase ∙ done)
  carried start k c d phase requested started counted (inr w) = inr (record {
    stopping = ap (λ p. is_post_stop (at_phase ops p c)) phase ∙ w.stopping;
    requested = requested ∙ w.requested;
    started = started ∙ w.started;
    counted = counted ∙ w.counted;
  })

  observe_motor_state-Stopping :
      (m : MotorState F) (start : ℤ) (k : ℕ) (c : State F)
      → Stopping start k c
      → Stopping start k (observe_motor_state ops m c)
  unfolding observe_motor_state measure_motors confirm_pre_stop note_response note_settling
  observe_motor_state-Stopping m start k c h =
      both (Stopping start k) _ (carried start k c _ refl refl refl refl h)
        (carried start k c _ refl refl refl refl h)

  finish_completes : (c : State F) → is_complete ops (finish_post_stop ops c) ≡ true
  unfolding finish_post_stop
  finish_completes c = either_completes ops _ c

  tick-Stopping :
      (now start : ℤ) (k : ℕ) (p : Phase) (c : State F)
      → Stopping start k (at_phase ops p c)
      → Stopping start k (tick ops now (at_phase ops p c)).1
  unfolding tick tick_post_stop
  tick-Stopping now start k awaiting_prerequisites c (inl done) = ground (arith, done)
  tick-Stopping now start k awaiting_prerequisites c (inr w) = ground (arith, w.stopping)
  tick-Stopping now start k pre_stop c (inl done) = ground (arith, done)
  tick-Stopping now start k pre_stop c (inr w) = ground (arith, w.stopping)
  tick-Stopping now start k drive c (inl done) = ground (arith, done)
  tick-Stopping now start k drive c (inr w) = ground (arith, w.stopping)
  tick-Stopping now start k post_stop c h =
      let stopping = at_phase ops post_stop c in
      let kept = remember_failure ops (runtime_failure ops stopping now) stopping in
      both {A = Command × State F} (λ result. Stopping start k result.1)
        (has_stopped ops now kept kept.post_stop_commands)
        {a = (no_command, finish_post_stop ops kept)} {b = (stop_command, kept)}
        (inl (finish_completes kept)) (carried start k stopping kept refl refl refl refl h)
  tick-Stopping now start k succeeded c h = inl refl
  tick-Stopping now start k failed c h = inl refl

  -- A command that is published moves nothing but its count.
  count_same :
      (said : Command) (time : ℤ) (p : Phase) (c : State F)
      → let d = record_command_published ops said time (at_phase ops p c) in
        (d.phase ≡ p)
        × (d.abort_requested ≡ c.abort_requested)
        × (d.phase_start_time_ms ≡ c.phase_start_time_ms)
  unfolding record_command_published
  count_same no_command time p c = (refl, refl, refl)
  count_same stop_command time p c = ground arith
  count_same drive_command time p c = ground arith

  counted_lem :
      (said : Command) (time : ℤ) (k : ℕ) (p : Phase) (c : State F)
      → is_post_stop (at_phase ops p c) ≡ true
      → c.post_stop_commands ≡ k
      → stops_in said + k < 2 ^ 32
      → (record_command_published ops said time (at_phase ops p c)).post_stop_commands
        ≡ stops_in said + k
  unfolding record_command_published
  counted_lem no_command time k p c on e small = omega (arith, e)
  counted_lem stop_command time k p c on e small = ground (arith, on, e, small)
  counted_lem drive_command time k p c on e small = ground (arith, on, e)

  count-Stopping :
      (said : Command) (time start : ℤ) (k : ℕ) (p : Phase) (c : State F)
      → stops_in said + k < 2 ^ 32
      → Stopping start k (at_phase ops p c)
      → Stopping start
          (stops_in said + k)
          (record_command_published ops said time (at_phase ops p c))
  count-Stopping said time start k p c small (inl done) =
      inl (ap (λ q. is_complete ops (at_phase ops q c)) (count_same said time p c).0 ∙ done)
  count-Stopping said time start k p c small (inr w) =
      let same = count_same said time p c in
      inr (record {
        stopping = ap (λ q. is_post_stop (at_phase ops q c)) same.0 ∙ w.stopping;
        requested = same.1 ∙ w.requested;
        started = same.2 ∙ w.started;
        counted = counted_lem said time k p c w.stopping w.counted small;
      })

  abort-Stopping :
      (now start : ℤ) (k : ℕ) (c : State F)
      → Stopping start k c
      → Stopping start k (request_abort ops now c)
  unfolding request_abort
  abort-Stopping now start k c h =
      both_when (Stopping start k) (is_complete ops c || c.abort_requested) {a = c}
        {b = begin_post_stop ops interrupted now (record c { abort_requested = true })} (λ _. h)
        (λ off. elim h [
          | inl done ↦ ground (arith, off, done)
          | inr w ↦ ground (arith, off, w.requested)
        ])

  step-Stopping :
      (event : Event F) (start : ℤ) (k : ℕ) (c : State F)
      → stops_of event + k < 2 ^ 32
      → Stopping start k c
      → Stopping start (stops_of event + k) (step ops event c)
  unfolding step observe_motion_authorization_publisher observe_motion_authorization
      observe_heartbeat observe_diagnostics observe_command_publisher_conflict
  step-Stopping (publisher_seen valid) start k c small h =
      unstopped start k _ (carried start k c _ refl refl refl refl h)
  step-Stopping (authorized a) start k c small h =
      unstopped start k _ (carried start k c _ refl refl refl refl h)
  step-Stopping (heard seen) start k c small h =
      unstopped start k _ (carried start k c _ refl refl refl refl h)
  step-Stopping (diagnosed d) start k c small h =
      unstopped start k _ (carried start k c _ refl refl refl refl h)
  step-Stopping (measured m) start k c small h =
      unstopped start k _ (observe_motor_state-Stopping m start k c h)
  step-Stopping (conflict_seen conflict) start k c small h =
      unstopped start k _ (carried start k c _ refl refl refl refl h)
  step-Stopping (ticked now) start k c small h =
      unstopped start k _ (tick-Stopping now start k c.phase c h)
  step-Stopping (published said time) start k c small h =
      count-Stopping said time start k c.phase c small h
  step-Stopping (aborted now) start k c small h =
      unstopped start k _ (abort-Stopping now start k c h)

  run-Stopping :
      (events : List (Event F)) (start : ℤ) (k : ℕ) (c : State F)
      → stops_published events + k < 2 ^ 32
      → Stopping start k c
      → Stopping start (stops_published events + k) (run ops events c)
  unfolding run stops_published
  run-Stopping [] start k c small h = unstopped start k c h
  run-Stopping (event ∷ events) start k c small h =
      subst (λ n. Stopping start n (run ops events (step ops event c))) (omega arith)
        (run-Stopping events start (stops_of event + k) (step ops event c) (omega (arith, small))
          (step-Stopping event start k c (omega (arith, small)) h))

  abort-begins :
      (start : ℤ) (c : State F)
      → is_complete ops c ≡ false
      → c.abort_requested ≡ false
      → Stopping start 0 (request_abort ops start c)
  unfolding request_abort begin_post_stop
  abort-begins start c going fresh =
      both_when (Stopping start 0) (is_complete ops c || c.abort_requested) {a = c}
        {b = begin_post_stop ops interrupted start (record c { abort_requested = true })}
        (λ on. ground (arith, on, going, fresh))
        (λ _. inr (record { stopping = refl; requested = refl; started = refl; counted = refl }))

  last_tick :
      (k : ℕ) (start now : ℤ) (p : Phase) (c : State F)
      → Stopping start k (at_phase ops p c)
      → 10 ≤ k
      → pos 500 ≤ℤ now -ℤ start
      → is_complete ops (tick ops now (at_phase ops p c)).1 ≡ true
  unfolding tick
  last_tick k start now awaiting_prerequisites c (inl done) ten late = ground (arith, done)
  last_tick k start now awaiting_prerequisites c (inr w) ten late = ground (arith, w.stopping)
  last_tick k start now pre_stop c (inl done) ten late = ground (arith, done)
  last_tick k start now pre_stop c (inr w) ten late = ground (arith, w.stopping)
  last_tick k start now drive c (inl done) ten late = ground (arith, done)
  last_tick k start now drive c (inr w) ten late = ground (arith, w.stopping)
  last_tick k start now post_stop c (inl done) ten late = ground (arith, done)
  last_tick k start now post_stop c (inr w) ten late =
      let stopping = at_phase ops post_stop c in
      completes ops now (remember_failure ops (runtime_failure ops stopping now) stopping) (
        stopped_long c.phase_start_time_ms start now c.post_stop_commands k w.started w.counted ten
          late)
  last_tick k start now succeeded c h ten late = refl
  last_tick k start now failed c h ten late = refl

  -- After an abort of a run that goes on, and whatever the node observes, ticks, publishes or aborts
  -- after it: when at least ten stops (and fewer than 2 ^ 32) have been published in these calls, a
  -- tick at least half a second after the abort leaves the run complete.
  pub aborted-completes :
      (c : State F) (start : ℤ) (events : List (Event F)) (now : ℤ)
      → is_complete ops c ≡ false
      → c.abort_requested ≡ false
      → 10 ≤ stops_published events
      → stops_published events < 2 ^ 32
      → pos 500 ≤ℤ now -ℤ start
      → is_complete ops (step ops (ticked now) (run ops (aborted start ∷ events) c)) ≡ true
  unfolding run step
  aborted-completes c start events now going fresh ten small late =
      let base = request_abort ops start c in
      let later = run ops events base in
      last_tick (stops_published events + 0) start now later.phase later
        (run-Stopping events start 0 base (omega (arith, small)) (abort-begins start c going fresh))
        (omega (arith, ten)) late
