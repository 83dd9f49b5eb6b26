-- ===== src/Bringup/Commissioning/Evidence/Flags.antt =====
-- The flags of a run are set by the motor states that they stand for.
use mentor_pi_ros.Prelude.{
  ltb, both, ℕ, zero, suc, ◌-◌, ◌+◌, ◌<◌, ◌≡◌, ◌≢◌, ◌⊎◌, inl, inr, refl, subst, Bool, true, not,
  ◌&&◌, ◌||◌, arith, List, [], ◌∷◌, ◌==◌, get_or, length, if◌then◌else◌,
}
use mentor_pi_ros.Prelude.Int.{◌-ℤ◌, ◌+ℤ◌, leb_ℤ, ℤ, pos, negsuc, ◌≤ℤ◌}
use mentor_pi_ros.Bringup.Commissioning.{
  Floats, State, MotorState, Phase, awaiting_prerequisites, pre_stop, drive, post_stop, succeeded,
  failed, Command, no_command, stop_command, drive_command, interrupted, command_publisher_conflict,
  mcu_reset_detected, prerequisite_timeout, pre_stop_not_confirmed,
}
use mentor_pi_ros.Bringup.Commissioning.Motion.{
  saturating_difference, all_of, near_target, encoder_delta, selected_target_matches,
  motor_targets_are_zero, motors_are_stationary, turns_forward, turns_backward, motors,
}
use mentor_pi_ros.Bringup.Commissioning.Core.{
  is_driving, is_complete, begin_post_stop, finish_post_stop, lock_prerequisites,
}
use mentor_pi_ros.Bringup.Commissioning.Observe.{
  is_post_stop, measure_motors, with_motor_state, observe_motor_state, confirm_pre_stop,
  note_response, note_settling, is_on_target, has_responded, is_settling,
}
use mentor_pi_ros.Bringup.Commissioning.Tick.{tick, request_abort, record_command_published}
use mentor_pi_ros.Bringup.Commissioning.Sound.{at_phase}
use mentor_pi_ros.Bringup.Commissioning.Runtime.{runtime_failure}
use mentor_pi_ros.Bringup.Commissioning.Core.{remember_failure, prerequisites_satisfied}
use mentor_pi_ros.Bringup.Commissioning.Motion.{near_target, motor_state_is_finite}
use mentor_pi_ros.Bringup.Commissioning.Tick.{
  tick_awaiting, tick_pre_stop, tick_drive, tick_post_stop, unless_failing, start_drive,
  has_stopped, is_out_of_time,
}
use mentor_pi_ros.Bringup.Commissioning.Evidence.{
  OnTarget, Responding, Resting, Stopped, Kept, same_Kept, begin_post_stop-Kept,
}

all_of_lem :
    {A : Type 0} (test : A → Bool) (xs : List A) (d : A) (i : ℕ)
    → all_of test xs ≡ true
    → i < length xs
    → test (get_or xs i d) ≡ true
unfolding all_of
all_of_lem test [] d i h lt = absurd (omega (arith, lt))
all_of_lem test (x ∷ xs) d zero h lt = ground (arith, h)
all_of_lem test (x ∷ xs) d (suc i) h lt =
    all_of_lem test xs d i (ground (arith, h)) (omega (arith, lt))

pub first_of : (a b : Bool) → (a && b) ≡ true → a ≡ true
first_of a b h = ground (arith, h)

pub rest_of : (a b : Bool) → (a && b) ≡ true → b ≡ true
rest_of a b h = ground (arith, h)

chosen : (k n : ℕ) (a b : Bool) → k ≡ n → (if k == n then a else b) ≡ true → a ≡ true
chosen k n a b e h = ground (arith, e, h)

unchosen : (k n : ℕ) (a b : Bool) → k ≢ n → (if k == n then a else b) ≡ true → b ≡ true
unchosen k n a b ne h = ground (arith, ne, h)

three : (a b c : Bool) → (a && b && c) ≡ true → (a ≡ true) × (b ≡ true) × (c ≡ true)
three a b c h = ground (arith, h)

four :
    (a b c d : Bool) → (a && b && c && d) ≡ true → (a ≡ true) × (b ≡ true) × (c ≡ true) × (d ≡ true)
four a b c d h = ground (arith, h)

either_pair :
    (a b c d : Bool)
    → ((a && b) || (c && d)) ≡ true
    → ((a ≡ true) × (b ≡ true)) ⊎ ((c ≡ true) × (d ≡ true))
either_pair a b c d h = ground (arith, h)

-- A difference that is clamped to 64 bits is as far from zero as two ticks only when the true one is.
clamped_up : (left right : ℤ) → pos 2 ≤ℤ saturating_difference left right → pos 2 ≤ℤ left -ℤ right
unfolding saturating_difference ◌-ℤ◌ ◌+ℤ◌
clamped_up left right h = ground arith

clamped_down :
    (left right : ℤ) → saturating_difference left right ≤ℤ negsuc 1 → left -ℤ right ≤ℤ negsuc 1
unfolding saturating_difference ◌-ℤ◌ ◌+ℤ◌
clamped_down left right h = ground arith

travel_lem :
    (forward backward : Bool) (left right : ℤ)
    → ((forward && leb_ℤ (pos 2) (saturating_difference left right))
        || (backward && leb_ℤ (saturating_difference left right) (negsuc 1)))
      ≡ true
    → ((forward ≡ true) × (pos 2 ≤ℤ left -ℤ right))
      ⊎ ((backward ≡ true) × (left -ℤ right ≤ℤ negsuc 1))
travel_lem forward backward left right h =
    ground (arith, h, clamped_up left right, clamped_down left right)

either_of : (a b : Bool) → (a || b) ≡ true → (a ≡ true) ⊎ (b ≡ true)
either_of a b h = ground (arith, h)

-- A flag that a test overwrites when it is due.
overwritten :
    (due now before : Bool)
    → (if due then now else before) ≡ true
    → (before ≡ true) ⊎ ((due ≡ true) × (now ≡ true))
overwritten due now before h = ground (arith, h)

module _ {F : Type 0} (ops : Floats F) where
  lock-Kept : (now : ℤ) (c : State F) → Kept ops c (lock_prerequisites ops now c)
  unfolding lock_prerequisites
  lock-Kept now c = record { target = λ h. h; response = λ h. h; rest = λ h. h }

  start_drive-Kept : (now : ℤ) (c : State F) → Kept ops c (start_drive ops now c)
  unfolding start_drive
  start_drive-Kept now c = record { target = λ h. h; response = λ h. h; rest = λ h. h }

  finish-Kept : (c : State F) → Kept ops c (finish_post_stop ops c)
  unfolding finish_post_stop
  finish-Kept c = record { target = λ h. h; response = λ h. h; rest = λ h. h }

  abbrev Leaves : State F → Command × State F → Type 0
  Leaves c result = Kept ops c result.1

  awaiting-Kept : (now : ℤ) (c : State F) → Leaves c (tick_awaiting ops now c)
  unfolding tick_awaiting
  awaiting-Kept now c =
      both (Leaves c) c.observed.publisher_conflict
        (begin_post_stop-Kept ops command_publisher_conflict now c)
        (both (Leaves c)
          (c.observed.heartbeat_discontinuity || c.observed.diagnostics_discontinuity)
          (begin_post_stop-Kept ops mcu_reset_detected now c)
          (both (Leaves c) (prerequisites_satisfied ops c now) (lock-Kept now c) (
            both (Leaves c) (is_out_of_time ops now c)
              (begin_post_stop-Kept ops prerequisite_timeout now c) (same_Kept ops c))))

  pre_stop-Kept : (now : ℤ) (c : State F) → Leaves c (tick_pre_stop ops now c)
  unfolding tick_pre_stop
  pre_stop-Kept now c =
      both (Leaves c) (has_stopped ops now c c.pre_stop_commands)
        (both (Leaves c) (not c.pre_stop_zero_confirmed)
          (begin_post_stop-Kept ops pre_stop_not_confirmed now c) (start_drive-Kept now c))
        (same_Kept ops c)

  drive-Kept : (now : ℤ) (c : State F) → Leaves c (tick_drive ops now c)
  unfolding tick_drive
  drive-Kept now c = both (Leaves c) _ (begin_post_stop-Kept ops _ now c) (same_Kept ops c)

  post_stop-Kept : (now : ℤ) (c : State F) → Leaves c (tick_post_stop ops now c)
  unfolding tick_post_stop
  post_stop-Kept now c = both (Leaves c) _ (finish-Kept c) (same_Kept ops c)

  unless_failing-Kept :
      (now : ℤ) (c : State F) (result : Command × State F)
      → Leaves c result
      → Leaves c (unless_failing ops now c result)
  unfolding unless_failing
  unless_failing-Kept now c result h = both (Leaves c) _ h (begin_post_stop-Kept ops _ now c)

  pub tick-Kept :
      (now : ℤ) (p : Phase) (c : State F)
      → Leaves (at_phase ops p c) (tick ops now (at_phase ops p c))
  unfolding tick
  tick-Kept now awaiting_prerequisites c = awaiting-Kept now (at_phase ops awaiting_prerequisites c)
  tick-Kept now pre_stop c =
      unless_failing-Kept now (at_phase ops pre_stop c) _
        (pre_stop-Kept now (at_phase ops pre_stop c))
  tick-Kept now drive c =
      unless_failing-Kept now (at_phase ops drive c) _ (drive-Kept now (at_phase ops drive c))
  tick-Kept now post_stop c =
      let stopping = at_phase ops post_stop c in
      let kept =
        post_stop-Kept now (remember_failure ops (runtime_failure ops stopping now) stopping) in
      record { target = kept.target; response = kept.response; rest = kept.rest }
  tick-Kept now succeeded c = same_Kept ops (at_phase ops succeeded c)
  tick-Kept now failed c = same_Kept ops (at_phase ops failed c)

  pub count-Kept :
      (command : Command) (time : ℤ) (c : State F)
      → Kept ops c (record_command_published ops command time c)
  unfolding record_command_published
  count-Kept no_command time c = same_Kept ops c
  count-Kept stop_command time c = record {
    target = λ h. ground (arith, h);
    response = λ h. ground (arith, h);
    rest = λ h. ground (arith, h);
  }
  count-Kept drive_command time c = record {
    target = λ h. ground (arith, h);
    response = λ h. ground (arith, h);
    rest = λ h. ground (arith, h);
  }

  pub abort-Kept : (now : ℤ) (c : State F) → Kept ops c (request_abort ops now c)
  unfolding request_abort
  abort-Kept now c =
      let from = begin_post_stop-Kept ops interrupted now (record c { abort_requested = true }) in
      both (Kept ops c) (is_complete ops c || c.abort_requested) {a = c}
        {b = begin_post_stop ops interrupted now (record c { abort_requested = true })}
        (same_Kept ops c)
        (record { target = from.target; response = from.response; rest = from.rest })

  -- The phase of a state, from its tests.
  driving_lem : (p : Phase) (c : State F) → is_driving ops (at_phase ops p c) ≡ true → p ≡ drive
  driving_lem awaiting_prerequisites c h = ground (arith, h)
  driving_lem pre_stop c h = ground (arith, h)
  driving_lem drive c h = refl
  driving_lem post_stop c h = ground (arith, h)
  driving_lem succeeded c h = ground (arith, h)
  driving_lem failed c h = ground (arith, h)

  stopping_lem : (p : Phase) (c : State F) → is_post_stop (at_phase ops p c) ≡ true → p ≡ post_stop
  stopping_lem awaiting_prerequisites c h = ground (arith, h)
  stopping_lem pre_stop c h = ground (arith, h)
  stopping_lem drive c h = ground (arith, h)
  stopping_lem post_stop c h = refl
  stopping_lem succeeded c h = ground (arith, h)
  stopping_lem failed c h = ground (arith, h)

  selected_lem :
      (c : State F) (index : ℕ) (targets : List F) (i : ℕ)
      → selected_target_matches ops c index targets ≡ true
      → i < length targets
      → (if index + i == c.configuration.motor_id - 1
          then near_target ops c (get_or targets i ops.zero)
          else ops.equal (get_or targets i ops.zero) ops.zero)
        ≡ true
  unfolding selected_target_matches
  selected_lem c index [] i h lt = absurd (omega (arith, lt))
  selected_lem c index (target ∷ targets) zero h lt =
      subst
        (λ k.
          (if k == c.configuration.motor_id - 1
            then near_target ops c target
            else ops.equal target ops.zero)
          ≡ true)
        (omega arith) (first_of _ _ h)
  selected_lem c index (target ∷ targets) (suc i) h lt =
      subst
        (λ k.
          (if k == c.configuration.motor_id - 1
            then near_target ops c (get_or targets i ops.zero)
            else ops.equal (get_or targets i ops.zero) ops.zero)
          ≡ true)
        (omega arith) (selected_lem c (index + 1) targets i (rest_of _ _ h) (omega (arith, lt)))

  is_on_target-OnTarget :
      (m : MotorState F) (c : State F)
      → is_on_target ops m (with_motor_state ops m c) ≡ true
      → OnTarget ops m c
  is_on_target-OnTarget m c h =
      let facts = four _ _ _ _ h in
      let at : (i : ℕ)
          → i < length m.target_rps
          → (if 0 + i == c.configuration.motor_id - 1
              then near_target ops c (get_or m.target_rps i ops.zero)
              else ops.equal (get_or m.target_rps i ops.zero) ops.zero)
            ≡ true =
        λ i lt. selected_lem (with_motor_state ops m c) 0 m.target_rps i facts.3 lt in
      record {
        driving = driving_lem c.phase c facts.0;
        commanded = ground (arith, facts.1);
        timely = ground (arith, facts.2);
        selected = λ i lt e. chosen (0 + i) _ _ _ (omega (arith, e)) (at i lt);
        others = λ i lt ne. unchosen (0 + i) _ _ _ (λ e. ne (omega (arith, e))) (at i lt);
      }

  has_responded-Responding :
      (m : MotorState F) (c : State F)
      → OnTarget ops m c
      → has_responded ops (measure_motors ops m (with_motor_state ops m c)) ≡ true
      → Responding ops m c
  unfolding measure_motors encoder_delta
  has_responded-Responding m c on h =
      let facts = three _ _ _ h in
      record {
        on_target = on;
        fast = facts.0;
        turns = either_pair _ _ _ _ facts.1;
        travels =
            travel_lem (turns_forward ops c) (turns_backward ops c)
              (get_or m.encoder_count (c.configuration.motor_id - 1) (pos 0))
              (get_or c.baseline.encoder (c.configuration.motor_id - 1) (pos 0)) facts.2;
      }

  pub rests :
      (m : MotorState F) (c : State F)
      → motors ops c ≡ m
      → motor_targets_are_zero ops c ≡ true
      → motors_are_stationary ops c ≡ true
      → Resting ops m
  unfolding motor_targets_are_zero motors_are_stationary
  rests m c same zero_now still_now = record {
    zero_targets = λ i lt.
        all_of_lem (λ target. ops.equal target ops.zero) m.target_rps ops.zero i
          (subst (λ n. all_of (λ target. ops.equal target ops.zero) n.target_rps ≡ true) same
            zero_now)
          lt;
    still = λ i lt.
        all_of_lem (λ speed. ops.less (ops.absolute speed) ops.minimum_response) m.measured_rps
          ops.zero i
          (subst
            (λ n.
              all_of (λ speed. ops.less (ops.absolute speed) ops.minimum_response) n.measured_rps
              ≡ true)
            same still_now)
          lt;
  }

  -- The three flags after a motor state that is taken in.
  abbrev noted : MotorState F → State F → State F
  noted m c = note_settling ops m (
      note_response ops m
        (confirm_pre_stop ops m (measure_motors ops m (with_motor_state ops m c))))

  abbrev unmeasured : MotorState F → State F → Bool
  unmeasured m c =
      not (motor_state_is_finite ops (with_motor_state ops m c))
      || ltb c.configuration.motor_id 1
      || ltb 4 c.configuration.motor_id

  pub measured_target :
      (m : MotorState F) (c : State F)
      → (observe_motor_state ops m c).target_observed ≡ true
      → (c.target_observed ≡ true) ⊎ OnTarget ops m c
  unfolding observe_motor_state note_settling note_response confirm_pre_stop measure_motors
  measured_target m c =
      both (λ d. d.target_observed ≡ true → (c.target_observed ≡ true) ⊎ OnTarget ops m c)
        (unmeasured m c) {a = with_motor_state ops m c} {b = noted m c} (λ h. inl h)
        (λ h. elim (either_of _ _ h) [
          | inl before ↦ inl before
          | inr on ↦ inr (is_on_target-OnTarget m c on)
        ])

  pub measured_response :
      (m : MotorState F) (c : State F)
      → (observe_motor_state ops m c).physical_response_observed ≡ true
      → (c.physical_response_observed ≡ true) ⊎ Responding ops m c
  unfolding observe_motor_state note_settling note_response confirm_pre_stop measure_motors
  measured_response m c =
      both
        (λ d.
          d.physical_response_observed ≡ true
          → (c.physical_response_observed ≡ true) ⊎ Responding ops m c)
        (unmeasured m c) {a = with_motor_state ops m c} {b = noted m c} (λ h. inl h)
        (λ h. elim (either_of _ _ h) [
          | inl before ↦ inl before
          | inr now ↦ inr (
              has_responded-Responding m c (is_on_target-OnTarget m c (first_of _ _ now))
                (rest_of _ _ now))
        ])

  pub measured_rest :
      (m : MotorState F) (c : State F)
      → (observe_motor_state ops m c).post_stop_zero_confirmed ≡ true
      → (c.post_stop_zero_confirmed ≡ true) ⊎ Stopped ops m c
  unfolding observe_motor_state note_settling note_response confirm_pre_stop measure_motors
  measured_rest m c =
      both
        (λ d.
          d.post_stop_zero_confirmed ≡ true → (c.post_stop_zero_confirmed ≡ true) ⊎ Stopped ops m c)
        (unmeasured m c) {a = with_motor_state ops m c} {b = noted m c} (λ h. inl h)
        (λ h. elim (overwritten (is_settling ops m (with_motor_state ops m c)) _ _ h) [
          | inl before ↦ inl before
          | inr (due, now) ↦
              (let facts = three _ _ _ due in
                inr (record {
                  stopping = stopping_lem c.phase c facts.0;
                  commanded = ground (arith, facts.1);
                  timely = ground (arith, facts.2);
                  resting =
                      rests m (with_motor_state ops m c) refl (first_of _ _ now) (rest_of _ _ now);
                }))
        ])
