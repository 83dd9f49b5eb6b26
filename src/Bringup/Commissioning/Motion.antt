-- ===== src/Bringup/Commissioning/Motion.antt =====
-- The private tests of `MotorCommissioningCore` on the observed motors. A motor that does not exist
-- has the values of the default state.
use mentor_pi_ros.Prelude.{
  ℕ, ◌+◌, ◌-◌, ◌^◌, Bool, true, false, not, ◌&&◌, ◌||◌, List, [], ◌∷◌, none, some, leb, ◌==◌,
  if◌then◌else◌, get_or, sub32, replicate,
}
use mentor_pi_ros.Prelude.Int.{ℤ, pos, negsuc, is_negative, is_positive, ltb_ℤ, leb_ℤ, ◌-ℤ◌, ◌+ℤ◌}
use mentor_pi_ros.Bringup.Commissioning.{
  Floats, State, MotorState, drive, post_stop, pre_stop, Failure, no_failure,
  motor_state_unexpected_target, motor_overspeed, unselected_motor_motion, motor_wrong_direction,
}

abbrev pub int64_max : ℤ
int64_max = pos (2 ^ 63 - 1)

abbrev pub int64_min : ℤ
int64_min = negsuc (2 ^ 63 - 1)

unfoldable pub saturating_difference : ℤ → ℤ → ℤ
saturating_difference left right =
    if is_positive right && ltb_ℤ left (int64_min +ℤ right)
    then int64_min
    else if is_negative right && ltb_ℤ (int64_max +ℤ right) left
    then int64_max
    else left -ℤ right

-- `now >= arrival && now - arrival <= maximum_age`.
abbrev pub is_fresh : ℤ → ℤ → ℕ → Bool
is_fresh arrival now maximum_age = leb_ℤ arrival now && leb_ℤ (now -ℤ arrival) (pos maximum_age)

unfoldable pub serial_number_regressed : ℕ → ℕ → Bool
serial_number_regressed current previous = leb (2 ^ 31) (sub32 current previous)

unfoldable pub all_of : {A : Type 0} → (A → Bool) → List A → Bool
all_of test [] = true
all_of test (x ∷ xs) = test x && all_of test xs

module _ {F : Type 0} (ops : Floats F) where
  abbrev pub default_motors : MotorState F
  default_motors = record {
    arrival_time_ms = pos 0;
    target_rps = replicate 4 ops.zero;
    measured_rps = replicate 4 ops.zero;
    encoder_count = replicate 4 (pos 0);
    watchdog_stop_mask = 0;
  }

  -- `motor_state_`.
  abbrev pub motors : State F → MotorState F
  motors c = elim (c.observed.motor_state) [ none ↦ default_motors | some m ↦ m ]

  abbrev pub selected_motor_index : State F → ℕ
  selected_motor_index c = c.configuration.motor_id - 1

  abbrev pub measured_at : State F → ℕ → F
  measured_at c index = get_or (motors c).measured_rps index ops.zero

  unfoldable pub encoder_delta : State F → ℕ → ℤ
  unfolding saturating_difference
  encoder_delta c index =
      saturating_difference (get_or c.latest_encoder index (pos 0))
        (get_or c.baseline.encoder index (pos 0))

  unfoldable pub motor_targets_are_zero : State F → Bool
  unfolding all_of
  motor_targets_are_zero c = all_of (λ target. ops.equal target ops.zero) (motors c).target_rps

  unfoldable pub motors_are_stationary : State F → Bool
  unfolding all_of
  motors_are_stationary c =
      all_of (λ measured. ops.less (ops.absolute measured) ops.minimum_response)
        (motors c).measured_rps

  unfoldable pub motor_state_is_finite : State F → Bool
  unfolding all_of
  motor_state_is_finite c =
      all_of ops.is_finite (motors c).target_rps && all_of ops.is_finite (motors c).measured_rps

  abbrev pub near_target : State F → F → Bool
  near_target c target =
      ops.at_most (ops.absolute (ops.subtract target c.configuration.target_rps))
        ops.target_tolerance

  -- SelectedTargetMatches, called with the configured target.
  unfoldable pub selected_target_matches : State F → ℕ → List F → Bool
  selected_target_matches c index [] = true
  selected_target_matches c index (target ∷ targets) =
      (if index == selected_motor_index c then near_target c target else ops.equal target ops.zero)
      && selected_target_matches c (index + 1) targets

  abbrev pub turns_forward : State F → Bool
  turns_forward c = ops.less ops.zero c.configuration.target_rps

  abbrev pub turns_backward : State F → Bool
  turns_backward c = ops.less c.configuration.target_rps ops.zero

  abbrev pub selected_response_direction_matches : State F → Bool
  selected_response_direction_matches c =
      let measured = measured_at c (selected_motor_index c) in
      (turns_forward c && ops.less ops.zero measured)
      || (turns_backward c && ops.less measured ops.zero)

  abbrev pub response_threshold : State F → F
  response_threshold c =
      let share = ops.multiply (ops.absolute c.configuration.target_rps) ops.tenth in
      if ops.less ops.minimum_response share then share else ops.minimum_response

  -- `delta >= kMinimumEncoderResponseTicks` and `delta <= -kMinimumEncoderResponseTicks`.
  abbrev pub has_advanced : ℤ → Bool
  has_advanced delta = leb_ℤ (pos 2) delta

  abbrev pub has_receded : ℤ → Bool
  has_receded delta = leb_ℤ delta (negsuc 1)

  -- The loop over the targets of ValidateMotorStateForPhase.
  unfoldable pub targets_allowed : State F → ℕ → List F → Bool
  targets_allowed c index [] = true
  targets_allowed c index (target ∷ targets) =
      (ops.equal target ops.zero || (index == selected_motor_index c && near_target c target))
      && targets_allowed c (index + 1) targets

  unfoldable pub validate_motor_state_for_phase : State F → Failure
  unfolding motor_targets_are_zero targets_allowed
  validate_motor_state_for_phase c = elim (c.phase) [
    | pre_stop ↦ if motor_targets_are_zero c then no_failure else motor_state_unexpected_target
    | drive ↦
        if targets_allowed c 0 (motors c).target_rps
        then no_failure
        else motor_state_unexpected_target
    | post_stop ↦
        if not (targets_allowed c 0 (motors c).target_rps)
        then motor_state_unexpected_target
        else if c.post_stop_zero_seen && not (motor_targets_are_zero c)
        then motor_state_unexpected_target
        else no_failure
    | _ ↦ no_failure
  ]

  -- The loop over the motors that are not selected, from `index` on.
  unfoldable pub others_still : State F → ℕ → List F → Bool
  unfolding encoder_delta
  others_still c index [] = true
  others_still c index (measured ∷ rest) =
      (index == selected_motor_index c
        || not (
            ops.less ops.unselected_motion (ops.absolute measured)
            || has_advanced (encoder_delta c index)
            || has_receded (encoder_delta c index)))
      && others_still c (index + 1) rest

  abbrev pub is_wrong_direction : State F → Bool
  is_wrong_direction c =
      let delta = encoder_delta c (selected_motor_index c) in
      (turns_forward c && has_receded delta) || (turns_backward c && has_advanced delta)

  abbrev pub check_motion : State F → Bool → Failure
  check_motion c driving =
      if ops.less ops.maximum_measured (ops.absolute (measured_at c (selected_motor_index c)))
      then motor_overspeed
      else if not (others_still c 0 (motors c).measured_rps)
      then unselected_motor_motion
      else if driving && is_wrong_direction c
      then motor_wrong_direction
      else no_failure

  unfoldable pub validate_physical_motion : State F → Failure
  unfolding others_still encoder_delta
  validate_physical_motion c = elim (c.phase) [
    | drive ↦ check_motion c true
    | post_stop ↦ check_motion c false
    | _ ↦ no_failure
  ]
