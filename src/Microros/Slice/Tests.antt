-- ===== src/Microros/Slice/Tests.antt =====
-- Scheduling and error bytes at concrete values.
use mentor_pi_ros.Prelude.{◌≡◌, refl, true, false, [], ◌∷◌}
use mentor_pi_ros.Microros.Slice.{ActiveSliceBudget, reset_budget, request_all}
use mentor_pi_ros.Microros.Slice.Fairness.{first_of_class, one_blocking_operation}

abbrev spent : ActiveSliceBudget
spent = record { allowed_class = 0; blocking_operation_started = true }

second_request_refused :
    request_all (reset_budget spent 1) (0 ∷ 1 ∷ 1 ∷ []) ≡ false ∷ true ∷ false ∷ []
unfolding request_all reset_budget
second_request_refused = refl

one_blocking_operation_example :
    request_all (reset_budget spent 1) (0 ∷ 1 ∷ 1 ∷ []) ≡ first_of_class 1 (0 ∷ 1 ∷ 1 ∷ [])
one_blocking_operation_example = one_blocking_operation spent 1 (0 ∷ 1 ∷ 1 ∷ [])
