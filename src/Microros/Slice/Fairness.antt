-- ===== src/Microros/Slice/Fairness.antt =====
-- No class of work is starved, and a slice starts one blocking operation at most.
use mentor_pi_ros.Prelude.{
  ℕ, zero, suc, ◌+◌, ◌%◌, ◌≡◌, refl, Bool, true, false, List, [], ◌∷◌, arith, if◌then◌else◌, ◌==◌,
}
use mentor_pi_ros.Microros.Slice.{
  next_class, ActiveSliceBudget, reset_budget, try_start_blocking_operation, request_all,
}

-- The class that the scheduler hands out after `n` calls of `Next`.
pub class_after : ℕ → ℕ → ℕ
unfolding next_class
class_after zero cursor = (next_class cursor).1
class_after (suc n) cursor = class_after n (next_class cursor).0

-- From any cursor the n-th call of `Next` hands out class `(cursor + n) % 3`: each of the three
-- classes is served once in any three consecutive calls.
pub class_after-eq : (n cursor : ℕ) → class_after n cursor ≡ (cursor + n) % 3
unfolding class_after next_class
class_after-eq zero cursor = omega arith
class_after-eq (suc n) cursor = omega (arith, class_after-eq n (((cursor + 0) % 3 + 1) % 3))

all_refused : List ℕ → List Bool
all_refused [] = []
all_refused (r ∷ rs) = false ∷ all_refused rs

-- The answers that a slice owes: true to the first request of its class, false to all others.
pub first_of_class : ℕ → List ℕ → List Bool
first_of_class allowed [] = []
first_of_class allowed (r ∷ rs) =
    if r == allowed then true ∷ all_refused rs else false ∷ first_of_class allowed rs

request_all-spent :
    (b : ActiveSliceBudget) (rs : List ℕ)
    → b.blocking_operation_started ≡ true
    → request_all b rs ≡ all_refused rs
unfolding request_all try_start_blocking_operation all_refused
request_all-spent b [] h = refl
request_all-spent b (r ∷ rs) h = ground (arith, request_all-spent b rs h)

request_all-fresh :
    (b : ActiveSliceBudget) (rs : List ℕ)
    → b.blocking_operation_started ≡ false
    → request_all b rs ≡ first_of_class b.allowed_class rs
unfolding request_all try_start_blocking_operation first_of_class
request_all-fresh b [] h = refl
request_all-fresh b (r ∷ rs) h = ground (
  arith,
  request_all-fresh b rs h,
  request_all-spent (record b { blocking_operation_started = true }) rs refl,
)

-- After a reset, whatever is requested in the slice, exactly the first request of the allowed class
-- starts a blocking operation; every other request is refused.
pub one_blocking_operation :
    (b : ActiveSliceBudget) (allowed : ℕ) (rs : List ℕ)
    → request_all (reset_budget b allowed) rs ≡ first_of_class allowed rs
unfolding reset_budget
one_blocking_operation b allowed rs =
    request_all-fresh (record b { allowed_class = allowed; blocking_operation_started = false }) rs
      refl
