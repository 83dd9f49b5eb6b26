-- ===== src/Microros/Create/Tests.antt =====
-- The creation plan at concrete starts.
use mentor_pi_ros.Prelude.{List, [], ◌∷◌, ℕ, arith}
use mentor_pi_ros.Microros.Create.{reset, current, advance}
use mentor_pi_ros.Microros.Create.Order.{AllAdmitted, timely_creation_admitted}

abbrev first_calls : List ℕ
first_calls = 41 ∷ 0 ∷ 40 ∷ 41 ∷ 41 ∷ 3 ∷ []

timely_creation_admitted_example : AllAdmitted (reset 4294967290) 4294967290 first_calls
unfolding reset current advance
timely_creation_admitted_example =
    timely_creation_admitted 4294967290 first_calls (omega arith) (omega arith)
