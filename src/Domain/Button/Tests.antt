-- ===== src/Domain/Button/Tests.antt =====
-- One button, sampled every 30 ms.
use mentor_pi_ros.Prelude.{ℕ, ◌≡◌, refl, Bool, true, false, some, List, [], ◌∷◌}
use mentor_pi_ros.Domain.Button.{
  pressed, release_from_short_press, click, double_click, initial, process_button, forget_clicks,
  count_sample, accept_sample, on_pressed, multi_click, on_released, process_held,
}
use mentor_pi_ros.Domain.Button.Protocol.{
  Phase, up, follow_all, batches_of, state_after, Shows, batches_of-Follows,
}

-- Two short presses.
abbrev readings : List (Bool × ℕ)
readings =
    (true, 0)
    ∷ (true, 30)
    ∷ (false, 60)
    ∷ (false, 90)
    ∷ (true, 120)
    ∷ (true, 150)
    ∷ (false, 180)
    ∷ (false, 210)
    ∷ []

two_clicks :
    batches_of 0 initial readings
    ≡ []
      ∷ (pressed ∷ [])
      ∷ []
      ∷ (release_from_short_press ∷ click ∷ [])
      ∷ []
      ∷ (pressed ∷ double_click ∷ [])
      ∷ []
      ∷ (release_from_short_press ∷ click ∷ [])
      ∷ []
unfolding batches_of process_button forget_clicks count_sample accept_sample on_pressed multi_click
    on_released process_held
two_clicks = refl

batches_of-Follows_example :
    (last : Phase) × (follow_all (up 0) (batches_of 0 initial readings) ≡ some last)
    × Shows last (state_after 0 initial readings)
batches_of-Follows_example = batches_of-Follows 0 readings
