-- ===== src/Domain/Mailbox/Tests.antt =====
-- The triple buffer in one concrete interleaving.
use mentor_pi_ros.Prelude.{ℕ, ◌<◌, ◌≡◌, ◌≢◌, refl, List, [], ◌∷◌, bit_and}
use mentor_pi_ros.Domain.Mailbox.{
  Access, write, publish, discard, load, exchange, copy, empty, consumed, step, write_value,
  publish_value, discard_latest, load_state, exchange_state, copy_value,
}
use mentor_pi_ros.Domain.Mailbox.Refine.{
  vacant, slot_consumed, run, consumed-eq-slot_consumed, buffers_stay_apart,
}

-- The consumer has seen 7 when 8 replaces it; 9 is discarded before the consumer exchanges.
abbrev overtaken : List (Access ℕ)
overtaken =
    write 7
    ∷ publish
    ∷ load
    ∷ write 8
    ∷ publish
    ∷ exchange
    ∷ write 9
    ∷ copy
    ∷ publish
    ∷ load
    ∷ discard
    ∷ exchange
    ∷ copy
    ∷ []

latest_obtained : consumed overtaken (empty 0) ≡ 8 ∷ []
unfolding consumed step write_value publish_value discard_latest load_state exchange_state
    copy_value
latest_obtained = refl

consumed-eq-slot_consumed_example : consumed overtaken (empty 0) ≡ slot_consumed overtaken vacant
consumed-eq-slot_consumed_example = consumed-eq-slot_consumed 0 overtaken

buffers_stay_apart_example :
    (let m = run overtaken (empty 0) in
      (m.producer_index < 3)
      × (m.consumer_index < 3)
      × (bit_and m.middle_state 3 < 3)
      × (m.producer_index ≢ m.consumer_index)
      × (m.producer_index ≢ bit_and m.middle_state 3)
      × (m.consumer_index ≢ bit_and m.middle_state 3))
buffers_stay_apart_example = buffers_stay_apart 0 overtaken
