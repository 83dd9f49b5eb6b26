-- ===== src/Domain/RxRing/Tests.antt =====
-- Runs of the receive ring across the 32-bit wrap, and its theorems at concrete rings.
use mentor_pi_ros.Prelude.{
  zero, suc, ℕ, ◌+◌, ◌-◌, ◌%◌, ◌^◌, ◌≤◌, ◌<◌, ◌≡◌, refl, true, min, max, arith, some, List, [], ◌∷◌,
  ◌++◌, ltb, get_or, drop, u64_max,
}
use mentor_pi_ros.Domain.RxRing.{
  RxRing, update_producer, prepare_read, copy_read, commit_read, has_valid_layout, copy_bytes,
}
use mentor_pi_ros.Domain.RxRing.Positions.{Tracks, update_producer-Tracks}
use mentor_pi_ros.Domain.RxRing.Stream.{window, read_delivers}

-- Six bytes were received in a ring of four, the fourth and later ones unread.
abbrev busy : RxRing
busy = record {
  producer_position = 6;
  consumer_position = 3;
  previous_dma_position = 6;
  high_water_bytes = 3;
  rx_wire_bytes = 6;
}

abbrev busy-Tracks : Tracks busy 6 3
busy-Tracks = record {
  producer = refl;
  consumer = refl;
  dma = refl;
  ordered = omega arith;
  close = omega arith;
  counted = omega arith;
}

abbrev numbered : ℕ → ℕ
numbered i = i

abbrev memory : List ℕ
memory = 4 ∷ 5 ∷ 2 ∷ 3 ∷ []

memory_bytes : (i : ℕ) → i < 6 → 6 ≤ i + 2 ^ 2 → get_or memory (i % 2 ^ 2) 0 ≡ numbered i
memory_bytes (suc (suc zero)) h k = refl
memory_bytes (suc (suc (suc zero))) h k = refl
memory_bytes (suc (suc (suc (suc zero)))) h k = refl
memory_bytes (suc (suc (suc (suc (suc zero))))) h k = refl
memory_bytes zero h k = absurd (omega arith)
memory_bytes (suc zero) h k = absurd (omega arith)
memory_bytes (suc (suc (suc (suc (suc (suc i)))))) h k = absurd (omega arith)

reads_round_the_end :
    copy_read 4 (some memory) (prepare_read 4 busy 9) (some (0 ∷ 0 ∷ 0 ∷ 0 ∷ []))
    ≡ (true, some (3 ∷ 4 ∷ 5 ∷ 0 ∷ []))
unfolding copy_read prepare_read has_valid_layout copy_bytes
reads_round_the_end = refl

update_producer-Tracks_example :
    let (r', update) = update_producer 4 busy ((6 + 3) % 2 ^ 32) true in
    Tracks r' (6 + 3) 3
    × (update.delta ≡ 3)
    × (update.occupied ≡ 6 + 3 - 3)
    × (update.overrun ≡ ltb 4 (6 + 3 - 3))
    × (r'.rx_wire_bytes ≡ min u64_max (6 + 3))
    × (r'.high_water_bytes ≡ max 3 (6 + 3 - 3))
update_producer-Tracks_example = update_producer-Tracks 4 3 busy-Tracks (omega arith)

read_delivers_example :
    let plan = prepare_read (2 ^ 2) busy 2 in
    let count = min 2 (6 - 3) in
    (copy_read (2 ^ 2) (some memory) plan (some (0 ∷ 0 ∷ 0 ∷ []))
      ≡ (true, some (window numbered 3 count ++ drop count (0 ∷ 0 ∷ 0 ∷ []))))
    × ((commit_read (2 ^ 2) busy plan).1 ≡ true)
    × Tracks (commit_read (2 ^ 2) busy plan).0 6 (3 + count)
read_delivers_example =
    read_delivers 2 2 busy memory (0 ∷ 0 ∷ 0 ∷ []) numbered 6 3 (omega arith) busy-Tracks
      (omega arith) (record { room = refl; bytes = memory_bytes })
