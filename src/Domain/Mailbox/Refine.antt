-- ===== src/Domain/Mailbox/Refine.antt =====
-- fixed_containers.h, LatestMailbox: the triple buffer is a slot that holds the latest value.
use mentor_pi_ros.Prelude.{
  ℕ, ◌<◌, ◌≡◌, ◌≢◌, ◌↔◌, refl, Bool, true, false, Option, none, some, List, [], ◌∷◌, bit_and,
  bit_or, ◌==◌, ◌!=◌, not, ◌&&◌, arith, if◌then◌else◌,
}
use mentor_pi_ros.Prelude.Bits.{passes_below, passes_below_sound}
use mentor_pi_ros.Domain.Mailbox.{
  ConsumerPoint, at_load, at_exchange, at_copy, Access, write, publish, discard, load, exchange,
  copy, LatestMailbox, empty, is_unread, write_value, publish_value, discard_latest, load_state,
  exchange_state, copy_value, step, prepend, consumed,
}

-- An atomic slot: the value that is being published, the latest one that was and is neither taken
-- nor discarded, and the one that the consumer took.
pub record Slot (A : Type 0) : Type 0 where
  pub prepared : Option A
  pub latest : Option A
  pub seen : Bool
  pub taken : Option A

-- The byte of the middle buffer, at each index.
index_test : ℕ → Bool
index_test i =
    bit_and i 3 == i
    && bit_and i 128 == 0
    && bit_and (bit_or i 128) 3 == i
    && bit_and (bit_or i 128) 128 != 0

index_table : passes_below index_test 3 ≡ true
unfolding passes_below index_test
index_table = refl

pub record Packed (i : ℕ) : Type 0 where
  pub plain_index : bit_and i 3 ≡ i
  pub plain_read : bit_and i 128 ≡ 0
  pub marked_index : bit_and (bit_or i 128) 3 ≡ i
  pub marked_unread : bit_and (bit_or i 128) 128 ≢ 0

pub index-Packed : (i : ℕ) → i < 3 → Packed i
unfolding index_test
index-Packed i h =
    let fits = passes_below_sound index_test 3 i h index_table in
    record {
      plain_index = ground arith;
      plain_read = ground arith;
      marked_index = ground arith;
      marked_unread = ground arith;
    }

module _ {A : Type 0} where
  abbrev pub vacant : Slot A
  vacant = record { prepared = none; latest = none; seen = false; taken = none }

  abbrev is_some : Option A → Bool
  is_some none = false
  is_some (some a) = true

  -- The abstract steps.
  unfoldable pub slot_step : Access A → Slot A → Slot A × Option A
  slot_step (write value) s =
      (if is_some s.prepared then s else record s { prepared = some value }, none)
  slot_step publish s =
      (if is_some s.prepared then record s { latest = s.prepared; prepared = none } else s, none)
  slot_step discard s = (if is_some s.prepared then s else record s { latest = none }, none)
  slot_step load s = (
    if not s.seen && not (is_some s.taken) then record s { seen = is_some s.latest } else s,
    none,
  )
  slot_step exchange s =
      (if s.seen then record s { seen = false; taken = s.latest; latest = none } else s, none)
  slot_step copy s = (record s { taken = none }, s.taken)

  unfoldable pub slot_consumed : List (Access A) → Slot A → List A
  slot_consumed [] s = []
  slot_consumed (access ∷ accesses) s =
      let next = slot_step access s in prepend next.1 (slot_consumed accesses next.0)

  abbrev middle_index : LatestMailbox A → ℕ
  middle_index m = bit_and m.middle_state 3

  -- The three indices are apart, and the slot's values stand in the buffers.
  record Stores (m : LatestMailbox A) (s : Slot A) : Type 0 where
    producer_small : m.producer_index < 3
    consumer_small : m.consumer_index < 3
    middle_small : middle_index m < 3
    producer_consumer : m.producer_index ≢ m.consumer_index
    producer_middle : m.producer_index ≢ middle_index m
    consumer_middle : m.consumer_index ≢ middle_index m
    prepared : s.prepared ≡ (if m.value_written then some (m.buffers m.producer_index) else none)
    latest :
        s.latest ≡ (if is_unread m.middle_state then some (m.buffers (middle_index m)) else none)
    seen : (s.seen ≡ true) ↔ (m.consumer ≡ at_exchange)
    taken_some : m.consumer ≡ at_copy → s.taken ≡ some (m.buffers m.consumer_index)
    taken_none : m.consumer ≢ at_copy → s.taken ≡ none

  write-Stores :
      (value : A) (m : LatestMailbox A) (s : Slot A)
      → Stores m s
      → Stores (write_value value m) (slot_step (write value) s).0
  unfolding write_value slot_step
  write-Stores value m s h = ground arith

  publish-Stores :
      (m : LatestMailbox A) (s : Slot A)
      → Stores m s
      → Stores (publish_value m) (slot_step publish s).0
  unfolding publish_value slot_step
  publish-Stores m s h =
      let packed = index-Packed m.producer_index h.producer_small in
      ground (arith, packed.marked_index, packed.marked_unread)

  discard-Stores :
      (m : LatestMailbox A) (s : Slot A)
      → Stores m s
      → Stores (discard_latest m) (slot_step discard s).0
  unfolding discard_latest slot_step
  discard-Stores m s h =
      let packed = index-Packed (middle_index m) h.middle_small in
      ground (arith, packed.plain_index, packed.plain_read)

  load-Stores :
      (point : ConsumerPoint) (m : LatestMailbox A) (s : Slot A)
      → m.consumer ≡ point
      → Stores m s
      → Stores (load_state point m) (slot_step load s).0
  unfolding load_state slot_step
  load-Stores at_load m s here h = ground arith
  load-Stores at_exchange m s here h = ground arith
  load-Stores at_copy m s here h = ground arith

  exchange-Stores :
      (point : ConsumerPoint) (m : LatestMailbox A) (s : Slot A)
      → m.consumer ≡ point
      → Stores m s
      → Stores (exchange_state point m) (slot_step exchange s).0
  unfolding exchange_state slot_step
  exchange-Stores at_load m s here h = ground arith
  exchange-Stores at_exchange m s here h =
      let packed = index-Packed m.consumer_index h.consumer_small in
      ground (arith, packed.plain_index, packed.plain_read)
  exchange-Stores at_copy m s here h = ground arith

  copy-Stores :
      (point : ConsumerPoint) (m : LatestMailbox A) (s : Slot A)
      → m.consumer ≡ point
      → Stores m s
      → Stores (copy_value point m).0 (slot_step copy s).0
        × ((copy_value point m).1 ≡ (slot_step copy s).1)
  unfolding copy_value slot_step
  copy-Stores at_load m s here h = ground arith
  copy-Stores at_exchange m s here h = ground arith
  copy-Stores at_copy m s here h = ground arith

  step-Stores :
      (access : Access A) (m : LatestMailbox A) (s : Slot A)
      → Stores m s
      → Stores (step access m).0 (slot_step access s).0
        × ((step access m).1 ≡ (slot_step access s).1)
  unfolding step slot_step
  step-Stores (write value) m s h = (write-Stores value m s h, refl)
  step-Stores publish m s h = (publish-Stores m s h, refl)
  step-Stores discard m s h = (discard-Stores m s h, refl)
  step-Stores load m s h = (load-Stores m.consumer m s refl h, refl)
  step-Stores exchange m s h = (exchange-Stores m.consumer m s refl h, refl)
  step-Stores copy m s h = copy-Stores m.consumer m s refl h

  consumed-Stores :
      (accesses : List (Access A)) (m : LatestMailbox A) (s : Slot A)
      → Stores m s
      → consumed accesses m ≡ slot_consumed accesses s
  unfolding consumed slot_consumed
  consumed-Stores [] m s h = refl
  consumed-Stores (access ∷ accesses) m s h =
      let next = step-Stores access m s h in
      let rest = consumed-Stores accesses _ _ next.0 in rw (next.1, rest)

  empty-Stores : (blank : A) → Stores (empty blank) vacant
  empty-Stores blank = ground arith

  -- In every interleaving of publications, discards and consumptions, the consumer obtains the
  -- values that it would obtain from one atomic slot, which a publication overwrites, a discard
  -- empties and a consumption empties.
  pub consumed-eq-slot_consumed :
      (blank : A) (accesses : List (Access A))
      → consumed accesses (empty blank) ≡ slot_consumed accesses vacant
  consumed-eq-slot_consumed blank accesses =
      consumed-Stores accesses (empty blank) vacant (empty-Stores blank)

  unfoldable pub run : List (Access A) → LatestMailbox A → LatestMailbox A
  run [] m = m
  run (access ∷ accesses) m = run accesses (step access m).0

  run-Stores :
      (accesses : List (Access A)) (m : LatestMailbox A) (s : Slot A)
      → Stores m s
      → (t : Slot A) × Stores (run accesses m) t
  unfolding run
  run-Stores [] m s h = (s, h)
  run-Stores (access ∷ accesses) m s h = run-Stores accesses _ _ (step-Stores access m s h).0

  -- In every interleaving the producer's buffer, the consumer's buffer and the one in the middle
  -- are three different ones of the three.
  pub buffers_stay_apart :
      (blank : A) (accesses : List (Access A))
      → (let m = run accesses (empty blank) in
          (m.producer_index < 3)
          × (m.consumer_index < 3)
          × (bit_and m.middle_state 3 < 3)
          × (m.producer_index ≢ m.consumer_index)
          × (m.producer_index ≢ bit_and m.middle_state 3)
          × (m.consumer_index ≢ bit_and m.middle_state 3))
  buffers_stay_apart blank accesses =
      let h = (run-Stores accesses (empty blank) vacant (empty-Stores blank)).1 in
      (
        h.producer_small, h.consumer_small, h.middle_small, h.producer_consumer, h.producer_middle,
        h.consumer_middle,
      )
