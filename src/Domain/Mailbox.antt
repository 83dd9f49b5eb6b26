-- ===== src/Domain/Mailbox.antt =====
-- fixed_containers.h, LatestMailbox: a triple buffer between one producer and one consumer. Each
-- access to memory that the two share is a step, so a list of steps is one interleaving of the
-- calls; the atomic accesses are sequentially consistent here. The buffers are a function, since
-- an index other than 0, 1 and 2 never occurs.
pub mod Refine
mod Tests
use mentor_pi_ros.Prelude.{
  ℕ, Bool, true, false, Option, none, some, List, [], ◌∷◌, bit_and, bit_or, ◌==◌, ◌!=◌, not,
  if◌then◌else◌,
}

-- What the consumer does next: load the state of the middle buffer, exchange it, or copy the value.
pub data ConsumerPoint : Type 0 where
  at_load at_exchange at_copy : ConsumerPoint

-- A step of the producer or of the consumer.
pub data Access (A : Type 0) : Type 0 where
  write : A → Access A
  publish discard load exchange copy : Access A

abbrev pub index_mask : ℕ
index_mask = 0x03

abbrev pub unread_bit : ℕ
unread_bit = 0x80

-- `has_unread`, and the test of an exchanged state.
abbrev pub is_unread : ℕ → Bool
is_unread state = bit_and state unread_bit != 0

-- The fields, and where the two calls in progress are.
pub record LatestMailbox (A : Type 0) : Type 0 where
  pub buffers : ℕ → A
  pub middle_state : ℕ
  pub producer_index : ℕ
  pub consumer_index : ℕ
  pub value_written : Bool
  pub consumer : ConsumerPoint

module _ {A : Type 0} where
  abbrev pub empty : A → LatestMailbox A
  empty blank = record {
    buffers = λ _. blank;
    middle_state = 1;
    producer_index = 2;
    consumer_index = 0;
    value_written = false;
    consumer = at_load;
  }

  -- `Publish`, up to the exchange.
  unfoldable pub write_value : A → LatestMailbox A → LatestMailbox A
  write_value value m = if m.value_written then m else record m {
    buffers = λ index. if m.producer_index == index then value else m.buffers index;
    value_written = true;
  }

  -- The exchange of `Publish`: the buffer that was in the middle is the producer's.
  unfoldable pub publish_value : LatestMailbox A → LatestMailbox A
  publish_value m = if not m.value_written then m else record m {
    middle_state = bit_or m.producer_index unread_bit;
    producer_index = bit_and m.middle_state index_mask;
    value_written = false;
  }

  -- `DiscardLatest`.
  unfoldable pub discard_latest : LatestMailbox A → LatestMailbox A
  discard_latest m =
      if m.value_written then m else record m { middle_state = bit_and m.middle_state index_mask }

  -- The steps of `ConsumeLatest`, with the value that the last one stores.
  unfoldable pub load_state : ConsumerPoint → LatestMailbox A → LatestMailbox A
  load_state at_load m = if is_unread m.middle_state then record m { consumer = at_exchange } else m
  load_state _ m = m

  unfoldable pub exchange_state : ConsumerPoint → LatestMailbox A → LatestMailbox A
  exchange_state at_exchange m = record m {
    middle_state = m.consumer_index;
    consumer_index = bit_and m.middle_state index_mask;
    consumer = if is_unread m.middle_state then at_copy else at_load;
  }
  exchange_state _ m = m

  unfoldable pub copy_value : ConsumerPoint → LatestMailbox A → LatestMailbox A × Option A
  copy_value at_copy m = (record m { consumer = at_load }, some (m.buffers m.consumer_index))
  copy_value _ m = (m, none)

  -- A step that is not the next of its call changes nothing.
  unfoldable pub step : Access A → LatestMailbox A → LatestMailbox A × Option A
  step (write value) m = (write_value value m, none)
  step publish m = (publish_value m, none)
  step discard m = (discard_latest m, none)
  step load m = (load_state m.consumer m, none)
  step exchange m = (exchange_state m.consumer m, none)
  step copy m = copy_value m.consumer m

  abbrev pub prepend : Option A → List A → List A
  prepend none values = values
  prepend (some value) values = value ∷ values

  -- The values that the consumer obtains.
  unfoldable pub consumed : List (Access A) → LatestMailbox A → List A
  consumed [] m = []
  consumed (access ∷ accesses) m =
      let next = step access m in prepend next.1 (consumed accesses next.0)

  -- `Publish` and `ConsumeLatest` without another access in between; `Publish` tells whether it
  -- replaced an unread value.
  unfoldable pub publish_whole : A → LatestMailbox A → LatestMailbox A × Bool
  publish_whole value m = (publish_value (write_value value m), is_unread m.middle_state)

  unfoldable pub consume_whole : LatestMailbox A → LatestMailbox A × Option A
  consume_whole m =
      let loaded = load_state m.consumer m in
      let exchanged = exchange_state loaded.consumer loaded in
      copy_value exchanged.consumer exchanged
