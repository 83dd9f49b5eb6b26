-- ===== src/Domain/RxRing.antt =====
-- circular_rx_ring.h: position bookkeeping and copy planning over a circular DMA buffer.
-- `size` is the template parameter `kRingSizeBytes`; `std::size_t` is 32 bits on the target.
pub mod Positions
pub mod Stream
mod Tests
use mentor_pi_ros.Prelude.{
  ℕ, ◌+◌, ◌-◌, ◌≡◌, Bool, true, false, ◌||◌, not, Option, none, some, List, ◌++◌, min, bit_and, ltb,
  leb, ◌==◌, ◌!=◌, if◌then◌else◌, add32, sub32, u64_max, take, drop,
}

pub record RxRing : Type 0 where
  pub producer_position : ℕ
  pub consumer_position : ℕ
  pub previous_dma_position : ℕ
  pub high_water_bytes : ℕ
  pub rx_wire_bytes : ℕ

pub record ProducerUpdate : Type 0 where
  pub delta : ℕ
  pub occupied : ℕ
  pub consistent : Bool
  pub overrun : Bool

pub record ReadPlan : Type 0 where
  pub consumer_position : ℕ
  pub copy_length : ℕ
  pub ring_offset : ℕ
  pub first_length : ℕ
  pub overrun : Bool

abbrev pub fresh : RxRing
fresh = record {
  producer_position = 0;
  consumer_position = 0;
  previous_dma_position = 0;
  high_water_bytes = 0;
  rx_wire_bytes = 0;
}

pub reset_positions : RxRing → ℕ → RxRing
reset_positions r position = record r {
  producer_position = position;
  consumer_position = position;
  previous_dma_position = position;
}

-- The private 64-bit `SaturatingAdd`.
pub saturating_add : ℕ → ℕ → ℕ
saturating_add value increment =
    if ltb (u64_max - value) increment then u64_max else value + increment

abbrev no_update : ProducerUpdate
no_update = record { delta = 0; occupied = 0; consistent = false; overrun = false }

pub update_producer : ℕ → RxRing → ℕ → Bool → RxRing × ProducerUpdate
unfolding saturating_add
update_producer size r sampled_position sample_consistent =
    if not sample_consistent
    then (r, no_update)
    else (let delta = sub32 sampled_position r.previous_dma_position in
        let producer = add32 r.producer_position delta in
        let occupied = sub32 producer r.consumer_position in
        (
          record r {
            previous_dma_position = sampled_position;
            producer_position = producer;
            rx_wire_bytes = saturating_add r.rx_wire_bytes delta;
            high_water_bytes =
                if ltb r.high_water_bytes occupied then occupied else r.high_water_bytes;
          },
          record {
            delta = delta;
            occupied = occupied;
            consistent = true;
            overrun = ltb size occupied;
          },
        ))

pub prepare_read : ℕ → RxRing → ℕ → ReadPlan
prepare_read size r capacity =
    let available = sub32 r.producer_position r.consumer_position in
    let copy_length = min capacity available in
    let ring_offset = bit_and r.consumer_position (size - 1) in
    if ltb size available
    then record {
      consumer_position = r.consumer_position;
      copy_length = 0;
      ring_offset = 0;
      first_length = 0;
      overrun = true;
    }
    else record {
      consumer_position = r.consumer_position;
      copy_length = copy_length;
      ring_offset = ring_offset;
      first_length = min copy_length (size - ring_offset);
      overrun = false;
    }

pub has_valid_layout : ℕ → ReadPlan → Bool
has_valid_layout size plan =
    if plan.overrun
      || ltb size plan.copy_length
      || leb size plan.ring_offset
      || plan.ring_offset != bit_and plan.consumer_position (size - 1)
    then false
    else plan.first_length == min plan.copy_length (size - plan.ring_offset)

-- `std::memcpy(destination + at, source, count)`.
abbrev memcpy : List ℕ → ℕ → List ℕ → ℕ → List ℕ
memcpy destination at source count =
    take at destination ++ (take count source ++ drop (at + count) destination)

copy_both : ReadPlan → List ℕ → List ℕ → List ℕ
copy_both plan bytes out =
    let first = memcpy out 0 (drop plan.ring_offset bytes) plan.first_length in
    if ltb plan.first_length plan.copy_length
    then memcpy first plan.first_length bytes (plan.copy_length - plan.first_length)
    else first

copy_bytes : ReadPlan → Option (List ℕ) → Option (List ℕ) → Bool × Option (List ℕ)
unfolding copy_both
copy_bytes plan none out = (false, out)
copy_bytes plan (some bytes) none = (false, none)
copy_bytes plan (some bytes) (some out) = (true, some (copy_both plan bytes out))

-- A null pointer is `none`; the destination is returned as the call leaves it.
pub copy_read : ℕ → Option (List ℕ) → ReadPlan → Option (List ℕ) → Bool × Option (List ℕ)
unfolding copy_bytes
copy_read size ring plan destination =
    if not (has_valid_layout size plan)
    then (false, destination)
    else if plan.copy_length == 0
    then (true, destination)
    else copy_bytes plan ring destination

pub commit_read : ℕ → RxRing → ReadPlan → RxRing × Bool
commit_read size r plan =
    let available = sub32 r.producer_position r.consumer_position in
    if not (has_valid_layout size plan)
      || plan.consumer_position != r.consumer_position
      || ltb size available
      || ltb available plan.copy_length
    then (r, false)
    else (record r { consumer_position = add32 r.consumer_position plan.copy_length }, true)
