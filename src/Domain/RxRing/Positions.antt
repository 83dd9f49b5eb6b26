-- ===== src/Domain/RxRing/Positions.antt =====
-- The wrapped positions of the receive ring against unbounded byte counts.
use native.Mathlib.Nat.{mod-lt}
use mentor_pi_ros.Prelude.{
  ℕ, ◌+◌, ◌-◌, ◌%◌, ◌^◌, ◌≤◌, ◌<◌, ◌≡◌, true, false, min, max, ap, arith, ltb, add32, sub32,
  u64_max,
}
use mentor_pi_ros.Prelude.Bits.{bit_and-ones, mod-mod_pow, pow-pos}
use mentor_pi_ros.Domain.RxRing.{
  RxRing, saturating_add, update_producer, prepare_read, has_valid_layout, commit_read,
}

-- `received` bytes came over the wire and `consumed` of them were read; the ring keeps both counts
-- modulo 2 ^ 32.
pub record Tracks (r : RxRing) (received consumed : ℕ) : Type 0 where
  pub producer : r.producer_position ≡ received % 2 ^ 32
  pub consumer : r.consumer_position ≡ consumed % 2 ^ 32
  pub dma : r.previous_dma_position ≡ received % 2 ^ 32
  pub ordered : consumed ≤ received
  pub close : received < consumed + 2 ^ 32
  pub counted : r.rx_wire_bytes ≤ u64_max

pub available-Tracks :
    {r : RxRing} {received consumed : ℕ}
    → Tracks r received consumed
    → sub32 r.producer_position r.consumer_position ≡ received - consumed
available-Tracks t = omega arith

delta-Tracks :
    (count : ℕ) {r : RxRing} {received consumed : ℕ}
    → Tracks r received consumed
    → received + count < consumed + 2 ^ 32
    → sub32 ((received + count) % 2 ^ 32) r.previous_dma_position ≡ count
delta-Tracks count t h = omega arith

producer-Tracks :
    (count : ℕ) {r : RxRing} {received consumed : ℕ}
    → Tracks r received consumed
    → add32 r.producer_position count ≡ (received + count) % 2 ^ 32
producer-Tracks count t = omega arith

occupied-Tracks :
    (count : ℕ) {r : RxRing} {received consumed : ℕ}
    → Tracks r received consumed
    → received + count < consumed + 2 ^ 32
    → sub32 ((received + count) % 2 ^ 32) r.consumer_position ≡ received + count - consumed
occupied-Tracks count t h = omega arith

saturating_add-eq-min :
    (value increment : ℕ)
    → value ≤ u64_max
    → saturating_add value increment ≡ min u64_max (value + increment)
unfolding saturating_add
saturating_add-eq-min value increment h = ground arith

-- While fewer than 2 ^ 32 bytes are unread, a consistent sample taken `count` bytes later advances the producer by exactly these bytes, also
-- across a wrap of the 32-bit positions, counts them without overflow, raises the high-water mark
-- to the unread bytes, and reports an overrun exactly when more than `size` bytes are unread.
pub update_producer-Tracks :
    (size count : ℕ) {r : RxRing} {received consumed : ℕ}
    → Tracks r received consumed
    → received + count < consumed + 2 ^ 32
    → let (r', update) = update_producer size r ((received + count) % 2 ^ 32) true in
      Tracks r' (received + count) consumed
      × (update.delta ≡ count)
      × (update.occupied ≡ received + count - consumed)
      × (update.overrun ≡ ltb size (received + count - consumed))
      × (r'.rx_wire_bytes ≡ min u64_max (r.rx_wire_bytes + count))
      × (r'.high_water_bytes ≡ max r.high_water_bytes (received + count - consumed))
unfolding update_producer
update_producer-Tracks size count {r} t h =
    rw
      (
        delta-Tracks count t h,
        producer-Tracks count t,
        occupied-Tracks count t h,
        saturating_add-eq-min r.rx_wire_bytes count t.counted,
      )
      (ground arith)

-- What a plan holds when nothing was overrun.
pub prepare_read-Tracks :
    (k capacity : ℕ) {r : RxRing} {received consumed : ℕ}
    → k ≤ 32
    → Tracks r received consumed
    → received ≤ consumed + 2 ^ k
    → let plan = prepare_read (2 ^ k) r capacity in
      (plan.overrun ≡ false)
      × (plan.consumer_position ≡ r.consumer_position)
      × (plan.copy_length ≡ min capacity (received - consumed))
      × (plan.ring_offset ≡ consumed % 2 ^ k)
      × (plan.first_length ≡ min plan.copy_length (2 ^ k - consumed % 2 ^ k))
unfolding prepare_read
prepare_read-Tracks k capacity {r} {received} {consumed} hk t h = ground (
  arith,
  available-Tracks t,
  bit_and-ones k r.consumer_position,
  ap (λ p. p % 2 ^ k) t.consumer,
  mod-mod_pow k consumed hk,
)

pub has_valid_layout-prepare_read :
    (k capacity : ℕ) {r : RxRing} {received consumed : ℕ}
    → k ≤ 32
    → Tracks r received consumed
    → received ≤ consumed + 2 ^ k
    → has_valid_layout (2 ^ k) (prepare_read (2 ^ k) r capacity) ≡ true
unfolding has_valid_layout
has_valid_layout-prepare_read k capacity {r} {received} {consumed} hk t h = ground (
  arith,
  prepare_read-Tracks k capacity hk t h,
  bit_and-ones k (prepare_read (2 ^ k) r capacity).consumer_position,
  ap (λ p. p % 2 ^ k) t.consumer,
  mod-mod_pow k consumed hk,
  mod-lt consumed (pow-pos k),
)

-- Committing the plan just prepared succeeds and consumes exactly the bytes copied.
pub commit-prepare_read :
    (k capacity : ℕ) {r : RxRing} {received consumed : ℕ}
    → k ≤ 32
    → Tracks r received consumed
    → received ≤ consumed + 2 ^ k
    → let (r', done) = commit_read (2 ^ k) r (prepare_read (2 ^ k) r capacity) in
      (done ≡ true) × Tracks r' received (consumed + min capacity (received - consumed))
unfolding commit_read
commit-prepare_read k capacity {r} {received} {consumed} hk t h = ground (
  arith,
  prepare_read-Tracks k capacity hk t h,
  has_valid_layout-prepare_read k capacity hk t h,
  available-Tracks t,
)
