-- ===== src/Microros/Arena.antt =====
-- `ReclaimingArena` (reclaiming_arena.h and .cc) on the 32-bit target: a header has 16 bytes and an
-- alignment of 8. The storage is a function from a byte offset, a multiple of 4, to the word there;
-- words are little endian. A pointer is an address, and 0 the null pointer. No subtraction goes
-- below 0, since a healthy arena has room for a header and each is made after its test.
pub mod Walk
pub mod Blocks
pub mod Split
pub mod Merge
pub mod Place
pub mod FirstFit
pub mod Free
pub mod Dealloc
pub mod Contract
pub mod Resize
pub mod Tests
use mentor_pi_ros.Prelude.{
  ℕ, zero, suc, ◌+◌, ◌-◌, ◌*◌, ◌/◌, ◌%◌, ◌^◌, max, min, Bool, true, false, not, ◌&&◌, ◌||◌, Option,
  none, some, ltb, leb, ◌==◌, ◌!=◌, if◌then◌else◌, u32_max,
}

abbrev pub header_size : ℕ
header_size = 16

abbrev pub alignment : ℕ
alignment = 8

abbrev pub no_offset : ℕ
no_offset = u32_max

abbrev pub block_magic : ℕ
block_magic = 0x4d504152

abbrev pub block_free : ℕ
block_free = 0x46524545

abbrev pub block_allocated : ℕ
block_allocated = 0x55534544

-- `(value + kAlignment - 1U) & ~(kAlignment - 1U)`, with no carry out of 32 bits at the calls.
abbrev pub align_up : ℕ → ℕ
align_up value = (value + 7) / 8 * 8

abbrev pub Memory : Type 0
Memory = ℕ → ℕ

unfoldable pub write : Memory → ℕ → ℕ → Memory
write memory at word address = if address == at then word else memory address

-- The words of a `BlockHeader` at an offset.
abbrev pub payload_size : Memory → ℕ → ℕ
payload_size memory offset = memory offset

abbrev pub previous_offset : Memory → ℕ → ℕ
previous_offset memory offset = memory (offset + 4)

abbrev pub magic : Memory → ℕ → ℕ
magic memory offset = memory (offset + 8)

abbrev pub state : Memory → ℕ → ℕ
state memory offset = memory (offset + 12)

unfoldable pub write_header : Memory → ℕ → ℕ → ℕ → ℕ → Memory
unfolding write
write_header memory offset payload previous state =
    write
      (write (write (write memory offset payload) (offset + 4) previous) (offset + 8) block_magic)
      (offset + 12) state

pub record Arena : Type 0 where
  pub storage : ℕ
  pub memory : Memory
  pub capacity : ℕ
  pub bytes_used : ℕ
  pub peak_bytes_used : ℕ
  pub healthy : Bool

abbrev pub mark_corrupt : Arena → Arena
mark_corrupt a = record a { healthy = false }

unfoldable pub next_offset : Memory → ℕ → ℕ
next_offset memory offset = (offset + header_size + payload_size memory offset) % 2 ^ 32

unfoldable pub validate_block : Arena → ℕ → Bool
unfolding next_offset
validate_block a offset =
    a.healthy
    && offset % alignment == 0
    && leb offset (a.capacity - header_size)
    && magic a.memory offset == block_magic
    && (state a.memory offset == block_free || state a.memory offset == block_allocated)
    && payload_size a.memory offset % alignment == 0
    && leb (payload_size a.memory offset) (a.capacity - offset - header_size)
    && (next_offset a.memory offset == a.capacity
        || leb (next_offset a.memory offset) (a.capacity - header_size))

unfoldable pub reset : Arena → Arena
unfolding write_header
reset a =
    if a.storage == 0 || ltb a.capacity (header_size + alignment)
    then mark_corrupt a
    else record a {
      memory = write_header (λ _. 0) 0 (a.capacity - header_size) no_offset block_free;
      bytes_used = 0;
      peak_bytes_used = 0;
      healthy = true;
    }

unfoldable pub initialize : Arena → ℕ → ℕ → Bool × Arena
unfolding reset
initialize a storage capacity =
    let fresh = reset (record a { storage = storage; capacity = capacity / 8 * 8 }) in
    if storage == 0 || storage % alignment != 0 || ltb capacity (header_size + alignment)
    then (false, a)
    else (fresh.healthy, fresh)

unfoldable pub set_following_previous : Arena → ℕ → Arena
unfolding validate_block next_offset write
set_following_previous a offset =
    let next = next_offset a.memory offset in
    if not (validate_block a offset)
    then mark_corrupt a
    else if next == a.capacity
    then a
    else if not (validate_block a next)
    then mark_corrupt a
    else record a { memory = write a.memory (next + 4) offset }

unfoldable pub split_block : Arena → ℕ → ℕ → Arena
unfolding validate_block write write_header set_following_previous
split_block a offset size =
    let remaining = payload_size a.memory offset - size in
    let new_offset = offset + header_size + size in
    let headed = write_header a.memory new_offset (remaining - header_size) offset block_free in
    if not (validate_block a offset) || ltb (payload_size a.memory offset) size
    then mark_corrupt a
    else if ltb remaining (header_size + alignment)
    then a
    else set_following_previous (record a { memory = write headed offset size }) new_offset

unfoldable pub merge_with_next : Arena → ℕ → Arena
unfolding validate_block next_offset write set_following_previous
merge_with_next a offset =
    let next = next_offset a.memory offset in
    let joined = payload_size a.memory offset + (header_size + payload_size a.memory next) in
    if not (validate_block a offset)
    then mark_corrupt a
    else if next == a.capacity
    then a
    else if not (validate_block a next)
    then mark_corrupt a
    else if state a.memory next != block_free
    then a
    else set_following_previous (record a { memory = write a.memory offset (joined % 2 ^ 32) })
        offset

-- Allocate: the block at `offset` is taken.
unfoldable pub take_block : Arena → ℕ → ℕ → ℕ × Arena
unfolding split_block write
take_block a offset size =
    let split = split_block a offset size in
    let used = (split.bytes_used + payload_size split.memory offset) % 2 ^ 32 in
    if not split.healthy then (0, split) else (
      a.storage + offset + header_size,
      record split {
        memory = write split.memory (offset + 12) block_allocated;
        bytes_used = used;
        peak_bytes_used = max split.peak_bytes_used used;
      },
    )

-- Allocate: the loop over the blocks. `none` means that the fuel ran out.
unfoldable pub find_fit : ℕ → Arena → ℕ → ℕ → Option (ℕ × Arena)
unfolding validate_block next_offset take_block
find_fit zero a size offset = none
find_fit (suc fuel) a size offset =
    let rest = find_fit fuel a size (next_offset a.memory offset) in
    if not (ltb offset a.capacity)
    then some (0, a)
    else if not (validate_block a offset)
    then some (0, mark_corrupt a)
    else if state a.memory offset == block_free && leb size (payload_size a.memory offset)
    then some (take_block a offset size)
    else rest

unfoldable pub allocate : Arena → ℕ → Option (ℕ × Arena)
unfolding find_fit
allocate a size =
    if not a.healthy || size == 0 || ltb (u32_max - 7) size
    then some (0, a)
    else find_fit (a.capacity + 1) a (align_up size) 0

-- The offset of the block whose payload begins at a pointer.
unfoldable pub find_block_for_pointer : Arena → ℕ → Option ℕ
unfolding validate_block
find_block_for_pointer a pointer =
    let candidate = pointer - a.storage - header_size in
    if pointer == 0
      || a.storage == 0
      || ltb pointer (a.storage + header_size)
      || leb (a.storage + a.capacity) pointer
      || not (validate_block a candidate)
    then none
    else some candidate

-- Deallocate: the freed block joins the block before it when that is free.
unfoldable pub merge_with_previous : Arena → ℕ → Bool × Arena
unfolding validate_block merge_with_next
merge_with_previous a offset =
    let previous = previous_offset a.memory offset in
    let merged = merge_with_next a previous in
    if not a.healthy
    then (false, a)
    else if previous == no_offset
    then (a.healthy, a)
    else if not (validate_block a previous)
    then (false, mark_corrupt a)
    else if state a.memory previous == block_free
    then (merged.healthy, merged)
    else (a.healthy, a)

unfoldable pub release_block : Arena → ℕ → Bool × Arena
unfolding write merge_with_next merge_with_previous
release_block a offset =
    let freed = record a {
      bytes_used = a.bytes_used - payload_size a.memory offset;
      memory = write a.memory (offset + 12) block_free;
    } in
    if state a.memory offset != block_allocated || ltb a.bytes_used (payload_size a.memory offset)
    then (false, mark_corrupt a)
    else merge_with_previous (merge_with_next freed offset) offset

unfoldable pub deallocate : Arena → ℕ → Bool × Arena
unfolding find_block_for_pointer release_block
deallocate a pointer =
    if pointer == 0
    then (true, a)
    else if not a.healthy
    then (false, mark_corrupt a)
    else elim (find_block_for_pointer a pointer) [
      | none ↦ (false, mark_corrupt a)
      | some offset ↦ release_block a offset
    ]
