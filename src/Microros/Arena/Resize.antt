-- ===== src/Microros/Arena/Resize.antt =====
-- `Reallocate` and `ZeroAllocate` (reclaiming_arena.cc).
use mentor_pi_ros.Prelude.{
  ℕ, zero, suc, ◌+◌, ◌-◌, ◌*◌, ◌/◌, ◌%◌, ◌^◌, max, min, Bool, not, ◌&&◌, ◌||◌, Option, none, some,
  ltb, leb, ◌==◌, ◌!=◌, if◌then◌else◌, u32_max,
}
use mentor_pi_ros.Microros.Arena.{
  Memory, Arena, header_size, block_free, block_allocated, align_up, write, payload_size, state,
  next_offset, validate_block, mark_corrupt, split_block, merge_with_next, find_block_for_pointer,
  allocate, deallocate,
}

-- The first `bytes` bytes of a little-endian word come from another word.
abbrev pub blend : ℕ → ℕ → ℕ → ℕ
blend bytes new old = new % 256 ^ bytes + old / 256 ^ bytes * 256 ^ bytes

-- `words` whole words are written.
unfoldable pub fill_words : ℕ → (ℕ → ℕ) → ℕ → Memory → Memory
unfolding write
fill_words zero value to memory = memory
fill_words (suc words) value to memory =
    write (fill_words words value to memory) (to + 4 * words) (value words)

-- `bytes` bytes are written; the value of a word is a function of its number.
unfoldable pub fill_bytes : ℕ → (ℕ → ℕ) → ℕ → Memory → Memory
unfolding fill_words write
fill_bytes bytes value to memory =
    let whole = fill_words (bytes / 4) value to memory in
    let last = to + 4 * (bytes / 4) in
    if bytes % 4 == 0
    then whole
    else write whole last (blend (bytes % 4) (value (bytes / 4)) (memory last))

abbrev pub memcpy : ℕ → ℕ → ℕ → Memory → Memory
memcpy to from bytes memory = fill_bytes bytes (λ word. memory (from + 4 * word)) to memory

abbrev pub memset_zero : ℕ → ℕ → Memory → Memory
memset_zero to bytes memory = fill_bytes bytes (λ word. 0) to memory

-- A smaller size splits the block where it stands.
unfoldable pub shrink : Arena → ℕ → ℕ → ℕ → ℕ × Arena
unfolding split_block
shrink a pointer offset size =
    let old_size = payload_size a.memory offset in
    let split = split_block a offset size in
    if split.healthy
    then (
      pointer,
      record split {
        bytes_used = split.bytes_used - (old_size - payload_size split.memory offset);
      },
    )
    else (0, split)

-- The free block behind is large enough to grow into.
unfoldable pub can_grow : Arena → ℕ → ℕ → Bool
unfolding next_offset validate_block
can_grow a offset size =
    let next = next_offset a.memory offset in
    ltb next a.capacity
    && validate_block a next
    && state a.memory next == block_free
    && leb size ((payload_size a.memory offset + header_size + payload_size a.memory next) % 2 ^ 32)

unfoldable pub grow : Arena → ℕ → ℕ → ℕ → ℕ × Arena
unfolding merge_with_next split_block
grow a pointer offset size =
    let old_size = payload_size a.memory offset in
    let merged = merge_with_next a offset in
    let split = split_block merged offset size in
    let used = (split.bytes_used + (payload_size split.memory offset - old_size)) % 2 ^ 32 in
    if not merged.healthy then (0, merged) else if not split.healthy then (0, split) else (
      pointer,
      record split { bytes_used = used; peak_bytes_used = max split.peak_bytes_used used },
    )

-- The content moves to another block.
unfoldable pub move : Arena → ℕ → ℕ → ℕ → Option (ℕ × Arena)
unfolding allocate deallocate fill_bytes
move a pointer old_size size = elim (allocate a size) [
  | none ↦ none
  | some (replacement, b) ↦
      let copied = record b {
        memory =
            memcpy (replacement - b.storage) (pointer - b.storage) (min old_size size) b.memory;
      } in
      let freed = deallocate copied pointer in
      if replacement == 0
      then some (0, b)
      else if not freed.0
      then some (0, freed.1)
      else some (replacement, freed.1)
]

unfoldable pub resize : Arena → ℕ → ℕ → ℕ → Option (ℕ × Arena)
unfolding shrink can_grow grow move
resize a pointer offset size =
    let old_size = payload_size a.memory offset in
    let moved = move a pointer old_size size in
    if state a.memory offset != block_allocated
    then some (0, mark_corrupt a)
    else if leb (align_up size) old_size
    then some (shrink a pointer offset (align_up size))
    else if can_grow a offset (align_up size)
    then some (grow a pointer offset (align_up size))
    else moved

unfoldable pub reallocate : Arena → ℕ → ℕ → Option (ℕ × Arena)
unfolding allocate deallocate find_block_for_pointer resize
reallocate a pointer size =
    let fresh = allocate a size in
    let resized : Option (ℕ × Arena) = elim (find_block_for_pointer a pointer) [
      | none ↦ some (0, mark_corrupt a)
      | some offset ↦ resize a pointer offset size
    ] in
    if pointer == 0
    then fresh
    else if size == 0
    then some (0, (deallocate a pointer).1)
    else if ltb (u32_max - 7) size
    then some (0, a)
    else if not a.healthy
    then some (0, mark_corrupt a)
    else resized

unfoldable pub zero_allocate : Arena → ℕ → ℕ → Option (ℕ × Arena)
unfolding allocate fill_bytes
zero_allocate a count size =
    let zeroed : Option (ℕ × Arena) = elim (allocate a (count * size)) [
      | none ↦ none
      | some (pointer, b) ↦
          if pointer == 0
          then some (0, b)
          else some (
            pointer,
            record b { memory = memset_zero (pointer - b.storage) (count * size) b.memory },
          )
    ] in
    if count == 0 || size == 0 || ltb (u32_max / size) count then some (0, a) else zeroed
