-- ===== src/Microros/Arena/Contract.antt =====
-- What ReclaimingArena promises: its calls on the list of blocks that the memory holds.
use mentor_pi_ros.Prelude.{
  ℕ, ◌+◌, ◌-◌, ◌*◌, ◌/◌, ◌%◌, ◌^◌, ◌≤◌, ◌<◌, ◌≡◌, refl, sym, subst, Bool, true, false, not, ◌||◌,
  List, [], ◌∷◌, ◌++◌, arith, ltb, ◌==◌, ◌!=◌, if◌then◌else◌, some,
}
use mentor_pi_ros.Microros.Arena.{
  Arena, Memory, header_size, alignment, no_offset, release_block, find_block_for_pointer,
  deallocate, initialize, reset, write_header, write,
}
use mentor_pi_ros.Microros.Arena.Blocks.{
  Block, end_of, Headed, Tiled, nil, cons, head_of, rest_of, room_at, Headed-frame, Sound,
  Headed-valid,
}
use mentor_pi_ros.Microros.Arena.Merge.{join}
use mentor_pi_ros.Microros.Arena.Place.{marked}
use mentor_pi_ros.Microros.Arena.FirstFit.{Holds}
use mentor_pi_ros.Microros.Arena.Free.{Released, first-Released}
use mentor_pi_ros.Microros.Arena.Dealloc.{join_behind, second-Released}

-- The offset of the block behind the blocks of a list.
abbrev pub start_of : ℕ → List Block → ℕ
start_of offset [] = offset
start_of offset (q ∷ before) = start_of (end_of offset q) before

-- A block is freed: it joins a free block behind it, and then the one before it when that is free.
unfoldable pub free_block : List Block → Block → List Block → List Block
unfolding join join_behind
free_block [] b bs = join (marked false b) bs
free_block (q ∷ []) b bs = join_behind q (join (marked false b) bs)
free_block (q ∷ r ∷ before) b bs = q ∷ free_block (r ∷ before) b bs

-- The blocks from a block of the list on.
window :
    {m : Memory} {cap : ℕ} (offset previous : ℕ) (before : List Block) (b : Block) (bs : List Block)
    → Tiled m cap offset previous (before ++ b ∷ bs)
    → (p : ℕ) × Tiled m cap (start_of offset before) p (b ∷ bs)
window offset previous [] b bs t = (previous, t)
window offset previous (q ∷ before) b bs t = window (end_of offset q) offset before b bs (rest_of t)

-- The result behind a block is one from that block on.
behind-Released :
    {a : Arena} {offset previous left : ℕ} {q : Block} {bs : List Block} {r : Bool × Arena}
    → Headed a.memory a.capacity offset previous q
    → Released a (end_of offset q) offset left bs r
    → Released a offset previous left (q ∷ bs) r
behind-Released h done = record {
  done = done.done;
  tiled = cons (Headed-frame (λ x le lt. done.below x (omega arith)) h) done.tiled;
  below = λ x lt. done.below x (omega arith);
  healthy = done.healthy;
  same_storage = done.same_storage;
  same_capacity = done.same_capacity;
  bytes_used = done.bytes_used;
}

release_block-Released :
    (a : Arena) (offset previous : ℕ) (before : List Block) (b : Block) (bs : List Block)
    → Sound a
    → Tiled a.memory a.capacity offset previous (before ++ b ∷ bs)
    → (before ≡ [] → previous ≡ no_offset)
    → b.used ≡ true
    → b.size ≤ a.bytes_used
    → Released a offset previous
        (a.bytes_used - b.size)
        (free_block before b bs)
        (release_block a (start_of offset before))
unfolding free_block
release_block-Released a offset previous [] b bs sound t first used counted =
    first-Released a offset previous b bs sound t used counted (first refl)
release_block-Released a offset previous (q ∷ []) b bs sound t first used counted =
    second-Released a offset previous q b bs sound t used counted
release_block-Released a offset previous (q ∷ r ∷ before) b bs sound t first used counted =
    behind-Released (head_of t) (
      release_block-Released a (end_of offset q) offset (r ∷ before) b bs sound (rest_of t)
        (λ e. absurd (ground (arith, e))) used counted)

-- The payload of the block behind `before`.
abbrev pub pointer_to : Arena → List Block → ℕ
pointer_to a before = a.storage + start_of 0 before + header_size

found :
    (a : Arena) (before : List Block) (b : Block) (bs : List Block)
    → Holds a (before ++ b ∷ bs)
    → 0 < a.storage
    → 0 < b.size
    → find_block_for_pointer a (pointer_to a before) ≡ some (start_of 0 before)
unfolding find_block_for_pointer
found a before b bs holds placed large =
    let at = window 0 no_offset before b bs holds.tiled in
    let h = head_of at.1 in
    let fits = h.fits in
    let valid = Headed-valid a (start_of 0 before) at.0 b holds.sound h (room_at (rest_of at.1)) in
    let back : a.storage + start_of 0 before + header_size - a.storage - header_size
        ≡ start_of 0 before =
      omega arith in
    rw back (ground (arith, valid, fits))

deallocate-step :
    (a : Arena) (pointer offset : ℕ)
    → 0 < pointer
    → a.healthy ≡ true
    → find_block_for_pointer a pointer ≡ some offset
    → deallocate a pointer ≡ release_block a offset
unfolding deallocate
deallocate-step a pointer offset some_pointer healthy here =
    let given : (pointer == 0) ≡ false = ground (arith, some_pointer) in
    rw (here, given) (first _ _ a.healthy healthy)
  where
    first : (x y : Bool × Arena) (h : Bool) → h ≡ true → (if not h then x else y) ≡ y
    first x y h e = rw e refl

-- Deallocate, given the pointer to an allocated block anywhere in the arena, succeeds: the block is
-- free afterwards, joined with the free blocks on both sides, every other block is where it was, and
-- the count of bytes in use falls by the size of the block.
pub deallocate-frees :
    (a : Arena) (before : List Block) (b : Block) (bs : List Block)
    → Holds a (before ++ b ∷ bs)
    → 0 < a.storage
    → 0 < b.size
    → b.used ≡ true
    → b.size ≤ a.bytes_used
    → let r = deallocate a (pointer_to a before) in
      (r.0 ≡ true) × Holds r.1 (free_block before b bs) × (r.1.bytes_used ≡ a.bytes_used - b.size)
deallocate-frees a before b bs holds placed large used counted =
    let here = found a before b bs holds placed large in
    let step =
      deallocate-step a (pointer_to a before) (start_of 0 before) (omega arith) holds.sound.healthy
        here in
    let done =
      release_block-Released a 0 no_offset before b bs holds.sound holds.tiled (λ _. refl) used
        counted in
    let r = release_block a (start_of 0 before) in
    let sound : Sound r.1 = record {
      healthy = done.healthy;
      word = subst (λ n. n < 2 ^ 32) (sym done.same_capacity) holds.sound.word;
      aligned = subst (λ n. n % alignment ≡ 0) (sym done.same_capacity) holds.sound.aligned;
    } in
    let tiled =
      subst (λ n. Tiled r.1.memory n 0 no_offset (free_block before b bs)) (sym done.same_capacity)
        done.tiled in
    subst
      (λ z.
        (z.0 ≡ true)
        × Holds z.1 (free_block before b bs)
        × (z.1.bytes_used ≡ a.bytes_used - b.size))
      (sym step) (done.done, record { sound = sound; tiled = tiled }, done.bytes_used)

-- Initialize on an aligned storage with room for a header and a payload succeeds: the arena holds
-- one free block that fills it, and nothing is in use.
pub initialize-Holds :
    (a : Arena) (storage capacity : ℕ)
    → 0 < storage
    → storage % alignment ≡ 0
    → header_size + alignment ≤ capacity
    → capacity < 2 ^ 32
    → let r = initialize a storage capacity in
      (r.0 ≡ true)
      × Holds r.1 (record { size = capacity / 8 * 8 - header_size; used = false } ∷ [])
      × (r.1.bytes_used ≡ 0)
unfolding initialize reset write_header write
initialize-Holds a storage capacity placed aligned room word =
    let given : (storage == 0 || storage % alignment != 0 || ltb capacity (header_size + alignment))
        ≡ false =
      ground (arith, placed, aligned, room) in
    let large : (storage == 0 || ltb (capacity / 8 * 8) (header_size + alignment)) ≡ false =
      ground (arith, placed, room) in
    rw (given, large)
      (
        refl,
        record {
          sound = record { healthy = refl; word = omega arith; aligned = omega arith };
          tiled =
              cons
                (record {
                  size = refl;
                  before = refl;
                  magic = refl;
                  state = refl;
                  offset_aligned = refl;
                  size_aligned = omega arith;
                  fits = omega arith;
                })
                (nil (omega arith));
        },
        refl,
      )
