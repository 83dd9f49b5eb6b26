-- ===== src/Microros/Arena/Free.antt =====
-- Deallocate: the freed block joins its free neighbours.
use mentor_pi_ros.Prelude.{
  ℕ, ◌+◌, ◌-◌, ◌%◌, ◌^◌, ◌≤◌, ◌<◌, ◌≡◌, refl, sym, ◌∙◌, ap, subst, Bool, true, false, List, [], ◌∷◌,
  arith, ltb, ◌==◌, ◌!=◌, if◌then◌else◌,
}
use mentor_pi_ros.Microros.Arena.{
  Arena, Memory, alignment, no_offset, block_free, block_allocated, write, payload_size, state,
  merge_with_next, merge_with_previous, release_block, previous_offset,
}
use mentor_pi_ros.Microros.Arena.Blocks.{Block, Tiled, head_of, Sound}
use mentor_pi_ros.Microros.Arena.Split.{Kept}
use mentor_pi_ros.Microros.Arena.Merge.{join, joined, merge_with_next-Kept}
use mentor_pi_ros.Microros.Arena.Place.{marked, mark-Tiled, write-else}

-- What is left of the arena behind `offset` when a block there has been freed.
pub record Released (a : Arena) (offset previous left : ℕ) (bs : List Block) (r : Bool × Arena)
    : Type 0 where
  pub done : r.0 ≡ true
  pub tiled : Tiled r.1.memory a.capacity offset previous bs
  pub below : (x : ℕ) → x < offset → r.1.memory x ≡ a.memory x
  pub healthy : r.1.healthy ≡ true
  pub same_storage : r.1.storage ≡ a.storage
  pub same_capacity : r.1.capacity ≡ a.capacity
  pub bytes_used : r.1.bytes_used ≡ left

pub Kept-Sound :
    {offset previous : ℕ} {bs : List Block} (a r : Arena)
    → Sound a
    → Kept a r offset previous bs
    → Sound r
Kept-Sound a r sound kept = record {
  healthy = ap Arena.healthy kept.only_memory ∙ sound.healthy;
  word = subst (λ n. n < 2 ^ 32) (sym (ap Arena.capacity kept.only_memory)) sound.word;
  aligned = subst (λ n. n % alignment ≡ 0) (sym (ap Arena.capacity kept.only_memory)) sound.aligned;
}

-- The first block of a list that `join` returns stands where the block stood.
pub join-before :
    {m : Memory} {cap offset previous : ℕ} (b : Block) (bs : List Block)
    → Tiled m cap offset previous (join b bs)
    → m (offset + 4) ≡ previous
unfolding join
join-before b [] t = (head_of t).before
join-before {m} {cap} {offset} {previous} b (c ∷ bs) t = choose c.used t
  where
    choose :
        (u : Bool)
        → Tiled m cap offset previous (if u then b ∷ c ∷ bs else joined b c ∷ bs)
        → m (offset + 4) ≡ previous
    choose true t = (head_of t).before
    choose false t = (head_of t).before

module _ (a : Arena) (offset previous : ℕ) (b : Block) (bs : List Block) where
  -- The state and the count are written.
  abbrev pub opened : Arena
  opened = record a {
    bytes_used = a.bytes_used - payload_size a.memory offset;
    memory = write a.memory (offset + 12) block_free;
  }

  abbrev pub after_next : Arena
  after_next = merge_with_next opened offset

  abbrev pub freed : List Block
  freed = join (marked false b) bs

  module _ (sound : Sound a) (t : Tiled a.memory a.capacity offset previous (b ∷ bs))
      (used : b.used ≡ true) (counted : b.size ≤ a.bytes_used) where
    pub release_block-steps : release_block a offset ≡ merge_with_previous after_next offset
    unfolding release_block
    release_block-steps =
        let h = head_of t in
        let allocated : (state a.memory offset != block_allocated) ≡ false =
          ground (arith, h.state, used) in
        let enough : ltb a.bytes_used (payload_size a.memory offset) ≡ false =
          ground (arith, h.size, counted) in
        rw (allocated, enough) refl

    pub opened-Sound : Sound opened
    opened-Sound = record { healthy = sound.healthy; word = sound.word; aligned = sound.aligned }

    pub next-Kept : Kept opened after_next offset previous freed
    next-Kept =
        merge_with_next-Kept opened offset previous (marked false b) bs opened-Sound
          (mark-Tiled a.memory a.capacity offset previous false b bs t)

    pub next-below : (x : ℕ) → x < offset → after_next.memory x ≡ a.memory x
    next-below x lt =
        next-Kept.below x lt ∙ write-else a.memory (offset + 12) block_free x (ground (arith, lt))

    pub next-Released : Released a offset previous (a.bytes_used - b.size) freed (true, after_next)
    next-Released = record {
      done = refl;
      tiled = next-Kept.tiled;
      below = next-below;
      healthy = ap Arena.healthy next-Kept.only_memory ∙ sound.healthy;
      same_storage = ap Arena.storage next-Kept.only_memory;
      same_capacity = ap Arena.capacity next-Kept.only_memory;
      bytes_used =
          ap Arena.bytes_used next-Kept.only_memory ∙ ap (λ n. a.bytes_used - n) (head_of t).size;
    }

    -- The first block of the arena has none before it.
    pub first-Released :
        previous ≡ no_offset
        → Released a offset previous (a.bytes_used - b.size) freed (release_block a offset)
    unfolding merge_with_previous
    first-Released first =
        let none : (previous_offset after_next.memory offset == no_offset) ≡ true =
          ground (arith, join-before (marked false b) bs next-Kept.tiled, first) in
        subst (Released a offset previous (a.bytes_used - b.size) freed)
          (sym (release_block-steps ∙ stays none)) next-Released
      where
        stays :
            (previous_offset after_next.memory offset == no_offset) ≡ true
            → merge_with_previous after_next offset ≡ (true, after_next)
        stays none = rw (next-Released.healthy, none) refl
