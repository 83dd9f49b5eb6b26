-- ===== src/Microros/Arena/Split.antt =====
-- SplitBlock and MergeWithNext: what they do to the list of blocks.
use mentor_pi_ros.Prelude.{
  ℕ, ◌+◌, ◌-◌, ◌%◌, ◌≤◌, ◌<◌, ◌≡◌, refl, sym, ◌∙◌, subst, Bool, true, false, List, ◌∷◌, arith, ltb,
  if◌then◌else◌, inl, inr, ◌⊎◌, Bool-cases,
}
use mentor_pi_ros.Microros.Arena.{
  Arena, Memory, header_size, alignment, block_free, write, write_header, validate_block,
  set_following_previous, split_block, payload_size,
}
use mentor_pi_ros.Microros.Arena.Blocks.{
  Block, end_of, Headed, Tiled, cons, room_at, Headed-frame, Tiled-frame, Sound, Headed-valid,
  relink-Tiled, relink-below, set_following_previous-relink,
}

-- The rest of a block that is too small for a header and a payload stays with it.
abbrev pub is_whole : ℕ → Block → Bool
is_whole size b = ltb (b.size - size) (header_size + alignment)

abbrev pub shrunk : ℕ → Block → Block
shrunk size b = record b { size = size }

abbrev pub remainder : ℕ → Block → Block
remainder size b = record { size = b.size - size - header_size; used = false }

unfoldable pub carve : ℕ → Block → List Block → List Block
carve size b bs = if is_whole size b then b ∷ bs else shrunk size b ∷ remainder size b ∷ bs

-- What an operation on the block at `offset` guarantees.
pub record Kept (a r : Arena) (offset previous : ℕ) (bs : List Block) : Type 0 where
  pub only_memory : r ≡ record a { memory = r.memory }
  pub tiled : Tiled r.memory a.capacity offset previous bs
  pub below : (x : ℕ) → x < offset → r.memory x ≡ a.memory x

module _ (a : Arena) (offset previous size : ℕ) (b : Block) where
  abbrev new_offset : ℕ
  new_offset = offset + header_size + size

  -- The memory with the new header, before the block behind it is told.
  headed : Memory
  unfolding write write_header
  headed =
      write
        (write_header a.memory new_offset (payload_size a.memory offset - size - header_size) offset
          block_free)
        offset size

  module _ (h : Headed a.memory a.capacity offset previous b) (fits : size ≤ b.size)
      (aligned : size % alignment ≡ 0) (split : is_whole size b ≡ false) where
    remainder-Headed : Headed headed a.capacity new_offset offset (remainder size b)
    unfolding headed write write_header
    remainder-Headed = record {
      size = ground (arith, h.size);
      before = ground (arith);
      magic = ground (arith);
      state = ground (arith);
      offset_aligned = ground (arith, h.offset_aligned);
      size_aligned = ground (arith, h.size_aligned);
      fits = ground (arith, h.fits);
    }

    shrunk-Headed : Headed headed a.capacity offset previous (shrunk size b)
    unfolding headed write write_header
    shrunk-Headed = record {
      size = ground arith;
      before = ground (arith, h.before);
      magic = ground (arith, h.magic);
      state = ground (arith, h.state);
      offset_aligned = h.offset_aligned;
      size_aligned = aligned;
      fits = ground (arith, h.fits);
    }

    headed-outside : (x : ℕ) → (end_of offset b ≤ x) ⊎ (x < offset) → headed x ≡ a.memory x
    unfolding headed write write_header
    headed-outside x (inl behind) = ground (arith, behind, split)
    headed-outside x (inr below) = ground (arith, below)

  split_block-whole :
      Sound a
      → Headed a.memory a.capacity offset previous b
      → (end_of offset b ≡ a.capacity) ⊎ (end_of offset b + header_size ≤ a.capacity)
      → size ≤ b.size
      → is_whole size b ≡ true
      → split_block a offset size ≡ a
  unfolding split_block
  split_block-whole sound h room fits whole =
      let valid = Headed-valid a offset previous b sound h room in ground (arith, valid, h.size)

  split_block-headed :
      validate_block a offset ≡ true
      → a.memory offset ≡ b.size
      → size ≤ b.size
      → is_whole size b ≡ false
      → split_block a offset size ≡ set_following_previous (record a { memory = headed }) new_offset
  unfolding split_block headed
  split_block-headed valid word fits two =
      let large : ltb (payload_size a.memory offset) size ≡ false = ground (arith, word, fits) in
      let more : ltb (payload_size a.memory offset - size) (header_size + alignment) ≡ false =
        ground (arith, word, two) in
      rw (valid, large, more) refl

  split_block-two :
      (bs : List Block)
      → Sound a
      → Headed a.memory a.capacity offset previous b
      → Tiled a.memory a.capacity (end_of offset b) offset bs
      → size ≤ b.size
      → size % alignment ≡ 0
      → is_whole size b ≡ false
      → Kept a (split_block a offset size) offset previous (shrunk size b ∷ remainder size b ∷ bs)
  split_block-two bs sound h t fits aligned two =
      let valid = Headed-valid a offset previous b sound h (room_at t) in
      let same_end : end_of offset b ≡ end_of new_offset (remainder size b) =
        ground (arith, two, fits) in
      let behind =
        subst (λ n. Tiled headed a.capacity n offset bs) same_end
          (Tiled-frame (λ x le. headed-outside h fits aligned two x (inl le)) t) in
      let marked = record a { memory = headed } in
      let sound' : Sound marked = record {
        healthy = sound.healthy;
        word = sound.word;
        aligned = sound.aligned;
      } in
      let second = remainder-Headed h fits aligned two in
      let done =
        split_block-headed valid.0 h.size fits two
        ∙ set_following_previous-relink marked new_offset offset offset (remainder size b) bs sound'
            second behind in
      subst (λ r. Kept a r offset previous (shrunk size b ∷ remainder size b ∷ bs)) (sym done)
        (record {
          only_memory = refl;
          tiled =
              cons
                (Headed-frame (λ x le lt. relink-below bs headed new_offset _ x (omega arith))
                  (shrunk-Headed h fits aligned two))
                (cons
                  (Headed-frame (λ x le lt. relink-below bs headed new_offset _ x (omega arith))
                    second)
                  (relink-Tiled new_offset behind));
          below = λ x lt.
              relink-below bs headed new_offset _ x (omega arith)
              ∙ headed-outside h fits aligned two x (inr lt);
        })

-- SplitBlock leaves a block of the wanted size, and puts a free block behind it when there is room.
pub split_block-Kept :
    (a : Arena) (offset previous size : ℕ) (b : Block) (bs : List Block)
    → Sound a
    → Tiled a.memory a.capacity offset previous (b ∷ bs)
    → size ≤ b.size
    → size % alignment ≡ 0
    → Kept a (split_block a offset size) offset previous (carve size b bs)
unfolding carve
split_block-Kept a offset previous size b bs sound (cons h t) fits aligned =
    elim (Bool-cases (is_whole size b)) [
      | inl whole ↦
          let same = split_block-whole a offset previous size b sound h (room_at t) fits whole in
          rw whole (
            subst (λ r. Kept a r offset previous (b ∷ bs)) (sym same)
              (record { only_memory = refl; tiled = cons h t; below = λ x lt. refl }))
      | inr two ↦ rw two (split_block-two a offset previous size b bs sound h t fits aligned two)
    ]
