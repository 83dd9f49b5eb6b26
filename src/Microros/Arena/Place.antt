-- ===== src/Microros/Arena/Place.antt =====
-- Allocate finds the first free block that is large enough, in the order of the list of blocks.
use mentor_pi_ros.Prelude.{
  ℕ, ◌+◌, ◌%◌, ◌^◌, ◌≤◌, ◌<◌, ◌≡◌, refl, sym, ◌∙◌, ap, subst, Bool, true, false, not, ◌&&◌, List,
  [], ◌∷◌, arith, leb, ◌==◌, if◌then◌else◌, Option, none, some,
}
use mentor_pi_ros.Microros.Arena.{
  Arena, Memory, header_size, alignment, block_allocated, write, take_block, split_block,
}
use mentor_pi_ros.Microros.Arena.Blocks.{
  Block, state_of, end_of, Tiled, cons, head_of, Tiled-frame, Sound,
}
use mentor_pi_ros.Microros.Arena.Split.{is_whole, shrunk, remainder, carve, split_block-Kept}

abbrev pub marked : Bool → Block → Block
marked used b = record b { used = used }

abbrev pub mark_head : Bool → List Block → List Block
mark_head used [] = []
mark_head used (b ∷ bs) = marked used b ∷ bs

-- The state word of a block is written.
pub mark-Tiled :
    (m : Memory) (cap offset previous : ℕ) (used : Bool) (b : Block) (bs : List Block)
    → Tiled m cap offset previous (b ∷ bs)
    → Tiled
        (write m (offset + 12) (state_of (marked used b)))
        cap
        offset
        previous
        (marked used b ∷ bs)
unfolding write
mark-Tiled m cap offset previous used b bs (cons h t) =
    cons
      (record {
        size = ground (arith, h.size);
        before = ground (arith, h.before);
        magic = ground (arith, h.magic);
        state = ground arith;
        offset_aligned = h.offset_aligned;
        size_aligned = h.size_aligned;
        fits = h.fits;
      })
      (Tiled-frame (λ x le. ground (arith, le)) t)

pub write-else : (m : Memory) (at word x : ℕ) → (x == at) ≡ false → write m at word x ≡ m x
unfolding write
write-else m at word x other = ground (arith, other)

-- Where an allocation lies, how much of the arena it takes, and the blocks that are then there.
pub record Placed : Type 0 where
  pub at : ℕ
  pub got : ℕ
  pub blocks : List Block

abbrev pub behind : Block → Option Placed → Option Placed
behind b none = none
behind b (some p) = some (record p { blocks = b ∷ p.blocks })

abbrev pub got_of : ℕ → Block → ℕ
got_of size b = if is_whole size b then b.size else size

-- First fit on the list of blocks.
unfoldable pub place : ℕ → ℕ → List Block → Option Placed
unfolding carve
place size offset [] = none
place size offset (b ∷ bs) =
    let later = behind b (place size (end_of offset b) bs) in
    if not b.used && leb size b.size
    then some
        (record { at = offset; got = got_of size b; blocks = mark_head true (carve size b bs) })
    else later

pub record Allocated (a : Arena) (offset previous : ℕ) (p : Placed) (r : ℕ × Arena) : Type 0 where
  pub pointer : r.0 ≡ a.storage + p.at + header_size
  pub tiled : Tiled r.1.memory a.capacity offset previous p.blocks
  pub below : (x : ℕ) → x < offset → r.1.memory x ≡ a.memory x
  pub healthy : r.1.healthy ≡ true
  pub same_storage : r.1.storage ≡ a.storage
  pub same_capacity : r.1.capacity ≡ a.capacity
  pub bytes_used : r.1.bytes_used ≡ (a.bytes_used + p.got) % 2 ^ 32

-- The result is the null pointer and the arena as it was, or what was placed.
abbrev pub Refines : Arena → ℕ → ℕ → Option Placed → ℕ × Arena → Type 0
Refines a offset previous none r = r ≡ (0, a)
Refines a offset previous (some p) r = Allocated a offset previous p r

carve-head :
    (size : ℕ) (b : Block) (bs : List Block)
    → (c : Block) × (cs : List Block) × (carve size b bs ≡ c ∷ cs) × (c.size ≡ got_of size b)
unfolding carve
carve-head size b bs = choose (is_whole size b)
  where
    choose :
        (w : Bool)
        → (c : Block) × (cs : List Block) × ((if w
              then b ∷ bs
              else shrunk size b ∷ remainder size b ∷ bs)
            ≡ c ∷ cs)
          × (c.size ≡ (if w then b.size else size))
    choose true = (b, bs, refl, refl)
    choose false = (shrunk size b, remainder size b ∷ bs, refl, refl)

pub take_block-Allocated :
    (a : Arena) (offset previous size : ℕ) (b : Block) (bs : List Block)
    → Sound a
    → Tiled a.memory a.capacity offset previous (b ∷ bs)
    → size ≤ b.size
    → size % alignment ≡ 0
    → Allocated a offset previous
        (record { at = offset; got = got_of size b; blocks = mark_head true (carve size b bs) })
        (take_block a offset size)
unfolding take_block
take_block-Allocated a offset previous size b bs sound t fits aligned =
    let kept = split_block-Kept a offset previous size b bs sound t fits aligned in
    let split = split_block a offset size in
    let head = carve-head size b bs in
    let tiled : Tiled split.memory a.capacity offset previous (head.0 ∷ head.1) =
      subst (Tiled split.memory a.capacity offset previous) head.2 kept.tiled in
    let healthy : split.healthy ≡ true = ap Arena.healthy kept.only_memory ∙ sound.healthy in
    let memory' = write split.memory (offset + 12) block_allocated in
    let marks : Tiled memory' a.capacity offset previous (mark_head true (carve size b bs)) =
      subst (λ l. Tiled memory' a.capacity offset previous (mark_head true l)) (sym head.2)
        (mark-Tiled split.memory a.capacity offset previous true head.0 head.1 tiled) in
    let first = head_of tiled in
    subst (Allocated a offset previous placed) (sym (healthy_branch _ _ split.healthy healthy))
      (record {
        pointer = refl;
        tiled = marks;
        below = λ x lt. write-below split.memory offset x lt ∙ kept.below x lt;
        healthy = healthy;
        same_storage = ap Arena.storage kept.only_memory;
        same_capacity = ap Arena.capacity kept.only_memory;
        bytes_used =
            ap (λ n. n % 2 ^ 32)
              (omega (arith, ap Arena.bytes_used kept.only_memory, first.size, head.3));
      })
  where
    placed : Placed
    placed = record { at = offset; got = got_of size b; blocks = mark_head true (carve size b bs) }

    healthy_branch : (x y : ℕ × Arena) (h : Bool) → h ≡ true → (if not h then x else y) ≡ y
    healthy_branch x y h e = rw e refl

    write-below : (m : Memory) (o x : ℕ) → x < o → write m (o + 12) block_allocated x ≡ m x
    write-below m o x lt = write-else m (o + 12) block_allocated x (ground (arith, lt))
