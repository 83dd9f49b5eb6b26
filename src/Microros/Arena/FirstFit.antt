-- ===== src/Microros/Arena/FirstFit.antt =====
-- Allocate: the search through the headers is first fit on the list of blocks.
use mentor_pi_ros.Prelude.{
  ℕ, zero, suc, ◌+◌, ◌-◌, ◌%◌, ◌≤◌, ◌<◌, ◌≡◌, refl, sym, ◌∙◌, ap, subst, Bool, true, false, not,
  ◌&&◌, List, [], ◌∷◌, arith, ltb, leb, ◌==◌, if◌then◌else◌, Bool-cases, inl, inr, Option, none,
  some, u32_max,
}
use mentor_pi_ros.Microros.Arena.{
  Arena, alignment, no_offset, block_free, payload_size, state, align_up, next_offset,
  validate_block, take_block, find_fit, allocate,
}
use mentor_pi_ros.Microros.Arena.Blocks.{
  Block, end_of, Headed, Tiled, nil, cons, room_at, Headed-frame, Sound, Headed-valid,
}
use mentor_pi_ros.Microros.Arena.Split.{carve}
use mentor_pi_ros.Microros.Arena.Place.{
  Placed, place, behind, got_of, mark_head, Refines, take_block-Allocated,
}

abbrev fits_at : Arena → ℕ → ℕ → Bool
fits_at a size offset =
    state a.memory offset == block_free && leb size (payload_size a.memory offset)

find_fit-hit :
    (fuel : ℕ) (a : Arena) (size offset : ℕ)
    → ltb offset a.capacity ≡ true
    → validate_block a offset ≡ true
    → fits_at a size offset ≡ true
    → find_fit (suc fuel) a size offset ≡ some (take_block a offset size)
unfolding find_fit
find_fit-hit fuel a size offset inside valid good = rw (inside, valid, good) refl

find_fit-miss :
    (fuel : ℕ) (a : Arena) (size offset : ℕ)
    → ltb offset a.capacity ≡ true
    → validate_block a offset ≡ true
    → fits_at a size offset ≡ false
    → find_fit (suc fuel) a size offset ≡ find_fit fuel a size (next_offset a.memory offset)
unfolding find_fit
find_fit-miss fuel a size offset inside valid bad = rw (inside, valid, bad) refl

abbrev placed_here : ℕ → ℕ → Block → List Block → Placed
placed_here size offset b bs = record {
  at = offset;
  got = got_of size b;
  blocks = mark_head true (carve size b bs);
}

place-nil : (size offset : ℕ) → place size offset [] ≡ none
unfolding place
place-nil size offset = refl

choose_option :
    (test : Bool) (x y : Option Placed)
    → (test ≡ true → (if test then x else y) ≡ x) × (test ≡ false → (if test then x else y) ≡ y)
choose_option true x y = (λ _. refl, λ off. absurd (ground (arith, off)))
choose_option false x y = (λ on. absurd (ground (arith, on)), λ _. refl)

place-cases :
    (size offset : ℕ) (b : Block) (bs : List Block)
    → ((not b.used && leb size b.size) ≡ true
        → place size offset (b ∷ bs) ≡ some (placed_here size offset b bs))
      × ((not b.used && leb size b.size) ≡ false
          → place size offset (b ∷ bs) ≡ behind b (place size (end_of offset b) bs))
unfolding place
place-cases size offset b bs = choose_option (not b.used && leb size b.size) _ _

-- What is found behind a block is found from that block on.
behind-Refines :
    (a : Arena) (offset previous : ℕ) (b : Block) (found : Option Placed) (r : ℕ × Arena)
    → Headed a.memory a.capacity offset previous b
    → Refines a (end_of offset b) offset found r
    → Refines a offset previous (behind b found) r
behind-Refines a offset previous b none r h same = same
behind-Refines a offset previous b (some p) r h done = record {
  pointer = done.pointer;
  tiled = cons (Headed-frame (λ x le lt. done.below x (omega arith)) h) done.tiled;
  below = λ x lt. done.below x (omega arith);
  healthy = done.healthy;
  same_storage = done.same_storage;
  same_capacity = done.same_capacity;
  bytes_used = done.bytes_used;
}

fits_iff :
    (a : Arena) (size offset previous : ℕ) (b : Block)
    → Headed a.memory a.capacity offset previous b
    → fits_at a size offset ≡ (not b.used && leb size b.size)
fits_iff a size offset previous b h = ground (arith, h.state, h.size)

find_fit-end :
    (fuel : ℕ) (a : Arena) (size offset : ℕ)
    → offset ≡ a.capacity
    → find_fit (suc fuel) a size offset ≡ some (0, a)
unfolding find_fit
find_fit-end fuel a size offset e = ground (arith, e)

find_fit-Refines :
    (fuel : ℕ) (a : Arena) (size offset previous : ℕ) (bs : List Block)
    → Sound a
    → Tiled a.memory a.capacity offset previous bs
    → size % alignment ≡ 0
    → a.capacity - offset < fuel
    → (r : ℕ × Arena) × (find_fit fuel a size offset ≡ some r)
      × Refines a offset previous (place size offset bs) r
find_fit-Refines zero a size offset previous bs sound t aligned enough = absurd (omega arith)
find_fit-Refines (suc fuel) a size offset previous [] sound (nil e) aligned enough = (
  (0, a),
  find_fit-end fuel a size offset e,
  subst (λ o. Refines a offset previous o (0, a)) (sym (place-nil size offset)) refl,
)
find_fit-Refines (suc fuel) a size offset previous (b ∷ bs) sound (cons h t) aligned enough =
    let fits = h.fits in
    let inside : ltb offset a.capacity ≡ true = ground (arith, fits) in
    let valid = Headed-valid a offset previous b sound h (room_at t) in
    let cases = place-cases size offset b bs in
    elim (Bool-cases (not b.used && leb size b.size)) [
      | inl good ↦
          let small : size ≤ b.size = ground (arith, good) in
          (
            take_block a offset size,
            find_fit-hit fuel a size offset inside valid.0
                (fits_iff a size offset previous b h ∙ good),
            subst (λ o. Refines a offset previous o (take_block a offset size)) (sym (cases.0 good))
                (take_block-Allocated a offset previous size b bs sound (cons h t) small aligned),
          )
      | inr bad ↦
          let rest =
            find_fit-Refines fuel a size (end_of offset b) offset bs sound t aligned
              (omega arith) in
          (
            rest.0,
            find_fit-miss fuel a size offset inside valid.0
                  (fits_iff a size offset previous b h ∙ bad)
                ∙ ap (λ n. find_fit fuel a size n) valid.1
                ∙ rest.1,
            subst (λ o. Refines a offset previous o rest.0) (sym (cases.1 bad))
                (behind-Refines a offset previous b (place size (end_of offset b) bs) rest.0 h
                  rest.2),
          )
    ]

-- A state of the allocator whose memory holds exactly the blocks of a list.
pub record Holds (a : Arena) (bs : List Block) : Type 0 where
  pub sound : Sound a
  pub tiled : Tiled a.memory a.capacity 0 no_offset bs

-- Allocate on a healthy arena, of a size that is above 0 and can be rounded up to the alignment in
-- 32 bits (at most u32_max - 7), returns, and is first fit on its list of blocks: where the list has a
-- free block that is large enough for the size rounded up to the alignment, the first of them is
-- taken, what it does not need becomes a free block when it has room for a header and a payload, and
-- the pointer leads behind its header; otherwise the null pointer is returned and nothing changes.
-- The headers are again those of the list.
pub allocate-Refines :
    (a : Arena) (size : ℕ) (bs : List Block)
    → Holds a bs
    → 0 < size
    → size ≤ u32_max - 7
    → (r : ℕ × Arena) × (allocate a size ≡ some r)
      × Refines a 0 no_offset (place (align_up size) 0 bs) r
unfolding allocate
allocate-Refines a size bs holds positive small =
    let found =
      find_fit-Refines (a.capacity + 1) a (align_up size) 0 no_offset bs holds.sound holds.tiled
        (omega arith) (omega arith) in
    let some_size : (size == 0) ≡ false = ground (arith, positive) in
    let fits : ltb (u32_max - 7) size ≡ false = ground (arith, small) in
    (found.0, rw (holds.sound.healthy, some_size, fits) refl ∙ found.1, found.2)
