-- ===== src/Microros/Arena/Blocks.antt =====
-- The list of blocks that the headers of a ReclaimingArena describe.
use mentor_pi_ros.Prelude.{
  ℕ, ◌+◌, ◌%◌, ◌^◌, ◌≤◌, ◌<◌, ◌≡◌, refl, ◌∙◌, Bool, true, List, [], ◌∷◌, arith, if◌then◌else◌, inl,
  inr, ◌⊎◌,
}
use mentor_pi_ros.Microros.Arena.{
  Arena, Memory, header_size, alignment, block_magic, block_free, block_allocated, write,
  next_offset, validate_block, set_following_previous,
}

pub record Block : Type 0 where
  pub size : ℕ
  pub used : Bool

abbrev pub state_of : Block → ℕ
state_of b = if b.used then block_allocated else block_free

abbrev pub end_of : ℕ → Block → ℕ
end_of offset b = offset + header_size + b.size

-- The header at `offset` describes the block, and the block lies in the arena.
pub record Headed (m : Memory) (cap offset previous : ℕ) (b : Block) : Type 0 where
  pub size : m offset ≡ b.size
  pub before : m (offset + 4) ≡ previous
  pub magic : m (offset + 8) ≡ block_magic
  pub state : m (offset + 12) ≡ state_of b
  pub offset_aligned : offset % alignment ≡ 0
  pub size_aligned : b.size % alignment ≡ 0
  pub fits : end_of offset b ≤ cap

-- From `offset` to the end of the arena the blocks follow each other without a gap, and every header
-- names the block before it.
pub data Tiled (m : Memory) (cap : ℕ) : ℕ → ℕ → List Block → Type 0 where
  nil : {offset previous : ℕ} → offset ≡ cap → Tiled m cap offset previous []
  cons :
      {offset previous : ℕ} {b : Block} {bs : List Block}
      → Headed m cap offset previous b
      → Tiled m cap (end_of offset b) offset bs
      → Tiled m cap offset previous (b ∷ bs)

module _ {m : Memory} {cap : ℕ} where
  pub head_of :
      {offset previous : ℕ} {b : Block} {bs : List Block}
      → Tiled m cap offset previous (b ∷ bs)
      → Headed m cap offset previous b
  head_of (cons h t) = h

  pub rest_of :
      {offset previous : ℕ} {b : Block} {bs : List Block}
      → Tiled m cap offset previous (b ∷ bs)
      → Tiled m cap (end_of offset b) offset bs
  rest_of (cons h t) = t

  -- Where the next block begins there is room for its header, or the arena ends.
  pub room_at :
      {offset previous : ℕ} {bs : List Block}
      → Tiled m cap offset previous bs
      → (offset ≡ cap) ⊎ (offset + header_size ≤ cap)
  room_at (nil e) = inl e
  room_at (cons {offset} {previous} {b} h t) = inr (let fits = h.fits in omega arith)

-- A header is its four words; writes elsewhere do not touch it.
pub Headed-frame :
    {m n : Memory} {cap offset previous : ℕ} {b : Block}
    → ((x : ℕ) → offset ≤ x → x < offset + header_size → n x ≡ m x)
    → Headed m cap offset previous b
    → Headed n cap offset previous b
Headed-frame {m} {n} {cap} {offset} same h = record {
  size = same offset (omega arith) (omega arith) ∙ h.size;
  before = same (offset + 4) (omega arith) (omega arith) ∙ h.before;
  magic = same (offset + 8) (omega arith) (omega arith) ∙ h.magic;
  state = same (offset + 12) (omega arith) (omega arith) ∙ h.state;
  offset_aligned = h.offset_aligned;
  size_aligned = h.size_aligned;
  fits = h.fits;
}

-- Writes below a block do not touch it, nor those behind it.
pub Tiled-frame :
    {m n : Memory} {cap offset previous : ℕ} {bs : List Block}
    → ((x : ℕ) → offset ≤ x → n x ≡ m x)
    → Tiled m cap offset previous bs
    → Tiled n cap offset previous bs
Tiled-frame same (nil e) = nil e
Tiled-frame same (cons {offset} {previous} {b} h t) =
    cons (Headed-frame (λ x le lt. same x le) h) (Tiled-frame (λ x le. same x (omega arith)) t)

-- What every operation relies on: the arena is healthy, and its size is an aligned word.
pub record Sound (a : Arena) : Type 0 where
  pub healthy : a.healthy ≡ true
  pub word : a.capacity < 2 ^ 32
  pub aligned : a.capacity % alignment ≡ 0

-- A block of the list passes the validation, and leads to the next.
pub Headed-valid :
    (a : Arena) (offset previous : ℕ) (b : Block)
    → Sound a
    → Headed a.memory a.capacity offset previous b
    → (end_of offset b ≡ a.capacity) ⊎ (end_of offset b + header_size ≤ a.capacity)
    → (validate_block a offset ≡ true) × (next_offset a.memory offset ≡ end_of offset b)
unfolding validate_block next_offset
Headed-valid a offset previous b sound h (inl ends) = ground (
  arith, sound.healthy, sound.word, h.size, h.magic, h.state, h.offset_aligned, h.size_aligned,
  h.fits,
)
Headed-valid a offset previous b sound h (inr more) = ground (
  arith, sound.healthy, sound.word, h.size, h.magic, h.state, h.offset_aligned, h.size_aligned,
  h.fits,
)

-- The memory after the block behind `offset` was told of it.
unfoldable pub relink : List Block → Memory → ℕ → ℕ → Memory
unfolding write
relink [] m offset next = m
relink (b ∷ bs) m offset next = write m (next + 4) offset

pub relink-Tiled :
    {m : Memory} {cap next previous : ℕ} {bs : List Block} (from : ℕ)
    → Tiled m cap next previous bs
    → Tiled (relink bs m from next) cap next from bs
unfolding relink write
relink-Tiled from (nil e) = nil e
relink-Tiled {m} from (cons {offset} {previous} {b} h t) =
    cons
      (record {
        size = ground (arith, h.size);
        before = ground arith;
        magic = ground (arith, h.magic);
        state = ground (arith, h.state);
        offset_aligned = h.offset_aligned;
        size_aligned = h.size_aligned;
        fits = h.fits;
      })
      (Tiled-frame (λ x le. ground (arith, le)) t)

-- Below the next block nothing is written.
pub relink-below :
    (bs : List Block) (m : Memory) (offset next x : ℕ) → x < next → relink bs m offset next x ≡ m x
unfolding relink write
relink-below [] m offset next x lt = refl
relink-below (b ∷ bs) m offset next x lt = ground (arith, lt)

-- The block behind `offset` learns where the one before it begins.
pub set_following_previous-relink :
    (a : Arena) (offset previous stale : ℕ) (b : Block) (bs : List Block)
    → Sound a
    → Headed a.memory a.capacity offset previous b
    → Tiled a.memory a.capacity (end_of offset b) stale bs
    → set_following_previous a offset
      ≡ record a { memory = relink bs a.memory offset (end_of offset b) }
unfolding set_following_previous relink
set_following_previous-relink a offset previous stale b [] sound h (nil e) =
    let valid = Headed-valid a offset previous b sound h (inl e) in ground (arith, valid, e)
set_following_previous-relink a offset previous stale b (c ∷ bs) sound h (cons g t) =
    let fits = g.fits in
    let valid = Headed-valid a offset previous b sound h (inr (omega arith)) in
    let next = Headed-valid a (end_of offset b) stale c sound g (room_at t) in
    ground (arith, valid, next, fits)
