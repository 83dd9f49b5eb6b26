-- ===== src/Microros/Arena/Walk.antt =====
-- ReclaimingArena::Allocate ends, whatever stands in the memory.
use mentor_pi_ros.Prelude.{
  ℕ, zero, suc, ◌+◌, ◌-◌, ◌^◌, ◌≤◌, ◌<◌, ◌≡◌, refl, Bool, true, false, not, ◌&&◌, ◌||◌, Option,
  some, arith, ltb, leb, ◌==◌, if◌then◌else◌,
}
use mentor_pi_ros.Microros.Arena.{
  Arena, header_size, payload_size, state, block_free, next_offset, validate_block, take_block,
  find_fit, allocate, align_up, mark_corrupt,
}

-- A block that is valid leads on: the next one begins behind its header, in the arena or at its end.
pub valid_block_leads_on :
    (a : Arena) (offset : ℕ)
    → a.capacity < 2 ^ 32
    → header_size ≤ a.capacity
    → validate_block a offset ≡ true
    → (next_offset a.memory offset ≡ offset + header_size + payload_size a.memory offset)
      × (offset + header_size + payload_size a.memory offset ≤ a.capacity)
unfolding validate_block next_offset
valid_block_leads_on a offset word room valid = ground arith

-- A test picks one of two results that are there.
one_of :
    {A : Type 0} (test : Bool) (x : Option A) (a : A) (rest : test ≡ false → (r : A) × (x ≡ some r))
    → (r : A) × ((if test then some a else x) ≡ some r)
one_of true x a rest = (a, refl)
one_of false x a rest = rest refl

find_fit-ends :
    (fuel : ℕ) (a : Arena) (size offset : ℕ)
    → a.capacity < 2 ^ 32
    → header_size ≤ a.capacity
    → a.capacity - offset < fuel
    → (r : ℕ × Arena) × (find_fit fuel a size offset ≡ some r)
unfolding find_fit
find_fit-ends zero a size offset word room enough = absurd (omega arith)
find_fit-ends (suc fuel) a size offset word room enough =
    one_of (not (ltb offset a.capacity)) _ (0, a)
      λ inside.
        one_of (not (validate_block a offset)) _ (0, mark_corrupt a)
          λ valid.
            one_of (state a.memory offset == block_free && leb size (payload_size a.memory offset))
              _ (take_block a offset size)
              λ _.
                let leads = valid_block_leads_on a offset word room (ground (arith, valid)) in
                find_fit-ends fuel a size (next_offset a.memory offset) word room
                  (ground (arith, leads, inside))

-- Allocate returns in every arena, also when its memory is corrupt: no chain of headers makes the
-- search go round, since every block that passes validation leads forward.
pub allocate-ends :
    (a : Arena) (size : ℕ)
    → a.capacity < 2 ^ 32
    → header_size ≤ a.capacity
    → (r : ℕ × Arena) × (allocate a size ≡ some r)
unfolding allocate
allocate-ends a size word room =
    one_of (not a.healthy || size == 0 || ltb (2 ^ 32 - 1 - 7) size) _ (0, a)
      λ _. find_fit-ends (a.capacity + 1) a (align_up size) 0 word room (omega arith)
