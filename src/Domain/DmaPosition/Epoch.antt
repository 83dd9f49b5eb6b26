-- ===== src/Domain/DmaPosition/Epoch.antt =====
-- The snapshot (boundary count, cursor) of a DMA producer that has written `position` bytes, with
-- `half` bytes in each half of the ring and a 32-bit boundary counter.
use native.Mathlib.Nat.{mod-lt, mod-eq_of_lt, mod-add-div', add-mul-mod_self_right}
use mentor_pi_ros.Prelude.{ℕ, ◌+◌, ◌*◌, ◌/◌, ◌%◌, ◌^◌, ◌<◌, ◌≡◌, ap, ◌∙◌, arith, u32}
use mentor_pi_ros.Domain.DmaPosition.{reconstruct}

-- A position is its ring, its half and its place in that half.
whole :
    (half position : ℕ)
    → position ≡ (position / half % 2 * half + position % half) + position / half / 2 * (2 * half)
whole half position = omega (arith, mod-add-div' position half, ap (λ t. t * half) halves)
  where
    halves : position / half ≡ position / half % 2 + 2 * (position / half / 2)
    halves = omega arith

module _ (half position : ℕ) (positive : 0 < half) where
  in_ring : position / half % 2 * half + position % half < 2 * half
  in_ring = grind (arith, mod-lt position positive, mod-lt (position / half) {m = 2} (omega arith))

  cursor-eq : position % (2 * half) ≡ position / half % 2 * half + position % half
  cursor-eq =
      ap (λ t. t % (2 * half)) (whole half position)
      ∙ add-mul-mod_self_right _ (position / half / 2) (2 * half)
      ∙ mod-eq_of_lt in_ring

-- From a consistent snapshot the position is rebuilt modulo 2 ^ 32, also after the boundary counter
-- and the position have wrapped.
pub reconstruct_snapshot :
    (half position : ℕ)
    → 0 < half
    → reconstruct (2 * half) (u32 (position / half)) (position % (2 * half)) ≡ u32 position
unfolding reconstruct
reconstruct_snapshot half position positive = omega (
  arith,
  whole half position,
  cursor-eq half position positive,
  ap (λ t. t * half) rounds,
  ap (λ t. t * half) halved,
)
  where
    rounds :
        position / half / 2 ≡ position / half / 2 % 2 ^ 31 + 2 ^ 31 * (position / half / 2 / 2 ^ 31)
    rounds = omega arith

    halved : u32 (position / half) / 2 ≡ position / half / 2 % 2 ^ 31
    halved = omega arith
