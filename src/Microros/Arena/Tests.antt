-- ===== src/Microros/Arena/Tests.antt =====
-- An arena of 128 bytes at the address 4096.
use mentor_pi_ros.Prelude.{
  ℕ, ◌-◌, ◌%◌, ◌^◌, ◌<◌, ◌≡◌, sym, refl, true, false, List, [], ◌∷◌, arith, some, subst,
}
use mentor_pi_ros.Microros.Arena.{
  Arena, initialize, reset, write_header, write, allocate, deallocate, align_up, no_offset,
}
use mentor_pi_ros.Microros.Arena.Blocks.{Block, Tiled}
use mentor_pi_ros.Microros.Arena.Split.{carve}
use mentor_pi_ros.Microros.Arena.Merge.{join}
use mentor_pi_ros.Microros.Arena.Place.{place, Placed, Allocated, Refines}
use mentor_pi_ros.Microros.Arena.Walk.{allocate-ends}
use mentor_pi_ros.Microros.Arena.FirstFit.{Holds, allocate-Refines}
use mentor_pi_ros.Microros.Arena.Contract.{
  free_block, pointer_to, deallocate-frees, initialize-Holds,
}

abbrev nothing : Arena
nothing = record {
  storage = 0;
  memory = λ _. 7;
  capacity = 0;
  bytes_used = 0;
  peak_bytes_used = 0;
  healthy = false;
}

fresh : Arena
unfolding initialize reset write_header write
fresh = (initialize nothing 4096 131).1

abbrev one_block : List Block
one_block = record { size = 112; used = false } ∷ []

fresh-Holds : Holds fresh one_block
unfolding fresh initialize
fresh-Holds = (initialize-Holds nothing 4096 131 (omega arith) refl (omega arith) (omega arith)).1

allocate-Refines_example :
    (r : ℕ × Arena) × (allocate fresh 20 ≡ some r)
    × Refines fresh 0 no_offset (place (align_up 20) 0 one_block) r
allocate-Refines_example =
    allocate-Refines fresh 20 one_block fresh-Holds (omega arith) (omega arith)

-- The 20 bytes take 24, and the rest stays free.
abbrev first_of_two : Block
first_of_two = record { size = 24; used = true }

abbrev two_blocks : List Block
two_blocks = first_of_two ∷ record { size = 72; used = false } ∷ []

abbrev first_fit : Placed
first_fit = record { at = 0; got = 24; blocks = two_blocks }

split_in_two : place (align_up 20) 0 one_block ≡ some first_fit
unfolding place carve
split_in_two = refl

half : ℕ × Arena
half = allocate-Refines_example.0

half-Allocated : Allocated fresh 0 no_offset first_fit half
unfolding half
half-Allocated =
    subst (λ o. Refines fresh 0 no_offset o allocate-Refines_example.0) split_in_two
      allocate-Refines_example.2

half-Holds : Holds half.1 two_blocks
half-Holds =
    let done = half-Allocated in
    let sound = fresh-Holds.sound in
    record {
      sound = record {
        healthy = done.healthy;
        word = subst (λ n. n < 2 ^ 32) (sym done.same_capacity) sound.word;
        aligned = subst (λ n. n % 8 ≡ 0) (sym done.same_capacity) sound.aligned;
      };
      tiled =
          subst (λ n. Tiled half.1.memory n 0 no_offset two_blocks) (sym done.same_capacity)
            done.tiled;
    }

fresh_state : (fresh.storage ≡ 4096) × (fresh.bytes_used ≡ 0)
unfolding fresh
fresh_state = (refl, refl)

half_used : half.1.bytes_used ≡ 24
half_used = omega (arith, half-Allocated.bytes_used, fresh_state.1)

deallocate-frees_example :
    let r = deallocate half.1 (pointer_to half.1 []) in
    (r.0 ≡ true)
    × Holds r.1 (free_block [] first_of_two (record { size = 72; used = false } ∷ []))
    × (r.1.bytes_used ≡ half.1.bytes_used - 24)
deallocate-frees_example =
    deallocate-frees half.1 [] first_of_two (record { size = 72; used = false } ∷ []) half-Holds
      (omega (arith, half-Allocated.same_storage, fresh_state.0)) (omega arith) refl
      (omega (arith, half_used))

all_free : free_block [] first_of_two (record { size = 72; used = false } ∷ []) ≡ one_block
unfolding free_block join
all_free = refl

-- A corrupt arena, whose every word is 7.
abbrev corrupt : Arena
corrupt = record nothing { storage = 4096; capacity = 128; healthy = true }

allocate-ends_example : (r : ℕ × Arena) × (allocate corrupt 20 ≡ some r)
allocate-ends_example = allocate-ends corrupt 20 (omega arith) (omega arith)
