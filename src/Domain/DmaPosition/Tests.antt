-- ===== src/Domain/DmaPosition/Tests.antt =====
-- Runs of the DMA position code, and its theorems at concrete snapshots.
use mentor_pi_ros.Prelude.{◌+◌, ◌*◌, ◌/◌, ◌%◌, ◌^◌, ◌≡◌, refl, false, arith, u32}
use mentor_pi_ros.Domain.DmaPosition.{is_consistent, reconstruct}
use mentor_pi_ros.Domain.DmaPosition.Epoch.{reconstruct_snapshot}

second_half : reconstruct 64 3 40 ≡ 104
unfolding reconstruct
second_half = refl

torn_snapshot : is_consistent 64 4 40 ≡ false
unfolding is_consistent
torn_snapshot = refl

reconstruct_snapshot_example :
    reconstruct (2 * 32) (u32 ((2 ^ 40 + 104) / 32)) ((2 ^ 40 + 104) % (2 * 32))
    ≡ u32 (2 ^ 40 + 104)
reconstruct_snapshot_example = reconstruct_snapshot 32 (2 ^ 40 + 104) (omega arith)
