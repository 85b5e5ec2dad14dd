-- ===== src/Lsm/Levels/Sizes.antt =====
-- storage-node/src/lsm/levels.rs: target sizes, and the control of writes by the L0 count.
use wow_db.Prelude.{ℕ, suc, ◌*◌, ◌^◌, ◌≤◌, ◌<◌, min, ◌≡◌, ◌↔◌, arith}
use wow_db.Lsm.Levels.{
  CompactionConfig, PartitionLevels, u64_max, target_level_size_bytes, write_control, l0_count,
  slowdown, stop,
}

-- The saturating product is the exact product of L1's size and the power, cut off at the greatest `u64`.
target_level_size_bytes-exact :
    (c : CompactionConfig) (k : ℕ)
    → target_level_size_bytes c (suc k) ≡ min (c.l1_max_bytes * c.level_size_multiplier ^ k) u64_max
unfolding target_level_size_bytes
target_level_size_bytes-exact c k = grind arith

-- Writes stop exactly from the stop trigger on, and are slowed exactly between the two triggers.
write_control_iff :
    (p : PartitionLevels)
    → ((write_control p ≡ stop) ↔ (p.config.l0_stop_write_trigger ≤ l0_count p))
      × ((write_control p ≡ slowdown) ↔ (
          (l0_count p < p.config.l0_stop_write_trigger)
          × (p.config.l0_slowdown_write_trigger ≤ l0_count p)))
unfolding write_control
write_control_iff p = ground arith
