-- ===== src/Lsm/Levels.antt =====
-- storage-node/src/lsm/levels.rs: the levels of one partition, and the compaction settings.
-- `Arc<SstRef>` is the reference itself: nothing in this code mutates a shared `SstRef`.
pub mod Overlap
pub mod Contents
pub mod Sizes
pub mod Members
use wow_db.Prelude.{
  ℕ, ◌+◌, ◌-◌, ◌*◌, ◌%◌, ◌^◌, min, Bool, not, Option, none, some, List, [], ◌∷◌, ◌++◌, map, length,
  get_elem?, set, replicate, retain, drop, ltb, leb, nat_beq, if◌then◌else◌, Result, ok, err,
}
use wow_db.Prelude.Bytes.{bytes_leb}
use wow_db.Prelude.Sorting.{sort_by}
use wow_db.Lsm.Sst.{SstRef, overlaps_with}

pub record CompactionConfig : Type 0 where
  pub l0_file_compaction_trigger : ℕ
  pub l0_slowdown_write_trigger : ℕ
  pub l0_stop_write_trigger : ℕ
  pub l1_max_bytes : ℕ
  pub level_size_multiplier : ℕ
  pub max_levels : ℕ
  pub target_file_size_bytes : ℕ
  pub check_interval_ms : ℕ

abbrev pub default_config : CompactionConfig
default_config = record {
  l0_file_compaction_trigger = 4;
  l0_slowdown_write_trigger = 8;
  l0_stop_write_trigger = 12;
  l1_max_bytes = 256 * 1024 * 1024;
  level_size_multiplier = 10;
  max_levels = 6;
  target_file_size_bytes = 64 * 1024 * 1024;
  check_interval_ms = 1000;
}

abbrev pub u64_max : ℕ
u64_max = 2 ^ 64 - 1

unfoldable pub saturating_mul : ℕ → ℕ → ℕ
saturating_mul a b = min (a * b) u64_max

unfoldable pub saturating_pow : ℕ → ℕ → ℕ
saturating_pow a b = min (a ^ b) u64_max

unfoldable pub target_level_size_bytes : CompactionConfig → ℕ → ℕ
unfolding saturating_mul saturating_pow
target_level_size_bytes c lvl =
    if nat_beq lvl 0
    then 0
    else saturating_mul c.l1_max_bytes (saturating_pow c.level_size_multiplier (lvl - 1))

pub record PartitionLevels : Type 0 where
  pub levels : List (List SstRef)
  pub config : CompactionConfig

unfoldable pub new : CompactionConfig → PartitionLevels
new c = record { levels = replicate (c.max_levels + 1) []; config = c }

abbrev pub min_key_leb : SstRef → SstRef → Bool
min_key_leb a b = bytes_leb a.min_sort_key b.min_sort_key

-- A level above L0 is sorted again after a push.
unfoldable pub push_level : ℕ → SstRef → List SstRef → List SstRef
push_level lvl sst ssts =
    if ltb 0 lvl then sort_by min_key_leb (ssts ++ sst ∷ []) else ssts ++ sst ∷ []

-- `none` is the panic of `self.levels[lvl]` at a level that is not there.
unfoldable pub add : SstRef → PartitionLevels → Option PartitionLevels
unfolding push_level
add sst p = elim (get_elem? p.levels sst.level) [
  | none ↦ none
  | some ssts ↦ some (record p { levels = set p.levels sst.level (push_level sst.level sst ssts) })
]

unfoldable pub remove : ℕ → PartitionLevels → PartitionLevels
remove id p = record p { levels = map (retain (λ s. not (nat_beq s.id id))) p.levels }

unfoldable pub concat {ℓ} : {A : Type ℓ} → List (List A) → List A
concat [] = []
concat (xs ∷ xss) = xs ++ concat xss

unfoldable pub read_snapshot : PartitionLevels → List SstRef
unfolding concat
read_snapshot p = concat p.levels

-- The sum of `u64` sizes wraps around.
unfoldable pub sum_sizes : List SstRef → ℕ
sum_sizes [] = 0
sum_sizes (s ∷ ssts) = (s.size_bytes + sum_sizes ssts) % 2 ^ 64

unfoldable pub level_size_bytes : PartitionLevels → ℕ → ℕ
unfolding sum_sizes
level_size_bytes p lvl = elim (get_elem? p.levels lvl) [ none ↦ 0 | some ssts ↦ sum_sizes ssts ]

unfoldable pub l0_count : PartitionLevels → ℕ
l0_count p = elim p.levels [ [] ↦ 0 | l0 ∷ rest ↦ length l0 ]

pub data WriteControl : Type 0 where
  normal slowdown stop : WriteControl

unfoldable pub write_control : PartitionLevels → WriteControl
write_control p =
    let l0 = l0_count p in
    if leb p.config.l0_stop_write_trigger l0
    then stop
    else if leb p.config.l0_slowdown_write_trigger l0
    then slowdown
    else normal

pub record NonOverlapViolation : Type 0 where
  pub level : ℕ
  pub sst_a : ℕ
  pub sst_b : ℕ

-- The loop over `j`.
unfoldable pub first_overlap : ℕ → SstRef → List SstRef → Result NonOverlapViolation (Unit {0})
first_overlap lvl s [] = ok tt
first_overlap lvl s (t ∷ ssts) =
    if overlaps_with s t
    then err (record { level = lvl; sst_a = s.id; sst_b = t.id })
    else first_overlap lvl s ssts

-- The loop over `i`.
unfoldable pub verify_level : ℕ → List SstRef → Result NonOverlapViolation (Unit {0})
unfolding first_overlap
verify_level lvl [] = ok tt
verify_level lvl (s ∷ ssts) =
    let rest = verify_level lvl ssts in
    elim (first_overlap lvl s ssts) [ ok _ ↦ rest | err e ↦ err e ]

-- The loop over the levels, from `lvl` on.
unfoldable pub verify_from : ℕ → List (List SstRef) → Result NonOverlapViolation (Unit {0})
unfolding verify_level
verify_from lvl [] = ok tt
verify_from lvl (ssts ∷ levels) =
    let rest = verify_from (lvl + 1) levels in
    elim (verify_level lvl ssts) [ ok _ ↦ rest | err e ↦ err e ]

unfoldable pub verify_non_overlapping : PartitionLevels → Result NonOverlapViolation (Unit {0})
unfolding verify_from
verify_non_overlapping p = verify_from 1 (drop 1 p.levels)
