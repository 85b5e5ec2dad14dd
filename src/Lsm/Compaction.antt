-- ===== src/Lsm/Compaction.antt =====
-- storage-node/src/lsm/compaction.rs: choosing a compaction, merging its inputs, and committing it.
-- Parameters: `Float64` for the f64 scores, `JsonLines` for the manifest's text, `Host` for the names and
-- paths of new files. Sums of `u64` wrap around, as in a release build. `none` is a panic.
pub mod Picking
pub mod Merging
pub mod Committing
pub mod Hazards
use Prim.Native.Nat.{max}
use wow_db.Prelude.{
  ℕ, zero, suc, String, ◌+◌, ◌-◌, ◌/◌, ◌%◌, ◌^◌, ◌≡◌, Bool, true, false, not, Option, none, some,
  List, [], ◌∷◌, ◌++◌, map, length, get_elem?, take, retain, ltb, leb, nat_beq, if◌then◌else◌,
  Result,
}
use wow_db.Prelude.Bytes.{bytes_leb, from_be_bytes}
use wow_db.Lsm.Sst.{SstRef, overlaps_with}
use wow_db.Lsm.Levels
use wow_db.Lsm.Levels.{
  CompactionConfig, PartitionLevels, l0_count, level_size_bytes, target_level_size_bytes, sum_sizes,
}
use wow_db.Lsm.Manifest
use wow_db.Lsm.Manifest.{
  JsonLines, Manifest, open_manifest, add_sst, begin_compaction, complete_compaction,
}

pub record TtlConfig : Type 0 where
  pub ttl_column : String
  pub ttl_seconds : ℕ

pub record CompactionJob : Type 0 where
  pub id : ℕ
  pub input_level : ℕ
  pub output_level : ℕ
  pub inputs : List SstRef

pub record CompactionResult : Type 0 where
  pub compaction_id : ℕ
  pub removed_ids : List ℕ
  pub output_ids : List ℕ

-- The f64 operations that a score needs. `gt` is `partial_cmp` with the answer `Greater`.
pub record Float64 : Type 1 where
  pub F : Type 0
  pub of_ℕ : ℕ → F
  pub div : F → F → F
  pub gt : F → F → Bool
  pub ge_one : F → Bool

-- New names: the k-th `Uuid::new_v4` of a run, and the path of an output.
pub record Host : Type 0 where
  pub new_id : ℕ → ℕ
  pub col_path : ℕ → ℕ → ℕ → String

module _ (f : Float64) where
  open f use {F, of_ℕ, div, gt, ge_one}

  unfoldable pub compaction_score : PartitionLevels → ℕ → F
  compaction_score p lvl =
      if nat_beq lvl 0
      then div (of_ℕ (l0_count p)) (of_ℕ p.config.l0_file_compaction_trigger)
      else div (of_ℕ (level_size_bytes p lvl)) (of_ℕ (target_level_size_bytes p.config lvl))

  -- `max_by` keeps the later of two that compare equal.
  unfoldable pub better : PartitionLevels → Option ℕ → ℕ → ℕ
  better p none lvl = lvl
  better p (some best) lvl =
      if gt (compaction_score p best) (compaction_score p lvl) then best else lvl

  -- The levels from `lvl` on: the empty ones are passed over.
  unfoldable pub best_level : PartitionLevels → Option ℕ → ℕ → List (List SstRef) → Option ℕ
  unfolding better
  best_level p best lvl [] = best
  best_level p best lvl ([] ∷ levels) = best_level p best (lvl + 1) levels
  best_level p best lvl ((s ∷ ssts) ∷ levels) =
      best_level p (some (better p best lvl)) (lvl + 1) levels

  unfoldable pub highest_priority_level : PartitionLevels → Option ℕ
  unfolding best_level compaction_score
  highest_priority_level p = elim (best_level p none 0 p.levels) [
    | none ↦ none
    | some lvl ↦ if ge_one (compaction_score p lvl) then some lvl else none
  ]

unfoldable pub pick_l0_compaction : ℕ → PartitionLevels → CompactionConfig → Option CompactionJob
pick_l0_compaction id p config = elim (get_elem? p.levels 0) [
  | none ↦ none
  | some l0 ↦
      if ltb (length l0) config.l0_file_compaction_trigger
      then none
      else some (record { id = id; input_level = 0; output_level = 1; inputs = l0 })
]

-- `min_by_key` keeps the first of the least.
unfoldable pub least_sequence : SstRef → List SstRef → SstRef
least_sequence best [] = best
least_sequence best (s ∷ ssts) =
    least_sequence (if ltb s.sequence_num best.sequence_num then s else best) ssts

unfoldable pub overlapping : SstRef → Option (List SstRef) → List SstRef
overlapping input none = []
overlapping input (some ssts) = retain (overlaps_with input) ssts

unfoldable pub pick_from : ℕ → PartitionLevels → ℕ → List SstRef → Option CompactionJob
unfolding least_sequence overlapping
pick_from id p lvl [] = none
pick_from id p lvl (s ∷ ssts) = some (record {
  id = id;
  input_level = lvl;
  output_level = lvl + 1;
  inputs =
      least_sequence s ssts ∷ overlapping (least_sequence s ssts) (get_elem? p.levels (lvl + 1));
})

unfoldable pub pick_ln_compaction : ℕ → PartitionLevels → ℕ → Option CompactionJob
unfolding pick_from
pick_ln_compaction id p lvl = elim (get_elem? p.levels lvl) [
  | none ↦ none
  | some ssts ↦ pick_from id p lvl ssts
]

-- The timestamp is the first eight bytes of the least key.
unfoldable pub is_live : Option TtlConfig → ℕ → SstRef → Bool
is_live none now s = true
is_live (some ttl) now s =
    if leb 8 (length s.min_sort_key)
    then ltb now ((from_be_bytes 0 (take 8 s.min_sort_key) + ttl.ttl_seconds) % 2 ^ 64)
    else true

unfoldable pub lesser : List ℕ → List ℕ → List ℕ
lesser a b = if bytes_leb a b then a else b

unfoldable pub greater : List ℕ → List ℕ → List ℕ
greater a b = if bytes_leb a b then b else a

-- The four folds over the inputs that are left.
unfoldable pub least_key : List ℕ → List SstRef → List ℕ
unfolding lesser
least_key k [] = k
least_key k (s ∷ ssts) = least_key (lesser k s.min_sort_key) ssts

unfoldable pub greatest_key : List ℕ → List SstRef → List ℕ
unfolding greater
greatest_key k [] = k
greatest_key k (s ∷ ssts) = greatest_key (greater k s.max_sort_key) ssts

unfoldable pub max_sequence : List SstRef → ℕ
max_sequence [] = 0
max_sequence (s ∷ ssts) = max s.sequence_num (max_sequence ssts)

unfoldable pub max_generation : List SstRef → ℕ
max_generation [] = 0
max_generation (s ∷ ssts) = max s.generation (max_generation ssts)

unfoldable pub sum_rows : List SstRef → ℕ
sum_rows [] = 0
sum_rows (s ∷ ssts) = (s.row_count + sum_rows ssts) % 2 ^ 64

-- `((total_size + target - 1) / target).max(1)`
unfoldable pub split_count : ℕ → ℕ → ℕ
split_count total_size target =
    max ((((total_size + target) % 2 ^ 64 + 2 ^ 64 - 1) % 2 ^ 64) / target) 1

-- The output of one split: `n` splits are left of `count`.
unfoldable pub outputs_from : Host → CompactionJob → SstRef → List SstRef → ℕ → ℕ → ℕ → List SstRef
outputs_from host job s ssts count idx zero = []
outputs_from host job s ssts count idx (suc n) =
    record {
      id = host.new_id idx;
      sequence_num = max_sequence (s ∷ ssts);
      generation = (max_generation (s ∷ ssts) + 1) % 2 ^ 64;
      compacted_from = map (λ i. i.id) job.inputs;
      level = job.output_level;
      path = host.col_path job.output_level (max_sequence (s ∷ ssts)) idx;
      size_bytes = sum_sizes (s ∷ ssts) / count;
      row_count = sum_rows (s ∷ ssts) / count;
      min_sort_key = least_key s.min_sort_key ssts;
      max_sort_key = greatest_key s.max_sort_key ssts;
    }
    ∷ outputs_from host job s ssts count (idx + 1) n

-- A target size of zero is a division by zero.
unfoldable pub merge_valid :
    Host → CompactionConfig → CompactionJob → List SstRef → Option (List SstRef)
unfolding outputs_from split_count
merge_valid host config job [] = some []
merge_valid host config job (s ∷ ssts) =
    if nat_beq config.target_file_size_bytes 0
    then none
    else (let count = split_count (sum_sizes (s ∷ ssts)) config.target_file_size_bytes in
        some (outputs_from host job s ssts count 0 count))

unfoldable pub merge_sort_inputs :
    Host → CompactionConfig → Option TtlConfig → ℕ → CompactionJob → Option (List SstRef)
unfolding merge_valid is_live
merge_sort_inputs host config ttl now job =
    merge_valid host config job (retain (is_live ttl now) job.inputs)

unfoldable pub add_all : List SstRef → PartitionLevels → Option PartitionLevels
add_all [] p = some p
add_all (s ∷ ssts) p = elim (Levels.add s p) [ none ↦ none | some q ↦ add_all ssts q ]

unfoldable pub remove_ids : List ℕ → PartitionLevels → PartitionLevels
remove_ids [] p = p
remove_ids (id ∷ ids) p = remove_ids ids (Levels.remove id p)

pub record PartitionCompactor (Line : Type 0) : Type 0 where
  pub levels : PartitionLevels
  pub manifest : Manifest Line
  pub config : CompactionConfig
  pub ttl : Option TtlConfig

module _ (json : JsonLines) where
  open json use {Line}

  unfoldable pub new :
      Option (List Line) → CompactionConfig → Option TtlConfig → Option (PartitionCompactor Line)
  unfolding add_all
  new file config ttl =
      let manifest = open_manifest json file in
      elim (add_all manifest.active (Levels.new config)) [
        | none ↦ none
        | some levels ↦
            some (record { levels = levels; manifest = manifest; config = config; ttl = ttl })
      ]

  unfoldable pub register_flush :
      Bool → SstRef → PartitionCompactor Line → Option (PartitionCompactor Line × Bool)
  register_flush io sst c =
      let (m, written) = add_sst json io sst c.manifest in
      if written
      then elim (Levels.add sst c.levels) [
        | none ↦ none
        | some levels ↦ some (record c { manifest = m; levels = levels }, true)
      ]
      else some (c, false)

  unfoldable pub pick_compaction : Float64 → ℕ → PartitionCompactor Line → Option CompactionJob
  unfolding pick_l0_compaction pick_ln_compaction
  pick_compaction f id c = elim (highest_priority_level f c.levels) [
    | none ↦ none
    | some lvl ↦
        if nat_beq lvl 0
        then pick_l0_compaction id c.levels c.config
        else pick_ln_compaction id c.levels lvl
  ]

  -- The levels change only after the log has the end of the compaction.
  unfoldable pub commit :
      Bool
      → CompactionJob
      → List SstRef
      → PartitionCompactor Line
      → Option (PartitionCompactor Line × Option CompactionResult)
  unfolding remove_ids add_all
  commit io job outputs c =
      let input_ids = map (λ (s : SstRef). s.id) job.inputs in
      let output_ids = map (λ (s : SstRef). s.id) outputs in
      let (m, written) =
        complete_compaction json io job.id output_ids input_ids outputs c.manifest in
      if written
      then elim (add_all outputs (remove_ids input_ids c.levels)) [
        | none ↦ none
        | some levels ↦ some (
          record c { manifest = m; levels = levels },
          some
              (record { compaction_id = job.id; removed_ids = input_ids; output_ids = output_ids }),
        )
      ]
      else some (record c { manifest = m }, none)

  -- `begin` and `end` say whether the two appends succeed.
  unfoldable pub run_compaction :
      Host
      → Bool
      → Bool
      → ℕ
      → CompactionJob
      → PartitionCompactor Line
      → Option (PartitionCompactor Line × Option CompactionResult)
  unfolding commit
  run_compaction host begin end now job c =
      let (m, written) =
        begin_compaction json begin job.id (map (λ (s : SstRef). s.id) job.inputs) job.output_level
          c.manifest in
      if written
      then elim (merge_sort_inputs host c.config c.ttl now job) [
        | none ↦ none
        | some outputs ↦ commit end job outputs (record c { manifest = m })
      ]
      else some (c, none)
