-- ===== src/Examples/Compaction.antt =====
-- storage-node/src/lsm/compaction.rs at concrete inputs.
use wow_db.Prelude.{
  ℕ, ◌+◌, ◌/◌, ◌≤◌, ◌≡◌, ◌≢◌, refl, ◌↔◌, true, false, Option, none, some, List, [], ◌∷◌, All, Elem,
  here, there, get_elem?, retain, leb, ltb, arith, subst, sym,
}
use wow_db.Prelude.Bytes.{bytes_leb}
use wow_db.Prelude.Sorting.{sort_by, sort_onto, insert_by}
use wow_db.Lsm.Sst.{SstRef, key_in_range, overlaps_with, IsRange}
use wow_db.Lsm.Levels
use wow_db.Lsm.Levels.{
  PartitionLevels, CompactionConfig, default_config, sum_sizes, l0_count, level_size_bytes,
  target_level_size_bytes, saturating_mul, saturating_pow,
}
use wow_db.Lsm.Levels.Overlap.{IsDisjoint}
use wow_db.Lsm.Levels.Members.{InLevel}
use wow_db.Lsm.Manifest.{
  JsonLines, ManifestEvent, open_manifest, begin_compaction, complete_compaction, append_event,
  append_line, should_rewrite, file_len, update_memory, remove_all,
}
use wow_db.Lsm.Compaction.{
  Float64, Host, CompactionJob, CompactionResult, PartitionCompactor, compaction_score,
  highest_priority_level, pick_l0_compaction, pick_ln_compaction, is_live, merge_sort_inputs,
  split_count, run_compaction, overlapping, outputs_from, least_key, greatest_key, lesser, greater,
  max_sequence, max_generation, sum_rows, add_all, remove_ids,
}
use wow_db.Lsm.Compaction.Picking.{pick_ln_compaction-covers}
use wow_db.Lsm.Compaction.Merging.{merge_sort_inputs-covers}
use wow_db.Lsm.Compaction.Hazards.{
  Overlapped, run_compaction-split, run_compaction-l0, run_compaction-last_level,
}

-- Quotients rounded down, in place of the f64 scores.
abbrev whole_numbers : Float64
whole_numbers = record {
  F = ℕ;
  of_ℕ = λ n. n;
  div = λ a b. a / b;
  gt = λ a b. ltb b a;
  ge_one = λ a. leb 1 a;
}

abbrev host : Host
host = record { new_id = λ k. 100 + k; col_path = λ _ _ _. "f" }

-- A line is an event.
abbrev json : JsonLines
json = record {
  Line = ManifestEvent;
  to_string = λ e. e;
  from_str = λ l. some l;
  is_blank = λ _. false;
  line_len = λ _. 1;
  from_str-to_string = λ e. refl;
  to_string-not_blank = λ e. refl;
}

abbrev config : CompactionConfig
config = record default_config { l0_file_compaction_trigger = 1; target_file_size_bytes = 64 }

abbrev file : ℕ → ℕ → ℕ → List ℕ → List ℕ → SstRef
file id level size least greatest = record {
  id = id;
  sequence_num = id;
  generation = 0;
  compacted_from = [];
  level = level;
  path = "f";
  size_bytes = size;
  row_count = 1;
  min_sort_key = least;
  max_sort_key = greatest;
}

abbrev large : SstRef
large = file 1 0 100 (1 ∷ []) (4 ∷ [])

abbrev small : SstRef
small = file 2 1 10 (3 ∷ []) (5 ∷ [])

abbrev compactor : List (List SstRef) → PartitionCompactor ManifestEvent
compactor levels = record {
  levels = record { levels = levels; config = config };
  manifest = open_manifest json none;
  config = config;
  ttl = none;
}

-- A file of L0, and one of L1 that overlaps it.
abbrev overlapping_levels : List (List SstRef)
overlapping_levels = (large ∷ []) ∷ (small ∷ []) ∷ []

abbrev l0_job : CompactionJob
l0_job = record { id = 9; input_level = 0; output_level = 1; inputs = large ∷ [] }

-- 100 bytes at a target of 64 are two files.
abbrev split : ℕ → SstRef
split id = record large {
  id = id;
  generation = 1;
  compacted_from = 1 ∷ [];
  level = 1;
  size_bytes = 50;
  row_count = 0;
}

merged : merge_sort_inputs host config none 0 l0_job ≡ some (split 100 ∷ split 101 ∷ [])
unfolding merge_sort_inputs outputs_from split_count least_key greatest_key max_sequence
    max_generation sum_rows sum_sizes retain
merged = refl

picked : pick_l0_compaction 9 (compactor overlapping_levels).levels config ≡ some l0_job
unfolding pick_l0_compaction
picked = refl

abbrev outcome : Option (PartitionCompactor ManifestEvent × Option CompactionResult)
outcome = run_compaction json host true true 0 l0_job (compactor overlapping_levels)

abbrev after : PartitionCompactor ManifestEvent
after = (elim outcome [ none ↦ compactor [] | some r ↦ r.0 ])

abbrev result : CompactionResult
result = record { compaction_id = 9; removed_ids = 1 ∷ []; output_ids = 100 ∷ 101 ∷ [] }

ran :
    run_compaction json host true true 0 l0_job (compactor overlapping_levels)
    ≡ some (after, some result)
unfolding run_compaction add_all remove_ids merge_sort_inputs outputs_from split_count least_key
    greatest_key max_sequence max_generation sum_rows sum_sizes retain begin_compaction
    complete_compaction append_event append_line should_rewrite file_len Levels.add Levels.remove
    Levels.push_level sort_by sort_onto insert_by bytes_leb update_memory remove_all lesser greater
ran = refl

large-IsRange : All IsRange (retain (is_live none 0) l0_job.inputs)
unfolding retain is_live bytes_leb
large-IsRange = (refl, tt)

large-live : is_live none 0 large ≡ true
unfolding is_live
large-live = refl

new_ids : (split 100).id ≢ (split 101).id
new_ids e = absurd (omega (arith, e))

ids_differ : small.id ≢ large.id
ids_differ e = absurd (omega (arith, e))

fresh : (k : ℕ) → host.new_id k ≢ small.id
fresh k e = absurd (omega (arith, e))

small-InLevel : InLevel small 1 (compactor overlapping_levels).levels
small-InLevel = (small ∷ [], refl, here)

large-InLevel : InLevel large 0 (compactor overlapping_levels).levels
large-InLevel = (large ∷ [], refl, here)

overlap : overlaps_with large small ≡ true
unfolding overlaps_with bytes_leb
overlap = refl

run_compaction-split_example : ¬ IsDisjoint after.levels
run_compaction-split_example =
    run_compaction-split json host true true 0 l0_job (compactor overlapping_levels) after result 0
      (split 100) (split 101) [] ran refl large-IsRange merged new_ids

not_in_l0 : (s : SstRef) → InLevel s 0 (compactor overlapping_levels).levels → small.id ≢ s.id
not_in_l0 s (l0, e, m) same = absurd (alone s (subst (Elem s) (sym inside) m) same)
  where
    inside : large ∷ [] ≡ l0
    inside = cc (e)

    alone : (x : SstRef) → Elem x (large ∷ []) → small.id ≡ x.id → ⊥
    alone _ here h = ids_differ h
    alone x (there m) h = elim m [ ]

run_compaction-l0_example :
    InLevel small 1 after.levels × Overlapped small 1 after.levels × ¬ IsDisjoint after.levels
run_compaction-l0_example =
    run_compaction-l0 json host true true 0 9 l0_job (compactor overlapping_levels) after result
      small large picked ran small-InLevel large-InLevel large-live overlap not_in_l0 fresh

-- The last level alone, with one file.
abbrev last_job : CompactionJob
last_job = record { id = 9; input_level = 1; output_level = 2; inputs = small ∷ [] }

picked_last : pick_ln_compaction 9 (compactor overlapping_levels).levels 1 ≡ some last_job
unfolding pick_ln_compaction overlapping
picked_last = refl

small-live : is_live none 0 small ≡ true
unfolding is_live
small-live = refl

run_compaction-last_level_example :
    run_compaction json host true true 0 last_job (compactor overlapping_levels) ≡ none
run_compaction-last_level_example =
    run_compaction-last_level json host 0 9 1 last_job (compactor overlapping_levels) small []
      picked_last refl refl small-live

large_live_input : Elem large (retain (is_live none 0) l0_job.inputs)
unfolding retain is_live
large_live_input = here

key_in_large : key_in_range large (2 ∷ []) ≡ true
unfolding key_in_range bytes_leb
key_in_large = refl

merge_sort_inputs-covers_example :
    (key_in_range (split 101) (2 ∷ []) ≡ true)
    × (large.sequence_num ≤ (split 101).sequence_num)
    × ((split 101).level ≡ l0_job.output_level)
merge_sort_inputs-covers_example =
    merge_sort_inputs-covers host config none 0 l0_job (split 100 ∷ split 101 ∷ []) (split 101)
      large (2 ∷ []) merged (there here) large_live_input key_in_large

-- Two levels above L0 with files that overlap.
abbrev deep_levels : PartitionLevels
deep_levels = record {
  levels = [] ∷ (small ∷ []) ∷ (file 3 2 10 (5 ∷ []) (6 ∷ []) ∷ []) ∷ [];
  config = config;
}

abbrev deep_job : CompactionJob
deep_job = record {
  id = 9;
  input_level = 1;
  output_level = 2;
  inputs = small ∷ file 3 2 10 (5 ∷ []) (6 ∷ []) ∷ [];
}

picked_deep : pick_ln_compaction 9 deep_levels 1 ≡ some deep_job
unfolding pick_ln_compaction overlapping overlaps_with bytes_leb retain
picked_deep = refl

pick_ln_compaction-covers_example :
    (input : SstRef) × (rest ssts : List SstRef) × (deep_job.inputs ≡ input ∷ rest)
    × (get_elem? deep_levels.levels 1 ≡ some ssts)
    × Elem input ssts
    × All (λ t. input.sequence_num ≤ t.sequence_num) ssts
    × (deep_job.output_level ≡ 1 + 1)
    × ((t : SstRef)
        → Elem t rest ↔ (InLevel t (1 + 1) deep_levels × (overlaps_with input t ≡ true)))
pick_ln_compaction-covers_example = pick_ln_compaction-covers 9 deep_levels 1 deep_job picked_deep

due : highest_priority_level whole_numbers (compactor overlapping_levels).levels ≡ some 0
unfolding highest_priority_level compaction_score l0_count level_size_bytes target_level_size_bytes
due = refl
