-- ===== src/Examples/Levels.antt =====
-- storage-node/src/lsm/levels.rs at concrete inputs.
use wow_db.Prelude.{ℕ, ◌≡◌, refl, ◌↔◌, some, List, [], ◌∷◌, ok}
use wow_db.Prelude.Bytes.{bytes_leb}
use wow_db.Prelude.Sorting.{sort_by, sort_onto, insert_by}
use wow_db.Lsm.Sst.{SstRef}
use wow_db.Lsm.Levels.{PartitionLevels, default_config, push_level, add, verify_non_overlapping}
use wow_db.Lsm.Levels.Overlap.{IsDisjoint, verify_non_overlapping_iff}

abbrev pub file : ℕ → ℕ → List ℕ → List ℕ → SstRef
file id level least greatest = record {
  id = id;
  sequence_num = id;
  generation = 0;
  compacted_from = [];
  level = level;
  path = "f";
  size_bytes = 10;
  row_count = 1;
  min_sort_key = least;
  max_sort_key = greatest;
}

abbrev low : SstRef
low = file 1 1 (1 ∷ []) (2 ∷ [])

abbrev high : SstRef
high = file 2 1 (4 ∷ []) (5 ∷ 0 ∷ [])

abbrev middle : SstRef
middle = file 3 1 (3 ∷ []) (3 ∷ [])

abbrev two_files : PartitionLevels
two_files = record { levels = [] ∷ (low ∷ high ∷ []) ∷ [] ∷ []; config = default_config }

abbrev three_files : PartitionLevels
three_files = record { levels = [] ∷ (low ∷ middle ∷ high ∷ []) ∷ [] ∷ []; config = default_config }

added : add middle two_files ≡ some three_files
unfolding add push_level sort_by sort_onto insert_by bytes_leb
added = refl

verify_non_overlapping_iff_example :
    (verify_non_overlapping two_files ≡ ok tt) ↔ IsDisjoint two_files
verify_non_overlapping_iff_example = verify_non_overlapping_iff two_files
