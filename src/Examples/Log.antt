-- ===== src/Examples/Log.antt =====
-- storage-node/src/lsm/manifest.rs at concrete inputs: a line is an event, or garbage.
use wow_db.Prelude.{ℕ, retain, ◌≡◌, refl, ◌*◌, true, false, Option, some, List, [], ◌∷◌, inr}
use wow_db.Lsm.Sst.{SstRef}
use wow_db.Lsm.Manifest
use wow_db.Lsm.Manifest.{
  ManifestEvent, JsonLines, add, compaction_end, open_manifest, recover, append_event,
  update_memory, add_sst, should_rewrite, append_line, file_len, complete_compaction,
  without_pending, replay, apply_event,
}
use wow_db.Lsm.Manifest.Recovery.{
  adds, removes, begins, run, lines_of, IsDurable, IsClean, open_manifest-run,
  complete_compaction_rewrite-IsDurable,
}
use wow_db.Lsm.Manifest.Losses.{open_manifest-complete_compaction}

-- Every line has the given number of bytes.
abbrev pub lines_of_len : ℕ → JsonLines
lines_of_len n = record {
  Line = Option ManifestEvent;
  to_string = λ e. some e;
  from_str = λ l. l;
  is_blank = λ _. false;
  line_len = λ _. n;
  from_str-to_string = λ e. refl;
  to_string-not_blank = λ e. refl;
}

abbrev short_lines : JsonLines
short_lines = lines_of_len 100

abbrev long_lines : JsonLines
long_lines = lines_of_len (16 * 1024 * 1024)

abbrev file_at : ℕ → ℕ → SstRef
file_at id level = record {
  id = id;
  sequence_num = id;
  generation = 0;
  compacted_from = [];
  level = level;
  path = "f";
  size_bytes = 10;
  row_count = 1;
  min_sort_key = 1 ∷ [];
  max_sort_key = 2 ∷ [];
}

abbrev one_file_log : Option (List (Option ManifestEvent))
one_file_log = some (some (add (file_at 1 0)) ∷ [])

open_manifest-run_example :
    let m =
      run short_lines
        (adds true (file_at 2 0) ∷ removes false 1 0 ∷ begins true 9 (2 ∷ []) 1 ∷ [])
        (open_manifest short_lines one_file_log) in
    open_manifest short_lines m.file ≡ m
open_manifest-run_example =
    open_manifest-run short_lines one_file_log
      (adds true (file_at 2 0) ∷ removes false 1 0 ∷ begins true 9 (2 ∷ []) 1 ∷ [])
      (inr (add (file_at 1 0), refl), tt)

one_file_log-IsClean : (n : ℕ) → IsClean (lines_of_len n) (lines_of (lines_of_len n) one_file_log)
one_file_log-IsClean n = (inr (add (file_at 1 0), refl), tt)

one_file_log-IsDurable :
    (n : ℕ) → IsDurable (lines_of_len n) (open_manifest (lines_of_len n) one_file_log)
unfolding open_manifest
one_file_log-IsDurable n = record { clean = one_file_log-IsClean n; recovered = refl }

abbrev opened : ℕ → Manifest.Manifest (Option ManifestEvent)
opened n = open_manifest (lines_of_len n) one_file_log

abbrev logged : ℕ → Manifest.Manifest (Option ManifestEvent)
logged n =
    append_event (lines_of_len n) (compaction_end 9 (2 ∷ []))
      (update_memory (lines_of_len n) 9 (1 ∷ []) (file_at 2 1 ∷ []) (opened n))

logged_short : should_rewrite short_lines (logged 100) ≡ false
unfolding should_rewrite append_event update_memory open_manifest append_line file_len
logged_short = refl

logged_long : should_rewrite long_lines (logged (16 * 1024 * 1024)) ≡ true
unfolding should_rewrite append_event update_memory open_manifest append_line file_len
logged_long = refl

none_pending : without_pending 9 (opened (16 * 1024 * 1024)).pending_compactions ≡ []
unfolding open_manifest recover replay apply_event retain
none_pending = refl

open_manifest-complete_compaction_example :
    (open_manifest short_lines
      (complete_compaction short_lines true 9
        (2 ∷ [])
        (1 ∷ [])
        (file_at 2 1 ∷ [])
        (opened 100)).0.file).active
    ≡ (opened 100).active
open_manifest-complete_compaction_example =
    open_manifest-complete_compaction short_lines 9 (2 ∷ []) (1 ∷ []) (file_at 2 1 ∷ [])
      (opened 100) (one_file_log-IsDurable 100) logged_short

complete_compaction_rewrite-IsDurable_example :
    IsDurable long_lines
      (complete_compaction long_lines true 9
        (2 ∷ [])
        (1 ∷ [])
        (file_at 2 1 ∷ [])
        (opened (16 * 1024 * 1024))).0
complete_compaction_rewrite-IsDurable_example =
    complete_compaction_rewrite-IsDurable long_lines 9 (2 ∷ []) (1 ∷ []) (file_at 2 1 ∷ [])
      (opened (16 * 1024 * 1024)) none_pending logged_long
