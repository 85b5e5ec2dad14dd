-- ===== src/Lsm/Manifest/Losses.antt =====
-- storage-node/src/lsm/manifest.rs: a completed compaction, and an unreadable line, across a restart.
use wow_db.Prelude.{
  ℕ, ◌≡◌, refl, ap, ◌∙◌, sym, true, false, none, some, List, [], ◌∷◌, ◌++◌, append_assoc,
  Bool-cases, Option-cases, inl, inr,
}
use wow_db.Lsm.Sst.{SstRef}
use wow_db.Lsm.Manifest
use wow_db.Lsm.Manifest.{
  ManifestEvent, JsonLines, Projection, apply_event, add, compaction_end, replay, recover, empty,
  append_line, append_event, add_sst, should_rewrite, complete_compaction, update_memory,
  open_manifest,
}
use wow_db.Lsm.Manifest.Recovery.{IsDurable, recover-append}

module _ (json : JsonLines) where
  open json use {Line, to_string, from_str, is_blank}

  -- A compaction that completes and does not rewrite the log is undone by a restart: the log has the
  -- ids of the outputs and not the outputs, so `open` brings back exactly the files from before, the
  -- inputs included and the outputs missing.
  pub open_manifest-complete_compaction :
      (id : ℕ) (output_ids removed_ids : List ℕ) (added : List SstRef) (m : Manifest.Manifest Line)
      → IsDurable json m
      → should_rewrite json (
          append_event json
            (compaction_end id output_ids)
            (update_memory json id removed_ids added m))
        ≡ false
      → (open_manifest json
          (complete_compaction json true id output_ids removed_ids added m).0.file).active
        ≡ m.active
  unfolding complete_compaction open_manifest
  open_manifest-complete_compaction id output_ids removed_ids added m d small = rw small (
      ap (λ (r : Projection). r.active)
        ((recover-append json m.file (compaction_end id output_ids) d.clean).1
          ∙ ap (λ r. apply_event r (compaction_end id output_ids)) d.recovered)
      ∙ (unfold apply_event in refl))

  replay-torn :
      (m : Projection) (xs : List Line) (bad : Line) (ys : List Line)
      → is_blank bad ≡ false
      → from_str bad ≡ none
      → replay json m (xs ++ bad ∷ ys) ≡ replay json m xs
  unfolding replay
  replay-torn m [] bad ys b n = rw (b, n) refl
  replay-torn m (x ∷ xs) bad ys b n = elim (Bool-cases (is_blank x)) [
    | inl e ↦ rw e (replay-torn m xs bad ys b n)
    | inr e ↦ elim (Option-cases (from_str x)) [
      | inl p ↦ rw (e, p) refl
      | inr (e', p) ↦ rw (e, p) (replay-torn (apply_event m e') xs bad ys b n)
    ]
  ]

  -- After a line that does not parse, what `add_sst` appends is never read: `recover` stops at that
  -- line and leaves it in the file, so the next `open` gives the state from before the addition.
  pub recover-add_sst_torn :
      (xs : List Line) (bad : Line) (ys : List Line) (sst : SstRef)
      → is_blank bad ≡ false
      → from_str bad ≡ none
      → let m = open_manifest json (some (xs ++ bad ∷ ys)) in
        recover json (add_sst json true sst m).0.file ≡ recover json m.file
  unfolding add_sst open_manifest recover
  recover-add_sst_torn xs bad ys sst b n =
      ap (replay json (empty json)) (append_assoc xs (bad ∷ ys) (to_string (add sst) ∷ []))
      ∙ replay-torn (empty json) xs bad (ys ++ to_string (add sst) ∷ []) b n
      ∙ sym (replay-torn (empty json) xs bad ys b n)
