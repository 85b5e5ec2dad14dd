-- ===== src/Lsm/Manifest/Recovery.antt =====
-- storage-node/src/lsm/manifest.rs: reading the log back with `open`.
use wow_db.Prelude.{
  ℕ, ◌≡◌, refl, ap, ◌∙◌, sym, Bool, true, false, Option, none, some, List, [], ◌∷◌, ◌++◌, map,
  append_assoc, append-nil, Bool-cases, ◌⊎◌, inl, inr,
}
use wow_db.Lsm.Sst.{SstRef}
use wow_db.Lsm.Manifest
use wow_db.Lsm.Manifest.{
  ManifestEvent, JsonLines, PendingCompaction, Projection, apply_event, add, remove,
  compaction_begin, compaction_end, without_pending, replay, recover, empty, append_line,
  append_event, add_sst, remove_sst, begin_compaction, should_rewrite, atomic_rewrite,
  complete_compaction, update_memory, open_manifest,
}

module _ (json : JsonLines) where
  open json use {Line, to_string, from_str, is_blank, from_str-to_string, to_string-not_blank}

  abbrev pub memory : Manifest.Manifest Line → Projection
  memory m = record { active = m.active; pending_compactions = m.pending_compactions }

  -- Every line is blank or an event.
  abbrev pub IsClean : List Line → Type 0
  IsClean [] = Unit
  IsClean (l ∷ ls) =
      ((is_blank l ≡ true) ⊎ ((e : ManifestEvent) × (from_str l ≡ some e))) × IsClean ls

  abbrev pub lines_of : Option (List Line) → List Line
  lines_of none = []
  lines_of (some lines) = lines

  -- The log is clean, and replays to what the memory holds.
  pub record IsDurable (m : Manifest.Manifest Line) : Type 0 where
    pub clean : IsClean (lines_of m.file)
    pub recovered : recover json m.file ≡ memory m

  IsClean-append :
      (xs : List Line) (e : ManifestEvent) → IsClean xs → IsClean (xs ++ to_string e ∷ [])
  IsClean-append [] e c = (inr (e, from_str-to_string e), tt)
  IsClean-append (x ∷ xs) e c = (c.0, IsClean-append xs e c.1)

  replay-append :
      (m : Projection) (xs : List Line) (e : ManifestEvent)
      → IsClean xs
      → replay json m (xs ++ to_string e ∷ []) ≡ apply_event (replay json m xs) e
  unfolding replay
  replay-append m [] e c = rw (to_string-not_blank e, from_str-to_string e) refl
  replay-append m (x ∷ xs) e c = elim (Bool-cases (is_blank x)) [
    | inl b ↦ rw b (replay-append m xs e c.1)
    | inr b ↦ elim c.0 [
      | inl b' ↦ cc
      | inr (e', p) ↦ rw (b, p) (replay-append (apply_event m e') xs e c.1)
    ]
  ]

  -- An appended event is applied to what was recovered before.
  pub recover-append :
      (file : Option (List Line)) (e : ManifestEvent)
      → IsClean (lines_of file)
      → (IsClean (lines_of (append_line json (to_string e) file)))
        × (recover json (append_line json (to_string e) file) ≡ apply_event (recover json file) e)
  unfolding recover append_line
  recover-append none e c = (IsClean-append [] e tt, replay-append (empty json) [] e tt)
  recover-append (some lines) e c = (IsClean-append lines e c, replay-append (empty json) lines e c)

  -- The empty manifest of a new directory is durable.
  open_manifest-IsDurable :
      (file : Option (List Line)) → IsClean (lines_of file) → IsDurable (open_manifest json file)
  unfolding open_manifest
  open_manifest-IsDurable file c = record { clean = c; recovered = refl }

  step :
      (m : Manifest.Manifest Line) (e : ManifestEvent) (q : Projection)
      → IsDurable m
      → apply_event (memory m) e ≡ q
      → IsDurable (record {
        file = append_line json (to_string e) m.file;
        active = q.active;
        pending_compactions = q.pending_compactions;
      })
  step m e q d h = record {
    clean = (recover-append m.file e d.clean).0;
    recovered = (recover-append m.file e d.clean).1 ∙ ap (λ r. apply_event r e) d.recovered ∙ h;
  }

  add_sst-IsDurable :
      (io : Bool) (sst : SstRef) (m : Manifest.Manifest Line)
      → IsDurable m
      → IsDurable (add_sst json io sst m).0
  unfolding add_sst apply_event
  add_sst-IsDurable true sst m d = step m (add sst) _ d refl
  add_sst-IsDurable false sst m d = d

  remove_sst-IsDurable :
      (io : Bool) (id level : ℕ) (m : Manifest.Manifest Line)
      → IsDurable m
      → IsDurable (remove_sst json io id level m).0
  unfolding remove_sst apply_event
  remove_sst-IsDurable true id level m d = step m (remove id level) _ d refl
  remove_sst-IsDurable false id level m d = d

  begin_compaction-IsDurable :
      (io : Bool) (id : ℕ) (input_ids : List ℕ) (output_level : ℕ) (m : Manifest.Manifest Line)
      → IsDurable m
      → IsDurable (begin_compaction json io id input_ids output_level m).0
  unfolding begin_compaction apply_event
  begin_compaction-IsDurable true id input_ids output_level m d =
      step m (compaction_begin id input_ids output_level) _ d refl
  begin_compaction-IsDurable false id input_ids output_level m d = d

  replay-adds :
      (ssts : List SstRef) (m : Projection)
      → (IsClean (map (λ sst. to_string (add sst)) ssts))
        × (replay json m (map (λ sst. to_string (add sst)) ssts)
            ≡ record m { active = m.active ++ ssts })
  unfolding replay apply_event
  replay-adds [] m = (tt, rw append-nil refl)
  replay-adds (s ∷ ssts) m =
      let ih = replay-adds ssts (record m { active = m.active ++ s ∷ [] }) in
      (
        (inr (add s, from_str-to_string (add s)), ih.0),
        rw (to_string-not_blank (add s), from_str-to_string (add s))
            (ih.1 ∙ ap (λ a. record m { active = a }) (append_assoc m.active (s ∷ []) ssts)),
      )

  -- A rewritten log recovers the active files, and no pending compaction.
  recover-atomic_rewrite :
      (m : Manifest.Manifest Line)
      → (IsClean (lines_of (atomic_rewrite json m).file))
        × (recover json (atomic_rewrite json m).file
            ≡ record { active = m.active; pending_compactions = [] })
  unfolding atomic_rewrite recover
  recover-atomic_rewrite m = replay-adds m.active (empty json)

  -- The calls of the interface that only append.
  pub data Call : Type 0 where
    adds : Bool → SstRef → Call
    removes : Bool → ℕ → ℕ → Call
    begins : Bool → ℕ → List ℕ → ℕ → Call

  unfoldable pub call : Call → Manifest.Manifest Line → Manifest.Manifest Line
  call (adds io sst) m = (add_sst json io sst m).0
  call (removes io id level) m = (remove_sst json io id level m).0
  call (begins io id input_ids output_level) m =
      (begin_compaction json io id input_ids output_level m).0

  unfoldable pub run : List Call → Manifest.Manifest Line → Manifest.Manifest Line
  unfolding call
  run [] m = m
  run (c ∷ cs) m = run cs (call c m)

  call-IsDurable : (c : Call) (m : Manifest.Manifest Line) → IsDurable m → IsDurable (call c m)
  unfolding call
  call-IsDurable (adds io sst) m d = add_sst-IsDurable io sst m d
  call-IsDurable (removes io id level) m d = remove_sst-IsDurable io id level m d
  call-IsDurable (begins io id input_ids output_level) m d =
      begin_compaction-IsDurable io id input_ids output_level m d

  run-IsDurable : (cs : List Call) (m : Manifest.Manifest Line) → IsDurable m → IsDurable (run cs m)
  unfolding run
  run-IsDurable [] m d = d
  run-IsDurable (c ∷ cs) m d = run-IsDurable cs (call c m) (call-IsDurable c m d)

  -- Opened on a log with no unreadable line, then driven by any additions, removals and compaction
  -- starts, failing appends included: opening the log again gives the same files and the same
  -- pending compactions as the memory holds.
  pub open_manifest-run :
      (file : Option (List Line)) (cs : List Call)
      → IsClean (lines_of file)
      → let m = run cs (open_manifest json file) in open_manifest json m.file ≡ m
  unfolding open_manifest
  open_manifest-run file cs c =
      ap (λ (r : Projection). Manifest.from_projection r (run cs (open_manifest json file)).file)
        (run-IsDurable cs (open_manifest json file) (open_manifest-IsDurable file c)).recovered

  -- `complete_compaction` that rewrites the log is durable, where no other compaction is pending.
  pub complete_compaction_rewrite-IsDurable :
      (id : ℕ) (output_ids removed_ids : List ℕ) (added : List SstRef) (m : Manifest.Manifest Line)
      → without_pending id m.pending_compactions ≡ []
      → should_rewrite json (
          append_event json
            (compaction_end id output_ids)
            (update_memory json id removed_ids added m))
        ≡ true
      → IsDurable (complete_compaction json true id output_ids removed_ids added m).0
  unfolding complete_compaction
  complete_compaction_rewrite-IsDurable id output_ids removed_ids added m none_left big =
      rw big (record {
        clean = (recover-atomic_rewrite logged).0;
        recovered =
            (recover-atomic_rewrite logged).1
            ∙ ap (λ ps. record { active = logged.active; pending_compactions = ps })
                (sym none_left);
      })
    where
      logged : Manifest.Manifest Line
      logged =
          append_event json (compaction_end id output_ids)
            (update_memory json id removed_ids added m)
