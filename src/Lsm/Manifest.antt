-- ===== src/Lsm/Manifest.antt =====
-- storage-node/src/lsm/manifest.rs: the log of SSTable events, its replay and its rewrite.
-- The disk holds the lines of the file MANIFEST, or no file. serde_json and the text functions of the
-- standard library are the parameter `JsonLines`. Every append takes `io`: whether the file could be
-- opened and written; a failed append leaves the file as it was (a torn line is not modelled).
pub mod Recovery
pub mod Losses
use wow_db.Prelude.{
  ℕ, ◌+◌, ◌*◌, ◌≡◌, Bool, true, false, not, Option, none, some, List, [], ◌∷◌, ◌++◌, map, retain,
  ltb, nat_beq, if◌then◌else◌,
}
use wow_db.Lsm.Sst.{SstRef}

pub data ManifestEvent : Type 0 where
  add : SstRef → ManifestEvent
  remove : ℕ → ℕ → ManifestEvent
  compaction_begin : ℕ → List ℕ → ℕ → ManifestEvent
  compaction_end : ℕ → List ℕ → ManifestEvent

-- JSON lines: what is written is read back, is not blank, and a line has a length in bytes.
pub record JsonLines : Type 1 where
  pub Line : Type 0
  pub to_string : ManifestEvent → Line
  pub from_str : Line → Option ManifestEvent
  pub is_blank : Line → Bool
  pub line_len : Line → ℕ
  pub from_str-to_string : (e : ManifestEvent) → from_str (to_string e) ≡ some e
  pub to_string-not_blank : (e : ManifestEvent) → is_blank (to_string e) ≡ false

pub record PendingCompaction : Type 0 where
  pub id : ℕ
  pub input_ids : List ℕ

pub record Manifest (Line : Type 0) : Type 0 where
  pub file : Option (List Line)
  pub active : List SstRef
  pub pending_compactions : List PendingCompaction

-- What the struct holds in memory.
pub record Projection : Type 0 where
  pub active : List SstRef
  pub pending_compactions : List PendingCompaction

abbrev pub from_projection : {Line : Type 0} → Projection → Option (List Line) → Manifest Line
from_projection r file = record {
  file = file;
  active = r.active;
  pending_compactions = r.pending_compactions;
}

abbrev pub without_sst : ℕ → List SstRef → List SstRef
without_sst id = retain (λ s. not (nat_beq s.id id))

abbrev pub without_pending : ℕ → List PendingCompaction → List PendingCompaction
without_pending id = retain (λ p. not (nat_beq p.id id))

unfoldable pub apply_event : Projection → ManifestEvent → Projection
apply_event m (add sst) = record m { active = m.active ++ sst ∷ [] }
apply_event m (remove id level) = record m { active = without_sst id m.active }
apply_event m (compaction_begin id input_ids level) = record m {
  pending_compactions = m.pending_compactions ++ record { id = id; input_ids = input_ids } ∷ [];
}
apply_event m (compaction_end id output_ids) = record m {
  pending_compactions = without_pending id m.pending_compactions;
}

unfoldable pub remove_all : List ℕ → List SstRef → List SstRef
remove_all [] active = active
remove_all (id ∷ ids) active = remove_all ids (without_sst id active)

module _ (json : JsonLines) where
  open json use {Line, to_string, from_str, is_blank, line_len}

  -- The loop of `recover`: a line that does not parse ends it.
  unfoldable pub replay : Projection → List Line → Projection
  unfolding apply_event
  replay m [] = m
  replay m (line ∷ lines) =
      let skip = replay m lines in
      let next = λ (e : ManifestEvent). replay (apply_event m e) lines in
      if is_blank line then skip else elim (from_str line) [ none ↦ m | some e ↦ next e ]

  abbrev pub empty : Projection
  empty = record { active = []; pending_compactions = [] }

  -- `recover` reports what is pending in the log, and changes nothing more.
  unfoldable pub recover : Option (List Line) → Projection
  unfolding replay
  recover none = empty
  recover (some lines) = replay empty lines

  unfoldable pub open_manifest : Option (List Line) → Manifest Line
  unfolding recover
  open_manifest file = from_projection (recover file) file

  -- The file is created where there is none.
  unfoldable pub append_line : Line → Option (List Line) → Option (List Line)
  append_line line none = some (line ∷ [])
  append_line line (some lines) = some (lines ++ line ∷ [])

  unfoldable pub append_event : ManifestEvent → Manifest Line → Manifest Line
  unfolding append_line
  append_event e m = record m { file = append_line (to_string e) m.file }

  -- Each operation returns the manifest and whether it returned `Ok`.
  unfoldable pub add_sst : Bool → SstRef → Manifest Line → Manifest Line × Bool
  unfolding append_event
  add_sst io sst m =
      if io
      then (record (append_event (add sst) m) { active = m.active ++ sst ∷ [] }, true)
      else (m, false)

  unfoldable pub remove_sst : Bool → ℕ → ℕ → Manifest Line → Manifest Line × Bool
  unfolding append_event
  remove_sst io id level m =
      if io
      then (record (append_event (remove id level) m) { active = without_sst id m.active }, true)
      else (m, false)

  unfoldable pub begin_compaction : Bool → ℕ → List ℕ → ℕ → Manifest Line → Manifest Line × Bool
  unfolding append_event
  begin_compaction io id input_ids output_level m =
      if io
      then (
        record (append_event (compaction_begin id input_ids output_level) m) {
          pending_compactions =
              m.pending_compactions ++ record { id = id; input_ids = input_ids } ∷ [];
        },
        true,
      )
      else (m, false)

  unfoldable pub file_len : Option (List Line) → ℕ
  file_len none = 0
  file_len (some []) = 0
  file_len (some (line ∷ lines)) = line_len line + file_len (some lines)

  unfoldable pub should_rewrite : Manifest Line → Bool
  unfolding file_len
  should_rewrite m = ltb (16 * 1024 * 1024) (file_len m.file)

  -- MANIFEST.tmp is written whole and renamed.
  unfoldable pub atomic_rewrite : Manifest Line → Manifest Line
  atomic_rewrite m = record m { file = some (map (λ sst. to_string (add sst)) m.active) }

  -- The memory is changed first; the log gets the ids alone.
  unfoldable pub update_memory : ℕ → List ℕ → List SstRef → Manifest Line → Manifest Line
  unfolding remove_all
  update_memory id removed_ids added_ssts m = record m {
    active = remove_all removed_ids m.active ++ added_ssts;
    pending_compactions = without_pending id m.pending_compactions;
  }

  -- `io` is the outcome of the append. A rewrite that fails is left out: it would leave the appended log, and return an
  -- error.
  unfoldable pub complete_compaction :
      Bool → ℕ → List ℕ → List ℕ → List SstRef → Manifest Line → Manifest Line × Bool
  unfolding update_memory append_event should_rewrite atomic_rewrite
  complete_compaction io id output_ids removed_ids added_ssts m =
      let updated = update_memory id removed_ids added_ssts m in
      let logged = append_event (compaction_end id output_ids) updated in
      if io
      then (if should_rewrite logged then atomic_rewrite logged else logged, true)
      else (updated, false)

  unfoldable pub has_pending_compactions : Manifest Line → Bool
  has_pending_compactions m = elim m.pending_compactions [ [] ↦ false | _ ∷ _ ↦ true ]

  unfoldable pub pending_compaction_ids : Manifest Line → List ℕ
  pending_compaction_ids m = map (λ p. p.id) m.pending_compactions
