-- ===== src/Lsm/Compaction/Committing.antt =====
-- storage-node/src/lsm/compaction.rs, `run_compaction`: what a finished run did to the levels.
use wow_db.Prelude.{
  ℕ, ◌≡◌, ◌≢◌, sym, subst, inl, inr, Bool, some, List, [], ◌∷◌, map, arith, All, Elem, Option-cases,
  Bool-cases, Elem-cons,
}
use wow_db.Lsm.Sst.{SstRef}
use wow_db.Lsm.Levels
use wow_db.Lsm.Levels.{PartitionLevels}
use wow_db.Lsm.Levels.Members.{InLevel, add-InLevel, add-InLevel_self, remove-InLevel}
use wow_db.Lsm.Manifest.{JsonLines, complete_compaction, begin_compaction}
use wow_db.Lsm.Compaction.{
  Host, CompactionJob, CompactionResult, PartitionCompactor, merge_sort_inputs, add_all, remove_ids,
  commit, run_compaction,
}

add_all-cons :
    (s : SstRef) (ssts : List SstRef) (p q : PartitionLevels)
    → add_all (s ∷ ssts) p ≡ some q
    → (r : PartitionLevels) × (Levels.add s p ≡ some r) × (add_all ssts r ≡ some q)
unfolding add_all
add_all-cons s ssts p q h = elim (Option-cases (Levels.add s p)) [
  | inl e ↦ absurd (ground (arith, e))
  | inr (r, e) ↦ (r, e, ground (arith, e))
]

pub add_all-InLevel :
    (ssts : List SstRef) (t : SstRef) (lvl : ℕ) (p q : PartitionLevels)
    → add_all ssts p ≡ some q
    → InLevel t lvl p
    → InLevel t lvl q
unfolding add_all
add_all-InLevel [] t lvl p q h m = let same : p ≡ q = cc in subst (InLevel t lvl) same m
add_all-InLevel (s ∷ ssts) t lvl p q h m =
    let (r, e, k) = add_all-cons s ssts p q h in
    add_all-InLevel ssts t lvl r q k (add-InLevel s t lvl p r e m)

-- Every added file stands in its level afterwards.
pub add_all-InLevel_self :
    (ssts : List SstRef) (t : SstRef) (p q : PartitionLevels)
    → add_all ssts p ≡ some q
    → Elem t ssts
    → InLevel t t.level q
add_all-InLevel_self [] t p q h m = elim m [ ]
add_all-InLevel_self (s ∷ ssts) t p q h m =
    let (r, e, k) = add_all-cons s ssts p q h in
    elim (Elem-cons m) [
      | inl same ↦
          subst (λ (x : SstRef). InLevel x x.level q) (sym same)
            (add_all-InLevel ssts s s.level r q k (add-InLevel_self s p r e))
      | inr m' ↦ add_all-InLevel_self ssts t r q k m'
    ]

pub remove_ids-InLevel :
    (ids : List ℕ) (t : SstRef) (lvl : ℕ) (p : PartitionLevels)
    → All (λ id. t.id ≢ id) ids
    → InLevel t lvl p
    → InLevel t lvl (remove_ids ids p)
unfolding remove_ids
remove_ids-InLevel [] t lvl p a m = m
remove_ids-InLevel (id ∷ ids) t lvl p a m =
    remove_ids-InLevel ids t lvl (Levels.remove id p) a.1 (remove-InLevel id t lvl p a.0 m)

abbrev pub ids_of : List SstRef → List ℕ
ids_of = map (λ s. s.id)

module _ (json : JsonLines) where
  open json use {Line}

  commit-eq_ok :
      (io : Bool) (job : CompactionJob) (outs : List SstRef) (c c' : PartitionCompactor Line)
      (r : CompactionResult)
      → commit json io job outs c ≡ some (c', some r)
      → add_all outs (remove_ids (ids_of job.inputs) c.levels) ≡ some c'.levels
  unfolding commit
  commit-eq_ok io job outs c c' r h =
      let done =
        complete_compaction json io job.id (ids_of outs) (ids_of job.inputs) outs c.manifest in
      elim (Bool-cases done.1) [
        | inl w ↦ elim (Option-cases (add_all outs (remove_ids (ids_of job.inputs) c.levels))) [
          | inl e ↦ absurd (ground (arith, w, e))
          | inr (p, e) ↦ ground (arith, w, e)
        ]
        | inr w ↦ absurd (ground (arith, w))
      ]

  -- A run that returns `Ok` has merged the inputs, removed them from the levels and added the outputs.
  pub run_compaction-eq_ok :
      (host : Host) (begin end : Bool) (now : ℕ) (job : CompactionJob)
      (c c' : PartitionCompactor Line) (r : CompactionResult)
      → run_compaction json host begin end now job c ≡ some (c', some r)
      → (outs : List SstRef) × (merge_sort_inputs host c.config c.ttl now job ≡ some outs)
        × (add_all outs (remove_ids (ids_of job.inputs) c.levels) ≡ some c'.levels)
  unfolding run_compaction
  run_compaction-eq_ok host begin end now job c c' r h =
      let started =
        begin_compaction json begin job.id (ids_of job.inputs) job.output_level c.manifest in
      elim (Bool-cases started.1) [
        | inl w ↦ elim (Option-cases (merge_sort_inputs host c.config c.ttl now job)) [
          | inl e ↦ absurd (ground (arith, w, e))
          | inr (outs, e) ↦ (
            outs,
            e,
            commit-eq_ok end job outs (record c { manifest = started.0 }) c' r
                (ground (arith, w, e)),
          )
        ]
        | inr w ↦ absurd (ground (arith, w))
      ]
