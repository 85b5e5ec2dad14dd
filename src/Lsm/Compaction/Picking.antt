-- ===== src/Lsm/Compaction/Picking.antt =====
-- storage-node/src/lsm/compaction.rs and levels.rs: which files a compaction takes.
use wow_db.Prelude.{
  ℕ, suc, ◌+◌, ◌≤◌, ◌<◌, ◌≡◌, refl, ap, sym, ◌∙◌, subst, ◌↔◌, ◌⊎◌, inl, inr, true, Option, none,
  some, List, [], ◌∷◌, arith, All, Elem, here, there, Elem-retain, Elem-of_retain, get_elem?, ltb,
  if◌then◌else◌, Bool-cases, Option-cases, length,
}
use wow_db.Lsm.Sst.{SstRef, overlaps_with}
use wow_db.Lsm.Levels.{PartitionLevels, CompactionConfig}
use wow_db.Lsm.Levels.Members.{InLevel}
use wow_db.Lsm.Compaction.{
  Float64, CompactionJob, compaction_score, better, best_level, highest_priority_level,
  least_sequence, overlapping, pick_from, pick_l0_compaction, pick_ln_compaction,
}

-- The level is there and holds a file.
abbrev pub IsOccupied : PartitionLevels → ℕ → Type 0
IsOccupied p lvl = (s : SstRef) × (ssts : List SstRef) × (get_elem? p.levels lvl ≡ some (s ∷ ssts))

module _ (f : Float64) (p : PartitionLevels) where
  -- What is left of the levels, from `lvl` on.
  abbrev IsSuffix : ℕ → List (List SstRef) → Type 0
  IsSuffix lvl levels = (k : ℕ) → get_elem? p.levels (lvl + k) ≡ get_elem? levels k

  abbrev IsGood : Option ℕ → Type 0
  IsGood none = Unit
  IsGood (some lvl) = IsOccupied p lvl

  suffix_tail :
      (lvl : ℕ) (l : List SstRef) (levels : List (List SstRef))
      → IsSuffix lvl (l ∷ levels)
      → IsSuffix (lvl + 1) levels
  suffix_tail lvl l levels h k =
      subst (λ n. get_elem? p.levels n ≡ get_elem? levels k) (omega arith) (h (suc k))

  better-IsGood :
      (best : Option ℕ) (lvl : ℕ)
      → IsGood best
      → IsOccupied p lvl
      → IsOccupied p (better f p best lvl)
  unfolding better
  better-IsGood none lvl b o = o
  better-IsGood (some best) lvl b o =
      elim (Bool-cases (f.gt (compaction_score f p best) (compaction_score f p lvl))) [
        | inl e ↦ rw e b
        | inr e ↦ rw e o
      ]

  best_level-IsGood :
      (best : Option ℕ) (lvl : ℕ) (levels : List (List SstRef))
      → IsGood best
      → IsSuffix lvl levels
      → IsGood (best_level f p best lvl levels)
  unfolding best_level
  best_level-IsGood best lvl [] b h = b
  best_level-IsGood best lvl ([] ∷ levels) b h =
      best_level-IsGood best (lvl + 1) levels b (suffix_tail lvl [] levels h)
  best_level-IsGood best lvl ((s ∷ ssts) ∷ levels) b h =
      best_level-IsGood (some (better f p best lvl)) (lvl + 1) levels
        (better-IsGood best lvl b
          (s, ssts, subst (λ n. get_elem? p.levels n ≡ some (s ∷ ssts)) (omega arith) (h 0)))
        (suffix_tail lvl (s ∷ ssts) levels h)

  -- The chosen level is there, holds a file, and has a score of at least one.
  pub highest_priority_level-due :
      (lvl : ℕ)
      → highest_priority_level f p ≡ some lvl
      → IsOccupied p lvl × (f.ge_one (compaction_score f p lvl) ≡ true)
  unfolding highest_priority_level
  highest_priority_level-due lvl h = elim (Option-cases (best_level f p none 0 p.levels)) [
    | inl e ↦ absurd (ground (arith, e))
    | inr (k, e) ↦ elim (Bool-cases (f.ge_one (compaction_score f p k))) [
      | inl g ↦
          let same : k ≡ lvl = ground (arith, e, g) in
          (
            subst (IsOccupied p) same (
                subst IsGood e (
                  best_level-IsGood none 0 p.levels tt
                    (λ n. ap (get_elem? p.levels) (omega arith)))),
            subst (λ n. f.ge_one (compaction_score f p n) ≡ true) same g,
          )
      | inr g ↦ absurd (ground (arith, e, g))
    ]
  ]

least_sequence-least :
    (best : SstRef) (ssts : List SstRef)
    → ((least_sequence best ssts ≡ best) ⊎ Elem (least_sequence best ssts) ssts)
      × ((least_sequence best ssts).sequence_num ≤ best.sequence_num)
      × All (λ t. (least_sequence best ssts).sequence_num ≤ t.sequence_num) ssts
unfolding least_sequence
least_sequence-least best [] = (inl refl, omega arith, tt)
least_sequence-least best (s ∷ ssts) =
    let b : SstRef = if ltb s.sequence_num best.sequence_num then s else best in
    let (m, l, a) = least_sequence-least b ssts in
    let (which, to_best, to_s) = earlier s best in
    (found b m which, omega (arith, l, to_best), (omega (arith, l, to_s), a))
  where
    earlier :
        (s best : SstRef)
        → let b = if ltb s.sequence_num best.sequence_num then s else best in
          ((b ≡ s) ⊎ (b ≡ best))
          × (b.sequence_num ≤ best.sequence_num)
          × (b.sequence_num ≤ s.sequence_num)
    earlier s best = ground arith

    found :
        (b : SstRef)
        → ((least_sequence b ssts ≡ b) ⊎ Elem (least_sequence b ssts) ssts)
        → ((b ≡ s) ⊎ (b ≡ best))
        → (least_sequence b ssts ≡ best) ⊎ Elem (least_sequence b ssts) (s ∷ ssts)
    found b (inl q) (inl r) = inr (subst (λ x. Elem x (s ∷ ssts)) (sym (q ∙ r)) here)
    found b (inl q) (inr r) = inl (q ∙ r)
    found b (inr m) r = inr (there m)

overlapping_iff :
    (input t : SstRef) (p : PartitionLevels) (lvl : ℕ)
    → Elem t (overlapping input (get_elem? p.levels lvl))
      ↔ (InLevel t lvl p × (overlaps_with input t ≡ true))
unfolding overlapping
overlapping_iff input t p lvl = (to_level (get_elem? p.levels lvl) refl, of_level)
  where
    to_level :
        (o : Option (List SstRef))
        → get_elem? p.levels lvl ≡ o
        → Elem t (overlapping input o)
        → InLevel t lvl p × (overlaps_with input t ≡ true)
    to_level none e m = elim m [ ]
    to_level (some ssts) e m =
        let (m', o) = Elem-of_retain (overlaps_with input) ssts m in ((ssts, e, m'), o)

    of_level :
        InLevel t lvl p × (overlaps_with input t ≡ true)
        → Elem t (overlapping input (get_elem? p.levels lvl))
    of_level ((ssts, e, m), o) = rw e (Elem-retain (overlaps_with input) m o)

-- The compaction of a level above L0 starts from the file of the level with the least sequence
-- number, and takes with it exactly the files of the next level that overlap it.
pub pick_ln_compaction-covers :
    (id : ℕ) (p : PartitionLevels) (lvl : ℕ) (job : CompactionJob)
    → pick_ln_compaction id p lvl ≡ some job
    → (input : SstRef) × (rest ssts : List SstRef) × (job.inputs ≡ input ∷ rest)
      × (get_elem? p.levels lvl ≡ some ssts)
      × Elem input ssts
      × All (λ t. input.sequence_num ≤ t.sequence_num) ssts
      × (job.output_level ≡ lvl + 1)
      × ((t : SstRef) → Elem t rest ↔ (InLevel t (lvl + 1) p × (overlaps_with input t ≡ true)))
unfolding pick_ln_compaction
pick_ln_compaction-covers id p lvl job h = elim (Option-cases (get_elem? p.levels lvl)) [
  | inl e ↦ absurd (ground (arith, e))
  | inr (ssts, e) ↦ picked ssts e (ground (arith, e))
]
  where
    picked :
        (ssts : List SstRef)
        → get_elem? p.levels lvl ≡ some ssts
        → pick_from id p lvl ssts ≡ some job
        → (input : SstRef) × (rest ssts : List SstRef) × (job.inputs ≡ input ∷ rest)
          × (get_elem? p.levels lvl ≡ some ssts)
          × Elem input ssts
          × All (λ t. input.sequence_num ≤ t.sequence_num) ssts
          × (job.output_level ≡ lvl + 1)
          × ((t : SstRef) → Elem t rest ↔ (InLevel t (lvl + 1) p × (overlaps_with input t ≡ true)))
    picked [] e g = absurd (ground arith)
    picked (s ∷ ssts) e g =
        let input : SstRef = least_sequence s ssts in
        let (m, l, a) = least_sequence-least s ssts in
        (
          input,
          overlapping input (get_elem? p.levels (lvl + 1)),
          s ∷ ssts,
          ground (arith, g),
          e,
          elim m [ inl q ↦ subst (λ x. Elem x (s ∷ ssts)) (sym q) here | inr n ↦ there n ],
          (l, a),
          ground (arith, g),
          λ t. overlapping_iff input t p (lvl + 1),
        )

-- The compaction of L0 takes every file of L0, into L1, and is made exactly from the trigger on.
pub pick_l0_compaction-all :
    (id : ℕ) (p : PartitionLevels) (config : CompactionConfig) (l0 : List SstRef)
    → get_elem? p.levels 0 ≡ some l0
    → ((pick_l0_compaction id p config ≡ none) ↔ (length l0 < config.l0_file_compaction_trigger))
      × ((job : CompactionJob)
          → pick_l0_compaction id p config ≡ some job
          → (job.inputs ≡ l0) × (job.input_level ≡ 0) × (job.output_level ≡ 1))
unfolding pick_l0_compaction
pick_l0_compaction-all id p config l0 e = (ground (arith, e), λ job h. ground (arith, e, h))
