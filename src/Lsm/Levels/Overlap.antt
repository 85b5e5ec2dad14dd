-- ===== src/Lsm/Levels/Overlap.antt =====
-- storage-node/src/lsm/levels.rs, `verify_non_overlapping`, and what keeps a level free of overlaps.
use wow_db.Prelude.{
  ℕ, ◌+◌, ◌≡◌, refl, ◌↔◌, Bool, false, not, List, [], ◌∷◌, map, arith, All, All-retain, retain,
  drop, nat_beq, ok,
}
use wow_db.Lsm.Sst.{SstRef, overlaps_with}
use wow_db.Lsm.Levels.{
  PartitionLevels, first_overlap, verify_level, verify_from, verify_non_overlapping, remove,
}

-- No two files of the list overlap.
abbrev pub Disjoint : List SstRef → Type 0
Disjoint [] = Unit
Disjoint (s ∷ ssts) = All (λ t. overlaps_with s t ≡ false) ssts × Disjoint ssts

-- The promise for the levels above L0.
abbrev pub IsDisjoint : PartitionLevels → Type 0
IsDisjoint p = All Disjoint (drop 1 p.levels)

first_overlap_iff :
    (lvl : ℕ) (s : SstRef) (ssts : List SstRef)
    → (first_overlap lvl s ssts ≡ ok tt) ↔ All (λ t. overlaps_with s t ≡ false) ssts
unfolding first_overlap
first_overlap_iff lvl s [] = ((λ _. tt), λ _. refl)
first_overlap_iff lvl s (t ∷ ssts) = ground (arith, first_overlap_iff lvl s ssts)

verify_level_iff : (lvl : ℕ) (ssts : List SstRef) → (verify_level lvl ssts ≡ ok tt) ↔ Disjoint ssts
unfolding verify_level
verify_level_iff lvl [] = ((λ _. tt), λ _. refl)
verify_level_iff lvl (s ∷ ssts) =
    ground (arith, first_overlap_iff lvl s ssts, verify_level_iff lvl ssts)

verify_from_iff :
    (lvl : ℕ) (levels : List (List SstRef)) → (verify_from lvl levels ≡ ok tt) ↔ All Disjoint levels
unfolding verify_from
verify_from_iff lvl [] = ((λ _. tt), λ _. refl)
verify_from_iff lvl (ssts ∷ levels) =
    ground (arith, verify_level_iff lvl ssts, verify_from_iff (lvl + 1) levels)

-- The check succeeds exactly when no two files of one level above L0 overlap.
pub verify_non_overlapping_iff :
    (p : PartitionLevels) → (verify_non_overlapping p ≡ ok tt) ↔ IsDisjoint p
unfolding verify_non_overlapping
verify_non_overlapping_iff p = verify_from_iff 1 (drop 1 p.levels)

Disjoint-retain :
    (q : SstRef → Bool) (ssts : List SstRef) → Disjoint ssts → Disjoint (retain q ssts)
unfolding retain
Disjoint-retain q [] d = tt
Disjoint-retain q (s ∷ ssts) d =
    ground
      (arith, All-retain (λ t. overlaps_with s t ≡ false) q ssts d.0, Disjoint-retain q ssts d.1)

map-retain-Disjoint :
    (q : SstRef → Bool) (levels : List (List SstRef))
    → All Disjoint levels
    → All Disjoint (map (retain q) levels)
map-retain-Disjoint q [] d = tt
map-retain-Disjoint q (ssts ∷ levels) d =
    (Disjoint-retain q ssts d.0, map-retain-Disjoint q levels d.1)

-- Removing files cannot make an overlap.
pub remove-IsDisjoint : (id : ℕ) (p : PartitionLevels) → IsDisjoint p → IsDisjoint (remove id p)
unfolding remove
remove-IsDisjoint id p d = cases p.levels d
  where
    q : SstRef → Bool
    q s = not (nat_beq s.id id)

    cases :
        (levels : List (List SstRef))
        → All Disjoint (drop 1 levels)
        → All Disjoint (drop 1 (map (retain q) levels))
    cases [] h = h
    cases (l0 ∷ levels) h = map-retain-Disjoint q levels h
