-- ===== src/Lsm/Levels/Contents.antt =====
-- storage-node/src/lsm/levels.rs, `add`, `remove` and `read_snapshot`: which files the levels hold, and the
-- order of a level.
use mathlib.Core.List.{Perm, perm_middle}
use mathlib.Core.List.Perm
use wow_db.Prelude.{
  ℕ, zero, suc, ◌≡◌, refl, ap, subst, ◌∙◌, sym, inl, inr, Bool, not, some, List, [], ◌∷◌, ◌++◌, map,
  arith, append-nil, All, retain, retain-append, drop, set, get_elem?, ltb, lt→ltb, nat_beq,
  Bool-cases, Option-cases,
}
use wow_db.Prelude.Bytes.{bytes_leb_total, bytes_leb_trans}
use wow_db.Prelude.Sorting.{IsSorted, sort_by-perm, sort_by-IsSorted, sort_by}
use wow_db.Lsm.Sst.{SstRef}
use wow_db.Lsm.Levels.{PartitionLevels, min_key_leb, push_level, add, remove, concat, read_snapshot}

push_level-perm :
    (lvl : ℕ) (sst : SstRef) (ssts : List SstRef) → Perm (push_level lvl sst ssts) (sst ∷ ssts)
unfolding push_level
push_level-perm lvl sst ssts = elim (Bool-cases (ltb 0 lvl)) [
  | inl e ↦ rw e (Perm.trans (sort_by-perm min_key_leb (ssts ++ sst ∷ [])) last)
  | inr e ↦ rw e last
]
  where
    last : Perm (ssts ++ sst ∷ []) (sst ∷ ssts)
    last = subst (λ l. Perm (ssts ++ sst ∷ []) (sst ∷ l)) (append-nil ssts) (perm_middle ssts [])

concat-set-perm :
    (levels : List (List SstRef)) (i : ℕ) (ssts : List SstRef) (sst : SstRef) (more : List SstRef)
    → get_elem? levels i ≡ some ssts
    → Perm more (sst ∷ ssts)
    → Perm (concat (set levels i more)) (sst ∷ concat levels)
unfolding concat
concat-set-perm [] i ssts sst more e h = absurd (cc)
concat-set-perm (l ∷ levels) zero ssts sst more e h =
    Perm.append (subst (λ x. Perm more (sst ∷ x)) (cc) h) (Perm.refl (concat levels))
concat-set-perm (l ∷ levels) (suc i) ssts sst more e h =
    Perm.trans (Perm.append (Perm.refl l) (concat-set-perm levels i ssts sst more e h))
      (perm_middle l (concat levels))

-- A snapshot after `add` holds the new file and the files from before, each as often.
pub read_snapshot-add :
    (sst : SstRef) (p q : PartitionLevels)
    → add sst p ≡ some q
    → Perm (read_snapshot q) (sst ∷ read_snapshot p)
unfolding add read_snapshot
read_snapshot-add sst p q h = elim (Option-cases (get_elem? p.levels sst.level)) [
  | inl e ↦ absurd (ground (arith, e))
  | inr (ssts, e) ↦
      let h' : set p.levels sst.level (push_level sst.level sst ssts) ≡ q.levels =
        ground (arith, e) in
      rw (← h')
        (concat-set-perm p.levels sst.level ssts sst _ e (push_level-perm sst.level sst ssts))
]

-- A snapshot after `remove` holds the files from before, less those with the id.
read_snapshot-remove :
    (id : ℕ) (p : PartitionLevels)
    → read_snapshot (remove id p) ≡ retain (λ s. not (nat_beq s.id id)) (read_snapshot p)
unfolding remove read_snapshot retain
read_snapshot-remove id p = cases p.levels
  where
    q : SstRef → Bool
    q s = not (nat_beq s.id id)

    cases :
        (levels : List (List SstRef)) → concat (map (retain q) levels) ≡ retain q (concat levels)
    cases [] = refl
    cases (l ∷ levels) =
        ap (λ r. retain q l ++ r) (cases levels) ∙ sym (retain-append q l (concat levels))

-- Every level above L0 is sorted by its least keys.
abbrev pub IsOrdered : PartitionLevels → Type 0
IsOrdered p = All (IsSorted min_key_leb) (drop 1 p.levels)

push_level-IsSorted :
    (lvl : ℕ) (sst : SstRef) (ssts : List SstRef)
    → IsSorted min_key_leb (push_level (suc lvl) sst ssts)
unfolding push_level
push_level-IsSorted lvl sst ssts = rw (lt→ltb 0 (suc lvl) (omega arith)) (sorted (ssts ++ sst ∷ []))
  where
    sorted : (l : List SstRef) → IsSorted min_key_leb (sort_by min_key_leb l)
    sorted =
        sort_by-IsSorted min_key_leb (λ a b. bytes_leb_total a.min_sort_key b.min_sort_key)
          (λ a b c. bytes_leb_trans a.min_sort_key b.min_sort_key c.min_sort_key)

set-IsOrdered :
    (levels : List (List SstRef)) (i : ℕ) (more : List SstRef)
    → IsSorted min_key_leb more
    → All (IsSorted min_key_leb) levels
    → All (IsSorted min_key_leb) (set levels i more)
set-IsOrdered [] i more m h = h
set-IsOrdered (l ∷ levels) zero more m h = (m, h.1)
set-IsOrdered (l ∷ levels) (suc i) more m h = (h.0, set-IsOrdered levels i more m h.1)

add_level-IsOrdered :
    (levels : List (List SstRef)) (i : ℕ) (sst : SstRef) (ssts : List SstRef)
    → All (IsSorted min_key_leb) (drop 1 levels)
    → All (IsSorted min_key_leb) (drop 1 (set levels i (push_level i sst ssts)))
add_level-IsOrdered [] i sst ssts h = h
add_level-IsOrdered (l ∷ levels) zero sst ssts h = h
add_level-IsOrdered (l ∷ levels) (suc i) sst ssts h =
    set-IsOrdered levels i _ (push_level-IsSorted i sst ssts) h

-- `add` keeps every level above L0 sorted by the least keys of its files.
pub add-IsOrdered :
    (sst : SstRef) (p q : PartitionLevels) → add sst p ≡ some q → IsOrdered p → IsOrdered q
unfolding add
add-IsOrdered sst p q h o = elim (Option-cases (get_elem? p.levels sst.level)) [
  | inl e ↦ absurd (ground (arith, e))
  | inr (ssts, e) ↦
      let h' : set p.levels sst.level (push_level sst.level sst ssts) ≡ q.levels =
        ground (arith, e) in
      rw (← h') (add_level-IsOrdered p.levels sst.level sst ssts o)
]
