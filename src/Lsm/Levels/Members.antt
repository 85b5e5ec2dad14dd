-- ===== src/Lsm/Levels/Members.antt =====
-- storage-node/src/lsm/levels.rs: which file stands in which level after `add` and `remove`.
use wow_db.Prelude.{
  ℕ, zero, suc, ◌≡◌, ◌≢◌, refl, ◌∙◌, ap, subst, inl, inr, Bool, true, false, some, List, [], ◌∷◌,
  ◌++◌, map, arith, All, Elem, here, there, All-Elem, Elem-append_left, Elem-append_right,
  Elem-retain, retain, drop, set, get_elem?, get_elem?-set_self, get_elem?-set_ne, ltb, nat_beq,
  nat_beq_iff, Bool-cases, Option-cases,
}
use wow_db.Prelude.Sorting.{Elem-sort_by}
use wow_db.Lsm.Sst.{SstRef, overlaps_with, overlaps_with_comm}
use wow_db.Lsm.Levels.{PartitionLevels, min_key_leb, push_level, add, remove}
use wow_db.Lsm.Levels.Overlap.{Disjoint, IsDisjoint}

-- The file stands in the level.
abbrev pub InLevel : SstRef → ℕ → PartitionLevels → Type 0
InLevel s lvl p = (ssts : List SstRef) × (get_elem? p.levels lvl ≡ some ssts) × Elem s ssts

Elem-push_level_self : (lvl : ℕ) (s : SstRef) (ssts : List SstRef) → Elem s (push_level lvl s ssts)
unfolding push_level
Elem-push_level_self lvl s ssts = elim (Bool-cases (ltb 0 lvl)) [
  | inl e ↦ rw e (Elem-sort_by min_key_leb (ssts ++ s ∷ []) (Elem-append_right ssts here))
  | inr e ↦ rw e (Elem-append_right ssts here)
]

Elem-push_level :
    (lvl : ℕ) (s : SstRef) (ssts : List SstRef) {t : SstRef}
    → Elem t ssts
    → Elem t (push_level lvl s ssts)
unfolding push_level
Elem-push_level lvl s ssts m = elim (Bool-cases (ltb 0 lvl)) [
  | inl e ↦ rw e (Elem-sort_by min_key_leb (ssts ++ s ∷ []) (Elem-append_left m (s ∷ [])))
  | inr e ↦ rw e (Elem-append_left m (s ∷ []))
]

-- What a successful `add` found, and what it left.
add-eq_some :
    (s : SstRef) (p q : PartitionLevels)
    → add s p ≡ some q
    → (ssts : List SstRef) × (get_elem? p.levels s.level ≡ some ssts)
      × (q.levels ≡ set p.levels s.level (push_level s.level s ssts))
unfolding add
add-eq_some s p q h = elim (Option-cases (get_elem? p.levels s.level)) [
  | inl e ↦ absurd (ground (arith, e))
  | inr (ssts, e) ↦ (ssts, e, ground (arith, e))
]

-- `add` puts the file into its level.
pub add-InLevel_self : (s : SstRef) (p q : PartitionLevels) → add s p ≡ some q → InLevel s s.level q
add-InLevel_self s p q h =
    let (ssts, e, l) = add-eq_some s p q h in
    (
      push_level s.level s ssts,
      ap (λ x. get_elem? x s.level) l ∙ get_elem?-set_self p.levels s.level _ e,
      Elem-push_level_self s.level s ssts,
    )

-- `add` takes no file out of a level.
pub add-InLevel :
    (s t : SstRef) (lvl : ℕ) (p q : PartitionLevels)
    → add s p ≡ some q
    → InLevel t lvl p
    → InLevel t lvl q
add-InLevel s t lvl p q h (ts, f, m) =
    let (ssts, e, l) = add-eq_some s p q h in
    elim (Bool-cases (nat_beq s.level lvl)) [
      | inl same ↦
          let at : s.level ≡ lvl = (nat_beq_iff s.level lvl).0 same in
          (
            push_level s.level s ssts,
            ap (λ x. get_elem? x lvl) l
                ∙ subst
                    (λ k.
                      get_elem? (set p.levels s.level (push_level s.level s ssts)) k
                      ≡ some (push_level s.level s ssts))
                    at (get_elem?-set_self p.levels s.level _ e),
            Elem-push_level s.level s ssts (subst (Elem t) (ground (arith, at, e, f)) m),
          )
      | inr other ↦ (
        ts,
        ap (λ x. get_elem? x lvl) l
            ∙ get_elem?-set_ne p.levels s.level lvl _ (ground (arith, other))
            ∙ f,
        m,
      )
    ]

get_elem?-map-retain :
    (q : SstRef → Bool) (levels : List (List SstRef)) (lvl : ℕ) {ssts : List SstRef}
    → get_elem? levels lvl ≡ some ssts
    → get_elem? (map (retain q) levels) lvl ≡ some (retain q ssts)
get_elem?-map-retain q [] lvl h = cc
get_elem?-map-retain q (l ∷ levels) zero h = cc
get_elem?-map-retain q (l ∷ levels) (suc lvl) h = get_elem?-map-retain q levels lvl h

-- `remove` keeps every file with another id where it is.
pub remove-InLevel :
    (id : ℕ) (t : SstRef) (lvl : ℕ) (p : PartitionLevels)
    → t.id ≢ id
    → InLevel t lvl p
    → InLevel t lvl (remove id p)
unfolding remove
remove-InLevel id t lvl p ne (ts, f, m) =
    (_, get_elem?-map-retain _ p.levels lvl f, Elem-retain _ m (ground (arith, ne)))

Disjoint-at :
    (levels : List (List SstRef)) (lvl : ℕ) {ssts : List SstRef}
    → All Disjoint levels
    → get_elem? levels lvl ≡ some ssts
    → Disjoint ssts
Disjoint-at [] lvl d h = absurd (cc)
Disjoint-at (l ∷ levels) zero d h = subst Disjoint (cc) d.0
Disjoint-at (l ∷ levels) (suc lvl) d h = Disjoint-at levels lvl d.1 h

Disjoint-eq :
    {s t : SstRef} {ssts : List SstRef}
    → Elem s ssts
    → Elem t ssts
    → Disjoint ssts
    → overlaps_with s t ≡ true
    → s ≡ t
Disjoint-eq here here d o = refl
Disjoint-eq {s} here (there m) d o = cc (o, All-Elem (λ x. overlaps_with s x ≡ false) m d.0)
Disjoint-eq {s} {t} (there m) here d o =
    cc (o, overlaps_with_comm s t, All-Elem (λ x. overlaps_with t x ≡ false) m d.0)
Disjoint-eq (there m) (there n) d o = Disjoint-eq m n d.1 o

-- In levels free of overlaps, two files of one level above L0 that overlap are one file.
pub IsDisjoint-eq :
    (p : PartitionLevels) (lvl : ℕ) (s t : SstRef)
    → IsDisjoint p
    → InLevel s (suc lvl) p
    → InLevel t (suc lvl) p
    → overlaps_with s t ≡ true
    → s ≡ t
IsDisjoint-eq p lvl s t d (ss, e, m) (ts, f, n) o =
    Disjoint-eq m (subst (Elem t) (cc (e, f)) n) (disjoint p.levels d e) o
  where
    disjoint :
        (levels : List (List SstRef))
        → All Disjoint (drop 1 levels)
        → get_elem? levels (suc lvl) ≡ some ss
        → Disjoint ss
    disjoint [] h g = absurd (cc)
    disjoint (l ∷ levels) h g = Disjoint-at levels lvl h g
