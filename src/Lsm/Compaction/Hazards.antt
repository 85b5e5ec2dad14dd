-- ===== src/Lsm/Compaction/Hazards.antt =====
-- storage-node/src/lsm/compaction.rs: the levels after a compaction, where its inputs are not all that overlaps.
use wow_db.Prelude.{
  ℕ, suc, ◌+◌, ◌<◌, ◌≡◌, ◌≢◌, refl, ap, sym, ◌∙◌, subst, Bool, true, Option, none, some, List, [],
  ◌∷◌, map, arith, All, Elem, here, there, get_elem?, length, retain, Elem-retain,
}
use wow_db.Prelude.Bytes.{bytes_leb, bytes_leb_trans}
use wow_db.Lsm.Sst.{SstRef, overlaps_with, overlaps_with_same, IsRange}
use wow_db.Lsm.Levels
use wow_db.Lsm.Levels.{PartitionLevels, CompactionConfig, sum_sizes}
use wow_db.Lsm.Levels.Overlap.{IsDisjoint}
use wow_db.Lsm.Levels.Members.{InLevel, IsDisjoint-eq}
use wow_db.Lsm.Manifest.{JsonLines, begin_compaction, complete_compaction}
use wow_db.Lsm.Compaction.{
  Host, CompactionJob, CompactionResult, PartitionCompactor, is_live, merge_valid,
  merge_sort_inputs, add_all, remove_ids, run_compaction, pick_l0_compaction, pick_ln_compaction,
  commit,
}
use wow_db.Lsm.Compaction.Picking.{pick_l0_compaction-all, pick_ln_compaction-covers}
use wow_db.Lsm.Compaction.Merging.{
  IsOutput, merge_valid-outputs, merge_valid-nonempty, split_count-pos, covers,
}
use wow_db.Lsm.Compaction.Committing.{
  ids_of, add_all-InLevel, add_all-InLevel_self, remove_ids-InLevel, run_compaction-eq_ok,
}

overlaps_wider :
    (o i t : SstRef)
    → bytes_leb o.min_sort_key i.min_sort_key ≡ true
    → bytes_leb i.max_sort_key o.max_sort_key ≡ true
    → overlaps_with i t ≡ true
    → overlaps_with o t ≡ true
unfolding overlaps_with
overlaps_wider o i t low high over = ground (
  arith,
  bytes_leb_trans o.min_sort_key i.min_sort_key t.max_sort_key low,
  bytes_leb_trans t.min_sort_key i.max_sort_key o.max_sort_key,
)

same_range :
    (host : Host) (job : CompactionJob) (s : SstRef) (ssts : List SstRef) (o o' : SstRef)
    → IsRange s
    → IsOutput host job s ssts o
    → IsOutput host job s ssts o'
    → overlaps_with o o' ≡ true
same_range host job s ssts o o' r out out' =
    let (low, high, _) = covers host job s ssts o s out here in
    overlaps_with_same o o'
      (bytes_leb_trans o.min_sort_key s.max_sort_key o.max_sort_key
        (bytes_leb_trans o.min_sort_key s.min_sort_key s.max_sort_key low r) high)
      (out.min_sort_key ∙ sym out'.min_sort_key) (out.max_sort_key ∙ sym out'.max_sort_key)

-- Another file of the level overlaps this one.
abbrev pub Overlapped : SstRef → ℕ → PartitionLevels → Type 0
Overlapped t lvl p = (o : SstRef) × InLevel o lvl p × (o.id ≢ t.id) × (overlaps_with o t ≡ true)

All-ids :
    (t : SstRef) (ssts : List SstRef)
    → ((s : SstRef) → Elem s ssts → t.id ≢ s.id)
    → All (λ n. t.id ≢ n) (ids_of ssts)
All-ids t [] h = tt
All-ids t (s ∷ ssts) h = (h s here, All-ids t ssts (λ x m. h x (there m)))

module _ (json : JsonLines) (host : Host) (begin end : Bool) (now : ℕ) where
  open json use {Line}

  -- A compaction into a level above L0 that is split into two files leaves overlapping files there:
  -- each split has the whole key range. (The inputs have ranges, and the new ids differ.)
  pub run_compaction-split :
      (job : CompactionJob) (c c' : PartitionCompactor Line) (r : CompactionResult) (lvl : ℕ)
      (o o' : SstRef) (outs : List SstRef)
      → run_compaction json host begin end now job c ≡ some (c', some r)
      → job.output_level ≡ suc lvl
      → All IsRange (retain (is_live c.ttl now) job.inputs)
      → merge_sort_inputs host c.config c.ttl now job ≡ some (o ∷ o' ∷ outs)
      → o.id ≢ o'.id
      → ¬ IsDisjoint c'.levels
  unfolding merge_sort_inputs
  run_compaction-split job c c' r lvl o o' outs ran into ranges merged fresh d =
      cases (retain (is_live c.ttl now) job.inputs) ranges merged
    where
      cases :
          (valid : List SstRef)
          → All IsRange valid
          → merge_valid host c.config job valid ≡ some (o ∷ o' ∷ outs)
          → ⊥
      cases [] rs m = absurd (unfold merge_valid in ground (arith, m))
      cases (s ∷ ssts) rs m =
          let (made, e, added) = run_compaction-eq_ok json host begin end now job c c' r ran in
          let same : made ≡ o ∷ o' ∷ outs = ground (arith, e, merged) in
          let all = (merge_valid-outputs host c.config job s ssts (o ∷ o' ∷ outs) m).2 in
          let added' =
            subst (λ x. add_all x (remove_ids (ids_of job.inputs) c.levels) ≡ some c'.levels) same
              added in
          let in_o = add_all-InLevel_self (o ∷ o' ∷ outs) o _ c'.levels added' here in
          let in_o' = add_all-InLevel_self (o ∷ o' ∷ outs) o' _ c'.levels added' (there here) in
          fresh (
            ap (λ (x : SstRef). x.id)
              (IsDisjoint-eq c'.levels lvl o o' d
                (subst (λ k. InLevel o k c'.levels) (all.0.level ∙ into) in_o)
                (subst (λ k. InLevel o' k c'.levels) (all.1.0.level ∙ into) in_o')
                (same_range host job s ssts o o' rs.0 all.0 all.1.0)))

  -- A file of the output level that the compaction does not take, and that overlaps an input which the
  -- TTL leaves, is there afterwards and overlaps an output. (The new ids differ from the file's.)
  run_compaction-left_out :
      (job : CompactionJob) (c c' : PartitionCompactor Line) (r : CompactionResult) (lvl : ℕ)
      (t i : SstRef)
      → run_compaction json host begin end now job c ≡ some (c', some r)
      → job.output_level ≡ suc lvl
      → InLevel t (suc lvl) c.levels
      → All (λ id. t.id ≢ id) (ids_of job.inputs)
      → ((k : ℕ) → host.new_id k ≢ t.id)
      → Elem i (retain (is_live c.ttl now) job.inputs)
      → overlaps_with i t ≡ true
      → InLevel t (suc lvl) c'.levels × Overlapped t (suc lvl) c'.levels
  unfolding merge_sort_inputs
  run_compaction-left_out job c c' r lvl t i ran into stays other fresh live over =
      let (outs, e, added) = run_compaction-eq_ok json host begin end now job c c' r ran in
      cases (retain (is_live c.ttl now) job.inputs) live outs e added
    where
      cases :
          (valid : List SstRef)
          → Elem i valid
          → (outs : List SstRef) → merge_valid host c.config job valid ≡ some outs
          → add_all outs (remove_ids (ids_of job.inputs) c.levels) ≡ some c'.levels
          → InLevel t (suc lvl) c'.levels × Overlapped t (suc lvl) c'.levels
      cases [] m outs e added = elim m [ ]
      cases (s ∷ ssts) m outs e added =
          let (o, mo, out) = merge_valid-nonempty host c.config job s ssts outs e in
          let (low, high, _) = covers host job s ssts o i out m in
          let in_o = add_all-InLevel_self outs o _ c'.levels added mo in
          let in_t =
            add_all-InLevel outs t (suc lvl) _ c'.levels added
              (remove_ids-InLevel (ids_of job.inputs) t (suc lvl) c.levels other stays) in
          (
            in_t,
            (
              o,
              subst (λ k. InLevel o k c'.levels) (out.level ∙ into) in_o,
              (λ same. fresh out.id.0 (sym out.id.1 ∙ same)),
              overlaps_wider o i t low high over,
            ),
          )

  -- The compaction of L0 takes no file of L1: a file of L1 that overlaps a file of L0 is still in L1
  -- afterwards, another file of L1 overlaps it, and the levels are not free of overlaps. (Its id is
  -- neither that of a file of L0 nor a new one, the TTL leaves the file of L0, and the compaction
  -- has run to its end.)
  pub run_compaction-l0 :
      (id : ℕ) (job : CompactionJob) (c c' : PartitionCompactor Line) (r : CompactionResult)
      (t i : SstRef)
      → pick_l0_compaction id c.levels c.config ≡ some job
      → run_compaction json host begin end now job c ≡ some (c', some r)
      → InLevel t 1 c.levels
      → InLevel i 0 c.levels
      → is_live c.ttl now i ≡ true
      → overlaps_with i t ≡ true
      → ((s : SstRef) → InLevel s 0 c.levels → t.id ≢ s.id)
      → ((k : ℕ) → host.new_id k ≢ t.id)
      → InLevel t 1 c'.levels × Overlapped t 1 c'.levels × ¬ IsDisjoint c'.levels
  run_compaction-l0 id job c c' r t i picked ran stays (l0, e, m) live over other fresh =
      let (inputs, _, into) = (pick_l0_compaction-all id c.levels c.config l0 e).1 job picked in
      let none_of : All (λ n. t.id ≢ n) (ids_of job.inputs) =
        subst (λ ssts. All (λ n. t.id ≢ n) (ids_of ssts)) (sym inputs)
          (All-ids t l0 (λ s ms. other s (l0, e, ms))) in
      let (in_t, (o, in_o, differ, over')) =
        run_compaction-left_out job c c' r 0 t i ran into stays none_of fresh
          (Elem-retain (is_live c.ttl now) (subst (Elem i) (sym inputs) m) live) over in
      (
        in_t,
        (o, in_o, differ, over'),
        (λ d. differ (ap (λ (x : SstRef). x.id) (IsDisjoint-eq c'.levels 0 o t d in_o in_t over'))),
      )

length-map-retain :
    (q : SstRef → Bool) (levels : List (List SstRef))
    → length (map (retain q) levels) ≡ length levels
length-map-retain q [] = refl
length-map-retain q (l ∷ levels) = ap suc (length-map-retain q levels)

length-remove_ids :
    (ids : List ℕ) (p : PartitionLevels) → length (remove_ids ids p).levels ≡ length p.levels
unfolding remove_ids Levels.remove
length-remove_ids [] p = refl
length-remove_ids (id ∷ ids) p =
    length-remove_ids ids (Levels.remove id p) ∙ length-map-retain _ p.levels

get_elem?-length {ℓ} : {A : Type ℓ} (xs : List A) → get_elem? xs (length xs) ≡ none
get_elem?-length [] = refl
get_elem?-length (x ∷ xs) = get_elem?-length xs

add_beyond : (s : SstRef) (p : PartitionLevels) → s.level ≡ length p.levels → Levels.add s p ≡ none
unfolding Levels.add
add_beyond s p e =
    let out : get_elem? p.levels s.level ≡ none =
      ap (get_elem? p.levels) e ∙ get_elem?-length p.levels in
    ground (arith, out)

add_all_beyond :
    (outs : List SstRef) (p : PartitionLevels)
    → 0 < length outs
    → All (λ o. o.level ≡ length p.levels) outs
    → add_all outs p ≡ none
unfolding add_all
add_all_beyond [] p pos a = absurd (omega arith)
add_all_beyond (o ∷ outs) p pos a = let out = add_beyond o p a.0 in ground (arith, out)

commit_panic :
    (json : JsonLines) (job : CompactionJob) (outs : List SstRef) (c : PartitionCompactor json.Line)
    → add_all outs (remove_ids (ids_of job.inputs) c.levels) ≡ none
    → commit json true job outs c ≡ none
unfolding commit complete_compaction
commit_panic json job outs c h = ground (arith, h)

All-IsOutput-level :
    (host : Host) (job : CompactionJob) (s : SstRef) (ssts outs : List SstRef) (n : ℕ)
    → job.output_level ≡ n
    → All (IsOutput host job s ssts) outs
    → All (λ (o : SstRef). o.level ≡ n) outs
All-IsOutput-level host job s ssts [] n e a = tt
All-IsOutput-level host job s ssts (o ∷ outs) n e a =
    (a.0.level ∙ e, All-IsOutput-level host job s ssts outs n e a.1)

outputs_beyond :
    (host : Host) (config : CompactionConfig) (job : CompactionJob) (p : PartitionLevels)
    (valid outs : List SstRef)
    → job.output_level ≡ length p.levels
    → 0 < length valid
    → merge_valid host config job valid ≡ some outs
    → add_all outs p ≡ none
outputs_beyond host config job p [] outs e pos m = absurd (omega arith)
outputs_beyond host config job p (s ∷ ssts) outs e pos m =
    let (_, count, all) = merge_valid-outputs host config job s ssts outs m in
    add_all_beyond outs p
      (omega (arith, count, split_count-pos (sum_sizes (s ∷ ssts)) config.target_file_size_bytes))
      (All-IsOutput-level host job s ssts outs (length p.levels) e all)

module _ (json : JsonLines) (host : Host) (now : ℕ) where
  open json use {Line}

  -- A compaction of the last level panics, if the TTL leaves the file that it starts from and both
  -- appends to the log succeed: its output has the level after the last, which is not there. By then
  -- the log says that the compaction has ended.
  pub run_compaction-last_level :
      (id lvl : ℕ) (job : CompactionJob) (c : PartitionCompactor Line) (i : SstRef)
      (rest : List SstRef)
      → pick_ln_compaction id c.levels lvl ≡ some job
      → lvl + 1 ≡ length c.levels.levels
      → job.inputs ≡ i ∷ rest
      → is_live c.ttl now i ≡ true
      → run_compaction json host true true now job c ≡ none
  unfolding run_compaction begin_compaction retain
  run_compaction-last_level id lvl job c i rest picked last inputs live =
      cases (merge_sort_inputs host c.config c.ttl now job) refl
    where
      outside : job.output_level ≡ length (remove_ids (ids_of job.inputs) c.levels).levels
      outside =
          let (_, _, _, _, _, _, _, into, _) =
            pick_ln_compaction-covers id c.levels lvl job picked in
          into ∙ last ∙ sym (length-remove_ids (ids_of job.inputs) c.levels)

      some_left : 0 < length (retain (is_live c.ttl now) job.inputs)
      some_left = rw (inputs, retain) (rw live (omega arith))

      cases :
          (o : Option (List SstRef))
          → merge_sort_inputs host c.config c.ttl now job ≡ o
          → run_compaction json host true true now job c ≡ none
      cases none e = ground (arith, e)
      cases (some outs) e =
          let beyond =
            outputs_beyond host c.config job (remove_ids (ids_of job.inputs) c.levels)
              (retain (is_live c.ttl now) job.inputs) outs outside some_left
              (unfold merge_sort_inputs in e) in
          rw e (commit_panic json job outs _ beyond)
