-- ===== src/Lsm/Compaction/Merging.antt =====
-- storage-node/src/lsm/compaction.rs, `merge_sort_inputs`: the inputs and the outputs.
use native.Mathlib.Nat.{div-le_of_le-mul, lt-mul-div-succ, mul-div-le}
use wow_db.Prelude.{
  ◌<◌, ◌*◌, ◌/◌, ◌%◌, ◌^◌, ◌-◌, ℕ, zero, suc, ◌+◌, ◌≤◌, ◌≡◌, refl, ap, sym, subst, inl, inr, true,
  Option, some, List, [], ◌∷◌, arith, All, Elem, here, there, All-Elem, retain, length, nat_beq,
  Bool-cases, ◌&&◌,
}
use wow_db.Prelude.Bytes.{bytes_leb, bytes_leb_refl, bytes_leb_trans, bytes_leb_total}
use wow_db.Lsm.Sst.{SstRef, key_in_range}
use wow_db.Lsm.Levels.{CompactionConfig, sum_sizes}
use wow_db.Lsm.Compaction.{
  Host, TtlConfig, CompactionJob, is_live, lesser, greater, least_key, greatest_key, max_sequence,
  split_count, outputs_from, merge_valid, merge_sort_inputs,
}

lesser-le : (a b : List ℕ) → (bytes_leb (lesser a b) a ≡ true) × (bytes_leb (lesser a b) b ≡ true)
unfolding lesser
lesser-le a b = ground (arith, bytes_leb_refl a, bytes_leb_refl b, bytes_leb_total a b)

greater-ge :
    (a b : List ℕ) → (bytes_leb a (greater a b) ≡ true) × (bytes_leb b (greater a b) ≡ true)
unfolding greater
greater-ge a b = ground (arith, bytes_leb_refl a, bytes_leb_refl b, bytes_leb_total a b)

-- The folded key is not above the start, nor above any least key.
least_key-le :
    (k : List ℕ) (ssts : List SstRef)
    → (bytes_leb (least_key k ssts) k ≡ true)
      × All (λ s. bytes_leb (least_key k ssts) s.min_sort_key ≡ true) ssts
unfolding least_key
least_key-le k [] = (bytes_leb_refl k, tt)
least_key-le k (s ∷ ssts) =
    let (below, all_below) = least_key-le (lesser k s.min_sort_key) ssts in
    let trans =
      bytes_leb_trans (least_key (lesser k s.min_sort_key) ssts) (lesser k s.min_sort_key) in
    (
      trans k below (lesser-le k s.min_sort_key).0,
      (trans s.min_sort_key below (lesser-le k s.min_sort_key).1, all_below),
    )

greatest_key-ge :
    (k : List ℕ) (ssts : List SstRef)
    → (bytes_leb k (greatest_key k ssts) ≡ true)
      × All (λ s. bytes_leb s.max_sort_key (greatest_key k ssts) ≡ true) ssts
unfolding greatest_key
greatest_key-ge k [] = (bytes_leb_refl k, tt)
greatest_key-ge k (s ∷ ssts) =
    let g = greater k s.max_sort_key in
    let (above, all_above) = greatest_key-ge g ssts in
    (
      bytes_leb_trans k g (greatest_key g ssts) (greater-ge k s.max_sort_key).0 above,
      (
        bytes_leb_trans s.max_sort_key g (greatest_key g ssts) (greater-ge k s.max_sort_key).1
            above,
        all_above,
      ),
    )

max_sequence-ge :
    {s : SstRef} (ssts : List SstRef) → Elem s ssts → s.sequence_num ≤ max_sequence ssts
unfolding max_sequence
max_sequence-ge [] m = elim m [ ]
max_sequence-ge (t ∷ ssts) here = omega arith
max_sequence-ge (t ∷ ssts) (there m) = omega (arith, max_sequence-ge ssts m)

-- What every output of a merge has in common.
pub record IsOutput (host : Host) (job : CompactionJob) (s : SstRef) (ssts : List SstRef)
    (o : SstRef) : Type 0 where
  pub id : (k : ℕ) × (o.id ≡ host.new_id k)
  pub level : o.level ≡ job.output_level
  pub sequence_num : o.sequence_num ≡ max_sequence (s ∷ ssts)
  pub min_sort_key : o.min_sort_key ≡ least_key s.min_sort_key ssts
  pub max_sort_key : o.max_sort_key ≡ greatest_key s.max_sort_key ssts

outputs_from-IsOutput :
    (host : Host) (job : CompactionJob) (s : SstRef) (ssts : List SstRef) (count idx n : ℕ)
    → All (IsOutput host job s ssts) (outputs_from host job s ssts count idx n)
unfolding outputs_from
outputs_from-IsOutput host job s ssts count idx zero = tt
outputs_from-IsOutput host job s ssts count idx (suc n) = (
  record {
    id = (idx, refl);
    level = refl;
    sequence_num = refl;
    min_sort_key = refl;
    max_sort_key = refl;
  },
  outputs_from-IsOutput host job s ssts count (idx + 1) n,
)

length-outputs_from :
    (host : Host) (job : CompactionJob) (s : SstRef) (ssts : List SstRef) (count idx n : ℕ)
    → length (outputs_from host job s ssts count idx n) ≡ n
unfolding outputs_from
length-outputs_from host job s ssts count idx zero = refl
length-outputs_from host job s ssts count idx (suc n) =
    ap suc (length-outputs_from host job s ssts count (idx + 1) n)

pub split_count-pos : (total target : ℕ) → 0 < split_count total target
unfolding split_count
split_count-pos total target = omega arith

-- The outputs of a merge with an input left: as many as the sizes ask for, all alike.
pub merge_valid-outputs :
    (host : Host) (config : CompactionConfig) (job : CompactionJob) (s : SstRef)
    (ssts outs : List SstRef)
    → merge_valid host config job (s ∷ ssts) ≡ some outs
    → let count = split_count (sum_sizes (s ∷ ssts)) config.target_file_size_bytes in
      (outs ≡ outputs_from host job s ssts count 0 count)
      × (length outs ≡ count)
      × All (IsOutput host job s ssts) outs
unfolding merge_valid
merge_valid-outputs host config job s ssts outs h =
    elim (Bool-cases (nat_beq config.target_file_size_bytes 0)) [
      | inl e ↦ absurd (ground (arith, e))
      | inr e ↦
          let count = split_count (sum_sizes (s ∷ ssts)) config.target_file_size_bytes in
          let same : outputs_from host job s ssts count 0 count ≡ outs = ground (arith, e) in
          (
            sym same,
            subst (λ l. length l ≡ count) same (length-outputs_from host job s ssts count 0 count),
            subst (All (IsOutput host job s ssts)) same
                (outputs_from-IsOutput host job s ssts count 0 count),
          )
    ]

pub covers :
    (host : Host) (job : CompactionJob) (s : SstRef) (ssts : List SstRef) (o i : SstRef)
    → IsOutput host job s ssts o
    → Elem i (s ∷ ssts)
    → (bytes_leb o.min_sort_key i.min_sort_key ≡ true)
      × (bytes_leb i.max_sort_key o.max_sort_key ≡ true)
      × (i.sequence_num ≤ o.sequence_num)
covers host job s ssts o i out m = (
  rw out.min_sort_key (
      All-Elem (λ x. bytes_leb (least_key s.min_sort_key ssts) x.min_sort_key ≡ true) m
        (least_key-le s.min_sort_key ssts)),
  rw out.max_sort_key (
      All-Elem (λ x. bytes_leb x.max_sort_key (greatest_key s.max_sort_key ssts) ≡ true) m
        (greatest_key-ge s.max_sort_key ssts)),
  rw out.sequence_num (max_sequence-ge (s ∷ ssts) m),
)

-- Every output of a merge has in its range every key of every input that the TTL leaves, and no such
-- input is newer than an output.
pub merge_sort_inputs-covers :
    (host : Host) (config : CompactionConfig) (ttl : Option TtlConfig) (now : ℕ)
    (job : CompactionJob) (outs : List SstRef) (o i : SstRef) (key : List ℕ)
    → merge_sort_inputs host config ttl now job ≡ some outs
    → Elem o outs
    → Elem i (retain (is_live ttl now) job.inputs)
    → key_in_range i key ≡ true
    → (key_in_range o key ≡ true) × (i.sequence_num ≤ o.sequence_num) × (o.level ≡ job.output_level)
unfolding merge_sort_inputs key_in_range
merge_sort_inputs-covers host config ttl now job outs o i key h mo mi k =
    cases (retain (is_live ttl now) job.inputs) h mi
  where
    cases :
        (valid : List SstRef)
        → merge_valid host config job valid ≡ some outs
        → Elem i valid
        → ((bytes_leb o.min_sort_key key && bytes_leb key o.max_sort_key) ≡ true)
          × (i.sequence_num ≤ o.sequence_num)
          × (o.level ≡ job.output_level)
    cases [] g m = elim m [ ]
    cases (s ∷ ssts) g m =
        let out =
          All-Elem (IsOutput host job s ssts) mo
            (merge_valid-outputs host config job s ssts outs g).2 in
        let (low, high, newer) = covers host job s ssts o i out m in
        (
          ground (
            arith,
            k,
            bytes_leb_trans o.min_sort_key i.min_sort_key key low,
            bytes_leb_trans key i.max_sort_key o.max_sort_key,
            high,
          ),
          newer,
          out.level,
        )

-- With an input left there is an output.
pub merge_valid-nonempty :
    (host : Host) (config : CompactionConfig) (job : CompactionJob) (s : SstRef)
    (ssts outs : List SstRef)
    → merge_valid host config job (s ∷ ssts) ≡ some outs
    → (o : SstRef) × Elem o outs × IsOutput host job s ssts o
merge_valid-nonempty host config job s ssts outs h =
    first outs (merge_valid-outputs host config job s ssts outs h)
  where
    first :
        (outs : List SstRef)
        → (let count = split_count (sum_sizes (s ∷ ssts)) config.target_file_size_bytes in
            (outs ≡ outputs_from host job s ssts count 0 count)
            × (length outs ≡ count)
            × All (IsOutput host job s ssts) outs)
        → (o : SstRef) × Elem o outs × IsOutput host job s ssts o
    first [] (e, l, a) =
        absurd
          (omega (arith, l, split_count-pos (sum_sizes (s ∷ ssts)) config.target_file_size_bytes))
    first (o ∷ outs) (e, l, a) = (o, here, a.0)

split_count-covers :
    (total target : ℕ)
    → 0 < target
    → total + target < 2 ^ 64
    → total ≤ split_count total target * target
unfolding split_count
split_count-covers total target pos fits =
    let x : ℕ = total + target - 1 in
    let wrapped : ((total + target) % 2 ^ 64 + 2 ^ 64 - 1) % 2 ^ 64 ≡ x = omega arith in
    rw wrapped (grind (arith, lt-mul-div-succ x pos))

-- A merge splits its inputs into files of at most the target size, and no split is empty of its share:
-- with sizes that do not wrap around, no output is larger than the target, and together the outputs
-- are not larger than the inputs.
pub split_count-bounds :
    (total target : ℕ)
    → 0 < target
    → total + target < 2 ^ 64
    → (total / split_count total target ≤ target)
      × (split_count total target * (total / split_count total target) ≤ total)
split_count-bounds total target pos fits = (
  div-le_of_le-mul (split_count total target) (split_count-covers total target pos fits),
  mul-div-le total (split_count total target),
)
