-- ===== src/Lsm/Bloom/Members.antt =====
-- A filter has no false negatives: a key that was put in is found, whatever is put in after it.
use wow_db.Prelude.{
  Bool-cases, inl, inr, ℕ, ◌+◌, ◌*◌, ◌/◌, ◌%◌, ◌^◌, ◌≤◌, ◌<◌, max, length, ◌≡◌, refl, ap, ◌∙◌,
  arith, Bool, true, false, List, [], ◌∷◌, Option, none, some, length-replicate, All, if◌then◌else◌,
}
use wow_db.Lsm.Bloom.{
  BloomFilterConfig, BitVec, with_capacity, get, SsTableBloom, all_set, set_all, hash_indices, new,
  insert, may_contain, insert_all,
}
use wow_db.Lsm.Bloom.Bits.{get-total, IsBitmap, set-IsSetOf}

abbrev AreSet : List ℕ → BitVec → Type 0
AreSet is v = All (λ i. get i v ≡ some true) is

AreSet-mono :
    (is : List ℕ) (v v' : BitVec)
    → ((j : ℕ) → get j v ≡ some true → get j v' ≡ some true)
    → AreSet is v
    → AreSet is v'
AreSet-mono [] v v' k h = tt
AreSet-mono (i ∷ is) v v' k h = (k i h.0, AreSet-mono is v v' k h.1)

AreSet-all_set : (is : List ℕ) (v : BitVec) → AreSet is v → all_set is v ≡ some true
unfolding all_set
AreSet-all_set [] v h = refl
AreSet-all_set (i ∷ is) v h = rw (all_set, h.0) (AreSet-all_set is v h.1)

all_set-AreSet : (is : List ℕ) (v : BitVec) → all_set is v ≡ some true → AreSet is v
unfolding all_set
all_set-AreSet [] v h = tt
all_set-AreSet (i ∷ is) v h = by_digit (all_set-AreSet is v) (get i v) refl h
  where
    by_digit :
        (all_set is v ≡ some true → AreSet is v)
        → (found : Option Bool) → get i v ≡ found
        → elim found as (λ _. Option Bool) [
          | none ↦ none
          | some b ↦ if b then all_set is v else some false
        ]
          ≡ some true
        → AreSet (i ∷ is) v
    by_digit rest none e k = absurd (cc k)
    by_digit rest (some true) e k = (e, rest k)
    by_digit rest (some false) e k = absurd (cc k)

record IsFilled (is : List ℕ) (v v' : BitVec) : Type 0 where
  bitmap : IsBitmap v'
  size : v'.num_bits ≡ v.num_bits
  own : AreSet is v'
  kept : (j : ℕ) → get j v ≡ some true → get j v' ≡ some true

set_all-IsFilled :
    (is : List ℕ) (v : BitVec)
    → IsBitmap v
    → (v' : BitVec) × (set_all is v ≡ some v') × IsFilled is v v'
unfolding set_all
set_all-IsFilled [] v w = (v, refl, record { bitmap = w; size = refl; own = tt; kept = λ j h. h })
set_all-IsFilled (i ∷ is) v w =
    let s = set-IsSetOf i v w in
    let r = set_all-IsFilled is (s.0) s.2.bitmap in
    (
      r.0,
      rw (set_all, s.1) (r.1),
      record {
        bitmap = r.2.bitmap;
        size = r.2.size ∙ s.2.size;
        own = (r.2.kept i s.2.own, r.2.own);
        kept = λ j h. r.2.kept j (s.2.kept j h);
      },
    )

module _ (xxh3_128 : List ℕ → ℕ) (optimal_k : BloomFilterConfig → ℕ) where
  -- One filter grew into another: whatever it contained, it contains.
  record IsGrown (f f' : SsTableBloom) : Type 0 where
    bitmap : IsBitmap f'.bitmap
    indices :
        (key : List ℕ)
        → hash_indices xxh3_128 optimal_k key f' ≡ hash_indices xxh3_128 optimal_k key f
    kept : (j : ℕ) → get j f.bitmap ≡ some true → get j f'.bitmap ≡ some true

  may_contain_mono :
      (key : List ℕ) (f f' : SsTableBloom)
      → IsGrown f f'
      → may_contain xxh3_128 optimal_k key f ≡ some true
      → may_contain xxh3_128 optimal_k key f' ≡ some true
  unfolding may_contain
  may_contain_mono key f f' g h =
      let is = hash_indices xxh3_128 optimal_k key f in
      ap (λ t. all_set t f'.bitmap) (g.indices key)
      ∙ AreSet-all_set is f'.bitmap
          (AreSet-mono is f.bitmap f'.bitmap g.kept (all_set-AreSet is f.bitmap h))

  insert-IsGrown :
      (key : List ℕ) (f : SsTableBloom)
      → IsBitmap f.bitmap
      → (f' : SsTableBloom) × (insert xxh3_128 optimal_k key f ≡ some f')
        × IsGrown f f'
        × (may_contain xxh3_128 optimal_k key f' ≡ some true)
  unfolding insert may_contain hash_indices
  insert-IsGrown key f w =
      let r = set_all-IsFilled (hash_indices xxh3_128 optimal_k key f) f.bitmap w in
      let f' : SsTableBloom = record { bitmap = r.0; k = f.k; config = f.config } in
      let same : (other : List ℕ)
          → hash_indices xxh3_128 optimal_k other f' ≡ hash_indices xxh3_128 optimal_k other f =
        λ other. ap (indices_at other) r.2.size in
      (
        f',
        rw (insert, r.1) refl,
        record { bitmap = r.2.bitmap; indices = same; kept = r.2.kept },
        ap (λ t. all_set t (r.0)) (same key)
            ∙ AreSet-all_set (hash_indices xxh3_128 optimal_k key f) (r.0) r.2.own,
      )
    where
      indices_at : List ℕ → ℕ → List ℕ
      indices_at other n =
          hash_indices xxh3_128 optimal_k other
            (record { bitmap = record { bits = []; num_bits = n }; k = f.k; config = f.config })

  insert_all-IsGrown :
      (keys : List (List ℕ)) (f : SsTableBloom)
      → IsBitmap f.bitmap
      → (f' : SsTableBloom) × (insert_all xxh3_128 optimal_k keys f ≡ some f')
        × IsGrown f f'
        × All (λ key. may_contain xxh3_128 optimal_k key f' ≡ some true) keys
  unfolding insert_all
  insert_all-IsGrown [] f w =
      (f, refl, record { bitmap = w; indices = λ key. refl; kept = λ j h. h }, tt)
  insert_all-IsGrown (key ∷ keys) f w =
      let s = insert-IsGrown key f w in
      let r = insert_all-IsGrown keys (s.0) s.2.bitmap in
      let g : IsGrown f (r.0) = record {
        bitmap = r.2.bitmap;
        indices = λ other. r.2.indices other ∙ s.2.indices other;
        kept = λ j h. r.2.kept j (s.2.kept j h);
      } in
      (r.0, rw (insert_all, s.1) (r.1), g, (may_contain_mono key (s.0) (r.0) r.2 (s.3), r.3))

  new-IsBitmap :
      (expected_items : ℕ) (config : BloomFilterConfig)
      → max expected_items 1 * config.bits_per_key < 2 ^ 63
      → IsBitmap (new xxh3_128 optimal_k expected_items config).bitmap
  unfolding new with_capacity
  new-IsBitmap expected_items config h = sized (max expected_items 1 * config.bits_per_key) h
    where
      sized :
          (m : ℕ)
          → m < 2 ^ 63
          → IsBitmap (with_capacity ((max (m % 2 ^ 64) 64 + 7) % 2 ^ 64 / 8 * 8))
      sized m h =
          let n = (max (m % 2 ^ 64) 64 + 7) % 2 ^ 64 / 8 in
          let l = length-replicate {A = ℕ} ((n * 8 + 7) / 8) 0 in
          let p : 8 ≤ n = omega (arith, h) in
          record { whole = omega (arith, l); some_bits = omega (arith, p) }

  -- A filter of any size whose number of digits a word holds, filled with any keys: no index is out of range,
  -- and `may_contain` says yes of each of the keys.
  pub insert_all-may_contain :
      (expected_items : ℕ) (config : BloomFilterConfig) (keys : List (List ℕ))
      → max expected_items 1 * config.bits_per_key < 2 ^ 63
      → (f : SsTableBloom) × (insert_all xxh3_128 optimal_k keys
            (new xxh3_128 optimal_k expected_items config)
          ≡ some f)
        × All (λ key. may_contain xxh3_128 optimal_k key f ≡ some true) keys
  insert_all-may_contain expected_items config keys h =
      let r =
        insert_all-IsGrown keys (new xxh3_128 optimal_k expected_items config)
          (new-IsBitmap expected_items config h) in
      (r.0, r.1, r.3)

  -- A filter of whole bytes that finds these keys.
  pub record IsFilterOf (keys : List (List ℕ)) (f : SsTableBloom) : Type 0 where
    pub bitmap : IsBitmap f.bitmap
    pub found : All (λ key. may_contain xxh3_128 optimal_k key f ≡ some true) keys

  pub filled-IsFilterOf :
      (config : BloomFilterConfig) (keys : List (List ℕ))
      → max (length keys) 1 * config.bits_per_key < 2 ^ 63
      → (f : SsTableBloom) × (insert_all xxh3_128 optimal_k keys
            (new xxh3_128 optimal_k (length keys) config)
          ≡ some f)
        × IsFilterOf keys f
  filled-IsFilterOf config keys h =
      let r =
        insert_all-IsGrown keys (new xxh3_128 optimal_k (length keys) config)
          (new-IsBitmap (length keys) config h) in
      (r.0, r.1, record { bitmap = r.2.bitmap; found = r.3 })

  all_set-total : (is : List ℕ) (v : BitVec) → IsBitmap v → (b : Bool) × (all_set is v ≡ some b)
  unfolding all_set
  all_set-total [] v w = (true, refl)
  all_set-total (i ∷ is) v w =
      let g = get-total i v w in
      let rest = all_set-total is v w in
      elim (Bool-cases (g.0)) [
        | inl e ↦ (rest.0, rw (all_set, g.1, e) (rest.1))
        | inr e ↦ (false, rw (all_set, g.1, e) refl)
      ]

  -- A lookup in a filter of whole bytes returns.
  pub may_contain-total :
      (key : List ℕ) (f : SsTableBloom)
      → IsBitmap f.bitmap
      → (b : Bool) × (may_contain xxh3_128 optimal_k key f ≡ some b)
  unfolding may_contain
  may_contain-total key f w = all_set-total (hash_indices xxh3_128 optimal_k key f) f.bitmap w
