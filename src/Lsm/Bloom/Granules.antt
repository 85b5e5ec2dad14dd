-- ===== src/Lsm/Bloom/Granules.antt =====
-- storage-node/src/lsm/bloom.rs: `GranuleBloomIndex`, a filter for each granule of the rows. `none` is a panic.
use native.Mathlib.Nat.{add-mul-div_right, mul-le-mul_right, div-eq_of_lt}
use wow_db.Prelude.{
  ℕ, zero, suc, ◌+◌, ◌-◌, ◌*◌, ◌/◌, ◌^◌, ◌≤◌, ◌<◌, max, ◌≡◌, refl, ap, sym, subst, ◌∙◌, arith, Bool,
  true, false, Bool-cases, inl, inr, List, [], ◌∷◌, Option, none, some, length, length-take-le, ltb,
  take, drop, get_elem?, All, All-Elem, Elem, here, there, nat_beq, if◌then◌else◌,
}
use wow_db.Prelude.Slices.{Elem-take, get-drop_from, length-drop_le}
use wow_db.Lsm.Bloom.{BloomFilterConfig, SsTableBloom, new, may_contain, insert_all}
use wow_db.Lsm.Bloom.Members.{IsFilterOf, filled-IsFilterOf, may_contain-total}

pub record GranuleBloomIndex : Type 0 where
  pub granule_size : ℕ
  pub filters : List SsTableBloom
  pub config : BloomFilterConfig

unfoldable pub with_config : ℕ → BloomFilterConfig → GranuleBloomIndex
with_config granule_size config = record {
  granule_size = granule_size;
  filters = [];
  config = config;
}

-- `keys.chunks(n)` for `n` above 0: fuel for every key is enough.
unfoldable pub chunks : ℕ → ℕ → List (List ℕ) → List (List (List ℕ))
chunks n fuel [] = []
chunks n zero (key ∷ keys) = []
chunks n (suc fuel) (key ∷ keys) = take n (key ∷ keys) ∷ chunks n fuel (drop n (key ∷ keys))

-- The key at place `p` is in chunk `p / n`.
get-chunks :
    (n fuel p : ℕ) (keys : List (List ℕ)) (key : List ℕ)
    → length keys ≤ fuel
    → get_elem? keys p ≡ some key
    → (c : List (List ℕ)) × (get_elem? (chunks (suc n) fuel keys) (p / suc n) ≡ some c) × Elem key c
unfolding chunks
get-chunks n fuel p [] key l g = absurd (cc g)
get-chunks n zero p (k ∷ keys) key l g = absurd (omega (arith, l))
get-chunks n (suc fuel) p (k ∷ keys) key l g = elim (Bool-cases (ltb p (suc n))) [
  | inl e ↦
      let low : p < suc n = ground (arith, e) in
      let z : p / suc n ≡ 0 = div-eq_of_lt low in
      (take (suc n) (k ∷ keys), rw z refl, Elem-take (suc n) p (k ∷ keys) key low g)
  | inr e ↦
      let high : suc n ≤ p = ground (arith, e) in
      let s : p ≡ (p - suc n) + 1 * suc n = omega (arith, high) in
      let d : p / suc n ≡ suc ((p - suc n) / suc n) =
        ap (λ t. t / suc n) s ∙ add-mul-div_right (p - suc n) 1 (omega arith) ∙ omega arith in
      let r =
        get-chunks n fuel (p - suc n) (drop n keys) key (omega (arith, l, length-drop_le n keys))
          (sym (get-drop_from (suc n) p (k ∷ keys) high) ∙ g) in
      (r.0, rw d (r.1), r.2)
]

abbrev AreShort : ℕ → List (List (List ℕ)) → Type 0
AreShort n = All (λ (c : List (List ℕ)). length c ≤ n)

chunks-AreShort : (n fuel : ℕ) (keys : List (List ℕ)) → AreShort n (chunks n fuel keys)
unfolding chunks
chunks-AreShort n fuel [] = tt
chunks-AreShort n zero (k ∷ keys) = tt
chunks-AreShort n (suc fuel) (k ∷ keys) =
    (length-take-le n (k ∷ keys), chunks-AreShort n fuel (drop n (k ∷ keys)))

module _ (xxh3_128 : List ℕ → ℕ) (optimal_k : BloomFilterConfig → ℕ) where
  unfoldable pub build_filters :
      BloomFilterConfig → List (List (List ℕ)) → Option (List SsTableBloom)
  build_filters config [] = some []
  build_filters config (chunk ∷ rest) =
      elim (insert_all xxh3_128 optimal_k chunk (new xxh3_128 optimal_k (length chunk) config)) [
        | none ↦ none
        | some f ↦ elim (build_filters config rest) [ none ↦ none | some fs ↦ some (f ∷ fs) ]
      ]

  -- `chunks(0)` panics.
  unfoldable pub build : List (List ℕ) → GranuleBloomIndex → Option GranuleBloomIndex
  build keys index =
      if nat_beq index.granule_size 0
      then none
      else elim (build_filters index.config (chunks index.granule_size (length keys) keys)) [
        | none ↦ none
        | some fs ↦
            some (record { granule_size = index.granule_size; filters = fs; config = index.config })
      ]

  -- `enumerate` and `filter_map`, from granule `i` on.
  unfoldable pub candidates_from : ℕ → List ℕ → List SsTableBloom → Option (List ℕ)
  candidates_from i key [] = some []
  candidates_from i key (f ∷ fs) = elim (may_contain xxh3_128 optimal_k key f) [
    | none ↦ none
    | some b ↦ elim (candidates_from (i + 1) key fs) [
      | none ↦ none
      | some rest ↦ some (if b then i ∷ rest else rest)
    ]
  ]

  unfoldable pub candidate_granules : List ℕ → GranuleBloomIndex → Option (List ℕ)
  candidate_granules key index = candidates_from 0 key index.filters

  -- The chunks, each small enough for a filter.
  abbrev AreSized : BloomFilterConfig → List (List (List ℕ)) → Type 0
  AreSized config = All (λ (c : List (List ℕ)). max (length c) 1 * config.bits_per_key < 2 ^ 63)

  -- Every key is found at its chunk.
  abbrev FindsAll : List (List (List ℕ)) → List SsTableBloom → Type 0
  FindsAll cs fs =
      (i : ℕ) (key : List ℕ)
      → (out : List ℕ) × (candidates_from i key fs ≡ some out)
        × ((q : ℕ) (c : List (List ℕ)) → get_elem? cs q ≡ some c → Elem key c → Elem (i + q) out)

  cons-FindsAll :
      (c : List (List ℕ)) (cs : List (List (List ℕ))) (f : SsTableBloom) (fs : List SsTableBloom)
      → IsFilterOf xxh3_128 optimal_k c f
      → FindsAll cs fs
      → FindsAll (c ∷ cs) (f ∷ fs)
  unfolding candidates_from
  cons-FindsAll c cs f fs w h i key =
      let b = may_contain-total xxh3_128 optimal_k key f w.bitmap in
      let rest = h (i + 1) key in
      (
        (if b.0 then i ∷ rest.0 else rest.0),
        rw (candidates_from, b.1, rest.1) refl,
        placed (b.0) (rest.0) b.1 (rest.2),
      )
    where
      placed :
          (b : Bool) (rest : List ℕ)
          → may_contain xxh3_128 optimal_k key f ≡ some b
          → ((q : ℕ) (c' : List (List ℕ))
              → get_elem? cs q ≡ some c'
              → Elem key c'
              → Elem ((i + 1) + q) rest)
          → (q : ℕ) (c' : List (List ℕ)) → get_elem? (c ∷ cs) q ≡ some c'
          → Elem key c'
          → Elem (i + q) (if b then i ∷ rest else rest)
      placed b rest e h zero c' g m =
          let same : c' ≡ c = cc g in
          let yes : b ≡ true = cc (
            e,
            All-Elem (λ k. may_contain xxh3_128 optimal_k k f ≡ some true) (subst (Elem key) same m)
                w.found,
          ) in
          let k : i ≡ i + 0 = omega arith in rw yes (subst (λ t. Elem t (i ∷ rest)) k here)
      placed true rest e h (suc q) c' g m =
          let k : (i + 1) + q ≡ i + suc q = omega arith in
          subst (λ t. Elem t (i ∷ rest)) k (there (h q c' g m))
      placed false rest e h (suc q) c' g m =
          let k : (i + 1) + q ≡ i + suc q = omega arith in subst (λ t. Elem t rest) k (h q c' g m)

  build_filters-FindsAll :
      (config : BloomFilterConfig) (cs : List (List (List ℕ)))
      → AreSized config cs
      → (fs : List SsTableBloom) × (build_filters config cs ≡ some fs) × FindsAll cs fs
  unfolding build_filters candidates_from
  build_filters-FindsAll config [] a = ([], refl, λ i key. ([], refl, λ q c g m. absurd (cc g)))
  build_filters-FindsAll config (c ∷ cs) a =
      let f = filled-IsFilterOf xxh3_128 optimal_k config c a.0 in
      let r = build_filters-FindsAll config cs a.1 in
      (f.0 ∷ r.0, rw (build_filters, f.1, r.1) refl, cons-FindsAll c cs (f.0) (r.0) (f.2) (r.2))

  AreShort-AreSized :
      (n : ℕ) (config : BloomFilterConfig) (cs : List (List (List ℕ)))
      → suc n * config.bits_per_key < 2 ^ 63
      → AreShort (suc n) cs
      → AreSized config cs
  AreShort-AreSized n config [] h a = tt
  AreShort-AreSized n config (c ∷ cs) h a =
      let m : max (length c) 1 * config.bits_per_key ≤ suc n * config.bits_per_key =
        mul-le-mul_right config.bits_per_key (ground (arith, a.0)) in
      (omega (arith, m, h), AreShort-AreSized n config cs h a.1)

  -- A granule size above 0 whose filters a word can size: building the index of any keys returns one, and a
  -- lookup of any of the keys returns granules among which is the one that the key is in.
  pub build-candidate_granules :
      (n : ℕ) (config : BloomFilterConfig) (keys : List (List ℕ))
      → suc n * config.bits_per_key < 2 ^ 63
      → (index : GranuleBloomIndex) × (build keys (with_config (suc n) config) ≡ some index)
        × ((p : ℕ) (key : List ℕ)
            → get_elem? keys p ≡ some key
            → (out : List ℕ) × (candidate_granules key index ≡ some out) × Elem (p / suc n) out)
  unfolding build with_config candidate_granules
  build-candidate_granules n config keys h =
      let cs = chunks (suc n) (length keys) keys in
      let r =
        build_filters-FindsAll config cs
          (AreShort-AreSized n config cs h (chunks-AreShort (suc n) (length keys) keys)) in
      let z : nat_beq (suc n) 0 ≡ false = ground arith in
      (
        record { granule_size = suc n; filters = r.0; config = config },
        rw (build, z, r.1) refl,
        λ p key g.
            let c = get-chunks n (length keys) p keys key (omega arith) g in
            let out = r.2 0 key in
            let k : 0 + p / suc n ≡ p / suc n = omega arith in
            (out.0, out.1, subst (λ t. Elem t (out.0)) k (out.2 (p / suc n) (c.0) (c.1) (c.2))),
      )
