-- ===== src/Index/MinMax.antt =====
-- storage-node/src/index/minmax.rs: the least and the greatest value of each granule. A value is `none` for NULL, and
-- bytes are compared in lexicographic order.
use wow_db.Prelude.{
  ℕ, zero, ◌+◌, ◌*◌, ◌/◌, ◌%◌, ◌^◌, ◌<◌, ◌≡◌, ◌⊎◌, refl, ap, ◌∙◌, arith, Bool, true, false, not,
  ◌&&◌, Bool-cases, inl, inr, List, [], ◌∷◌, Option, none, some, length, get_elem?, Elem, Elem-cons,
  subst, here, there, if◌then◌else◌,
}
use wow_db.Prelude.Bytes.{bytes_leb, bytes_leb_refl, bytes_leb_trans, bytes_leb_total}
use wow_db.Index.{Kind, build, build-skips, candidates_from, Elem-candidates_from}

pub record GranuleMinMax : Type 0 where
  pub granule_idx : ℕ
  pub row_offset : ℕ
  pub row_count : ℕ
  pub min_val : Option (List ℕ)
  pub max_val : Option (List ℕ)

-- `chunk.iter().filter_map(|v| v.as_ref())`
unfoldable pub non_null : List (Option (List ℕ)) → List (List ℕ)
non_null [] = []
non_null (none ∷ vs) = non_null vs
non_null (some v ∷ vs) = v ∷ non_null vs

-- `min` and `max` of an iterator, from its first value on.
unfoldable pub least : List ℕ → List (List ℕ) → List ℕ
least m [] = m
least m (v ∷ vs) = least (if bytes_leb m v then m else v) vs

unfoldable pub greatest : List ℕ → List (List ℕ) → List ℕ
greatest m [] = m
greatest m (v ∷ vs) = greatest (if bytes_leb m v then v else m) vs

abbrev pub min_of : List (List ℕ) → Option (List ℕ)
min_of [] = none
min_of (v ∷ vs) = some (least v vs)

abbrev pub max_of : List (List ℕ) → Option (List ℕ)
max_of [] = none
max_of (v ∷ vs) = some (greatest v vs)

-- `size` is the granule size.
unfoldable pub granule_of : ℕ → ℕ → List (Option (List ℕ)) → GranuleMinMax
granule_of size i chunk = record {
  granule_idx = i % 2 ^ 32;
  row_offset = (i * size) % 2 ^ 64;
  row_count = length chunk % 2 ^ 32;
  min_val = min_of (non_null chunk);
  max_val = max_of (non_null chunk);
}

-- `a < b`, where both are given.
abbrev pub is_below : Option (List ℕ) → Option (List ℕ) → Bool
is_below (some a) (some b) = not (bytes_leb b a)
is_below _ _ = false

-- A range of values, each end of which may be open.
pub record Range : Type 0 where
  pub lo : Option (List ℕ)
  pub hi : Option (List ℕ)

unfoldable pub skips_range : Range → GranuleMinMax → Bool
skips_range q g = if is_below g.max_val q.lo then true else is_below q.hi g.min_val

-- `col >= lo AND col <= hi`; NULL is in no range.
abbrev pub in_range : Range → Option (List ℕ) → Bool
in_range q none = false
in_range q (some v) = not (is_below (some v) q.lo) && not (is_below q.hi (some v))

least-le :
    (m v : List ℕ) (vs : List (List ℕ))
    → (bytes_leb m v ≡ true) ⊎ Elem v vs
    → bytes_leb (least m vs) v ≡ true
unfolding least
least-le m v [] (inl h) = h
least-le m v [] (inr i) = elim i [ ]
least-le m v (x ∷ vs) (inl h) = elim (Bool-cases (bytes_leb m x)) [
  | inl e ↦ rw (e) (least-le m v vs (inl h))
  | inr e ↦
      let t : bytes_leb x m ≡ true = ground (arith, e, bytes_leb_total m x) in
      rw (e) (least-le x v vs (inl (bytes_leb_trans x m v t h)))
]
least-le m v (_ ∷ vs) (inr here) = elim (Bool-cases (bytes_leb m v)) [
  | inl e ↦ rw (e) (least-le m v vs (inl e))
  | inr e ↦ rw (e) (least-le v v vs (inl (bytes_leb_refl v)))
]
least-le m v (x ∷ vs) (inr (there i)) = least-le (if bytes_leb m x then m else x) v vs (inr i)

greatest-ge :
    (m v : List ℕ) (vs : List (List ℕ))
    → (bytes_leb v m ≡ true) ⊎ Elem v vs
    → bytes_leb v (greatest m vs) ≡ true
unfolding greatest
greatest-ge m v [] (inl h) = h
greatest-ge m v [] (inr i) = elim i [ ]
greatest-ge m v (x ∷ vs) (inl h) = elim (Bool-cases (bytes_leb m x)) [
  | inl e ↦ rw (e) (greatest-ge x v vs (inl (bytes_leb_trans v m x h e)))
  | inr e ↦ rw (e) (greatest-ge m v vs (inl h))
]
greatest-ge m v (_ ∷ vs) (inr here) = elim (Bool-cases (bytes_leb m v)) [
  | inl e ↦ rw (e) (greatest-ge v v vs (inl (bytes_leb_refl v)))
  | inr e ↦
      let t : bytes_leb v m ≡ true = ground (arith, e, bytes_leb_total m v) in
      rw (e) (greatest-ge m v vs (inl t))
]
greatest-ge m v (x ∷ vs) (inr (there i)) = greatest-ge (if bytes_leb m x then x else m) v vs (inr i)

Elem-non_null :
    (v : List ℕ) (chunk : List (Option (List ℕ))) → Elem (some v) chunk → Elem v (non_null chunk)
unfolding non_null
Elem-non_null v [] i = elim i [ ]
Elem-non_null v (_ ∷ vs) here = here
Elem-non_null v (none ∷ vs) (there i) = Elem-non_null v vs i
Elem-non_null v (some x ∷ vs) (there i) = there (Elem-non_null v vs i)

not_below_lo :
    (lo : Option (List ℕ)) (v greatest : List ℕ)
    → bytes_leb v greatest ≡ true
    → is_below (some v) lo ≡ false
    → is_below (some greatest) lo ≡ false
not_below_lo none v g k h = refl
not_below_lo (some l) v g k h =
    let lv : bytes_leb l v ≡ true = ground (arith, h) in
    let lg : bytes_leb l g ≡ true = bytes_leb_trans l v g lv k in ap not lg

not_below_hi :
    (hi : Option (List ℕ)) (v least : List ℕ)
    → bytes_leb least v ≡ true
    → is_below hi (some v) ≡ false
    → is_below hi (some least) ≡ false
not_below_hi none v m k h = refl
not_below_hi (some u) v m k h =
    let vu : bytes_leb v u ≡ true = ground (arith, h) in
    let mu : bytes_leb m u ≡ true = bytes_leb_trans m v u k vu in ap not mu

-- A granule with a value in the range is not skipped.
not_skipped :
    (q : Range) (v : List ℕ) (vs : List (List ℕ))
    → Elem v vs
    → in_range q (some v) ≡ true
    → (if is_below (max_of vs) q.lo then true else is_below q.hi (min_of vs)) ≡ false
not_skipped q v [] i h = elim i [ ]
not_skipped q v (x ∷ vs) i h =
    let not_lo : is_below (some v) q.lo ≡ false = ground (arith, h) in
    let not_hi : is_below q.hi (some v) ≡ false = ground (arith, h) in
    let low = least-le x v vs (elim (Elem-cons i) [
      | inl e ↦ inl (ap (bytes_leb x) e ∙ bytes_leb_refl x)
      | inr j ↦ inr j
    ]) in
    let high = greatest-ge x v vs (elim (Elem-cons i) [
      | inl e ↦ inl (ap (λ t. bytes_leb t x) e ∙ bytes_leb_refl x)
      | inr j ↦ inr j
    ]) in
    rw (not_below_lo q.lo v (greatest x vs) high not_lo)
      (not_below_hi q.hi v (least x vs) low not_hi)

pub skips_range-in_range :
    (size : ℕ) (q : Range) (i : ℕ) (chunk : List (Option (List ℕ))) (a : Option (List ℕ))
    → Elem a chunk
    → in_range q a ≡ true
    → skips_range q (granule_of size i chunk) ≡ false
unfolding skips_range granule_of
skips_range-in_range size q i chunk none e h = absurd (cc h)
skips_range-in_range size q i chunk (some v) e h =
    not_skipped q v (non_null chunk) (Elem-non_null v chunk e) h

abbrev pub min_max : ℕ → Kind (Option (List ℕ)) Range GranuleMinMax
min_max size = record { of_granule = granule_of size; skips = skips_range; matches = in_range }

unfoldable pub build_bytes : ℕ → List (Option (List ℕ)) → Option (List GranuleMinMax)
build_bytes size values = build (min_max size) size values

unfoldable pub candidate_granules_range : Range → List GranuleMinMax → List ℕ
candidate_granules_range q gs = candidates_from (min_max 0) 0 q gs

abbrev pub candidate_granules_eq : List ℕ → List GranuleMinMax → List ℕ
candidate_granules_eq v gs = candidate_granules_range (record { lo = some v; hi = some v }) gs

-- With a granule size above 0 the index of any values, NULLs included, is built, and the granule of every row whose
-- value is in the range is among the candidates.
pub candidate_granules_range-build_bytes :
    (size p : ℕ) (values : List (Option (List ℕ))) (v : List ℕ) (q : Range)
    → zero < size
    → get_elem? values p ≡ some (some v)
    → in_range q (some v) ≡ true
    → (gs : List GranuleMinMax) × (build_bytes size values ≡ some gs)
      × Elem (p / size) (candidate_granules_range q gs)
unfolding build_bytes candidate_granules_range
candidate_granules_range-build_bytes size p values v q z g h =
    let r = build-skips (min_max size) (skips_range-in_range size) size p values (some v) q z g h in
    let e : 0 + p / size ≡ p / size = omega arith in
    (
      r.0,
      r.2,
      subst (λ n. Elem n (candidates_from (min_max 0) 0 q r.0)) e
          (Elem-candidates_from (min_max 0) q 0 r.0 (p / size) r.1 r.3 r.4),
    )
