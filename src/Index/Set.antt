-- ===== src/Index/Set.antt =====
-- storage-node/src/index/set_index.rs: the set of the values of each granule, up to a size. A `HashSet` is a list.
use wow_db.Prelude.{
  ℕ, zero, ◌/◌, ◌<◌, ◌≡◌, ◌⊎◌, refl, ap, sym, ◌∙◌, arith, String, string_eq, ◌==◌, ==_iff, ==_refl,
  Bool, true, false, not, ◌&&◌, ◌||◌, Bool-cases, inl, inr, List, [], ◌∷◌, Option, some, any, all,
  length, ltb, get_elem?, Elem, here, there, if◌then◌else◌,
}
use wow_db.Index.{Kind, build, build-skips, skip_mask, get-skip_mask}

pub record GranuleSetIndex : Type 0 where
  pub values : List String
  pub max_values : ℕ
  pub overflow : Bool

abbrev pub new_set : ℕ → GranuleSetIndex
new_set max_values = record { values = []; max_values = max_values; overflow = false }

abbrev pub contains : String → List String → Bool
contains v = any (λ u. u == v)

-- `HashSet::insert`
abbrev pub with_value : String → List String → List String
with_value v vs = if contains v vs then vs else v ∷ vs

unfoldable pub insert_value : String → GranuleSetIndex → GranuleSetIndex
insert_value v g =
    if g.overflow
    then g
    else if ltb g.max_values (length (with_value v g.values))
    then record g { values = []; overflow = true }
    else record g { values = with_value v g.values }

unfoldable pub insert_values : List String → GranuleSetIndex → GranuleSetIndex
insert_values [] g = g
insert_values (v ∷ vs) g = insert_values vs (insert_value v g)

unfoldable pub can_skip_in : List String → GranuleSetIndex → Bool
can_skip_in candidates g =
    if g.overflow then false else all (λ v. not (contains v g.values)) candidates

unfoldable pub can_skip_eq : String → GranuleSetIndex → Bool
can_skip_eq v g = if g.overflow then false else not (contains v g.values)

abbrev pub is_empty : List String → Bool
is_empty [] = true
is_empty (v ∷ vs) = false

unfoldable pub can_skip_not_in : List String → GranuleSetIndex → Bool
can_skip_not_in excluded g =
    if g.overflow then false else not (is_empty g.values) && all (λ v. contains v excluded) g.values

-- The conditions on the column that the index knows.
pub data Condition : Type 0 where
  is_in not_in : List String → Condition
  is_equal : String → Condition

abbrev pub can_skip : Condition → GranuleSetIndex → Bool
can_skip (is_in candidates) = can_skip_in candidates
can_skip (not_in excluded) = can_skip_not_in excluded
can_skip (is_equal v) = can_skip_eq v

abbrev pub holds : Condition → String → Bool
holds (is_in candidates) v = contains v candidates
holds (not_in excluded) v = not (contains v excluded)
holds (is_equal u) v = u == v

-- The set has overflown, or it has the value.
abbrev Knows : GranuleSetIndex → String → Type 0
Knows g v = (g.overflow ≡ true) ⊎ (contains v g.values ≡ true)

contains-with_value :
    (u v : String) (vs : List String) → contains u (with_value v vs) ≡ ((v == u) || contains u vs)
unfolding any
contains-with_value u v vs = elim (Bool-cases (contains v vs)) [
  | inl e ↦ rw (e) (elim (Bool-cases (v == u)) [
    | inl s ↦
        let there_is : contains u vs ≡ true =
          ap (λ t. contains t vs) (sym ((==_iff v u).0 s)) ∙ e in
        rw (s) there_is
    | inr s ↦ rw (s) refl
  ])
  | inr e ↦ rw (e) refl
]

insert_value-Knows :
    (u v : String) (g : GranuleSetIndex)
    → ((v == u) ≡ true) ⊎ Knows g u
    → Knows (insert_value v g) u
unfolding insert_value
insert_value-Knows u v g h = elim (Bool-cases g.overflow) [
  | inl o ↦ rw (o) (inl refl)
  | inr o ↦
      let there_is : contains u (with_value v g.values) ≡ true =
        contains-with_value u v g.values ∙ known h o in
      elim (Bool-cases (ltb g.max_values (length (with_value v g.values)))) [
        | inl l ↦ rw (o, l) (inl refl)
        | inr l ↦ rw (o, l) (inr there_is)
      ]
]
  where
    known :
        ((v == u) ≡ true) ⊎ Knows g u
        → g.overflow ≡ false
        → ((v == u) || contains u g.values) ≡ true
    known (inl e) o = rw (e) refl
    known (inr (inl k)) o = absurd (cc (k, o))
    known (inr (inr k)) o = ground (arith, k)

insert_values-Knows :
    (u : String) (vs : List String) (g : GranuleSetIndex)
    → Elem u vs ⊎ Knows g u
    → Knows (insert_values vs g) u
unfolding insert_values
insert_values-Knows u [] g (inl e) = elim e [ ]
insert_values-Knows u [] g (inr k) = k
insert_values-Knows u (_ ∷ vs) g (inl here) =
    insert_values-Knows u vs (insert_value u g) (inr (insert_value-Knows u u g (inl (==_refl u))))
insert_values-Knows u (v ∷ vs) g (inl (there e)) =
    insert_values-Knows u vs (insert_value v g) (inl e)
insert_values-Knows u (v ∷ vs) g (inr k) =
    insert_values-Knows u vs (insert_value v g) (inr (insert_value-Knows u v g (inr k)))

-- Some value of a list is in a set: the list is not apart from it.
in_both :
    (v : String) (cs vs : List String)
    → contains v cs ≡ true
    → contains v vs ≡ true
    → all (λ u. not (contains u vs)) cs ≡ false
unfolding any all
in_both v [] vs h k = absurd (cc h)
in_both v (c ∷ cs) vs h k = elim (Bool-cases (c == v)) [
  | inl e ↦
      let there_is : contains c vs ≡ true = ap (λ t. contains t vs) ((==_iff c v).0 e) ∙ k in
      rw (there_is) refl
  | inr e ↦ let rest = in_both v cs vs (ground (arith, h, e)) k in ground (arith, rest)
]

left_out :
    (v : String) (vs excluded : List String)
    → contains v vs ≡ true
    → contains v excluded ≡ false
    → all (λ u. contains u excluded) vs ≡ false
unfolding any all
left_out v [] excluded h k = absurd (cc h)
left_out v (x ∷ vs) excluded h k = elim (Bool-cases (x == v)) [
  | inl e ↦
      let out : contains x excluded ≡ false =
        ap (λ t. contains t excluded) ((==_iff x v).0 e) ∙ k in
      rw (out) refl
  | inr e ↦ let rest = left_out v vs excluded (ground (arith, h, e)) k in ground (arith, rest)
]

can_skip-Knows :
    (q : Condition) (g : GranuleSetIndex) (v : String)
    → Knows g v
    → holds q v ≡ true
    → can_skip q g ≡ false
unfolding can_skip_in can_skip_eq can_skip_not_in
can_skip-Knows (is_in cs) g v (inl o) h = rw (o) refl
can_skip-Knows (is_in cs) g v (inr k) h = let b = in_both v cs g.values h k in ground (arith, b)
can_skip-Knows (is_equal u) g v (inl o) h = rw (o) refl
can_skip-Knows (is_equal u) g v (inr k) h =
    let b : contains u g.values ≡ true = ap (λ t. contains t g.values) ((==_iff u v).0 h) ∙ k in
    ground (arith, b)
can_skip-Knows (not_in cs) g v (inl o) h = rw (o) refl
can_skip-Knows (not_in cs) g v (inr k) h =
    let b = left_out v g.values cs k (ground (arith, h)) in ground (arith, b)

pub can_skip-holds :
    (max_values : ℕ) (q : Condition) (i : ℕ) (granule : List String) (v : String)
    → Elem v granule
    → holds q v ≡ true
    → can_skip q (insert_values granule (new_set max_values)) ≡ false
can_skip-holds max_values q i granule v e h =
    can_skip-Knows q (insert_values granule (new_set max_values)) v
      (insert_values-Knows v granule (new_set max_values) (inl e)) h

abbrev pub set_index : ℕ → Kind String Condition GranuleSetIndex
set_index max_values = record {
  of_granule = λ i granule. insert_values granule (new_set max_values);
  skips = can_skip;
  matches = holds;
}

-- `build` cuts the values into granules, and `push_granule` adds one.
unfoldable pub build_sets : ℕ → ℕ → List String → Option (List GranuleSetIndex)
build_sets granule_size max_values values = build (set_index max_values) granule_size values

-- The test of each granule: `skip_mask_in` and `skip_mask_eq`, and likewise `can_skip_not_in` of each.
unfoldable pub set_mask : Condition → List GranuleSetIndex → List Bool
set_mask q gs = skip_mask (set_index 0) q gs

-- With a granule size above 0 the index of any values is built, however few values a set may have, and the mask keeps
-- the granule of every row whose value the condition holds of: IN, NOT IN or equal.
pub set_mask-build_sets :
    (granule_size max_values p : ℕ) (values : List String) (v : String) (q : Condition)
    → zero < granule_size
    → get_elem? values p ≡ some v
    → holds q v ≡ true
    → (gs : List GranuleSetIndex) × (build_sets granule_size max_values values ≡ some gs)
      × (get_elem? (set_mask q gs) (p / granule_size) ≡ some false)
unfolding build_sets set_mask
set_mask-build_sets granule_size max_values p values v q z g h =
    let r =
      build-skips (set_index max_values) (can_skip-holds max_values) granule_size p values v q z g
        h in
    (r.0, r.2, get-skip_mask (set_index 0) q r.0 (p / granule_size) r.1 r.3 ∙ ap some r.4)
