-- ===== src/Index.antt =====
-- storage-node/src/index/: the indexes that keep something for each granule of the rows and tell from it which granules
-- a query can skip. What is kept, and the test, are those of the kind of index.
pub mod MinMax
pub mod Set
pub mod NgramBf
use wow_db.Prelude.{
  ℕ, zero, suc, ◌+◌, ◌-◌, ◌*◌, ◌/◌, ◌<◌, ◌≡◌, refl, ap, sym, subst, Bool-cases, inl, inr, ◌∙◌,
  arith, Bool, true, false, List, [], ◌∷◌, Option, none, some, map, length, get_elem?, Elem, here,
  there, nat_beq, if◌then◌else◌,
}
use wow_db.Prelude.Slices.{slice, slices, div_ceil, Elem-slice, get-slices, slice_lt, get-lt}

-- A kind of index over values `A`: what it keeps of the granule with a number, and which queries skip it.
pub record Kind (A Q G : Type 0) : Type 0 where
  pub of_granule : ℕ → List A → G
  pub skips : Q → G → Bool
  pub matches : Q → A → Bool

-- A granule with a value that matches is never skipped.
abbrev pub IsSound : {A Q G : Type 0} → Kind A Q G → Type 0
IsSound {A} {Q} {G} kind =
    (q : Q) (i : ℕ) (granule : List A) (a : A)
    → Elem a granule
    → kind.matches q a ≡ true
    → kind.skips q (kind.of_granule i granule) ≡ false

module _ {A Q G : Type 0} (kind : Kind A Q G) where
  open kind use {of_granule, skips, matches}

  unfoldable pub build_from : ℕ → List (List A) → List G
  build_from i [] = []
  build_from i (granule ∷ granules) = of_granule i granule ∷ build_from (i + 1) granules

  -- A granule size of 0 panics.
  unfoldable pub build : ℕ → List A → Option (List G)
  build granule_size values =
      if nat_beq granule_size 0
      then none
      else some
          (build_from 0 (slices granule_size 0 (div_ceil (length values) granule_size) values))

  -- One test for each granule.
  unfoldable pub skip_mask : Q → List G → List Bool
  skip_mask q = map (skips q)

  -- The numbers of the granules that are not skipped, from `i` on.
  unfoldable pub candidates_from : ℕ → Q → List G → List ℕ
  candidates_from i q [] = []
  candidates_from i q (g ∷ gs) =
      let rest = candidates_from (i + 1) q gs in if skips q g then rest else i ∷ rest

  get-build_from :
      (i p : ℕ) (granules : List (List A)) (c : List A)
      → get_elem? granules p ≡ some c
      → get_elem? (build_from i granules) p ≡ some (of_granule (i + p) c)
  unfolding build_from
  get-build_from i p [] c g = absurd (cc g)
  get-build_from i zero (x ∷ granules) c g =
      let e : x ≡ c = cc g in
      let j : i ≡ i + 0 = omega arith in
      ap (λ t. some (of_granule i t)) e ∙ ap (λ k. some (of_granule k c)) j
  get-build_from i (suc p) (x ∷ granules) c g =
      let j : i + 1 + p ≡ i + suc p = omega arith in
      get-build_from (i + 1) p granules c g ∙ ap (λ k. some (of_granule k c)) j

  zero_add : (k : ℕ) → 0 + k ≡ k
  zero_add k = omega arith

  -- With a granule size above 0 the index is built, and the granule of a row whose value matches is there and not
  -- skipped.
  pub build-skips :
      (sound : IsSound kind) (n p : ℕ) (values : List A) (a : A) (q : Q)
      → zero < n
      → get_elem? values p ≡ some a
      → matches q a ≡ true
      → (gs : List G) × (g : G) × (build n values ≡ some gs)
        × (get_elem? gs (p / n) ≡ some g)
        × (skips q g ≡ false)
  unfolding build
  build-skips sound n p values a q z r h =
      let granules = slices n 0 (div_ceil (length values) n) values in
      let k = p / n in
      let at : get_elem? granules k ≡ some (slice n k values) =
        get-slices n 0 k (div_ceil (length values) n) values
          (slice_lt (length values) n p z (get-lt p values a r))
        ∙ ap (λ j. some (slice n j values)) (zero_add k) in
      let nz : nat_beq n 0 ≡ false = ground (arith, z) in
      (
        build_from 0 granules,
        of_granule k (slice n k values),
        rw (build, nz) refl,
        get-build_from 0 k granules (slice n k values) at
            ∙ ap (λ j. some (of_granule j (slice n k values))) (zero_add k),
        sound q k (slice n k values) a (Elem-slice n p values a z r) h,
      )

  pub get-skip_mask :
      (q : Q) (gs : List G) (k : ℕ) (g : G)
      → get_elem? gs k ≡ some g
      → get_elem? (skip_mask q gs) k ≡ some (skips q g)
  unfolding skip_mask
  get-skip_mask q [] k g h = absurd (cc h)
  get-skip_mask q (x ∷ gs) zero g h = let e : x ≡ g = cc h in ap (λ t. some (skips q t)) e
  get-skip_mask q (x ∷ gs) (suc k) g h = get-skip_mask q gs k g h

  pub Elem-candidates_from :
      (q : Q) (i : ℕ) (gs : List G) (k : ℕ) (g : G)
      → get_elem? gs k ≡ some g
      → skips q g ≡ false
      → Elem (i + k) (candidates_from i q gs)
  unfolding candidates_from
  Elem-candidates_from q i [] k g h s = absurd (cc h)
  Elem-candidates_from q i (x ∷ gs) zero g h s =
      let e : g ≡ x = cc h in
      let t : skips q x ≡ false = ap (skips q) (sym e) ∙ s in
      let j : i ≡ i + 0 = omega arith in
      rw (t) (subst (λ n. Elem n (i ∷ candidates_from (i + 1) q gs)) j here)
  Elem-candidates_from q i (x ∷ gs) (suc k) g h s =
      let j : i + 1 + k ≡ i + suc k = omega arith in
      let rest =
        subst (λ n. Elem n (candidates_from (i + 1) q gs)) j
          (Elem-candidates_from q (i + 1) gs k g h s) in
      elim (Bool-cases (skips q x)) [ inl e ↦ rw (e) rest | inr e ↦ rw (e) (there rest) ]
