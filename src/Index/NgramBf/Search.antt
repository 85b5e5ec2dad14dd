-- ===== src/Index/NgramBf/Search.antt =====
-- storage-node/src/index/ngrambf.rs: no granule with a text around the needle is skipped.
use wow_db.Prelude.{
  ℕ, zero, ◌+◌, ◌-◌, ◌/◌, ◌^◌, ◌<◌, ◌≤◌, max, ◌≡◌, ◌⊎◌, refl, ap, sym, subst, ◌∙◌, arith, true,
  false, not, Bool-cases, inl, inr, List, [], ◌∷◌, some, any, All, length, ltb, get_elem?, map,
  Option, suc, Option-cases, Elem, here, there,
}
use wow_db.Prelude.Slices.{slices, div_ceil}
use wow_db.Index.{build, build_from, build-skips}
use wow_db.Index.NgramBf.{
  Blooms, less_one, grams, ngrams, total_ngrams, is_infix, NgramBfGranule, set_all, insert_text,
  insert_texts, new_granule, skips_made, all_made, can_skip_contains, text_granule, ngram_index,
  build_texts, contains_mask,
}
use wow_db.Index.NgramBf.Grams.{infix-append, grams-Elem}

get-map {ℓ κ} :
    {A : Type ℓ} {B : Type κ} (f : A → B) (xs : List A) (k : ℕ) (x : A)
    → get_elem? xs k ≡ some x
    → get_elem? (map f xs) k ≡ some (f x)
get-map f [] k x h = absurd (cc h)
get-map f (y ∷ xs) zero x h = let e : y ≡ x = cc h in ap (λ z. some (f z)) e
get-map f (y ∷ xs) (suc k) x h = get-map f xs k x h

module _ (blooms : Blooms) where
  open blooms use {
    Bloom, is_rate, new_for_fp_rate, set, check, check-set_same, check-set, new_for_fp_rate-some,
  }

  set_all-check :
      (x : List ℕ) (xs : List (List ℕ)) (b : Bloom)
      → Elem x xs ⊎ (check x b ≡ true)
      → check x (set_all blooms xs b) ≡ true
  unfolding set_all
  set_all-check x [] b (inl e) = elim e [ ]
  set_all-check x [] b (inr h) = h
  set_all-check x (_ ∷ xs) b (inl here) = set_all-check x xs (set x b) (inr (check-set_same x b))
  set_all-check x (y ∷ xs) b (inl (there e)) = set_all-check x xs (set y b) (inl e)
  set_all-check x (y ∷ xs) b (inr h) = set_all-check x xs (set y b) (inr (check-set x y b h))

  insert_texts-check :
      (x s : List ℕ) (chunk : List (List ℕ)) (g : NgramBfGranule blooms)
      → (Elem s chunk × Elem x (ngrams s g.n)) ⊎ (check x g.bloom ≡ true)
      → check x (insert_texts blooms chunk g).bloom ≡ true
  unfolding insert_texts insert_text
  insert_texts-check x s [] g (inl e) = elim (e.0) [ ]
  insert_texts-check x s [] g (inr h) = h
  insert_texts-check x s (_ ∷ chunk) g (inl (here, e)) =
      insert_texts-check x s chunk (insert_text blooms s g)
        (inr (set_all-check x (ngrams s g.n) g.bloom (inl e)))
  insert_texts-check x s (t ∷ chunk) g (inl (there i, e)) =
      insert_texts-check x s chunk (insert_text blooms t g) (inl (i, e))
  insert_texts-check x s (t ∷ chunk) g (inr h) =
      insert_texts-check x s chunk (insert_text blooms t g)
        (inr (set_all-check x (ngrams t g.n) g.bloom (inr h)))

  insert_texts-n :
      (chunk : List (List ℕ)) (g : NgramBfGranule blooms) → (insert_texts blooms chunk g).n ≡ g.n
  unfolding insert_texts insert_text
  insert_texts-n [] g = refl
  insert_texts-n (s ∷ chunk) g = insert_texts-n chunk (insert_text blooms s g)

  none_missing :
      (b : Bloom) (xs : List (List ℕ))
      → All (λ (x : List ℕ). check x b ≡ true) xs
      → any (λ x. not (check x b)) xs ≡ false
  unfolding any
  none_missing b [] h = refl
  none_missing b (x ∷ xs) h = rw (h.0) (none_missing b xs h.1)

  -- Every n-gram of the needle is in the filter of a granule with a text around it.
  all_set :
      (n : ℕ) (s : List ℕ) (chunk : List (List ℕ)) (g : NgramBfGranule blooms) (xs : List (List ℕ))
      → g.n ≡ n
      → Elem s chunk
      → All (λ (x : List ℕ). Elem x (ngrams s n)) xs
      → All (λ (x : List ℕ). check x (insert_texts blooms chunk g).bloom ≡ true) xs
  all_set n s chunk g [] q e a = tt
  all_set n s chunk g (x ∷ xs) q e a = (
    insert_texts-check x s chunk g (inl (e, subst (λ k. Elem x (ngrams s k)) (sym q) a.0)),
    all_set n s chunk g xs q e a.1,
  )

  new_granule-n :
      (n fp_rate expected : ℕ) (g : NgramBfGranule blooms)
      → new_granule blooms n fp_rate expected ≡ some g
      → g.n ≡ n
  unfolding new_granule
  new_granule-n n fp_rate expected g h = ground (arith, h)

  insert_texts-is_infix :
      (n : ℕ)
      → zero < n
      → n < 2 ^ 64
      → (needle : List ℕ) (chunk : List (List ℕ)) (s : List ℕ) (empty : NgramBfGranule blooms)
      → empty.n ≡ n
      → Elem s chunk
      → is_infix needle s ≡ true
      → can_skip_contains blooms needle (insert_texts blooms chunk empty) ≡ false
  unfolding can_skip_contains ngrams
  insert_texts-is_infix n z w needle chunk s empty q e h =
      let g = insert_texts blooms chunk empty in
      let same : g.n ≡ n = insert_texts-n chunk empty ∙ q in
      let (pre, post, around) = infix-append needle s h in
      elim (Bool-cases (ltb (length needle) n)) [
        | inl l ↦ rw (same, l) refl
        | inr l ↦
            let long : (0 + (length needle - less_one n)) + (n - 1) ≤ length needle =
              ground (arith, l, z, w) in
            let within = grams-Elem n 0 (length needle - less_one n) pre needle post z w long in
            let in_text =
              subst
                (λ t.
                  All (λ (x : List ℕ). Elem x (ngrams t n))
                    (grams n 0 (length needle - less_one n) needle))
                (sym around) within in
            let none_out = none_missing g.bloom (grams n 0 (length needle - less_one n) needle) (
              all_set n s chunk empty (grams n 0 (length needle - less_one n) needle) q e
                in_text) in
            rw (same, l) none_out
      ]

  pub skips_made-is_infix :
      (n fp_rate : ℕ)
      → zero < n
      → n < 2 ^ 64
      → (needle : List ℕ) (i : ℕ) (chunk : List (List ℕ)) (s : List ℕ) → Elem s chunk
      → is_infix needle s ≡ true
      → skips_made blooms needle (text_granule blooms n fp_rate chunk) ≡ false
  unfolding skips_made text_granule
  skips_made-is_infix n fp_rate z w needle i chunk s e h =
      elim (Option-cases (new_granule blooms n fp_rate (max (total_ngrams n chunk) 1))) [
        | inl missing ↦ rw (text_granule, missing) refl
        | inr (g, made) ↦
            rw (text_granule, made)
              (insert_texts-is_infix n z w needle chunk s g
                (new_granule-n n fp_rate (max (total_ngrams n chunk) 1) g made) e h)
      ]

  abbrev IsMade : Option (NgramBfGranule blooms) → Type 0
  IsMade o = (g : NgramBfGranule blooms) × (o ≡ some g)

  text_granule-IsMade :
      (n fp_rate : ℕ) (chunk : List (List ℕ))
      → is_rate fp_rate ≡ true
      → IsMade (text_granule blooms n fp_rate chunk)
  unfolding text_granule new_granule
  text_granule-IsMade n fp_rate chunk r =
      let (b, made) =
        new_for_fp_rate-some (max (max (total_ngrams n chunk) 1) 1) fp_rate (omega arith) r in
      (
        insert_texts blooms chunk (record { bloom = b; n = n }),
        rw (text_granule, new_granule, made) refl,
      )

  build_from-IsMade :
      (n fp_rate i : ℕ) (granules : List (List (List ℕ)))
      → is_rate fp_rate ≡ true
      → All IsMade (build_from (ngram_index blooms n fp_rate) i granules)
  unfolding build_from
  build_from-IsMade n fp_rate i [] r = tt
  build_from-IsMade n fp_rate i (c ∷ granules) r =
      (text_granule-IsMade n fp_rate c r, build_from-IsMade n fp_rate (i + 1) granules r)

  build-IsMade :
      (n fp_rate granule_size : ℕ) (values : List (List ℕ))
      (os : List (Option (NgramBfGranule blooms)))
      → is_rate fp_rate ≡ true
      → build (ngram_index blooms n fp_rate) granule_size values ≡ some os
      → All IsMade os
  unfolding build
  build-IsMade n fp_rate granule_size values os r h =
      let all = slices granule_size 0 (div_ceil (length values) granule_size) values in
      let same : build_from (ngram_index blooms n fp_rate) 0 all ≡ os = ground (arith, h) in
      subst (All IsMade) same (build_from-IsMade n fp_rate 0 all r)

  all_made-cons :
      (o : Option (NgramBfGranule blooms)) (os : List (Option (NgramBfGranule blooms)))
      (g : NgramBfGranule blooms) (gs : List (NgramBfGranule blooms))
      → o ≡ some g
      → all_made os ≡ some gs
      → all_made (o ∷ os) ≡ some (g ∷ gs)
  unfolding all_made
  all_made-cons o os g gs e made = ground (arith, e, made)

  all_made-some :
      (os : List (Option (NgramBfGranule blooms)))
      → All IsMade os
      → (gs : List (NgramBfGranule blooms)) × (all_made os ≡ some gs)
  all_made-some [] a = ([], unfold all_made in refl)
  all_made-some (o ∷ os) a =
      let (gs, made) = all_made-some os a.1 in (a.0.0 ∷ gs, all_made-cons o os a.0.0 gs a.0.1 made)

  -- Where every granule is made, the one at each place is in the index.
  get-all_made :
      (os : List (Option (NgramBfGranule blooms))) (k : ℕ) (o : Option (NgramBfGranule blooms))
      → All IsMade os
      → get_elem? os k ≡ some o
      → (gs : List (NgramBfGranule blooms)) × (g : NgramBfGranule blooms) × (all_made os ≡ some gs)
        × (o ≡ some g)
        × (get_elem? gs k ≡ some g)
  get-all_made [] k o a h = absurd (cc h)
  get-all_made (x ∷ os) zero o a h =
      let (gs, made) = all_made-some os a.1 in
      let same : x ≡ o = cc h in
      (a.0.0 ∷ gs, a.0.0, all_made-cons x os a.0.0 gs a.0.1 made, sym same ∙ a.0.1, refl)
  get-all_made (x ∷ os) (suc k) o a h =
      let (gs, g, made, e, at) = get-all_made os k o a.1 h in
      (a.0.0 ∷ gs, g, all_made-cons x os a.0.0 gs a.0.1 made, e, at)

  -- With a granule size above 0, n-grams of at least one byte and a rate that the library takes, the index of any texts is
  -- built, and the mask keeps the granule of every row whose text contains the needle, also one shorter than the n-grams.
  pub contains_mask-build_texts :
      (granule_size n fp_rate p : ℕ) (values : List (List ℕ)) (s needle : List ℕ)
      → zero < granule_size
      → zero < n
      → n < 2 ^ 64
      → is_rate fp_rate ≡ true
      → get_elem? values p ≡ some s
      → is_infix needle s ≡ true
      → (gs : List (NgramBfGranule blooms)) × (build_texts blooms granule_size n fp_rate values
          ≡ some gs)
        × (get_elem? (contains_mask blooms needle gs) (p / granule_size) ≡ some false)
  unfolding build_texts contains_mask skips_made
  contains_mask-build_texts granule_size n fp_rate p values s needle z zn w rate g h =
      let (os, o, built, there_o, kept) =
        build-skips (ngram_index blooms n fp_rate) (skips_made-is_infix n fp_rate zn w) granule_size
          p values s needle z g h in
      let (gs, x, made, is_x, at) =
        get-all_made os (p / granule_size) o
          (build-IsMade n fp_rate granule_size values os rate built) there_o in
      let shown : can_skip_contains blooms needle x ≡ false =
        ap (skips_made blooms needle) (sym is_x) ∙ kept in
      (
        gs,
        rw (build_texts, built) made,
        get-map (can_skip_contains blooms needle) gs (p / granule_size) x at ∙ ap some shown,
      )
