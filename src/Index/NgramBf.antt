-- ===== src/Index/NgramBf.antt =====
-- storage-node/src/index/ngrambf.rs: a Bloom filter of the n-grams of each granule. The filter is that of the library
-- bloomfilter, a parameter. A text is its bytes, and an f64 the number of its bits.
pub mod Grams
pub mod Search
use wow_db.Prelude.{
  ℕ, zero, suc, ◌+◌, ◌-◌, ◌/◌, ◌%◌, ◌^◌, ◌<◌, ◌≤◌, min, max, ◌≡◌, ◌⊎◌, refl, ap, sym, subst, ◌∙◌,
  arith, Bool, true, false, not, ◌&&◌, ◌||◌, Bool-cases, inl, inr, List, [], ◌∷◌, ◌++◌, map, Option,
  none, some, any, All, length, length-append, ltb, nat_beq, take, drop, take-append, drop-append,
  take-drop-take, get_elem?, Elem, here, there, if◌then◌else◌,
}
use wow_db.Index.{Kind, build}

-- What is set is found, and stays found. A filter is made for a rate between 0 and 1, neither included, and at least
-- one entry; otherwise the library may panic (`none`).
pub record Blooms : Type 1 where
  pub Bloom : Type 0
  pub is_rate : ℕ → Bool
  pub new_for_fp_rate : ℕ → ℕ → Option Bloom
  pub set : List ℕ → Bloom → Bloom
  pub check : List ℕ → Bloom → Bool
  pub check-set_same : (x : List ℕ) (b : Bloom) → check x (set x b) ≡ true
  pub check-set : (x y : List ℕ) (b : Bloom) → check x b ≡ true → check x (set y b) ≡ true
  pub new_for_fp_rate-some :
      (items fp_rate : ℕ)
      → zero < items
      → is_rate fp_rate ≡ true
      → (b : Bloom) × (new_for_fp_rate items fp_rate ≡ some b)

-- `n - 1` in a release build.
abbrev pub less_one : ℕ → ℕ
less_one n = (n + 2 ^ 64 - 1) % 2 ^ 64

abbrev pub gram : ℕ → ℕ → List ℕ → List ℕ
gram n i s = take (min n (length s - i)) (drop i s)

-- `count` n-grams, from place `i` on.
unfoldable pub grams : ℕ → ℕ → ℕ → List ℕ → List (List ℕ)
grams n i zero s = []
grams n i (suc count) s = gram n i s ∷ grams n (i + 1) count s

unfoldable pub ngrams : List ℕ → ℕ → List (List ℕ)
ngrams s n = grams n 0 (length s - less_one n) s

-- `LIKE '%needle%'`
unfoldable pub is_prefix : List ℕ → List ℕ → Bool
is_prefix [] s = true
is_prefix (a ∷ as') [] = false
is_prefix (a ∷ as') (b ∷ bs) = nat_beq a b && is_prefix as' bs

unfoldable pub is_infix : List ℕ → List ℕ → Bool
is_infix needle [] = is_prefix needle []
is_infix needle (b ∷ bs) = is_prefix needle (b ∷ bs) || is_infix needle bs

-- How many n-grams are expected.
unfoldable pub total_ngrams : ℕ → List (List ℕ) → ℕ
total_ngrams n [] = 0
total_ngrams n (s ∷ chunk) = (length s - less_one n) + total_ngrams n chunk

-- The granules one after the other, until one panics.
unfoldable pub all_made {ℓ} : {A : Type ℓ} → List (Option A) → Option (List A)
all_made [] = some []
all_made (o ∷ os) =
    let rest = all_made os in
    elim o [ none ↦ none | some a ↦ elim rest [ none ↦ none | some as' ↦ some (a ∷ as') ] ]

module _ (blooms : Blooms) where
  open blooms use {Bloom, new_for_fp_rate, set, check, check-set_same, check-set}

  pub record NgramBfGranule : Type 0 where
    pub bloom : Bloom
    pub n : ℕ

  unfoldable pub set_all : List (List ℕ) → Bloom → Bloom
  set_all [] b = b
  set_all (x ∷ xs) b = set_all xs (set x b)

  unfoldable pub insert_text : List ℕ → NgramBfGranule → NgramBfGranule
  insert_text s g = record g { bloom = set_all (ngrams s g.n) g.bloom }

  unfoldable pub insert_texts : List (List ℕ) → NgramBfGranule → NgramBfGranule
  insert_texts [] g = g
  insert_texts (s ∷ chunk) g = insert_texts chunk (insert_text s g)

  unfoldable pub new_granule : ℕ → ℕ → ℕ → Option NgramBfGranule
  new_granule n fp_rate expected = elim (new_for_fp_rate (max expected 1) fp_rate) [
    | none ↦ none
    | some b ↦ some (record { bloom = b; n = n })
  ]

  unfoldable pub can_skip_contains : List ℕ → NgramBfGranule → Bool
  can_skip_contains needle g =
      if ltb (length needle) g.n
      then false
      else any (λ x. not (check x g.bloom)) (ngrams needle g.n)

  unfoldable pub text_granule : ℕ → ℕ → List (List ℕ) → Option NgramBfGranule
  unfolding new_granule
  text_granule n fp_rate chunk = elim (new_granule n fp_rate (max (total_ngrams n chunk) 1)) [
    | none ↦ none
    | some g ↦ some (insert_texts chunk g)
  ]

  unfoldable pub skips_made : List ℕ → Option NgramBfGranule → Bool
  skips_made needle none = false
  skips_made needle (some g) = can_skip_contains needle g

  abbrev pub ngram_index : ℕ → ℕ → Kind (List ℕ) (List ℕ) (Option NgramBfGranule)
  ngram_index n fp_rate = record {
    of_granule = λ i chunk. text_granule n fp_rate chunk;
    skips = skips_made;
    matches = is_infix;
  }

  unfoldable pub build_texts : ℕ → ℕ → ℕ → List (List ℕ) → Option (List NgramBfGranule)
  build_texts granule_size n fp_rate values =
      elim (build (ngram_index n fp_rate) granule_size values) [
        | none ↦ none
        | some os ↦ all_made os
      ]

  unfoldable pub contains_mask : List ℕ → List NgramBfGranule → List Bool
  contains_mask needle gs = map (can_skip_contains needle) gs
