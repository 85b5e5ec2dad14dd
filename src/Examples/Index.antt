-- ===== src/Examples/Index.antt =====
-- The indexes of granules at concrete inputs.
use wow_db.Prelude.{
  ℕ, ◌/◌, ◌≡◌, refl, arith, ltb, if◌then◌else◌, ◌<◌, Bool, true, String, string_eq, false, List, [],
  ◌∷◌, Option, none, some, any, get_elem?, Elem,
}
use wow_db.Prelude.Bytes.{bytes_leb, bytes_eqb, bytes_eqb_iff}
use wow_db.Index.NgramBf.{Blooms, NgramBfGranule, is_infix, is_prefix, build_texts, contains_mask}
use wow_db.Index.NgramBf.Search.{contains_mask-build_texts}
use wow_db.Index.MinMax.{
  GranuleMinMax, Range, build_bytes, candidate_granules_range, candidate_granules_range-build_bytes,
}
use wow_db.Index.Set.{GranuleSetIndex, not_in, build_sets, set_mask, set_mask-build_sets}

-- A filter that keeps what it is given.
abbrev pub checks : List ℕ → List (List ℕ) → Bool
checks x = any (λ y. bytes_eqb x y)

checks_same : (x : List ℕ) (b : List (List ℕ)) → checks x (x ∷ b) ≡ true
unfolding any
checks_same x b = rw ((bytes_eqb_iff x x).1 refl) refl

checks_more : (x y : List ℕ) (b : List (List ℕ)) → checks x b ≡ true → checks x (y ∷ b) ≡ true
unfolding any
checks_more x y b h = ground (arith, h)

abbrev above_zero : ℕ → Bool
above_zero = ltb 0

abbrev made : ℕ → ℕ → Option (List (List ℕ))
made expected rate = if above_zero rate then some [] else none

makes :
    (items rate : ℕ)
    → 0 < items
    → above_zero rate ≡ true
    → (b : List (List ℕ)) × (made items rate ≡ some b)
makes items rate z r = ([], ground (arith, r))

abbrev kept : Blooms
kept = record {
  Bloom = List (List ℕ);
  is_rate = above_zero;
  new_for_fp_rate = made;
  set = λ x b. x ∷ b;
  check = checks;
  check-set_same = checks_same;
  check-set = checks_more;
  new_for_fp_rate-some = makes;
}

abbrev texts : List (List ℕ)
texts = (1 ∷ 2 ∷ 3 ∷ 4 ∷ []) ∷ (5 ∷ []) ∷ []

contains_mask-build_texts_example :
    (gs : List (NgramBfGranule kept)) × (build_texts kept 1 3 1 texts ≡ some gs)
    × (get_elem? (contains_mask kept (2 ∷ 3 ∷ 4 ∷ []) gs) (0 / 1) ≡ some false)
unfolding is_infix is_prefix
contains_mask-build_texts_example =
    contains_mask-build_texts kept 1 3 1 0 texts (1 ∷ 2 ∷ 3 ∷ 4 ∷ []) (2 ∷ 3 ∷ 4 ∷ []) (omega arith)
      (omega arith) (omega arith) refl refl refl

abbrev rows : List (Option (List ℕ))
rows = some (97 ∷ []) ∷ none ∷ some (99 ∷ []) ∷ some (120 ∷ 1 ∷ []) ∷ []

abbrev from_m : Range
from_m = record { lo = some (109 ∷ []); hi = none }

candidate_granules_range-build_bytes_example :
    (gs : List GranuleMinMax) × (build_bytes 3 rows ≡ some gs)
    × Elem (3 / 3) (candidate_granules_range from_m gs)
unfolding bytes_leb
candidate_granules_range-build_bytes_example =
    candidate_granules_range-build_bytes 3 3 rows (120 ∷ 1 ∷ []) from_m (omega arith) refl refl

abbrev events : List String
events = "click" ∷ "view" ∷ "click" ∷ "buy" ∷ []

set_mask-build_sets_example :
    (gs : List GranuleSetIndex) × (build_sets 2 1 events ≡ some gs)
    × (get_elem? (set_mask (not_in ("click" ∷ [])) gs) (3 / 2) ≡ some false)
unfolding any
set_mask-build_sets_example =
    set_mask-build_sets 2 1 3 events "buy" (not_in ("click" ∷ [])) (omega arith) refl refl
