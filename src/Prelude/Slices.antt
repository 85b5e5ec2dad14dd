-- ===== src/Prelude/Slices.antt =====
-- A list cut into pieces of `n`: `chunks`, or the slices `values[i * n..min((i + 1) * n, len)]`, and where an element
-- is found in them.
use native.Mathlib.Nat.{div-add-mod', mod-lt, div-lt_iff_lt-mul}
use wow_db.Prelude.{
  ℕ, zero, suc, ◌+◌, ◌-◌, ◌*◌, ◌/◌, ◌%◌, ◌<◌, ◌≤◌, ◌≡◌, refl, ap, sym, subst, ◌∙◌, arith, List, [],
  ◌∷◌, some, length, ltb, Bool-cases, inl, inr, take, drop, get_elem?, Elem, here, there,
  if◌then◌else◌,
}

-- `usize::div_ceil`
unfoldable pub div_ceil : ℕ → ℕ → ℕ
div_ceil a n = if ltb 0 (a % n) then a / n + 1 else a / n

module _ {ℓ} {A : Type ℓ} where
  pub Elem-take :
      (n p : ℕ) (xs : List A) (a : A) → p < n → get_elem? xs p ≡ some a → Elem a (take n xs)
  Elem-take zero p xs a l g = absurd (omega (arith, l))
  Elem-take (suc n) p [] a l g = absurd (cc g)
  Elem-take (suc n) zero (x ∷ xs) a l g =
      let e : x ≡ a = cc g in subst (λ t. Elem a (t ∷ take n xs)) (sym e) here
  Elem-take (suc n) (suc p) (x ∷ xs) a l g = there (Elem-take n p xs a (omega (arith, l)) g)

  pub get-drop_from :
      (n p : ℕ) (xs : List A) → n ≤ p → get_elem? xs p ≡ get_elem? (drop n xs) (p - n)
  get-drop_from zero p xs l = let e : p ≡ p - 0 = omega arith in ap (get_elem? xs) e
  get-drop_from (suc n) p [] l = refl
  get-drop_from (suc n) zero (x ∷ xs) l = absurd (omega (arith, l))
  get-drop_from (suc n) (suc p) (x ∷ xs) l =
      let e : suc p - suc n ≡ p - n = omega arith in
      get-drop_from n p xs (omega (arith, l)) ∙ ap (get_elem? (drop n xs)) (sym e)

  pub length-drop_le : (n : ℕ) (xs : List A) → length (drop n xs) ≤ length xs
  length-drop_le zero xs = omega arith
  length-drop_le (suc n) [] = omega arith
  length-drop_le (suc n) (x ∷ xs) = omega (arith, length-drop_le n xs)

  pub get-lt : (p : ℕ) (xs : List A) (a : A) → get_elem? xs p ≡ some a → p < length xs
  get-lt p [] a g = absurd (cc g)
  get-lt zero (x ∷ xs) a g = omega arith
  get-lt (suc p) (x ∷ xs) a g = omega (arith, get-lt p xs a g)

  abbrev pub slice : ℕ → ℕ → List A → List A
  slice n i xs = take n (drop (i * n) xs)

  -- `count` slices, from slice `i` on.
  unfoldable pub slices : ℕ → ℕ → ℕ → List A → List (List A)
  slices n i zero xs = []
  slices n i (suc count) xs = slice n i xs ∷ slices n (i + 1) count xs

  pub Elem-slice :
      (n p : ℕ) (xs : List A) (a : A)
      → zero < n
      → get_elem? xs p ≡ some a
      → Elem a (slice n (p / n) xs)
  Elem-slice n p xs a z g =
      let d = div-add-mod' p n in
      let m = mod-lt p z in
      let low : p / n * n ≤ p = omega (arith, d) in
      let off : p - p / n * n < n = omega (arith, d, m) in
      Elem-take n (p - p / n * n) (drop (p / n * n) xs) a off
        (sym (get-drop_from (p / n * n) p xs low) ∙ g)

  pub get-slices :
      (n i q count : ℕ) (xs : List A)
      → q < count
      → get_elem? (slices n i count xs) q ≡ some (slice n (i + q) xs)
  unfolding slices
  get-slices n i q zero xs l = absurd (omega (arith, l))
  get-slices n i zero (suc count) xs l =
      let e : i ≡ i + 0 = omega arith in ap (λ j. some (slice n j xs)) e
  get-slices n i (suc q) (suc count) xs l =
      let e : i + 1 + q ≡ i + suc q = omega arith in
      get-slices n (i + 1) q count xs (omega (arith, l)) ∙ ap (λ j. some (slice n j xs)) e

pub div_ceil-covers : (a n : ℕ) → zero < n → a ≤ div_ceil a n * n
unfolding div_ceil
div_ceil-covers a n z =
    let d = div-add-mod' a n in
    elim (Bool-cases (ltb 0 (a % n))) [
      | inl e ↦ rw (e) (ground (arith, d, mod-lt a z))
      | inr e ↦ rw (e) (ground (arith, d, e))
    ]

pub slice_lt : (a n p : ℕ) → zero < n → p < a → p / n < div_ceil a n
slice_lt a n p z l = (div-lt_iff_lt-mul z).1 (omega (arith, l, div_ceil-covers a n z))
