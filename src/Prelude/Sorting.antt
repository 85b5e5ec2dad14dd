-- ===== src/Prelude/Sorting.antt =====
-- Insertion into a sorted list, for the ordered containers and the stable sorts that the code takes
-- from the standard library. The order is a parameter.
use mathlib.Core.Path.{refl, ap, ◌∙◌, sym, subst, ◌≡◌}
use mathlib.Core.Logic.{◌⊎◌, inl, inr, ∥∥₁_elim}
use native.Mathlib.Nat.{ℕ_set}
use mathlib.Core.Bool.{Bool, true}
use mathlib.Core.List.{List, [], ◌∷◌, ◌++◌, Perm, Permᴰ, perm_middle, append-nil}
use mathlib.Core.List.Perm
use native.Mathlib.Omega.{arith}
use wow_db.Prelude.Tests.{if◌then◌else◌, Bool-cases}
use Prim.Native.Nat.{◌+◌}
use wow_db.Prelude.Lists.{length, All, Elem, here, there, Elem-cons}

-- `x` goes behind the entries that are not above it.
unfoldable pub insert_by {ℓ} : {A : Type ℓ} → (A → A → Bool) → A → List A → List A
insert_by le x [] = x ∷ []
insert_by le x (y ∷ ys) = if le y x then y ∷ insert_by le x ys else x ∷ y ∷ ys

unfoldable pub sort_onto {ℓ} : {A : Type ℓ} → (A → A → Bool) → List A → List A → List A
unfolding insert_by
sort_onto le acc [] = acc
sort_onto le acc (x ∷ xs) = sort_onto le (insert_by le x acc) xs

-- A stable sort: equal elements keep their order.
unfoldable pub sort_by {ℓ} : {A : Type ℓ} → (A → A → Bool) → List A → List A
unfolding sort_onto
sort_by le xs = sort_onto le [] xs

abbrev pub IsSorted {ℓ} : {A : Type ℓ} → (A → A → Bool) → List A → Type 0
IsSorted le [] = Unit {0}
IsSorted le (x ∷ xs) = All (λ y. le x y ≡ true) xs × IsSorted le xs

pub insert_by-perm {ℓ} :
    {A : Type ℓ} (le : A → A → Bool) (x : A) (xs : List A) → Perm (insert_by le x xs) (x ∷ xs)
unfolding insert_by
insert_by-perm le x [] = Perm.refl (x ∷ [])
insert_by-perm le x (y ∷ ys) = elim (Bool-cases (le y x)) [
  | inl e ↦ rw e (Perm.trans (Perm.cons y (insert_by-perm le x ys)) (Perm.swap x y ys))
  | inr e ↦ rw e (Perm.refl (x ∷ y ∷ ys))
]

same_length {ℓ} : {A : Type ℓ} (xs ys : List A) → Permᴰ xs ys → length xs ≡ length ys
same_length _ _ (Permᴰ.trans {l₂} before after) =
    omega (arith, same_length _ l₂ before, same_length l₂ _ after)
same_length (_ ∷ xs) (_ ∷ ys) (Permᴰ.cons _ rest) = omega (arith, same_length xs ys rest)
same_length _ _ (Permᴰ.swap _ _) = omega arith
same_length _ _ Permᴰ.nil = omega arith

-- The elements are as many, in whatever order.
pub length-perm {ℓ} : {A : Type ℓ} {xs ys : List A} → Perm xs ys → length xs ≡ length ys
length-perm {xs} {ys} reordered =
    ∥∥₁_elim reordered (ℕ_set (length xs) (length ys)) (same_length xs ys)

module _ {ℓ} {A : Type ℓ} (le : A → A → Bool)
    (total : (a b : A) → (le a b ≡ true) ⊎ (le b a ≡ true))
    (trans : (a b c : A) → le a b ≡ true → le b c ≡ true → le a c ≡ true) where
  All-insert_by {κ} :
      (P : A → Type κ) (x : A) (xs : List A) → P x → All P xs → All P (insert_by le x xs)
  unfolding insert_by
  All-insert_by P x [] px ps = (px, ps)
  All-insert_by P x (y ∷ ys) px ps = elim (Bool-cases (le y x)) [
    | inl e ↦ rw e (ps.0, All-insert_by P x ys px ps.1)
    | inr e ↦ rw e (px, ps)
  ]

  All-le_mono :
      (a b : A) (xs : List A)
      → le a b ≡ true
      → All (λ y. le b y ≡ true) xs
      → All (λ y. le a y ≡ true) xs
  All-le_mono a b [] h k = k
  All-le_mono a b (x ∷ xs) h k = (trans a b x h k.0, All-le_mono a b xs h k.1)

  -- Inserting into a sorted list keeps it sorted.
  pub insert_by-IsSorted : (x : A) (xs : List A) → IsSorted le xs → IsSorted le (insert_by le x xs)
  unfolding insert_by
  insert_by-IsSorted x [] h = (tt, tt)
  insert_by-IsSorted x (y ∷ ys) h = elim (Bool-cases (le y x)) [
    | inl e ↦ rw e (All-insert_by (λ z. le y z ≡ true) x ys e h.0, insert_by-IsSorted x ys h.1)
    | inr e ↦ elim (total x y) [
      | inl e' ↦ rw e ((e', All-le_mono x y ys e' h.0), h)
      | inr e' ↦ absurd (ground (arith, e, e'))
    ]
  ]

  sort_onto-IsSorted : (acc xs : List A) → IsSorted le acc → IsSorted le (sort_onto le acc xs)
  unfolding sort_onto
  sort_onto-IsSorted acc [] h = h
  sort_onto-IsSorted acc (x ∷ xs) h =
      sort_onto-IsSorted (insert_by le x acc) xs (insert_by-IsSorted x acc h)

  pub sort_by-IsSorted : (xs : List A) → IsSorted le (sort_by le xs)
  unfolding sort_by
  sort_by-IsSorted xs = sort_onto-IsSorted [] xs tt

module _ {ℓ} {A : Type ℓ} (le : A → A → Bool) where
  sort_onto-perm : (acc xs : List A) → Perm (sort_onto le acc xs) (xs ++ acc)
  unfolding sort_onto
  sort_onto-perm acc [] = Perm.refl acc
  sort_onto-perm acc (x ∷ xs) =
      Perm.trans (sort_onto-perm (insert_by le x acc) xs)
        (Perm.trans (Perm.append (Perm.refl xs) (insert_by-perm le x acc)) (perm_middle xs acc))

  -- Sorting keeps every element, as often as it stands there.
  pub sort_by-perm : (xs : List A) → Perm (sort_by le xs) xs
  unfolding sort_by
  sort_by-perm xs = subst (λ l. Perm (sort_onto le [] xs) l) (append-nil xs) (sort_onto-perm [] xs)

  pub Elem-insert_by_self : (x : A) (xs : List A) → Elem x (insert_by le x xs)
  unfolding insert_by
  Elem-insert_by_self x [] = here
  Elem-insert_by_self x (y ∷ ys) = elim (Bool-cases (le y x)) [
    | inl e ↦ rw e (there (Elem-insert_by_self x ys))
    | inr e ↦ rw e here
  ]

  pub Elem-insert_by : {a : A} (x : A) (xs : List A) → Elem a xs → Elem a (insert_by le x xs)
  unfolding insert_by
  Elem-insert_by x [] m = there m
  Elem-insert_by {a} x (y ∷ ys) m = elim (Bool-cases (le y x)) [
    | inl e ↦ elim (Elem-cons m) [
      | inl q ↦ rw (e, q) here
      | inr m' ↦ rw e (there (Elem-insert_by x ys m'))
    ]
    | inr e ↦ rw e (there m)
  ]

  Elem-sort_onto : {a : A} (acc xs : List A) → Elem a acc ⊎ Elem a xs → Elem a (sort_onto le acc xs)
  unfolding sort_onto
  Elem-sort_onto acc [] (inl m) = m
  Elem-sort_onto acc [] (inr m) = elim m [ ]
  Elem-sort_onto acc (x ∷ xs) (inl m) =
      Elem-sort_onto (insert_by le x acc) xs (inl (Elem-insert_by x acc m))
  Elem-sort_onto {a} acc (x ∷ xs) (inr m) = elim (Elem-cons m) [
    | inl q ↦
        Elem-sort_onto (insert_by le x acc) xs
          (inl (subst (λ y. Elem y (insert_by le x acc)) (sym q) (Elem-insert_by_self x acc)))
    | inr m' ↦ Elem-sort_onto (insert_by le x acc) xs (inr m')
  ]

  pub Elem-sort_by : {a : A} (xs : List A) → Elem a xs → Elem a (sort_by le xs)
  unfolding sort_by
  Elem-sort_by xs m = Elem-sort_onto [] xs (inr m)

  pub sort_onto-append :
      (acc xs ys : List A) → sort_onto le acc (xs ++ ys) ≡ sort_onto le (sort_onto le acc xs) ys
  unfolding sort_onto
  sort_onto-append acc [] ys = refl
  sort_onto-append acc (x ∷ xs) ys = sort_onto-append (insert_by le x acc) xs ys

  pub insert_by-last :
      (x : A) (xs : List A) → All (λ y. le y x ≡ true) xs → insert_by le x xs ≡ xs ++ x ∷ []
  unfolding insert_by
  insert_by-last x [] h = refl
  insert_by-last x (y ∷ ys) h = rw h.0 (ap (λ r. y ∷ r) (insert_by-last x ys h.1))

  All-insert {κ} :
      (P : A → Type κ) (x : A) (xs : List A) → P x → All P xs → All P (insert_by le x xs)
  unfolding insert_by
  All-insert P x [] px ps = (px, ps)
  All-insert P x (y ∷ ys) px ps = elim (Bool-cases (le y x)) [
    | inl e ↦ rw e (ps.0, All-insert P x ys px ps.1)
    | inr e ↦ rw e (px, ps)
  ]

  All-sort_onto {κ} :
      (P : A → Type κ) (acc xs : List A) → All P acc → All P xs → All P (sort_onto le acc xs)
  unfolding sort_onto
  All-sort_onto P acc [] a h = a
  All-sort_onto P acc (x ∷ xs) a h =
      All-sort_onto P (insert_by le x acc) xs (All-insert P x acc h.0 a) h.1

  pub All-sort_by {κ} : (P : A → Type κ) (xs : List A) → All P xs → All P (sort_by le xs)
  unfolding sort_by
  All-sort_by P xs h = All-sort_onto P [] xs tt h

  -- An element that is not below any other is sorted to the end.
  pub sort_by-last :
      (xs : List A) (x : A)
      → All (λ y. le y x ≡ true) xs
      → sort_by le (xs ++ x ∷ []) ≡ sort_by le xs ++ x ∷ []
  unfolding sort_by sort_onto
  sort_by-last xs x h =
      sort_onto-append [] xs (x ∷ [])
      ∙ insert_by-last x (sort_onto le [] xs) (All-sort_onto (λ y. le y x ≡ true) [] xs tt h)

module _ {ℓ} {A : Type ℓ} (le : A → A → Bool) where
  length-insert_by : (x : A) (xs : List A) → length (insert_by le x xs) ≡ 1 + length xs
  unfolding insert_by
  length-insert_by x [] = refl
  length-insert_by x (y ∷ ys) = ground (arith, length-insert_by x ys)

  length-sort_onto : (acc xs : List A) → length (sort_onto le acc xs) ≡ length acc + length xs
  unfolding sort_onto
  length-sort_onto acc [] = omega arith
  length-sort_onto acc (x ∷ xs) =
      omega (arith, length-sort_onto (insert_by le x acc) xs, length-insert_by x acc)

  pub length-sort_by : (xs : List A) → length (sort_by le xs) ≡ length xs
  unfolding sort_by
  length-sort_by xs = omega (arith, length-sort_onto [] xs)
