-- ===== src/Prelude/Maps.antt =====
-- A `HashMap` as an association list with one entry for each key. The code never relies on the
-- order of iteration; a client has the laws of `lookup`.
use Prim.Native.Nat.{ℕ, ◌+◌}
use mathlib.Core.Path.{◌≡◌, refl, ap, subst, ◌∙◌}
use mathlib.Core.Option
use mathlib.Core.Bool.{Bool}
use mathlib.Core.List.{List, [], ◌∷◌}
use mathlib.Core.Option.{Option, none, some}
use native.Mathlib.Omega.{arith}
use wow_db.Prelude.Tests.{Key, ◌==◌, if◌then◌else◌, Bool-cases}
use wow_db.Prelude.Lists.{All}
use mathlib.Core.Logic.{inl, inr}

abbrev pub keep_if {κ} : {V : Type κ} → (V → Bool) → Option V → Option V
keep_if p none = none
keep_if p (some v) = if p v then some v else none

module _ {ℓ κ} {K : Type ℓ} {V : Type κ} where
  -- `values_mut`: every value is changed in its place.
  unfoldable pub map_values : (V → V) → List (K × V) → List (K × V)
  map_values f [] = []
  map_values f ((k, v) ∷ es) = (k, f v) ∷ map_values f es

  -- `HashMap::retain` by a test on the value.
  unfoldable pub retain_values : (V → Bool) → List (K × V) → List (K × V)
  retain_values p [] = []
  retain_values p ((k, v) ∷ es) =
      let rest = retain_values p es in if p v then (k, v) ∷ rest else rest

  -- `values().filter(p).count()`.
  unfoldable pub count_values : (V → Bool) → List (K × V) → ℕ
  count_values p [] = 0
  count_values p ((k, v) ∷ es) = (if p v then 1 else 0) + count_values p es

module _ {ℓ κ} {K : Type ℓ} {V : Type κ} ⦃key : Key K⦄ where
  unfoldable pub lookup : K → List (K × V) → Option V
  lookup k [] = none
  lookup k ((j, v) ∷ es) = if j == k then some v else lookup k es

  unfoldable pub insert : K → V → List (K × V) → List (K × V)
  insert k v [] = (k, v) ∷ []
  insert k v ((j, u) ∷ es) = if j == k then (k, v) ∷ es else (j, u) ∷ insert k v es

  unfoldable pub remove : K → List (K × V) → List (K × V)
  remove k [] = []
  remove k ((j, u) ∷ es) = let rest = remove k es in if j == k then rest else (j, u) ∷ rest

  pub lookup-insert :
      (k j : K) (v : V) (es : List (K × V))
      → lookup j (insert k v es) ≡ (if k == j then some v else lookup j es)
  unfolding lookup insert
  lookup-insert k j v [] = refl
  lookup-insert k j v ((i, u) ∷ es) =
      ground (arith, key.eqb_iff k j, key.eqb_iff i k, key.eqb_iff i j, lookup-insert k j v es)

  pub lookup-insert_self : (k : K) (v : V) (es : List (K × V)) → lookup k (insert k v es) ≡ some v
  lookup-insert_self k v es = ground (arith, lookup-insert k k v es, key.eqb_iff k k)

  pub lookup-remove :
      (k j : K) (es : List (K × V))
      → lookup j (remove k es) ≡ (if k == j then none else lookup j es)
  unfolding lookup remove
  lookup-remove k j [] = ground arith
  lookup-remove k j ((i, u) ∷ es) =
      ground (arith, key.eqb_iff k j, key.eqb_iff i k, key.eqb_iff i j, lookup-remove k j es)

  -- No key stands twice.
  abbrev pub Distinct : List (K × V) → Type κ
  Distinct [] = Unit
  Distinct ((k, v) ∷ es) = (lookup k es ≡ none) × Distinct es

  pub insert-Distinct : (k : K) (v : V) (es : List (K × V)) → Distinct es → Distinct (insert k v es)
  unfolding lookup insert
  insert-Distinct k v [] d = (refl, tt)
  insert-Distinct k v ((j, u) ∷ es) d = ground (
    arith,
    d.0,
    d.1,
    insert-Distinct k v es d.1,
    lookup-insert k j v es,
    key.eqb_iff j k,
    key.eqb_iff k j,
  )

  pub lookup-map_values :
      (f : V → V) (k : K) (es : List (K × V))
      → lookup k (map_values f es) ≡ Option.map f (lookup k es)
  unfolding lookup map_values
  lookup-map_values f k [] = refl
  lookup-map_values f k ((j, u) ∷ es) = ground (arith, lookup-map_values f k es)

  pub map_values-Distinct :
      (f : V → V) (es : List (K × V)) → Distinct es → Distinct (map_values f es)
  unfolding map_values
  map_values-Distinct f [] d = tt
  map_values-Distinct f ((k, v) ∷ es) d =
      (lookup-map_values f k es ∙ ap (Option.map f) d.0, map_values-Distinct f es d.1)

  lookup-retain_none :
      (p : V → Bool) (k : K) (es : List (K × V))
      → lookup k es ≡ none
      → lookup k (retain_values p es) ≡ none
  unfolding lookup retain_values
  lookup-retain_none p k [] h = refl
  lookup-retain_none p k ((j, u) ∷ es) h = ground (arith, h, lookup-retain_none p k es)

  pub lookup-retain_values :
      (p : V → Bool) (k : K) (es : List (K × V))
      → Distinct es
      → lookup k (retain_values p es) ≡ keep_if p (lookup k es)
  unfolding lookup retain_values
  lookup-retain_values p k [] d = refl
  lookup-retain_values p k ((j, u) ∷ es) d =
      ground
        (arith, d.0, key.eqb_iff j k, lookup-retain_values p k es d.1, lookup-retain_none p k es)

  pub retain_values-Distinct :
      (p : V → Bool) (es : List (K × V)) → Distinct es → Distinct (retain_values p es)
  unfolding retain_values
  retain_values-Distinct p [] d = tt
  retain_values-Distinct p ((k, v) ∷ es) d =
      ground (arith, lookup-retain_none p k es d.0, retain_values-Distinct p es d.1)

-- Every value has a property.
abbrev pub AllValues {ℓ κ μ} : {K : Type ℓ} {V : Type κ} → (V → Type μ) → List (K × V) → Type μ
AllValues P es = All (λ e. P e.1) es

module _ {ℓ κ μ} {K : Type ℓ} {V : Type κ} ⦃key : Key K⦄ (P : V → Type μ) where
  pub AllValues-lookup :
      (k : K) (es : List (K × V)) (v : V) → AllValues P es → lookup k es ≡ some v → P v
  unfolding lookup
  AllValues-lookup k [] v a h = absurd (cc h)
  AllValues-lookup k ((j, u) ∷ es) v a h = elim (Bool-cases (j == k)) [
    | inl e ↦ let q : u ≡ v = ground (arith, h, e) in subst P q a.0
    | inr e ↦ AllValues-lookup k es v a.1 (ground (arith, h, e))
  ]

  pub AllValues-insert :
      (k : K) (v : V) (es : List (K × V)) → P v → AllValues P es → AllValues P (insert k v es)
  unfolding insert
  AllValues-insert k v [] p a = (p, tt)
  AllValues-insert k v ((j, u) ∷ es) p a = elim (Bool-cases (j == k)) [
    | inl e ↦ rw e (p, a.1)
    | inr e ↦ rw e (a.0, AllValues-insert k v es p a.1)
  ]

  pub AllValues-map_values :
      (f : V → V) (es : List (K × V))
      → ((v : V) → P v → P (f v))
      → AllValues P es
      → AllValues P (map_values f es)
  unfolding map_values
  AllValues-map_values f [] h a = tt
  AllValues-map_values f ((k, v) ∷ es) h a = (h v a.0, AllValues-map_values f es h a.1)

  pub AllValues-retain_values :
      (p : V → Bool) (es : List (K × V)) → AllValues P es → AllValues P (retain_values p es)
  unfolding retain_values
  AllValues-retain_values p [] a = tt
  AllValues-retain_values p ((k, v) ∷ es) a = elim (Bool-cases (p v)) [
    | inl e ↦ rw e (a.0, AllValues-retain_values p es a.1)
    | inr e ↦ rw e (AllValues-retain_values p es a.1)
  ]
