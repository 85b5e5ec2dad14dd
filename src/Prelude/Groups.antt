-- ===== src/Prelude/Groups.antt =====
-- A `HashMap` of vectors: `entry(key).or_default().push(value)`, and how many values there are in all.
use Prim.Native.Nat.{ℕ, ◌+◌, ◌≤◌}
use mathlib.Core.Path.{◌≡◌, refl}
use mathlib.Core.Option.{Option, none, some}
use mathlib.Core.List.{List, [], ◌∷◌, ◌++◌}
use native.Mathlib.Omega.{arith}
use wow_db.Prelude.Tests.{Key}
use wow_db.Prelude.Lists.{length, length-append}
use wow_db.Prelude.Maps.{lookup, insert, Distinct, insert-Distinct}

module _ {K : Type 0} {V : Type 0} ⦃key : Key K⦄ where
  unfoldable pub push_at : K → V → List (K × List V) → List (K × List V)
  push_at k v es = elim (lookup k es) [
    | none ↦ insert k (v ∷ []) es
    | some vs ↦ insert k (vs ++ v ∷ []) es
  ]

  unfoldable pub size : List (K × List V) → ℕ
  size [] = 0
  size ((k, vs) ∷ es) = length vs + size es

  pub size-insert-none :
      (k : K) (v : List V) (es : List (K × List V))
      → lookup k es ≡ none
      → size (insert k v es) ≡ size es + length v
  unfolding size lookup insert
  size-insert-none k v [] h = omega arith
  size-insert-none k v ((j, u) ∷ es) h = ground (arith, h, size-insert-none k v es)

  size-insert-some :
      (k : K) (v u : List V) (es : List (K × List V))
      → lookup k es ≡ some u
      → size (insert k v es) + length u ≡ size es + length v
  unfolding size lookup insert
  size-insert-some k v u [] h = absurd (cc h)
  size-insert-some k v u ((j, w) ∷ es) h = ground (arith, h, size-insert-some k v u es)

  length-insert : (k : K) (v : List V) (es : List (K × List V)) → length es ≤ length (insert k v es)
  unfolding insert
  length-insert k v [] = omega arith
  length-insert k v ((j, u) ∷ es) = ground (arith, length-insert k v es)

  pub length-insert-none :
      (k : K) (v : List V) (es : List (K × List V))
      → lookup k es ≡ none
      → length (insert k v es) ≡ 1 + length es
  unfolding lookup insert
  length-insert-none k v [] h = refl
  length-insert-none k v ((j, u) ∷ es) h = ground (arith, h, length-insert-none k v es)

  -- One value more, at a key that is there or that is not.
  pub push_at-sizes :
      (k : K) (v : V) (es : List (K × List V))
      → (size (push_at k v es) ≡ 1 + size es) × (length es ≤ length (push_at k v es))
  unfolding push_at
  push_at-sizes k v es = by_entry (lookup k es) refl
    where
      by_entry :
          (found : Option (List V))
          → lookup k es ≡ found
          → (size (push_at k v es) ≡ 1 + size es) × (length es ≤ length (push_at k v es))
      by_entry none e =
          rw (push_at, e)
            (omega (arith, size-insert-none k (v ∷ []) es e), length-insert k (v ∷ []) es)
      by_entry (some vs) e =
          let l = length-append vs (v ∷ []) in
          rw (push_at, e)
            (
              omega (arith, l, size-insert-some k (vs ++ v ∷ []) vs es e),
              length-insert k (vs ++ v ∷ []) es,
            )

  pub push_at-Distinct :
      (k : K) (v : V) (es : List (K × List V)) → Distinct es → Distinct (push_at k v es)
  unfolding push_at
  push_at-Distinct k v es d = by_entry (lookup k es)
    where
      by_entry :
          (found : Option (List V))
          → Distinct
              (elim found [ none ↦ insert k (v ∷ []) es | some vs ↦ insert k (vs ++ v ∷ []) es ])
      by_entry none = insert-Distinct k (v ∷ []) es d
      by_entry (some vs) = insert-Distinct k (vs ++ v ∷ []) es d
