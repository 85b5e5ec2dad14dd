-- ===== src/Lsm/BlockCache/Policy.antt =====
-- storage-node/src/block_cache.rs: what an insertion and a read do to the list of entries, without the links, as step
-- relations.
use wow_db.Prelude.{
  ℕ, ◌+◌, ◌-◌, ◌<◌, ◌≤◌, ◌≡◌, ◌⊎◌, inl, inr, refl, ap, sym, subst, ◌∙◌, arith, Bool, true, false,
  ◌&&◌, List, [], ◌∷◌, ◌++◌, append_assoc, append-nil, Option, none, some, ◌==◌, ltb, length,
  if◌then◌else◌,
}
use wow_db.Lsm.BlockCache.{BlockType, filter_block, BlockKey, block_key_eq, same_type, first_resist}
use wow_db.Lsm.BlockCache.Segments.{Entry, IsAbsent, IsAbsent-split}
use wow_db.Lsm.BlockCache.Links.{total, total-append}
use wow_db.Lsm.BlockCache.Changes.{with_content, after_trial}

-- The tail is tried until the new block has room or nothing is left.
pub data Evicts (t : BlockType) (max size : ℕ) : List Entry → List Entry → Type 0 where
  fits : {es : List Entry} → total es + size ≤ max → Evicts t max size es es
  empty : Evicts t max size [] []
  tried :
      {es es' : List Entry} (xs : List Entry) (e : Entry)
      → es ≡ xs ++ e ∷ []
      → max < total es + size
      → Evicts t max size (after_trial t xs e) es'
      → Evicts t max size es es'

-- A block of a key that was not there, or another block of a key that was.
pub data Inserts (t : BlockType) (max : ℕ) (k : BlockKey) (value : List ℕ)
    : List Entry → List Entry → Type 0 where
  added :
      {es es' : List Entry}
      → IsAbsent k es
      → Evicts t max (length value) es es'
      → Inserts t max k value es (record { key = k; value = value; resist = first_resist t } ∷ es')
  replaced :
      {es : List Entry} (xs : List Entry) (e : Entry) (ys : List Entry)
      → es ≡ xs ++ e ∷ ys
      → e.key ≡ k
      → Inserts t max k value es (with_content e value e.resist ∷ xs ++ ys)

-- A read: what it returns and the list after it.
pub data Reads (k : BlockKey) : List Entry → List Entry → Option (List ℕ) → Type 0 where
  missed : {es : List Entry} → IsAbsent k es → Reads k es es none
  hit :
      {es : List Entry} (xs : List Entry) (e : Entry) (ys : List Entry)
      → es ≡ xs ++ e ∷ ys
      → e.key ≡ k
      → Reads k es (e ∷ xs ++ ys) (some e.value)

-- How often the entries can be tried.
abbrev pub weight : List Entry → ℕ
weight [] = 0
weight (e ∷ es) = e.resist + 1 + weight es

pub weight-append : (xs ys : List Entry) → weight (xs ++ ys) ≡ weight xs + weight ys
weight-append [] ys = omega arith
weight-append (x ∷ xs) ys = omega (arith, weight-append xs ys)

pub weight-after_trial :
    (t : BlockType) (xs : List Entry) (e : Entry)
    → weight (after_trial t xs e) < weight (xs ++ e ∷ [])
weight-after_trial t xs e = ground (arith, weight-append xs (e ∷ []))

pub total-after_trial :
    (t : BlockType) (xs : List Entry) (e : Entry)
    → total (after_trial t xs e) ≤ total (xs ++ e ∷ [])
total-after_trial t xs e = ground (arith, total-append xs (e ∷ []))

pub last_view :
    (x : Entry) (xs : List Entry) → (ys : List Entry) × (e : Entry) × (x ∷ xs ≡ ys ++ e ∷ [])
last_view x [] = ([], x, refl)
last_view x (x' ∷ xs) = let r = last_view x' xs in (x ∷ r.0, r.1, ap (λ l. x ∷ l) r.2)

pub Evicts-total :
    (t : BlockType) (max size : ℕ) (es es' : List Entry)
    → Evicts t max size es es'
    → total es' ≤ total es
Evicts-total t max size es es' (fits h) = omega arith
Evicts-total t max size es es' empty = omega arith
Evicts-total t max size es es' (tried xs e q h r) = omega (
  arith,
  Evicts-total t max size (after_trial t xs e) es' r,
  total-after_trial t xs e,
  ap total q,
)

pub Evicts-IsAbsent :
    (k : BlockKey) (t : BlockType) (max size : ℕ) (es es' : List Entry)
    → IsAbsent k es
    → Evicts t max size es es'
    → IsAbsent k es'
Evicts-IsAbsent k t max size es es' a (fits h) = a
Evicts-IsAbsent k t max size es es' a empty = tt
Evicts-IsAbsent k t max size es es' a (tried xs e q h r) =
    let (ax, (ae, none_left)) = IsAbsent-split k xs (e ∷ []) (subst (IsAbsent k) q a) in
    Evicts-IsAbsent k t max size (after_trial t xs e) es'
      (absent_after (same_type t filter_block && ltb 0 e.resist) ae ax) r
  where
    absent_after :
        (b : Bool)
        → (e.key == k) ≡ false
        → IsAbsent k xs
        → IsAbsent k (if b then with_content e e.value (e.resist - 1) ∷ xs else xs)
    absent_after true ae ax = (ae, ax)
    absent_after false ae ax = ax

-- There is room afterwards, or nothing else is held.
pub Evicts-room :
    (t : BlockType) (max size : ℕ) (es es' : List Entry)
    → Evicts t max size es es'
    → (total es' + size ≤ max) ⊎ (es' ≡ [])
Evicts-room t max size es es' (fits h) = inl h
Evicts-room t max size es es' empty = inr refl
Evicts-room t max size es es' (tried xs e q h r) = Evicts-room t max size (after_trial t xs e) es' r

-- Without resistance what is dropped is a part at the end, of which nothing could have stayed.
abbrev pub IsNeeded : ℕ → ℕ → List Entry → List Entry → Type 0
IsNeeded max size es' [] = Unit
IsNeeded max size es' (e ∷ es) = max < total es' + length e.value + size

IsNeeded-longer :
    (max size : ℕ) (es' dropped : List Entry) (e : Entry)
    → max < total ((es' ++ dropped) ++ e ∷ []) + size
    → IsNeeded max size es' dropped
    → IsNeeded max size es' (dropped ++ e ∷ [])
IsNeeded-longer max size es' [] e h n =
    omega (arith, h, total-append (es' ++ []) (e ∷ []), total-append es' [])
IsNeeded-longer max size es' (d ∷ ds) e h n = n

pub Evicts-end :
    (t : BlockType) (max size : ℕ) (es es' : List Entry)
    → same_type t filter_block ≡ false
    → Evicts t max size es es'
    → (dropped : List Entry) × (es ≡ es' ++ dropped) × IsNeeded max size es' dropped
Evicts-end t max size es es' n (fits h) = ([], sym (append-nil es), tt)
Evicts-end t max size es es' n empty = ([], refl, tt)
Evicts-end t max size es es' n (tried xs e q h r) =
    let same : after_trial t xs e ≡ xs = rw (n) refl in
    let r' = Evicts-end t max size (after_trial t xs e) es' n r in
    let split : xs ≡ es' ++ r'.0 = sym same ∙ r'.1 in
    let more : max < total ((es' ++ r'.0) ++ e ∷ []) + size =
      omega (arith, h, ap total q, ap (λ l. total (l ++ e ∷ [])) split) in
    (
      r'.0 ++ e ∷ [],
      q ∙ ap (λ l. l ++ e ∷ []) split ∙ append_assoc es' r'.0 (e ∷ []),
      IsNeeded-longer max size es' r'.0 e more r'.2,
    )
