-- ===== src/Lsm/BlockCache/Segments.antt =====
-- storage-node/src/block_cache.rs: when the nodes of a map are linked as a list of entries is.
use wow_db.Prelude.{
  ℕ, ◌≡◌, refl, ap, sym, ◌∙◌, arith, false, Bool-cases, inl, inr, List, [], ◌∷◌, ◌++◌, Option, none,
  some, All, All-append, ◌==◌, ==_iff, lookup, lookup-insert, if◌then◌else◌,
}
use mathlib.Core.Option
use wow_db.Lsm.BlockCache.{BlockKey, block_key_eq, Node, modify, modify_opt, set_prev, set_next}

pub record Entry : Type 0 where
  pub key : BlockKey
  pub value : List ℕ
  pub resist : ℕ

abbrev pub node_of : Entry → Option BlockKey → Option BlockKey → Node
node_of e p q = record { key = e.key; value = e.value; resist = e.resist; prev = p; next = q }

-- The key of the first entry, or else `q`.
abbrev pub first_or : List Entry → Option BlockKey → Option BlockKey
first_or [] q = q
first_or (e ∷ es) q = some e.key

-- The key of the last entry, or else `p`.
abbrev pub last_or : Option BlockKey → List Entry → Option BlockKey
last_or p [] = p
last_or p (e ∷ es) = last_or (some e.key) es

-- The entries stand in the map, linked in this order between `p` and `q`.
abbrev pub IsLinked :
    List (BlockKey × Node) → Option BlockKey → List Entry → Option BlockKey → Type 0
IsLinked m p [] q = Unit
IsLinked m p (e ∷ es) q =
    (lookup e.key m ≡ some (node_of e p (first_or es q))) × IsLinked m (some e.key) es q

-- No entry has the key.
abbrev pub IsAbsent : BlockKey → List Entry → Type 0
IsAbsent k = All (λ (e : Entry). (e.key == k) ≡ false)

abbrev pub AreApart : List Entry → List Entry → Type 0
AreApart xs ys = All (λ (e : Entry). IsAbsent e.key ys) xs

abbrev pub AreDistinct : List Entry → Type 0
AreDistinct [] = Unit
AreDistinct (e ∷ es) = IsAbsent e.key es × AreDistinct es

pub lookup-modify :
    (f : Node → Node) (k j : BlockKey) (m : List (BlockKey × Node))
    → lookup j (modify f k m) ≡ (if k == j then Option.map f (lookup j m) else lookup j m)
unfolding modify
lookup-modify f k j m = by_node (lookup k m) refl
  where
    by_node :
        (found : Option Node)
        → lookup k m ≡ found
        → lookup j (modify f k m) ≡ (if k == j then Option.map f (lookup j m) else lookup j m)
    by_node none e = elim (Bool-cases (k == j)) [
      | inl s ↦
          let q : k ≡ j = (==_iff k j).0 s in
          let g : lookup j m ≡ none = ap (λ t. lookup t m) (sym q) ∙ e in rw (modify, e, s, g) refl
      | inr s ↦ rw (modify, e, s) refl
    ]
    by_node (some n) e = elim (Bool-cases (k == j)) [
      | inl s ↦
          let q : k ≡ j = (==_iff k j).0 s in
          let g : lookup j m ≡ some n = ap (λ t. lookup t m) (sym q) ∙ e in
          rw (modify, e, lookup-insert k j (f n) m, s, g) refl
      | inr s ↦ rw (modify, e, lookup-insert k j (f n) m, s) refl
    ]

pub lookup-modify_self :
    (f : Node → Node) (k : BlockKey) (n : Node) (m : List (BlockKey × Node))
    → lookup k m ≡ some n
    → lookup k (modify f k m) ≡ some (f n)
lookup-modify_self f k n m h = ground (arith, lookup-modify f k k m, ==_iff k k, h)

pub lookup-modify_ne :
    (f : Node → Node) (k j : BlockKey) (m : List (BlockKey × Node))
    → (k == j) ≡ false
    → lookup j (modify f k m) ≡ lookup j m
lookup-modify_ne f k j m h = ground (arith, lookup-modify f k j m, h)

pub eq_comm : (j k : BlockKey) → (j == k) ≡ false → (k == j) ≡ false
eq_comm j k h = ground (arith, ==_iff j k, ==_iff k j, h)

-- What a segment does not have may change: here by any map that agrees on its keys.
pub IsLinked-agree :
    (m m' : List (BlockKey × Node)) (p : Option BlockKey) (es : List Entry) (q : Option BlockKey)
    → All (λ (e : Entry). lookup e.key m' ≡ lookup e.key m) es
    → IsLinked m p es q
    → IsLinked m' p es q
IsLinked-agree m m' p [] q a h = tt
IsLinked-agree m m' p (e ∷ es) q a h = (a.0 ∙ h.0, IsLinked-agree m m' (some e.key) es q a.1 h.1)

pub agree-modify :
    (f : Node → Node) (k : BlockKey) (m : List (BlockKey × Node)) (es : List Entry)
    → IsAbsent k es
    → All (λ (e : Entry). lookup e.key (modify f k m) ≡ lookup e.key m) es
agree-modify f k m [] a = tt
agree-modify f k m (e ∷ es) a =
    (lookup-modify_ne f k e.key m (eq_comm e.key k a.0), agree-modify f k m es a.1)

pub IsLinked-modify :
    (f : Node → Node) (k : BlockKey) (m : List (BlockKey × Node)) (p : Option BlockKey)
    (es : List Entry) (q : Option BlockKey)
    → IsAbsent k es
    → IsLinked m p es q
    → IsLinked (modify f k m) p es q
IsLinked-modify f k m p es q a h =
    IsLinked-agree m (modify f k m) p es q (agree-modify f k m es a) h

-- The neighbour before a segment changes.
pub IsLinked-set_prev :
    (m : List (BlockKey × Node)) (p p' : Option BlockKey) (es : List Entry) (q : Option BlockKey)
    → AreDistinct es
    → IsLinked m p es q
    → IsLinked (modify_opt (set_prev p') (first_or es none) m) p' es q
IsLinked-set_prev m p p' [] q d h = tt
IsLinked-set_prev m p p' (e ∷ es) q d h = (
  lookup-modify_self (set_prev p') e.key _ m h.0,
  IsLinked-modify (set_prev p') e.key m (some e.key) es q d.0 h.1,
)

-- A change of the last entry does not reach a key that no entry has.
pub lookup-modify_last :
    (f : Node → Node) (k : BlockKey) (e : Entry) (es : List Entry) (m : List (BlockKey × Node))
    → IsAbsent k (e ∷ es)
    → lookup k (modify_opt f (last_or (some e.key) es) m) ≡ lookup k m
lookup-modify_last f k e [] m a = lookup-modify_ne f e.key k m a.0
lookup-modify_last f k e (e' ∷ es) m a = lookup-modify_last f k e' es m a.1

-- The neighbour behind a segment changes.
pub IsLinked-set_next :
    (m : List (BlockKey × Node)) (p : Option BlockKey) (es : List Entry) (q q' : Option BlockKey)
    → AreDistinct es
    → IsLinked m p es q
    → IsLinked (modify_opt (set_next q') (last_or none es) m) p es q'
IsLinked-set_next m p [] q q' d h = tt
IsLinked-set_next m p (e ∷ []) q q' d h = (lookup-modify_self (set_next q') e.key _ m h.0, tt)
IsLinked-set_next m p (e ∷ e' ∷ es) q q' d h = (
  lookup-modify_last (set_next q') e.key e' es m d.0 ∙ h.0,
  IsLinked-set_next m (some e.key) (e' ∷ es) q q' d.1 h.1,
)

pub IsLinked-split :
    (m : List (BlockKey × Node)) (p : Option BlockKey) (xs ys : List Entry) (q : Option BlockKey)
    → IsLinked m p (xs ++ ys) q
    → IsLinked m p xs (first_or ys q) × IsLinked m (last_or p xs) ys q
IsLinked-split m p [] ys q h = (tt, h)
IsLinked-split m p (x ∷ []) ys q h = ((h.0, tt), h.1)
IsLinked-split m p (x ∷ x' ∷ xs) ys q h =
    let r = IsLinked-split m (some x.key) (x' ∷ xs) ys q h.1 in ((h.0, r.0), r.1)

pub IsLinked-join :
    (m : List (BlockKey × Node)) (p : Option BlockKey) (xs ys : List Entry) (q : Option BlockKey)
    → IsLinked m p xs (first_or ys q)
    → IsLinked m (last_or p xs) ys q
    → IsLinked m p (xs ++ ys) q
IsLinked-join m p [] ys q h k = k
IsLinked-join m p (x ∷ []) ys q h k = (h.0, k)
IsLinked-join m p (x ∷ x' ∷ xs) ys q h k = (h.0, IsLinked-join m (some x.key) (x' ∷ xs) ys q h.1 k)

pub last_or-append :
    (p : Option BlockKey) (xs ys : List Entry) → last_or p (xs ++ ys) ≡ last_or (last_or p xs) ys
last_or-append p [] ys = refl
last_or-append p (x ∷ xs) ys = last_or-append (some x.key) xs ys

pub IsAbsent-split :
    (k : BlockKey) (xs ys : List Entry) → IsAbsent k (xs ++ ys) → IsAbsent k xs × IsAbsent k ys
IsAbsent-split k [] ys a = (tt, a)
IsAbsent-split k (x ∷ xs) ys a = let r = IsAbsent-split k xs ys a.1 in ((a.0, r.0), r.1)

pub AreApart-split :
    (xs ys : List Entry) → AreDistinct (xs ++ ys) → AreDistinct xs × AreDistinct ys × AreApart xs ys
AreApart-split [] ys d = (tt, d, tt)
AreApart-split (x ∷ xs) ys d =
    let r = AreApart-split xs ys d.1 in
    let a = IsAbsent-split x.key xs ys d.0 in ((a.0, r.0), r.1, (a.1, r.2))

pub AreDistinct-join :
    (xs ys : List Entry) → AreDistinct xs → AreDistinct ys → AreApart xs ys → AreDistinct (xs ++ ys)
AreDistinct-join [] ys d e a = e
AreDistinct-join (x ∷ xs) ys d e a = (
  All-append (λ (y : Entry). (y.key == x.key) ≡ false) xs ys d.0 a.0,
  AreDistinct-join xs ys d.1 e a.1,
)

-- Apart from each other, the other way round.
pub IsAbsent-apart :
    (e : Entry) (xs ys : List Entry) → AreApart xs (e ∷ ys) → IsAbsent e.key xs × AreApart xs ys
IsAbsent-apart e [] ys a = (tt, tt)
IsAbsent-apart e (x ∷ xs) ys a =
    let r = IsAbsent-apart e xs ys a.1 in ((eq_comm e.key x.key a.0.0, r.0), (a.0.1, r.1))
