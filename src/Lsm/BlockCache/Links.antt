-- ===== src/Lsm/BlockCache/Links.antt =====
-- storage-node/src/block_cache.rs: a pool is a list of entries, the newest first. Moving an entry to the head, taking
-- out the tail and putting in a head keep the links those of the list.
use wow_db.Prelude.{
  ℕ, ◌+◌, ◌≡◌, refl, ◌∙◌, arith, false, List, [], ◌∷◌, ◌++◌, Option, none, some, All-append, ◌==◌,
  lookup, length,
}
use wow_db.Lsm.BlockCache.{
  BlockKey, block_key_eq, Node, LruPool, modify, modify_opt, set_prev, set_next, set_links,
}
use wow_db.Lsm.BlockCache.Segments.{
  Entry, node_of, first_or, last_or, IsLinked, IsAbsent, AreApart, AreDistinct, lookup-modify,
  lookup-modify_self, lookup-modify_ne, IsLinked-modify, IsLinked-set_prev, IsLinked-set_next,
  lookup-modify_last, IsLinked-split, IsLinked-join, AreApart-split, AreDistinct-join,
  IsAbsent-apart,
}

abbrev pub total : List Entry → ℕ
total [] = 0
total (e ∷ es) = length e.value + total es

-- The map and the links of the pool are those of the list; nothing else is in the map.
pub record IsPool (p : LruPool) (es : List Entry) : Type 0 where
  pub linked : IsLinked p.map none es none
  pub distinct : AreDistinct es
  pub head : p.head ≡ first_or es none
  pub tail : p.tail ≡ last_or none es
  pub only : (k : BlockKey) → IsAbsent k es → lookup k p.map ≡ none
  pub used : p.used_bytes ≡ total es

pub record IsSameSize (p p' : LruPool) : Type 0 where
  pub max_bytes : p'.max_bytes ≡ p.max_bytes
  pub block_type : p'.block_type ≡ p.block_type

pub total-append : (xs ys : List Entry) → total (xs ++ ys) ≡ total xs + total ys
total-append [] ys = omega arith
total-append (x ∷ xs) ys = omega (arith, total-append xs ys)

pub lookup-modify-none :
    (f : Node → Node) (k j : BlockKey) (m : List (BlockKey × Node))
    → lookup j m ≡ none
    → lookup j (modify f k m) ≡ none
lookup-modify-none f k j m h = ground (arith, lookup-modify f k j m, h)

pub lookup-modify_opt-none :
    (f : Node → Node) (k : Option BlockKey) (j : BlockKey) (m : List (BlockKey × Node))
    → lookup j m ≡ none
    → lookup j (modify_opt f k m) ≡ none
lookup-modify_opt-none f none j m h = h
lookup-modify_opt-none f (some k) j m h = lookup-modify-none f k j m h

IsLinked-modify_first :
    (f : Node → Node) (m : List (BlockKey × Node)) (p : Option BlockKey) (es : List Entry)
    (q : Option BlockKey) (xs : List Entry)
    → AreApart es xs
    → IsLinked m p xs q
    → IsLinked (modify_opt f (first_or es none) m) p xs q
IsLinked-modify_first f m p [] q xs a h = h
IsLinked-modify_first f m p (e ∷ es) q xs a h = IsLinked-modify f e.key m p xs q a.0 h

IsLinked-modify_last :
    (f : Node → Node) (m : List (BlockKey × Node)) (p : Option BlockKey) (es : List Entry)
    (q : Option BlockKey) (xs : List Entry)
    → AreApart es xs
    → IsLinked m p xs q
    → IsLinked (modify_opt f (last_or none es) m) p xs q
IsLinked-modify_last f m p [] q xs a h = h
IsLinked-modify_last f m p (e ∷ []) q xs a h = IsLinked-modify f e.key m p xs q a.0 h
IsLinked-modify_last f m p (e ∷ e' ∷ es) q xs a h = IsLinked-modify_last f m p (e' ∷ es) q xs a.1 h

lookup-modify_first :
    (f : Node → Node) (k : BlockKey) (es : List Entry) (m : List (BlockKey × Node))
    → IsAbsent k es
    → lookup k (modify_opt f (first_or es none) m) ≡ lookup k m
lookup-modify_first f k [] m a = refl
lookup-modify_first f k (e ∷ es) m a = lookup-modify_ne f e.key k m a.0

pub AreApart-swap : (xs ys : List Entry) → AreApart xs ys → AreApart ys xs
AreApart-swap xs [] a = tt
AreApart-swap xs (y ∷ ys) a = let r = IsAbsent-apart y xs ys a in (r.0, AreApart-swap xs ys r.1)

-- The links after an entry that is not the first moved there.
module _ (m : List (BlockKey × Node)) (x : Entry) (xs : List Entry) (e : Entry) (ys : List Entry)
    (d : AreDistinct ((x ∷ xs) ++ e ∷ ys)) (h : IsLinked m none ((x ∷ xs) ++ e ∷ ys) none) where
  abbrev pub before : Option BlockKey
  before = last_or none (x ∷ xs)

  abbrev pub behind : Option BlockKey
  behind = first_or ys none

  abbrev pub relinked : List (BlockKey × Node)
  relinked = modify (set_links none (some x.key)) e.key (
      modify_opt (set_prev (some e.key)) (some x.key)
        (modify_opt (set_prev before) behind (modify_opt (set_next behind) before m)))

  pub relinked-IsLinked : IsLinked relinked none (e ∷ (x ∷ xs) ++ ys) none
  relinked-IsLinked =
      let parts = IsLinked-split m none (x ∷ xs) (e ∷ ys) none h in
      let (dx, (ey, dy), apart) = AreApart-split (x ∷ xs) (e ∷ ys) d in
      let (ex, axy) = IsAbsent-apart e (x ∷ xs) ys apart in
      let m1 = modify_opt (set_next behind) before m in
      let x1 : IsLinked m1 none (x ∷ xs) behind =
        IsLinked-set_next m none (x ∷ xs) (some e.key) behind dx parts.0 in
      let y1 : IsLinked m1 (some e.key) ys none =
        IsLinked-modify_last (set_next behind) m (some e.key) (x ∷ xs) none ys axy parts.1.1 in
      let e1 : lookup e.key m1 ≡ some (node_of e before behind) =
        lookup-modify_last (set_next behind) e.key x xs m ex ∙ parts.1.0 in
      let m2 = modify_opt (set_prev before) behind m1 in
      let x2 : IsLinked m2 none (x ∷ xs) behind =
        IsLinked-modify_first (set_prev before) m1 none ys behind (x ∷ xs)
          (AreApart-swap (x ∷ xs) ys axy) x1 in
      let y2 : IsLinked m2 before ys none =
        IsLinked-set_prev m1 (some e.key) before ys none dy y1 in
      let e2 : lookup e.key m2 ≡ some (node_of e before behind) =
        lookup-modify_first (set_prev before) e.key ys m1 ey ∙ e1 in
      let all2 : IsLinked m2 none ((x ∷ xs) ++ ys) none =
        IsLinked-join m2 none (x ∷ xs) ys none x2 y2 in
      let dxy : AreDistinct ((x ∷ xs) ++ ys) = AreDistinct-join (x ∷ xs) ys dx dy axy in
      let m3 = modify (set_prev (some e.key)) x.key m2 in
      let all3 : IsLinked m3 (some e.key) ((x ∷ xs) ++ ys) none =
        IsLinked-set_prev m2 none (some e.key) ((x ∷ xs) ++ ys) none dxy all2 in
      let e3 : lookup e.key m3 ≡ some (node_of e before behind) =
        lookup-modify_ne (set_prev (some e.key)) x.key e.key m2 ex.0 ∙ e2 in
      let exy : IsAbsent e.key ((x ∷ xs) ++ ys) =
        All-append (λ (y : Entry). (y.key == e.key) ≡ false) (x ∷ xs) ys ex ey in
      (
        lookup-modify_self (set_links none (some x.key)) e.key (node_of e before behind) m3 e3,
        IsLinked-modify (set_links none (some x.key)) e.key m3 (some e.key) ((x ∷ xs) ++ ys) none
            exy all3,
      )
