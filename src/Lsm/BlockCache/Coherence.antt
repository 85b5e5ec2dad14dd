-- ===== src/Lsm/BlockCache/Coherence.antt =====
-- storage-node/src/block_cache.rs: a run of reads and insertions answers as a map does, except for misses.
use wow_db.Prelude.{
  ℕ, ◌+◌, ◌-◌, ◌<◌, ◌≤◌, ◌^◌, ◌≡◌, inl, inr, refl, ap, sym, subst, ◌∙◌, arith, Bool, true, false,
  ◌&&◌, Bool-cases, List, [], ◌∷◌, ◌++◌, some, All, All-append, ◌==◌, ==_iff, length, lookup,
  insert, lookup-insert, lookup-insert_self, ltb, if◌then◌else◌,
}
use wow_db.Lsm.BlockCache.{
  BlockType, data_block, filter_block, index_block, BlockKey, block_key_eq, LruPool, type_code,
  same_type,
}
use wow_db.Lsm.BlockCache.Segments.{Entry, IsAbsent, AreDistinct, AreApart-split, IsAbsent-apart}
use wow_db.Lsm.BlockCache.Links.{total, total-append}
use wow_db.Lsm.BlockCache.Changes.{with_content, after_trial}
use wow_db.Lsm.BlockCache.Policy.{
  Evicts, fits, empty, tried, Inserts, added, replaced, Evicts-total, Evicts-IsAbsent,
}
use wow_db.Lsm.BlockCache.Evict.{IsLeft}
use wow_db.Lsm.BlockCache.Steps.{insert_block-Inserts}
use wow_db.Lsm.BlockCache.Pools.{BlockCacheInner, pool_for, set_pool, cache_insert}

-- An entry of the pool `t` whose block is the one that the map has under its key.
abbrev pub IsCurrent : BlockType → List (BlockKey × List ℕ) → Entry → Type 0
IsCurrent t m e = (e.key.block_type ≡ t) × (lookup e.key m ≡ some e.value)

All-split : (P : Entry → Type 0) (xs ys : List Entry) → All P (xs ++ ys) → All P xs × All P ys
All-split P [] ys a = (tt, a)
All-split P (x ∷ xs) ys a = let r = All-split P xs ys a.1 in ((a.0, r.0), r.1)

pub All-swap :
    (P : Entry → Type 0) (xs : List Entry) (e : Entry) (ys : List Entry)
    → All P (xs ++ e ∷ ys)
    → P e × All P (xs ++ ys)
All-swap P [] e ys a = a
All-swap P (x ∷ xs) e ys a = let r = All-swap P xs e ys a.1 in (r.0, (a.0, r.1))

Evicts-IsCurrent :
    (u : BlockType) (m : List (BlockKey × List ℕ)) (t : BlockType) (max size : ℕ)
    (es es' : List Entry)
    → All (IsCurrent u m) es
    → Evicts t max size es es'
    → All (IsCurrent u m) es'
Evicts-IsCurrent u m t max size es es' a (fits h) = a
Evicts-IsCurrent u m t max size es es' a empty = tt
Evicts-IsCurrent u m t max size es es' a (tried xs e q h r) =
    let (ax, ae) = All-split (IsCurrent u m) xs (e ∷ []) (subst (All (IsCurrent u m)) q a) in
    Evicts-IsCurrent u m t max size (after_trial t xs e) es'
      (after (same_type t filter_block && ltb 0 e.resist) ae.0 ax) r
  where
    after :
        (b : Bool)
        → IsCurrent u m e
        → All (IsCurrent u m) xs
        → All (IsCurrent u m) (if b then with_content e e.value (e.resist - 1) ∷ xs else xs)
    after true c ax = (c, ax)
    after false c ax = ax

-- The map gets a key that no entry has.
IsCurrent-insert :
    (t : BlockType) (k : BlockKey) (value : List ℕ) (m : List (BlockKey × List ℕ)) (es : List Entry)
    → IsAbsent k es
    → All (IsCurrent t m) es
    → All (IsCurrent t (insert k value m)) es
IsCurrent-insert t k value m [] a c = tt
IsCurrent-insert t k value m (e ∷ es) a c =
    let l : lookup e.key (insert k value m) ≡ lookup e.key m =
      ground (arith, lookup-insert k e.key value m, ==_iff k e.key, ==_iff e.key k, a.0) in
    ((c.0.0, l ∙ c.0.1), IsCurrent-insert t k value m es a.1 c.1)

-- The entries of another pool do not have the key.
IsAbsent-other :
    (k : BlockKey) (t : BlockType) (m : List (BlockKey × List ℕ)) (es : List Entry)
    → same_type t k.block_type ≡ false
    → All (IsCurrent t m) es
    → IsAbsent k es
IsAbsent-other k t m [] n c = tt
IsAbsent-other k t m (e ∷ es) n c = (
  elim (Bool-cases (e.key == k)) [
    | inl s ↦
        let q : t ≡ k.block_type = sym c.0.0 ∙ ap (λ j. j.block_type) ((==_iff e.key k).0 s) in
        absurd (ground (arith, n, ap type_code q))
    | inr s ↦ s
  ],
  IsAbsent-other k t m es n c.1,
)

insert-IsCurrent :
    (k : BlockKey) (value : List ℕ) (m : List (BlockKey × List ℕ)) (t : BlockType) (max : ℕ)
    (es es' : List Entry)
    → k.block_type ≡ t
    → AreDistinct es
    → All (IsCurrent t m) es
    → Inserts t max k value es es'
    → All (IsCurrent t (insert k value m)) es'
insert-IsCurrent k value m t max es es' h d c (added a r) = (
  (h, lookup-insert_self k value m),
  IsCurrent-insert t k value m _ (Evicts-IsAbsent k t max (length value) es _ a r)
      (Evicts-IsCurrent t m t max (length value) es _ c r),
)
insert-IsCurrent k value m t max es es' h d c (replaced xs e ys q qk) =
    let (ce, cr) = All-swap (IsCurrent t m) xs e ys (subst (All (IsCurrent t m)) q c) in
    let (dx, (ey, dy), apart) = AreApart-split xs (e ∷ ys) (subst AreDistinct q d) in
    let ex = (IsAbsent-apart e xs ys apart).0 in
    let out : IsAbsent e.key (xs ++ ys) =
      All-append (λ (y : Entry). (y.key == e.key) ≡ false) xs ys ex ey in
    (
      (ce.0, ap (λ j. lookup j (insert k value m)) qk ∙ lookup-insert_self k value m),
      IsCurrent-insert t k value m (xs ++ ys) (subst (λ j. IsAbsent j (xs ++ ys)) qk out) cr,
    )

Inserts-total :
    (t : BlockType) (max : ℕ) (k : BlockKey) (value : List ℕ) (es es' : List Entry)
    → Inserts t max k value es es'
    → total es' ≤ length value + total es
Inserts-total t max k value es es' (added a r) =
    omega (arith, Evicts-total t max (length value) es _ r)
Inserts-total t max k value es es' (replaced xs e ys q qk) =
    omega (arith, ap total q, total-append xs (e ∷ ys), total-append xs ys)

-- What a pool holds, with room in `usize` for the bytes still to come.
abbrev pub Holds : BlockType → List (BlockKey × List ℕ) → ℕ → ℕ → LruPool → Type 0
Holds t m max more p =
    (es : List Entry) × IsLeft t max p es × All (IsCurrent t m) es × (total es + more < 2 ^ 64)

abbrev pub IsCache : List (BlockKey × List ℕ) → (BlockType → ℕ) → ℕ → BlockCacheInner → Type 0
IsCache m max more c = (t : BlockType) → Holds t m (max t) more (pool_for t c)

pub set_pool-IsCache :
    (m : List (BlockKey × List ℕ)) (max : BlockType → ℕ) (more : ℕ) (u : BlockType) (p : LruPool)
    (c : BlockCacheInner)
    → Holds u m (max u) more p
    → ((t : BlockType) → same_type t u ≡ false → Holds t m (max t) more (pool_for t c))
    → (t : BlockType) → Holds t m (max t) more (pool_for t (set_pool u p c))
set_pool-IsCache m max more data_block p c h o data_block = h
set_pool-IsCache m max more data_block p c h o filter_block = o filter_block refl
set_pool-IsCache m max more data_block p c h o index_block = o index_block refl
set_pool-IsCache m max more filter_block p c h o data_block = o data_block refl
set_pool-IsCache m max more filter_block p c h o filter_block = h
set_pool-IsCache m max more filter_block p c h o index_block = o index_block refl
set_pool-IsCache m max more index_block p c h o data_block = o data_block refl
set_pool-IsCache m max more index_block p c h o filter_block = o filter_block refl
set_pool-IsCache m max more index_block p c h o index_block = h

pub cache_insert-IsCache :
    (k : BlockKey) (value : List ℕ) (m : List (BlockKey × List ℕ)) (max : BlockType → ℕ) (more : ℕ)
    (c : BlockCacheInner)
    → IsCache m max (length value + more) c
    → (c' : BlockCacheInner) × (cache_insert k value c ≡ some c')
      × IsCache (insert k value m) max more c'
unfolding cache_insert
cache_insert-IsCache k value m max more c i =
    let t = k.block_type in
    let (es, left, current, room) = i t in
    let r = insert_block-Inserts k value t (max t) (pool_for t c) es left (omega (arith, room)) in
    let now = insert-IsCurrent k value m t (max t) es r.1 refl left.pool.distinct current r.3 in
    let fits : total r.1 + more < 2 ^ 64 =
      omega (arith, room, Inserts-total t (max t) k value es r.1 r.3) in
    (
      set_pool t r.0 c,
      rw (cache_insert, r.2) refl,
      set_pool-IsCache (insert k value m) max more t r.0 c (r.1, r.4, now, fits)
          (λ u n.
            let (fs, kept, was, space) = i u in
            (
              fs,
              kept,
              IsCurrent-insert u k value m fs (IsAbsent-other k u m fs n was) was,
              omega (arith, space),
            )),
    )
