-- ===== src/Lsm/BlockCache/Runs.antt =====
-- storage-node/src/block_cache.rs: a whole run of calls on a new cache.
use wow_db.Prelude.{
  ℕ, ◌<◌, ◌^◌, ◌≡◌, ◌⊎◌, inl, inr, refl, ap, sym, subst, ◌∙◌, arith, List, [], ◌∷◌, Option, none,
  some, All, lookup, insert,
}
use wow_db.Lsm.BlockCache.{
  BlockType, data_block, filter_block, index_block, BlockKey, block_key_eq, new_pool,
}
use wow_db.Lsm.BlockCache.Segments.{Entry}
use wow_db.Lsm.BlockCache.Links.{total, total-append}
use wow_db.Lsm.BlockCache.Policy.{Reads, missed, hit}
use wow_db.Lsm.BlockCache.Steps.{get-Reads}
use wow_db.Lsm.BlockCache.Pools.{
  BlockCacheInner, new_inner, share, index_share, pool_for, set_pool, cache_get, Call, read_block,
  store_block, run, answers, stored,
}
use wow_db.Lsm.BlockCache.Coherence.{
  IsCurrent, All-swap, Holds, IsCache, set_pool-IsCache, cache_insert-IsCache,
}

-- A miss, or what the map answers.
abbrev pub IsHit : Option (List ℕ) → Option (List ℕ) → Type 0
IsHit got due = (got ≡ none) ⊎ (got ≡ due)

abbrev pub AreHits : List (Option (List ℕ)) → List (Option (List ℕ)) → Type 0
AreHits [] [] = Unit
AreHits [] (d ∷ ds) = ⊥
AreHits (g ∷ gs) [] = ⊥
AreHits (g ∷ gs) (d ∷ ds) = IsHit g d × AreHits gs ds

read-IsCurrent :
    (k : BlockKey) (m : List (BlockKey × List ℕ)) (t : BlockType) (es es' : List Entry)
    (value : Option (List ℕ))
    → All (IsCurrent t m) es
    → Reads k es es' value
    → IsHit value (lookup k m) × All (IsCurrent t m) es' × (total es' ≡ total es)
read-IsCurrent k m t es es' value c (missed a) = (inl refl, c, refl)
read-IsCurrent k m t es es' value c (hit xs e ys q qk) =
    let r = All-swap (IsCurrent t m) xs e ys (subst (All (IsCurrent t m)) q c) in
    (
      inr (sym (r.0.1) ∙ ap (λ j. lookup j m) qk),
      r,
      omega (arith, ap total q, total-append xs (e ∷ ys), total-append xs ys),
    )

cache_get-IsCache :
    (k : BlockKey) (m : List (BlockKey × List ℕ)) (max : BlockType → ℕ) (more : ℕ)
    (c : BlockCacheInner)
    → IsCache m max more c
    → (c' : BlockCacheInner) × (value : Option (List ℕ)) × (cache_get k c ≡ some (c', value))
      × IsHit value (lookup k m)
      × IsCache m max more c'
unfolding cache_get
cache_get-IsCache k m max more c i =
    let t = k.block_type in
    let (es, left, current, room) = i t in
    let r = get-Reads k t (max t) (pool_for t c) es left in
    let (got, now, same) = read-IsCurrent k m t es r.1 r.2 current r.4 in
    (
      set_pool t r.0 c,
      r.2,
      rw (cache_get, r.3) refl,
      got,
      set_pool-IsCache m max more t r.0 c (r.1, r.5, now, omega (arith, room, same)) (λ u n. i u),
    )

abbrev pub IsAnswered : List Call → List (BlockKey × List ℕ) → BlockCacheInner → Type 0
IsAnswered calls m c =
    (c' : BlockCacheInner) × (got : List (Option (List ℕ))) × (run calls c ≡ some (c', got))
    × AreHits got (answers calls m)

run-IsAnswered :
    (calls : List Call) (m : List (BlockKey × List ℕ)) (max : BlockType → ℕ) (c : BlockCacheInner)
    → IsCache m max (stored calls) c
    → IsAnswered calls m c
unfolding run answers
run-IsAnswered [] m max c i = (c, [], refl, tt)
run-IsAnswered (read_block k ∷ calls) m max c i =
    let r = cache_get-IsCache k m max (stored calls) c i in
    let s = run-IsAnswered calls m max r.0 r.4 in
    (s.0, r.1 ∷ s.1, rw (run, r.2, s.2) refl, (r.3, s.3))
run-IsAnswered (store_block k value ∷ calls) m max c i =
    let r = cache_insert-IsCache k value m max (stored calls) c i in
    let s = run-IsAnswered calls (insert k value m) max r.0 r.2 in
    (s.0, s.1, rw (run, r.1) s.2, s.3)

new_pool-Holds :
    (t : BlockType) (max more : ℕ) → more < 2 ^ 64 → Holds t [] max more (new_pool max t)
unfolding new_pool lookup
new_pool-Holds t max more h = (
  [],
  record {
    pool = record {
      linked = tt;
      distinct = tt;
      head = refl;
      tail = refl;
      only = λ k a. refl;
      used = refl;
    };
    max_bytes = refl;
    block_type = refl;
  },
  tt,
  omega (arith, h),
)

abbrev pub shares : ℕ → BlockType → ℕ
shares total_max data_block = share 70 total_max
shares total_max filter_block = share 20 total_max
shares total_max index_block = index_share total_max

new_inner-IsCache :
    (total_max more : ℕ) → more < 2 ^ 64 → IsCache [] (shares total_max) more (new_inner total_max)
unfolding new_inner
new_inner-IsCache total_max more h data_block =
    new_pool-Holds data_block (share 70 total_max) more h
new_inner-IsCache total_max more h filter_block =
    new_pool-Holds filter_block (share 20 total_max) more h
new_inner-IsCache total_max more h index_block =
    new_pool-Holds index_block (index_share total_max) more h

-- On a new cache of any size every run of reads and insertions, of fewer than 2^64 bytes in all, returns, and each read
-- misses or returns the block that was last inserted under its key.
pub run-new_inner :
    (total_max : ℕ) (calls : List Call)
    → stored calls < 2 ^ 64
    → (c' : BlockCacheInner) × (got : List (Option (List ℕ))) × (run calls (new_inner total_max)
        ≡ some (c', got))
      × AreHits got (answers calls [])
run-new_inner total_max calls h =
    run-IsAnswered calls [] (shares total_max) (new_inner total_max)
      (new_inner-IsCache total_max (stored calls) h)
