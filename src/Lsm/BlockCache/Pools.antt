-- ===== src/Lsm/BlockCache/Pools.antt =====
-- storage-node/src/block_cache.rs: the cache of three pools, and runs of reads and insertions.
use wow_db.Prelude.{
  ℕ, ◌+◌, ◌*◌, ◌/◌, ◌%◌, ◌^◌, String, List, [], ◌∷◌, Option, none, some, lookup, insert, length,
}
use wow_db.Lsm.BlockCache.{
  BlockType, data_block, filter_block, index_block, BlockKey, block_key_eq, LruPool, new_pool,
  add_usize, sub_usize, get, insert_block,
}

abbrev pub data_key : String → String → ℕ → BlockKey
data_key partition column segment = record {
  partition = partition;
  column = column;
  segment = segment;
  block_type = data_block;
}

abbrev pub filter_key : String → String → ℕ → BlockKey
filter_key partition column segment = record {
  partition = partition;
  column = column;
  segment = segment;
  block_type = filter_block;
}

abbrev pub index_key : String → String → ℕ → BlockKey
index_key partition column segment = record {
  partition = partition;
  column = column;
  segment = segment;
  block_type = index_block;
}

pub record BlockCacheInner : Type 0 where
  pub data_pool : LruPool
  pub filter_pool : LruPool
  pub index_pool : LruPool
  pub total_max : ℕ

-- `total_max_bytes * percent / 100`
abbrev pub share : ℕ → ℕ → ℕ
share percent total = (total * percent) % 2 ^ 64 / 100

abbrev pub index_share : ℕ → ℕ
index_share total = sub_usize (sub_usize total (share 70 total)) (share 20 total)

unfoldable pub new_inner : ℕ → BlockCacheInner
new_inner total = record {
  data_pool = new_pool (share 70 total) data_block;
  filter_pool = new_pool (share 20 total) filter_block;
  index_pool = new_pool (index_share total) index_block;
  total_max = total;
}

abbrev pub pool_for : BlockType → BlockCacheInner → LruPool
pool_for data_block c = c.data_pool
pool_for filter_block c = c.filter_pool
pool_for index_block c = c.index_pool

-- The cache after a call on the pool that `pool_for` lends.
abbrev pub set_pool : BlockType → LruPool → BlockCacheInner → BlockCacheInner
set_pool data_block p c = record c { data_pool = p }
set_pool filter_block p c = record c { filter_pool = p }
set_pool index_block p c = record c { index_pool = p }

unfoldable pub cache_get : BlockKey → BlockCacheInner → Option (BlockCacheInner × Option (List ℕ))
cache_get k c = elim (get k (pool_for k.block_type c)) [
  | none ↦ none
  | some r ↦ some (set_pool k.block_type r.0 c, r.1)
]

unfoldable pub cache_insert : BlockKey → List ℕ → BlockCacheInner → Option BlockCacheInner
cache_insert k value c = elim (insert_block k value (pool_for k.block_type c)) [
  | none ↦ none
  | some p ↦ some (set_pool k.block_type p c)
]

abbrev pub cache_used_bytes : BlockCacheInner → ℕ
cache_used_bytes c =
    add_usize (add_usize c.data_pool.used_bytes c.filter_pool.used_bytes) c.index_pool.used_bytes

pub record PoolStats : Type 0 where
  pub data_used : ℕ
  pub data_max : ℕ
  pub filter_used : ℕ
  pub filter_max : ℕ
  pub index_used : ℕ
  pub index_max : ℕ

abbrev pub pool_stats : BlockCacheInner → PoolStats
pool_stats c = record {
  data_used = c.data_pool.used_bytes;
  data_max = c.data_pool.max_bytes;
  filter_used = c.filter_pool.used_bytes;
  filter_max = c.filter_pool.max_bytes;
  index_used = c.index_pool.used_bytes;
  index_max = c.index_pool.max_bytes;
}

-- The calls of a client.
pub data Call : Type 0 where
  read_block : BlockKey → Call
  store_block : BlockKey → List ℕ → Call

unfoldable pub run : List Call → BlockCacheInner → Option (BlockCacheInner × List (Option (List ℕ)))
run [] c = some (c, [])
run (read_block k ∷ calls) c = elim (cache_get k c) [
  | none ↦ none
  | some r ↦ elim (run calls r.0) [ none ↦ none | some q ↦ some (q.0, r.1 ∷ q.1) ]
]
run (store_block k value ∷ calls) c = elim (cache_insert k value c) [
  | none ↦ none
  | some c' ↦ run calls c'
]

-- What a map without bounds answers to the reads.
unfoldable pub answers : List Call → List (BlockKey × List ℕ) → List (Option (List ℕ))
answers [] m = []
answers (read_block k ∷ calls) m = lookup k m ∷ answers calls m
answers (store_block k value ∷ calls) m = answers calls (insert k value m)

-- The bytes that a client stores.
abbrev pub stored : List Call → ℕ
stored [] = 0
stored (read_block k ∷ calls) = stored calls
stored (store_block k value ∷ calls) = length value + stored calls
