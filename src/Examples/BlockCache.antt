-- ===== src/Examples/BlockCache.antt =====
-- storage-node/src/block_cache.rs at concrete inputs.
use wow_db.Prelude.{
  ℕ, ◌≤◌, ◌≡◌, ◌⊎◌, refl, arith, List, [], ◌∷◌, ◌++◌, Option, none, some, length, lookup,
}
use wow_db.Lsm.BlockCache.{data_block, BlockKey, block_key_eq, LruPool, insert_block}
use wow_db.Lsm.BlockCache.Segments.{Entry}
use wow_db.Lsm.BlockCache.Links.{IsPool}
use wow_db.Lsm.BlockCache.Policy.{IsNeeded}
use wow_db.Lsm.BlockCache.Evict.{IsLeft}
use wow_db.Lsm.BlockCache.Insertions.{fresh, insert_block_room, insert_block_lru}
use wow_db.Lsm.BlockCache.Pools.{
  BlockCacheInner, new_inner, data_key, filter_key, Call, read_block, store_block, run, answers,
}
use wow_db.Lsm.BlockCache.Runs.{AreHits, run-new_inner}

abbrev key_of : ℕ → BlockKey
key_of segment = data_key "p" "c" segment

abbrev block : List ℕ
block = 1 ∷ 2 ∷ 3 ∷ 4 ∷ []

abbrev two_blocks : List Entry
two_blocks = fresh (key_of 2) block data_block ∷ fresh (key_of 1) block data_block ∷ []

-- 4 of 10 bytes are free, and 4 are with the older block.
abbrev pool_of_two : LruPool
pool_of_two = record {
  map =
      (
        key_of 1,
        record { key = key_of 1; value = block; resist = 0; prev = some (key_of 2); next = none },
      )
      ∷ (
        key_of 2,
        record { key = key_of 2; value = block; resist = 0; prev = none; next = some (key_of 1) },
      )
      ∷ [];
  head = some (key_of 2);
  tail = some (key_of 1);
  used_bytes = 8;
  max_bytes = 10;
  block_type = data_block;
}

pool_of_two-IsLeft : IsLeft data_block 10 pool_of_two two_blocks
unfolding lookup
pool_of_two-IsLeft = record {
  pool = record {
    linked = (refl, (refl, tt));
    distinct = ((refl, tt), (tt, tt));
    head = refl;
    tail = refl;
    only = λ j a. rw (a.0, a.1.0) refl;
    used = refl;
  };
  max_bytes = refl;
  block_type = refl;
}

no_third : lookup (key_of 3) pool_of_two.map ≡ none
unfolding lookup
no_third = refl

abbrev calls : List Call
calls =
    store_block (key_of 1) block
    ∷ store_block (filter_key "p" "c" 1) (7 ∷ [])
    ∷ store_block (key_of 2) block
    ∷ read_block (key_of 1)
    ∷ read_block (filter_key "p" "c" 1)
    ∷ []

run-new_inner_example :
    (c' : BlockCacheInner) × (got : List (Option (List ℕ))) × (run calls (new_inner 10)
      ≡ some (c', got))
    × AreHits got (answers calls [])
run-new_inner_example = run-new_inner 10 calls (omega arith)

insert_block_room_example :
    (p' : LruPool) × (insert_block (key_of 3) block pool_of_two ≡ some p')
    × ((p'.used_bytes ≤ p'.max_bytes) ⊎ (p'.used_bytes ≡ length block))
insert_block_room_example =
    insert_block_room (key_of 3) block data_block 10 pool_of_two two_blocks pool_of_two-IsLeft
      no_third (omega arith)

insert_block_lru_example :
    (p' : LruPool) × (kept : List Entry) × (dropped : List Entry) × (insert_block
        (key_of 3)
        block
        pool_of_two
      ≡ some p')
    × IsPool p' (fresh (key_of 3) block data_block ∷ kept)
    × (two_blocks ≡ kept ++ dropped)
    × IsNeeded 10 (length block) kept dropped
insert_block_lru_example =
    insert_block_lru (key_of 3) block data_block 10 pool_of_two two_blocks pool_of_two-IsLeft refl
      no_third (omega arith)
