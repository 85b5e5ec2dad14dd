-- ===== src/Lib.antt =====
-- A model of the storage, transaction, metadata and analytics core of wow-db, and theorems about it.
--
-- A storage node keeps each partition as an LSM tree. A write goes to the write-ahead log; a memtable
-- that is full becomes a file of level L0; compactions merge the files of a level into the next; the
-- manifest logs which files are active, and is replayed at a restart. A Bloom filter tells which keys
-- a file cannot have, a cache keeps blocks of files, indexes tell which granules of a column a query
-- can skip, and a column is written in one of four encodings. Transactions run over several nodes by
-- two-phase commit: the query node has the coordinator's table, each storage node a participant's. The
-- query node also keeps whether the cluster is read-only, and on which nodes the replicas of a shard
-- are, and plans their moves. A monitor on each node watches its disks, and that of a query node makes
-- the cluster read-only. The compute node finds funnels and sessions in the events of users.
--
-- The parts, the files that model them, and the code:
--   Lsm/Wal         storage-node/src/lsm/wal.rs: records, segments, replay, truncation; Lsm/Wal/GroupCommit: the
--                   buffer of writes that wait, and the threads that append, flush and sync
--   Lsm/Sst         storage-node/src/lsm/levels.rs: `SstRef`
--   Lsm/Levels      storage-node/src/lsm/levels.rs: `PartitionLevels`, `CompactionConfig`
--   Lsm/Manifest    storage-node/src/lsm/manifest.rs
--   Lsm/Compaction  storage-node/src/lsm/compaction.rs, and the scores of levels.rs
--   Lsm/MemTable    storage-node/src/lsm/memtable.rs, and `SortKey` of shared/src/types.rs
--   Lsm/Bloom       storage-node/src/lsm/bloom.rs
--   Lsm/BlockCache  storage-node/src/block_cache.rs; Lsm/BlockCache/Policy: the lists that its links stand for
--   Disk/Sn, Disk/Qn  storage-node/src/disk_monitor.rs and query-node/src/disk_monitor.rs, over Meta/ClusterGuard
--   Columnar/Encoding, Columnar/BitPacking  storage-node/src/columnar/encoding.rs
--   Index/MinMax, Index/Set, Index/NgramBf  storage-node/src/index/minmax.rs, storage-node/src/index/set_index.rs and
--                   storage-node/src/index/ngrambf.rs
--   Tx/Sn           storage-node/src/transaction.rs
--   Tx/Qn           query-node/src/transaction.rs
--   Meta/ClusterGuard  query-node/src/meta/cluster_guard.rs, over the store of raft/mod.rs
--   Meta/ShardMap   query-node/src/meta/shard_map.rs
--   Meta/Rebalance  query-node/src/meta/rebalance/planner.rs
--   Analytics/Funnel     compute-node/src/executor/analytics/funnel.rs
--   Analytics/Sessionize compute-node/src/analytics/sessionize.rs
--   Prelude         what all of them use: tests, lists, maps, results, bytes, bits, words, sorting, slices
--   Examples        the theorems at concrete inputs
-- A definition has the name of the Rust function or type that it models; where a function is split,
-- the comment at the helper says which loop or arm it is. A method takes the object and returns the
-- new one. `PartitionCompactor` of Lsm/Compaction calls `PartitionLevels` and `Manifest` as the code
-- does.
--
-- State and values. A struct is a record, a `HashMap` or a directory an association list, an `Arc`
-- what it points to. Numbers are ℕ; `% 2 ^ 64` stands where a `u64` wraps around in a release build. A
-- `Result` is `Result`, and `none` a panic where a comment says so. A call that holds its lock
-- throughout is one step; `MemTableSet::insert` is two, and the shard map's `register` and `lookup`
-- are two each, since the look at the cache changes nothing. The shard map and the group commit are
-- step relations: each step is what one call or thread does under a lock, one flush, which may fail,
-- or one notification. An `i64` is its word of 64 bits. Clocks, new ids and the outcome of a write are
-- arguments. Keys are compared byte by byte, as `Vec<u8>` is.
--
-- Parameters: the CRC (`Crc32`), the JSON of a line (`JsonLines`), the f64 scores (`Float64`), new ids
-- and paths (`Host`), the comparison of f64 usages (`Ratios`), the skip list (`SkipMap`), the Bloom
-- filter of a library (`Blooms`), the JSON of the read-only state (`Text`) and of a filter (`Json`).
-- Their laws are fields of the records: a hash fits 32 bits, what is printed is read back, an
-- insertion adds one entry, what is set in a filter of the library is found, and a filter is made for
-- a rate between 0 and 1. `xxh3_128`, `optimal_k` (a rounded float), `Uuid::new_v4` and the
-- comparisons of `Ratios` are functions of which nothing is assumed.
--
-- Fuel: the loop of `replay_segment` takes one more than the bytes of the segment; each turn consumes
-- the 16 bytes of a header. `put_bytes` takes the digits in the accumulator; each turn takes eight.
-- `give` takes one more than the donors that are left and the shards that are lacking; each turn
-- passes a donor or gives a shard. `chunks` takes the number of keys; each turn takes one at least.
-- The eviction of `insert_block` takes one more than the blocks and their resistances; each turn takes
-- one of these away. So the fuel is enough in each. `bit_length` counts at most the 32 digits of a
-- `u32`.
--
-- Not modelled: SSTable contents; the caches of the query and compute nodes;
-- storage-node/src/index/bloom_index.rs; the query node's parser, planner and executors; network, file
-- and web interfaces. A failed append leaves no part of a line in the manifest, and a rewrite of the
-- manifest does not fail. Averages, rates and costs that are floats are left out.
pub mod Prelude
pub mod Lsm
pub mod Tx
pub mod Meta
pub mod Columnar
pub mod Analytics
pub mod Disk
pub mod Index
pub mod Examples
