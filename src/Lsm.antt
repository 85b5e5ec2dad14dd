-- ===== src/Lsm.antt =====
-- storage-node/src/lsm: the storage engine of one partition.
pub mod Sst
pub mod Levels
pub mod Manifest
pub mod Compaction
pub mod Wal
pub mod MemTable
pub mod Bloom
pub mod BlockCache
