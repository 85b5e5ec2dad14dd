-- ===== src/Examples.antt =====
-- The theorems at concrete inputs, one module for each part.
mod Wal
mod Log
mod Levels
mod Compaction
mod Tx
mod MemTable
mod Meta
mod GroupCommit
mod Columnar
mod Rebalance
mod Analytics
mod Bloom
mod BlockCache
mod Disk
mod Index
