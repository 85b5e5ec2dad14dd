-- ===== src/Tx.antt =====
-- Two-phase commit: the storage node's side (storage-node/src/transaction.rs) and the query node's side
-- (query-node/src/transaction.rs).
pub mod Sn
pub mod Qn
