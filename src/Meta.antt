-- ===== src/Meta.antt =====
-- The metadata of the query node: the read-only state of the cluster, and the map from shards to nodes.
pub mod ClusterGuard
pub mod ShardMap
pub mod Rebalance
