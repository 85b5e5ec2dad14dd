-- ===== src/Analytics.antt =====
-- The behavioural analytics of the compute node.
pub mod Funnel
pub mod Sessionize
