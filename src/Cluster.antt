-- ===== src/Cluster.antt =====
-- src/cluster: replication.
pub mod Replication
pub mod Link
