-- ===== src/Tests.antt =====
-- Concrete runs, and the theorems at concrete inputs.
mod Raft
mod Leader
mod Cluster
mod Restart
mod Kv
mod SkipList
mod Server
mod Storage
mod Snapshot
mod Replicate
