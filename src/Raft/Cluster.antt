-- ===== src/Raft/Cluster.antt =====
-- A cluster of nodes: what the handlers of internal/raft/election.go come to together.
pub mod Histories
pub mod Votes
pub mod Elections
