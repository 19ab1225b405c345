-- ===== src/Raft.antt =====
-- The consensus package, internal/raft.
pub mod Types
pub mod Log
pub mod Node
pub mod Vote
pub mod Append
pub mod Commit
pub mod Election
pub mod Membership
pub mod Machine
pub mod Snapshot
pub mod Replicate
pub mod ReadIndex
pub mod Batch
pub mod PreVote
pub mod Cluster
pub mod Restart
pub mod Heartbeat
pub mod Transport
