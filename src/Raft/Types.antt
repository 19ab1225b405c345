-- ===== src/Raft/Types.antt =====
-- The data that the Raft files share: internal/raft/statemachine.go (log entries),
-- internal/raft/errors.go (errors) and internal/raft/transport.go (messages).
use kver.Prelude.{ℕ, Bytes, Bool, Option, List}
use kver.Prelude.Dict.{Dict}

pub data EntryType : Type 0 where
  entry_kv entry_membership entry_noop : EntryType

pub record LogEntry : Type 0 where
  pub index : ℕ
  pub term : ℕ
  pub type : EntryType
  pub command : Bytes

pub data RaftError : Type 0 where
  out_of_range non_contiguous_log corrupt_log storage_unavailable : RaftError
  not_leader leader_not_ready log_compacted snapshot_stale : RaftError
  snapshot_boundary_mismatch invalid_snapshot snapshot_unavailable snapshot_offset : RaftError
  snapshot_checksum snapshot_chunk_mismatch node_unhealthy : RaftError
  membership_change_pending propose_channel_full : RaftError
  -- an error of the file system, the network, the state machine or a library that is passed on
  io_error : RaftError

pub data Result {ℓ} (A : Type ℓ) : Type ℓ where
  ok : A → Result A
  err : RaftError → Result A

pub record AppendEntriesRequest : Type 0 where
  pub term : ℕ
  pub leader_id : Bytes
  pub prev_log_index : ℕ
  pub prev_log_term : ℕ
  pub entries : List LogEntry
  pub leader_commit : ℕ

pub record AppendEntriesResponse : Type 0 where
  pub term : ℕ
  pub success : Bool
  pub conflict_index : ℕ
  pub conflict_term : ℕ

pub record RequestVoteRequest : Type 0 where
  pub term : ℕ
  pub candidate_id : Bytes
  pub last_log_index : ℕ
  pub last_log_term : ℕ
  pub pre_vote : Bool

pub record RequestVoteResponse : Type 0 where
  pub term : ℕ
  pub vote_granted : Bool

-- StateMachine. `apply` takes the time at which it runs; the bytes are a snapshot's.
pub record StateMachine (M : Type 0) : Type 0 where
  pub apply : ℕ → LogEntry → M → M × Option RaftError
  pub snapshot : M → Result Bytes
  pub restore : Bytes → M → M × Option RaftError

pub record SnapshotMeta : Type 0 where
  pub last_included_index : ℕ
  pub last_included_term : ℕ
  pub cluster_config : Dict Bytes

pub record InstallSnapshotRequest : Type 0 where
  pub term : ℕ
  pub leader_id : Bytes
  pub last_included_index : ℕ
  pub last_included_term : ℕ
  pub offset : ℕ
  pub done : Bool
  pub total_size : ℕ
  pub checksum : Bytes
  pub cluster_config : Dict Bytes
  pub chunk : Bytes  -- Data

pub record InstallSnapshotResponse : Type 0 where
  pub term : ℕ
