-- ===== src/Raft/Restart.antt =====
-- The start of a node: `NewRaftNode` of internal/raft/raft.go, up to the start of its goroutines,
-- and `newPersistentState` of internal/raft/persistent_state.go.
pub mod Keeps
use kver.Prelude.{ℕ, Bytes, Bool, true, false, not, Option, none, some, [], if◌then◌else◌}
use kver.Prelude.Dict
use kver.Prelude.Dict.{Dict}
use kver.Raft.Types.{RaftError, Result, ok, err, StateMachine}
use kver.Raft.Log.{RaftLog, Rewrite, Wal}
use kver.Raft.Log.Load.{new_raft_log_with_wal}
use kver.Raft.Node.{RaftNode, Config, PersistentState, follower}
use kver.Raft.Snapshot.Artifact.{ArtifactCodec}
use kver.Raft.Snapshot.{load_snapshot_from_disk}

-- What a node finds in its directory: the file of the term and the vote as ReadFile and
-- json.Unmarshal give it, the WAL, whether it can be opened, and the files of a snapshot.
pub record Disk : Type 0 where
  pub state_file : Result (Option (ℕ × Bytes))
  pub wal : Option Wal
  pub wal_opened : Bool
  pub header_io : Rewrite
  pub snapshot_file : Option Bytes
  pub meta_file : Option Bytes
  pub log_io : Rewrite
  pub file_io : Rewrite

saved_state : Result (Option (ℕ × Bytes)) → Result PersistentState
saved_state (err e) = err e
saved_state (ok none) =
    ok (record { current_term = 0; voted_for = []; durable = true; file = none })
saved_state (ok (some (term, vote))) =
    ok (record { current_term = term; voted_for = vote; durable = true; file = some (term, vote) })

unfoldable pub new_persistent_state : Bool → Result (Option (ℕ × Bytes)) → Result PersistentState
unfolding saved_state
new_persistent_state durable file =
    if durable
    then saved_state file
    else ok (record { current_term = 0; voted_for = []; durable = false; file = none })

-- The node as it starts; `peers` are those of the configuration, and `now` includes the initial
-- delay of elections.
unfoldable pub fresh_node :
    Config → Dict Bytes → ℕ → Option Bytes → PersistentState → RaftLog → RaftNode
fresh_node config peers now snapshot_file ps l = record {
  config = config;
  state = follower;
  current_term = ps.current_term;
  voted_for = ps.voted_for;
  log = l;
  persistent_state = ps;
  commit_index = 0;
  last_applied = 0;
  next_index = [];
  match_index = [];
  peers = Dict.put peers config.node_id [];
  pending_membership = false;
  snapshot_meta = record { last_included_index = 0; last_included_term = 0; cluster_config = [] };
  snapshot_bytes = [];
  snapshot_file = snapshot_file;
  install_snapshot = none;
  fatal = false;
  last_heartbeat = now;
  leader_id = [];
  noop_committed = false;
  commit_signal = false;
  apply_signal = false;
  waiters = [];
  replies = [];
}

module _ {M : Type 0} (codec : ArtifactCodec) (sm : StateMachine M) where
  loaded : (RaftNode × M) × Option RaftError → Result (RaftNode × M)
  loaded (x, none) = ok x
  loaded (x, some e) = err e

  with_log :
      Config → Dict Bytes → ℕ → Disk → PersistentState → M → Result RaftLog → Result (RaftNode × M)
  unfolding loaded fresh_node load_snapshot_from_disk
  with_log config peers now disk ps m (err e) = err e
  with_log config peers now disk ps m (ok l) = loaded (
      load_snapshot_from_disk codec sm disk.log_io disk.file_io disk.meta_file
        (fresh_node config peers now disk.snapshot_file ps l, m))

  with_state : Config → Dict Bytes → ℕ → Disk → M → Result PersistentState → Result (RaftNode × M)
  unfolding with_log new_raft_log_with_wal
  with_state config peers now disk m (err e) = err e
  with_state config peers now disk m (ok ps) =
      with_log config peers now disk ps m
        (new_raft_log_with_wal config.data_dir disk.header_io disk.wal_opened disk.wal)

  -- NewRaftNode
  unfoldable pub new_raft_node : Config → Dict Bytes → ℕ → Disk → M → Result (RaftNode × M)
  unfolding with_state new_persistent_state
  new_raft_node config peers now disk m =
      with_state config peers now disk m (new_persistent_state config.data_dir disk.state_file)
