-- ===== src/Raft/Node.antt =====
-- internal/raft/raft.go (the node and `stepDown`), internal/raft/persistent_state.go, and
-- `markFatalLocked` of internal/raft/snapshot.go. `NewRaftNode` always makes a log and a persistent
-- state, so the tests of those two for nil have no counterpart.
pub mod Advances
use kver.Prelude.{
  ℕ, Bytes, Bool, true, false, Option, none, some, List, [], ◌++◌, map, ltb, if◌then◌else◌,
}
use kver.Prelude.Dict.{Dict}
use kver.Raft.Types.{SnapshotMeta, RaftError, not_leader, storage_unavailable, io_error}
use kver.Raft.Log.{RaftLog}

pub data NodeState : Type 0 where
  follower pre_candidate candidate leader : NodeState

unfoldable pub is_leader : NodeState → Bool
is_leader leader = true
is_leader _ = false

unfoldable pub is_follower : NodeState → Bool
is_follower follower = true
is_follower _ = false

pub record Config : Type 0 where
  pub node_id : Bytes
  pub election_timeout_min : ℕ
  pub max_log_entries_per_rpc : ℕ
  pub snapshot_threshold : ℕ
  pub data_dir : Bool  -- DataDir != ""
  pub snapshot_chunk_size : ℕ
  pub max_snapshot_size : ℕ

-- The term and the vote as last handed over, and as they stand in the file.
pub record PersistentState : Type 0 where
  pub current_term : ℕ
  pub voted_for : Bytes
  pub durable : Bool  -- dataDir != ""
  pub file : Option (ℕ × Bytes)

-- installSnapshotState: what has arrived of a snapshot. `contents` is the file, or the slice of a
-- node without a directory.
pub record InstallState : Type 0 where
  pub meta : SnapshotMeta
  pub checksum : Bytes
  pub total_size : ℕ
  pub next_offset : ℕ
  pub contents : Bytes

pub record RaftNode : Type 0 where
  pub config : Config
  pub state : NodeState
  pub current_term : ℕ
  pub voted_for : Bytes
  pub log : RaftLog
  pub persistent_state : PersistentState
  pub commit_index : ℕ
  pub last_applied : ℕ
  pub next_index : Dict ℕ
  pub match_index : Dict ℕ
  pub peers : Dict Bytes  -- clusterConfig.Peers
  pub pending_membership : Bool
  pub snapshot_meta : SnapshotMeta
  pub snapshot_bytes : Bytes  -- snapshotData
  pub snapshot_file : Option Bytes  -- the file at snapshotDataPath()
  pub install_snapshot : Option InstallState
  pub fatal : Bool  -- fatalErr != nil
  pub last_heartbeat : ℕ
  pub leader_id : Bytes
  pub noop_committed : Bool
  pub commit_signal : Bool  -- commitCh holds a token
  pub apply_signal : Bool  -- applyCh holds a token
  pub waiters : List (ℕ × ℕ)  -- log index, number of the request
  pub replies : List (ℕ × Option RaftError)  -- what the requests were sent

-- `saved` is false where a call of the file system fails; the file is replaced by a rename, last.
unfoldable pub save_term_and_vote :
    Bool → ℕ → Bytes → PersistentState → PersistentState × Option RaftError
save_term_and_vote saved term vote ps =
    let ps' = record ps { current_term = term; voted_for = vote } in
    if ps.durable
    then (if saved then (record ps' { file = some (term, vote) }, none) else (ps', some io_error))
    else (ps', none)

-- The node's lock is released while the term and the vote are saved: what other goroutines do
-- before and after the save, whether it succeeds, and the time at which the lock is held again.
pub record Window : Type 0 where
  pub before : RaftNode → RaftNode
  pub saved : Bool
  pub after : RaftNode → RaftNode
  pub now : ℕ

-- The values are read before the lock is released, and the error of the save is dropped.
unfoldable pub release : Window → RaftNode → RaftNode
unfolding save_term_and_vote
release w r =
    let others = w.before r in
    w.after (record others {
      persistent_state =
          (save_term_and_vote w.saved r.current_term r.voted_for others.persistent_state).0;
    })

notify_not_leader : RaftNode → RaftNode
notify_not_leader r = record r {
  replies = r.replies ++ map (λ waiter. (waiter.1, some not_leader)) r.waiters;
  waiters = [];
}

-- The fields that `stepDown` sets before it saves.
unfoldable pub become_follower : ℕ → ℕ → RaftNode → RaftNode
become_follower now term r =
    let newer = ltb r.current_term term in
    record r {
      state = follower;
      current_term = if newer then term else r.current_term;
      voted_for = if newer then [] else r.voted_for;
      leader_id = [];
      noop_committed = false;
      last_heartbeat = now;
    }

unfoldable pub step_down : Window → ℕ → ℕ → RaftNode → RaftNode
unfolding become_follower release notify_not_leader
step_down w now term r = notify_not_leader (release w (become_follower now term r))

unfoldable pub mark_fatal : RaftNode → RaftNode
mark_fatal r = record r { fatal = true; state = follower; noop_committed = false }

-- markStorageFailureLocked
unfoldable pub mark_storage_failure : RaftError → RaftNode → RaftNode
unfolding mark_fatal
mark_storage_failure storage_unavailable r = mark_fatal r
mark_storage_failure _ r = r

-- No other goroutine uses the time in which the lock is released.
abbrev pub quiet : Bool → ℕ → Window
quiet saved now = record { before = λ r. r; saved = saved; after = λ r. r; now = now }
