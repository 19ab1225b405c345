-- ===== src/Tests/Raft.antt =====
-- The consensus part, internal/raft, at concrete inputs.
use kver.Prelude.{
  ℕ, ◌<◌, ◌≡◌, ◌⊎◌, refl, codes, Bool, true, false, none, some, List, [], ◌∷◌, ◌++◌, arith, min,
  inl, bytes_eq,
}
use kver.Raft.Types.{
  LogEntry, entry_kv, storage_unavailable, AppendEntriesRequest, RequestVoteRequest,
}
use kver.Raft.Log.{
  RaftLog, rewritten, written, torn, append, truncate_after, compact_up_to,
  restore_snapshot_boundary, term_at, get_entry, last_index, last_term, validate_entry_sequence,
}
use kver.Raft.Log.WellFormed.{IsWellFormed}
use kver.Raft.Log.Load.{load_from_disk, new_raft_log_with_wal}
use kver.Raft.Log.Writes.{append_op, run_write, run_write-IsWellFormed}
use kver.Raft.Node.{RaftNode, follower, quiet, step_down}
use kver.Raft.Node.Advances.{Advances, Advances-refl, IsSteady}
use kver.Raft.Vote.{handle_request_vote, up_to_date, leader_alive}
use kver.Raft.Vote.Safety.{handle_request_vote-Advances, vote_once}
use kver.Raft.Vote.Effects.{answer_ignores_failed_save, vote_meanwhile, vote_overwritten}
use kver.Raft.Append.{
  heard_leader, process_append_entries, store_entries, check_previous, check_indices,
}
use kver.Raft.Append.Advances.{process_append_entries-Advances}
use kver.Raft.Append.Matching.{Matched}
use kver.Raft.Append.Success.{HasPrevious, success-Matched}
use kver.Raft.Append.Commit.{FollowsCommit, commit_index_bounds, commits_unverified}

abbrev pub entry : ℕ → ℕ → LogEntry
entry i t = record { index = i; term = t; type = entry_kv; command = [] }

abbrev three : List LogEntry
three = entry 1 1 ∷ entry 2 1 ∷ entry 3 2 ∷ []

abbrev pub log_of_three : RaftLog
log_of_three = record {
  entries = three;
  durable = true;
  wal_open = true;
  base_index = 0;
  base_term = 0;
  boundary_known = true;
  storage_failed = false;
  wal_has_header = true;
  legacy_wal = false;
  wal = record { header = some (0, 0); records = three };
}

pub log_of_three-IsWellFormed : IsWellFormed log_of_three
log_of_three-IsWellFormed = record {
  contiguous = (refl, (refl, (refl, tt)));
  fits = omega arith;
  zero_boundary = λ _. (refl, refl);
  mirror = λ _ _. record { is_open = refl; same_records = refl; same_boundary = λ _. refl };
}

log_program : Unit {0}
unfolding append truncate_after compact_up_to restore_snapshot_boundary term_at get_entry last_index
    last_term validate_entry_sequence load_from_disk new_raft_log_with_wal run_write
log_program = tt

-- Appends, a gap that is refused, and a write after which the file could not be cut back.
append_runs :
    ((append written (entry 4 2 ∷ []) log_of_three).0.entries ≡ three ++ entry 4 2 ∷ [])
    × ((append written (entry 5 2 ∷ []) log_of_three).0.entries ≡ three)
    × ((append (torn 1) (entry 4 2 ∷ []) log_of_three).1 ≡ some storage_unavailable)
unfolding log_program
append_runs = (refl, refl, refl)

run_write-IsWellFormed_example :
    IsWellFormed (run_write (append_op (torn 1) (entry 4 2 ∷ [])) log_of_three).0
run_write-IsWellFormed_example =
    run_write-IsWellFormed (append_op (torn 1) (entry 4 2 ∷ [])) log_of_three
      log_of_three-IsWellFormed (omega arith)

abbrev broken : RaftLog
broken = record log_of_three { storage_failed = true }

abbrev pub node : RaftNode
node = record {
  config = record {
    node_id = codes "n1";
    election_timeout_min = 150;
    max_log_entries_per_rpc = 100;
    snapshot_threshold = 10000;
    data_dir = true;
    snapshot_chunk_size = 4;
    max_snapshot_size = 1000;
  };
  state = follower;
  current_term = 2;
  voted_for = [];
  log = log_of_three;
  persistent_state = record {
    current_term = 2;
    voted_for = [];
    durable = true;
    file = some (2, []);
  };
  commit_index = 1;
  last_applied = 1;
  next_index = [];
  match_index = [];
  peers = (codes "n1", []) ∷ (codes "n2", []) ∷ (codes "n3", []) ∷ [];
  pending_membership = false;
  snapshot_meta = record { last_included_index = 0; last_included_term = 0; cluster_config = [] };
  snapshot_bytes = [];
  snapshot_file = none;
  install_snapshot = none;
  fatal = false;
  last_heartbeat = 0;
  leader_id = [];
  noop_committed = false;
  commit_signal = false;
  apply_signal = false;
  waiters = [];
  replies = [];
}

abbrev ask : ℕ → RequestVoteRequest
ask term = record {
  term = term;
  candidate_id = codes "n2";
  last_log_index = 3;
  last_log_term = 2;
  pre_vote = false;
}

pub quiet-IsSteady : (saved : Bool) (now : ℕ) → IsSteady (quiet saved now)
quiet-IsSteady saved now = record { before = Advances-refl; after = Advances-refl }

node_program : Unit {0}
unfolding log_program handle_request_vote up_to_date leader_alive bytes_eq step_down heard_leader
    process_append_entries store_entries check_previous check_indices
node_program = tt

-- A vote in a new term, with the term and the vote in the file.
vote_runs :
    ((handle_request_vote (quiet true 9) (quiet true 9) 9 (some (ask 3)) node).1.vote_granted
      ≡ true)
    × ((handle_request_vote
          (quiet true 9)
          (quiet true 9)
          9
          (some (ask 3))
          node).0.persistent_state.file
        ≡ some (3, codes "n2"))
    × ((handle_request_vote (quiet true 9) (quiet true 9) 9 (some (ask 1)) node).1.vote_granted
        ≡ false)
unfolding node_program
vote_runs = (refl, refl, refl)

handle_request_vote-Advances_example :
    Advances node (handle_request_vote (quiet true 9) (quiet true 9) 9 (some (ask 3)) node).0
handle_request_vote-Advances_example =
    handle_request_vote-Advances (quiet true 9) (quiet true 9) 9 (some (ask 3)) node
      (quiet-IsSteady true 9) (quiet-IsSteady true 9)

abbrev pre_ask : RequestVoteRequest
pre_ask = record (ask 3) { pre_vote = true }

abbrev voted : RaftNode
voted = record node { voted_for = codes "n2" }

vote_once_example : codes "n2" ≡ codes "n2"
unfolding node_program
vote_once_example = vote_once (quiet true 9) (quiet true 9) 9 (ask 2) voted refl refl (λ e. cc) refl

answer_ignores_failed_save_example :
    ((handle_request_vote (quiet false 9) (quiet false 9) 9 (some (ask 3)) node).1
      ≡ (handle_request_vote (quiet true 9) (quiet true 9) 9 (some (ask 3)) node).1)
    × ((handle_request_vote
          (quiet false 9)
          (quiet false 9)
          9
          (some (ask 3))
          node).0.persistent_state.file
        ≡ some (2, []))
answer_ignores_failed_save_example = answer_ignores_failed_save 9 9 9 (ask 3) node

vote_overwritten_example :
    ((step_down (vote_meanwhile 9 (ask 3)) 9 3 node).current_term ≡ 3)
    × ((step_down (vote_meanwhile 9 (ask 3)) 9 3 node).voted_for ≡ codes "n2")
    × ((step_down (vote_meanwhile 9 (ask 3)) 9 3 node).persistent_state.file ≡ some (3, []))
unfolding node_program
vote_overwritten_example = vote_overwritten 9 (ask 3) node refl (omega arith) refl refl refl

-- Entries that replace the third one of the log, which is of an older term.
abbrev send : AppendEntriesRequest
send = record {
  term = 3;
  leader_id = codes "n3";
  prev_log_index = 2;
  prev_log_term = 1;
  entries = entry 3 3 ∷ entry 4 3 ∷ [];
  leader_commit = 3;
}

append_entries_run :
    ((process_append_entries (quiet true 9) rewritten written 9 (some send) node).0.log.entries
      ≡ entry 1 1 ∷ entry 2 1 ∷ entry 3 3 ∷ entry 4 3 ∷ [])
    × ((process_append_entries (quiet true 9) rewritten written 9 (some send) node).0.commit_index
        ≡ 3)
unfolding node_program
append_entries_run = (refl, refl)

success-Matched_example :
    HasPrevious send (heard_leader (quiet true 9) 9 send node).log
    × Matched
        (heard_leader (quiet true 9) 9 send node).log
        (process_append_entries (quiet true 9) rewritten written 9 (some send) node).0.log
        3
        (entry 3 3 ∷ entry 4 3 ∷ [])
unfolding node_program
success-Matched_example =
    success-Matched (quiet true 9) rewritten written 9 send node log_of_three-IsWellFormed
      (omega arith) refl

process_append_entries-Advances_example :
    Advances node (process_append_entries (quiet true 9) rewritten written 9 (some send) node).0
process_append_entries-Advances_example =
    process_append_entries-Advances (quiet true 9) rewritten written 9 (some send) node
      (quiet-IsSteady true 9)

commit_index_bounds_example :
    (FollowsCommit send
      (heard_leader (quiet true 9) 9 send node)
      (process_append_entries (quiet true 9) rewritten written 9 (some send) node).0)
    ⊎ (((node.fatal ≡ true) ⊎ (3 < node.current_term))
        × ((process_append_entries (quiet true 9) rewritten written 9 (some send) node).0 ≡ node))
commit_index_bounds_example = commit_index_bounds (quiet true 9) rewritten written 9 send node

-- The leader's first batch ends in front of the entry that its log does not have.
abbrev batch : AppendEntriesRequest
batch = record {
  term = 2;
  leader_id = codes "n3";
  prev_log_index = 0;
  prev_log_term = 0;
  entries = entry 1 1 ∷ entry 2 1 ∷ [];
  leader_commit = 5;
}

commits_unverified_example :
    ((process_append_entries (quiet true 9) rewritten written 9 (some batch) node).0.log
      ≡ log_of_three)
    × ((process_append_entries (quiet true 9) rewritten written 9 (some batch) node).0.commit_index
        ≡ min 5 (last_index log_of_three))
unfolding node_program
commits_unverified_example =
    commits_unverified (quiet true 9) rewritten written 9 batch node refl refl refl
      (inl (refl, refl)) (omega arith) (refl, (refl, tt)) (refl, (refl, tt)) (omega arith)
