-- ===== src/Raft/Commit.antt =====
-- The leader's side of a commit: `Majority` of internal/raft/membership.go, `advanceCommitIndex` of
-- internal/raft/replication.go, and `initLeaderState` of internal/raft/raft.go.
pub mod Quorum
pub mod Leader
pub mod Start
use kver.Prelude.{
  ℕ, zero, suc, ◌+◌, ◌/◌, Bytes, bytes_eq, true, Option, none, some, List, [], ◌∷◌, ltb, leb, ◌==◌,
  if◌then◌else◌, add64, length,
}
use kver.Prelude.Dict
use kver.Prelude.Dict.{Dict}
use kver.Raft.Types.{LogEntry, entry_noop, RaftError, node_unhealthy, Result, ok, err}
use kver.Raft.Log.{RaftLog, Written, last_index, get_entry, append}
use kver.Raft.Node.{RaftNode, is_leader}

-- ClusterConfig.Size and ClusterConfig.Majority
unfoldable pub majority : Dict Bytes → ℕ
majority peers = length peers / 2 + 1

or_zero : Option ℕ → ℕ
or_zero none = 0
or_zero (some n) = n

-- matchIndex[peerID], which is zero for a peer that is missing.
unfoldable pub match_of : Dict ℕ → Bytes → ℕ
unfolding or_zero
match_of match peer = or_zero (Dict.get match peer)

-- The other peers that have the entry at `n`.
unfoldable pub count_matches : Bytes → ℕ → Dict ℕ → Dict Bytes → ℕ
unfolding match_of
count_matches self n match [] = 0
count_matches self n match ((peer, address) ∷ peers) =
    let count = count_matches self n match peers in
    if bytes_eq peer self then count else if leb n (match_of match peer) then suc count else count

unfoldable pub replicas : RaftNode → ℕ → ℕ
unfolding count_matches
replicas r n = 1 + count_matches r.config.node_id n r.match_index r.peers

-- One round of the loop: `rest` is what the lower indices give.
unfoldable pub commit_at : RaftNode → ℕ → Option ℕ → Result LogEntry → Option ℕ
unfolding majority replicas
commit_at r n rest (err e) = rest
commit_at r n rest (ok entry) =
    if entry.term == r.current_term
    then (if leb (majority r.peers) (replicas r n) then some n else rest)
    else none

-- The loop, downwards from the given index.
unfoldable pub search_commit : RaftNode → ℕ → Option ℕ
unfolding commit_at
search_commit r zero = none
search_commit r (suc n) =
    let rest = search_commit r n in
    if ltb r.commit_index (suc n) then commit_at r (suc n) rest (get_entry r.log (suc n)) else none

commit_found : Option ℕ → RaftNode → RaftNode
commit_found none r = r
commit_found (some n) r = record r { commit_index = n; commit_signal = true }

unfoldable pub advance_commit_index : RaftNode → RaftNode
unfolding is_leader search_commit commit_found
advance_commit_index r =
    if is_leader r.state then commit_found (search_commit r (last_index r.log)) r else r

-- The entries of the two maps for the other peers.
unfoldable pub reset_peers : Bytes → ℕ → Dict Bytes → Dict ℕ → Dict ℕ
reset_peers self value [] indices = indices
reset_peers self value ((peer, address) ∷ peers) indices =
    reset_peers self value peers
      (if bytes_eq peer self then indices else Dict.put indices peer value)

commit_noop : RaftNode → RaftLog × Option RaftError → RaftNode × Option RaftError
unfolding advance_commit_index
commit_noop r (l, some e) = (record r { log = l }, some e)
commit_noop r (l, none) = (advance_commit_index (record r { log = l }), none)

-- The maps of a leader that starts, and its first entry.
unfoldable pub reset_indices : RaftNode → RaftNode
unfolding reset_peers
reset_indices r = record r {
  next_index = reset_peers r.config.node_id (add64 (last_index r.log) 1) r.peers r.next_index;
  match_index = reset_peers r.config.node_id 0 r.peers r.match_index;
}

unfoldable pub noop_entry : RaftNode → LogEntry
noop_entry r = record {
  index = add64 (last_index r.log) 1;
  term = r.current_term;
  type = entry_noop;
  command = [];
}

-- The requests that are sent to the peers at the end are left out; they run on their own.
unfoldable pub init_leader_state : Written → RaftNode → RaftNode × Option RaftError
unfolding commit_noop reset_indices noop_entry
init_leader_state io r =
    if r.fatal
    then (r, some node_unhealthy)
    else commit_noop (reset_indices r) (append io (noop_entry r ∷ []) r.log)
