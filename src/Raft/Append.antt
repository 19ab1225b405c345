-- ===== src/Raft/Append.antt =====
-- `processAppendEntries` of internal/raft/replication.go, the follower's side of replication.
pub mod Advances
pub mod Matching
pub mod Success
pub mod Commit
pub mod Rejects
use kver.Prelude.{
  ℕ, zero, suc, ◌-◌, Bytes, Bool, true, false, not, ◌&&◌, ◌||◌, Option, none, some, List, [], ◌∷◌,
  ltb, leb, ◌==◌, if◌then◌else◌, add64, u64_mod, min,
}
use kver.Raft.Types.{
  LogEntry, RaftError, Result, ok, err, AppendEntriesRequest, AppendEntriesResponse, out_of_range,
  log_compacted, non_contiguous_log, node_unhealthy,
}
use kver.Raft.Log.{
  RaftLog, Written, Rewrite, validate_entry_sequence, term_at, first_index, last_index,
  truncate_after, append,
}
use kver.Raft.Node.{RaftNode, Window, is_follower, step_down, mark_storage_failure}

-- How the loop over the request's entries ends.
pub data Stored : Type 0 where
  stored : RaftLog → Stored
  failed : RaftLog → RaftError → Stored
  compacted : RaftLog → Stored

store_appended : RaftLog × Option RaftError → Stored
store_appended (l, none) = stored l
store_appended (l, some e) = failed l e

store_truncated : Written → List LogEntry → RaftLog × Option RaftError → Stored
unfolding store_appended
store_truncated aio es (l, some e) = failed l e
store_truncated aio es (l, none) = store_appended (append aio es l)

-- One round: `rest` is what the later entries do where this one is in the log already.
store_entry : Rewrite → Written → LogEntry → List LogEntry → Stored → Result ℕ → RaftLog → Stored
unfolding store_truncated store_appended
store_entry tio aio e es rest (ok t) l =
    if t == e.term then rest else store_truncated aio (e ∷ es) (truncate_after tio (e.index - 1) l)
store_entry tio aio e es rest (err out_of_range) l = store_appended (append aio (e ∷ es) l)
store_entry tio aio e es rest (err _) l = compacted l

unfoldable pub store_entries : Rewrite → Written → List LogEntry → RaftLog → Stored
unfolding store_entry
store_entries tio aio [] l = stored l
store_entries tio aio (e ∷ es) l =
    let rest = store_entries tio aio es l in store_entry tio aio e es rest (term_at l e.index) l

has_term : Result ℕ → ℕ → Bool
has_term (ok t) term = t == term
has_term (err e) term = false

-- The first live index of the run of `term` that ends at the given index.
unfoldable pub find_conflict : RaftLog → ℕ → ℕ → ℕ
unfolding has_term
find_conflict l term zero = zero
find_conflict l term (suc c) =
    let rest = find_conflict l term c in
    if ltb (add64 l.base_index 1) (suc c)
    then (if has_term (term_at l c) term then rest else suc c)
    else suc c

-- The check of the previous entry: `none` where it matches, otherwise the conflict's index and
-- term.
check_term : AppendEntriesRequest → RaftLog → Result ℕ → Option (ℕ × ℕ)
unfolding find_conflict
check_term req l (ok t) =
    if t == req.prev_log_term then none else some (find_conflict l t req.prev_log_index, t)
check_term req l (err log_compacted) = some (first_index l, 0)
check_term req l (err _) = some (add64 (last_index l) 1, 0)

unfoldable pub check_previous : AppendEntriesRequest → RaftLog → Option (ℕ × ℕ)
unfolding check_term
check_previous req l =
    if req.prev_log_index == 0
    then (if ltb 0 l.base_index then some (first_index l, 0) else none)
    else check_term req l (term_at l req.prev_log_index)

-- The check of the request's own indices.
unfoldable pub check_indices : AppendEntriesRequest → List LogEntry → Option RaftError
check_indices req [] = none
check_indices req (e ∷ es) =
    if req.prev_log_index == u64_mod - 1
    then some non_contiguous_log
    else validate_entry_sequence (e ∷ es) (add64 req.prev_log_index 1)

abbrev pub Answer : Type 0
Answer = RaftNode × AppendEntriesResponse × Option RaftError

reject : Option RaftError → RaftNode → Answer
reject e r =
    (r, record { term = r.current_term; success = false; conflict_index = 0; conflict_term = 0 }, e)

conflict : ℕ → ℕ → RaftNode → Answer
conflict index term r = (
  r,
  record { term = r.current_term; success = false; conflict_index = index; conflict_term = term },
  none,
)

-- entriesApplied
unfoldable pub follow_commit : ℕ → RaftNode → RaftNode
follow_commit leader_commit r =
    if ltb r.commit_index leader_commit
    then record r { commit_index = min leader_commit (last_index r.log); commit_signal = true }
    else r

finish : AppendEntriesRequest → Stored → RaftNode → Answer
unfolding reject conflict follow_commit mark_storage_failure
finish req (stored l) r =
    let r' = follow_commit req.leader_commit (record r { log = l }) in
    (
      r',
      record { term = r'.current_term; success = true; conflict_index = 0; conflict_term = 0 },
      none,
    )
finish req (failed l e) r = reject (some e) (mark_storage_failure e (record r { log = l }))
finish req (compacted l) r = conflict (first_index l) 0 (record r { log = l })

store_checked : Rewrite → Written → AppendEntriesRequest → Option (ℕ × ℕ) → RaftNode → Answer
unfolding finish
store_checked tio aio req (some (index, term)) r = conflict index term r
store_checked tio aio req none r = finish req (store_entries tio aio req.entries r.log) r

-- The part behind the steps that accept the sender as the leader.
accept : Rewrite → Written → AppendEntriesRequest → Option RaftError → RaftNode → Answer
unfolding store_checked
accept tio aio req (some e) r = reject (some e) r
accept tio aio req none r = store_checked tio aio req (check_previous req r.log) r

unfoldable pub heard_leader : Window → ℕ → AppendEntriesRequest → RaftNode → RaftNode
unfolding step_down is_follower
heard_leader w now req r =
    if ltb r.current_term req.term || not (is_follower r.state)
    then record (step_down w now req.term r) { leader_id = req.leader_id; last_heartbeat = w.now }
    else record r { leader_id = req.leader_id; last_heartbeat = now }

unfoldable pub process_append_entries :
    Window → Rewrite → Written → ℕ → Option AppendEntriesRequest → RaftNode → Answer
unfolding accept heard_leader reject
process_append_entries w tio aio now none r =
    if r.fatal then reject (some node_unhealthy) r else reject none r
process_append_entries w tio aio now (some req) r =
    if r.fatal
    then reject (some node_unhealthy) r
    else if ltb req.term r.current_term
    then reject none r
    else accept tio aio req (check_indices req req.entries) (heard_leader w now req r)
