-- ===== src/Raft/Batch.antt =====
-- Proposals: `Propose` and the `flush` of `batchLoop` in internal/raft/raft.go.
pub mod Tracked
use kver.Prelude.{
  ℕ, suc, Bytes, bytes_eq, Bool, true, false, not, Option, none, some, List, [], ◌∷◌, ◌++◌, map,
  ◌==◌, if◌then◌else◌, add64,
}
use kver.Prelude.Dict
use kver.Prelude.Dict.{Dict}
use kver.Raft.Types.{
  LogEntry, entry_kv, RaftError, not_leader, node_unhealthy, propose_channel_full,
}
use kver.Raft.Log.{RaftLog, Written, last_index, append}
use kver.Raft.Node.{RaftNode, is_leader, mark_storage_failure}
use kver.Raft.Commit.{match_of, advance_commit_index}

-- proposeRequest: the number of the request, by which it is answered, and the command.
pub record ProposeRequest : Type 0 where
  pub request : ℕ
  pub command : Bytes

-- What Propose comes to: an error, or the request is in the channel and waits for its answer.
pub data Proposed : Type 0 where
  refused : RaftError → Proposed
  queued : ProposeRequest → Proposed

-- `full` says that the channel cannot take the request.
unfoldable pub propose : Bool → ProposeRequest → RaftNode → Proposed
unfolding is_leader
propose full req r =
    if r.fatal
    then refused node_unhealthy
    else if not (is_leader r.state)
    then refused not_leader
    else if full
    then refused propose_channel_full
    else queued req

-- The entries of a batch behind the given index.
unfoldable pub batch_entries : ℕ → ℕ → List ProposeRequest → List LogEntry
batch_entries last term [] = []
batch_entries last term (req ∷ reqs) =
    record { index = add64 last 1; term = term; type = entry_kv; command = req.command }
    ∷ batch_entries (add64 last 1) term reqs

-- Every request of a batch is sent the same error.
unfoldable pub answer_all : RaftError → List ProposeRequest → RaftNode → RaftNode
answer_all e reqs r = record r { replies = r.replies ++ map (λ req. (req.request, some e)) reqs }

without : ℕ → List (ℕ × ℕ) → List (ℕ × ℕ)
without index [] = []
without index ((i, request) ∷ waiters) =
    let rest = without index waiters in if i == index then rest else (i, request) ∷ rest

-- Each request waits at the index of its entry.
unfoldable pub put_waiters : ℕ → List ProposeRequest → List (ℕ × ℕ) → List (ℕ × ℕ)
unfolding without
put_waiters last [] waiters = waiters
put_waiters last (req ∷ reqs) waiters =
    let index = add64 last 1 in
    put_waiters index reqs ((index, req.request) ∷ without index waiters)

-- The next index of each peer that has none yet.
unfoldable pub default_next : Bytes → ℕ → Dict Bytes → Dict ℕ → Dict ℕ
unfolding match_of Dict.put
default_next self index [] next = next
default_next self index ((peer, address) ∷ peers) next = default_next self index peers (
    if bytes_eq peer self
    then next
    else (if match_of next peer == 0 then Dict.put next peer index else next))

register : ℕ → List ProposeRequest → RaftNode → RaftNode
unfolding put_waiters default_next
register last reqs r = record r {
  waiters = put_waiters last reqs r.waiters;
  next_index = default_next r.config.node_id (add64 last 1) r.peers r.next_index;
}

batch_stored : ℕ → List ProposeRequest → Option RaftError → RaftNode → RaftNode
unfolding answer_all register mark_storage_failure advance_commit_index is_leader
batch_stored last reqs (some e) r =
    if not (is_leader r.state)
    then answer_all not_leader reqs r
    else answer_all e reqs (mark_storage_failure e r)
batch_stored last reqs none r =
    if not (is_leader r.state)
    then answer_all not_leader reqs r
    else advance_commit_index (register last reqs r)

-- The lock is released while the entries are written: what other goroutines do before and after
-- the write.
pub record BatchWindow : Type 0 where
  pub before : RaftNode → RaftNode
  pub after : RaftNode → RaftNode
  pub io : Written

batch_written :
    BatchWindow → ℕ → List ProposeRequest → RaftNode → RaftLog × Option RaftError → RaftNode
unfolding batch_stored
batch_written w last reqs r (l, e) = batch_stored last reqs e (w.after (record r { log = l }))

write_batch : BatchWindow → ℕ → ℕ → List ProposeRequest → RaftNode → RaftNode
unfolding batch_written batch_entries append
write_batch w last term reqs r =
    batch_written w last reqs r (append w.io (batch_entries last term reqs) r.log)

-- The requests that are sent to the peers at the end run on their own.
unfoldable pub flush : BatchWindow → List ProposeRequest → RaftNode → RaftNode
unfolding write_batch answer_all is_leader last_index
flush w [] r = r
flush w (req ∷ reqs) r =
    if not (is_leader r.state)
    then answer_all not_leader (req ∷ reqs) r
    else write_batch w (last_index r.log) r.current_term (req ∷ reqs) (w.before r)
