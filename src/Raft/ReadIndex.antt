-- ===== src/Raft/ReadIndex.antt =====
-- `ReadIndex`, `waitForApply` and `LeaderAddr` of internal/raft/replication.go.
pub mod Quorum
use kver.Prelude.{
  ℕ, suc, ◌+◌, ◌-◌, Bytes, Bool, true, false, not, Option, none, some, List, [], ◌∷◌, ltb, leb,
  ◌==◌, if◌then◌else◌, length, map,
}
use kver.Prelude.Dict
use kver.Raft.Types.{
  AppendEntriesRequest, AppendEntriesResponse, RaftError, Result, ok, err, not_leader,
  leader_not_ready, node_unhealthy, io_error,
}
use kver.Raft.Node.{RaftNode, is_leader}
use kver.Raft.Commit.{majority}

-- The heartbeat by which a leader asks whether it still leads.
unfoldable pub confirm_request : RaftNode → AppendEntriesRequest
confirm_request r = record {
  term = r.current_term;
  leader_id = r.config.node_id;
  prev_log_index = 0;
  prev_log_term = 0;
  entries = [];
  leader_commit = 0;
}

-- What the answer to it is worth.
unfoldable pub confirms : ℕ → Result AppendEntriesResponse → Bool
confirms term (err e) = false
confirms term (ok resp) = not (ltb term resp.term)

-- What arrives of an answer, or the context's end (`none`).
unfoldable pub heard : ℕ → Option (Result AppendEntriesResponse) → Option Bool
unfolding confirms
heard term none = none
heard term (some result) = some (confirms term result)

pub data Confirmed : Type 0 where
  confirmed refused cancelled waiting : Confirmed

-- The loop over what arrives, in its order: a confirmation, or the context's end (`none`). It is
-- `waiting` where nothing more arrives.
unfoldable pub collect_confirmations : ℕ → ℕ → List (Option Bool) → ℕ → ℕ → Confirmed
collect_confirmations quorum size [] count total = if ltb total size then waiting else refused
collect_confirmations quorum size (none ∷ es) count total =
    if ltb total size then cancelled else refused
collect_confirmations quorum size (some answer ∷ es) count total =
    let count = if answer then suc count else count in
    let rest = collect_confirmations quorum size es count (suc total) in
    if ltb total size
    then (if leb quorum count
        then confirmed
        else if ltb (size - quorum) (suc total - count)
        then refused
        else rest)
    else refused

-- The loop over the values of `lastApplied` that are seen; the context ends behind them.
unfoldable pub wait_for_apply : List ℕ → ℕ → Result ℕ
wait_for_apply [] index = err io_error
wait_for_apply (applied ∷ seen) index =
    let rest = wait_for_apply seen index in if leb index applied then ok index else rest

-- How a read ends; it can wait for confirmations that do not arrive.
pub data Read : Type 0 where
  read : Result ℕ → Read
  blocked : Read

read_confirmed : List ℕ → ℕ → Confirmed → Read
unfolding wait_for_apply
read_confirmed seen index confirmed = read (wait_for_apply seen index)
read_confirmed seen index refused = read (err not_leader)
read_confirmed seen index cancelled = read (err io_error)
read_confirmed seen index waiting = blocked

-- The node confirms itself first; `events` are the answers to its heartbeats in their order.
unfoldable pub read_index : List (Option (Result AppendEntriesResponse)) → List ℕ → RaftNode → Read
unfolding is_leader majority heard collect_confirmations read_confirmed wait_for_apply
read_index events seen r =
    if r.fatal
    then read (err node_unhealthy)
    else if not (is_leader r.state)
    then read (err not_leader)
    else if not r.noop_committed
    then read (err leader_not_ready)
    else if length r.peers == 1
    then read (wait_for_apply seen r.commit_index)
    else read_confirmed seen r.commit_index (
        collect_confirmations (majority r.peers) (length r.peers)
          (some true ∷ map (heard r.current_term) events) 0 0)

or_unknown : Option Bytes → Bytes
or_unknown none = []
or_unknown (some address) = address

-- LeaderAddr
unfoldable pub leader_addr : RaftNode → Bytes
unfolding is_leader or_unknown Dict.get
leader_addr r =
    if is_leader r.state
    then []
    else (if length r.leader_id == 0 then [] else or_unknown (Dict.get r.peers r.leader_id))
