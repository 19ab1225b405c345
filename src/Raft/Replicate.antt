-- ===== src/Raft/Replicate.antt =====
-- `replicateTo` of internal/raft/replication.go, the leader's side of replication.
pub mod Progress
use kver.Prelude.{
  ℕ, zero, suc, ◌-◌, Bytes, Bool, true, false, not, ◌&&◌, ◌||◌, Option, none, some, List, [], ◌∷◌,
  ltb, leb, ◌==◌, if◌then◌else◌, add64, length, take,
}
use kver.Prelude.Dict
use kver.Raft.Types.{
  LogEntry, AppendEntriesRequest, AppendEntriesResponse, RaftError, Result, ok, err, not_leader,
  node_unhealthy, log_compacted, io_error,
}
use kver.Raft.Log.{RaftLog, last_index, term_at, get_entries_from}
use kver.Raft.Node.{RaftNode, Window, is_leader, step_down}
use kver.Raft.Commit.{advance_commit_index}
use kver.Raft.Snapshot.Artifact.{ArtifactCodec}
use kver.Raft.Snapshot.Send.{Transfer, Sent, send_snapshot, peer_has}

-- One round: the transport's answer, what other goroutines do while the request is under way, and
-- the window of a `stepDown`.
pub record Exchange : Type 0 where
  pub rpc : AppendEntriesRequest → Result (Option AppendEntriesResponse)
  pub others : RaftNode → RaftNode
  pub window : Window
  pub now : ℕ

-- How the loop ends: with the node and the error, or in the transfer of a snapshot.
pub data Replicated : Type 0 where
  replicated : RaftNode → Option RaftError → Replicated
  snapshot_sent : Sent → Replicated

-- The bounds that the next index is brought into.
unfoldable pub clamp_next : RaftLog → ℕ → ℕ
unfolding last_index
clamp_next l next =
    let next = if next == 0 then 1 else next in
    if ltb (add64 (last_index l) 1) next then add64 (last_index l) 1 else next

unfoldable pub limit_entries : ℕ → List LogEntry → List LogEntry
limit_entries limit es = if ltb 0 limit && ltb limit (length es) then take limit es else es

unfoldable pub append_request : RaftNode → ℕ → ℕ → List LogEntry → AppendEntriesRequest
unfolding limit_entries
append_request r next term es = record {
  term = r.current_term;
  leader_id = r.config.node_id;
  prev_log_index = next - 1;
  prev_log_term = term;
  entries = limit_entries r.config.max_log_entries_per_rpc es;
  leader_commit = r.commit_index;
}

-- The next index after a rejection.
unfoldable pub next_after : ℕ → AppendEntriesResponse → ℕ
next_after next resp =
    let next =
      if ltb 0 resp.conflict_index
      then resp.conflict_index
      else if ltb 1 next
      then next - 1
      else next in
    if next == 0 then 1 else next

-- The requests of a round that ends in a transfer, an error, or a request.
pub data Round : Type 0 where
  request : AppendEntriesRequest → Round
  failed : RaftError → Round
  compacted : Round

round_entries : RaftNode → ℕ → ℕ → Result (List LogEntry) → Round
unfolding append_request
round_entries r next term (ok es) = request (append_request r next term es)
round_entries r next term (err log_compacted) = compacted
round_entries r next term (err e) = failed e

round_previous : RaftNode → ℕ → Result ℕ → Round
unfolding round_entries get_entries_from
round_previous r next (ok term) = round_entries r next term (get_entries_from r.log next)
round_previous r next (err log_compacted) = compacted
round_previous r next (err e) = failed e

-- The part of a round that holds the lock for reading; the next index is within its bounds.
unfoldable pub next_round : RaftNode → ℕ → Round
unfolding round_previous term_at
next_round r next =
    if leb next r.log.base_index
    then compacted
    else round_previous r next (term_at r.log (next - 1))

module _ (codec : ArtifactCodec) (t : Transfer) (fuel : ℕ) (peer : Bytes) where
  -- The part of a round behind the call; `rest` is what the next rounds do.
  unfoldable pub request_answered :
      Exchange
      → (ℕ → RaftNode → Replicated)
      → ℕ
      → AppendEntriesRequest
      → Result (Option AppendEntriesResponse)
      → RaftNode
      → Replicated
  unfolding step_down is_leader peer_has advance_commit_index last_index next_after Dict.put
  request_answered x rest next req (err e) r = replicated r (some e)
  request_answered x rest next req (ok none) r = replicated r (some io_error)
  request_answered x rest next req (ok (some resp)) r =
      let index = add64 req.prev_log_index (length req.entries) in
      let r' = advance_commit_index (peer_has peer index r) in
      let lower = next_after next resp in
      let more = rest (add64 index 1) r' in
      let again = rest lower (record r { next_index = Dict.put r.next_index peer lower }) in
      if ltb r.current_term resp.term
      then replicated (step_down x.window x.now resp.term r) (some not_leader)
      else if not (is_leader r.state) || not (r.current_term == req.term)
      then replicated r (some not_leader)
      else if resp.success
      then (if leb (add64 index 1) (last_index r'.log) then more else replicated r' none)
      else again

  run_round : Exchange → (ℕ → RaftNode → Replicated) → ℕ → Round → RaftNode → Replicated
  unfolding request_answered send_snapshot
  run_round x rest next (request req) r = request_answered x rest next req (x.rpc req) (x.others r)
  run_round x rest next (failed e) r = replicated r (some e)
  run_round x rest next compacted r = snapshot_sent (send_snapshot t peer codec fuel r)

  -- The loop. It ends with the context's error where the exchanges end, as a context may be
  -- cancelled before any round.
  unfoldable pub replicate_to : List Exchange → ℕ → RaftNode → Replicated
  unfolding run_round next_round clamp_next is_leader
  replicate_to [] next r = replicated r (some io_error)
  replicate_to (x ∷ xs) next r =
      let bounded = clamp_next r.log next in
      if r.fatal
      then replicated r (some node_unhealthy)
      else if not (is_leader r.state)
      then replicated r (some not_leader)
      else run_round x (replicate_to xs) bounded (next_round r bounded) r
