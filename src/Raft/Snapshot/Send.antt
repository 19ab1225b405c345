-- ===== src/Raft/Snapshot/Send.antt =====
-- A snapshot that is sent in chunks: `sendSnapshot` of internal/raft/snapshot.go.
pub mod Delivery
use kver.Prelude.{
  ℕ, zero, suc, Bytes, Bool, true, false, not, ◌||◌, Option, none, some, List, [], ◌∷◌, ltb, ◌==◌,
  if◌then◌else◌, add64, length,
}
use kver.Prelude.Dict
use kver.Raft.Types.{
  InstallSnapshotRequest, InstallSnapshotResponse, RaftError, Result, ok, err, not_leader,
  snapshot_unavailable, io_error,
}
use kver.Raft.Node.{RaftNode, Window, is_leader, step_down}
use kver.Raft.Commit.{match_of}
use kver.Raft.Snapshot.Artifact.{ArtifactCodec, part}

-- The transport's answers, and what other goroutines do: while a request is under way, by its
-- offset, and before the indices of the peer are raised. The window is that of a `stepDown`.
pub record Transfer : Type 0 where
  pub rpc : InstallSnapshotRequest → Result (Option InstallSnapshotResponse)
  pub others : ℕ → RaftNode → RaftNode
  pub finishing : RaftNode → RaftNode
  pub window : Window
  pub now : ℕ

-- How the loop ends: the requests that were sent, the node, and the error.
pub data Sent : Type 0 where
  sent : List InstallSnapshotRequest → RaftNode → Option RaftError → Sent
  unfinished : Sent

unfoldable pub add_request : InstallSnapshotRequest → Sent → Sent
add_request req (sent reqs r e) = sent (req ∷ reqs) r e
add_request req unfinished = unfinished

unfoldable pub chunk_size : RaftNode → ℕ
chunk_size r = if r.config.snapshot_chunk_size == 0 then 262_144 else r.config.snapshot_chunk_size

unfoldable pub chunk_stop : ℕ → ℕ → ℕ → ℕ
chunk_stop size total offset =
    let stop = add64 offset size in if ltb total stop then total else stop

-- What the peer is known to have behind the last chunk.
unfoldable pub peer_has : Bytes → ℕ → RaftNode → RaftNode
unfolding match_of Dict.put
peer_has peer index r = record r {
  next_index =
      if ltb (match_of r.next_index peer) (add64 index 1)
      then Dict.put r.next_index peer (add64 index 1)
      else r.next_index;
  match_index =
      if ltb (match_of r.match_index peer) index
      then Dict.put r.match_index peer index
      else r.match_index;
}

-- The fields that the requests share.
unfoldable pub first_request : ArtifactCodec → RaftNode → InstallSnapshotRequest
first_request codec r = record {
  term = r.current_term;
  leader_id = r.config.node_id;
  last_included_index = r.snapshot_meta.last_included_index;
  last_included_term = r.snapshot_meta.last_included_term;
  offset = 0;
  done = false;
  total_size = length r.snapshot_bytes;
  checksum = codec.sha256 r.snapshot_bytes;
  cluster_config = r.snapshot_meta.cluster_config;
  chunk = [];
}

module _ (t : Transfer) (peer : Bytes) where
  -- One round behind the call; `rest` is what the next rounds do.
  unfoldable pub chunk_answered :
      (RaftNode → Sent)
      → InstallSnapshotRequest
      → Result (Option InstallSnapshotResponse)
      → RaftNode
      → Sent
  unfolding step_down is_leader add_request peer_has
  chunk_answered rest req (err e) r = sent (req ∷ []) r (some e)
  chunk_answered rest req (ok none) r = sent (req ∷ []) r (some io_error)
  chunk_answered rest req (ok (some resp)) r =
      if ltb r.current_term resp.term
      then sent (req ∷ []) (step_down t.window t.now resp.term r) (some not_leader)
      else if not (is_leader r.state) || not (r.current_term == req.term)
      then sent (req ∷ []) r (some not_leader)
      else if req.done
      then sent (req ∷ []) (peer_has peer req.last_included_index (t.finishing r)) none
      else add_request req (rest r)

  -- The loop, from an offset; `base` has the fields that all requests share.
  unfoldable pub send_chunks : InstallSnapshotRequest → Bytes → ℕ → ℕ → ℕ → RaftNode → Sent
  unfolding chunk_answered part chunk_stop
  send_chunks base contents size zero offset r = unfinished
  send_chunks base contents size (suc fuel) offset r =
      let stop = chunk_stop size (length contents) offset in
      let req : InstallSnapshotRequest = record base {
        offset = offset;
        done = stop == length contents;
        chunk = part offset stop contents;
      } in
      chunk_answered (send_chunks base contents size fuel stop) req (t.rpc req) (t.others offset r)

  unfoldable pub send_snapshot : ArtifactCodec → ℕ → RaftNode → Sent
  unfolding send_chunks is_leader chunk_size first_request
  send_snapshot codec fuel r =
      if not (is_leader r.state)
      then sent [] r (some not_leader)
      else if r.snapshot_meta.last_included_index == 0
      then sent [] r (some snapshot_unavailable)
      else send_chunks (first_request codec r) r.snapshot_bytes (chunk_size r) fuel 0 r
