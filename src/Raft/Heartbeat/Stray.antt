-- ===== src/Raft/Heartbeat/Stray.antt =====
-- Heartbeats of a node that does not lead any more (internal/raft/replication.go).
use kver.Prelude.{ℕ, ◌≡◌, arith, true, false, some}
use kver.Raft.Log.{Rewrite, Written}
use kver.Raft.Node.{RaftNode, follower, leader, quiet, step_down}
use kver.Raft.Append.{
  process_append_entries, heard_leader, check_indices, check_previous, store_entries,
}
use kver.Raft.Heartbeat.{heartbeat}

-- A node whose term has risen since it led sends heartbeats of the new term in its own name, as
-- nothing in `sendHeartbeatOnce` asks whether it leads. The leader of that term, if it is healthy
-- and is undisturbed, takes it for the leader: in the same term it steps down and names the other
-- node as the leader. This holds whatever state the sender is in.
pub stray_heartbeat :
    (tio : Rewrite) (aio : Written) (now t : ℕ) (r s : RaftNode)
    → s.current_term ≡ r.current_term
    → s.state ≡ leader
    → s.fatal ≡ false
    → (let answered = process_append_entries (quiet true t) tio aio now (some (heartbeat r)) s in
        (answered.0.state ≡ follower)
        × (answered.0.leader_id ≡ r.config.node_id)
        × (answered.0.current_term ≡ s.current_term))
unfolding process_append_entries heard_leader heartbeat check_indices check_previous store_entries
    step_down
stray_heartbeat tio aio now t r s term leads healthy = (ground arith, ground arith, ground arith)
