-- ===== src/Raft/Heartbeat.antt =====
-- `sendHeartbeatOnce` of internal/raft/replication.go, and the test of `sendHeartbeats` between two
-- of them. Each peer is asked in a goroutine of its own.
pub mod Stray
use kver.Prelude.{ℕ, Bytes, Bool, List, [], ◌∷◌, ltb, if◌then◌else◌}
use kver.Raft.Types.{AppendEntriesRequest, AppendEntriesResponse, Result, ok, err}
use kver.Raft.Node.{RaftNode, Window, is_leader, step_down}

-- The ticker goes on while the node leads.
unfoldable pub beats_on : RaftNode → Bool
unfolding is_leader
beats_on r = is_leader r.state

-- The term is read anew, behind the test.
unfoldable pub heartbeat : RaftNode → AppendEntriesRequest
heartbeat r = record {
  term = r.current_term;
  leader_id = r.config.node_id;
  prev_log_index = 0;
  prev_log_term = 0;
  entries = [];
  leader_commit = 0;
}

unfoldable pub heartbeat_answered : Window → ℕ → Result AppendEntriesResponse → RaftNode → RaftNode
unfolding step_down
heartbeat_answered w now (err e) r = r
heartbeat_answered w now (ok resp) r =
    if ltb r.current_term resp.term then step_down w now resp.term r else r

-- A peer's answer, and what other goroutines do before it is heard.
pub record Beat : Type 0 where
  pub others : RaftNode → RaftNode
  pub window : Window
  pub now : ℕ
  pub response : Result AppendEntriesResponse

unfoldable pub hear_beats : List Beat → RaftNode → RaftNode
unfolding heartbeat_answered
hear_beats [] r = r
hear_beats (beat ∷ beats) r =
    hear_beats beats (heartbeat_answered beat.window beat.now beat.response (beat.others r))
