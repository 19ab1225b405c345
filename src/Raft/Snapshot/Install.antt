-- ===== src/Raft/Snapshot/Install.antt =====
-- A snapshot that arrives: `handleInstallSnapshot` and `finalizeInstalledSnapshot` of
-- internal/raft/snapshot.go, less the transport's peers.
pub mod Effects
pub mod Verified
use kver.Prelude.{
  ℕ, ◌+◌, Bytes, bytes_eq, Bool, true, false, not, ◌||◌, Option, none, some, ltb, leb, ◌==◌,
  if◌then◌else◌,
}
use kver.Raft.Types.{
  SnapshotMeta, InstallSnapshotRequest, InstallSnapshotResponse, StateMachine, RaftError, Result,
  ok, err, node_unhealthy, invalid_snapshot, snapshot_boundary_mismatch, snapshot_offset,
  snapshot_checksum,
}
use kver.Raft.Log.{RaftLog, Rewrite, restore_snapshot_boundary}
use kver.Raft.Node.{RaftNode, Window, InstallState, is_follower, step_down, mark_fatal}
use kver.Raft.Snapshot.{persist_snapshot, or_fatal, adopt_snapshot}
use kver.Raft.Snapshot.Artifact.{ArtifactCodec}
use kver.Raft.Snapshot.Chunks.{
  validate_install_request, matches, new_install_state, append_chunk, installed_bytes,
}

-- What happens around one request: what the file system answers, and what other goroutines do
-- before the second check, before the lock of the state machine is taken, and before the node's
-- lock is taken again. The window is that of the `stepDown`.
pub record Surroundings (M : Type 0) : Type 0 where
  pub window : Window
  pub now : ℕ
  pub opened : Bool
  pub stored : Bool
  pub readable : Bool
  pub file_io : Rewrite
  pub log_io : Rewrite
  pub checking : RaftNode × M → RaftNode × M
  pub finishing : RaftNode × M → RaftNode × M
  pub restoring : RaftNode → RaftNode

-- discardInstallSnapshotLocked
unfoldable pub discard_install : RaftNode → RaftNode
discard_install r = record r { install_snapshot = none }

abbrev pub Installed : Type 0 → Type 0
Installed M = (RaftNode × M) × (InstallSnapshotResponse × Option RaftError)

respond : {M : Type 0} → ℕ → Option RaftError → RaftNode × M → Installed M
respond term e x = (x, (record { term = term }, e))

signal_commit : RaftNode → RaftNode
signal_commit r = record r { commit_signal = ltb r.last_applied r.commit_index || r.commit_signal }

-- The steps that take the sender for the leader.
unfoldable pub accept_sender : Window → ℕ → InstallSnapshotRequest → RaftNode → RaftNode
unfolding step_down is_follower
accept_sender w now req r =
    if ltb r.current_term req.term || not (is_follower r.state)
    then record (step_down w now req.term r) { leader_id = req.leader_id; last_heartbeat = w.now }
    else record r { leader_id = req.leader_id; last_heartbeat = now }

module _ {M : Type 0} (codec : ArtifactCodec) (sm : StateMachine M) where
  finish_restore :
      (RaftNode → RaftNode)
      → SnapshotMeta
      → Bytes
      → RaftNode
      → M × Option RaftError
      → (RaftNode × M) × Option RaftError
  unfolding adopt_snapshot signal_commit mark_fatal
  finish_restore restoring meta contents r (m, some e) = ((mark_fatal (restoring r), m), some e)
  finish_restore restoring meta contents r (m, none) =
      ((signal_commit (adopt_snapshot meta contents (restoring r)), m), none)

  restore_machine :
      (RaftNode → RaftNode)
      → SnapshotMeta
      → Bytes
      → RaftNode × Option RaftError
      → M
      → (RaftNode × M) × Option RaftError
  unfolding finish_restore
  restore_machine restoring meta contents (r, some e) m = ((r, m), some e)
  restore_machine restoring meta contents (r, none) m =
      finish_restore restoring meta contents r (sm.restore contents m)

  install_locked :
      Surroundings M → SnapshotMeta → Bytes → RaftNode × M → (RaftNode × M) × Option RaftError
  unfolding restore_machine or_fatal restore_snapshot_boundary
  install_locked s meta contents (r, m) =
      restore_machine s.restoring meta contents
        (or_fatal r (
          restore_snapshot_boundary s.log_io meta.last_included_index meta.last_included_term
            r.log))
        m

  install_persisted :
      Surroundings M
      → SnapshotMeta
      → Bytes
      → RaftNode × Option RaftError
      → M
      → (RaftNode × M) × Option RaftError
  unfolding install_locked
  install_persisted s meta contents (r, some e) m = ((r, m), some e)
  install_persisted s meta contents (r, none) m =
      install_locked s meta contents (s.finishing (r, m))

  -- finalizeInstalledSnapshot
  unfoldable pub finalize_installed_snapshot :
      Surroundings M → SnapshotMeta → Bytes → RaftNode × M → (RaftNode × M) × Option RaftError
  unfolding install_persisted persist_snapshot
  finalize_installed_snapshot s meta contents (r, m) =
      install_persisted s meta contents (persist_snapshot codec s.file_io meta contents r) m

  finished : (RaftNode × M) × Option RaftError → Installed M
  unfolding discard_install respond
  finished ((r, m), some e) = respond r.current_term (some e) (r, m)
  finished ((r, m), none) = respond r.current_term none (discard_install r, m)

  finish_chunks : Surroundings M → ℕ → InstallState → Result Bytes → RaftNode × M → Installed M
  unfolding finished finalize_installed_snapshot discard_install respond bytes_eq
  finish_chunks s term state (err e) (r, m) = respond term (some e) (r, m)
  finish_chunks s term state (ok contents) (r, m) =
      if bytes_eq (codec.sha256 contents) state.checksum
      then finished (finalize_installed_snapshot s state.meta contents (r, m))
      else respond term (some snapshot_checksum) (discard_install r, m)

  chunk_appended :
      Surroundings M
      → ℕ
      → InstallSnapshotRequest
      → InstallState × Option RaftError
      → RaftNode × M
      → Installed M
  unfolding finish_chunks installed_bytes respond
  chunk_appended s term req (state, some e) (r, m) =
      respond term (some e) (record r { install_snapshot = some state }, m)
  chunk_appended s term req (state, none) (r, m) =
      let r' = record r { install_snapshot = some state } in
      if not req.done
      then respond term none (r', m)
      else if state.next_offset == state.total_size
      then finish_chunks s term state (installed_bytes s.readable state) (r', m)
      else respond term (some snapshot_offset) (r', m)

  hear_chunk :
      Surroundings M → ℕ → InstallSnapshotRequest → InstallState → RaftNode × M → Installed M
  unfolding chunk_appended append_chunk
  hear_chunk s term req state (r, m) =
      chunk_appended s term req (append_chunk s.stored req.offset req.chunk state) (r, m)

  begin_install :
      Surroundings M → ℕ → InstallSnapshotRequest → Result InstallState → RaftNode × M → Installed M
  unfolding hear_chunk respond
  begin_install s term req (err e) (r, m) = respond term (some e) (r, m)
  begin_install s term req (ok state) (r, m) = hear_chunk s term req state (r, m)

  restart_install : Surroundings M → ℕ → InstallSnapshotRequest → RaftNode × M → Installed M
  unfolding begin_install new_install_state discard_install respond
  restart_install s term req (r, m) =
      if req.offset == 0
      then begin_install s term req (new_install_state s.opened r.config req) (discard_install r, m)
      else respond term (some snapshot_offset) (r, m)

  hear_request :
      Surroundings M → ℕ → InstallSnapshotRequest → Option InstallState → RaftNode × M → Installed M
  unfolding restart_install hear_chunk matches
  hear_request s term req none (r, m) = restart_install s term req (r, m)
  hear_request s term req (some state) (r, m) =
      if matches req state
      then hear_chunk s term req state (r, m)
      else restart_install s term req (r, m)

  -- The part that holds the lock of the snapshot.
  hear_locked : Surroundings M → ℕ → InstallSnapshotRequest → RaftNode × M → Installed M
  unfolding hear_request respond
  hear_locked s term req (r, m) =
      if ltb req.term r.current_term || leb req.last_included_index r.commit_index
      then respond r.current_term none (r, m)
      else hear_request s term req r.install_snapshot (r, m)

  hear_valid :
      Surroundings M → ℕ → InstallSnapshotRequest → Option RaftError → RaftNode × M → Installed M
  unfolding hear_locked respond
  hear_valid s term req (some e) (r, m) = respond term (some e) (r, m)
  hear_valid s term req none (r, m) = hear_locked s term req (s.checking (r, m))

  hear_sender : Surroundings M → InstallSnapshotRequest → RaftNode × M → Installed M
  unfolding hear_valid validate_install_request respond
  hear_sender s req (r, m) =
      let meta = r.snapshot_meta in
      if ltb req.last_included_index meta.last_included_index
        || leb req.last_included_index r.commit_index
      then respond r.current_term none (r, m)
      else if req.last_included_index == meta.last_included_index
      then (if req.last_included_term == meta.last_included_term
          then respond r.current_term none (r, m)
          else respond r.current_term (some snapshot_boundary_mismatch) (r, m))
      else hear_valid s r.current_term req (validate_install_request r.config req) (r, m)

  unfoldable pub handle_install_snapshot :
      Surroundings M → Option InstallSnapshotRequest → RaftNode × M → Installed M
  unfolding hear_sender accept_sender respond
  handle_install_snapshot s none (r, m) = respond r.current_term (some invalid_snapshot) (r, m)
  handle_install_snapshot s (some req) (r, m) =
      if r.fatal
      then respond r.current_term (some node_unhealthy) (r, m)
      else if ltb req.term r.current_term
      then respond r.current_term none (r, m)
      else hear_sender s req (accept_sender s.window s.now req r, m)
