-- ===== src/Raft/Snapshot/Install/Effects.antt =====
-- What a snapshot that is installed leaves (`finalizeInstalledSnapshot` and
-- `handleInstallSnapshot`, internal/raft/snapshot.go).
use kver.Prelude.{◌≡◌, refl, sym, ap, arith, Bytes, Option, none, some, max}
use kver.Raft.Types.{SnapshotMeta, StateMachine, RaftError}
use kver.Raft.Log.{RaftLog, restore_snapshot_boundary}
use kver.Raft.Log.Effects.{restore_snapshot_boundary-boundary}
use kver.Raft.Node.{RaftNode, mark_fatal}
use kver.Raft.Snapshot.{persist_snapshot, or_fatal, adopt_snapshot}
use kver.Raft.Snapshot.Artifact.{ArtifactCodec}
use kver.Raft.Snapshot.Install.{
  Surroundings, finalize_installed_snapshot, install_locked, install_persisted, restore_machine,
  finish_restore, signal_commit,
}

-- The snapshot stands in for everything up to its index.
pub record IsInstalled {M : Type 0} (sm : StateMachine M) (meta : SnapshotMeta) (contents : Bytes)
    (before after : RaftNode × M) : Type 0 where
  pub machine : after.1 ≡ (sm.restore contents before.1).0
  pub base_index : after.0.log.base_index ≡ meta.last_included_index
  pub base_term : after.0.log.base_term ≡ meta.last_included_term
  pub snapshot_meta : after.0.snapshot_meta ≡ meta
  pub snapshot_bytes : after.0.snapshot_bytes ≡ contents
  pub peers : after.0.peers ≡ meta.cluster_config
  pub commit_index : after.0.commit_index ≡ max before.0.commit_index meta.last_included_index
  pub last_applied : after.0.last_applied ≡ max before.0.last_applied meta.last_included_index

module _ {M : Type 0} (codec : ArtifactCodec) (sm : StateMachine M)
    (restoring : RaftNode → RaftNode) where
  -- `l` is the log that the boundary was restored in.
  finish_restore-IsInstalled :
      (meta : SnapshotMeta) (contents : Bytes) (r : RaftNode) (l : RaftLog) (m : M)
      (x : M × Option RaftError)
      → ((r' : RaftNode) → restoring r' ≡ r')
      → l.base_index ≡ meta.last_included_index
      → l.base_term ≡ meta.last_included_term
      → sm.restore contents m ≡ x
      → (finish_restore codec sm restoring meta contents (record r { log = l }) x).1 ≡ none
      → IsInstalled sm meta contents
          (r, m)
          (finish_restore codec sm restoring meta contents (record r { log = l }) x).0
  unfolding finish_restore adopt_snapshot signal_commit mark_fatal
  finish_restore-IsInstalled meta contents r l m (m', some e) still index term run h = ground arith
  finish_restore-IsInstalled meta contents r l m (m', none) still index term run h =
      let same = still (record r { log = l }) in
      record {
        machine = sym (ap (λ x. x.0) run);
        base_index = rw same index;
        base_term = rw same term;
        snapshot_meta = refl;
        snapshot_bytes = refl;
        peers = refl;
        commit_index = rw same refl;
        last_applied = rw same refl;
      }

  restore_machine-IsInstalled :
      (meta : SnapshotMeta) (contents : Bytes) (r : RaftNode) (m : M)
      (x : RaftLog × Option RaftError)
      → ((r' : RaftNode) → restoring r' ≡ r')
      → (x.1 ≡ none
          → (x.0.base_index ≡ meta.last_included_index) × (x.0.base_term ≡ meta.last_included_term))
      → (restore_machine codec sm restoring meta contents (or_fatal r x) m).1 ≡ none
      → IsInstalled sm meta contents
          (r, m)
          (restore_machine codec sm restoring meta contents (or_fatal r x) m).0
  unfolding restore_machine or_fatal
  restore_machine-IsInstalled meta contents r m (l, some e) still moved h = ground arith
  restore_machine-IsInstalled meta contents r m (l, none) still moved h =
      finish_restore-IsInstalled meta contents r l m (sm.restore contents m) still (moved refl).0
        (moved refl).1 refl h

module _ {M : Type 0} (codec : ArtifactCodec) (sm : StateMachine M) where
  install_persisted-IsInstalled :
      (s : Surroundings M) (meta : SnapshotMeta) (contents : Bytes)
      (x : RaftNode × Option RaftError) (m : M)
      → ((r : RaftNode) → s.restoring r ≡ r)
      → (install_persisted codec sm s meta contents x m).1 ≡ none
      → IsInstalled sm meta contents
          (s.finishing (x.0, m))
          (install_persisted codec sm s meta contents x m).0
  unfolding install_persisted install_locked
  install_persisted-IsInstalled s meta contents (r, some e) m still h = ground arith
  install_persisted-IsInstalled s meta contents (r, none) m still h =
      let (r', m') = s.finishing (r, m) in
      restore_machine-IsInstalled codec sm s.restoring meta contents r' m'
        (restore_snapshot_boundary s.log_io meta.last_included_index meta.last_included_term r'.log)
        still
        (restore_snapshot_boundary-boundary s.log_io meta.last_included_index
          meta.last_included_term r'.log)
        h

  -- After a snapshot is installed without an error, and where nobody changes the node once the lock
  -- of the state machine is taken, the state machine is what its contents restore, the log begins
  -- behind its index with its term, and the members are its own. The commit index and the index of
  -- the last applied entry stay where they are if they are above the snapshot's, as other
  -- goroutines may have left them before the lock is taken, while the state machine goes back to
  -- the snapshot.
  pub finalize_installed_snapshot-IsInstalled :
      (s : Surroundings M) (meta : SnapshotMeta) (contents : Bytes) (r : RaftNode) (m : M)
      → ((r' : RaftNode) → s.restoring r' ≡ r')
      → (finalize_installed_snapshot codec sm s meta contents (r, m)).1 ≡ none
      → IsInstalled sm meta contents
          (s.finishing ((persist_snapshot codec s.file_io meta contents r).0, m))
          (finalize_installed_snapshot codec sm s meta contents (r, m)).0
  unfolding finalize_installed_snapshot
  finalize_installed_snapshot-IsInstalled s meta contents r m =
      install_persisted-IsInstalled s meta contents
        (persist_snapshot codec s.file_io meta contents r) m
