-- ===== src/Raft/Restart/Keeps.antt =====
-- What a node still has after a restart (`NewRaftNode`, internal/raft/raft.go).
use kver.Prelude.{
  ℕ, Bytes, Bool, true, false, Option, none, some, ◌≡◌, refl, sym, ap, ◌∙◌, arith, if_both,
}
use kver.Prelude.Dict.{Dict}
use kver.Raft.Types.{RaftError, Result, ok, err, StateMachine, SnapshotMeta}
use kver.Raft.Log.{RaftLog, Rewrite}
use kver.Raft.Log.WellFormed.{IsWellFormed}
use kver.Raft.Log.Load.{new_raft_log_with_wal}
use kver.Raft.Log.Recovery.{restart-eq}
use kver.Raft.Node.{RaftNode, Config, PersistentState, follower}
use kver.Raft.Node.Advances.{Advances}
use kver.Raft.Snapshot.Artifact.{ArtifactCodec}
use kver.Raft.Snapshot.{
  Loaded, read_artifact, persist_snapshot, finish_load, load_restored, load_found,
  load_snapshot_artifact, load_snapshot_from_disk,
}
use kver.Raft.Restart.{
  Disk, saved_state, new_persistent_state, fresh_node, loaded, with_log, with_state, new_raft_node,
}

SameVote : RaftNode → RaftNode → Type 0
SameVote r s = (s.current_term ≡ r.current_term) × (s.voted_for ≡ r.voted_for)

module _ {M : Type 0} (codec : ArtifactCodec) (sm : StateMachine M) where
  persist_snapshot-SameVote :
      (io : Rewrite) (meta : SnapshotMeta) (contents : Bytes) (r : RaftNode)
      → SameVote r (persist_snapshot codec io meta contents r).0
  unfolding persist_snapshot SameVote
  persist_snapshot-SameVote io meta contents r = (ground arith, ground arith)

  finish_load-SameVote :
      (io : Rewrite) (meta : SnapshotMeta) (contents : Bytes) (legacy : Bool) (r : RaftNode)
      (x : M × Option RaftError)
      → SameVote r (finish_load codec sm io meta contents legacy r x).0.0
  unfolding finish_load SameVote
  finish_load-SameVote io meta contents legacy r (m, some e) = (refl, refl)
  finish_load-SameVote io meta contents legacy r (m, none) = (ground arith, ground arith)

  load_restored-SameVote :
      (io : Rewrite) (meta : SnapshotMeta) (contents : Bytes) (legacy : Bool) (r : RaftNode) (m : M)
      (x : RaftLog × Option RaftError)
      → SameVote r (load_restored codec sm io meta contents legacy r m x).0.0
  unfolding load_restored SameVote
  load_restored-SameVote io meta contents legacy r m (l, some e) = (refl, refl)
  load_restored-SameVote io meta contents legacy r m (l, none) =
      finish_load-SameVote io meta contents legacy (record r { log = l }) (sm.restore contents m)

  load_found-SameVote :
      (log_io file_io : Rewrite) (found : Result Loaded) (r : RaftNode) (m : M)
      → SameVote r (load_found codec sm log_io file_io found (r, m)).0.0
  unfolding load_found SameVote
  load_found-SameVote log_io file_io (err e) r m = (refl, refl)
  load_found-SameVote log_io file_io (ok none) r m = (ground arith, ground arith)
  load_found-SameVote log_io file_io (ok (some ((meta, contents), legacy))) r m =
      load_restored-SameVote file_io meta contents legacy r m _

  loaded-ok :
      (x : (RaftNode × M) × Option RaftError) (y : RaftNode × M)
      → loaded codec sm x ≡ ok y
      → x.0 ≡ y
  unfolding loaded
  loaded-ok (x, none) y h = ground arith
  loaded-ok (x, some e) y h = cc

  with_log-SameVote :
      (config : Config) (peers : Dict Bytes) (now : ℕ) (disk : Disk) (ps : PersistentState) (m : M)
      (l : Result RaftLog) (y : RaftNode × M)
      → with_log codec sm config peers now disk ps m l ≡ ok y
      → (y.0.current_term ≡ ps.current_term) × (y.0.voted_for ≡ ps.voted_for)
  unfolding with_log load_snapshot_from_disk SameVote fresh_node
  with_log-SameVote config peers now disk ps m (err e) y h = cc
  with_log-SameVote config peers now disk ps m (ok l) y h =
      let r = fresh_node config peers now disk.snapshot_file ps l in
      let found = load_snapshot_artifact codec disk.meta_file r in
      let same = load_found-SameVote disk.log_io disk.file_io found r m in
      let whole = loaded-ok (load_found codec sm disk.log_io disk.file_io found (r, m)) y h in
      (
        ap (λ (z : RaftNode × M). z.0.current_term) (sym whole) ∙ same.0,
        ap (λ (z : RaftNode × M). z.0.voted_for) (sym whole) ∙ same.1,
      )

module _ {M : Type 0} (codec : ArtifactCodec) (sm : StateMachine M) where
  -- A restart keeps the term and the vote: if the last save of a node with a directory succeeded,
  -- so that its file holds its term and its vote, then a node that starts from that file, whatever
  -- the log and the snapshot files hold, has the same term and the same vote, so that its history
  -- goes on.
  pub new_raft_node-Advances :
      (config : Config) (peers : Dict Bytes) (now : ℕ) (disk : Disk) (m : M) (r : RaftNode)
      (y : RaftNode × M)
      → config.data_dir ≡ true
      → disk.state_file ≡ ok (some (r.current_term, r.voted_for))
      → new_raft_node codec sm config peers now disk m ≡ ok y
      → (y.0.current_term ≡ r.current_term) × (y.0.voted_for ≡ r.voted_for) × Advances r y.0
  unfolding new_raft_node with_state new_persistent_state saved_state
  new_raft_node-Advances config peers now disk m r y dir file h =
      let start = λ (p : Result PersistentState). with_state codec sm config peers now disk m p in
      let saved : new_persistent_state config.data_dir disk.state_file
          ≡ saved_state (ok (some (r.current_term, r.voted_for))) =
        rw (dir, file) in
      let (term, vote) =
        with_log-SameVote codec sm config peers now disk _ m _ y (sym (ap start saved) ∙ h) in
      (term, vote, record { term_mono = omega arith; vote_kept = λ _ _. vote })

-- The directory that a node without a snapshot leaves behind.
unfoldable pub disk_of : Rewrite → RaftNode → Disk
disk_of io r = record {
  state_file = ok r.persistent_state.file;
  wal = some r.log.wal;
  wal_opened = true;
  header_io = io;
  snapshot_file = none;
  meta_file = none;
  log_io = io;
  file_io = io;
}

module _ {M : Type 0} (codec : ArtifactCodec) (sm : StateMachine M) where
  load_nothing :
      (log_io file_io : Rewrite) (r : RaftNode) (m : M)
      → r.snapshot_file ≡ none
      → r.log.base_index ≡ 0
      → load_snapshot_from_disk codec sm log_io file_io none (r, m) ≡ ((r, m), none)
  unfolding load_snapshot_from_disk load_snapshot_artifact load_found
  load_nothing log_io file_io r m file base =
      let empty : load_found codec sm log_io file_io (ok none) (r, m) ≡ ((r, m), none) =
        ground arith in
      if_both
        (λ (found : Result Loaded).
          load_found codec sm log_io file_io found (r, m) ≡ ((r, m), none))
        r.config.data_dir _ _
        (λ _.
          ap
            (λ artifact.
              load_found codec sm log_io file_io (read_artifact codec r artifact none) (r, m))
            file
          ∙ empty)
        λ _. empty

  -- A node that stops while its storage works starts again as it was: from the directory of a node
  -- with a well-formed log, which has saved its term and its vote and has no snapshot,
  -- `NewRaftNode` returns without an error a follower with that term, that vote and every entry of
  -- the log, in a well-formed log. It has applied nothing yet, and its state machine is the one it
  -- is given.
  pub new_raft_node-restarts :
      (peers : Dict Bytes) (now : ℕ) (io : Rewrite) (m : M) (r : RaftNode)
      → IsWellFormed r.log
      → r.log.durable ≡ true
      → r.log.storage_failed ≡ false
      → r.log.wal_has_header ≡ true
      → r.log.base_index ≡ 0
      → r.config.data_dir ≡ true
      → r.persistent_state.file ≡ some (r.current_term, r.voted_for)
      → (s : RaftNode) × (new_raft_node codec sm r.config peers now (disk_of io r) m ≡ ok (s, m))
        × (s.state ≡ follower)
        × (s.current_term ≡ r.current_term)
        × (s.voted_for ≡ r.voted_for)
        × (s.log.entries ≡ r.log.entries)
        × (s.last_applied ≡ 0)
        × IsWellFormed s.log
  unfolding new_raft_node with_state new_persistent_state saved_state with_log loaded fresh_node
      disk_of
  new_raft_node-restarts peers now io m r w durable works header base dir file =
      let (l, opens, entries, index, term, formed) = restart-eq io r.log w durable works header in
      let ps : PersistentState = record {
        current_term = r.current_term;
        voted_for = r.voted_for;
        durable = true;
        file = some (r.current_term, r.voted_for);
      } in
      let s = fresh_node r.config peers now none ps l in
      let loads = load_nothing io io s m refl (index ∙ base) in
      let saved : new_persistent_state r.config.data_dir (ok r.persistent_state.file) ≡ ok ps =
        rw (dir, file) in
      let opened : new_raft_log_with_wal r.config.data_dir io true (some r.log.wal) ≡ ok l =
        ap (λ durable. new_raft_log_with_wal durable io true (some r.log.wal)) dir ∙ opens in
      let start : new_raft_node codec sm r.config peers now (disk_of io r) m ≡ ok (s, m) =
        ap (with_state codec sm r.config peers now (disk_of io r) m) saved
        ∙ ap (with_log codec sm r.config peers now (disk_of io r) ps m) opened
        ∙ ap (loaded codec sm) loads in
      (s, start, refl, refl, refl, entries, refl, formed)
