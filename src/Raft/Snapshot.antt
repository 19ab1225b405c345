-- ===== src/Raft/Snapshot.antt =====
-- internal/raft/snapshot.go: a snapshot is written (`takeSnapshot`), loaded at the start
-- (`loadSnapshotFromDisk`), sent in chunks (`sendSnapshot`) and installed
-- (`handleInstallSnapshot`).
pub mod Artifact
pub mod Chunks
pub mod Install
pub mod Send
use kver.Prelude.{
  ℕ, Bytes, bytes_eq, Bool, true, false, not, ◌&&◌, ◌||◌, Option, none, some, ltb, leb, ◌==◌, max,
  take, length, if◌then◌else◌,
}
use kver.Prelude.Dict
use kver.Raft.Types.{
  SnapshotMeta, RaftError, Result, ok, err, node_unhealthy, invalid_snapshot, corrupt_log, io_error,
  StateMachine,
}
use kver.Raft.Log.{
  RaftLog, Rewrite, rewritten, not_renamed, renamed, term_at, compact_up_to,
  restore_snapshot_boundary,
}
use kver.Raft.Node.{RaftNode, mark_fatal}
use kver.Raft.Snapshot.Artifact.{
  ArtifactCodec, snapshot_magic, valid_meta, encode_snapshot_artifact, decode_snapshot_artifact,
}

-- atomicWrite: the file is replaced by the rename.
atomic_write : Rewrite → Bytes → RaftNode → RaftNode × Option RaftError
atomic_write rewritten artifact r = (record r { snapshot_file = some artifact }, none)
atomic_write not_renamed artifact r = (r, some io_error)
atomic_write renamed artifact r = (record r { snapshot_file = some artifact }, some io_error)

write_artifact : Rewrite → Result Bytes → RaftNode → RaftNode × Option RaftError
unfolding atomic_write
write_artifact io (err e) r = (r, some e)
write_artifact io (ok artifact) r = atomic_write io artifact r

unfoldable pub persist_snapshot :
    ArtifactCodec → Rewrite → SnapshotMeta → Bytes → RaftNode → RaftNode × Option RaftError
unfolding write_artifact encode_snapshot_artifact
persist_snapshot codec io meta contents r =
    if r.config.data_dir
    then write_artifact io (encode_snapshot_artifact codec meta contents) r
    else (r, none)

-- markFatal, where a change of the log behind a snapshot fails.
unfoldable pub or_fatal : RaftNode → RaftLog × Option RaftError → RaftNode × Option RaftError
unfolding mark_fatal
or_fatal r (l, some e) = (mark_fatal (record r { log = l }), some e)
or_fatal r (l, none) = (record r { log = l }, none)

snapshot_saved :
    Rewrite → SnapshotMeta → Bytes → RaftNode × Option RaftError → RaftNode × Option RaftError
unfolding or_fatal compact_up_to
snapshot_saved io meta contents (r, some e) = (r, some e)
snapshot_saved io meta contents (r, none) =
    or_fatal (record r { snapshot_meta = meta; snapshot_bytes = contents })
      (compact_up_to io meta.last_included_index r.log)

-- `others` is what other goroutines do to the node while the snapshot is written.
save_snapshot :
    ArtifactCodec
    → Rewrite
    → Rewrite
    → (RaftNode → RaftNode)
    → Result ℕ
    → Result Bytes
    → RaftNode
    → RaftNode × Option RaftError
unfolding snapshot_saved persist_snapshot
save_snapshot codec file_io log_io others (err e) contents r = (r, some e)
save_snapshot codec file_io log_io others (ok term) (err e) r = (r, some e)
save_snapshot codec file_io log_io others (ok term) (ok contents) r =
    let meta : SnapshotMeta = record {
      last_included_index = r.last_applied;
      last_included_term = term;
      cluster_config = r.peers;
    } in
    snapshot_saved log_io meta contents (persist_snapshot codec file_io meta contents (others r))

module _ {M : Type 0} (codec : ArtifactCodec) (sm : StateMachine M) where
  -- takeSnapshot
  unfoldable pub take_snapshot :
      Rewrite → Rewrite → (RaftNode → RaftNode) → RaftNode × M → RaftNode × Option RaftError
  unfolding save_snapshot term_at
  take_snapshot file_io log_io others (r, m) =
      if r.fatal
      then (r, some node_unhealthy)
      else if (r.last_applied == 0) || leb r.last_applied r.snapshot_meta.last_included_index
      then (r, none)
      else save_snapshot codec file_io log_io others (term_at r.log r.last_applied) (sm.snapshot m)
          r

-- What loadSnapshotArtifact finds: the metadata, the contents, and whether they are in the format
-- of two files.
abbrev pub Loaded : Type 0
Loaded = Option ((SnapshotMeta × Bytes) × Bool)

module _ (codec : ArtifactCodec) where
  decoded : Result (SnapshotMeta × Bytes) → Result Loaded
  decoded (err e) = err e
  decoded (ok (meta, contents)) = ok (some ((meta, contents), false))

  check_legacy : Bytes → SnapshotMeta → Result Loaded
  unfolding valid_meta
  check_legacy artifact meta =
      if valid_meta meta then ok (some ((meta, artifact), true)) else err invalid_snapshot

  legacy_meta : RaftNode → Bytes → Option SnapshotMeta → Result Loaded
  unfolding check_legacy Dict.is_empty
  legacy_meta r artifact none = err invalid_snapshot
  legacy_meta r artifact (some meta) =
      check_legacy artifact (
        if Dict.is_empty meta.cluster_config
        then record meta { cluster_config = r.peers }
        else meta)

  legacy_artifact : RaftNode → Bytes → Option Bytes → Result Loaded
  unfolding legacy_meta
  legacy_artifact r artifact none = err invalid_snapshot
  legacy_artifact r artifact (some text) = legacy_meta r artifact (codec.unmarshal text)

  unfoldable pub read_artifact : RaftNode → Option Bytes → Option Bytes → Result Loaded
  unfolding decoded legacy_artifact decode_snapshot_artifact bytes_eq
  read_artifact r none none = ok none
  read_artifact r none (some text) = err invalid_snapshot
  read_artifact r (some artifact) meta_file =
      if leb 8 (length artifact) && bytes_eq (take 8 artifact) snapshot_magic
      then decoded (decode_snapshot_artifact codec artifact)
      else legacy_artifact r artifact meta_file

  -- loadSnapshotArtifact; `meta_file` is the file of metadata of the old format.
  unfoldable pub load_snapshot_artifact : Option Bytes → RaftNode → Result Loaded
  unfolding read_artifact
  load_snapshot_artifact meta_file r =
      if r.config.data_dir then read_artifact r r.snapshot_file meta_file else ok none

-- The fields that a loaded or installed snapshot sets.
unfoldable pub adopt_snapshot : SnapshotMeta → Bytes → RaftNode → RaftNode
adopt_snapshot meta contents r = record r {
  snapshot_meta = meta;
  snapshot_bytes = contents;
  commit_index = max r.commit_index meta.last_included_index;
  last_applied = max r.last_applied meta.last_included_index;
  peers = meta.cluster_config;
}

module _ {M : Type 0} (codec : ArtifactCodec) (sm : StateMachine M) where
  unfoldable pub finish_load :
      Rewrite
      → SnapshotMeta
      → Bytes
      → Bool
      → RaftNode
      → M × Option RaftError
      → (RaftNode × M) × Option RaftError
  unfolding adopt_snapshot persist_snapshot
  finish_load io meta contents legacy r (m, some e) = ((r, m), some e)
  finish_load io meta contents legacy r (m, none) =
      let r' = adopt_snapshot meta contents r in
      let saved = persist_snapshot codec io meta contents r' in
      if legacy then ((saved.0, m), saved.1) else ((r', m), none)

  unfoldable pub load_restored :
      Rewrite
      → SnapshotMeta
      → Bytes
      → Bool
      → RaftNode
      → M
      → RaftLog × Option RaftError
      → (RaftNode × M) × Option RaftError
  unfolding finish_load
  load_restored io meta contents legacy r m (l, some e) = ((record r { log = l }, m), some e)
  load_restored io meta contents legacy r m (l, none) =
      finish_load io meta contents legacy (record r { log = l }) (sm.restore contents m)

  unfoldable pub load_found :
      Rewrite → Rewrite → Result Loaded → RaftNode × M → (RaftNode × M) × Option RaftError
  unfolding load_restored restore_snapshot_boundary
  load_found log_io file_io (err e) (r, m) = ((r, m), some e)
  load_found log_io file_io (ok none) (r, m) =
      if ltb 0 r.log.base_index && not r.log.boundary_known
      then ((r, m), some corrupt_log)
      else ((r, m), none)
  load_found log_io file_io (ok (some ((meta, contents), legacy))) (r, m) =
      load_restored file_io meta contents legacy r m
        (restore_snapshot_boundary log_io meta.last_included_index meta.last_included_term r.log)

  -- loadSnapshotFromDisk, behind the removal of temporary files
  unfoldable pub load_snapshot_from_disk :
      Rewrite → Rewrite → Option Bytes → RaftNode × M → (RaftNode × M) × Option RaftError
  unfolding load_found load_snapshot_artifact
  load_snapshot_from_disk log_io file_io meta_file (r, m) =
      load_found log_io file_io (load_snapshot_artifact codec meta_file r) (r, m)
