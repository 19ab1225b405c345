-- ===== src/Raft/Snapshot/Artifact.antt =====
-- The file of a snapshot: `encodeSnapshotArtifact`, `decodeSnapshotArtifact` and
-- `validateSnapshotMeta` of internal/raft/snapshot.go.
pub mod RoundTrip
use kver.Prelude.{
  ℕ, ◌+◌, ◌-◌, ◌%◌, Bytes, codes, bytes_eq, Bool, true, false, not, ◌||◌, Option, none, some, ◌++◌,
  ltb, ◌==◌, if◌then◌else◌, length, take, drop, u64_mod,
}
use kver.Prelude.Dict
use kver.Prelude.Words.{le_bytes, read_le}
use kver.Raft.Types.{SnapshotMeta, RaftError, Result, ok, err, invalid_snapshot, io_error}

-- json.Marshal and json.Unmarshal at the metadata, and sha256.Sum256.
pub record ArtifactCodec : Type 0 where
  pub marshal : SnapshotMeta → Option Bytes
  pub unmarshal : Bytes → Option SnapshotMeta
  pub sha256 : Bytes → Bytes

abbrev pub snapshot_magic : Bytes
snapshot_magic = codes "KVERSNP1"

abbrev pub max_metadata_size : ℕ
max_metadata_size = 16_777_216

abbrev pub header_size : ℕ
header_size = 56

-- The bytes from `start` up to `stop`.
unfoldable pub part : ℕ → ℕ → Bytes → Bytes
part start stop artifact = take (stop - start) (drop start artifact)

unfoldable pub valid_meta : SnapshotMeta → Bool
unfolding Dict.is_empty
valid_meta meta = not (
    (meta.last_included_index == 0)
    || ((meta.last_included_term == 0) || Dict.is_empty meta.cluster_config))

module _ (codec : ArtifactCodec) where
  open codec use {marshal, unmarshal, sha256}

  encode_text : Bytes → Option Bytes → Result Bytes
  encode_text contents none = err io_error
  encode_text contents (some text) =
      if ltb max_metadata_size (length text)
      then err invalid_snapshot
      else ok (
          snapshot_magic
          ++ (le_bytes 4 1
              ++ (le_bytes 4 (length text)
                  ++ (le_bytes 8 (length contents)
                      ++ (sha256 (text ++ contents) ++ (text ++ contents))))))

  unfoldable pub encode_snapshot_artifact : SnapshotMeta → Bytes → Result Bytes
  unfolding encode_text le_bytes
  encode_snapshot_artifact meta contents = encode_text contents (marshal meta)

  decode_meta : Bytes → Option SnapshotMeta → Result (SnapshotMeta × Bytes)
  unfolding valid_meta
  decode_meta contents none = err invalid_snapshot
  decode_meta contents (some meta) =
      if valid_meta meta then ok (meta, contents) else err invalid_snapshot

  -- The part behind the lengths, given the length of the metadata.
  decode_contents : ℕ → Bytes → Result (SnapshotMeta × Bytes)
  unfolding decode_meta part bytes_eq
  decode_contents text_length artifact =
      let text = part header_size (header_size + text_length) artifact in
      let contents = drop (header_size + text_length) artifact in
      if bytes_eq (part 24 header_size artifact) (sha256 (text ++ contents))
      then decode_meta contents (unmarshal text)
      else err invalid_snapshot

  unfoldable pub decode_snapshot_artifact : Bytes → Result (SnapshotMeta × Bytes)
  unfolding decode_contents part bytes_eq read_le
  decode_snapshot_artifact artifact =
      let text_length = read_le (part 12 16 artifact) in
      let contents_length = read_le (part 16 24 artifact) in
      if ltb (length artifact) header_size || not (bytes_eq (take 8 artifact) snapshot_magic)
      then err invalid_snapshot
      else if not (read_le (part 8 12 artifact) == 1)
      then err invalid_snapshot
      else if ltb max_metadata_size text_length
      then err invalid_snapshot
      else if (header_size + text_length + contents_length) % u64_mod == length artifact
      then decode_contents text_length artifact
      else err invalid_snapshot
