-- ===== src/Raft/Snapshot/Artifact/RoundTrip.antt =====
-- What is written to the file of a snapshot is read back (internal/raft/snapshot.go).
use kver.Prelude.{
  ℕ, ◌+◌, ◌-◌, ◌≤◌, ◌<◌, ◌≡◌, refl, sym, ap, ◌∙◌, subst, arith, Bytes, bytes_eq_refl, true, some,
  ◌++◌, length, length-append, take, drop, u64_mod,
}
use kver.Prelude.Words.{
  le_bytes, read_le, length-le_bytes, read_le-le_bytes, take-append_eq, drop-append_eq,
  drop-append_skip,
}
use kver.Raft.Types.{SnapshotMeta, ok}
use kver.Raft.Snapshot.Artifact.{
  ArtifactCodec, snapshot_magic, max_metadata_size, header_size, part, valid_meta,
  encode_snapshot_artifact, decode_meta, decode_contents, decode_snapshot_artifact,
}

-- The layout of the file: magic, version, the two lengths, the checksum, the metadata and the
-- contents.
module _ (version text_size contents_size sum text contents : Bytes) where
  abbrev behind_sum : Bytes
  behind_sum = text ++ contents

  abbrev behind_sizes : Bytes
  behind_sizes = sum ++ behind_sum

  abbrev behind_text_size : Bytes
  behind_text_size = contents_size ++ behind_sizes

  abbrev behind_version : Bytes
  behind_version = text_size ++ behind_text_size

  layout : Bytes
  layout = snapshot_magic ++ (version ++ behind_version)

  skip_magic : (j k : ℕ) → j ≡ 8 + k → drop j layout ≡ drop k (version ++ behind_version)
  unfolding layout
  skip_magic j k e = drop-append_skip j 8 k snapshot_magic (version ++ behind_version) refl e

  -- The sizes of the parts before the metadata.
  record Sizes : Type 0 where
    version_size : length version ≡ 4
    text_size_size : length text_size ≡ 4
    contents_size_size : length contents_size ≡ 8
    sum_size : length sum ≡ 32

  -- The parts that the decoder reads.
  record IsLaidOut (a : Bytes) : Type 0 where
    size : length a ≡ header_size + length text + length contents
    magic : take 8 a ≡ snapshot_magic
    version_part : part 8 12 a ≡ version
    text_size_part : part 12 16 a ≡ text_size
    contents_size_part : part 16 24 a ≡ contents_size
    sum_part : part 24 header_size a ≡ sum
    text_part : part header_size (header_size + length text) a ≡ text
    contents_part : drop (header_size + length text) a ≡ contents

  module _ (sizes : Sizes) where
    open sizes use {version_size, text_size_size, contents_size_size, sum_size}

    skip_version : (j k : ℕ) → j ≡ 12 + k → drop j layout ≡ drop k behind_version
    skip_version j k e =
        skip_magic j (4 + k) (omega arith)
        ∙ drop-append_skip (4 + k) 4 k version behind_version version_size refl

    skip_text_size : (j k : ℕ) → j ≡ 16 + k → drop j layout ≡ drop k behind_text_size
    skip_text_size j k e =
        skip_version j (4 + k) (omega arith)
        ∙ drop-append_skip (4 + k) 4 k text_size behind_text_size text_size_size refl

    skip_sizes : (j k : ℕ) → j ≡ 24 + k → drop j layout ≡ drop k behind_sizes
    skip_sizes j k e =
        skip_text_size j (8 + k) (omega arith)
        ∙ drop-append_skip (8 + k) 8 k contents_size behind_sizes contents_size_size refl

    skip_header : (j k : ℕ) → j ≡ header_size + k → drop j layout ≡ drop k behind_sum
    skip_header j k e =
        skip_sizes j (32 + k) (omega arith)
        ∙ drop-append_skip (32 + k) 32 k sum behind_sum sum_size refl

    length-layout : length layout ≡ header_size + length text + length contents
    unfolding layout
    length-layout = omega (
      arith,
      length-append version behind_version,
      length-append text_size behind_text_size,
      length-append contents_size behind_sizes,
      length-append sum behind_sum,
      length-append text contents,
    )

    layout-IsLaidOut : IsLaidOut layout
    unfolding part
    layout-IsLaidOut = record {
      size = length-layout;
      magic = unfold layout in take-append_eq 8 snapshot_magic (version ++ behind_version) refl;
      version_part =
          ap (take 4) (skip_magic 8 0 refl) ∙ take-append_eq 4 version behind_version version_size;
      text_size_part =
          ap (take 4) (skip_version 12 0 refl)
          ∙ take-append_eq 4 text_size behind_text_size text_size_size;
      contents_size_part =
          ap (take 8) (skip_text_size 16 0 refl)
          ∙ take-append_eq 8 contents_size behind_sizes contents_size_size;
      sum_part = ap (take 32) (skip_sizes 24 0 refl) ∙ take-append_eq 32 sum behind_sum sum_size;
      text_part =
          let count : header_size + length text - header_size ≡ length text = omega arith in
          rw (count, skip_header header_size 0 refl)
            (take-append_eq (length text) text contents refl);
      contents_part =
          skip_header (header_size + length text) (length text) refl
          ∙ drop-append_eq (length text) text contents refl;
    }

module _ (codec : ArtifactCodec) where
  open codec use {marshal, unmarshal, sha256}

  file_of : Bytes → Bytes → Bytes
  file_of text contents =
      layout (le_bytes 4 1) (le_bytes 4 (length text)) (le_bytes 8 (length contents))
        (sha256 (text ++ contents)) text contents

  encode_ok :
      (meta : SnapshotMeta) (contents text artifact : Bytes)
      → marshal meta ≡ some text
      → encode_snapshot_artifact codec meta contents ≡ ok artifact
      → (artifact ≡ file_of text contents) × (length text ≤ max_metadata_size)
  unfolding encode_snapshot_artifact file_of layout
  encode_ok meta contents text artifact m h = (ground arith, ground arith)

  decode_contents_lem :
      (meta : SnapshotMeta) (contents text sum a : Bytes)
      → part header_size (header_size + length text) a ≡ text
      → drop (header_size + length text) a ≡ contents
      → part 24 header_size a ≡ sum
      → sum ≡ sha256 (text ++ contents)
      → unmarshal text ≡ some meta
      → valid_meta meta ≡ true
      → decode_contents codec (length text) a ≡ ok (meta, contents)
  unfolding decode_contents
  decode_contents_lem meta contents text sum a t c s same u valid =
      rw (t, c, s, same, bytes_eq_refl, u) (unfold decode_meta in rw valid refl)

  decode_laid_out :
      (meta : SnapshotMeta) (contents text a : Bytes)
      → IsLaidOut
          (le_bytes 4 1)
          (le_bytes 4 (length text))
          (le_bytes 8 (length contents))
          (sha256 (text ++ contents))
          text
          contents
          a
      → length text ≤ max_metadata_size
      → length a < u64_mod
      → unmarshal text ≡ some meta
      → valid_meta meta ≡ true
      → decode_snapshot_artifact codec a ≡ ok (meta, contents)
  unfolding decode_snapshot_artifact
  decode_laid_out meta contents text a l small fits u valid =
      let version : read_le (le_bytes 4 1) ≡ 1 = read_le-le_bytes 4 1 (omega arith) in
      let text_size = read_le-le_bytes 4 (length text) (omega arith) in
      let whole = l.size in
      let contents_size = read_le-le_bytes 8 (length contents) (omega arith) in
      rw
        (
          l.magic, l.version_part, l.text_size_part, l.contents_size_part, version, text_size,
          contents_size,
        )
        (let inner =
            decode_contents_lem meta contents text _ a l.text_part l.contents_part l.sum_part refl u
              valid in
          ground arith)

  file_sizes :
      (text contents : Bytes)
      → length (sha256 (text ++ contents)) ≡ 32
      → Sizes
          (le_bytes 4 1)
          (le_bytes 4 (length text))
          (le_bytes 8 (length contents))
          (sha256 (text ++ contents))
          text
          contents
  file_sizes text contents h = record {
    version_size = length-le_bytes 4 1;
    text_size_size = length-le_bytes 4 (length text);
    contents_size_size = length-le_bytes 8 (length contents);
    sum_size = h;
  }

  -- A file that is written for a snapshot, with a checksum of 32 bytes, and that is no longer than
  -- a uint64 counts, is read back as the snapshot's contents, with the metadata that the text
  -- written for them reads as, if these have a boundary and members.
  decode-encode :
      (meta meta' : SnapshotMeta) (contents text artifact : Bytes)
      → marshal meta ≡ some text
      → unmarshal text ≡ some meta'
      → length (sha256 (text ++ contents)) ≡ 32
      → encode_snapshot_artifact codec meta contents ≡ ok artifact
      → length artifact < u64_mod
      → valid_meta meta' ≡ true
      → decode_snapshot_artifact codec artifact ≡ ok (meta', contents)
  decode-encode meta meta' contents text artifact m u h e fits valid =
      let (same, small) = encode_ok meta contents text artifact m e in
      let laid =
        layout-IsLaidOut (le_bytes 4 1) (le_bytes 4 (length text)) (le_bytes 8 (length contents))
          (sha256 (text ++ contents)) text contents (file_sizes text contents h) in
      decode_laid_out meta' contents text artifact
        (subst
          (IsLaidOut (le_bytes 4 1) (le_bytes 4 (length text)) (le_bytes 8 (length contents))
            (sha256 (text ++ contents)) text contents)
          (sym same) (unfold file_of in laid))
        small fits u valid
