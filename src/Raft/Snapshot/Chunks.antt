-- ===== src/Raft/Snapshot/Chunks.antt =====
-- The chunks of a snapshot that is being installed: `installSnapshotState` of
-- internal/raft/snapshot.go.
pub mod Prefix
use kver.Prelude.{
  ℕ, ◌+◌, ◌-◌, Bytes, bytes_eq, Bool, true, false, not, ◌&&◌, ◌||◌, Option, none, some, List, [],
  ◌∷◌, ◌++◌, ltb, leb, ◌==◌, if◌then◌else◌, add64, length, take, drop,
}
use kver.Prelude.Dict
use kver.Prelude.Dict.{Dict}
use kver.Raft.Types.{
  SnapshotMeta, InstallSnapshotRequest, RaftError, Result, ok, err, invalid_snapshot,
  snapshot_offset, snapshot_chunk_mismatch, io_error,
}
use kver.Raft.Node.{RaftNode, Config, InstallState}

abbrev pub checksum_size : ℕ
checksum_size = 32

abbrev pub max_int : ℕ
max_int = 9_223_372_036_854_775_807

-- validateInstallSnapshotRequest, without the error's text
unfoldable pub validate_install_request : Config → InstallSnapshotRequest → Option RaftError
unfolding Dict.is_empty
validate_install_request config req =
    let max_size =
      if config.max_snapshot_size == 0 then 4_294_967_296 else config.max_snapshot_size in
    let chunk_end = add64 req.offset (length req.chunk) in
    if (req.last_included_index == 0) || (req.last_included_term == 0)
    then some invalid_snapshot
    else if length req.checksum == checksum_size
    then (if Dict.is_empty req.cluster_config
        then some invalid_snapshot
        else if ltb max_size req.total_size
        then some invalid_snapshot
        else if ltb chunk_end req.offset || ltb req.total_size chunk_end
        then some invalid_snapshot
        else (if req.done
            then (if chunk_end == req.total_size then none else some invalid_snapshot)
            else (if chunk_end == req.total_size then some invalid_snapshot else none)))
    else some invalid_snapshot

-- `right[key]`, which is the empty string for a key that is missing.
value_or_empty : Option Bytes → Bytes
value_or_empty none = []
value_or_empty (some value) = value

same_values : Dict Bytes → Dict Bytes → Bool
unfolding value_or_empty Dict.get bytes_eq
same_values [] right = true
same_values ((key, value) ∷ left) right =
    bytes_eq (value_or_empty (Dict.get right key)) value && same_values left right

-- mapsEqual
unfoldable pub maps_equal : Dict Bytes → Dict Bytes → Bool
unfolding same_values
maps_equal left right = (length left == length right) && same_values left right

unfoldable pub matches : InstallSnapshotRequest → InstallState → Bool
unfolding maps_equal bytes_eq
matches req s =
    (s.meta.last_included_index == req.last_included_index)
    && ((s.meta.last_included_term == req.last_included_term)
        && ((s.total_size == req.total_size)
            && (bytes_eq s.checksum req.checksum
                && maps_equal s.meta.cluster_config req.cluster_config)))

-- newInstallSnapshotState; `opened` says whether the file can be made.
unfoldable pub new_install_state : Bool → Config → InstallSnapshotRequest → Result InstallState
new_install_state opened config req =
    let s : InstallState = record {
      meta = record {
        last_included_index = req.last_included_index;
        last_included_term = req.last_included_term;
        cluster_config = req.cluster_config;
      };
      checksum = req.checksum;
      total_size = req.total_size;
      next_offset = 0;
      contents = [];
    } in
    if config.data_dir
    then (if opened then ok s else err io_error)
    else if ltb max_int req.total_size
    then err invalid_snapshot
    else ok s

-- appendChunk; `done` says whether the file can be read or written. The bytes of the file behind
-- `next_offset`, which a write that failed may leave, are not held: the next write replaces them.
unfoldable pub append_chunk : Bool → ℕ → Bytes → InstallState → InstallState × Option RaftError
unfolding bytes_eq
append_chunk done offset chunk s =
    let chunk_end = add64 offset (length chunk) in
    if ltb s.next_offset offset || (ltb s.next_offset chunk_end && ltb offset s.next_offset)
    then (s, some snapshot_offset)
    else if not done
    then (s, some io_error)
    else if ltb offset s.next_offset
    then (if bytes_eq (take (chunk_end - offset) (drop offset s.contents)) chunk
        then (s, none)
        else (s, some snapshot_chunk_mismatch))
    else (record s { contents = s.contents ++ chunk; next_offset = chunk_end }, none)

-- bytes
unfoldable pub installed_bytes : Bool → InstallState → Result Bytes
installed_bytes done s =
    if ltb max_int s.total_size
    then err invalid_snapshot
    else if done
    then ok s.contents
    else err io_error
