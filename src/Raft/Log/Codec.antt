-- ===== src/Raft/Log/Codec.antt =====
-- The records of the write-ahead log as bytes: `writeWALRecord` and `readWALRecords` of
-- internal/raft/log.go.
pub mod RoundTrip
use kver.Prelude.{
  ℕ, zero, suc, Bytes, Bool, true, Option, none, some, List, [], ◌∷◌, ◌++◌, ltb, ◌==◌,
  if◌then◌else◌, length, take, drop,
}
use kver.Prelude.Words.{le_bytes, read_le}
use kver.Raft.Types.{LogEntry, RaftError, corrupt_log, io_error}

-- proto.Marshal and proto.Unmarshal at a log entry, and crc32.ChecksumIEEE.
pub record WalCodec : Type 0 where
  pub marshal : LogEntry → Option Bytes
  pub unmarshal : Bytes → Option LogEntry
  pub crc32 : Bytes → ℕ

abbrev pub max_record_size : ℕ
max_record_size = 67_108_864

-- What a read of the file comes to at one record.
pub data ReadRecord : Type 0 where
  end_of_file torn_tail corrupt : ReadRecord
  found : LogEntry → Bytes → ReadRecord

-- What the loop comes to: the entries and the tail that is cut off, or an error.
pub data ReadRecords : Type 0 where
  loaded : List LogEntry → Bytes → ReadRecords
  failed : RaftError → ReadRecords
  unfinished : ReadRecords

module _ (codec : WalCodec) where
  open codec use {marshal, unmarshal, crc32}

  -- A record around the bytes of an entry.
  unfoldable pub frame : Bytes → Bytes
  unfolding le_bytes
  frame text = le_bytes 4 (length text) ++ (le_bytes 4 (crc32 text) ++ text)

  framed : Option Bytes → Option Bytes
  unfolding frame
  framed none = none
  framed (some text) = some (frame text)

  unfoldable pub write_wal_record : LogEntry → Option Bytes
  unfolding framed
  write_wal_record entry = framed (marshal entry)

  write_behind : Option Bytes → Option Bytes → Option Bytes
  write_behind none rest = none
  write_behind (some record_bytes) none = none
  write_behind (some record_bytes) (some rest) = some (record_bytes ++ rest)

  unfoldable pub write_wal_records : List LogEntry → Option Bytes
  unfolding write_wal_record write_behind
  write_wal_records [] = some []
  write_wal_records (e ∷ es) = write_behind (write_wal_record e) (write_wal_records es)

  read_entry : Bytes → Option LogEntry → ReadRecord
  read_entry rest none = corrupt
  read_entry rest (some entry) = found entry rest

  -- The part behind the length.
  read_body : ℕ → Bytes → ReadRecord
  unfolding read_le read_entry
  read_body size file =
      let body = drop 8 file in
      let text = take size body in
      if ltb (length file) 8
      then torn_tail
      else if ltb (length body) size
      then torn_tail
      else if crc32 text == read_le (take 4 (drop 4 file))
      then read_entry (drop size body) (unmarshal text)
      else corrupt

  unfoldable pub read_wal_record : Bytes → ReadRecord
  unfolding read_body read_le
  read_wal_record [] = end_of_file
  read_wal_record (b ∷ bs) =
      let file = b ∷ bs in
      let size = read_le (take 4 file) in
      if ltb (length file) 4
      then torn_tail
      else if ltb max_record_size size
      then corrupt
      else read_body size file

  prepend : LogEntry → ReadRecords → ReadRecords
  prepend entry (loaded es tail) = loaded (entry ∷ es) tail
  prepend entry (failed e) = failed e
  prepend entry unfinished = unfinished

  -- `rest` is the loop behind a record; a torn tail is cut off where the file system lets it.
  read_next : Bool → (Bytes → ReadRecords) → Bytes → ReadRecord → ReadRecords
  unfolding prepend
  read_next can_cut rest file end_of_file = loaded [] []
  read_next can_cut rest file torn_tail = if can_cut then loaded [] file else failed io_error
  read_next can_cut rest file corrupt = failed corrupt_log
  read_next can_cut rest file (found entry left) = prepend entry (rest left)

  -- The fuel bounds the records; each has eight bytes at least.
  unfoldable pub read_wal_records : Bool → ℕ → Bytes → ReadRecords
  unfolding read_next read_wal_record
  read_wal_records can_cut zero file = unfinished
  read_wal_records can_cut (suc fuel) file =
      read_next can_cut (read_wal_records can_cut fuel) file (read_wal_record file)
