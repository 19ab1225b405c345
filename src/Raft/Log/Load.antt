-- ===== src/Raft/Log/Load.antt =====
-- `loadFromDisk` and `newRaftLogWithWAL` of internal/raft/log.go, from the content of the file on.
use kver.Prelude.{
  ℕ, ◌-◌, Bool, true, not, ◌&&◌, Option, none, some, List, [], ◌∷◌, ◌==◌, if◌then◌else◌, add64,
}
use kver.Raft.Types.{LogEntry, RaftError, Result, ok, err, corrupt_log, io_error}
use kver.Raft.Log.{Wal, RaftLog, Rewrite, validate_entry_sequence, persist_state, new_raft_log}

-- The header, or the mark of a file from before the header format.
read_header : Option (ℕ × ℕ) → RaftLog → Result RaftLog
read_header none l = ok (record l { legacy_wal = true })
read_header (some (bi, bt)) l =
    if (bi == 0) && not (bt == 0)
    then err corrupt_log
    else ok
        (record l { wal_has_header = true; boundary_known = true; base_index = bi; base_term = bt })

-- Without a header the boundary is taken from the first entry.
legacy_boundary : List LogEntry → RaftLog → Result RaftLog
legacy_boundary [] l = ok l
legacy_boundary (e ∷ es) l =
    if not l.legacy_wal
    then ok l
    else if e.index == 0
    then err corrupt_log
    else ok
        (record l { base_index = e.index - 1; base_term = 0; boundary_known = e.index - 1 == 0 })

with_entries : List LogEntry → Option RaftError → RaftLog → Result RaftLog
with_entries es (some e) l = err e
with_entries es none l = ok (record l { entries = es })

load_records : List LogEntry → Result RaftLog → Result RaftLog
unfolding with_entries
load_records es (err e) = err e
load_records es (ok l) = with_entries es (validate_entry_sequence es (add64 l.base_index 1)) l

load_body : List LogEntry → Result RaftLog → Result RaftLog
unfolding load_records legacy_boundary
load_body es (err e) = err e
load_body es (ok l) = load_records es (legacy_boundary es l)

unfoldable pub load_from_disk : Option Wal → RaftLog → Result RaftLog
unfolding load_body read_header
load_from_disk none l = ok l
load_from_disk (some w) l = load_body w.records (read_header w.header (record l { wal = w }))

or_error : RaftLog × Option RaftError → Result RaftLog
or_error (l, some e) = err e
or_error (l, none) = ok l

-- A file without a usable header is rewritten; any other is opened for appending.
open_wal : Rewrite → Bool → Result RaftLog → Result RaftLog
unfolding or_error persist_state
open_wal io opened (err e) = err e
open_wal io opened (ok l) =
    if not l.wal_has_header && not l.legacy_wal
    then or_error (persist_state io l.entries l.base_index l.base_term l)
    else if l.legacy_wal && (l.base_index == 0)
    then or_error (persist_state io l.entries 0 0 l)
    else if opened
    then ok (record l { wal_open = true })
    else err io_error

-- `none` is a file that is missing, or shorter than a header's magic.
unfoldable pub new_raft_log_with_wal : Bool → Rewrite → Bool → Option Wal → Result RaftLog
unfolding open_wal new_raft_log
new_raft_log_with_wal durable io opened file =
    let l = record new_raft_log { durable = durable } in
    if not durable then ok l else open_wal io opened (load_from_disk file l)
