-- ===== src/Raft/Log.antt =====
-- internal/raft/log.go: the Raft log and its write-ahead log. The file's content is held as the
-- header and the records that `loadFromDisk` would read from it; the calls of the file system
-- answer by an argument, which says how far the write came.
pub mod WellFormed
pub mod Keeps
pub mod Reads
pub mod Effects
pub mod Writes
pub mod Load
pub mod Recovery
pub mod Codec
use kver.Prelude.{
  ℕ, ◌+◌, ◌-◌, Bool, true, false, not, ◌&&◌, Option, none, some, List, [], ◌∷◌, ◌++◌, ltb, leb,
  ◌==◌, if◌then◌else◌, add64, length, get_elem?, take, drop,
}
use kver.Raft.Types.{
  LogEntry, RaftError, Result, ok, err, out_of_range, non_contiguous_log, storage_unavailable,
  log_compacted, snapshot_stale, snapshot_boundary_mismatch,
}

-- What a read of the WAL file gives: a file from before the header format has none.
pub record Wal : Type 0 where
  pub header : Option (ℕ × ℕ)
  pub records : List LogEntry

pub record RaftLog : Type 0 where
  pub entries : List LogEntry
  pub durable : Bool  -- dataDir != ""
  pub wal_open : Bool  -- walFile != nil
  pub base_index : ℕ
  pub base_term : ℕ
  pub boundary_known : Bool
  pub storage_failed : Bool  -- storageErr != nil
  pub wal_has_header : Bool
  pub legacy_wal : Bool
  pub wal : Wal

-- How a rewrite of the file ends: complete, or an error before or after the rename.
pub data Rewrite : Type 0 where
  rewritten not_renamed renamed : Rewrite

-- How an append to the file ends: complete, or an error after which the file is cut back to its
-- old end, or keeps the first records of the batch because that cut failed too.
pub data Written : Type 0 where
  written rolled_back : Written
  torn : ℕ → Written

unfoldable pub validate_entry_sequence : List LogEntry → ℕ → Option RaftError
validate_entry_sequence [] expected = none
validate_entry_sequence (entry ∷ rest) expected =
    let tail = validate_entry_sequence rest (add64 expected 1) in
    if entry.index == expected then tail else some non_contiguous_log

unfoldable pub fail_storage : RaftLog → RaftLog × Option RaftError
fail_storage l = (record l { storage_failed = true }, some storage_unavailable)

replace_wal : Rewrite → List LogEntry → ℕ → ℕ → RaftLog → RaftLog × Option RaftError
unfolding fail_storage
replace_wal rewritten es bi bt l = (
  record l {
    wal = record { header = some (bi, bt); records = es };
    wal_open = true;
    wal_has_header = true;
    legacy_wal = false;
  },
  none,
)
replace_wal not_renamed es bi bt l = fail_storage l
replace_wal renamed es bi bt l =
    fail_storage (record l { wal = record { header = some (bi, bt); records = es } })

unfoldable pub persist_state :
    Rewrite → List LogEntry → ℕ → ℕ → RaftLog → RaftLog × Option RaftError
unfolding replace_wal
persist_state io es bi bt l =
    if not l.durable
    then (l, none)
    else if l.storage_failed
    then (l, some storage_unavailable)
    else replace_wal io es bi bt l

extend_wal : Written → List LogEntry → RaftLog → RaftLog × Option RaftError
unfolding fail_storage
extend_wal written es l = (record l { wal = record l.wal { records = l.wal.records ++ es } }, none)
extend_wal rolled_back es l = fail_storage l
extend_wal (torn n) es l =
    fail_storage (record l { wal = record l.wal { records = l.wal.records ++ take n es } })

unfoldable pub append_wal : Written → List LogEntry → RaftLog → RaftLog × Option RaftError
unfolding extend_wal
append_wal io [] l = (l, none)
append_wal io (e ∷ es) l =
    if not l.durable
    then (l, none)
    else if l.storage_failed
    then (l, some storage_unavailable)
    else if not l.wal_open
    then fail_storage l
    else extend_wal io (e ∷ es) l

unfoldable pub last_entry : List LogEntry → Option LogEntry
last_entry [] = none
last_entry (e ∷ []) = some e
last_entry (e ∷ e' ∷ es) = last_entry (e' ∷ es)

index_or : ℕ → Option LogEntry → ℕ
index_or base none = base
index_or base (some e) = e.index

unfoldable pub last_index : RaftLog → ℕ
unfolding last_entry index_or
last_index l = index_or l.base_index (last_entry l.entries)

term_or : ℕ → Option LogEntry → ℕ
term_or base none = base
term_or base (some e) = e.term

unfoldable pub last_term : RaftLog → ℕ
unfolding last_entry term_or
last_term l = term_or l.base_term (last_entry l.entries)

unfoldable pub first_index : RaftLog → ℕ
first_index l = add64 l.base_index 1

-- The offset is computed only above the boundary, so that truncated `-` is exact.
unfoldable pub term_at_offset : Option LogEntry → Result ℕ
term_at_offset none = err out_of_range
term_at_offset (some e) = ok e.term

unfoldable pub term_at : RaftLog → ℕ → Result ℕ
unfolding term_at_offset
term_at l index =
    if index == l.base_index
    then (if index == 0
        then ok 0
        else if not l.boundary_known
        then err log_compacted
        else ok l.base_term)
    else if ltb index l.base_index
    then err log_compacted
    else term_at_offset (get_elem? l.entries (index - l.base_index - 1))

unfoldable pub entry_at_offset : Option LogEntry → Result LogEntry
entry_at_offset none = err out_of_range
entry_at_offset (some e) = ok e

unfoldable pub get_entry : RaftLog → ℕ → Result LogEntry
unfolding entry_at_offset
get_entry l index =
    if (index == 0) && (l.base_index == 0)
    then err out_of_range
    else if leb index l.base_index
    then err log_compacted
    else entry_at_offset (get_elem? l.entries (index - l.base_index - 1))

unfoldable pub get_entries_from : RaftLog → ℕ → Result (List LogEntry)
get_entries_from l index =
    if (index == 0) && (l.base_index == 0)
    then err out_of_range
    else if leb index l.base_index
    then err log_compacted
    else ok (drop (index - l.base_index - 1) l.entries)

add_entries : List LogEntry → RaftLog × Option RaftError → RaftLog × Option RaftError
add_entries es (l, some e) = (l, some e)
add_entries es (l, none) = (record l { entries = l.entries ++ es }, none)

append_checked : Written → List LogEntry → Option RaftError → RaftLog → RaftLog × Option RaftError
unfolding add_entries append_wal
append_checked io es (some e) l = (l, some e)
append_checked io es none l = add_entries es (append_wal io es l)

unfoldable pub append : Written → List LogEntry → RaftLog → RaftLog × Option RaftError
unfolding append_checked
append io [] l = (l, none)
append io (e ∷ es) l =
    let expected = add64 (add64 l.base_index (length l.entries)) 1 in
    if l.storage_failed
    then (l, some storage_unavailable)
    else append_checked io (e ∷ es) (validate_entry_sequence (e ∷ es) expected) l

-- The rewrite came through, or its error is passed on with the memory as it was.
unfoldable pub install :
    List LogEntry → ℕ → ℕ → Bool → RaftLog × Option RaftError → RaftLog × Option RaftError
install es bi bt known (l, some e) = (l, some e)
install es bi bt known (l, none) =
    (record l { entries = es; base_index = bi; base_term = bt; boundary_known = known }, none)

unfoldable pub truncate_after : Rewrite → ℕ → RaftLog → RaftLog × Option RaftError
unfolding persist_state install
truncate_after io index l =
    let last = add64 l.base_index (length l.entries) in
    let candidate = take (index - l.base_index) l.entries in
    if ltb index l.base_index
    then (l, some log_compacted)
    else if leb last index
    then (l, none)
    else install candidate l.base_index l.base_term l.boundary_known
        (persist_state io candidate l.base_index l.base_term l)

compact_to_term : Rewrite → ℕ → Result ℕ → RaftLog → RaftLog × Option RaftError
unfolding persist_state install
compact_to_term io index (err e) l = (l, some e)
compact_to_term io index (ok term) l =
    let candidate = drop (index - l.base_index) l.entries in
    install candidate index term true (persist_state io candidate index term l)

unfoldable pub compact_up_to : Rewrite → ℕ → RaftLog → RaftLog × Option RaftError
unfolding compact_to_term term_at
compact_up_to io index l =
    let last = add64 l.base_index (length l.entries) in
    if leb index l.base_index
    then (l, none)
    else if ltb last index
    then (l, some out_of_range)
    else compact_to_term io index (term_at l index) l

-- The entries above `index`, if the entry at `index` has the snapshot's term.
matching_suffix : ℕ → Option LogEntry → List LogEntry → List LogEntry
matching_suffix term none rest = []
matching_suffix term (some e) rest = if e.term == term then rest else []

restore_with :
    Rewrite → ℕ → ℕ → List LogEntry → Option RaftError → RaftLog → RaftLog × Option RaftError
unfolding persist_state install
restore_with io index term candidate (some e) l = (l, some e)
restore_with io index term candidate none l =
    install candidate index term true (persist_state io candidate index term l)

-- The entries that a snapshot at `index` leaves in the log.
unfoldable pub snapshot_candidate : ℕ → ℕ → RaftLog → List LogEntry
unfolding matching_suffix
snapshot_candidate index term l =
    let offset = index - l.base_index - 1 in
    if index == l.base_index
    then l.entries
    else if leb index (add64 l.base_index (length l.entries))
    then matching_suffix term (get_elem? l.entries offset) (drop (offset + 1) l.entries)
    else []

unfoldable pub restore_snapshot_boundary : Rewrite → ℕ → ℕ → RaftLog → RaftLog × Option RaftError
unfolding restore_with snapshot_candidate
restore_snapshot_boundary io index term l =
    let candidate = snapshot_candidate index term l in
    if ltb index l.base_index
    then (l, some snapshot_stale)
    else if (index == l.base_index) && (l.boundary_known && not (l.base_term == term))
    then (l, some snapshot_boundary_mismatch)
    else restore_with io index term candidate (validate_entry_sequence candidate (add64 index 1)) l

-- newRaftLog
unfoldable pub new_raft_log : RaftLog
new_raft_log = record {
  entries = [];
  durable = false;
  wal_open = false;
  base_index = 0;
  base_term = 0;
  boundary_known = true;
  storage_failed = false;
  wal_has_header = false;
  legacy_wal = false;
  wal = record { header = none; records = [] };
}
