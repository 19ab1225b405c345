-- ===== src/Raft/Log/Writes.antt =====
-- The writes of internal/raft/log.go together: well-formedness, and what an error leaves behind.
use kver.Prelude.{
  ℕ, suc, ◌+◌, ◌-◌, ◌<◌, ◌≡◌, refl, Bool, true, Option, none, some, List, [], ◌∷◌, arith, u64_mod,
  add64, length, take, drop,
}
use kver.Raft.Types.{LogEntry, RaftError, Result, ok, err}
use kver.Raft.Log.{
  RaftLog, Rewrite, Written, validate_entry_sequence, persist_state, append, install,
  truncate_after, compact_up_to, compact_to_term, restore_snapshot_boundary, restore_with,
  snapshot_candidate, term_at, rewritten, not_renamed, renamed, written, rolled_back, torn,
}
use kver.Raft.Log.WellFormed.{IsWellFormed}
use kver.Raft.Log.Keeps.{
  append-IsWellFormed, truncate_after-IsWellFormed, compact_up_to-IsWellFormed,
  restore_snapshot_boundary-IsWellFormed,
}

-- The writes, with the answer of the file system.
pub data Write : Type 0 where
  append_op : Written → List LogEntry → Write
  truncate_op : Rewrite → ℕ → Write
  compact_op : Rewrite → ℕ → Write
  restore_op : Rewrite → ℕ → ℕ → Write

unfoldable pub run_write : Write → RaftLog → RaftLog × Option RaftError
run_write (append_op io es) l = append io es l
run_write (truncate_op io index) l = truncate_after io index l
run_write (compact_op io index) l = compact_up_to io index l
run_write (restore_op io index term) l = restore_snapshot_boundary io index term l

pub record SameMemory (l m : RaftLog) : Type 0 where
  pub entries : m.entries ≡ l.entries
  pub base_index : m.base_index ≡ l.base_index
  pub base_term : m.base_term ≡ l.base_term
  pub boundary_known : m.boundary_known ≡ l.boundary_known

install-SameMemory :
    (io : Rewrite) (es : List LogEntry) (bi bt : ℕ) (known : Bool) (l : RaftLog) (x : RaftError)
    → (install es bi bt known (persist_state io es bi bt l)).1 ≡ some x
    → SameMemory l (install es bi bt known (persist_state io es bi bt l)).0
unfolding install persist_state
install-SameMemory rewritten es bi bt known l x h = ground arith
install-SameMemory not_renamed es bi bt known l x h = ground arith
install-SameMemory renamed es bi bt known l x h = ground arith

append-SameMemory :
    (io : Written) (es : List LogEntry) (l : RaftLog) (x : RaftError)
    → (append io es l).1 ≡ some x
    → SameMemory l (append io es l).0
unfolding append
append-SameMemory io [] l x h = ground arith
append-SameMemory written (e ∷ es) l x h = ground arith
append-SameMemory rolled_back (e ∷ es) l x h = ground arith
append-SameMemory (torn n) (e ∷ es) l x h = ground arith

compact_to_term-SameMemory :
    (io : Rewrite) (index : ℕ) (r : Result ℕ) (l : RaftLog) (x : RaftError)
    → (compact_to_term io index r l).1 ≡ some x
    → SameMemory l (compact_to_term io index r l).0
unfolding compact_to_term
compact_to_term-SameMemory io index (err e) l x h = ground arith
compact_to_term-SameMemory io index (ok term) l x h =
    install-SameMemory io (drop (index - l.base_index) l.entries) index term true l x h

restore_with-SameMemory :
    (io : Rewrite) (index term : ℕ) (es : List LogEntry) (v : Option RaftError) (l : RaftLog)
    (x : RaftError)
    → (restore_with io index term es v l).1 ≡ some x
    → SameMemory l (restore_with io index term es v l).0
unfolding restore_with
restore_with-SameMemory io index term es (some e) l x h = ground arith
restore_with-SameMemory io index term es none l x h = install-SameMemory io es index term true l x h

-- A write that returns an error leaves the entries and the boundary in memory as they were.
pub error-SameMemory :
    (op : Write) (l : RaftLog) (x : RaftError)
    → (run_write op l).1 ≡ some x
    → SameMemory l (run_write op l).0
unfolding run_write
error-SameMemory (append_op io es) l x h = append-SameMemory io es l x h
error-SameMemory (truncate_op io index) l x h =
    unfold truncate_after in
    ground (
      arith,
      install-SameMemory io (take (index - l.base_index) l.entries) l.base_index l.base_term
          l.boundary_known l x,
    )
error-SameMemory (compact_op io index) l x h =
    unfold compact_up_to in
    ground (arith, compact_to_term-SameMemory io index (term_at l index) l x)
error-SameMemory (restore_op io index term) l x h =
    unfold restore_snapshot_boundary in
    let es = snapshot_candidate index term l in
    ground (
      arith,
      restore_with-SameMemory io index term es (validate_entry_sequence es (add64 index 1)) l x,
    )

install-frozen :
    (io : Rewrite) (es : List LogEntry) (bi bt : ℕ) (known : Bool) (l : RaftLog)
    → l.durable ≡ true
    → l.storage_failed ≡ true
    → (install es bi bt known (persist_state io es bi bt l)).0 ≡ l
unfolding install persist_state
install-frozen io es bi bt known l d f = simp (d, f)

append-frozen :
    (io : Written) (es : List LogEntry) (l : RaftLog)
    → l.storage_failed ≡ true
    → (append io es l).0 ≡ l
unfolding append
append-frozen io [] l f = refl
append-frozen io (e ∷ es) l f = simp f

compact_to_term-frozen :
    (io : Rewrite) (index : ℕ) (r : Result ℕ) (l : RaftLog)
    → l.durable ≡ true
    → l.storage_failed ≡ true
    → (compact_to_term io index r l).0 ≡ l
unfolding compact_to_term
compact_to_term-frozen io index (err e) l d f = refl
compact_to_term-frozen io index (ok term) l d f =
    install-frozen io (drop (index - l.base_index) l.entries) index term true l d f

restore_with-frozen :
    (io : Rewrite) (index term : ℕ) (es : List LogEntry) (v : Option RaftError) (l : RaftLog)
    → l.durable ≡ true
    → l.storage_failed ≡ true
    → (restore_with io index term es v l).0 ≡ l
unfolding restore_with
restore_with-frozen io index term es (some e) l d f = refl
restore_with-frozen io index term es none l d f = install-frozen io es index term true l d f

-- Once the storage of a durable log has failed, no write changes the log or its file any more.
pub failed_storage-frozen :
    (op : Write) (l : RaftLog) → l.durable ≡ true → l.storage_failed ≡ true → (run_write op l).0 ≡ l
unfolding run_write
failed_storage-frozen (append_op io es) l d f = append-frozen io es l f
failed_storage-frozen (truncate_op io index) l d f =
    unfold truncate_after in
    ground (
      arith,
      install-frozen io (take (index - l.base_index) l.entries) l.base_index l.base_term
          l.boundary_known l,
    )
failed_storage-frozen (compact_op io index) l d f =
    unfold compact_up_to in ground (arith, compact_to_term-frozen io index (term_at l index) l)
failed_storage-frozen (restore_op io index term) l d f =
    unfold restore_snapshot_boundary in
    let es = snapshot_candidate index term l in
    ground
      (arith, restore_with-frozen io index term es (validate_entry_sequence es (add64 index 1)) l)

-- The indices that a write brings in fit a word, with one to spare.
abbrev pub HasRoom : Write → RaftLog → Type 0
HasRoom (append_op io es) l = suc (l.base_index + length l.entries + length es) < u64_mod
HasRoom (restore_op io index term) l = suc index < u64_mod
HasRoom _ l = Unit

-- Every write, whatever the file system answers and whether it succeeds or not, keeps the log well
-- formed, if its indices fit a word.
pub run_write-IsWellFormed :
    (op : Write) (l : RaftLog) → IsWellFormed l → HasRoom op l → IsWellFormed (run_write op l).0
unfolding run_write
run_write-IsWellFormed (append_op io es) l w room = append-IsWellFormed io es l w room
run_write-IsWellFormed (truncate_op io index) l w room = truncate_after-IsWellFormed io index l w
run_write-IsWellFormed (compact_op io index) l w room = compact_up_to-IsWellFormed io index l w
run_write-IsWellFormed (restore_op io index term) l w room =
    restore_snapshot_boundary-IsWellFormed io index term l w room
