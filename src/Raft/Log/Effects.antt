-- ===== src/Raft/Log/Effects.antt =====
-- The effect of each write of internal/raft/log.go, as later reads see it.
use kver.Prelude.{
  ℕ, ◌+◌, ◌-◌, ◌≤◌, ◌<◌, ◌≡◌, ◌≢◌, true, none, List, arith, length, take, get_elem?, length-take,
  ltb, leb, ◌==◌, Bool-cases, inl, inr, get_elem?-append_left, get_elem?-append_right,
  get_elem?-take, get_elem?-drop, get_elem?-none, if◌then◌else◌,
}
use kver.Raft.Types.{LogEntry, ok, err, out_of_range, log_compacted}
use kver.Raft.Log.{
  RaftLog, Rewrite, Written, restore_snapshot_boundary, restore_with, install, append, last_index,
  get_entry, term_at_offset, entry_at_offset, truncate_after, compact_up_to, term_at,
}
use kver.Raft.Log.WellFormed.{IsWellFormed}
use kver.Raft.Log.Reads.{
  last_index_lem, term_at_above, truncate_after_ok, compact_up_to_ok, append_ok,
}

-- Two logs with one boundary agree on the terms up to it.
term_at-boundary :
    (l m : RaftLog) (j : ℕ)
    → m.base_index ≡ l.base_index
    → m.base_term ≡ l.base_term
    → m.boundary_known ≡ l.boundary_known
    → j ≤ l.base_index
    → term_at m j ≡ term_at l j
unfolding term_at
term_at-boundary l m j p q r h = ground arith

term_at_compacted : (l : RaftLog) (j : ℕ) → j < l.base_index → term_at l j ≡ err log_compacted
unfolding term_at
term_at_compacted l j h = ground arith

term_at_base :
    (l : RaftLog)
    → l.base_index ≢ 0
    → l.boundary_known ≡ true
    → term_at l l.base_index ≡ ok l.base_term
unfolding term_at
term_at_base l h k = ground arith

pub get_entry_above :
    (l : RaftLog) (i : ℕ)
    → l.base_index < i
    → get_entry l i ≡ entry_at_offset (get_elem? l.entries (i - l.base_index - 1))
unfolding get_entry
get_entry_above l i h = ground arith

get_entry_below :
    (l m : RaftLog) (i : ℕ)
    → i ≤ l.base_index
    → m.base_index ≡ l.base_index
    → get_entry m i ≡ get_entry l i
unfolding get_entry
get_entry_below l m i h e = ground arith

-- After a truncation that succeeds, every term up to the given index is what it was, and every
-- index above it is out of range.
pub term_at-truncate_after :
    (io : Rewrite) (index : ℕ) (l : RaftLog)
    → IsWellFormed l
    → (truncate_after io index l).1 ≡ none
    → (j : ℕ)
    → term_at (truncate_after io index l).0 j
      ≡ (if leb j index then term_at l j else err out_of_range)
unfolding term_at_offset
term_at-truncate_after io index l w h j =
    let (lo, es, bi, bt, known) = truncate_after_ok io index l w h in
    let m = (truncate_after io index l).0 in
    elim (Bool-cases (leb j l.base_index)) [
      | inl below ↦ ground (arith, term_at-boundary l m j)
      | inr above ↦ elim (Bool-cases (leb j index)) [
        | inl kept ↦ rw kept (
            ground (
              arith,
              term_at_above l j,
              term_at_above m j,
              get_elem?-take (index - l.base_index) l.entries (j - l.base_index - 1),
            ))
        | inr cut ↦ rw cut (
            ground (
              arith,
              term_at_above m j,
              get_elem?-none (take (index - l.base_index) l.entries) (j - l.base_index - 1),
              length-take (index - l.base_index) l.entries,
            ))
      ]
    ]

-- After a truncation that succeeds, every entry up to the given index is what it was.
pub get_entry-truncate_after :
    (io : Rewrite) (index : ℕ) (l : RaftLog)
    → IsWellFormed l
    → (truncate_after io index l).1 ≡ none
    → (j : ℕ) → j ≤ index
    → get_entry (truncate_after io index l).0 j ≡ get_entry l j
get_entry-truncate_after io index l w h j le =
    let (lo, es, bi, bt, known) = truncate_after_ok io index l w h in
    let m = (truncate_after io index l).0 in
    elim (Bool-cases (leb j l.base_index)) [
      | inl below ↦ ground (arith, get_entry_below l m j)
      | inr above ↦ ground (
        arith,
        get_entry_above l j,
        get_entry_above m j,
        get_elem?-take (index - l.base_index) l.entries (j - l.base_index - 1),
      )
    ]

-- After a compaction that succeeds, every term from the given index on is what it was, and every
-- index below it is reported as compacted.
pub term_at-compact_up_to :
    (io : Rewrite) (index : ℕ) (l : RaftLog)
    → IsWellFormed l
    → l.base_index < index
    → (compact_up_to io index l).1 ≡ none
    → (j : ℕ)
    → term_at (compact_up_to io index l).0 j
      ≡ (if ltb j index then err log_compacted else term_at l j)
term_at-compact_up_to io index l w lt h j =
    let (hi, es, bi, bt, known) = compact_up_to_ok io index l w lt h in
    let m = (compact_up_to io index l).0 in
    elim (Bool-cases (ltb j index)) [
      | inl below ↦ rw below (term_at_compacted m j (ground arith))
      | inr above ↦ rw above (elim (Bool-cases (j == index)) [
        | inl here ↦ ground (arith, term_at_base m)
        | inr later ↦ ground (
          arith,
          term_at_above l j,
          term_at_above m j,
          get_elem?-drop (index - l.base_index) l.entries (j - index - 1),
        )
      ])
    ]

-- Entries already in the log are read as before an append that succeeds; the new ones follow them
-- in order.
pub get_entry-append :
    (io : Written) (es : List LogEntry) (l : RaftLog)
    → IsWellFormed l
    → (append io es l).1 ≡ none
    → (j : ℕ)
    → get_entry (append io es l).0 j ≡ (
        if leb j (last_index l)
        then get_entry l j
        else entry_at_offset (get_elem? es (j - last_index l - 1)))
get_entry-append io es l w h j =
    let (all, bi, bt, known) = append_ok io es l h in
    let m = (append io es l).0 in
    let last : last_index l ≡ l.base_index + length l.entries = last_index_lem l w in
    let offset = j - l.base_index - 1 in
    elim (Bool-cases (leb j l.base_index)) [
      | inl below ↦ ground (arith, get_entry_below l m j)
      | inr above ↦ elim (Bool-cases (leb j (last_index l))) [
        | inl old ↦ ground (
          arith,
          get_entry_above l j,
          get_entry_above m j,
          get_elem?-append_left l.entries es offset,
        )
        | inr fresh ↦
            ground (arith, get_entry_above m j, get_elem?-append_right l.entries es offset)
      ]
    ]

-- Terms already in the log are read as before an append that succeeds; those of the new entries
-- follow them in order.
pub term_at-append :
    (io : Written) (es : List LogEntry) (l : RaftLog)
    → IsWellFormed l
    → (append io es l).1 ≡ none
    → (j : ℕ)
    → term_at (append io es l).0 j ≡ (
        if leb j (last_index l)
        then term_at l j
        else term_at_offset (get_elem? es (j - last_index l - 1)))
term_at-append io es l w h j =
    let (all, bi, bt, known) = append_ok io es l h in
    let m = (append io es l).0 in
    let last : last_index l ≡ l.base_index + length l.entries = last_index_lem l w in
    let offset = j - l.base_index - 1 in
    elim (Bool-cases (leb j l.base_index)) [
      | inl below ↦ ground (arith, term_at-boundary l m j)
      | inr above ↦ elim (Bool-cases (leb j (last_index l))) [
        | inl old ↦
            ground (
              arith,
              term_at_above l j,
              term_at_above m j,
              get_elem?-append_left l.entries es offset,
            )
        | inr fresh ↦ ground (arith, term_at_above m j, get_elem?-append_right l.entries es offset)
      ]
    ]

-- A snapshot moves the boundary to its own.
pub restore_snapshot_boundary-boundary :
    (io : Rewrite) (index term : ℕ) (l : RaftLog)
    → (restore_snapshot_boundary io index term l).1 ≡ none
    → ((restore_snapshot_boundary io index term l).0.base_index ≡ index)
      × ((restore_snapshot_boundary io index term l).0.base_term ≡ term)
unfolding restore_snapshot_boundary restore_with install
restore_snapshot_boundary-boundary io index term l h = (ground arith, ground arith)
