-- ===== src/Raft/Log/Reads.antt =====
-- What can be read of the log after a write of internal/raft/log.go.
use kver.Prelude.{
  ℕ, suc, ◌+◌, ◌-◌, ◌≤◌, ◌<◌, ◌≡◌, refl, true, none, some, List, [], ◌∷◌, ◌++◌, arith, ap, ◌∙◌,
  length, take, drop, get_elem?, take_of_length-le,
}
use mathlib.Core.List.{append-nil}
use kver.Raft.Types.{LogEntry, ok}
use kver.Raft.Log.{
  RaftLog, Rewrite, Written, append, last_entry, last_index, index_or, term_at_offset,
  truncate_after, compact_up_to, term_at, rewritten, not_renamed, renamed, written, rolled_back,
  torn,
}
use kver.Raft.Log.WellFormed.{Contiguous, IsWellFormed}

last_entry-Contiguous :
    (n : ℕ) (e : LogEntry) (es : List LogEntry)
    → Contiguous n (e ∷ es)
    → (x : LogEntry) × (last_entry (e ∷ es) ≡ some x)
      × (x.index ≡ n + length es)
      × (get_elem? (e ∷ es) (length es) ≡ some x)
unfolding last_entry
last_entry-Contiguous n e [] c = (e, refl, omega arith, refl)
last_entry-Contiguous n e (e' ∷ es) c =
    let (x, found, index, at) = last_entry-Contiguous (suc n) e' es c.1 in
    (x, found, omega arith, at)

index_or-last_entry :
    (b : ℕ) (es : List LogEntry)
    → Contiguous (suc b) es
    → index_or b (last_entry es) ≡ b + length es
unfolding index_or last_entry
index_or-last_entry b [] c = omega arith
index_or-last_entry b (x ∷ es) c =
    let (y, found, index, at) = last_entry-Contiguous (suc b) x es c in
    ap (index_or b) found ∙ (omega arith)

-- The last index is the boundary plus the number of live entries.
pub last_index_lem : (l : RaftLog) → IsWellFormed l → last_index l ≡ l.base_index + length l.entries
unfolding last_index
last_index_lem l w = index_or-last_entry l.base_index l.entries w.contiguous

-- Above the boundary a term is that of the entry at the offset.
pub term_at_above :
    (l : RaftLog) (i : ℕ)
    → l.base_index < i
    → term_at l i ≡ term_at_offset (get_elem? l.entries (i - l.base_index - 1))
unfolding term_at
term_at_above l i h = ground arith

-- What a successful truncation leaves.
pub truncate_after_ok :
    (io : Rewrite) (index : ℕ) (l : RaftLog)
    → IsWellFormed l
    → (truncate_after io index l).1 ≡ none
    → (l.base_index ≤ index)
      × ((truncate_after io index l).0.entries ≡ take (index - l.base_index) l.entries)
      × ((truncate_after io index l).0.base_index ≡ l.base_index)
      × ((truncate_after io index l).0.base_term ≡ l.base_term)
      × ((truncate_after io index l).0.boundary_known ≡ l.boundary_known)
unfolding truncate_after
truncate_after_ok rewritten index l w h =
    ground (arith, take_of_length-le (index - l.base_index) l.entries)
truncate_after_ok not_renamed index l w h =
    ground (arith, take_of_length-le (index - l.base_index) l.entries)
truncate_after_ok renamed index l w h =
    ground (arith, take_of_length-le (index - l.base_index) l.entries)

pub compact_up_to_ok :
    (io : Rewrite) (index : ℕ) (l : RaftLog)
    → IsWellFormed l
    → l.base_index < index
    → (compact_up_to io index l).1 ≡ none
    → (index ≤ l.base_index + length l.entries)
      × ((compact_up_to io index l).0.entries ≡ drop (index - l.base_index) l.entries)
      × ((compact_up_to io index l).0.base_index ≡ index)
      × (ok (compact_up_to io index l).0.base_term ≡ term_at l index)
      × ((compact_up_to io index l).0.boundary_known ≡ true)
unfolding compact_up_to
compact_up_to_ok rewritten index l w lt h = ground arith
compact_up_to_ok not_renamed index l w lt h = ground arith
compact_up_to_ok renamed index l w lt h = ground arith

pub append_ok :
    (io : Written) (es : List LogEntry) (l : RaftLog)
    → (append io es l).1 ≡ none
    → ((append io es l).0.entries ≡ l.entries ++ es)
      × ((append io es l).0.base_index ≡ l.base_index)
      × ((append io es l).0.base_term ≡ l.base_term)
      × ((append io es l).0.boundary_known ≡ l.boundary_known)
unfolding append
append_ok io [] l h = ground (arith, append-nil l.entries)
append_ok written (e ∷ es) l h = ground arith
append_ok rolled_back (e ∷ es) l h = ground arith
append_ok (torn n) (e ∷ es) l h = ground arith
