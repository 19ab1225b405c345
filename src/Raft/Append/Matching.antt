-- ===== src/Raft/Append/Matching.antt =====
-- The log after `processAppendEntries` (internal/raft/replication.go).
use kver.Prelude.{
  ℕ, suc, ◌+◌, ◌-◌, ◌≤◌, ◌<◌, ◌≡◌, refl, Option, none, some, List, [], ◌∷◌, arith, ap, ◌∙◌, subst,
  u64_mod, length, get_elem?, ◌⊎◌, length-take, ltb, ◌==◌, Bool-cases, inl, inr, get_elem?-none,
  get_elem?-some,
}
use kver.Raft.Types.{LogEntry, RaftError, Result, ok, err, out_of_range}
use kver.Raft.Log.{
  RaftLog, Rewrite, Written, append, truncate_after, term_at, last_index, term_at_offset, get_entry,
  entry_at_offset,
}
use kver.Raft.Log.WellFormed.{Contiguous, IsWellFormed}
use kver.Raft.Log.Keeps.{append-IsWellFormed, truncate_after-IsWellFormed}
use kver.Raft.Log.Reads.{last_index_lem, truncate_after_ok, term_at_above}
use kver.Raft.Log.Effects.{
  term_at-append, term_at-truncate_after, get_entry-append, get_entry-truncate_after,
}
use kver.Raft.Append.{Stored, stored, store_entries, store_entry, store_truncated, store_appended}

-- From index `n` on the log has these entries.
HasNew : RaftLog → ℕ → List LogEntry → Type 0
HasNew m n [] = Unit
HasNew m n (e ∷ es) = (term_at m n ≡ ok e.term) × (get_entry m n ≡ ok e) × HasNew m (suc n) es

-- From index `n` on the log `m` has the terms of these entries. It has the entries themselves, or
-- what `l` has at their index, with the entry's term.
abbrev pub HasEntries : RaftLog → RaftLog → ℕ → List LogEntry → Type 0
HasEntries l m n [] = Unit
HasEntries l m n (e ∷ es) =
    (term_at m n ≡ ok e.term)
    × ((get_entry m n ≡ ok e) ⊎ ((term_at l n ≡ ok e.term) × (get_entry m n ≡ get_entry l n)))
    × HasEntries l m (suc n) es

-- What the loop over the entries leaves: a well-formed log that has the entries from `n` on and
-- below `n` the entries and the terms that it had.
pub record Matched (l m : RaftLog) (n : ℕ) (es : List LogEntry) : Type 0 where
  pub well_formed : IsWellFormed m
  pub has_entries : HasEntries l m n es
  pub below : (j : ℕ) → j < n → term_at m j ≡ term_at l j
  pub kept : (j : ℕ) → j < n → get_entry m j ≡ get_entry l j

-- The same after an append, where every entry is new.
record Appended (l m : RaftLog) (n : ℕ) (es : List LogEntry) : Type 0 where
  well_formed : IsWellFormed m
  has_new : HasNew m n es
  below : (j : ℕ) → j < n → term_at m j ≡ term_at l j
  kept : (j : ℕ) → j < n → get_entry m j ≡ get_entry l j

HasNew-HasEntries :
    (l m : RaftLog) (n : ℕ) (es : List LogEntry) → HasNew m n es → HasEntries l m n es
unfolding HasNew
HasNew-HasEntries l m n [] h = tt
HasNew-HasEntries l m n (e ∷ es) (t, new, h) = (t, inl new, HasNew-HasEntries l m (suc n) es h)

HasNew-of_offsets :
    (m : RaftLog) (n : ℕ) (es : List LogEntry)
    → ((k : ℕ) → k < length es → term_at m (n + k) ≡ term_at_offset (get_elem? es k))
    → ((k : ℕ) → k < length es → get_entry m (n + k) ≡ entry_at_offset (get_elem? es k))
    → HasNew m n es
unfolding HasNew term_at_offset entry_at_offset
HasNew-of_offsets m n [] h g = tt
HasNew-of_offsets m n (e ∷ es) h g = (
  subst (λ k. term_at m k ≡ ok e.term) (omega arith) (h 0 (omega arith)),
  subst (λ k. get_entry m k ≡ ok e) (omega arith) (g 0 (omega arith)),
  HasNew-of_offsets m (suc n) es
      (λ k lt.
        subst (λ i. term_at m i ≡ term_at_offset (get_elem? es k)) (omega arith)
          (h (suc k) (omega arith)))
      (λ k lt.
        subst (λ i. get_entry m i ≡ entry_at_offset (get_elem? es k)) (omega arith)
          (g (suc k) (omega arith))),
)

-- An append right behind the last entry.
append-Appended :
    (io : Written) (es : List LogEntry) (l : RaftLog) (n : ℕ)
    → IsWellFormed l
    → n ≡ suc (last_index l)
    → n + length es < u64_mod
    → (append io es l).1 ≡ none
    → Appended l (append io es l).0 n es
append-Appended io es l n w e f h =
    let last = last_index_lem l w in
    record {
      well_formed = append-IsWellFormed io es l w (omega arith);
      has_new =
          HasNew-of_offsets (append io es l).0 n es
            (λ k lt.
              let offset : n + k - last_index l - 1 ≡ k = omega arith in
              ground (arith, term_at-append io es l w h (n + k), ap (get_elem? es) offset))
            (λ k lt.
              let offset : n + k - last_index l - 1 ≡ k = omega arith in
              ground (arith, get_entry-append io es l w h (n + k), ap (get_elem? es) offset));
      below = λ j lt. ground (arith, term_at-append io es l w h j);
      kept = λ j lt. ground (arith, get_entry-append io es l w h j);
    }

Matched-append :
    (io : Written) (es : List LogEntry) (l : RaftLog) (n : ℕ)
    → IsWellFormed l
    → n ≡ suc (last_index l)
    → n + length es < u64_mod
    → (append io es l).1 ≡ none
    → Matched l (append io es l).0 n es
Matched-append io es l n w e f h =
    let done = append-Appended io es l n w e f h in
    record {
      well_formed = done.well_formed;
      has_entries = HasNew-HasEntries l (append io es l).0 n es done.has_new;
      below = done.below;
      kept = done.kept;
    }

stored-injective : {l m : RaftLog} → stored l ≡ stored m → l ≡ m
stored-injective h = cc

store_appended-stored :
    (r : RaftLog × Option RaftError) {m : RaftLog}
    → store_appended r ≡ stored m
    → (r.1 ≡ none) × (r.0 ≡ m)
unfolding store_appended
store_appended-stored (l, none) h = ground arith
store_appended-stored (l, some e) h = cc

store_truncated-stored :
    (io : Written) (es : List LogEntry) (r : RaftLog × Option RaftError) {m : RaftLog}
    → store_truncated io es r ≡ stored m
    → (r.1 ≡ none) × ((append io es r.0).1 ≡ none) × ((append io es r.0).0 ≡ m)
unfolding store_truncated
store_truncated-stored io es (l, none) h = ground (arith, store_appended-stored (append io es l) h)
store_truncated-stored io es (l, some e) h = cc

-- An index above the boundary that has a term is in the log.
le-last_index :
    (l : RaftLog) (n t : ℕ)
    → l.base_index < n
    → term_at l n ≡ ok t
    → n ≤ l.base_index + length l.entries
unfolding term_at_offset
le-last_index l n t b h =
    ground (arith, term_at_above l n, get_elem?-none l.entries (n - l.base_index - 1))

pub inside-ok : (l : RaftLog) (n t : ℕ) → term_at l n ≡ ok t → n ≤ l.base_index + length l.entries
inside-ok l n t h = elim (Bool-cases (ltb l.base_index n)) [
  | inl above ↦ le-last_index l n t (ground arith) h
  | inr below ↦ ground arith
]

-- An index without a term that is not compacted is behind the log.
lt-last_index :
    (l : RaftLog) (n : ℕ) → term_at l n ≡ err out_of_range → l.base_index + length l.entries < n
unfolding term_at term_at_offset
lt-last_index l n h = ground (arith, get_elem?-some l.entries (n - l.base_index - 1))

Matched-truncate :
    (tio : Rewrite) (aio : Written) (es : List LogEntry) (l : RaftLog) (n : ℕ) {m : RaftLog}
    → IsWellFormed l
    → n ≤ l.base_index + length l.entries
    → 0 < n
    → n + length es < u64_mod
    → store_truncated aio es (truncate_after tio (n - 1) l) ≡ stored m
    → Matched l m n es
Matched-truncate tio aio es l n {m} w hi pos f h =
    let cut = (truncate_after tio (n - 1) l).0 in
    let (cut_ok, added, same) = store_truncated-stored aio es (truncate_after tio (n - 1) l) h in
    let (lo, kept, bi, bt, known) = truncate_after_ok tio (n - 1) l w cut_ok in
    let wc : IsWellFormed cut = truncate_after-IsWellFormed tio (n - 1) l w in
    let last : n ≡ suc (last_index cut) = omega (
      arith,
      last_index_lem cut wc,
      ap (length {0}) kept,
      length-take (n - 1 - l.base_index) l.entries,
    ) in
    let done = append-Appended aio es cut n wc last f added in
    subst (λ k. Matched l k n es) same
      (record {
        well_formed = done.well_formed;
        has_entries = HasNew-HasEntries l (append aio es cut).0 n es done.has_new;
        below = λ j lt.
            done.below j lt ∙ ground (arith, term_at-truncate_after tio (n - 1) l w cut_ok j);
        kept = λ j lt.
            done.kept j lt ∙ get_entry-truncate_after tio (n - 1) l w cut_ok j (omega arith);
      })

store_entry-Matched :
    (tio : Rewrite) (aio : Written) (e : LogEntry) (es : List LogEntry) (rest : Stored)
    (r : Result ℕ) (l : RaftLog) (n : ℕ) {m : RaftLog}
    → IsWellFormed l
    → e.index ≡ n
    → term_at l n ≡ r
    → 0 < n
    → n ≤ suc (l.base_index + length l.entries)
    → n + length (e ∷ es) < u64_mod
    → (rest ≡ stored m → n ≤ l.base_index + length l.entries → Matched l m (suc n) es)
    → store_entry tio aio e es rest r l ≡ stored m
    → Matched l m n (e ∷ es)
unfolding store_entry
store_entry-Matched tio aio e es rest (ok t) l n {m} w i at pos hi f ih h =
    let inside : n ≤ l.base_index + length l.entries = inside-ok l n t at in
    elim (Bool-cases (t == e.term)) [
      | inl same ↦
          let done = ih (ground arith) inside in
          record {
            well_formed = done.well_formed;
            has_entries = (
              ground (arith, done.below n),
              inr (ground arith, done.kept n (omega arith)),
              done.has_entries,
            );
            below = λ j lt. done.below j (omega arith);
            kept = λ j lt. done.kept j (omega arith);
          }
      | inr other ↦ Matched-truncate tio aio (e ∷ es) l n w inside pos f (
          subst (λ k. store_truncated aio (e ∷ es) (truncate_after tio (k - 1) l) ≡ stored m) i
            (rw other at h))
    ]
store_entry-Matched tio aio e es rest (err out_of_range) l n {m} w i at pos hi f ih h =
    let (added, same) = store_appended-stored (append aio (e ∷ es) l) h in
    subst (λ k. Matched l k n (e ∷ es)) same
      (Matched-append aio (e ∷ es) l n w (omega (arith, lt-last_index l n at, last_index_lem l w)) f
        added)
store_entry-Matched tio aio e es rest (err _) l n {m} w i at pos hi f ih h = cc

-- The loop over the entries, where it ends without an error.
pub store_entries-Matched :
    (tio : Rewrite) (aio : Written) (es : List LogEntry) (l : RaftLog) (n : ℕ) {m : RaftLog}
    → IsWellFormed l
    → Contiguous n es
    → 0 < n
    → n ≤ suc (l.base_index + length l.entries)
    → n + length es < u64_mod
    → store_entries tio aio es l ≡ stored m
    → Matched l m n es
unfolding store_entries
store_entries-Matched tio aio [] l n w c pos hi f h =
    let same = stored-injective h in
    subst (λ k. Matched l k n []) same
      (record { well_formed = w; has_entries = tt; below = λ j lt. refl; kept = λ j lt. refl })
store_entries-Matched tio aio (e ∷ es) l n {m} w c pos hi f h =
    store_entry-Matched tio aio e es (store_entries tio aio es l) (term_at l n) l n w c.0 refl pos
      hi f
      (λ (rest : store_entries tio aio es l ≡ stored m) inside.
        store_entries-Matched tio aio es l (suc n) w c.1 (omega arith) (omega arith) (omega arith)
          rest)
      (subst (λ k. store_entry tio aio e es (store_entries tio aio es l) (term_at l k) l ≡ stored m)
        c.0 h)
