-- ===== src/Raft/Append/Success.antt =====
-- What a follower's success answer promises (`processAppendEntries`,
-- internal/raft/replication.go).
use kver.Prelude.{
  ℕ, suc, ◌+◌, ◌≤◌, ◌<◌, ◌≡◌, refl, sym, true, Option, none, some, List, [], ◌∷◌, arith, ap,
  u64_mod, add64, length, ltb, inl, inr, ◌⊎◌, if_both, subst,
}
use kver.Raft.Types.{LogEntry, RaftError, Result, ok, err, log_compacted, AppendEntriesRequest}
use kver.Raft.Log.{RaftLog, Rewrite, Written, term_at, validate_entry_sequence}
use kver.Raft.Log.WellFormed.{Contiguous, IsWellFormed, validate-Contiguous}
use kver.Raft.Node.{RaftNode, Window}
use kver.Raft.Append.{
  Answer, Stored, stored, failed, compacted, store_entries, check_previous, check_term,
  check_indices, finish, store_checked, accept, heard_leader, process_append_entries,
}
use kver.Raft.Append.Matching.{Matched, store_entries-Matched, inside-ok}

-- The log has the request's previous entry.
abbrev pub HasPrevious : AppendEntriesRequest → RaftLog → Type 0
HasPrevious req l =
    ((req.prev_log_index ≡ 0) × (l.base_index ≡ 0))
    ⊎ (term_at l req.prev_log_index ≡ ok req.prev_log_term)

previous-le :
    (req : AppendEntriesRequest) (l : RaftLog)
    → HasPrevious req l
    → suc req.prev_log_index ≤ suc (l.base_index + length l.entries)
previous-le req l (inl (zero_index, _)) = omega arith
previous-le req l (inr found) =
    omega (arith, inside-ok l req.prev_log_index req.prev_log_term found)

check_term-none :
    (req : AppendEntriesRequest) (l : RaftLog) (r : Result ℕ)
    → check_term req l r ≡ none
    → r ≡ ok req.prev_log_term
unfolding check_term
check_term-none req l (ok t) h = ground arith
check_term-none req l (err log_compacted) h = cc
check_term-none req l (err _) h = cc

check_previous-none :
    (req : AppendEntriesRequest) (l : RaftLog) → check_previous req l ≡ none → HasPrevious req l
unfolding check_previous
check_previous-none req l h = ground (arith, check_term-none req l (term_at l req.prev_log_index))

pub check_indices-none :
    (req : AppendEntriesRequest)
    → req.prev_log_index + length req.entries + 1 < u64_mod
    → (es : List LogEntry) → req.entries ≡ es
    → check_indices req es ≡ none
    → Contiguous (suc req.prev_log_index) es
unfolding check_indices
check_indices-none req f [] e h = tt
check_indices-none req f (x ∷ es) e h =
    let count : length req.entries ≡ suc (length es) = ap (length {0}) e in
    let next : add64 req.prev_log_index 1 ≡ suc req.prev_log_index = omega arith in
    let checked : validate_entry_sequence (x ∷ es) (suc req.prev_log_index) ≡ none =
      rw (← next) (ground arith) in
    validate-Contiguous (x ∷ es) (suc req.prev_log_index) (omega arith) checked

finish-success :
    (req : AppendEntriesRequest) (s : Stored) (r : RaftNode)
    → (finish req s r).1.success ≡ true
    → (m : RaftLog) × (s ≡ stored m) × ((finish req s r).0.log ≡ m)
unfolding finish
finish-success req (stored l) r h = (l, refl, ground arith)
finish-success req (failed l e) r h = cc
finish-success req (compacted l) r h = cc

store_checked-success :
    (tio : Rewrite) (aio : Written) (req : AppendEntriesRequest) (c : Option (ℕ × ℕ)) (r : RaftNode)
    → (store_checked tio aio req c r).1.success ≡ true
    → (m : RaftLog) × (c ≡ none)
      × (store_entries tio aio req.entries r.log ≡ stored m)
      × ((store_checked tio aio req c r).0.log ≡ m)
unfolding store_checked
store_checked-success tio aio req (some (i, t)) r h = cc
store_checked-success tio aio req none r h =
    let (m, ran, log) = finish-success req (store_entries tio aio req.entries r.log) r h in
    (m, refl, ran, log)

accept-Matched :
    (tio : Rewrite) (aio : Written) (req : AppendEntriesRequest) (v : Option RaftError)
    (r : RaftNode)
    → v ≡ check_indices req req.entries
    → IsWellFormed r.log
    → req.prev_log_index + length req.entries + 1 < u64_mod
    → (accept tio aio req v r).1.success ≡ true
    → HasPrevious req r.log
      × Matched r.log (accept tio aio req v r).0.log (suc req.prev_log_index) req.entries
unfolding accept
accept-Matched tio aio req (some x) r e wf f h = cc
accept-Matched tio aio req none r e wf f h =
    let (m, matched, ran, log) = store_checked-success tio aio req (check_previous req r.log) r h in
    let previous = check_previous-none req r.log matched in
    (
      previous,
      subst (λ k. Matched r.log k (suc req.prev_log_index) req.entries) (sym log)
          (store_entries-Matched tio aio req.entries r.log (suc req.prev_log_index) wf
            (check_indices-none req f req.entries refl (sym e)) (omega arith)
            (previous-le req r.log previous) (omega arith) ran),
    )

-- A follower that answers with success has the request's previous entry in the log with which it
-- accepted the leader. The log that it answers with is well-formed, has the entries and the terms
-- up to the previous entry that it had, and from there on the terms of the request's entries: at each
-- of their indices it has the request's entry, commands and all, or keeps the one of the same term
-- that it had, as long as the indices of the request fit a word.
pub success-Matched :
    (w : Window) (tio : Rewrite) (aio : Written) (now : ℕ) (req : AppendEntriesRequest)
    (r : RaftNode)
    → IsWellFormed (heard_leader w now req r).log
    → req.prev_log_index + length req.entries + 1 < u64_mod
    → (process_append_entries w tio aio now (some req) r).1.success ≡ true
    → HasPrevious req (heard_leader w now req r).log
      × Matched
          (heard_leader w now req r).log
          (process_append_entries w tio aio now (some req) r).0.log
          (suc req.prev_log_index)
          req.entries
unfolding process_append_entries
success-Matched w tio aio now req r wf f =
    let heard = heard_leader w now req r in
    let P = λ (a : Answer).
      a.1.success ≡ true
      → HasPrevious req heard.log
        × Matched heard.log a.0.log (suc req.prev_log_index) req.entries in
    if_both P r.fatal _ _ (λ _ h. cc)
      λ _.
        if_both P (ltb req.term r.current_term) _ _ (λ _ h. cc)
          λ _. accept-Matched tio aio req (check_indices req req.entries) heard refl wf f
