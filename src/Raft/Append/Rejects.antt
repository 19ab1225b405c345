-- ===== src/Raft/Append/Rejects.antt =====
-- What a follower answers where it does not take the entries (`processAppendEntries`,
-- internal/raft/replication.go).
use kver.Prelude.{
  ℕ, zero, suc, ◌+◌, ◌-◌, ◌≤◌, ◌<◌, ◌≡◌, ◌≢◌, ◌⊎◌, inl, inr, refl, sym, ap, subst, ◌∙◌, arith,
  false, Option, none, some, List, [], ◌∷◌, ltb, ◌==◌, if_both, add64, u64_mod, length, Bool-cases,
  get_elem?-some, get_elem?-none,
}
use kver.Raft.Types.{LogEntry, AppendEntriesRequest, RaftError, Result, ok, err, out_of_range}
use kver.Raft.Log.{
  RaftLog, Written, Rewrite, term_at, term_at_offset, last_index, append, truncate_after,
}
use kver.Raft.Log.WellFormed.{IsWellFormed, Contiguous}
use kver.Raft.Log.Reads.{last_index_lem, term_at_above}
use kver.Raft.Node.{RaftNode, Window}
use kver.Raft.Append.Success.{check_indices-none}
use kver.Raft.Append.{
  Stored, stored, failed, compacted, find_conflict, check_term, check_previous, check_indices,
  store_entries, store_entry, store_appended, store_truncated, heard_leader, process_append_entries,
  accept, store_checked, finish, Answer,
}

find_conflict-bounds :
    (l : RaftLog) (term c : ℕ)
    → l.base_index ≡ 0
    → 0 < c
    → (0 < find_conflict l term c) × (find_conflict l term c ≤ c)
unfolding find_conflict
find_conflict-bounds l term zero base pos = absurd (omega arith)
find_conflict-bounds l term (suc zero) base pos = (ground arith, ground arith)
find_conflict-bounds l term (suc (suc c)) base pos =
    let (low, high) = find_conflict-bounds l term (suc c) base (omega arith) in
    (ground arith, ground arith)

-- In a log that begins at the first entry, no term is missing below the end.
term_at-cases :
    (l : RaftLog) (i : ℕ)
    → IsWellFormed l
    → l.base_index ≡ 0
    → (0 < i)
    → ((term : ℕ) × (term_at l i ≡ ok term))
      ⊎ ((term_at l i ≡ err out_of_range) × (last_index l < i))
unfolding term_at_offset
term_at-cases l i w base pos =
    let k = i - l.base_index - 1 in
    let above = term_at_above l i (omega arith) in
    let last = last_index_lem l w in
    elim (Bool-cases (ltb k (length l.entries))) [
      | inl inside ↦
          let (e, there) = get_elem?-some l.entries k (ground arith) in
          inl (e.term, above ∙ ap term_at_offset there)
      | inr beyond ↦
          let reached : length l.entries ≤ k = ground arith in
          inr (above ∙ ap term_at_offset (get_elem?-none l.entries k reached), omega arith)
    ]

-- The conflict that a rejection names: at or below the previous entry.
Lower : AppendEntriesRequest → ℕ → Type 0
Lower req index = (0 < index) × (index ≤ req.prev_log_index)

check_term-Lower :
    (req : AppendEntriesRequest) (l : RaftLog) (x : Result ℕ) (index term : ℕ)
    → IsWellFormed l
    → l.base_index ≡ 0
    → 0 < req.prev_log_index
    → ((t : ℕ) × (x ≡ ok t)) ⊎ ((x ≡ err out_of_range) × (last_index l < req.prev_log_index))
    → check_term req l x ≡ some (index, term)
    → Lower req index
unfolding check_term Lower
check_term-Lower req l x index term w base pos (inl (t, eq)) h =
    let bounds = find_conflict-bounds l t req.prev_log_index base pos in
    let h' = subst (λ y. check_term req l y ≡ some (index, term)) eq h in ground arith
check_term-Lower req l x index term w base pos (inr (eq, beyond)) h =
    let last = last_index_lem l w in
    let fits = w.fits in
    let h' = subst (λ y. check_term req l y ≡ some (index, term)) eq h in
    let at : add64 (last_index l) 1 ≡ index = ground arith in (omega arith, omega arith)

check_previous-Lower :
    (req : AppendEntriesRequest) (l : RaftLog) (index term : ℕ)
    → IsWellFormed l
    → l.base_index ≡ 0
    → check_previous req l ≡ some (index, term)
    → Lower req index
unfolding check_previous
check_previous-Lower req l index term w base h = elim (Bool-cases (req.prev_log_index == 0)) [
  | inl first ↦ absurd (ground arith)
  | inr later ↦
      let pos : 0 < req.prev_log_index = ground arith in
      check_term-Lower req l (term_at l req.prev_log_index) index term w base pos
        (term_at-cases l req.prev_log_index w base pos) (ground arith)
]

store_appended-stored :
    (x : RaftLog × Option RaftError) (l' : RaftLog) → store_appended x ≢ compacted l'
unfolding store_appended
store_appended-stored (l, none) l' h = cc
store_appended-stored (l, some e) l' h = cc

store_truncated-stored :
    (aio : Written) (es : List LogEntry) (x : RaftLog × Option RaftError) (l' : RaftLog)
    → store_truncated aio es x ≢ compacted l'
unfolding store_truncated
store_truncated-stored aio es (l, none) l' = store_appended-stored (append aio es l) l'
store_truncated-stored aio es (l, some e) l' = λ h. cc

store_entry-stored :
    (tio : Rewrite) (aio : Written) (e : LogEntry) (es : List LogEntry) (rest : Stored)
    (x : Result ℕ) (l l' : RaftLog)
    → ((t : ℕ) × (x ≡ ok t)) ⊎ ((x ≡ err out_of_range) × (last_index l < e.index))
    → rest ≢ compacted l'
    → store_entry tio aio e es rest x l ≢ compacted l'
unfolding store_entry
store_entry-stored tio aio e es rest x l l' (inl (t, eq)) later =
    subst (λ y. store_entry tio aio e es rest y l ≢ compacted l') (sym eq)
      (if_both (λ s. s ≢ compacted l') (t == e.term) _ _ (λ _. later)
        (λ _. store_truncated-stored aio (e ∷ es) (truncate_after tio (e.index - 1) l) l'))
store_entry-stored tio aio e es rest x l l' (inr (eq, beyond)) later =
    subst (λ y. store_entry tio aio e es rest y l ≢ compacted l') (sym eq)
      (store_appended-stored (append aio (e ∷ es) l) l')

-- The loop never meets an entry below the log's begin.
store_entries-stored :
    (tio : Rewrite) (aio : Written) (es : List LogEntry) (l l' : RaftLog) (k : ℕ)
    → IsWellFormed l
    → l.base_index ≡ 0
    → 0 < k
    → Contiguous k es
    → store_entries tio aio es l ≢ compacted l'
unfolding store_entries
store_entries-stored tio aio [] l l' k w base pos c = λ h. cc
store_entries-stored tio aio (e ∷ es) l l' k w base pos c =
    let at = c.0 in
    store_entry-stored tio aio e es (store_entries tio aio es l) (term_at l e.index) l l'
      (term_at-cases l e.index w base (omega arith))
      (store_entries-stored tio aio es l l' (suc k) w base (omega arith) c.1)

-- A rejection without an error names a conflict at or below the previous entry.
Bounded : AppendEntriesRequest → Answer → Type 0
Bounded req a = a.1.success ≡ false → a.2 ≡ none → Lower req a.1.conflict_index

finish-Bounded :
    (req : AppendEntriesRequest) (s : Stored) (r : RaftNode)
    → ((l' : RaftLog) → s ≢ compacted l')
    → Bounded req (finish req s r)
unfolding finish Bounded
finish-Bounded req (stored l) r kept = λ h clean. cc
finish-Bounded req (failed l e) r kept = λ h clean. ground arith
finish-Bounded req (compacted l) r kept = λ h clean. absurd (kept l refl)

store_checked-Bounded :
    (tio : Rewrite) (aio : Written) (req : AppendEntriesRequest) (x : Option (ℕ × ℕ)) (r : RaftNode)
    → ((l' : RaftLog) → store_entries tio aio req.entries r.log ≢ compacted l')
    → ((index term : ℕ) → x ≡ some (index, term) → Lower req index)
    → Bounded req (store_checked tio aio req x r)
unfolding store_checked Bounded
store_checked-Bounded tio aio req (some (index, term)) r kept lower =
    λ h clean. lower index term refl
store_checked-Bounded tio aio req none r kept lower =
    unfold Bounded in finish-Bounded req (store_entries tio aio req.entries r.log) r kept

accept-Bounded :
    (tio : Rewrite) (aio : Written) (req : AppendEntriesRequest) (v : Option RaftError)
    (r : RaftNode)
    → v ≡ check_indices req req.entries
    → IsWellFormed r.log
    → r.log.base_index ≡ 0
    → req.prev_log_index + length req.entries + 1 < u64_mod
    → Bounded req (accept tio aio req v r)
unfolding accept Bounded
accept-Bounded tio aio req (some x) r e w base fits = λ h clean. ground arith
accept-Bounded tio aio req none r e w base fits =
    unfold Bounded in
    store_checked-Bounded tio aio req (check_previous req r.log) r
      (λ l'.
        store_entries-stored tio aio req.entries r.log l' (suc req.prev_log_index) w base
          (omega arith) (check_indices-none req fits req.entries refl (sym e)))
      (λ index term. check_previous-Lower req r.log index term w base)

accept-Lower :
    (tio : Rewrite) (aio : Written) (req : AppendEntriesRequest) (r : RaftNode)
    → IsWellFormed r.log
    → r.log.base_index ≡ 0
    → req.prev_log_index + length req.entries + 1 < u64_mod
    → (accept tio aio req (check_indices req req.entries) r).1.success ≡ false
    → (accept tio aio req (check_indices req req.entries) r).2 ≡ none
    → Lower req (accept tio aio req (check_indices req req.entries) r).1.conflict_index
unfolding Bounded
accept-Lower tio aio req r = accept-Bounded tio aio req (check_indices req req.entries) r refl

-- A follower whose log begins at the first entry, and which takes the request's term, either
-- answers with success or an error, or names a conflict between the first entry and the request's
-- previous one.
pub rejection-Lower :
    (w : Window) (tio : Rewrite) (aio : Written) (now : ℕ) (req : AppendEntriesRequest)
    (r : RaftNode)
    → r.fatal ≡ false
    → r.current_term ≤ req.term
    → IsWellFormed (heard_leader w now req r).log
    → (heard_leader w now req r).log.base_index ≡ 0
    → req.prev_log_index + length req.entries + 1 < u64_mod
    → (process_append_entries w tio aio now (some req) r).1.success ≡ false
    → (process_append_entries w tio aio now (some req) r).2 ≡ none
    → (0 < (process_append_entries w tio aio now (some req) r).1.conflict_index)
      × ((process_append_entries w tio aio now (some req) r).1.conflict_index ≤ req.prev_log_index)
unfolding process_append_entries Lower
rejection-Lower w tio aio now req r healthy recent wf base fits =
    let heard = heard_leader w now req r in
    let P = λ (a : Answer).
      a.1.success ≡ false
      → a.2 ≡ none
      → (0 < a.1.conflict_index) × (a.1.conflict_index ≤ req.prev_log_index) in
    if_both P r.fatal _ _ (λ sick. absurd (ground arith))
      λ _.
        if_both P (ltb req.term r.current_term) _ _ (λ stale. absurd (ground arith))
          λ _. accept-Lower tio aio req heard wf base fits
