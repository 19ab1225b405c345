-- ===== src/Raft/Append/Commit.antt =====
-- The commit index of a follower (`processAppendEntries`, internal/raft/replication.go).
use kver.Prelude.{
  ℕ, suc, ◌+◌, ◌<◌, ◌≡◌, refl, true, false, Option, none, some, List, [], ◌∷◌, min, arith, ap,
  u64_mod, add64, length, ltb, inl, inr, ◌⊎◌, if_both,
}
use kver.Raft.Types.{LogEntry, RaftError, ok, AppendEntriesRequest}
use kver.Raft.Log.{RaftLog, Rewrite, Written, term_at, last_index}
use kver.Raft.Log.WellFormed.{Contiguous, validate_of_Contiguous}
use kver.Raft.Node.{RaftNode, Window, follower}
use kver.Raft.Append.{
  Answer, Stored, stored, failed, compacted, store_entry, store_entries, check_previous, check_term,
  check_indices, finish, store_checked, accept, heard_leader, process_append_entries,
}
use kver.Raft.Append.Success.{HasPrevious}

-- The commit index after an answer: what it was when the leader was accepted, or, where the
-- leader's is higher, the smaller of that and the last index of the log.
abbrev pub FollowsCommit : AppendEntriesRequest → RaftNode → RaftNode → Type 0
FollowsCommit req r s =
    (s.commit_index ≡ r.commit_index)
    ⊎ ((r.commit_index < req.leader_commit)
        × (s.commit_index ≡ min req.leader_commit (last_index s.log)))

finish-FollowsCommit :
    (req : AppendEntriesRequest) (s : Stored) (r : RaftNode)
    → FollowsCommit req r (finish req s r).0
unfolding finish
finish-FollowsCommit req (stored l) r = ground arith
finish-FollowsCommit req (failed l e) r = inl (ground arith)
finish-FollowsCommit req (compacted l) r = inl refl

store_checked-FollowsCommit :
    (tio : Rewrite) (aio : Written) (req : AppendEntriesRequest) (c : Option (ℕ × ℕ)) (r : RaftNode)
    → FollowsCommit req r (store_checked tio aio req c r).0
unfolding store_checked
store_checked-FollowsCommit tio aio req none r =
    finish-FollowsCommit req (store_entries tio aio req.entries r.log) r
store_checked-FollowsCommit tio aio req (some (i, t)) r = inl refl

accept-FollowsCommit :
    (tio : Rewrite) (aio : Written) (req : AppendEntriesRequest) (v : Option RaftError)
    (r : RaftNode)
    → FollowsCommit req r (accept tio aio req v r).0
unfolding accept
accept-FollowsCommit tio aio req none r =
    store_checked-FollowsCommit tio aio req (check_previous req r.log) r
accept-FollowsCommit tio aio req (some e) r = inl refl

-- The commit index after a request is the one of the node that has accepted the leader or, where
-- the leader's is higher, the smaller of that and the last index of the log. A request that is
-- refused for its term, or by an unhealthy node, changes nothing.
pub commit_index_bounds :
    (w : Window) (tio : Rewrite) (aio : Written) (now : ℕ) (req : AppendEntriesRequest)
    (r : RaftNode)
    → (FollowsCommit req
        (heard_leader w now req r)
        (process_append_entries w tio aio now (some req) r).0)
      ⊎ (((r.fatal ≡ true) ⊎ (req.term < r.current_term))
          × ((process_append_entries w tio aio now (some req) r).0 ≡ r))
unfolding process_append_entries
commit_index_bounds w tio aio now req r =
    let heard = heard_leader w now req r in
    let P = λ (a : Answer).
      (FollowsCommit req heard a.0)
      ⊎ (((r.fatal ≡ true) ⊎ (req.term < r.current_term)) × (a.0 ≡ r)) in
    if_both P r.fatal _ _ (λ f. inr (inl f, refl))
      λ _.
        if_both P (ltb req.term r.current_term) _ _ (λ lt. inr (inr (ground arith), refl))
          λ _. inl (accept-FollowsCommit tio aio req (check_indices req req.entries) heard)

-- From index `n` on the log has the terms of these entries.
abbrev pub HasTerms : RaftLog → ℕ → List LogEntry → Type 0
HasTerms l n [] = Unit
HasTerms l n (e ∷ es) = (term_at l n ≡ ok e.term) × HasTerms l (suc n) es

HasPrevious-check_previous :
    (req : AppendEntriesRequest) (l : RaftLog) → HasPrevious req l → check_previous req l ≡ none
unfolding check_previous check_term term_at
HasPrevious-check_previous req l (inl (zero_index, start)) = ground arith
HasPrevious-check_previous req l (inr found) = ground arith

store_entries_present :
    (tio : Rewrite) (aio : Written) (es : List LogEntry) (l : RaftLog) (n : ℕ)
    → Contiguous n es
    → HasTerms l n es
    → store_entries tio aio es l ≡ stored l
unfolding store_entries store_entry
store_entries_present tio aio [] l n c h = refl
store_entries_present tio aio (e ∷ es) l n c h =
    ground (arith, store_entries_present tio aio es l (suc n), ap (term_at l) c.0)

check_indices_ok :
    (req : AppendEntriesRequest)
    → req.prev_log_index + length req.entries + 1 < u64_mod
    → (es : List LogEntry) → req.entries ≡ es
    → Contiguous (suc req.prev_log_index) es
    → check_indices req es ≡ none
unfolding check_indices
check_indices_ok req f [] e c = refl
check_indices_ok req f (x ∷ es) e c =
    let count : length req.entries ≡ suc (length es) = ap (length {0}) e in
    let next : add64 req.prev_log_index 1 ≡ suc req.prev_log_index = omega arith in
    rw next (ground (arith, validate_of_Contiguous (x ∷ es) (suc req.prev_log_index)))

heard_leader_same :
    (w : Window) (now : ℕ) (req : AppendEntriesRequest) (r : RaftNode)
    → r.state ≡ follower
    → req.term ≡ r.current_term
    → heard_leader w now req r ≡ record r { leader_id = req.leader_id; last_heartbeat = now }
unfolding heard_leader
heard_leader_same w now req r st t = ground arith

-- The commit index can pass what the leader has verified: where a healthy follower in the leader's
-- term has the request's previous entry and the terms of all its entries, and the leader's commit
-- index is above the follower's, the log stays as it is and the follower commits up to the smaller
-- of the leader's commit index and the end of its own log, wherever the request ends. The indices
-- of the request follow one another and fit a word.
pub commits_unverified :
    (w : Window) (tio : Rewrite) (aio : Written) (now : ℕ) (req : AppendEntriesRequest)
    (r : RaftNode)
    → r.fatal ≡ false
    → r.state ≡ follower
    → req.term ≡ r.current_term
    → HasPrevious req r.log
    → req.prev_log_index + length req.entries + 1 < u64_mod
    → Contiguous (suc req.prev_log_index) req.entries
    → HasTerms r.log (suc req.prev_log_index) req.entries
    → r.commit_index < req.leader_commit
    → ((process_append_entries w tio aio now (some req) r).0.log ≡ r.log)
      × ((process_append_entries w tio aio now (some req) r).0.commit_index
          ≡ min req.leader_commit (last_index r.log))
unfolding process_append_entries
commits_unverified w tio aio now req r nf st t prev f c h lt =
    let checked : check_indices req req.entries ≡ none =
      check_indices_ok req f req.entries refl c in
    let matched = HasPrevious-check_previous req r.log prev in
    let present = store_entries_present tio aio req.entries r.log (suc req.prev_log_index) c h in
    let same = heard_leader_same w now req r st t in
    rw (checked, same) (unfold accept store_checked finish in ground (arith, present, matched))
