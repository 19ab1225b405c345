-- ===== src/Raft/Append/Advances.antt =====
-- `processAppendEntries` (internal/raft/replication.go) keeps terms and votes.
use kver.Prelude.{ℕ, refl, arith, Option, none, some, ltb, if_both, not, ◌||◌}
use kver.Raft.Types.{RaftError, AppendEntriesRequest}
use kver.Raft.Log.{Rewrite, Written}
use kver.Raft.Node.{RaftNode, Window, is_follower}
use kver.Raft.Node.Advances.{
  Advances, Advances-trans, IsSteady, step_down-Advances, mark_storage_failure-Advances,
}
use kver.Raft.Append.{
  Stored, stored, failed, compacted, Answer, finish, store_checked, accept, heard_leader,
  process_append_entries, check_previous, store_entries, check_indices,
}

heard_leader-Advances :
    (w : Window) (now : ℕ) (req : AppendEntriesRequest) (r : RaftNode)
    → IsSteady w
    → Advances r (heard_leader w now req r)
unfolding heard_leader
heard_leader-Advances w now req r st =
    if_both (Advances r) (ltb r.current_term req.term || not (is_follower r.state)) _ _
      (λ _.
        let a = step_down-Advances w now req.term r st in
        record { term_mono = a.term_mono; vote_kept = a.vote_kept })
      λ _. record { term_mono = omega arith; vote_kept = λ _ _. refl }

finish-Advances :
    (req : AppendEntriesRequest) (s : Stored) (r : RaftNode) → Advances r (finish req s r).0
unfolding finish
finish-Advances req (stored l) r = ground arith
finish-Advances req (failed l e) r =
    let a = mark_storage_failure-Advances e (record r { log = l }) in
    record { term_mono = a.term_mono; vote_kept = a.vote_kept }
finish-Advances req (compacted l) r = ground arith

store_checked-Advances :
    (tio : Rewrite) (aio : Written) (req : AppendEntriesRequest) (c : Option (ℕ × ℕ)) (r : RaftNode)
    → Advances r (store_checked tio aio req c r).0
unfolding store_checked
store_checked-Advances tio aio req none r =
    finish-Advances req (store_entries tio aio req.entries r.log) r
store_checked-Advances tio aio req (some (i, t)) r = ground arith

accept-Advances :
    (tio : Rewrite) (aio : Written) (req : AppendEntriesRequest) (v : Option RaftError)
    (r : RaftNode)
    → Advances r (accept tio aio req v r).0
unfolding accept
accept-Advances tio aio req none r = store_checked-Advances tio aio req (check_previous req r.log) r
accept-Advances tio aio req (some e) r = ground arith

-- Whatever the request and the file system's answers, and whatever other goroutines do while the
-- lock is released, the handler of entries never lowers the term and never changes a vote within
-- a term.
pub process_append_entries-Advances :
    (w : Window) (tio : Rewrite) (aio : Written) (now : ℕ) (req : Option AppendEntriesRequest)
    (r : RaftNode)
    → IsSteady w
    → Advances r (process_append_entries w tio aio now req r).0
unfolding process_append_entries
process_append_entries-Advances w tio aio now none r st =
    if_both (λ (a : Answer). Advances r a.0) r.fatal _ _ (λ _. ground arith) λ _. ground arith
process_append_entries-Advances w tio aio now (some req) r st =
    let P = λ (a : Answer). Advances r a.0 in
    if_both P r.fatal _ _ (λ _. ground arith)
      λ _.
        if_both P (ltb req.term r.current_term) _ _ (λ _. ground arith)
          λ _.
            Advances-trans r (heard_leader w now req r) _ (heard_leader-Advances w now req r st) (
              accept-Advances tio aio req (check_indices req req.entries)
                (heard_leader w now req r))
