-- ===== src/Raft/Vote/Counted.antt =====
-- A vote that a candidate can count (`handleRequestVote`, internal/raft/election.go).
use kver.Prelude.{ℕ, ◌≤◌, ◌≡◌, ◌≢◌, [], arith, true, false, ltb, some, if_both, not, ◌&&◌}
use kver.Raft.Types.{RequestVoteRequest, RequestVoteResponse}
use kver.Raft.Node.{RaftNode, Window, step_down}
use kver.Raft.Node.Advances.{IsSteady, release-Advances, le-step_down}
use kver.Raft.Vote.{handle_request_vote, consider_vote, can_vote, up_to_date, leader_alive}

-- The answer grants a vote of the request's term, and the node has it.
HasVoted : RequestVoteRequest → RaftNode × RequestVoteResponse → Type 0
HasVoted req a =
    a.1.vote_granted ≡ true
    → a.1.term ≡ req.term
    → (a.0.current_term ≡ req.term) × (a.0.voted_for ≡ req.candidate_id)

consider_vote-HasVoted :
    (w : Window) (now : ℕ) (req : RequestVoteRequest) (r : RaftNode)
    → IsSteady w
    → req.pre_vote ≡ false
    → req.candidate_id ≢ []
    → req.term ≤ r.current_term
    → HasVoted req (consider_vote w now req r)
unfolding consider_vote HasVoted
consider_vote-HasVoted w now req r st real named recent =
    let voted = record r { voted_for = req.candidate_id; last_heartbeat = now } in
    let a = release-Advances w voted st in
    let P = λ (x : RaftNode × RequestVoteResponse).
      x.1.vote_granted ≡ true
      → x.1.term ≡ req.term
      → (x.0.current_term ≡ req.term) × (x.0.voted_for ≡ req.candidate_id) in
    if_both P req.pre_vote _ _ (λ pre. absurd (ground arith))
      λ _.
        if_both P (can_vote req r && up_to_date req r) _ _
          (λ free granted term. let mono = a.term_mono in (term, a.vote_kept (omega arith) named))
          λ _ granted term. ground arith

-- A vote that is granted with the request's own term, which is what a candidate counts, is for the
-- candidate, and the node has it in that term when it answers.
pub handle_request_vote-HasVoted :
    (down vote : Window) (now : ℕ) (req : RequestVoteRequest) (r : RaftNode)
    → IsSteady down
    → IsSteady vote
    → req.pre_vote ≡ false
    → req.candidate_id ≢ []
    → (handle_request_vote down vote now (some req) r).1.vote_granted ≡ true
    → (handle_request_vote down vote now (some req) r).1.term ≡ req.term
    → ((handle_request_vote down vote now (some req) r).0.current_term ≡ req.term)
      × ((handle_request_vote down vote now (some req) r).0.voted_for ≡ req.candidate_id)
unfolding handle_request_vote HasVoted
handle_request_vote-HasVoted down vote now req r sd sv real named =
    let P = λ (x : RaftNode × RequestVoteResponse).
      x.1.vote_granted ≡ true
      → x.1.term ≡ req.term
      → (x.0.current_term ≡ req.term) × (x.0.voted_for ≡ req.candidate_id) in
    if_both P r.fatal _ _ (λ _ granted term. ground arith)
      λ _.
        if_both P (ltb req.term r.current_term) _ _ (λ _ granted term. ground arith)
          λ recent.
            if_both P (leader_alive now r) _ _ (λ _ granted term. ground arith)
              λ _.
                if_both P (not req.pre_vote && ltb r.current_term req.term) _ _
                  (λ _.
                    consider_vote-HasVoted vote down.now req (step_down down now req.term r) sv real
                      named (le-step_down down now req.term r sd))
                  λ no_step.
                    let reached : req.term ≤ r.current_term = ground arith in
                    consider_vote-HasVoted vote now req r sv real named reached
