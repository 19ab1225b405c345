-- ===== src/Raft/Vote/Safety.antt =====
-- The safety of votes: what `handleRequestVote` (internal/raft/election.go) may and may not grant.
use kver.Prelude.{
  ℕ, ◌≤◌, ◌≡◌, ◌≢◌, refl, [], arith, true, false, ltb, bytes_eq_iff, Option, none, some, if_both,
  not, ◌&&◌,
}
use kver.Raft.Types.{RequestVoteRequest, RequestVoteResponse}
use kver.Raft.Node.{RaftNode, Window, release, step_down}
use kver.Raft.Node.Advances.{
  Advances, Advances-refl, Advances-trans, IsSteady, release-Advances, step_down-Advances,
}
use kver.Raft.Vote.{handle_request_vote, consider_vote, can_vote, up_to_date, leader_alive}

grant-Advances :
    (w : Window) (now : ℕ) (req : RequestVoteRequest) (r : RaftNode)
    → IsSteady w
    → can_vote req r ≡ true
    → Advances r (release w (record r { voted_for = req.candidate_id; last_heartbeat = now }))
unfolding can_vote
grant-Advances w now req r st free =
    let voted = record r { voted_for = req.candidate_id; last_heartbeat = now } in
    let first : Advances r voted = record {
      term_mono = omega arith;
      vote_kept = λ e v.
          ground (arith, bytes_eq_iff r.voted_for [], bytes_eq_iff r.voted_for req.candidate_id);
    } in
    Advances-trans r voted _ first (release-Advances w voted st)

consider_vote-Advances :
    (w : Window) (now : ℕ) (req : RequestVoteRequest) (r : RaftNode)
    → IsSteady w
    → Advances r (consider_vote w now req r).0
unfolding consider_vote
consider_vote-Advances w now req r st =
    let P = λ (a : RaftNode × RequestVoteResponse). Advances r a.0 in
    if_both P req.pre_vote _ _ (λ _. Advances-refl r)
      λ _.
        if_both P (can_vote req r && up_to_date req r) _ _
          (λ free. grant-Advances w now req r st (ground arith)) λ _. Advances-refl r

-- Whatever is asked, and whatever other goroutines do while the lock is released, the handler of
-- a vote request never lowers the term and never changes a vote within a term.
pub handle_request_vote-Advances :
    (down vote : Window) (now : ℕ) (req : Option RequestVoteRequest) (r : RaftNode)
    → IsSteady down
    → IsSteady vote
    → Advances r (handle_request_vote down vote now req r).0
unfolding handle_request_vote
handle_request_vote-Advances down vote now none r sd sv = Advances-refl r
handle_request_vote-Advances down vote now (some req) r sd sv =
    let P = λ (a : RaftNode × RequestVoteResponse). Advances r a.0 in
    if_both P r.fatal _ _ (λ _. Advances-refl r)
      λ _.
        if_both P (ltb req.term r.current_term) _ _ (λ _. Advances-refl r)
          λ _.
            if_both P (leader_alive now r) _ _ (λ _. Advances-refl r)
              λ _.
                if_both P (not req.pre_vote && ltb r.current_term req.term) _ _
                  (λ _.
                    Advances-trans r (step_down down now req.term r) _
                      (step_down-Advances down now req.term r sd)
                      (consider_vote-Advances vote down.now req (step_down down now req.term r) sv))
                  λ _. consider_vote-Advances vote now req r sv

-- A pre-vote, granted or not, changes nothing.
pub pre_vote_unchanged :
    (down vote : Window) (now : ℕ) (req : RequestVoteRequest) (r : RaftNode)
    → req.pre_vote ≡ true
    → (handle_request_vote down vote now (some req) r).0 ≡ r
unfolding handle_request_vote
pre_vote_unchanged down vote now req r p =
    let P = λ (a : RaftNode × RequestVoteResponse). a.0 ≡ r in
    if_both P r.fatal _ _ (λ _. refl)
      λ _.
        if_both P (ltb req.term r.current_term) _ _ (λ _. refl)
          λ _. if_both P (leader_alive now r) _ _ (λ _. refl) λ _. simp p

-- Once a node has voted in its term, it grants no other candidate a vote of that term.
pub vote_once :
    (down vote : Window) (now : ℕ) (req : RequestVoteRequest) (r : RaftNode)
    → req.pre_vote ≡ false
    → req.term ≡ r.current_term
    → r.voted_for ≢ []
    → (handle_request_vote down vote now (some req) r).1.vote_granted ≡ true
    → req.candidate_id ≡ r.voted_for
unfolding handle_request_vote can_vote
vote_once down vote now req r p t v h =
    ground (arith, bytes_eq_iff r.voted_for [], bytes_eq_iff r.voted_for req.candidate_id)

-- A vote or a pre-vote is granted only for a term that is not old, by a node that is healthy and
-- has not heard from a living leader.
pub granted_conditions :
    (down vote : Window) (now : ℕ) (req : RequestVoteRequest) (r : RaftNode)
    → (handle_request_vote down vote now (some req) r).1.vote_granted ≡ true
    → (r.current_term ≤ req.term) × (r.fatal ≡ false) × (leader_alive now r ≡ false)
unfolding handle_request_vote
granted_conditions down vote now req r h = ground arith
