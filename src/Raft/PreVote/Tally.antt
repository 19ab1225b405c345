-- ===== src/Raft/PreVote/Tally.antt =====
-- Which polls lead to an election (`startPreVote`, internal/raft/election.go).
use kver.Prelude.{
  ℕ, suc, ◌+◌, ◌≤◌, ◌≡◌, ◌⊎◌, inl, inr, refl, arith, Bool, true, false, Option, none, some, List,
  [], ◌∷◌, ltb, leb, if◌then◌else◌, Bool-cases,
}
use kver.Raft.Types.{RequestVoteResponse}
use kver.Raft.Node.{RaftNode}
use kver.Raft.Commit.{majority}
use kver.Raft.PreVote.{
  Poll, PollReply, begin_poll, count_pre_vote, hear_response, hear_poll_replies, polled_term,
}

unfoldable pub granted : Option RequestVoteResponse → Bool
granted none = false
granted (some resp) = resp.vote_granted

-- The answers that grant the pre-vote.
unfoldable pub pre_grants : List PollReply → ℕ
unfolding granted
pre_grants [] = 0
pre_grants (reply ∷ replies) =
    let rest = pre_grants replies in if granted reply.response then suc rest else rest

-- What one answer does to the poll: an election that it calls for has a majority of the votes
-- counted, and a vote is counted for a grant alone.
record Counts (grant : Bool) (p q : Poll) : Type 0 where
  same : q.majority ≡ p.majority
  one : q.votes ≤ p.votes + (if grant then 1 else 0)
  more : p.votes ≤ q.votes
  earned : q.elects ≡ true → (p.elects ≡ true) ⊎ (p.majority ≤ q.votes)

count_pre_vote-Counts :
    (reply : PollReply) (r : RaftNode) (p : Poll) → Counts true p (count_pre_vote reply (r, p)).1
unfolding count_pre_vote
count_pre_vote-Counts reply r p = record {
  same = ground arith;
  one = ground arith;
  more = ground arith;
  earned = λ h. ground arith;
}

Counts-refl : (grant : Bool) (p : Poll) → Counts grant p p
Counts-refl grant p = record { same = refl; one = ground arith; more = omega arith; earned = inl }

hear_response-Counts :
    (reply : PollReply) (o : Option RequestVoteResponse) (r : RaftNode) (p : Poll)
    → Counts (granted o) p (hear_response reply o (r, p)).1
unfolding hear_response granted
hear_response-Counts reply none r p = Counts-refl false p
hear_response-Counts reply (some resp) r p = elim (Bool-cases (ltb (polled_term p) resp.term)) [
  | inl newer ↦ rw newer (Counts-refl resp.vote_granted p)
  | inr current ↦ rw current (elim (Bool-cases resp.vote_granted) [
    | inl agrees ↦ rw agrees (count_pre_vote-Counts reply r p)
    | inr refuses ↦ rw refuses (Counts-refl false p)
  ])
]

-- In sum: the votes are the grants, and the election is earned.
hear_poll_replies-earned :
    (replies : List PollReply) (r : RaftNode) (p : Poll)
    → (p.elects ≡ true → p.majority ≤ p.votes)
    → (hear_poll_replies replies (r, p)).1.elects ≡ true
    → p.majority ≤ p.votes + pre_grants replies
unfolding hear_poll_replies pre_grants
hear_poll_replies-earned [] r p earned h = let le = earned h in omega arith
hear_poll_replies-earned (reply ∷ replies) r p earned h =
    let c = hear_response-Counts reply reply.response r p in
    let x = hear_response reply reply.response (r, p) in
    let same = c.same in
    let one = c.one in
    let more = c.more in
    let earned' : x.1.elects ≡ true → x.1.majority ≤ x.1.votes = λ e. elim (c.earned e) [
      | inl before ↦ let le = earned before in omega arith
      | inr enough ↦ omega arith
    ] in
    let later = hear_poll_replies-earned replies x.0 x.1 earned' h in ground arith

begin_poll_fields :
    (now : ℕ) (r r' : RaftNode) (p : Poll)
    → begin_poll now r ≡ (r', some p)
    → (p.majority ≡ majority r.peers)
      × (p.votes ≡ 1)
      × (p.elects ≡ leb (majority r.peers) 1)
      × (r'.current_term ≡ r.current_term)
      × (r'.voted_for ≡ r.voted_for)
unfolding begin_poll
begin_poll_fields now r r' p begun =
    (ground arith, ground arith, ground arith, ground arith, ground arith)

-- A poll leads to an election only where a majority of the members, the node itself included, has
-- granted its pre-vote, in whatever order the answers arrive and whatever other goroutines do; and
-- its start changes neither the term nor the vote.
pub begin_poll-majority :
    (now : ℕ) (replies : List PollReply) (r r' : RaftNode) (p : Poll)
    → begin_poll now r ≡ (r', some p)
    → (hear_poll_replies replies (r', p)).1.elects ≡ true
    → (majority r.peers ≤ suc (pre_grants replies))
      × (r'.current_term ≡ r.current_term)
      × (r'.voted_for ≡ r.voted_for)
begin_poll-majority now replies r r' p begun h =
    let (size, one, alone, term, vote) = begin_poll_fields now r r' p begun in
    let many = hear_poll_replies-earned replies r' p (λ e. ground arith) h in
    (omega arith, term, vote)
