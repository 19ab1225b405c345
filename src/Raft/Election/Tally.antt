-- ===== src/Raft/Election/Tally.antt =====
-- The count of the votes of an election (`startElection`, internal/raft/election.go).
use kver.Prelude.{
  ℕ, ◌+◌, ◌≤◌, ◌≡◌, refl, arith, Bool, true, false, ◌&&◌, ◌||◌, Option, none, some, List, [], ◌∷◌,
  leb, ◌==◌, if◌then◌else◌, if_both, add64, inl, inr, ◌⊎◌, ◌∙◌, subst,
}
use kver.Raft.Types.{RequestVoteResponse}
use kver.Raft.Node.{RaftNode, Window, release, is_leader, quiet}
use kver.Raft.Commit.{majority}
use kver.Raft.Election.{
  Campaign, PeerReply, become_candidate, open_campaign, begin_campaign, count_vote,
  send_request_vote, hear_reply, hear_replies,
}

-- An answer that grants the vote in the election's own term.
unfoldable pub grant : ℕ → Option RequestVoteResponse → ℕ
grant term none = 0
grant term (some resp) = if resp.vote_granted && (resp.term == term) then 1 else 0

-- The number of peers that grant their vote.
unfoldable pub grants : ℕ → List PeerReply → ℕ
unfolding grant
grants term [] = 0
grants term (reply ∷ replies) = grant term reply.response + grants term replies

-- How a count goes on: it counts at most the votes that are granted, and decides the election with
-- a majority only.
pub record IsFair (c d : Campaign) (granted : ℕ) : Type 0 where
  pub same_term : d.term ≡ c.term
  pub same_majority : d.majority ≡ c.majority
  pub at_most : d.votes ≤ c.votes + granted
  pub at_least : c.votes ≤ d.votes
  pub decided : (d.done ≡ c.done) ⊎ (c.majority ≤ d.votes)

count_vote-IsFair :
    (reply : PeerReply) (c : Campaign) (sent : RaftNode × Bool) (g : ℕ)
    → (sent.1 ≡ true → 1 ≤ g)
    → IsFair c (count_vote reply c sent).1 g
unfolding count_vote
count_vote-IsFair reply c (r, false) g h = record {
  same_term = refl;
  same_majority = refl;
  at_most = omega arith;
  at_least = omega arith;
  decided = inl refl;
}
count_vote-IsFair reply c (r, true) g h =
    let one : 1 ≤ g = h refl in
    record {
      same_term = ground arith;
      same_majority = ground arith;
      at_most = ground arith;
      at_least = ground arith;
      decided = ground arith;
    }

grant_of_sent :
    (w : Window) (now term : ℕ) (resp : Option RequestVoteResponse) (r : RaftNode)
    → (send_request_vote w now term resp r).1 ≡ true
    → 1 ≤ grant term resp
unfolding send_request_vote grant
grant_of_sent w now term none r h = cc
grant_of_sent w now term (some resp) r h = ground arith

IsFair-trans : (c d e : Campaign) (g h : ℕ) → IsFair c d g → IsFair d e h → IsFair c e (g + h)
IsFair-trans c d e g h p q = record {
  same_term = q.same_term ∙ p.same_term;
  same_majority = q.same_majority ∙ p.same_majority;
  at_most = omega (arith, p.at_most, q.at_most);
  at_least = omega (arith, p.at_least, q.at_least);
  decided = elim q.decided [
    | inr many ↦ let m = p.same_majority in inr (omega arith)
    | inl same ↦ elim p.decided [
      | inl before ↦ inl (same ∙ before)
      | inr many ↦ let more = q.at_least in inr (omega arith)
    ]
  ];
}

hear_replies-IsFair :
    (replies : List PeerReply) (r : RaftNode) (c : Campaign)
    → IsFair c (hear_replies replies (r, c)).1 (grants c.term replies)
unfolding hear_replies hear_reply grants
hear_replies-IsFair [] r c = record {
  same_term = refl;
  same_majority = refl;
  at_most = omega arith;
  at_least = omega arith;
  decided = inl refl;
}
hear_replies-IsFair (reply ∷ replies) r c =
    let sent = send_request_vote reply.window reply.now c.term reply.response r in
    let next = count_vote reply c sent in
    let one =
      count_vote-IsFair reply c sent (grant c.term reply.response)
        (grant_of_sent reply.window reply.now c.term reply.response r) in
    let end = (hear_replies replies next).1 in
    let rest =
      subst (λ t. IsFair next.1 end (grants t replies)) one.same_term
        (hear_replies-IsFair replies next.0 next.1) in
    IsFair-trans c next.1 end (grant c.term reply.response) (grants c.term replies) one rest

-- A campaign as it starts.
record Starts (r : RaftNode) (c : Campaign) : Type 0 where
  alone : c.done ≡ leb (majority r.peers) 1
  own_vote : c.votes ≡ 1
  whole : c.majority ≡ majority r.peers
  in_term : c.term ≡ r.current_term

open_campaign-Starts :
    (term : ℕ) (r : RaftNode) (c : Campaign)
    → (open_campaign term r).1 ≡ some c
    → Starts (open_campaign term r).0 c
unfolding open_campaign
open_campaign-Starts term r c h = record {
  alone = ground arith;
  own_vote = ground arith;
  whole = ground arith;
  in_term = ground arith;
}

begin_campaign-Starts :
    (w : Window) (now : ℕ) (r : RaftNode) (c : Campaign)
    → (begin_campaign w now r).1 ≡ some c
    → Starts (begin_campaign w now r).0 c
unfolding begin_campaign become_candidate
begin_campaign-Starts w now r c =
    let P = λ (x : RaftNode × Option Campaign). x.1 ≡ some c → Starts x.0 c in
    if_both P (r.fatal || is_leader r.state) _ _ (λ _ h. cc)
      λ _.
        open_campaign-Starts (become_candidate now r).current_term
          (release w (become_candidate now r)) c

-- An election that is decided has a majority: the candidate becomes the leader only after so many
-- peers have granted their vote in the election's own term that with its own vote they are a
-- majority of the cluster as it was when the campaign began, for which its own vote is enough in a
-- cluster of one. This holds for every order of the
-- answers and whatever other goroutines do in between.
pub done-majority :
    (w : Window) (now : ℕ) (r s : RaftNode) (c : Campaign) (replies : List PeerReply)
    → (begin_campaign w now r).1 ≡ some c
    → (hear_replies replies (s, c)).1.done ≡ true
    → majority (begin_campaign w now r).0.peers ≤ 1 + grants c.term replies
done-majority w now r s c replies begun won =
    let starts = begin_campaign-Starts w now r c begun in
    let fair = hear_replies-IsFair replies s c in
    let most = fair.at_most in
    let own = starts.own_vote in
    let whole = starts.whole in
    let alone = starts.alone in
    elim fair.decided [ inl same ↦ ground arith | inr many ↦ omega arith ]

-- A node that starts a campaign moves to the next term with a vote for itself and, where nothing
-- interferes and the save succeeds, has both in its file if it is durable.
pub begin_campaign_lem :
    (now t : ℕ) (r : RaftNode) (c : Campaign)
    → (begin_campaign (quiet true t) now r).1 ≡ some c
    → (c.term ≡ add64 r.current_term 1)
      × ((begin_campaign (quiet true t) now r).0.current_term ≡ c.term)
      × ((begin_campaign (quiet true t) now r).0.voted_for ≡ r.config.node_id)
      × ((begin_campaign (quiet true t) now r).0.persistent_state.file ≡ (
          if r.persistent_state.durable
          then some (c.term, r.config.node_id)
          else r.persistent_state.file))
unfolding begin_campaign
begin_campaign_lem now t r c h = (ground arith, ground arith, ground arith, ground arith)
