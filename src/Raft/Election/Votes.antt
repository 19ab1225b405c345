-- ===== src/Raft/Election/Votes.antt =====
-- The candidate's own vote (`startElection`, internal/raft/election.go).
use kver.Prelude.{
  ℕ, suc, ◌<◌, ◌≡◌, ◌≢◌, sym, ap, subst, [], arith, Option, some, if_both, ◌||◌, ◌∙◌, u64_mod,
}
use kver.Raft.Node.{RaftNode, Window, release, is_leader}
use kver.Raft.Node.Advances.{Advances, Advances-refl, Advances-trans, IsSteady, release-Advances}
use kver.Raft.Election.{Campaign, become_candidate, open_campaign, begin_campaign}

become_candidate-Advances :
    (now : ℕ) (r : RaftNode) → suc r.current_term < u64_mod → Advances r (become_candidate now r)
unfolding become_candidate
become_candidate-Advances now r fits = record {
  term_mono = omega arith;
  vote_kept = λ same. absurd (omega arith);
}

open_campaign-same : (term : ℕ) (r : RaftNode) → (open_campaign term r).0 ≡ r
unfolding open_campaign
open_campaign-same term r = ground arith

open_campaign-term :
    (term : ℕ) (r : RaftNode) (c : Campaign)
    → (open_campaign term r).1 ≡ some c
    → (c.term ≡ term) × (r.current_term ≡ term)
unfolding open_campaign
open_campaign-term term r c h = (ground arith, ground arith)

open_campaign-vote :
    (w : Window) (r : RaftNode) (c : Campaign)
    → IsSteady w
    → r.voted_for ≢ []
    → (open_campaign r.current_term (release w r)).1 ≡ some c
    → ((open_campaign r.current_term (release w r)).0.current_term ≡ c.term)
      × ((open_campaign r.current_term (release w r)).0.voted_for ≡ r.voted_for)
open_campaign-vote w r c st named h =
    let a = release-Advances w r st in
    let (same, kept) = open_campaign-term r.current_term (release w r) c h in
    let whole = open_campaign-same r.current_term (release w r) in
    (
      ap (λ s. s.current_term) whole ∙ kept ∙ sym same,
      ap (λ s. s.voted_for) whole ∙ a.vote_kept kept named,
    )

-- A campaign is in the node's term, and has the vote of the node that starts it.
pub begin_campaign-vote :
    (w : Window) (now : ℕ) (r : RaftNode) (c : Campaign)
    → IsSteady w
    → r.config.node_id ≢ []
    → (begin_campaign w now r).1 ≡ some c
    → ((begin_campaign w now r).0.current_term ≡ c.term)
      × ((begin_campaign w now r).0.voted_for ≡ r.config.node_id)
unfolding begin_campaign become_candidate
begin_campaign-vote w now r c st named =
    let P = λ (x : RaftNode × Option Campaign).
      x.1 ≡ some c → (x.0.current_term ≡ c.term) × (x.0.voted_for ≡ r.config.node_id) in
    if_both P (r.fatal || is_leader r.state) _ _ (λ _ h. ground arith)
      λ _ h. open_campaign-vote w (become_candidate now r) c st named h

pub begin_campaign-Advances :
    (w : Window) (now : ℕ) (r : RaftNode)
    → IsSteady w
    → suc r.current_term < u64_mod
    → Advances r (begin_campaign w now r).0
unfolding begin_campaign
begin_campaign-Advances w now r st fits =
    let asking = become_candidate now r in
    if_both (λ (x : RaftNode × Option Campaign). Advances r x.0) (r.fatal || is_leader r.state) _ _
      (λ _. Advances-refl r)
      λ _. subst (Advances r) (sym (open_campaign-same asking.current_term (release w asking))) (
        Advances-trans r asking _ (become_candidate-Advances now r fits)
          (release-Advances w asking st))
