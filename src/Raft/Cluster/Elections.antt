-- ===== src/Raft/Cluster/Elections.antt =====
-- The elections of a cluster: a campaign of `startElection`, the answers that `handleRequestVote`
-- gives on the other nodes, and the votes the candidate counts (internal/raft/election.go).
use kver.Prelude.{
  ◌&&◌, ℕ, ◌≤◌, ◌≡◌, ◌≢◌, refl, sym, ap, subst, ◌∙◌, arith, Bytes, bytes_eq, bytes_eq_iff, Bool,
  true, false, Option, none, some, List, [], inl, inr, Bool-cases,
}
use kver.Prelude.Dict
use kver.Prelude.Dict.{Dict}
use kver.Raft.Types.{RequestVoteRequest, RequestVoteResponse}
use kver.Raft.Node.{RaftNode, Window}
use kver.Raft.Node.Advances.{IsSteady}
use kver.Raft.Vote.{handle_request_vote}
use kver.Raft.Vote.Counted.{handle_request_vote-HasVoted}
use kver.Raft.Membership.{MembershipChange, changed_peers}
use kver.Raft.Membership.Overlap.{HasKeysOnce, changed_peers-majority}
use kver.Raft.Commit.{majority}
use kver.Raft.Commit.Quorum.{count_if, Member, both, majority-Member}
use kver.Raft.Election.{PeerReply, Campaign, begin_campaign, hear_replies}
use kver.Raft.Election.Tally.{grants, done-majority}
use kver.Raft.Election.Votes.{begin_campaign-vote}
use kver.Raft.Cluster.Histories.{History, IsHistory, VotesFor, VotesFor-unique}
use kver.Raft.Cluster.Votes.{asked, granting, backs, grants-Perm, grants-lt}
use mathlib.Core.List.{Permᴰ}

-- A peer's answer to a candidate: what `handleRequestVote` answers to its request at some time of
-- the peer's history.
pub record Reply (h : History) (term : ℕ) (candidate : Bytes) (response : RequestVoteResponse)
    : Type 0 where
  pub req : RequestVoteRequest
  pub real : req.pre_vote ≡ false
  pub of_term : req.term ≡ term
  pub of_candidate : req.candidate_id ≡ candidate
  pub down : Window
  pub vote : Window
  pub steady_down : IsSteady down
  pub steady_vote : IsSteady vote
  pub now : ℕ
  pub before : RaftNode
  pub time : ℕ
  pub answers : response ≡ (handle_request_vote down vote now (some req) before).1
  pub leaves : h time ≡ (handle_request_vote down vote now (some req) before).0

-- A candidate that is elected: its campaign, an answer or a failure for each other peer, the order
-- in which they arrive, and the count.
pub record Elects (nodes : Bytes → History) (peers : Dict Bytes) (term : ℕ) (self : Bytes)
    : Type 0 where
  pub window : Window
  pub steady : IsSteady window
  pub now : ℕ
  pub before : RaftNode
  pub is_self : before.config.node_id ≡ self
  pub campaign : Campaign
  pub begun : (begin_campaign window now before).1 ≡ some campaign
  pub of_term : campaign.term ≡ term
  pub in_cluster : (begin_campaign window now before).0.peers ≡ peers
  pub time : ℕ
  pub leaves : nodes self time ≡ (begin_campaign window now before).0
  pub answers : Bytes → PeerReply
  pub replied :
      (peer : Bytes) (response : RequestVoteResponse)
      → (answers peer).response ≡ some response
      → Reply (nodes peer) term self response
  pub replies : List PeerReply
  pub each_once : Permᴰ replies (asked self answers peers)
  pub node : RaftNode
  pub won : (hear_replies replies (node, campaign)).1.done ≡ true

Reply-VotesFor :
    (h : History) (term : ℕ) (a : Bytes) (response : RequestVoteResponse)
    → a ≢ []
    → Reply h term a response
    → response.vote_granted ≡ true
    → response.term ≡ term
    → VotesFor h term a
Reply-VotesFor h term a response named x granted same =
    let (in_term, voted) =
      handle_request_vote-HasVoted x.down x.vote x.now x.req x.before x.steady_down x.steady_vote
        x.real (λ none. named (sym x.of_candidate ∙ none))
        (ap (λ (y : RequestVoteResponse). y.vote_granted) (sym x.answers) ∙ granted)
        (ap (λ (y : RequestVoteResponse). y.term) (sym x.answers) ∙ same ∙ sym x.of_term) in
    record {
      time = x.time;
      in_term = ap (λ (r : RaftNode). r.current_term) x.leaves ∙ in_term ∙ x.of_term;
      vote = ap (λ (r : RaftNode). r.voted_for) x.leaves ∙ voted ∙ x.of_candidate;
    }

Elects-self :
    (nodes : Bytes → History) (peers : Dict Bytes) (term : ℕ) (a : Bytes)
    → a ≢ []
    → Elects nodes peers term a
    → VotesFor (nodes a) term a
Elects-self nodes peers term a named x =
    let (in_term, voted) =
      begin_campaign-vote x.window x.now x.before x.campaign x.steady
        (λ none. named (sym x.is_self ∙ none)) x.begun in
    record {
      time = x.time;
      in_term = ap (λ (r : RaftNode). r.current_term) x.leaves ∙ in_term ∙ x.of_term;
      vote = ap (λ (r : RaftNode). r.voted_for) x.leaves ∙ voted ∙ x.is_self;
    }

granting-some :
    (term : ℕ) (resp : Option RequestVoteResponse)
    → granting term resp ≡ true
    → (response : RequestVoteResponse) × (resp ≡ some response)
      × (response.vote_granted ≡ true)
      × (response.term ≡ term)
unfolding granting
granting-some term none h = cc
granting-some term (some resp) h = (resp, refl, ground arith, ground arith)

-- A peer that backs a candidate votes for it.
backs-VotesFor :
    (nodes : Bytes → History) (peers : Dict Bytes) (term : ℕ) (a peer : Bytes)
    → a ≢ []
    → (x : Elects nodes peers term a) → backs a term x.answers peer ≡ true
    → VotesFor (nodes peer) term a
unfolding backs
backs-VotesFor nodes peers term a peer named x h = elim (Bool-cases (bytes_eq peer a)) [
  | inl same ↦
      subst (λ p. VotesFor (nodes p) term a) (sym ((bytes_eq_iff peer a).0 same))
        (Elects-self nodes peers term a named x)
  | inr other ↦
      let (response, given, granted, same) =
        granting-some term (x.answers peer).response (ground arith) in
      Reply-VotesFor (nodes peer) term a response named (x.replied peer response given) granted same
]

-- A majority of the peers backs a candidate that is elected.
Elects-majority :
    (nodes : Bytes → History) (peers : Dict Bytes) (term : ℕ) (a : Bytes)
    → (x : Elects nodes peers term a) → Dict.has peers a ≡ true
    → majority peers ≤ count_if (backs a term x.answers) peers
Elects-majority nodes peers term a x member =
    let won = done-majority x.window x.now x.before x.node x.campaign x.replies x.begun x.won in
    let whole = ap majority x.in_cluster in
    let same = ap (λ t. grants t x.replies) x.of_term in
    let moved = grants-Perm term x.replies (asked a x.answers peers) x.each_once in
    let fewer = grants-lt a term x.answers peers member in omega arith

Member-peer :
    (test : Bytes → Bool) (peers : Dict Bytes)
    → Member test peers
    → (peer : Bytes) × (test peer ≡ true)
Member-peer test _ (Member.here {peer = peer} h) = (peer, h)
Member-peer test _ (Member.there {peers = peers} m) = Member-peer test peers m

-- A node that backs two candidates of one term.
shared_voter :
    (nodes : Bytes → History) (old new : Dict Bytes) (term : ℕ) (a b : Bytes)
    (x : Elects nodes old term a) (y : Elects nodes new term b) (peers : Dict Bytes)
    → ((peer : Bytes) → IsHistory (nodes peer))
    → a ≢ []
    → b ≢ []
    → Member (λ peer. backs a term x.answers peer && backs b term y.answers peer) peers
    → a ≡ b
shared_voter nodes old new term a b x y peers advance named_a named_b m =
    let (peer, shared) = Member-peer _ peers m in
    VotesFor-unique (nodes peer) term a b (advance peer) named_a named_b
      (backs-VotesFor nodes old term a peer named_a x (ground arith))
      (backs-VotesFor nodes new term b peer named_b y (ground arith))

-- In one term a cluster elects at most one leader. Two candidates with a name, both peers of the
-- cluster, that are elected in the same term are the same node: whatever the order of the answers,
-- which of them fail, and whatever other goroutines do in between, as long as every node only
-- advances from one state of its history to the next, and the saves do not lose a vote. The
-- cluster has the same peers in both elections.
pub one_leader_per_term :
    (nodes : Bytes → History) (peers : Dict Bytes) (term : ℕ) (a b : Bytes)
    → ((peer : Bytes) → IsHistory (nodes peer))
    → a ≢ []
    → b ≢ []
    → Dict.has peers a ≡ true
    → Dict.has peers b ≡ true
    → Elects nodes peers term a
    → Elects nodes peers term b
    → a ≡ b
one_leader_per_term nodes peers term a b advance named_a named_b in_a in_b x y =
    shared_voter nodes peers peers term a b x y peers advance named_a named_b (
      majority-Member (backs a term x.answers) (backs b term y.answers) peers
        (Elects-majority nodes peers term a x in_a) (Elects-majority nodes peers term b y in_b))

-- A change of the members does not let a second leader in. Of two candidates that are elected in
-- the same term, one by the members before the addition or removal of a server and one by the
-- members after it, both are the same node, under the conditions of an election with one set of
-- members.
pub one_leader_across_change :
    (nodes : Bytes → History) (change : MembershipChange) (peers : Dict Bytes) (term : ℕ)
    (a b : Bytes)
    → ((peer : Bytes) → IsHistory (nodes peer))
    → HasKeysOnce peers
    → a ≢ []
    → b ≢ []
    → Dict.has peers a ≡ true
    → Dict.has (changed_peers change peers) b ≡ true
    → Elects nodes peers term a
    → Elects nodes (changed_peers change peers) term b
    → a ≡ b
unfolding both
one_leader_across_change nodes change peers term a b advance once named_a named_b in_a in_b x y =
    let new = changed_peers change peers in
    elim (changed_peers-majority (backs a term x.answers) (backs b term y.answers) change peers once
      (Elects-majority nodes peers term a x in_a) (Elects-majority nodes new term b y in_b)) [
        | inl before ↦
            shared_voter nodes peers new term a b x y peers advance named_a named_b before
        | inr after ↦ shared_voter nodes peers new term a b x y new advance named_a named_b after
      ]
