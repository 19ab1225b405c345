-- ===== src/Tests/Cluster.antt =====
-- An election in a cluster of three, internal/raft/election.go: the first node is elected with the
-- vote of the second, while the third does not answer.
use kver.Prelude.{
  zero, suc, if_both, ◌≡◌, ◌≢◌, refl, sym, subst, arith, codes, Bytes, bytes_eq, bytes_eq_iff,
  Bool-cases, true, false, Option, none, some, [], ◌∷◌, if◌then◌else◌, inl, inr,
}
use kver.Prelude.Dict
use kver.Prelude.Dict.{Dict}
use kver.Raft.Types.{RequestVoteRequest, RequestVoteResponse}
use kver.Raft.Log.{written, last_index, last_term, append, validate_entry_sequence, get_entry}
use kver.Raft.Node.{RaftNode, leader, quiet, step_down}
use kver.Raft.Node.Advances.{Advances-refl}
use kver.Raft.Commit.{majority, init_leader_state}
use kver.Raft.Vote.{handle_request_vote, up_to_date, leader_alive}
use kver.Raft.Election.{
  Campaign, PeerReply, become_candidate, begin_campaign, hear_reply, hear_replies,
  send_request_vote, take_office, start_election,
}
use kver.Raft.Cluster.Histories.{History, IsHistory}
use kver.Raft.Cluster.Votes.{asked}
use kver.Raft.Cluster.Elections.{Reply, Elects, one_leader_per_term, one_leader_across_change}
use kver.Raft.Membership.{MembershipChange, remove_server, changed_peers}
use kver.Tests.Raft.{node, quiet-IsSteady}
use mathlib.Core.List.{Permᴰ}

abbrev request : RequestVoteRequest
request = record {
  term = 3;
  candidate_id = codes "n1";
  last_log_index = 3;
  last_log_term = 2;
  pre_vote = false;
}

abbrev voter : RaftNode
voter = record node { config = record node.config { node_id = codes "n2" } }

-- The voter and its answer.
abbrev voted : RaftNode × RequestVoteResponse
voted = handle_request_vote (quiet true 9) (quiet true 9) 9 (some request) voter

abbrev asking : RaftNode
asking = (begin_campaign (quiet true 9) 9 node).0

-- The first node once the third one has been removed.
abbrev pair : Dict Bytes
pair = (codes "n1", []) ∷ (codes "n2", []) ∷ []

abbrev asking_pair : RaftNode
asking_pair = (begin_campaign (quiet true 9) 9 (record node { peers = pair })).0

abbrev first : History
first zero = asking
first (suc time) = asking_pair

abbrev nodes : Bytes → History
nodes peer =
    if bytes_eq peer (codes "n1")
    then first
    else if bytes_eq peer (codes "n2")
    then (λ time. voted.0)
    else λ time. node

abbrev campaign : Campaign
campaign = record {
  term = 3;
  last_log_index = 3;
  last_log_term = 2;
  majority = 2;
  votes = 1;
  done = false;
}

abbrev reply : Option RequestVoteResponse → PeerReply
reply response = record {
  response = response;
  window = quiet true 9;
  now = 9;
  meanwhile = λ r. r;
  io = written;
}

abbrev answers : Bytes → PeerReply
answers peer = if bytes_eq peer (codes "n2") then reply (some voted.1) else reply none

program : Unit {0}
unfolding Dict.get Dict.has Dict.put bytes_eq majority init_leader_state last_index last_term
    begin_campaign become_candidate hear_replies hear_reply send_request_vote take_office
    start_election handle_request_vote up_to_date leader_alive step_down asked changed_peers
    Dict.remove
program = tt

voted-Reply : Reply (nodes (codes "n2")) 3 (codes "n1") voted.1
unfolding program
voted-Reply = record {
  req = request;
  real = refl;
  of_term = refl;
  of_candidate = refl;
  down = quiet true 9;
  vote = quiet true 9;
  steady_down = quiet-IsSteady true 9;
  steady_vote = quiet-IsSteady true 9;
  now = 9;
  before = voter;
  time = 0;
  answers = refl;
  leaves = refl;
}

answers-Reply :
    (peer : Bytes) (response : RequestVoteResponse)
    → (answers peer).response ≡ some response
    → Reply (nodes peer) 3 (codes "n1") response
answers-Reply peer response h = elim (Bool-cases (bytes_eq peer (codes "n2"))) [
  | inl second ↦
      let same : voted.1 ≡ response = ground arith in
      subst (λ p. Reply (nodes p) 3 (codes "n1") response)
        (sym ((bytes_eq_iff peer (codes "n2")).0 second))
        (subst (Reply (nodes (codes "n2")) 3 (codes "n1")) same voted-Reply)
  | inr other ↦ absurd (ground arith)
]

elected : Elects nodes node.peers 3 (codes "n1")
unfolding program
elected = record {
  window = quiet true 9;
  steady = quiet-IsSteady true 9;
  now = 9;
  before = node;
  is_self = refl;
  campaign = campaign;
  begun = refl;
  of_term = refl;
  in_cluster = refl;
  time = 0;
  leaves = refl;
  answers = answers;
  replied = answers-Reply;
  replies = reply none ∷ reply (some voted.1) ∷ [];
  each_once = Permᴰ.swap refl refl;
  node = asking;
  won = refl;
}

elected_by_pair : Elects nodes pair 3 (codes "n1")
unfolding program
elected_by_pair = record {
  window = quiet true 9;
  steady = quiet-IsSteady true 9;
  now = 9;
  before = record node { peers = pair };
  is_self = refl;
  campaign = campaign;
  begun = refl;
  of_term = refl;
  in_cluster = refl;
  time = 1;
  leaves = refl;
  answers = answers;
  replied = answers-Reply;
  replies = reply (some voted.1) ∷ [];
  each_once = Permᴰ.cons refl Permᴰ.nil;
  node = asking_pair;
  won = refl;
}

-- The only member of a cluster leads as soon as it stands, without an answer.
abbrev single : RaftNode
single = record node { peers = (codes "n1", []) ∷ [] }

single_leads : (start_election (quiet true 9) (λ r. r) written 9 single).0.state ≡ leader
unfolding program append validate_entry_sequence get_entry
single_leads = refl

abbrev alone : Bytes → History
alone peer = λ time. (begin_campaign (quiet true 9) 9 single).0

elected_alone : Elects alone single.peers 3 (codes "n1")
unfolding program
elected_alone = record {
  window = quiet true 9;
  steady = quiet-IsSteady true 9;
  now = 9;
  before = single;
  is_self = refl;
  campaign = record campaign { majority = 1; done = true };
  begun = refl;
  of_term = refl;
  in_cluster = refl;
  time = 0;
  leaves = refl;
  answers = λ peer. reply none;
  replied = λ peer response h. absurd (ground arith);
  replies = [];
  each_once = Permᴰ.nil;
  node = (begin_campaign (quiet true 9) 9 single).0;
  won = refl;
}

first-IsHistory : IsHistory first
unfolding program
first-IsHistory zero = record { term_mono = omega arith; vote_kept = λ _ _. refl }
first-IsHistory (suc i) = Advances-refl asking_pair

nodes-IsHistory : (peer : Bytes) → IsHistory (nodes peer)
nodes-IsHistory peer =
    if_both IsHistory (bytes_eq peer (codes "n1")) _ _ (λ _. first-IsHistory)
      λ _.
        if_both IsHistory (bytes_eq peer (codes "n2")) _ _ (λ _ i. Advances-refl voted.0)
          λ _ i. Advances-refl node

n1-named : codes "n1" ≢ []
n1-named h = cc

one_leader_per_term_example : codes "n1" ≡ codes "n1"
unfolding program
one_leader_per_term_example =
    one_leader_per_term nodes node.peers 3 (codes "n1") (codes "n1") nodes-IsHistory n1-named
      n1-named refl refl elected elected

abbrev removal : MembershipChange
removal = record { type = remove_server; node_id = codes "n3"; address = [] }

one_leader_across_change_example : codes "n1" ≡ codes "n1"
unfolding program
one_leader_across_change_example =
    one_leader_across_change nodes removal node.peers 3 (codes "n1") (codes "n1") nodes-IsHistory
      (refl, (refl, (refl, tt))) n1-named n1-named refl refl elected elected_by_pair
