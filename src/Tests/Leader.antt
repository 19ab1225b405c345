-- ===== src/Tests/Leader.antt =====
-- A leader's commits and its start, internal/raft, at concrete inputs.
use kver.Prelude.{
  suc, ◌≤◌, ◌≡◌, refl, arith, codes, bytes_eq, true, false, ◌&&◌, not, Option, none, some, List, [],
  ◌∷◌, subst,
}
use kver.Prelude.Dict
use kver.Raft.Types.{LogEntry, ok, RequestVoteResponse}
use kver.Raft.Log.{written, last_index, last_term, get_entry, append, validate_entry_sequence}
use kver.Raft.Node.{step_down, pre_candidate, RaftNode, leader, quiet}
use kver.Raft.Commit.{
  majority, replicas, match_of, advance_commit_index, init_leader_state, reset_peers,
}
use kver.Raft.Commit.Quorum.{count_if, Member, holds_entry}
use kver.Raft.Commit.Leader.{
  Commits, HasCurrent, advance_commit_index-Commits, advance_commit_index-Member,
}
use kver.Raft.Election.{
  Campaign, PeerReply, become_candidate, begin_campaign, hear_reply, hear_replies,
  send_request_vote, take_office,
}
use kver.Raft.Election.Tally.{grants}
use kver.Raft.PreVote.{Poll, PollReply, begin_poll, hear_poll_replies}
use kver.Raft.PreVote.Tally.{pre_grants, begin_poll-majority}
use kver.Tests.Raft.{entry, node}

-- The second of three nodes has the third entry.
abbrev leading : RaftNode
leading = record node { state = leader; match_index = (codes "n2", 3) ∷ (codes "n3", 1) ∷ [] }

program : Unit {0}
unfolding Dict.get Dict.has Dict.put bytes_eq majority replicas match_of count_if holds_entry
    advance_commit_index init_leader_state last_index get_entry append validate_entry_sequence
    reset_peers
program = tt

commit_runs :
    ((advance_commit_index leading).commit_index ≡ 3)
    × ((init_leader_state written leading).0.commit_index ≡ 1)
    × ((advance_commit_index (record leading { current_term = 3 })).commit_index ≡ 1)
unfolding program
commit_runs = (refl, refl, refl)

advance_commit_index-Commits_example : Commits leading (advance_commit_index leading)
advance_commit_index-Commits_example = advance_commit_index-Commits leading

leading-HasCurrent : HasCurrent leading 3 (last_index leading.log)
unfolding program
leading-HasCurrent j a b =
    let top : 3 ≡ j = omega arith in
    subst (λ i. (e : LogEntry) × (get_entry leading.log i ≡ ok e) × (e.term ≡ 2)) top
      (entry 3 2, refl, refl)

advance_commit_index-Member_example :
    Member
      (λ peer.
        holds_entry
          (codes "n1")
          leading.match_index
          (advance_commit_index leading).commit_index
          peer
        && not (bytes_eq peer (codes "n1")))
      node.peers
unfolding program
advance_commit_index-Member_example =
    advance_commit_index-Member leading (λ peer. not (bytes_eq peer (codes "n1"))) refl
      (omega arith) (omega arith)

-- The node asks the other two; one grants its vote and one does not answer.
abbrev campaign : Campaign
campaign = record {
  term = 3;
  last_log_index = 3;
  last_log_term = 2;
  majority = 2;
  votes = 1;
  done = false;
}

abbrev reply : Option RequestVoteResponse → PeerReply
reply response = record {
  response = response;
  window = quiet true 9;
  now = 9;
  meanwhile = λ r. r;
  io = written;
}

abbrev two_replies : List PeerReply
two_replies = reply none ∷ reply (some (record { term = 3; vote_granted = true })) ∷ []

election : Unit {0}
unfolding program begin_campaign become_candidate hear_replies hear_reply send_request_vote
    take_office last_term grants
election = tt

abbrev asking : RaftNode
asking = become_candidate 9 node

election_runs :
    ((begin_campaign (quiet true 9) 9 node).1 ≡ some campaign)
    × ((hear_replies two_replies (asking, campaign)).0.state ≡ leader)
    × ((hear_replies two_replies (asking, campaign)).0.current_term ≡ 3)
unfolding election
election_runs = (refl, refl, refl)

-- Both peers grant the pre-vote.
abbrev grant : PollReply
grant = record {
  response = some (record { term = 2; vote_granted = true });
  window = quiet true 9;
  now = 9;
  meanwhile = λ r. r;
}

abbrev poll : Poll
poll = record {
  request = record {
    term = 3;
    candidate_id = codes "n1";
    last_log_index = 3;
    last_log_term = 2;
    pre_vote = true;
  };
  majority = 2;
  votes = 1;
  done = false;
  elects = false;
}

poll_program : Unit {0}
unfolding program begin_poll hear_poll_replies last_term step_down
poll_program = tt

poll_begun :
    begin_poll 9 node ≡ (record node { state = pre_candidate; last_heartbeat = 9 }, some poll)
unfolding poll_program
poll_begun = refl

poll_elects :
    (hear_poll_replies
      (grant ∷ [])
      (record node { state = pre_candidate; last_heartbeat = 9 }, poll)).1.elects
    ≡ true
unfolding poll_program
poll_elects = refl

begin_poll-majority_example :
    (majority node.peers ≤ suc (pre_grants (grant ∷ [])))
    × (node.current_term ≡ node.current_term)
    × (node.voted_for ≡ node.voted_for)
begin_poll-majority_example =
    begin_poll-majority 9 (grant ∷ []) node
      (record node { state = pre_candidate; last_heartbeat = 9 }) poll poll_begun poll_elects
