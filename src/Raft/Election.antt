-- ===== src/Raft/Election.antt =====
-- The candidate's side of an election: `startElection` and `sendRequestVote` of
-- internal/raft/election.go. Each peer is asked in a goroutine of its own; the functions below are
-- the stretches in which such a goroutine holds the lock, so that a list of replies is an order in
-- which they run.
pub mod Tally
pub mod Votes
use kver.Prelude.{
  ℕ, suc, Bytes, Bool, true, false, not, ◌&&◌, ◌||◌, Option, none, some, List, [], ◌∷◌, ltb, leb,
  ◌==◌, if◌then◌else◌, add64,
}
use kver.Raft.Types.{RequestVoteResponse, RaftError}
use kver.Raft.Log.{Written, last_index, last_term}
use kver.Raft.Node.{
  RaftNode, NodeState, Window, candidate, leader, is_leader, release, step_down, mark_fatal,
}
use kver.Raft.Commit.{majority, init_leader_state}

unfoldable pub is_candidate : NodeState → Bool
is_candidate candidate = true
is_candidate _ = false

-- The variables that the goroutines of one election share.
pub record Campaign : Type 0 where
  pub term : ℕ
  pub last_log_index : ℕ
  pub last_log_term : ℕ
  pub majority : ℕ
  pub votes : ℕ
  pub done : Bool  -- the node alone is a majority, or once.Do has run

open_campaign : ℕ → RaftNode → RaftNode × Option Campaign
unfolding is_candidate majority
open_campaign term r =
    if not (is_candidate r.state) || not (r.current_term == term) then (r, none) else (
      r,
      some (record {
        term = term;
        last_log_index = last_index r.log;
        last_log_term = last_term r.log;
        majority = majority r.peers;
        votes = 1;
        done = leb (majority r.peers) 1;
      }),
    )

-- The fields that `startElection` sets before it saves.
unfoldable pub become_candidate : ℕ → RaftNode → RaftNode
become_candidate now r = record r {
  state = candidate;
  current_term = add64 r.current_term 1;
  voted_for = r.config.node_id;
  last_heartbeat = now;
}

-- startElection, up to the release of the lock behind the count of the peers
unfoldable pub begin_campaign : Window → ℕ → RaftNode → RaftNode × Option Campaign
unfolding is_leader release open_campaign become_candidate
begin_campaign w now r =
    let asking = become_candidate now r in
    if r.fatal || is_leader r.state
    then (r, none)
    else open_campaign asking.current_term (release w asking)

enter_office : RaftNode × Option RaftError → RaftNode
unfolding mark_fatal
enter_office (r, none) = r
enter_office (r, some e) = mark_fatal r

-- What a candidate with enough votes does; the heartbeats start on their own.
unfoldable pub take_office : Written → ℕ → RaftNode → RaftNode
unfolding is_candidate init_leader_state enter_office
take_office io term r =
    if is_candidate r.state && (r.current_term == term)
    then enter_office (init_leader_state io (record r { state = leader }))
    else r

-- A node that is a majority by itself leads at once, and asks nobody. `meanwhile` is what other
-- goroutines do between the release of the lock and the step to leader.
decide_alone :
    (RaftNode → RaftNode) → Written → RaftNode × Option Campaign → RaftNode × Option Campaign
unfolding take_office
decide_alone meanwhile io (r, none) = (r, none)
decide_alone meanwhile io (r, some c) =
    if c.done then (take_office io c.term (meanwhile r), some c) else (r, some c)

-- startElection, up to the requests
unfoldable pub start_election :
    Window → (RaftNode → RaftNode) → Written → ℕ → RaftNode → RaftNode × Option Campaign
unfolding begin_campaign decide_alone
start_election w meanwhile io now r = decide_alone meanwhile io (begin_campaign w now r)

-- sendRequestVote, from the answer on; `none` is a request that failed.
unfoldable pub send_request_vote :
    Window → ℕ → ℕ → Option RequestVoteResponse → RaftNode → RaftNode × Bool
unfolding is_candidate step_down
send_request_vote w now term none r = (r, false)
send_request_vote w now term (some resp) r =
    if ltb r.current_term resp.term
    then (step_down w now resp.term r, false)
    else if not (r.current_term == term) || not (is_candidate r.state)
    then (r, false)
    else if ltb resp.term term
    then (r, false)
    else (r, resp.vote_granted)

-- A peer's answer, with the window of a `stepDown` and what other goroutines do between the count
-- of the vote and the step to leader.
pub record PeerReply : Type 0 where
  pub response : Option RequestVoteResponse
  pub window : Window
  pub now : ℕ
  pub meanwhile : RaftNode → RaftNode
  pub io : Written

count_vote : PeerReply → Campaign → RaftNode × Bool → RaftNode × Campaign
unfolding take_office
count_vote reply c (r, false) = (r, c)
count_vote reply c (r, true) =
    let counted = record c { votes = suc c.votes } in
    if leb c.majority (suc c.votes) && not c.done
    then (take_office reply.io c.term (reply.meanwhile r), record counted { done = true })
    else (reply.meanwhile r, counted)

unfoldable pub hear_reply : PeerReply → RaftNode × Campaign → RaftNode × Campaign
unfolding count_vote send_request_vote
hear_reply reply (r, c) =
    count_vote reply c (send_request_vote reply.window reply.now c.term reply.response r)

unfoldable pub hear_replies : List PeerReply → RaftNode × Campaign → RaftNode × Campaign
unfolding hear_reply
hear_replies [] x = x
hear_replies (reply ∷ replies) x = hear_replies replies (hear_reply reply x)
