-- ===== src/Raft/PreVote.antt =====
-- `startPreVote` of internal/raft/election.go. Each peer is asked in a goroutine of its own; the
-- functions below are the stretches in which such a goroutine holds a lock, so that a list of
-- answers is an order in which they run.
pub mod Tally
use kver.Prelude.{
  ℕ, suc, ◌-◌, Bool, true, false, not, ◌&&◌, ◌||◌, Option, none, some, List, [], ◌∷◌, ltb, leb,
  ◌==◌, if◌then◌else◌, add64, u64_mod,
}
use kver.Raft.Types.{RequestVoteRequest, RequestVoteResponse}
use kver.Raft.Log.{last_index, last_term}
use kver.Raft.Node.{RaftNode, NodeState, Window, pre_candidate, is_leader, step_down}
use kver.Raft.Commit.{majority}

unfoldable pub is_pre_candidate : NodeState → Bool
is_pre_candidate pre_candidate = true
is_pre_candidate _ = false

-- The variables that the goroutines of one poll share, and the request that they send.
pub record Poll : Type 0 where
  pub request : RequestVoteRequest
  pub majority : ℕ
  pub votes : ℕ
  pub done : Bool  -- once.Do has run
  pub elects : Bool  -- startElection has been called

-- startPreVote, up to the requests
unfoldable pub begin_poll : ℕ → RaftNode → RaftNode × Option Poll
unfolding is_leader majority last_index last_term
begin_poll now r =
    let poll : Poll = record {
      request = record {
        term = add64 r.current_term 1;
        candidate_id = r.config.node_id;
        last_log_index = last_index r.log;
        last_log_term = last_term r.log;
        pre_vote = true;
      };
      majority = majority r.peers;
      votes = 1;
      done = false;
      elects = leb (majority r.peers) 1;
    } in
    if r.fatal || is_leader r.state
    then (r, none)
    else (record r { state = pre_candidate; last_heartbeat = now }, some poll)

-- nextTerm-1, on uint64
unfoldable pub polled_term : Poll → ℕ
polled_term p = add64 p.request.term (u64_mod - 1)

-- A peer's answer (`none` where the request failed), the window of a `stepDown`, and what other
-- goroutines do between the count of the vote and the check before the election.
pub record PollReply : Type 0 where
  pub response : Option RequestVoteResponse
  pub window : Window
  pub now : ℕ
  pub meanwhile : RaftNode → RaftNode

count_pre_vote : PollReply → RaftNode × Poll → RaftNode × Poll
unfolding is_pre_candidate polled_term
count_pre_vote reply (r, p) =
    let counted = record p { votes = suc p.votes } in
    let r' = reply.meanwhile r in
    if leb p.majority (suc p.votes) && not p.done
    then (
      r',
      record counted {
        done = true;
        elects = p.elects || (is_pre_candidate r'.state && (r'.current_term == polled_term p));
      },
    )
    else (r', counted)

hear_response : PollReply → Option RequestVoteResponse → RaftNode × Poll → RaftNode × Poll
unfolding count_pre_vote step_down polled_term
hear_response reply none (r, p) = (r, p)
hear_response reply (some resp) (r, p) =
    if ltb (polled_term p) resp.term
    then (step_down reply.window reply.now resp.term r, p)
    else if resp.vote_granted
    then count_pre_vote reply (r, p)
    else (r, p)

unfoldable pub hear_poll_replies : List PollReply → RaftNode × Poll → RaftNode × Poll
unfolding hear_response
hear_poll_replies [] x = x
hear_poll_replies (reply ∷ replies) x =
    hear_poll_replies replies (hear_response reply reply.response x)
