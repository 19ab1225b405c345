-- ===== src/Raft/Vote.antt =====
-- `handleRequestVote` of internal/raft/election.go.
pub mod Safety
pub mod Counted
pub mod Effects
use kver.Prelude.{
  ℕ, ◌+◌, Bytes, bytes_eq, Bool, true, false, not, ◌&&◌, ◌||◌, Option, none, some, [], ltb, leb,
  ◌==◌, if◌then◌else◌,
}
use kver.Raft.Types.{RequestVoteRequest, RequestVoteResponse}
use kver.Raft.Log.{last_index, last_term}
use kver.Raft.Node.{RaftNode, Window, is_leader, is_follower, release, step_down}

-- The leader has been heard within the minimum election timeout, or is this node.
unfoldable pub leader_alive : ℕ → RaftNode → Bool
unfolding is_leader is_follower
leader_alive now r =
    is_leader r.state
    || (is_follower r.state
        && not (bytes_eq r.leader_id [])
        && ltb now (r.last_heartbeat + r.config.election_timeout_min))

unfoldable pub up_to_date : RequestVoteRequest → RaftNode → Bool
up_to_date req r =
    let my_index = last_index r.log in
    let my_term = last_term r.log in
    ltb my_term req.last_log_term
    || ((req.last_log_term == my_term) && leb my_index req.last_log_index)

unfoldable pub can_vote : RequestVoteRequest → RaftNode → Bool
can_vote req r = bytes_eq r.voted_for [] || bytes_eq r.voted_for req.candidate_id

answer : Bool → RaftNode → RaftNode × RequestVoteResponse
answer granted r = (r, record { term = r.current_term; vote_granted = granted })

-- The part behind the protection of a living leader.
unfoldable pub consider_vote :
    Window → ℕ → RequestVoteRequest → RaftNode → RaftNode × RequestVoteResponse
unfolding answer up_to_date can_vote release
consider_vote w now req r =
    if req.pre_vote
    then answer (up_to_date req r) r
    else if can_vote req r && up_to_date req r
    then answer true (release w (record r { voted_for = req.candidate_id; last_heartbeat = now }))
    else answer false r

-- `down` is the window of `stepDown`, `vote` that of the save of the vote.
unfoldable pub handle_request_vote :
    Window → Window → ℕ → Option RequestVoteRequest → RaftNode → RaftNode × RequestVoteResponse
unfolding answer leader_alive step_down consider_vote
handle_request_vote down vote now none r = answer false r
handle_request_vote down vote now (some req) r =
    if r.fatal
    then answer false r
    else if ltb req.term r.current_term
    then answer false r
    else if leader_alive now r
    then answer false r
    else if not req.pre_vote && ltb r.current_term req.term
    then consider_vote vote down.now req (step_down down now req.term r)
    else consider_vote vote now req r
