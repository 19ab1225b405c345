-- ===== src/Raft/Vote/Effects.antt =====
-- What a granted vote means and what it leaves on disk (internal/raft/election.go).
use kver.Prelude.{ℕ, ◌≤◌, ◌<◌, ◌≡◌, [], arith, true, false, bytes_eq_refl, some, ◌⊎◌, if◌then◌else◌}
use kver.Raft.Types.{RequestVoteRequest}
use kver.Raft.Log.{last_index, last_term}
use kver.Raft.Node.{RaftNode, Window, step_down, quiet}
use kver.Raft.Vote.{handle_request_vote, up_to_date}

-- The candidate's log is at least as new as the voter's: a later last term, or the same and a
-- last index that is not smaller.
abbrev pub AtLeastAsNew : RequestVoteRequest → RaftNode → Type 0
AtLeastAsNew req r =
    (last_term r.log < req.last_log_term)
    ⊎ ((req.last_log_term ≡ last_term r.log) × (last_index r.log ≤ req.last_log_index))

-- With the lock held throughout and the save successful, a granted vote is for a candidate whose
-- log is at least as new; the node is then in the request's term, with its vote for the candidate,
-- and a durable node has both in its file; the file of another is as it was.
granted_vote_effect :
    (now t u : ℕ) (req : RequestVoteRequest) (r : RaftNode)
    → req.pre_vote ≡ false
    → (handle_request_vote (quiet true t) (quiet true u) now (some req) r).1.vote_granted ≡ true
    → AtLeastAsNew req r
      × ((handle_request_vote (quiet true t) (quiet true u) now (some req) r).0.current_term
          ≡ req.term)
      × ((handle_request_vote (quiet true t) (quiet true u) now (some req) r).0.voted_for
          ≡ req.candidate_id)
      × ((handle_request_vote
            (quiet true t)
            (quiet true u)
            now
            (some req)
            r).0.persistent_state.file
          ≡ (if r.persistent_state.durable
              then some (req.term, req.candidate_id)
              else r.persistent_state.file))
unfolding handle_request_vote up_to_date
granted_vote_effect now t u req r p h = (ground arith, ground arith, ground arith, ground arith)

-- The error of a save is dropped: where the saves fail, the answer is the one that it would be
-- otherwise, and the file of the node keeps what it held.
pub answer_ignores_failed_save :
    (now t u : ℕ) (req : RequestVoteRequest) (r : RaftNode)
    → ((handle_request_vote (quiet false t) (quiet false u) now (some req) r).1
        ≡ (handle_request_vote (quiet true t) (quiet true u) now (some req) r).1)
      × ((handle_request_vote
            (quiet false t)
            (quiet false u)
            now
            (some req)
            r).0.persistent_state.file
          ≡ r.persistent_state.file)
unfolding handle_request_vote
answer_ignores_failed_save now t u req r = (ground arith, ground arith)

-- Another goroutine handles a vote request before the save of this one.
abbrev pub vote_meanwhile : ℕ → RequestVoteRequest → Window
vote_meanwhile now req = record {
  before = λ x. (handle_request_vote (quiet true now) (quiet true now) now (some req) x).0;
  saved = true;
  after = λ x. x;
  now = now;
}

-- While `stepDown` has released the lock to save a new term, another goroutine can grant and save
-- a vote of that term. The save of `stepDown`, which follows, writes the term without the vote:
-- the node has voted, and its file says that it has not.
pub vote_overwritten :
    (now : ℕ) (req : RequestVoteRequest) (r : RaftNode)
    → req.pre_vote ≡ false
    → r.current_term < req.term
    → r.fatal ≡ false
    → r.persistent_state.durable ≡ true
    → up_to_date req r ≡ true
    → ((step_down (vote_meanwhile now req) now req.term r).current_term ≡ req.term)
      × ((step_down (vote_meanwhile now req) now req.term r).voted_for ≡ req.candidate_id)
      × ((step_down (vote_meanwhile now req) now req.term r).persistent_state.file
          ≡ some (req.term, []))
unfolding handle_request_vote step_down up_to_date
vote_overwritten now req r p lt nf d up =
    (ground arith, ground (arith, bytes_eq_refl []), ground (arith, bytes_eq_refl []))
