-- ===== src/Raft/Node/Advances.antt =====
-- What no goroutine of a node undoes: the term never falls, and a vote stands until its term ends.
-- The lock is released inside `stepDown` and after a vote; what other goroutines do meanwhile is
-- assumed to advance the node in this sense, and every handler is shown to do so as well.
use kver.Prelude.{ℕ, ◌≤◌, ◌≡◌, ◌≢◌, refl, [], arith, ◌∙◌}
use kver.Raft.Types.{RaftError}
use kver.Raft.Node.{RaftNode, Window, release, become_follower, step_down, mark_storage_failure}

pub record Advances (r s : RaftNode) : Type 0 where
  pub term_mono : r.current_term ≤ s.current_term
  pub vote_kept : s.current_term ≡ r.current_term → r.voted_for ≢ [] → s.voted_for ≡ r.voted_for

pub Advances-refl : (r : RaftNode) → Advances r r
Advances-refl r = record { term_mono = omega arith; vote_kept = λ _ _. refl }

pub Advances-trans : (r s t : RaftNode) → Advances r s → Advances s t → Advances r t
Advances-trans r s t a b = record {
  term_mono = omega (arith, a.term_mono, b.term_mono);
  vote_kept = λ e v.
      let same : s.current_term ≡ r.current_term = omega (arith, a.term_mono, b.term_mono) in
      let kept = a.vote_kept same v in b.vote_kept (omega arith) (λ z. v (ground arith)) ∙ kept;
}

-- What other goroutines do while the lock is released.
pub record IsSteady (w : Window) : Type 0 where
  pub before : (r : RaftNode) → Advances r (w.before r)
  pub after : (r : RaftNode) → Advances r (w.after r)

pub release-Advances : (w : Window) (r : RaftNode) → IsSteady w → Advances r (release w r)
unfolding release
release-Advances w r st =
    Advances-trans r (w.before r) _ (st.before r)
      (record { term_mono = (st.after _).term_mono; vote_kept = (st.after _).vote_kept })

become_follower-Advances : (now term : ℕ) (r : RaftNode) → Advances r (become_follower now term r)
unfolding become_follower
become_follower-Advances now term r = ground arith

pub step_down-Advances :
    (w : Window) (now term : ℕ) (r : RaftNode) → IsSteady w → Advances r (step_down w now term r)
unfolding step_down
step_down-Advances w now term r st =
    let a =
      Advances-trans r (become_follower now term r) _ (become_follower-Advances now term r)
        (release-Advances w (become_follower now term r) st) in
    record { term_mono = a.term_mono; vote_kept = a.vote_kept }

-- A stepped-down node has at least the term that made it step down.
pub le-step_down :
    (w : Window) (now term : ℕ) (r : RaftNode)
    → IsSteady w
    → term ≤ (step_down w now term r).current_term
unfolding step_down
le-step_down w now term r st =
    let b = release-Advances w (become_follower now term r) st in ground (arith, b.term_mono)

pub mark_storage_failure-Advances :
    (e : RaftError) (r : RaftNode) → Advances r (mark_storage_failure e r)
unfolding mark_storage_failure
mark_storage_failure-Advances e r = ground arith
