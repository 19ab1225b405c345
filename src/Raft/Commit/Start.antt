-- ===== src/Raft/Commit/Start.antt =====
-- How a leader starts (`initLeaderState`, internal/raft/raft.go).
use kver.Prelude.{
  ℕ, suc, ◌+◌, ◌-◌, ◌≡◌, refl, sym, ap, arith, ◌∙◌, Bytes, bytes_eq, bytes_eq_iff, true, false, not,
  ◌&&◌, Option, none, some, [], ◌∷◌, inl, inr, if◌then◌else◌, add64, length,
}
use kver.Prelude.Dict
use kver.Prelude.Dict.{Dict, get-put}
use kver.Raft.Types.{entry_noop, RaftError, ok}
use kver.Raft.Log.{RaftLog, Written, last_index, get_entry, append, entry_at_offset}
use kver.Raft.Log.WellFormed.{IsWellFormed}
use kver.Raft.Log.Reads.{last_index_lem}
use kver.Raft.Log.Effects.{get_entry-append}
use kver.Raft.Node.{RaftNode}
use kver.Raft.Commit.{
  reset_peers, reset_indices, noop_entry, commit_noop, advance_commit_index, init_leader_state,
}
use kver.Raft.Commit.Leader.{advance_commit_index-Commits}

get-reset_peers :
    (self : Bytes) (value : ℕ) (peers : Dict Bytes) (indices : Dict ℕ) (peer : Bytes)
    → Dict.get (reset_peers self value peers indices) peer ≡ (
        if Dict.has peers peer && not (bytes_eq peer self)
        then some value
        else Dict.get indices peer)
unfolding reset_peers Dict.has Dict.get
get-reset_peers self value [] indices peer = refl
get-reset_peers self value ((other, address) ∷ peers) indices peer =
    let next = if bytes_eq other self then indices else Dict.put indices other value in
    ground (
      arith,
      get-reset_peers self value peers next peer,
      get-put indices other peer value,
      bytes_eq_iff other peer,
      bytes_eq_iff other self,
      bytes_eq_iff peer self,
    )

-- A commit leaves the log and the two maps alone.
advance_commit_index_keeps :
    (r : RaftNode)
    → ((advance_commit_index r).log ≡ r.log)
      × ((advance_commit_index r).next_index ≡ r.next_index)
      × ((advance_commit_index r).match_index ≡ r.match_index)
advance_commit_index_keeps r = elim (advance_commit_index-Commits r) [
  | inl same ↦ (ap (λ s. s.log) same, ap (λ s. s.next_index) same, ap (λ s. s.match_index) same)
  | inr (lead, n, eq, le, found) ↦
      (ap (λ s. s.log) eq, ap (λ s. s.next_index) eq, ap (λ s. s.match_index) eq)
]

commit_noop-none :
    (r : RaftNode) (a : RaftLog × Option RaftError)
    → (commit_noop r a).1 ≡ none
    → (a.1 ≡ none) × ((commit_noop r a).0 ≡ advance_commit_index (record r { log = a.0 }))
unfolding commit_noop
commit_noop-none r (l, none) h = (refl, refl)
commit_noop-none r (l, some e) h = absurd (ground arith)

init_leader_state-none :
    (io : Written) (r : RaftNode)
    → (init_leader_state io r).1 ≡ none
    → init_leader_state io r ≡ commit_noop (reset_indices r) (append io (noop_entry r ∷ []) r.log)
unfolding init_leader_state
init_leader_state-none io r h = ground arith

-- What is left of the start once the entry is in the log.
started :
    (io : Written) (r : RaftNode)
    → (init_leader_state io r).1 ≡ none
    → ((append io (noop_entry r ∷ []) r.log).1 ≡ none)
      × ((init_leader_state io r).0.log ≡ (append io (noop_entry r ∷ []) r.log).0)
      × ((init_leader_state io r).0.next_index ≡ (reset_indices r).next_index)
      × ((init_leader_state io r).0.match_index ≡ (reset_indices r).match_index)
started io r h =
    let a = append io (noop_entry r ∷ []) r.log in
    let run = init_leader_state-none io r h in
    let (appended, state) = commit_noop-none (reset_indices r) a (sym (ap (λ x. x.1) run) ∙ h) in
    let end = ap (λ x. x.0) run ∙ state in
    let (log, next, match) = advance_commit_index_keeps (record (reset_indices r) { log = a.0 }) in
    (
      appended,
      ap (λ s. s.log) end ∙ log,
      ap (λ s. s.next_index) end ∙ next,
      ap (λ s. s.match_index) end ∙ match,
    )

-- A leader that starts without an error has an entry without a command of its term behind its old
-- log, and sends every other peer what follows the old log, of which it is not known to have
-- anything.
pub init_leader_state_lem :
    (io : Written) (r : RaftNode) (peer : Bytes)
    → IsWellFormed r.log
    → Dict.has r.peers peer ≡ true
    → bytes_eq peer r.config.node_id ≡ false
    → (init_leader_state io r).1 ≡ none
    → (get_entry (init_leader_state io r).0.log (suc (last_index r.log))
        ≡ ok (record {
          index = suc (last_index r.log);
          term = r.current_term;
          type = entry_noop;
          command = [];
        }))
      × (Dict.get (init_leader_state io r).0.next_index peer ≡ some (suc (last_index r.log)))
      × (Dict.get (init_leader_state io r).0.match_index peer ≡ some 0)
init_leader_state_lem io r peer w known other h =
    let (appended, log, next, match) = started io r h in
    let last : last_index r.log ≡ r.log.base_index + length r.log.entries =
      last_index_lem r.log w in
    let exact : add64 (last_index r.log) 1 ≡ suc (last_index r.log) =
      let f = w.fits in omega arith in
    let place : suc (last_index r.log) - last_index r.log - 1 ≡ 0 = omega arith in
    (
      rw log (
          get_entry-append io (noop_entry r ∷ []) r.log w appended (suc (last_index r.log))
          ∙ rw place (unfold noop_entry entry_at_offset in ground arith)),
      rw next (
          unfold reset_indices in
          ground (
            arith,
            get-reset_peers r.config.node_id (add64 (last_index r.log) 1) r.peers r.next_index peer,
          )),
      rw match (
          unfold reset_indices in
          ground (arith, get-reset_peers r.config.node_id 0 r.peers r.match_index peer)),
    )
