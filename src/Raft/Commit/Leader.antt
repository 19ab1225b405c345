-- ===== src/Raft/Commit/Leader.antt =====
-- What a leader commits (`advanceCommitIndex`, internal/raft/replication.go).
use kver.Prelude.{
  ℕ, zero, suc, ◌≤◌, ◌<◌, ◌≡◌, refl, ap, arith, Bytes, Bool, true, ◌&&◌, Option, none, some, ◌⊎◌,
  inl, inr, Bool-cases, leb, ltb, ◌==◌, if_both, subst,
}
use kver.Prelude.Dict
use kver.Prelude.Dict.{Dict}
use kver.Raft.Types.{LogEntry, Result, ok, err}
use kver.Raft.Log.{last_index, get_entry}
use kver.Raft.Node.{RaftNode, NodeState, is_leader, leader}
use kver.Raft.Commit.{
  majority, replicas, commit_at, search_commit, commit_found, advance_commit_index,
}
use kver.Raft.Commit.Quorum.{count_if, Member, majority-Member, holds_entry, count_matches-lt}

-- An entry of the current term above the commit index that a majority has.
pub record Committable (r : RaftNode) (n : ℕ) : Type 0 where
  pub above : r.commit_index < n
  pub entry : LogEntry
  pub present : get_entry r.log n ≡ ok entry
  pub current : entry.term ≡ r.current_term
  pub quorum : majority r.peers ≤ replicas r n

commit_at-Committable :
    (r : RaftNode) (k n : ℕ) (rest : Option ℕ) (got : Result LogEntry)
    → r.commit_index < k
    → get_entry r.log k ≡ got
    → (rest ≡ some n → (n ≤ k) × Committable r n)
    → commit_at r k rest got ≡ some n
    → (n ≤ k) × Committable r n
unfolding commit_at
commit_at-Committable r k n rest (err e) lt got below h = below h
commit_at-Committable r k n rest (ok e) lt got below h =
    elim (Bool-cases (e.term == r.current_term)) [
      | inr older ↦ absurd (ground arith)
      | inl current ↦ elim (Bool-cases (leb (majority r.peers) (replicas r k))) [
        | inr few ↦ below (ground arith)
        | inl many ↦
            let same : k ≡ n = ground arith in
            let here : Committable r k = record {
              above = lt;
              entry = e;
              present = got;
              current = ground arith;
              quorum = ground arith;
            } in
            (omega arith, subst (Committable r) same here)
      ]
    ]

search_commit-Committable :
    (r : RaftNode) (k n : ℕ) → search_commit r k ≡ some n → (n ≤ k) × Committable r n
unfolding search_commit
search_commit-Committable r zero n h = cc
search_commit-Committable r (suc k) n h = elim (Bool-cases (ltb r.commit_index (suc k))) [
  | inr reached ↦ absurd (ground arith)
  | inl above ↦
      commit_at-Committable r (suc k) n (search_commit r k) (get_entry r.log (suc k)) (ground arith)
        refl (λ e. let (le, found) = search_commit-Committable r k n e in (omega arith, found))
        (ground arith)
]

is_leader-leader : (state : NodeState) → is_leader state ≡ true → state ≡ leader
unfolding is_leader
is_leader-leader leader h = refl
is_leader-leader _ h = cc

-- A change that is a commit of the leader, or none.
abbrev pub Commits : RaftNode → RaftNode → Type 0
Commits r s =
    (s ≡ r)
    ⊎ ((r.state ≡ leader)
        × (n : ℕ) × (s ≡ record r { commit_index = n; commit_signal = true })
        × (n ≤ last_index r.log)
        × Committable r n)

commit_found-Commits :
    (r : RaftNode) (found : Option ℕ)
    → r.state ≡ leader
    → search_commit r (last_index r.log) ≡ found
    → Commits r (commit_found found r)
unfolding commit_found
commit_found-Commits r none lead h = inl refl
commit_found-Commits r (some n) lead h =
    let (le, committable) = search_commit-Committable r (last_index r.log) n h in
    inr (lead, n, refl, le, committable)

-- The commit index of a leader stays, or rises to the index of an entry of its own term in its log
-- that a majority of the cluster has. Nothing else changes but the signal to apply.
pub advance_commit_index-Commits : (r : RaftNode) → Commits r (advance_commit_index r)
unfolding advance_commit_index
advance_commit_index-Commits r =
    if_both (Commits r) (is_leader r.state) _ _
      (λ lead. commit_found-Commits r _ (is_leader-leader r.state lead) refl) λ _. inl refl

-- The log has an entry of the current term at every index of a range.
abbrev pub HasCurrent : RaftNode → ℕ → ℕ → Type 0
HasCurrent r n m =
    (j : ℕ)
    → n ≤ j
    → j ≤ m
    → (e : LogEntry) × (get_entry r.log j ≡ ok e) × (e.term ≡ r.current_term)

search_commit-reaches :
    (r : RaftNode) (n m : ℕ)
    → r.commit_index < n
    → n ≤ m
    → HasCurrent r n m
    → majority r.peers ≤ replicas r n
    → (k : ℕ) × (search_commit r m ≡ some k) × (n ≤ k)
unfolding search_commit
search_commit-reaches r n zero lt le all many = absurd (omega arith)
search_commit-reaches r n (suc m) lt le all many =
    let (e, got, current) = all (suc m) le (omega arith) in
    elim (Bool-cases (leb (majority r.peers) (replicas r (suc m)))) [
      | inl enough ↦ (suc m, rw got (unfold commit_at in ground arith), le)
      | inr few ↦ elim (Bool-cases (n == suc m)) [
        | inl same ↦ absurd (
            let top : n ≡ suc m = ground arith in
            let bound = subst (λ j. majority r.peers ≤ replicas r j) top many in ground arith)
        | inr lower ↦
            let (k, found, reached) =
              search_commit-reaches r n m lt (ground arith) (λ j a b. all j a (omega arith)) many in
            (k, rw got (unfold commit_at in ground arith), reached)
      ]
    ]

-- A leader that knows a majority to have an entry above its commit index, and has only entries of
-- its own term from there on, raises the commit index at least to that entry.
advance_commit_index-reaches :
    (r : RaftNode) (n : ℕ)
    → r.state ≡ leader
    → r.commit_index < n
    → n ≤ last_index r.log
    → HasCurrent r n (last_index r.log)
    → majority r.peers ≤ replicas r n
    → n ≤ (advance_commit_index r).commit_index
unfolding advance_commit_index
advance_commit_index-reaches r n lead lt le all many =
    let (k, found, reached) = search_commit-reaches r n (last_index r.log) lt le all many in
    rw (lead, found) (unfold commit_found is_leader in reached)

-- Whenever the leader, a peer of its cluster, commits an index, every majority of the cluster, such
-- as the voters of a later leader, has a member that is the leader itself or has the entry.
pub advance_commit_index-Member :
    (r : RaftNode) (voters : Bytes → Bool)
    → Dict.has r.peers r.config.node_id ≡ true
    → r.commit_index < (advance_commit_index r).commit_index
    → majority r.peers ≤ count_if voters r.peers
    → Member
        (λ peer.
          holds_entry r.config.node_id r.match_index (advance_commit_index r).commit_index peer
          && voters peer)
        r.peers
advance_commit_index-Member r voters self lt many = elim (advance_commit_index-Commits r) [
  | inl same ↦ absurd (let e = ap (λ s. s.commit_index) same in omega arith)
  | inr (lead, n, eq, le, committable) ↦
      let moved : (advance_commit_index r).commit_index ≡ n = ap (λ s. s.commit_index) eq in
      rw moved (
        majority-Member (holds_entry r.config.node_id r.match_index n) voters r.peers
          (let count = count_matches-lt r.config.node_id r.match_index n r.peers self in
            let quorum = committable.quorum in unfold replicas in omega arith)
          many)
]
