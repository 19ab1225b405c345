-- ===== src/Raft/Machine.antt =====
-- `applyEntriesLoop` of internal/raft/raft.go: committed entries go to the state machine.
pub mod Replay
pub mod Races
use kver.Prelude.{
  ℕ, zero, suc, Bytes, Bool, true, false, not, ◌&&◌, Option, none, some, List, [], ◌∷◌, ◌++◌, ltb,
  ◌==◌, if◌then◌else◌, add64,
}
use kver.Raft.Types.{
  LogEntry, EntryType, entry_kv, entry_membership, entry_noop, RaftError, Result, ok, err,
  StateMachine,
}
use kver.Raft.Log.{get_entry}
use kver.Raft.Node.{RaftNode, Window, is_leader}
use kver.Raft.Membership.{MembershipChange, apply_membership}

unfoldable pub is_membership : EntryType → Bool
is_membership entry_membership = true
is_membership _ = false

unfoldable pub is_noop : EntryType → Bool
is_noop entry_noop = true
is_noop _ = false

-- What other goroutines do in one round of the loop: before the lock of the state machine is
-- taken, while the entry is applied, and after the round. The window is that of a `stepDown`, and
-- `now` the time at which the state machine applies the entry.
pub record Pause (M : Type 0) : Type 0 where
  pub before : RaftNode × M → RaftNode × M
  pub during : RaftNode → RaftNode
  pub after : RaftNode × M → RaftNode × M
  pub window : Window
  pub now : ℕ

-- The requests that wait for an index, and their channels.
waiting : ℕ → List (ℕ × ℕ) → List (ℕ × ℕ)
waiting index [] = []
waiting index ((i, request) ∷ waiters) =
    let rest = waiting index waiters in if i == index then (i, request) ∷ rest else rest

others : ℕ → List (ℕ × ℕ) → List (ℕ × ℕ)
others index [] = []
others index ((i, request) ∷ waiters) =
    let rest = others index waiters in if i == index then rest else (i, request) ∷ rest

answers : Option RaftError → List (ℕ × ℕ) → List (ℕ × Option RaftError)
answers e [] = []
answers e ((i, request) ∷ waiters) = (request, e) ∷ answers e waiters

-- What the loop records of an entry that has been applied. The snapshot that may be due is taken
-- by a goroutine of its own.
unfoldable pub entry_applied : ℕ → LogEntry → Option RaftError → RaftNode → RaftNode
unfolding is_noop is_leader waiting others answers
entry_applied index entry e r = record r {
  last_applied = index;
  noop_committed =
      if is_noop entry.type && (is_leader r.state && (entry.term == r.current_term))
      then true
      else r.noop_committed;
  replies = r.replies ++ answers e (waiting entry.index r.waiters);
  waiters = others entry.index r.waiters;
  apply_signal = true;
}

-- How the loop ends. At an index that the log does not have, the code unlocks the node's lock a
-- second time, which ends the process.
pub data Applied (M : Type 0) : Type 0 where
  applied : RaftNode → M → Applied M
  crashed : RaftNode → M → Applied M
  unfinished : Applied M

module _ {M : Type 0} (sm : StateMachine M) (unmarshal : Bytes → Option MembershipChange) where
  -- The entry goes to the node or to the state machine.
  apply_entry : Pause M → LogEntry → RaftNode × M → (RaftNode × Option RaftError) × M
  unfolding apply_membership is_membership
  apply_entry p entry (r, m) =
      if is_membership entry.type
      then (apply_membership unmarshal p.window p.now entry (p.during r), m)
      else ((p.during r, (sm.apply p.now entry m).1), (sm.apply p.now entry m).0)

  record_entry : Pause M → ℕ → LogEntry → (RaftNode × Option RaftError) × M → RaftNode × M
  unfolding entry_applied
  record_entry p index entry ((r, e), m) = p.after (entry_applied index entry e r, m)

  -- One round.
  unfoldable pub apply_round : Pause M → ℕ → LogEntry → RaftNode × M → RaftNode × M
  unfolding apply_entry record_entry
  apply_round p index entry x = record_entry p index entry (apply_entry p entry (p.before x))

  unfoldable pub apply_next :
      (RaftNode × M → Applied M) → (ℕ → Pause M) → ℕ → Result LogEntry → RaftNode × M → Applied M
  unfolding apply_round
  apply_next rest pauses next (err e) (r, m) = crashed r m
  apply_next rest pauses next (ok entry) (r, m) = rest (apply_round (pauses next) next entry (r, m))

  -- The inner loop; `pauses` gives the pause of each index, and the fuel bounds the rounds.
  unfoldable pub apply_entries : (ℕ → Pause M) → ℕ → RaftNode × M → Applied M
  unfolding apply_next
  apply_entries pauses zero (r, m) = unfinished
  apply_entries pauses (suc fuel) (r, m) =
      let next = add64 r.last_applied 1 in
      if ltb r.last_applied r.commit_index
      then apply_next (apply_entries pauses fuel) pauses next (get_entry r.log next) (r, m)
      else applied r m

  -- A token on the channel of commits.
  unfoldable pub apply_committed : (ℕ → Pause M) → ℕ → RaftNode × M → Applied M
  unfolding apply_entries
  apply_committed pauses fuel (r, m) =
      if r.fatal then applied r m else apply_entries pauses fuel (r, m)
