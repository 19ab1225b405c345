-- ===== src/Raft/Membership.antt =====
-- internal/raft/membership.go: the changes of the cluster's members.
pub mod Overlap
use kver.Prelude.{
  ℕ, Bytes, bytes_eq, true, false, Option, none, some, [], ◌∷◌, if◌then◌else◌, add64,
}
use kver.Prelude.Dict
use kver.Prelude.Dict.{Dict}
use kver.Raft.Types.{
  LogEntry, entry_membership, RaftError, not_leader, membership_change_pending, io_error,
}
use kver.Raft.Log.{RaftLog, Written, last_index, append}
use kver.Raft.Node.{RaftNode, Window, is_leader, step_down, mark_storage_failure}

-- A type of change that is neither of the two is possible in the JSON text.
pub data ChangeType : Type 0 where
  add_server remove_server other_change : ChangeType

pub record MembershipChange : Type 0 where
  pub type : ChangeType
  pub node_id : Bytes
  pub address : Bytes

-- The members after a change of a copy of the configuration.
unfoldable pub changed_peers : MembershipChange → Dict Bytes → Dict Bytes
changed_peers change peers = elim change.type [
  | add_server ↦ Dict.put peers change.node_id change.address
  | remove_server ↦ Dict.remove peers change.node_id
  | other_change ↦ peers
]

-- The maps of the leader, and `stepDown` where the node itself is removed. The transport learns of
-- the change on its own.
unfoldable pub follow_change : Window → ℕ → MembershipChange → RaftNode → RaftNode
unfolding step_down
follow_change w now change r = elim change.type [
  | add_server ↦ record r {
    next_index = Dict.put r.next_index change.node_id (add64 (last_index r.log) 1);
    match_index = Dict.put r.match_index change.node_id 0;
  }
  | remove_server ↦
      let r' = record r {
        next_index = Dict.remove r.next_index change.node_id;
        match_index = Dict.remove r.match_index change.node_id;
      } in
      if bytes_eq change.node_id r.config.node_id then step_down w now r.current_term r' else r'
  | other_change ↦ r
]

apply_change : Window → ℕ → Option MembershipChange → RaftNode → RaftNode × Option RaftError
unfolding follow_change changed_peers
apply_change w now none r = (r, some io_error)
apply_change w now (some change) r = (
  record (follow_change w now change r) {
    peers = changed_peers change r.peers;
    pending_membership = false;
  },
  none,
)

-- applyMembership; `unmarshal` is json.Unmarshal.
unfoldable pub apply_membership :
    (Bytes → Option MembershipChange)
    → Window
    → ℕ
    → LogEntry
    → RaftNode
    → RaftNode × Option RaftError
unfolding apply_change
apply_membership unmarshal w now entry r = apply_change w now (unmarshal entry.command) r

change_appended : RaftNode → RaftLog × Option RaftError → RaftNode × Option RaftError
unfolding mark_storage_failure
change_appended r (l, some e) = (mark_storage_failure e (record r { log = l }), some e)
change_appended r (l, none) = (record r { log = l; pending_membership = true }, none)

-- ProposeMembershipChange, up to the requests to the peers; `text` is the change as json.Marshal
-- writes it.
unfoldable pub propose_membership_change :
    Written → Option Bytes → RaftNode → RaftNode × Option RaftError
unfolding is_leader change_appended
propose_membership_change io text r =
    if is_leader r.state
    then (if r.pending_membership then (r, some membership_change_pending) else elim text [
      | none ↦ (r, some io_error)
      | some command ↦
          let entry : LogEntry = record {
            index = add64 (last_index r.log) 1;
            term = r.current_term;
            type = entry_membership;
            command = command;
          } in
          change_appended r (append io (entry ∷ []) r.log)
    ])
    else (r, some not_leader)
