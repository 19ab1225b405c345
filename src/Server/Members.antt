-- ===== src/Server/Members.antt =====
-- `AddNode`, `RemoveNode` and `Ping` of internal/server/kv_handler.go.
use kver.Prelude.{Bytes, Option, none, some, []}
use kver.Raft.Types.{RaftError}
use kver.Raft.Membership.{MembershipChange, add_server, remove_server}
use kver.Server.Types.{
  Rpc, answer, failure, status, internal, add_node_request, remove_node_request, KvResponse,
  success, pong, Services, KvHandler,
}
use kver.Server.Writes.{on_leader}

module _ {W S Conn : Type 0} (sv : Services W S Conn) where
  unfoldable pub changed :
      KvHandler W Conn → W × Option RaftError → KvHandler W Conn × Rpc (KvResponse S)
  changed h (w, none) = (record h { world = w }, answer success)
  changed h (w, some e) = (record h { world = w }, failure (status internal))

  unfoldable pub change_members :
      MembershipChange → KvHandler W Conn → KvHandler W Conn × Rpc (KvResponse S)
  unfolding changed
  change_members change h = changed h (sv.raft.propose_membership_change change h.world)

  unfoldable pub add_node : Bytes → Bytes → KvHandler W Conn → KvHandler W Conn × Rpc (KvResponse S)
  unfolding on_leader change_members
  add_node node_id address =
      on_leader sv (add_node_request node_id address)
        (change_members (record { type = add_server; node_id = node_id; address = address }))

  unfoldable pub remove_node : Bytes → KvHandler W Conn → KvHandler W Conn × Rpc (KvResponse S)
  unfolding on_leader change_members
  remove_node node_id =
      on_leader sv (remove_node_request node_id)
        (change_members (record { type = remove_server; node_id = node_id; address = [] }))

  unfoldable pub ping : KvHandler W Conn → KvHandler W Conn × Rpc (KvResponse S)
  ping h =
      let (w, state) = sv.raft.state h.world in
      let (w', term) = sv.raft.term w in
      (record h { world = w' }, answer (pong sv.raft.node_id state term))
