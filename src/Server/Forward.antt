-- ===== src/Server/Forward.antt =====
-- The connection to the leader, and the requests that are sent on to it:
-- internal/server/kv_handler.go. Each handler runs alone here; what other requests do meanwhile is
-- a change of the world, except that they share the connection.
pub mod Connected
pub mod Once
use kver.Prelude.{ℕ, Bytes, bytes_eq, Bool, true, false, not, Option, none, some, [], if◌then◌else◌}
use kver.Raft.Types.{RaftError}
use kver.Server.Types.{
  Rpc, RpcError, answer, failure, status, unavailable, failed_precondition, KvRequest, KvResponse,
  Services, KvHandler,
}

module _ {W S Conn : Type 0} (sv : Services W S Conn) where
  -- h.fwdConn = nil, behind the closing of the connection
  drop_conn : Option Conn → KvHandler W Conn → KvHandler W Conn
  drop_conn none h = h
  drop_conn (some conn) h = record h { world = sv.platform.close conn h.world; fwd_conn = none }

  -- Close
  unfoldable pub close : KvHandler W Conn → KvHandler W Conn
  close h = elim h.fwd_conn [
    | none ↦ h
    | some conn ↦ record h {
      world = sv.platform.close conn h.world;
      fwd_conn = none;
      fwd_addr = [];
    }
  ]

  keep_conn : Bytes → KvHandler W Conn → W × Option Conn → KvHandler W Conn × Option Conn
  keep_conn addr h (w, none) = (record h { world = w }, none)
  keep_conn addr h (w, some conn) =
      (record h { world = w; fwd_conn = some conn; fwd_addr = addr }, some conn)

  use_conn : Bytes → Option Conn → KvHandler W Conn → KvHandler W Conn × Option Conn
  unfolding keep_conn
  use_conn addr none h = keep_conn addr h (sv.platform.new_client addr h.world)
  use_conn addr (some conn) h = (h, some conn)

  -- getLeaderClient; `none` is an error of NewClient.
  unfoldable pub get_leader_client : Bytes → KvHandler W Conn → KvHandler W Conn × Option Conn
  unfolding drop_conn use_conn
  get_leader_client addr h =
      let h' = if bytes_eq h.fwd_addr addr then h else drop_conn h.fwd_conn h in
      use_conn addr h'.fwd_conn h'

  send : Bool → KvRequest S → KvHandler W Conn × Option Conn → KvHandler W Conn × Rpc (KvResponse S)
  send forwarded req (h, none) = (h, failure (status unavailable))
  send forwarded req (h, some conn) =
      let (w, resp) = sv.platform.call conn forwarded req h.world in (record h { world = w }, resp)

  send_to :
      Bool
      → KvRequest S
      → RpcError
      → Bytes
      → KvHandler W Conn
      → KvHandler W Conn × Rpc (KvResponse S)
  unfolding send get_leader_client
  send_to forwarded req unknown addr h =
      if bytes_eq addr []
      then (h, failure unknown)
      else send forwarded req (get_leader_client addr h)

  unfoldable pub forward_write :
      KvRequest S → KvHandler W Conn → KvHandler W Conn × Rpc (KvResponse S)
  unfolding send_to
  forward_write req h =
      let (w, addr) = sv.raft.leader_addr h.world in
      send_to false req (status failed_precondition) addr (record h { world = w })

  -- forwardRead; `forwarded` tells that the request has been sent on before.
  unfoldable pub forward_read :
      Bool → KvRequest S → KvHandler W Conn → KvHandler W Conn × Rpc (KvResponse S)
  unfolding send_to
  forward_read true req h = (h, failure (status unavailable))
  forward_read false req h =
      let (w, addr) = sv.raft.leader_addr h.world in
      send_to true req (status unavailable) addr (record h { world = w })
