-- ===== src/Server/Forward/Connected.antt =====
-- The connection that a handler keeps (internal/server/kv_handler.go): it leads to the address it
-- is kept under.
use kver.Prelude.{
  ◌≡◌, refl, ◌∙◌, Bytes, bytes_eq, bytes_eq_iff, Bool, true, false, Option, none, some, [], if_both,
}
use kver.Server.Types.{Rpc, RpcError, KvRequest, KvResponse, Services, KvHandler}
use kver.Server.Forward.{
  drop_conn, keep_conn, use_conn, get_leader_client, send, send_to, forward_write, forward_read,
}

module _ {W S Conn : Type 0} (sv : Services W S Conn) (address : Conn → Bytes) where
  -- A connection that is kept leads to the address it is kept under.
  abbrev pub IsConnected : KvHandler W Conn → Type 0
  IsConnected h = (conn : Conn) → h.fwd_conn ≡ some conn → address conn ≡ h.fwd_addr

  -- NewClient makes a connection to the address it is given.
  abbrev pub Dials : Type 0
  Dials =
      (addr : Bytes) (w : W) (conn : Conn)
      → (sv.platform.new_client addr w).1 ≡ some conn
      → address conn ≡ addr

  -- A client for an address, and the handler behind it.
  ConnectedTo : Bytes → KvHandler W Conn × Option Conn → Type 0
  ConnectedTo addr x = IsConnected x.0 × ((conn : Conn) → x.1 ≡ some conn → address conn ≡ addr)

  keep_conn-ConnectedTo :
      (addr : Bytes) (h : KvHandler W Conn) (x : W × Option Conn)
      → IsConnected h
      → ((conn : Conn) → x.1 ≡ some conn → address conn ≡ addr)
      → ConnectedTo addr (keep_conn sv addr h x)
  unfolding keep_conn ConnectedTo
  keep_conn-ConnectedTo addr h (w, none) kept dialled = (kept, dialled)
  keep_conn-ConnectedTo addr h (w, some conn) kept dialled = (dialled, dialled)

  use_conn-ConnectedTo :
      (addr : Bytes) (c : Option Conn) (h : KvHandler W Conn)
      → Dials
      → IsConnected h
      → ((conn : Conn) → c ≡ some conn → address conn ≡ addr)
      → ConnectedTo addr (use_conn sv addr c h)
  unfolding use_conn ConnectedTo
  use_conn-ConnectedTo addr none h dials kept right =
      keep_conn-ConnectedTo addr h (sv.platform.new_client addr h.world) kept (dials addr h.world)
  use_conn-ConnectedTo addr (some conn) h dials kept right = (kept, right)

  drop_conn-none :
      (c : Option Conn) (h : KvHandler W Conn) → h.fwd_conn ≡ c → (drop_conn sv c h).fwd_conn ≡ none
  unfolding drop_conn
  drop_conn-none none h same = same
  drop_conn-none (some conn) h same = refl

  get_leader_client-ConnectedTo :
      (addr : Bytes) (h : KvHandler W Conn)
      → Dials
      → IsConnected h
      → ConnectedTo addr (get_leader_client sv addr h)
  unfolding get_leader_client
  get_leader_client-ConnectedTo addr h dials kept =
      let P = λ (x : KvHandler W Conn). ConnectedTo addr (use_conn sv addr x.fwd_conn x) in
      if_both P (bytes_eq h.fwd_addr addr) _ _
        (λ same.
          use_conn-ConnectedTo addr h.fwd_conn h dials kept
            λ conn held. kept conn held ∙ (bytes_eq_iff h.fwd_addr addr).0 same)
        λ _.
          let gone = drop_conn-none h.fwd_conn h refl in
          let dropped = drop_conn sv h.fwd_conn h in
          use_conn-ConnectedTo addr dropped.fwd_conn dropped dials
            (λ conn held. absurd (let g = gone in cc)) (λ conn held. absurd (let g = gone in cc))

  send-IsConnected :
      (mark : Bool) (req : KvRequest S) (x : KvHandler W Conn × Option Conn)
      → IsConnected x.0
      → IsConnected (send sv mark req x).0
  unfolding send
  send-IsConnected mark req (h, none) kept = kept
  send-IsConnected mark req (h, some conn) kept = kept

  send_to-IsConnected :
      (mark : Bool) (req : KvRequest S) (unknown : RpcError) (addr : Bytes) (h : KvHandler W Conn)
      → Dials
      → IsConnected h
      → IsConnected (send_to sv mark req unknown addr h).0
  unfolding send_to ConnectedTo
  send_to-IsConnected mark req unknown addr h dials kept =
      if_both (λ (x : KvHandler W Conn × Rpc (KvResponse S)). IsConnected x.0) (bytes_eq addr []) _
        _ (λ _. kept)
        λ _.
          send-IsConnected mark req (get_leader_client sv addr h)
            (get_leader_client-ConnectedTo addr h dials kept).0

  pub forward_write-IsConnected :
      (req : KvRequest S) (h : KvHandler W Conn)
      → Dials
      → IsConnected h
      → IsConnected (forward_write sv req h).0
  unfolding forward_write
  forward_write-IsConnected req h dials kept = send_to-IsConnected false req _ _ _ dials kept

  pub forward_read-IsConnected :
      (mark : Bool) (req : KvRequest S) (h : KvHandler W Conn)
      → Dials
      → IsConnected h
      → IsConnected (forward_read sv mark req h).0
  unfolding forward_read
  forward_read-IsConnected true req h dials kept = kept
  forward_read-IsConnected false req h dials kept = send_to-IsConnected true req _ _ _ dials kept

  -- The connection for the leader's address leads there, whether it is new or was kept from a
  -- request before, and also after a change of leader, as long as the connection kept so far led
  -- to its address. NewClient makes a connection to the address it is given.
  get_leader_client-address :
      (addr : Bytes) (h : KvHandler W Conn) (conn : Conn)
      → Dials
      → IsConnected h
      → (get_leader_client sv addr h).1 ≡ some conn
      → address conn ≡ addr
  unfolding ConnectedTo
  get_leader_client-address addr h conn dials kept got =
      (get_leader_client-ConnectedTo addr h dials kept).1 conn got
