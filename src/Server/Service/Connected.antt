-- ===== src/Server/Service/Connected.antt =====
-- No request makes the kept connection lead elsewhere (internal/server/kv_handler.go).
use kver.Prelude.{Bytes, codes, Bool, Option, none, some, List, [], ◌∷◌, if_both}
use kver.Prelude.Int.{ℤ, pos, negsuc}
use kver.Raft.Types.{RaftError}
use kver.Raft.Membership.{MembershipChange, add_server, remove_server}
use kver.Kv.Types.{Reply, ok, err}
use kver.Server.Types.{
  Rpc, RpcError, KvRequest, set_request, get_request, delete_request, incr_request, decr_request,
  hset_request, hget_request, hdelete_request, hexists_request, hget_all_request, lpush_request,
  rpush_request, lpop_request, rpop_request, llen_request, lrange_request, zadd_request,
  zscore_request, zrank_request, zrem_request, zrange_request, zrev_range_request, add_node_request,
  remove_node_request, ping_request, KvResponse, success, count, value, fields, exists, values,
  score, rank, members, Services, KvHandler,
}
use kver.Server.Forward.Connected.{
  IsConnected, Dials, forward_write-IsConnected, forward_read-IsConnected,
}
use kver.Server.Writes.{
  on_leader, propose, reply_with, run_command, read_counter, counter_answer, set, delete, incr,
  decr, hset, hdelete, lpush, rpush, zadd, zrem, expiry_arg, push_args,
}
use kver.Server.Reads.{
  from_store, after_read_index, linearizable, get, hget, hget_all, hexists, lrange, llen, zscore,
  zrank, zrange, zrev_range,
}
use kver.Server.Pops.{pop_read, pop_checked, pop_at, lpop, rpop}
use kver.Server.Members.{changed, change_members, add_node, remove_node, ping}
use kver.Server.Service.{serve}

module _ {W S Conn : Type 0} (sv : Services W S Conn) (address : Conn → Bytes) where
  -- A handler that only changes the world.
  reply_with-IsConnected :
      (resp : KvResponse S) (x : KvHandler W Conn × Option RpcError)
      → IsConnected sv address x.0
      → IsConnected sv address (reply_with sv resp x).0
  unfolding reply_with
  reply_with-IsConnected resp (h, none) kept = kept
  reply_with-IsConnected resp (h, some e) kept = kept

  run_command-IsConnected :
      (op : Bytes) (args : List Bytes) (resp : KvResponse S) (h : KvHandler W Conn)
      → IsConnected sv address h
      → IsConnected sv address (run_command sv op args resp h).0
  unfolding run_command propose
  run_command-IsConnected op args resp h kept =
      reply_with-IsConnected resp (propose sv op args h) kept

  counter_answer-IsConnected :
      (h : KvHandler W Conn) (x : W × Reply Bytes)
      → IsConnected sv address h
      → IsConnected sv address (counter_answer sv h x).0
  unfolding counter_answer
  counter_answer-IsConnected h (w, ok text) kept = kept
  counter_answer-IsConnected h (w, err e) kept = kept

  read_counter-IsConnected :
      (key : Bytes) (x : KvHandler W Conn × Option RpcError)
      → IsConnected sv address x.0
      → IsConnected sv address (read_counter sv key x).0
  unfolding read_counter
  read_counter-IsConnected key (h, some e) kept = kept
  read_counter-IsConnected key (h, none) kept =
      counter_answer-IsConnected h (sv.kv_store.get key h.world) kept

  pop_read-IsConnected :
      (op key : Bytes) (h : KvHandler W Conn) (x : W × Reply (List Bytes))
      → IsConnected sv address h
      → IsConnected sv address (pop_read sv op key h x).0
  unfolding pop_read
  pop_read-IsConnected op key h (w, err e) kept = kept
  pop_read-IsConnected op key h (w, ok []) kept = kept
  pop_read-IsConnected op key h (w, ok (found ∷ rest)) kept =
      run_command-IsConnected op (key ∷ []) (value found) (record h { world = w }) kept

  pop_checked-IsConnected :
      (op : Bytes) (at : ℤ) (key : Bytes) (h : KvHandler W Conn) (x : W × Option RaftError)
      → IsConnected sv address h
      → IsConnected sv address (pop_checked sv op at key h x).0
  unfolding pop_checked
  pop_checked-IsConnected op at key h (w, some e) kept = kept
  pop_checked-IsConnected op at key h (w, none) kept =
      pop_read-IsConnected op key h (sv.kv_store.lrange key at at w) kept

  changed-IsConnected :
      (h : KvHandler W Conn) (x : W × Option RaftError)
      → IsConnected sv address h
      → IsConnected sv address (changed sv h x).0
  unfolding changed
  changed-IsConnected h (w, none) kept = kept
  changed-IsConnected h (w, some e) kept = kept

  from_store-IsConnected :
      {A : Type 0} (wrap : A → KvResponse S) (h : KvHandler W Conn) (x : W × Reply A)
      → IsConnected sv address h
      → IsConnected sv address (from_store sv wrap h x).0
  unfolding from_store
  from_store-IsConnected wrap h (w, ok a) kept = kept
  from_store-IsConnected wrap h (w, err e) kept = kept

  after_read_index-IsConnected :
      {A : Type 0} (mark : Bool) (req : KvRequest S) (read : W → W × Reply A)
      (wrap : A → KvResponse S) (h : KvHandler W Conn) (x : W × Option RaftError)
      → Dials sv address
      → IsConnected sv address h
      → IsConnected sv address (after_read_index sv mark req read wrap h x).0
  unfolding after_read_index
  after_read_index-IsConnected mark req read wrap h (w, none) dials kept =
      from_store-IsConnected wrap h (read w) kept
  after_read_index-IsConnected mark req read wrap h (w, some e) dials kept =
      forward_read-IsConnected sv address mark req (record h { world = w }) dials kept

  linearizable-IsConnected :
      {A : Type 0} (mark : Bool) (req : KvRequest S) (read : W → W × Reply A)
      (wrap : A → KvResponse S) (h : KvHandler W Conn)
      → Dials sv address
      → IsConnected sv address h
      → IsConnected sv address (linearizable sv mark req read wrap h).0
  unfolding linearizable
  linearizable-IsConnected mark req read wrap h dials kept =
      after_read_index-IsConnected mark req read wrap h (sv.raft.read_index h.world) dials kept

  on_leader-IsConnected :
      (req : KvRequest S) (act : KvHandler W Conn → KvHandler W Conn × Rpc (KvResponse S))
      (h : KvHandler W Conn)
      → Dials sv address
      → ((g : KvHandler W Conn) → IsConnected sv address g → IsConnected sv address (act g).0)
      → IsConnected sv address h
      → IsConnected sv address (on_leader sv req act h).0
  unfolding on_leader
  on_leader-IsConnected req act h dials acts kept =
      let h' : KvHandler W Conn = record h { world = (sv.raft.is_leader h.world).0 } in
      if_both (λ (x : KvHandler W Conn × Rpc (KvResponse S)). IsConnected sv address x.0)
        (sv.raft.is_leader h.world).1 _ _ (λ _. acts h' kept)
        λ _. forward_write-IsConnected sv address req h' dials kept

  write-IsConnected :
      (req : KvRequest S) (op : Bytes) (args : KvHandler W Conn → List Bytes) (resp : KvResponse S)
      (h : KvHandler W Conn)
      → Dials sv address
      → IsConnected sv address h
      → IsConnected sv address (on_leader sv req (λ g. run_command sv op (args g) resp g) h).0
  write-IsConnected req op args resp h dials kept =
      on_leader-IsConnected req (λ g. run_command sv op (args g) resp g) h dials
        (λ g still. run_command-IsConnected op (args g) resp g still) kept

  -- Whatever is asked of a node, the connection it keeps still leads to the address it is kept
  -- under afterwards: for each of the 25 requests, answered or refused, on a leader or elsewhere.
  -- NewClient makes a connection to the address it is given.
  pub serve-IsConnected :
      (mark : Bool) (req : KvRequest S) (h : KvHandler W Conn)
      → Dials sv address
      → IsConnected sv address h
      → IsConnected sv address (serve sv mark req h).0
  unfolding serve set delete incr decr hset hdelete lpush rpush zadd zrem get hget hget_all hexists
      lrange llen zscore zrank zrange zrev_range lpop rpop add_node remove_node ping pop_at
      change_members
  serve-IsConnected mark (set_request key v ttl) h dials kept =
      write-IsConnected (set_request key v ttl) (codes "SET")
        (λ g. key ∷ v ∷ expiry_arg sv ttl g ∷ []) success h dials kept
  serve-IsConnected mark (delete_request key) h dials kept =
      write-IsConnected (delete_request key) (codes "DEL") (λ g. key ∷ []) success h dials kept
  serve-IsConnected mark (hset_request key field v ttl) h dials kept =
      write-IsConnected (hset_request key field v ttl) (codes "HSET")
        (λ g. key ∷ field ∷ v ∷ expiry_arg sv ttl g ∷ []) success h dials kept
  serve-IsConnected mark (hdelete_request key field) h dials kept =
      write-IsConnected (hdelete_request key field) (codes "HDEL") (λ g. key ∷ field ∷ []) success h
        dials kept
  serve-IsConnected mark (lpush_request key vs ttl) h dials kept =
      write-IsConnected (lpush_request key vs ttl) (codes "LPUSH")
        (λ g. push_args key vs (expiry_arg sv ttl g)) (count 0) h dials kept
  serve-IsConnected mark (rpush_request key vs ttl) h dials kept =
      write-IsConnected (rpush_request key vs ttl) (codes "RPUSH")
        (λ g. push_args key vs (expiry_arg sv ttl g)) (count 0) h dials kept
  serve-IsConnected mark (zadd_request key member x ttl) h dials kept =
      write-IsConnected (zadd_request key member x ttl) (codes "ZADD")
        (λ g. key ∷ sv.platform.format_score x ∷ member ∷ expiry_arg sv ttl g ∷ []) success h dials
        kept
  serve-IsConnected mark (zrem_request key member) h dials kept =
      write-IsConnected (zrem_request key member) (codes "ZREM") (λ g. key ∷ member ∷ []) success h
        dials kept
  serve-IsConnected mark (incr_request key) h dials kept =
      on_leader-IsConnected (incr_request key)
        (λ g. read_counter sv key (propose sv (codes "INCR") (key ∷ []) g)) h dials
        (λ g still. read_counter-IsConnected key (propose sv (codes "INCR") (key ∷ []) g) still)
        kept
  serve-IsConnected mark (decr_request key) h dials kept =
      on_leader-IsConnected (decr_request key)
        (λ g. read_counter sv key (propose sv (codes "DECR") (key ∷ []) g)) h dials
        (λ g still. read_counter-IsConnected key (propose sv (codes "DECR") (key ∷ []) g) still)
        kept
  serve-IsConnected mark (lpop_request key) h dials kept =
      on_leader-IsConnected (lpop_request key) (pop_at sv (codes "LPOP") (pos 0) key) h dials
        (λ g still.
          pop_checked-IsConnected (codes "LPOP") (pos 0) key g (sv.raft.read_index g.world) still)
        kept
  serve-IsConnected mark (rpop_request key) h dials kept =
      on_leader-IsConnected (rpop_request key) (pop_at sv (codes "RPOP") (negsuc 0) key) h dials
        (λ g still.
          pop_checked-IsConnected (codes "RPOP") (negsuc 0) key g (sv.raft.read_index g.world)
            still)
        kept
  serve-IsConnected mark (add_node_request a b) h dials kept =
      let change : MembershipChange = record { type = add_server; node_id = a; address = b } in
      on_leader-IsConnected (add_node_request a b) (change_members sv change) h dials
        (λ g still. changed-IsConnected g (sv.raft.propose_membership_change change g.world) still)
        kept
  serve-IsConnected mark (remove_node_request a) h dials kept =
      let change : MembershipChange = record { type = remove_server; node_id = a; address = [] } in
      on_leader-IsConnected (remove_node_request a) (change_members sv change) h dials
        (λ g still. changed-IsConnected g (sv.raft.propose_membership_change change g.world) still)
        kept
  serve-IsConnected mark (get_request key) h dials kept =
      linearizable-IsConnected mark (get_request key) (sv.kv_store.get key) value h dials kept
  serve-IsConnected mark (hget_request key field) h dials kept =
      linearizable-IsConnected mark (hget_request key field) (sv.kv_store.hget key field) value h
        dials kept
  serve-IsConnected mark (hexists_request key field) h dials kept =
      linearizable-IsConnected mark (hexists_request key field) (sv.kv_store.hexists key field)
        exists h dials kept
  serve-IsConnected mark (hget_all_request key) h dials kept =
      linearizable-IsConnected mark (hget_all_request key) (sv.kv_store.hget_all key) fields h dials
        kept
  serve-IsConnected mark (llen_request key) h dials kept =
      linearizable-IsConnected mark (llen_request key) (sv.kv_store.llen key) count h dials kept
  serve-IsConnected mark (lrange_request key start stop) h dials kept =
      linearizable-IsConnected mark (lrange_request key start stop)
        (sv.kv_store.lrange key start stop) values h dials kept
  serve-IsConnected mark (zscore_request key member) h dials kept =
      linearizable-IsConnected mark (zscore_request key member) (sv.kv_store.zscore key member)
        score h dials kept
  serve-IsConnected mark (zrank_request key member) h dials kept =
      linearizable-IsConnected mark (zrank_request key member) (sv.kv_store.zrank key member) rank h
        dials kept
  serve-IsConnected mark (zrange_request key start stop both) h dials kept =
      linearizable-IsConnected mark (zrange_request key start stop both)
        (sv.kv_store.zrange key start stop both) members h dials kept
  serve-IsConnected mark (zrev_range_request key start stop both) h dials kept =
      linearizable-IsConnected mark (zrev_range_request key start stop both)
        (sv.kv_store.zrev_range key start stop both) members h dials kept
  serve-IsConnected mark ping_request h dials kept = kept
