-- ===== src/Server/Forward/Once.antt =====
-- A read is sent on at most once (internal/server/kv_handler.go).
use kver.Prelude.{
  bytes_eq, Bool-cases, inl, inr, [], ◌∙◌, sym, ◌≡◌, refl, ap, Bool, true, false, Option, none,
  some,
}
use kver.Raft.Types.{RaftError}
use kver.Server.Types.{
  Rpc, failure, status, unavailable, KvRequest, set_request, get_request, delete_request,
  incr_request, decr_request, hset_request, hget_request, hdelete_request, hexists_request,
  hget_all_request, lpush_request, rpush_request, lpop_request, rpop_request, llen_request,
  lrange_request, zadd_request, zscore_request, zrank_request, zrem_request, zrange_request,
  zrev_range_request, add_node_request, remove_node_request, ping_request, KvResponse, Services,
  KvHandler,
}
use kver.Server.Forward.{forward_read, send, get_leader_client}
use kver.Server.Reads.{
  linearizable, get, hget, hget_all, hexists, lrange, llen, zscore, zrank, zrange, zrev_range,
}
use kver.Server.Service.{serve}

-- The requests that read.
unfoldable pub reads : {S : Type 0} → KvRequest S → Bool
reads (get_request key) = true
reads (hget_request key field) = true
reads (hexists_request key field) = true
reads (hget_all_request key) = true
reads (llen_request key) = true
reads (lrange_request key start stop) = true
reads (zscore_request key member) = true
reads (zrank_request key member) = true
reads (zrange_request key start stop with_scores) = true
reads (zrev_range_request key start stop with_scores) = true
reads _ = false

module _ {W S Conn : Type 0} (sv : Services W S Conn) where
  -- What a node does with a read that it is not allowed to answer.
  serve-refused :
      (mark : Bool) (req : KvRequest S) (h : KvHandler W Conn) (e : RaftError)
      → reads req ≡ true
      → (sv.raft.read_index h.world).1 ≡ some e
      → serve sv mark req h
        ≡ forward_read sv mark req (record h { world = (sv.raft.read_index h.world).0 })
  unfolding serve reads linearizable get hget hexists hget_all llen lrange zscore zrank zrange
      zrev_range
  serve-refused mark (get_request key) h e is_read refused = rw refused
  serve-refused mark (hget_request key field) h e is_read refused = rw refused
  serve-refused mark (hexists_request key field) h e is_read refused = rw refused
  serve-refused mark (hget_all_request key) h e is_read refused = rw refused
  serve-refused mark (llen_request key) h e is_read refused = rw refused
  serve-refused mark (lrange_request key start stop) h e is_read refused = rw refused
  serve-refused mark (zscore_request key member) h e is_read refused = rw refused
  serve-refused mark (zrank_request key member) h e is_read refused = rw refused
  serve-refused mark (zrange_request key start stop both) h e is_read refused = rw refused
  serve-refused mark (zrev_range_request key start stop both) h e is_read refused = rw refused
  serve-refused mark (set_request key value ttl) h e is_read refused = cc
  serve-refused mark (delete_request key) h e is_read refused = cc
  serve-refused mark (incr_request key) h e is_read refused = cc
  serve-refused mark (decr_request key) h e is_read refused = cc
  serve-refused mark (hset_request key field value ttl) h e is_read refused = cc
  serve-refused mark (hdelete_request key field) h e is_read refused = cc
  serve-refused mark (lpush_request key values ttl) h e is_read refused = cc
  serve-refused mark (rpush_request key values ttl) h e is_read refused = cc
  serve-refused mark (lpop_request key) h e is_read refused = cc
  serve-refused mark (rpop_request key) h e is_read refused = cc
  serve-refused mark (zadd_request key member score ttl) h e is_read refused = cc
  serve-refused mark (zrem_request key member) h e is_read refused = cc
  serve-refused mark (add_node_request a b) h e is_read refused = cc
  serve-refused mark (remove_node_request a) h e is_read refused = cc
  serve-refused mark ping_request h e is_read refused = cc

  -- The same services over a network that answers with `call`.
  unfoldable pub with_call :
      (Conn → Bool → KvRequest S → W → W × Rpc (KvResponse S)) → Services W S Conn
  with_call call = record sv { platform = record sv.platform { call = call } }

  send-marked :
      (call : Conn → Bool → KvRequest S → W → W × Rpc (KvResponse S)) (req : KvRequest S)
      (x : KvHandler W Conn × Option Conn)
      → ((conn : Conn) → call conn true ≡ sv.platform.call conn true)
      → send (with_call call) true req x ≡ send sv true req x
  unfolding send with_call
  send-marked call req (h, none) same = refl
  send-marked call req (h, some conn) same =
      ap
        (λ (f : KvRequest S → W → W × Rpc (KvResponse S)).
          (record h { world = (f req h.world).0 }, (f req h.world).1))
        (same conn)

  forward_read-marked :
      (call : Conn → Bool → KvRequest S → W → W × Rpc (KvResponse S)) (req : KvRequest S)
      (h : KvHandler W Conn)
      → ((conn : Conn) → call conn true ≡ sv.platform.call conn true)
      → forward_read (with_call call) false req h ≡ forward_read sv false req h
  unfolding forward_read with_call
  forward_read-marked call req h same =
      let (w, addr) = sv.raft.leader_addr h.world in
      let h' = record h { world = w } in
      elim (Bool-cases (bytes_eq addr [])) [
        | inl unknown ↦ rw unknown
        | inr known ↦ rw known (send-marked call req (get_leader_client sv addr h') same)
      ]

module _ {W S Conn : Type 0} (sv : Services W S Conn) where
  -- A read travels over one connection at most. A node whose check of its leadership fails answers
  -- a read that was sent on to it with Unavailable, and does nothing else; and a read that it sends
  -- on itself carries the mark that makes the receiver do the same: its answer only depends on what
  -- the connections do with marked requests. This holds for the ten requests that read.
  pub read_forwarded_once :
      (call : Conn → Bool → KvRequest S → W → W × Rpc (KvResponse S)) (req : KvRequest S)
      (h : KvHandler W Conn) (e : RaftError)
      → ((conn : Conn) → call conn true ≡ sv.platform.call conn true)
      → reads req ≡ true
      → (sv.raft.read_index h.world).1 ≡ some e
      → (serve sv true req h
          ≡ (record h { world = (sv.raft.read_index h.world).0 }, failure (status unavailable)))
        × (serve (with_call sv call) false req h ≡ serve sv false req h)
  unfolding forward_read with_call
  read_forwarded_once call req h e same is_read refused =
      let h' = record h { world = (sv.raft.read_index h.world).0 } in
      (
        serve-refused sv true req h e is_read refused,
        serve-refused (with_call sv call) false req h e is_read refused
            ∙ forward_read-marked sv call req h' same
            ∙ sym (serve-refused sv false req h e is_read refused),
      )
