-- ===== src/Server/Service.antt =====
-- The service of internal/server/kv_handler.go: which handler answers a request.
pub mod Connected
pub mod SetGet
use kver.Prelude.{Bool}
use kver.Server.Types.{
  Rpc, KvRequest, set_request, get_request, delete_request, incr_request, decr_request,
  hset_request, hget_request, hdelete_request, hexists_request, hget_all_request, lpush_request,
  rpush_request, lpop_request, rpop_request, llen_request, lrange_request, zadd_request,
  zscore_request, zrank_request, zrem_request, zrange_request, zrev_range_request, add_node_request,
  remove_node_request, ping_request, KvResponse, Services, KvHandler,
}
use kver.Server.Writes.{set, delete, incr, decr, hset, hdelete, lpush, rpush, zadd, zrem}
use kver.Server.Reads.{
  get, hget, hget_all, hexists, lrange, llen, zscore, zrank, zrange, zrev_range,
}
use kver.Server.Pops.{lpop, rpop}
use kver.Server.Members.{add_node, remove_node, ping}

module _ {W S Conn : Type 0} (sv : Services W S Conn) where
  -- A request with the mark of a forwarded read, or without it.
  unfoldable pub serve :
      Bool → KvRequest S → KvHandler W Conn → KvHandler W Conn × Rpc (KvResponse S)
  unfolding set delete incr decr hset hdelete lpush rpush zadd zrem get hget hget_all hexists lrange
      llen zscore zrank zrange zrev_range lpop rpop add_node remove_node ping
  serve mark (set_request key value ttl_ms) = set sv key value ttl_ms
  serve mark (get_request key) = get sv mark key
  serve mark (delete_request key) = delete sv key
  serve mark (incr_request key) = incr sv key
  serve mark (decr_request key) = decr sv key
  serve mark (hset_request key field value ttl_ms) = hset sv key field value ttl_ms
  serve mark (hget_request key field) = hget sv mark key field
  serve mark (hdelete_request key field) = hdelete sv key field
  serve mark (hexists_request key field) = hexists sv mark key field
  serve mark (hget_all_request key) = hget_all sv mark key
  serve mark (lpush_request key values ttl_ms) = lpush sv key values ttl_ms
  serve mark (rpush_request key values ttl_ms) = rpush sv key values ttl_ms
  serve mark (lpop_request key) = lpop sv key
  serve mark (rpop_request key) = rpop sv key
  serve mark (llen_request key) = llen sv mark key
  serve mark (lrange_request key start stop) = lrange sv mark key start stop
  serve mark (zadd_request key member score ttl_ms) = zadd sv key member score ttl_ms
  serve mark (zscore_request key member) = zscore sv mark key member
  serve mark (zrank_request key member) = zrank sv mark key member
  serve mark (zrem_request key member) = zrem sv key member
  serve mark (zrange_request key start stop with_scores) = zrange sv mark key start stop with_scores
  serve mark (zrev_range_request key start stop with_scores) =
      zrev_range sv mark key start stop with_scores
  serve mark (add_node_request node_id address) = add_node sv node_id address
  serve mark (remove_node_request node_id) = remove_node sv node_id
  serve mark ping_request = ping sv
