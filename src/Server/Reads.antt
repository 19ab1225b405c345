-- ===== src/Server/Reads.antt =====
-- The handlers that read the local store: internal/server/kv_handler.go. `forwarded` tells that the
-- request has been sent on by another node.
use kver.Prelude.{Bytes, Bool, Option, none, some}
use kver.Prelude.Int.{ℤ}
use kver.Raft.Types.{RaftError}
use kver.Kv.Types.{Reply, ok, err}
use kver.Server.Types.{
  Rpc, answer, failure, KvRequest, get_request, hget_request, hget_all_request, hexists_request,
  lrange_request, llen_request, zscore_request, zrank_request, zrange_request, zrev_range_request,
  KvResponse, value, fields, exists, count, values, score, rank, members, Services, KvHandler,
}
use kver.Server.Forward.{forward_read}
use kver.Server.Writes.{not_found_to_grpc}

module _ {W S Conn : Type 0} (sv : Services W S Conn) where
  -- The answer to what the store replies.
  unfoldable pub from_store :
      {A : Type 0}
      → (A → KvResponse S)
      → KvHandler W Conn
      → W × Reply A
      → KvHandler W Conn × Rpc (KvResponse S)
  unfolding not_found_to_grpc
  from_store wrap h (w, ok a) = (record h { world = w }, answer (wrap a))
  from_store wrap h (w, err e) = (record h { world = w }, failure (not_found_to_grpc e))

  unfoldable pub after_read_index :
      {A : Type 0}
      → Bool
      → KvRequest S
      → (W → W × Reply A)
      → (A → KvResponse S)
      → KvHandler W Conn
      → W × Option RaftError
      → KvHandler W Conn × Rpc (KvResponse S)
  unfolding forward_read from_store
  after_read_index forwarded req read wrap h (w, none) = from_store wrap h (read w)
  after_read_index forwarded req read wrap h (w, some e) =
      forward_read sv forwarded req (record h { world = w })

  -- What every handler that reads consists of: the check that the node still leads, and the read of
  -- its store; where the check fails the request is sent on.
  unfoldable pub linearizable :
      {A : Type 0}
      → Bool
      → KvRequest S
      → (W → W × Reply A)
      → (A → KvResponse S)
      → KvHandler W Conn
      → KvHandler W Conn × Rpc (KvResponse S)
  unfolding after_read_index
  linearizable forwarded req read wrap h =
      after_read_index forwarded req read wrap h (sv.raft.read_index h.world)

  unfoldable pub get : Bool → Bytes → KvHandler W Conn → KvHandler W Conn × Rpc (KvResponse S)
  unfolding linearizable
  get forwarded key = linearizable forwarded (get_request key) (sv.kv_store.get key) value

  unfoldable pub hget :
      Bool → Bytes → Bytes → KvHandler W Conn → KvHandler W Conn × Rpc (KvResponse S)
  unfolding linearizable
  hget forwarded key field =
      linearizable forwarded (hget_request key field) (sv.kv_store.hget key field) value

  unfoldable pub hget_all : Bool → Bytes → KvHandler W Conn → KvHandler W Conn × Rpc (KvResponse S)
  unfolding linearizable
  hget_all forwarded key =
      linearizable forwarded (hget_all_request key) (sv.kv_store.hget_all key) fields

  unfoldable pub hexists :
      Bool → Bytes → Bytes → KvHandler W Conn → KvHandler W Conn × Rpc (KvResponse S)
  unfolding linearizable
  hexists forwarded key field =
      linearizable forwarded (hexists_request key field) (sv.kv_store.hexists key field) exists

  unfoldable pub lrange :
      Bool → Bytes → ℤ → ℤ → KvHandler W Conn → KvHandler W Conn × Rpc (KvResponse S)
  unfolding linearizable
  lrange forwarded key start stop =
      linearizable forwarded (lrange_request key start stop) (sv.kv_store.lrange key start stop)
        values

  unfoldable pub llen : Bool → Bytes → KvHandler W Conn → KvHandler W Conn × Rpc (KvResponse S)
  unfolding linearizable
  llen forwarded key = linearizable forwarded (llen_request key) (sv.kv_store.llen key) count

  unfoldable pub zscore :
      Bool → Bytes → Bytes → KvHandler W Conn → KvHandler W Conn × Rpc (KvResponse S)
  unfolding linearizable
  zscore forwarded key member =
      linearizable forwarded (zscore_request key member) (sv.kv_store.zscore key member) score

  unfoldable pub zrank :
      Bool → Bytes → Bytes → KvHandler W Conn → KvHandler W Conn × Rpc (KvResponse S)
  unfolding linearizable
  zrank forwarded key member =
      linearizable forwarded (zrank_request key member) (sv.kv_store.zrank key member) rank

  unfoldable pub zrange :
      Bool → Bytes → ℤ → ℤ → Bool → KvHandler W Conn → KvHandler W Conn × Rpc (KvResponse S)
  unfolding linearizable
  zrange forwarded key start stop with_scores =
      linearizable forwarded (zrange_request key start stop with_scores)
        (sv.kv_store.zrange key start stop with_scores) members

  unfoldable pub zrev_range :
      Bool → Bytes → ℤ → ℤ → Bool → KvHandler W Conn → KvHandler W Conn × Rpc (KvResponse S)
  unfolding linearizable
  zrev_range forwarded key start stop with_scores =
      linearizable forwarded (zrev_range_request key start stop with_scores)
        (sv.kv_store.zrev_range key start stop with_scores) members
