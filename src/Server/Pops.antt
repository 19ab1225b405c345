-- ===== src/Server/Pops.antt =====
-- `LPop` and `RPop` of internal/server/kv_handler.go: the value is read before the command that
-- removes it is proposed.
use kver.Prelude.{Bytes, codes, Option, none, some, List, [], ◌∷◌}
use kver.Prelude.Int.{ℤ, pos, negsuc}
use kver.Raft.Types.{RaftError}
use kver.Kv.Types.{Reply, ok, err}
use kver.Server.Types.{
  Rpc, failure, status, not_found, passed_on, lpop_request, rpop_request, KvResponse, value,
  Services, KvHandler,
}
use kver.Server.Writes.{not_found_to_grpc, on_leader, run_command}

module _ {W S Conn : Type 0} (sv : Services W S Conn) where
  unfoldable pub pop_read :
      Bytes
      → Bytes
      → KvHandler W Conn
      → W × Reply (List Bytes)
      → KvHandler W Conn × Rpc (KvResponse S)
  unfolding run_command not_found_to_grpc
  pop_read op key h (w, err e) = (record h { world = w }, failure (not_found_to_grpc e))
  pop_read op key h (w, ok []) = (record h { world = w }, failure (status not_found))
  pop_read op key h (w, ok (found ∷ rest)) =
      run_command sv op (key ∷ []) (value found) (record h { world = w })

  unfoldable pub pop_checked :
      Bytes
      → ℤ
      → Bytes
      → KvHandler W Conn
      → W × Option RaftError
      → KvHandler W Conn × Rpc (KvResponse S)
  unfolding pop_read
  pop_checked op at key h (w, some e) = (record h { world = w }, failure (passed_on e))
  pop_checked op at key h (w, none) = pop_read op key h (sv.kv_store.lrange key at at w)

  -- The command's name, and where the value stands.
  unfoldable pub pop_at :
      Bytes → ℤ → Bytes → KvHandler W Conn → KvHandler W Conn × Rpc (KvResponse S)
  unfolding pop_checked
  pop_at op at key h = pop_checked op at key h (sv.raft.read_index h.world)

  unfoldable pub lpop : Bytes → KvHandler W Conn → KvHandler W Conn × Rpc (KvResponse S)
  unfolding on_leader pop_at
  lpop key = on_leader sv (lpop_request key) (pop_at (codes "LPOP") (pos 0) key)

  unfoldable pub rpop : Bytes → KvHandler W Conn → KvHandler W Conn × Rpc (KvResponse S)
  unfolding on_leader pop_at
  rpop key = on_leader sv (rpop_request key) (pop_at (codes "RPOP") (negsuc 0) key)
