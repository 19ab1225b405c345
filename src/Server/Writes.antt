-- ===== src/Server/Writes.antt =====
-- The handlers that write through the Raft log: internal/server/kv_handler.go.
pub mod EndToEnd
use kver.Prelude.{
  ℕ, Bytes, codes, Bool, true, false, Option, none, some, List, [], ◌∷◌, ◌++◌, ltb, if◌then◌else◌,
}
use kver.Prelude.Int.{ℤ, pos, negsuc}
use kver.Raft.Types.{RaftError, not_leader, propose_channel_full}
use kver.Kv.Types.{KvError, Reply, ok, err, key_not_found, wrong_type}
use kver.Kv.Number.{parse_int, format_int, add_int}
use kver.Kv.Apply.{CommandPayload}
use kver.Server.Types.{
  Rpc, RpcError, answer, failure, status, failed_precondition, resource_exhausted, internal,
  not_found, KvRequest, set_request, delete_request, incr_request, decr_request, hset_request,
  hdelete_request, lpush_request, rpush_request, zadd_request, zrem_request, KvResponse, success,
  count, new_value, Services, KvHandler,
}
use kver.Server.Forward.{forward_write}

-- The answer of `propose` to an error of the Raft node.
unfoldable pub propose_error : RaftError → RpcError
propose_error not_leader = status failed_precondition
propose_error propose_channel_full = status resource_exhausted
propose_error _ = status internal

-- notFoundToGRPC
unfoldable pub not_found_to_grpc : KvError → RpcError
not_found_to_grpc key_not_found = status not_found
not_found_to_grpc wrong_type = status failed_precondition
not_found_to_grpc _ = status internal

-- The expiry time of a write: int64 wraps around.
unfoldable pub expiry_milli : ℤ → ℤ → ℤ
unfolding add_int
expiry_milli now (negsuc n) = pos 0
expiry_milli now (pos n) = if ltb 0 n then add_int now (pos n) else pos 0

-- strconv.ParseInt with its error dropped; beside an error it returns `left`.
unfoldable pub parsed_or : ℤ → Option ℤ → ℤ
parsed_or left none = left
parsed_or left (some n) = n

-- The values between the key and the expiry time.
unfoldable pub push_args : Bytes → List Bytes → Bytes → List Bytes
push_args key values expiry = (key ∷ values) ++ expiry ∷ []

module _ {W S Conn : Type 0} (sv : Services W S Conn) where
  propose_bytes : Option Bytes → W → W × Option RpcError
  unfolding propose_error
  propose_bytes none w = (w, some (status internal))
  propose_bytes (some bytes) w =
      let (w', result) = sv.raft.propose bytes w in
      (w', elim result [ none ↦ none | some e ↦ some (propose_error e) ])

  unfoldable pub propose :
      Bytes → List Bytes → KvHandler W Conn → KvHandler W Conn × Option RpcError
  unfolding propose_bytes
  propose op args h =
      let (w, e) = propose_bytes (sv.platform.marshal (record { op = op; args = args })) h.world in
      (record h { world = w }, e)

  -- What every handler that writes begins with: a node that does not lead sends the request on.
  unfoldable pub on_leader :
      KvRequest S
      → (KvHandler W Conn → KvHandler W Conn × Rpc (KvResponse S))
      → KvHandler W Conn
      → KvHandler W Conn × Rpc (KvResponse S)
  unfolding forward_write
  on_leader req act h =
      let (w, leads) = sv.raft.is_leader h.world in
      let h' = record h { world = w } in if leads then act h' else forward_write sv req h'

  unfoldable pub reply_with :
      KvResponse S → KvHandler W Conn × Option RpcError → KvHandler W Conn × Rpc (KvResponse S)
  reply_with resp (h, none) = (h, answer resp)
  reply_with resp (h, some e) = (h, failure e)

  -- A command and the answer to it.
  unfoldable pub run_command :
      Bytes → List Bytes → KvResponse S → KvHandler W Conn → KvHandler W Conn × Rpc (KvResponse S)
  unfolding propose reply_with
  run_command op args resp h = reply_with resp (propose op args h)

  -- The expiry time as the last argument.
  unfoldable pub expiry_arg : ℤ → KvHandler W Conn → Bytes
  unfolding expiry_milli format_int
  expiry_arg ttl_ms h = format_int (expiry_milli (sv.platform.unix_milli h.world) ttl_ms)

  unfoldable pub set : Bytes → Bytes → ℤ → KvHandler W Conn → KvHandler W Conn × Rpc (KvResponse S)
  unfolding on_leader run_command expiry_arg
  set key value ttl_ms =
      on_leader (set_request key value ttl_ms)
        λ h. run_command (codes "SET") (key ∷ value ∷ expiry_arg ttl_ms h ∷ []) success h

  unfoldable pub delete : Bytes → KvHandler W Conn → KvHandler W Conn × Rpc (KvResponse S)
  unfolding on_leader run_command
  delete key = on_leader (delete_request key) (run_command (codes "DEL") (key ∷ []) success)

  unfoldable pub counter_answer :
      KvHandler W Conn → W × Reply Bytes → KvHandler W Conn × Rpc (KvResponse S)
  unfolding not_found_to_grpc parsed_or parse_int
  counter_answer h (w, err e) = (record h { world = w }, failure (not_found_to_grpc e))
  counter_answer h (w, ok text) = (
    record h { world = w },
    answer (new_value (parsed_or (sv.platform.parse_int_left text) (parse_int text))),
  )

  -- The new value is read back when the command has been applied.
  unfoldable pub read_counter :
      Bytes → KvHandler W Conn × Option RpcError → KvHandler W Conn × Rpc (KvResponse S)
  unfolding counter_answer
  read_counter key (h, some e) = (h, failure e)
  read_counter key (h, none) = counter_answer h (sv.kv_store.get key h.world)

  unfoldable pub incr : Bytes → KvHandler W Conn → KvHandler W Conn × Rpc (KvResponse S)
  unfolding on_leader propose read_counter
  incr key =
      on_leader (incr_request key) λ h. read_counter key (propose (codes "INCR") (key ∷ []) h)

  unfoldable pub decr : Bytes → KvHandler W Conn → KvHandler W Conn × Rpc (KvResponse S)
  unfolding on_leader propose read_counter
  decr key =
      on_leader (decr_request key) λ h. read_counter key (propose (codes "DECR") (key ∷ []) h)

  unfoldable pub hset :
      Bytes → Bytes → Bytes → ℤ → KvHandler W Conn → KvHandler W Conn × Rpc (KvResponse S)
  unfolding on_leader run_command expiry_arg
  hset key field value ttl_ms =
      on_leader (hset_request key field value ttl_ms)
        λ h. run_command (codes "HSET") (key ∷ field ∷ value ∷ expiry_arg ttl_ms h ∷ []) success h

  unfoldable pub hdelete : Bytes → Bytes → KvHandler W Conn → KvHandler W Conn × Rpc (KvResponse S)
  unfolding on_leader run_command
  hdelete key field =
      on_leader (hdelete_request key field) (run_command (codes "HDEL") (key ∷ field ∷ []) success)

  unfoldable pub lpush :
      Bytes → List Bytes → ℤ → KvHandler W Conn → KvHandler W Conn × Rpc (KvResponse S)
  unfolding on_leader run_command expiry_arg push_args
  lpush key values ttl_ms =
      on_leader (lpush_request key values ttl_ms)
        λ h. run_command (codes "LPUSH") (push_args key values (expiry_arg ttl_ms h)) (count 0) h

  unfoldable pub rpush :
      Bytes → List Bytes → ℤ → KvHandler W Conn → KvHandler W Conn × Rpc (KvResponse S)
  unfolding on_leader run_command expiry_arg push_args
  rpush key values ttl_ms =
      on_leader (rpush_request key values ttl_ms)
        λ h. run_command (codes "RPUSH") (push_args key values (expiry_arg ttl_ms h)) (count 0) h

  unfoldable pub zadd :
      Bytes → Bytes → S → ℤ → KvHandler W Conn → KvHandler W Conn × Rpc (KvResponse S)
  unfolding on_leader run_command expiry_arg
  zadd key member score ttl_ms = on_leader (zadd_request key member score ttl_ms) λ h.
      run_command (codes "ZADD")
        (key ∷ sv.platform.format_score score ∷ member ∷ expiry_arg ttl_ms h ∷ []) success h

  unfoldable pub zrem : Bytes → Bytes → KvHandler W Conn → KvHandler W Conn × Rpc (KvResponse S)
  unfolding on_leader run_command
  zrem key member =
      on_leader (zrem_request key member) (run_command (codes "ZREM") (key ∷ member ∷ []) success)
