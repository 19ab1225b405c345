-- ===== src/Server/Types.antt =====
-- The interfaces that `KVHandler` of internal/server/kv_handler.go works with, and its state. The
-- requests and answers are the messages of proto/kv; an error is a gRPC status without its text,
-- or an error of the Raft node that is passed on as it is.
use kver.Prelude.{ℕ, Bytes, Bool, Option, List}
use kver.Prelude.Dict.{Dict}
use kver.Prelude.Int.{ℤ}
use kver.Raft.Types.{RaftError}
use kver.Raft.Node.{NodeState}
use kver.Raft.Membership.{MembershipChange}
use kver.Kv.Reader.{KvReader}
use kver.Kv.Apply.{CommandPayload}

-- google.golang.org/grpc/codes
pub data Code : Type 0 where
  not_found failed_precondition unavailable resource_exhausted internal : Code

pub data RpcError : Type 0 where
  status : Code → RpcError
  passed_on : RaftError → RpcError
  -- an error of the network, or of the other side
  remote : RpcError

pub data Rpc (A : Type 0) : Type 0 where
  answer : A → Rpc A
  failure : RpcError → Rpc A

-- The requests, with their fields in the order of the messages. The times to live are in
-- milliseconds.
pub data KvRequest (S : Type 0) : Type 0 where
  set_request : (key value : Bytes) → (ttl_ms : ℤ) → KvRequest S
  get_request delete_request incr_request decr_request : (key : Bytes) → KvRequest S
  hset_request : (key field value : Bytes) → (ttl_ms : ℤ) → KvRequest S
  hget_request hdelete_request hexists_request : (key field : Bytes) → KvRequest S
  hget_all_request : (key : Bytes) → KvRequest S
  lpush_request rpush_request : (key : Bytes) → (values : List Bytes) → (ttl_ms : ℤ) → KvRequest S
  lpop_request rpop_request llen_request : (key : Bytes) → KvRequest S
  lrange_request : (key : Bytes) → (start stop : ℤ) → KvRequest S
  zadd_request : (key member : Bytes) → (score : S) → (ttl_ms : ℤ) → KvRequest S
  zscore_request zrank_request zrem_request : (key member : Bytes) → KvRequest S
  zrange_request zrev_range_request :
      (key : Bytes) → (start stop : ℤ) → (with_scores : Bool) → KvRequest S
  add_node_request : (node_id address : Bytes) → KvRequest S
  remove_node_request : (node_id : Bytes) → KvRequest S
  ping_request : KvRequest S

pub data KvResponse (S : Type 0) : Type 0 where
  success : KvResponse S
  value : Bytes → KvResponse S
  new_value : ℤ → KvResponse S
  fields : Dict Bytes → KvResponse S
  exists : Bool → KvResponse S
  count : ℕ → KvResponse S
  values : List Bytes → KvResponse S
  score : S → KvResponse S
  rank : ℕ → KvResponse S
  members : List Bytes → KvResponse S
  pong : (node_id : Bytes) → (state : NodeState) → (term : ℕ) → KvResponse S

-- RaftProposer, on whatever state `W` the node and all around it have. A call can find that state
-- changed by other goroutines, and returns it as it stands afterwards.
pub record RaftProposer (W : Type 0) : Type 0 where
  pub propose : Bytes → W → W × Option RaftError
  pub is_leader : W → W × Bool
  pub propose_membership_change : MembershipChange → W → W × Option RaftError
  pub read_index : W → W × Option RaftError
  pub leader_addr : W → W × Bytes
  pub term : W → W × ℕ
  pub state : W → W × NodeState
  pub node_id : Bytes

-- What the handlers use of gRPC, protobuf, strconv and the clock. `call` sends a request over a
-- connection; its flag is the mark of a forwarded read in the context. `parse_int_left` is the
-- number that strconv.ParseInt returns beside an error.
pub record Platform (W S Conn : Type 0) : Type 0 where
  pub new_client : Bytes → W → W × Option Conn
  pub close : Conn → W → W
  pub call : Conn → Bool → KvRequest S → W → W × Rpc (KvResponse S)
  pub marshal : CommandPayload → Option Bytes
  pub unix_milli : W → ℤ
  pub format_score : S → Bytes
  pub parse_int_left : Bytes → ℤ

pub record Services (W S Conn : Type 0) : Type 0 where
  pub raft : RaftProposer W
  pub kv_store : KvReader W S
  pub platform : Platform W S Conn

-- KVHandler, with the state of what its interfaces stand for.
pub record KvHandler (W Conn : Type 0) : Type 0 where
  pub world : W
  pub fwd_addr : Bytes
  pub fwd_conn : Option Conn
