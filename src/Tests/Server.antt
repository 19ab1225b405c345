-- ===== src/Tests/Server.antt =====
-- The server, internal/server/kv_handler.go, at concrete inputs: a cluster of one node, whose
-- protobuf writes each string with a zero behind it.
use kver.Prelude.{
  ℕ, zero, suc, ◌≡◌, refl, sym, ap, ◌∙◌, arith, Bytes, codes, bytes_eq, Bool, true, false, Option,
  none, some, List, [], ◌∷◌, if◌then◌else◌,
}
use kver.Prelude.Dict
use kver.Prelude.Int.{pos}
use kver.Raft.Types.{RaftError, not_leader, io_error}
use kver.Raft.Node.{leader}
use kver.Kv.Types.{KvError, ZsetOps}
use kver.Kv.Number.{parse_int, format_int, digits, read_number}
use kver.Kv.Store.{KvStore, new_kv_store, is_expired}
use kver.Kv.Strings
use kver.Kv.Reader.{Holds, kv_store_reader}
use kver.Kv.Apply.{
  CommandPayload, apply_payload, dispatch, to_upper, apply_set, apply_add, apply_lpush,
}
use kver.Kv.Apply.Expiring.{passed}
use kver.Server.Types.{
  answer, failure, status, remote, unavailable, not_found, set_request, get_request, incr_request,
  success, value, new_value, Services, KvHandler,
}
use kver.Server.Forward.{get_leader_client, forward_read, forward_write}
use kver.Server.Forward.Once.{reads, with_call, read_forwarded_once}
use kver.Server.Forward.Connected.{IsConnected, Dials}
use kver.Server.Writes.{set, incr, expiry_milli}
use kver.Server.Writes.EndToEnd.{
  is_write, deadline, ttl_ms, proposed_at, answered_at, Accepted, serve-effect,
}
use kver.Server.Reads.{get}
use kver.Server.Commands.{command, effect}
use kver.Server.Service.{serve}
use kver.Server.Service.Connected.{serve-IsConnected}
use kver.Server.Service.SetGet.{serve-set-get}

-- Sorted sets that hold nothing; a score is its own text.
abbrev no_sets : ZsetOps Unit Bytes
no_sets = record {
  empty = tt;
  insert = λ score member z. z;
  delete = λ member z. (z, false);
  search = λ member z. none;
  rank = λ member z. none;
  size = λ z. 0;
  range_by_rank = λ first last z. [];
  rev_range_by_rank = λ first last z. [];
  parse_score = λ text. some text;
  format_score = λ score. score;
}

write_string : Bytes → Bytes → Bytes
write_string [] rest = 0 ∷ rest
write_string (c ∷ text) rest = suc c ∷ write_string text rest

write_strings : List Bytes → Bytes
unfolding write_string
write_strings [] = []
write_strings (text ∷ texts) = write_string text (write_strings texts)

put_byte : ℕ → List Bytes → List Bytes
put_byte c [] = (c ∷ []) ∷ []
put_byte c (text ∷ texts) = (c ∷ text) ∷ texts

read_strings : Bytes → List Bytes
unfolding put_byte
read_strings [] = []
read_strings (zero ∷ rest) = [] ∷ read_strings rest
read_strings (suc c ∷ rest) = put_byte c (read_strings rest)

read_strings-write_string :
    (text rest : Bytes) → read_strings (write_string text rest) ≡ text ∷ read_strings rest
unfolding read_strings write_string
read_strings-write_string [] rest = refl
read_strings-write_string (c ∷ text) rest = rw (read_strings-write_string text rest)

read_strings-write_strings : (texts : List Bytes) → read_strings (write_strings texts) ≡ texts
unfolding read_strings write_strings
read_strings-write_strings [] = refl
read_strings-write_strings (text ∷ texts) =
    read_strings-write_string text (write_strings texts)
    ∙ ap (λ rest. text ∷ rest) (read_strings-write_strings texts)

payload_from : List Bytes → Option CommandPayload
payload_from [] = none
payload_from (op ∷ args) = some (record { op = op; args = args })

unmarshal : Bytes → Option CommandPayload
unfolding payload_from read_strings
unmarshal bytes = payload_from (read_strings bytes)

abbrev marshal : CommandPayload → Option Bytes
marshal p = some (write_strings (p.op ∷ p.args))

unmarshal-marshal :
    (p : CommandPayload) (bytes : Bytes) → marshal p ≡ some bytes → unmarshal bytes ≡ some p
unfolding unmarshal payload_from
unmarshal-marshal p bytes h =
    let same : write_strings (p.op ∷ p.args) ≡ bytes = cc in
    ap (λ b. payload_from (read_strings b)) (sym same)
    ∙ ap payload_from (read_strings-write_strings (p.op ∷ p.args))

-- The store of the node, and whether it leads.
record World : Type 0 where
  store : KvStore Unit
  leads : Bool

raft_error : Option KvError → Option RaftError
raft_error none = none
raft_error (some e) = some io_error

abbrev proposed : Bytes → World → World × Option RaftError
proposed bytes w =
    let (s, e) = apply_payload no_sets 7 (unmarshal bytes) w.store in
    (record w { store = s }, raft_error e)

abbrev holds : Holds World Unit
holds = record { kv = λ (w : World). w.store; put = λ s w. record w { store = s }; now = λ w. 9 }

abbrev services : Services World Bytes Bytes
services = record {
  raft = record {
    propose = proposed;
    is_leader = λ (w : World). (w, w.leads);
    propose_membership_change = λ change w. (w, none);
    read_index = λ (w : World). (w, if w.leads then none else some not_leader);
    leader_addr = λ w. (w, codes "n2:1");
    term = λ w. (w, 2);
    state = λ w. (w, leader);
    node_id = codes "n1";
  };
  kv_store = kv_store_reader no_sets holds;
  platform = record {
    new_client = λ addr w. (w, some addr);
    close = λ conn w. w;
    call = λ conn mark req w. (w, answer success);
    marshal = marshal;
    unix_milli = λ w. pos 1000;
    format_score = λ score. score;
    parse_int_left = λ text. pos 0;
  };
}

abbrev fresh : KvHandler World Bytes
fresh = record {
  world = record { store = new_kv_store; leads = true };
  fwd_addr = codes "n3:1";
  fwd_conn = some (codes "n3:1");
}

abbrev following : KvHandler World Bytes
following = record fresh { world = record fresh.world { leads = false } }

program : Unit {0}
unfolding serve set incr get get_leader_client forward_read forward_write kv_store_reader unmarshal
    write_strings apply_payload dispatch to_upper bytes_eq apply_set apply_add raft_error
    expiry_milli format_int parse_int Strings.get Strings.set Dict.get Dict.put Dict.remove Dict.has
    effect command apply_lpush reads is_write deadline ttl_ms proposed_at answered_at with_call
    is_expired digits read_number
program = tt

-- A counter; and a value whose time to live ends at 1500 ms.
server_runs :
    ((serve services false (incr_request (codes "k")) fresh).1 ≡ answer (new_value (pos 1)))
    × ((serve services false (set_request (codes "k") (codes "v") (pos 500)) fresh).1
        ≡ answer success)
    × ((serve services false (get_request (codes "k")) fresh).1 ≡ failure (status not_found))
    × ((serve services true (get_request (codes "k")) following).1 ≡ failure (status unavailable))
unfolding program
server_runs = (refl, refl, refl, refl)

abbrev stored : KvHandler World Bytes
stored = (serve services false (set_request (codes "k") (codes "v") (pos 500)) fresh).0

serve-set-get_example :
    ((proposed
        (write_strings
          (codes "SET" ∷ codes "k" ∷ codes "v" ∷ format_int (deadline (pos 1000) (pos 500)) ∷ []))
        fresh.world).1
      ≡ none)
    × ((serve services false (get_request (codes "k")) stored).1 ≡ (
        if passed 9 (deadline (pos 1000) (pos 500))
        then failure (status not_found)
        else answer (value (codes "v"))))
unfolding program
serve-set-get_example =
    serve-set-get services no_sets holds false false (codes "k") (codes "v")
      (write_strings
        (codes "SET" ∷ codes "k" ∷ codes "v" ∷ format_int (deadline (pos 1000) (pos 500)) ∷ []))
      (pos 500) success fresh stored unmarshal 7 new_kv_store refl unmarshal-marshal (omega arith)
      refl refl refl refl refl

serve-effect_example :
    (payload : CommandPayload) × ((u : World) × (Accepted services payload fresh.world u
        × ((stored.world ≡ u)
            × ((now : ℕ) (s : KvStore Unit)
                → apply_payload no_sets now (some payload) s
                  ≡ effect no_sets now
                      (deadline (pos 1000) (pos 500))
                      (set_request (codes "k") (codes "v") (pos 500))
                      s))))
unfolding program
serve-effect_example =
    serve-effect services no_sets false (set_request (codes "k") (codes "v") (pos 500)) success
      fresh (λ score. refl) refl (omega arith) refl refl

dials : Dials services (λ conn. conn)
dials addr w conn h = cc

fresh-IsConnected : IsConnected services (λ conn. conn) following
fresh-IsConnected conn h = cc

-- A write that is sent on to another leader than the one before.
serve-IsConnected_example :
    IsConnected services
      (λ conn. conn)
      (serve services false (set_request (codes "k") (codes "v") (pos 0)) following).0
serve-IsConnected_example =
    serve-IsConnected services (λ conn. conn) false (set_request (codes "k") (codes "v") (pos 0))
      following dials fresh-IsConnected

read_forwarded_once_example :
    (serve services true (get_request (codes "k")) following
      ≡ (following, failure (status unavailable)))
    × (serve
          (with_call services
            (λ conn mark req w. (w, if mark then answer success else failure remote)))
          false
          (get_request (codes "k"))
          following
        ≡ serve services false (get_request (codes "k")) following)
unfolding program
read_forwarded_once_example =
    read_forwarded_once services
      (λ conn mark req w. (w, if mark then answer success else failure remote))
      (get_request (codes "k")) following not_leader (λ conn. refl) refl refl
