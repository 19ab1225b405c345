-- ===== src/Server/Service/SetGet.antt =====
-- A SET and a later GET, from the requests to the answers (internal/server/kv_handler.go over
-- internal/kvstore).
use kver.Prelude.{
  ℕ, ◌≡◌, refl, sym, ap, ◌∙◌, Bytes, Bool, true, false, Option, none, some, [], ◌∷◌, codes,
  bytes_eq, if◌then◌else◌,
}
use kver.Prelude.Int.{ℤ}
use kver.Kv.Types.{KvError, Reply, ok, err, key_not_found, ZsetOps}
use kver.Kv.Number.{format_int}
use kver.Kv.Number.RoundTrip.{IsInt}
use kver.Kv.Store.{KvStore}
use kver.Kv.Strings
use kver.Kv.Reader.{KvReader, Holds, read_with, kv_store_reader}
use kver.Kv.Apply.{CommandPayload, apply_payload, dispatch, to_upper, apply_set, parse_absolute_ms}
use kver.Kv.Apply.Expiring.{passed, apply_set-get}
use kver.Server.Types.{
  Rpc, answer, failure, status, not_found, set_request, get_request, KvResponse, value, Services,
  KvHandler,
}
use kver.Server.Writes.{expiry_arg, not_found_to_grpc}
use kver.Server.Writes.EndToEnd.{
  ttl_ms, deadline, expiry_milli-deadline, proposed_at, Sent, serve-Sent,
}
use kver.Server.Reads.{get, linearizable, from_store}
use kver.Server.Commands.{command, expiry-parse}
use kver.Server.Service.{serve}

-- The command that a SET proposes.
abbrev pub set_payload : Bytes → Bytes → ℤ → CommandPayload
set_payload key text ms = record { op = codes "SET"; args = key ∷ text ∷ format_int ms ∷ [] }

apply_payload-apply_set :
    {Z S : Type 0} (ops : ZsetOps Z S) (now : ℕ) (key text : Bytes) (ms : ℤ) (s : KvStore Z)
    → apply_payload ops now (some (set_payload key text ms)) s
      ≡ apply_set now (key ∷ text ∷ format_int ms ∷ []) s
unfolding apply_payload dispatch to_upper bytes_eq
apply_payload-apply_set ops now key text ms s = refl

module _ {W S Conn Z : Type 0} (sv : Services W S Conn) (ops : ZsetOps Z S)
    (holds : Holds W Z) where
  -- The answer to a read of a string.
  string_answer : Reply Bytes → Rpc (KvResponse S)
  string_answer (ok text) = answer (value text)
  string_answer (err e) = failure (not_found_to_grpc e)

  from_store-answer :
      (h : KvHandler W Conn) (x : W × Reply Bytes) → (from_store sv value h x).1 ≡ string_answer x.1
  unfolding from_store string_answer
  from_store-answer h (w, ok text) = refl
  from_store-answer h (w, err e) = refl

  string_answer-passed :
      (b : Bool) (text : Bytes)
      → string_answer (if b then err key_not_found else ok text)
        ≡ (if b then failure (status not_found) else answer (value text))
  unfolding string_answer not_found_to_grpc
  string_answer-passed true text = refl
  string_answer-passed false text = refl

  get-answer :
      (mark : Bool) (key : Bytes) (h : KvHandler W Conn)
      → sv.kv_store ≡ kv_store_reader ops holds
      → (sv.raft.read_index h.world).1 ≡ none
      → (get sv mark key h).1
        ≡ string_answer
            (Strings.get
              (holds.now (sv.raft.read_index h.world).0)
              key
              (holds.kv (sv.raft.read_index h.world).0)).1
  unfolding get linearizable kv_store_reader read_with
  get-answer mark key h reader leads =
      let w = (sv.raft.read_index h.world).0 in
      let read = ap (λ (r : KvReader W S). (r.get key w).1) reader in
      rw leads (from_store-answer h (sv.kv_store.get key w) ∙ ap string_answer read)

module _ {W S Conn Z : Type 0} (sv : Services W S Conn) (ops : ZsetOps Z S)
    (holds : Holds W Z) where
  -- A value that a leader accepts is the value that a later GET answers: a SET that a leader
  -- answers without an error has proposed its bytes, and they were accepted; and where the last
  -- command that the state machine of a node applied is the one that these bytes decode to, applied
  -- without an error, that node, once its check of its leadership succeeds, answers a GET of the
  -- key with the value, until the time of the SET plus its time to live has passed by the clock of
  -- the node, and with NotFound from then on; a time to live that is not positive never passes. The
  -- end of the time to live fits int64, what protobuf writes it reads back, and the handlers read
  -- the store of their node.
  pub serve-set-get :
      (mark again : Bool) (key text bytes : Bytes) (ttl : ℤ) (r : KvResponse S)
      (h g : KvHandler W Conn) (unmarshal : Bytes → Option CommandPayload) (now : ℕ) (s : KvStore Z)
      → sv.kv_store ≡ kv_store_reader ops holds
      → ((p : CommandPayload) (b : Bytes) → sv.platform.marshal p ≡ some b → unmarshal b ≡ some p)
      → IsInt (deadline (sv.platform.unix_milli (sv.raft.is_leader h.world).0) ttl)
      → sv.platform.marshal (
          set_payload key text
            (deadline (sv.platform.unix_milli (sv.raft.is_leader h.world).0) ttl))
        ≡ some bytes
      → (sv.raft.is_leader h.world).1 ≡ true
      → (serve sv mark (set_request key text ttl) h).1 ≡ answer r
      → (sv.raft.read_index g.world).1 ≡ none
      → apply_payload ops now (unmarshal bytes) s ≡ (holds.kv (sv.raft.read_index g.world).0, none)
      → ((sv.raft.propose bytes (sv.raft.is_leader h.world).0).1 ≡ none)
        × ((serve sv again (get_request key) g).1 ≡ (
            if passed
              (holds.now (sv.raft.read_index g.world).0)
              (deadline (sv.platform.unix_milli (sv.raft.is_leader h.world).0) ttl)
            then failure (status not_found)
            else answer (value text)))
  unfolding serve Sent command proposed_at ttl_ms expiry_arg
  serve-set-get mark again key text bytes ttl r h g unmarshal now s reader decodes int encodes leads
        same still applied =
      let now_ms = sv.platform.unix_milli (sv.raft.is_leader h.world).0 in
      let ms = deadline now_ms ttl in
      let later = holds.now (sv.raft.read_index g.world).0 in
      let (u, ((sent, marshalled, accepted, ends), answers)) =
        serve-Sent sv mark (set_request key text ttl) r h leads same in
      let known =
        ap (λ t. sv.platform.marshal (set_payload key text t))
          (expiry_milli-deadline now_ms ttl int) in
      let sent_bytes : sent ≡ bytes = cc in
      let args = format_int ms ∷ [] in
      let done =
        sym (apply_payload-apply_set ops now key text ms s)
        ∙ ap (λ p. apply_payload ops now p s)
            (sym (decodes (set_payload key text ms) bytes encodes))
        ∙ applied in
      let found =
        apply_set-get key now text args s (ap (λ (x : KvStore Z × Option KvError). x.1) done)
          later in
      (
        ap (λ b. (sv.raft.propose b (sv.raft.is_leader h.world).0).1) (sym sent_bytes) ∙ accepted,
        get-answer sv ops holds again key g reader still
            ∙ ap (λ t. string_answer sv ops holds (Strings.get later key t).1)
                (sym (ap (λ (x : KvStore Z × Option KvError). x.0) done))
            ∙ ap (string_answer sv ops holds) found
            ∙ string_answer-passed sv ops holds (passed later (parse_absolute_ms args)) text
            ∙ ap (λ t. if passed later t then failure (status not_found) else answer (value text))
                (expiry-parse ms int),
      )
