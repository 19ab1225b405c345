-- ===== src/Server/Writes/EndToEnd.antt =====
-- A write from the request to its effect: what `KVHandler` of internal/server/kv_handler.go
-- proposes to the Raft node, and what `Apply` of internal/kvstore/store.go makes of it.
use kver.Prelude.{
  ℕ, zero, suc, ◌≡◌, refl, sym, ap, subst, ◌∙◌, arith, Bytes, Bool, true, false, Option, none, some,
  List, [], ◌∷◌, codes, ltb, if◌then◌else◌,
}
use kver.Prelude.Int.{ℤ, pos, negsuc, ◌+ℤ◌}
use kver.Raft.Types.{RaftError}
use kver.Kv.Types.{Reply, ok, err, ZsetOps}
use kver.Kv.Number.{format_int, add_int}
use kver.Kv.Number.RoundTrip.{IsInt}
use kver.Kv.Strings.Counter.{add_int_exact}
use kver.Kv.Store.{KvStore}
use kver.Kv.Apply.{CommandPayload, apply_payload}
use kver.Server.Types.{
  RpcError, Rpc, answer, KvRequest, set_request, get_request, delete_request, incr_request,
  decr_request, hset_request, hget_request, hdelete_request, hexists_request, hget_all_request,
  lpush_request, rpush_request, lpop_request, rpop_request, llen_request, lrange_request,
  zadd_request, zscore_request, zrank_request, zrem_request, zrange_request, zrev_range_request,
  add_node_request, remove_node_request, ping_request, KvResponse, success, count, value, Services,
  KvHandler,
}
use kver.Server.Writes.{
  propose_error, propose_bytes, reply_with, expiry_milli, expiry_arg, propose, run_command,
  counter_answer, read_counter, set, delete, incr, decr, hset, hdelete, lpush, rpush, zadd, zrem,
}
use kver.Server.Pops.{pop_read, pop_checked, pop_at, lpop, rpop}
use kver.Server.Service.{serve}
use kver.Server.Commands.{command, effect, command-effect}

-- The requests that write.
unfoldable pub is_write : {S : Type 0} → KvRequest S → Bool
is_write (set_request key text ttl) = true
is_write (delete_request key) = true
is_write (incr_request key) = true
is_write (decr_request key) = true
is_write (hset_request key field text ttl) = true
is_write (hdelete_request key field) = true
is_write (lpush_request key values ttl) = true
is_write (rpush_request key values ttl) = true
is_write (lpop_request key) = true
is_write (rpop_request key) = true
is_write (zadd_request key member score ttl) = true
is_write (zrem_request key member) = true
is_write _ = false

-- The time to live that a request asks for, in milliseconds.
unfoldable pub ttl_ms : {S : Type 0} → KvRequest S → ℤ
ttl_ms (set_request key text ttl) = ttl
ttl_ms (hset_request key field text ttl) = ttl
ttl_ms (lpush_request key values ttl) = ttl
ttl_ms (rpush_request key values ttl) = ttl
ttl_ms (zadd_request key member score ttl) = ttl
ttl_ms _ = pos 0

-- When a value goes that is written at a time with a time to live, in milliseconds; 0 is never.
unfoldable pub deadline : ℤ → ℤ → ℤ
deadline now (negsuc n) = pos 0
deadline now (pos zero) = pos 0
deadline now (pos (suc n)) = now +ℤ pos (suc n)

pub expiry_milli-deadline :
    (now ttl : ℤ) → IsInt (deadline now ttl) → expiry_milli now ttl ≡ deadline now ttl
unfolding expiry_milli deadline
expiry_milli-deadline now (negsuc n) int = refl
expiry_milli-deadline now (pos zero) int = refl
expiry_milli-deadline now (pos (suc n)) int =
    let positive : ltb 0 (suc n) ≡ true = ground arith in
    ap (λ (b : Bool). if b then add_int now (pos (suc n)) else pos 0) positive
    ∙ add_int_exact now (pos (suc n)) int

unmapped :
    (e : Option RaftError)
    → elim e as (λ _. Option RpcError) [ none ↦ none | some r ↦ some (propose_error r) ] ≡ none
    → e ≡ none
unmapped none h = refl
unmapped (some e) h = cc

module _ {W S Conn : Type 0} (sv : Services W S Conn) where
  -- Where the command of a request is proposed: after the test of the leadership, and for a pop
  -- after the read of the value.
  unfoldable pub proposed_at : KvRequest S → W → W
  proposed_at (lpop_request key) w =
      (sv.kv_store.lrange key (pos 0) (pos 0) (sv.raft.read_index (sv.raft.is_leader w).0).0).0
  proposed_at (rpop_request key) w =
      (sv.kv_store.lrange key (negsuc 0) (negsuc 0)
        (sv.raft.read_index (sv.raft.is_leader w).0).0).0
  proposed_at _ w = (sv.raft.is_leader w).0

  -- What happens behind the proposal: a counter is read back.
  unfoldable pub answered_at : KvRequest S → W → W
  answered_at (incr_request key) w = (sv.kv_store.get key w).0
  answered_at (decr_request key) w = (sv.kv_store.get key w).0
  answered_at _ w = w

  -- The bytes of the command have been proposed in `w` and accepted, with `v` after it.
  abbrev pub Accepted : CommandPayload → W → W → Type 0
  Accepted payload w v =
      (bytes : Bytes) × (sv.platform.marshal payload ≡ some bytes)
      × ((sv.raft.propose bytes w).1 ≡ none)
      × (v ≡ (sv.raft.propose bytes w).0)

  propose_bytes-Accepted :
      (payload : CommandPayload) (b : Option Bytes) (w : W)
      → sv.platform.marshal payload ≡ b
      → (propose_bytes sv b w).1 ≡ none
      → Accepted payload w (propose_bytes sv b w).0
  unfolding propose_bytes
  propose_bytes-Accepted payload none w m h = cc
  propose_bytes-Accepted payload (some b) w m h = (b, m, unmapped (sv.raft.propose b w).1 h, refl)

  propose-Accepted :
      (op : Bytes) (args : List Bytes) (h : KvHandler W Conn)
      → (propose sv op args h).1 ≡ none
      → Accepted (record { op = op; args = args }) h.world (propose sv op args h).0.world
  unfolding propose
  propose-Accepted op args h e =
      propose_bytes-Accepted (record { op = op; args = args })
        (sv.platform.marshal (record { op = op; args = args })) h.world refl e

  reply_with-answer :
      (resp r : KvResponse S) (x : KvHandler W Conn × Option RpcError)
      → (reply_with sv resp x).1 ≡ answer r
      → (x.1 ≡ none) × ((reply_with sv resp x).0 ≡ x.0)
  unfolding reply_with
  reply_with-answer resp r (h, none) same = (refl, refl)
  reply_with-answer resp r (h, some e) same = cc

  run_command-Accepted :
      (op : Bytes) (args : List Bytes) (resp r : KvResponse S) (h : KvHandler W Conn)
      → (run_command sv op args resp h).1 ≡ answer r
      → Accepted (record { op = op; args = args }) h.world (run_command sv op args resp h).0.world
  unfolding run_command
  run_command-Accepted op args resp r h same =
      let (through, stays) = reply_with-answer resp r (propose sv op args h) same in
      subst (λ (g : KvHandler W Conn). Accepted (record { op = op; args = args }) h.world g.world)
        (sym stays) (propose-Accepted op args h through)

  read_counter-answer :
      (key : Bytes) (r : KvResponse S) (x : KvHandler W Conn × Option RpcError)
      → (read_counter sv key x).1 ≡ answer r
      → (x.1 ≡ none) × ((read_counter sv key x).0.world ≡ (sv.kv_store.get key x.0.world).0)
  unfolding read_counter
  read_counter-answer key r (h, some e) same = cc
  read_counter-answer key r (h, none) same = (refl, reads_back h (sv.kv_store.get key h.world))
    where
      reads_back :
          (h : KvHandler W Conn) (x : W × Reply Bytes) → (counter_answer sv h x).0.world ≡ x.0
      reads_back h (w, ok text) = unfold counter_answer in refl
      reads_back h (w, err e) = unfold counter_answer in refl

  pop_read-answer :
      (op key : Bytes) (r : KvResponse S) (h : KvHandler W Conn) (x : W × Reply (List Bytes))
      → (pop_read sv op key h x).1 ≡ answer r
      → (found : Bytes) × (pop_read sv op key h x
          ≡ run_command sv op (key ∷ []) (value found) (record h { world = x.0 }))
  unfolding pop_read
  pop_read-answer op key r h (w, err e) same = cc
  pop_read-answer op key r h (w, ok []) same = cc
  pop_read-answer op key r h (w, ok (found ∷ rest)) same = (found, refl)

  pop_checked-Accepted :
      (op : Bytes) (at : ℤ) (key : Bytes) (r : KvResponse S) (h : KvHandler W Conn)
      (x : W × Option RaftError)
      → (pop_checked sv op at key h x).1 ≡ answer r
      → Accepted
          (record { op = op; args = key ∷ [] })
          (sv.kv_store.lrange key at at x.0).0
          (pop_checked sv op at key h x).0.world
  unfolding pop_checked
  pop_checked-Accepted op at key r h (w, some e) same = cc
  pop_checked-Accepted op at key r h (w, none) same =
      let x = sv.kv_store.lrange key at at w in
      let (found, ran) = pop_read-answer op key r h x same in
      let h' : KvHandler W Conn = record h { world = x.0 } in
      subst
        (λ (y : KvHandler W Conn × Rpc (KvResponse S)).
          Accepted (record { op = op; args = key ∷ [] }) x.0 y.0.world)
        (sym ran)
        (run_command-Accepted op (key ∷ []) (value found) r h'
          (ap (λ (y : KvHandler W Conn × Rpc (KvResponse S)). y.1) (sym ran) ∙ same))

  -- The command of a request has been proposed, and the handler has ended as the request says.
  unfoldable pub Sent : KvRequest S → W → W → Option CommandPayload → Type 0
  unfolding is_write proposed_at answered_at
  Sent req w v none = is_write req ≡ false
  Sent req w v (some payload) =
      (u : W) × (Accepted payload (proposed_at req w) u × (v ≡ answered_at req u))

  -- The handler behind the test of its leadership.
  abbrev pub asked : KvHandler W Conn → KvHandler W Conn
  asked h = record h { world = (sv.raft.is_leader h.world).0 }

  ran :
      (op : Bytes) (args : List Bytes) (resp r : KvResponse S) (h : KvHandler W Conn)
      (out : KvHandler W Conn × Rpc (KvResponse S))
      → out ≡ run_command sv op args resp h
      → out.1 ≡ answer r
      → (u : W) × (Accepted (record { op = op; args = args }) h.world u × (out.0.world ≡ u))
  ran op args resp r h out runs same =
      let through =
        run_command-Accepted op args resp r h
          (ap (λ (x : KvHandler W Conn × Rpc (KvResponse S)). x.1) (sym runs) ∙ same) in
      (
        (run_command sv op args resp h).0.world,
        (through, ap (λ (x : KvHandler W Conn × Rpc (KvResponse S)). x.0.world) runs),
      )

  counter_sent :
      (op key : Bytes) (r : KvResponse S) (h : KvHandler W Conn)
      (out : KvHandler W Conn × Rpc (KvResponse S))
      → out ≡ read_counter sv key (propose sv op (key ∷ []) h)
      → out.1 ≡ answer r
      → (u : W) × (Accepted (record { op = op; args = key ∷ [] }) h.world u
          × (out.0.world ≡ (sv.kv_store.get key u).0))
  counter_sent op key r h out runs same =
      let x = propose sv op (key ∷ []) h in
      let (through, ends) =
        read_counter-answer key r x
          (ap (λ (y : KvHandler W Conn × Rpc (KvResponse S)). y.1) (sym runs) ∙ same) in
      (
        x.0.world,
        (
          propose-Accepted op (key ∷ []) h through,
          ap (λ (y : KvHandler W Conn × Rpc (KvResponse S)). y.0.world) runs ∙ ends,
        ),
      )

  popped :
      (op : Bytes) (at : ℤ) (key : Bytes) (r : KvResponse S) (h : KvHandler W Conn)
      (out : KvHandler W Conn × Rpc (KvResponse S))
      → out ≡ pop_checked sv op at key h (sv.raft.read_index h.world)
      → out.1 ≡ answer r
      → (u : W) × (Accepted
            (record { op = op; args = key ∷ [] })
            (sv.kv_store.lrange key at at (sv.raft.read_index h.world).0).0
            u
          × (out.0.world ≡ u))
  popped op at key r h out runs same =
      let x = sv.raft.read_index h.world in
      let through =
        pop_checked-Accepted op at key r h x
          (ap (λ (y : KvHandler W Conn × Rpc (KvResponse S)). y.1) (sym runs) ∙ same) in
      (
        (pop_checked sv op at key h x).0.world,
        (through, ap (λ (y : KvHandler W Conn × Rpc (KvResponse S)). y.0.world) runs),
      )

module _ {W S Conn : Type 0} (sv : Services W S Conn) where
  pub serve-Sent :
      (mark : Bool) (req : KvRequest S) (r : KvResponse S) (h : KvHandler W Conn)
      → (sv.raft.is_leader h.world).1 ≡ true
      → (serve sv mark req h).1 ≡ answer r
      → Sent sv req h.world
          (serve sv mark req h).0.world
          (command sv.platform.format_score (expiry_arg sv (ttl_ms req) (asked sv h)) req)
  unfolding Sent serve command set delete incr decr hset hdelete lpush rpush zadd zrem lpop rpop
      pop_at ttl_ms
  serve-Sent mark (set_request key text ttl) r h leads same =
      ran sv _ _ success r (asked sv h) (serve sv mark (set_request key text ttl) h) (rw leads) same
  serve-Sent mark (delete_request key) r h leads same =
      ran sv _ _ success r (asked sv h) (serve sv mark (delete_request key) h) (rw leads) same
  serve-Sent mark (hset_request key field text ttl) r h leads same =
      ran sv _ _ success r (asked sv h) (serve sv mark (hset_request key field text ttl) h)
        (rw leads) same
  serve-Sent mark (hdelete_request key field) r h leads same =
      ran sv _ _ success r (asked sv h) (serve sv mark (hdelete_request key field) h) (rw leads)
        same
  serve-Sent mark (lpush_request key values ttl) r h leads same =
      ran sv _ _ (count 0) r (asked sv h) (serve sv mark (lpush_request key values ttl) h)
        (rw leads) same
  serve-Sent mark (rpush_request key values ttl) r h leads same =
      ran sv _ _ (count 0) r (asked sv h) (serve sv mark (rpush_request key values ttl) h)
        (rw leads) same
  serve-Sent mark (zadd_request key member score ttl) r h leads same =
      ran sv _ _ success r (asked sv h) (serve sv mark (zadd_request key member score ttl) h)
        (rw leads) same
  serve-Sent mark (zrem_request key member) r h leads same =
      ran sv _ _ success r (asked sv h) (serve sv mark (zrem_request key member) h) (rw leads) same
  serve-Sent mark (incr_request key) r h leads same =
      counter_sent sv (codes "INCR") key r (asked sv h) (serve sv mark (incr_request key) h)
        (rw leads) same
  serve-Sent mark (decr_request key) r h leads same =
      counter_sent sv (codes "DECR") key r (asked sv h) (serve sv mark (decr_request key) h)
        (rw leads) same
  serve-Sent mark (lpop_request key) r h leads same =
      popped sv (codes "LPOP") (pos 0) key r (asked sv h) (serve sv mark (lpop_request key) h)
        (rw leads) same
  serve-Sent mark (rpop_request key) r h leads same =
      popped sv (codes "RPOP") (negsuc 0) key r (asked sv h) (serve sv mark (rpop_request key) h)
        (rw leads) same
  serve-Sent mark (get_request a) r h leads same = refl
  serve-Sent mark (hget_request a b) r h leads same = refl
  serve-Sent mark (hexists_request a b) r h leads same = refl
  serve-Sent mark (hget_all_request a) r h leads same = refl
  serve-Sent mark (llen_request a) r h leads same = refl
  serve-Sent mark (lrange_request a b c) r h leads same = refl
  serve-Sent mark (zscore_request a b) r h leads same = refl
  serve-Sent mark (zrank_request a b) r h leads same = refl
  serve-Sent mark (zrange_request a b c d) r h leads same = refl
  serve-Sent mark (zrev_range_request a b c d) r h leads same = refl
  serve-Sent mark (add_node_request a b) r h leads same = refl
  serve-Sent mark (remove_node_request a) r h leads same = refl
  serve-Sent mark ping_request r h leads same = refl

  sent_payload :
      (req : KvRequest S) (w v : W) (c : Option CommandPayload)
      → is_write req ≡ true
      → Sent sv req w v c
      → (payload : CommandPayload) × ((c ≡ some payload)
          × ((u : W) × (Accepted sv payload (proposed_at sv req w) u × (v ≡ answered_at sv req u))))
  unfolding Sent
  sent_payload req w v none writes sent = cc
  sent_payload req w v (some payload) writes sent = (payload, (refl, sent))

module _ {W S Conn Z : Type 0} (sv : Services W S Conn) (ops : ZsetOps Z S) where
  -- What a leader proposes for a write is what the request asks for: when one of the twelve
  -- requests that write is answered without an error, a command has been proposed and accepted,
  -- after the test of the leadership and for LPOP and RPOP after the read of the value; nothing
  -- happens behind it but the read of an INCR or a DECR; and on any store and at any time `Apply`
  -- makes of that command what the request means, with the expiry time that is its time to live
  -- behind the time of the handler, or none where that is not positive. The expiry time fits
  -- int64, and a score that is printed parses to itself.
  pub serve-effect :
      (mark : Bool) (req : KvRequest S) (r : KvResponse S) (h : KvHandler W Conn)
      → ((score : S) → ops.parse_score (sv.platform.format_score score) ≡ some score)
      → is_write req ≡ true
      → IsInt (deadline (sv.platform.unix_milli (sv.raft.is_leader h.world).0) (ttl_ms req))
      → (sv.raft.is_leader h.world).1 ≡ true
      → (serve sv mark req h).1 ≡ answer r
      → (payload : CommandPayload) × ((u : W) × (Accepted sv payload (proposed_at sv req h.world) u
            × (((serve sv mark req h).0.world ≡ answered_at sv req u)
                × ((now : ℕ) (s : KvStore Z)
                    → apply_payload ops now (some payload) s
                      ≡ effect ops now
                          (deadline
                            (sv.platform.unix_milli (sv.raft.is_leader h.world).0)
                            (ttl_ms req))
                          req
                          s))))
  unfolding expiry_arg
  serve-effect mark req r h scores writes int leads same =
      let now_ms = sv.platform.unix_milli (sv.raft.is_leader h.world).0 in
      let ms = deadline now_ms (ttl_ms req) in
      let format = sv.platform.format_score in
      let out = serve sv mark req h in
      let (payload, (proposed, (u, (accepted, ends)))) =
        sent_payload sv req h.world out.0.world
          (command format (expiry_arg sv (ttl_ms req) (asked sv h)) req) writes
          (serve-Sent sv mark req r h leads same) in
      let text : format_int (expiry_milli now_ms (ttl_ms req)) ≡ format_int ms =
        ap format_int (expiry_milli-deadline now_ms (ttl_ms req) int) in
      let known = ap (λ t. command format t req) (sym text) ∙ proposed in
      (
        payload,
        (
          u,
          (
            accepted,
            (ends, λ now s. command-effect ops format now ms req payload s scores int known),
          ),
        ),
      )
