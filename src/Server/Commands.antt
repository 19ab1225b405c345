-- ===== src/Server/Commands.antt =====
-- The commands that the handlers of internal/server/kv_handler.go propose, against what `Apply` of
-- internal/kvstore/store.go makes of them.
use kver.Prelude.{
  ℕ, ◌≡◌, refl, ap, subst, ◌∙◌, arith, Bytes, codes, bytes_eq, Option, none, some, List, [], ◌∷◌,
  ◌++◌,
}
use kver.Prelude.Int.{ℤ, pos, negsuc}
use kver.Kv.Types.{KvError, ZsetOps}
use kver.Kv.Number.{format_int}
use kver.Kv.Number.RoundTrip.{IsInt, parse_int-format_int}
use kver.Kv.Store.{KvStore}
use kver.Kv.Strings
use kver.Kv.Hashes
use kver.Kv.Lists
use kver.Kv.Lists.Sequence.{pop_back-append}
use kver.Kv.SortedSets
use kver.Kv.Apply.{
  CommandPayload, parse_absolute_ms, split_values_absolute_ms, set_expiry, dismiss, error_of,
  apply_payload, dispatch, to_upper, apply_set, apply_del, apply_add, apply_hset, apply_hdel,
  apply_lpush, apply_rpush, apply_lpop, apply_rpop, apply_zadd, apply_zrem,
}
use kver.Server.Types.{
  KvRequest, set_request, delete_request, incr_request, decr_request, hset_request, hdelete_request,
  lpush_request, rpush_request, lpop_request, rpop_request, zadd_request, zrem_request, get_request,
  hget_request, hexists_request, hget_all_request, llen_request, lrange_request, zscore_request,
  zrank_request, zrange_request, zrev_range_request, add_node_request, remove_node_request,
  ping_request,
}
use kver.Server.Writes.{push_args}

abbrev payload_of : Bytes → List Bytes → Option CommandPayload
payload_of op args = some (record { op = op; args = args })

-- The command of a request that writes, with the text of its expiry time.
unfoldable pub command : {S : Type 0} → (S → Bytes) → Bytes → KvRequest S → Option CommandPayload
unfolding push_args
command format expiry (set_request key value ttl) =
    payload_of (codes "SET") (key ∷ value ∷ expiry ∷ [])
command format expiry (delete_request key) = payload_of (codes "DEL") (key ∷ [])
command format expiry (incr_request key) = payload_of (codes "INCR") (key ∷ [])
command format expiry (decr_request key) = payload_of (codes "DECR") (key ∷ [])
command format expiry (hset_request key field value ttl) =
    payload_of (codes "HSET") (key ∷ field ∷ value ∷ expiry ∷ [])
command format expiry (hdelete_request key field) = payload_of (codes "HDEL") (key ∷ field ∷ [])
command format expiry (lpush_request key values ttl) =
    payload_of (codes "LPUSH") (push_args key values expiry)
command format expiry (rpush_request key values ttl) =
    payload_of (codes "RPUSH") (push_args key values expiry)
command format expiry (lpop_request key) = payload_of (codes "LPOP") (key ∷ [])
command format expiry (rpop_request key) = payload_of (codes "RPOP") (key ∷ [])
command format expiry (zadd_request key member score ttl) =
    payload_of (codes "ZADD") (key ∷ format score ∷ member ∷ expiry ∷ [])
command format expiry (zrem_request key member) = payload_of (codes "ZREM") (key ∷ member ∷ [])
command format expiry _ = none

pub expiry-parse : (ms : ℤ) → IsInt ms → parse_absolute_ms (format_int ms ∷ []) ≡ ms
unfolding parse_absolute_ms
expiry-parse ms int = let read = parse_int-format_int ms int in ground arith

-- The last of the values is the expiry time, whatever the others look like.
push-split :
    (values : List Bytes) (ms : ℤ)
    → IsInt ms
    → split_values_absolute_ms (values ++ format_int ms ∷ []) ≡ (values, ms)
unfolding split_values_absolute_ms
push-split values ms int = rw (pop_back-append values (format_int ms), parse_int-format_int ms int)

module _ {Z S : Type 0} (ops : ZsetOps Z S) where
  -- What a request that writes means for the store, with its expiry time in milliseconds.
  unfoldable pub effect : ℕ → ℤ → KvRequest S → KvStore Z → KvStore Z × Option KvError
  unfolding set_expiry dismiss error_of Strings.set Strings.delete Strings.add_value Hashes.hset
      Hashes.hdelete Lists.lpush Lists.rpush Lists.lpop Lists.rpop SortedSets.zadd SortedSets.zrem
  effect now ms (set_request key value ttl) s =
      dismiss (set_expiry key ms (Strings.set now key value 0 s))
  effect now ms (delete_request key) s = dismiss (Strings.delete key s)
  effect now ms (incr_request key) s = error_of (Strings.add_value now key (pos 1) s)
  effect now ms (decr_request key) s = error_of (Strings.add_value now key (negsuc 0) s)
  effect now ms (hset_request key field value ttl) s =
      set_expiry key ms (Hashes.hset now key field value 0 s)
  effect now ms (hdelete_request key field) s = dismiss (Hashes.hdelete now key field s)
  effect now ms (lpush_request key values ttl) s =
      set_expiry key ms (error_of (Lists.lpush now key 0 values s))
  effect now ms (rpush_request key values ttl) s =
      set_expiry key ms (error_of (Lists.rpush now key 0 values s))
  effect now ms (lpop_request key) s = dismiss (error_of (Lists.lpop now key s))
  effect now ms (rpop_request key) s = dismiss (error_of (Lists.rpop now key s))
  effect now ms (zadd_request key member score ttl) s =
      set_expiry key ms (SortedSets.zadd ops now key score member 0 s)
  effect now ms (zrem_request key member) s = dismiss (SortedSets.zrem ops now now key member s)
  effect now ms _ s = (s, none)

module _ {Z : Type 0} (now : ℕ) (key : Bytes) (s : KvStore Z) where
  pushed-left :
      (values : List Bytes) (last : Bytes)
      → apply_lpush now (push_args key values last) s ≡ (
          let (front, ms) = split_values_absolute_ms (values ++ last ∷ []) in
          set_expiry key ms (error_of (Lists.lpush now key 0 front s)))
  unfolding apply_lpush push_args
  pushed-left [] last = refl
  pushed-left (v ∷ values) last = refl

  pushed-right :
      (values : List Bytes) (last : Bytes)
      → apply_rpush now (push_args key values last) s ≡ (
          let (front, ms) = split_values_absolute_ms (values ++ last ∷ []) in
          set_expiry key ms (error_of (Lists.rpush now key 0 front s)))
  unfolding apply_rpush push_args
  pushed-right [] last = refl
  pushed-right (v ∷ values) last = refl

  lpush-parsed :
      (values : List Bytes) (ms : ℤ)
      → IsInt ms
      → apply_lpush now (push_args key values (format_int ms)) s
        ≡ set_expiry key ms (error_of (Lists.lpush now key 0 values s))
  lpush-parsed values ms int =
      pushed-left values (format_int ms)
      ∙ ap (λ (x : List Bytes × ℤ). set_expiry key x.1 (error_of (Lists.lpush now key 0 x.0 s)))
          (push-split values ms int)

  rpush-parsed :
      (values : List Bytes) (ms : ℤ)
      → IsInt ms
      → apply_rpush now (push_args key values (format_int ms)) s
        ≡ set_expiry key ms (error_of (Lists.rpush now key 0 values s))
  rpush-parsed values ms int =
      pushed-right values (format_int ms)
      ∙ ap (λ (x : List Bytes × ℤ). set_expiry key x.1 (error_of (Lists.rpush now key 0 x.0 s)))
          (push-split values ms int)

module _ {Z S : Type 0} (ops : ZsetOps Z S) (format : S → Bytes) where
  -- A command is carried out as `e` says.
  Carried : ℕ → KvStore Z → KvStore Z × Option KvError → Option CommandPayload → Type 0
  Carried now s e none = Unit {0}
  Carried now s e (some payload) = apply_payload ops now (some payload) s ≡ e

  command-Carried :
      (now : ℕ) (ms : ℤ) (req : KvRequest S) (s : KvStore Z)
      → ((score : S) → ops.parse_score (format score) ≡ some score)
      → IsInt ms
      → Carried now s (effect ops now ms req s) (command format (format_int ms) req)
  unfolding Carried command effect apply_payload dispatch to_upper bytes_eq apply_set apply_del
      apply_add apply_hset apply_hdel apply_lpop apply_rpop apply_zadd apply_zrem
  command-Carried now ms (set_request key value ttl) s scores int =
      ap (λ t. dismiss (set_expiry key t (Strings.set now key value 0 s))) (expiry-parse ms int)
  command-Carried now ms (hset_request key field value ttl) s scores int =
      ap (λ t. set_expiry key t (Hashes.hset now key field value 0 s)) (expiry-parse ms int)
  command-Carried now ms (lpush_request key values ttl) s scores int =
      lpush-parsed now key s values ms int
  command-Carried now ms (rpush_request key values ttl) s scores int =
      rpush-parsed now key s values ms int
  command-Carried now ms (zadd_request key member score ttl) s scores int =
      rw (scores score, expiry-parse ms int)
  command-Carried now ms (delete_request a) s scores int = refl
  command-Carried now ms (incr_request a) s scores int = refl
  command-Carried now ms (decr_request a) s scores int = refl
  command-Carried now ms (hdelete_request a b) s scores int = refl
  command-Carried now ms (lpop_request a) s scores int = refl
  command-Carried now ms (rpop_request a) s scores int = refl
  command-Carried now ms (zrem_request a b) s scores int = refl
  command-Carried now ms (get_request a) s scores int = tt
  command-Carried now ms (hget_request a b) s scores int = tt
  command-Carried now ms (hexists_request a b) s scores int = tt
  command-Carried now ms (hget_all_request a) s scores int = tt
  command-Carried now ms (llen_request a) s scores int = tt
  command-Carried now ms (lrange_request a b c) s scores int = tt
  command-Carried now ms (zscore_request a b) s scores int = tt
  command-Carried now ms (zrank_request a b) s scores int = tt
  command-Carried now ms (zrange_request a b c d) s scores int = tt
  command-Carried now ms (zrev_range_request a b c d) s scores int = tt
  command-Carried now ms (add_node_request a b) s scores int = tt
  command-Carried now ms (remove_node_request a) s scores int = tt
  command-Carried now ms ping_request s scores int = tt

  -- Every command that a handler proposes is carried out as its request says: `Apply` reads back
  -- the key, the values, the score and the expiry time that the handler wrote into the arguments,
  -- also where a value pushed to a list looks like a number. This holds for the twelve requests
  -- that write, if the expiry time fits int64 and a score that is printed parses to itself.
  pub command-effect :
      (now : ℕ) (ms : ℤ) (req : KvRequest S) (payload : CommandPayload) (s : KvStore Z)
      → ((score : S) → ops.parse_score (format score) ≡ some score)
      → IsInt ms
      → command format (format_int ms) req ≡ some payload
      → apply_payload ops now (some payload) s ≡ effect ops now ms req s
  unfolding Carried
  command-effect now ms req payload s scores int h =
      subst (Carried now s (effect ops now ms req s)) h (command-Carried now ms req s scores int)
