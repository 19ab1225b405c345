-- ===== src/Kv/Apply.antt =====
-- `Apply` of internal/kvstore/store.go.
pub mod Clock
pub mod Expiring
pub mod Leftovers
use kver.Prelude.{
  ℕ, zero, suc, ◌-◌, Bytes, codes, bytes_eq, Bool, true, false, ◌&&◌, Option, none, some, List, [],
  ◌∷◌, leb, ◌==◌, if◌then◌else◌,
}
use kver.Prelude.Int.{ℤ, pos, negsuc}
use kver.Raft.Types.{LogEntry, EntryType, entry_kv}
use kver.Kv.Types.{
  KvError, Reply, ok, err, key_not_found, invalid_args, unknown_command, unmarshal_error, ZsetOps,
}
use kver.Kv.Number.{parse_int}
use kver.Kv.Store.{KvStore, ttl_set_absolute}
use kver.Kv.Strings
use kver.Kv.Hashes
use kver.Kv.Lists
use kver.Kv.SortedSets

-- kvpb.CommandPayload
pub record CommandPayload : Type 0 where
  pub op : Bytes
  pub args : List Bytes

upper_byte : ℕ → ℕ
upper_byte c = if leb b'a' c && leb c b'z' then c - 32 else c

-- strings.ToUpper, as far as the result can be one of the commands' names, which are ASCII: the
-- only other characters whose upper case is ASCII are the long s and the dotless i, of two bytes
-- each.
unfoldable pub to_upper : Bytes → Bytes
unfolding upper_byte
to_upper [] = []
to_upper (a ∷ []) = upper_byte a ∷ []
to_upper (a ∷ b ∷ rest) =
    let two = to_upper rest in
    let one = to_upper (b ∷ rest) in
    if (a == 0xC5) && (b == 0xBF)
    then b'S' ∷ two
    else if (a == 0xC4) && (b == 0xB1)
    then b'I' ∷ two
    else upper_byte a ∷ one

or_zero : Option ℤ → ℤ
or_zero none = pos 0
or_zero (some ms) = ms

-- parseAbsoluteMs, at the arguments from the given position on
unfoldable pub parse_absolute_ms : List Bytes → ℤ
unfolding or_zero parse_int
parse_absolute_ms [] = pos 0
parse_absolute_ms (text ∷ rest) = or_zero (parse_int text)

-- splitValuesAbsoluteMs: a last argument that reads as a number is the expiry time.
split_at : List Bytes → List Bytes → Option ℤ → List Bytes × ℤ
split_at args front none = (args, pos 0)
split_at args front (some ms) = (front, ms)

split_values : List Bytes → Option (Bytes × List Bytes) → List Bytes × ℤ
unfolding split_at parse_int
split_values args none = ([], pos 0)
split_values args (some (last, front)) = split_at args front (parse_int last)

unfoldable pub split_values_absolute_ms : List Bytes → List Bytes × ℤ
unfolding split_values Lists.pop_back
split_values_absolute_ms args = split_values args (Lists.pop_back args)

unfoldable pub ignore_not_found : Option KvError → Option KvError
ignore_not_found (some key_not_found) = none
ignore_not_found e = e

module _ {Z : Type 0} where
  -- The expiry time is set where the write succeeded.
  unfoldable pub set_expiry : Bytes → ℤ → KvStore Z × Option KvError → KvStore Z × Option KvError
  unfolding ttl_set_absolute
  set_expiry key ms (s, some e) = (s, some e)
  set_expiry key ms (s, none) = (ttl_set_absolute key ms s, none)

  unfoldable pub dismiss : KvStore Z × Option KvError → KvStore Z × Option KvError
  unfolding ignore_not_found
  dismiss (s, e) = (s, ignore_not_found e)

  unfoldable pub error_of : {A : Type 0} → KvStore Z × Reply A → KvStore Z × Option KvError
  error_of (s, ok a) = (s, none)
  error_of (s, err e) = (s, some e)

  unfoldable pub apply_set : ℕ → List Bytes → KvStore Z → KvStore Z × Option KvError
  unfolding set_expiry dismiss Strings.set parse_absolute_ms
  apply_set now (key ∷ value ∷ rest) s =
      dismiss (set_expiry key (parse_absolute_ms rest) (Strings.set now key value 0 s))
  apply_set now _ s = (s, some invalid_args)

  unfoldable pub apply_del : List Bytes → KvStore Z → KvStore Z × Option KvError
  unfolding dismiss Strings.delete
  apply_del [] s = (s, some invalid_args)
  apply_del (key ∷ rest) s = dismiss (Strings.delete key s)

  unfoldable pub apply_add : ℤ → ℕ → List Bytes → KvStore Z → KvStore Z × Option KvError
  unfolding error_of Strings.add_value
  apply_add delta now [] s = (s, some invalid_args)
  apply_add delta now (key ∷ rest) s = error_of (Strings.add_value now key delta s)

  unfoldable pub apply_hset : ℕ → List Bytes → KvStore Z → KvStore Z × Option KvError
  unfolding set_expiry Hashes.hset parse_absolute_ms
  apply_hset now (key ∷ field ∷ value ∷ rest) s =
      set_expiry key (parse_absolute_ms rest) (Hashes.hset now key field value 0 s)
  apply_hset now _ s = (s, some invalid_args)

  unfoldable pub apply_hdel : ℕ → List Bytes → KvStore Z → KvStore Z × Option KvError
  unfolding dismiss Hashes.hdelete
  apply_hdel now (key ∷ field ∷ rest) s = dismiss (Hashes.hdelete now key field s)
  apply_hdel now _ s = (s, some invalid_args)

  unfoldable pub apply_lpush : ℕ → List Bytes → KvStore Z → KvStore Z × Option KvError
  unfolding set_expiry error_of Lists.lpush split_values_absolute_ms
  apply_lpush now (key ∷ arg ∷ rest) s =
      let (values, ms) = split_values_absolute_ms (arg ∷ rest) in
      set_expiry key ms (error_of (Lists.lpush now key 0 values s))
  apply_lpush now _ s = (s, some invalid_args)

  unfoldable pub apply_rpush : ℕ → List Bytes → KvStore Z → KvStore Z × Option KvError
  unfolding set_expiry error_of Lists.rpush split_values_absolute_ms
  apply_rpush now (key ∷ arg ∷ rest) s =
      let (values, ms) = split_values_absolute_ms (arg ∷ rest) in
      set_expiry key ms (error_of (Lists.rpush now key 0 values s))
  apply_rpush now _ s = (s, some invalid_args)

  unfoldable pub apply_lpop : ℕ → List Bytes → KvStore Z → KvStore Z × Option KvError
  unfolding dismiss error_of Lists.lpop
  apply_lpop now [] s = (s, some invalid_args)
  apply_lpop now (key ∷ rest) s = dismiss (error_of (Lists.lpop now key s))

  unfoldable pub apply_rpop : ℕ → List Bytes → KvStore Z → KvStore Z × Option KvError
  unfolding dismiss error_of Lists.rpop
  apply_rpop now [] s = (s, some invalid_args)
  apply_rpop now (key ∷ rest) s = dismiss (error_of (Lists.rpop now key s))

module _ {Z S : Type 0} (ops : ZsetOps Z S) where
  zadd_parsed : ℕ → Bytes → Option S → Bytes → List Bytes → KvStore Z → KvStore Z × Option KvError
  unfolding set_expiry SortedSets.zadd parse_absolute_ms
  zadd_parsed now key none member rest s = (s, some invalid_args)
  zadd_parsed now key (some score) member rest s =
      set_expiry key (parse_absolute_ms rest) (SortedSets.zadd ops now key score member 0 s)

  unfoldable pub apply_zadd : ℕ → List Bytes → KvStore Z → KvStore Z × Option KvError
  unfolding zadd_parsed
  apply_zadd now (key ∷ score ∷ member ∷ rest) s =
      zadd_parsed now key (ops.parse_score score) member rest s
  apply_zadd now _ s = (s, some invalid_args)

  unfoldable pub apply_zrem : ℕ → List Bytes → KvStore Z → KvStore Z × Option KvError
  unfolding dismiss SortedSets.zrem
  apply_zrem now (key ∷ member ∷ rest) s = dismiss (SortedSets.zrem ops now now key member s)
  apply_zrem now _ s = (s, some invalid_args)

  -- The switch on the upper-case name.
  unfoldable pub dispatch : ℕ → Bytes → List Bytes → KvStore Z → KvStore Z × Option KvError
  dispatch now op args s =
      if bytes_eq op (codes "SET")
      then apply_set now args s
      else if bytes_eq op (codes "DEL")
      then apply_del args s
      else if bytes_eq op (codes "INCR")
      then apply_add (pos 1) now args s
      else if bytes_eq op (codes "DECR")
      then apply_add (negsuc 0) now args s
      else if bytes_eq op (codes "HSET")
      then apply_hset now args s
      else if bytes_eq op (codes "HDEL")
      then apply_hdel now args s
      else if bytes_eq op (codes "LPUSH")
      then apply_lpush now args s
      else if bytes_eq op (codes "RPUSH")
      then apply_rpush now args s
      else if bytes_eq op (codes "LPOP")
      then apply_lpop now args s
      else if bytes_eq op (codes "RPOP")
      then apply_rpop now args s
      else if bytes_eq op (codes "ZADD")
      then apply_zadd now args s
      else if bytes_eq op (codes "ZREM")
      then apply_zrem now args s
      else (s, some unknown_command)

  unfoldable pub apply_payload : ℕ → Option CommandPayload → KvStore Z → KvStore Z × Option KvError
  unfolding dispatch to_upper
  apply_payload now none s = (s, some unmarshal_error)
  apply_payload now (some payload) s = dispatch now (to_upper payload.op) payload.args s

  -- `unmarshal` is proto.Unmarshal for a CommandPayload.
  apply_typed :
      (Bytes → Option CommandPayload)
      → ℕ
      → EntryType
      → Bytes
      → KvStore Z
      → KvStore Z × Option KvError
  unfolding apply_payload
  apply_typed unmarshal now entry_kv command s = apply_payload now (unmarshal command) s
  apply_typed unmarshal now _ command s = (s, none)

  unfoldable pub apply :
      (Bytes → Option CommandPayload) → ℕ → LogEntry → KvStore Z → KvStore Z × Option KvError
  unfolding apply_typed
  apply unmarshal now entry s = apply_typed unmarshal now entry.type entry.command s
