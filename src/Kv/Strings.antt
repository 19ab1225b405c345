-- ===== src/Kv/Strings.antt =====
-- internal/kvstore/string.go
pub mod Counter
pub mod Reads
use kver.Prelude.{ℕ, Bytes, Bool, Option, none, some, ltb, if◌then◌else◌}
use kver.Prelude.Dict
use kver.Prelude.Int.{ℤ, pos, negsuc}
use kver.Kv.Types.{KvError, Reply, ok, err, key_not_found, wrong_type, string}
use kver.Kv.Number.{parse_int, format_int, add_int}
use kver.Kv.Store.{
  KvStore, check_type, check_and_set_type, delete_type, ttl_set, ttl_delete, is_expired,
}

unfoldable pub found : Option Bytes → Reply Bytes
found none = err key_not_found
found (some value) = ok value

-- The number that a counter holds; a missing one is zero.
unfoldable pub counter_value : Option Bytes → Option ℤ
counter_value none = some (pos 0)
counter_value (some text) = parse_int text

module _ {Z : Type 0} where
  -- The string goes if there is one; the expiry time and the type go in any case.
  unfoldable pub delete : Bytes → KvStore Z → KvStore Z × Option KvError
  unfolding delete_type ttl_delete
  delete key s =
      let gone = record s { strings = Dict.remove s.strings key } in
      if Dict.has s.strings key
      then (delete_type key (ttl_delete key gone), none)
      else (delete_type key (ttl_delete key s), some key_not_found)

  -- The deletion of an expired key, whose only error is ignored.
  unfoldable pub drop_expired : ℕ → Bytes → KvStore Z → KvStore Z
  unfolding is_expired delete
  drop_expired now key s = if is_expired now key s then (delete key s).0 else s

  set_typed : ℕ → Bytes → Bytes → ℕ → KvStore Z × Option KvError → KvStore Z × Option KvError
  unfolding ttl_set
  set_typed now key value ttl (s, some e) = (s, some e)
  set_typed now key value ttl (s, none) =
      let s' = record s { strings = Dict.put s.strings key value } in
      (if ltb 0 ttl then ttl_set now key ttl s' else s', none)

  unfoldable pub set : ℕ → Bytes → Bytes → ℕ → KvStore Z → KvStore Z × Option KvError
  unfolding drop_expired check_and_set_type set_typed
  set now key value ttl s =
      set_typed now key value ttl (check_and_set_type key string (drop_expired now key s))

  get_typed : ℕ → Bytes → Option KvError → KvStore Z → KvStore Z × Reply Bytes
  unfolding is_expired delete found
  get_typed now key (some e) s = (s, err e)
  get_typed now key none s =
      if is_expired now key s
      then ((delete key s).0, err key_not_found)
      else (s, found (Dict.get s.strings key))

  unfoldable pub get : ℕ → Bytes → KvStore Z → KvStore Z × Reply Bytes
  unfolding check_type get_typed
  get now key s = get_typed now key (check_type key string s) s

  store_value : Bytes → ℤ → Option ℤ → KvStore Z → KvStore Z × Reply ℤ
  store_value key delta none s = (s, err wrong_type)
  store_value key delta (some n) s = (
    record s { strings = Dict.put s.strings key (format_int (add_int n delta)) },
    ok (add_int n delta),
  )

  add_typed : Bytes → ℤ → KvStore Z × Option KvError → KvStore Z × Reply ℤ
  unfolding store_value counter_value
  add_typed key delta (s, some e) = (s, err e)
  add_typed key delta (s, none) = store_value key delta (counter_value (Dict.get s.strings key)) s

  unfoldable pub add_value : ℕ → Bytes → ℤ → KvStore Z → KvStore Z × Reply ℤ
  unfolding drop_expired check_and_set_type add_typed
  add_value now key delta s =
      add_typed key delta (check_and_set_type key string (drop_expired now key s))

  unfoldable pub incr : ℕ → Bytes → KvStore Z → KvStore Z × Reply ℤ
  unfolding add_value
  incr now key s = add_value now key (pos 1) s

  unfoldable pub decr : ℕ → Bytes → KvStore Z → KvStore Z × Reply ℤ
  unfolding add_value
  decr now key s = add_value now key (negsuc 0) s
