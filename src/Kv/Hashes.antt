-- ===== src/Kv/Hashes.antt =====
-- internal/kvstore/hash.go
pub mod Fields
use kver.Prelude.{ℕ, Bytes, Bool, Option, none, some, List, [], ◌∷◌, ltb, if◌then◌else◌}
use kver.Prelude.Dict
use kver.Prelude.Dict.{Dict}
use kver.Kv.Types.{KvError, Reply, ok, err, key_not_found, hash}
use kver.Kv.Store.{
  KvStore, check_type, check_and_set_type, delete_type, ttl_set, ttl_delete, is_expired,
}

fields_or_new : Option (Dict Bytes) → Dict Bytes
fields_or_new none = []
fields_or_new (some fields) = fields

read_hash : {A : Type 0} → (Dict Bytes → Reply A) → Option (Dict Bytes) → Reply A
read_hash read none = err key_not_found
read_hash read (some fields) = read fields

module _ {Z : Type 0} where
  unfoldable pub delete_key : Bytes → KvStore Z → KvStore Z
  unfolding delete_type ttl_delete
  delete_key key s =
      delete_type key (ttl_delete key (record s { hashes = Dict.remove s.hashes key }))

  unfoldable pub drop_expired : ℕ → Bytes → KvStore Z → KvStore Z
  unfolding is_expired delete_key
  drop_expired now key s = if is_expired now key s then delete_key key s else s

  hset_typed :
      ℕ → Bytes → Bytes → Bytes → ℕ → KvStore Z × Option KvError → KvStore Z × Option KvError
  unfolding ttl_set fields_or_new
  hset_typed now key field value ttl (s, some e) = (s, some e)
  hset_typed now key field value ttl (s, none) =
      let fields = fields_or_new (Dict.get s.hashes key) in
      let s' = record s { hashes = Dict.put s.hashes key (Dict.put fields field value) } in
      (if ltb 0 ttl then ttl_set now key ttl s' else s', none)

  unfoldable pub hset : ℕ → Bytes → Bytes → Bytes → ℕ → KvStore Z → KvStore Z × Option KvError
  unfolding drop_expired check_and_set_type hset_typed
  hset now key field value ttl s =
      hset_typed now key field value ttl (check_and_set_type key hash (drop_expired now key s))

module _ {Z : Type 0} {A : Type 0} where
  -- What the reads share: the type check, the expired key, and the hash or its absence.
  with_hash_typed :
      ℕ → Bytes → (Dict Bytes → Reply A) → Option KvError → KvStore Z → KvStore Z × Reply A
  unfolding is_expired delete_key read_hash
  with_hash_typed now key read (some e) s = (s, err e)
  with_hash_typed now key read none s =
      if is_expired now key s
      then (delete_key key s, err key_not_found)
      else (s, read_hash read (Dict.get s.hashes key))

  unfoldable pub with_hash : ℕ → Bytes → (Dict Bytes → Reply A) → KvStore Z → KvStore Z × Reply A
  unfolding check_type with_hash_typed
  with_hash now key read s = with_hash_typed now key read (check_type key hash s) s

unfoldable pub read_field : Bytes → Dict Bytes → Reply Bytes
read_field field fields = elim (Dict.get fields field) [
  | none ↦ err key_not_found
  | some value ↦ ok value
]

-- The copy that HGetAll returns, entry by entry.
unfoldable pub copy_fields : Dict Bytes → Dict Bytes → Dict Bytes
copy_fields [] res = res
copy_fields ((field, value) ∷ rest) res = copy_fields rest (Dict.put res field value)

module _ {Z : Type 0} where
  unfoldable pub hget : ℕ → Bytes → Bytes → KvStore Z → KvStore Z × Reply Bytes
  unfolding with_hash read_field
  hget now key field s = with_hash now key (read_field field) s

  unfoldable pub hget_all : ℕ → Bytes → KvStore Z → KvStore Z × Reply (Dict Bytes)
  unfolding with_hash copy_fields
  hget_all now key s = with_hash now key (λ fields. ok (copy_fields fields [])) s

  unfoldable pub hexists : ℕ → Bytes → Bytes → KvStore Z → KvStore Z × Reply Bool
  unfolding with_hash
  hexists now key field s = with_hash now key (λ fields. ok (Dict.has fields field)) s

  -- The hash goes with its last field, and then the expiry time and the type too.
  remove_field : Bytes → Bytes → Dict Bytes → KvStore Z → KvStore Z
  unfolding delete_type ttl_delete
  remove_field key field fields s =
      let left = Dict.remove fields field in
      if Dict.is_empty left
      then delete_type key (ttl_delete key (record s { hashes = Dict.remove s.hashes key }))
      else record s { hashes = Dict.put s.hashes key left }

  hdelete_field : Bytes → Bytes → Option (Dict Bytes) → KvStore Z → KvStore Z × Option KvError
  unfolding remove_field
  hdelete_field key field none s = (s, some key_not_found)
  hdelete_field key field (some fields) s =
      if Dict.has fields field
      then (remove_field key field fields s, none)
      else (s, some key_not_found)

  hdelete_typed : ℕ → Bytes → Bytes → Option KvError → KvStore Z → KvStore Z × Option KvError
  unfolding is_expired delete_key hdelete_field
  hdelete_typed now key field (some e) s = (s, some e)
  hdelete_typed now key field none s =
      if is_expired now key s
      then (delete_key key s, some key_not_found)
      else hdelete_field key field (Dict.get s.hashes key) s

  unfoldable pub hdelete : ℕ → Bytes → Bytes → KvStore Z → KvStore Z × Option KvError
  unfolding check_type hdelete_typed
  hdelete now key field s = hdelete_typed now key field (check_type key hash s) s
