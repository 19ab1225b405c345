-- ===== src/Kv/Hashes/Fields.antt =====
-- What a field reads as after a write of internal/kvstore/hash.go.
use kver.Prelude.{ℕ, ◌≡◌, Bytes, bytes_eq, false, none, some, [], arith, if◌then◌else◌}
use kver.Prelude.Dict
use kver.Prelude.Dict.{Dict, get-put, get-put_self, get-remove_self}
use kver.Kv.Types.{ok, hash}
use kver.Kv.Store.{KvStore, is_expired}
use kver.Kv.Hashes.{hset, hget, fields_or_new, read_field}

-- The fields under a key, as a write finds them: none where the key is missing or has expired.
pub fields_at : {Z : Type 0} → ℕ → Bytes → KvStore Z → Dict Bytes
fields_at now key s = if is_expired now key s then [] else fields_or_new (Dict.get s.hashes key)

module _ {Z : Type 0} (now : ℕ) (key field : Bytes) (s : KvStore Z) where
  hset_stored :
      (value : Bytes)
      → (hset now key field value 0 s).1 ≡ none
      → (Dict.get (hset now key field value 0 s).0.hashes key
          ≡ some (Dict.put (fields_at now key s) field value))
        × (Dict.get (hset now key field value 0 s).0.key_types key ≡ some hash)
  unfolding hset fields_at
  hset_stored value h = (grind (arith, get-put_self, get-remove_self), grind (arith, get-put_self))

  hget_stored :
      (later : ℕ) (fields : Dict Bytes) (t : KvStore Z)
      → Dict.get t.hashes key ≡ some fields
      → Dict.get t.key_types key ≡ some hash
      → is_expired later key t ≡ false
      → (hget later key field t).1 ≡ read_field field fields
  unfolding hget
  hget_stored later fields t stored typed live = ground arith

-- After an HSET that succeeds, and until the key expires, HGET returns the value for its field,
-- and for every other field what the hash had, where the key had not expired by then.
hset-hget :
    {Z : Type 0} (now : ℕ) (key field value : Bytes) (s : KvStore Z)
    → (hset now key field value 0 s).1 ≡ none
    → (later : ℕ) → is_expired later key (hset now key field value 0 s).0 ≡ false
    → (other : Bytes)
    → (hget later key other (hset now key field value 0 s).0).1
      ≡ (if bytes_eq field other then ok value else read_field other (fields_at now key s))
unfolding read_field
hset-hget now key field value s h later live other =
    let (stored, typed) = hset_stored now key field s value h in
    let t = (hset now key field value 0 s).0 in
    rw (hget_stored now key other s later _ t stored typed live) (grind (arith, get-put))
