-- ===== src/Kv/Apply/Leftovers.antt =====
-- What DEL leaves behind (`Apply` and `Delete`, internal/kvstore/store.go and string.go).
use kver.Prelude.{ℕ, ◌≡◌, Bytes, none, some, List, ◌∷◌, arith}
use kver.Prelude.Dict
use kver.Prelude.Dict.{Dict, get-remove_self, get_of_not_has}
use kver.Kv.Types.{ok, err, key_not_found}
use kver.Kv.Store.{KvStore}
use kver.Kv.Strings
use kver.Kv.Hashes
use kver.Kv.Apply.{apply_del}

module _ {Z : Type 0} (key : Bytes) (rest : List Bytes) (s : KvStore Z) where
  -- DEL reports no error, and afterwards the key has no string, no type and no expiry time: GET
  -- finds nothing at any time.
  pub del_get :
      (later : ℕ)
      → ((apply_del (key ∷ rest) s).1 ≡ none)
        × (Dict.get (apply_del (key ∷ rest) s).0.key_types key ≡ none)
        × ((Strings.get later key (apply_del (key ∷ rest) s).0).1 ≡ err key_not_found)
  unfolding apply_del Strings.get
  del_get later =
      (ground arith, grind (arith, get-remove_self), grind (arith, get-remove_self, get_of_not_has))

  -- On a key that holds a hash DEL reports no error either; it forgets the type and the expiry
  -- time, and leaves the hash: HGET still returns the field, at any time.
  del_keeps_hash :
      (fields : Dict Bytes) (field value : Bytes)
      → Dict.get s.hashes key ≡ some fields
      → Dict.get fields field ≡ some value
      → (later : ℕ)
      → ((apply_del (key ∷ rest) s).1 ≡ none)
        × ((Hashes.hget later key field (apply_del (key ∷ rest) s).0).1 ≡ ok value)
  unfolding apply_del Hashes.hget
  del_keeps_hash fields field value h f later = (ground arith, grind (arith, get-remove_self))
