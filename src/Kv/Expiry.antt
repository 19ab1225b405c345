-- ===== src/Kv/Expiry.antt =====
-- The background cleanup (`cleanup` of internal/kvstore/ttl.go) and its callback (`deleteKey` of
-- internal/kvstore/store.go).
use kver.Prelude.{ℕ, Bytes, Option, none, some, List, [], ◌∷◌, ltb, if◌then◌else◌}
use kver.Prelude.Dict
use kver.Prelude.Dict.{Dict}
use kver.Kv.Types.{Kind, string, hash, list, zset}
use kver.Kv.Store.{KvStore}
use kver.Kv.Strings
use kver.Kv.Hashes
use kver.Kv.Lists
use kver.Kv.SortedSets

-- The entries that stay and the keys that go, in the order of iteration.
unfoldable pub expired_keys : ℕ → Dict ℕ → List Bytes
expired_keys now [] = []
expired_keys now ((key, t) ∷ expiry) =
    let rest = expired_keys now expiry in if ltb t now then key ∷ rest else rest

unfoldable pub live_entries : ℕ → Dict ℕ → Dict ℕ
live_entries now [] = []
live_entries now ((key, t) ∷ expiry) =
    let rest = live_entries now expiry in if ltb t now then rest else (key, t) ∷ rest

module _ {Z : Type 0} where
  delete_of_kind : Bytes → Option Kind → KvStore Z → KvStore Z
  unfolding Strings.delete Hashes.delete_key Lists.delete_key SortedSets.delete_key
  delete_of_kind key none s = s
  delete_of_kind key (some string) s = (Strings.delete key s).0
  delete_of_kind key (some hash) s = Hashes.delete_key key s
  delete_of_kind key (some list) s = Lists.delete_key key s
  delete_of_kind key (some zset) s = SortedSets.delete_key key s

  -- deleteKey, the callback
  unfoldable pub delete_key : Bytes → KvStore Z → KvStore Z
  unfolding delete_of_kind
  delete_key key s = delete_of_kind key (Dict.get s.key_types key) s

  unfoldable pub delete_keys : List Bytes → KvStore Z → KvStore Z
  unfolding delete_key
  delete_keys [] s = s
  delete_keys (key ∷ keys) s = delete_keys keys (delete_key key s)

  unfoldable pub cleanup : ℕ → KvStore Z → KvStore Z
  unfolding delete_keys expired_keys live_entries
  cleanup now s =
      delete_keys (expired_keys now s.expiry) (record s { expiry = live_entries now s.expiry })
