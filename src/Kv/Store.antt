-- ===== src/Kv/Store.antt =====
-- The state of `KVStore` (internal/kvstore/store.go) with its table of types, and the table of
-- expiry times (internal/kvstore/ttl.go). Times are nanoseconds since the epoch; a function that
-- asks for the time takes it as `now`.
use kver.Prelude.{
  ℕ, ◌+◌, ◌-◌, ◌*◌, Bytes, Bool, false, List, Option, none, some, [], ltb, if◌then◌else◌,
}
use kver.Prelude.Dict
use kver.Prelude.Dict.{Dict}
use kver.Prelude.Int.{ℤ, pos, negsuc}
use kver.Kv.Types.{KvError, Kind, kind_eq, wrong_type}

pub record KvStore (Z : Type 0) : Type 0 where
  pub key_types : Dict Kind
  pub strings : Dict Bytes
  pub hashes : Dict (Dict Bytes)
  pub lists : Dict (List Bytes)
  pub sorted_sets : Dict Z
  pub expiry : Dict ℕ

module _ {Z : Type 0} where
  -- NewKVStore
  abbrev pub new_kv_store : KvStore Z
  new_kv_store = record {
    key_types = [];
    strings = [];
    hashes = [];
    lists = [];
    sorted_sets = [];
    expiry = [];
  }

  unfoldable pub check_type : Bytes → Kind → KvStore Z → Option KvError
  unfolding kind_eq
  check_type key expected s = elim (Dict.get s.key_types key) [
    | none ↦ none
    | some t ↦ if kind_eq t expected then none else some wrong_type
  ]

  unfoldable pub set_type : Bytes → Kind → KvStore Z → KvStore Z
  set_type key kind s = record s { key_types = Dict.put s.key_types key kind }

  -- CheckAndSetType: nothing is written where the check fails.
  unfoldable pub check_and_set_type : Bytes → Kind → KvStore Z → KvStore Z × Option KvError
  unfolding check_type set_type
  check_and_set_type key expected s = elim (check_type key expected s) [
    | none ↦ (set_type key expected s, none)
    | some e ↦ (s, some e)
  ]

  unfoldable pub delete_type : Bytes → KvStore Z → KvStore Z
  delete_type key s = record s { key_types = Dict.remove s.key_types key }

  -- TTLManager.Set: a duration of zero stands for every duration that is not positive.
  unfoldable pub ttl_set : ℕ → Bytes → ℕ → KvStore Z → KvStore Z
  ttl_set now key ttl s =
      if ltb 0 ttl
      then record s { expiry = Dict.put s.expiry key (now + ttl) }
      else record s { expiry = Dict.remove s.expiry key }

  -- TTLManager.SetAbsolute, in milliseconds.
  unfoldable pub ttl_set_absolute : Bytes → ℤ → KvStore Z → KvStore Z
  ttl_set_absolute key (negsuc n) s = record s { expiry = Dict.remove s.expiry key }
  ttl_set_absolute key (pos ms) s =
      if ltb 0 ms
      then record s { expiry = Dict.put s.expiry key (ms * 1_000_000) }
      else record s { expiry = Dict.remove s.expiry key }

  unfoldable pub ttl_delete : Bytes → KvStore Z → KvStore Z
  ttl_delete key s = record s { expiry = Dict.remove s.expiry key }

  -- TTLManager.Get: the time that is left.
  unfoldable pub ttl_get : ℕ → Bytes → KvStore Z → Option ℕ
  ttl_get now key s = elim (Dict.get s.expiry key) [
    | none ↦ none
    | some t ↦ if ltb now t then some (t - now) else none
  ]

  unfoldable pub is_expired : ℕ → Bytes → KvStore Z → Bool
  is_expired now key s = elim (Dict.get s.expiry key) [ none ↦ false | some t ↦ ltb t now ]
