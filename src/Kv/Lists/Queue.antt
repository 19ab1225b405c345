-- ===== src/Kv/Lists/Queue.antt =====
-- The list commands of internal/kvstore/list.go as operations on a queue with two ends.
use mathlib.Core.List.{reverse}
use kver.Prelude.{
  ℕ, ◌≡◌, Bytes, false, none, some, List, [], ◌∷◌, ◌++◌, arith, if◌then◌else◌, length,
}
use kver.Prelude.Dict
use kver.Prelude.Dict.{get-put_self, get-remove_self}
use kver.Kv.Types.{ok, list}
use kver.Kv.Store.{KvStore, is_expired}
use kver.Kv.Lists.{lpush, rpush, lpop, rpop, list_or_new}
use kver.Kv.Lists.Sequence.{push_front_all_lem, push_back_all_lem, pop_back-append}

-- The list under a key, as a push finds it: empty where the key is missing or has expired.
pub elements : {Z : Type 0} → ℕ → Bytes → KvStore Z → List Bytes
elements now key s = if is_expired now key s then [] else list_or_new (Dict.get s.lists key)

-- The key holds this list, and no expiry time that has passed.
pub record Holds {Z : Type 0} (now : ℕ) (key : Bytes) (ll : List Bytes) (s : KvStore Z)
    : Type 0 where
  pub stored : Dict.get s.lists key ≡ some ll
  pub typed : Dict.get s.key_types key ≡ some list
  pub fresh : is_expired now key s ≡ false

module _ {Z : Type 0} (now : ℕ) (key : Bytes) (values : List Bytes) (s : KvStore Z) where
  -- RPUSH, where it succeeds, puts its values behind the list in their order, and returns the
  -- new length.
  pub rpush-Holds :
      (n : ℕ)
      → (rpush now key 0 values s).1 ≡ ok n
      → Holds now key (elements now key s ++ values) (rpush now key 0 values s).0
        × (n ≡ length (elements now key s ++ values))
  unfolding rpush elements
  rpush-Holds n h = (
    record {
      stored = grind (arith, get-put_self, push_back_all_lem, get-remove_self);
      typed = grind (arith, get-put_self);
      fresh = grind (arith, get-remove_self);
    },
    grind (arith, push_back_all_lem, get-remove_self),
  )

  -- LPUSH, where it succeeds, puts its values in front of the list, the last one first, and
  -- returns the new length.
  pub lpush-Holds :
      (n : ℕ)
      → (lpush now key 0 values s).1 ≡ ok n
      → Holds now key (reverse values ++ elements now key s) (lpush now key 0 values s).0
        × (n ≡ length (reverse values ++ elements now key s))
  unfolding lpush elements
  lpush-Holds n h = (
    record {
      stored = grind (arith, get-put_self, push_front_all_lem, get-remove_self);
      typed = grind (arith, get-put_self);
      fresh = grind (arith, get-remove_self);
    },
    grind (arith, push_front_all_lem, get-remove_self),
  )

-- What a pop leaves of the list: with its last element the key goes, with its type and its expiry
-- time.
pub Leaves : {Z : Type 0} → ℕ → Bytes → List Bytes → KvStore Z → Type 0
Leaves now key [] s =
    (Dict.get s.lists key ≡ none)
    × (Dict.get s.key_types key ≡ none)
    × (Dict.get s.expiry key ≡ none)
Leaves now key (x ∷ ll) s = Holds now key (x ∷ ll) s

module _ {Z : Type 0} (now : ℕ) (key : Bytes) (s : KvStore Z) (v : Bytes) where
  -- LPOP returns the first element and leaves the others; with the last one the key goes.
  lpop-Leaves :
      (ll : List Bytes)
      → Holds now key (v ∷ ll) s
      → ((lpop now key s).1 ≡ ok v) × Leaves now key ll (lpop now key s).0
  unfolding lpop Leaves
  lpop-Leaves [] h = (
    ground arith,
    (
      grind (arith, get-remove_self),
      grind (arith, get-remove_self),
      grind (arith, get-remove_self),
    ),
  )
  lpop-Leaves (x ∷ ll) h = (
    ground arith,
    record { stored = grind (arith, get-put_self); typed = grind arith; fresh = grind arith },
  )

  -- RPOP does the same at the other end.
  pub rpop-Leaves :
      (ll : List Bytes)
      → Holds now key (ll ++ v ∷ []) s
      → ((rpop now key s).1 ≡ ok v) × Leaves now key ll (rpop now key s).0
  unfolding rpop Leaves
  rpop-Leaves [] h =
      let back = pop_back-append [] v in
      (
        ground arith,
        (
          grind (arith, get-remove_self),
          grind (arith, get-remove_self),
          grind (arith, get-remove_self),
        ),
      )
  rpop-Leaves (x ∷ ll) h =
      let back = pop_back-append (x ∷ ll) v in
      (
        ground arith,
        record { stored = grind (arith, get-put_self); typed = grind arith; fresh = grind arith },
      )
