-- ===== src/Kv/SortedSets.antt =====
-- internal/kvstore/sortedset.go, over the operations of the skip list.
use kver.Prelude.{
  ℕ, Bytes, Bool, true, false, Option, none, some, List, [], ◌∷◌, ◌++◌, ltb, leb, ◌==◌,
  if◌then◌else◌, map, ◌||◌,
}
use kver.Prelude.Dict
use kver.Prelude.Int.{ℤ}
use kver.Kv.Types.{KvError, Reply, ok, err, key_not_found, zset, ZsetOps}
use kver.Kv.Store.{
  KvStore, check_type, check_and_set_type, delete_type, ttl_set, ttl_delete, is_expired,
}
use kver.Kv.Lists.{from_end}

module _ {Z : Type 0} where
  unfoldable pub delete_key : Bytes → KvStore Z → KvStore Z
  unfolding delete_type ttl_delete
  delete_key key s =
      delete_type key (ttl_delete key (record s { sorted_sets = Dict.remove s.sorted_sets key }))

  unfoldable pub drop_expired : ℕ → Bytes → KvStore Z → KvStore Z
  unfolding is_expired delete_key
  drop_expired now key s = if is_expired now key s then delete_key key s else s

module _ {Z S : Type 0} (ops : ZsetOps Z S) where
  open ops use {empty, insert, search, rank, size, range_by_rank, rev_range_by_rank, format_score}

  set_or_new : Option Z → Z
  set_or_new none = empty
  set_or_new (some z) = z

  zadd_typed : ℕ → Bytes → S → Bytes → ℕ → KvStore Z × Option KvError → KvStore Z × Option KvError
  unfolding ttl_set set_or_new
  zadd_typed now key score member ttl (s, some e) = (s, some e)
  zadd_typed now key score member ttl (s, none) =
      let z = insert score member (set_or_new (Dict.get s.sorted_sets key)) in
      let s' = record s { sorted_sets = Dict.put s.sorted_sets key z } in
      (if ltb 0 ttl then ttl_set now key ttl s' else s', none)

  unfoldable pub zadd : ℕ → Bytes → S → Bytes → ℕ → KvStore Z → KvStore Z × Option KvError
  unfolding drop_expired check_and_set_type zadd_typed
  zadd now key score member ttl s =
      zadd_typed now key score member ttl (check_and_set_type key zset (drop_expired now key s))

  -- A member's score or rank, or its absence.
  found : {A : Type 0} → Option A → Reply A
  found none = err key_not_found
  found (some a) = ok a

  read_set : {A : Type 0} → (Z → Reply A) → Option Z → Reply A
  read_set read none = err key_not_found
  read_set read (some z) = read z

  -- What the reads share: the type check, the expired key, and the set or its absence.
  with_set_typed :
      {A : Type 0} → ℕ → Bytes → (Z → Reply A) → Option KvError → KvStore Z → KvStore Z × Reply A
  unfolding is_expired delete_key read_set
  with_set_typed now key read (some e) s = (s, err e)
  with_set_typed now key read none s =
      if is_expired now key s
      then (delete_key key s, err key_not_found)
      else (s, read_set read (Dict.get s.sorted_sets key))

  unfoldable pub with_set :
      {A : Type 0} → ℕ → Bytes → (Z → Reply A) → KvStore Z → KvStore Z × Reply A
  unfolding check_type with_set_typed
  with_set now key read s = with_set_typed now key read (check_type key zset s) s

  unfoldable pub zscore : ℕ → Bytes → Bytes → KvStore Z → KvStore Z × Reply S
  unfolding with_set found
  zscore now key member s = with_set now key (λ z. found (search member z)) s

  unfoldable pub zrank : ℕ → Bytes → Bytes → KvStore Z → KvStore Z × Reply ℕ
  unfolding with_set found
  zrank now key member s = with_set now key (λ z. found (rank member z)) s

  -- fmt.Sprintf("%s:%g", n.member, n.score), or the member alone
  format_node : Bool → S × Bytes → Bytes
  format_node true (score, member) = member ++ b':' ∷ format_score score
  format_node false (score, member) = member

  -- `by_rank` is rangeByRank or revRangeByRank.
  range_elements : (ℕ → ℕ → Z → List (S × Bytes)) → ℤ → ℤ → Bool → Z → Reply (List Bytes)
  unfolding from_end format_node
  range_elements by_rank start stop with_scores z =
      let first = from_end (size z) start in
      let last = from_end (size z) stop in
      if ltb last first || leb (size z) first
      then ok []
      else ok (map (format_node with_scores) (by_rank first last z))

  unfoldable pub zrange : ℕ → Bytes → ℤ → ℤ → Bool → KvStore Z → KvStore Z × Reply (List Bytes)
  unfolding with_set range_elements
  zrange now key start stop with_scores s =
      with_set now key (range_elements range_by_rank start stop with_scores) s

  unfoldable pub zrev_range : ℕ → Bytes → ℤ → ℤ → Bool → KvStore Z → KvStore Z × Reply (List Bytes)
  unfolding with_set range_elements
  zrev_range now key start stop with_scores s =
      with_set now key (range_elements rev_range_by_rank start stop with_scores) s

  -- The set goes with its last member, and then the expiry time and the type too. A member that
  -- is missing is no error.
  remove_member : Bytes → Z × Bool → KvStore Z → KvStore Z
  unfolding delete_key
  remove_member key (z, false) s = record s { sorted_sets = Dict.put s.sorted_sets key z }
  remove_member key (z, true) s =
      if size z == 0
      then delete_key key s
      else record s { sorted_sets = Dict.put s.sorted_sets key z }

  zrem_set : Bytes → Bytes → Option Z → KvStore Z → KvStore Z × Option KvError
  unfolding remove_member
  zrem_set key member none s = (s, some key_not_found)
  zrem_set key member (some z) s = (remove_member key (ops.delete member z) s, none)

  -- `now'` is the time at the second check, under the lock.
  zrem_typed : ℕ → ℕ → Bytes → Bytes → Option KvError → KvStore Z → KvStore Z × Option KvError
  unfolding is_expired delete_key zrem_set
  zrem_typed now now' key member (some e) s = (s, some e)
  zrem_typed now now' key member none s =
      if is_expired now key s || is_expired now' key s
      then (delete_key key s, some key_not_found)
      else zrem_set key member (Dict.get s.sorted_sets key) s

  unfoldable pub zrem : ℕ → ℕ → Bytes → Bytes → KvStore Z → KvStore Z × Option KvError
  unfolding check_type zrem_typed
  zrem now now' key member s = zrem_typed now now' key member (check_type key zset s) s
