-- ===== src/Kv/Lists.antt =====
-- internal/kvstore/list.go. The elements of a `container/list` are a sequence; a length fits int64.
pub mod Queue
pub mod Sequence
pub mod Range
use kver.Prelude.{
  ℕ, suc, ◌+◌, ◌-◌, Bytes, Option, none, some, List, [], ◌∷◌, ◌++◌, ltb, leb, ◌==◌, if◌then◌else◌,
  length,
}
use kver.Prelude.Dict
use kver.Prelude.Int.{ℤ, pos, negsuc}
use kver.Kv.Types.{KvError, Reply, ok, err, key_not_found, empty_list, list}
use kver.Kv.Store.{
  KvStore, check_type, check_and_set_type, delete_type, ttl_set, ttl_delete, is_expired,
}

-- for _, v := range values { ll.PushFront(v) }
unfoldable pub push_front_all : List Bytes → List Bytes → List Bytes
push_front_all [] ll = ll
push_front_all (v ∷ values) ll = push_front_all values (v ∷ ll)

-- for _, v := range values { ll.PushBack(v) }
unfoldable pub push_back_all : List Bytes → List Bytes → List Bytes
push_back_all [] ll = ll
push_back_all (v ∷ values) ll = push_back_all values (ll ++ v ∷ [])

-- ll.Front() and ll.Back(), each with the list that its removal leaves.
unfoldable pub pop_front : List Bytes → Option (Bytes × List Bytes)
pop_front [] = none
pop_front (v ∷ ll) = some (v, ll)

put_back : Bytes → Option (Bytes × List Bytes) → Option (Bytes × List Bytes)
put_back v none = some (v, [])
put_back v (some (last, front)) = some (last, v ∷ front)

unfoldable pub pop_back : List Bytes → Option (Bytes × List Bytes)
unfolding put_back
pop_back [] = none
pop_back (v ∷ ll) = put_back v (pop_back ll)

list_or_new : Option (List Bytes) → List Bytes
list_or_new none = []
list_or_new (some ll) = ll

-- A negative index counts from the end, and stops at the start.
unfoldable pub from_end : ℕ → ℤ → ℕ
from_end len (pos n) = n
from_end len (negsuc n) = len - suc n

-- for i := 0; i <= stop; i++ { if i >= start { append } }
unfoldable pub collect : ℕ → ℕ → ℕ → List Bytes → List Bytes
collect i start stop [] = []
collect i start stop (v ∷ ll) =
    let rest = collect (i + 1) start stop ll in
    if leb i stop then (if leb start i then v ∷ rest else rest) else []

unfoldable pub slice : ℕ → ℕ → List Bytes → List Bytes
unfolding collect
slice start stop ll =
    let last = if leb (length ll) stop then length ll - 1 else stop in
    if leb (length ll) start then [] else if ltb last start then [] else collect 0 start last ll

range_elements : ℤ → ℤ → List Bytes → Reply (List Bytes)
unfolding slice from_end
range_elements start stop ll =
    if length ll == 0
    then err empty_list
    else ok (slice (from_end (length ll) start) (from_end (length ll) stop) ll)

read_range : ℤ → ℤ → Option (List Bytes) → Reply (List Bytes)
unfolding range_elements
read_range start stop none = err key_not_found
read_range start stop (some ll) = range_elements start stop ll

read_length : Option (List Bytes) → ℕ
read_length none = 0
read_length (some ll) = length ll

module _ {Z : Type 0} where
  unfoldable pub delete_key : Bytes → KvStore Z → KvStore Z
  unfolding delete_type ttl_delete
  delete_key key s = delete_type key (ttl_delete key (record s { lists = Dict.remove s.lists key }))

  unfoldable pub drop_expired : ℕ → Bytes → KvStore Z → KvStore Z
  unfolding is_expired delete_key
  drop_expired now key s = if is_expired now key s then delete_key key s else s

  -- `push` is the loop of LPush or of RPush.
  push_typed :
      (List Bytes → List Bytes) → ℕ → Bytes → ℕ → KvStore Z × Option KvError → KvStore Z × Reply ℕ
  unfolding ttl_set list_or_new
  push_typed push now key ttl (s, some e) = (s, err e)
  push_typed push now key ttl (s, none) =
      let ll = push (list_or_new (Dict.get s.lists key)) in
      let s' = record s { lists = Dict.put s.lists key ll } in
      (if ltb 0 ttl then ttl_set now key ttl s' else s', ok (length ll))

  unfoldable pub lpush : ℕ → Bytes → ℕ → List Bytes → KvStore Z → KvStore Z × Reply ℕ
  unfolding drop_expired check_and_set_type push_typed
  lpush now key ttl values s =
      push_typed (push_front_all values) now key ttl
        (check_and_set_type key list (drop_expired now key s))

  unfoldable pub rpush : ℕ → Bytes → ℕ → List Bytes → KvStore Z → KvStore Z × Reply ℕ
  unfolding drop_expired check_and_set_type push_typed
  rpush now key ttl values s =
      push_typed (push_back_all values) now key ttl
        (check_and_set_type key list (drop_expired now key s))

  -- The list goes with its last element, and then the expiry time and the type too.
  keep_rest : Bytes → List Bytes → KvStore Z → KvStore Z
  unfolding delete_key
  keep_rest key [] s = delete_key key s
  keep_rest key (v ∷ rest) s = record s { lists = Dict.put s.lists key (v ∷ rest) }

  pop_found : Bytes → Option (Bytes × List Bytes) → KvStore Z → KvStore Z × Reply Bytes
  unfolding keep_rest
  pop_found key none s = (s, err empty_list)
  pop_found key (some (v, rest)) s = (keep_rest key rest s, ok v)

  pop_list :
      (List Bytes → Option (Bytes × List Bytes))
      → Bytes
      → Option (List Bytes)
      → KvStore Z
      → KvStore Z × Reply Bytes
  unfolding pop_found
  pop_list pop key none s = (s, err key_not_found)
  pop_list pop key (some ll) s = pop_found key (pop ll) s

  pop_typed :
      (List Bytes → Option (Bytes × List Bytes))
      → ℕ
      → Bytes
      → Option KvError
      → KvStore Z
      → KvStore Z × Reply Bytes
  unfolding is_expired delete_key pop_list
  pop_typed pop now key (some e) s = (s, err e)
  pop_typed pop now key none s =
      if is_expired now key s
      then (delete_key key s, err key_not_found)
      else pop_list pop key (Dict.get s.lists key) s

  unfoldable pub lpop : ℕ → Bytes → KvStore Z → KvStore Z × Reply Bytes
  unfolding check_type pop_typed pop_front
  lpop now key s = pop_typed pop_front now key (check_type key list s) s

  unfoldable pub rpop : ℕ → Bytes → KvStore Z → KvStore Z × Reply Bytes
  unfolding check_type pop_typed
  rpop now key s = pop_typed pop_back now key (check_type key list s) s

  lrange_typed : ℕ → Bytes → ℤ → ℤ → Option KvError → KvStore Z → KvStore Z × Reply (List Bytes)
  unfolding is_expired delete_key read_range
  lrange_typed now key start stop (some e) s = (s, err e)
  lrange_typed now key start stop none s =
      if is_expired now key s
      then (delete_key key s, err key_not_found)
      else (s, read_range start stop (Dict.get s.lists key))

  unfoldable pub lrange : ℕ → Bytes → ℤ → ℤ → KvStore Z → KvStore Z × Reply (List Bytes)
  unfolding check_type lrange_typed
  lrange now key start stop s = lrange_typed now key start stop (check_type key list s) s

  llen_typed : ℕ → Bytes → Option KvError → KvStore Z → KvStore Z × Reply ℕ
  unfolding is_expired delete_key read_length
  llen_typed now key (some e) s = (s, err e)
  llen_typed now key none s =
      if is_expired now key s
      then (delete_key key s, ok 0)
      else (s, ok (read_length (Dict.get s.lists key)))

  unfoldable pub llen : ℕ → Bytes → KvStore Z → KvStore Z × Reply ℕ
  unfolding check_type llen_typed
  llen now key s = llen_typed now key (check_type key list s) s
