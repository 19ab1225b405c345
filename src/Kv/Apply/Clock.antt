-- ===== src/Kv/Apply/Clock.antt =====
-- Replicas apply the same entries at different times (`Apply`, internal/kvstore/store.go).
use kver.Prelude.{ℕ, ◌≡◌, refl, Bytes, Option, none, some, List, [], ◌∷◌, arith}
use kver.Prelude.Int.{ℤ, pos, negsuc}
use kver.Kv.Types.{ZsetOps}
use kver.Kv.Store.{KvStore, is_expired}
use kver.Kv.Strings
use kver.Kv.Hashes
use kver.Kv.Lists
use kver.Kv.SortedSets
use kver.Kv.Apply.{
  apply_set, apply_add, apply_hset, apply_hdel, apply_lpush, apply_rpush, apply_lpop, apply_rpop,
  apply_zadd, apply_zrem, zadd_parsed, dispatch, split_values_absolute_ms,
}

module _ {Z : Type 0} (t u : ℕ) (key : Bytes) (s : KvStore Z)
    (same : is_expired t key s ≡ is_expired u key s) where
  strings_drop : Strings.drop_expired t key s ≡ Strings.drop_expired u key s
  unfolding Strings.drop_expired
  strings_drop = rw same

  set_same : (value : Bytes) → Strings.set t key value 0 s ≡ Strings.set u key value 0 s
  unfolding Strings.set
  set_same value = ground arith

  add_same : (delta : ℤ) → Strings.add_value t key delta s ≡ Strings.add_value u key delta s
  unfolding Strings.add_value
  add_same delta = ground arith

  hset_same :
      (field value : Bytes) → Hashes.hset t key field value 0 s ≡ Hashes.hset u key field value 0 s
  unfolding Hashes.hset
  hset_same field value = ground arith

  hdelete_same : (field : Bytes) → Hashes.hdelete t key field s ≡ Hashes.hdelete u key field s
  unfolding Hashes.hdelete
  hdelete_same field = ground arith

  lpush_same : (values : List Bytes) → Lists.lpush t key 0 values s ≡ Lists.lpush u key 0 values s
  unfolding Lists.lpush
  lpush_same values = ground arith

  rpush_same : (values : List Bytes) → Lists.rpush t key 0 values s ≡ Lists.rpush u key 0 values s
  unfolding Lists.rpush
  rpush_same values = ground arith

  lpop_same : Lists.lpop t key s ≡ Lists.lpop u key s
  unfolding Lists.lpop
  lpop_same = ground arith

  rpop_same : Lists.rpop t key s ≡ Lists.rpop u key s
  unfolding Lists.rpop
  rpop_same = ground arith

  module _ {S : Type 0} (ops : ZsetOps Z S) where
    zadd_same :
        (score : S) (member : Bytes)
        → SortedSets.zadd ops t key score member 0 s ≡ SortedSets.zadd ops u key score member 0 s
    unfolding SortedSets.zadd
    zadd_same score member = ground arith

    zrem_same :
        (member : Bytes)
        → SortedSets.zrem ops t t key member s ≡ SortedSets.zrem ops u u key member s
    unfolding SortedSets.zrem
    zrem_same member = ground arith

    zadd_parsed_same :
        (score : Option S) (member : Bytes) (rest : List Bytes)
        → zadd_parsed ops t key score member rest s ≡ zadd_parsed ops u key score member rest s
    unfolding zadd_parsed
    zadd_parsed_same none member rest = refl
    zadd_parsed_same (some score) member rest = rw (zadd_same score member)

    apply_hset_same :
        (rest : List Bytes) → apply_hset t (key ∷ rest) s ≡ apply_hset u (key ∷ rest) s
    unfolding apply_hset
    apply_hset_same [] = refl
    apply_hset_same (field ∷ []) = refl
    apply_hset_same (field ∷ value ∷ rest) = rw (hset_same field value)

    apply_zadd_same :
        (rest : List Bytes) → apply_zadd ops t (key ∷ rest) s ≡ apply_zadd ops u (key ∷ rest) s
    unfolding apply_zadd
    apply_zadd_same [] = refl
    apply_zadd_same (score ∷ []) = refl
    apply_zadd_same (score ∷ member ∷ rest) = zadd_parsed_same (ops.parse_score score) member rest

    apply_two_same :
        (rest : List Bytes)
        → (apply_set t (key ∷ rest) s ≡ apply_set u (key ∷ rest) s)
          × (apply_hdel t (key ∷ rest) s ≡ apply_hdel u (key ∷ rest) s)
          × (apply_lpush t (key ∷ rest) s ≡ apply_lpush u (key ∷ rest) s)
          × (apply_rpush t (key ∷ rest) s ≡ apply_rpush u (key ∷ rest) s)
          × (apply_zrem ops t (key ∷ rest) s ≡ apply_zrem ops u (key ∷ rest) s)
    unfolding apply_set apply_hdel apply_lpush apply_rpush apply_zrem
    apply_two_same [] = (refl, refl, refl, refl, refl)
    apply_two_same (arg ∷ rest) = (
      rw (set_same arg),
      rw (hdelete_same arg),
      rw (lpush_same (split_values_absolute_ms (arg ∷ rest)).0),
      rw (rpush_same (split_values_absolute_ms (arg ∷ rest)).0),
      rw (zrem_same arg),
    )

    apply_one_same :
        (rest : List Bytes)
        → ((delta : ℤ) → apply_add delta t (key ∷ rest) s ≡ apply_add delta u (key ∷ rest) s)
          × (apply_lpop t (key ∷ rest) s ≡ apply_lpop u (key ∷ rest) s)
          × (apply_rpop t (key ∷ rest) s ≡ apply_rpop u (key ∷ rest) s)
    unfolding apply_add apply_lpop apply_rpop
    apply_one_same rest = (λ delta. rw (add_same delta), rw lpop_same, rw rpop_same)

    -- Two replicas that apply one command to one state at different times reach one state and
    -- one result, if they agree on whether the command's key has expired.
    pub dispatch_same :
        (op : Bytes) (rest : List Bytes)
        → dispatch ops t op (key ∷ rest) s ≡ dispatch ops u op (key ∷ rest) s
    unfolding dispatch
    dispatch_same op rest =
        let (set, hdel, lpush, rpush, zrem) = apply_two_same rest in
        let (add, lpop, rpop) = apply_one_same rest in
        rw
          (
            set,
            add (pos 1),
            add (negsuc 0),
            apply_hset_same rest,
            hdel,
            lpush,
            rpush,
            lpop,
            rpop,
            apply_zadd_same rest,
            zrem,
          )
          refl
