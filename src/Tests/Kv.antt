-- ===== src/Tests/Kv.antt =====
-- The store, internal/kvstore, at concrete inputs.
use kver.Prelude.{ℕ, ◌-◌, ◌≡◌, refl, Bytes, codes, bytes_eq, false, none, some, [], ◌∷◌}
use kver.Prelude.Dict
use kver.Prelude.Int.{pos, negsuc}
use kver.Kv.Types.{ok, string, hash, list, ZsetOps}
use kver.Kv.Number.{
  parse_int, format_int, add_int, wrap_int, read_digits, read_number, digits, i64_half,
}
use kver.Kv.Store.{KvStore, new_kv_store, is_expired}
use kver.Kv.Strings
use kver.Kv.Hashes.{hset, hget, read_field}
use kver.Kv.Lists
use kver.Kv.Lists.{slice, lpush, rpush, lpop, rpop}
use kver.Kv.Lists.Queue.{Holds}
use kver.Kv.Apply.{apply_set, apply_add, apply_del, parse_absolute_ms, dispatch, to_upper}
use kver.Kv.Apply.Clock.{dispatch_same}

-- A sorted set that holds nothing, for the runs that use none.
abbrev pub no_sets : ZsetOps Unit ℕ
no_sets = record {
  empty = tt;
  insert = λ score member z. z;
  delete = λ member z. (z, false);
  search = λ member z. none;
  rank = λ member z. none;
  size = λ z. 0;
  range_by_rank = λ first last z. [];
  rev_range_by_rank = λ first last z. [];
  parse_score = λ text. none;
  format_score = λ score. [];
}

abbrev key : Bytes
key = codes "k"

abbrev fresh : KvStore Unit
fresh = new_kv_store

-- A counter that expires at 50 ns.
abbrev counting : KvStore Unit
counting = record fresh {
  strings = (key, codes "41") ∷ [];
  key_types = (key, string) ∷ [];
  expiry = (key, 50) ∷ [];
}

abbrev hashed : KvStore Unit
hashed = record fresh {
  hashes = (key, (codes "f", codes "1") ∷ []) ∷ [];
  key_types = (key, hash) ∷ [];
}

abbrev queued : KvStore Unit
queued = record fresh {
  lists = (key, codes "a" ∷ codes "b" ∷ []) ∷ [];
  key_types = (key, list) ∷ [];
}

program : Unit {0}
unfolding Dict.get Dict.put Dict.remove Dict.has Dict.is_empty bytes_eq Strings.set Strings.get
    Strings.add_value Strings.delete hset hget read_field slice lpush rpush lpop rpop
    Lists.push_front_all Lists.push_back_all apply_set apply_add apply_del parse_absolute_ms
    dispatch is_expired parse_int format_int add_int wrap_int read_digits read_number digits
    to_upper
program = tt

-- A counter, its wrap-around, and the switch on the name.
store_runs :
    ((Strings.add_value 9 key (pos 1) counting).1 ≡ ok (pos 42))
    × (add_int (pos (i64_half - 1)) (pos 1) ≡ negsuc (i64_half - 1))
    × (Dict.get
          (dispatch no_sets 9 (to_upper (codes "set")) (key ∷ codes "v" ∷ []) fresh).0.strings
          key
        ≡ some (codes "v"))
unfolding program
store_runs = (refl, refl, refl)

queued-Holds : Holds 9 key (codes "a" ∷ codes "b" ∷ []) queued
unfolding program
queued-Holds = record { stored = refl; typed = refl; fresh = refl }

dispatch_same_example :
    dispatch no_sets 9 (codes "INCR") (key ∷ []) counting
    ≡ dispatch no_sets 10 (codes "INCR") (key ∷ []) counting
unfolding program
dispatch_same_example = dispatch_same 9 10 key counting refl no_sets (codes "INCR") []
