-- ===== src/Kv/Types.antt =====
-- internal/kvstore/errors.go, the kinds of values of store.go, and the interface of the skip list
-- that sortedset.go uses.
use kver.Prelude.{ℕ, Bytes, Bool, true, false, Option, List}

pub data KvError : Type 0 where
  key_not_found wrong_type out_of_range empty_list unknown_command invalid_args : KvError
  -- an error of the protobuf library that is passed on
  unmarshal_error : KvError

pub data Reply {ℓ} (A : Type ℓ) : Type ℓ where
  ok : A → Reply A
  err : KvError → Reply A

-- The values of `keyTypes`: "string", "hash", "list" and "zset".
pub data Kind : Type 0 where
  string hash list zset : Kind

unfoldable pub kind_eq : Kind → Kind → Bool
kind_eq string string = true
kind_eq hash hash = true
kind_eq list list = true
kind_eq zset zset = true
kind_eq _ _ = false

-- The operations of skiplist.go on a sorted set `Z` with scores `S`, and what strconv and fmt do
-- with a score. A rank is `none` where the member is missing.
pub record ZsetOps (Z S : Type 0) : Type 0 where
  pub empty : Z
  pub insert : S → Bytes → Z → Z
  pub delete : Bytes → Z → Z × Bool
  pub search : Bytes → Z → Option S
  pub rank : Bytes → Z → Option ℕ
  pub size : Z → ℕ
  pub range_by_rank : ℕ → ℕ → Z → List (S × Bytes)
  pub rev_range_by_rank : ℕ → ℕ → Z → List (S × Bytes)
  pub parse_score : Bytes → Option S
  pub format_score : S → Bytes
