-- ===== src/Kv/SkipList/Ops.antt =====
-- The skip list of internal/kvstore/skiplist.go as the sorted set of a store.
use kver.Prelude.{ℕ, Bytes, Bool, false, Option, none, some, []}
use kver.Prelude.Int.{pos}
use kver.Kv.Types.{ZsetOps}
use kver.Kv.SkipList.{
  ScoreOps, SkipList, new_skip_list, search, rank, range_by_rank, rev_range_by_rank,
}
use kver.Kv.SkipList.Write.{insert, delete}

unfoldable pub or_else : {A : Type 0} → A → Option A → A
or_else other none = other
or_else other (some a) = a

-- `none` stands for a panic, which well-formed lists do not meet; a list is then kept as it is. A
-- call of `insert` takes its coins from `coins`.
abbrev pub skip_list_ops :
    {S : Type 0}
    → ScoreOps S
    → (SkipList S → ℕ → Bool)
    → (Bytes → Option S)
    → (S → Bytes)
    → ZsetOps (SkipList S) S
skip_list_ops sc coins parse format = record {
  empty = new_skip_list sc;
  insert = λ score member z. or_else z (insert sc (coins z) score member z);
  delete = λ member z. or_else (z, false) (delete sc member z);
  search = λ member z. search sc member z;
  rank = λ member z. or_else none (rank sc member z);
  size = λ z. z.length;
  range_by_rank = λ first last z. or_else [] (range_by_rank sc (pos first) (pos last) z);
  rev_range_by_rank = λ first last z. rev_range_by_rank sc (pos first) (pos last) z;
  parse_score = parse;
  format_score = format;
}
