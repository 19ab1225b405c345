-- ===== src/Tests/SkipList.antt =====
-- The skip list of internal/kvstore/skiplist.go with numbers as scores: a list of two nodes, the
-- first of them on two levels.
use kver.Prelude.{
  ℕ, zero, suc, ◌≡◌, refl, arith, Bytes, bytes_eq, Bool, false, ◌&&◌, Option, none, some, List, [],
  ◌∷◌, ltb, ◌==◌, if◌then◌else◌,
}
use kver.Prelude.Dict
use kver.Prelude.Int.{ℤ, pos}
use kver.Kv.SkipList.{
  ScoreOps, SkipList, new_skip_list, entry_of, less, rank, search, range_by_rank, rev_range_by_rank,
  header, max_level,
}
use kver.Kv.SkipList.Write.{insert}
use kver.Kv.SkipList.Order.{ScoreLaws}
use kver.Kv.SkipList.Entries.{find, remove_entry, insert_sorted}
use kver.Kv.SkipList.Search.{heights}
use kver.Kv.SkipList.Links.{Links}
use kver.Kv.SkipList.Shape.{IsSkipList}
use kver.Kv.SkipList.Insert.{insert-insert_entry, Inserts, insert_entry}
use kver.Kv.SkipList.History.{Change, inserted, removed, run, run_entries, run-run_entries}
use kver.Kv.SkipList.Ranks.{rank-rank_of, rank_of}
use kver.Kv.SkipList.Ranges.{between}
use mathlib.Core.List.{reverse}
use kver.Kv.SkipList.RevRanges.{ranges-between}

abbrev pub numbers : ScoreOps ℕ
numbers = record { zero_score = 0; eq = λ a b. a == b; lt = λ a b. ltb a b }

pub numbers_laws : ScoreLaws numbers
numbers_laws = record {
  eq_refl = λ a. ground arith;
  eq_sym = λ a b h. ground arith;
  eq_trans = λ a b c h k. ground arith;
  lt_trans = λ a b c h k. ground arith;
  lt_eq = λ a b c h k. ground arith;
  eq_lt = λ a b c h k. ground arith;
  apart = λ a b h. ground arith;
  one_way = λ a b h. ground arith;
  total = λ a b h k. ground arith;
}

abbrev ann : Bytes
ann = b'a' ∷ []

abbrev bob : Bytes
bob = b'b' ∷ []

abbrev cat : Bytes
cat = b'c' ∷ []

abbrev heads_once : ℕ → Bool
heads_once i = i == 0

abbrev pub two_nodes : SkipList ℕ
two_nodes = record {
  node = λ a.
      if a == 2
      then record { score = 10; member = ann; height = 2 }
      else if a == 3
      then record { score = 20; member = bob; height = 1 }
      else record { score = 0; member = []; height = if a == header then max_level else 0 };
  forward = λ a i. if (a == header) && ltb i 2 then 2 else if (a == 2) && (i == 0) then 3 else 0;
  backward = λ a. if a == 3 then 2 else 0;
  fresh = 4;
  tail = 3;
  level = 2;
  length = 2;
  dict = (ann, 10) ∷ (bob, 20) ∷ [];
}

-- Two insertions, a change of the order and a deletion.
abbrev calls : List (Change ℕ)
calls =
    inserted heads_once 10 ann
    ∷ inserted (λ i. false) 20 bob
    ∷ inserted heads_once 5 bob
    ∷ removed ann
    ∷ []

abbrev pub two : List ℕ
two = 2 ∷ 3 ∷ []

two_nodes-Links : (i : ℕ) → Links two_nodes.forward (heights two_nodes) i header two
two_nodes-Links zero =
    Links.tall (omega arith) refl (Links.tall (omega arith) refl (Links.stop refl))
two_nodes-Links (suc zero) =
    Links.tall (omega arith) refl (Links.low (omega arith) (Links.stop refl))
two_nodes-Links (suc (suc i)) =
    Links.low (omega arith) (Links.low (omega arith) (Links.stop (ground arith)))

pub two_nodes-IsSkipList : IsSkipList numbers two_nodes two
unfolding Dict.get find less entry_of bytes_eq
two_nodes-IsSkipList = record {
  links = λ i h. two_nodes-Links i;
  distinct = (
    (λ e. absurd (omega arith)),
    refl,
    ((λ e. absurd (omega arith)), refl, ((λ e. absurd (omega arith)), refl, tt)),
  );
  used = (omega arith, (omega arith, (omega arith, tt)));
  top = refl;
  tall = (omega arith, (omega arith, tt));
  low = (omega arith, (omega arith, tt));
  levels = (omega arith, omega arith);
  sorted = ((refl, tt), (tt, tt));
  once = (refl, (refl, tt));
  scores = λ m. refl;
  size = refl;
  back = (refl, (refl, refl));
}

-- What insertions, a change of a score and a deletion leave, as ranges show it.
shown : Option (SkipList ℕ) → Option (List (ℕ × Bytes)) × List (ℕ × Bytes)
unfolding range_by_rank rev_range_by_rank
shown none = (none, [])
shown (some z) =
    (range_by_rank numbers (pos 0) (pos 9) z, rev_range_by_rank numbers (pos 1) (pos 1) z)

insert_two_run :
    shown (insert numbers (λ i. false) 5 bob two_nodes)
    ≡ (some ((5, bob) ∷ (10, ann) ∷ []), (5, bob) ∷ [])
unfolding shown insert Dict.get bytes_eq
insert_two_run = refl

insert_three_run :
    shown (insert numbers heads_once 15 cat two_nodes)
    ≡ (some ((10, ann) ∷ (15, cat) ∷ (20, bob) ∷ []), (15, cat) ∷ [])
unfolding shown insert Dict.get bytes_eq
insert_three_run = refl

insert-insert_entry_example :
    Inserts numbers 5 bob ((10, ann) ∷ (20, bob) ∷ []) (insert numbers heads_once 5 bob two_nodes)
unfolding entry_of
insert-insert_entry_example =
    insert-insert_entry numbers numbers_laws heads_once 5 bob two_nodes two two_nodes-IsSkipList

run-run_entries_example :
    (z : SkipList ℕ) × (run numbers calls (new_skip_list numbers) ≡ some z)
    × ((m : Bytes) → search numbers m z ≡ find m (run_entries numbers calls []))
    × ((m : Bytes) → rank numbers m z ≡ some (rank_of m (run_entries numbers calls [])))
    × ((start stop : ℤ)
        → (range_by_rank numbers start stop z
            ≡ some (between start stop (run_entries numbers calls [])))
          × (rev_range_by_rank numbers start stop z
              ≡ between start stop (reverse (run_entries numbers calls []))))
run-run_entries_example = run-run_entries numbers numbers_laws calls

-- One member stays.
calls_entries : run_entries numbers calls [] ≡ (5, bob) ∷ []
unfolding run_entries insert_entry find remove_entry insert_sorted bytes_eq less
calls_entries = refl

rank-rank_of_example : rank numbers bob two_nodes ≡ some (some 1)
unfolding rank_of entry_of bytes_eq
rank-rank_of_example = rank-rank_of numbers numbers_laws two_nodes bob two two_nodes-IsSkipList

ranges-between_example :
    (range_by_rank numbers (pos 1) (pos 9) two_nodes ≡ some ((20, bob) ∷ []))
    × (rev_range_by_rank numbers (pos 1) (pos 9) two_nodes ≡ (10, ann) ∷ [])
unfolding between entry_of
ranges-between_example = ranges-between numbers two_nodes (pos 1) (pos 9) two two_nodes-IsSkipList

-- Where a score is equal to none, itself included, as NaN is: a member is there twice after two
-- insertions, and the search for its rank panics.
abbrev with_nan : ScoreOps ℕ
with_nan = record {
  zero_score = 0;
  eq = λ a b. if a == 99 then false else a == b;
  lt = λ a b. if a == 99 then false else if b == 99 then false else ltb a b;
}

twice_nan : Option (SkipList ℕ) → Option (ℕ × Option (Option ℕ))
unfolding insert rank
twice_nan none = none
twice_nan (some z) = elim (insert with_nan heads_once 99 ann z) [
  | none ↦ none
  | some z' ↦ some (z'.length, rank with_nan ann z')
]

nan_run : twice_nan (insert with_nan heads_once 99 ann (new_skip_list with_nan)) ≡ some (2, none)
unfolding twice_nan insert new_skip_list Dict.get Dict.put bytes_eq
nan_run = refl
