-- ===== src/Kv/SkipList.antt =====
-- internal/kvstore/skiplist.go. A node is an address: 0 is nil and 1 is the header. A node's score,
-- member and number of levels never change; its links do. `none` is a panic, which is an index out
-- of the range of `forward` or a use of nil, or the end of the fuel of a loop.
pub mod Write
pub mod Order
pub mod Entries
pub mod Links
pub mod Relink
pub mod Search
pub mod Shape
pub mod Nodes
pub mod Neighbours
pub mod Insert
pub mod Delete
pub mod Ranks
pub mod Ranges
pub mod RevRanges
pub mod Ops
pub mod Rebuild
pub mod History
use kver.Prelude.{
  ℕ, zero, suc, ◌+◌, ◌-◌, Bytes, bytes_eq, Bool, true, false, not, ◌&&◌, ◌||◌, Option, none, some,
  List, [], ◌∷◌, ltb, leb, ◌==◌, if◌then◌else◌,
}
use kver.Prelude.Dict
use kver.Prelude.Dict.{Dict}
use kver.Prelude.Int.{ℤ, pos, negsuc}

-- Go's `==` and `<` on the scores, and the score of a node that is not set.
pub record ScoreOps (S : Type 0) : Type 0 where
  pub zero_score : S
  pub eq : S → S → Bool
  pub lt : S → S → Bool

-- `height` is the length of the slice `forward`.
pub record SkipNode (S : Type 0) : Type 0 where
  pub score : S
  pub member : Bytes
  pub height : ℕ

-- `fresh` is the first address that is not in use.
pub record SkipList (S : Type 0) : Type 0 where
  pub node : ℕ → SkipNode S
  pub forward : ℕ → ℕ → ℕ
  pub backward : ℕ → ℕ
  pub fresh : ℕ
  pub tail : ℕ
  pub level : ℕ
  pub length : ℕ
  pub dict : Dict S

abbrev pub header : ℕ
header = 1

abbrev pub max_level : ℕ
max_level = 16

-- Go's `<` on strings.
unfoldable pub bytes_lt : Bytes → Bytes → Bool
bytes_lt [] [] = false
bytes_lt [] (y ∷ ys) = true
bytes_lt (x ∷ xs) [] = false
bytes_lt (x ∷ xs) (y ∷ ys) = ltb x y || ((x == y) && bytes_lt xs ys)

-- update[i] = p
unfoldable pub set_at : (ℕ → ℕ) → ℕ → ℕ → ℕ → ℕ
set_at update i p j = if j == i then p else update j

-- The bounds of a range: the first index is at least 0, the last one is in the list.
unfoldable pub first_rank : ℤ → ℕ
first_rank (pos n) = n
first_rank (negsuc n) = 0

unfoldable pub last_rank : ℕ → ℕ → ℕ
last_rank len stop = if leb len stop then len - 1 else stop

module _ {S : Type 0} where
  -- The tests before the loops of both ranges.
  unfoldable pub in_range : SkipList S → ℕ → ℕ → Bool
  unfolding last_rank
  in_range z start stop =
      not (z.length == 0) && (leb start (last_rank z.length stop) && ltb start z.length)

  -- p.forward[i]
  unfoldable pub forward_at : SkipList S → ℕ → ℕ → Option ℕ
  forward_at z p i = if ltb i (z.node p).height then some (z.forward p i) else none

  -- Nodes are kept with their score and member.
  unfoldable pub entry_of : SkipList S → ℕ → S × Bytes
  entry_of z p = ((z.node p).score, (z.node p).member)

module _ {S : Type 0} (sc : ScoreOps S) where
  -- newSkipList
  unfoldable pub new_skip_list : SkipList S
  new_skip_list = record {
    node = λ a. record {
      score = sc.zero_score;
      member = [];
      height = if a == header then max_level else 0;
    };
    forward = λ a i. 0;
    backward = λ a. 0;
    fresh = 2;
    tail = 0;
    level = 1;
    length = 0;
    dict = [];
  }

  unfoldable pub less : S × Bytes → S × Bytes → Bool
  unfolding bytes_lt
  less (s, m) (t, n) = if sc.eq s t then bytes_lt m n else sc.lt s t

  -- The node is there, and comes before the key.
  unfoldable pub goes_on : SkipList S → S × Bytes → ℕ → Bool
  unfolding less entry_of
  goes_on z key p = not (p == 0) && less (entry_of z p) key

  -- The loop on one level.
  unfoldable pub walk : ℕ → SkipList S → ℕ → S × Bytes → ℕ → Option ℕ
  unfolding forward_at goes_on
  walk zero z i key curr = none
  walk (suc fuel) z i key curr = elim (forward_at z curr i) [
    | none ↦ none
    | some next ↦ elim (goes_on z key next) [ true ↦ walk fuel z i key next | false ↦ some curr ]
  ]

  -- The loop over the levels, from the highest one down, with the array `update`.
  unfoldable pub search_levels : ℕ → SkipList S → S × Bytes → ℕ → (ℕ → ℕ) → Option (ℕ × (ℕ → ℕ))
  unfolding walk set_at
  search_levels zero z key curr update = some (curr, update)
  search_levels (suc i) z key curr update = elim (walk (suc z.length) z i key curr) [
    | none ↦ none
    | some c ↦ search_levels i z key c (set_at update i c)
  ]

  -- The node is there, and has this score and this member.
  unfoldable pub is_entry : SkipList S → S → Bytes → ℕ → Bool
  is_entry z score member p =
      not (p == 0) && (sc.eq (z.node p).score score && bytes_eq (z.node p).member member)

  unfoldable pub search : Bytes → SkipList S → Option S
  search member z = Dict.get z.dict member

  unfoldable pub rank_from : ℕ → SkipList S → S → Bytes → ℕ → ℕ → Option ℕ
  unfolding is_entry forward_at
  rank_from zero z score member curr n = none
  rank_from (suc fuel) z score member curr n = elim (curr == 0) [
    | true ↦ none
    | false ↦ elim (is_entry z score member curr) [
      | true ↦ some n
      | false ↦ elim (forward_at z curr 0) [
        | none ↦ none
        | some next ↦ rank_from fuel z score member next (suc n)
      ]
    ]
  ]

  -- A panic, a missing member, or the rank.
  unfoldable pub rank : Bytes → SkipList S → Option (Option ℕ)
  unfolding rank_from forward_at
  rank member z = elim (Dict.get z.dict member) [
    | none ↦ some none
    | some score ↦ elim (forward_at z header 0) [
      | none ↦ none
      | some first ↦ elim (rank_from (suc z.length) z score member first 0) [
        | none ↦ none
        | some n ↦ some (some n)
      ]
    ]
  ]

  unfoldable pub collect_range : ℕ → SkipList S → ℕ → ℕ → ℕ → ℕ → Option (List (S × Bytes))
  unfolding forward_at entry_of
  collect_range zero z curr idx start stop = none
  collect_range (suc fuel) z curr idx start stop = elim (not (curr == 0) && leb idx stop) [
    | false ↦ some []
    | true ↦ elim (forward_at z curr 0) [
      | none ↦ none
      | some next ↦ elim (collect_range fuel z next (suc idx) start stop) [
        | none ↦ none
        | some rest ↦ some (if leb start idx then entry_of z curr ∷ rest else rest)
      ]
    ]
  ]

  unfoldable pub range_by_rank : ℤ → ℤ → SkipList S → Option (List (S × Bytes))
  unfolding first_rank last_rank in_range collect_range
  range_by_rank start (negsuc n) z = some []
  range_by_rank start (pos stop) z = elim (in_range z (first_rank start) stop) [
    | false ↦ some []
    | true ↦ elim (forward_at z header 0) [
      | none ↦ none
      | some first ↦
          collect_range (suc z.length) z first 0 (first_rank start) (last_rank z.length stop)
    ]
  ]

  unfoldable pub skip_back : ℕ → SkipList S → ℕ → ℕ
  skip_back zero z curr = curr
  skip_back (suc n) z curr = elim (curr == 0) [
    | true ↦ curr
    | false ↦ skip_back n z (z.backward curr)
  ]

  -- For so many nodes at most.
  unfoldable pub collect_back : ℕ → SkipList S → ℕ → List (S × Bytes)
  unfolding entry_of
  collect_back zero z curr = []
  collect_back (suc n) z curr = elim (curr == 0) [
    | true ↦ []
    | false ↦ entry_of z curr ∷ collect_back n z (z.backward curr)
  ]

  unfoldable pub rev_range_by_rank : ℤ → ℤ → SkipList S → List (S × Bytes)
  unfolding first_rank last_rank in_range skip_back collect_back
  rev_range_by_rank start (negsuc n) z = []
  rev_range_by_rank start (pos stop) z = elim (in_range z (first_rank start) stop) [
    | false ↦ []
    | true ↦
        collect_back (suc (last_rank z.length stop) - first_rank start) z
          (skip_back (first_rank start) z z.tail)
  ]
