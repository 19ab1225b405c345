-- ===== src/Kv/SkipList/Shape.antt =====
-- The shape that the operations of internal/kvstore/skiplist.go keep, and the place of a key in it.
use kver.Prelude.{
  ℕ, suc, ◌≤◌, ◌<◌, ◌≡◌, refl, ap, ◌∙◌, arith, Bytes, true, false, List, [], ◌∷◌, ◌++◌, inl, inr,
  Bool-cases, All, length, length-append,
}
use kver.Prelude.Dict
use kver.Kv.SkipList.{ScoreOps, SkipList, header, max_level, entry_of, less, goes_on, search_levels}
use kver.Kv.SkipList.Order.{ScoreLaws, less_trans}
use kver.Kv.SkipList.Links.{Distinct, Links}
use kver.Kv.SkipList.Entries.{find, Once, Sorted, insert_sorted}
use kver.Kv.SkipList.Search.{heights, Before, After, Finds, search_levels-predecessors}

-- The links back, from the first of these nodes to `q`, and from `tail` to the last of them.
abbrev pub Back : (ℕ → ℕ) → ℕ → List ℕ → ℕ → Type 0
Back backward q [] tail = tail ≡ q
Back backward q (x ∷ xs) tail = (backward x ≡ q) × Back backward x xs tail

-- The entries of these nodes.
abbrev pub entries : {S : Type 0} → SkipList S → List ℕ → List (S × Bytes)
entries z [] = []
entries z (x ∷ xs) = entry_of z x ∷ entries z xs

pub length-entries : {S : Type 0} (z : SkipList S) (ps : List ℕ) → length (entries z ps) ≡ length ps
length-entries z [] = refl
length-entries z (x ∷ xs) = ap suc (length-entries z xs)

module _ {S : Type 0} where
  pub entries-append :
      (z : SkipList S) (b c : List ℕ) → entries z (b ++ c) ≡ entries z b ++ entries z c
  entries-append z [] c = refl
  entries-append z (x ∷ b) c = ap (◌∷◌ (entry_of z x)) (entries-append z b c)

  pub entries-same :
      (z z' : SkipList S) (xs : List ℕ)
      → All (λ x. entry_of z' x ≡ entry_of z x) xs
      → entries z' xs ≡ entries z xs
  entries-same z z' [] same = refl
  entries-same z z' (x ∷ xs) (s, same) =
      ap (λ e. e ∷ entries z' xs) s ∙ ap (◌∷◌ (entry_of z x)) (entries-same z z' xs same)

-- A skip list whose nodes, in their order, are `ps`.
pub record IsSkipList {S : Type 0} (sc : ScoreOps S) (z : SkipList S) (ps : List ℕ) : Type 0 where
  pub links : (i : ℕ) → i < max_level → Links z.forward (heights z) i header ps
  pub distinct : Distinct (header ∷ ps)
  pub used : All (λ x. x < z.fresh) (header ∷ ps)
  pub top : heights z header ≡ max_level
  pub tall : All (λ x. 1 ≤ heights z x) ps
  pub low : All (λ x. heights z x ≤ z.level) ps
  pub levels : (1 ≤ z.level) × (z.level ≤ max_level)
  pub sorted : Sorted sc (entries z ps)
  pub once : Once (entries z ps)
  pub scores : (m : Bytes) → Dict.get z.dict m ≡ find m (entries z ps)
  pub size : z.length ≡ length ps
  pub back : Back z.backward 0 ps z.tail

module _ {S : Type 0} (sc : ScoreOps S) (laws : ScoreLaws sc) (z : SkipList S)
    (key : S × Bytes) where
  After-all :
      (x : S × Bytes) (xs : List ℕ)
      → less sc x key ≡ false
      → All (λ y. less sc x y ≡ true) (entries z xs)
      → After sc z key xs
  unfolding goes_on
  After-all x [] h all = tt
  After-all x (y ∷ xs) h (p, all) =
      let through = less_trans sc laws x (entry_of z y) key p in
      let out : goes_on sc z key y ≡ false = ground arith in (out, After-all x xs h all)

  -- The place of the key.
  pub split_at :
      (ps : List ℕ)
      → Sorted sc (entries z ps)
      → Distinct ps
      → (before : List ℕ) × ((after : List ℕ) × (ps ≡ before ++ after)
          × Before sc z key before
          × After sc z key after
          × (insert_sorted sc key (entries z ps) ≡ entries z before ++ key ∷ entries z after))
  unfolding insert_sorted goes_on
  split_at [] s d = ([], ([], refl, tt, tt, refl))
  split_at (x ∷ xs) (first, s) (real, out, d) =
      let (b, (a, e, bs, as', same)) = split_at xs s d in
      elim (Bool-cases (less sc (entry_of z x) key)) [
        | inl h ↦ (x ∷ b, (a, ap (◌∷◌ x) e, (ground arith, bs), as', ground arith))
        | inr h ↦ (
          [],
          (x ∷ xs, refl, tt, (ground arith, After-all (entry_of z x) xs h first), ground arith),
        )
      ]

  -- The loops find the last node before the key on each level that is in use.
  pub search_levels-Finds :
      (before after : List ℕ) (update : ℕ → ℕ)
      → IsSkipList sc z (before ++ after)
      → Before sc z key before
      → After sc z key after
      → Finds sc z key before after z.level update (search_levels sc z.level z key header update)
  search_levels-Finds before after update ok b a =
      let size = length-append before after in
      let total = ok.size in
      let bounds = ok.levels in
      let top = ok.top in
      search_levels-predecessors sc z key before after z.level update (omega arith) (omega arith)
        (λ i h. ok.links i (omega arith)) b a (omega arith)
