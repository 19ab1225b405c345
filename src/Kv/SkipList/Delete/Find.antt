-- ===== src/Kv/SkipList/Delete/Find.antt =====
-- `delete` of internal/kvstore/skiplist.go for a member that the list has.
use kver.Prelude.{
  ℕ, ◌≡◌, refl, sym, ap, subst, ◌∙◌, arith, Bytes, bytes_eq, bytes_eq_iff, true, some, List, [],
  ◌∷◌, ◌++◌, inl, inr, Bool-cases, All,
}
use kver.Kv.SkipList.{ScoreOps, SkipList, entry_of, less, goes_on}
use kver.Kv.SkipList.Order.{ScoreLaws, less_irrefl, less-one_way}
use kver.Kv.SkipList.Entries.{find, remove_entry, Sorted}
use kver.Kv.SkipList.Search.{Before, After}
use kver.Kv.SkipList.Links.{Distinct}
use kver.Kv.SkipList.Shape.{entries}

module _ {S : Type 0} (sc : ScoreOps S) (laws : ScoreLaws sc) (z : SkipList S) where
  entry-at :
      (P : S × Bytes → Type 0) (b c : List ℕ) (x : ℕ)
      → All P (entries z (b ++ x ∷ c))
      → P (entry_of z x)
  entry-at P [] c x (p, ps) = p
  entry-at P (y ∷ b) c x (p, ps) = entry-at P b c x ps

  After-following :
      (key : S × Bytes) (xs : List ℕ)
      → All (λ y. less sc key y ≡ true) (entries z xs)
      → After sc z key xs
  unfolding goes_on
  After-following key [] all = tt
  After-following key (y ∷ xs) (p, all) =
      let back = less-one_way sc laws key (entry_of z y) p in
      (ground arith, After-following key xs all)

  -- The place of a member that the list has.
  pub find_split :
      (member : Bytes) (score : S) (ps : List ℕ)
      → Sorted sc (entries z ps)
      → Distinct ps
      → find member (entries z ps) ≡ some score
      → (b : List ℕ) × ((x : ℕ) × ((c : List ℕ) × (ps ≡ b ++ x ∷ c)
            × (entry_of z x ≡ (score, member))
            × Before sc z (score, member) b
            × After sc z (score, member) (x ∷ c)
            × (remove_entry member (entries z ps) ≡ entries z b ++ entries z c)))
  unfolding find remove_entry goes_on entry_of
  find_split member score [] s d h = absurd (ground arith)
  find_split member score (y ∷ ys) (first, s) (real, out, d) h =
      elim (Bool-cases (bytes_eq (z.node y).member member)) [
        | inl e ↦
            let member_same = (bytes_eq_iff (z.node y).member member).0 e in
            let score_same : (z.node y).score ≡ score = ground arith in
            let same : entry_of z y ≡ (score, member) =
              ap (λ a. ((z.node y).score, a)) member_same ∙ ap (λ a. (a, member)) score_same in
            let self = less_irrefl sc laws (entry_of z y) in
            let after : After sc z (entry_of z y) (y ∷ ys) =
              (ground arith, After-following (entry_of z y) ys first) in
            (
              [],
              (
                y,
                (ys, refl, same, tt, subst (λ k. After sc z k (y ∷ ys)) same after, ground arith),
              ),
            )
        | inr ne ↦
            let h' : find member (entries z ys) ≡ some score = ground arith in
            let (b, (x, (c, e, same, before, after, removed))) =
              find_split member score ys s d h' in
            let lt : less sc (entry_of z y) (entry_of z x) ≡ true =
              entry-at (λ w. less sc (entry_of z y) w ≡ true) b c x
                (subst (λ qs. All (λ w. less sc (entry_of z y) w ≡ true) (entries z qs)) e first) in
            let lt' : less sc (entry_of z y) (score, member) ≡ true =
              ap (less sc (entry_of z y)) (sym same) ∙ lt in
            (y ∷ b, (x, (c, ap (◌∷◌ y) e, same, (ground arith, before), after, ground arith)))
      ]
