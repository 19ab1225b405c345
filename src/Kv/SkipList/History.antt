-- ===== src/Kv/SkipList/History.antt =====
-- A skip list of internal/kvstore/skiplist.go over its life: what any sequence of insertions and
-- deletions leaves, as the reads show it.
use kver.Prelude.{
  ℕ, ◌≡◌, refl, sym, ap, ◌∙◌, arith, Bytes, Bool, false, Option, none, some, List, [], ◌∷◌, inl,
  inr, Option-cases,
}
use kver.Prelude.Dict
use kver.Prelude.Int.{ℤ}
use kver.Kv.SkipList.{
  ScoreOps, SkipList, new_skip_list, search, rank, range_by_rank, rev_range_by_rank,
}
use kver.Kv.SkipList.Write.{insert, delete}
use kver.Kv.SkipList.Order.{ScoreLaws}
use kver.Kv.SkipList.Entries.{find, remove_entry}
use kver.Kv.SkipList.Shape.{IsSkipList, entries}
use kver.Kv.SkipList.Insert.{insert_entry, insert-insert_entry, new_skip_list-IsSkipList}
use kver.Kv.SkipList.Delete.{delete-remove_entry}
use kver.Kv.SkipList.Ranks.{rank_of, rank-rank_of}
use kver.Kv.SkipList.Ranges.{between}
use kver.Kv.SkipList.RevRanges.{ranges-between}
use mathlib.Core.List.{reverse}

-- A call that changes the list.
pub data Change (S : Type 0) : Type 0 where
  inserted : (ℕ → Bool) → S → Bytes → Change S
  removed : Bytes → Change S

module _ {S : Type 0} (sc : ScoreOps S) where
  left_list : Option (SkipList S × Bool) → Option (SkipList S)
  left_list none = none
  left_list (some (z, found)) = some z

  change : Change S → SkipList S → Option (SkipList S)
  unfolding left_list
  change (inserted coins score member) z = insert sc coins score member z
  change (removed member) z = left_list (delete sc member z)

  after : (SkipList S → Option (SkipList S)) → Option (SkipList S) → Option (SkipList S)
  after f none = none
  after f (some z) = f z

  -- The calls in their order, up to the first panic.
  unfoldable pub run : List (Change S) → SkipList S → Option (SkipList S)
  unfolding change after
  run [] z = some z
  run (c ∷ cs) z = after (run cs) (change c z)

  -- What a call promises of the entries.
  change_entry : Change S → List (S × Bytes) → List (S × Bytes)
  change_entry (inserted coins score member) es = insert_entry sc score member es
  change_entry (removed member) es = remove_entry member es

  unfoldable pub run_entries : List (Change S) → List (S × Bytes) → List (S × Bytes)
  unfolding change_entry
  run_entries [] es = es
  run_entries (c ∷ cs) es = run_entries cs (change_entry c es)

module _ {S : Type 0} (sc : ScoreOps S) (laws : ScoreLaws sc) where
  remove_entry-absent :
      (member : Bytes) (es : List (S × Bytes)) → find member es ≡ none → remove_entry member es ≡ es
  unfolding find remove_entry
  remove_entry-absent member [] h = refl
  remove_entry-absent member ((s, k) ∷ es) h =
      let rest = remove_entry-absent member es in ground arith

  delete-absent :
      (member : Bytes) (z : SkipList S)
      → Dict.get z.dict member ≡ none
      → delete sc member z ≡ some (z, false)
  unfolding delete
  delete-absent member z absent = ground arith

  abbrev Leaves : Option (SkipList S) → List (S × Bytes) → Type 0
  Leaves o es =
      (z : SkipList S) × ((ps : List ℕ) × (o ≡ some z) × IsSkipList sc z ps × (entries z ps ≡ es))

  change-Leaves :
      (c : Change S) (z : SkipList S) (ps : List ℕ)
      → IsSkipList sc z ps
      → Leaves (change sc c z) (change_entry sc c (entries z ps))
  unfolding change change_entry
  change-Leaves (inserted coins score member) z ps ok =
      insert-insert_entry sc laws coins score member z ps ok
  change-Leaves (removed member) z ps ok = elim (Option-cases (Dict.get z.dict member)) [
    | inl absent ↦ (
      z,
      (
        ps,
        ap (left_list sc) (delete-absent member z absent),
        ok,
        sym (remove_entry-absent member (entries z ps) (sym (ok.scores member) ∙ absent)),
      ),
    )
    | inr found ↦
        let (score, there) = found in
        let (z', (ps', eq, good, same)) = delete-remove_entry sc laws member score z ps ok there in
        (z', (ps', ap (left_list sc) eq, good, same))
  ]

  run-Leaves :
      (cs : List (Change S)) (z : SkipList S) (ps : List ℕ)
      → IsSkipList sc z ps
      → Leaves (run sc cs z) (run_entries sc cs (entries z ps))
  unfolding run run_entries
  run-Leaves [] z ps ok = (z, (ps, refl, ok, refl))
  run-Leaves (c ∷ cs) z ps ok =
      let (z1, (ps1, eq1, good1, same1)) = change-Leaves c z ps ok in
      let (z2, (ps2, eq2, good2, same2)) = run-Leaves cs z1 ps1 good1 in
      (z2, (ps2, ap (after sc (run sc cs)) eq1 ∙ eq2, good2, same2 ∙ ap (run_entries sc cs) same1))

  -- Where the scores compare as numbers do, no sequence of insertions and deletions on a new list
  -- panics, whatever the coins. What it leaves reads as the entries in order that the promises of
  -- the calls give: the score and the rank of every member, and every range from either end.
  pub run-run_entries :
      (cs : List (Change S))
      → (z : SkipList S) × (run sc cs (new_skip_list sc) ≡ some z)
        × ((m : Bytes) → search sc m z ≡ find m (run_entries sc cs []))
        × ((m : Bytes) → rank sc m z ≡ some (rank_of m (run_entries sc cs [])))
        × ((start stop : ℤ)
            → (range_by_rank sc start stop z ≡ some (between start stop (run_entries sc cs [])))
              × (rev_range_by_rank sc start stop z
                  ≡ between start stop (reverse (run_entries sc cs []))))
  unfolding search
  run-run_entries cs =
      let (z, (ps, eq, ok, same)) =
        run-Leaves cs (new_skip_list sc) [] (new_skip_list-IsSkipList sc) in
      (
        z,
        eq,
        (λ m. ok.scores m ∙ ap (find m) same),
        (λ m. rank-rank_of sc laws z m ps ok ∙ ap (λ es. some (rank_of m es)) same),
        λ start stop.
            let (there, back) = ranges-between sc z start stop ps ok in
            (
              there ∙ ap (λ es. some (between start stop es)) same,
              back ∙ ap (λ es. between start stop (reverse es)) same,
            ),
      )
