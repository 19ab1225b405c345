-- ===== src/Kv/SkipList/Insert/Place.antt =====
-- `insert` of internal/kvstore/skiplist.go for a member that the list does not have.
use kver.Prelude.{
  ℕ, zero, suc, ◌-◌, ◌≤◌, ◌<◌, ◌≡◌, ◌≢◌, sym, ap, subst, ◌∙◌, arith, Bytes, bytes_eq, Bool, none,
  some, List, ◌∷◌, ◌++◌, ltb, if◌then◌else◌, All, length-append,
}
use kver.Prelude.Dict
use kver.Kv.SkipList.{ScoreOps, SkipList, header, max_level, entry_of, search_levels}
use kver.Kv.SkipList.Write.{new_node, place_at, raised, place, levels_up, random_level}
use kver.Kv.SkipList.Order.{ScoreLaws}
use kver.Kv.SkipList.Entries.{
  find, Once, Sorted, insert_sorted, insert_sorted-Once, insert_sorted-Sorted, find-insert_sorted,
}
use kver.Kv.SkipList.Search.{heights}
use kver.Kv.SkipList.Links.{last_on, last_on-tall, first_on, Links-first_on, Links-append}
use kver.Kv.SkipList.Relink.{All-both}
use kver.Kv.SkipList.Shape.{
  IsSkipList, entries, entries-append, entries-same, split_at, search_levels-Finds,
}
use kver.Kv.SkipList.Nodes.{All-insert, All-left, All-right, All-map, Distinct-insert}
use kver.Kv.SkipList.Insert.Link.{Linked}
use kver.Kv.SkipList.Insert.Node.{
  with_node, placed, LinkedBack, heights-with_node, heights-with_node_fresh, place_at-placed,
}
use kver.Kv.SkipList.Insert.Chains.{
  forward-with_node, entry-with_node, entry-with_node_fresh, raised-last_on, All-old, last_old,
  placed-Links, placed-Back,
}

levels_up-bound : (n : ℕ) (coins : ℕ → Bool) → levels_up n coins ≤ n
unfolding levels_up
levels_up-bound zero coins = omega arith
levels_up-bound (suc n) coins = let rest = levels_up-bound n (λ i. coins (suc i)) in ground arith

pub random_level-bounds :
    (coins : ℕ → Bool) → (1 ≤ random_level coins) × (random_level coins ≤ max_level)
unfolding random_level
random_level-bounds coins =
    let up = levels_up-bound (max_level - 1) coins in (omega arith, omega arith)

module _ {S : Type 0} (sc : ScoreOps S) (laws : ScoreLaws sc) (z : SkipList S) (score : S)
    (member : Bytes) (lvl : ℕ) where
  module _ (before after : List ℕ) (ok : IsSkipList sc z (before ++ after)) where
    with_node-entries :
        entries (with_node sc score member lvl z) (before ++ z.fresh ∷ after)
        ≡ entries z before ++ (score, member) ∷ entries z after
    with_node-entries =
        let z1 = with_node sc score member lvl z in
        let old = (All-old sc z score member lvl before after ok).1 in
        let same = λ (x : ℕ) (o : x ≢ z.fresh). entry-with_node sc z score member lvl x o in
        let kept : All (λ x. entry_of z1 x ≡ entry_of z x) (before ++ after) =
          All-map (λ x. x ≢ z.fresh) (λ x. entry_of z1 x ≡ entry_of z x) (before ++ after) same
            old in
        let first =
          entries-same z z1 before
            (All-left (λ x. entry_of z1 x ≡ entry_of z x) before after kept) in
        let last =
          entries-same z z1 after
            (All-right (λ x. entry_of z1 x ≡ entry_of z x) before after kept) in
        let new = entry-with_node_fresh sc z score member lvl in
        entries-append z1 before (z.fresh ∷ after)
        ∙ ap (λ es. es ++ entries z1 (z.fresh ∷ after)) first
        ∙ ap (λ e. entries z before ++ e ∷ entries z1 after) new
        ∙ ap (λ es. entries z before ++ (score, member) ∷ es) last

    -- What `insert` leaves is well-formed again.
    placed-IsSkipList :
        (update : ℕ → ℕ) (g : ℕ → ℕ → ℕ) (b : ℕ → ℕ) (t : ℕ)
        → 0 < lvl
        → lvl ≤ max_level
        → find member (entries z (before ++ after)) ≡ none
        → insert_sorted sc (score, member) (entries z (before ++ after))
          ≡ entries z before ++ (score, member) ∷ entries z after
        → ((j : ℕ) → j < lvl → update j ≡ last_on (heights z) j header before)
        → Linked lvl update z.fresh (with_node sc score member lvl z) g
        → LinkedBack sc (update 0) z.fresh (g z.fresh 0) (with_node sc score member lvl z) b t
        → IsSkipList sc (placed sc score member lvl z g b t) (before ++ z.fresh ∷ after)
    unfolding new_node entry_of
    placed-IsSkipList update g b t some_level few absent split found links back =
        let key : S × Bytes = (score, member) in
        let es = entries z (before ++ after) in
        let same : entries (with_node sc score member lvl z) (before ++ z.fresh ∷ after)
            ≡ insert_sorted sc key es =
          with_node-entries ∙ sym split in
        let old = All-old sc z score member lvl before after ok in
        let bounds = ok.levels in
        let nil : z.fresh ≢ 0 = λ e. absurd (let u = ok.used.0 in omega arith) in
        let new_height = heights-with_node_fresh sc score member lvl z in
        let at = found 0 some_level in
        let last = last_old sc z score member lvl before after ok 0 in
        let next : g z.fresh 0 ≡ first_on (heights z) 0 after =
          links.1 0 some_level
          ∙ ap (λ a. (with_node sc score member lvl z).forward a 0) at
          ∙ forward-with_node sc z score member lvl (last_on (heights z) 0 header before) 0 last
          ∙ Links-first_on (last_on (heights z) 0 header before) after
              (Links-append header before after (ok.links 0 (omega arith))) in
        record {
          links =
              λ i h. placed-Links sc z score member lvl before after ok update g i found links h;
          distinct = Distinct-insert (header ∷ before) after z.fresh nil old ok.distinct;
          used =
              All-insert (λ x. x < suc z.fresh) (header ∷ before) after z.fresh (omega arith)
                (All-map (λ x. x < z.fresh) (λ x. x < suc z.fresh) (header ∷ (before ++ after))
                  (λ x lt. omega arith) ok.used);
          top = heights-with_node sc score member lvl header z old.0 ∙ ok.top;
          tall =
              All-insert (λ x. 1 ≤ heights (with_node sc score member lvl z) x) before after z.fresh
                (omega arith)
                (All-both (before ++ after)
                  (λ x o t.
                    let same_height = heights-with_node sc score member lvl x z o in omega arith)
                  old.1 ok.tall);
          low =
              All-insert
                (λ x.
                  heights (with_node sc score member lvl z) x
                  ≤ (if ltb z.level lvl then lvl else z.level))
                before after z.fresh (ground arith)
                (All-both (before ++ after)
                  (λ x o t.
                    let same_height = heights-with_node sc score member lvl x z o in ground arith)
                  old.1 ok.low);
          levels = (ground arith, ground arith);
          sorted =
              subst (Sorted sc) (sym same) (insert_sorted-Sorted sc laws key es absent ok.sorted);
          once = subst Once (sym same) (insert_sorted-Once sc key es absent ok.once);
          scores = λ m.
              Dict.get-put z.dict member m score
              ∙ ap (λ o. if bytes_eq member m then some score else o) (ok.scores m)
              ∙ sym (find-insert_sorted sc m key es absent)
              ∙ ap (find m) (sym same);
          size =
              let n = length-append before after in
              let n' = length-append before (z.fresh ∷ after) in let size = ok.size in omega arith;
          back = placed-Back sc z score member lvl before after ok g b t next (
              subst
                (λ a. LinkedBack sc a z.fresh (g z.fresh 0) (with_node sc score member lvl z) b t)
                at back);
        }

  place_at-IsSkipList :
      (before after : List ℕ) (update : ℕ → ℕ)
      → IsSkipList sc z (before ++ after)
      → 0 < lvl
      → lvl ≤ max_level
      → find member (entries z (before ++ after)) ≡ none
      → insert_sorted sc (score, member) (entries z (before ++ after))
        ≡ entries z before ++ (score, member) ∷ entries z after
      → ((i : ℕ) → i < z.level → update i ≡ last_on (heights z) i header before)
      → (z' : SkipList S) × (place_at sc score member lvl update z ≡ some z')
        × IsSkipList sc z' (before ++ z.fresh ∷ after)
        × (entries z' (before ++ z.fresh ∷ after)
            ≡ insert_sorted sc (score, member) (entries z (before ++ after)))
  unfolding new_node entry_of
  place_at-IsSkipList before after update ok some_level few absent split found =
      let raise : (i : ℕ)
          → i < lvl
          → raised sc z.level lvl update i ≡ last_on (heights z) i header before =
        λ i h.
          raised-last_on sc z score member lvl update before i found
            (All-left (λ x. heights z x ≤ z.level) before after ok.low) h in
      let top = ok.top in
      let (g, (b, (t, eq, links, back))) =
        place_at-placed sc score member lvl update z some_level
          (λ i h.
            subst (λ a. i < heights z a) (sym (raise i h))
              (last_on-tall (heights z) i before header (omega arith)))
          (λ i h e. last_old sc z score member lvl before after ok i (sym (raise i h) ∙ e)) in
      (
        placed sc score member lvl z g b t,
        eq,
        placed-IsSkipList before after ok (raised sc z.level lvl update) g b t some_level few absent
            split raise links back,
        with_node-entries before after ok ∙ sym split,
      )

module _ {S : Type 0} (sc : ScoreOps S) (laws : ScoreLaws sc) where
  place-steps :
      (coins : ℕ → Bool) (score : S) (member : Bytes) (z z' : SkipList S) (found : ℕ × (ℕ → ℕ))
      → search_levels sc z.level z (score, member) header (λ i. 0) ≡ some found
      → place_at sc score member (random_level coins) found.1 z ≡ some z'
      → place sc coins score member z ≡ some z'
  unfolding place
  place-steps coins score member z z' found h k =
      ap
        (λ o. elim o [ none ↦ none | some f ↦ place_at sc score member (random_level coins) f.1 z ])
        h
      ∙ k

  -- A member that the list does not have comes to its place, whatever the coins.
  pub place-insert_sorted :
      (coins : ℕ → Bool) (score : S) (member : Bytes) (z : SkipList S) (ps : List ℕ)
      → IsSkipList sc z ps
      → Dict.get z.dict member ≡ none
      → (z' : SkipList S) × ((ps' : List ℕ) × (place sc coins score member z ≡ some z')
          × IsSkipList sc z' ps'
          × (entries z' ps' ≡ insert_sorted sc (score, member) (entries z ps)))
  place-insert_sorted coins score member z ps ok absent =
      let key : S × Bytes = (score, member) in
      let bounds = random_level-bounds coins in
      let (before, (after, e, bs, as', split)) =
        split_at sc laws z key ps ok.sorted ok.distinct.2 in
      let ok' = subst (IsSkipList sc z) e ok in
      let out : find member (entries z ps) ≡ none = sym (ok.scores member) ∙ absent in
      let (found, eq, at, below, above) =
        search_levels-Finds sc laws z key before after (λ i. 0) ok' bs as' in
      let (z', eq', good, same) =
        place_at-IsSkipList sc laws z score member (random_level coins) before after found.1 ok'
          bounds.0 bounds.1 (subst (λ qs. find member (entries z qs) ≡ none) e out)
          (subst
            (λ qs. insert_sorted sc key (entries z qs) ≡ entries z before ++ key ∷ entries z after)
            e split)
          below in
      (
        z',
        (
          before ++ z.fresh ∷ after,
          place-steps coins score member z z' found eq eq',
          good,
          same ∙ ap (λ qs. insert_sorted sc key (entries z qs)) (sym e),
        ),
      )
