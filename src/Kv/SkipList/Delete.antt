-- ===== src/Kv/SkipList/Delete.antt =====
-- `delete` of internal/kvstore/skiplist.go as a whole.
pub mod Unlink
pub mod Node
pub mod Find
pub mod Chains
use kver.Prelude.{
  ℕ, ◌+◌, ◌-◌, ◌≤◌, ◌<◌, ◌≡◌, ◌≢◌, sym, ap, subst, ◌∙◌, arith, Bytes, bytes_eq, bytes_eq_refl, Bool,
  true, false, Option, none, some, List, ◌∷◌, ◌++◌, ltb, if◌then◌else◌, inl, inr, Bool-cases, All,
  length-append,
}
use kver.Prelude.Dict
use kver.Kv.SkipList.{
  ScoreOps, SkipList, header, max_level, forward_at, entry_of, is_entry, search_levels,
}
use kver.Kv.SkipList.Write.{unlink, unlinked, delete_found, delete}
use kver.Kv.SkipList.Order.{ScoreLaws}
use kver.Kv.SkipList.Entries.{
  find, remove_entry, Once, Sorted, remove_entry-Once, remove_entry-Sorted, find-remove_entry,
}
use kver.Kv.SkipList.Search.{heights}
use kver.Kv.SkipList.Links.{last_on, last_on-tall, Links-none}
use kver.Kv.SkipList.Shape.{IsSkipList, entries, entries-append, search_levels-Finds}
use kver.Kv.SkipList.Nodes.{All-delete, Distinct-at, Distinct-delete}
use kver.Kv.SkipList.Delete.Unlink.{Lowered, Unlinked}
use kver.Kv.SkipList.Delete.Node.{deleted, UnlinkedBack, unlinked-deleted}
use kver.Kv.SkipList.Delete.Find.{find_split}
use kver.Kv.SkipList.Delete.Chains.{tall_at, next_is, unlink-found, deleted-Links, deleted-Back}

module _ {S : Type 0} (sc : ScoreOps S) (z : SkipList S) (b c : List ℕ) (x : ℕ)
    (ok : IsSkipList sc z (b ++ x ∷ c)) where
  deleted-IsSkipList :
      (member : Bytes) (update : ℕ → ℕ) (g : ℕ → ℕ → ℕ) (back : ℕ → ℕ) (t l : ℕ)
      → ((i : ℕ) → i < z.level → update i ≡ last_on (heights z) i header b)
      → remove_entry member (entries z (b ++ x ∷ c)) ≡ entries z b ++ entries z c
      → Unlinked 0 update x z g
      → UnlinkedBack x (g x 0) (record z { forward = g }) back t
      → Lowered z.level (record z { forward = g }) l
      → IsSkipList sc (deleted member z g back t l) (b ++ c)
        × (entries (deleted member z g back t l) (b ++ c)
            ≡ remove_entry member (entries z (b ++ x ∷ c)))
  unfolding entry_of
  deleted-IsSkipList member update g back t l found removed out links (least, most, empty) =
      let es = entries z (b ++ x ∷ c) in
      let same : entries (deleted member z g back t l) (b ++ c) ≡ remove_entry member es =
        entries-append z b c ∙ sym removed in
      let bounds = ok.levels in
      let distinct' = Distinct-delete (header ∷ b) c x ok.distinct in
      let links' =
        λ (i : ℕ) (h : i < max_level). deleted-Links sc z b c x ok update found g i out h in
      (
        record {
          links = links';
          distinct = distinct';
          used = All-delete (λ y. y < z.fresh) (header ∷ b) c x ok.used;
          top = ok.top;
          tall = All-delete (λ y. 1 ≤ heights z y) b c x ok.tall;
          low = elim (Bool-cases (ltb l z.level)) [
            | inl lt ↦
                Links-none header (b ++ c) (links' l (ground arith)) distinct'.2
                  (empty (ground arith))
            | inr ge ↦
                let l' : z.level ≡ l = ground arith in
                subst (λ n. All (λ y. heights z y ≤ n) (b ++ c)) l'
                  (All-delete (λ y. heights z y ≤ z.level) b c x ok.low)
          ];
          levels = (least, omega arith);
          sorted = subst (Sorted sc) (sym same) (remove_entry-Sorted sc member es ok.sorted);
          once = subst Once (sym same) (remove_entry-Once member es ok.once);
          scores = λ m.
              Dict.get-remove z.dict member m
              ∙ ap (λ o. if bytes_eq member m then none else o) (ok.scores m)
              ∙ sym (find-remove_entry member m es ok.once)
              ∙ ap (find m) (sym same);
          size =
              let n = length-append b c in
              let n' = length-append b (x ∷ c) in let size = ok.size in omega arith;
          back = deleted-Back sc z b c x ok update found g back t out links;
        },
        same,
      )

module _ {S : Type 0} (sc : ScoreOps S) (laws : ScoreLaws sc) where
  delete-steps :
      (member : Bytes) (score : S) (z z' : SkipList S) (found : ℕ × (ℕ → ℕ)) (x : ℕ)
      (r : Option (SkipList S × Bool))
      → Dict.get z.dict member ≡ some score
      → search_levels sc z.level z (score, member) header (λ i. 0) ≡ some found
      → forward_at z found.0 0 ≡ some x
      → is_entry sc z score member x ≡ true
      → unlink z.level 0 found.1 x z ≡ some z'
      → unlinked sc member x (some z') ≡ r
      → delete sc member z ≡ r
  unfolding delete delete_found
  delete-steps member score z z' (curr, update) x r h k f e u o =
      ap
        (λ w. elim w [
          | none ↦ some (z, false)
          | some s ↦
              delete_found sc s member z (search_levels sc z.level z (s, member) header (λ i. 0))
        ])
        h
      ∙ ap (delete_found sc score member z) k
      ∙ ap
          (λ w. elim w [
            | none ↦ none
            | some y ↦
                if is_entry sc z score member y
                then unlinked sc member y (unlink z.level 0 update y z)
                else some (z, false)
          ])
          f
      ∙ ap (λ t. if t then unlinked sc member x (unlink z.level 0 update x z) else some (z, false))
          e
      ∙ ap (unlinked sc member x) u
      ∙ o

  entry_of-is_entry :
      (z : SkipList S) (score : S) (member : Bytes) (x : ℕ)
      → x ≢ 0
      → entry_of z x ≡ (score, member)
      → is_entry sc z score member x ≡ true
  unfolding is_entry entry_of
  entry_of-is_entry z score member x real e =
      let same_score : sc.eq (z.node x).score score ≡ true =
        ap (λ w. sc.eq w.0 score) e ∙ laws.eq_refl score in
      let same_member : bytes_eq (z.node x).member member ≡ true =
        ap (λ w. bytes_eq w.1 member) e ∙ bytes_eq_refl member in
      ground arith

  -- Where the scores compare as numbers do, the deletion of a member that a well-formed list has
  -- does not panic, returns true, and leaves a well-formed list of the entries without that member.
  pub delete-remove_entry :
      (member : Bytes) (score : S) (z : SkipList S) (ps : List ℕ)
      → IsSkipList sc z ps
      → Dict.get z.dict member ≡ some score
      → (z' : SkipList S) × ((ps' : List ℕ) × (delete sc member z ≡ some (z', true))
          × IsSkipList sc z' ps'
          × (entries z' ps' ≡ remove_entry member (entries z ps)))
  unfolding forward_at
  delete-remove_entry member score z ps ok has_it =
      let key : S × Bytes = (score, member) in
      let (b, (x, (c, e, same, before, after, removed))) =
        find_split sc laws z member score ps ok.sorted ok.distinct.2
          (sym (ok.scores member) ∙ has_it) in
      let ok' = subst (IsSkipList sc z) e ok in
      let removed' = ap (λ qs. remove_entry member (entries z qs)) (sym e) ∙ removed in
      let (found, eq, at, below, above) =
        search_levels-Finds sc laws z key b (x ∷ c) (λ i. 0) ok' before after in
      let (g, unlinked_eq, out) = unlink-found sc z b c x ok' found.1 below in
      let bounds = ok'.levels in
      let top = ok'.top in
      let tall = tall_at sc z b c x ok' in
      let (back, (t, (l, finish, links, low))) =
        unlinked-deleted sc member x (record z { forward = g }) tall (omega arith) (omega arith) in
      let (good, rest) =
        deleted-IsSkipList sc z b c x ok' member found.1 g back t l below removed' out links low in
      let curr_tall : 0 < heights z found.0 =
        subst (λ a. 0 < heights z a) (sym at) (last_on-tall (heights z) 0 b header (omega arith)) in
      let next : z.forward found.0 0 ≡ x =
        ap (λ a. z.forward a 0) at ∙ next_is sc z b c x ok' 0 tall (omega arith) in
      let real = Distinct-at (header ∷ b) c x ok'.distinct in
      (
        deleted member z g back t l,
        (
          b ++ c,
          delete-steps member score z (record z { forward = g }) found x
              (some (deleted member z g back t l, true)) has_it eq (ground arith)
              (entry_of-is_entry z score member x real same) unlinked_eq finish,
          good,
          rest ∙ ap (λ qs. remove_entry member (entries z qs)) (sym e),
        ),
      )
