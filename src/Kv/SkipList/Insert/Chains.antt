-- ===== src/Kv/SkipList/Insert/Chains.antt =====
-- What `insert` of internal/kvstore/skiplist.go leaves when it has found the place of a new entry.
use kver.Prelude.{
  ℕ, ◌≤◌, ◌<◌, ◌≡◌, ◌≢◌, refl, sym, ap, subst, ◌∙◌, arith, Bytes, false, List, ◌∷◌, ◌++◌, ltb, leb,
  ◌==◌, if◌then◌else◌, inl, inr, Bool-cases, All,
}
use kver.Kv.SkipList.{ScoreOps, SkipList, header, max_level, entry_of}
use kver.Kv.SkipList.Write.{new_node, raised}
use kver.Kv.SkipList.Search.{heights}
use kver.Kv.SkipList.Links.{has, has-append, last_on, last_on-low, Links, first_on}
use kver.Kv.SkipList.Relink.{All-both, Links-insert, Links-insert_low}
use kver.Kv.SkipList.Shape.{IsSkipList, Back}
use kver.Kv.SkipList.Nodes.{
  All-left, All-right, Distinct-right, All-map, Back-insert, last_on-end_of,
}
use kver.Kv.SkipList.Neighbours.{
  last_on-All, first_on-All, first_on-apart, end_of-back, Backed-first,
}
use kver.Kv.SkipList.Insert.Link.{Linked}
use kver.Kv.SkipList.Insert.Node.{with_node, LinkedBack, heights-with_node, heights-with_node_fresh}

module _ {S : Type 0} (sc : ScoreOps S) (z : SkipList S) (score : S) (member : Bytes)
    (lvl : ℕ) where
  pub forward-with_node :
      (a i : ℕ) → a ≢ z.fresh → (with_node sc score member lvl z).forward a i ≡ z.forward a i
  unfolding new_node
  forward-with_node a i old = ground arith

  backward-with_node :
      (a : ℕ) → a ≢ z.fresh → (with_node sc score member lvl z).backward a ≡ z.backward a
  unfolding new_node
  backward-with_node a old = ground arith

  pub entry-with_node :
      (a : ℕ) → a ≢ z.fresh → entry_of (with_node sc score member lvl z) a ≡ entry_of z a
  unfolding new_node entry_of
  entry-with_node a old = ground arith

  pub entry-with_node_fresh : entry_of (with_node sc score member lvl z) z.fresh ≡ (score, member)
  unfolding new_node entry_of
  entry-with_node_fresh = ground arith

  tail-with_node : (with_node sc score member lvl z).tail ≡ z.tail
  unfolding new_node
  tail-with_node = refl

  -- `update` after the new levels are added: still the last nodes before the key.
  pub raised-last_on :
      (update : ℕ → ℕ) (before : List ℕ) (i : ℕ)
      → ((j : ℕ) → j < z.level → update j ≡ last_on (heights z) j header before)
      → All (λ x. heights z x ≤ z.level) before
      → i < lvl
      → raised sc z.level lvl update i ≡ last_on (heights z) i header before
  unfolding raised
  raised-last_on update before i found low h = elim (Bool-cases (leb z.level i)) [
    | inl new ↦
        let none_here = last_on-low (heights z) i header before (
          All-map (λ x. heights z x ≤ z.level) (λ x. heights z x ≤ i) before (λ x le. ground arith)
            low) in
        ground arith
    | inr old ↦ let here = found i (ground arith) in ground arith
  ]

  module _ (before after : List ℕ) (ok : IsSkipList sc z (before ++ after)) where
    pub All-old : All (λ x. x ≢ z.fresh) (header ∷ (before ++ after))
    All-old =
        All-map (λ x. x < z.fresh) (λ x. x ≢ z.fresh) (header ∷ (before ++ after))
          (λ x lt e. absurd (omega arith)) ok.used

    pub last_old : (i : ℕ) → last_on (heights z) i header before ≢ z.fresh
    last_old i =
        last_on-All (λ x. x ≢ z.fresh) (heights z) i before header All-old.0
          (All-left (λ x. x ≢ z.fresh) before after All-old.1)

    -- The chains, with the new node in its place.
    pub placed-Links :
        (update : ℕ → ℕ) (g : ℕ → ℕ → ℕ) (i : ℕ)
        → ((j : ℕ) → j < lvl → update j ≡ last_on (heights z) j header before)
        → Linked lvl update z.fresh (with_node sc score member lvl z) g
        → i < max_level
        → Links g (heights (with_node sc score member lvl z)) i header (before ++ z.fresh ∷ after)
    placed-Links update g i found (to, from, stays) h =
        let q = last_on (heights z) i header before in
        let k = heights (with_node sc score member lvl z) in
        let fresh_tall = heights-with_node_fresh sc score member lvl z in
        let high : (x : ℕ) → x ≢ z.fresh → k x ≡ heights z x =
          λ x o. heights-with_node sc score member lvl x z o in
        elim (Bool-cases (ltb i lvl)) [
          | inl t ↦
              let t' : i < lvl = ground arith in
              let at = found i t' in
              Links-insert g k z.fresh q header before after (omega arith)
                (ap (λ a. g a i) (sym at) ∙ to i t')
                (from i t'
                  ∙ ap (λ a. (with_node sc score member lvl z).forward a i) at
                  ∙ forward-with_node q i (last_old i))
                (λ x far o. stays x i o (λ _ e. far (e ∙ at)) ∙ forward-with_node x i o) high
                (ok.links i h) ok.distinct All-old refl
          | inr f ↦
              Links-insert_low g k z.fresh header header before after (ground arith)
                (λ x o. stays x i o (λ lt. absurd (ground arith)) ∙ forward-with_node x i o) high
                (ok.links i h) All-old
        ]

    -- The links back, with the new node in its place.
    pub placed-Back :
        (g : ℕ → ℕ → ℕ) (b : ℕ → ℕ) (t : ℕ)
        → g z.fresh 0 ≡ first_on (heights z) 0 after
        → LinkedBack sc
            (last_on (heights z) 0 header before)
            z.fresh
            (g z.fresh 0)
            (with_node sc score member lvl z)
            b
            t
        → Back b 0 (before ++ z.fresh ∷ after) t
    placed-Back g b t next links =
        let (own, stays, none_next, kept_tail, next_back) =
          subst
            (λ q.
              LinkedBack sc (last_on (heights z) 0 header before) z.fresh q
                (with_node sc score member lvl z) b t)
            next links in
        let q = first_on (heights z) 0 after in
        let old_before = All-left (λ x. x ≢ z.fresh) before after All-old.1 in
        let old_after = All-right (λ x. x ≢ z.fresh) before after All-old.1 in
        let (real, out, d) = ok.distinct in
        let tall = All-left (λ x. 1 ≤ heights z x) before after ok.tall in
        let nil_old : 0 ≢ z.fresh = λ e. absurd (let u = ok.used.0 in omega arith) in
        let header_out : has header before ≡ false =
          (let split = has-append header before after in ground arith) in
        let at = last_on-end_of (heights z) header before tall in
        Back-insert z.backward b 0 z.tail t z.fresh before after
          (own (first_on-All (λ x. x ≢ z.fresh) (heights z) 0 after nil_old old_after)
            ∙ ap (λ l. if l == header then 0 else l) at
            ∙ end_of-back before header_out)
          (All-both before (λ x far o. stays x o far ∙ backward-with_node x o)
            (first_on-apart (heights z) 0 before after d) old_before)
          (Backed-first (heights z) z.backward b z.tail t z.fresh after
            (All-right (λ x. 1 ≤ heights z x) before after ok.tall) (Distinct-right before after d)
            (All-map (λ x. x ≢ z.fresh) (λ x. x ≢ q → b x ≡ z.backward x) after
              (λ x o far. stays x o far ∙ backward-with_node x o) old_after)
            none_next (λ there. kept_tail there ∙ tail-with_node) next_back)
          ok.back
