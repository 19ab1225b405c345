-- ===== src/Kv/SkipList/Delete/Chains.antt =====
-- `delete` of internal/kvstore/skiplist.go for a member that the list has: what is left is
-- well-formed.
use kver.Prelude.{
  ℕ, ◌≤◌, ◌<◌, ◌≡◌, ◌≢◌, refl, sym, ap, subst, ◌∙◌, arith, some, List, ◌∷◌, ◌++◌, ltb, inl, inr,
  Bool-cases, All,
}
use kver.Kv.SkipList.{ScoreOps, SkipList, header, max_level, entry_of}
use kver.Kv.SkipList.Write.{unlink}
use kver.Kv.SkipList.Search.{heights, Links-tail}
use kver.Kv.SkipList.Links.{last_on, first_on, last_on-tall, Links, Links-first_on, Links-append}
use kver.Kv.SkipList.Relink.{All-always, Links-delete, Links-delete_low}
use kver.Kv.SkipList.Shape.{IsSkipList, Back}
use kver.Kv.SkipList.Nodes.{
  All-delete, All-at, All-left, All-right, All-map, Distinct-at, Distinct-apart, Distinct-delete,
  Distinct-right, Back-delete,
}
use kver.Kv.SkipList.Neighbours.{last_on-All, first_on-All, first_on-apart, Backed-first}
use kver.Kv.SkipList.Delete.Unlink.{Unlinked, unlink-Unlinked}
use kver.Kv.SkipList.Delete.Node.{UnlinkedBack}

module _ {S : Type 0} (sc : ScoreOps S) (z : SkipList S) (b c : List ℕ) (x : ℕ)
    (ok : IsSkipList sc z (b ++ x ∷ c)) where
  -- The nodes next to the one that goes.
  pub others_apart : All (λ y. y ≢ x) (header ∷ (b ++ c))
  others_apart = Distinct-apart (header ∷ b) c x ok.distinct

  pub last_apart : (i : ℕ) → last_on (heights z) i header b ≢ x
  last_apart i =
      last_on-All (λ y. y ≢ x) (heights z) i b header others_apart.0
        (All-left (λ y. y ≢ x) b c others_apart.1)

  pub Links-at :
      (i : ℕ)
      → i < max_level
      → Links z.forward (heights z) i (last_on (heights z) i header b) (x ∷ c)
  Links-at i h = Links-append header b (x ∷ c) (ok.links i h)

  pub next_is :
      (i : ℕ) → i < heights z x → i < max_level → z.forward (last_on (heights z) i header b) i ≡ x
  unfolding first_on
  next_is i t h =
      let link = Links-first_on (last_on (heights z) i header b) (x ∷ c) (Links-at i h) in
      ground arith

  next_is_not :
      (i : ℕ) → heights z x ≤ i → i < max_level → z.forward (last_on (heights z) i header b) i ≢ x
  unfolding first_on
  next_is_not i low h e =
      let link = Links-first_on (last_on (heights z) i header b) (x ∷ c) (Links-at i h) in
      let apart : first_on (heights z) i c ≢ x =
        first_on-All (λ y. y ≢ x) (heights z) i c
          (λ e. Distinct-at (header ∷ b) c x ok.distinct (sym e))
          (All-right (λ y. y ≢ x) b c others_apart.1) in
      apart (ground arith)

  after_it : 0 < heights z x → z.forward x 0 ≡ first_on (heights z) 0 c
  after_it t = Links-first_on x c (
      Links-tail sc z (entry_of z x) 0 (last_on (heights z) 0 header b) x c t
        (Links-at 0 (omega arith)))

  pub tall_at : 1 ≤ heights z x
  tall_at = All-at (λ y. 1 ≤ heights z y) b c x ok.tall

  pub low_at : heights z x ≤ z.level
  low_at = All-at (λ y. heights z y ≤ z.level) b c x ok.low

  module _ (update : ℕ → ℕ)
      (found : (i : ℕ) → i < z.level → update i ≡ last_on (heights z) i header b) where
    -- The loop that takes the node out.
    pub unlink-found :
        (g : ℕ → ℕ → ℕ) × (unlink z.level 0 update x z ≡ some (record z { forward = g }))
        × Unlinked 0 update x z g
    unlink-found =
        let bounds = ok.levels in
        let low = low_at in
        let top = ok.top in
        unlink-Unlinked z.level 0 update x z (omega arith) (omega arith)
          (λ j _ k. ap (λ a. z.forward a j) (found j (omega arith)) ∙ next_is j k (omega arith))
          (λ j k h e.
            next_is_not j k (omega arith)
              (ap (λ a. z.forward a j) (sym (found j (omega arith))) ∙ e))
          (λ j h.
            subst (λ a. j < heights z a) (sym (found j (omega arith)))
              (last_on-tall (heights z) j b header (omega arith)))

    pub deleted-Links :
        (g : ℕ → ℕ → ℕ) (i : ℕ)
        → Unlinked 0 update x z g
        → i < max_level
        → Links g (heights z) i header (b ++ c)
    deleted-Links g i (over, stays) h = elim (Bool-cases (ltb i (heights z x))) [
      | inl t ↦
          let low = low_at in
          let t' : i < heights z x = ground arith in
          let at = found i (omega arith) in
          Links-delete g x (last_on (heights z) i header b) header b c t'
            (ap (λ a. g a i) (sym at) ∙ over i (omega arith) t')
            (λ a far. stays a i (λ _ _ e. far (e ∙ at))) (ok.links i h) ok.distinct refl
      | inr f ↦
          Links-delete_low g x header header b c (ground arith)
            (λ a. stays a i (λ _ k. absurd (ground arith))) (ok.links i h)
    ]

    pub deleted-Back :
        (g : ℕ → ℕ → ℕ) (back : ℕ → ℕ) (t : ℕ)
        → Unlinked 0 update x z g
        → UnlinkedBack x (g x 0) (record z { forward = g }) back t
        → Back back 0 (b ++ c) t
    deleted-Back g back t (over, stays) links =
        let low = low_at in
        let tall = tall_at in
        let next : g x 0 ≡ first_on (heights z) 0 c =
          stays x 0 (λ _ _ e. last_apart 0 (sym (found 0 (omega arith)) ∙ sym e)) ∙ after_it tall in
        let (kept, ended, kept_tail, next_back) =
          subst (λ q. UnlinkedBack x q (record z { forward = g }) back t) next links in
        let q = first_on (heights z) 0 c in
        let d = Distinct-delete b c x ok.distinct.2 in
        Back-delete z.backward back 0 z.tail t x b c
          (All-map (λ a. a ≢ q) (λ a. back a ≡ z.backward a) b kept
            (first_on-apart (heights z) 0 b c d))
          (Backed-first (heights z) z.backward back z.tail t (z.backward x) c
            (All-right (λ y. 1 ≤ heights z y) b c (All-delete (λ y. 1 ≤ heights z y) b c x ok.tall))
            (Distinct-right b c d) (All-always c kept) ended kept_tail next_back)
          ok.back
