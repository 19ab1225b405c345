-- ===== src/Kv/SkipList/Insert/Node.antt =====
-- `insert` of internal/kvstore/skiplist.go, from the new node on.
use kver.Prelude.{
  ℕ, suc, ◌<◌, ◌≡◌, ◌≢◌, refl, sym, ap, subst, ◌∙◌, arith, Bytes, some, ltb, ◌==◌, if◌then◌else◌,
  inl, inr, Bool-cases,
}
use kver.Prelude.Dict
use kver.Kv.SkipList.{ScoreOps, SkipList, header, forward_at}
use kver.Kv.SkipList.Write.{
  link, link_back, set_backward, new_node, place_at, raised, linked, counted,
}
use kver.Kv.SkipList.Search.{heights}
use kver.Kv.SkipList.Insert.Link.{Linked, link-Linked}

module _ {S : Type 0} (sc : ScoreOps S) where
  -- The links back that are left, and the tail, where `q` follows the new node.
  abbrev pub LinkedBack : ℕ → ℕ → ℕ → SkipList S → (ℕ → ℕ) → ℕ → Type 0
  LinkedBack before new q z b t =
      (q ≢ new → b new ≡ (if before == header then 0 else before))
      × ((a : ℕ) → a ≢ new → a ≢ q → b a ≡ z.backward a)
      × (q ≡ 0 → t ≡ new)
      × (q ≢ 0 → t ≡ z.tail)
      × (q ≢ 0 → b q ≡ new)

  link_back-LinkedBack :
      (before new : ℕ) (z : SkipList S)
      → 0 < heights z new
      → (b : ℕ → ℕ) × ((t : ℕ) × (link_back sc before new z
            ≡ some (record z { backward = b; tail = t }))
          × LinkedBack before new (z.forward new 0) z b t)
  unfolding link_back forward_at set_backward
  link_back-LinkedBack before new z tall =
      let p = if before == header then 0 else before in
      elim (Bool-cases (z.forward new 0 == 0)) [
        | inl e ↦ (
          (λ a. if a == new then p else z.backward a),
          (
            new,
            ground arith,
            (
              (λ _. ground arith),
              (λ a o _. ground arith),
              (λ _. refl),
              (λ real. absurd (real (ground arith))),
              (λ real. absurd (real (ground arith))),
            ),
          ),
        )
        | inr ne ↦ (
          (λ a. if a == z.forward new 0 then new else if a == new then p else z.backward a),
          (
            z.tail,
            ground arith,
            (
              (λ far. ground arith),
              (λ a o far. ground arith),
              (λ e. absurd (ground arith)),
              (λ _. refl),
              (λ _. ground arith),
            ),
          ),
        )
      ]

  -- The list with the new node, which nothing points to.
  abbrev pub with_node : S → Bytes → ℕ → SkipList S → SkipList S
  with_node score member lvl z =
      new_node sc score member lvl (record z { level = if ltb z.level lvl then lvl else z.level })

  -- What `insert` leaves.
  abbrev pub placed : S → Bytes → ℕ → SkipList S → (ℕ → ℕ → ℕ) → (ℕ → ℕ) → ℕ → SkipList S
  placed score member lvl z g b t = record (with_node score member lvl z) {
    forward = g;
    backward = b;
    tail = t;
    length = suc z.length;
    dict = Dict.put z.dict member score;
  }

  pub heights-with_node :
      (score : S) (member : Bytes) (lvl a : ℕ) (z : SkipList S)
      → a ≢ z.fresh
      → heights (with_node score member lvl z) a ≡ heights z a
  unfolding new_node
  heights-with_node score member lvl a z old = ground arith

  pub heights-with_node_fresh :
      (score : S) (member : Bytes) (lvl : ℕ) (z : SkipList S)
      → heights (with_node score member lvl z) z.fresh ≡ lvl
  unfolding new_node
  heights-with_node_fresh score member lvl z = ground arith

  place_at-steps :
      (score : S) (member : Bytes) (lvl : ℕ) (update : ℕ → ℕ) (z : SkipList S) (g : ℕ → ℕ → ℕ)
      (b : ℕ → ℕ) (t : ℕ)
      → link lvl (raised sc z.level lvl update) z.fresh (with_node score member lvl z)
        ≡ some (record (with_node score member lvl z) { forward = g })
      → link_back sc
          (raised sc z.level lvl update 0)
          z.fresh
          (record (with_node score member lvl z) { forward = g })
        ≡ some (record (with_node score member lvl z) { forward = g; backward = b; tail = t })
      → place_at sc score member lvl update z ≡ some (placed score member lvl z g b t)
  unfolding place_at new_node
  place_at-steps score member lvl update z g b t h k =
      ap (linked sc score member (raised sc z.level lvl update) z.fresh) h
      ∙ ap (counted sc score member) k

  pub place_at-placed :
      (score : S) (member : Bytes) (lvl : ℕ) (update : ℕ → ℕ) (z : SkipList S)
      → 0 < lvl
      → ((i : ℕ) → i < lvl → i < heights z (raised sc z.level lvl update i))
      → ((i : ℕ) → i < lvl → raised sc z.level lvl update i ≢ z.fresh)
      → (g : ℕ → ℕ → ℕ) × ((b : ℕ → ℕ) × ((t : ℕ) × (place_at sc score member lvl update z
              ≡ some (placed score member lvl z g b t))
            × Linked lvl (raised sc z.level lvl update) z.fresh (with_node score member lvl z) g
            × LinkedBack
                (raised sc z.level lvl update 0)
                z.fresh
                (g z.fresh 0)
                (with_node score member lvl z)
                b
                t))
  place_at-placed score member lvl update z some_level tall old =
      let u = raised sc z.level lvl update in
      let z1 = with_node score member lvl z in
      let (g, at, links) =
        link-Linked lvl u z.fresh z1
          (λ i h.
            subst (λ k. i < k) (sym (heights-with_node score member lvl (u i) z (old i h)))
              (tall i h))
          old in
      let (b, (t, back, links_back)) =
        link_back-LinkedBack (u 0) z.fresh (record z1 { forward = g })
          (subst (λ k. 0 < k) (sym (heights-with_node_fresh score member lvl z)) some_level) in
      (g, (b, (t, place_at-steps score member lvl update z g b t at back, links, links_back)))
