-- ===== src/Kv/SkipList/Search.antt =====
-- The loops of internal/kvstore/skiplist.go that look for the place of a key: on each level they
-- come to the last node before it.
use kver.Prelude.{
  ℕ, zero, suc, ◌≤◌, ◌<◌, ◌≡◌, refl, sym, ap, subst, ◌∙◌, arith, Bytes, true, false, Option, some,
  List, [], ◌∷◌, ◌++◌, ltb, if◌then◌else◌, Bool-cases, inl, inr, All, length, length-append,
}
use mathlib.Core.List.{append_assoc}
use kver.Kv.SkipList.{ScoreOps, SkipList, header, set_at, forward_at, goes_on, walk, search_levels}
use kver.Kv.SkipList.Links.{
  last_on, last_on-append, last_on-cases, first_on, Links, Links-first_on, Links-append,
}

abbrev pub heights : {S : Type 0} → SkipList S → ℕ → ℕ
heights z x = (z.node x).height

module _ {S : Type 0} (sc : ScoreOps S) (z : SkipList S) (key : S × Bytes) where
  -- These nodes come before the key, or do not.
  abbrev pub Before : List ℕ → Type 0
  Before = All (λ x. goes_on sc z key x ≡ true)

  abbrev pub After : List ℕ → Type 0
  After = All (λ x. goes_on sc z key x ≡ false)

  After-first_on :
      (i : ℕ) (xs : List ℕ) → After xs → goes_on sc z key (first_on (heights z) i xs) ≡ false
  unfolding first_on goes_on
  After-first_on i [] a = refl
  After-first_on i (x ∷ xs) (out, a) = let rest = After-first_on i xs a in ground arith

  walk-stops :
      (fuel i curr : ℕ)
      → i < heights z curr
      → goes_on sc z key (z.forward curr i) ≡ false
      → walk sc (suc fuel) z i key curr ≡ some curr
  unfolding walk forward_at
  walk-stops fuel i curr tall out = ground arith

  walk-goes :
      (fuel i curr next : ℕ)
      → i < heights z curr
      → z.forward curr i ≡ next
      → goes_on sc z key next ≡ true
      → walk sc (suc fuel) z i key curr ≡ walk sc fuel z i key next
  unfolding walk forward_at
  walk-goes fuel i curr next tall link go =
      let here : forward_at z curr i ≡ some next = ground arith in ground arith

  pub walk-last_on :
      (fuel i curr : ℕ) (before after : List ℕ)
      → Links z.forward (heights z) i curr (before ++ after)
      → i < heights z curr
      → Before before
      → After after
      → length before < fuel
      → walk sc fuel z i key curr ≡ some (last_on (heights z) i curr before)
  unfolding last_on
  walk-last_on zero i curr before after l tall b a few = elim few [ ]
  walk-last_on (suc fuel) i curr [] after l tall b a few =
      let first = Links-first_on curr after l in
      let out : goes_on sc z key (z.forward curr i) ≡ false =
        ap (goes_on sc z key) first ∙ After-first_on i after a in
      walk-stops fuel i curr tall out
  walk-last_on (suc fuel) i curr (x ∷ d) after (Links.tall t e l) tall (go, b) a few =
      let on : (if ltb i (heights z x) then x else curr) ≡ x = ground arith in
      walk-goes fuel i curr x tall e go
      ∙ walk-last_on fuel i x d after l t b a (omega arith)
      ∙ sym (ap (λ q. some (last_on (heights z) i q d)) on)
  walk-last_on (suc fuel) i curr (x ∷ d) after (Links.low t l) tall (go, b) a few =
      let on : (if ltb i (heights z x) then x else curr) ≡ curr = ground arith in
      walk-last_on (suc fuel) i curr d after l tall b a (omega arith)
      ∙ sym (ap (λ q. some (last_on (heights z) i q d)) on)

  pub Links-tail :
      (i p x : ℕ) (xs : List ℕ)
      → i < heights z x
      → Links z.forward (heights z) i p (x ∷ xs)
      → Links z.forward (heights z) i x xs
  Links-tail i p x xs t (Links.tall t' e l) = l
  Links-tail i p x xs t (Links.low low l) = absurd (omega arith)

  Before-append : (b c : List ℕ) → Before (b ++ c) → Before c
  Before-append [] c all = all
  Before-append (x ∷ b) c (go, all) = Before-append b c all

module _ {S : Type 0} (sc : ScoreOps S) (z : SkipList S) (key : S × Bytes)
    (before after : List ℕ) where
  -- From a node, with these nodes left before the key, the loops on the levels below `n` find what
  -- they find from the header.
  abbrev Reaches : ℕ → ℕ → List ℕ → Type 0
  Reaches n curr rest =
      ((i : ℕ) → i < n → Links z.forward (heights z) i curr (rest ++ after))
      × ((i : ℕ) → i < n → last_on (heights z) i curr rest ≡ last_on (heights z) i header before)
      × (n ≤ heights z curr)
      × (length rest ≤ length before)
      × Before sc z key rest

  Reaches-skip :
      (n curr x : ℕ) (b d : List ℕ)
      → n < heights z x
      → Reaches (suc n) curr (b ++ x ∷ d)
      → Reaches n x d
  unfolding last_on
  Reaches-skip n curr x b d t (links, same, tall, few, all) =
      let (go, all') = Before-append sc z key b (x ∷ d) all in
      let size = length-append b (x ∷ d) in
      (
        (λ i h. Links-tail sc z key i (last_on (heights z) i curr b) x (d ++ after) (omega arith) (
            Links-append curr b (x ∷ (d ++ after)) (
              subst (Links z.forward (heights z) i curr) (append_assoc b (x ∷ d) after)
                (links i (omega arith))))),
        (λ i h.
            let on : (if ltb i (heights z x) then x else last_on (heights z) i curr b) ≡ x =
              ground arith in
            sym (ap (λ q. last_on (heights z) i q d) on)
            ∙ sym (last_on-append (heights z) i curr b (x ∷ d))
            ∙ same i (omega arith)),
        omega arith,
        omega arith,
        all',
      )

  -- The loop on a level goes on to its last node, and the lower levels start there.
  Reaches-next :
      (n curr : ℕ) (rest : List ℕ)
      → Reaches (suc n) curr rest
      → (d : List ℕ) × Reaches n (last_on (heights z) n header before) d
  unfolding last_on
  Reaches-next n curr rest (links, same, tall, few, all) =
      let c = last_on (heights z) n header before in
      let here : last_on (heights z) n curr rest ≡ c = same n (omega arith) in
      elim (last_on-cases (heights z) n rest) [
        | inl nobody ↦ (
          rest,
          subst (λ q. Reaches n q rest) (sym (nobody curr) ∙ here)
              (
                (λ i h. links i (omega arith)),
                (λ i h. same i (omega arith)),
                omega arith,
                few,
                all,
              ),
        )
        | inr found ↦
            let (b, (x, (d, split, t, last))) = found in
            (
              d,
              subst (λ q. Reaches n q d) (sym (last curr) ∙ here)
                  (Reaches-skip n curr x b d t
                    (subst (Reaches (suc n) curr) split (links, same, tall, few, all))),
            )
      ]

  -- What the loops return: on each level below `n`, the last node before the key, and where the
  -- last loop stands.
  abbrev pub Finds : ℕ → (ℕ → ℕ) → Option (ℕ × (ℕ → ℕ)) → Type 0
  Finds n update o =
      (found : ℕ × (ℕ → ℕ)) × (o ≡ some found)
      × (found.0 ≡ last_on (heights z) 0 header before)
      × ((i : ℕ) → i < n → found.1 i ≡ last_on (heights z) i header before)
      × ((i : ℕ) → n ≤ i → found.1 i ≡ update i)

  search_levels-step :
      (n curr c : ℕ) (update : ℕ → ℕ)
      → walk sc (suc z.length) z n key curr ≡ some c
      → search_levels sc (suc n) z key curr update ≡ search_levels sc n z key c (set_at update n c)
  unfolding search_levels
  search_levels-step n curr c update h = ground arith

  search_levels-Finds_from :
      (n curr : ℕ) (update : ℕ → ℕ) (rest : List ℕ)
      → Reaches n curr rest
      → (n ≡ 0 → curr ≡ last_on (heights z) 0 header before)
      → After sc z key after
      → length before ≤ z.length
      → Finds n update (search_levels sc n z key curr update)
  unfolding search_levels set_at
  search_levels-Finds_from zero curr update rest r low a few =
      ((curr, update), refl, low refl, (λ i h. elim h [ ]), λ i h. refl)
  search_levels-Finds_from (suc n) curr update rest r low a few =
      let (links, same, tall, size, all) = r in
      let c = last_on (heights z) n header before in
      let goes : walk sc (suc z.length) z n key curr ≡ some c =
        walk-last_on sc z key (suc z.length) n curr rest after (links n (omega arith)) tall all a
          (omega arith)
        ∙ ap some (same n (omega arith)) in
      let (d, r') = Reaches-next n curr rest r in
      let (found, eq, at, below, above) =
        search_levels-Finds_from n c (set_at update n c) d r'
          (λ e. ap (λ k. last_on (heights z) k header before) e) a few in
      (
        found,
        search_levels-step n curr c update goes ∙ eq,
        at,
        (λ i h. elim (Bool-cases (ltb i n)) [
          | inl t ↦ below i (ground arith)
          | inr f ↦
              let e : i ≡ n = ground arith in
              let put : set_at update n c i ≡ c = ground arith in
              above i (ground arith) ∙ put ∙ ap (λ k. last_on (heights z) k header before) (sym e)
        ]),
        (λ i h. above i (omega arith) ∙ ground arith),
      )

  -- The loops from the header.
  pub search_levels-predecessors :
      (n : ℕ) (update : ℕ → ℕ)
      → 0 < n
      → n ≤ heights z header
      → ((i : ℕ) → i < n → Links z.forward (heights z) i header (before ++ after))
      → Before sc z key before
      → After sc z key after
      → length before ≤ z.length
      → Finds n update (search_levels sc n z key header update)
  search_levels-predecessors n update some_level tall links b a few =
      search_levels-Finds_from n header update before (links, (λ i h. refl), tall, omega arith, b)
        (λ e. absurd (omega arith)) a few
