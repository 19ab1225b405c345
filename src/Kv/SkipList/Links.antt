-- ===== src/Kv/SkipList/Links.antt =====
-- What the links of internal/kvstore/skiplist.go stand for: on each level a chain through those of
-- the nodes, in their order, that are tall enough for it.
use kver.Prelude.{
  ℕ, ◌≤◌, ◌<◌, ◌≡◌, ◌≢◌, ◌⊎◌, inl, inr, refl, sym, ap, subst, ◌∙◌, arith, Bool, true, false, ◌||◌,
  List, [], ◌∷◌, ◌++◌, ltb, ◌==◌, if◌then◌else◌, if_both, Bool-cases, All,
}

abbrev pub has : ℕ → List ℕ → Bool
has a [] = false
has a (x ∷ xs) = (a == x) || has a xs

-- Each address once, and none of them nil.
abbrev pub Distinct : List ℕ → Type 0
Distinct [] = Unit
Distinct (x ∷ xs) = (x ≢ 0) × (has x xs ≡ false) × Distinct xs

pub has-append : (a : ℕ) (xs ys : List ℕ) → has a (xs ++ ys) ≡ (has a xs || has a ys)
has-append a [] ys = refl
has-append a (x ∷ xs) ys = let rest = has-append a xs ys in ground arith

module _ (h : ℕ → ℕ) (i : ℕ) where
  -- The last of these nodes that is on level `i`, or the one before all of them.
  unfoldable pub last_on : ℕ → List ℕ → ℕ
  last_on p [] = p
  last_on p (x ∷ xs) = last_on (if ltb i (h x) then x else p) xs

  -- The first of these nodes that is on level `i`, or nil.
  unfoldable pub first_on : List ℕ → ℕ
  first_on [] = 0
  first_on (x ∷ xs) = if ltb i (h x) then x else first_on xs

  pub last_on-append : (p : ℕ) (xs ys : List ℕ) → last_on p (xs ++ ys) ≡ last_on (last_on p xs) ys
  unfolding last_on
  last_on-append p [] ys = refl
  last_on-append p (x ∷ xs) ys = last_on-append (if ltb i (h x) then x else p) xs ys

  pub last_on-tall : (xs : List ℕ) (p : ℕ) → i < h p → i < h (last_on p xs)
  unfolding last_on
  last_on-tall [] p tall = tall
  last_on-tall (x ∷ xs) p tall =
      last_on-tall xs (if ltb i (h x) then x else p)
        (if_both (λ q. i < h q) (ltb i (h x)) x p (λ t. ground arith) λ _. tall)

  pub last_on-has : (p : ℕ) (xs : List ℕ) → (last_on p xs ≡ p) ⊎ (has (last_on p xs) xs ≡ true)
  unfolding last_on
  last_on-has p [] = inl refl
  last_on-has p (x ∷ xs) = elim (last_on-has (if ltb i (h x) then x else p) xs) [
    | inr there ↦ inr (ground arith)
    | inl same ↦ elim (Bool-cases (ltb i (h x))) [
      | inl t ↦ inr (ground arith)
      | inr f ↦ inl (ground arith)
    ]
  ]

  -- Either no node is on the level, or one is the last of them.
  pub last_on-cases :
      (xs : List ℕ)
      → ((p : ℕ) → last_on p xs ≡ p)
        ⊎ ((b : List ℕ) × ((x : ℕ) × ((c : List ℕ) × (xs ≡ b ++ x ∷ c)
                × (i < h x)
                × ((p : ℕ) → last_on p xs ≡ x))))
  unfolding last_on
  last_on-cases [] = inl (λ p. refl)
  last_on-cases (x ∷ xs) = elim (last_on-cases xs) [
    | inr found ↦
        let (b, (y, (c, split, tall, last))) = found in
        inr (x ∷ b, (y, (c, ap (◌∷◌ x) split, tall, λ p. last _)))
    | inl none ↦ elim (Bool-cases (ltb i (h x))) [
      | inl t ↦ inr ([], (x, (xs, refl, ground arith, λ p. none _ ∙ ground arith)))
      | inr f ↦ inl (λ p. none _ ∙ ground arith)
    ]
  ]

  -- The nodes are all too low.
  pub last_on-low : (p : ℕ) (xs : List ℕ) → All (λ x. h x ≤ i) xs → last_on p xs ≡ p
  unfolding last_on
  last_on-low p [] low = refl
  last_on-low p (x ∷ xs) (l, low) =
      let same : (if ltb i (h x) then x else p) ≡ p = ground arith in
      ap (λ q. last_on q xs) same ∙ last_on-low p xs low

module _ (f : ℕ → ℕ → ℕ) (h : ℕ → ℕ) (i : ℕ) where
  -- From a node, level `i` leads through those of the list that are on it, and ends.
  pub data Links : ℕ → List ℕ → Type 0 where
    stop : {p : ℕ} → f p i ≡ 0 → Links p []
    tall : {p x : ℕ} {xs : List ℕ} → i < h x → f p i ≡ x → Links x xs → Links p (x ∷ xs)
    low : {p x : ℕ} {xs : List ℕ} → h x ≤ i → Links p xs → Links p (x ∷ xs)

module _ {f : ℕ → ℕ → ℕ} {h : ℕ → ℕ} {i : ℕ} where
  pub Links-first_on : (p : ℕ) (xs : List ℕ) → Links f h i p xs → f p i ≡ first_on h i xs
  unfolding first_on
  Links-first_on p [] (Links.stop e) = e
  Links-first_on p (x ∷ xs) (Links.tall t e l) = ground arith
  Links-first_on p (x ∷ xs) (Links.low t l) = let rest = Links-first_on p xs l in ground arith

  pub Links-append :
      (p : ℕ) (b c : List ℕ) → Links f h i p (b ++ c) → Links f h i (last_on h i p b) c
  unfolding last_on
  Links-append p [] c l = l
  Links-append p (x ∷ b) c (Links.tall t e l) =
      subst (λ q. Links f h i (last_on h i q b) c) (ground arith) (Links-append x b c l)
  Links-append p (x ∷ b) c (Links.low t l) =
      subst (λ q. Links f h i (last_on h i q b) c) (ground arith) (Links-append p b c l)

  -- A level on which the header points to nil is empty.
  pub Links-none :
      (p : ℕ) (xs : List ℕ) → Links f h i p xs → Distinct xs → f p i ≡ 0 → All (λ x. h x ≤ i) xs
  Links-none p [] l d e = tt
  Links-none p (x ∷ xs) (Links.tall t e' l) (real, out, d) e = absurd (real (sym e' ∙ e))
  Links-none p (x ∷ xs) (Links.low t l) (real, out, d) e = (t, Links-none p xs l d e)

  -- Links that are not changed, from a node that takes the place of another.
  pub Links-moved :
      (g : ℕ → ℕ → ℕ) (k : ℕ → ℕ) (p q : ℕ) (xs : List ℕ)
      → Links f h i p xs
      → g q i ≡ f p i
      → All (λ x. (g x i ≡ f x i) × (k x ≡ h x)) xs
      → Links g k i q xs
  Links-moved g k p q [] (Links.stop e) same all = Links.stop (same ∙ e)
  Links-moved g k p q (x ∷ xs) (Links.tall t e l) same ((here, height), all) =
      Links.tall (omega arith) (same ∙ e) (Links-moved g k x x xs l here all)
  Links-moved g k p q (x ∷ xs) (Links.low t l) same ((here, height), all) =
      Links.low (omega arith) (Links-moved g k p q xs l same all)
