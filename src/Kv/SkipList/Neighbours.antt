-- ===== src/Kv/SkipList/Neighbours.antt =====
-- The neighbours of a place in the list of the nodes of internal/kvstore/skiplist.go.
use kver.Prelude.{
  ℕ, ◌≤◌, ◌≡◌, ◌≢◌, refl, sym, ap, ◌∙◌, arith, false, List, [], ◌∷◌, ◌++◌, ltb, ◌==◌, if◌then◌else◌,
  if_both, All,
}
use kver.Kv.SkipList.{header}
use kver.Kv.SkipList.Links.{has, has-append, Distinct, last_on, first_on}
use kver.Kv.SkipList.Relink.{All-both, All-apart}
use kver.Kv.SkipList.Nodes.{All-map, Backed, end_of, end_of-apart}

pub last_on-All :
    (P : ℕ → Type 0) (h : ℕ → ℕ) (i : ℕ) (xs : List ℕ) (p : ℕ)
    → P p
    → All P xs
    → P (last_on h i p xs)
unfolding last_on
last_on-All P h i [] p ph ps = ph
last_on-All P h i (x ∷ xs) p ph (q, ps) =
    last_on-All P h i xs (if ltb i (h x) then x else p)
      (if_both P (ltb i (h x)) x p (λ _. q) (λ _. ph)) ps

pub first_on-All :
    (P : ℕ → Type 0) (h : ℕ → ℕ) (i : ℕ) (xs : List ℕ) → P 0 → All P xs → P (first_on h i xs)
unfolding first_on
first_on-All P h i [] p ps = p
first_on-All P h i (x ∷ xs) p (q, ps) =
    if_both P (ltb i (h x)) x (first_on h i xs) (λ _. q) λ _. first_on-All P h i xs p ps

-- The nodes before a place are none of those after it.
pub first_on-apart :
    (h : ℕ → ℕ) (i : ℕ) (b c : List ℕ) → Distinct (b ++ c) → All (λ a. a ≢ first_on h i c) b
first_on-apart h i [] c d = tt
first_on-apart h i (x ∷ b) c (real, out, d) =
    let split = has-append x b c in
    (
      first_on-All (λ y. x ≢ y) h i c real
          (All-map (λ y. y ≢ x) (λ y. x ≢ y) c (λ y far e. far (sym e))
            (All-apart x c (ground arith))),
      first_on-apart h i b c d,
    )

-- The link back of a new node.
pub end_of-back :
    (xs : List ℕ)
    → has header xs ≡ false
    → (if end_of header xs == header then 0 else end_of header xs) ≡ end_of 0 xs
end_of-back [] out = refl
end_of-back (x ∷ xs) out =
    let far : end_of x xs ≢ header =
      end_of-apart header x xs (λ e. absurd (ground arith)) (ground arith) in
    ground arith

pub Backed-first :
    (h : ℕ → ℕ) (b b' : ℕ → ℕ) (t t' new : ℕ) (ys : List ℕ)
    → All (λ y. 1 ≤ h y) ys
    → Distinct ys
    → All (λ a. a ≢ first_on h 0 ys → b' a ≡ b a) ys
    → (first_on h 0 ys ≡ 0 → t' ≡ new)
    → (first_on h 0 ys ≢ 0 → t' ≡ t)
    → (first_on h 0 ys ≢ 0 → b' (first_on h 0 ys) ≡ new)
    → Backed b b' t t' new ys
unfolding first_on
Backed-first h b b' t t' new [] tall d stays ended kept next = ended refl
Backed-first h b b' t t' new (y ∷ ys) (t1, tall) (real, out, d) (_, stays) ended kept next =
    let on : (if ltb 0 (h y) then y else first_on h 0 ys) ≡ y = ground arith in
    let there : (if ltb 0 (h y) then y else first_on h 0 ys) ≢ 0 = λ e. real (sym on ∙ e) in
    (
      kept there,
      ap b' (sym on) ∙ next there,
      All-both ys (λ a far s. s (λ e. far (e ∙ on))) (All-apart y ys out) stays,
    )
