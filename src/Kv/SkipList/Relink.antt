-- ===== src/Kv/SkipList/Relink.antt =====
-- The chains of one level of internal/kvstore/skiplist.go when a node comes in, or goes.
use kver.Prelude.{
  ℕ, ◌≤◌, ◌<◌, ◌≡◌, ◌≢◌, refl, sym, ap, ◌∙◌, arith, true, false, List, [], ◌∷◌, ◌++◌, inl, inr, ltb,
  if◌then◌else◌, All,
}
use kver.Kv.SkipList.Links.{has, has-append, Distinct, last_on, last_on-has, Links, Links-moved}

pub All-both :
    {P Q R : ℕ → Type 0} (xs : List ℕ)
    → ((x : ℕ) → P x → Q x → R x)
    → All P xs
    → All Q xs
    → All R xs
All-both [] f ps qs = tt
All-both (x ∷ xs) f (p, ps) (q, qs) = (f x p q, All-both xs f ps qs)

pub All-always : {P : ℕ → Type 0} (xs : List ℕ) → ((x : ℕ) → P x) → All P xs
All-always [] f = tt
All-always (x ∷ xs) f = (f x, All-always xs f)

pub All-apart : (p : ℕ) (xs : List ℕ) → has p xs ≡ false → All (λ x. x ≢ p) xs
All-apart p [] out = tt
All-apart p (x ∷ xs) out = ((λ e. absurd (ground arith)), All-apart p xs (ground arith))

-- What stays when the node before another is left out.
Distinct-skip : (p x : ℕ) (xs : List ℕ) → Distinct (p ∷ x ∷ xs) → Distinct (p ∷ xs)
Distinct-skip p x xs (real, out, (real', out', d)) = (real, ground arith, d)

-- A node that is followed by others is not the last of them.
last_on-apart :
    (h : ℕ → ℕ) (i p x : ℕ) (b c : List ℕ) → Distinct (p ∷ x ∷ (b ++ c)) → p ≢ last_on h i x b
last_on-apart h i p x b c (real, out, d) e =
    let split = has-append p b c in
    elim (last_on-has h i x b) [
      | inl same ↦ let e' = e ∙ same in absurd (ground arith)
      | inr there ↦
          let there' : has p b ≡ true = ap (λ q. has q b) e ∙ there in absurd (ground arith)
    ]

module _ {f : ℕ → ℕ → ℕ} {h : ℕ → ℕ} {i : ℕ} (g : ℕ → ℕ → ℕ) (k : ℕ → ℕ) (new q : ℕ) where
  -- A new node that is on the level.
  pub Links-insert :
      (p : ℕ) (b c : List ℕ)
      → i < k new
      → g q i ≡ new
      → g new i ≡ f q i
      → ((x : ℕ) → x ≢ q → x ≢ new → g x i ≡ f x i)
      → ((x : ℕ) → x ≢ new → k x ≡ h x)
      → Links f h i p (b ++ c)
      → Distinct (p ∷ (b ++ c))
      → All (λ x. x ≢ new) (p ∷ (b ++ c))
      → last_on h i p b ≡ q
      → Links g k i p (b ++ new ∷ c)
  unfolding last_on
  Links-insert p [] c t to from same high l (real, out, d) (old, olds) e =
      Links.tall t (ap (λ a. g a i) e ∙ to) (
        Links-moved g k p new c l (from ∙ ap (λ a. f a i) (sym e)) (
          All-both c (λ x far o. (same x (λ e'. far (e' ∙ sym e)) o, high x o)) (All-apart p c out)
            olds))
  Links-insert p (x ∷ b) c t to from same high (Links.tall t' e' l) d (old, olds) e =
      let on : (if ltb i (h x) then x else p) ≡ x = ground arith in
      let e2 : last_on h i x b ≡ q = ap (λ a. last_on h i a b) (sym on) ∙ e in
      let far : p ≢ q = λ z. last_on-apart h i p x b c d (z ∙ sym e2) in
      let height = high x olds.0 in
      Links.tall (omega arith) (same p far old ∙ e')
        (Links-insert x b c t to from same high l d.2 olds e2)
  Links-insert p (x ∷ b) c t to from same high (Links.low t' l) d (old, olds) e =
      let on : (if ltb i (h x) then x else p) ≡ p = ground arith in
      let height = high x olds.0 in
      Links.low (omega arith) (
        Links-insert p b c t to from same high l (Distinct-skip p x (b ++ c) d) (old, olds.1)
          (ap (λ a. last_on h i a b) (sym on) ∙ e))

  -- A new node that is too low for the level.
  pub Links-insert_low :
      (p : ℕ) (b c : List ℕ)
      → k new ≤ i
      → ((x : ℕ) → x ≢ new → g x i ≡ f x i)
      → ((x : ℕ) → x ≢ new → k x ≡ h x)
      → Links f h i p (b ++ c)
      → All (λ x. x ≢ new) (p ∷ (b ++ c))
      → Links g k i p (b ++ new ∷ c)
  Links-insert_low p [] c t same high l (old, olds) =
      Links.low t (
        Links-moved g k p p c l (same p old) (All-both c (λ x o _. (same x o, high x o)) olds olds))
  Links-insert_low p (x ∷ b) c t same high (Links.tall t' e' l) (old, olds) =
      let height = high x olds.0 in
      Links.tall (omega arith) (same p old ∙ e') (Links-insert_low x b c t same high l olds)
  Links-insert_low p (x ∷ b) c t same high (Links.low t' l) (old, olds) =
      let height = high x olds.0 in
      Links.low (omega arith) (Links-insert_low p b c t same high l (old, olds.1))

module _ {f : ℕ → ℕ → ℕ} {h : ℕ → ℕ} {i : ℕ} (g : ℕ → ℕ → ℕ) (gone q : ℕ) where
  -- A node that was on the level is left out.
  pub Links-delete :
      (p : ℕ) (b c : List ℕ)
      → i < h gone
      → g q i ≡ f gone i
      → ((x : ℕ) → x ≢ q → g x i ≡ f x i)
      → Links f h i p (b ++ gone ∷ c)
      → Distinct (p ∷ (b ++ gone ∷ c))
      → last_on h i p b ≡ q
      → Links g h i p (b ++ c)
  unfolding last_on
  Links-delete p [] c t over same (Links.low low l) d e = absurd (omega arith)
  Links-delete p [] c t over same (Links.tall t' e' l) (real, out, d) e =
      Links-moved g h gone p c l (ap (λ a. g a i) e ∙ over) (
        All-both c (λ x far _. (same x (λ e'. far (e' ∙ sym e)), refl))
          (All-apart p c (ground arith)) (All-apart p c (ground arith)))
  Links-delete p (x ∷ b) c t over same (Links.tall t' e' l) d e =
      let on : (if ltb i (h x) then x else p) ≡ x = ground arith in
      let e2 : last_on h i x b ≡ q = ap (λ a. last_on h i a b) (sym on) ∙ e in
      let far : p ≢ q = λ z. last_on-apart h i p x b (gone ∷ c) d (z ∙ sym e2) in
      Links.tall t' (same p far ∙ e') (Links-delete x b c t over same l d.2 e2)
  Links-delete p (x ∷ b) c t over same (Links.low t' l) d e =
      let on : (if ltb i (h x) then x else p) ≡ p = ground arith in
      Links.low t' (
        Links-delete p b c t over same l (Distinct-skip p x (b ++ gone ∷ c) d)
          (ap (λ a. last_on h i a b) (sym on) ∙ e))

  -- A node that was too low for the level.
  pub Links-delete_low :
      (p : ℕ) (b c : List ℕ)
      → h gone ≤ i
      → ((x : ℕ) → g x i ≡ f x i)
      → Links f h i p (b ++ gone ∷ c)
      → Links g h i p (b ++ c)
  Links-delete_low p [] c t same (Links.tall t' e' l) = absurd (omega arith)
  Links-delete_low p [] c t same (Links.low t' l) =
      Links-moved g h p p c l (same p) (All-always c (λ x. (same x, refl)))
  Links-delete_low p (x ∷ b) c t same (Links.tall t' e' l) =
      Links.tall t' (same p ∙ e') (Links-delete_low x b c t same l)
  Links-delete_low p (x ∷ b) c t same (Links.low t' l) =
      Links.low t' (Links-delete_low p b c t same l)
