-- ===== src/Kv/SkipList/Delete/Unlink.antt =====
-- `delete` of internal/kvstore/skiplist.go: what its loops leave.
use kver.Prelude.{
  ℕ, zero, suc, ◌+◌, ◌≤◌, ◌<◌, ◌≡◌, ◌≢◌, refl, sym, ap, subst, ◌∙◌, arith, some, ltb, ◌==◌, inl,
  inr, Bool-cases,
}
use kver.Kv.SkipList.{SkipList, header, forward_at}
use kver.Kv.SkipList.Write.{unlink, lower, set_forward}
use kver.Kv.SkipList.Search.{heights}

module _ {S : Type 0} where
  -- The level that is left: the highest one that is not empty, or the first.
  abbrev pub Lowered : ℕ → SkipList S → ℕ → Type 0
  Lowered n z l = (1 ≤ l) × (l ≤ n) × (l < n → z.forward header l ≡ 0)

  pub lower-Lowered :
      (n : ℕ) (z : SkipList S)
      → 1 ≤ n
      → n ≤ heights z header
      → (l : ℕ) × (lower n z ≡ some l) × Lowered n z l
  unfolding lower forward_at
  lower-Lowered zero z some_level few = elim some_level [ ]
  lower-Lowered (suc zero) z some_level few =
      (1, refl, (omega arith, omega arith, λ h. absurd (omega arith)))
  lower-Lowered (suc (suc n)) z some_level few =
      let (l, eq, (least, most, empty)) = lower-Lowered (suc n) z (omega arith) (omega arith) in
      elim (Bool-cases (z.forward header (suc n) == 0)) [
        | inl e ↦ (
          l,
          ground arith,
          (
            least,
            omega arith,
            λ h. elim (Bool-cases (l == suc n)) [
              | inl same ↦
                  let same' : l ≡ suc n = ground arith in
                  let there : z.forward header (suc n) ≡ 0 = ground arith in
                  ap (z.forward header) same' ∙ there
              | inr ne ↦ empty (ground arith)
            ],
          ),
        )
        | inr ne ↦
            (suc (suc n), ground arith, (omega arith, omega arith, λ h. absurd (omega arith)))
      ]

  -- The node is out of the levels from `i` on that are its own; the rest stays.
  abbrev pub Unlinked : ℕ → (ℕ → ℕ) → ℕ → SkipList S → (ℕ → ℕ → ℕ) → Type 0
  Unlinked i update x z g =
      ((j : ℕ) → i ≤ j → j < heights z x → g (update j) j ≡ z.forward x j)
      × ((a j : ℕ) → (i ≤ j → j < heights z x → a ≢ update j) → g a j ≡ z.forward a j)

  unlink-goes :
      (n i : ℕ) (update : ℕ → ℕ) (x : ℕ) (z : SkipList S)
      → z.forward (update i) i ≡ x
      → i < heights z x
      → i < heights z (update i)
      → unlink (suc n) i update x z
        ≡ unlink n (suc i) update x (set_forward (update i) i (z.forward x i) z)
  unfolding unlink forward_at
  unlink-goes n i update x z on low tall = ground arith

  unlink-stops :
      (n i : ℕ) (update : ℕ → ℕ) (x : ℕ) (z : SkipList S)
      → z.forward (update i) i ≢ x
      → i < heights z (update i)
      → unlink (suc n) i update x z ≡ some z
  unfolding unlink forward_at
  unlink-stops n i update x z off tall = ground arith

  pub unlink-Unlinked :
      (n i : ℕ) (update : ℕ → ℕ) (x : ℕ) (z : SkipList S)
      → i ≤ heights z x
      → heights z x ≤ i + n
      → ((j : ℕ) → i ≤ j → j < heights z x → z.forward (update j) j ≡ x)
      → ((j : ℕ) → heights z x ≤ j → j < i + n → z.forward (update j) j ≢ x)
      → ((j : ℕ) → j < i + n → j < heights z (update j))
      → (g : ℕ → ℕ → ℕ) × (unlink n i update x z ≡ some (record z { forward = g }))
        × Unlinked i update x z g
  unfolding unlink set_forward
  unlink-Unlinked zero i update x z start end on off tall =
      (z.forward, refl, ((λ j h k. absurd (omega arith)), λ a j _. refl))
  unlink-Unlinked (suc n) i update x z start end on off tall =
      elim (Bool-cases (ltb i (heights z x))) [
        | inl t ↦
            let t' : i < heights z x = ground arith in
            let z' = set_forward (update i) i (z.forward x i) z in
            let (g, eq, (over, stays)) =
              unlink-Unlinked n (suc i) update x z' t' (omega arith)
                (λ j h k. let on' = on j (omega arith) k in ground arith)
                (λ j h k. let off' = off j h (omega arith) in ground arith)
                (λ j h. tall j (omega arith)) in
            let goes =
              unlink-goes n i update x z (on i (omega arith) t') t' (tall i (omega arith)) in
            (
              g,
              goes ∙ eq,
              (
                (λ j h k. elim (Bool-cases (j == i)) [
                  | inl e ↦
                      let e' : i ≡ j = ground arith in
                      let now : z'.forward (update i) i ≡ z.forward x i = ground arith in
                      subst (λ k. g (update k) k ≡ z.forward x k) e'
                        (stays (update i) i (λ h k. absurd (omega arith)) ∙ now)
                  | inr ne ↦ let over' = over j (ground arith) k in ground arith
                ]),
                λ a j apart. stays a j (λ h k. apart (omega arith) k) ∙ elim (Bool-cases (j == i)) [
                  | inl e ↦
                      let e' : j ≡ i = ground arith in
                      let away : a ≢ update i =
                        λ same. apart (omega arith) (omega arith) (same ∙ ap update (sym e')) in
                      ground arith
                  | inr ne ↦ ground arith
                ],
              ),
            )
        | inr f ↦ (
          z.forward,
          unlink-stops n i update x z (off i (ground arith) (omega arith)) (tall i (omega arith)),
          ((λ j h k. absurd (ground arith)), λ a j _. refl),
        )
      ]
