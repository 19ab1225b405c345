-- ===== src/Kv/SkipList/Insert/Link.antt =====
-- `insert` of internal/kvstore/skiplist.go: the links that the loop over the levels sets.
use kver.Prelude.{
  ℕ, zero, suc, ◌<◌, ◌≡◌, ◌≢◌, refl, sym, ap, ◌∙◌, arith, ◌&&◌, some, ◌==◌, if◌then◌else◌, inl, inr,
  Bool-cases,
}
use kver.Kv.SkipList.{SkipList, forward_at}
use kver.Kv.SkipList.Write.{link, set_forward}
use kver.Kv.SkipList.Search.{heights}

-- The two links of one round.
relinked : ℕ → (ℕ → ℕ) → ℕ → (ℕ → ℕ → ℕ) → ℕ → ℕ → ℕ
relinked n update new g a j =
    if (a == update n) && (j == n)
    then new
    else if (a == new) && (j == n)
    then g (update n) n
    else g a j

linked_to :
    (n j : ℕ) (update : ℕ → ℕ) (new : ℕ) (g : ℕ → ℕ → ℕ)
    → ((i : ℕ) → i < n → g (update i) i ≡ new)
    → update n ≢ new
    → j < suc n
    → relinked n update new g (update j) j ≡ new
unfolding relinked
linked_to n j update new g to o h = elim (Bool-cases (j == n)) [
  | inl e ↦ let e' : update j ≡ update n = ap update (ground arith) in ground arith
  | inr ne ↦ let to' = to j (ground arith) in ground arith
]

module _ {S : Type 0} where
  -- What the loop leaves: the new node stands behind `update` on its levels.
  abbrev pub Linked : ℕ → (ℕ → ℕ) → ℕ → SkipList S → (ℕ → ℕ → ℕ) → Type 0
  Linked n update new z g =
      ((j : ℕ) → j < n → g (update j) j ≡ new)
      × ((j : ℕ) → j < n → g new j ≡ z.forward (update j) j)
      × ((a j : ℕ) → a ≢ new → (j < n → a ≢ update j) → g a j ≡ z.forward a j)

  link-nothing :
      (update : ℕ → ℕ) (new : ℕ) (z : SkipList S)
      → link 0 update new z ≡ some (record z { forward = z.forward })
  unfolding link
  link-nothing update new z = refl

  linked_from :
      (n j : ℕ) (update : ℕ → ℕ) (new : ℕ) (z : SkipList S) (g : ℕ → ℕ → ℕ)
      → ((i : ℕ) → i < n → g new i ≡ z.forward (update i) i)
      → update n ≢ new
      → g (update n) n ≡ z.forward (update n) n
      → j < suc n
      → relinked n update new g new j ≡ z.forward (update j) j
  unfolding relinked
  linked_from n j update new z g from o here h = elim (Bool-cases (j == n)) [
    | inl e ↦
        let e' : n ≡ j = ground arith in
        let here' : g (update n) n ≡ z.forward (update j) j =
          here ∙ ap (λ k. z.forward (update k) k) e' in
        let o' : update n ≢ new = o in ground arith
    | inr ne ↦ let from' = from j (ground arith) in ground arith
  ]

  linked_stays :
      (n a j : ℕ) (update : ℕ → ℕ) (new : ℕ) (z : SkipList S) (g : ℕ → ℕ → ℕ)
      → ((a' j' : ℕ) → a' ≢ new → (j' < n → a' ≢ update j') → g a' j' ≡ z.forward a' j')
      → a ≢ new
      → (j < suc n → a ≢ update j)
      → relinked n update new g a j ≡ z.forward a j
  unfolding relinked
  linked_stays n a j update new z g stays o apart =
      let kept = stays a j o (λ h. apart (omega arith)) in
      elim (Bool-cases (j == n)) [
        | inl e ↦
            let e' : j ≡ n = ground arith in
            let away : a ≢ update n = λ h. apart (omega arith) (h ∙ ap update (sym e')) in
            ground arith
        | inr ne ↦ ground arith
      ]

  link-step :
      (n : ℕ) (update : ℕ → ℕ) (new : ℕ) (z z' : SkipList S)
      → link n update new z ≡ some z'
      → n < heights z' (update n)
      → link (suc n) update new z
        ≡ some (set_forward (update n) n new (set_forward new n (z'.forward (update n) n) z'))
  unfolding link forward_at
  link-step n update new z z' h t = ground arith

  pub link-Linked :
      (n : ℕ) (update : ℕ → ℕ) (new : ℕ) (z : SkipList S)
      → ((i : ℕ) → i < n → i < heights z (update i))
      → ((i : ℕ) → i < n → update i ≢ new)
      → (g : ℕ → ℕ → ℕ) × (link n update new z ≡ some (record z { forward = g }))
        × Linked n update new z g
  unfolding set_forward relinked
  link-Linked zero update new z tall old = (
    z.forward,
    link-nothing update new z,
    ((λ j h. elim h [ ]), (λ j h. elim h [ ]), λ a j o _. refl),
  )
  link-Linked (suc n) update new z tall old =
      let (g, same, (to, from, stays)) =
        link-Linked n update new z (λ i h. tall i (omega arith)) (λ i h. old i (omega arith)) in
      let o = old n (omega arith) in
      let here : g (update n) n ≡ z.forward (update n) n =
        stays (update n) n o (λ h. absurd (omega arith)) in
      (
        relinked n update new g,
        link-step n update new z (record z { forward = g }) same (tall n (omega arith)),
        (
          (λ j h. linked_to n j update new g to o h),
          (λ j h. linked_from n j update new z g from o here h),
          λ a j o' apart. linked_stays n a j update new z g stays o' apart,
        ),
      )
