-- ===== src/Kv/SkipList/RevRanges.antt =====
-- The ranges of internal/kvstore/skiplist.go from the end.
use kver.Prelude.{
  ℕ, zero, suc, ◌-◌, ◌≡◌, ◌≢◌, refl, sym, ap, subst, ◌∙◌, arith, true, false, some, List, [], ◌∷◌,
  inl, inr, Bool-cases, length, take, drop, length-append,
}
use kver.Prelude.Int.{ℤ, pos, negsuc}
use kver.Kv.SkipList.{
  ScoreOps, SkipList, first_rank, last_rank, in_range, range_by_rank, skip_back, collect_back,
  rev_range_by_rank,
}
use kver.Kv.SkipList.Links.{Distinct}
use kver.Kv.SkipList.Shape.{IsSkipList, entries, length-entries, Back}
use kver.Kv.SkipList.Ranges.{
  between, between-out, between-first_rank, between-negative, in_range-cut, range_by_rank-between,
}
use mathlib.Core.List.{reverse, reverse_aux, reverse-cons}

-- The nodes from the last one back.
abbrev backwards : List ℕ → List ℕ → List ℕ
backwards [] rs = rs
backwards (x ∷ xs) rs = backwards xs (x ∷ rs)

length-reverse : {A : Type 0} (xs : List A) → length (reverse xs) ≡ length xs
length-reverse [] = refl
length-reverse (x ∷ xs) =
    let n = length-append (reverse xs) (x ∷ []) in
    let rest = length-reverse xs in ap length (reverse-cons x xs) ∙ omega arith

module _ {S : Type 0} where
  -- The links back lead through these nodes.
  abbrev LeadsBack : SkipList S → ℕ → List ℕ → Type 0
  LeadsBack z p [] = p ≡ 0
  LeadsBack z p (x ∷ rs) = (p ≡ x) × (x ≢ 0) × LeadsBack z (z.backward x) rs

  Back-LeadsBack :
      (z : SkipList S) (q t : ℕ) (xs rs : List ℕ)
      → Back z.backward q xs t
      → Distinct xs
      → LeadsBack z q rs
      → LeadsBack z t (backwards xs rs)
  Back-LeadsBack z q t [] rs e d lead = subst (λ p. LeadsBack z p rs) (sym e) lead
  Back-LeadsBack z q t (x ∷ xs) rs (e, back) (real, out, d) lead =
      Back-LeadsBack z x t xs (x ∷ rs) back d
        (refl, real, subst (λ p. LeadsBack z p rs) (sym e) lead)

  entries-backwards :
      (z : SkipList S) (xs rs : List ℕ)
      → entries z (backwards xs rs) ≡ reverse_aux (entries z xs) (entries z rs)
  entries-backwards z [] rs = refl
  entries-backwards z (x ∷ xs) rs = entries-backwards z xs (x ∷ rs)

module _ {S : Type 0} (sc : ScoreOps S) (z : SkipList S) where
  skip_back-drop :
      (n p : ℕ) (rs : List ℕ) → LeadsBack z p rs → LeadsBack z (skip_back sc n z p) (drop n rs)
  unfolding skip_back
  skip_back-drop zero p rs lead = lead
  skip_back-drop (suc n) p [] lead = subst (λ k. LeadsBack z k []) (ground arith) lead
  skip_back-drop (suc n) p (x ∷ rs) (e, real, lead) =
      let there : p ≢ 0 = λ e'. real (sym e ∙ e') in
      let skips : skip_back sc n z (z.backward p) ≡ skip_back sc (suc n) z p = ground arith in
      let step : skip_back sc n z (z.backward x) ≡ skip_back sc (suc n) z p =
        ap (λ k. skip_back sc n z (z.backward k)) (sym e) ∙ skips in
      subst (λ k. LeadsBack z k (drop n rs)) step (skip_back-drop n (z.backward x) rs lead)

  collect_back-take :
      (n p : ℕ) (rs : List ℕ) → LeadsBack z p rs → collect_back sc n z p ≡ take n (entries z rs)
  unfolding collect_back
  collect_back-take zero p rs lead = refl
  collect_back-take (suc n) p [] lead = ground arith
  collect_back-take (suc n) p (x ∷ rs) (e, real, lead) =
      let rest = collect_back-take n (z.backward x) rs lead in
      ap (collect_back sc (suc n) z) e ∙ ground arith

  drop-entries : (n : ℕ) (rs : List ℕ) → entries z (drop n rs) ≡ drop n (entries z rs)
  drop-entries zero rs = refl
  drop-entries (suc n) [] = refl
  drop-entries (suc n) (x ∷ rs) = drop-entries n rs

  rev-in :
      (start : ℤ) (stop : ℕ)
      → in_range z (first_rank start) stop ≡ true
      → rev_range_by_rank sc start (pos stop) z
        ≡ collect_back sc
            (suc (last_rank z.length stop) - first_rank start)
            z
            (skip_back sc (first_rank start) z z.tail)
  unfolding rev_range_by_rank
  rev-in start stop h = ground arith

  rev-out :
      (start : ℤ) (stop : ℕ)
      → in_range z (first_rank start) stop ≡ false
      → rev_range_by_rank sc start (pos stop) z ≡ []
  unfolding rev_range_by_rank
  rev-out start stop h = ground arith

  rev-negative : (start : ℤ) (n : ℕ) → rev_range_by_rank sc start (negsuc n) z ≡ []
  unfolding rev_range_by_rank
  rev-negative start n = refl

  rev_range_by_rank-between :
      (start stop : ℤ) (ps : List ℕ)
      → IsSkipList sc z ps
      → rev_range_by_rank sc start stop z ≡ between start stop (reverse (entries z ps))
  rev_range_by_rank-between start (negsuc n) ps ok =
      rev-negative start n ∙ sym (between-negative start n (reverse (entries z ps)))
  rev_range_by_rank-between start (pos stop) ps ok =
      let first = first_rank start in
      let rs = backwards ps [] in
      let es : entries z rs ≡ reverse (entries z ps) = entries-backwards z ps [] in
      let size : z.length ≡ length (reverse (entries z ps)) =
        ok.size ∙ sym (length-entries z ps) ∙ sym (length-reverse (entries z ps)) in
      let lead = Back-LeadsBack z 0 z.tail ps [] ok.back ok.distinct.2 refl in
      elim (Bool-cases (in_range z first stop)) [
        | inr out ↦
            rev-out start stop out
            ∙ sym (between-out z first stop (reverse (entries z ps)) size out)
            ∙ between-first_rank start stop (reverse (entries z ps))
        | inl inside ↦
            let last = last_rank z.length stop in
            rev-in start stop inside
            ∙ collect_back-take (suc last - first) (skip_back sc first z z.tail) (drop first rs)
                (skip_back-drop first z.tail rs lead)
            ∙ ap (take (suc last - first)) (drop-entries first rs ∙ ap (drop first) es)
            ∙ in_range-cut sc z first stop (reverse (entries z ps)) size inside
            ∙ between-first_rank start stop (reverse (entries z ps))
      ]

  -- Where a list is well-formed, neither range panics, and their loops end within their fuel. A
  -- range is the entries from the rank `start` to the rank `stop`, and a range from the end, which
  -- follows the links back, is those of the reversed list: `start` below 0 counts as 0, a `stop`
  -- below 0 gives nothing, and one behind the end is the end.
  pub ranges-between :
      (start stop : ℤ) (ps : List ℕ)
      → IsSkipList sc z ps
      → (range_by_rank sc start stop z ≡ some (between start stop (entries z ps)))
        × (rev_range_by_rank sc start stop z ≡ between start stop (reverse (entries z ps)))
  ranges-between start stop ps ok =
      (range_by_rank-between sc z start stop ps ok, rev_range_by_rank-between start stop ps ok)
