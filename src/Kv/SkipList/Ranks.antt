-- ===== src/Kv/SkipList/Ranks.antt =====
-- `rank`, `rangeByRank` and `revRangeByRank` of internal/kvstore/skiplist.go.
use kver.Prelude.{
  ℕ, zero, suc, ◌+◌, ◌≤◌, ◌<◌, ◌≡◌, ◌≢◌, sym, ap, ◌∙◌, arith, Bytes, bytes_eq, true, false, Option,
  none, some, List, [], ◌∷◌, if◌then◌else◌, inl, inr, Bool-cases, Option-cases, All, length,
}
use kver.Prelude.Dict
use kver.Kv.SkipList.{ScoreOps, SkipList, header, forward_at, entry_of, is_entry, rank, rank_from}
use kver.Kv.SkipList.Order.{ScoreLaws}
use kver.Kv.SkipList.Entries.{find}
use kver.Kv.SkipList.Search.{heights}
use kver.Kv.SkipList.Links.{Links, Distinct}
use kver.Kv.SkipList.Shape.{IsSkipList, entries}

module _ {S : Type 0} where
  -- How many entries stand before a member.
  unfoldable pub position : Bytes → List (S × Bytes) → ℕ
  position m [] = 0
  position m ((s, k) ∷ es) = if bytes_eq k m then 0 else suc (position m es)

  -- The rank of a member, where there is one.
  unfoldable pub rank_of : Bytes → List (S × Bytes) → Option ℕ
  unfolding find position
  rank_of m es = elim (find m es) [ none ↦ none | some s ↦ some (position m es) ]

  -- On the first level, the node is followed by these.
  abbrev pub Leads : SkipList S → ℕ → List ℕ → Type 0
  Leads z p [] = p ≡ 0
  Leads z p (x ∷ xs) = (p ≡ x) × (x ≢ 0) × (0 < heights z x) × Leads z (z.forward x 0) xs

  Links-Leads :
      (z : SkipList S) (p : ℕ) (xs : List ℕ)
      → Links z.forward (heights z) 0 p xs
      → All (λ x. 1 ≤ heights z x) xs
      → Distinct xs
      → Leads z (z.forward p 0) xs
  Links-Leads z p [] (Links.stop e) tall d = e
  Links-Leads z p (x ∷ xs) (Links.tall t e l) (h, tall) (real, out, d) =
      (e, real, h, Links-Leads z x xs l tall d)
  Links-Leads z p (x ∷ xs) (Links.low t l) (h, tall) d = absurd (omega arith)

  pub IsSkipList-Leads :
      (sc : ScoreOps S) (z : SkipList S) (ps : List ℕ)
      → IsSkipList sc z ps
      → Leads z (z.forward header 0) ps
  IsSkipList-Leads sc z ps ok =
      Links-Leads z header ps (ok.links 0 (omega arith)) ok.tall ok.distinct.2

module _ {S : Type 0} (sc : ScoreOps S) (laws : ScoreLaws sc) (z : SkipList S) where
  rank_from-next :
      (fuel : ℕ) (score : S) (member : Bytes) (x n : ℕ)
      → x ≢ 0
      → 0 < heights z x
      → bytes_eq (z.node x).member member ≡ false
      → rank_from sc (suc fuel) z score member x n
        ≡ rank_from sc fuel z score member (z.forward x 0) (suc n)
  unfolding rank_from is_entry forward_at
  rank_from-next fuel score member x n real tall other = ground arith

  rank_from-position :
      (fuel : ℕ) (score : S) (member : Bytes) (curr n : ℕ) (xs : List ℕ)
      → Leads z curr xs
      → find member (entries z xs) ≡ some score
      → length xs < fuel
      → rank_from sc fuel z score member curr n ≡ some (n + position member (entries z xs))
  unfolding rank_from find position is_entry forward_at entry_of
  rank_from-position zero score member curr n xs lead there few = elim few [ ]
  rank_from-position (suc fuel) score member curr n [] lead there few = absurd (ground arith)
  rank_from-position (suc fuel) score member curr n (x ∷ xs) (e, real, tall, lead) there few =
      elim (Bool-cases (bytes_eq (z.node x).member member)) [
        | inl same ↦
            let score_same : (z.node x).score ≡ score = ground arith in
            let eq : sc.eq (z.node x).score score ≡ true =
              ap (sc.eq (z.node x).score) (sym score_same) ∙ laws.eq_refl (z.node x).score in
            ap (λ p. rank_from sc (suc fuel) z score member p n) e ∙ ground arith
        | inr other ↦
            let there' : find member (entries z xs) ≡ some score = ground arith in
            let rest =
              rank_from-position fuel score member (z.forward x 0) (suc n) xs lead there'
                (omega arith) in
            ap (λ p. rank_from sc (suc fuel) z score member p n) e
            ∙ rank_from-next fuel score member x n real tall other
            ∙ rest
            ∙ ap some (ground arith)
      ]

  -- Where the scores compare as numbers do, `rank` on a well-formed list does not panic, and
  -- answers with the number of entries before the member, or that the list does not have it.
  pub rank-rank_of :
      (member : Bytes) (ps : List ℕ)
      → IsSkipList sc z ps
      → rank sc member z ≡ some (rank_of member (entries z ps))
  unfolding rank rank_of forward_at
  rank-rank_of member ps ok = elim (Option-cases (Dict.get z.dict member)) [
    | inl none_there ↦
        let out : find member (entries z ps) ≡ none = sym (ok.scores member) ∙ none_there in
        ground arith
    | inr found ↦
        let (score, there) = found in
        let out : find member (entries z ps) ≡ some score = sym (ok.scores member) ∙ there in
        let size = ok.size in
        let top = ok.top in
        let at =
          rank_from-position (suc z.length) score member (z.forward header 0) 0 ps
            (IsSkipList-Leads sc z ps ok) out (omega arith) in
        let at' : rank_from sc (suc z.length) z score member (z.forward header 0) 0
            ≡ some (position member (entries z ps)) =
          at ∙ ap some (omega arith) in
        let first : forward_at z header 0 ≡ some (z.forward header 0) = ground arith in
        ap
          (λ w. elim w [
            | none ↦ some none
            | some s ↦ elim (forward_at z header 0) [
              | none ↦ none
              | some first ↦ elim (rank_from sc (suc z.length) z s member first 0) [
                | none ↦ none
                | some n ↦ some (some n)
              ]
            ]
          ])
          there
        ∙ ap
            (λ w. elim w [
              | none ↦ none
              | some first ↦ elim (rank_from sc (suc z.length) z score member first 0) [
                | none ↦ none
                | some n ↦ some (some n)
              ]
            ])
            first
        ∙ ap (λ w. elim w [ none ↦ none | some n ↦ some (some n) ]) at'
        ∙ sym (
            ap (λ w. some (elim w [ none ↦ none | some s ↦ some (position member (entries z ps)) ]))
              out)
  ]
