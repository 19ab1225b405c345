-- ===== src/Kv/SkipList/Ranges.antt =====
-- The ranges of internal/kvstore/skiplist.go.
use kver.Prelude.{
  ℕ, zero, suc, ◌-◌, ◌≤◌, ◌<◌, ◌≡◌, ◌≢◌, refl, sym, ap, ◌∙◌, arith, Bytes, true, false, not, ◌&&◌,
  some, List, [], ◌∷◌, leb, ◌==◌, if◌then◌else◌, inl, inr, Bool-cases, length, take, drop, max,
  length-drop, take_of_length-le, drop_of_length-le, take-nil, drop-nil,
}
use kver.Prelude.Int.{ℤ, pos, negsuc}
use kver.Kv.SkipList.{
  ScoreOps, SkipList, header, forward_at, entry_of, collect_range, range_by_rank, first_rank,
  last_rank, in_range,
}
use kver.Kv.SkipList.Search.{heights}
use kver.Kv.SkipList.Shape.{IsSkipList, entries, length-entries}
use kver.Kv.SkipList.Ranks.{Leads, IsSkipList-Leads}

-- The entries from one rank to another: a rank below 0 is the first one as a start, and none as a
-- stop.
unfoldable pub between : {S : Type 0} → ℤ → ℤ → List (S × Bytes) → List (S × Bytes)
between start (negsuc n) es = []
between (negsuc m) (pos stop) es = take (suc stop) es
between (pos m) (pos stop) es = take (suc stop - m) (drop m es)

pub between-first_rank :
    {S : Type 0} (start : ℤ) (stop : ℕ) (es : List (S × Bytes))
    → take (suc stop - first_rank start) (drop (first_rank start) es) ≡ between start (pos stop) es
unfolding between first_rank
between-first_rank (negsuc m) stop es =
    let whole : suc stop - 0 ≡ suc stop = omega arith in ap (λ n. take n es) whole
between-first_rank (pos m) stop es = refl

pub between-negative :
    {S : Type 0} (start : ℤ) (n : ℕ) (es : List (S × Bytes)) → between start (negsuc n) es ≡ []
unfolding between
between-negative (negsuc m) n es = refl
between-negative (pos m) n es = refl

-- A range of ranks that is cut to the entries is the same range.
take-cut :
    {S : Type 0} (first stop : ℕ) (es : List (S × Bytes))
    → leb first (last_rank (length es) stop) ≡ true
    → take (suc (last_rank (length es) stop) - first) (drop first es)
      ≡ take (suc stop - first) (drop first es)
unfolding last_rank
take-cut first stop es h =
    let size = length-drop first es in
    elim (Bool-cases (leb (length es) stop)) [
      | inl past ↦
          take_of_length-le (suc (last_rank (length es) stop) - first) (drop first es)
            (ground arith)
          ∙ sym (take_of_length-le (suc stop - first) (drop first es) (ground arith))
      | inr inside ↦
          let same : last_rank (length es) stop ≡ stop = ground arith in
          ap (λ l. take (suc l - first) (drop first es)) same
    ]

-- A range that the tests leave out is empty.
pub between-out :
    {S : Type 0} (z : SkipList S) (first stop : ℕ) (es : List (S × Bytes))
    → z.length ≡ length es
    → in_range z first stop ≡ false
    → take (suc stop - first) (drop first es) ≡ []
unfolding in_range last_rank
between-out z first stop es size out = elim (Bool-cases (leb (length es) first)) [
  | inl past ↦
      ap (take (suc stop - first)) (drop_of_length-le first es (ground arith))
      ∙ take-nil (suc stop - first)
  | inr inside ↦
      let nothing : suc stop - first ≡ 0 = ground arith in ap (λ k. take k (drop first es)) nothing
]

module _ {S : Type 0} (sc : ScoreOps S) (z : SkipList S) where
  collect_range-next :
      (fuel x idx start stop : ℕ) (rest : List (S × Bytes))
      → x ≢ 0
      → 0 < heights z x
      → idx ≤ stop
      → collect_range sc fuel z (z.forward x 0) (suc idx) start stop ≡ some rest
      → collect_range sc (suc fuel) z x idx start stop
        ≡ some (if leb start idx then entry_of z x ∷ rest else rest)
  unfolding collect_range forward_at
  collect_range-next fuel x idx start stop rest real tall le h = ground arith

  collect_range-done :
      (fuel curr idx start stop : ℕ)
      → (not (curr == 0) && leb idx stop) ≡ false
      → collect_range sc (suc fuel) z curr idx start stop ≡ some []
  unfolding collect_range
  collect_range-done fuel curr idx start stop h = ground arith

  collect_range-take :
      (fuel curr idx start stop : ℕ) (xs : List ℕ)
      → Leads z curr xs
      → length xs < fuel
      → collect_range sc fuel z curr idx start stop
        ≡ some (take (suc stop - max idx start) (drop (start - idx) (entries z xs)))
  collect_range-take zero curr idx start stop xs lead few = elim few [ ]
  collect_range-take (suc fuel) curr idx start stop [] lead few =
      collect_range-done fuel curr idx start stop (ground arith)
      ∙ sym (
          ap (λ d. some (take (suc stop - max idx start) d)) (drop-nil (start - idx))
          ∙ ap some (take-nil (suc stop - max idx start)))
  collect_range-take (suc fuel) curr idx start stop (x ∷ xs) (e, real, tall, lead) few =
      let rest =
        collect_range-take fuel (z.forward x 0) (suc idx) start stop xs lead (omega arith) in
      ap (λ p. collect_range sc (suc fuel) z p idx start stop) e
      ∙ elim (Bool-cases (leb idx stop)) [
        | inr past ↦
            let nothing : suc stop - max idx start ≡ 0 = ground arith in
            collect_range-done fuel x idx start stop (ground arith)
            ∙ sym (ap (λ k. some (take k (drop (start - idx) (entries z (x ∷ xs))))) nothing)
        | inl before ↦
            collect_range-next fuel x idx start stop
              (take (suc stop - max (suc idx) start) (drop (start - suc idx) (entries z xs))) real
              tall (ground arith) rest
            ∙ ap some (elim (Bool-cases (leb start idx)) [
              | inl started ↦
                  let one : suc stop - max idx start ≡ suc (suc stop - max (suc idx) start) =
                    ground arith in
                  let none_left : start - idx ≡ 0 = ground arith in
                  let none_left' : start - suc idx ≡ 0 = ground arith in
                  ap
                    (λ t.
                      if t
                      then entry_of z x
                        ∷ take (suc stop - max (suc idx) start)
                            (drop (start - suc idx) (entries z xs))
                      else take (suc stop - max (suc idx) start)
                          (drop (start - suc idx) (entries z xs)))
                    started
                  ∙ ap
                      (λ d.
                        entry_of z x
                        ∷ take (suc stop - max (suc idx) start) (drop d (entries z xs)))
                      none_left'
                  ∙ sym (
                      ap (λ k. take k (drop (start - idx) (entries z (x ∷ xs)))) one
                      ∙ ap
                          (λ d.
                            take (suc (suc stop - max (suc idx) start))
                              (drop d (entries z (x ∷ xs))))
                          none_left)
              | inr waits ↦
                  let same : suc stop - max idx start ≡ suc stop - max (suc idx) start =
                    ground arith in
                  let less_left : start - idx ≡ suc (start - suc idx) = ground arith in
                  ap
                    (λ t.
                      if t
                      then entry_of z x
                        ∷ take (suc stop - max (suc idx) start)
                            (drop (start - suc idx) (entries z xs))
                      else take (suc stop - max (suc idx) start)
                          (drop (start - suc idx) (entries z xs)))
                    waits
                  ∙ sym (
                      ap (λ k. take k (drop (start - idx) (entries z (x ∷ xs)))) same
                      ∙ ap
                          (λ d. take (suc stop - max (suc idx) start) (drop d (entries z (x ∷ xs))))
                          less_left)
            ])
      ]

  range_negative : (start : ℤ) (n : ℕ) → range_by_rank sc start (negsuc n) z ≡ some []
  unfolding range_by_rank
  range_negative start n = refl

  range-in :
      (start : ℤ) (stop f : ℕ)
      → in_range z (first_rank start) stop ≡ true
      → forward_at z header 0 ≡ some f
      → range_by_rank sc start (pos stop) z
        ≡ collect_range sc (suc z.length) z f 0 (first_rank start) (last_rank z.length stop)
  unfolding range_by_rank
  range-in start stop f h k = ground arith

  range-out :
      (start : ℤ) (stop : ℕ)
      → in_range z (first_rank start) stop ≡ false
      → range_by_rank sc start (pos stop) z ≡ some []
  unfolding range_by_rank
  range-out start stop h = ground arith

  pub in_range-cut :
      (first stop : ℕ) (es : List (S × Bytes))
      → z.length ≡ length es
      → in_range z first stop ≡ true
      → take (suc (last_rank z.length stop) - first) (drop first es)
        ≡ take (suc stop - first) (drop first es)
  unfolding in_range
  in_range-cut first stop es size h =
      let le : leb first (last_rank (length es) stop) ≡ true =
        ap (λ n. leb first (last_rank n stop)) (sym size)
        ∙ (let both : leb first (last_rank z.length stop) ≡ true = ground arith in both) in
      ap (λ n. take (suc (last_rank n stop) - first) (drop first es)) size
      ∙ take-cut first stop es le

  pub range_by_rank-between :
      (start stop : ℤ) (ps : List ℕ)
      → IsSkipList sc z ps
      → range_by_rank sc start stop z ≡ some (between start stop (entries z ps))
  unfolding forward_at
  range_by_rank-between start (negsuc n) ps ok =
      range_negative start n ∙ ap some (sym (between-negative start n (entries z ps)))
  range_by_rank-between start (pos stop) ps ok =
      let first = first_rank start in
      let es = entries z ps in
      let size : z.length ≡ length es = ok.size ∙ sym (length-entries z ps) in
      let count = ok.size in
      let top = ok.top in
      elim (Bool-cases (in_range z first stop)) [
        | inr out ↦
            range-out start stop out
            ∙ ap some
                (sym (between-out z first stop es size out) ∙ between-first_rank start stop es)
        | inl inside ↦
            let last = last_rank z.length stop in
            let whole : max 0 first ≡ first = omega arith in
            let begin : first - 0 ≡ first = omega arith in
            range-in start stop (z.forward header 0) inside (ground arith)
            ∙ collect_range-take (suc z.length) (z.forward header 0) 0 first last ps
                (IsSkipList-Leads sc z ps ok) (omega arith)
            ∙ ap (λ k. some (take (suc last - k) (drop (first - 0) es))) whole
            ∙ ap (λ k. some (take (suc last - first) (drop k es))) begin
            ∙ ap some (in_range-cut first stop es size inside ∙ between-first_rank start stop es)
      ]
