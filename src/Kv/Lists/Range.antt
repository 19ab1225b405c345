-- ===== src/Kv/Lists/Range.antt =====
-- The loop of LRange (internal/kvstore/list.go) takes the elements between its bounds.
use kver.Prelude.{
  ℕ, suc, ◌+◌, ◌-◌, ◌≡◌, ◌≤◌, ◌<◌, refl, ap, sym, ◌∙◌, Bytes, List, [], ◌∷◌, arith, take, drop,
  length, ltb, leb, take_of_length-le, drop_of_length-le, length-drop, take-nil, drop-nil, subst,
  Bool-cases, inl, inr,
}
use kver.Kv.Lists.{collect, slice}

collect_before : (i start stop : ℕ) (ll : List Bytes) → stop < i → collect i start stop ll ≡ []
unfolding collect
collect_before i start stop [] h = refl
collect_before i start stop (v ∷ ll) h = ground arith

collect_inside :
    (i start stop : ℕ) (ll : List Bytes)
    → start ≤ i
    → collect i start stop ll ≡ take (suc stop - i) ll
unfolding collect
collect_inside i start stop [] h = sym (take-nil (suc stop - i))
collect_inside i start stop (v ∷ ll) h = elim (Bool-cases (leb i stop)) [
  | inl inside ↦
      let count : suc stop - i ≡ suc (suc stop - (i + 1)) = ground arith in
      rw count (ground (arith, collect_inside (i + 1) start stop ll))
  | inr behind ↦ let none_left : suc stop - i ≡ 0 = ground arith in rw none_left (ground arith)
]

collect_lem :
    (i start stop : ℕ) (ll : List Bytes)
    → i ≤ start
    → start ≤ stop
    → collect i start stop ll ≡ take (suc stop - start) (drop (start - i) ll)
unfolding collect
collect_lem i start stop [] h g =
    sym (ap (take (suc stop - start)) (drop-nil (start - i)) ∙ take-nil (suc stop - start))
collect_lem i start stop (v ∷ ll) h g = elim (Bool-cases (ltb i start)) [
  | inl before ↦
      let skip : start - i ≡ suc (start - (i + 1)) = ground arith in
      rw skip (ground (arith, collect_lem (i + 1) start stop ll))
  | inr at ↦
      let here : start ≡ i = ground arith in
      let none_skipped : start - i ≡ 0 = omega arith in
      rw none_skipped (
        subst (λ k. collect i start stop (v ∷ ll) ≡ take (suc stop - k) (v ∷ ll)) (sym here)
          (collect_inside i start stop (v ∷ ll) (omega arith)))
]

-- LRange returns the elements from `start` to `stop`, both included, as far as there are any.
slice_lem :
    (start stop : ℕ) (ll : List Bytes)
    → slice start stop ll ≡ take (suc stop - start) (drop start ll)
unfolding slice
slice_lem start stop ll =
    let rest : length (drop start ll) ≡ length ll - start = length-drop start ll in
    ground (
      arith,
      collect_lem 0 start (length ll - 1) ll,
      collect_lem 0 start stop ll,
      drop_of_length-le start ll,
      take_of_length-le (suc stop - start) (drop start ll),
      take_of_length-le (suc (length ll - 1) - start) (drop start ll),
    )
