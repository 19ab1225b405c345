-- ===== src/Kv/SkipList/Order.antt =====
-- The order of the nodes, `less` of internal/kvstore/skiplist.go.
use kver.Prelude.{◌≡◌, refl, arith, Bytes, bytes_eq, true, false, [], ◌∷◌}
use kver.Kv.SkipList.{ScoreOps, bytes_lt, less}

-- What `==` and `<` promise for scores that are numbers: floats without NaN.
pub record ScoreLaws {S : Type 0} (sc : ScoreOps S) : Type 0 where
  pub eq_refl : (a : S) → sc.eq a a ≡ true
  pub eq_sym : (a b : S) → sc.eq a b ≡ true → sc.eq b a ≡ true
  pub eq_trans : (a b c : S) → sc.eq a b ≡ true → sc.eq b c ≡ true → sc.eq a c ≡ true
  pub lt_trans : (a b c : S) → sc.lt a b ≡ true → sc.lt b c ≡ true → sc.lt a c ≡ true
  pub lt_eq : (a b c : S) → sc.lt a b ≡ true → sc.eq b c ≡ true → sc.lt a c ≡ true
  pub eq_lt : (a b c : S) → sc.eq a b ≡ true → sc.lt b c ≡ true → sc.lt a c ≡ true
  pub apart : (a b : S) → sc.lt a b ≡ true → sc.eq a b ≡ false
  pub one_way : (a b : S) → sc.lt a b ≡ true → sc.lt b a ≡ false
  pub total : (a b : S) → sc.eq a b ≡ false → sc.lt a b ≡ false → sc.lt b a ≡ true

bytes_lt_irrefl : (a : Bytes) → bytes_lt a a ≡ false
unfolding bytes_lt
bytes_lt_irrefl [] = refl
bytes_lt_irrefl (x ∷ xs) = ground (arith, bytes_lt_irrefl xs)

bytes_lt_trans : (a b c : Bytes) → bytes_lt a b ≡ true → bytes_lt b c ≡ true → bytes_lt a c ≡ true
unfolding bytes_lt
bytes_lt_trans a [] [] h k = cc
bytes_lt_trans [] [] (z ∷ zs) h k = refl
bytes_lt_trans (x ∷ xs) [] (z ∷ zs) h k = cc
bytes_lt_trans a (y ∷ ys) [] h k = cc
bytes_lt_trans [] (y ∷ ys) (z ∷ zs) h k = refl
bytes_lt_trans (x ∷ xs) (y ∷ ys) (z ∷ zs) h k = ground (arith, bytes_lt_trans xs ys zs)

bytes_lt-one_way : (a b : Bytes) → bytes_lt a b ≡ true → bytes_lt b a ≡ false
unfolding bytes_lt
bytes_lt-one_way [] [] h = refl
bytes_lt-one_way [] (y ∷ ys) h = refl
bytes_lt-one_way (x ∷ xs) [] h = cc
bytes_lt-one_way (x ∷ xs) (y ∷ ys) h = ground (arith, bytes_lt-one_way xs ys)

bytes_lt-total : (a b : Bytes) → bytes_eq a b ≡ false → bytes_lt a b ≡ false → bytes_lt b a ≡ true
unfolding bytes_lt bytes_eq
bytes_lt-total [] [] ne h = cc
bytes_lt-total [] (y ∷ ys) ne h = cc
bytes_lt-total (x ∷ xs) [] ne h = refl
bytes_lt-total (x ∷ xs) (y ∷ ys) ne h = ground (arith, bytes_lt-total xs ys)

module _ {S : Type 0} (sc : ScoreOps S) (laws : ScoreLaws sc) where
  pub less_irrefl : (a : S × Bytes) → less sc a a ≡ false
  unfolding less
  less_irrefl (s, m) = let same = laws.eq_refl s in let none = bytes_lt_irrefl m in ground arith

  pub less_trans :
      (a b c : S × Bytes) → less sc a b ≡ true → less sc b c ≡ true → less sc a c ≡ true
  unfolding less
  less_trans (s, m) (t, n) (u, o) h k = ground (
    arith,
    bytes_lt_trans m n o,
    laws.eq_sym s t,
    laws.eq_sym t u,
    laws.eq_sym s u,
    laws.eq_trans s t u,
    laws.eq_trans t s u,
    laws.eq_trans s u t,
    laws.lt_trans s t u,
    laws.lt_eq s t u,
    laws.eq_lt s t u,
    laws.apart s t,
    laws.apart t u,
    laws.lt_eq t u s,
    laws.eq_lt u s t,
    laws.one_way s t,
    laws.one_way t u,
    laws.eq_sym u s,
  )

  pub less-one_way : (a b : S × Bytes) → less sc a b ≡ true → less sc b a ≡ false
  unfolding less
  less-one_way (s, m) (t, n) h =
      ground (arith, bytes_lt-one_way m n, laws.eq_sym s t, laws.eq_sym t s, laws.one_way s t)

  pub less-total :
      (a b : S × Bytes) → bytes_eq a.1 b.1 ≡ false → less sc a b ≡ false → less sc b a ≡ true
  unfolding less
  less-total (s, m) (t, n) ne h =
      ground (arith, bytes_lt-total m n, laws.eq_sym s t, laws.eq_sym t s, laws.total s t)
