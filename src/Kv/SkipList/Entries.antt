-- ===== src/Kv/SkipList/Entries.antt =====
-- The entries of a sorted set in their order, which the nodes of internal/kvstore/skiplist.go hold.
use kver.Prelude.{
  ◌≡◌, refl, sym, ap, ◌∙◌, arith, Bytes, bytes_eq, bytes_eq_iff, true, false, Option, none, some,
  List, [], ◌∷◌, if◌then◌else◌, if_both, All,
}
use kver.Kv.SkipList.{ScoreOps, less}
use kver.Kv.SkipList.Order.{ScoreLaws, less_trans, less-total}

module _ {S : Type 0} where
  -- The score of a member.
  unfoldable pub find : Bytes → List (S × Bytes) → Option S
  find m [] = none
  find m ((s, k) ∷ es) = if bytes_eq k m then some s else find m es

  -- The entries without a member.
  unfoldable pub remove_entry : Bytes → List (S × Bytes) → List (S × Bytes)
  remove_entry m [] = []
  remove_entry m ((s, k) ∷ es) = if bytes_eq k m then es else (s, k) ∷ remove_entry m es

  -- No member stands twice.
  abbrev pub Once : List (S × Bytes) → Type 0
  Once [] = Unit
  Once (e ∷ es) = (find e.1 es ≡ none) × Once es

  pub find-remove_entry :
      (m j : Bytes) (es : List (S × Bytes))
      → Once es
      → find j (remove_entry m es) ≡ (if bytes_eq m j then none else find j es)
  unfolding find remove_entry
  find-remove_entry m j [] o = ground arith
  find-remove_entry m j ((s, k) ∷ es) (out, o) =
      let same : bytes_eq k j ≡ true → find j es ≡ none =
        λ e. ap (λ a. find a es) (sym ((bytes_eq_iff k j).0 e)) ∙ out in
      ground
        (arith, find-remove_entry m j es o, bytes_eq_iff k m, bytes_eq_iff k j, bytes_eq_iff m j)

  pub remove_entry-Once : (m : Bytes) (es : List (S × Bytes)) → Once es → Once (remove_entry m es)
  unfolding remove_entry
  remove_entry-Once m [] o = tt
  remove_entry-Once m ((s, k) ∷ es) (out, o) =
      if_both Once (bytes_eq k m) es ((s, k) ∷ remove_entry m es) (λ _. o)
        λ _. (ground (arith, find-remove_entry m k es o), remove_entry-Once m es o)

module _ {S : Type 0} (sc : ScoreOps S) where
  -- Each entry comes before all that follow.
  abbrev pub Sorted : List (S × Bytes) → Type 0
  Sorted [] = Unit
  Sorted (e ∷ es) = All (λ y. less sc e y ≡ true) es × Sorted es

  unfoldable pub insert_sorted : S × Bytes → List (S × Bytes) → List (S × Bytes)
  insert_sorted key [] = key ∷ []
  insert_sorted key (e ∷ es) =
      let rest = insert_sorted key es in if less sc e key then e ∷ rest else key ∷ e ∷ es

  pub find-insert_sorted :
      (j : Bytes) (key : S × Bytes) (es : List (S × Bytes))
      → find key.1 es ≡ none
      → find j (insert_sorted key es) ≡ (if bytes_eq key.1 j then some key.0 else find j es)
  unfolding find insert_sorted
  find-insert_sorted j (s, m) [] out = refl
  find-insert_sorted j (s, m) ((t, k) ∷ es) out =
      ground (
        arith,
        find-insert_sorted j (s, m) es,
        bytes_eq_iff k m,
        bytes_eq_iff k j,
        bytes_eq_iff m j,
      )

  pub insert_sorted-Once :
      (key : S × Bytes) (es : List (S × Bytes))
      → find key.1 es ≡ none
      → Once es
      → Once (insert_sorted key es)
  unfolding find insert_sorted
  insert_sorted-Once (s, m) [] out o = (refl, tt)
  insert_sorted-Once (s, m) ((t, k) ∷ es) out (away, o) =
      let out' : find m es ≡ none = ground arith in
      let ne : bytes_eq m k ≡ false = ground (arith, bytes_eq_iff k m, bytes_eq_iff m k) in
      if_both Once (less sc (t, k) (s, m)) ((t, k) ∷ insert_sorted (s, m) es) ((s, m) ∷ (t, k) ∷ es)
        (λ _. (ground (arith, find-insert_sorted k (s, m) es), insert_sorted-Once (s, m) es out' o))
        λ _. (out, (away, o))

  All-insert_sorted :
      (P : S × Bytes → Type 0) (key : S × Bytes) (es : List (S × Bytes))
      → P key
      → All P es
      → All P (insert_sorted key es)
  unfolding insert_sorted
  All-insert_sorted P key [] p ps = (p, tt)
  All-insert_sorted P key (e ∷ es) p (q, ps) =
      if_both (All P) (less sc e key) (e ∷ insert_sorted key es) (key ∷ e ∷ es)
        (λ _. (q, All-insert_sorted P key es p ps)) λ _. (p, (q, ps))

  All-remove_entry :
      (P : S × Bytes → Type 0) (m : Bytes) (es : List (S × Bytes))
      → All P es
      → All P (remove_entry m es)
  unfolding remove_entry
  All-remove_entry P m [] ps = tt
  All-remove_entry P m ((s, k) ∷ es) (q, ps) =
      if_both (All P) (bytes_eq k m) es ((s, k) ∷ remove_entry m es) (λ _. ps)
        λ _. (q, All-remove_entry P m es ps)

  pub remove_entry-Sorted :
      (m : Bytes) (es : List (S × Bytes)) → Sorted es → Sorted (remove_entry m es)
  unfolding remove_entry
  remove_entry-Sorted m [] o = tt
  remove_entry-Sorted m ((s, k) ∷ es) (first, o) =
      if_both Sorted (bytes_eq k m) es ((s, k) ∷ remove_entry m es) (λ _. o)
        λ _.
          (All-remove_entry (λ y. less sc (s, k) y ≡ true) m es first, remove_entry-Sorted m es o)

module _ {S : Type 0} (sc : ScoreOps S) (laws : ScoreLaws sc) where
  -- The first entry that is not before the key is after it, and so are those that follow.
  All-after :
      (key e : S × Bytes) (es : List (S × Bytes))
      → less sc key e ≡ true
      → All (λ y. less sc e y ≡ true) es
      → All (λ y. less sc key y ≡ true) es
  All-after key e [] h ps = tt
  All-after key e (y ∷ es) h (p, ps) = (less_trans sc laws key e y h p, All-after key e es h ps)

  pub insert_sorted-Sorted :
      (key : S × Bytes) (es : List (S × Bytes))
      → find key.1 es ≡ none
      → Sorted sc es
      → Sorted sc (insert_sorted sc key es)
  unfolding find insert_sorted
  insert_sorted-Sorted key [] out o = (tt, tt)
  insert_sorted-Sorted key (e ∷ es) out (first, o) =
      let out' : find key.1 es ≡ none = ground arith in
      let ne : bytes_eq e.1 key.1 ≡ false = ground arith in
      if_both (Sorted sc) (less sc e key) (e ∷ insert_sorted sc key es) (key ∷ e ∷ es)
        (λ h. (
          All-insert_sorted sc (λ y. less sc e y ≡ true) key es h first,
          insert_sorted-Sorted key es out' o,
        ))
        λ h.
          let after = less-total sc laws e key ne h in
          ((after, All-after key e es after first), (first, o))
