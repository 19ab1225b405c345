-- ===== src/Kv/SkipList/Rebuild.antt =====
-- A skip list of internal/kvstore/skiplist.go that is built again from its entries, as `Restore` of
-- internal/kvstore/store.go builds it.
use kver.Prelude.{
  ℕ, suc, ◌-◌, ◌≤◌, ◌≡◌, refl, sym, ap, subst, ◌∙◌, arith, Bytes, bytes_eq, bytes_eq_iff, Bool,
  true, false, Option, none, List, [], ◌∷◌, ◌++◌, ◌==◌, All, inl, inr, Bool-cases, length,
  take_of_length-le,
}
use kver.Prelude.Int.{pos}
use kver.Kv.SkipList.{ScoreOps, SkipList, less}
use kver.Kv.SkipList.Order.{ScoreLaws}
use kver.Kv.SkipList.Entries.{find, Once, Sorted, insert_sorted}
use kver.Kv.SkipList.Shape.{IsSkipList, entries, length-entries}
use kver.Kv.SkipList.Insert.{insert_entry, insert-insert_entry, new_skip_list-IsSkipList}
use kver.Kv.SkipList.Ranges.{between}
use kver.Kv.SkipList.RevRanges.{ranges-between}
use kver.Kv.SkipList.Ops.{or_else, skip_list_ops}
use kver.Kv.Backup.{entries_of, insert_all, rebuild}

append_cons : {A : Type 0} (xs : List A) (y : A) (ys : List A) → (xs ++ y ∷ []) ++ ys ≡ xs ++ y ∷ ys
append_cons [] y ys = refl
append_cons (x ∷ xs) y ys = ap (◌∷◌ x) (append_cons xs y ys)

append_nil : {A : Type 0} (xs : List A) → xs ++ [] ≡ xs
append_nil [] = refl
append_nil (x ∷ xs) = ap (◌∷◌ x) (append_nil xs)

length_zero : {A : Type 0} (xs : List A) → length xs ≡ 0 → xs ≡ []
length_zero [] h = refl
length_zero (x ∷ xs) h = absurd (omega arith)

All-middle :
    {A : Type 0} (P : A → Type 0) (xs : List A) (y : A) (ys : List A) → All P (xs ++ y ∷ ys) → P y
All-middle P [] y ys (p, ps) = p
All-middle P (x ∷ xs) y ys (p, ps) = All-middle P xs y ys ps

module _ {S : Type 0} where
  find-away :
      (k m : Bytes) (s : S) (es rest : List (S × Bytes))
      → find k (es ++ (s, m) ∷ rest) ≡ none
      → bytes_eq m k ≡ false
  unfolding find
  find-away k m s [] rest h = ground arith
  find-away k m s ((t, j) ∷ es) rest h = let later = find-away k m s es rest in ground arith

  find-fresh :
      (m : Bytes) (s : S) (es rest : List (S × Bytes))
      → Once (es ++ (s, m) ∷ rest)
      → find m es ≡ none
  unfolding find
  find-fresh m s [] rest o = refl
  find-fresh m s ((t, k) ∷ es) rest (away, o) =
      let later = find-fresh m s es rest o in
      let apart = find-away k m s es rest away in ground (arith, bytes_eq_iff k m, bytes_eq_iff m k)

module _ {S : Type 0} (sc : ScoreOps S) where
  -- A well-formed list with these entries.
  abbrev pub Built : SkipList S → List (S × Bytes) → Type 0
  Built z es = (ps : List ℕ) × (IsSkipList sc z ps × (entries z ps ≡ es))

  insert_sorted_last :
      (s : S) (m : Bytes) (es rest : List (S × Bytes))
      → Sorted sc (es ++ (s, m) ∷ rest)
      → insert_sorted sc (s, m) es ≡ es ++ (s, m) ∷ []
  unfolding insert_sorted
  insert_sorted_last s m [] rest o = refl
  insert_sorted_last s m (e ∷ es) rest (first, o) =
      let before = All-middle (λ y. less sc e y ≡ true) es (s, m) rest first in
      rw (before, insert_sorted_last s m es rest o)

  insert_entry_last :
      (s : S) (m : Bytes) (es rest : List (S × Bytes))
      → Sorted sc (es ++ (s, m) ∷ rest)
      → Once (es ++ (s, m) ∷ rest)
      → insert_entry sc s m es ≡ es ++ (s, m) ∷ []
  unfolding insert_entry
  insert_entry_last s m es rest sorted once =
      rw (insert_entry, find-fresh m s es rest once) (insert_sorted_last s m es rest sorted)

module _ {S : Type 0} (sc : ScoreOps S) (laws : ScoreLaws sc) (coins : SkipList S → ℕ → Bool)
    (parse : Bytes → Option S) (format : S → Bytes) where
  insert-Built :
      (s : S) (m : Bytes) (es rest : List (S × Bytes)) (z : SkipList S)
      → Built sc z es
      → Sorted sc (es ++ (s, m) ∷ rest)
      → Once (es ++ (s, m) ∷ rest)
      → Built sc ((skip_list_ops sc coins parse format).insert s m z) (es ++ (s, m) ∷ [])
  unfolding or_else
  insert-Built s m es rest z (ps, (ok, same)) sorted once =
      let (z', (ps', done, ok', holds)) = insert-insert_entry sc laws (coins z) s m z ps ok in
      subst (λ (o : Option (SkipList S)). Built sc (or_else z o) (es ++ (s, m) ∷ [])) (sym done)
        (
          ps',
          (
            ok',
            holds ∙ ap (insert_entry sc s m) same ∙ insert_entry_last sc s m es rest sorted once,
          ),
        )

  insert_all-Built :
      (es rest : List (S × Bytes)) (z : SkipList S)
      → Built sc z es
      → Sorted sc (es ++ rest)
      → Once (es ++ rest)
      → Built sc (insert_all (skip_list_ops sc coins parse format) rest z) (es ++ rest)
  unfolding insert_all
  insert_all-Built es [] z b sorted once = subst (Built sc z) (sym (append_nil es)) b
  insert_all-Built es ((s, m) ∷ rest) z b sorted once =
      let ops = skip_list_ops sc coins parse format in
      let more = sym (append_cons es (s, m) rest) in
      subst (Built sc (insert_all ops rest (ops.insert s m z))) (append_cons es (s, m) rest) (
        insert_all-Built (es ++ (s, m) ∷ []) rest (ops.insert s m z)
          (insert-Built s m es rest z b sorted once) (subst (Sorted sc) more sorted)
          (subst Once more once))

  entries_of-entries :
      (z : SkipList S) (ps : List ℕ)
      → IsSkipList sc z ps
      → entries_of (skip_list_ops sc coins parse format) z ≡ entries z ps
  unfolding entries_of between or_else
  entries_of-entries z ps ok =
      let size : z.length ≡ length (entries z ps) = ok.size ∙ sym (length-entries z ps) in
      let read = (ranges-between sc z (pos 0) (pos (z.length - 1)) ps ok).0 in
      elim (Bool-cases (z.length == 0)) [
        | inl nothing ↦
            let z_empty : length (entries z ps) ≡ 0 = ground arith in
            rw nothing (sym (length_zero (entries z ps) z_empty))
        | inr some_entry ↦
            let whole : length (entries z ps) ≤ suc (z.length - 1) - 0 = ground arith in
            rw (some_entry, read) (take_of_length-le (suc (z.length - 1) - 0) (entries z ps) whole)
      ]

  -- Built again from its entries, a well-formed list is a well-formed list with the same entries.
  pub rebuild-Built :
      (z : SkipList S) (ps : List ℕ)
      → IsSkipList sc z ps
      → Built sc
          (rebuild
            (skip_list_ops sc coins parse format)
            (entries_of (skip_list_ops sc coins parse format) z))
          (entries z ps)
  unfolding rebuild
  rebuild-Built z ps ok =
      let ops = skip_list_ops sc coins parse format in
      subst (λ es. Built sc (insert_all ops es ops.empty) (entries z ps))
        (sym (entries_of-entries z ps ok))
        (insert_all-Built [] (entries z ps) ops.empty ([], (new_skip_list-IsSkipList sc, refl))
          ok.sorted ok.once)
