-- ===== src/Kv/SkipList/Insert.antt =====
-- `newSkipList` and `insert` of internal/kvstore/skiplist.go as a whole.
pub mod Link
pub mod Node
pub mod Chains
pub mod Place
use kver.Prelude.{
  ℕ, ◌≡◌, refl, sym, ap, ◌∙◌, arith, Bytes, bytes_eq_refl, Bool, true, false, Option, none, some,
  List, [], if◌then◌else◌, inl, inr, Bool-cases, Option-cases,
}
use kver.Prelude.Dict
use kver.Kv.SkipList.{ScoreOps, SkipList, new_skip_list}
use kver.Kv.SkipList.Write.{place, delete, insert}
use kver.Kv.SkipList.Order.{ScoreLaws}
use kver.Kv.SkipList.Entries.{find, remove_entry, insert_sorted, find-remove_entry}
use kver.Kv.SkipList.Links.{Links}
use kver.Kv.SkipList.Shape.{IsSkipList, entries}
use kver.Kv.SkipList.Insert.Place.{place-insert_sorted}
use kver.Kv.SkipList.Delete.{delete-remove_entry}

module _ {S : Type 0} (sc : ScoreOps S) where
  -- What `insert` promises of the entries in their order.
  unfoldable pub insert_entry : S → Bytes → List (S × Bytes) → List (S × Bytes)
  unfolding find insert_sorted remove_entry
  insert_entry score member es = elim (find member es) [
    | none ↦ insert_sorted sc (score, member) es
    | some old ↦
        if sc.eq old score then es else insert_sorted sc (score, member) (remove_entry member es)
  ]

  -- What an insertion comes to.
  abbrev pub Inserts : S → Bytes → List (S × Bytes) → Option (SkipList S) → Type 0
  Inserts score member es o =
      (z' : SkipList S) × ((ps' : List ℕ) × (o ≡ some z')
        × IsSkipList sc z' ps'
        × (entries z' ps' ≡ insert_entry score member es))

  -- A new list is well-formed, and empty.
  pub new_skip_list-IsSkipList : IsSkipList sc (new_skip_list sc) []
  unfolding new_skip_list find Dict.get
  new_skip_list-IsSkipList = record {
    links = λ i h. Links.stop refl;
    distinct = ((λ e. absurd (omega arith)), refl, tt);
    used = (omega arith, tt);
    top = refl;
    tall = tt;
    low = tt;
    levels = (omega arith, omega arith);
    sorted = tt;
    once = tt;
    scores = λ m. refl;
    size = refl;
    back = refl;
  }

module _ {S : Type 0} (sc : ScoreOps S) (laws : ScoreLaws sc) where
  -- The case of an insertion, by what the map has.
  abbrev replaced : (ℕ → Bool) → S → Bytes → SkipList S → Option (SkipList S)
  replaced coins score member z = elim (delete sc member z) [
    | none ↦ none
    | some deleted ↦ place sc coins score member deleted.0
  ]

  chosen :
      (coins : ℕ → Bool) (score : S) (member : Bytes) (z : SkipList S) (o : Option S)
      → Dict.get z.dict member ≡ o
      → insert sc coins score member z ≡ elim o [
        | none ↦ place sc coins score member z
        | some old ↦ if sc.eq old score then some z else replaced coins score member z
      ]
  unfolding insert
  chosen coins score member z o h =
      ap
        (λ w. elim w [
          | none ↦ place sc coins score member z
          | some old ↦ if sc.eq old score then some z else replaced coins score member z
        ])
        h

  entry_chosen :
      (score : S) (member : Bytes) (es : List (S × Bytes)) (o : Option S)
      → find member es ≡ o
      → insert_entry sc score member es ≡ elim o [
        | none ↦ insert_sorted sc (score, member) es
        | some old ↦
            if sc.eq old score
            then es
            else insert_sorted sc (score, member) (remove_entry member es)
      ]
  unfolding insert_entry
  entry_chosen score member es o h =
      ap
        (λ w. elim w [
          | none ↦ insert_sorted sc (score, member) es
          | some old ↦
              if sc.eq old score
              then es
              else insert_sorted sc (score, member) (remove_entry member es)
        ])
        h

  insert-absent :
      (coins : ℕ → Bool) (score : S) (member : Bytes) (z : SkipList S) (ps : List ℕ)
      → IsSkipList sc z ps
      → Dict.get z.dict member ≡ none
      → Inserts sc score member (entries z ps) (insert sc coins score member z)
  insert-absent coins score member z ps ok absent =
      let out : find member (entries z ps) ≡ none = sym (ok.scores member) ∙ absent in
      let (z', (ps', eq, good, same)) =
        place-insert_sorted sc laws coins score member z ps ok absent in
      (
        z',
        (
          ps',
          chosen coins score member z none absent ∙ eq,
          good,
          same ∙ sym (entry_chosen score member (entries z ps) none out),
        ),
      )

  insert-same :
      (coins : ℕ → Bool) (score old : S) (member : Bytes) (z : SkipList S) (ps : List ℕ)
      → IsSkipList sc z ps
      → Dict.get z.dict member ≡ some old
      → sc.eq old score ≡ true
      → Inserts sc score member (entries z ps) (insert sc coins score member z)
  insert-same coins score old member z ps ok there same =
      let out : find member (entries z ps) ≡ some old = sym (ok.scores member) ∙ there in
      (
        z,
        (
          ps,
          chosen coins score member z (some old) there
              ∙ ap (λ t. if t then some z else replaced coins score member z) same,
          ok,
          sym (
              entry_chosen score member (entries z ps) (some old) out
              ∙ ap
                  (λ t.
                    if t
                    then entries z ps
                    else insert_sorted sc (score, member) (remove_entry member (entries z ps)))
                  same),
        ),
      )

  insert-replaced :
      (coins : ℕ → Bool) (score old : S) (member : Bytes) (z : SkipList S) (ps : List ℕ)
      → IsSkipList sc z ps
      → Dict.get z.dict member ≡ some old
      → sc.eq old score ≡ false
      → Inserts sc score member (entries z ps) (insert sc coins score member z)
  insert-replaced coins score old member z ps ok there differs =
      let out : find member (entries z ps) ≡ some old = sym (ok.scores member) ∙ there in
      let (z1, (ps1, gone, good1, rest)) = delete-remove_entry sc laws member old z ps ok there in
      let absent : Dict.get z1.dict member ≡ none =
        good1.scores member
        ∙ ap (find member) rest
        ∙ find-remove_entry member member (entries z ps) ok.once
        ∙ ap (λ t. if t then none else find member (entries z ps)) (bytes_eq_refl member) in
      let (z', (ps', eq, good, same)) =
        place-insert_sorted sc laws coins score member z1 ps1 good1 absent in
      (
        z',
        (
          ps',
          chosen coins score member z (some old) there
              ∙ ap (λ t. if t then some z else replaced coins score member z) differs
              ∙ ap
                  (λ w. elim w [
                    | none ↦ none
                    | some deleted ↦ place sc coins score member deleted.0
                  ])
                  gone
              ∙ eq,
          good,
          same
              ∙ ap (insert_sorted sc (score, member)) rest
              ∙ sym (
                  entry_chosen score member (entries z ps) (some old) out
                  ∙ ap
                      (λ t.
                        if t
                        then entries z ps
                        else insert_sorted sc (score, member) (remove_entry member (entries z ps)))
                      differs),
        ),
      )

  -- Where the scores compare as numbers do, an insertion into a well-formed list does not panic,
  -- and its loops end within their fuel. It leaves a well-formed list, on all levels and for all
  -- coins, whose entries are `insert_entry` of the entries before: unchanged where the member has
  -- this score, and otherwise without the member's old entry and with the new one in its place.
  pub insert-insert_entry :
      (coins : ℕ → Bool) (score : S) (member : Bytes) (z : SkipList S) (ps : List ℕ)
      → IsSkipList sc z ps
      → Inserts sc score member (entries z ps) (insert sc coins score member z)
  insert-insert_entry coins score member z ps ok = elim (Option-cases (Dict.get z.dict member)) [
    | inl absent ↦ insert-absent coins score member z ps ok absent
    | inr found ↦
        let (old, there) = found in
        elim (Bool-cases (sc.eq old score)) [
          | inl same ↦ insert-same coins score old member z ps ok there same
          | inr differs ↦ insert-replaced coins score old member z ps ok there differs
        ]
  ]
