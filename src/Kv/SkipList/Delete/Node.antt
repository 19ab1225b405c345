-- ===== src/Kv/SkipList/Delete/Node.antt =====
-- `delete` of internal/kvstore/skiplist.go, from the loop that takes the node out on.
use kver.Prelude.{
  ℕ, ◌-◌, ◌≤◌, ◌<◌, ◌≡◌, ◌≢◌, refl, ap, ◌∙◌, arith, Bytes, true, none, some, ◌==◌, if◌then◌else◌,
  inl, inr, Bool-cases,
}
use kver.Prelude.Dict
use kver.Kv.SkipList.{ScoreOps, SkipList, header, forward_at}
use kver.Kv.SkipList.Write.{lower, set_backward, unlinked, finish_delete}
use kver.Kv.SkipList.Search.{heights}
use kver.Kv.SkipList.Delete.Unlink.{Lowered, lower-Lowered}

module _ {S : Type 0} where
  -- What `delete` leaves.
  abbrev pub deleted : Bytes → SkipList S → (ℕ → ℕ → ℕ) → (ℕ → ℕ) → ℕ → ℕ → SkipList S
  deleted member z g b t l = record z {
    forward = g;
    backward = b;
    tail = t;
    level = l;
    length = z.length - 1;
    dict = Dict.remove z.dict member;
  }

  -- The links back that are left, and the tail, where `q` followed the node.
  abbrev pub UnlinkedBack : ℕ → ℕ → SkipList S → (ℕ → ℕ) → ℕ → Type 0
  UnlinkedBack x q z b t =
      ((a : ℕ) → a ≢ q → b a ≡ z.backward a)
      × (q ≡ 0 → t ≡ z.backward x)
      × (q ≢ 0 → t ≡ z.tail)
      × (q ≢ 0 → b q ≡ z.backward x)

module _ {S : Type 0} (sc : ScoreOps S) where
  finish_delete-some :
      (member : Bytes) (l : ℕ) (z : SkipList S)
      → lower z.level z ≡ some l
      → finish_delete sc member z
        ≡ some
            (record z { level = l; length = z.length - 1; dict = Dict.remove z.dict member }, true)
  unfolding finish_delete
  finish_delete-some member l z h = ground arith

  unlinked-some :
      (member : Bytes) (x l : ℕ) (z z' : SkipList S)
      → 0 < heights z x
      → (if z.forward x 0 == 0
          then record z { tail = z.backward x }
          else set_backward (z.forward x 0) (z.backward x) z)
        ≡ z'
      → lower z'.level z' ≡ some l
      → unlinked sc member x (some z)
        ≡ some (
          record z' { level = l; length = z'.length - 1; dict = Dict.remove z'.dict member },
          true,
        )
  unfolding unlinked forward_at
  unlinked-some member x l z z' tall e h =
      let here : forward_at z x 0 ≡ some (z.forward x 0) = ground arith in
      ap
        (λ o. elim o [
          | none ↦ none
          | some q ↦
              finish_delete sc member (
                if q == 0
                then record z { tail = z.backward x }
                else set_backward q (z.backward x) z)
        ])
        here
      ∙ ap (finish_delete sc member) e
      ∙ finish_delete-some member l z' h

  pub unlinked-deleted :
      (member : Bytes) (x : ℕ) (z : SkipList S)
      → 0 < heights z x
      → 1 ≤ z.level
      → z.level ≤ heights z header
      → (b : ℕ → ℕ) × ((t : ℕ) × ((l : ℕ) × (unlinked sc member x (some z)
              ≡ some (deleted member z z.forward b t l, true))
            × UnlinkedBack x (z.forward x 0) z b t
            × Lowered z.level z l))
  unfolding set_backward
  unlinked-deleted member x z tall some_level few = elim (Bool-cases (z.forward x 0 == 0)) [
    | inl e ↦
        let z' : SkipList S = record z { tail = z.backward x } in
        let (l, eq, low) = lower-Lowered z.level z' some_level few in
        (
          z.backward,
          (
            z.backward x,
            (
              l,
              unlinked-some member x l z z' tall (ground arith) eq,
              (
                (λ a far. refl),
                (λ q. refl),
                (λ real. absurd (real (ground arith))),
                (λ real. absurd (real (ground arith))),
              ),
              low,
            ),
          ),
        )
    | inr ne ↦
        let z' : SkipList S = set_backward (z.forward x 0) (z.backward x) z in
        let (l, eq, low) = lower-Lowered z.level z' some_level few in
        (
          z'.backward,
          (
            z.tail,
            (
              l,
              unlinked-some member x l z z' tall (ground arith) eq,
              (
                (λ a far. ground arith),
                (λ q. absurd (ground arith)),
                (λ real. refl),
                (λ real. ground arith),
              ),
              low,
            ),
          ),
        )
  ]
