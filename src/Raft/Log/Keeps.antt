-- ===== src/Raft/Log/Keeps.antt =====
-- Every operation of internal/raft/log.go that writes keeps the log well formed, whatever the
-- file system answers.
use kver.Prelude.{
  if_both, not, ◌&&◌, ℕ, suc, ◌+◌, ◌-◌, ◌≤◌, ◌<◌, ◌≡◌, refl, true, Option, none, some, List, [],
  ◌∷◌, ◌++◌, arith, subst, u64_mod, add64, length, take, drop, get_elem?, length-append,
  length-take, length-drop, ltb, ◌==◌, Option-cases, inl, inr,
}
use kver.Raft.Types.{LogEntry, RaftError, Result, ok, err}
use kver.Raft.Log.{
  RaftLog, Rewrite, Written, validate_entry_sequence, append, append_checked, truncate_after,
  compact_up_to, compact_to_term, restore_snapshot_boundary, restore_with, matching_suffix,
  snapshot_candidate, term_at, written, rolled_back, torn,
}
use kver.Raft.Log.WellFormed.{
  Contiguous, IsWellFormed, Contiguous-append, Contiguous-take, Contiguous-drop,
  validate-Contiguous, install-IsWellFormed,
}

-- The index that follows the last one, while the indices fit a word.
pub add64-next : (b n : ℕ) → suc (b + n) < u64_mod → add64 (add64 b n) 1 ≡ suc b + n
add64-next b n h = omega arith

extended :
    (e : LogEntry) (es : List LogEntry) (l : RaftLog)
    → IsWellFormed l
    → Contiguous (suc l.base_index + length l.entries) (e ∷ es)
    → suc (l.base_index + length l.entries + length (e ∷ es)) < u64_mod
    → Contiguous (suc l.base_index) (l.entries ++ e ∷ es)
      × (suc (l.base_index + length (l.entries ++ e ∷ es)) < u64_mod)
extended e es l w c f = (
  Contiguous-append (suc l.base_index) l.entries (e ∷ es) w.contiguous c,
  omega (arith, length-append l.entries (e ∷ es)),
)

append_checked-IsWellFormed :
    (io : Written) (e : LogEntry) (es : List LogEntry) (v : Option RaftError) (l : RaftLog)
    → IsWellFormed l
    → (v ≡ none → Contiguous (suc l.base_index + length l.entries) (e ∷ es))
    → suc (l.base_index + length l.entries + length (e ∷ es)) < u64_mod
    → IsWellFormed (append_checked io (e ∷ es) v l).0
unfolding append_checked
append_checked-IsWellFormed io e es (some x) l w c f = w
append_checked-IsWellFormed written e es none l w c f = ground (arith, extended e es l w (c refl) f)
append_checked-IsWellFormed rolled_back e es none l w c f =
    ground (arith, extended e es l w (c refl) f)
append_checked-IsWellFormed (torn n) e es none l w c f =
    ground (arith, extended e es l w (c refl) f)

pub append-IsWellFormed :
    (io : Written) (es : List LogEntry) (l : RaftLog)
    → IsWellFormed l
    → suc (l.base_index + length l.entries + length es) < u64_mod
    → IsWellFormed (append io es l).0
unfolding append
append-IsWellFormed io [] l w f = w
append-IsWellFormed io (e ∷ es) l w f = rw (add64-next l.base_index (length l.entries) w.fits) (
    if_both (λ (r : RaftLog × Option RaftError). IsWellFormed r.0) l.storage_failed _ _ (λ _. w)
      λ _.
        append_checked-IsWellFormed io e es _ l w (validate-Contiguous (e ∷ es) _ (omega arith)) f)

pub truncate_after-IsWellFormed :
    (io : Rewrite) (index : ℕ) (l : RaftLog)
    → IsWellFormed l
    → IsWellFormed (truncate_after io index l).0
unfolding truncate_after
truncate_after-IsWellFormed io index l w = ground (
  arith,
  length-take (index - l.base_index) l.entries,
  install-IsWellFormed io (take (index - l.base_index) l.entries) l.base_index l.base_term
      l.boundary_known l w
      (Contiguous-take (suc l.base_index) (index - l.base_index) l.entries w.contiguous),
)

compact_to_term-IsWellFormed :
    (io : Rewrite) (index : ℕ) (r : Result ℕ) (l : RaftLog)
    → IsWellFormed l
    → l.base_index < index
    → index ≤ l.base_index + length l.entries
    → IsWellFormed (compact_to_term io index r l).0
unfolding compact_to_term
compact_to_term-IsWellFormed io index (err e) l w lo hi = w
compact_to_term-IsWellFormed io index (ok term) l w lo hi =
    install-IsWellFormed io (drop (index - l.base_index) l.entries) index term true l w
      (subst (λ k. Contiguous k (drop (index - l.base_index) l.entries)) (omega arith)
        (Contiguous-drop (suc l.base_index) (index - l.base_index) l.entries w.contiguous))
      (omega (arith, length-drop (index - l.base_index) l.entries)) (λ z. absurd (omega arith))

pub compact_up_to-IsWellFormed :
    (io : Rewrite) (index : ℕ) (l : RaftLog)
    → IsWellFormed l
    → IsWellFormed (compact_up_to io index l).0
unfolding compact_up_to
compact_up_to-IsWellFormed io index l w =
    ground (arith, compact_to_term-IsWellFormed io index (term_at l index) l w)

restore_with-IsWellFormed :
    (io : Rewrite) (index term : ℕ) (es : List LogEntry) (l : RaftLog)
    → IsWellFormed l
    → index + length es + 1 < u64_mod
    → (index ≡ 0 → term ≡ 0)
    → IsWellFormed (restore_with io index term es (validate_entry_sequence es (add64 index 1)) l).0
unfolding restore_with
restore_with-IsWellFormed io index term es l w f z =
    let next : add64 index 1 ≡ suc index = omega arith in
    rw next (elim (Option-cases (validate_entry_sequence es (suc index))) [
      | inl valid ↦ rw valid (
          install-IsWellFormed io es index term true l w
            (validate-Contiguous es (suc index) (omega arith) valid) (omega arith)
            (λ i. (z i, refl)))
      | inr (x, refused) ↦ rw refused w
    ])

length-matching_suffix :
    (term : ℕ) (o : Option LogEntry) (es : List LogEntry)
    → length (matching_suffix term o es) ≤ length es
unfolding matching_suffix
length-matching_suffix term o es = ground arith

length-snapshot_candidate :
    (index term : ℕ) (l : RaftLog)
    → IsWellFormed l
    → suc index < u64_mod
    → l.base_index ≤ index
    → index + length (snapshot_candidate index term l) + 1 < u64_mod
unfolding snapshot_candidate
length-snapshot_candidate index term l w f b =
    let offset = index - l.base_index - 1 in
    ground (
      arith,
      length-matching_suffix term (get_elem? l.entries offset) (drop (offset + 1) l.entries),
      length-drop (offset + 1) l.entries,
    )

pub restore_snapshot_boundary-IsWellFormed :
    (io : Rewrite) (index term : ℕ) (l : RaftLog)
    → IsWellFormed l
    → suc index < u64_mod
    → IsWellFormed (restore_snapshot_boundary io index term l).0
unfolding restore_snapshot_boundary
restore_snapshot_boundary-IsWellFormed io index term l w f =
    let P = λ (r : RaftLog × Option RaftError). IsWellFormed r.0 in
    if_both P (ltb index l.base_index) _ _ (λ _. w)
      λ ge.
        if_both P ((index == l.base_index) && (l.boundary_known && not (l.base_term == term))) _ _
          (λ _. w)
          λ same.
            restore_with-IsWellFormed io index term (snapshot_candidate index term l) l w
              (length-snapshot_candidate index term l w f (ground arith)) (λ z. ground arith)
