-- ===== src/Raft/Log/WellFormed.antt =====
-- The invariant of the Raft log: the live entries follow the boundary without a gap, and the WAL
-- mirrors the memory until storage fails. Every operation of internal/raft/log.go keeps it.
use kver.Prelude.{
  ℕ, zero, suc, ◌+◌, ◌<◌, ◌≡◌, refl, Bool, true, false, none, some, List, [], ◌∷◌, ◌++◌, arith,
  subst, u64_mod, length, take, drop,
}
use kver.Raft.Types.{LogEntry}
use kver.Raft.Log.{
  install, RaftLog, Rewrite, validate_entry_sequence, persist_state, rewritten, not_renamed,
  renamed,
}

-- The indices count up from `n`.
abbrev pub Contiguous : ℕ → List LogEntry → Type 0
Contiguous n [] = Unit
Contiguous n (e ∷ es) = (e.index ≡ n) × Contiguous (suc n) es

pub record Mirrors (l : RaftLog) : Type 0 where
  pub is_open : l.wal_open ≡ true
  pub same_records : l.wal.records ≡ l.entries
  pub same_boundary : l.wal_has_header ≡ true → l.wal.header ≡ some (l.base_index, l.base_term)

pub record IsWellFormed (l : RaftLog) : Type 0 where
  pub contiguous : Contiguous (suc l.base_index) l.entries
  pub fits : suc (l.base_index + length l.entries) < u64_mod
  pub zero_boundary : l.base_index ≡ 0 → (l.base_term ≡ 0) × (l.boundary_known ≡ true)
  pub mirror : l.durable ≡ true → l.storage_failed ≡ false → Mirrors l

pub Contiguous-append :
    (n : ℕ) (xs ys : List LogEntry)
    → Contiguous n xs
    → Contiguous (n + length xs) ys
    → Contiguous n (xs ++ ys)
Contiguous-append n [] ys hx hy = subst (λ k. Contiguous k ys) (omega arith) hy
Contiguous-append n (x ∷ xs) ys hx hy =
    (hx.0, Contiguous-append (suc n) xs ys hx.1 (subst (λ k. Contiguous k ys) (omega arith) hy))

pub Contiguous-take : (n k : ℕ) (xs : List LogEntry) → Contiguous n xs → Contiguous n (take k xs)
Contiguous-take n zero xs h = tt
Contiguous-take n (suc k) [] h = tt
Contiguous-take n (suc k) (x ∷ xs) h = (h.0, Contiguous-take (suc n) k xs h.1)

pub Contiguous-drop :
    (n k : ℕ) (xs : List LogEntry) → Contiguous n xs → Contiguous (n + k) (drop k xs)
Contiguous-drop n zero xs h = subst (λ k. Contiguous k xs) (omega arith) h
Contiguous-drop n (suc k) [] h = tt
Contiguous-drop n (suc k) (x ∷ xs) h =
    subst (λ j. Contiguous j (drop k xs)) (omega arith) (Contiguous-drop (suc n) k xs h.1)

-- The check of the indices is exact while they fit a word.
pub validate-Contiguous :
    (es : List LogEntry) (n : ℕ)
    → n + length es < u64_mod
    → validate_entry_sequence es n ≡ none
    → Contiguous n es
unfolding validate_entry_sequence
validate-Contiguous [] n h v = tt
validate-Contiguous (e ∷ es) n h v = ground (arith, validate-Contiguous es (suc n))

pub validate_of_Contiguous :
    (es : List LogEntry) (n : ℕ)
    → n + length es < u64_mod
    → Contiguous n es
    → validate_entry_sequence es n ≡ none
unfolding validate_entry_sequence
validate_of_Contiguous [] n h c = refl
validate_of_Contiguous (e ∷ es) n h c = ground (arith, validate_of_Contiguous es (suc n))

-- What a rewrite of the WAL and the change of memory behind it leave, on every outcome.
pub install-IsWellFormed :
    (io : Rewrite) (es : List LogEntry) (bi bt : ℕ) (known : Bool) (l : RaftLog)
    → IsWellFormed l
    → Contiguous (suc bi) es
    → suc (bi + length es) < u64_mod
    → (bi ≡ 0 → (bt ≡ 0) × (known ≡ true))
    → IsWellFormed (install es bi bt known (persist_state io es bi bt l)).0
unfolding install persist_state
install-IsWellFormed rewritten es bi bt known l w c f z = ground arith
install-IsWellFormed not_renamed es bi bt known l w c f z = ground arith
install-IsWellFormed renamed es bi bt known l w c f z = ground arith
