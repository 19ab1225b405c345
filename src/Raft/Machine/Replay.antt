-- ===== src/Raft/Machine/Replay.antt =====
-- The state machine is what the committed entries make of it (`applyEntriesLoop`,
-- internal/raft/raft.go).
use kver.Prelude.{
  ℕ, zero, suc, ◌+◌, ◌-◌, ◌≤◌, ◌<◌, ◌≡◌, refl, sym, ap, ◌∙◌, arith, Bytes, true, false, Option,
  List, [], ◌∷◌, ltb, if◌then◌else◌, add64, u64_mod, length, take, drop, get_elem?, drop_at,
  Bool-cases, inl, inr,
}
use kver.Raft.Types.{LogEntry, ok, StateMachine}
use kver.Raft.Log.{RaftLog, get_entry, entry_at_offset}
use kver.Raft.Log.Effects.{get_entry_above}
use kver.Raft.Node.{RaftNode, quiet, step_down}
use kver.Raft.Membership.{MembershipChange, follow_change, apply_membership}
use kver.Raft.Machine.{
  Pause, applied, is_membership, entry_applied, apply_round, apply_next, apply_entries,
  apply_committed,
}

-- The entries that are committed and not applied yet.
unfoldable pub pending : RaftNode → List LogEntry
pending r =
    take (r.commit_index - r.last_applied) (drop (r.last_applied - r.log.base_index) r.log.entries)

-- What every reachable node has: what is applied is committed, what is committed is in the log,
-- and what is compacted has been applied.
pub record IsInOrder (r : RaftNode) : Type 0 where
  pub compacted : r.log.base_index ≤ r.last_applied
  pub committed : r.last_applied ≤ r.commit_index
  pub in_log : r.commit_index ≤ r.log.base_index + length r.log.entries
  pub fits : r.commit_index < u64_mod

-- The next entry is in the log, and it is the first one that is pending.
next_pending :
    (r : RaftNode)
    → IsInOrder r
    → r.last_applied < r.commit_index
    → (e : LogEntry) × (get_entry r.log (suc r.last_applied) ≡ ok e)
      × (pending r
          ≡ e
            ∷ take
                (r.commit_index - suc r.last_applied)
                (drop (suc r.last_applied - r.log.base_index) r.log.entries))
unfolding pending entry_at_offset
next_pending r w lt =
    let c = w.compacted in
    let i = w.in_log in
    let (e, at, rest) = drop_at (r.last_applied - r.log.base_index) r.log.entries (omega arith) in
    let offset : suc r.last_applied - r.log.base_index - 1 ≡ r.last_applied - r.log.base_index =
      omega arith in
    let step : suc r.last_applied - r.log.base_index ≡ suc (r.last_applied - r.log.base_index) =
      omega arith in
    let count : r.commit_index - r.last_applied ≡ suc (r.commit_index - suc r.last_applied) =
      omega arith in
    (
      e,
      get_entry_above r.log (suc r.last_applied) (omega arith)
          ∙ ap (λ k. entry_at_offset (get_elem? r.log.entries k)) offset
          ∙ ap entry_at_offset at,
      rw (count, rest, step) refl,
    )

IsInOrder-next :
    (r s : RaftNode)
    → IsInOrder r
    → r.last_applied < r.commit_index
    → s.log ≡ r.log
    → s.commit_index ≡ r.commit_index
    → s.last_applied ≡ suc r.last_applied
    → IsInOrder s
IsInOrder-next r s w lt log commit last =
    let c = w.compacted in
    let i = w.in_log in
    let f = w.fits in
    let base = ap (λ (l : RaftLog). l.base_index) log in
    let count = ap (λ (l : RaftLog). length l.entries) log in
    record {
      compacted = omega arith;
      committed = omega arith;
      in_log = omega arith;
      fits = omega arith;
    }

pending-next :
    (r s : RaftNode)
    → s.log ≡ r.log
    → s.commit_index ≡ r.commit_index
    → s.last_applied ≡ suc r.last_applied
    → pending s
      ≡ take
          (r.commit_index - suc r.last_applied)
          (drop (suc r.last_applied - r.log.base_index) r.log.entries)
unfolding pending
pending-next r s log commit last = rw (commit, last, log) refl

module _ {M : Type 0} (sm : StateMachine M) (unmarshal : Bytes → Option MembershipChange) where
  -- One goroutine at a time: nothing happens in the pauses.
  unfoldable pub calm : (ℕ → ℕ) → ℕ → Pause M
  calm clock index = record {
    before = λ x. x;
    during = λ r. r;
    after = λ x. x;
    window = quiet true (clock index);
    now = clock index;
  }

  -- The state machine after these entries, the first of them at the given index, each applied at
  -- its time; a change of the members passes it by.
  unfoldable pub replay : (ℕ → ℕ) → ℕ → List LogEntry → M → M
  unfolding is_membership
  replay clock index [] m = m
  replay clock index (e ∷ es) m =
      replay clock (suc index) es
        (if is_membership e.type then m else (sm.apply (clock index) e m).0)

  apply_membership_keeps :
      (now : ℕ) (e : LogEntry) (r : RaftNode)
      → ((apply_membership unmarshal (quiet true now) now e r).0.log ≡ r.log)
        × ((apply_membership unmarshal (quiet true now) now e r).0.commit_index ≡ r.commit_index)
  unfolding apply_membership follow_change step_down
  apply_membership_keeps now e r = (ground arith, ground arith)

  -- One calm round.
  round_lem :
      (clock : ℕ → ℕ) (index : ℕ) (e : LogEntry) (r : RaftNode) (m : M)
      → ((apply_round sm unmarshal (calm clock index) index e (r, m)).0.log ≡ r.log)
        × ((apply_round sm unmarshal (calm clock index) index e (r, m)).0.commit_index
            ≡ r.commit_index)
        × ((apply_round sm unmarshal (calm clock index) index e (r, m)).0.last_applied ≡ index)
        × ((apply_round sm unmarshal (calm clock index) index e (r, m)).1
            ≡ (if is_membership e.type then m else (sm.apply (clock index) e m).0))
  unfolding apply_round entry_applied calm
  round_lem clock index e r m =
      let (log, commit) = apply_membership_keeps (clock index) e r in
      elim (Bool-cases (is_membership e.type)) [
        | inl member ↦ rw member (log, commit, refl, refl)
        | inr other ↦ rw other (refl, refl, refl, refl)
      ]

  replay-next :
      (clock : ℕ → ℕ) (r s : RaftNode) (e : LogEntry) (es : List LogEntry) (m n : M)
      → pending r ≡ e ∷ es
      → pending s ≡ es
      → s.last_applied ≡ suc r.last_applied
      → n ≡ (if is_membership e.type then m else (sm.apply (clock (suc r.last_applied)) e m).0)
      → replay clock (suc s.last_applied) (pending s) n
        ≡ replay clock (suc r.last_applied) (pending r) m
  unfolding replay
  replay-next clock r s e es m n first rest last state = rw (first, rest, last, state) refl

  apply_entries-step :
      (pauses : ℕ → Pause M) (fuel next : ℕ) (e : LogEntry) (r : RaftNode) (m : M)
      → r.last_applied < r.commit_index
      → next ≡ add64 r.last_applied 1
      → get_entry r.log next ≡ ok e
      → apply_entries sm unmarshal pauses (suc fuel) (r, m)
        ≡ apply_entries sm unmarshal pauses fuel
            (apply_round sm unmarshal (pauses next) next e (r, m))
  unfolding apply_entries apply_next
  apply_entries-step pauses fuel next e r m lt at got =
      let more : ltb r.last_applied r.commit_index ≡ true = ground arith in
      let rest = apply_entries sm unmarshal pauses fuel in
      ap
        (λ b.
          if b
          then apply_next sm unmarshal rest pauses (add64 r.last_applied 1)
              (get_entry r.log (add64 r.last_applied 1)) (r, m)
          else applied r m)
        more
      ∙ ap (λ k. apply_next sm unmarshal rest pauses k (get_entry r.log k) (r, m)) (sym at)
      ∙ ap (λ g. apply_next sm unmarshal rest pauses next g (r, m)) got

  apply_entries-replay :
      (clock : ℕ → ℕ) (fuel : ℕ) (r : RaftNode) (m : M)
      → IsInOrder r
      → r.commit_index - r.last_applied < fuel
      → (s : RaftNode) × (apply_entries sm unmarshal (calm clock) fuel (r, m)
          ≡ applied s (replay clock (suc r.last_applied) (pending r) m))
        × (s.last_applied ≡ r.commit_index)
        × (s.commit_index ≡ r.commit_index)
        × (s.log ≡ r.log)
  apply_entries-replay clock zero r m w h = absurd (omega arith)
  apply_entries-replay clock (suc fuel) r m w h =
      elim (Bool-cases (ltb r.last_applied r.commit_index)) [
        | inr done ↦
            let committed = w.committed in
            let same : r.last_applied ≡ r.commit_index = ground arith in
            let none_left : r.commit_index - r.last_applied ≡ 0 = omega arith in
            (r, unfold apply_entries pending replay in rw (done, none_left) refl, same, refl, refl)
        | inl more ↦
            let lt : r.last_applied < r.commit_index = ground arith in
            let exact : add64 r.last_applied 1 ≡ suc r.last_applied =
              let f = w.fits in omega arith in
            let (e, got, first) = next_pending r w lt in
            let x =
              apply_round sm unmarshal (calm clock (suc r.last_applied)) (suc r.last_applied) e
                (r, m) in
            let (log, commit, last, state) = round_lem clock (suc r.last_applied) e r m in
            let kept : IsInOrder x.0 = IsInOrder-next r x.0 w lt log commit last in
            let rest = pending-next r x.0 log commit last in
            let (s, run, end, commit', log') =
              apply_entries-replay clock fuel x.0 x.1 kept (omega (arith, commit, last)) in
            (
              s,
              apply_entries-step (calm clock) fuel (suc r.last_applied) e r m lt (sym exact) got
                  ∙ (run
                      ∙ ap (applied s) (replay-next clock r x.0 e _ m x.1 first rest last state)),
              end ∙ commit,
              commit' ∙ commit,
              log' ∙ log,
            )
      ]

  -- A token on the channel of commits makes a node without a fatal error, whose indices are in
  -- order (`IsInOrder`) and which other goroutines do not disturb, apply every entry that is
  -- committed and not applied yet, each once and in the log's order, and none other: the state
  -- machine is what these entries make of it. The loop ends once it has gone round once for each of
  -- them.
  pub apply_committed-replay :
      (clock : ℕ → ℕ) (fuel : ℕ) (r : RaftNode) (m : M)
      → IsInOrder r
      → r.fatal ≡ false
      → r.commit_index - r.last_applied < fuel
      → (s : RaftNode) × (apply_committed sm unmarshal (calm clock) fuel (r, m)
          ≡ applied s (replay clock (suc r.last_applied) (pending r) m))
        × (s.last_applied ≡ r.commit_index)
        × (s.commit_index ≡ r.commit_index)
        × (s.log ≡ r.log)
  unfolding apply_committed
  apply_committed-replay clock fuel r m w well enough =
      let (s, run, last, commit, log) = apply_entries-replay clock fuel r m w enough in
      (
        s,
        ap (λ b. if b then applied r m else apply_entries sm unmarshal (calm clock) fuel (r, m))
              well
            ∙ run,
        last,
        commit,
        log,
      )
