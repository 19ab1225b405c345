-- ===== src/Raft/Replicate/Progress.antt =====
-- A leader finds the entry that its follower agrees with (`replicateTo` and
-- `processAppendEntries`, internal/raft/replication.go).
use kver.Prelude.{
  ℕ, ◌+◌, ◌-◌, ◌≤◌, ◌<◌, ◌≡◌, refl, sym, ap, ◌∙◌, arith, Bytes, true, false, none, some, List, ◌∷◌,
  ltb, leb, ◌==◌, if_both, subst, u64_mod, length,
}
use kver.Prelude.Dict
use kver.Raft.Types.{
  LogEntry, AppendEntriesRequest, AppendEntriesResponse, Result, ok, err, log_compacted,
}
use kver.Raft.Log.{Written, Rewrite, term_at, get_entries_from}
use kver.Raft.Log.WellFormed.{IsWellFormed}
use kver.Raft.Node.{RaftNode, Window, is_leader}
use kver.Raft.Append.{heard_leader, process_append_entries}
use kver.Raft.Append.Rejects.{rejection-Lower}
use kver.Raft.Snapshot.Artifact.{ArtifactCodec}
use kver.Raft.Snapshot.Send.{Transfer}
use kver.Raft.Replicate.{
  Exchange, Replicated, Round, request, failed, compacted, round_entries, round_previous,
  next_round, run_round, request_answered, clamp_next, next_after, replicate_to, append_request,
}

-- What a request of this round starts from.
StartsFrom : RaftNode → ℕ → Round → Type 0
StartsFrom r next (request req) = (req.prev_log_index ≡ next - 1) × (req.term ≡ r.current_term)
StartsFrom r next (failed e) = Unit
StartsFrom r next compacted = Unit

round_entries-StartsFrom :
    (r : RaftNode) (next term : ℕ) (x : Result (List LogEntry))
    → StartsFrom r next (round_entries r next term x)
unfolding round_entries StartsFrom append_request
round_entries-StartsFrom r next term (ok es) = (refl, refl)
round_entries-StartsFrom r next term (err log_compacted) = tt
round_entries-StartsFrom r next term (err _) = tt

round_previous-StartsFrom :
    (r : RaftNode) (next : ℕ) (x : Result ℕ) → StartsFrom r next (round_previous r next x)
unfolding round_previous StartsFrom
round_previous-StartsFrom r next (ok term) =
    unfold StartsFrom in round_entries-StartsFrom r next term (get_entries_from r.log next)
round_previous-StartsFrom r next (err log_compacted) = tt
round_previous-StartsFrom r next (err _) = tt

next_round-StartsFrom : (r : RaftNode) (next : ℕ) → StartsFrom r next (next_round r next)
unfolding next_round
next_round-StartsFrom r next =
    if_both (StartsFrom r next) (leb next r.log.base_index) _ _ (λ _. unfold StartsFrom in tt)
      (λ _. round_previous-StartsFrom r next (term_at r.log (next - 1)))

next_round-request :
    (r : RaftNode) (next : ℕ) (req : AppendEntriesRequest)
    → next_round r next ≡ request req
    → (req.prev_log_index ≡ next - 1) × (req.term ≡ r.current_term)
unfolding StartsFrom
next_round-request r next req h = subst (StartsFrom r next) h (next_round-StartsFrom r next)

next_after-lower :
    (next : ℕ) (resp : AppendEntriesResponse)
    → 0 < resp.conflict_index
    → resp.conflict_index < next
    → (0 < next_after next resp) × (next_after next resp < next)
unfolding next_after
next_after-lower next resp pos low = (ground arith, ground arith)

module _ (codec : ArtifactCodec) (t : Transfer) (fuel : ℕ) (peer : Bytes) where
  request_answered-rejected :
      (x : Exchange) (rest : ℕ → RaftNode → Replicated) (next : ℕ) (req : AppendEntriesRequest)
      (resp : AppendEntriesResponse) (r : RaftNode)
      → resp.term ≤ r.current_term
      → is_leader r.state ≡ true
      → r.current_term ≡ req.term
      → resp.success ≡ false
      → request_answered codec t fuel peer x rest next req (ok (some resp)) r
        ≡ rest
            (next_after next resp)
            (record r { next_index = Dict.put r.next_index peer (next_after next resp) })
  unfolding request_answered
  request_answered-rejected x rest next req resp r old leads same refused =
      let fresh : ltb r.current_term resp.term ≡ false = ground arith in
      let still : (r.current_term == req.term) ≡ true = ground arith in
      simp (fresh, leads, still, refused)

  replicate_to-request :
      (x : Exchange) (xs : List Exchange) (next : ℕ) (req : AppendEntriesRequest) (r : RaftNode)
      → r.fatal ≡ false
      → is_leader r.state ≡ true
      → next_round r (clamp_next r.log next) ≡ request req
      → replicate_to codec t fuel peer (x ∷ xs) next r
        ≡ request_answered codec t fuel peer x
            (replicate_to codec t fuel peer xs)
            (clamp_next r.log next)
            req
            (x.rpc req)
            (x.others r)
  unfolding replicate_to run_round
  replicate_to-request x xs next req r healthy leads round = simp (healthy, leads, round)

  -- A round whose request a follower refuses without an error, the follower's log being well formed
  -- and beginning at the first entry, goes on with a lower next index that is not zero, if the
  -- leader is still one in its term and knows no newer one, and the indices of the request fit a
  -- word. The follower's log is the one at which it takes the request.
  pub replicate_to_backs_off :
      (x : Exchange) (xs : List Exchange) (next : ℕ) (req : AppendEntriesRequest) (r : RaftNode)
      (w : Window) (tio : Rewrite) (aio : Written) (now : ℕ) (f : RaftNode)
      → r.fatal ≡ false
      → is_leader r.state ≡ true
      → next_round r (clamp_next r.log next) ≡ request req
      → x.rpc req ≡ ok (some (process_append_entries w tio aio now (some req) f).1)
      → (process_append_entries w tio aio now (some req) f).2 ≡ none
      → (process_append_entries w tio aio now (some req) f).1.success ≡ false
      → (process_append_entries w tio aio now (some req) f).1.term ≤ (x.others r).current_term
      → is_leader (x.others r).state ≡ true
      → (x.others r).current_term ≡ r.current_term
      → f.fatal ≡ false
      → f.current_term ≤ r.current_term
      → IsWellFormed (heard_leader w now req f).log
      → (heard_leader w now req f).log.base_index ≡ 0
      → req.prev_log_index + length req.entries + 1 < u64_mod
      → (lower : ℕ) × (0 < lower)
        × (lower < clamp_next r.log next)
        × (replicate_to codec t fuel peer (x ∷ xs) next r
            ≡ replicate_to codec t fuel peer xs lower
                (record (x.others r) { next_index = Dict.put (x.others r).next_index peer lower }))
  replicate_to_backs_off x xs next req r w tio aio now f healthy leads round answered clean refused
        old still same well recent wf base fits =
      let resp = (process_append_entries w tio aio now (some req) f).1 in
      let (prev, term) = next_round-request r (clamp_next r.log next) req round in
      let (pos, low) =
        rejection-Lower w tio aio now req f well (omega (arith, term)) wf base fits refused clean in
      let (nonzero, lower) =
        next_after-lower (clamp_next r.log next) resp pos (omega (arith, prev, low, pos)) in
      (
        next_after (clamp_next r.log next) resp,
        nonzero,
        lower,
        replicate_to-request x xs next req r healthy leads round
            ∙ ap
                (λ y.
                  request_answered codec t fuel peer x (replicate_to codec t fuel peer xs)
                    (clamp_next r.log next) req y (x.others r))
                answered
            ∙ request_answered-rejected x (replicate_to codec t fuel peer xs)
                (clamp_next r.log next) req resp (x.others r) old still (same ∙ sym term) refused,
      )
