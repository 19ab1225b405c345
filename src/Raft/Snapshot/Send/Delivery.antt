-- ===== src/Raft/Snapshot/Send/Delivery.antt =====
-- The requests of a transfer, and what the receiver makes of them (`sendSnapshot` and
-- `appendChunk`, internal/raft/snapshot.go).
use kver.Prelude.{
  ℕ, zero, suc, ◌+◌, ◌-◌, ◌≤◌, ◌<◌, ◌≡◌, ◌≢◌, ◌⊎◌, inl, inr, refl, sym, ap, subst, ◌∙◌, arith,
  Bytes, true, false, not, ◌||◌, Option, none, some, List, [], ◌∷◌, ◌++◌, ltb, ◌==◌, add64, u64_mod,
  length, take, drop, length-take, length-drop, take_of_length-le, Bool-cases,
}
use kver.Raft.Types.{InstallSnapshotRequest, InstallSnapshotResponse, RaftError, Result, ok, err}
use kver.Raft.Node.{RaftNode, InstallState, is_leader}
use kver.Raft.Snapshot.Artifact.{ArtifactCodec, part}
use kver.Raft.Snapshot.Chunks.{append_chunk}
use kver.Raft.Snapshot.Chunks.Prefix.{grown}
use kver.Raft.Snapshot.Send.{
  Transfer, Sent, sent, unfinished, add_request, chunk_size, chunk_stop, chunk_answered,
  send_chunks, send_snapshot, first_request,
}

-- The receiver's state after these requests, all of which it can store.
unfoldable pub hear_requests : List InstallSnapshotRequest → InstallState → InstallState
unfolding append_chunk
hear_requests [] s = s
hear_requests (req ∷ reqs) s = hear_requests reqs (append_chunk true req.offset req.chunk s).0

-- The contents have arrived up to this offset.
record HasUpTo (contents : Bytes) (offset : ℕ) (s : InstallState) : Type 0 where
  next : s.next_offset ≡ offset
  kept : s.contents ≡ take offset contents

append_chunk-next :
    (offset : ℕ) (chunk : Bytes) (s : InstallState)
    → s.next_offset ≡ offset
    → ((append_chunk true offset chunk s).0.next_offset ≡ add64 offset (length chunk))
      × ((append_chunk true offset chunk s).0.contents ≡ s.contents ++ chunk)
unfolding append_chunk
append_chunk-next offset chunk s at = (ground arith, ground arith)

append_chunk-HasUpTo :
    (contents : Bytes) (offset stop : ℕ) (s : InstallState)
    → offset ≤ stop
    → stop ≤ length contents
    → length contents < u64_mod
    → HasUpTo contents offset s
    → HasUpTo contents stop (append_chunk true offset (part offset stop contents) s).0
unfolding part
append_chunk-HasUpTo contents offset stop s low high fits h =
    let chunk = take (stop - offset) (drop offset contents) in
    let count = length-take (stop - offset) (drop offset contents) in
    let left = length-drop offset contents in
    let exact : add64 offset (length chunk) ≡ stop = omega arith in
    let (within, joined) = grown contents offset (stop - offset) (omega arith) fits in
    let (next, kept) = append_chunk-next offset chunk s h.next in
    record {
      next = next ∙ exact;
      kept = kept ∙ ap (λ xs. xs ++ chunk) h.kept ∙ joined ∙ ap (λ k. take k contents) exact;
    }

sent_failed :
    (reqs : List InstallSnapshotRequest) (r r' : RaftNode) (e : RaftError)
    → sent [] r (some e) ≢ sent reqs r' none
sent_failed reqs r r' e h = ground arith

module _ (t : Transfer) (peer : Bytes) where
  -- A round is the last one, and an error is certain to be one where the chunk is not the last one;
  -- or the next one follows.
  chunk_answered-cases :
      (rest : RaftNode → Sent) (req : InstallSnapshotRequest)
      (x : Result (Option InstallSnapshotResponse)) (r : RaftNode)
      → ((r' : RaftNode) × (e : Option RaftError) × (chunk_answered t peer rest req x r
            ≡ sent (req ∷ []) r' e)
          × (e ≡ none → req.done ≡ true))
        ⊎ ((r' : RaftNode) × (req.done ≡ false)
            × (chunk_answered t peer rest req x r ≡ add_request req (rest r')))
  unfolding chunk_answered
  chunk_answered-cases rest req (err e) r = inl (r, some e, refl, λ h. ground arith)
  chunk_answered-cases rest req (ok none) r = inl (r, _, refl, λ h. ground arith)
  chunk_answered-cases rest req (ok (some resp)) r =
      elim (Bool-cases (ltb r.current_term resp.term)) [
        | inl newer ↦ rw newer (inl (_, _, refl, λ h. ground arith))
        | inr same ↦
            rw same
              (elim (Bool-cases (not (is_leader r.state) || not (r.current_term == req.term))) [
                | inl over ↦ rw over (inl (_, _, refl, λ h. ground arith))
                | inr leads ↦ rw leads (elim (Bool-cases req.done) [
                  | inl last ↦ rw last (inl (_, _, refl, λ h. refl))
                  | inr more ↦ rw more (inr (r, refl, refl))
                ])
              ])
      ]

  chunk_stop-bounds :
      (size total offset : ℕ)
      → 0 < size
      → total + size < u64_mod
      → offset ≤ total
      → (offset ≤ chunk_stop size total offset)
        × (chunk_stop size total offset ≤ total)
        × ((chunk_stop size total offset == total) ≡ false
            → chunk_stop size total offset ≡ offset + size)
  unfolding chunk_stop
  chunk_stop-bounds size total offset some_bytes fits within =
      (ground arith, ground arith, λ h. ground arith)

  -- What the requests of a transfer that ends are worth.
  Delivers : Bytes → ℕ → Sent → Type 0
  Delivers contents offset unfinished = ⊥
  Delivers contents offset (sent reqs r e) =
      (s : InstallState)
      → e ≡ none
      → HasUpTo contents offset s
      → HasUpTo contents (length contents) (hear_requests reqs s)

  Delivers-one :
      (contents : Bytes) (offset stop : ℕ) (req : InstallSnapshotRequest) (r : RaftNode)
      (e : Option RaftError)
      → offset ≤ stop
      → stop ≤ length contents
      → length contents < u64_mod
      → req.offset ≡ offset
      → req.chunk ≡ part offset stop contents
      → (e ≡ none → stop ≡ length contents)
      → Delivers contents offset (sent (req ∷ []) r e)
  unfolding Delivers hear_requests
  Delivers-one contents offset stop req r e low high fits at chunk last s clean h =
      rw (at, chunk)
        (subst (λ k. HasUpTo contents k (append_chunk true offset (part offset stop contents) s).0)
          (last clean) (append_chunk-HasUpTo contents offset stop s low high fits h))

  Delivers-add :
      (contents : Bytes) (offset stop : ℕ) (req : InstallSnapshotRequest) (x : Sent)
      → offset ≤ stop
      → stop ≤ length contents
      → length contents < u64_mod
      → req.offset ≡ offset
      → req.chunk ≡ part offset stop contents
      → Delivers contents stop x
      → Delivers contents offset (add_request req x)
  unfolding Delivers hear_requests add_request
  Delivers-add contents offset stop req unfinished low high fits at chunk d = d
  Delivers-add contents offset stop req (sent reqs r e) low high fits at chunk d = λ s clean h.
      rw (at, chunk)
        (d (append_chunk true offset (part offset stop contents) s).0 clean
          (append_chunk-HasUpTo contents offset stop s low high fits h))

  send_chunks-Delivers :
      (base : InstallSnapshotRequest) (contents : Bytes) (size fuel offset : ℕ) (r : RaftNode)
      → 0 < size
      → length contents + size < u64_mod
      → offset ≤ length contents
      → length contents - offset < fuel
      → Delivers contents offset (send_chunks t peer base contents size fuel offset r)
  unfolding send_chunks
  send_chunks-Delivers base contents size zero offset r some_bytes fits within enough =
      absurd (omega arith)
  send_chunks-Delivers base contents size (suc fuel) offset r some_bytes fits within enough =
      let stop = chunk_stop size (length contents) offset in
      let req : InstallSnapshotRequest = record base {
        offset = offset;
        done = stop == length contents;
        chunk = part offset stop contents;
      } in
      let (low, high, step) =
        chunk_stop-bounds size (length contents) offset some_bytes fits within in
      let small : length contents < u64_mod = omega arith in
      elim (chunk_answered-cases (send_chunks t peer base contents size fuel stop) req (t.rpc req)
        (t.others offset r)) [
          | inl (r', e, eq, last) ↦ subst (Delivers contents offset) (sym eq) (
              Delivers-one contents offset stop req r' e low high small refl refl
                (λ clean. let d = last clean in ground arith))
          | inr (r', more, eq) ↦ subst (Delivers contents offset) (sym eq) (
              let next = step more in
              Delivers-add contents offset stop req
                (send_chunks t peer base contents size fuel stop r') low high small refl refl
                (send_chunks-Delivers base contents size fuel stop r' some_bytes fits high
                  (omega arith)))
        ]

  chunk_size-pos : (r : RaftNode) → 0 < chunk_size r
  unfolding chunk_size
  chunk_size-pos r = ground arith

  -- The requests start at the first byte where the node is a leader with a snapshot.
  send_snapshot-Delivers :
      (codec : ArtifactCodec) (fuel : ℕ) (r : RaftNode)
      → length r.snapshot_bytes + chunk_size r < u64_mod
      → length r.snapshot_bytes < fuel
      → ((e : RaftError) × (send_snapshot t peer codec fuel r ≡ sent [] r (some e)))
        ⊎ Delivers r.snapshot_bytes 0 (send_snapshot t peer codec fuel r)
  unfolding send_snapshot
  send_snapshot-Delivers codec fuel r fits enough = elim (Bool-cases (is_leader r.state)) [
    | inr other ↦ rw other (inl (_, refl))
    | inl leads ↦ rw leads (elim (Bool-cases (r.snapshot_meta.last_included_index == 0)) [
      | inl missing ↦ rw missing (inl (_, refl))
      | inr there ↦ rw there (
          inr (
            send_chunks-Delivers (first_request codec r) r.snapshot_bytes (chunk_size r) fuel 0 r
              (chunk_size-pos r) fits (omega arith) (omega arith)))
    ])
  ]

  finishes :
      (contents : Bytes) (x : Sent)
      → Delivers contents 0 x
      → (reqs : List InstallSnapshotRequest) × (r : RaftNode) × (e : Option RaftError) × (x
          ≡ sent reqs r e)
  unfolding Delivers
  finishes contents unfinished d = absurd d
  finishes contents (sent reqs r e) d = (reqs, r, e, refl)

  -- A transfer comes to an end whatever the transport answers: it needs at most one round more than
  -- the snapshot has bytes, if the bytes of the snapshot and of a chunk together fit a word.
  pub send_snapshot-finishes :
      (codec : ArtifactCodec) (fuel : ℕ) (r : RaftNode)
      → length r.snapshot_bytes + chunk_size r < u64_mod
      → length r.snapshot_bytes < fuel
      → (reqs : List InstallSnapshotRequest) × (r' : RaftNode) × (e : Option RaftError)
        × (send_snapshot t peer codec fuel r ≡ sent reqs r' e)
  send_snapshot-finishes codec fuel r fits enough =
      elim (send_snapshot-Delivers codec fuel r fits enough) [
        | inl (e, eq) ↦ ([], r, some e, eq)
        | inr d ↦ finishes r.snapshot_bytes (send_snapshot t peer codec fuel r) d
      ]

  -- The requests of a transfer that ends without an error leave a receiver that starts with
  -- nothing, and can store them, with the leader's snapshot, byte for byte, if the bytes of the
  -- snapshot and of a chunk together fit a word.
  pub send_snapshot-received :
      (codec : ArtifactCodec) (fuel : ℕ) (r r' : RaftNode) (reqs : List InstallSnapshotRequest)
      (s : InstallState)
      → length r.snapshot_bytes + chunk_size r < u64_mod
      → length r.snapshot_bytes < fuel
      → send_snapshot t peer codec fuel r ≡ sent reqs r' none
      → s.next_offset ≡ 0
      → s.contents ≡ []
      → ((hear_requests reqs s).contents ≡ r.snapshot_bytes)
        × ((hear_requests reqs s).next_offset ≡ length r.snapshot_bytes)
  send_snapshot-received codec fuel r r' reqs s fits enough run next empty =
      elim (send_snapshot-Delivers codec fuel r fits enough) [
        | inl (e, eq) ↦ absurd (sent_failed reqs r r' e (sym eq ∙ run))
        | inr d ↦
            let start : HasUpTo r.snapshot_bytes 0 s = record { next = next; kept = empty } in
            let h : HasUpTo r.snapshot_bytes (length r.snapshot_bytes) (hear_requests reqs s) =
              unfold Delivers in subst (Delivers r.snapshot_bytes 0) run d s refl start in
            (
              h.kept ∙ take_of_length-le (length r.snapshot_bytes) r.snapshot_bytes (omega arith),
              h.next,
            )
      ]
