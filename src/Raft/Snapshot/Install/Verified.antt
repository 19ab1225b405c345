-- ===== src/Raft/Snapshot/Install/Verified.antt =====
-- Only contents with the announced checksum reach the state machine (`handleInstallSnapshot`,
-- internal/raft/snapshot.go).
use kver.Prelude.{
  ℕ, ◌≡◌, ◌⊎◌, inl, inr, refl, ap, ◌∙◌, subst, arith, Bytes, bytes_eq, bytes_eq_iff, Bool, true,
  ◌||◌, Option, none, some, ltb, leb, ◌==◌, Bool-cases,
}
use kver.Raft.Types.{SnapshotMeta, InstallSnapshotRequest, StateMachine, RaftError, Result, ok, err}
use kver.Raft.Log.{restore_snapshot_boundary}
use kver.Raft.Node.{RaftNode, InstallState}
use kver.Raft.Snapshot.{persist_snapshot, or_fatal}
use kver.Raft.Snapshot.Artifact.{ArtifactCodec}
use kver.Raft.Snapshot.Chunks.{
  append_chunk, new_install_state, matches, validate_install_request, installed_bytes,
}
use kver.Raft.Snapshot.Install.{
  Surroundings, finalize_installed_snapshot, install_locked, install_persisted, restore_machine,
  finish_restore, finished, finish_chunks, chunk_appended, hear_chunk, begin_install,
  restart_install, hear_request, hear_locked, hear_valid, hear_sender, handle_install_snapshot,
  accept_sender, discard_install,
}

module _ {M : Type 0} (codec : ArtifactCodec) (sm : StateMachine M) where
  -- The state machine is as it was, or it is restored from contents with this checksum.
  abbrev pub IsVerified : Bytes → M → M → Type 0
  IsVerified checksum m m' =
      (m' ≡ m)
      ⊎ (contents : Bytes) × (codec.sha256 contents ≡ checksum) × (m' ≡ (sm.restore contents m).0)

  finish_restore-machine :
      (restoring : RaftNode → RaftNode) (meta : SnapshotMeta) (contents : Bytes) (r : RaftNode)
      (x : M × Option RaftError)
      → (finish_restore codec sm restoring meta contents r x).0.1 ≡ x.0
  unfolding finish_restore
  finish_restore-machine restoring meta contents r (m, none) = refl
  finish_restore-machine restoring meta contents r (m, some e) = refl

  restore_machine-machine :
      (restoring : RaftNode → RaftNode) (meta : SnapshotMeta) (contents : Bytes)
      (x : RaftNode × Option RaftError) (m : M)
      → ((restore_machine codec sm restoring meta contents x m).0.1 ≡ m)
        ⊎ ((restore_machine codec sm restoring meta contents x m).0.1 ≡ (sm.restore contents m).0)
  unfolding restore_machine
  restore_machine-machine restoring meta contents (r, some e) m = inl refl
  restore_machine-machine restoring meta contents (r, none) m =
      inr (finish_restore-machine restoring meta contents r (sm.restore contents m))

  install_persisted-machine :
      (s : Surroundings M) (meta : SnapshotMeta) (contents : Bytes)
      (x : RaftNode × Option RaftError) (m : M)
      → ((y : RaftNode × M) → (s.finishing y).1 ≡ y.1)
      → ((install_persisted codec sm s meta contents x m).0.1 ≡ m)
        ⊎ ((install_persisted codec sm s meta contents x m).0.1 ≡ (sm.restore contents m).0)
  unfolding install_persisted install_locked
  install_persisted-machine s meta contents (r, some e) m calm = inl refl
  install_persisted-machine s meta contents (r, none) m calm =
      let (r', m') = s.finishing (r, m) in
      let same : m' ≡ m = calm (r, m) in
      elim (restore_machine-machine s.restoring meta contents
        (or_fatal r' (
          restore_snapshot_boundary s.log_io meta.last_included_index meta.last_included_term
            r'.log))
        m') [
          | inl kept ↦ inl (kept ∙ same)
          | inr restored ↦ inr (restored ∙ ap (λ n. (sm.restore contents n).0) same)
        ]

  finished-machine : (x : (RaftNode × M) × Option RaftError) → (finished codec sm x).0.1 ≡ x.0.1
  unfolding finished
  finished-machine (x, some e) = refl
  finished-machine (x, none) = refl

  finish_chunks-IsVerified :
      (s : Surroundings M) (term : ℕ) (state : InstallState) (x : Result Bytes) (r : RaftNode)
      (m : M)
      → ((y : RaftNode × M) → (s.finishing y).1 ≡ y.1)
      → IsVerified state.checksum m (finish_chunks codec sm s term state x (r, m)).0.1
  unfolding finish_chunks finalize_installed_snapshot
  finish_chunks-IsVerified s term state (err e) r m calm = inl refl
  finish_chunks-IsVerified s term state (ok contents) r m calm =
      elim (Bool-cases (bytes_eq (codec.sha256 contents) state.checksum)) [
        | inr other ↦ rw other (inl refl)
        | inl same ↦ rw same (
            let x = finalize_installed_snapshot codec sm s state.meta contents (r, m) in
            elim (install_persisted-machine s state.meta contents
              (persist_snapshot codec s.file_io state.meta contents r) m calm) [
                | inl kept ↦ inl (finished-machine x ∙ kept)
                | inr restored ↦ inr (
                  contents,
                  (bytes_eq_iff (codec.sha256 contents) state.checksum).0 same,
                  finished-machine x ∙ restored,
                )
              ])
      ]

  chunk_appended-IsVerified :
      (s : Surroundings M) (term : ℕ) (req : InstallSnapshotRequest)
      (x : InstallState × Option RaftError) (r : RaftNode) (m : M)
      → ((y : RaftNode × M) → (s.finishing y).1 ≡ y.1)
      → x.0.checksum ≡ req.checksum
      → IsVerified req.checksum m (chunk_appended codec sm s term req x (r, m)).0.1
  unfolding chunk_appended
  chunk_appended-IsVerified s term req (state, some e) r m calm sum = inl refl
  chunk_appended-IsVerified s term req (state, none) r m calm sum =
      let finish =
        finish_chunks-IsVerified s term state (installed_bytes s.readable state)
          (record r { install_snapshot = some state }) m calm in
      elim (Bool-cases req.done) [
        | inr more ↦ rw more (inl refl)
        | inl last ↦ rw last (elim (Bool-cases (state.next_offset == state.total_size)) [
          | inr short ↦ rw short (inl refl)
          | inl whole ↦ rw whole (
              subst
                (λ sum.
                  IsVerified sum m
                    (finish_chunks codec sm s term state (installed_bytes s.readable state)
                      (record r { install_snapshot = some state }, m)).0.1)
                sum finish)
        ])
      ]

  append_chunk-checksum :
      (stored : Bool) (offset : ℕ) (chunk : Bytes) (state : InstallState)
      → (append_chunk stored offset chunk state).0.checksum ≡ state.checksum
  unfolding append_chunk
  append_chunk-checksum stored offset chunk state = ground arith

  hear_chunk-IsVerified :
      (s : Surroundings M) (term : ℕ) (req : InstallSnapshotRequest) (state : InstallState)
      (r : RaftNode) (m : M)
      → ((y : RaftNode × M) → (s.finishing y).1 ≡ y.1)
      → state.checksum ≡ req.checksum
      → IsVerified req.checksum m (hear_chunk codec sm s term req state (r, m)).0.1
  unfolding hear_chunk
  hear_chunk-IsVerified s term req state r m calm sum =
      chunk_appended-IsVerified s term req (append_chunk s.stored req.offset req.chunk state) r m
        calm (append_chunk-checksum s.stored req.offset req.chunk state ∙ sum)

  new_install_state-checksum :
      (opened : Bool) (r : RaftNode) (req : InstallSnapshotRequest) (state : InstallState)
      → new_install_state opened r.config req ≡ ok state
      → state.checksum ≡ req.checksum
  unfolding new_install_state
  new_install_state-checksum opened r req state h = ground arith

  begin_install-IsVerified :
      (s : Surroundings M) (term : ℕ) (req : InstallSnapshotRequest) (x : Result InstallState)
      (r : RaftNode) (m : M)
      → ((y : RaftNode × M) → (s.finishing y).1 ≡ y.1)
      → ((state : InstallState) → x ≡ ok state → state.checksum ≡ req.checksum)
      → IsVerified req.checksum m (begin_install codec sm s term req x (r, m)).0.1
  unfolding begin_install
  begin_install-IsVerified s term req (err e) r m calm sum = inl refl
  begin_install-IsVerified s term req (ok state) r m calm sum =
      hear_chunk-IsVerified s term req state r m calm (sum state refl)

  restart_install-IsVerified :
      (s : Surroundings M) (term : ℕ) (req : InstallSnapshotRequest) (r : RaftNode) (m : M)
      → ((y : RaftNode × M) → (s.finishing y).1 ≡ y.1)
      → IsVerified req.checksum m (restart_install codec sm s term req (r, m)).0.1
  unfolding restart_install
  restart_install-IsVerified s term req r m calm = elim (Bool-cases (req.offset == 0)) [
    | inr later ↦ rw later (inl refl)
    | inl first ↦ rw first (
        begin_install-IsVerified s term req (new_install_state s.opened r.config req)
          (discard_install r) m calm (new_install_state-checksum s.opened r req))
  ]

  matches-checksum :
      (req : InstallSnapshotRequest) (state : InstallState)
      → matches req state ≡ true
      → state.checksum ≡ req.checksum
  unfolding matches
  matches-checksum req state h = ground (arith, bytes_eq_iff state.checksum req.checksum)

  hear_request-IsVerified :
      (s : Surroundings M) (term : ℕ) (req : InstallSnapshotRequest) (x : Option InstallState)
      (r : RaftNode) (m : M)
      → ((y : RaftNode × M) → (s.finishing y).1 ≡ y.1)
      → IsVerified req.checksum m (hear_request codec sm s term req x (r, m)).0.1
  unfolding hear_request
  hear_request-IsVerified s term req none r m calm = restart_install-IsVerified s term req r m calm
  hear_request-IsVerified s term req (some state) r m calm = elim (Bool-cases (matches req state)) [
    | inr other ↦ rw other (restart_install-IsVerified s term req r m calm)
    | inl same ↦
        rw same (hear_chunk-IsVerified s term req state r m calm (matches-checksum req state same))
  ]

  hear_valid-IsVerified :
      (s : Surroundings M) (term : ℕ) (req : InstallSnapshotRequest) (e : Option RaftError)
      (r : RaftNode) (m : M)
      → ((y : RaftNode × M) → (s.checking y).1 ≡ y.1)
      → ((y : RaftNode × M) → (s.finishing y).1 ≡ y.1)
      → IsVerified req.checksum m (hear_valid codec sm s term req e (r, m)).0.1
  unfolding hear_valid hear_locked
  hear_valid-IsVerified s term req (some e) r m still calm = inl refl
  hear_valid-IsVerified s term req none r m still calm =
      let (r', m') = s.checking (r, m) in
      let same : m' ≡ m = still (r, m) in
      elim (Bool-cases
        (ltb req.term r'.current_term || leb req.last_included_index r'.commit_index)) [
          | inl old ↦ rw old (inl same)
          | inr fresh ↦ rw fresh (
              subst
                (λ n.
                  IsVerified req.checksum n
                    (hear_request codec sm s term req r'.install_snapshot (r', m')).0.1)
                same (hear_request-IsVerified s term req r'.install_snapshot r' m' calm))
        ]

  -- Where no other goroutine changes the state machine meanwhile, a request leaves it as it is or
  -- restores it from contents whose checksum is the announced one, whatever the file system answers
  -- and whichever chunks came before.
  pub handle_install_snapshot-IsVerified :
      (s : Surroundings M) (req : InstallSnapshotRequest) (r : RaftNode) (m : M)
      → ((y : RaftNode × M) → (s.checking y).1 ≡ y.1)
      → ((y : RaftNode × M) → (s.finishing y).1 ≡ y.1)
      → IsVerified req.checksum m (handle_install_snapshot codec sm s (some req) (r, m)).0.1
  unfolding handle_install_snapshot hear_sender
  handle_install_snapshot-IsVerified s req r m still calm =
      let r' = accept_sender s.window s.now req r in
      let valid =
        hear_valid-IsVerified s r'.current_term req (validate_install_request r'.config req) r' m
          still calm in
      ground arith
