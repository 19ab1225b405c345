-- ===== src/Raft/Machine/Races.antt =====
-- An entry that is being applied while a snapshot is installed (`applyEntriesLoop` of
-- internal/raft/raft.go, `finalizeInstalledSnapshot` of internal/raft/snapshot.go).
use kver.Prelude.{ℕ, ◌<◌, ◌≤◌, ◌≡◌, ap, ◌∙◌, arith, Bytes, false, Option, none}
use kver.Raft.Types.{LogEntry, SnapshotMeta, StateMachine}
use kver.Raft.Node.{RaftNode}
use kver.Raft.Membership.{MembershipChange}
use kver.Raft.Machine.{Pause, is_membership, entry_applied, apply_entry, record_entry, apply_round}
use kver.Raft.Snapshot.{persist_snapshot}
use kver.Raft.Snapshot.Artifact.{ArtifactCodec}
use kver.Raft.Snapshot.Install.{Surroundings, finalize_installed_snapshot}
use kver.Raft.Snapshot.Install.Effects.{finalize_installed_snapshot-IsInstalled}

module _ {M : Type 0} (codec : ArtifactCodec) (sm : StateMachine M)
    (unmarshal : Bytes → Option MembershipChange) where
  apply_round-effect :
      (p : Pause M) (index : ℕ) (e : LogEntry) (x : RaftNode × M)
      → ((y : RaftNode × M) → p.after y ≡ y)
      → is_membership e.type ≡ false
      → ((apply_round sm unmarshal p index e x).0.last_applied ≡ index)
        × ((apply_round sm unmarshal p index e x).1 ≡ (sm.apply p.now e (p.before x).1).0)
  unfolding apply_round entry_applied apply_entry record_entry
  apply_round-effect p index e x calm other =
      let (r, m) = p.before x in
      rw other (
        let same =
          calm
            (entry_applied index e (sm.apply p.now e m).1 (p.during r), (sm.apply p.now e m).0) in
        (ap (λ y. y.0.last_applied) same, ap (λ y. y.1) same))

  -- The loop reads the next entry and releases the node's lock before it takes the state machine's.
  -- Where a snapshot that reaches beyond the entry is installed in between, and nothing else
  -- happens, an entry that changes no members is applied to the restored state machine, which holds
  -- it, and the index of the last applied entry falls back below the snapshot's.
  pub apply_round_rewinds :
      (p : Pause M) (s : Surroundings M) (meta : SnapshotMeta) (contents : Bytes) (index : ℕ)
      (e : LogEntry) (r : RaftNode) (m : M)
      → p.before (r, m) ≡ (finalize_installed_snapshot codec sm s meta contents (r, m)).0
      → (finalize_installed_snapshot codec sm s meta contents (r, m)).1 ≡ none
      → ((r' : RaftNode) → s.restoring r' ≡ r')
      → ((y : RaftNode × M) → s.finishing y ≡ y)
      → ((y : RaftNode × M) → p.after y ≡ y)
      → is_membership e.type ≡ false
      → index < meta.last_included_index
      → (meta.last_included_index ≤ (p.before (r, m)).0.last_applied)
        × ((apply_round sm unmarshal p index e (r, m)).0.last_applied < meta.last_included_index)
        × ((apply_round sm unmarshal p index e (r, m)).1
            ≡ (sm.apply p.now e (sm.restore contents m).0).0)
  apply_round_rewinds p s meta contents index e r m between done still quiet calm other lt =
      let installed =
        finalize_installed_snapshot-IsInstalled codec sm s meta contents r m still done in
      let (last, machine) = apply_round-effect p index e (r, m) calm other in
      let restored : (p.before (r, m)).1 ≡ (sm.restore contents m).0 =
        ap (λ y. y.1) between
        ∙ installed.machine
        ∙ ap (λ y. (sm.restore contents y.1).0)
            (quiet ((persist_snapshot codec s.file_io meta contents r).0, m)) in
      let reached = ap (λ y. y.0.last_applied) between ∙ installed.last_applied in
      (
        omega (arith, reached),
        omega (arith, last),
        machine ∙ ap (λ n. (sm.apply p.now e n).0) restored,
      )
