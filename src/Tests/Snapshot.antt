-- ===== src/Tests/Snapshot.antt =====
-- Snapshots and the state machine of a node, internal/raft, at concrete inputs.
use kver.Prelude.{
  ℕ, ◌+◌, ◌<◌, ◌≤◌, ◌≡◌, ◌^◌, refl, arith, Bytes, codes, bytes_eq, Bool, true, false, Option, none,
  some, List, [], ◌∷◌, length,
}
use kver.Prelude.Dict
use kver.Prelude.Words.{le_bytes}
use kver.Raft.Types.{RaftError, ok, StateMachine, InstallSnapshotRequest}
use kver.Raft.Log.{rewritten, get_entry, restore_snapshot_boundary, validate_entry_sequence}
use kver.Raft.Node.{RaftNode, InstallState, leader, is_leader, is_follower, quiet}
use kver.Raft.Membership.{MembershipChange}
use kver.Raft.Machine.{Pause, applied, apply_committed, apply_round, is_membership}
use kver.Raft.Machine.Replay.{IsInOrder, pending, calm, replay, apply_committed-replay}
use kver.Raft.Machine.Races.{apply_round_rewinds}
use kver.Raft.Commit.{match_of}
use kver.Raft.Snapshot.{persist_snapshot, adopt_snapshot, or_fatal}
use kver.Raft.Snapshot.Artifact.{encode_snapshot_artifact, part}
use kver.Raft.Snapshot.Chunks.{
  new_install_state, append_chunk, matches, installed_bytes, validate_install_request,
}
use kver.Raft.Snapshot.Chunks.Prefix.{Chunk, hear_chunks, hear_chunks-contents}
use kver.Raft.Snapshot.Install.{
  Surroundings, finalize_installed_snapshot, handle_install_snapshot, discard_install,
  accept_sender,
}
use kver.Raft.Snapshot.Install.Effects.{IsInstalled, finalize_installed_snapshot-IsInstalled}
use kver.Raft.Snapshot.Install.Verified.{IsVerified, handle_install_snapshot-IsVerified}
use kver.Raft.Snapshot.Send.{
  Transfer, sent, send_snapshot, chunk_size, chunk_stop, first_request, add_request, peer_has,
  send_chunks,
}
use kver.Raft.Snapshot.Send.Delivery.{hear_requests, send_snapshot-finishes, send_snapshot-received}
use kver.Tests.Raft.{entry, node, log_of_three}
use kver.Tests.Storage.{artifact_codec, meta}

-- A state machine that remembers the terms of its entries, the last one first.
abbrev terms : StateMachine Bytes
terms = record {
  apply = λ now e m. (e.term ∷ m, none);
  snapshot = λ m. ok m;
  restore = λ contents m. (contents, none);
}

no_change : Bytes → Option MembershipChange
no_change text = none

-- Three entries are committed, and the first one is applied.
abbrev behind : RaftNode
behind = record node { commit_index = 3 }

machine_program : Unit {0}
unfolding apply_committed pending calm replay get_entry is_membership
machine_program = tt

apply_runs : replay terms no_change (λ i. i) 2 (pending behind) (1 ∷ []) ≡ 2 ∷ 1 ∷ 1 ∷ []
unfolding machine_program
apply_runs = refl

behind-IsInOrder : IsInOrder behind
behind-IsInOrder = record {
  compacted = omega arith;
  committed = omega arith;
  in_log = omega arith;
  fits = omega arith;
}

apply_committed-replay_example :
    (s : RaftNode) × (apply_committed terms no_change
        (calm terms no_change (λ i. i))
        3
        (behind, 1 ∷ [])
      ≡ applied s (replay terms no_change (λ i. i) 2 (pending behind) (1 ∷ [])))
    × (s.last_applied ≡ 3)
    × (s.commit_index ≡ 3)
    × (s.log ≡ log_of_three)
apply_committed-replay_example =
    apply_committed-replay terms no_change (λ i. i) 3 behind (1 ∷ []) behind-IsInOrder refl
      (omega arith)

-- The snapshot of another node, in two chunks.
abbrev chunk_request : ℕ → Bytes → Bool → InstallSnapshotRequest
chunk_request offset chunk done = record {
  term = 2;
  leader_id = codes "n2";
  last_included_index = 3;
  last_included_term = 2;
  offset = offset;
  done = done;
  total_size = 5;
  checksum = codes "abcdefghijklmnopqrstuvwxyz012345";
  cluster_config = meta.cluster_config;
  chunk = chunk;
}

abbrev undisturbed : Surroundings Bytes
undisturbed = record {
  window = quiet true 9;
  now = 9;
  opened = true;
  stored = true;
  readable = true;
  file_io = rewritten;
  log_io = rewritten;
  checking = λ x. x;
  finishing = λ x. x;
  restoring = λ r. r;
}

abbrev first_chunk : RaftNode × Bytes
first_chunk =
    (handle_install_snapshot artifact_codec terms undisturbed
      (some (chunk_request 0 (codes "sta") false)) (node, 1 ∷ [])).0

snapshot_program : Unit {0}
unfolding machine_program finalize_installed_snapshot handle_install_snapshot persist_snapshot
    encode_snapshot_artifact le_bytes adopt_snapshot or_fatal restore_snapshot_boundary
    validate_entry_sequence accept_sender discard_install new_install_state append_chunk matches
    installed_bytes validate_install_request bytes_eq Dict.is_empty Dict.get is_follower
snapshot_program = tt

install_runs :
    ((handle_install_snapshot artifact_codec terms undisturbed
        (some (chunk_request 3 (codes "te") true))
        first_chunk).0.1
      ≡ codes "state")
    × ((handle_install_snapshot artifact_codec terms undisturbed
          (some (chunk_request 3 (codes "te") true))
          first_chunk).0.0.last_applied
        ≡ 3)
unfolding snapshot_program
install_runs = (refl, refl)

handle_install_snapshot-IsVerified_example :
    IsVerified artifact_codec terms
      (codes "abcdefghijklmnopqrstuvwxyz012345")
      (1 ∷ [])
      (handle_install_snapshot artifact_codec terms undisturbed
        (some (chunk_request 0 (codes "state") true))
        (node, 1 ∷ [])).0.1
handle_install_snapshot-IsVerified_example =
    handle_install_snapshot-IsVerified artifact_codec terms undisturbed
      (chunk_request 0 (codes "state") true) node (1 ∷ []) (λ y. refl) (λ y. refl)

installed :
    (finalize_installed_snapshot artifact_codec terms undisturbed meta
      (codes "state")
      (node, 1 ∷ [])).1
    ≡ none
unfolding snapshot_program
installed = refl

finalize_installed_snapshot-IsInstalled_example :
    IsInstalled terms meta
      (codes "state")
      ((persist_snapshot artifact_codec rewritten meta (codes "state") node).0, 1 ∷ [])
      (finalize_installed_snapshot artifact_codec terms undisturbed meta
        (codes "state")
        (node, 1 ∷ [])).0
finalize_installed_snapshot-IsInstalled_example =
    finalize_installed_snapshot-IsInstalled artifact_codec terms undisturbed meta (codes "state")
      node (1 ∷ []) (λ r. refl) installed

-- The round that applies the second entry, during which the snapshot is installed.
abbrev interrupted : Pause Bytes
interrupted = record {
  before =
      λ x. (finalize_installed_snapshot artifact_codec terms undisturbed meta (codes "state") x).0;
  during = λ r. r;
  after = λ x. x;
  window = quiet true 9;
  now = 9;
}

kv_entry : is_membership (entry 2 1).type ≡ false
unfolding is_membership
kv_entry = refl

apply_round_rewinds_example :
    (3 ≤ (interrupted.before (node, 1 ∷ [])).0.last_applied)
    × ((apply_round terms no_change interrupted 2 (entry 2 1) (node, 1 ∷ [])).0.last_applied < 3)
    × ((apply_round terms no_change interrupted 2 (entry 2 1) (node, 1 ∷ [])).1 ≡ 1 ∷ codes "state")
apply_round_rewinds_example =
    apply_round_rewinds artifact_codec terms no_change interrupted undisturbed meta (codes "state")
      2 (entry 2 1) node (1 ∷ []) refl installed (λ r. refl) (λ y. refl) (λ y. refl) kv_entry
      (omega arith)

abbrev empty_state : InstallState
empty_state = record {
  meta = meta;
  checksum = codes "abcdefghijklmnopqrstuvwxyz012345";
  total_size = 5;
  next_offset = 0;
  contents = [];
}

-- The second chunk comes first, and the first one twice.
abbrev chunks : List Chunk
chunks =
    record { offset = 3; size = 2; stored = true }
    ∷ record { offset = 0; size = 3; stored = true }
    ∷ record { offset = 0; size = 3; stored = true }
    ∷ record { offset = 3; size = 2; stored = true }
    ∷ []

begun : new_install_state true node.config (chunk_request 0 (codes "sta") false) ≡ ok empty_state
unfolding snapshot_program
begun = refl

all_heard :
    (hear_chunks (codes "state") chunks empty_state).next_offset
    ≡ (hear_chunks (codes "state") chunks empty_state).total_size
unfolding snapshot_program hear_chunks
all_heard = refl

hear_chunks-contents_example :
    (hear_chunks (codes "state") chunks empty_state).contents ≡ codes "state"
hear_chunks-contents_example =
    hear_chunks-contents true node.config (chunk_request 0 (codes "sta") false) (codes "state")
      chunks empty_state begun refl (omega arith) all_heard

-- A leader whose snapshot has nine bytes, and a peer that takes every chunk of four.
abbrev sending : RaftNode
sending = record node { state = leader; snapshot_meta = meta; snapshot_bytes = codes "nine byte" }

abbrev pub transfer : Transfer
transfer = record {
  rpc = λ req. ok (some (record { term = 2 }));
  others = λ offset r. r;
  finishing = λ r. r;
  window = quiet true 9;
  now = 9;
}

send_program : Unit {0}
unfolding snapshot_program send_snapshot send_chunks chunk_size chunk_stop first_request add_request
    peer_has part is_leader match_of hear_requests Dict.put
send_program = tt

abbrev delivered : List InstallSnapshotRequest
delivered =
    record (first_request artifact_codec sending) { chunk = codes "nine" }
    ∷ record (first_request artifact_codec sending) { offset = 4; chunk = codes " byt" }
    ∷ record (first_request artifact_codec sending) { offset = 8; chunk = codes "e"; done = true }
    ∷ []

all_sent :
    send_snapshot transfer (codes "n2") artifact_codec 10 sending
    ≡ sent delivered (peer_has (codes "n2") 3 sending) none
unfolding send_program
all_sent = refl

chunk_fits : length sending.snapshot_bytes + chunk_size sending < 2 ^ 64
unfolding send_program
chunk_fits = omega arith

send_snapshot-finishes_example :
    (reqs : List InstallSnapshotRequest) × (r : RaftNode) × (e : Option RaftError) × (send_snapshot
        transfer
        (codes "n2")
        artifact_codec
        10
        sending
      ≡ sent reqs r e)
send_snapshot-finishes_example =
    send_snapshot-finishes transfer (codes "n2") artifact_codec 10 sending chunk_fits (omega arith)

send_snapshot-received_example :
    ((hear_requests delivered empty_state).contents ≡ codes "nine byte")
    × ((hear_requests delivered empty_state).next_offset ≡ 9)
send_snapshot-received_example =
    send_snapshot-received transfer (codes "n2") artifact_codec 10 sending
      (peer_has (codes "n2") 3 sending) delivered empty_state chunk_fits (omega arith) all_sent refl
      refl
