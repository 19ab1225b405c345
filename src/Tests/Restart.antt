-- ===== src/Tests/Restart.antt =====
-- The start of a node, internal/raft/raft.go, a heartbeat, internal/raft/replication.go, and
-- the transport's peers, internal/raft/snapshot.go, at concrete inputs.
use kver.Prelude.{Bytes, ◌∷◌, ◌≡◌, refl, codes, bytes_eq, true, none, some, []}
use kver.Prelude.Dict
use kver.Prelude.Dict.{Dict}
use kver.Raft.Types.{ok, StateMachine}
use kver.Raft.Log.{written, rewritten, new_raft_log, validate_entry_sequence}
use kver.Raft.Log.Load.{new_raft_log_with_wal, load_from_disk}
use kver.Raft.Snapshot.{load_snapshot_from_disk}
use kver.Raft.Log.WellFormed.{IsWellFormed}
use kver.Raft.Node.{RaftNode, leader, quiet, follower}
use kver.Raft.Node.Advances.{Advances}
use kver.Raft.Restart.{Disk, fresh_node, new_raft_node}
use kver.Raft.Restart.Keeps.{disk_of, new_raft_node-Advances, new_raft_node-restarts}
use kver.Raft.Append.{process_append_entries}
use kver.Raft.Heartbeat.{heartbeat}
use kver.Raft.Heartbeat.Stray.{stray_heartbeat}
use kver.Raft.Transport.{reconcile_transport_peers}
use kver.Tests.Raft.{node, log_of_three-IsWellFormed}
use kver.Tests.Storage.{artifact_codec}

abbrev counter : StateMachine Bytes
counter = record {
  apply = λ now entry m. (m, none);
  snapshot = λ m. ok m;
  restore = λ contents m. (contents, none);
}

new_raft_node-restarts_example :
    (s : RaftNode) × (new_raft_node artifact_codec counter node.config [] 0
        (disk_of rewritten node)
        []
      ≡ ok (s, []))
    × (s.state ≡ follower)
    × (s.current_term ≡ 2)
    × (s.voted_for ≡ [])
    × (s.log.entries ≡ node.log.entries)
    × (s.last_applied ≡ 0)
    × IsWellFormed s.log
new_raft_node-restarts_example =
    new_raft_node-restarts artifact_codec counter [] 0 rewritten [] node log_of_three-IsWellFormed
      refl refl refl refl refl refl

-- A node that has voted in a later term, and its directory.
abbrev voted : RaftNode
voted = record node { current_term = 5; voted_for = codes "n3" }

abbrev disk : Disk
disk = record {
  state_file = ok (some (5, codes "n3"));
  wal = some node.log.wal;
  wal_opened = true;
  header_io = rewritten;
  snapshot_file = none;
  meta_file = none;
  log_io = rewritten;
  file_io = rewritten;
}

abbrev restarted : RaftNode
restarted =
    fresh_node node.config [] 0 none
      (record {
        current_term = 5;
        voted_for = codes "n3";
        durable = true;
        file = some (5, codes "n3");
      })
      node.log

program : Unit {0}
unfolding new_raft_node new_raft_log_with_wal load_from_disk validate_entry_sequence
    load_snapshot_from_disk fresh_node Dict.put Dict.get Dict.has bytes_eq new_raft_log
    reconcile_transport_peers
program = tt

new_raft_node-Advances_example :
    (restarted.current_term ≡ 5) × (restarted.voted_for ≡ codes "n3") × Advances voted restarted
unfolding program
new_raft_node-Advances_example =
    new_raft_node-Advances artifact_codec counter node.config [] 0 disk [] voted (restarted, [])
      refl refl refl

-- The leader of term 2, and a follower of that term that still sends heartbeats.
abbrev leading : RaftNode
leading = record node { state = leader }

abbrev deposed : RaftNode
deposed = record node { config = record node.config { node_id = codes "n2" } }

stray_heartbeat_example :
    (let answered =
        process_append_entries
          (quiet true 9)
          rewritten
          written
          9
          (some (heartbeat deposed))
          leading in
      (answered.0.state ≡ follower)
      × (answered.0.leader_id ≡ codes "n2")
      × (answered.0.current_term ≡ 2))
stray_heartbeat_example = stray_heartbeat rewritten written 9 9 deposed leading refl refl refl

-- The second node has moved, the third one has left, and a fourth one has come.
abbrev old_peers : Dict Bytes
old_peers = (codes "n1", []) ∷ (codes "n2", codes "a") ∷ (codes "n3", codes "b") ∷ []

abbrev new_peers : Dict Bytes
new_peers = (codes "n1", []) ∷ (codes "n2", codes "c") ∷ (codes "n4", codes "d") ∷ []
