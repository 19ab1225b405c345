-- ===== src/Kv/Backup.antt =====
-- `Snapshot` and `Restore` of internal/kvstore/store.go, and `KVStore` as the state machine that
-- internal/raft drives.
pub mod RoundTrip
use kver.Prelude.{
  ℕ, ◌-◌, ◌*◌, ◌/◌, Bytes, Option, none, some, List, [], ◌∷◌, ◌==◌, if◌then◌else◌, map,
}
use kver.Prelude.Dict.{Dict}
use kver.Raft.Types.{RaftError, Result, ok, err, io_error, StateMachine}
use kver.Kv.Types.{KvError, Kind, ZsetOps}
use kver.Kv.Store.{KvStore}
use kver.Kv.Apply.{CommandPayload, apply}

-- kvpb.Snapshot; an expiry time is in milliseconds.
pub record Backup (S : Type 0) : Type 0 where
  pub key_types : Dict Kind
  pub strings : Dict Bytes
  pub hashes : Dict (Dict Bytes)
  pub lists : Dict (List Bytes)
  pub sorted_sets : Dict (List (S × Bytes))
  pub ttls : Dict ℕ

-- proto.Marshal and proto.Unmarshal at kvpb.Snapshot
pub record BackupCodec (S : Type 0) : Type 0 where
  pub marshal : Backup S → Option Bytes
  pub unmarshal : Bytes → Option (Backup S)

-- A map of the same keys.
unfoldable pub map_values : {A B : Type 0} → (A → B) → Dict A → Dict B
map_values f [] = []
map_values f ((key, value) ∷ entries) = (key, f value) ∷ map_values f entries

module _ {Z S : Type 0} (ops : ZsetOps Z S) where
  unfoldable pub entries_of : Z → List (S × Bytes)
  entries_of z = if ops.size z == 0 then [] else ops.range_by_rank 0 (ops.size z - 1) z

  unfoldable pub insert_all : List (S × Bytes) → Z → Z
  insert_all [] z = z
  insert_all ((score, member) ∷ entries) z = insert_all entries (ops.insert score member z)

  unfoldable pub rebuild : List (S × Bytes) → Z
  unfolding insert_all
  rebuild entries = insert_all entries ops.empty

  -- UnixMilli drops what is below a millisecond.
  unfoldable pub take_backup : KvStore Z → Backup S
  unfolding map_values entries_of
  take_backup s = record {
    key_types = s.key_types;
    strings = s.strings;
    hashes = s.hashes;
    lists = s.lists;
    sorted_sets = map_values entries_of s.sorted_sets;
    ttls = map_values (λ t. t / 1_000_000) s.expiry;
  }

  unfoldable pub restore_backup : Backup S → KvStore Z
  unfolding map_values rebuild
  restore_backup b = record {
    key_types = b.key_types;
    strings = b.strings;
    hashes = b.hashes;
    lists = b.lists;
    sorted_sets = map_values rebuild b.sorted_sets;
    expiry = map_values (λ ms. ms * 1_000_000) b.ttls;
  }

  or_failed : Option Bytes → Result Bytes
  or_failed none = err io_error
  or_failed (some contents) = ok contents

  unfoldable pub snapshot : BackupCodec S → KvStore Z → Result Bytes
  unfolding or_failed take_backup
  snapshot codec s = or_failed (codec.marshal (take_backup s))

  restore_parsed : Option (Backup S) → KvStore Z → KvStore Z × Option RaftError
  unfolding restore_backup
  restore_parsed none s = (s, some io_error)
  restore_parsed (some b) s = (restore_backup b, none)

  unfoldable pub restore : BackupCodec S → Bytes → KvStore Z → KvStore Z × Option RaftError
  unfolding restore_parsed
  restore codec [] s = (s, none)
  restore codec (byte ∷ contents) s = restore_parsed (codec.unmarshal (byte ∷ contents)) s

  unfoldable pub failure : KvStore Z × Option KvError → KvStore Z × Option RaftError
  failure (s, none) = (s, none)
  failure (s, some e) = (s, some io_error)

  -- KVStore as a raft.StateMachine. Its own errors are passed on without being told apart.
  unfoldable pub kv_machine :
      (Bytes → Option CommandPayload) → BackupCodec S → StateMachine (KvStore Z)
  unfolding failure apply snapshot restore
  kv_machine unmarshal codec = record {
    apply = λ now entry s. failure (apply ops unmarshal now entry s);
    snapshot = snapshot codec;
    restore = restore codec;
  }
