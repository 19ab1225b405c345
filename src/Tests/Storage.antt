-- ===== src/Tests/Storage.antt =====
-- The files of the log and of snapshots, and the store's backup, at concrete inputs.
use kver.Prelude.{
  ℕ, zero, suc, ◌^◌, ◌<◌, ◌≡◌, ◌==◌, refl, arith, Bytes, codes, bytes_eq, true, false, Option, none,
  some, [], ◌∷◌, ◌++◌, length, if◌then◌else◌,
}
use kver.Prelude.Words.{le_bytes, read_le}
use kver.Raft.Types.{LogEntry, SnapshotMeta, ok, corrupt_log}
use kver.Raft.Log.Codec.{
  WalCodec, loaded, failed, frame, write_wal_record, write_wal_records, read_wal_records,
}
use kver.Raft.Log.Codec.RoundTrip.{
  IsTorn, cut, IsStorable, read_wal_records-write, read_wal_records-oversized,
}
use kver.Raft.Snapshot.Artifact.{
  ArtifactCodec, encode_snapshot_artifact, decode_snapshot_artifact, valid_meta, part,
}
use kver.Kv.Types.{hash, zset, ZsetOps}
use kver.Kv.SkipList.{SkipList}
use kver.Kv.SkipList.Ops.{skip_list_ops}
use kver.Kv.Store.{KvStore, new_kv_store}
use kver.Kv.Backup.{BackupCodec, snapshot, restore, take_backup, map_values}
use kver.Kv.Backup.RoundTrip.{IsWhole, AreSkipLists, SameSets, restore-snapshot}
use kver.Tests.Raft.{entry}
use kver.Tests.SkipList.{numbers, numbers_laws, two_nodes, two, two_nodes-IsSkipList}

decode_entry : Bytes → Option LogEntry
decode_entry (i ∷ t ∷ []) = some (entry i t)
decode_entry _ = none

abbrev wal_codec : WalCodec
wal_codec = record {
  marshal = λ e. some (e.index ∷ e.term ∷ []);
  unmarshal = λ text. decode_entry text;
  crc32 = λ text. 7;
}

crc_fits : (text : Bytes) → wal_codec.crc32 text < 2 ^ 32
crc_fits text = omega arith

codec_program : Unit {0}
unfolding decode_entry frame write_wal_record write_wal_records read_wal_records le_bytes read_le
codec_program = tt

-- A record, and the first three bytes of another one.
abbrev whole : Bytes
whole = 2 ∷ 0 ∷ 0 ∷ 0 ∷ 7 ∷ 0 ∷ 0 ∷ 0 ∷ 1 ∷ 1 ∷ []

abbrev torn_bytes : Bytes
torn_bytes = 2 ∷ 0 ∷ 0 ∷ []

read_runs :
    read_wal_records wal_codec true 5 (whole ++ torn_bytes) ≡ loaded (entry 1 1 ∷ []) torn_bytes
unfolding codec_program
read_runs = refl

entry-IsStorable : IsStorable wal_codec crc_fits (entry 1 1)
unfolding codec_program
entry-IsStorable = record {
  text = 1 ∷ 1 ∷ [];
  marshalled = refl;
  unmarshalled = refl;
  small = omega arith;
}

torn_bytes-IsTorn : IsTorn wal_codec crc_fits torn_bytes
unfolding codec_program
torn_bytes-IsTorn = cut (2 ∷ 1 ∷ []) (7 ∷ 0 ∷ 0 ∷ 0 ∷ 2 ∷ 1 ∷ []) 0 (omega arith) refl

whole_written : write_wal_records wal_codec (entry 1 1 ∷ []) ≡ some whole
unfolding codec_program
whole_written = refl

read_wal_records-write_example :
    read_wal_records wal_codec true 2 (whole ++ torn_bytes) ≡ loaded (entry 1 1 ∷ []) torn_bytes
read_wal_records-write_example =
    read_wal_records-write wal_codec crc_fits (entry 1 1 ∷ []) whole torn_bytes 2 whole_written
      (entry-IsStorable, tt) torn_bytes-IsTorn (omega arith)

-- The bytes of an entry that is too large.
zeros : ℕ → Bytes
zeros zero = []
zeros (suc n) = 0 ∷ zeros n

length-zeros : (n : ℕ) → length (zeros n) ≡ n
unfolding zeros
length-zeros zero = refl
length-zeros (suc n) = omega (arith, length-zeros n)

abbrev large_codec : WalCodec
large_codec = record {
  marshal = λ e. some (zeros 67_108_865);
  unmarshal = λ text. none;
  crc32 = λ text. 7;
}

read_wal_records-oversized_example :
    (written : Bytes) × (write_wal_record large_codec (entry 1 1) ≡ some written)
    × (read_wal_records large_codec true 2 (written ++ torn_bytes) ≡ failed corrupt_log)
read_wal_records-oversized_example =
    read_wal_records-oversized large_codec (λ text. omega arith) (entry 1 1) (zeros 67_108_865)
      torn_bytes 1 refl (omega (arith, length-zeros 67_108_865))
      (omega (arith, length-zeros 67_108_865))

abbrev pub meta : SnapshotMeta
meta = record {
  last_included_index = 3;
  last_included_term = 2;
  cluster_config = (codes "n1", []) ∷ (codes "n2", []) ∷ (codes "n3", []) ∷ [];
}

abbrev pub artifact_codec : ArtifactCodec
artifact_codec = record {
  marshal = λ m. some (codes "{}");
  unmarshal = λ text. some meta;
  sha256 = λ text. codes "abcdefghijklmnopqrstuvwxyz012345";
}

artifact_program : Unit {0}
unfolding encode_snapshot_artifact decode_snapshot_artifact valid_meta part le_bytes read_le
    bytes_eq
artifact_program = tt

abbrev artifact : Bytes
artifact =
    codes "KVERSNP1"
    ++ ((1 ∷ 0 ∷ 0 ∷ 0 ∷ 2 ∷ 0 ∷ 0 ∷ 0 ∷ 5 ∷ 0 ∷ 0 ∷ 0 ∷ 0 ∷ 0 ∷ 0 ∷ 0 ∷ [])
        ++ (codes "abcdefghijklmnopqrstuvwxyz012345" ++ codes "{}state"))

artifact_written : encode_snapshot_artifact artifact_codec meta (codes "state") ≡ ok artifact
unfolding artifact_program
artifact_written = refl

valid : valid_meta meta ≡ true
unfolding artifact_program
valid = refl

-- A store that holds a hash and a sorted set of two.
abbrev stored : KvStore (SkipList ℕ)
stored = record new_kv_store {
  key_types = (codes "k", hash) ∷ (codes "z", zset) ∷ [];
  hashes = (codes "k", (codes "f", codes "v") ∷ []) ∷ [];
  sorted_sets = (codes "z", two_nodes) ∷ [];
  expiry = (codes "k", 50_000_000) ∷ [];
}

-- Every new node stands on the first level only.
abbrev sets : ZsetOps (SkipList ℕ) ℕ
sets = skip_list_ops numbers (λ z i. false) (λ text. none) (λ score. [])

backup_codec : BackupCodec ℕ
backup_codec = record {
  marshal = λ b. if length b.key_types == 0 then some [] else some (7 ∷ []);
  unmarshal = λ contents. some (take_backup sets stored);
}

backup_program : Unit {0}
unfolding snapshot restore take_backup map_values IsWhole AreSkipLists backup_codec
backup_program = tt

stored_parsed : backup_codec.unmarshal (7 ∷ []) ≡ some (take_backup sets stored)
unfolding backup_program
stored_parsed = refl

stored_marshalled : backup_codec.marshal (take_backup sets stored) ≡ some (7 ∷ [])
unfolding backup_program
stored_marshalled = refl

stored-IsWhole : IsWhole stored.expiry
unfolding backup_program
stored-IsWhole = (refl, tt)

stored-AreSkipLists : AreSkipLists numbers stored.sorted_sets
unfolding backup_program
stored-AreSkipLists = ((two, two_nodes-IsSkipList), tt)

restore-snapshot_example :
    (snapshot sets backup_codec stored ≡ ok (7 ∷ []))
    × ((t : KvStore (SkipList ℕ)) × ((restore sets backup_codec (7 ∷ []) new_kv_store ≡ (t, none))
          × ((record t { sorted_sets = stored.sorted_sets } ≡ stored)
              × SameSets numbers stored.sorted_sets t.sorted_sets)))
restore-snapshot_example =
    restore-snapshot numbers numbers_laws (λ z i. false) (λ text. none) (λ score. []) backup_codec
      stored new_kv_store 7 [] stored-IsWhole stored-AreSkipLists stored_marshalled stored_parsed

nothing_marshalled : backup_codec.marshal (take_backup sets new_kv_store) ≡ some []
unfolding backup_program
nothing_marshalled = refl
