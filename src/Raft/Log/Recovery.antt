-- ===== src/Raft/Log/Recovery.antt =====
-- What a restart reads back from the WAL (`newRaftLogWithWAL`, internal/raft/log.go).
use kver.Prelude.{
  ℕ, suc, ◌+◌, ◌<◌, ◌≡◌, refl, true, false, some, List, [], ◌∷◌, arith, u64_mod, length,
}
use kver.Raft.Types.{LogEntry, ok}
use kver.Raft.Log.{RaftLog, Rewrite, new_raft_log}
use kver.Raft.Log.WellFormed.{Contiguous, Mirrors, IsWellFormed}
use kver.Raft.Log.WellFormed.{validate_of_Contiguous}
use kver.Raft.Log.Load.{load_from_disk, new_raft_log_with_wal}

-- A load of a WAL with a header gives back its records and its boundary.
load-header :
    (bi bt : ℕ) (es : List LogEntry) (l : RaftLog)
    → l.legacy_wal ≡ false
    → (bi ≡ 0 → bt ≡ 0)
    → suc (bi + length es) < u64_mod
    → Contiguous (suc bi) es
    → load_from_disk (some (record { header = some (bi, bt); records = es })) l
      ≡ ok (record l {
        entries = es;
        base_index = bi;
        base_term = bt;
        boundary_known = true;
        wal_has_header = true;
        wal = record { header = some (bi, bt); records = es };
      })
unfolding load_from_disk
load-header bi bt [] l n z f c = ground (arith, validate_of_Contiguous [] (suc bi))
load-header bi bt (e ∷ es) l n z f c = ground (arith, validate_of_Contiguous (e ∷ es) (suc bi))

wal-eq :
    (l : RaftLog)
    → Mirrors l
    → l.wal_has_header ≡ true
    → l.wal ≡ record { header = some (l.base_index, l.base_term); records = l.entries }
wal-eq l m h = ground (arith, m.same_boundary h)

new_raft_log-not_legacy : new_raft_log.legacy_wal ≡ false
unfolding new_raft_log
new_raft_log-not_legacy = refl

-- After a restart, a log whose storage had not failed has the entries and the boundary that it had
-- in memory before, and it is well formed and open again.
pub restart-eq :
    (io : Rewrite) (l : RaftLog)
    → IsWellFormed l
    → l.durable ≡ true
    → l.storage_failed ≡ false
    → l.wal_has_header ≡ true
    → (m : RaftLog) × (new_raft_log_with_wal true io true (some l.wal) ≡ ok m)
      × (m.entries ≡ l.entries)
      × (m.base_index ≡ l.base_index)
      × (m.base_term ≡ l.base_term)
      × IsWellFormed m
unfolding new_raft_log_with_wal
restart-eq io l w d f h =
    let m = w.mirror d f in
    let zero : (l.base_index ≡ 0 → l.base_term ≡ 0) = λ z. (w.zero_boundary z).0 in
    rw
      (
        wal-eq l m h,
        load-header l.base_index l.base_term l.entries (record new_raft_log { durable = true })
            new_raft_log-not_legacy zero w.fits w.contiguous,
      )
      (
        record l {
          durable = true;
          wal_open = true;
          boundary_known = true;
          storage_failed = false;
          wal_has_header = true;
          legacy_wal = false;
          wal = record { header = some (l.base_index, l.base_term); records = l.entries };
        },
        refl,
        refl,
        refl,
        refl,
        ground arith,
      )
