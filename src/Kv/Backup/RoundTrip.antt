-- ===== src/Kv/Backup/RoundTrip.antt =====
-- A store that is restored from its snapshot (`Snapshot` and `Restore`,
-- internal/kvstore/store.go).
use kver.Prelude.{
  ℕ, ◌*◌, ◌/◌, ◌%◌, ◌≡◌, refl, ap, ◌∙◌, arith, Bytes, Bool, Option, none, some, List, [], ◌∷◌,
}
use kver.Prelude.Dict.{Dict}
use kver.Raft.Types.{ok}
use kver.Kv.Types.{ZsetOps}
use kver.Kv.Store.{KvStore, new_kv_store}
use kver.Kv.SkipList.{ScoreOps, SkipList}
use kver.Kv.SkipList.Order.{ScoreLaws}
use kver.Kv.SkipList.Shape.{IsSkipList, entries}
use kver.Kv.SkipList.Ops.{skip_list_ops}
use kver.Kv.SkipList.Rebuild.{Built, rebuild-Built}
use kver.Kv.Backup.{
  BackupCodec, map_values, entries_of, rebuild, take_backup, restore_backup, snapshot, restore,
  or_failed, restore_parsed,
}

-- Every expiry time is a whole number of milliseconds, as SetAbsolute makes it.
unfoldable pub IsWhole : Dict ℕ → Type 0
IsWhole [] = Unit
IsWhole ((key, t) ∷ expiry) = (t % 1_000_000 ≡ 0) × IsWhole expiry

map_values_whole :
    (expiry : Dict ℕ)
    → IsWhole expiry
    → map_values (λ ms. ms * 1_000_000) (map_values (λ t. t / 1_000_000) expiry) ≡ expiry
unfolding map_values IsWhole
map_values_whole [] w = refl
map_values_whole ((key, t) ∷ expiry) w =
    let divides = w.0 in
    let back : t / 1_000_000 * 1_000_000 ≡ t = omega arith in
    ap (λ b. (key, b) ∷ map_values (λ ms. ms * 1_000_000) (map_values (λ t. t / 1_000_000) expiry))
      back
    ∙ ap (◌∷◌ (key, t)) (map_values_whole expiry w.1)

module _ {S : Type 0} (sc : ScoreOps S) where
  -- Every sorted set is a well-formed list.
  unfoldable pub AreSkipLists : Dict (SkipList S) → Type 0
  AreSkipLists [] = Unit
  AreSkipLists ((key, z) ∷ sets) = ((ps : List ℕ) × IsSkipList sc z ps) × AreSkipLists sets

  -- The same keys, with well-formed lists of the same entries.
  unfoldable pub SameSets : Dict (SkipList S) → Dict (SkipList S) → Type 0
  SameSets [] [] = Unit
  SameSets [] (_ ∷ _) = ⊥
  SameSets (_ ∷ _) [] = ⊥
  SameSets ((key, z) ∷ sets) ((key', z') ∷ sets') =
      (key ≡ key')
      × (((ps : List ℕ) × (IsSkipList sc z ps × Built sc z' (entries z ps))) × SameSets sets sets')

module _ {S : Type 0} (sc : ScoreOps S) (laws : ScoreLaws sc) (coins : SkipList S → ℕ → Bool)
    (parse : Bytes → Option S) (format : S → Bytes) (codec : BackupCodec S) where
  abbrev ops : ZsetOps (SkipList S) S
  ops = skip_list_ops sc coins parse format

  rebuilt-SameSets :
      (sets : Dict (SkipList S))
      → AreSkipLists sc sets
      → SameSets sc sets (map_values (rebuild ops) (map_values (entries_of ops) sets))
  unfolding AreSkipLists SameSets map_values
  rebuilt-SameSets [] w = tt
  rebuilt-SameSets ((key, z) ∷ sets) ((ps, shape), w) = (
    refl,
    ((ps, (shape, rebuild-Built sc laws coins parse format z ps shape)), rebuilt-SameSets sets w),
  )

  -- What `Restore` makes of a backup of a store.
  Restores : KvStore (SkipList S) → KvStore (SkipList S) → Type 0
  Restores s t =
      (record t { sorted_sets = s.sorted_sets } ≡ s) × SameSets sc s.sorted_sets t.sorted_sets

  restore_backup-take_backup :
      (s : KvStore (SkipList S))
      → IsWhole s.expiry
      → AreSkipLists sc s.sorted_sets
      → Restores s (restore_backup ops (take_backup ops s))
  unfolding restore_backup take_backup Restores
  restore_backup-take_backup s w sets = (
    ap (λ e. record s { expiry = e }) (map_values_whole s.expiry w),
    rebuilt-SameSets s.sorted_sets sets,
  )

  -- A snapshot that has bytes, and that the protobuf library reads back as what was written,
  -- restores the store that it was taken of, whatever the store that restores it held and however
  -- the coins of the new lists fall: every table is as it was, and each key of a sorted set has a
  -- well-formed skip list with the same scores and members in the same order. The expiry times are
  -- whole milliseconds, the skip lists of the store are well-formed, and its scores compare as
  -- numbers do.
  pub restore-snapshot :
      (s other : KvStore (SkipList S)) (byte : ℕ) (contents : Bytes)
      → IsWhole s.expiry
      → AreSkipLists sc s.sorted_sets
      → codec.marshal (take_backup ops s) ≡ some (byte ∷ contents)
      → codec.unmarshal (byte ∷ contents) ≡ some (take_backup ops s)
      → (snapshot ops codec s ≡ ok (byte ∷ contents))
        × ((t : KvStore (SkipList S)) × ((restore ops codec (byte ∷ contents) other ≡ (t, none))
              × ((record t { sorted_sets = s.sorted_sets } ≡ s)
                  × SameSets sc s.sorted_sets t.sorted_sets)))
  unfolding restore restore_parsed snapshot or_failed Restores
  restore-snapshot s other byte contents w sets written parsed = (
    ap (or_failed ops) written,
    (
      restore_backup ops (take_backup ops s),
      (ap (λ b. restore_parsed ops b other) parsed, restore_backup-take_backup s w sets),
    ),
  )

-- If the protobuf library makes no bytes of a store that holds nothing, its snapshot has none, and
-- restoring it succeeds without clearing what another store holds.
restore_empty_keeps :
    {Z S : Type 0} (ops : ZsetOps Z S) (codec : BackupCodec S) (s : KvStore Z)
    → codec.marshal (take_backup ops new_kv_store) ≡ some []
    → (snapshot ops codec new_kv_store ≡ ok []) × (restore ops codec [] s ≡ (s, none))
unfolding snapshot restore or_failed
restore_empty_keeps ops codec s nothing = (rw nothing refl, refl)
