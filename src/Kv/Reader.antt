-- ===== src/Kv/Reader.antt =====
-- internal/kvstore/reader.go: the reads that the server's handlers see.
use kver.Prelude.{ℕ, Bytes, Bool, List}
use kver.Prelude.Dict.{Dict}
use kver.Prelude.Int.{ℤ}
use kver.Kv.Types.{Reply, ZsetOps}
use kver.Kv.Store.{KvStore}
use kver.Kv.Strings
use kver.Kv.Hashes
use kver.Kv.Lists
use kver.Kv.SortedSets

-- KVReader. A read can delete an expired key.
pub record KvReader (W S : Type 0) : Type 0 where
  pub get : Bytes → W → W × Reply Bytes
  pub hget : Bytes → Bytes → W → W × Reply Bytes
  pub hget_all : Bytes → W → W × Reply (Dict Bytes)
  pub hexists : Bytes → Bytes → W → W × Reply Bool
  pub lrange : Bytes → ℤ → ℤ → W → W × Reply (List Bytes)
  pub llen : Bytes → W → W × Reply ℕ
  pub zscore : Bytes → Bytes → W → W × Reply S
  pub zrank : Bytes → Bytes → W → W × Reply ℕ
  pub zrange : Bytes → ℤ → ℤ → Bool → W → W × Reply (List Bytes)
  pub zrev_range : Bytes → ℤ → ℤ → Bool → W → W × Reply (List Bytes)

-- A world with a store in it, and a clock.
pub record Holds (W Z : Type 0) : Type 0 where
  pub kv : W → KvStore Z
  pub put : KvStore Z → W → W
  pub now : W → ℕ

module _ {W Z : Type 0} (holds : Holds W Z) where
  -- A read of the store, at the present time.
  unfoldable pub read_with : {A : Type 0} → (ℕ → KvStore Z → KvStore Z × Reply A) → W → W × Reply A
  read_with read w = let (s, reply) = read (holds.now w) (holds.kv w) in (holds.put s w, reply)

-- The methods of KVStore that make it a KVReader.
unfoldable pub kv_store_reader : {W Z S : Type 0} → ZsetOps Z S → Holds W Z → KvReader W S
unfolding read_with
kv_store_reader ops holds = record {
  get = λ key. read_with holds (λ now. Strings.get now key);
  hget = λ key field. read_with holds (λ now. Hashes.hget now key field);
  hget_all = λ key. read_with holds (λ now. Hashes.hget_all now key);
  hexists = λ key field. read_with holds (λ now. Hashes.hexists now key field);
  lrange = λ key start stop. read_with holds (λ now. Lists.lrange now key start stop);
  llen = λ key. read_with holds (λ now. Lists.llen now key);
  zscore = λ key member. read_with holds (λ now. SortedSets.zscore ops now key member);
  zrank = λ key member. read_with holds (λ now. SortedSets.zrank ops now key member);
  zrange = λ key start stop with_scores.
      read_with holds (λ now. SortedSets.zrange ops now key start stop with_scores);
  zrev_range = λ key start stop with_scores.
      read_with holds (λ now. SortedSets.zrev_range ops now key start stop with_scores);
}
