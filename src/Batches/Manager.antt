-- ===== src/Batches/Manager.antt =====
-- `BatchManager` on a local storage. The threads that make the batches are taken one after another, in
-- the order `completion` in which they end.
use Prim.Native.String.{◌++◌ as append}
use mesh_ml.Prelude.{
  ℕ, ◌+◌, ◌-◌, ◌*◌, ◌/◌, String, Bool, false, Option, none, some, List, [], ◌∷◌, map, min, length,
  slice, ◌==◌, ltb, sum, if◌then◌else◌,
}
use mesh_ml.Prelude.Dict.{Dict, lookup, insert}
use mesh_ml.Sharder.{ShardMetadata}
use mesh_ml.Batches.Ids.{str, scoped_batch_id}
use mesh_ml.Batches.Files.{
  StoredBatch, LocalBatchStorage, filed, save_batch, delete_batch, list_batches,
}

-- What the manager asks of a loader, of pickle and of SHA256.
pub record Loader : Type 1 where
  pub Sample : Type 0
  pub get_sample : ℕ → Sample
  pub label : Sample → String
  pub measure : List Sample → ℕ
  pub digest : List Sample → String

-- `class_dist[label] = class_dist.get(label, 0) + 1`
abbrev pub count_label : String → Dict ℕ → Dict ℕ
count_label label d = insert label (elim (lookup label d) [ none ↦ 1 | some n ↦ n + 1 ]) d

unfoldable pub class_counts : Dict ℕ → List String → Dict ℕ
class_counts d [] = d
class_counts d (label ∷ rest) = class_counts (count_label label d) rest

-- `sample_indices[start_idx:end_idx]`
unfoldable pub batch_slice : (batch_size : ℕ) → List ℕ → ℕ → List ℕ
batch_slice batch_size sample_indices batch_idx =
    slice sample_indices (batch_idx * batch_size)
      (min (batch_idx * batch_size + batch_size) (length sample_indices))

-- `(len(sample_indices) + batch_size - 1) // batch_size`
abbrev pub batch_count : (batch_size : ℕ) → List ℕ → ℕ
batch_count batch_size sample_indices = (length sample_indices + batch_size - 1) / batch_size

module _ (l : Loader) where
  -- The record of a batch, as the thread makes it.
  unfoldable pub batch_of : ℕ → ShardMetadata → (batch_size : ℕ) → Option String → ℕ → StoredBatch
  unfolding batch_slice class_counts
  batch_of now shard batch_size batch_scope batch_idx =
      let indices = batch_slice batch_size shard.sample_indices batch_idx in
      record {
        metadata = record {
          batch_id =
              scoped_batch_id batch_scope
                (append "shard_" (append (str shard.shard_id) (append "_batch_" (str batch_idx))));
          shard_id = shard.shard_id;
          batch_index = batch_idx;
          num_samples = length (map l.get_sample indices);
        };
        sample_indices = indices;
        class_distribution = class_counts [] (map (λ i. l.label (l.get_sample i)) indices);
        size_bytes = 0;
        checksum = "";
        storage_path = "";
        created_at = now;
      }

  -- `_process_single_batch`
  unfoldable pub process_single_batch :
      ℕ
      → ShardMetadata
      → (batch_size : ℕ) → Option String
      → ℕ
      → LocalBatchStorage l.Sample
      → LocalBatchStorage l.Sample × StoredBatch
  process_single_batch now shard batch_size batch_scope batch_idx files =
      let m = batch_of now shard batch_size batch_scope batch_idx in
      let samples = map l.get_sample m.sample_indices in
      (save_batch l.measure l.digest samples m files, filed l.measure l.digest samples m)

  unfoldable pub process_each :
      ℕ
      → ShardMetadata
      → (batch_size : ℕ) → Option String
      → List ℕ
      → LocalBatchStorage l.Sample
      → LocalBatchStorage l.Sample × List StoredBatch
  process_each now shard batch_size batch_scope [] files = (files, [])
  process_each now shard batch_size batch_scope (i ∷ rest) files =
      let (files', m) = process_single_batch now shard batch_size batch_scope i files in
      let (files'', ms) = process_each now shard batch_size batch_scope rest files' in
      (files'', m ∷ ms)

  -- A `batch_size` of 0 raises `ZeroDivisionError`.
  unfoldable pub create_batches_from_shard :
      ℕ
      → ShardMetadata
      → (batch_size : ℕ) → Option String
      → (completion : List ℕ) → LocalBatchStorage l.Sample
      → Option (LocalBatchStorage l.Sample × List StoredBatch)
  unfolding process_each process_single_batch
  create_batches_from_shard now shard batch_size batch_scope completion files =
      if batch_size == 0
      then none
      else some (process_each now shard batch_size batch_scope completion files)

-- The batch is older than the age: `created_at < now - max_age_hours * 3600`.
abbrev pub is_old : (now max_age_hours : ℕ) → StoredBatch → Bool
is_old now max_age_hours m = ltb (m.created_at + max_age_hours * 3600) now

module _ {Sample : Type 0} where
  -- The loop over the batches that were listed.
  unfoldable pub delete_old :
      (now max_age_hours : ℕ)
      → List StoredBatch
      → LocalBatchStorage Sample
      → LocalBatchStorage Sample × ℕ
  delete_old now max_age_hours [] files = (files, 0)
  delete_old now max_age_hours (m ∷ rest) files =
      let (files', deleted) =
        if is_old now max_age_hours m then delete_batch m.batch_id files else (files, false) in
      let (files'', count) = delete_old now max_age_hours rest files' in
      (files'', if deleted then count + 1 else count)

  unfoldable pub cleanup_old_batches :
      (now max_age_hours : ℕ) → LocalBatchStorage Sample → LocalBatchStorage Sample × ℕ
  unfolding delete_old
  cleanup_old_batches now max_age_hours files =
      delete_old now max_age_hours (list_batches none files) files

-- The counters of a shard in `get_batch_stats`.
pub record ShardStats : Type 0 where
  pub shard_id : ℕ
  pub num_batches : ℕ
  pub num_samples : ℕ
  pub size_bytes : ℕ

unfoldable pub add_to_stats : StoredBatch → List ShardStats → List ShardStats
add_to_stats m [] =
    record {
      shard_id = m.shard_id;
      num_batches = 1;
      num_samples = m.num_samples;
      size_bytes = m.size_bytes;
    }
    ∷ []
add_to_stats m (s ∷ rest) =
    let more = add_to_stats m rest in
    if s.shard_id == m.shard_id
    then record s {
      num_batches = s.num_batches + 1;
      num_samples = s.num_samples + m.num_samples;
      size_bytes = s.size_bytes + m.size_bytes;
    }
      ∷ rest
    else s ∷ more

unfoldable pub shard_stats : List ShardStats → List StoredBatch → List ShardStats
unfolding add_to_stats
shard_stats stats [] = stats
shard_stats stats (m ∷ rest) = shard_stats (add_to_stats m stats) rest

pub record BatchStats : Type 0 where
  pub total_batches : ℕ
  pub total_samples : ℕ
  pub total_size_bytes : ℕ
  pub shards : List ShardStats

unfoldable pub get_batch_stats : {Sample : Type 0} → LocalBatchStorage Sample → BatchStats
unfolding shard_stats
get_batch_stats files =
    let batches = list_batches none files in
    record {
      total_batches = length batches;
      total_samples = sum (map (λ m. m.num_samples) batches);
      total_size_bytes = sum (map (λ m. m.size_bytes) batches);
      shards = shard_stats [] batches;
    }
