-- ===== src/Batches/Files.antt =====
-- `LocalBatchStorage`: two directories of files. Pickle and JSON files are held as what they hold; the
-- size of a file and its SHA256 are parameters. No file operation fails.
use Prim.Native.String.{◌++◌ as append}
use mesh_ml.Prelude.{
  ℕ, String, Bool, true, ◌||◌, Option, none, some, List, ◌==◌, ltb, if◌then◌else◌, filter_by,
  sorted,
}
use mesh_ml.Prelude.Dict.{Dict, lookup, insert, erase, contains, values}
use mesh_ml.Distributor.{BatchMetadata}
use mesh_ml.Batches.Ids.{split_batch_scope}

-- The fields of `BatchMetadata`, with those that the distributor does not read. `created_at` is the
-- time of the text, in seconds.
pub record StoredBatch : Type 0 where
  pub metadata : BatchMetadata
  pub open metadata use *
  pub sample_indices : List ℕ
  pub class_distribution : Dict ℕ
  pub size_bytes : ℕ
  pub checksum : String
  pub storage_path : String
  pub created_at : ℕ

-- The files under `batches` and under `metadata`, by their paths there.
pub record LocalBatchStorage (Sample : Type 0) : Type 0 where
  pub batches : Dict (List Sample)
  pub batch_metadata : Dict StoredBatch

pub data Loaded (Sample : Type 0) : Type 0 where
  loaded : List Sample → StoredBatch → Loaded Sample
  metadata_not_found data_not_found : Loaded Sample

-- The paths of a batch's two files, each in the directory of the scope.
unfoldable pub paths_for_batch : String → String × String
unfolding split_batch_scope
paths_for_batch batch_id =
    let folder : String = elim (split_batch_scope batch_id).0 [
      | none ↦ ""
      | some scope ↦ append scope "/"
    ] in
    (append folder (append batch_id ".pkl"), append folder (append batch_id ".json"))

-- `key=lambda b: (b.shard_id, b.batch_index)`
abbrev pub earlier_batch : StoredBatch → StoredBatch → Bool
earlier_batch a b =
    if a.shard_id == b.shard_id then ltb a.batch_index b.batch_index else ltb a.shard_id b.shard_id

abbrev pub is_of_shard : Option ℕ → StoredBatch → Bool
is_of_shard none m = true
is_of_shard (some shard_id) m = m.shard_id == shard_id

module _ {Sample : Type 0} where
  -- What `save_batch` writes into the record that it is given.
  abbrev pub filed :
      (measure : List Sample → ℕ) (digest : List Sample → String)
      → List Sample
      → StoredBatch
      → StoredBatch
  filed measure digest samples m = record m {
    size_bytes = measure samples;
    checksum = digest samples;
    storage_path = (paths_for_batch m.batch_id).0;
  }

  unfoldable pub save_batch :
      (measure : List Sample → ℕ) (digest : List Sample → String)
      → List Sample
      → StoredBatch
      → LocalBatchStorage Sample
      → LocalBatchStorage Sample
  save_batch measure digest samples m files = record {
    batches = insert (paths_for_batch m.batch_id).0 samples files.batches;
    batch_metadata =
        insert (paths_for_batch m.batch_id).1 (filed measure digest samples m) files.batch_metadata;
  }

  -- A checksum that differs is logged, and the batch is returned all the same.
  unfoldable pub load_batch : String → LocalBatchStorage Sample → Loaded Sample
  load_batch batch_id files = elim (lookup (paths_for_batch batch_id).1 files.batch_metadata) [
    | none ↦ metadata_not_found
    | some m ↦ elim (lookup m.storage_path files.batches) [
      | none ↦ data_not_found
      | some samples ↦ loaded samples m
    ]
  ]

  unfoldable pub delete_batch : String → LocalBatchStorage Sample → LocalBatchStorage Sample × Bool
  delete_batch batch_id files = (
    record {
      batches = erase (paths_for_batch batch_id).0 files.batches;
      batch_metadata = erase (paths_for_batch batch_id).1 files.batch_metadata;
    },
    contains (paths_for_batch batch_id).0 files.batches
        || contains (paths_for_batch batch_id).1 files.batch_metadata,
  )

  unfoldable pub list_batches : Option ℕ → LocalBatchStorage Sample → List StoredBatch
  list_batches shard_id files =
      sorted earlier_batch (filter_by (is_of_shard shard_id) (values files.batch_metadata))
