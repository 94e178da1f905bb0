-- ===== src/Tests/Files.antt =====
-- Runs of the batch manager on a shard of five samples, and on files that are a day old.
use mathlib.Core.List.{Perm, flatten}
use mesh_ml.Prelude.{ℕ, ◌≡◌, refl, false, none, some, List, [], ◌∷◌, map, All, range, sorted, ltb}
use mesh_ml.Sharder.{ShardMetadata}
use mesh_ml.Batches.{
  StoredBatch, LocalBatchStorage, Loader, batch_of, batch_count, create_batches_from_shard,
  process_each, save_batch, cleanup_old_batches, is_old, scoped_batch_id, split_batch_scope,
  sanitize_batch_scope,
}
use mesh_ml.Batches.Slices.{Fits, create_batches_from_shard-perm}
use mesh_ml.Batches.Filing.{IsFiled, save_batch-IsFiled, cleanup_old_batches-IsYoung}

abbrev loader : Loader
loader = record {
  Sample = ℕ;
  get_sample = λ i. i;
  label = λ s. "cat";
  measure = λ samples. 7;
  digest = λ samples. "d";
}

abbrev shard : ShardMetadata
shard = record {
  shard_id = 3;
  total_shards = 4;
  num_samples = 5;
  sample_indices = 2 ∷ 4 ∷ 6 ∷ 8 ∷ 9 ∷ [];
  class_distribution = [];
  size_bytes = 5;
}

abbrev empty : LocalBatchStorage ℕ
empty = record { batches = []; batch_metadata = [] }

abbrev made : LocalBatchStorage ℕ × List StoredBatch
made = process_each loader 10 shard 2 (some "job") (1 ∷ 0 ∷ 2 ∷ []) empty

all_done : sorted ltb (1 ∷ 0 ∷ 2 ∷ []) ≡ range (batch_count 2 shard.sample_indices)
unfolding sorted
all_done = refl

shard_is_cut :
    create_batches_from_shard loader 10 shard 2 (some "job") (1 ∷ 0 ∷ 2 ∷ []) empty ≡ some made
unfolding create_batches_from_shard
shard_is_cut = refl

create_batches_from_shard-perm_example :
    Perm (flatten (map (λ m. m.sample_indices) made.1)) shard.sample_indices
    × All (Fits loader 10 shard 2 (some "job")) made.1
create_batches_from_shard-perm_example =
    create_batches_from_shard-perm loader 10 shard 2 (some "job") (1 ∷ 0 ∷ 2 ∷ []) empty
      {out = made} all_done shard_is_cut

abbrev first_batch : StoredBatch
first_batch = record {
  metadata = record { batch_id = "b"; shard_id = 3; batch_index = 0; num_samples = 1 };
  sample_indices = 2 ∷ [];
  class_distribution = [];
  size_bytes = 0;
  checksum = "";
  storage_path = "";
  created_at = 10;
}

abbrev second_batch : StoredBatch
second_batch = record {
  metadata = record { batch_id = "c"; shard_id = 3; batch_index = 1; num_samples = 1 };
  sample_indices = 2 ∷ [];
  class_distribution = [];
  size_bytes = 0;
  checksum = "";
  storage_path = "";
  created_at = 10;
}

abbrev saved : LocalBatchStorage ℕ
saved =
    save_batch loader.measure loader.digest (2 ∷ 4 ∷ []) (batch_of loader 10 shard 2 none 0) empty

saved-IsFiled : IsFiled saved.batch_metadata
saved-IsFiled =
    save_batch-IsFiled loader.measure loader.digest (2 ∷ 4 ∷ []) (batch_of loader 10 shard 2 none 0)
      empty tt

cleanup_old_batches-IsYoung_example :
    IsFiled (cleanup_old_batches 100000 24 saved).0.batch_metadata
    × All (λ e. is_old 100000 24 e.1 ≡ false) (cleanup_old_batches 100000 24 saved).0.batch_metadata
cleanup_old_batches-IsYoung_example = cleanup_old_batches-IsYoung 100000 24 saved saved-IsFiled

-- A scope is put in front of an id, without slashes and outer blanks, and taken off again.
scope_comes_back :
    split_batch_scope (scoped_batch_id (some " a/b ") "shard_0_batch_12")
    ≡ (some "a-b", "shard_0_batch_12")
unfolding split_batch_scope scoped_batch_id sanitize_batch_scope
scope_comes_back = refl
