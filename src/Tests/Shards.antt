-- ===== src/Tests/Shards.antt =====
-- Sample shards.
use mathlib.Core.List.{Perm, flatten}
use mathlib.Core.List.Perm
use mesh_ml.Prelude.{
  ℕ, zero, suc, ◌/◌, leb, ◌*◌, ◌%◌, ◌==◌, ◌≡◌, refl, String, List, [], ◌∷◌, length, range,
  if◌then◌else◌, arith,
}
use mesh_ml.Prelude.Dict.{insert, lookup}
use mesh_ml.Sharder.{
  ShardMetadata, ShardingConfig, stratified, create_shards, create_random_shards,
  create_stratified_shards, chunk, chunks, extend_all, get_shard, calculate_batch_size, ok,
}
use mesh_ml.Sharder.Partition.{indices_of, create_shards-perm}
use mesh_ml.Sharder.Sizes.{IsShard, create_random_shards-IsShard}

abbrev parity : ℕ → String
parity n = if n % 2 == 0 then "even" else "odd"

abbrev kilobytes : ℕ → ℕ
kilobytes n = n * 1024

-- A shuffle that leaves the list as it is.
abbrev keep : ℕ → List ℕ → List ℕ
keep call l = l

abbrev three : ShardingConfig
three = record { num_shards = 3; strategy = stratified; min_samples_per_shard = 1 }

stratified_seven :
    indices_of (create_stratified_shards parity kilobytes keep 7 3)
    ≡ (0 ∷ 1 ∷ []) ∷ (2 ∷ 3 ∷ []) ∷ (4 ∷ 6 ∷ 5 ∷ []) ∷ []
unfolding create_stratified_shards insert lookup extend_all chunks chunk
stratified_seven = refl

create_shards-perm_example :
    (length (create_stratified_shards parity kilobytes keep 7 3) ≡ 3)
    × Perm (flatten (indices_of (create_stratified_shards parity kilobytes keep 7 3))) (range 7)
unfolding create_shards
create_shards-perm_example =
    create_shards-perm parity kilobytes keep [] three 7 (λ call l. Perm.refl l) (ground arith) refl

create_random_shards-IsShard_example :
    (s : ShardMetadata) × (get_shard (create_random_shards parity kilobytes keep 7 3) 2 ≡ ok s)
    × IsShard 7 3 2 s
create_random_shards-IsShard_example =
    create_random_shards-IsShard parity kilobytes keep 7 3 2 (λ call l. Perm.refl l) (omega arith)
      (omega arith)

abbrev big : ShardMetadata
big = record {
  shard_id = 0;
  total_shards = 1;
  num_samples = 5000;
  sample_indices = [];
  class_distribution = [];
  size_bytes = 0;
}

-- A logarithm by halving, which is exact.
unfoldable log2_fuel : ℕ → ℕ → ℕ
log2_fuel zero n = 0
log2_fuel (suc f) n = let rest = log2_fuel f (n / 2) in if leb n 1 then 0 else suc rest

batch_size_of_big : calculate_batch_size (λ n. log2_fuel n n) (big ∷ []) 100 8 512 ≡ ok 32
unfolding calculate_batch_size log2_fuel
batch_size_of_big = refl

-- The result can be below `min_batch_size`, which need not be a power of two.
batch_size_below_minimum : calculate_batch_size (λ n. log2_fuel n n) (big ∷ []) 1000 12 512 ≡ ok 8
unfolding calculate_batch_size log2_fuel
batch_size_below_minimum = refl
