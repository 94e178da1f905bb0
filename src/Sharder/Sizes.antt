-- ===== src/Sharder/Sizes.antt =====
-- How large the shards are, and the batch size that is computed from them.
use mesh_ml.Prelude.{
  ℕ, zero, suc, ◌+◌, ◌-◌, ◌*◌, ◌/◌, ◌%◌, ◌^◌, ◌≤◌, ◌<◌, min, max, ◌≡◌, refl, ap, ◌∙◌, List, [], ◌∷◌,
  arith, String, ◌==◌, if◌then◌else◌, length, range, some, length-eq_of_perm, get_elem?,
  length-range_from,
}
use mesh_ml.Sharder.Shards.{
  ShardMetadata, chunk, chunks, shard_of, shards_of, create_random_shards, create_sequential_shards,
  ok, get_shard, min_samples,
}
use native.Mathlib.Nat.{add-zero, zero-add, le-div_iff_mul-le}
use mesh_ml.Sharder.Partition.{Shuffles}
use mesh_ml.Sharder.Chunks.{length-chunk_inner, length-chunk_last, get_elem?-chunks}

module _ (class_of : ℕ → String) (estimate : ℕ → ℕ) where
  get_elem?-shards_of :
      (num i j : ℕ) (ls : List (List ℕ)) {l : List ℕ}
      → get_elem? ls j ≡ some l
      → get_elem? (shards_of class_of estimate num i ls) j
        ≡ some (shard_of class_of estimate num (i + j) l)
  unfolding shards_of
  get_elem?-shards_of num i j [] h = cc
  get_elem?-shards_of num i zero (l ∷ ls) h = ground (arith, add-zero i)
  get_elem?-shards_of num i (suc j) (l ∷ ls) {l = m} h =
      let at : suc i + j ≡ i + suc j = omega arith in
      get_elem?-shards_of num (suc i) j ls h
      ∙ ap (λ k. some (shard_of class_of estimate num k m)) at

get_shard_of :
    (shards : List ShardMetadata) (i : ℕ) {s : ShardMetadata}
    → get_elem? shards i ≡ some s
    → get_shard shards i ≡ ok s
unfolding get_shard
get_shard_of shards i h = ground arith

-- What the shard with number `i` of `num` over `total` samples is like.
pub record IsShard (total num i : ℕ) (s : ShardMetadata) : Type 0 where
  pub numbered : s.shard_id ≡ i
  pub counted : s.num_samples ≡ length s.sample_indices
  pub sized : s.num_samples ≡ (if i == num - 1 then total / num + total % num else total / num)
  pub inhabited : 0 < s.num_samples

module _ (class_of : ℕ → String) (estimate : ℕ → ℕ) where
  shard_of-IsShard :
      (total num i : ℕ) (items : List ℕ)
      → length items ≡ total
      → i < num
      → num ≤ total
      → IsShard total num i (shard_of class_of estimate num i (chunk num items i))
  unfolding shard_of
  shard_of-IsShard total num i items e h fits = record {
    numbered = refl;
    counted = refl;
    sized = size;
    inhabited = rw size share;
  }
    where
      some_each : 1 ≤ total / num
      some_each = (le-div_iff_mul-le (omega arith)).1 (omega arith)

      share : 0 < (if i == num - 1 then total / num + total % num else total / num)
      share = ground arith

      size :
          length (chunk num items i)
          ≡ (if i == num - 1 then total / num + total % num else total / num)
      size =
          rw (← e) (ground (arith, length-chunk_inner num items i, length-chunk_last num items i))

  get_shard-chunks :
      (num i : ℕ) (items : List ℕ)
      → i < num
      → get_shard (shards_of class_of estimate num 0 (chunks num items)) i
        ≡ ok (shard_of class_of estimate num i (chunk num items i))
  get_shard-chunks num i items h =
      get_shard_of (shards_of class_of estimate num 0 (chunks num items)) i (
        get_elem?-shards_of class_of estimate num 0 i (chunks num items)
          (get_elem?-chunks num items i h))
      ∙ ap (λ k. ok (shard_of class_of estimate num k (chunk num items i))) (zero-add i)

  module _ (shuffle : ℕ → List ℕ → List ℕ) where
    -- With at most one shard for each sample, `get_shard` finds each shard of the random strategy
    -- under its number; it records its own size, has the even share of the samples (the last one
    -- the remainder too), and is never empty, provided that `random.shuffle` only reorders.
    pub create_random_shards-IsShard :
        (total num i : ℕ)
        → Shuffles shuffle
        → i < num
        → num ≤ total
        → (s : ShardMetadata) × (get_shard
              (create_random_shards class_of estimate shuffle total num)
              i
            ≡ ok s)
          × IsShard total num i s
    unfolding create_random_shards
    create_random_shards-IsShard total num i shuffles h fits =
        let items = shuffle 0 (range total) in
        (
          shard_of class_of estimate num i (chunk num items i),
          get_shard-chunks num i items h,
          shard_of-IsShard total num i items
              (length-eq_of_perm _ _ (shuffles 0 (range total)) ∙ length-range_from 0 total) h fits,
        )

    -- The same of the sequential strategy.
    pub create_sequential_shards-IsShard :
        (total num i : ℕ)
        → i < num
        → num ≤ total
        → (s : ShardMetadata) × (get_shard
              (create_sequential_shards class_of estimate shuffle total num)
              i
            ≡ ok s)
          × IsShard total num i s
    unfolding create_sequential_shards
    create_sequential_shards-IsShard total num i h fits =
        let items = range total in
        (
          shard_of class_of estimate num i (chunk num items i),
          get_shard-chunks num i items h,
          shard_of-IsShard total num i items (length-range_from 0 total) h fits,
        )

-- Floats give the whole part of a base-2 logarithm exactly, where the number is below the bound. Just
-- below a large power of two they round up.
abbrev pub IsExactBelow : ℕ → (ℕ → ℕ) → Type 0
IsExactBelow bound log2 = (n : ℕ) → 0 < n → n < bound → (2 ^ log2 n ≤ n) × (n < 2 * 2 ^ log2 n)

-- The batch size before rounding.
abbrev pub wanted_batch_size : ShardMetadata → List ShardMetadata → ℕ → ℕ → ℕ → ℕ
wanted_batch_size s shards target low high = min (max low (min_samples s shards / target)) high
