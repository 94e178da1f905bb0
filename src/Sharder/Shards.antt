-- ===== src/Sharder/Shards.antt =====
-- The configuration, the shard records and the sharding strategies of `DatasetSharder`.
-- Parameters: the shuffles of `random` (one function for each call, by its number), the class of
-- each sample (what the loader and numpy's quantile binning say), the float estimate of a size.
use mesh_ml.Prelude.{
  ℕ, zero, suc, ◌+◌, ◌-◌, ◌*◌, ◌/◌, ◌^◌, min, max, String, Option, none, some, List, [], ◌∷◌, ◌++◌,
  map, ltb, leb, ◌==◌, if◌then◌else◌, length, get_elem?, slice, range, replicate,
}
use mesh_ml.Prelude.Dict.{Dict, lookup, insert}

pub data ShardingStrategy : Type 0 where
  random stratified non_iid sequential : ShardingStrategy

pub record ShardMetadata : Type 0 where
  pub shard_id : ℕ
  pub total_shards : ℕ
  pub num_samples : ℕ
  pub sample_indices : List ℕ
  pub class_distribution : Dict ℕ
  pub size_bytes : ℕ

pub record ShardingConfig : Type 0 where
  pub num_shards : ℕ
  pub strategy : ShardingStrategy
  pub min_samples_per_shard : ℕ

pub data ShardError : Type 0 where
  num_shards_not_positive num_shards_exceed_samples no_shards no_such_shard math_domain
        zero_division :
      ShardError

pub data Result {ℓ} (A : Type ℓ) : Type ℓ where
  ok : A → Result A
  raise : ShardError → Result A

infixl 5 ◌>>=◌ ◌>>◌
abbrev pub ◌>>=◌ {ℓ κ} : {A : Type ℓ} {B : Type κ} → Result A → (A → Result B) → Result B
ok a >>= f = f a
raise e >>= f = raise e

abbrev pub ◌>>◌ {ℓ} : {B : Type ℓ} → Result (Unit {0}) → Result B → Result B
m >> k = m >>= λ _. k

-- One iteration of the loops over `range(num_shards)`: `items[start_idx:end_idx]`, where the last
-- shard gets the remaining samples.
unfoldable pub chunk : ℕ → List ℕ → ℕ → List ℕ
chunk num items shard_id =
    let samples_per_shard = length items / num in
    let start_idx = shard_id * samples_per_shard in
    slice items start_idx
      (if shard_id == num - 1 then length items else start_idx + samples_per_shard)

-- `for shard_id in range(num_shards)` over one list.
unfoldable pub chunks : ℕ → List ℕ → List (List ℕ)
chunks num items = map (chunk num items) (range num)

-- `shards[shard_id].extend(...)` for every shard.
unfoldable pub extend_all : List (List ℕ) → List (List ℕ) → List (List ℕ)
extend_all [] pieces = []
extend_all (s ∷ shards) [] = s ∷ shards
extend_all (s ∷ shards) (p ∷ pieces) = (s ++ p) ∷ extend_all shards pieces

-- The outer loop of `_create_stratified_shards`, over the classes' shuffled indices.
unfoldable pub distribute : ℕ → List (List ℕ) → List (List ℕ) → List (List ℕ)
distribute num shards [] = shards
distribute num shards (indices ∷ classes) =
    distribute num (extend_all shards (chunks num indices)) classes

-- What a `defaultdict` gives for a key.
abbrev pub or_else {ℓ} : {A : Type ℓ} → A → Option A → A
or_else d none = d
or_else d (some a) = a

-- `class_to_indices[class_name].append(idx)` on a `defaultdict(list)`.
unfoldable pub append_at : String → ℕ → Dict (List ℕ) → Dict (List ℕ)
append_at name idx groups = insert name (or_else [] (lookup name groups) ++ idx ∷ []) groups

-- `class_counts[class_name] += 1` on a `defaultdict(int)`.
unfoldable pub count_at : String → Dict ℕ → Dict ℕ
count_at name counts = insert name (or_else 0 (lookup name counts) + 1) counts

-- `log2` is `int(math.log2(n))` for a positive `n`; `math.log2` raises on 0.
unfoldable pub int_log2 : (ℕ → ℕ) → ℕ → Result ℕ
int_log2 log2 n = if n == 0 then raise math_domain else ok (log2 n)

-- `min(s.num_samples for s in shards)`
unfoldable pub min_samples : ShardMetadata → List ShardMetadata → ℕ
min_samples s [] = s.num_samples
min_samples s (t ∷ rest) = min s.num_samples (min_samples t rest)

-- `a // b`
unfoldable pub floor_div : ℕ → ℕ → Result ℕ
floor_div a b = if b == 0 then raise zero_division else ok (a / b)

unfoldable pub calculate_batch_size : (ℕ → ℕ) → List ShardMetadata → ℕ → ℕ → ℕ → Result ℕ
unfolding int_log2 min_samples floor_div
calculate_batch_size log2 [] target_batches_per_epoch min_batch_size max_batch_size =
    raise no_shards
calculate_batch_size log2 (s ∷ shards) target_batches_per_epoch min_batch_size max_batch_size = do
  let min_shard_size = min_samples s shards
  per_epoch ← floor_div min_shard_size target_batches_per_epoch
  let batch_size = max min_batch_size per_epoch
  let capped = min batch_size max_batch_size
  k ← int_log2 log2 capped
  ok (2 ^ k)

unfoldable pub get_shard : List ShardMetadata → ℕ → Result ShardMetadata
get_shard shards shard_id = elim (get_elem? shards shard_id) [
  | none ↦ raise no_such_shard
  | some s ↦ ok s
]

unfoldable pub validate_config : ShardingConfig → ℕ → Result (Unit {0})
validate_config config total =
    if leb config.num_shards 0
    then raise num_shards_not_positive
    else if ltb total config.num_shards
    then raise num_shards_exceed_samples
    else ok tt

module _ (class_of : ℕ → String) where
  -- `for idx, label in enumerate(labels)`, from sample `idx` on.
  unfoldable pub group_from : ℕ → ℕ → Dict (List ℕ) → Dict (List ℕ)
  unfolding append_at
  group_from idx zero groups = groups
  group_from idx (suc n) groups = group_from (suc idx) n (append_at (class_of idx) idx groups)

  unfoldable pub group_samples_by_class : ℕ → Dict (List ℕ)
  unfolding group_from
  group_samples_by_class total = group_from 0 total []

  unfoldable pub count_from : Dict ℕ → List ℕ → Dict ℕ
  unfolding count_at
  count_from counts [] = counts
  count_from counts (idx ∷ indices) = count_from (count_at (class_of idx) counts) indices

  unfoldable pub calculate_class_distribution : List ℕ → Dict ℕ
  unfolding count_from
  calculate_class_distribution indices = count_from [] indices

module _ (class_of : ℕ → String) (estimate_shard_size : ℕ → ℕ) where
  unfoldable pub shard_of : ℕ → ℕ → List ℕ → ShardMetadata
  shard_of num shard_id shard_indices = record {
    shard_id = shard_id;
    total_shards = num;
    num_samples = length shard_indices;
    sample_indices = shard_indices;
    class_distribution = calculate_class_distribution class_of shard_indices;
    size_bytes = estimate_shard_size (length shard_indices);
  }

  -- `for shard_id, shard_indices in enumerate(shards)`
  unfoldable pub shards_of : ℕ → ℕ → List (List ℕ) → List ShardMetadata
  unfolding shard_of
  shards_of num shard_id [] = []
  shards_of num shard_id (indices ∷ rest) =
      shard_of num shard_id indices ∷ shards_of num (suc shard_id) rest

module _ (shuffle : ℕ → List ℕ → List ℕ) where
  -- A `random.shuffle` of each list in turn; `call` numbers the first.
  unfoldable pub shuffle_each : ℕ → List (List ℕ) → List (List ℕ)
  shuffle_each call [] = []
  shuffle_each call (l ∷ ls) = shuffle call l ∷ shuffle_each (suc call) ls

module _ (class_of : ℕ → String) (estimate_shard_size : ℕ → ℕ) (shuffle : ℕ → List ℕ → List ℕ) where
  abbrev shards : ℕ → ℕ → List (List ℕ) → List ShardMetadata
  shards = shards_of class_of estimate_shard_size

  unfoldable pub create_random_shards : ℕ → ℕ → List ShardMetadata
  unfolding chunks shards_of
  create_random_shards total num = shards num 0 (chunks num (shuffle 0 (range total)))

  unfoldable pub create_sequential_shards : ℕ → ℕ → List ShardMetadata
  unfolding chunks shards_of
  create_sequential_shards total num = shards num 0 (chunks num (range total))

  unfoldable pub create_stratified_shards : ℕ → ℕ → List ShardMetadata
  unfolding group_samples_by_class shuffle_each distribute shards_of
  create_stratified_shards total num =
      let classes = map (λ e. e.1) (group_samples_by_class class_of total) in
      let dealt = distribute num (replicate num []) (shuffle_each shuffle 0 classes) in
      shards num 0 (shuffle_each shuffle (length classes) dealt)

  -- The dispatch; the shards that the Dirichlet draw of numpy gives are a parameter.
  unfoldable pub create :
      (non_iid_shards : List ShardMetadata) → ShardingStrategy → ℕ → ℕ → List ShardMetadata
  unfolding create_random_shards create_stratified_shards create_sequential_shards
  create non_iid_shards random total num = create_random_shards total num
  create non_iid_shards stratified total num = create_stratified_shards total num
  create non_iid_shards non_iid total num = non_iid_shards
  create non_iid_shards sequential total num = create_sequential_shards total num

  unfoldable pub create_shards :
      (non_iid_shards : List ShardMetadata) → ShardingConfig → ℕ → Result (List ShardMetadata)
  unfolding validate_config create
  create_shards non_iid_shards config total = do
    validate_config config total
    ok (create non_iid_shards config.strategy total config.num_shards)
