-- ===== src/Parameters/Records.antt =====
-- What the storage service uses of PyTorch and of Redis, and the records that it keeps. A key of Redis
-- starts with its kind, so the keys of each kind are a store of their own.
use mesh_ml.Prelude.{
  ℕ, ◌*◌, ◌≡◌, String, Bool, ◌&&◌, Option, none, some, List, ◌==◌, ◌=ˢ◌, if◌then◌else◌, map, sum,
}
use mesh_ml.Prelude.Dict.{Dict, values}

-- GET, SET and DELETE; `same` tells keys apart.
pub record KeyValue {K : Type 0} (same : K → K → Bool) (V : Type 0) : Type 1 where
  pub Store : Type 0
  pub get : K → Store → Option V
  pub set : K → V → Store → Store
  pub delete : K → Store → Store
  pub get-set :
      (k j : K) (v : V) (s : Store) → get j (set k v s) ≡ (if same k j then some v else get j s)
  pub get-delete : (k j : K) (s : Store) → get j (delete k s) ≡ (if same k j then none else get j s)

-- `params:{model_id}:v{version_id}`
abbrev pub same_snapshot : String × ℕ → String × ℕ → Bool
same_snapshot (m, v) (n, w) = m =ˢ n && v == w

abbrev pub same_text : String → String → Bool
same_text s t = s =ˢ t

pub data CheckpointType : Type 0 where
  manual auto best final : CheckpointType

pub record ParameterVersion : Type 0 where
  pub version_id : ℕ
  pub model_id : String
  pub created_at : ℕ
  pub checksum : String
  pub num_parameters : ℕ
  pub total_size_bytes : ℕ
  pub metadata : Dict String

-- `metrics` and `metadata` are texts.
pub record Checkpoint : Type 0 where
  pub checkpoint_id : String
  pub model_id : String
  pub version_id : ℕ
  pub checkpoint_type : CheckpointType
  pub created_at : ℕ
  pub checksum : String
  pub num_parameters : ℕ
  pub size_bytes : ℕ
  pub metrics : Dict String
  pub metadata : Dict String
  pub redis_key : Option String

-- `torch.load` gives back what `torch.save` was given.
pub record Backend : Type 1 where
  pub Tensor : Type 0
  pub numel : Tensor → ℕ
  pub element_size : Tensor → ℕ
  pub equal : Tensor → Tensor → Bool
  pub Bytes : Type 0
  pub save : Dict Tensor → Bytes
  pub load : Bytes → Dict Tensor
  pub load-save : (p : Dict Tensor) → load (save p) ≡ p
  -- the same for the package of a checkpoint, of which the entry `parameters` is read
  pub pack : Checkpoint → Dict Tensor → Bytes
  pub unpack : Bytes → Dict Tensor
  pub unpack-pack : (c : Checkpoint) (p : Dict Tensor) → unpack (pack c p) ≡ p
  -- the digest of the saved bytes
  pub sha256 : Bytes → String
  -- `f"{model_id}_v{version_id}_{timestamp}"`
  pub generated_id : String → ℕ → ℕ → String
  -- `params:{model_id}:v{version_id}`, `params:{model_id}:current_version`,
  -- `checkpoint:{model_id}:{checkpoint_id}`
  pub snapshots : KeyValue same_snapshot Bytes
  pub current : KeyValue same_text ℕ
  pub packages : KeyValue same_text Bytes

-- `metadata or {}`
abbrev pub or_empty : Option (Dict String) → Dict String
or_empty none = List.[]
or_empty (some d) = d

module _ (b : Backend) where
  open b use {Tensor, numel, element_size, save, sha256}

  abbrev pub Params : Type 0
  Params = Dict Tensor

  -- `sum(p.numel() for p in parameters.values())`
  unfoldable pub count_parameters : Params → ℕ
  count_parameters p = sum (map numel (values p))

  unfoldable pub count_bytes : Params → ℕ
  count_bytes p = sum (map (λ t. element_size t * numel t) (values p))

  unfoldable pub calculate_checksum : Params → String
  calculate_checksum p = sha256 (save p)

  -- The service, with the stores of its Redis client. A store that is there though Redis is not enabled
  -- is never touched.
  pub record ParameterStorage : Type 0 where
    pub enable_redis : Bool
    pub checkpoint_retention : ℕ
    pub param_version_history : ℕ
    pub parameters : Dict Params
    pub current_versions : Dict ℕ
    pub version_history : Dict (List ParameterVersion)
    pub checkpoints : Dict (List Checkpoint)
    pub stored_snapshots : b.snapshots.Store
    pub stored_current : b.current.Store
    pub stored_packages : b.packages.Store
