-- ===== src/Workers/Membership.antt =====
-- `WorkerDiscoveryService`: the pools of the groups, and the registration of workers.
use Prim.Native.String.{◌++◌ as append}
use mesh_ml.Prelude.{
  ℕ, String, Bool, true, false, ◌&&◌, not, Option, none, some, List, [], ◌∷◌, ◌++◌, ltb, leb, ◌=ˢ◌,
  if◌then◌else◌, elem, length,
}
use mesh_ml.Prelude.Dict.{Dict, lookup, insert, erase}
use mesh_ml.Workers.Registry.{
  RegistryWorker, Registry, named, Introduction, registry_register, remove_worker,
}

-- A pool; `worker_ids`, a set, is a list without repetition.
pub record WorkerPool : Type 0 where
  pub group_id : String
  pub name : String
  pub description : String
  pub worker_ids : List String
  pub min_workers : ℕ
  pub max_workers : ℕ
  pub auto_scale : Bool
  pub created_at : String
  pub tags : Dict String

-- `set.add`
abbrev pub add : String → List String → List String
add x xs = if elem x xs then xs else xs ++ x ∷ []

-- `set.discard`
unfoldable pub discard : String → List String → List String
discard x [] = []
discard x (y ∷ ys) = let rest = discard x ys in if y =ˢ x then rest else y ∷ rest

unfoldable pub is_at_capacity : WorkerPool → Bool
is_at_capacity pool = leb pool.max_workers (length pool.worker_ids)

-- The service's own state, with the registry it writes to.
pub record Service : Type 0 where
  pub require_group_assignment : Bool
  pub pools : Dict WorkerPool
  pub worker_to_pool : Dict String
  pub registry : Registry

-- The arguments of `create_pool` that the pool stores.
pub record PoolOptions : Type 0 where
  pub name : String
  pub description : String
  pub min_workers : ℕ
  pub max_workers : ℕ
  pub auto_scale : Bool
  pub tags : Dict String

unfoldable pub new_pool : String → String → PoolOptions → WorkerPool
new_pool now group_id o = record {
  group_id = group_id;
  name = o.name;
  description = o.description;
  worker_ids = [];
  min_workers = o.min_workers;
  max_workers = o.max_workers;
  auto_scale = o.auto_scale;
  created_at = now;
  tags = o.tags;
}

unfoldable pub create_pool : String → String → PoolOptions → Service → Service × WorkerPool
create_pool now group_id options s = elim (lookup group_id s.pools) [
  | none ↦ (
    record s { pools = insert group_id (new_pool now group_id options) s.pools },
    new_pool now group_id options,
  )
  | some pool ↦ (s, pool)
]

-- `for worker_id in list(pool.worker_ids): self.worker_to_pool.pop(worker_id, None)`
unfoldable pub forget_all : List String → Dict String → Dict String
forget_all [] mapping = mapping
forget_all (w ∷ ws) mapping = forget_all ws (erase w mapping)

unfoldable pub delete_pool : String → Bool → Service → Service × Bool
unfolding forget_all
delete_pool group_id force s = elim (lookup group_id s.pools) [
  | none ↦ (s, false)
  | some pool ↦ if ltb 0 (length pool.worker_ids) && not force then (s, false) else (
    record s {
      worker_to_pool = forget_all pool.worker_ids s.worker_to_pool;
      pools = erase group_id s.pools;
    },
    true,
  )
]

pub data Registration : Type 0 where
  registered_as : RegistryWorker → Registration
  -- `ValueError`
  group_required pool_full : Registration

-- The pool that `register_worker` makes when the group has none.
abbrev pub auto_options : String → PoolOptions
auto_options g = record {
  name = append "Pool for " g;
  description = "Auto-created pool";
  min_workers = 1;
  max_workers = 100;
  auto_scale = false;
  tags = [];
}

-- `pool.worker_ids.add(worker_id)`
abbrev pub with_worker : String → WorkerPool → WorkerPool
with_worker worker_id pool = record pool { worker_ids = add worker_id pool.worker_ids }

-- The registration of a worker in the group `g`.
unfoldable pub register_in_group : String → String → Introduction → Service → Service × Registration
unfolding create_pool registry_register is_at_capacity
register_in_group now g i s =
    let (s', pool) = create_pool now g (auto_options g) s in
    if is_at_capacity pool
    then (s', pool_full)
    else (let (workers, w) = registry_register now i s'.registry in
        (
          record s' {
            registry = workers;
            pools = insert g (with_worker i.worker_id pool) s'.pools;
            worker_to_pool = insert i.worker_id g s'.worker_to_pool;
          },
          registered_as w,
        ))

-- The registration of a worker without a group; the first argument is `require_group_assignment`.
unfoldable pub register_alone : Bool → String → Introduction → Service → Service × Registration
unfolding registry_register
register_alone true now i s = (s, group_required)
register_alone false now i s =
    let (workers, w) = registry_register now i s.registry in
    (record s { registry = workers }, registered_as w)

unfoldable pub register_worker : String → Introduction → Service → Service × Registration
unfolding register_in_group register_alone
register_worker now i s = elim (named i.group_id) [
  | none ↦ register_alone s.require_group_assignment now i s
  | some g ↦ register_in_group now g i s
]

-- `self.pools[group_id].worker_ids.discard(worker_id)`, for a group that is named and has a pool
unfoldable pub leave_pool : String → Option String → Dict WorkerPool → Dict WorkerPool
unfolding discard
leave_pool worker_id group_id pools = elim (named group_id) [
  | none ↦ pools
  | some g ↦ elim (lookup g pools) [
    | none ↦ pools
    | some pool ↦ insert g (record pool { worker_ids = discard worker_id pool.worker_ids }) pools
  ]
]

unfoldable pub unregister_worker : String → Service → Service × Bool
unfolding leave_pool remove_worker
unregister_worker worker_id s =
    let (workers, success) = remove_worker worker_id s.registry in
    (
      record s {
        pools = leave_pool worker_id (lookup worker_id s.worker_to_pool) s.pools;
        worker_to_pool = erase worker_id s.worker_to_pool;
        registry = workers;
      },
      success,
    )
