-- ===== src/Workers/Pools.antt =====
-- Pools, mapping and registry through every call.
use mesh_ml.Prelude.{
  ℕ, ◌≡◌, ◌⊎◌, refl, String, Bool, true, false, Option, some, inl, inr, ◌=ˢ◌, eq_iff, if◌then◌else◌,
  arith, Option-cases, Bool-cases,
}
use mesh_ml.Prelude.Dict.{Dict, lookup, insert, contains, lookup-insert, lookup-erase}
use mesh_ml.Workers.Registry.{
  Registry, named, Introduction, registry_register, new_worker, remove_worker, registry_assign,
  update_heartbeat,
}
use mesh_ml.Workers.Membership.{
  WorkerPool, Service, PoolOptions, discard, is_at_capacity, new_pool, create_pool, delete_pool,
  auto_options, register_in_group, register_alone, register_worker, leave_pool, unregister_worker,
}
use mesh_ml.Workers.Soundness.{
  IsSound, length-discard, elem-discard, contains-insert, grown-IsSound, create_pool-IsSound,
  delete_pool-IsSound, join-IsSound,
}

create_pool-found :
    (now g : String) (options : PoolOptions) (s : Service)
    → lookup g (create_pool now g options s).0.pools ≡ some (create_pool now g options s).1
unfolding create_pool
create_pool-found now g options s = elim (Option-cases (lookup g s.pools)) [
  | inl absent ↦
      rw (absent, create_pool)
        (ground (arith, eq_iff g g, lookup-insert g g (new_pool now g options) s.pools))
  | inr (pool, found) ↦ rw (found, create_pool) found
]

register_in_group-IsSound :
    (now g : String) (i : Introduction) (s : Service)
    → IsSound s
    → IsSound (register_in_group now g i s).0
unfolding register_in_group registry_register
register_in_group-IsSound now g i s inv =
    let s' = (create_pool now g (auto_options g) s).0 in
    let pool = (create_pool now g (auto_options g) s).1 in
    let inv' = create_pool-IsSound now g (auto_options g) s inv in
    elim (Bool-cases (is_at_capacity pool)) [
      | inl full ↦ rw (full, register_in_group) inv'
      | inr room ↦
          rw (room, register_in_group)
            (join-IsSound g pool i.worker_id (new_worker now i) s'
              (create_pool-found now g (auto_options g) s) room inv')
    ]

register_alone-IsSound :
    (required : Bool) (now : String) (i : Introduction) (s : Service)
    → IsSound s
    → IsSound (register_alone required now i s).0
unfolding register_alone registry_register
register_alone-IsSound true now i s inv = inv
register_alone-IsSound false now i s inv =
    grown-IsSound s (insert i.worker_id (new_worker now i) s.registry)
      (λ w. contains-insert i.worker_id w (new_worker now i) s.registry) inv

register_worker-IsSound :
    (now : String) (i : Introduction) (s : Service)
    → IsSound s
    → IsSound (register_worker now i s).0
unfolding register_worker
register_worker-IsSound now i s inv = elim (Option-cases (named i.group_id)) [
  | inl nameless ↦
      rw (nameless, register_worker) (register_alone-IsSound s.require_group_assignment now i s inv)
  | inr (g, name) ↦ rw (name, register_worker) (register_in_group-IsSound now g i s inv)
]

-- The pool with one worker less.
abbrev without : String → WorkerPool → WorkerPool
without id pool = record pool { worker_ids = discard id pool.worker_ids }

leave_pool-eq :
    (id g : String) (group : Option String) (pools : Dict WorkerPool) (pool : WorkerPool)
    → named group ≡ some g
    → lookup g pools ≡ some pool
    → (h : String)
    → lookup h (leave_pool id group pools)
      ≡ (if g =ˢ h then some (without id pool) else lookup h pools)
unfolding leave_pool
leave_pool-eq id g group pools pool name found h =
    rw (name, leave_pool, found) (lookup-insert g h (without id pool) pools)

-- The pool that a worker leaves holds no more than before, and the others stay.
leave_pool-lookup :
    (id : String) (group : Option String) (pools : Dict WorkerPool) (h : String)
    (pool' : WorkerPool)
    → lookup h (leave_pool id group pools) ≡ some pool'
    → (pool : WorkerPool) × (lookup h pools ≡ some pool)
      × ((pool' ≡ pool) ⊎ (pool' ≡ without id pool))
unfolding leave_pool
leave_pool-lookup id group pools h pool' e = elim (Option-cases (named group)) [
  | inl nameless ↦ (pool', ground arith, inl refl)
  | inr (g, name) ↦ elim (Option-cases (lookup g pools)) [
    | inl absent ↦ (pool', ground arith, inl refl)
    | inr (pool, found) ↦
        let after = leave_pool-eq id g group pools pool name found h in
        elim (Bool-cases (g =ˢ h)) [
          | inl same ↦ (pool, ground (arith, eq_iff g h), inr (ground (arith, after)))
          | inr differ ↦ (pool', ground (arith, after), inl refl)
        ]
  ]
]

leave_pool-kept :
    (id : String) (group : Option String) (pools : Dict WorkerPool) (h : String) (pool : WorkerPool)
    → lookup h pools ≡ some pool
    → (lookup h (leave_pool id group pools) ≡ some pool)
      ⊎ (lookup h (leave_pool id group pools) ≡ some (without id pool))
unfolding leave_pool
leave_pool-kept id group pools h pool e = elim (Option-cases (named group)) [
  | inl nameless ↦ inl (rw (nameless, leave_pool) e)
  | inr (g, name) ↦ elim (Option-cases (lookup g pools)) [
    | inl absent ↦ inl (rw (name, leave_pool, absent) e)
    | inr (old, found) ↦
        let after = leave_pool-eq id g group pools old name found h in
        elim (Bool-cases (g =ˢ h)) [
          | inl same ↦ inr (ground (arith, eq_iff g h, after))
          | inr differ ↦ inl (ground (arith, after))
        ]
  ]
]

unregister-IsSound : (id : String) (s : Service) → IsSound s → IsSound (unregister_worker id s).0
unfolding unregister_worker remove_worker
unregister-IsSound id s inv = record {
  capacity = λ g pool' e.
      let (pool, found, either) =
        leave_pool-lookup id (lookup id s.worker_to_pool) s.pools g pool' e in
      elim either [
        | inl same ↦ ground (arith, inv.capacity g pool found)
        | inr less ↦ ground (arith, inv.capacity g pool found, length-discard id pool.worker_ids)
      ];
  member = λ w g e.
      let (pool, found, has) =
        inv.member w g (ground (arith, lookup-erase id w s.worker_to_pool)) in
      elim (leave_pool-kept id (lookup id s.worker_to_pool) s.pools g pool found) [
        | inl same ↦ (pool, same, has)
        | inr less ↦ (
          without id pool,
          less,
          elem-discard w id pool.worker_ids (ground (arith, lookup-erase id w s.worker_to_pool))
              has,
        )
      ];
  known = λ w g e.
      ground
        (arith, lookup-erase id w s.worker_to_pool, lookup-erase id w s.registry, inv.known w g);
}

-- The calls that change the service or its registry.
pub data ServiceCall : Type 0 where
  create : String → PoolOptions → ServiceCall
  delete : String → Bool → ServiceCall
  register : Introduction → ServiceCall
  unregister : String → ServiceCall
  heartbeat : String → Option String → ServiceCall
  occupy : String → String → Option ℕ → ServiceCall

unfoldable pub apply_call : String → ServiceCall → Service → Service
apply_call now (create g options) s = (create_pool now g options s).0
apply_call now (delete g force) s = (delete_pool g force s).0
apply_call now (register i) s = (register_worker now i s).0
apply_call now (unregister w) s = (unregister_worker w s).0
apply_call now (heartbeat w status) s = record s {
  registry = (update_heartbeat now w status s.registry).0;
}
apply_call now (occupy w job shard) s = record s {
  registry = (registry_assign w job shard s.registry).0;
}

update_heartbeat-grown :
    (now w : String) (status : Option String) (workers : Registry) (v : String)
    → contains v workers ≡ true
    → contains v (update_heartbeat now w status workers).0 ≡ true
unfolding update_heartbeat
update_heartbeat-grown now w status workers v h = elim (Option-cases (lookup w workers)) [
  | inl absent ↦ rw (absent, update_heartbeat) h
  | inr (worker, found) ↦ rw (found, update_heartbeat) (contains-insert w v _ workers h)
]

registry_assign-grown :
    (w job : String) (shard : Option ℕ) (workers : Registry) (v : String)
    → contains v workers ≡ true
    → contains v (registry_assign w job shard workers).0 ≡ true
unfolding registry_assign
registry_assign-grown w job shard workers v h = elim (Option-cases (lookup w workers)) [
  | inl absent ↦ rw (absent, registry_assign) h
  | inr (worker, found) ↦ rw (found, registry_assign) (contains-insert w v _ workers h)
]

-- From a service in which no pool exceeds its maximum and each worker mapped to a pool is in that
-- pool and in the registry, every call leads to such a service again.
pub apply_call-IsSound :
    (now : String) (call : ServiceCall) (s : Service) → IsSound s → IsSound (apply_call now call s)
unfolding apply_call
apply_call-IsSound now (create g options) s inv = create_pool-IsSound now g options s inv
apply_call-IsSound now (delete g force) s inv = delete_pool-IsSound g force s inv
apply_call-IsSound now (register i) s inv = register_worker-IsSound now i s inv
apply_call-IsSound now (unregister w) s inv = unregister-IsSound w s inv
apply_call-IsSound now (heartbeat w status) s inv =
    grown-IsSound s _ (update_heartbeat-grown now w status s.registry) inv
apply_call-IsSound now (occupy w job shard) s inv =
    grown-IsSound s _ (registry_assign-grown w job shard s.registry) inv
