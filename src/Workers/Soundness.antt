-- ===== src/Workers/Soundness.antt =====
-- What it means that pools, mapping and registry agree, and the steps that keep it.
use mesh_ml.Prelude.{
  ◌+◌, ◌≤◌, ◌≡◌, refl, String, Bool, true, false, not, ◌&&◌, none, some, inl, inr, List, [], ◌∷◌,
  ◌++◌, ltb, ◌=ˢ◌, eq_iff, if◌then◌else◌, elem, length, length-append, arith, Option-cases,
  Bool-cases,
}
use mesh_ml.Prelude.Dict.{Dict, lookup, insert, erase, contains, lookup-insert, lookup-erase}
use mesh_ml.Workers.Registry.{RegistryWorker, Registry}
use mesh_ml.Workers.Membership.{
  WorkerPool, Service, PoolOptions, add, discard, is_at_capacity, new_pool, create_pool, forget_all,
  delete_pool, with_worker,
}

-- No pool holds more workers than its maximum; a worker that is mapped to a pool is in that pool,
-- which exists, and in the registry.
pub record IsSound (s : Service) : Type 0 where
  pub capacity :
      (g : String) (pool : WorkerPool)
      → lookup g s.pools ≡ some pool
      → length pool.worker_ids ≤ pool.max_workers
  pub member :
      (w g : String)
      → lookup w s.worker_to_pool ≡ some g
      → (pool : WorkerPool) × (lookup g s.pools ≡ some pool) × (elem w pool.worker_ids ≡ true)
  pub known : (w g : String) → lookup w s.worker_to_pool ≡ some g → contains w s.registry ≡ true

pub elem-append_self : (x : String) (xs : List String) → elem x (xs ++ x ∷ []) ≡ true
elem-append_self x [] = ground (arith, eq_iff x x)
elem-append_self x (y ∷ xs) = ground (arith, elem-append_self x xs)

pub elem-append :
    (w x : String) (xs : List String) → elem w xs ≡ true → elem w (xs ++ x ∷ []) ≡ true
elem-append w x [] h = absurd (ground arith)
elem-append w x (y ∷ xs) h = ground (arith, elem-append w x xs)

pub elem-add_self : (x : String) (xs : List String) → elem x (add x xs) ≡ true
elem-add_self x xs = ground (arith, elem-append_self x xs)

pub elem-add : (w x : String) (xs : List String) → elem w xs ≡ true → elem w (add x xs) ≡ true
elem-add w x xs h = ground (arith, elem-append w x xs h)

pub length-add : (x : String) (xs : List String) → length (add x xs) ≤ length xs + 1
length-add x xs = ground (arith, length-append xs (x ∷ []))

pub length-discard : (x : String) (xs : List String) → length (discard x xs) ≤ length xs
unfolding discard
length-discard x [] = omega arith
length-discard x (y ∷ xs) = ground (arith, length-discard x xs)

pub elem-discard :
    (w x : String) (xs : List String)
    → (x =ˢ w) ≡ false
    → elem w xs ≡ true
    → elem w (discard x xs) ≡ true
unfolding discard
elem-discard w x [] other h = h
elem-discard w x (y ∷ xs) other h =
    ground (arith, eq_iff y x, eq_iff y w, elem-discard w x xs other)

pub lookup-forget_all :
    (ws : List String) (m : Dict String) (w : String)
    → lookup w (forget_all ws m) ≡ (if elem w ws then none else lookup w m)
unfolding forget_all
lookup-forget_all [] m w = refl
lookup-forget_all (v ∷ ws) m w =
    ground (arith, lookup-forget_all ws (erase v m) w, lookup-erase v w m)

pub contains-insert :
    (k j : String) (w : RegistryWorker) (d : Registry)
    → contains j d ≡ true
    → contains j (insert k w d) ≡ true
contains-insert k j w d h = ground (arith, lookup-insert k j w d)

-- A registry that only grew.
pub grown-IsSound :
    (s : Service) (workers : Registry)
    → ((w : String) → contains w s.registry ≡ true → contains w workers ≡ true)
    → IsSound s
    → IsSound (record s { registry = workers })
grown-IsSound s workers grown inv = record {
  capacity = inv.capacity;
  member = inv.member;
  known = λ w g h. grown w (inv.known w g h);
}

pub create_pool-IsSound :
    (now g : String) (options : PoolOptions) (s : Service)
    → IsSound s
    → IsSound (create_pool now g options s).0
unfolding create_pool new_pool
create_pool-IsSound now g options s inv = elim (Option-cases (lookup g s.pools)) [
  | inl absent ↦
      rw (absent, create_pool)
        (record {
          capacity = λ h pool e.
              ground
                (arith, lookup-insert g h (new_pool now g options) s.pools, inv.capacity h pool);
          member = λ w h e.
              let (pool, found, has) = inv.member w h e in
              (
                pool,
                ground (arith, eq_iff g h, lookup-insert g h (new_pool now g options) s.pools),
                has,
              );
          known = inv.known;
        })
  | inr (pool, found) ↦ rw (found, create_pool) inv
]

pub delete_pool-IsSound :
    (g : String) (force : Bool) (s : Service) → IsSound s → IsSound (delete_pool g force s).0
unfolding delete_pool
delete_pool-IsSound g force s inv = elim (Option-cases (lookup g s.pools)) [
  | inl absent ↦ rw (absent, delete_pool) inv
  | inr (pool, found) ↦ elim (Bool-cases (ltb 0 (length pool.worker_ids) && not force)) [
    | inl kept ↦ rw (found, delete_pool, kept) inv
    | inr deleted ↦
        rw (found, delete_pool, deleted)
          (record {
            capacity = λ h other e. ground (arith, lookup-erase g h s.pools, inv.capacity h other);
            member = λ w h e.
                let (other, at, has) =
                  inv.member w h
                    (ground (arith, lookup-forget_all pool.worker_ids s.worker_to_pool w)) in
                (
                  other,
                  ground (
                    arith,
                    eq_iff g h,
                    lookup-erase g h s.pools,
                    lookup-forget_all pool.worker_ids s.worker_to_pool w,
                  ),
                  has,
                );
            known = λ w h e.
                ground (arith, lookup-forget_all pool.worker_ids s.worker_to_pool w, inv.known w h);
          })
  ]
]

-- One more worker in a pool that is not full.
pub join-IsSound :
    (g : String) (pool : WorkerPool) (id : String) (worker : RegistryWorker) (s : Service)
    → lookup g s.pools ≡ some pool
    → is_at_capacity pool ≡ false
    → IsSound s
    → IsSound (record s {
      registry = insert id worker s.registry;
      pools = insert g (with_worker id pool) s.pools;
      worker_to_pool = insert id g s.worker_to_pool;
    })
unfolding is_at_capacity
join-IsSound g pool id worker s found room inv = record {
  capacity = λ h other e. ground (
    arith,
    eq_iff g h,
    lookup-insert g h (with_worker id pool) s.pools,
    inv.capacity h other,
    length-add id pool.worker_ids,
  );
  member = λ w h e. elim (Bool-cases (id =ˢ w)) [
    | inl mine ↦ (
      with_worker id pool,
      ground (
        arith,
        eq_iff g h,
        lookup-insert id w g s.worker_to_pool,
        lookup-insert g h (with_worker id pool) s.pools,
      ),
      ground (arith, eq_iff id w, elem-add_self id pool.worker_ids),
    )
    | inr others ↦
        let (old, at, has) =
          inv.member w h (ground (arith, lookup-insert id w g s.worker_to_pool)) in
        elim (Bool-cases (g =ˢ h)) [
          | inl same ↦ (
            with_worker id pool,
            ground (arith, lookup-insert g h (with_worker id pool) s.pools),
            elem-add w id pool.worker_ids (ground (arith, eq_iff g h)),
          )
          | inr differ ↦ (old, ground (arith, lookup-insert g h (with_worker id pool) s.pools), has)
        ]
  ];
  known = λ w h e. ground (
    arith,
    eq_iff id w,
    lookup-insert id w worker s.registry,
    lookup-insert id w g s.worker_to_pool,
    inv.known w h,
  );
}
