-- ===== src/Distributor/Registering.antt =====
-- The registration of the batches that a strategy hands out.
use mesh_ml.Prelude.{
  ℕ, ◌<◌, ◌≡◌, refl, sym, subst, String, true, eq_iff, Option, some, ◌⊎◌, inl, inr, List, [], ◌∷◌,
  ◌++◌, is_some, All, count, count-append, String-discrete, SameItems-of_perm, arith, Option-cases,
}
use mesh_ml.Prelude.Dict.{Dict, insert, contains, lookup-insert}
use mesh_ml.Distributor.Assignments.{
  WorkerAssignment, BatchMetadata, DistributionStrategy, DataDistributor, id_of, pending_assignment,
}
use mesh_ml.Distributor.Strategies.{
  find, register_batches, register_all, Outcome, registered, dispatch, assign_batches_to_workers,
  assign_round_robin, assign_load_balanced,
}
use mesh_ml.Distributor.Spread.{
  ids, batches_of, IsSpread, assign_round_robin-IsSpread, assign_load_balanced-IsSpread,
}

abbrev times : String → List String → ℕ
times x xs = count String-discrete x xs

-- The id is that of one of the batches.
abbrev IsListed : List BatchMetadata → String → Type 0
IsListed batches id = is_some (find id batches) ≡ true

find-IsListed :
    (batches : List BatchMetadata) (id : String) → 0 < times id (ids batches) → IsListed batches id
unfolding find
find-IsListed [] id h = elim h [ ]
find-IsListed (b ∷ bs) id h = ground (arith, eq_iff b.batch_id id, find-IsListed bs id)

All-of_times :
    (P : String → Type 0) (xs : List String) → ((x : String) → 0 < times x xs → P x) → All P xs
All-of_times P [] h = tt
All-of_times P (x ∷ xs) h = (h x (ground arith), All-of_times P xs λ y hy. h y (ground arith))

All-split : (P : String → Type 0) (xs ys : List String) → All P (xs ++ ys) → All P xs × All P ys
All-split P [] ys h = (tt, h)
All-split P (x ∷ xs) ys (p, h) = let (q, r) = All-split P xs ys h in ((p, q), r)

-- Registration finds the batches, keeps what was on record, and adds the new ids.
register_batches-total :
    (now : String) (batches : List BatchMetadata) (w : String) (xs : List String)
    (s : DataDistributor)
    → All (IsListed batches) xs
    → (s' : DataDistributor) × (register_batches now batches w xs s ≡ some s')
      × ((k : String) → contains k s.batch_to_worker ≡ true → contains k s'.batch_to_worker ≡ true)
      × ((k : String) → 0 < times k xs → contains k s'.batch_to_worker ≡ true)
unfolding register_batches
register_batches-total now batches w [] s all = (s, refl, (λ k h. h), λ k h. elim h [ ])
register_batches-total now batches w (id ∷ xs) s (has, all) =
    elim (Option-cases (find id batches)) [
      | inl absent ↦ absurd (ground arith)
      | inr (meta, found) ↦
          let next : DataDistributor = record s {
            assignments =
                insert (id_of w id) (pending_assignment now w id meta.shard_id meta.batch_index 0)
                  s.assignments;
            batch_to_worker = insert id w s.batch_to_worker;
          } in
          let (s', e, kept, new) = register_batches-total now batches w xs next all in
          (
            s',
            rw (found, register_batches) e,
            (λ k h. kept k (ground (arith, lookup-insert id k w s.batch_to_worker))),
            λ k h.
                ground (arith, eq_iff id k, lookup-insert id k w s.batch_to_worker, kept k, new k),
          )
    ]

register_all-total :
    (now : String) (batches : List BatchMetadata) (d : Dict WorkerAssignment) (s : DataDistributor)
    → All (IsListed batches) (batches_of d)
    → (s' : DataDistributor) × (register_all now batches d s ≡ some s')
      × ((k : String) → contains k s.batch_to_worker ≡ true → contains k s'.batch_to_worker ≡ true)
      × ((k : String) → 0 < times k (batches_of d) → contains k s'.batch_to_worker ≡ true)
unfolding register_all
register_all-total now batches [] s all = (s, refl, (λ k h. h), λ k h. elim h [ ])
register_all-total now batches ((w, a) ∷ d) s all =
    let (mine, others) = All-split (IsListed batches) a.assigned_batches (batches_of d) all in
    let (mid, e, kept, new) = register_batches-total now batches w a.assigned_batches s mine in
    let (s', e', kept', new') =
      register_all-total now batches d
        (record mid { worker_assignments = insert w a mid.worker_assignments }) others in
    (
      s',
      rw (e, register_all) e',
      (λ k h. kept' k (kept k h)),
      λ k h. ground (
        arith,
        count-append String-discrete k a.assigned_batches (batches_of d),
        kept' k,
        new k,
        new' k,
      ),
    )

-- The call's result: the workers hold each batch once, and each batch is on record.
abbrev pub IsAssigned :
    String → List String → List BatchMetadata → DataDistributor → Outcome → Type 0
IsAssigned now ws bs s result =
    (d : Dict WorkerAssignment) × (s' : DataDistributor) × (result ≡ Outcome.assigned d s')
    × IsSpread bs d
    × ((id : String)
        → 0 < count String-discrete id (ids bs)
        → contains id s'.batch_to_worker ≡ true)

registered-IsAssigned :
    (now : String) (ws : List String) (bs : List BatchMetadata) (s : DataDistributor)
    (o : Option (Dict WorkerAssignment)) (d : Dict WorkerAssignment)
    → o ≡ some d
    → IsSpread bs d
    → IsAssigned now ws bs s (registered now bs s o)
unfolding registered
registered-IsAssigned now ws bs s o d e h =
    let same = SameItems-of_perm String-discrete (batches_of d) (ids bs) h.same_batches in
    let (s', went, kept, new) = register_all-total now bs d s (
      All-of_times (IsListed bs) (batches_of d)
        λ x hx. find-IsListed bs x (ground (arith, same x))) in
    (d, s', rw (e, registered, went) refl, h, λ id hid. new id (ground (arith, same id)))

-- A distributor with the round robin or the load balanced strategy, at least one worker and at least
-- one batch: the call returns, its workers together hold each batch as often as the list has it,
-- with all their samples, and each batch is on record with a worker.
pub assign_batches_to_workers-IsAssigned :
    (now w : String) (ws : List String) (b : BatchMetadata) (bs : List BatchMetadata)
    (s : DataDistributor)
    → (s.strategy ≡ DistributionStrategy.round_robin)
      ⊎ (s.strategy ≡ DistributionStrategy.load_balanced)
    → IsAssigned now (w ∷ ws) (b ∷ bs) s (assign_batches_to_workers now (w ∷ ws) (b ∷ bs) s)
unfolding assign_batches_to_workers dispatch
assign_batches_to_workers-IsAssigned now w ws b bs s (inl e) =
    let (d, e', h) = assign_round_robin-IsSpread now w ws (b ∷ bs) in
    subst (λ st. IsAssigned now (w ∷ ws) (b ∷ bs) s (dispatch now st (w ∷ ws) (b ∷ bs) s)) (sym e)
      (registered-IsAssigned now (w ∷ ws) (b ∷ bs) s (assign_round_robin now (w ∷ ws) (b ∷ bs)) d e'
        h)
assign_batches_to_workers-IsAssigned now w ws b bs s (inr e) =
    let (d, e', h) = assign_load_balanced-IsSpread now w ws (b ∷ bs) in
    subst (λ st. IsAssigned now (w ∷ ws) (b ∷ bs) s (dispatch now st (w ∷ ws) (b ∷ bs) s)) (sym e)
      (registered-IsAssigned now (w ∷ ws) (b ∷ bs) s (assign_load_balanced now (w ∷ ws) (b ∷ bs)) d
        e' h)
