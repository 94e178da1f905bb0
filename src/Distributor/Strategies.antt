-- ===== src/Distributor/Strategies.antt =====
-- How `DataDistributor` spreads batches over workers. `none` stands for an exception that the code
-- does not mean to raise: a missing key, an index out of range, `next` of nothing.
use mesh_ml.Prelude.{
  ℕ, suc, ◌+◌, ◌%◌, pos, negsuc, String, Bool, ◌&&◌, ◌||◌, Option, none, some, List, [], ◌∷◌, ◌++◌,
  map, ltb, ◌==◌, ◌=ˢ◌, if◌then◌else◌, length, get_elem?, sum, sorted,
}
use mesh_ml.Prelude.Dict.{Dict, lookup, insert}
use mesh_ml.Distributor.Assignments.{
  WorkerAssignment, BatchMetadata, DistributionStrategy, DataDistributor, id_of, fresh,
  pending_assignment,
}

-- `{worker_id: WorkerAssignment(worker_id=worker_id, shard_id=-1) for worker_id in worker_ids}`, after
-- the entries that are there.
unfoldable pub start_all : String → List String → Dict WorkerAssignment → Dict WorkerAssignment
start_all now [] d = d
start_all now (w ∷ ws) d = start_all now ws (insert w (fresh now w (negsuc 0)) d)

-- `.assigned_batches.append(batch.batch_id)`, `.total_samples += batch.num_samples`
abbrev pub with_batch : BatchMetadata → WorkerAssignment → WorkerAssignment
with_batch batch a = record a {
  assigned_batches = a.assigned_batches ++ batch.batch_id ∷ [];
  total_samples = a.total_samples + batch.num_samples;
}

-- `assignments[worker_id]` gets one more batch.
unfoldable pub give :
    String → BatchMetadata → Dict WorkerAssignment → Option (Dict WorkerAssignment)
give worker_id batch d = elim (lookup worker_id d) [
  | none ↦ none
  | some a ↦ some (insert worker_id (with_batch batch a) d)
]

-- The loop of the two strategies over the sorted batches; `pick` is the worker of batch `i`.
unfoldable pub spread :
    (ℕ → Dict WorkerAssignment → Option String)
    → ℕ
    → List BatchMetadata
    → Dict WorkerAssignment
    → Option (Dict WorkerAssignment)
unfolding give
spread pick i [] d = some d
spread pick i (b ∷ bs) d = elim (pick i d) [
  | none ↦ none
  | some w ↦ elim (give w b d) [ none ↦ none | some d' ↦ spread pick (suc i) bs d' ]
]

-- `lambda b: (b.shard_id, b.batch_index)`, compared
abbrev pub by_position : BatchMetadata → BatchMetadata → Bool
by_position a b =
    ltb a.shard_id b.shard_id || ((a.shard_id == b.shard_id) && ltb a.batch_index b.batch_index)

-- `worker_ids[i % len(worker_ids)]`; `%` by 0 raises.
unfoldable pub in_rotation : List String → ℕ → Dict WorkerAssignment → Option String
in_rotation [] i d = none
in_rotation (w ∷ ws) i d = get_elem? (w ∷ ws) (i % length (w ∷ ws))

unfoldable pub assign_round_robin :
    String → List String → List BatchMetadata → Option (Dict WorkerAssignment)
unfolding spread start_all in_rotation
assign_round_robin now worker_ids batches =
    spread (in_rotation worker_ids) 0 (sorted by_position batches) (start_all now worker_ids [])

-- `assignments[w].total_samples`; every worker of the list has an entry.
unfoldable pub load : Dict WorkerAssignment → String → ℕ
load d w = elim (lookup w d) [ none ↦ 0 | some a ↦ a.total_samples ]

unfoldable pub least_from : Dict WorkerAssignment → String → List String → String
least_from d m [] = m
least_from d m (w ∷ ws) =
    let moved = least_from d w ws in
    let same = least_from d m ws in if ltb (load d w) (load d m) then moved else same

-- `min(worker_ids, key=...)`: the first of the smallest. It raises on an empty list.
unfoldable pub least : List String → ℕ → Dict WorkerAssignment → Option String
unfolding least_from
least [] i d = none
least (w ∷ ws) i d = some (least_from d w ws)

-- `key=lambda b: b.num_samples, reverse=True`, compared
abbrev pub by_size : BatchMetadata → BatchMetadata → Bool
by_size a b = ltb b.num_samples a.num_samples

unfoldable pub assign_load_balanced :
    String → List String → List BatchMetadata → Option (Dict WorkerAssignment)
unfolding spread start_all least
assign_load_balanced now worker_ids batches =
    spread (least worker_ids) 0 (sorted by_size batches) (start_all now worker_ids [])

-- `shard_batches[shard_id].append(batch)` on the groups, in the order of their first batch
unfoldable pub append_batch :
    BatchMetadata → List (ℕ × List BatchMetadata) → List (ℕ × List BatchMetadata)
append_batch b [] = (b.shard_id, b ∷ []) ∷ []
append_batch b ((s, bs) ∷ groups) =
    let rest = append_batch b groups in
    if s == b.shard_id then (s, bs ++ b ∷ []) ∷ groups else (s, bs) ∷ rest

unfoldable pub group_batches :
    List BatchMetadata → List (ℕ × List BatchMetadata) → List (ℕ × List BatchMetadata)
unfolding append_batch
group_batches [] groups = groups
group_batches (b ∷ bs) groups = group_batches bs (append_batch b groups)

abbrev pub by_index : BatchMetadata → BatchMetadata → Bool
by_index a b = ltb a.batch_index b.batch_index

abbrev pub by_shard : ℕ × List BatchMetadata → ℕ × List BatchMetadata → Bool
by_shard g h = ltb g.0 h.0

-- The assignment of a whole shard, its batches sorted.
unfoldable pub whole_shard : String → String → ℕ → List BatchMetadata → WorkerAssignment
whole_shard now worker_id shard_id shard_batches =
    let listed = sorted by_index shard_batches in
    record (fresh now worker_id (pos shard_id)) {
      assigned_batches = map (λ b. b.batch_id) listed;
      total_samples = sum (map (λ b. b.num_samples) listed);
    }

-- `for i, worker_id in enumerate(worker_ids)`: one shard each, until the shards run out.
unfoldable pub deal :
    String
    → List String
    → List (ℕ × List BatchMetadata)
    → Dict WorkerAssignment
    → Dict WorkerAssignment
unfolding whole_shard
deal now [] groups d = d
deal now (w ∷ ws) [] d = d
deal now (w ∷ ws) ((s, bs) ∷ groups) d = deal now ws groups (insert w (whole_shard now w s bs) d)

unfoldable pub assign_shard_per_worker :
    String → List String → List BatchMetadata → Dict WorkerAssignment
unfolding deal group_batches
assign_shard_per_worker now worker_ids batches =
    deal now worker_ids (sorted by_shard (group_batches batches [])) []

-- `next(b for b in batches if b.batch_id == batch_id)`
unfoldable pub find : String → List BatchMetadata → Option BatchMetadata
find batch_id [] = none
find batch_id (b ∷ bs) =
    let rest = find batch_id bs in if b.batch_id =ˢ batch_id then some b else rest

-- The inner loop: a `BatchAssignment` for each batch of one worker.
unfoldable pub register_batches :
    String → List BatchMetadata → String → List String → DataDistributor → Option DataDistributor
unfolding find
register_batches now batches w [] s = some s
register_batches now batches w (id ∷ ids) s = elim (find id batches) [
  | none ↦ none
  | some meta ↦ register_batches now batches w ids (record s {
    assignments =
        insert (id_of w id) (pending_assignment now w id meta.shard_id meta.batch_index 0)
          s.assignments;
    batch_to_worker = insert id w s.batch_to_worker;
  })
]

-- The outer loop, over the workers.
unfoldable pub register_all :
    String → List BatchMetadata → Dict WorkerAssignment → DataDistributor → Option DataDistributor
unfolding register_batches
register_all now batches [] s = some s
register_all now batches ((w, a) ∷ rest) s =
    elim (register_batches now batches w a.assigned_batches s) [
      | none ↦ none
      | some s' ↦
          register_all now batches rest
            (record s' { worker_assignments = insert w a s'.worker_assignments })
    ]

pub data Outcome : Type 0 where
  assigned : Dict WorkerAssignment → DataDistributor → Outcome
  -- `ValueError`
  no_worker_ids unsupported_strategy : Outcome
  -- an exception that is not meant
  broken : Outcome

-- The dispatch on the strategy, and the registration of what it gives.
unfoldable pub registered :
    String → List BatchMetadata → DataDistributor → Option (Dict WorkerAssignment) → Outcome
unfolding register_all
registered now batches s none = Outcome.broken
registered now batches s (some d) = elim (register_all now batches d s) [
  | none ↦ Outcome.broken
  | some s' ↦ Outcome.assigned d s'
]

unfoldable pub dispatch :
    String → DistributionStrategy → List String → List BatchMetadata → DataDistributor → Outcome
unfolding registered assign_round_robin assign_load_balanced assign_shard_per_worker
dispatch now DistributionStrategy.round_robin ws batches s =
    registered now batches s (assign_round_robin now ws batches)
dispatch now DistributionStrategy.load_balanced ws batches s =
    registered now batches s (assign_load_balanced now ws batches)
dispatch now DistributionStrategy.shard_per_worker ws batches s =
    registered now batches s (some (assign_shard_per_worker now ws batches))
dispatch now DistributionStrategy.locality_aware ws batches s = Outcome.unsupported_strategy

-- `batches` is what the batch manager lists for the call's shard.
unfoldable pub assign_batches_to_workers :
    String → List String → List BatchMetadata → DataDistributor → Outcome
unfolding dispatch
assign_batches_to_workers now worker_ids [] s = Outcome.assigned [] s
assign_batches_to_workers now [] (b ∷ bs) s = Outcome.no_worker_ids
assign_batches_to_workers now (w ∷ ws) (b ∷ bs) s = dispatch now s.strategy (w ∷ ws) (b ∷ bs) s
