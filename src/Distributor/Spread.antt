-- ===== src/Distributor/Spread.antt =====
-- Which batches the workers hold after the round robin and the load balanced strategy.
use mathlib.Core.List.{Perm}
use native.Mathlib.Nat.{mod-lt, zero-lt-suc}
use mesh_ml.Prelude.{
  ℕ, zero, suc, ◌+◌, ◌%◌, ◌<◌, ◌≡◌, refl, negsuc, String, Bool, true, eq_iff, Option, some, inl,
  inr, List, [], ◌∷◌, ◌++◌, map, length, get_elem?, sum, sorted, sum-sorted, All, count,
  String-discrete, perm_of_SameItems, count-append, arith, Option-cases,
}
use mesh_ml.Prelude.Dict.{Dict, lookup, insert, contains, lookup-insert}
use mesh_ml.Distributor.Assignments.{WorkerAssignment, BatchMetadata, fresh}
use mesh_ml.Distributor.Strategies.{
  start_all, with_batch, give, spread, in_rotation, assign_round_robin, least, least_from,
  assign_load_balanced, by_position, by_size,
}

-- All batches that the workers of `d` hold.
abbrev pub batches_of : Dict WorkerAssignment → List String
batches_of [] = []
batches_of ((w, a) ∷ d) = a.assigned_batches ++ batches_of d

abbrev pub samples_of : Dict WorkerAssignment → ℕ
samples_of d = sum (map (λ e. e.1.total_samples) d)

abbrev pub ids : List BatchMetadata → List String
ids bs = map (λ b. b.batch_id) bs

-- `d` holds the batches `bs`, each once, with all their samples.
pub record IsSpread (bs : List BatchMetadata) (d : Dict WorkerAssignment) : Type 0 where
  pub same_batches : Perm (batches_of d) (ids bs)
  pub same_samples : samples_of d ≡ sum (map (λ b. b.num_samples) bs)

abbrev times : String → List String → ℕ
times x xs = count String-discrete x xs

abbrev pub HasAll : List String → Dict WorkerAssignment → Type 0
HasAll ws d = All (λ w. contains w d ≡ true) ws

-- A measure summed over the workers.
abbrev measured : (WorkerAssignment → ℕ) → Dict WorkerAssignment → ℕ
measured f d = sum (map (λ e. f e.1) d)

measured-insert :
    (f : WorkerAssignment → ℕ) (w : String) (a new : WorkerAssignment) (d : Dict WorkerAssignment)
    → lookup w d ≡ some a
    → measured f (insert w new d) + f a ≡ measured f d + f new
unfolding lookup insert
measured-insert f w a new [] h = absurd (ground arith)
measured-insert f w a new ((v, b) ∷ d) h = ground (arith, measured-insert f w a new d)

times-batches_of :
    (x : String) (d : Dict WorkerAssignment)
    → times x (batches_of d) ≡ measured (λ a. times x a.assigned_batches) d
times-batches_of x [] = refl
times-batches_of x ((w, a) ∷ d) =
    omega (
      arith,
      count-append String-discrete x a.assigned_batches (batches_of d),
      times-batches_of x d,
    )

contains-insert :
    (w k : String) (a : WorkerAssignment) (d : Dict WorkerAssignment)
    → contains k d ≡ true
    → contains k (insert w a d) ≡ true
contains-insert w k a d h = ground (arith, lookup-insert w k a d)

contains-insert_self :
    (w : String) (a : WorkerAssignment) (d : Dict WorkerAssignment)
    → contains w (insert w a d) ≡ true
contains-insert_self w a d = ground (arith, lookup-insert w w a d, eq_iff w w)

-- What one loop did: the batches it added, the keys it kept.
record Added (bs : List BatchMetadata) (d d' : Dict WorkerAssignment) : Type 0 where
  more : (x : String) → times x (batches_of d') ≡ times x (batches_of d) + times x (ids bs)
  samples : samples_of d' ≡ samples_of d + sum (map (λ b. b.num_samples) bs)
  kept : (k : String) → contains k d ≡ true → contains k d' ≡ true

give-Added :
    (w : String) (b : BatchMetadata) (d : Dict WorkerAssignment)
    → contains w d ≡ true
    → (d' : Dict WorkerAssignment) × (give w b d ≡ some d') × Added (b ∷ []) d d'
unfolding give
give-Added w b d h = elim (Option-cases (lookup w d)) [
  | inl absent ↦ absurd (ground arith)
  | inr (a, found) ↦ (
    insert w (with_batch b a) d,
    rw (found, give) refl,
    record {
      more = λ x. omega (
        arith,
        measured-insert (λ c. times x c.assigned_batches) w a (with_batch b a) d found,
        times-batches_of x d,
        times-batches_of x (insert w (with_batch b a) d),
        count-append String-discrete x a.assigned_batches (b.batch_id ∷ []),
      );
      samples = omega (arith, measured-insert (λ c. c.total_samples) w a (with_batch b a) d found);
      kept = λ k. contains-insert w k (with_batch b a) d;
    },
  )
]

Added-trans :
    (b : BatchMetadata) (bs : List BatchMetadata) {d d' d'' : Dict WorkerAssignment}
    → Added (b ∷ []) d d'
    → Added bs d' d''
    → Added (b ∷ bs) d d''
Added-trans b bs p q = record {
  more = λ x. ground (arith, p.more x, q.more x);
  samples = omega (arith, p.samples, q.samples);
  kept = λ k h. q.kept k (p.kept k h);
}

HasAll-kept :
    (ws : List String) (d d' : Dict WorkerAssignment)
    → ((k : String) → contains k d ≡ true → contains k d' ≡ true)
    → HasAll ws d
    → HasAll ws d'
HasAll-kept [] d d' kept all = tt
HasAll-kept (w ∷ ws) d d' kept (has, rest) = (kept w has, HasAll-kept ws d d' kept rest)

-- A `pick` that finds a worker with an entry whenever all workers have one.
abbrev Picks : List String → (ℕ → Dict WorkerAssignment → Option String) → Type 0
Picks ws pick =
    (i : ℕ) (d : Dict WorkerAssignment)
    → HasAll ws d
    → (w : String) × (pick i d ≡ some w) × (contains w d ≡ true)

module _ (ws : List String) (pick : ℕ → Dict WorkerAssignment → Option String)
    (picks : Picks ws pick) where
  spread-Added :
      (i : ℕ) (bs : List BatchMetadata) (d : Dict WorkerAssignment)
      → HasAll ws d
      → (d' : Dict WorkerAssignment) × (spread pick i bs d ≡ some d') × Added bs d d'
  unfolding spread
  spread-Added i [] d all =
      (d, refl, record { more = λ x. omega arith; samples = omega arith; kept = λ k h. h })
  spread-Added i (b ∷ bs) d all =
      let (w, e, has) = picks i d all in
      let (d', e', added) = give-Added w b d has in
      let (d'', e'', rest) = spread-Added (suc i) bs d' (HasAll-kept ws d d' added.kept all) in
      (d'', rw (e, e', spread) e'', Added-trans b bs added rest)

-- The entries that the comprehension makes: one for each worker, all of them empty.
start_all-kept :
    (now : String) (ws : List String) (d : Dict WorkerAssignment) (k : String)
    → contains k d ≡ true
    → contains k (start_all now ws d) ≡ true
unfolding start_all
start_all-kept now [] d k h = h
start_all-kept now (w ∷ ws) d k h =
    start_all-kept now ws _ k (contains-insert w k (fresh now w (negsuc 0)) d h)

pub start_all-HasAll :
    (now : String) (ws : List String) (d : Dict WorkerAssignment) → HasAll ws (start_all now ws d)
unfolding start_all
start_all-HasAll now [] d = tt
start_all-HasAll now (w ∷ ws) d = (
  start_all-kept now ws _ w (contains-insert_self w (fresh now w (negsuc 0)) d),
  start_all-HasAll now ws _,
)

measured-insert_zero :
    (f : WorkerAssignment → ℕ) (w : String) (a : WorkerAssignment) (d : Dict WorkerAssignment)
    → f a ≡ 0
    → measured f d ≡ 0
    → measured f (insert w a d) ≡ 0
unfolding insert
measured-insert_zero f w a [] h z = omega arith
measured-insert_zero f w a ((v, b) ∷ d) h z = ground (arith, measured-insert_zero f w a d)

measured-start_all :
    (f : WorkerAssignment → ℕ)
    → ((now w : String) → f (fresh now w (negsuc 0)) ≡ 0)
    → (now : String) (ws : List String) (d : Dict WorkerAssignment) → measured f d ≡ 0
    → measured f (start_all now ws d) ≡ 0
unfolding start_all
measured-start_all f zeros now [] d z = z
measured-start_all f zeros now (w ∷ ws) d z =
    measured-start_all f zeros now ws _
      (measured-insert_zero f w (fresh now w (negsuc 0)) d (zeros now w) z)

times-ids :
    (x : String) (bs : List BatchMetadata)
    → times x (ids bs) ≡ sum (map (λ b. times x (b.batch_id ∷ [])) bs)
times-ids x [] = refl
times-ids x (b ∷ bs) = ground (arith, times-ids x bs)

-- The whole strategy: new entries, sorted batches, the loop.
spread-IsSpread :
    (now : String) (ws : List String) (pick : ℕ → Dict WorkerAssignment → Option String)
    → Picks ws pick
    → (before : BatchMetadata → BatchMetadata → Bool) (bs : List BatchMetadata)
    → (d : Dict WorkerAssignment) × (spread pick 0 (sorted before bs) (start_all now ws [])
        ≡ some d)
      × IsSpread bs d
spread-IsSpread now ws pick picks before bs =
    let (d, e, added) =
      spread-Added ws pick picks 0 (sorted before bs) (start_all now ws [])
        (start_all-HasAll now ws []) in
    (
      d,
      e,
      record {
        same_batches = perm_of_SameItems String-discrete (batches_of d) (ids bs) λ x. omega (
          arith,
          added.more x,
          times-batches_of x (start_all now ws []),
          measured-start_all (λ a. times x a.assigned_batches) (λ _ _. refl) now ws [] refl,
          times-ids x (sorted before bs),
          times-ids x bs,
          sum-sorted before (λ b. times x (b.batch_id ∷ [])) bs,
        );
        same_samples = omega (
          arith,
          added.samples,
          measured-start_all (λ a. a.total_samples) (λ _ _. refl) now ws [] refl,
          sum-sorted before (λ b. b.num_samples) bs,
        );
      },
    )

get_elem?-contains :
    (ws : List String) (d : Dict WorkerAssignment) (i : ℕ)
    → HasAll ws d
    → i < length ws
    → (w : String) × (get_elem? ws i ≡ some w) × (contains w d ≡ true)
get_elem?-contains [] d i all h = elim h [ ]
get_elem?-contains (w ∷ ws) d zero (has, all) h = (w, refl, has)
get_elem?-contains (w ∷ ws) d (suc i) (has, all) h = get_elem?-contains ws d i all (omega arith)

in_rotation-Picks : (w : String) (ws : List String) → Picks (w ∷ ws) (in_rotation (w ∷ ws))
unfolding in_rotation
in_rotation-Picks w ws i d all =
    get_elem?-contains (w ∷ ws) d (i % length (w ∷ ws)) all (mod-lt i (zero-lt-suc (length ws)))

least_from-contains :
    (d : Dict WorkerAssignment) (m : String) (ws : List String)
    → contains m d ≡ true
    → HasAll ws d
    → contains (least_from d m ws) d ≡ true
unfolding least_from
least_from-contains d m [] h all = h
least_from-contains d m (w ∷ ws) h (has, all) =
    ground (arith, least_from-contains d m ws h all, least_from-contains d w ws has all)

least-Picks : (w : String) (ws : List String) → Picks (w ∷ ws) (least (w ∷ ws))
unfolding least
least-Picks w ws i d (has, all) = (least_from d w ws, refl, least_from-contains d w ws has all)

-- With at least one worker, round robin assignment returns, and its workers together hold each of
-- the batches as often as the list has it, with all their samples.
pub assign_round_robin-IsSpread :
    (now w : String) (ws : List String) (bs : List BatchMetadata)
    → (d : Dict WorkerAssignment) × (assign_round_robin now (w ∷ ws) bs ≡ some d) × IsSpread bs d
unfolding assign_round_robin
assign_round_robin-IsSpread now w ws bs =
    spread-IsSpread now (w ∷ ws) (in_rotation (w ∷ ws)) (in_rotation-Picks w ws) by_position bs

-- With at least one worker, load balanced assignment returns, and its workers together hold each of
-- the batches as often as the list has it, with all their samples.
pub assign_load_balanced-IsSpread :
    (now w : String) (ws : List String) (bs : List BatchMetadata)
    → (d : Dict WorkerAssignment) × (assign_load_balanced now (w ∷ ws) bs ≡ some d) × IsSpread bs d
unfolding assign_load_balanced
assign_load_balanced-IsSpread now w ws bs =
    spread-IsSpread now (w ∷ ws) (least (w ∷ ws)) (least-Picks w ws) by_size bs
