-- ===== src/Distributor/Balance.antt =====
-- How the load balanced strategy spreads the samples.
use mesh_ml.Prelude.{
  ℕ, suc, ◌+◌, ◌≤◌, ◌≡◌, refl, String, true, ◌=ˢ◌, eq_iff, some, inl, inr, List, [], ◌∷◌,
  if◌then◌else◌, elem, sorted, All, All-sorted, arith, Option-cases, negsuc,
}
use mesh_ml.Prelude.Dict.{Dict, lookup, insert, lookup-insert}
use mesh_ml.Distributor.Assignments.{WorkerAssignment, BatchMetadata, fresh}
use mesh_ml.Distributor.Strategies.{
  start_all, with_batch, give, spread, least, least_from, load, assign_load_balanced, by_size,
}
use mesh_ml.Distributor.Spread.{assign_load_balanced-IsSpread}

-- The samples of any two of the workers differ by at most `bound`.
abbrev pub IsEven : ℕ → List String → Dict WorkerAssignment → Type 0
IsEven bound ws d =
    (w v : String) → elem w ws ≡ true → elem v ws ≡ true → load d w ≤ load d v + bound

load-insert :
    (w k : String) (a : WorkerAssignment) (d : Dict WorkerAssignment)
    → load (insert w a d) k ≡ (if w =ˢ k then a.total_samples else load d k)
unfolding load
load-insert w k a d = ground (arith, lookup-insert w k a d)

least_from-le_start :
    (d : Dict WorkerAssignment) (m : String) (ws : List String)
    → load d (least_from d m ws) ≤ load d m
unfolding least_from
least_from-le_start d m [] = omega arith
least_from-le_start d m (w ∷ ws) =
    ground (arith, least_from-le_start d m ws, least_from-le_start d w ws)

least_from-le :
    (d : Dict WorkerAssignment) (m : String) (ws : List String) (v : String)
    → elem v ws ≡ true
    → load d (least_from d m ws) ≤ load d v
unfolding least_from
least_from-le d m [] v h = absurd (ground arith)
least_from-le d m (w ∷ ws) v h = ground (
  arith,
  eq_iff w v,
  least_from-le_start d m ws,
  least_from-le_start d w ws,
  least_from-le d m ws v,
  least_from-le d w ws v,
)

least_from-IsLeast :
    (d : Dict WorkerAssignment) (m : String) (ws : List String) (v : String)
    → elem v (m ∷ ws) ≡ true
    → load d (least_from d m ws) ≤ load d v
least_from-IsLeast d m ws v h =
    ground (arith, eq_iff m v, least_from-le_start d m ws, least_from-le d m ws v)

-- What one batch adds to the loads.
load-give :
    (w : String) (b : BatchMetadata) (d d' : Dict WorkerAssignment)
    → give w b d ≡ some d'
    → (k : String) → load d' k ≡ (if w =ˢ k then load d k + b.num_samples else load d k)
unfolding give load
load-give w b d d' e k = elim (Option-cases (lookup w d)) [
  | inl absent ↦ absurd (ground arith)
  | inr (a, found) ↦ ground (arith, eq_iff w k, lookup-insert w k (with_batch b a) d)
]

-- A batch of at most `bound` samples for a worker with the fewest.
give-IsEven :
    (bound : ℕ) (m : String) (ws : List String) (b : BatchMetadata) (d d' : Dict WorkerAssignment)
    → b.num_samples ≤ bound
    → give (least_from d m ws) b d ≡ some d'
    → IsEven bound (m ∷ ws) d
    → IsEven bound (m ∷ ws) d'
unfolding give
give-IsEven bound m ws b d d' small e even w v hw hv = ground (
  arith,
  load-give (least_from d m ws) b d d' e w,
  load-give (least_from d m ws) b d d' e v,
  eq_iff (least_from d m ws) w,
  least_from-IsLeast d m ws v hv,
  even w v hw hv,
  even v v hv hv,
)

spread-IsEven :
    (bound : ℕ) (m : String) (ws : List String) (i : ℕ) (bs : List BatchMetadata)
    (d d' : Dict WorkerAssignment)
    → All (λ b. b.num_samples ≤ bound) bs
    → spread (least (m ∷ ws)) i bs d ≡ some d'
    → IsEven bound (m ∷ ws) d
    → IsEven bound (m ∷ ws) d'
unfolding spread least
spread-IsEven bound m ws i [] d d' small e even = λ w v hw hv. ground (arith, even w v hw hv)
spread-IsEven bound m ws i (b ∷ bs) d d' (small, all) e even =
    elim (Option-cases (give (least_from d m ws) b d)) [
      | inl absent ↦ absurd (ground arith)
      | inr (mid, found) ↦
          spread-IsEven bound m ws (suc i) bs mid d' all (ground arith)
            (give-IsEven bound m ws b d mid small found even)
    ]

start_all-load :
    (now : String) (ws : List String) (d : Dict WorkerAssignment)
    → ((k : String) → load d k ≡ 0)
    → (k : String) → load (start_all now ws d) k ≡ 0
unfolding start_all
start_all-load now [] d zeros k = zeros k
start_all-load now (w ∷ ws) d zeros k =
    start_all-load now ws _
      (λ j. ground (arith, load-insert w j (fresh now w (negsuc 0)) d, zeros j)) k

-- With at least one worker, and batches of at most `bound` samples each, load balanced assignment
-- returns, and then the samples of any two workers differ by at most `bound`.
pub assign_load_balanced-IsEven :
    (now w : String) (ws : List String) (bs : List BatchMetadata) (bound : ℕ)
    → All (λ b. b.num_samples ≤ bound) bs
    → (d : Dict WorkerAssignment) × (assign_load_balanced now (w ∷ ws) bs ≡ some d)
      × IsEven bound (w ∷ ws) d
unfolding assign_load_balanced load lookup
assign_load_balanced-IsEven now w ws bs bound small =
    let (d, e, spreads) = assign_load_balanced-IsSpread now w ws bs in
    let zeros = start_all-load now (w ∷ ws) [] (λ k. refl) in
    (
      d,
      e,
      spread-IsEven bound w ws 0 (sorted by_size bs) (start_all now (w ∷ ws) []) d
          (All-sorted by_size (λ b. b.num_samples ≤ bound) bs small) e
          λ x y hx hy. omega (arith, zeros x, zeros y),
    )
