-- ===== src/Workers/Matching.antt =====
-- Which worker is matched with a job.
use mesh_ml.Prelude.{
  ℕ, ◌≤◌, ◌≡◌, ◌⊎◌, refl, sym, subst, String, Bool, true, false, Option, some, inl, inr, List, [],
  ◌∷◌, filter_by, sorted, place, place_later, place_here, All, All-place, All-unsorted, arith,
  Option-cases, Bool-cases,
}
use mesh_ml.Prelude.Dict.{values}
use mesh_ml.Redis.{Redis}
use mesh_ml.JobQueue.{JobInfo, JobRequirements, Db, get_job}
use mesh_ml.Workers.Registry.{
  RegistryWorker, get_compute_score, named, in_group, of_group, list_workers,
}
use mesh_ml.Workers.Membership.{Service}
use mesh_ml.Workers.Discovery.{
  is_available, discover_workers, get_available_workers, meets, by_score, first, best_worker,
  group_for, match_worker_to_job,
}

-- `w` is in the list.
abbrev pub In : RegistryWorker → List RegistryWorker → Type 0
In w [] = ⊥
In w (x ∷ xs) = (w ≡ x) ⊎ In w xs

abbrev pub score_of : RegistryWorker → ℕ
score_of w = get_compute_score w.capabilities

filter_keep :
    (p : RegistryWorker → Bool) (x : RegistryWorker) (xs : List RegistryWorker)
    → p x ≡ true
    → filter_by p (x ∷ xs) ≡ x ∷ filter_by p xs
filter_keep p x xs h = rw h

filter_drop :
    (p : RegistryWorker → Bool) (x : RegistryWorker) (xs : List RegistryWorker)
    → p x ≡ false
    → filter_by p (x ∷ xs) ≡ filter_by p xs
filter_drop p x xs h = rw h

In-filter_by :
    (p : RegistryWorker → Bool) (w : RegistryWorker) (xs : List RegistryWorker)
    → In w (filter_by p xs)
    → In w xs × (p w ≡ true)
In-filter_by p w [] h = elim h [ ]
In-filter_by p w (x ∷ xs) h = elim (Bool-cases (p x)) [
  | inl passes ↦ elim (subst (In w) (filter_keep p x xs passes) h) [
    | inl same ↦ (inl same, subst (λ v. p v ≡ true) (sym same) passes)
    | inr later ↦ let (at, holds) = In-filter_by p w xs later in (inr at, holds)
  ]
  | inr fails ↦
      let (at, holds) = In-filter_by p w xs (subst (In w) (filter_drop p x xs fails) h) in
      (inr at, holds)
]

In-place :
    (w x : RegistryWorker) (xs : List RegistryWorker)
    → In w (place by_score x xs)
    → (w ≡ x) ⊎ In w xs
unfolding place
In-place w x [] h = h
In-place w x (y ∷ ys) h = elim (Bool-cases (by_score y x)) [
  | inl later ↦ elim (subst (In w) (place_later by_score x y ys later) h) [
    | inl same ↦ inr (inl same)
    | inr rest ↦ elim (In-place w x ys rest) [ inl mine ↦ inl mine | inr at ↦ inr (inr at) ]
  ]
  | inr here ↦ subst (In w) (place_here by_score x y ys here) h
]

In-sorted : (w : RegistryWorker) (xs : List RegistryWorker) → In w (sorted by_score xs) → In w xs
unfolding sorted
In-sorted w [] h = h
In-sorted w (x ∷ xs) h = elim (In-place w x (sorted by_score xs) h) [
  | inl mine ↦ inl mine
  | inr rest ↦ inr (In-sorted w xs rest)
]

All-le :
    (a b : ℕ) (xs : List RegistryWorker)
    → a ≤ b
    → All (λ v. score_of v ≤ a) xs
    → All (λ v. score_of v ≤ b) xs
All-le a b [] h all = tt
All-le a b (x ∷ xs) h (p, all) = (omega arith, All-le a b xs h all)

-- The first of the list has the highest score.
abbrev HeadIsBest : List RegistryWorker → Type 0
HeadIsBest [] = Unit
HeadIsBest (w ∷ ws) = All (λ v. score_of v ≤ score_of w) (w ∷ ws)

place-HeadIsBest :
    (x : RegistryWorker) (xs : List RegistryWorker)
    → HeadIsBest xs
    → HeadIsBest (place by_score x xs)
unfolding place
place-HeadIsBest x [] best = (omega arith, tt)
place-HeadIsBest x (y ∷ ys) (own, best) = elim (Bool-cases (by_score y x)) [
  | inl later ↦
      subst HeadIsBest (sym (place_later by_score x y ys later))
        (own, All-place by_score (λ v. score_of v ≤ score_of y) x ys (ground arith) best)
  | inr here ↦
      let le : score_of y ≤ score_of x = ground arith in
      subst HeadIsBest (sym (place_here by_score x y ys here))
        (omega arith, (le, All-le (score_of y) (score_of x) ys le best))
]

sorted-HeadIsBest : (xs : List RegistryWorker) → HeadIsBest (sorted by_score xs)
unfolding sorted
sorted-HeadIsBest [] = tt
sorted-HeadIsBest (x ∷ xs) = place-HeadIsBest x (sorted by_score xs) (sorted-HeadIsBest xs)

first-best :
    (xs : List RegistryWorker) (w : RegistryWorker)
    → first xs ≡ some w
    → HeadIsBest xs
    → In w xs × All (λ v. score_of v ≤ score_of w) xs
first-best [] w e best = absurd (ground arith)
first-best (x ∷ xs) w e best =
    let same : x ≡ w = cc in
    (inl (sym same), subst (λ v. All (λ u. score_of u ≤ score_of v) (x ∷ xs)) same best)

-- `w` is registered in the group, is idle or online and meets the requirements, and no worker that
-- may take the job has a higher score.
pub record IsBest (req : JobRequirements) (group : String) (s : Service) (w : RegistryWorker)
    : Type 0 where
  pub registered : In w (values s.registry)
  pub grouped : In w (of_group (some group) (values s.registry))
  pub available : is_available w.status ≡ true
  pub suitable : meets req w.capabilities ≡ true
  pub best :
      All
        (λ v. score_of v ≤ score_of w)
        (filter_by (λ v. meets req v.capabilities) (get_available_workers (some group) 0 s))

In-of_group :
    (group : Option String) (w : RegistryWorker) (xs : List RegistryWorker)
    → In w (of_group group xs)
    → In w xs
unfolding of_group
In-of_group group w xs h = elim (Option-cases (named group)) [
  | inl nameless ↦ subst (In w) (rw (nameless, of_group) refl) h
  | inr (g, name) ↦ (In-filter_by (in_group g) w xs (subst (In w) (rw (name, of_group) refl) h)).0
]

best_worker-IsBest :
    (req : JobRequirements) (group : String) (s : Service) (w : RegistryWorker)
    → best_worker req (get_available_workers (some group) 0 s) ≡ some w
    → IsBest req group s w
unfolding best_worker get_available_workers discover_workers list_workers
best_worker-IsBest req group s w e =
    let able = filter_by (λ v. meets req v.capabilities) (get_available_workers (some group) 0 s) in
    let (at, best) = first-best (sorted by_score able) w e (sorted-HeadIsBest able) in
    let (at', suits) =
      In-filter_by (λ v. meets req v.capabilities) w (get_available_workers (some group) 0 s)
        (In-sorted w able at) in
    let (at'', free) =
      In-filter_by (λ v. is_available v.status) w (of_group (some group) (values s.registry)) at' in
    record {
      registered = In-of_group (some group) w (values s.registry) at'';
      grouped = at'';
      available = free;
      suitable = suits;
      best = All-unsorted by_score (λ v. score_of v ≤ score_of w) able best;
    }

-- When a stored job is matched with a worker, that worker is registered in the group, the job's own
-- unless the call names one, is idle or online, meets the job's requirements, and has the highest
-- compute score of all workers for which this holds.
pub match_worker_to_job-IsBest :
    {r : Redis JobInfo} (job_id : String) (group_id : Option String) (s : Service) (db : Db r)
    (job : JobInfo) (w : RegistryWorker)
    → get_job job_id db ≡ some job
    → match_worker_to_job job_id group_id s db ≡ some w
    → IsBest job.metadata.requirements (group_for group_id job) s w
unfolding match_worker_to_job
match_worker_to_job-IsBest job_id group_id s db job w found e =
    best_worker-IsBest job.metadata.requirements (group_for group_id job) s w (ground arith)
