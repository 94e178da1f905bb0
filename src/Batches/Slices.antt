-- ===== src/Batches/Slices.antt =====
-- The batches of a shard, put together.
use mathlib.Core.List.{flatten, Perm}
use native.Mathlib.Nat.{zero-add, div-add-mod}
use mesh_ml.Prelude.{
  ℕ, zero, suc, ◌+◌, ◌-◌, ◌*◌, ◌≤◌, ◌<◌, min, ◌≡◌, refl, sym, ap, ◌∙◌, String, Option, some, List,
  [], ◌∷◌, ◌++◌, map, length, take, drop, range, range_from, sum, All, arith, take_of_length-le,
  drop-drop, length-take, length-drop, length-map, take-nil, count, count-append, perm_of_SameItems,
  sorted, sum-sorted, ltb, ℕ_discrete, leb, Bool-cases, inl, inr,
}
use mesh_ml.Sharder.{ShardMetadata}
use mesh_ml.Batches.Files.{StoredBatch, LocalBatchStorage}
use mesh_ml.Batches.Manager.{
  Loader, batch_slice, batch_count, batch_of, process_single_batch, process_each,
  create_batches_from_shard,
}

module _ {A : Type 0} where
  take-add : (a b : ℕ) (xs : List A) → take (a + b) xs ≡ take a xs ++ take b (drop a xs)
  take-add zero b xs = ap (λ k. take k xs) (zero-add b)
  take-add (suc a) b [] = take-nil (suc a + b) ∙ sym (take-nil b)
  take-add (suc a) b (x ∷ xs) =
      let e : suc a + b ≡ suc (a + b) = omega arith in rw e (ap (◌∷◌ x) (take-add a b xs))

module _ (b : ℕ) (xs : List ℕ) where
  batch_slice-eq-take : (i : ℕ) → batch_slice b xs i ≡ take b (drop (i * b) xs)
  unfolding batch_slice
  batch_slice-eq-take i = elim (Bool-cases (leb (i * b + b) (length xs))) [
    | inl inner ↦ ap (λ k. take k (drop (i * b) xs)) (ground arith)
    | inr last ↦
        let short : length xs < i * b + b = ground arith in
        let rest = drop (i * b) xs in
        let size = length-drop {0} (i * b) xs in
        take_of_length-le (min (i * b + b) (length xs) - i * b) rest (omega (arith, size))
        ∙ sym (take_of_length-le b rest (omega (arith, size)))
  ]

  flatten-slices :
      (r i : ℕ) → flatten (map (batch_slice b xs) (range_from i r)) ≡ take (r * b) (drop (i * b) xs)
  unfolding flatten
  flatten-slices zero i = let e : 0 * b ≡ 0 = omega arith in rw e refl
  flatten-slices (suc r) i =
      let here : suc r * b ≡ b + r * b = grind arith in
      let next : suc i * b ≡ i * b + b = grind arith in
      rw (batch_slice-eq-take i, flatten-slices r (suc i), here, next, ← drop-drop (i * b) b xs)
        (sym (take-add b (r * b) (drop (i * b) xs)))

count-flatten :
    (a : ℕ) (f : ℕ → List ℕ) (is : List ℕ)
    → count ℕ_discrete a (flatten (map f is)) ≡ sum (map (λ i. count ℕ_discrete a (f i)) is)
unfolding flatten
count-flatten a f [] = refl
count-flatten a f (i ∷ rest) =
    omega (arith, count-append ℕ_discrete a (f i) (flatten (map f rest)), count-flatten a f rest)

module _ (b : ℕ) (xs : List ℕ) (positive : 0 < b) where
  enough : length xs ≤ batch_count b xs * b
  enough = grind (arith, div-add-mod (length xs + b - 1) b)

  flatten-batches : flatten (map (batch_slice b xs) (range (batch_count b xs))) ≡ xs
  flatten-batches =
      let start : 0 * b ≡ 0 = omega arith in
      flatten-slices b xs (batch_count b xs) 0
      ∙ ap (λ k. take (batch_count b xs * b) (drop k xs)) start
      ∙ take_of_length-le (batch_count b xs * b) xs enough

  -- In whatever order the batches are made, they hold the samples.
  batches-perm :
      (completion : List ℕ)
      → sorted ltb completion ≡ range (batch_count b xs)
      → Perm (flatten (map (batch_slice b xs) completion)) xs
  batches-perm completion all =
      perm_of_SameItems ℕ_discrete (flatten (map (batch_slice b xs) completion)) xs λ a.
        let size = λ (i : ℕ). count ℕ_discrete a (batch_slice b xs i) in
        count-flatten a (batch_slice b xs) completion
        ∙ sym (sum-sorted ltb size completion)
        ∙ ap (λ is. sum (map size is)) all
        ∙ sym (count-flatten a (batch_slice b xs) (range (batch_count b xs)))
        ∙ ap (count ℕ_discrete a) flatten-batches

module _ (l : Loader) (now : ℕ) (shard : ShardMetadata) (b : ℕ) (scope : Option String) where
  process_each-sample_indices :
      (completion : List ℕ) (files : LocalBatchStorage l.Sample)
      → map (λ m. m.sample_indices) (process_each l now shard b scope completion files).1
        ≡ map (batch_slice b shard.sample_indices) completion
  unfolding process_each process_single_batch batch_of
  process_each-sample_indices [] files = refl
  process_each-sample_indices (i ∷ rest) files =
      ap (◌∷◌ (batch_slice b shard.sample_indices i)) (process_each-sample_indices rest _)

  -- A batch has as many samples as its record says, and at most as many as were asked for.
  abbrev pub Fits : StoredBatch → Type 0
  Fits m = (m.num_samples ≡ length m.sample_indices) × (m.num_samples ≤ b)

  process_each-Fits :
      (completion : List ℕ) (files : LocalBatchStorage l.Sample)
      → All Fits (process_each l now shard b scope completion files).1
  unfolding process_each process_single_batch batch_of
  process_each-Fits [] files = tt
  process_each-Fits (i ∷ rest) files =
      let indices = batch_slice b shard.sample_indices i in
      let size = length-map indices l.get_sample in
      (
        (
          size,
          omega (
            arith,
            size,
            ap length (batch_slice-eq-take b shard.sample_indices i),
            length-take {0} b (drop (i * b) shard.sample_indices),
          ),
        ),
        process_each-Fits rest _,
      )

  -- With a positive batch size, the batches that are made of a shard hold its samples, each as often as
  -- the shard does, in whatever order the threads end; and each batch has as many samples as its
  -- record says, and at most as many as were asked for.
  pub create_batches_from_shard-perm :
      (completion : List ℕ) (files : LocalBatchStorage l.Sample)
      {out : LocalBatchStorage l.Sample × List StoredBatch}
      → sorted ltb completion ≡ range (batch_count b shard.sample_indices)
      → create_batches_from_shard l now shard b scope completion files ≡ some out
      → Perm (flatten (map (λ m. m.sample_indices) out.1)) shard.sample_indices × All Fits out.1
  unfolding create_batches_from_shard
  create_batches_from_shard-perm completion files {out = out} all made =
      let positive : 0 < b = ground arith in
      let e : process_each l now shard b scope completion files ≡ out = ground arith in
      rw (← e) (
        rw (process_each-sample_indices completion files)
            (batches-perm b shard.sample_indices positive completion all),
        process_each-Fits completion files,
      )
