-- ===== src/Sharder/Partition.antt =====
-- Which samples the shards of a strategy hold.
use mathlib.Core.List.{flatten, Perm}
use mathlib.Core.List.Perm
use mesh_ml.Prelude.{
  ℕ, zero, suc, ◌+◌, ◌≤◌, ◌<◌, ◌≡◌, refl, ap, ◌∙◌, sym, List, [], ◌∷◌, ◌++◌, map, arith, ◌=ˢ◌, ◌==◌,
  ltb, Bool-cases, String, if◌then◌else◌, ◌≢◌, length, range_from, range, replicate, inl, inr,
  count, count-append, count-replicate-nil, perm_of_SameItems, SameItems-of_perm, ℕ_discrete,
  length-replicate,
}
use mesh_ml.Prelude.Dict.{
  Dict, lookup, insert, values, lookup-cons_eq, lookup-cons_ne, insert-cons_eq, insert-cons_ne,
}
use mesh_ml.Sharder.Shards.{
  ShardMetadata, chunks, extend_all, distribute, or_else, append_at, group_from,
  group_samples_by_class, shards_of, shuffle_each, create_random_shards, create_stratified_shards,
  create_sequential_shards, ShardingConfig, ShardingStrategy, random, stratified, sequential,
  non_iid, create, create_shards, validate_config, raise, num_shards_not_positive,
  num_shards_exceed_samples, ok,
}
use mesh_ml.Sharder.Chunks.{flatten-chunks, length-chunks}

-- How often sample `a` occurs in a list of lists.
abbrev occurs : ℕ → List (List ℕ) → ℕ
occurs a ls = count ℕ_discrete a (flatten ls)

abbrev pub indices_of : List ShardMetadata → List (List ℕ)
indices_of = map (λ s. s.sample_indices)

occurs-cons :
    (a : ℕ) (l : List ℕ) (ls : List (List ℕ))
    → occurs a (l ∷ ls) ≡ count ℕ_discrete a l + occurs a ls
unfolding flatten
occurs-cons a l ls = count-append ℕ_discrete a l (flatten ls)

length-extend_all : (xs ys : List (List ℕ)) → length (extend_all xs ys) ≡ length xs
unfolding extend_all
length-extend_all [] ys = refl
length-extend_all (x ∷ xs) [] = refl
length-extend_all (x ∷ xs) (y ∷ ys) = ap suc (length-extend_all xs ys)

occurs-extend_all :
    (a : ℕ) (xs ys : List (List ℕ))
    → length xs ≡ length ys
    → occurs a (extend_all xs ys) ≡ occurs a xs + occurs a ys
unfolding extend_all flatten
occurs-extend_all a [] [] h = refl
occurs-extend_all a [] (y ∷ ys) h = absurd (omega arith)
occurs-extend_all a (x ∷ xs) [] h = absurd (omega arith)
occurs-extend_all a (x ∷ xs) (y ∷ ys) h = omega (
  arith,
  occurs-cons a (x ++ y) (extend_all xs ys),
  occurs-cons a x xs,
  occurs-cons a y ys,
  count-append ℕ_discrete a x y,
  occurs-extend_all a xs ys (omega arith),
)

occurs-distribute :
    (a num : ℕ) (shards classes : List (List ℕ))
    → 0 < num
    → length shards ≡ num
    → occurs a (distribute num shards classes) ≡ occurs a shards + occurs a classes
unfolding distribute flatten
occurs-distribute a num shards [] pos h = omega arith
occurs-distribute a num shards (l ∷ ls) pos h = omega (
  arith,
  occurs-distribute a num (extend_all shards (chunks num l)) ls pos
      (length-extend_all shards (chunks num l) ∙ h),
  occurs-extend_all a shards (chunks num l) (h ∙ sym (length-chunks num l)),
  ap (count ℕ_discrete a) (flatten-chunks num l pos),
  occurs-cons a l ls,
)

append_at-nil : (name : String) (idx : ℕ) → append_at name idx [] ≡ (name, idx ∷ []) ∷ []
unfolding append_at lookup insert
append_at-nil name idx = refl

occurs-insert :
    (a idx : ℕ) (name : String) (d : Dict (List ℕ))
    → occurs a (values (append_at name idx d)) ≡ occurs a (values d) + count ℕ_discrete a (idx ∷ [])
unfolding append_at flatten
occurs-insert a idx name [] = rw (append_at-nil name idx) (omega arith)
occurs-insert a idx name ((j, l) ∷ d) =
    let new = idx ∷ [] in
    elim (Bool-cases (j =ˢ name)) [
      | inl here ↦
          rw (lookup-cons_eq name j l d here, insert-cons_eq name j (l ++ new) l d here)
            (omega (
              arith,
              occurs-cons a (l ++ new) (values d),
              occurs-cons a l (values d),
              count-append ℕ_discrete a l new,
            ))
      | inr away ↦
          rw
            (
              lookup-cons_ne name j l d away,
              insert-cons_ne name j (or_else [] (lookup name d) ++ new) l d away,
            )
            (omega (
              arith,
              occurs-insert a idx name d,
              occurs-cons a l (values d),
              occurs-cons a l (values (append_at name idx d)),
            ))
    ]

module _ (class_of : ℕ → String) (a : ℕ) where
  occurs-group_from :
      (idx n : ℕ) (groups : Dict (List ℕ))
      → occurs a (values (group_from class_of idx n groups))
        ≡ occurs a (values groups) + count ℕ_discrete a (range_from idx n)
  unfolding group_from
  occurs-group_from idx zero groups = omega arith
  occurs-group_from idx (suc n) groups = ground (
    arith,
    occurs-group_from (suc idx) n (append_at (class_of idx) idx groups),
    occurs-insert a idx (class_of idx) groups,
  )

-- `random.shuffle` reorders a list and does nothing else.
abbrev pub Shuffles : (ℕ → List ℕ → List ℕ) → Type 0
Shuffles shuffle = (call : ℕ) (l : List ℕ) → Perm (shuffle call l) l

module _ (class_of : ℕ → String) (estimate : ℕ → ℕ) where
  indices_of-shards_of :
      (num i : ℕ) (ls : List (List ℕ)) → indices_of (shards_of class_of estimate num i ls) ≡ ls
  unfolding shards_of
  indices_of-shards_of num i [] = refl
  indices_of-shards_of num i (l ∷ ls) = ap (◌∷◌ l) (indices_of-shards_of num (suc i) ls)

  length-shards_of :
      (num i : ℕ) (ls : List (List ℕ)) → length (shards_of class_of estimate num i ls) ≡ length ls
  unfolding shards_of
  length-shards_of num i [] = refl
  length-shards_of num i (l ∷ ls) = ap suc (length-shards_of num (suc i) ls)

module _ (class_of : ℕ → String) (estimate : ℕ → ℕ) (shuffle : ℕ → List ℕ → List ℕ) where
  module _ (shuffles : Shuffles shuffle) where
    occurs-shuffle_each :
        (a call : ℕ) (ls : List (List ℕ)) → occurs a (shuffle_each shuffle call ls) ≡ occurs a ls
    unfolding shuffle_each
    occurs-shuffle_each a call [] = refl
    occurs-shuffle_each a call (l ∷ ls) = omega (
      arith,
      occurs-cons a (shuffle call l) (shuffle_each shuffle (suc call) ls),
      occurs-cons a l ls,
      SameItems-of_perm ℕ_discrete (shuffle call l) l (shuffles call l) a,
      occurs-shuffle_each a (suc call) ls,
    )

    stratified-perm :
        (total num : ℕ)
        → 0 < num
        → Perm
            (flatten (indices_of (create_stratified_shards class_of estimate shuffle total num)))
            (range total)
    unfolding create_stratified_shards flatten
    stratified-perm total num pos = perm_of_SameItems ℕ_discrete _ _ λ a.
        let classes = values (group_samples_by_class class_of total) in
        let dealt = distribute num (replicate num []) (shuffle_each shuffle 0 classes) in
        ap (occurs a) (
          indices_of-shards_of class_of estimate num 0
            (shuffle_each shuffle (length classes) dealt))
        ∙ occurs-shuffle_each a (length classes) dealt
        ∙ occurs-distribute a num (replicate num []) (shuffle_each shuffle 0 classes) pos
            (length-replicate num [])
        ∙ omega (
          arith,
          count-replicate-nil ℕ_discrete a num,
          occurs-shuffle_each a 0 classes,
          occurs-group_from class_of a 0 total [],
        )

    random-perm :
        (total num : ℕ)
        → 0 < num
        → Perm
            (flatten (indices_of (create_random_shards class_of estimate shuffle total num)))
            (range total)
    unfolding create_random_shards
    random-perm total num pos =
        rw (indices_of-shards_of, flatten-chunks num (shuffle 0 (range total)) pos)
          (shuffles 0 (range total))

    sequential-perm :
        (total num : ℕ)
        → 0 < num
        → flatten (indices_of (create_sequential_shards class_of estimate shuffle total num))
          ≡ (range total)
    unfolding create_sequential_shards
    sequential-perm total num pos = rw (indices_of-shards_of) (flatten-chunks num (range total) pos)

module _ (shuffle : ℕ → List ℕ → List ℕ) where
  length-shuffle_each :
      (call : ℕ) (ls : List (List ℕ)) → length (shuffle_each shuffle call ls) ≡ length ls
  unfolding shuffle_each
  length-shuffle_each call [] = refl
  length-shuffle_each call (l ∷ ls) = ap suc (length-shuffle_each (suc call) ls)

length-distribute :
    (num : ℕ) (shards classes : List (List ℕ))
    → length (distribute num shards classes) ≡ length shards
unfolding distribute
length-distribute num shards [] = refl
length-distribute num shards (l ∷ ls) =
    length-distribute num (extend_all shards (chunks num l)) ls
    ∙ length-extend_all shards (chunks num l)

module _ (class_of : ℕ → String) (estimate : ℕ → ℕ) (shuffle : ℕ → List ℕ → List ℕ)
    (non_iid_shards : List ShardMetadata) where
  length-create :
      (strategy : ShardingStrategy) (total num : ℕ)
      → strategy ≢ non_iid
      → length (create class_of estimate shuffle non_iid_shards strategy total num) ≡ num
  unfolding create
  length-create random total num h =
      length-shards_of class_of estimate num 0 _ ∙ length-chunks num (shuffle 0 (range total))
  length-create sequential total num h =
      length-shards_of class_of estimate num 0 _ ∙ length-chunks num (range total)
  length-create non_iid total num h = absurd (h refl)
  length-create stratified total num h =
      let classes = values (group_samples_by_class class_of total) in
      let dealt = distribute num (replicate num []) (shuffle_each shuffle 0 classes) in
      length-shards_of class_of estimate num 0 _
      ∙ length-shuffle_each shuffle (length classes) dealt
      ∙ length-distribute num (replicate num []) (shuffle_each shuffle 0 classes)
      ∙ length-replicate num []

  create-perm :
      (strategy : ShardingStrategy) (total num : ℕ)
      → Shuffles shuffle
      → strategy ≢ non_iid
      → 0 < num
      → Perm
          (flatten
            (indices_of (create class_of estimate shuffle non_iid_shards strategy total num)))
          (range total)
  unfolding create
  create-perm random total num shuffles h pos =
      random-perm class_of estimate shuffle shuffles total num pos
  create-perm stratified total num shuffles h pos =
      stratified-perm class_of estimate shuffle shuffles total num pos
  create-perm sequential total num shuffles h pos =
      rw (sequential-perm class_of estimate shuffle shuffles total num pos) (Perm.refl _)
  create-perm non_iid total num shuffles h pos = absurd (h refl)

  -- `create_shards` returns shards exactly when there is at least one shard and at most one for
  -- each sample; otherwise it raises the error of the guard that failed.
  pub create_shards_lem :
      (config : ShardingConfig) (total : ℕ)
      → create_shards class_of estimate shuffle non_iid_shards config total ≡ (
          if config.num_shards == 0
          then raise num_shards_not_positive
          else if ltb total config.num_shards
          then raise num_shards_exceed_samples
          else ok (
              create class_of estimate shuffle non_iid_shards config.strategy total
                config.num_shards))
  unfolding create_shards validate_config
  create_shards_lem config total = ground arith

  create_shards-inv :
      (config : ShardingConfig) (total : ℕ) {shards : List ShardMetadata}
      → create_shards class_of estimate shuffle non_iid_shards config total ≡ ok shards
      → (shards
          ≡ create class_of estimate shuffle non_iid_shards config.strategy total config.num_shards)
        × (0 < config.num_shards)
        × (config.num_shards ≤ total)
  create_shards-inv config total h = ground (arith, create_shards_lem config total)

  -- For every strategy but the Dirichlet one: when `create_shards` returns shards, there are
  -- `num_shards` of them, and together they hold each sample index below `total` exactly once,
  -- provided that `random.shuffle` only reorders.
  pub create_shards-perm :
      (config : ShardingConfig) (total : ℕ) {shards : List ShardMetadata}
      → Shuffles shuffle
      → config.strategy ≢ non_iid
      → create_shards class_of estimate shuffle non_iid_shards config total ≡ ok shards
      → (length shards ≡ config.num_shards) × Perm (flatten (indices_of shards)) (range total)
  create_shards-perm config total shuffles other h =
      let (same, pos, fits) = create_shards-inv config total h in
      rw same (
        length-create config.strategy total config.num_shards other,
        create-perm config.strategy total config.num_shards shuffles other pos,
      )
