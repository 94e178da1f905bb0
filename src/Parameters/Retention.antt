-- ===== src/Parameters/Retention.antt =====
-- Which checkpoints the retention deletes.
use mesh_ml.Prelude.{
  ℕ, zero, suc, ◌+◌, ◌-◌, ◌≤◌, ◌<◌, min, ◌≡◌, refl, sym, ap, ◌∙◌, String, Bool, true, false, not,
  none, some, inl, inr, List, [], ◌∷◌, if◌then◌else◌, ◌=ˢ◌, eq_iff, length, drop, filter_by, sorted,
  sum, sum-sorted, map, count, String-discrete, arith, Option-cases, length-drop,
}
use mesh_ml.Prelude.Dict.{lookup, lookup-insert}
use mesh_ml.Parameters.Records.{Backend, Checkpoint, ParameterStorage}
use mesh_ml.Parameters.Checkpoints.{
  is_protected, find_checkpoint, pop_checkpoint, newer, expired, listed, forget_package, saved_key,
  delete_checkpoint, delete_each, enforce_checkpoint_retention,
}

abbrev pub ids : List Checkpoint → List String
ids cs = map (λ c. c.checkpoint_id) cs

abbrev pub protected : List Checkpoint → List Checkpoint
protected cs = filter_by is_protected cs

abbrev pub others : List Checkpoint → List Checkpoint
others cs = filter_by (λ c. not (is_protected c)) cs

abbrev pub times : String → List Checkpoint → ℕ
times id cs = count String-discrete id (ids cs)

-- The checkpoints of two kinds make up all.
times-split :
    (x : String) (cs : List Checkpoint) → times x cs ≡ times x (protected cs) + times x (others cs)
times-split x [] = refl
times-split x (c ∷ cs) = ground (arith, times-split x cs)

pop-protected :
    (id : String) (cs : List Checkpoint)
    → times id (protected cs) ≡ 0
    → protected (pop_checkpoint id cs) ≡ protected cs
unfolding pop_checkpoint
pop-protected id [] h = refl
pop-protected id (c ∷ cs) h = ground (arith, eq_iff c.checkpoint_id id, pop-protected id cs)

pop-others :
    (id x : String) (cs : List Checkpoint)
    → times id (protected cs) ≡ 0
    → 0 < times id (others cs)
    → times x (others (pop_checkpoint id cs)) + (if id =ˢ x then 1 else 0) ≡ times x (others cs)
unfolding pop_checkpoint
pop-others id x [] h k = absurd (omega arith)
pop-others id x (c ∷ cs) h k =
    ground
      (arith, eq_iff c.checkpoint_id id, eq_iff c.checkpoint_id x, eq_iff id x, pop-others id x cs)

pop-length :
    (id : String) (cs : List Checkpoint)
    → times id (protected cs) ≡ 0
    → 0 < times id (others cs)
    → length (others (pop_checkpoint id cs)) + 1 ≡ length (others cs)
unfolding pop_checkpoint
pop-length id [] h k = absurd (omega arith)
pop-length id (c ∷ cs) h k = ground (arith, eq_iff c.checkpoint_id id, pop-length id cs)

-- The loop on the list alone.
abbrev pop_all : List Checkpoint → List Checkpoint → List Checkpoint
pop_all [] cs = cs
pop_all (d ∷ ds) cs = pop_all ds (pop_checkpoint d.checkpoint_id cs)

pop_all-lem :
    (ds cs : List Checkpoint)
    → ((x : String) → times x ds ≤ times x (others cs))
    → ((x : String) → 0 < times x ds → times x (protected cs) ≡ 0)
    → (protected (pop_all ds cs) ≡ protected cs)
      × (length (others (pop_all ds cs)) + length ds ≡ length (others cs))
pop_all-lem [] cs within apart = (refl, omega arith)
pop_all-lem (d ∷ ds) cs within apart =
    let id = d.checkpoint_id in
    let lone = apart id (ground (arith, eq_iff id id)) in
    let has : 0 < times id (others cs) = ground (arith, within id) in
    let same = pop-protected id cs lone in
    let (kept, counted) =
      pop_all-lem ds (pop_checkpoint id cs)
        (λ x. ground (arith, eq_iff id x, within x, pop-others id x cs lone has))
        (λ x h. ap (λ l. times x l) same ∙ apart x (ground arith)) in
    (kept ∙ same, omega (arith, counted, pop-length id cs lone has))

pop-absent :
    (id : String) (cs : List Checkpoint) → find_checkpoint id cs ≡ none → pop_checkpoint id cs ≡ cs
unfolding pop_checkpoint find_checkpoint
pop-absent id [] h = refl
pop-absent id (c ∷ cs) h = ground (arith, pop-absent id cs)

module _ {b : Backend} where
  forget_package-checkpoints :
      (c : Checkpoint) (s : ParameterStorage b) → (forget_package c s).checkpoints ≡ s.checkpoints
  unfolding forget_package
  forget_package-checkpoints c s = elim (Option-cases (saved_key c)) [
    | inl unsaved ↦ rw (unsaved, forget_package) refl
    | inr (key, saved) ↦ rw (saved, forget_package) refl
  ]

  maybe_forgotten :
      (on : Bool) (c : Checkpoint) (s : ParameterStorage b)
      → (if on then forget_package c s else s).checkpoints ≡ s.checkpoints
  maybe_forgotten true c s = forget_package-checkpoints c s
  maybe_forgotten false c s = refl

  delete_checkpoint-listed :
      (m id : String) (cs : List Checkpoint) (s : ParameterStorage b)
      → lookup m s.checkpoints ≡ some cs
      → lookup m (delete_checkpoint m id s).0.checkpoints ≡ some (pop_checkpoint id cs)
  unfolding delete_checkpoint
  delete_checkpoint-listed m id cs s e = elim (Option-cases (find_checkpoint id cs)) [
    | inl absent ↦ rw (e, delete_checkpoint, absent) (e ∙ ap some (sym (pop-absent id cs absent)))
    | inr (c, found) ↦
        rw (e, delete_checkpoint, found)
          (ap (lookup m) (maybe_forgotten s.enable_redis c _)
            ∙ ground (arith, eq_iff m m, lookup-insert m m (pop_checkpoint id cs) s.checkpoints))
  ]

  delete_each-listed :
      (m : String) (ds cs : List Checkpoint) (s : ParameterStorage b)
      → lookup m s.checkpoints ≡ some cs
      → lookup m (delete_each m ds s).checkpoints ≡ some (pop_all ds cs)
  unfolding delete_each
  delete_each-listed m [] cs s e = e
  delete_each-listed m (d ∷ ds) cs s e =
      delete_each-listed m ds (pop_checkpoint d.checkpoint_id cs)
        (delete_checkpoint m d.checkpoint_id s).0
        (delete_checkpoint-listed m d.checkpoint_id cs s e)

times-sum :
    (x : String) (cs : List Checkpoint)
    → times x cs ≡ sum (map (λ c. count String-discrete x (c.checkpoint_id ∷ [])) cs)
times-sum x [] = refl
times-sum x (c ∷ cs) = ground (arith, times-sum x cs)

length-sum : (cs : List Checkpoint) → length cs ≡ sum (map (λ c. 1) cs)
length-sum [] = refl
length-sum (c ∷ cs) = omega (arith, length-sum cs)

times-drop : (x : String) (n : ℕ) (cs : List Checkpoint) → times x (drop n cs) ≤ times x cs
times-drop x zero cs = omega arith
times-drop x (suc n) [] = omega arith
times-drop x (suc n) (c ∷ cs) = ground (arith, times-drop x n cs)

-- What expires is among the unprotected, and leaves `n` of them at most.
pub times-expired :
    (x : String) (n : ℕ) (cs : List Checkpoint) → times x (expired n cs) ≤ times x (others cs)
unfolding expired
times-expired x n cs = omega (
  arith,
  times-drop x n (sorted newer (others cs)),
  times-sum x (sorted newer (others cs)),
  times-sum x (others cs),
  sum-sorted newer (λ c. count String-discrete x (c.checkpoint_id ∷ [])) (others cs),
)

length-expired : (n : ℕ) (cs : List Checkpoint) → length (expired n cs) ≡ length (others cs) - n
unfolding expired
length-expired n cs = omega (
  arith,
  length-drop {0} n (sorted newer (others cs)),
  length-sum (sorted newer (others cs)),
  length-sum (others cs),
  sum-sorted newer (λ c. 1) (others cs),
)

-- When no two checkpoints of a model share an id, the retention keeps its BEST and FINAL checkpoints,
-- in their order, and of the others as many as the limit allows.
pub enforce_checkpoint_retention-kept :
    {b : Backend} (m : String) (cs : List Checkpoint) (s : ParameterStorage b)
    → lookup m s.checkpoints ≡ some cs
    → ((id : String) → count String-discrete id (ids cs) ≤ 1)
    → let cs' = listed m (enforce_checkpoint_retention m s).checkpoints in
      (protected cs' ≡ protected cs)
      × (length (others cs') ≡ min s.checkpoint_retention (length (others cs)))
unfolding enforce_checkpoint_retention
enforce_checkpoint_retention-kept m cs s e unique =
    let gone = expired s.checkpoint_retention cs in
    let (kept, counted) =
      pop_all-lem gone cs (λ x. times-expired x s.checkpoint_retention cs)
        (λ x h.
          omega (arith, unique x, times-split x cs, times-expired x s.checkpoint_retention cs)) in
    let after = delete_each-listed m gone cs s e in
    let left : listed m (enforce_checkpoint_retention m s).checkpoints ≡ pop_all gone cs =
      ground (arith, after) in
    rw left (kept, omega (arith, counted, length-expired s.checkpoint_retention cs))
