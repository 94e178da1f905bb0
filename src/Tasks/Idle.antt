-- ===== src/Tasks/Idle.antt =====
-- Attempts that assign nothing.
use mesh_ml.Prelude.{◌≡◌, refl, ◌∙◌, String, false, none, List, [], ◌∷◌, map, arith}
use mesh_ml.Tasks.Records.{
  no_workers_available, AssignmentResult, Attempt, raised, returned, attempt_map,
}
use mesh_ml.Tasks.Assigning.{without_worker}
use mesh_ml.Tasks.Batches.{is_success, count_success}

-- Nothing is returned, or results without a success.
abbrev pub IsFruitless : Attempt (List AssignmentResult) → Type 0
IsFruitless (raised f) = Unit
IsFruitless (returned results) = count_success results ≡ 0

pub cons-IsFruitless :
    (result : AssignmentResult) (answer : Attempt (List AssignmentResult))
    → is_success result ≡ false
    → IsFruitless answer
    → IsFruitless (attempt_map (λ rest. result ∷ rest) answer)
unfolding count_success
cons-IsFruitless result (raised f) h k = tt
cons-IsFruitless result (returned rest) h k = ground (arith)

pub absent-fruitless :
    (message : String) (ids : List String)
    → count_success (map (λ id. without_worker id no_workers_available message none) ids) ≡ 0
unfolding count_success
absent-fruitless message [] = refl
absent-fruitless message (id ∷ ids) = omega (arith, absent-fruitless message ids)

-- A step that leaves the service alone and does not assign.
abbrev pub IsIdle : {S K : Type 0} → S → S × Attempt (K × AssignmentResult) → Type 0
IsIdle s (s', raised f) = s' ≡ s
IsIdle s (s', returned (k, result)) = (s' ≡ s) × (is_success result ≡ false)

pub idle_step :
    {S K : Type 0} (s : S) (x : S × Attempt (K × AssignmentResult))
    (go : K → S → S × Attempt (List AssignmentResult))
    → IsIdle s x
    → ((k : K) (s' : S) → ((go k s').0 ≡ s') × IsFruitless (go k s').1)
    → let y : S × Attempt (List AssignmentResult) = elim x.1 [
      | raised f ↦ (x.0, raised f)
      | returned p ↦ ((go p.0 x.0).0, attempt_map (λ results. p.1 ∷ results) (go p.0 x.0).1)
    ] in
      (y.0 ≡ s) × IsFruitless y.1
idle_step s (s', raised f) go idle rest = (idle, tt)
idle_step s (s', returned (k, result)) go (same, unassigned) rest =
    ((rest k s').0 ∙ same, cons-IsFruitless result (go k s').1 unassigned (rest k s').1)
