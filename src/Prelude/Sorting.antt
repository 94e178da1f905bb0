-- ===== src/Prelude/Sorting.antt =====
-- Python's `sorted`, which is stable, as an insertion sort. `before x y` says that the key of `x` is
-- smaller.
use Prim.Native.Nat.{ℕ, ◌+◌}
use mathlib.Core.Path.{◌≡◌, refl, subst}
use mathlib.Core.Logic.{inl, inr}
use mathlib.Core.Bool.{Bool, true, false}
use mathlib.Core.List.{List, [], ◌∷◌, map}
use native.Mathlib.Omega.{arith}
use mesh_ml.Prelude.Tests.{if◌then◌else◌, Bool-cases}
use mesh_ml.Prelude.Lists.{sum, All}

module _ {ℓ} {A : Type ℓ} (before : A → A → Bool) where
  -- `x` goes before the first item that is not smaller.
  unfoldable pub place : A → List A → List A
  place x [] = x ∷ []
  place x (y ∷ ys) = let rest = place x ys in if before y x then y ∷ rest else x ∷ y ∷ ys

  unfoldable pub sorted : List A → List A
  unfolding place
  sorted [] = []
  sorted (x ∷ xs) = place x (sorted xs)

  pub place_later : (x y : A) (ys : List A) → before y x ≡ true → place x (y ∷ ys) ≡ y ∷ place x ys
  unfolding place
  place_later x y ys h = rw h

  pub place_here : (x y : A) (ys : List A) → before y x ≡ false → place x (y ∷ ys) ≡ x ∷ y ∷ ys
  unfolding place
  place_here x y ys h = rw h

  -- Sorting keeps each sum over the items, so also how often each one occurs.
  sum-place : (f : A → ℕ) (x : A) (xs : List A) → sum (map f (place x xs)) ≡ f x + sum (map f xs)
  unfolding place
  sum-place f x [] = refl
  sum-place f x (y ∷ ys) = ground (arith, sum-place f x ys)

  pub sum-sorted : (f : A → ℕ) (xs : List A) → sum (map f (sorted xs)) ≡ sum (map f xs)
  unfolding sorted
  sum-sorted f [] = refl
  sum-sorted f (x ∷ xs) = omega (arith, sum-place f x (sorted xs), sum-sorted f xs)

  pub All-place : (P : A → Type 0) (x : A) (xs : List A) → P x → All P xs → All P (place x xs)
  unfolding place
  All-place P x [] px all = (px, tt)
  All-place P x (y ∷ ys) px (py, all) = elim (Bool-cases (before y x)) [
    | inl later ↦ rw later (py, All-place P x ys px all)
    | inr here ↦ rw here (px, (py, all))
  ]

  pub All-sorted : (P : A → Type 0) (xs : List A) → All P xs → All P (sorted xs)
  unfolding sorted
  All-sorted P [] all = tt
  All-sorted P (x ∷ xs) (px, all) = All-place P x (sorted xs) px (All-sorted P xs all)

  All-unplace : (P : A → Type 0) (x : A) (xs : List A) → All P (place x xs) → P x × All P xs
  unfolding place
  All-unplace P x [] h = h
  All-unplace P x (y ∷ ys) h = elim (Bool-cases (before y x)) [
    | inl later ↦
        let (py, rest) = subst (All P) (place_later x y ys later) h in
        let (px, all) = All-unplace P x ys rest in (px, (py, all))
    | inr here ↦ subst (All P) (place_here x y ys here) h
  ]

  pub All-unsorted : (P : A → Type 0) (xs : List A) → All P (sorted xs) → All P xs
  unfolding sorted
  All-unsorted P [] h = tt
  All-unsorted P (x ∷ xs) h =
      let (px, all) = All-unplace P x (sorted xs) h in (px, All-unsorted P xs all)
