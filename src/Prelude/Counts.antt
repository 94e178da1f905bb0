-- ===== src/Prelude/Counts.antt =====
-- How often a value occurs in a list, and the library's permutations by counting.
use Prim.Native.Nat.{ℕ, zero, suc, ◌+◌}
use Prim.Native.String.{String}
use mathlib.Core.Path.{◌≡◌, refl, ap, sym, ◌∙◌}
use mathlib.Core.List
use mathlib.Core.List.Perm
use mathlib.Core.List.{List, [], ◌∷◌, ◌++◌, Perm, flatten, perm_iff_count}
use mathlib.Core.Logic.{ite, inl, inr}
use native.Mathlib.Bridge.{from_ℕ, to_ℕ, to_ℕ-from_ℕ}
use native.Mathlib.Omega.{arith}
use text.Mathlib.TextEquality.{eq_iff}
use mesh_ml.Prelude.Tests.{◌=ˢ◌, Bool-cases}
use mesh_ml.Prelude.Lists.{length, replicate}

unfoldable pub String-discrete : Discrete String
String-discrete s t = elim (Bool-cases (s =ˢ t)) [
  | inl same ↦ yes ((eq_iff s t).0 same)
  | inr other ↦ no (λ e. cc ((eq_iff s t).1 e))
]

module _ {ℓ} {A : Type ℓ} where
  from_ℕ-length : (xs : List A) → from_ℕ (List.length xs) ≡ length xs
  from_ℕ-length [] = refl
  from_ℕ-length (x ∷ xs) = ap suc (from_ℕ-length xs)

  pub length-eq_of_perm : (xs ys : List A) → Perm xs ys → length xs ≡ length ys
  length-eq_of_perm xs ys h =
      sym (from_ℕ-length xs) ∙ ap from_ℕ (Perm.length-eq h) ∙ from_ℕ-length ys

module _ {ℓ} {A : Type ℓ} (dec : Discrete A) where
  abbrev pub count : A → List A → ℕ
  count a [] = 0
  count a (x ∷ xs) = ite (dec x a) (suc (count a xs)) (count a xs)

  -- Both lists hold the same items, as often.
  abbrev pub SameItems : List A → List A → Type ℓ
  SameItems xs ys = (a : A) → count a xs ≡ count a ys

  pub count-append : (a : A) (xs ys : List A) → count a (xs ++ ys) ≡ count a xs + count a ys
  count-append a [] ys = omega arith
  count-append a (x ∷ xs) ys = ground (arith, count-append a xs ys)

  from_ℕ-count : (a : A) (xs : List A) → from_ℕ (List.count dec a xs) ≡ count a xs
  from_ℕ-count a [] = refl
  from_ℕ-count a (x ∷ xs) =
      elim (dec x a)
        as (λ d.
          from_ℕ (ite d (mathlib.Core.Nat.suc (List.count dec a xs)) (List.count dec a xs))
          ≡ ite d (suc (count a xs)) (count a xs)) [
            | yes p ↦ ap suc (from_ℕ-count a xs)
            | no p ↦ from_ℕ-count a xs
          ]

  pub perm_of_SameItems : (xs ys : List A) → SameItems xs ys → Perm xs ys
  perm_of_SameItems xs ys h = (perm_iff_count dec).1 λ a.
      sym (to_ℕ-from_ℕ _)
      ∙ ap to_ℕ (from_ℕ-count a xs ∙ h a ∙ sym (from_ℕ-count a ys))
      ∙ to_ℕ-from_ℕ _

  pub SameItems-of_perm : (xs ys : List A) → Perm xs ys → SameItems xs ys
  SameItems-of_perm xs ys h a =
      sym (from_ℕ-count a xs) ∙ ap from_ℕ ((perm_iff_count dec).0 h a) ∙ from_ℕ-count a ys

  pub count-replicate-nil : (a : A) (n : ℕ) → count a (flatten (replicate n [])) ≡ 0
  unfolding flatten
  count-replicate-nil a zero = refl
  count-replicate-nil a (suc n) = count-replicate-nil a n
