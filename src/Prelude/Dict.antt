-- ===== src/Prelude/Dict.antt =====
-- Python's `dict` with text keys: an association list in insertion order. A write to a key that is
-- there keeps its place, and a new key goes to the end.
use Prim.Native.String.{String}
use mathlib.Core.Path.{◌≡◌, refl}
use mathlib.Core.Bool.{Bool, true, false}
use mathlib.Core.Option.{Option, none, some}
use mathlib.Core.List.{List, [], ◌∷◌, map}
use native.Mathlib.Omega.{arith}
use text.Mathlib.TextEquality.{eq_iff}
use mesh_ml.Prelude.Tests.{◌=ˢ◌, if◌then◌else◌, is_some}

abbrev pub Dict {ℓ} : Type ℓ → Type ℓ
Dict V = List (String × V)

module _ {ℓ} {V : Type ℓ} where
  -- `d.get(k)`
  unfoldable pub lookup : String → Dict V → Option V
  lookup k [] = none
  lookup k ((j, v) ∷ d) = if j =ˢ k then some v else lookup k d

  -- `d[k] = v`
  unfoldable pub insert : String → V → Dict V → Dict V
  insert k v [] = (k, v) ∷ []
  insert k v ((j, w) ∷ d) = if j =ˢ k then (j, v) ∷ d else (j, w) ∷ insert k v d

  -- `d.pop(k, None)`, `del d[k]`
  unfoldable pub erase : String → Dict V → Dict V
  erase k [] = []
  erase k ((j, w) ∷ d) = let rest = erase k d in if j =ˢ k then rest else (j, w) ∷ rest

  -- `list(d.keys())`
  abbrev pub keys : Dict V → List String
  keys d = map (λ e. e.0) d

  -- `list(d.values())`
  abbrev pub values : Dict V → List V
  values d = map (λ e. e.1) d

  -- `k in d`
  abbrev pub contains : String → Dict V → Bool
  contains k d = is_some (lookup k d)

  pub lookup-insert :
      (k j : String) (v : V) (d : Dict V)
      → lookup j (insert k v d) ≡ (if k =ˢ j then some v else lookup j d)
  unfolding lookup insert
  lookup-insert k j v [] = refl
  lookup-insert k j v ((i, w) ∷ d) =
      ground (arith, eq_iff k j, eq_iff i k, eq_iff i j, lookup-insert k j v d)

  pub lookup-erase :
      (k j : String) (d : Dict V) → lookup j (erase k d) ≡ (if k =ˢ j then none else lookup j d)
  unfolding lookup erase
  lookup-erase k j [] = ground arith
  lookup-erase k j ((i, w) ∷ d) =
      ground (arith, eq_iff k j, eq_iff i k, eq_iff i j, lookup-erase k j d)

module _ {ℓ} {V : Type ℓ} (k j : String) (v w : V) (d : Dict V) where
  pub insert-cons_eq : (j =ˢ k) ≡ true → insert k v ((j, w) ∷ d) ≡ (j, v) ∷ d
  unfolding insert
  insert-cons_eq h = rw h

  pub insert-cons_ne : (j =ˢ k) ≡ false → insert k v ((j, w) ∷ d) ≡ (j, w) ∷ insert k v d
  unfolding insert
  insert-cons_ne h = rw h

module _ {ℓ} {V : Type ℓ} (k j : String) (w : V) (d : Dict V) where
  pub lookup-cons_eq : (j =ˢ k) ≡ true → lookup k ((j, w) ∷ d) ≡ some w
  unfolding lookup
  lookup-cons_eq h = rw h

  pub lookup-cons_ne : (j =ˢ k) ≡ false → lookup k ((j, w) ∷ d) ≡ lookup k d
  unfolding lookup
  lookup-cons_ne h = rw h

pub ruleset dict_laws = (lookup-insert, lookup-erase)
