-- ===== src/Models/Table.antt =====
-- The table of models: its rows, and what the managers read and write of it.
use mesh_ml.Prelude.{
  ℕ, ◌≡◌, refl, String, Bool, true, false, ◌&&◌, Option, none, some, List, [], ◌∷◌, ◌++◌, ◌==◌,
  ◌=ˢ◌, eq_iff, Bool-cases, inl, inr, if◌then◌else◌, arith,
}

pub data ModelState : Type 0 where
  uploading validating ready failed deprecated : ModelState

-- A row, less the columns for storage and usage; no metadata is an empty list.
pub record Model : Type 0 where
  pub id : ℕ
  pub name : String
  pub description : Option String
  pub group_id : String
  pub created_by_user_id : String
  pub architecture_type : Option String
  pub dataset_type : Option String
  pub framework : Option String
  pub model_metadata : List (String × String)
  pub state : ModelState
  pub validation_message : Option String
  pub version : String
  pub parent_model_id : Option ℕ
  pub created_at : ℕ
  pub updated_at : ℕ
  pub deprecated_at : Option ℕ

abbrev pub Models : Type 0
Models = List Model

-- `select(Model).where(Model.id == model_id)`, one row or none
unfoldable pub model_of : ℕ → Models → Option Model
model_of id [] = none
model_of id (m ∷ ms) = let rest = model_of id ms in if m.id == id then some m else rest

-- The row with the id of `new` is written.
unfoldable pub write : Model → Models → Models
write new [] = []
write new (m ∷ ms) = let rest = write new ms in if m.id == new.id then new ∷ ms else m ∷ rest

abbrev pub is_child : ℕ → Model → Bool
is_child parent m = elim m.parent_model_id [ none ↦ false | some p ↦ p == parent ]

-- Whether a row has the parent and the version. Two such rows would raise `MultipleResultsFound`; where no
-- two versions of a parent have the same text there is at most one.
unfoldable pub has_version : ℕ → String → Models → Bool
has_version parent version [] = false
has_version parent version (m ∷ ms) =
    let rest = has_version parent version ms in
    if is_child parent m && m.version =ˢ version then true else rest

pub model_of-id : (id : ℕ) (ms : Models) (m : Model) → model_of id ms ≡ some m → m.id ≡ id
unfolding model_of
model_of-id id [] m h = absurd (ground arith)
model_of-id id (n ∷ ms) m h = ground (arith, model_of-id id ms m)

pub model_of-write :
    (new : Model) (ms : Models) (old : Model) (id : ℕ)
    → model_of new.id ms ≡ some old
    → model_of id (write new ms) ≡ (if new.id == id then some new else model_of id ms)
unfolding model_of write
model_of-write new [] old id h = absurd (ground arith)
model_of-write new (m ∷ ms) old id h = elim (Bool-cases (m.id == new.id)) [
  | inl same ↦
      let e : write new (m ∷ ms) ≡ new ∷ ms = rw (same, write) refl in rw e (ground (arith))
  | inr differ ↦
      let e : write new (m ∷ ms) ≡ m ∷ write new ms = rw (differ, write) refl in
      rw e (ground (arith, model_of-write new ms old id))
]

-- A row with a new id, at the end.
pub model_of-append :
    (new : Model) (ms : Models) (id : ℕ)
    → model_of new.id ms ≡ none
    → model_of id (ms ++ new ∷ []) ≡ (if new.id == id then some new else model_of id ms)
unfolding model_of
model_of-append new [] id h = refl
model_of-append new (m ∷ ms) id h = elim (Bool-cases (m.id == id)) [
  | inl same ↦ ground arith
  | inr differ ↦ ground (arith, model_of-append new ms id)
]

pub has_version-model_of :
    (parent : ℕ) (version : String) (ms : Models) (id : ℕ) (m : Model)
    → has_version parent version ms ≡ false
    → model_of id ms ≡ some m
    → m.parent_model_id ≡ some parent
    → m.version ≡ version
    → ⊥
unfolding has_version model_of
has_version-model_of parent version [] id m unused h p v = absurd (ground arith)
has_version-model_of parent version (n ∷ ms) id m unused h p v = elim (Bool-cases (n.id == id)) [
  | inl same ↦ let e : n ≡ m = ground arith in ground (arith, eq_iff n.version version)
  | inr differ ↦ ground (arith, has_version-model_of parent version ms id m)
]
