-- ===== src/Models/Family.antt =====
-- The versions of the models, whatever calls are made.
use mesh_ml.Prelude.{
  ℕ, ◌≡◌, ◌⊎◌, refl, sym, ap, ◌∙◌, subst, String, false, Option, none, some, inl, inr, [], ◌∷◌,
  ◌++◌, ◌==◌, ==_iff, arith, Option-cases, Bool-cases,
}
use mesh_ml.Models.Table.{
  ModelState, Model, Models, model_of, write, has_version, model_of-id, model_of-write,
  model_of-append, has_version-model_of,
}
use mesh_ml.Models.Managers.{
  state_transitions, is_ready, moved, transition_state, VersionRequest, new_version, create_version,
}

-- A version has a parent row of its group and architecture, and no two versions of a parent have the
-- same version text.
pub record IsFamily (ms : Models) : Type 0 where
  pub lineage :
      (id p : ℕ) (m : Model)
      → model_of id ms ≡ some m
      → m.parent_model_id ≡ some p
      → (parent : Model) × (model_of p ms ≡ some parent)
        × (m.group_id ≡ parent.group_id)
        × (m.architecture_type ≡ parent.architecture_type)
  pub unique :
      (i j p : ℕ) (m n : Model)
      → model_of i ms ≡ some m
      → model_of j ms ≡ some n
      → m.parent_model_id ≡ some p
      → n.parent_model_id ≡ some p
      → m.version ≡ n.version
      → i ≡ j

-- The row `new` has what a family needs of the row `old`.
record Inherits (old new : Model) : Type 0 where
  id : new.id ≡ old.id
  parent : new.parent_model_id ≡ old.parent_model_id
  group : new.group_id ≡ old.group_id
  architecture : new.architecture_type ≡ old.architecture_type
  version : new.version ≡ old.version

-- The row that a write leaves at an id, and the one that was there.
written :
    (new old : Model) (ms : Models) (id : ℕ) (m : Model)
    → Inherits old new
    → model_of new.id ms ≡ some old
    → model_of id (write new ms) ≡ some m
    → (before : Model) × (model_of id ms ≡ some before) × Inherits before m
written new old ms id m same h e = elim (Bool-cases (new.id == id)) [
  | inl mine ↦
      let at : new.id ≡ id = (==_iff new.id id).0 mine in
      let is_new : new ≡ m = ground (arith, model_of-write new ms old id h) in
      (old, ap (λ k. model_of k ms) (sym at) ∙ h, subst (Inherits old) is_new same)
  | inr other ↦ (
    m,
    ground (arith, model_of-write new ms old id h),
    record { id = refl; parent = refl; group = refl; architecture = refl; version = refl },
  )
]

-- A row that was there is there after a write, with what a family needs.
rewritten :
    (new old : Model) (ms : Models) (id : ℕ) (m : Model)
    → Inherits old new
    → model_of new.id ms ≡ some old
    → model_of id ms ≡ some m
    → (after : Model) × (model_of id (write new ms) ≡ some after) × Inherits m after
rewritten new old ms id m same h e = elim (Bool-cases (new.id == id)) [
  | inl mine ↦
      let at : new.id ≡ id = (==_iff new.id id).0 mine in
      let is_old : old ≡ m = ground (arith, sym h ∙ ap (λ k. model_of k ms) at ∙ e) in
      (new, ground (arith, model_of-write new ms old id h), subst (λ o. Inherits o new) is_old same)
  | inr other ↦ (
    m,
    ground (arith, model_of-write new ms old id h),
    record { id = refl; parent = refl; group = refl; architecture = refl; version = refl },
  )
]

write-IsFamily :
    (new old : Model) (ms : Models)
    → Inherits old new
    → model_of new.id ms ≡ some old
    → IsFamily ms
    → IsFamily (write new ms)
write-IsFamily new old ms same h inv = record {
  lineage = λ id p m e child.
      let (before, e', like) = written new old ms id m same h e in
      let (parent, found, group, arch) = inv.lineage id p before e' (sym like.parent ∙ child) in
      let (parent', found', like') = rewritten new old ms p parent same h found in
      (
        parent',
        found',
        like.group ∙ group ∙ sym like'.group,
        like.architecture ∙ arch ∙ sym like'.architecture,
      );
  unique = λ i j p m n e f cm cn v.
      let (m', e', like) = written new old ms i m same h e in
      let (n', f', like') = written new old ms j n same h f in
      inv.unique i j p m' n' e' f' (sym like.parent ∙ cm) (sym like'.parent ∙ cn)
        (sym like.version ∙ v ∙ like'.version);
}

transition-IsFamily :
    (now id : ℕ) (new : ModelState) (message : Option String) (ms : Models)
    → IsFamily ms
    → IsFamily (transition_state now id new message ms).0
unfolding transition_state moved
transition-IsFamily now id new message ms inv = elim (Option-cases (model_of id ms)) [
  | inl absent ↦ rw (absent, transition_state) inv
  | inr (m, found) ↦ elim (Bool-cases (state_transitions m.state new)) [
    | inl allowed ↦
        rw (found, transition_state, allowed)
          (write-IsFamily (moved now new message m) m ms
            (record { id = refl; parent = refl; group = refl; architecture = refl; version = refl })
            (ap (λ k. model_of k ms) (model_of-id id ms m found) ∙ found) inv)
    | inr refused ↦ rw (found, transition_state, refused) inv
  ]
]

-- The rows after an insertion: the new one and those from before.
appended :
    (new : Model) (ms : Models) (k : ℕ) (m : Model)
    → model_of new.id ms ≡ none
    → model_of k (ms ++ new ∷ []) ≡ some m
    → ((k ≡ new.id) × (m ≡ new)) ⊎ (model_of k ms ≡ some m)
appended new ms k m fresh e = elim (Bool-cases (new.id == k)) [
  | inl mine ↦
      let same : new ≡ m = ground (arith, model_of-append new ms k fresh) in
      inl (sym ((==_iff new.id k).0 mine), sym same)
  | inr other ↦ inr (ground (arith, model_of-append new ms k fresh))
]

pub kept :
    (new : Model) (ms : Models) (k : ℕ) (m : Model)
    → model_of new.id ms ≡ none
    → model_of k ms ≡ some m
    → model_of k (ms ++ new ∷ []) ≡ some m
kept new ms k m fresh e = ground (arith, ==_iff new.id k, model_of-append new ms k fresh)

append-IsFamily :
    (now id : ℕ) (request : VersionRequest) (parent : Model) (ms : Models)
    → model_of id ms ≡ none
    → model_of request.parent_model_id ms ≡ some parent
    → has_version request.parent_model_id request.version ms ≡ false
    → IsFamily ms
    → IsFamily (ms ++ new_version now id request parent ∷ [])
unfolding new_version
append-IsFamily now id request parent ms fresh found unused inv =
    let new = new_version now id request parent in
    record {
      lineage = λ k p m e child. elim (appended new ms k m fresh e) [
        | inl (at, is_new) ↦
            let p_eq : request.parent_model_id ≡ p = ground arith in
            (
              parent,
              kept new ms p parent fresh (ap (λ q. model_of q ms) (sym p_eq) ∙ found),
              ap (λ r. r.group_id) is_new,
              ap (λ r. r.architecture_type) is_new,
            )
        | inr before ↦
            let (up, found', group, arch) = inv.lineage k p m before child in
            (up, kept new ms p up fresh found', group, arch)
      ];
      unique = λ i j p m n e f cm cn v. elim (appended new ms i m fresh e) [
        | inl (at, is_new) ↦ elim (appended new ms j n fresh f) [
          | inl (at', is_new') ↦ at ∙ sym at'
          | inr before ↦ absurd (
              has_version-model_of request.parent_model_id request.version ms j n unused before
                (ground arith) (ground arith))
        ]
        | inr before ↦ elim (appended new ms j n fresh f) [
          | inl (at', is_new') ↦ absurd (
              has_version-model_of request.parent_model_id request.version ms i m unused before
                (ground arith) (ground arith))
          | inr before' ↦ inv.unique i j p m n before before' cm cn v
        ]
      ];
    }

create-IsFamily :
    (now id : ℕ) (request : VersionRequest) (ms : Models)
    → model_of id ms ≡ none
    → IsFamily ms
    → IsFamily (create_version now id request ms).0
unfolding create_version
create-IsFamily now id request ms fresh inv =
    elim (Option-cases (model_of request.parent_model_id ms)) [
      | inl absent ↦ rw (absent, create_version) inv
      | inr (parent, found) ↦ elim (Bool-cases (is_ready parent.state)) [
        | inl usable ↦ elim (Bool-cases (has_version request.parent_model_id request.version ms)) [
          | inl used ↦ rw (found, create_version, usable, used) inv
          | inr unused ↦
              rw (found, create_version, usable, unused)
                (append-IsFamily now id request parent ms fresh found unused inv)
        ]
        | inr unready ↦ rw (found, create_version, unready) inv
      ]
    ]

-- A call of one of the managers.
pub data ModelCall : Type 0 where
  transition : ℕ → ModelState → Option String → ModelCall
  create : ℕ → VersionRequest → ModelCall

unfoldable pub call_manager : ℕ → ModelCall → Models → Models
call_manager now (transition id new message) ms = (transition_state now id new message ms).0
call_manager now (create id request) ms = (create_version now id request ms).0

-- A created row gets an id that no row has.
abbrev pub IsNew : ModelCall → Models → Type 0
IsNew (transition id new message) ms = Unit
IsNew (create id request) ms = model_of id ms ≡ none

-- From a table in which each version has a parent row of its group and architecture, and no two
-- versions of a parent have the same version text, every call leads to such a table again, provided
-- that a created row gets an id that no row has.
pub call_manager-IsFamily :
    (now : ℕ) (call : ModelCall) (ms : Models)
    → IsNew call ms
    → IsFamily ms
    → IsFamily (call_manager now call ms)
unfolding call_manager
call_manager-IsFamily now (transition id new message) ms fresh inv =
    transition-IsFamily now id new message ms inv
call_manager-IsFamily now (create id request) ms fresh inv =
    create-IsFamily now id request ms fresh inv
