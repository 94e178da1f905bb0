-- ===== src/Models/States.antt =====
-- Which states of a model follow one another, whatever calls are made.
use mesh_ml.Prelude.{
  ℕ, ◌≡◌, ◌⊎◌, refl, sym, ap, ◌∙◌, subst, String, true, Option, none, some, inl, inr, ◌==◌, ==_iff,
  arith, Option-cases, Bool-cases,
}
use mesh_ml.Models.Table.{
  ModelState, Model, Models, model_of, has_version, model_of-id, model_of-write,
}
use mesh_ml.Models.Managers.{
  state_transitions, is_ready, moved, transition_state, VersionRequest, new_version, create_version,
}
use mesh_ml.Models.Family.{kept, ModelCall, transition, create, call_manager, IsNew}

-- What a call leaves of a row: the same state, or one that `STATE_TRANSITIONS` lists.
abbrev pub Follows : ℕ → Model → Models → Type 0
Follows id m ms =
    (m' : Model) × (model_of id ms ≡ some m')
    × ((m'.state ≡ m.state) ⊎ (state_transitions m.state m'.state ≡ true))

transition-Follows :
    (now id : ℕ) (new : ModelState) (message : Option String) (ms : Models) (k : ℕ) (m : Model)
    → model_of k ms ≡ some m
    → Follows k m (transition_state now id new message ms).0
unfolding transition_state moved
transition-Follows now id new message ms k m e = elim (Option-cases (model_of id ms)) [
  | inl absent ↦ rw (absent, transition_state) (m, e, inl refl)
  | inr (row, found) ↦ elim (Bool-cases (state_transitions row.state new)) [
    | inl allowed ↦
        let wrote = moved now new message row in
        let here : model_of row.id ms ≡ some row =
          ap (λ q. model_of q ms) (model_of-id id ms row found) ∙ found in
        rw (found, transition_state, allowed)
          (elim (Bool-cases (row.id == k)) [
            | inl mine ↦
                let same : row ≡ m =
                  ground
                    (arith, sym here ∙ ap (λ q. model_of q ms) ((==_iff row.id k).0 mine) ∙ e) in
                (
                  wrote,
                  ground (arith, model_of-write wrote ms row k here),
                  inr (subst (λ o. state_transitions o.state new ≡ true) same allowed),
                )
            | inr other ↦ (m, ground (arith, model_of-write wrote ms row k here), inl refl)
          ])
    | inr refused ↦ rw (found, transition_state, refused) (m, e, inl refl)
  ]
]

create-Follows :
    (now id : ℕ) (request : VersionRequest) (ms : Models) (k : ℕ) (m : Model)
    → model_of id ms ≡ none
    → model_of k ms ≡ some m
    → Follows k m (create_version now id request ms).0
unfolding create_version new_version
create-Follows now id request ms k m fresh e =
    elim (Option-cases (model_of request.parent_model_id ms)) [
      | inl absent ↦ rw (absent, create_version) (m, e, inl refl)
      | inr (parent, found) ↦ elim (Bool-cases (is_ready parent.state)) [
        | inl usable ↦ elim (Bool-cases (has_version request.parent_model_id request.version ms)) [
          | inl used ↦ rw (found, create_version, usable, used) (m, e, inl refl)
          | inr unused ↦
              rw (found, create_version, usable, unused)
                (m, kept (new_version now id request parent) ms k m fresh e, inl refl)
        ]
        | inr unready ↦ rw (found, create_version, unready) (m, e, inl refl)
      ]
    ]

-- After every call each model that was there is there, with the same state or one that
-- `STATE_TRANSITIONS` lists for its old state, provided that a created row gets an id that no row has.
pub call_manager-Follows :
    (now : ℕ) (call : ModelCall) (ms : Models) (k : ℕ) (m : Model)
    → IsNew call ms
    → model_of k ms ≡ some m
    → Follows k m (call_manager now call ms)
unfolding call_manager
call_manager-Follows now (transition id new message) ms k m fresh e =
    transition-Follows now id new message ms k m e
call_manager-Follows now (create id request) ms k m fresh e =
    create-Follows now id request ms k m fresh e
