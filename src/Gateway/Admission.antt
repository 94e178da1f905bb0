-- ===== src/Gateway/Admission.antt =====
-- The tables under the acceptance of an invitation and under the registration of workers.
use mesh_ml.Prelude.{
  ap, ◌∙◌, ◌≢◌, ◌&&◌, ℕ, ◌≡◌, refl, String, true, false, not, Option, none, some, List, ltb, eq_iff,
  arith, Option-cases, inl, inr, subst, ◌+◌, ◌=ˢ◌, ◌⊎◌, [], ◌∷◌, if◌then◌else◌, Bool-cases,
}
use mesh_ml.Gateway.Tables.{
  worker, Group, GroupMember, GroupInvitation, Worker, Database, ok, not_found, bad_request,
  select_one, update_rows, has_id, by_user, by_worker, is_group, has_code, is_worker_row,
  membership, new_member,
}
use mesh_ml.Gateway.Invitations.{
  placeholder, is_used_up, use_once, linked, with_worker, admit, accept_invitation,
}
use mesh_ml.Gateway.Fleet.{
  WorkerRegisterRequest, registration, reregister, register_worker, equip,
  update_worker_capabilities, worker_heartbeat, deregister_worker,
}
use mesh_ml.Gateway.Counting.{
  tally_disjoint, tally_mono, tally_none, tally-false, tally-update_rows_le, tally, Unique,
  Unique-append, Unique-delete_rows, Unique-update_rows, select_one-none, select_one-some,
  add_row-ok,
}
use mesh_ml.Gateway.Endings.{
  of_add_row, Ensures, chain_step, returns, select_step, add_step, guard_step, found_step,
}
use mesh_ml.Gateway.Memberships.{AreMembers, append-AreMembers, attach-AreMembers}
use mesh_ml.Gateway.Soundness.{IsSound, is_over, with_workers, found_group}

module _ {groups : List Group} {members : List GroupMember} (inv : AreMembers groups members) where
  -- The worker joins, with a row of its own or on the user's.
  linked-AreMembers :
      (now : ℕ) (member_id group_id user worker_id : String) (row : Option GroupMember)
      → select_one (by_user group_id user) members ≡ ok row
      → tally (by_worker group_id worker_id) members ≡ 0
      → tally (is_group group_id) groups ≢ 0
      → Ensures (AreMembers groups) (linked now member_id group_id user worker_id row members)
  unfolding linked
  linked-AreMembers now member_id group_id user worker_id (some row) found new known =
      returns (attach-AreMembers inv group_id user worker_id found new)
  linked-AreMembers now member_id group_id user worker_id none found new known =
      let row = new_member now member_id group_id (some user) (some worker_id) worker in
      of_add_row (has_id member_id) row members λ rows added.
        let (new_row, rows_are) = add_row-ok (has_id member_id) row members added in
        rw rows_are (
          append-AreMembers inv row new_row
            (λ u e.
              subst (λ v. tally (by_user group_id v) members ≡ 0) (cc)
                (select_one-none (by_user group_id user) members found))
            (λ w e. subst (λ v. tally (by_worker group_id v) members ≡ 0) (cc) new) known)

pub with_worker-IsUnique :
    (worker_id email : String) (workers : List Worker)
    → Unique is_worker_row workers
    → Ensures (Unique is_worker_row) (with_worker worker_id email workers)
unfolding with_worker
with_worker-IsUnique worker_id email workers inv =
    select_step (is_worker_row worker_id) workers _ (inv worker_id) λ row found.
      elim (Option-cases row) [
        | inr (w, e) ↦ rw e (returns inv)
        | inl e ↦ rw e (
            of_add_row (is_worker_row worker_id) (placeholder worker_id email) workers λ rows added.
              let (new_row, rows_are) =
                add_row-ok (is_worker_row worker_id) (placeholder worker_id email) workers added in
              rw rows_are (
                Unique-append is_worker_row workers inv worker_id (placeholder worker_id email)
                  (λ j same. (eq_iff worker_id j).0 same) new_row))
      ]

-- Only a used up invitation is over after one more use.
last_use :
    (x : GroupInvitation) → is_over (use_once x) ≡ true → is_over x ≡ false → is_used_up x ≡ true
last_use x now before = elim (Option-cases x.max_uses) [
  | inl e ↦ ground arith
  | inr (n, e) ↦ ground arith
]

-- One more use of the invitation of a code, which was not used up.
use_once-within :
    (code : String) (invitations : List GroupInvitation) {invitation : GroupInvitation}
    → Unique has_code invitations
    → select_one (has_code code) invitations ≡ ok (some invitation)
    → is_used_up invitation ≡ false
    → tally is_over invitations ≡ 0
    → tally is_over (update_rows (has_code invitation.code) use_once invitations) ≡ 0
use_once-within code invitations {invitation = i} unique found left within =
    let spent = λ (x : GroupInvitation). has_code i.code x && is_used_up x in
    let unspent = λ (x : GroupInvitation). has_code i.code x && not (is_used_up x) in
    let (is_code, counted) = select_one-some (has_code code) unspent invitations {x = i} found in
    omega (
      arith,
      within,
      unique i.code,
      counted (rw left (ground (arith, eq_iff i.code i.code))),
      tally_disjoint spent unspent (has_code i.code) invitations (λ x h. ground arith)
          (λ x h. ground arith) (λ x h k. ground arith),
      tally-update_rows_le is_over (has_code i.code) spent use_once invitations
          (λ x here now before. rw here (last_use x now before)),
    )

-- How often the invitations of a code have been used, by their counters.
unfoldable pub uses : String → List GroupInvitation → ℕ
uses code [] = 0
uses code (i ∷ rest) = if has_code code i then i.current_uses + uses code rest else uses code rest

uses-use_once :
    (k c : String) (rows : List GroupInvitation)
    → uses c (update_rows (has_code k) use_once rows)
      ≡ uses c rows + tally (λ i. has_code k i && has_code c i) rows
unfolding uses tally update_rows
uses-use_once k c [] = refl
uses-use_once k c (i ∷ rest) = ground (arith, uses-use_once k c rest)

-- The acceptance of a code leaves everything as it was, or counts as one more use of the code, and of no
-- other.
abbrev pub IsCounted : String → Database → Database → Type 0
IsCounted code db db' =
    (db' ≡ db)
    ⊎ ((c : String) → uses c db'.invitations ≡ uses c db.invitations + (if code =ˢ c then 1 else 0))

used_once :
    (code : String) (rows : List GroupInvitation) {invitation : GroupInvitation}
    → Unique has_code rows
    → select_one (has_code code) rows ≡ ok (some invitation)
    → (c : String)
    → uses c (update_rows (has_code invitation.code) use_once rows)
      ≡ uses c rows + (if code =ˢ c then 1 else 0)
used_once code rows {invitation = i} unique found c =
    let both = λ (x : GroupInvitation). has_code i.code x && has_code c x in
    let (is_code, counted) = select_one-some (has_code code) both rows {x = i} found in
    let same : i.code ≡ code = (eq_iff i.code code).0 is_code in
    uses-use_once i.code c rows ∙ elim (Bool-cases (code =ˢ c)) [
      | inl mine ↦
          let at : code ≡ c = (eq_iff code c).0 mine in
          rw mine (
            omega (
              arith,
              unique c,
              tally_mono both (has_code c) rows (λ x h. ground arith),
              counted (ground (arith, eq_iff i.code i.code, eq_iff i.code c)),
            ))
      | inr other ↦ rw other (
          omega (
            arith,
            tally_none both (λ x. false) rows (tally-false rows)
                (λ x h. ground (arith, eq_iff x.code i.code, eq_iff x.code c, eq_iff code c)),
          ))
    ]

module _ {db : Database} (inv : IsSound db) where
  admit-IsSound :
      (now : ℕ) (code member_id user email worker_id : String) (invitation : GroupInvitation)
      → select_one (has_code code) db.invitations ≡ ok (some invitation)
      → is_used_up invitation ≡ false
      → tally (is_group invitation.group_id) db.groups ≢ 0
      → tally (by_worker invitation.group_id worker_id) db.members ≡ 0
      → Ensures
          (λ new. IsSound new × IsCounted code db new)
          (admit now member_id user email worker_id invitation db)
  unfolding admit membership
  admit-IsSound now code member_id user email worker_id invitation found left known new =
      select_step (by_user invitation.group_id user) db.members _
        (inv.members.users invitation.group_id user)
        λ row is_row.
          chain_step _
            (linked-AreMembers inv.members now member_id invitation.group_id user worker_id row
              is_row new known)
            λ members _ are_members.
              chain_step _ (with_worker-IsUnique worker_id email db.workers inv.workers)
                λ workers _ are_workers. returns (
                  record {
                    members = are_members;
                    groups = inv.groups;
                    codes =
                        Unique-update_rows has_code db.invitations inv.codes
                          (has_code invitation.code) use_once (λ j i. refl);
                    within = use_once-within code db.invitations inv.codes found left inv.within;
                    workers = are_workers;
                  },
                  inr (used_once code db.invitations {invitation = invitation} inv.codes found),
                )

  pub accept_invitation-IsSound :
      (now : ℕ) (member_id worker_id invitation_code user email : String)
      → Ensures
          (λ out. IsSound out.0 × IsCounted invitation_code db out.0)
          (accept_invitation now member_id worker_id invitation_code user email db)
  unfolding accept_invitation
  accept_invitation-IsSound now member_id worker_id invitation_code user email =
      select_step (has_code invitation_code) db.invitations _ (inv.codes invitation_code)
        λ found is_found. found_step found not_found _ refl λ invitation is_there.
          guard_step (ltb invitation.expires_at now) bad_request _ refl λ in_time.
            guard_step (is_used_up invitation) bad_request _ refl λ left.
              select_step (is_group invitation.group_id) db.groups _
                (inv.groups invitation.group_id)
                λ known is_known. found_step known not_found _ refl λ group is_group_there.
                  select_step (by_worker invitation.group_id worker_id) db.members _
                    (inv.members.workers invitation.group_id worker_id)
                    λ existing is_existing. elim (Option-cases existing) [
                      | inr (row, e) ↦ rw e (returns (inv, inl refl))
                      | inl e ↦ rw e (
                          chain_step _
                            (admit-IsSound now invitation_code member_id user email worker_id
                              invitation (is_found ∙ ap ok is_there) left
                              (found_group invitation.group_id db.groups {group = group}
                                (is_known ∙ ap ok is_group_there))
                              (select_one-none (by_worker invitation.group_id worker_id) db.members
                                (is_existing ∙ ap ok e)))
                            λ new _ sound. returns sound)
                    ]

  pub register_worker-IsSound :
      (now : ℕ) (request : WorkerRegisterRequest) → Ensures IsSound (register_worker now request db)
  unfolding register_worker
  register_worker-IsSound now request =
      select_step (is_worker_row request.worker_id) db.workers _ (inv.workers request.worker_id)
        λ row found. elim (Option-cases row) [
          | inr (w, e) ↦ rw e (
              returns (
                with_workers _ inv (
                  Unique-update_rows is_worker_row db.workers inv.workers
                    (is_worker_row request.worker_id) (reregister now request) (λ j x. refl))))
          | inl e ↦ rw e (
              add_step (is_worker_row request.worker_id) (registration now request) db.workers _
                λ workers added.
                  let (free, workers_are) =
                    add_row-ok (is_worker_row request.worker_id) (registration now request)
                      db.workers added in
                  returns (
                    rw workers_are (
                      with_workers _ inv (
                        Unique-append is_worker_row db.workers inv.workers request.worker_id
                          (registration now request) (λ j same. (eq_iff request.worker_id j).0 same)
                          free))))
        ]

  pub update_worker_capabilities-IsSound :
      (now : ℕ) (worker_id capabilities : String)
      → Ensures IsSound (update_worker_capabilities now worker_id capabilities db)
  unfolding update_worker_capabilities
  update_worker_capabilities-IsSound now worker_id capabilities =
      select_step (is_worker_row worker_id) db.workers _ (inv.workers worker_id) λ row found.
        found_step row not_found _ refl λ known is_known. returns (
          with_workers _ inv (
            Unique-update_rows is_worker_row db.workers inv.workers (is_worker_row worker_id)
              (equip now capabilities) (λ j x. refl)))

  pub worker_heartbeat-IsSound :
      (now : ℕ) (worker_id : String) → Ensures IsSound (worker_heartbeat now worker_id db)
  unfolding worker_heartbeat
  worker_heartbeat-IsSound now worker_id =
      select_step (is_worker_row worker_id) db.workers _ (inv.workers worker_id) λ row found.
        found_step row not_found _ refl λ known is_known. returns (
          with_workers _ inv (
            Unique-update_rows is_worker_row db.workers inv.workers (is_worker_row worker_id) _
              (λ j x. refl)))

  pub deregister_worker-IsSound :
      (worker_id : String) → Ensures IsSound (deregister_worker worker_id db)
  unfolding deregister_worker
  deregister_worker-IsSound worker_id =
      select_step (is_worker_row worker_id) db.workers _ (inv.workers worker_id) λ row found.
        found_step row not_found _ refl λ known is_known. returns (
          with_workers _ inv
            (Unique-delete_rows is_worker_row db.workers inv.workers (is_worker_row worker_id)))
