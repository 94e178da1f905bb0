-- ===== src/Gateway/Outsiders.antt =====
-- A request of somebody who does not manage a group, whatever it asks for.
use mesh_ml.Prelude.{
  ℕ, ◌≤◌, ◌≡◌, refl, String, not, Option, none, some, List, ltb, arith, Option-cases, inl, inr, ◌≢◌,
  Bool, false, ◌=ˢ◌,
}
use mesh_ml.Gateway.Tables.{
  Role, worker, User, GroupMember, GroupInvitation, Worker, Database, bad_request, forbidden,
  not_found, unprocessable, has_id, by_user, by_worker, is_group, has_code, is_worker_row,
  membership, is_not_manager, new_member,
}
use mesh_ml.Gateway.Invitations.{
  CreateInvitationRequest, is_valid_request, new_invitation, create_invitation, is_used_up, attach,
  linked, admit, accept_invitation, revoke_invitation,
}
use mesh_ml.Gateway.Fleet.{
  WorkerRegisterRequest, registration, register_worker, update_worker_capabilities,
  worker_heartbeat, deregister_worker,
}
use mesh_ml.Gateway.Counting.{tally, tally-append, tally-update_rows, add_row-ok}
use mesh_ml.Gateway.Endings.{
  Ensures, returns, chain_step, select_step, add_step, found_step, guard_step, of_add_row,
}
use mesh_ml.Gateway.Soundness.{IsSound}
use mesh_ml.Gateway.Access.{
  manages, owns, in_role, Respects, create_group-Respects, join_public_group-Respects,
  update_member_role-Respects, remove_member-Respects, update_group-Respects, delete_group-Respects,
}
use mesh_ml.Gateway.Admission.{with_worker-IsUnique}
use mesh_ml.Gateway.Calls.{
  GatewayCall, founding, joining, promoting, removing, editing, closing, inviting, accepting,
  revoking, enrolling, equipping, beating, retiring, serve, Ensures-tables,
}

module _ (g user : String) {db : Database} (inv : IsSound db) where
  -- The groups and the members are as they were.
  untouched :
      (invitations : List GroupInvitation) (workers : List Worker)
      → Respects user g db (record db { invitations = invitations; workers = workers })
  untouched invitations workers = record {
    rows = λ q. refl;
    owners = refl;
    managers = λ u. omega arith;
    roles = λ u q other. refl;
  }

  -- The groups and, where it matters, the places in them are as they were.
  respects :
      {members : List GroupMember} {invitations : List GroupInvitation} {workers : List Worker}
      → tally (owns g) members ≡ tally (owns g) db.members
      → ((u : String) → tally (manages g u) members ≤ tally (manages g u) db.members)
      → ((u : String) (q : Role → Bool)
          → (user =ˢ u) ≡ false
          → tally (in_role g u q) members ≡ tally (in_role g u q) db.members)
      → Respects user g db
          (record db { members = members; invitations = invitations; workers = workers })
  respects owners managers roles = record {
    rows = λ q. refl;
    owners = owners;
    managers = managers;
    roles = roles;
  }

  -- An invitation gives no right to manage.
  linked-Respects :
      (now : ℕ) (member_id group_id worker_id : String) (row : Option GroupMember)
      → Ensures
          (λ members.
            (tally (owns g) members ≡ tally (owns g) db.members)
            × ((u : String) → tally (manages g u) members ≤ tally (manages g u) db.members)
            × ((u : String) (q : Role → Bool)
                → (user =ˢ u) ≡ false
                → tally (in_role g u q) members ≡ tally (in_role g u q) db.members))
          (linked now member_id group_id user worker_id row db.members)
  unfolding linked
  linked-Respects now member_id group_id worker_id (some row) = returns (
    tally-update_rows (owns g) (has_id row.id) (attach worker_id) db.members (λ m. refl),
    λ u. omega (
      arith,
      tally-update_rows (manages g u) (has_id row.id) (attach worker_id) db.members (λ m. refl),
    ),
    λ u q other.
        tally-update_rows (in_role g u q) (has_id row.id) (attach worker_id) db.members (λ m. refl),
  )
  linked-Respects now member_id group_id worker_id none =
      let row = new_member now member_id group_id (some user) (some worker_id) worker in
      of_add_row (has_id member_id) row db.members λ members added.
        let (new_row, members_are) = add_row-ok (has_id member_id) row db.members added in
        rw members_are (
          ground (arith, tally-append (owns g) db.members row),
          λ u. ground (arith, tally-append (manages g u) db.members row),
          λ u q other. ground (arith, tally-append (in_role g u q) db.members row),
        )

  admit-Respects :
      (now : ℕ) (member_id email worker_id : String) (invitation : GroupInvitation)
      → Ensures (Respects user g db) (admit now member_id user email worker_id invitation db)
  unfolding admit membership
  admit-Respects now member_id email worker_id invitation =
      select_step (by_user invitation.group_id user) db.members _
        (inv.members.users invitation.group_id user)
        λ row is_row.
          chain_step _ (linked-Respects now member_id invitation.group_id worker_id row)
            λ members _ (owners, managers, roles).
              chain_step _ (with_worker-IsUnique worker_id email db.workers inv.workers)
                λ workers _ unique. returns (respects owners managers roles)

  accept_invitation-Respects :
      (now : ℕ) (member_id worker_id code email : String)
      → Ensures
          (λ out. Respects user g db out.0)
          (accept_invitation now member_id worker_id code user email db)
  unfolding accept_invitation
  accept_invitation-Respects now member_id worker_id code email =
      select_step (has_code code) db.invitations _ (inv.codes code) λ found is_found.
        found_step found not_found _ refl λ invitation is_there.
          guard_step (ltb invitation.expires_at now) bad_request _ refl λ in_time.
            guard_step (is_used_up invitation) bad_request _ refl λ left.
              select_step (is_group invitation.group_id) db.groups _
                (inv.groups invitation.group_id)
                λ known is_known. found_step known not_found _ refl λ group is_group_there.
                  select_step (by_worker invitation.group_id worker_id) db.members _
                    (inv.members.workers invitation.group_id worker_id)
                    λ existing is_existing. elim (Option-cases existing) [
                      | inr (row, e) ↦ rw e (returns (untouched db.invitations db.workers))
                      | inl e ↦ rw e (
                          chain_step _ (admit-Respects now member_id email worker_id invitation)
                            λ new _ respects. returns respects)
                    ]

  create_invitation-Respects :
      (now : ℕ) (code group_id : String) (request : CreateInvitationRequest)
      → Ensures
          (λ out. Respects user g db out.0)
          (create_invitation now code group_id request user db)
  unfolding create_invitation membership
  create_invitation-Respects now code group_id request =
      guard_step (not (is_valid_request request)) unprocessable _ refl λ valid.
        select_step (by_user group_id user) db.members _ (inv.members.users group_id user)
          λ row is_row. guard_step (is_not_manager row) forbidden _ refl λ allowed.
            add_step (has_code code) (new_invitation now code group_id request user) db.invitations
              _ λ invitations added. returns (untouched invitations db.workers)

  revoke_invitation-Respects :
      (code : String) → Ensures (Respects user g db) (revoke_invitation code user db)
  unfolding revoke_invitation membership
  revoke_invitation-Respects code =
      select_step (has_code code) db.invitations _ (inv.codes code) λ found is_found.
        found_step found not_found _ refl λ invitation is_there.
          select_step (by_user invitation.group_id user) db.members _
            (inv.members.users invitation.group_id user)
            λ row is_row.
              guard_step (is_not_manager row) forbidden _ refl
                λ allowed. returns (untouched _ db.workers)

  register_worker-Respects :
      (now : ℕ) (request : WorkerRegisterRequest)
      → Ensures (Respects user g db) (register_worker now request db)
  unfolding register_worker
  register_worker-Respects now request =
      select_step (is_worker_row request.worker_id) db.workers _ (inv.workers request.worker_id)
        λ row found. elim (Option-cases row) [
          | inr (w, e) ↦ rw e (returns (untouched db.invitations _))
          | inl e ↦ rw e (
              add_step (is_worker_row request.worker_id) (registration now request) db.workers _
                λ workers added. returns (untouched db.invitations workers))
        ]

  update_worker_capabilities-Respects :
      (now : ℕ) (worker_id capabilities : String)
      → Ensures (Respects user g db) (update_worker_capabilities now worker_id capabilities db)
  unfolding update_worker_capabilities
  update_worker_capabilities-Respects now worker_id capabilities =
      select_step (is_worker_row worker_id) db.workers _ (inv.workers worker_id) λ row found.
        found_step row not_found _ refl λ known is_known. returns (untouched db.invitations _)

  worker_heartbeat-Respects :
      (now : ℕ) (worker_id : String)
      → Ensures (Respects user g db) (worker_heartbeat now worker_id db)
  unfolding worker_heartbeat
  worker_heartbeat-Respects now worker_id =
      select_step (is_worker_row worker_id) db.workers _ (inv.workers worker_id) λ row found.
        found_step row not_found _ refl λ known is_known. returns (untouched db.invitations _)

  deregister_worker-Respects :
      (worker_id : String) → Ensures (Respects user g db) (deregister_worker worker_id db)
  unfolding deregister_worker
  deregister_worker-Respects worker_id =
      select_step (is_worker_row worker_id) db.workers _ (inv.workers worker_id) λ row found.
        found_step row not_found _ refl λ known is_known. returns (untouched db.invitations _)

-- On sound tables, a request of a user who is neither an owner nor an admin of a group that exists
-- leaves the group's row as it is, its number of owners too, makes nobody an owner or an admin of it
-- who was not, and leaves every other user in the group, or out of it, in the role that the user had.
-- So no request of such a user deletes the group, edits it, or removes another user or
-- changes another user's role.
pub serve-Respects :
    (now : ℕ) (user : User) (call : GatewayCall) (db : Database) (g : String)
    → IsSound db
    → tally (is_group g) db.groups ≢ 0
    → tally (manages g user.id) db.members ≡ 0
    → Ensures (Respects user.id g db) (serve now user call db)
serve-Respects now user (founding id member_id request) db g inv known outsider =
    Ensures-tables (create_group-Respects g user.id inv now id member_id request known)
serve-Respects now user (joining member_id group_id worker_id) db g inv known outsider =
    Ensures-tables (join_public_group-Respects g user.id inv now member_id group_id worker_id)
serve-Respects now user (promoting group_id user_id role) db g inv known outsider =
    update_member_role-Respects g inv user.id outsider group_id user_id role
serve-Respects now user (removing group_id user_id) db g inv known outsider =
    remove_member-Respects g inv user.id outsider group_id user_id
serve-Respects now user (editing group_id request) db g inv known outsider =
    Ensures-tables (update_group-Respects g inv user.id outsider group_id request)
serve-Respects now user (closing group_id) db g inv known outsider =
    delete_group-Respects g inv user.id outsider group_id
serve-Respects now user (inviting code group_id request) db g inv known outsider =
    Ensures-tables (create_invitation-Respects g user.id inv now code group_id request)
serve-Respects now user (accepting member_id worker_id code) db g inv known outsider =
    Ensures-tables
      (accept_invitation-Respects g user.id inv now member_id worker_id code user.email)
serve-Respects now user (revoking code) db g inv known outsider =
    revoke_invitation-Respects g user.id inv code
serve-Respects now user (enrolling request) db g inv known outsider =
    register_worker-Respects g user.id inv now request
serve-Respects now user (equipping worker_id capabilities) db g inv known outsider =
    update_worker_capabilities-Respects g user.id inv now worker_id capabilities
serve-Respects now user (beating worker_id) db g inv known outsider =
    worker_heartbeat-Respects g user.id inv now worker_id
serve-Respects now user (retiring worker_id) db g inv known outsider =
    deregister_worker-Respects g user.id inv worker_id
