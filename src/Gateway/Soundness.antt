-- ===== src/Gateway/Soundness.antt =====
-- The gateway's tables under every handler that writes to them.
use mesh_ml.Prelude.{
  is_some, ℕ, ◌≡◌, refl, String, Bool, false, ◌&&◌, ◌||◌, not, Option, none, some, List, ◌=ˢ◌, ◌==◌,
  ltb, eq_iff, arith, ◌≢◌, subst,
}
use mesh_ml.Gateway.Tables.{
  Role, owner, worker, Group, GroupMember, GroupInvitation, Worker, Database, ok, bad_request,
  forbidden, not_found, select_one, any_row, has_id, in_group, by_user, by_worker, is_group,
  has_code, is_worker_row, membership, is_not_manager, is_owner, integrity_error, new_member,
  unprocessable,
}
use mesh_ml.Gateway.Groups.{
  GroupCreateRequest, GroupUpdateRequest, create_group, join_public_group, update_member_role,
  remove_member, updated, new_group, update_group, delete_group, is_not_owner,
}
use mesh_ml.Gateway.Invitations.{
  CreateInvitationRequest, create_invitation, revoke_invitation, is_valid_request, new_invitation,
}
use mesh_ml.Gateway.Counting.{
  tally, tally_mono, Unique, Unique-append, Unique-delete_rows, Unique-update_rows, tally-append,
  tally-delete_rows, select_one-none, select_one-some, add_row-ok,
}
use mesh_ml.Gateway.Endings.{Ensures, returns, select_step, add_step, guard_step, found_step}
use mesh_ml.Gateway.Memberships.{
  AreMembers, append-AreMembers, delete-AreMembers, update-AreMembers, add_group-AreMembers,
  delete_group-AreMembers, update_groups-AreMembers,
}

-- An invitation with a limit that is not positive, or that is used more often than it allows.
abbrev pub is_over : GroupInvitation → Bool
is_over i = elim i.max_uses [ none ↦ false | some n ↦ n == 0 || ltb n i.current_uses ]

pub record IsSound (db : Database) : Type 0 where
  pub members : AreMembers db.groups db.members
  pub groups : Unique is_group db.groups
  pub codes : Unique has_code db.invitations
  pub within : tally is_over db.invitations ≡ 0
  pub workers : Unique is_worker_row db.workers

-- Only the rows of members change.
pub with_members :
    {db : Database} (members : List GroupMember)
    → IsSound db
    → AreMembers db.groups members
    → IsSound (record db { members = members })
with_members members inv sound = record {
  members = sound;
  groups = inv.groups;
  codes = inv.codes;
  within = inv.within;
  workers = inv.workers;
}

-- Only the rows of workers change.
pub with_workers :
    {db : Database} (workers : List Worker)
    → IsSound db
    → Unique is_worker_row workers
    → IsSound (record db { workers = workers })
with_workers workers inv unique = record {
  members = inv.members;
  groups = inv.groups;
  codes = inv.codes;
  within = inv.within;
  workers = unique;
}

-- The group of a row that a query found is not counted as absent.
pub found_group :
    (g : String) (groups : List Group) {group : Group}
    → select_one (is_group g) groups ≡ ok (some group)
    → tally (is_group g) groups ≢ 0
found_group g groups {group = group} found none_there =
    let (is_g, counted) = select_one-some (is_group g) (is_group g) groups {x = group} found in
    omega (arith, counted is_g)

pub not_some : {A : Type 0} (o : Option A) → is_some o ≡ false → o ≡ none
not_some none h = refl
not_some (some a) h = absurd (cc)

-- No one has a place in a group without rows.
empty_group :
    (g : String) (members : List GroupMember)
    → tally (in_group g) members ≡ 0
    → ((u : String) → tally (by_user g u) members ≡ 0)
      × ((w : String) → tally (by_worker g w) members ≡ 0)
empty_group g members none_there = (
  λ u. omega (arith, tally_mono (by_user g u) (in_group g) members (λ m h. ground arith)),
  λ w. omega (arith, tally_mono (by_worker g w) (in_group g) members (λ m h. ground arith)),
)

module _ {db : Database} (inv : IsSound db) where
  pub create_group-IsSound :
      (now : ℕ) (id member_id : String) (request : GroupCreateRequest) (user : String)
      → Ensures (λ out. IsSound out.0) (create_group now id member_id request user db)
  unfolding create_group
  create_group-IsSound now id member_id request user =
      add_step (is_group id) (new_group now id request user) db.groups _ λ groups added.
        add_step (has_id member_id) (new_member now member_id id (some user) none owner) db.members
          _
          λ members joined.
            let group = new_group now id request user in
            let (new_id, groups_are) = add_row-ok (is_group id) group db.groups added in
            let creator = new_member now member_id id (some user) none owner in
            let (new_row, members_are) = add_row-ok (has_id member_id) creator db.members joined in
            let (no_user, no_worker) = empty_group id db.members (inv.members.grouped id new_id) in
            returns (
              rw (groups_are, members_are)
                record {
                  members =
                      append-AreMembers
                        (add_group-AreMembers group db.groups db.members inv.members) creator
                        new_row (λ u e. no_user u) (λ w e. no_worker w)
                        (ground (arith, tally-append (is_group id) db.groups group, eq_iff id id));
                  groups =
                      Unique-append is_group db.groups inv.groups id group
                        (λ j same. (eq_iff id j).0 same) new_id;
                  codes = inv.codes;
                  within = inv.within;
                  workers = inv.workers;
                })

  pub join_public_group-IsSound :
      (now : ℕ) (member_id group_id worker_id : String)
      → Ensures (λ out. IsSound out.0) (join_public_group now member_id group_id worker_id db)
  unfolding join_public_group
  join_public_group-IsSound now member_id group_id worker_id =
      select_step (is_group group_id) db.groups _ (inv.groups group_id) λ found is_found.
        found_step found not_found _ refl λ group is_group_there.
          guard_step (not group.is_public) forbidden _ refl λ public.
            select_step (by_worker group_id worker_id) db.members _
              (inv.members.workers group_id worker_id)
              λ existing is_existing. guard_step (is_some existing) bad_request _ refl λ absent.
                add_step (has_id member_id)
                  (new_member now member_id group_id none (some worker_id) worker) db.members _
                  λ members added.
                    let row = new_member now member_id group_id none (some worker_id) worker in
                    let (new_row, members_are) =
                      add_row-ok (has_id member_id) row db.members added in
                    returns (
                      rw members_are (
                        with_members _ inv (
                          append-AreMembers inv.members row new_row (λ u e. absurd (cc))
                            (λ w e.
                              subst (λ v. tally (by_worker group_id v) db.members ≡ 0) (cc)
                                (select_one-none (by_worker group_id worker_id) db.members (
                                  subst
                                    (λ o.
                                      select_one (by_worker group_id worker_id) db.members ≡ ok o)
                                    (not_some existing absent) is_existing)))
                            (found_group group_id db.groups {group = group} (
                              subst (λ o. select_one (is_group group_id) db.groups ≡ ok o)
                                is_group_there is_found)))))

  pub update_member_role-IsSound :
      (group_id user_id : String) (role : Role) (user : String)
      → Ensures IsSound (update_member_role group_id user_id role user db)
  unfolding update_member_role membership
  update_member_role-IsSound group_id user_id role user =
      select_step (by_user group_id user) db.members _ (inv.members.users group_id user)
        λ current is_current. guard_step (is_not_manager current) forbidden _ refl λ allowed.
          select_step (by_user group_id user_id) db.members _ (inv.members.users group_id user_id)
            λ target is_target. found_step target not_found _ refl λ row is_row. returns (
              with_members _ inv (
                update-AreMembers inv.members (has_id row.id) (λ m. record m { role = role })
                  (λ m. refl) (λ m. refl) (λ m. refl) (λ m. refl)))

  pub remove_member-IsSound :
      (group_id user_id user : String) → Ensures IsSound (remove_member group_id user_id user db)
  unfolding remove_member membership
  remove_member-IsSound group_id user_id user =
      select_step (by_user group_id user) db.members _ (inv.members.users group_id user)
        λ current is_current.
          guard_step (not (user =ˢ user_id) && is_not_manager current) forbidden _ refl λ allowed.
            select_step (by_user group_id user_id) db.members _ (inv.members.users group_id user_id)
              λ target is_target. found_step target not_found _ refl λ row is_row.
                guard_step (is_owner row.role) bad_request _ refl λ not_owner.
                  returns (with_members _ inv (delete-AreMembers inv.members (has_id row.id)))

  pub update_group-IsSound :
      (group_id : String) (request : GroupUpdateRequest) (user : String)
      → Ensures (λ out. IsSound out.0) (update_group group_id request user db)
  unfolding update_group membership updated
  update_group-IsSound group_id request user =
      select_step (by_user group_id user) db.members _ (inv.members.users group_id user)
        λ current is_current. guard_step (is_not_manager current) forbidden _ refl λ allowed.
          select_step (is_group group_id) db.groups _ (inv.groups group_id) λ found is_found.
            found_step found not_found _ refl λ group is_group_there. returns record {
              members =
                  update_groups-AreMembers (is_group group_id) (updated request) db.groups
                    db.members (λ g. refl) inv.members;
              groups =
                  Unique-update_rows is_group db.groups inv.groups (is_group group_id)
                    (updated request) (λ j g. refl);
              codes = inv.codes;
              within = inv.within;
              workers = inv.workers;
            }

  pub delete_group-IsSound :
      (group_id user : String) → Ensures IsSound (delete_group group_id user db)
  unfolding delete_group membership
  delete_group-IsSound group_id user =
      select_step (by_user group_id user) db.members _ (inv.members.users group_id user)
        λ current is_current. guard_step (is_not_owner current) forbidden _ refl λ allowed.
          select_step (is_group group_id) db.groups _ (inv.groups group_id) λ found is_found.
            found_step found not_found _ refl λ group is_group_there.
              guard_step (any_row (λ j. j.group_id =ˢ group_id) db.jobs) integrity_error _ refl
                λ no_jobs. returns record {
                  members = delete_group-AreMembers group_id db.groups db.members inv.members;
                  groups = Unique-delete_rows is_group db.groups inv.groups (is_group group_id);
                  codes = Unique-delete_rows has_code db.invitations inv.codes _;
                  within = omega (
                    arith,
                    inv.within,
                    tally-delete_rows is_over (λ i. i.group_id =ˢ group_id) db.invitations,
                  );
                  workers = inv.workers;
                }

  pub create_invitation-IsSound :
      (now : ℕ) (code group_id : String) (request : CreateInvitationRequest) (user : String)
      → Ensures (λ out. IsSound out.0) (create_invitation now code group_id request user db)
  unfolding create_invitation membership
  create_invitation-IsSound now code group_id request user =
      guard_step (not (is_valid_request request)) unprocessable _ refl λ valid.
        select_step (by_user group_id user) db.members _ (inv.members.users group_id user)
          λ row is_row. guard_step (is_not_manager row) forbidden _ refl λ allowed.
            add_step (has_code code) (new_invitation now code group_id request user) db.invitations
              _
              λ invitations added.
                let row = new_invitation now code group_id request user in
                let (new_code, rows_are) = add_row-ok (has_code code) row db.invitations added in
                returns (
                  rw rows_are record {
                    members = inv.members;
                    groups = inv.groups;
                    codes =
                        Unique-append has_code db.invitations inv.codes code row
                          (λ j same. (eq_iff code j).0 same) new_code;
                    within = ground (arith, inv.within, tally-append is_over db.invitations row);
                    workers = inv.workers;
                  })

  pub revoke_invitation-IsSound :
      (code user : String) → Ensures IsSound (revoke_invitation code user db)
  unfolding revoke_invitation membership
  revoke_invitation-IsSound code user =
      select_step (has_code code) db.invitations _ (inv.codes code) λ found is_found.
        found_step found not_found _ refl λ invitation is_there.
          select_step (by_user invitation.group_id user) db.members _
            (inv.members.users invitation.group_id user)
            λ row is_row. guard_step (is_not_manager row) forbidden _ refl λ allowed.
              returns record {
                members = inv.members;
                groups = inv.groups;
                codes = Unique-delete_rows has_code db.invitations inv.codes (has_code code);
                within =
                    omega
                      (arith, inv.within, tally-delete_rows is_over (has_code code) db.invitations);
                workers = inv.workers;
              }
