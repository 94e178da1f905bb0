-- ===== src/Gateway/Groups.antt =====
-- routers/groups.py: the handlers on groups and their members. `user` is the id of the caller, and a
-- row is returned where the handler returns its fields.
use mesh_ml.Prelude.{
  ℕ, String, Bool, true, false, ◌&&◌, not, Option, none, some, List, [], ◌∷◌, length, ◌=ˢ◌,
  if◌then◌else◌, filter_by, is_some,
}
use mesh_ml.Gateway.Tables.{
  Role, owner, worker, is_owner, Group, GroupMember, Database, Response, ok, bad_request, forbidden,
  not_found, integrity_error, ◌>>=◌, ◌>>◌, raise_if, or_raise, select_one, add_row, any_row,
  update_rows, delete_rows, has_id, in_group, by_worker, is_group, membership, is_not_manager,
  new_member,
}

pub record GroupCreateRequest : Type 0 where
  pub name : String
  pub description : Option String
  pub is_public : Bool

pub record GroupUpdateRequest : Type 0 where
  pub name : Option String
  pub description : Option String
  pub is_public : Option Bool

abbrev pub or_else {ℓ} : {A : Type ℓ} → Option A → A → A
or_else none a = a
or_else (some b) a = b

abbrev pub new_group : ℕ → String → GroupCreateRequest → String → Group
new_group now id request user = record {
  id = id;
  name = request.name;
  description = request.description;
  is_public = request.is_public;
  owner_id = user;
  created_at = now;
}

-- `id` and `member_id` are the UUIDs of the new rows.
unfoldable pub create_group :
    ℕ
    → (id member_id : String) → GroupCreateRequest
    → String
    → Database
    → Response (Database × Group)
create_group now id member_id request user db = do
  let group = new_group now id request user
  groups ← add_row (is_group id) group db.groups
  let owner_member = new_member now member_id id (some user) none owner
  members ← add_row (has_id member_id) owner_member db.members
  ok (record db { groups = groups; members = members }, group)

-- The loop over the memberships: the groups that are found, each with the role.
unfoldable pub with_groups : List GroupMember → List Group → Response (List (Group × Role))
with_groups [] groups = ok []
with_groups (m ∷ rest) groups = do
  group ← select_one (is_group m.group_id) groups
  groups_data ← with_groups rest groups
  ok (elim group [ none ↦ groups_data | some g ↦ (g, m.role) ∷ groups_data ])

unfoldable pub list_user_groups : String → Database → Response (List (Group × Role))
unfolding with_groups
list_user_groups user db =
    with_groups (filter_by (λ m. elim m.user_id [ none ↦ false | some u ↦ u =ˢ user ]) db.members)
      db.groups

abbrev pub with_counts : List GroupMember → List Group → List (Group × ℕ)
with_counts members [] = []
with_counts members (g ∷ rest) =
    (g, length (filter_by (in_group g.id) members)) ∷ with_counts members rest

-- Each public group with the number of its members.
unfoldable pub list_public_groups : Database → List (Group × ℕ)
list_public_groups db = with_counts db.members (filter_by (λ g. g.is_public) db.groups)

unfoldable pub get_group : String → String → Database → Response Group
get_group group_id user db = do
  found ← select_one (is_group group_id) db.groups
  group ← or_raise found not_found
  let member = if group.is_public then ok none else membership group_id user db
  row ← member
  raise_if (not group.is_public && not (is_some row)) forbidden
  ok group

unfoldable pub join_public_group :
    ℕ → String → (group_id worker_id : String) → Database → Response (Database × Group)
join_public_group now member_id group_id worker_id db = do
  found ← select_one (is_group group_id) db.groups
  group ← or_raise found not_found
  raise_if (not group.is_public) forbidden
  existing_member ← select_one (by_worker group_id worker_id) db.members
  raise_if (is_some existing_member) bad_request
  let new_row = new_member now member_id group_id none (some worker_id) worker
  members ← add_row (has_id member_id) new_row db.members
  ok (record db { members = members }, group)

unfoldable pub list_group_members : String → String → Database → Response (List GroupMember)
list_group_members group_id user db = do
  row ← membership group_id user db
  raise_if (not (is_some row)) forbidden
  ok (filter_by (in_group group_id) db.members)

unfoldable pub update_member_role :
    (group_id user_id : String) → Role → String → Database → Response Database
update_member_role group_id user_id role user db = do
  current_member ← membership group_id user db
  raise_if (is_not_manager current_member) forbidden
  target ← membership group_id user_id db
  target_member ← or_raise target not_found
  ok (record db {
    members = update_rows (has_id target_member.id) (λ m. record m { role = role }) db.members;
  })

unfoldable pub remove_member : (group_id user_id : String) → String → Database → Response Database
remove_member group_id user_id user db = do
  current_member ← membership group_id user db
  raise_if (not (user =ˢ user_id) && is_not_manager current_member) forbidden
  target ← membership group_id user_id db
  target_member ← or_raise target not_found
  raise_if (is_owner target_member.role) bad_request
  ok (record db { members = delete_rows (has_id target_member.id) db.members })

-- The fields that the request gives.
unfoldable pub updated : GroupUpdateRequest → Group → Group
updated request group = record group {
  name = or_else request.name group.name;
  description = if is_some request.description then request.description else group.description;
  is_public = or_else request.is_public group.is_public;
}

unfoldable pub update_group :
    String → GroupUpdateRequest → String → Database → Response (Database × Group)
unfolding updated
update_group group_id request user db = do
  current_member ← membership group_id user db
  raise_if (is_not_manager current_member) forbidden
  found ← select_one (is_group group_id) db.groups
  group ← or_raise found not_found
  ok (
    record db { groups = update_rows (is_group group_id) (updated request) db.groups },
    updated request group,
  )

-- `not current_member or current_member.role != "owner"`
abbrev pub is_not_owner : Option GroupMember → Bool
is_not_owner none = true
is_not_owner (some m) = not (is_owner m.role)

-- The relations of models/group.py delete a group's invitations with it. Its jobs are not deleted,
-- and their column `group_id` cannot be null: the database refuses while there is one.
unfoldable pub delete_group : String → String → Database → Response Database
delete_group group_id user db = do
  current_member ← membership group_id user db
  raise_if (is_not_owner current_member) forbidden
  found ← select_one (is_group group_id) db.groups
  group ← or_raise found not_found
  raise_if (any_row (λ j. j.group_id =ˢ group_id) db.jobs) integrity_error
  ok (record db {
    groups = delete_rows (is_group group_id) db.groups;
    members = delete_rows (in_group group_id) db.members;
    invitations = delete_rows (λ i. i.group_id =ˢ group_id) db.invitations;
  })
