-- ===== src/Gateway/Invitations.antt =====
-- routers/invitations.py: the handlers on invitations to a group. `code` is the drawn code.
use mesh_ml.Prelude.{
  ℕ, ◌+◌, ◌*◌, String, Bool, true, false, ◌&&◌, not, Option, none, some, List, ltb, leb, ◌==◌,
}
use mesh_ml.Gateway.Tables.{
  Role, worker, GroupMember, GroupInvitation, Worker, Database, Response, ok, bad_request,
  forbidden, not_found, unprocessable, ◌>>=◌, ◌>>◌, raise_if, or_raise, select_one, add_row,
  update_rows, delete_rows, has_id, by_worker, is_group, has_code, is_worker_row, membership,
  is_not_manager, new_member,
}

pub record CreateInvitationRequest : Type 0 where
  pub max_uses : Option ℕ
  pub expires_in_hours : ℕ

-- The bounds of schemas/invitation.py, which the framework checks before the handler runs.
abbrev pub is_valid_request : CreateInvitationRequest → Bool
is_valid_request request =
    elim request.max_uses [ none ↦ true | some n ↦ leb 1 n ]
    && leb 1 request.expires_in_hours
    && leb request.expires_in_hours 168

abbrev pub new_invitation :
    ℕ → (code group_id : String) → CreateInvitationRequest → String → GroupInvitation
new_invitation now code group_id request user = record {
  code = code;
  group_id = group_id;
  created_by = user;
  max_uses = request.max_uses;
  current_uses = 0;
  expires_at = now + request.expires_in_hours * 3600;
  created_at = now;
}

unfoldable pub create_invitation :
    ℕ
    → (code group_id : String) → CreateInvitationRequest
    → String
    → Database
    → Response (Database × GroupInvitation)
create_invitation now code group_id request user db = do
  raise_if (not (is_valid_request request)) unprocessable
  row ← membership group_id user db
  raise_if (is_not_manager row) forbidden
  let invitation = new_invitation now code group_id request user
  invitations ← add_row (has_code code) invitation db.invitations
  ok (record db { invitations = invitations }, invitation)

-- `invitation.max_uses and invitation.current_uses >= invitation.max_uses`
abbrev pub is_used_up : GroupInvitation → Bool
is_used_up invitation = elim invitation.max_uses [
  | none ↦ false
  | some n ↦ not (n == 0) && leb n invitation.current_uses
]

abbrev pub use_once : GroupInvitation → GroupInvitation
use_once invitation = record invitation { current_uses = invitation.current_uses + 1 }

abbrev pub attach : String → GroupMember → GroupMember
attach worker_id m = record m { worker_id = some worker_id }

-- The membership that an invitation gives: the worker is attached to the user's row, if there is one.
unfoldable pub linked :
    ℕ
    → (member_id group_id user worker_id : String) → Option GroupMember
    → List GroupMember
    → Response (List GroupMember)
linked now member_id group_id user worker_id (some row) members =
    ok (update_rows (has_id row.id) (attach worker_id) members)
linked now member_id group_id user worker_id none members =
    add_row (has_id member_id)
      (new_member now member_id group_id (some user) (some worker_id) worker) members

-- The placeholder of a worker that is not registered.
abbrev pub placeholder : (worker_id email : String) → Worker
placeholder worker_id email = record {
  worker_id = worker_id;
  user_email = some email;
  capabilities = none;
  status = "offline";
  last_heartbeat = none;
}

unfoldable pub with_worker : (worker_id email : String) → List Worker → Response (List Worker)
with_worker worker_id email workers = do
  row ← select_one (is_worker_row worker_id) workers
  elim row [
    | some w ↦ ok workers
    | none ↦ add_row (is_worker_row worker_id) (placeholder worker_id email) workers
  ]

-- The part of `accept_invitation` behind its checks, where the worker is new to the group.
unfoldable pub admit :
    ℕ → (member_id user email worker_id : String) → GroupInvitation → Database → Response Database
admit now member_id user email worker_id invitation db = do
  existing_user_member ← membership invitation.group_id user db
  members ← linked now member_id invitation.group_id user worker_id existing_user_member db.members
  workers ← with_worker worker_id email db.workers
  ok (record db {
    members = members;
    workers = workers;
    invitations = update_rows (has_code invitation.code) use_once db.invitations;
  })

-- The role that is answered with the tables.
unfoldable pub accept_invitation :
    ℕ
    → (member_id worker_id invitation_code user email : String) → Database
    → Response (Database × Role)
accept_invitation now member_id worker_id invitation_code user email db = do
  found ← select_one (has_code invitation_code) db.invitations
  invitation ← or_raise found not_found
  raise_if (ltb invitation.expires_at now) bad_request
  raise_if (is_used_up invitation) bad_request
  known ← select_one (is_group invitation.group_id) db.groups
  group ← or_raise known not_found
  existing_worker_member ← select_one (by_worker invitation.group_id worker_id) db.members
  elim existing_worker_member [
    | some row ↦ ok (db, row.role)
    | none ↦ do new ← admit now member_id user email worker_id invitation db; ok (new, worker)
  ]

unfoldable pub get_invitation_details : String → Database → Response GroupInvitation
get_invitation_details code db = do
  found ← select_one (has_code code) db.invitations
  or_raise found not_found

unfoldable pub revoke_invitation : (code user : String) → Database → Response Database
revoke_invitation code user db = do
  found ← select_one (has_code code) db.invitations
  invitation ← or_raise found not_found
  row ← membership invitation.group_id user db
  raise_if (is_not_manager row) forbidden
  ok (record db { invitations = delete_rows (has_code code) db.invitations })
