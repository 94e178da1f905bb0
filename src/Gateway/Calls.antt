-- ===== src/Gateway/Calls.antt =====
-- A request to the gateway that may write to its tables, and what it leaves behind.
use mesh_ml.Prelude.{ℕ, String}
use mesh_ml.Gateway.Tables.{Role, User, Database, Response, ok, raised}
use mesh_ml.Gateway.Groups.{
  GroupCreateRequest, GroupUpdateRequest, create_group, join_public_group, update_member_role,
  remove_member, update_group, delete_group,
}
use mesh_ml.Gateway.Invitations.{
  CreateInvitationRequest, create_invitation, accept_invitation, revoke_invitation,
}
use mesh_ml.Gateway.Fleet.{
  WorkerRegisterRequest, register_worker, update_worker_capabilities, worker_heartbeat,
  deregister_worker,
}
use mesh_ml.Gateway.Endings.{Ensures, returns, raises}
use mesh_ml.Gateway.Soundness.{
  IsSound, create_group-IsSound, join_public_group-IsSound, update_member_role-IsSound,
  remove_member-IsSound, update_group-IsSound, delete_group-IsSound, create_invitation-IsSound,
  revoke_invitation-IsSound,
}
use mesh_ml.Gateway.Admission.{
  IsCounted, accept_invitation-IsSound, register_worker-IsSound, update_worker_capabilities-IsSound,
  worker_heartbeat-IsSound, deregister_worker-IsSound,
}

-- The path and the body of a request, with the identifiers that are drawn while it is served.
pub data GatewayCall : Type 0 where
  founding : (id member_id : String) → GroupCreateRequest → GatewayCall
  joining : (member_id group_id worker_id : String) → GatewayCall
  promoting : (group_id user_id : String) → Role → GatewayCall
  removing : (group_id user_id : String) → GatewayCall
  editing : (group_id : String) → GroupUpdateRequest → GatewayCall
  closing : (group_id : String) → GatewayCall
  inviting : (code group_id : String) → CreateInvitationRequest → GatewayCall
  accepting : (member_id worker_id code : String) → GatewayCall
  revoking : (code : String) → GatewayCall
  enrolling : WorkerRegisterRequest → GatewayCall
  equipping : (worker_id capabilities : String) → GatewayCall
  beating : (worker_id : String) → GatewayCall
  retiring : (worker_id : String) → GatewayCall

-- The tables that a handler leaves, without its answer.
abbrev pub tables : {A : Type 0} → Response (Database × A) → Response Database
tables (ok r) = ok r.0
tables (raised e) = raised e

abbrev pub serve : ℕ → User → GatewayCall → Database → Response Database
serve now user (founding id member_id request) db =
    tables (create_group now id member_id request user.id db)
serve now user (joining member_id group_id worker_id) db =
    tables (join_public_group now member_id group_id worker_id db)
serve now user (promoting group_id user_id role) db =
    update_member_role group_id user_id role user.id db
serve now user (removing group_id user_id) db = remove_member group_id user_id user.id db
serve now user (editing group_id request) db = tables (update_group group_id request user.id db)
serve now user (closing group_id) db = delete_group group_id user.id db
serve now user (inviting code group_id request) db =
    tables (create_invitation now code group_id request user.id db)
serve now user (accepting member_id worker_id code) db =
    tables (accept_invitation now member_id worker_id code user.id user.email db)
serve now user (revoking code) db = revoke_invitation code user.id db
serve now user (enrolling request) db = register_worker now request db
serve now user (equipping worker_id capabilities) db =
    update_worker_capabilities now worker_id capabilities db
serve now user (beating worker_id) db = worker_heartbeat now worker_id db
serve now user (retiring worker_id) db = deregister_worker worker_id db

pub Ensures-tables :
    {A : Type 0} {P : Database → Type 0} {m : Response (Database × A)}
    → Ensures (λ out. P out.0) m
    → Ensures P (tables m)
Ensures-tables (returns p) = returns p
Ensures-tables (raises other) = raises other

-- The use that an acceptance counts.
abbrev pub Counts : GatewayCall → Database → Database → Type 0
Counts (accepting member_id worker_id code) db after = IsCounted code db after
Counts _ db after = Unit

uncounted :
    {P : Database → Type 0} {m : Response Database} → Ensures P m → Ensures (λ new. P new × Unit) m
uncounted (returns p) = returns (p, tt)
uncounted (raises other) = raises other

-- On sound tables, every request that is answered leaves sound tables: no two rows share a member's
-- id, a user's or a worker's place in a group, a group's id, a code or a worker's id; every
-- member's group is there; and no invitation's count of uses exceeds what it allows. An acceptance
-- that is answered leaves everything as it was, or counts one more use of its code and of no other.
-- A request that is refused is not refused because a query found two rows for one key.
pub serve-IsSound :
    (now : ℕ) (user : User) (call : GatewayCall) (db : Database)
    → IsSound db
    → Ensures (λ after. IsSound after × Counts call db after) (serve now user call db)
serve-IsSound now user (founding id member_id request) db inv =
    uncounted (Ensures-tables (create_group-IsSound inv now id member_id request user.id))
serve-IsSound now user (joining member_id group_id worker_id) db inv =
    uncounted (Ensures-tables (join_public_group-IsSound inv now member_id group_id worker_id))
serve-IsSound now user (promoting group_id user_id role) db inv =
    uncounted (update_member_role-IsSound inv group_id user_id role user.id)
serve-IsSound now user (removing group_id user_id) db inv =
    uncounted (remove_member-IsSound inv group_id user_id user.id)
serve-IsSound now user (editing group_id request) db inv =
    uncounted (Ensures-tables (update_group-IsSound inv group_id request user.id))
serve-IsSound now user (closing group_id) db inv =
    uncounted (delete_group-IsSound inv group_id user.id)
serve-IsSound now user (inviting code group_id request) db inv =
    uncounted (Ensures-tables (create_invitation-IsSound inv now code group_id request user.id))
serve-IsSound now user (accepting member_id worker_id code) db inv =
    Ensures-tables (accept_invitation-IsSound inv now member_id worker_id code user.id user.email)
serve-IsSound now user (revoking code) db inv =
    uncounted (revoke_invitation-IsSound inv code user.id)
serve-IsSound now user (enrolling request) db inv =
    uncounted (register_worker-IsSound inv now request)
serve-IsSound now user (equipping worker_id capabilities) db inv =
    uncounted (update_worker_capabilities-IsSound inv now worker_id capabilities)
serve-IsSound now user (beating worker_id) db inv =
    uncounted (worker_heartbeat-IsSound inv now worker_id)
serve-IsSound now user (retiring worker_id) db inv =
    uncounted (deregister_worker-IsSound inv worker_id)
