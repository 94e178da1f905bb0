-- ===== src/Gateway/Tables.antt =====
-- The rows of services/api-gateway/app/models (user.py, group.py, worker.py, job.py), the queries of the
-- handlers, and how a handler ends. Identifiers are texts, times are seconds. An `Integer` key or a
-- UUID that is already there is refused by the database, as the columns' declarations say.
use mesh_ml.Prelude.{
  ℕ, String, Bool, true, false, ◌&&◌, not, Option, none, some, List, [], ◌∷◌, ◌++◌, map, ◌=ˢ◌,
  if◌then◌else◌, filter_by,
}
use mesh_ml.Prelude.Dict.{Dict}

-- The column `role` of `group_members`, as the pattern of schemas/group.py lists its values.
pub data Role : Type 0 where
  owner admin member worker : Role

-- `role in ["owner", "admin"]`
abbrev pub is_manager : Role → Bool
is_manager owner = true
is_manager admin = true
is_manager member = false
is_manager worker = false

-- `role == "owner"`
abbrev pub is_owner : Role → Bool
is_owner owner = true
is_owner admin = false
is_owner member = false
is_owner worker = false

pub record User : Type 0 where
  pub id : String
  pub email : String
  pub hashed_password : String
  pub full_name : Option String
  pub is_active : Bool
  pub is_superuser : Bool

pub record Group : Type 0 where
  pub id : String
  pub name : String
  pub description : Option String
  pub is_public : Bool
  pub owner_id : String
  pub created_at : ℕ

pub record GroupMember : Type 0 where
  pub id : String
  pub group_id : String
  pub user_id : Option String
  pub worker_id : Option String
  pub role : Role
  pub joined_at : ℕ

-- `GroupMember(...)`, whose time of joining is the time of the call
abbrev pub new_member :
    ℕ → (id group_id : String) → (user_id worker_id : Option String) → Role → GroupMember
new_member now id group_id user_id worker_id role = record {
  id = id;
  group_id = group_id;
  user_id = user_id;
  worker_id = worker_id;
  role = role;
  joined_at = now;
}

pub record GroupInvitation : Type 0 where
  pub code : String
  pub group_id : String
  pub created_by : String
  pub max_uses : Option ℕ
  pub current_uses : ℕ
  pub expires_at : ℕ
  pub created_at : ℕ

-- `status` is a free text, and `capabilities` a JSON value, which is held as its text.
pub record Worker : Type 0 where
  pub worker_id : String
  pub user_email : Option String
  pub capabilities : Option String
  pub status : String
  pub last_heartbeat : Option ℕ

-- A training job. `config` is a JSON object, whose values are held as their texts.
pub record Job : Type 0 where
  pub id : String
  pub group_id : String
  pub model_id : Option String
  pub dataset_id : Option String
  pub config : Dict String
  pub status : String
  pub error_message : Option String
  pub created_by : String

-- Of the table `datasets`, the columns that the handlers on jobs use.
pub record Dataset : Type 0 where
  pub id : String
  pub format : String
  pub gcs_path : Option String
  pub num_samples : Option ℕ
  pub status : String

pub record Database : Type 0 where
  pub users : List User
  pub groups : List Group
  pub members : List GroupMember
  pub invitations : List GroupInvitation
  pub workers : List Worker
  pub jobs : List Job
  pub datasets : List Dataset

-- The `HTTPException`s by their status code. `multiple_found` is SQLAlchemy's `MultipleResultsFound`
-- and `integrity_error` its `IntegrityError`; they and an `AttributeError` end a request with code 500.
pub data Refusal : Type 0 where
  bad_request unauthorized forbidden not_found unprocessable : Refusal
  multiple_found integrity_error attribute_error : Refusal

-- A handler that raises has not committed, and its session is closed: the tables are as before.
pub data Response {ℓ} (A : Type ℓ) : Type ℓ where
  ok : A → Response A
  raised : Refusal → Response A

infixl 5 ◌>>=◌ ◌>>◌
abbrev pub ◌>>=◌ {ℓ κ} : {A : Type ℓ} {B : Type κ} → Response A → (A → Response B) → Response B
ok a >>= f = f a
raised e >>= f = raised e

abbrev pub ◌>>◌ {ℓ} : {B : Type ℓ} → Response (Unit {0}) → Response B → Response B
m >> k = m >>= λ _. k

abbrev pub raise_if : Bool → Refusal → Response (Unit {0})
raise_if true e = raised e
raise_if false e = ok tt

module _ {ℓ} {A : Type ℓ} where
  -- `result.scalar_one_or_none()`
  unfoldable pub one_or_none : List A → Response (Option A)
  one_or_none [] = ok none
  one_or_none (x ∷ []) = ok (some x)
  one_or_none (x ∷ y ∷ rest) = raised multiple_found

  -- `if not row: raise HTTPException(...)`
  abbrev pub or_raise : Option A → Refusal → Response A
  or_raise none e = raised e
  or_raise (some a) e = ok a

  -- The row that the key selects, by `WHERE` and `scalar_one_or_none`.
  unfoldable pub select_one : (A → Bool) → List A → Response (Option A)
  unfolding one_or_none
  select_one p rows = one_or_none (filter_by p rows)

  abbrev pub any_row : (A → Bool) → List A → Bool
  any_row p [] = false
  any_row p (x ∷ xs) = if p x then true else any_row p xs

  -- `db.add(row)` and the check of a unique column, by `clash`
  unfoldable pub add_row : (A → Bool) → A → List A → Response (List A)
  add_row clash row rows =
      if any_row clash rows then raised integrity_error else ok (rows ++ row ∷ [])

  -- `UPDATE ... SET f WHERE p`
  unfoldable pub update_rows : (A → Bool) → (A → A) → List A → List A
  update_rows p f rows = map (λ x. if p x then f x else x) rows

  -- `DELETE ... WHERE p`
  unfoldable pub delete_rows : (A → Bool) → List A → List A
  delete_rows p rows = filter_by (λ x. not (p x)) rows

-- A nullable column compared with a value.
abbrev pub is_text : Option String → String → Bool
is_text none s = false
is_text (some t) s = t =ˢ s

abbrev pub has_id : String → GroupMember → Bool
has_id i m = m.id =ˢ i

abbrev pub in_group : String → GroupMember → Bool
in_group g m = m.group_id =ˢ g

abbrev pub by_user : String → String → GroupMember → Bool
by_user g u m = m.group_id =ˢ g && is_text m.user_id u

abbrev pub by_worker : String → String → GroupMember → Bool
by_worker g w m = m.group_id =ˢ g && is_text m.worker_id w

abbrev pub is_group : String → Group → Bool
is_group g row = row.id =ˢ g

abbrev pub has_code : String → GroupInvitation → Bool
has_code c row = row.code =ˢ c

abbrev pub is_worker_row : String → Worker → Bool
is_worker_row w row = row.worker_id =ˢ w

abbrev pub is_job : String → Job → Bool
is_job j row = row.id =ˢ j

abbrev pub is_dataset : String → Dataset → Bool
is_dataset d row = row.id =ˢ d

abbrev pub has_email : String → User → Bool
has_email e row = row.email =ˢ e

abbrev pub is_user : String → User → Bool
is_user u row = row.id =ˢ u

-- `current_member` of the handlers: the membership of the caller in the group
unfoldable pub membership : String → String → Database → Response (Option GroupMember)
unfolding select_one
membership group_id user_id db = select_one (by_user group_id user_id) db.members

-- `not current_member or current_member.role not in ["owner", "admin"]`
abbrev pub is_not_manager : Option GroupMember → Bool
is_not_manager none = true
is_not_manager (some m) = not (is_manager m.role)
