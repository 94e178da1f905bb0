-- ===== src/Gateway/Accounts.antt =====
-- routers/auth.py on utils/security.py: accounts, logins and tokens. bcrypt and the JWT library are
-- the parameters of a section, with what their documentation promises.
use mesh_ml.Prelude.{
  ℕ, ◌+◌, ◌*◌, ◌≡◌, String, Bool, true, false, ◌||◌, not, Option, none, some, ltb, ◌=ˢ◌,
  if◌then◌else◌,
}
use mesh_ml.Gateway.Tables.{
  User, Database, Response, ok, raised, bad_request, unauthorized, ◌>>=◌, ◌>>◌, raise_if, or_raise,
  select_one, add_row, update_rows, has_email, is_user,
}

-- The claims of a token. `exp` and `iat` are seconds.
pub record Claims : Type 0 where
  pub sub : Option String
  pub email : Option String
  pub exp : ℕ
  pub iat : ℕ

pub record Security : Type 1 where
  -- `pwd_context.hash`, which draws a salt, and `pwd_context.verify`. What bcrypt reads of a password
  -- is its first 72 bytes; a password with a NUL byte, which it refuses, is set aside.
  pub read_part : String → String
  pub hash : String → String → String
  pub verify : String → String → Bool
  pub verify-hash : (salt p q : String) → verify q (hash salt p) ≡ (read_part p =ˢ read_part q)
  -- `jwt.encode` with the service's key, and `jwt.decode` at a time: a token that is expired raises
  pub Token : Type 0
  pub encode : Claims → Token
  pub decode : ℕ → Token → Option Claims
  pub decode-encode :
      (now : ℕ) (c : Claims) → decode now (encode c) ≡ (if ltb c.exp now then none else some c)

-- `ACCESS_TOKEN_EXPIRE_MINUTES`, where the environment does not set it
abbrev pub access_token_expire_minutes : ℕ
access_token_expire_minutes = 1440

pub record UserRegisterRequest : Type 0 where
  pub email : String
  pub password : String
  pub full_name : Option String

-- `email` is unique, and `id` the primary key.
abbrev pub is_taken : String → UserRegisterRequest → User → Bool
is_taken id request row = has_email request.email row || is_user id row

module _ (s : Security) where
  unfoldable pub hash_password : String → String → String
  hash_password salt password = s.hash salt password

  unfoldable pub verify_password : String → String → Bool
  verify_password password hashed = s.verify password hashed

  -- `create_access_token` for a login, whose call leaves `expires_delta` out
  unfoldable pub create_access_token : ℕ → String → String → s.Token
  create_access_token now sub email = s.encode (record {
    sub = some sub;
    email = some email;
    exp = now + access_token_expire_minutes * 60;
    iat = now;
  })

  unfoldable pub decode_access_token : ℕ → s.Token → Option Claims
  decode_access_token now token = s.decode now token

  abbrev pub new_user : (id salt : String) → UserRegisterRequest → User
  new_user id salt request = record {
    id = id;
    email = request.email;
    hashed_password = s.hash salt request.password;
    full_name = request.full_name;
    is_active = true;
    is_superuser = false;
  }

  -- `id` is the new row's UUID. The handler raises where the email is taken; so does the database
  -- where a UUID is drawn again.
  unfoldable pub register_user :
      (id salt : String) → UserRegisterRequest → Database → Response (Database × User)
  register_user id salt request db = do
    existing_user ← select_one (has_email request.email) db.users
    elim existing_user [
      | some u ↦ raised bad_request
      | none ↦ do
        let user = new_user id salt request
        users ← add_row (is_taken id request) user db.users
        ok (record db { users = users }, user)
    ]

  abbrev pub lacks_password : String → Option User → Bool
  lacks_password password none = true
  lacks_password password (some user) = not (verify_password password user.hashed_password)

  -- The access token, and the user.
  unfoldable pub login : ℕ → (email password : String) → Database → Response (s.Token × User)
  unfolding verify_password
  login now email password db = do
    user ← select_one (has_email email) db.users
    raise_if (lacks_password password user) unauthorized
    found ← or_raise user unauthorized
    ok (create_access_token now found.id found.email, found)

  abbrev pub subject : Option Claims → Option String
  subject none = none
  subject (some c) = c.sub

  unfoldable pub get_current_user : ℕ → s.Token → Database → Response User
  unfolding decode_access_token
  get_current_user now token db = do
    user_id ← or_raise (subject (decode_access_token now token)) unauthorized
    user ← select_one (is_user user_id) db.users
    or_raise user unauthorized

  unfoldable pub refresh_token : ℕ → User → s.Token
  refresh_token now current_user = create_access_token now current_user.id current_user.email

  unfoldable pub change_password :
      (salt old_password new_password : String) → User → Database → Response Database
  unfolding hash_password verify_password
  change_password salt old_password new_password current_user db = do
    raise_if (not (verify_password old_password current_user.hashed_password)) bad_request
    let hashed_password = hash_password salt new_password
    ok (record db {
      users =
          update_rows (is_user current_user.id)
            (λ row. record row { hashed_password = hashed_password }) db.users;
    })
