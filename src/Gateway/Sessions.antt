-- ===== src/Gateway/Sessions.antt =====
-- Accounts: a user who has registered can log in, and the token of a login is good for a day.
use mesh_ml.Prelude.{
  ℕ, ◌+◌, ◌≡◌, refl, String, Bool, true, false, some, List, [], ◌∷◌, ◌++◌, ltb, ◌=ˢ◌, eq_iff, arith,
  filter_by, if◌then◌else◌, Bool-cases, inl, inr,
}
use mesh_ml.Gateway.Tables.{
  User, Database, ok, raised, unauthorized, select_one, add_row, any_row, has_email, is_user,
}
use mesh_ml.Gateway.Accounts.{
  Security, UserRegisterRequest, new_user, is_taken, create_access_token, register_user, login,
  get_current_user,
}

module _ {A : Type 0} where
  filter_by-append :
      (p : A → Bool) (x : A) (rows : List A)
      → any_row p rows ≡ false
      → p x ≡ true
      → filter_by p (rows ++ x ∷ []) ≡ x ∷ []
  filter_by-append p x [] h px = rw px
  filter_by-append p x (y ∷ ys) h px = ground (arith, filter_by-append p x ys)

  -- Where no row has the key, a new row is the one that it selects.
  select_one-append :
      (p : A → Bool) (x : A) (rows : List A)
      → any_row p rows ≡ false
      → p x ≡ true
      → select_one p (rows ++ x ∷ []) ≡ ok (some x)
  unfolding select_one
  select_one-append p x rows h px = rw (filter_by-append p x rows h px)

  any_row_mono :
      (p q : A → Bool) (rows : List A)
      → ((x : A) → p x ≡ true → q x ≡ true)
      → any_row q rows ≡ false
      → any_row p rows ≡ false
  any_row_mono p q [] le h = refl
  any_row_mono p q (x ∷ xs) le h = ground (arith, le x, any_row_mono p q xs le)

module _ (s : Security) where
  -- The token of a login names its user until a day has passed, and nobody later.
  get_current_user_lem :
      (now later : ℕ) (user : User) (db : Database)
      → select_one (is_user user.id) db.users ≡ ok (some user)
      → get_current_user s later (create_access_token s now user.id user.email) db
        ≡ (if ltb (now + 86400) later then raised unauthorized else ok user)
  unfolding get_current_user create_access_token
  get_current_user_lem now later user db found = elim (Bool-cases (ltb (now + 86400) later)) [
    | inl late ↦ rw (s.decode-encode, late) refl
    | inr in_time ↦ rw (s.decode-encode, in_time) (rw found refl)
  ]

  login_lem :
      (now : ℕ) (password : String) (user : User) (db : Database)
      → select_one (has_email user.email) db.users ≡ ok (some user)
      → login s now user.email password db ≡ (
          if s.verify password user.hashed_password
          then ok (create_access_token s now user.id user.email, user)
          else raised unauthorized)
  unfolding login
  login_lem now password user db found =
      rw found (elim (Bool-cases (s.verify password user.hashed_password)) [
        | inl good ↦ rw good refl
        | inr bad ↦ rw bad refl
      ])

  -- A registration that succeeds appends the new user, whose e-mail and id no row had.
  register_user-ok :
      (id salt : String) (request : UserRegisterRequest) (db : Database) {out : Database × User}
      → register_user s id salt request db ≡ ok out
      → (any_row (is_taken id request) db.users ≡ false)
        × (out ≡ (
          record db { users = db.users ++ new_user s id salt request ∷ [] },
          new_user s id salt request,
        ))
  unfolding register_user add_row
  register_user-ok id salt request db h = (ground arith, ground arith)

  -- A registration that succeeds gives an account: with its e-mail, a login with the password that
  -- was registered, or one that agrees with it in the part that bcrypt reads, returns the user and
  -- a token, and a login with any other password is refused with code 401; the token of a login
  -- names the user at every time up to 24 hours after it, and is refused with code 401 at every
  -- later time.
  pub register_user-login :
      (id salt password : String) (request : UserRegisterRequest) (now later : ℕ) (db : Database)
      {out : Database × User}
      → register_user s id salt request db ≡ ok out
      → (login s now request.email password out.0 ≡ (
          if s.read_part request.password =ˢ s.read_part password
          then ok (create_access_token s now id request.email, out.1)
          else raised unauthorized))
        × (get_current_user s later (create_access_token s now id request.email) out.0
            ≡ (if ltb (now + 86400) later then raised unauthorized else ok out.1))
  register_user-login id salt password request now later db {out = out} h =
      let (free, out_is) = register_user-ok id salt request db {out = out} h in
      let user = new_user s id salt request in
      let db' : Database = record db { users = db.users ++ user ∷ [] } in
      let by_email =
        select_one-append (has_email request.email) user db.users
          (any_row_mono (has_email request.email) (is_taken id request) db.users
            (λ row same. rw same refl) free)
          (ground (arith, eq_iff request.email request.email)) in
      let by_id =
        select_one-append (is_user id) user db.users
          (any_row_mono (is_user id) (is_taken id request) db.users (λ row same. ground arith) free)
          (ground (arith, eq_iff id id)) in
      rw out_is (
        rw (← s.verify-hash salt request.password password)
            (login_lem now password user db' by_email),
        get_current_user_lem now later user db' by_id,
      )
