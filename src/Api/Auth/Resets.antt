-- ===== src/Api/Auth/Resets.antt =====
-- What a reset of a password in internal/api/auth_handlers.go leaves behind.
use hyve.Prelude.{
  ℕ, String, true, not, some, List, [], ◌∷◌, ◌==◌, ◌||◌, ◌≡◌, refl, arith, if◌then◌else◌, ltb, ok,
  err, keep, keep-keep-not, Option-cases, Result, Bool-cases, inl, inr,
}
use hyve.Orgdb.{
  Db, User, PasswordResetToken, StoreError, first_row, query_row, exec, settle, count_statement,
}
use hyve.Orgdb.Tables.{update}
use hyve.Orgdb.Users.{
  has_id, has_email, get_user_by_email, set_user_password, delete_password_reset_tokens_for_user,
}
use hyve.Orgdb.Sessions.{delete_sessions_by_subject, get_password_reset_token_by_user_id}
use hyve.Api.Server.{Server, reply, refuse}
use hyve.Api.Auth.{
  ResetPasswordRequest, conclude_reset, check_reset, read_reset, handle_reset_password,
}

-- The row of a user with a new password.
abbrev with_password : String → User → User
with_password hash u = record u { password_hash = some hash }

keep-update-with_password :
    (email id hash : String) (users : List User)
    → keep (has_email email) (update (has_id id) (with_password hash) users)
      ≡ update (has_id id) (with_password hash) (keep (has_email email) users)
keep-update-with_password email id hash [] = refl
keep-update-with_password email id hash (u ∷ users) =
    ground (arith, keep-update-with_password email id hash users)

first_row-update-with_password :
    (id hash : String) (users : List User) (u : User)
    → first_row users ≡ ok u
    → (u' : User) × (first_row (update (has_id id) (with_password hash) users) ≡ ok u')
      × (u'.id ≡ u.id)
first_row-update-with_password id hash [] u h = cc
first_row-update-with_password id hash (v ∷ users) u h =
    (if has_id id v then with_password hash v else v, refl, ground arith)

-- What a reset for a user has done to the tables.
record IsReset (user : User) (db db' : Db) : Type 0 where
  hash : String
  users : db'.users ≡ update (has_id user.id) (with_password hash) db.users
  reset_tokens : db'.reset_tokens ≡ keep (λ t. not (t.user_id == user.id)) db.reset_tokens
  sessions : db'.sessions ≡ keep (λ s. not (s.subject == user.username)) db.sessions

IsReset-count_statement :
    (user : User) (db db' : Db) → IsReset user (count_statement db) db' → IsReset user db db'
IsReset-count_statement user db db' r = record {
  hash = r.hash;
  users = r.users;
  reset_tokens = r.reset_tokens;
  sessions = r.sessions;
}

module _ (server : Server) (up : (n : ℕ) → server.engine.is_up n ≡ true) where
  conclude_reset-IsReset :
      (user : User) (email hash : String) (now : ℕ) (db : Db)
      → IsReset user db
          (conclude_reset server now user email
            (set_user_password server.engine user.id hash db).0
            (set_user_password server.engine user.id hash db).1).1
  unfolding conclude_reset set_user_password delete_password_reset_tokens_for_user
      delete_sessions_by_subject exec settle
  conclude_reset-IsReset user email hash now db = record {
    hash = hash;
    users = simp up;
    reset_tokens = simp up;
    sessions = simp up;
  }

  check_reset-IsReset :
      (req : ResetPasswordRequest) (user : User) (found : Result StoreError PasswordResetToken)
      (now : ℕ) (db : Db)
      → (check_reset server now req user found db).0 ≡ reply tt
      → IsReset user db (check_reset server now req user found db).1
  unfolding check_reset
  check_reset-IsReset req user (err e) now db h = cc
  check_reset-IsReset req user (ok token) now db h = elim (Bool-cases (ltb token.expires_at now)) [
    | inl e ↦ let no = rw (e, check_reset) at h in cc
    | inr e ↦ elim (Bool-cases (server.verify_password token.token_hash req.token)) [
      | inr v ↦ let no = rw (e, v, check_reset) at h in cc
      | inl v ↦ elim (Option-cases (server.hash_password req.new_password)) [
        | inl n ↦ let no = rw (e, v, n, check_reset) at h in cc
        | inr (hash, n) ↦
            rw (e, v, n, check_reset) (conclude_reset-IsReset user req.email hash now db)
      ]
    ]
  ]

  read_reset-IsReset :
      (req : ResetPasswordRequest) (found : Result StoreError User) (now : ℕ) (db : Db)
      → (read_reset server now req found db).0 ≡ reply tt
      → (user : User) × (found ≡ ok user) × IsReset user db (read_reset server now req found db).1
  unfolding read_reset get_password_reset_token_by_user_id query_row
  read_reset-IsReset req (err e) now db h = cc
  read_reset-IsReset req (ok user) now db h =
      let rows = first_row (keep (λ t. t.user_id == user.id) db.reset_tokens) in
      (
        user,
        refl,
        rw (up db.sent) (
            IsReset-count_statement user db _
              (check_reset-IsReset req user rows now (count_statement db) (rw (up db.sent) at h))),
      )

  -- A request that sets a password has found the user by the email, and reset that user.
  handle_reset_password-IsReset :
      (req : ResetPasswordRequest) (now : ℕ) (db : Db)
      → (handle_reset_password server now (some req) db).0 ≡ reply tt
      → (user : User) × (first_row (keep (has_email req.email) db.users) ≡ ok user)
        × IsReset user db (handle_reset_password server now (some req) db).1
  unfolding handle_reset_password get_user_by_email query_row
  handle_reset_password-IsReset req now db h =
      elim (Bool-cases (req.email == "" || (req.token == "" || req.new_password == ""))) [
        | inl e ↦ let no = rw (e, handle_reset_password) at h in cc
        | inr e ↦
            let (user, found, reset) =
              read_reset-IsReset req (first_row (keep (has_email req.email) db.users)) now
                (count_statement db) (rw (e, up db.sent, handle_reset_password) at h) in
            (
              user,
              found,
              rw (e, up db.sent, handle_reset_password) (IsReset-count_statement user db _ reset),
            )
      ]

  no_token :
      (req : ResetPasswordRequest) (user : User) (now : ℕ) (db : Db)
      → keep (λ t. t.user_id == user.id) db.reset_tokens ≡ []
      → (read_reset server now req (ok user) db).0 ≡ refuse 400
  unfolding read_reset get_password_reset_token_by_user_id query_row check_reset
  no_token req user now db e = rw (up db.sent, e, read_reset) refl

  -- If the database answers, a reset token is good for one change of the password: after it, every
  -- request for the same email is refused.
  pub handle_reset_password_again :
      (req again : ResetPasswordRequest) (now later : ℕ) (db : Db)
      → (handle_reset_password server now (some req) db).0 ≡ reply tt
      → again.email ≡ req.email
      → (handle_reset_password server later
          (some again)
          (handle_reset_password server now (some req) db).1).0
        ≡ refuse 400
  unfolding handle_reset_password get_user_by_email query_row
  handle_reset_password_again req again now later db h same =
      let db' = (handle_reset_password server now (some req) db).1 in
      let (user, found, reset) = handle_reset_password-IsReset req now db h in
      elim (Bool-cases (again.email == "" || (again.token == "" || again.new_password == ""))) [
        | inl e ↦ rw (e, handle_reset_password) refl
        | inr e ↦
            let (user', row, id) =
              first_row-update-with_password user.id reset.hash
                (keep (has_email req.email) db.users) user found in
            let read : first_row (keep (has_email again.email) db'.users) ≡ ok user' =
              rw
                (same, reset.users, keep-update-with_password req.email user.id reset.hash db.users)
                row in
            let gone : keep (λ t. t.user_id == user'.id) db'.reset_tokens ≡ [] =
              rw (reset.reset_tokens, id)
                (keep-keep-not (λ t. t.user_id == user.id) db.reset_tokens) in
            rw (e, up db'.sent, read, handle_reset_password)
              (no_token again user' later (count_statement db') gone)
      ]
