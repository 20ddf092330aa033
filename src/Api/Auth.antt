-- ===== src/Api/Auth.antt =====
-- internal/api/auth_handlers.go: login, refresh, logout, and the reset of a password. A request takes
-- place at one time, `now`. A body that does not decode is `none`.
pub mod Sessions
pub mod Resets
use Prim.Native.String as Text
use hyve.Prelude.{
  ℕ, ◌+◌, String, Bool, true, false, not, Option, none, some, List, [], ◌∷◌, ◌==◌, ◌||◌,
  if◌then◌else◌, ltb, Result, ok, err,
}
use hyve.Prelude.Text.{◌<>◌, cut_first}
use hyve.Prelude.State.{State, ◌>>=◌, ◌>>◌, pure}
use hyve.Orgdb.{Db, Binding, User, Session, PasswordResetToken, StoreError, subject_type_local}
use hyve.Orgdb.Users.{
  get_user_by_email, list_bindings_for_identity, set_user_password,
  delete_password_reset_tokens_for_user,
}
use hyve.Orgdb.Sessions.{
  get_session, create_session, delete_session, delete_sessions_by_subject,
  create_password_reset_token, get_password_reset_token_by_user_id,
}
use hyve.Api.Token.{issue_access_token, session_ttl, access_token_ttl}
use hyve.Api.Server.{
  Server, Response, reply, refuse, send_mail, find_user_for_login, resolve_login_namespace,
}

pub record LoginRequest : Type 0 where
  pub username : String
  pub password : String
  pub namespace : String

pub record LoginResponse : Type 0 where
  pub access_token : String
  pub access_token_expires_at : ℕ
  pub session_token : String
  pub session_expires_at : ℕ

pub record RefreshResponse : Type 0 where
  pub access_token : String
  pub access_token_expires_at : ℕ

pub record ResetPasswordRequest : Type 0 where
  pub email : String
  pub token : String
  pub new_password : String

abbrev pub password_reset_token_ttl : ℕ
password_reset_token_ttl = 7200

-- The parts before and after the first dot, neither of them empty.
unfoldable pub split_session_token : String → Option (String × String)
split_session_token token = elim (cut_first b'.' token) [
  | none ↦ none
  | some (name, secret) ↦ if name == "" || secret == "" then none else some (name, secret)
]

-- `user.PasswordHash == nil || !VerifyPassword(...)`
unfoldable pub is_wrong : Server → User → String → Bool
is_wrong server user password = elim user.password_hash [
  | none ↦ true
  | some hash ↦ not (server.verify_password hash password)
]

module _ (server : Server) (now : ℕ) where
  abbrev issue : String → String → Option String
  issue = issue_access_token server.codec server.signing_key now

  -- The part of issueSession after CreateSession.
  unfoldable pub conclude_session :
      String → String → String → Result StoreError Session → State Db (Option LoginResponse)
  unfolding issue_access_token
  conclude_session secret subject namespace (err e) = pure none
  conclude_session secret subject namespace (ok session) = elim (issue subject namespace) [
    | none ↦ pure none
    | some token ↦ pure (
        some (record {
          access_token = token;
          access_token_expires_at = now + access_token_ttl;
          session_token = session.id <> ("." <> secret);
          session_expires_at = now + session_ttl;
        }))
  ]

  abbrev session_for : String → String → String → Session
  session_for secret subject namespace = record {
    id = "";
    subject = subject;
    tenant_namespace = namespace;
    token_hash = server.hash_session_secret secret;
    expires_at = now + session_ttl;
  }

  unfoldable pub issue_session : String → String → State Db (Option LoginResponse)
  unfolding create_session conclude_session
  issue_session subject namespace db = elim (server.random db.sent) [
    | none ↦ (none, db)
    | some secret ↦
        (create_session server.engine (session_for secret subject namespace)
            >>= conclude_session secret subject namespace)
          db
  ]

  -- The part of handleLogin after the password was verified.
  unfoldable pub login_user : User → String → State Db (Response LoginResponse)
  unfolding list_bindings_for_identity resolve_login_namespace issue_session
  login_user user namespace =
      let resolved =
        if namespace == "" then pure "" else resolve_login_namespace server namespace in
      list_bindings_for_identity server.engine subject_type_local user.username >>= λ listed.
      elim listed [
        | err e ↦ pure (refuse 401)
        | ok [] ↦ pure (refuse 401)
        | ok (b ∷ memberships) ↦ resolved >>= λ ns. issue_session user.username ns >>= λ issued.
            elim issued [ none ↦ pure (refuse 500) | some response ↦ pure (reply response) ]
      ]

  unfoldable pub check_login :
      LoginRequest → Result StoreError User → State Db (Response LoginResponse)
  unfolding is_wrong login_user
  check_login req (err e) = pure (refuse 401)
  check_login req (ok user) =
      if is_wrong server user req.password then pure (refuse 401) else login_user user req.namespace

  unfoldable pub handle_login : Option LoginRequest → State Db (Response LoginResponse)
  unfolding find_user_for_login check_login
  handle_login none = pure (refuse 400)
  handle_login (some req) =
      if req.username == "" || req.password == ""
      then pure (refuse 400)
      else find_user_for_login server req.username >>= check_login req

  -- The checks of a session, and the new access token.
  unfoldable pub check_session : String → Result StoreError Session → Response RefreshResponse
  unfolding issue_access_token
  check_session secret (err e) = refuse 401
  check_session secret (ok session) =
      if ltb session.expires_at now
      then refuse 401
      else if not (server.hash_session_secret secret == session.token_hash)
      then refuse 401
      else elim (issue session.subject session.tenant_namespace) [
        | none ↦ refuse 500
        | some token ↦
            reply
              (record { access_token = token; access_token_expires_at = now + access_token_ttl })
      ]

  unfoldable pub refresh_session : Option (String × String) → State Db (Response RefreshResponse)
  unfolding get_session check_session
  refresh_session none = pure (refuse 400)
  refresh_session (some (id, secret)) =
      get_session server.engine id >>= λ found. pure (check_session secret found)

  unfoldable pub handle_refresh : Option String → State Db (Response RefreshResponse)
  unfolding refresh_session split_session_token
  handle_refresh none = pure (refuse 400)
  handle_refresh (some token) = refresh_session (split_session_token token)

  -- What to do with the parts of a session token.
  unfoldable pub revoke : Option (String × String) → State Db (Response (Unit {0}))
  unfolding delete_session
  revoke none = pure (reply tt)
  revoke (some (id, secret)) = delete_session server.engine id >>= λ deleted. elim deleted [
    | err e ↦ pure (refuse 500)
    | ok done ↦ pure (reply tt)
  ]

  unfoldable pub handle_logout : Option String → State Db (Response (Unit {0}))
  unfolding revoke split_session_token
  handle_logout none = pure (reply tt)
  handle_logout (some token) = revoke (split_session_token token)

  -- The part of handleRequestPasswordReset for a user with an email. `server.random` gives the code.
  unfoldable pub store_reset : User → String → String → State Db (Response (Unit {0}))
  unfolding create_password_reset_token
  store_reset user email token_hash =
      create_password_reset_token server.engine (record {
        id = "";
        user_id = user.id;
        token_hash = token_hash;
        expires_at = now + password_reset_token_ttl;
      })
      >>= λ stored. elim stored [
        | err e ↦ pure (refuse 500)
        | ok token ↦ send_mail email "password-reset-code" >> pure (reply tt)
      ]

  unfoldable pub create_reset : User → String → State Db (Response (Unit {0}))
  unfolding store_reset
  create_reset user email db = elim (server.random db.sent) [
    | none ↦ (refuse 500, db)
    | some token ↦ elim (server.hash_password token) [
      | none ↦ (refuse 500, db)
      | some token_hash ↦ store_reset user email token_hash db
    ]
  ]

  unfoldable pub handle_request_password_reset : Option String → State Db (Response (Unit {0}))
  unfolding find_user_for_login create_reset
  handle_request_password_reset none = pure (refuse 400)
  handle_request_password_reset (some identifier) =
      if identifier == ""
      then pure (refuse 400)
      else find_user_for_login server identifier >>= λ found. elim found [
        | err e ↦ pure (reply tt)
        | ok user ↦ elim user.email [
          | none ↦ pure (reply tt)
          | some email ↦ create_reset user email
        ]
      ]

  -- The part of handleResetPassword after the password was set: failures are only logged.
  unfoldable pub conclude_reset :
      User → String → Result StoreError (Unit {0}) → State Db (Response (Unit {0}))
  unfolding delete_password_reset_tokens_for_user delete_sessions_by_subject
  conclude_reset user email (err e) = pure (refuse 500)
  conclude_reset user email (ok done) =
      delete_password_reset_tokens_for_user server.engine user.id
      >> delete_sessions_by_subject server.engine user.username
      >> send_mail email "password-changed"
      >> pure (reply tt)

  -- The part after the token of the user was read.
  unfoldable pub check_reset :
      ResetPasswordRequest
      → User
      → Result StoreError PasswordResetToken
      → State Db (Response (Unit {0}))
  unfolding set_user_password conclude_reset
  check_reset req user (err e) = pure (refuse 400)
  check_reset req user (ok token) =
      if ltb token.expires_at now
      then pure (refuse 400)
      else if not (server.verify_password token.token_hash req.token)
      then pure (refuse 400)
      else elim (server.hash_password req.new_password) [
        | none ↦ pure (refuse 500)
        | some hash ↦ set_user_password server.engine user.id hash >>= conclude_reset user req.email
      ]

  unfoldable pub read_reset :
      ResetPasswordRequest → Result StoreError User → State Db (Response (Unit {0}))
  unfolding get_password_reset_token_by_user_id check_reset
  read_reset req (err e) = pure (refuse 400)
  read_reset req (ok user) =
      get_password_reset_token_by_user_id server.engine user.id >>= check_reset req user

  unfoldable pub handle_reset_password :
      Option ResetPasswordRequest → State Db (Response (Unit {0}))
  unfolding get_user_by_email read_reset
  handle_reset_password none = pure (refuse 400)
  handle_reset_password (some req) =
      if req.email == "" || (req.token == "" || req.new_password == "")
      then pure (refuse 400)
      else get_user_by_email server.engine req.email >>= read_reset req
