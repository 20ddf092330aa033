-- ===== src/Api/Accounts/Changes.antt =====
-- internal/api/accounts.go: the removal of an account, and the change of a password.
pub mod Sole
use hyve.Prelude.{
  String, ℕ, Bool, true, false, not, Option, none, some, List, [], ◌∷◌, ◌==◌, ◌&&◌, ◌||◌,
  if◌then◌else◌, Result, ok, err,
}
use hyve.Prelude.State.{State, ◌>>=◌, ◌>>◌, pure}
use hyve.Orgdb.{Db, Binding, User, StoreError, subject_type_local}
use hyve.Orgdb.Users.{
  get_user_by_username, delete_user, set_user_password, list_bindings_for_identity,
}
use hyve.Orgdb.Sessions.{delete_sessions_by_subject}
use hyve.Orgdb.Bindings.{delete_binding, find_binding_by_subject, list_bindings_for_scope}
use hyve.Api.Server.{Server, Response, reply, refuse, send_mail, permits, role_superadmin}
use hyve.Api.Auth.{is_wrong}
use hyve.Api.Accounts.{Caller, admins, is_hidden, tenant_namespace, require_sole_organization}

pub record UpdateAccountPasswordRequest : Type 0 where
  pub current_password : String
  pub new_password : String

-- The checks of handleUpdateAccountPassword before its first statement.
unfoldable pub password_refusal : Caller → String → UpdateAccountPasswordRequest → Option ℕ
unfolding permits
password_refusal caller username req =
    if not (caller.username == username) && not (permits admins caller.role)
    then some 403
    else if req.new_password == ""
    then some 400
    else if caller.username == username && req.current_password == ""
    then some 400
    else none

module _ (server : Server) where
  -- The loop over the bindings of the namespace; false after a failure.
  unfoldable pub delete_bindings : String → List Binding → State Db Bool
  unfolding delete_binding
  delete_bindings username [] = pure true
  delete_bindings username (b ∷ bindings) =
      let rest = delete_bindings username bindings in
      if not (b.subject_type == subject_type_local) || not (b.identity == username)
      then rest
      else delete_binding server.engine b.id >>= λ done. elim done [
        | err e ↦ pure false
        | ok deleted ↦ rest
      ]

  -- The user goes with its last membership; failures are only logged.
  unfoldable pub delete_login : String → Result StoreError (List Binding) → State Db (Unit {0})
  unfolding delete_sessions_by_subject get_user_by_username delete_user
  delete_login username (err e) = pure tt
  delete_login username (ok (b ∷ left)) = pure tt
  delete_login username (ok []) =
      delete_sessions_by_subject server.engine username
      >> (get_user_by_username server.engine username >>= λ found. elim found [
        | err e ↦ pure tt
        | ok user ↦ delete_user server.engine user.id >> pure tt
      ])

  unfoldable pub delete_from_scope :
      String → Result StoreError (List Binding) → State Db (Response (Unit {0}))
  unfolding delete_bindings list_bindings_for_identity delete_login
  delete_from_scope username (err e) = pure (refuse 500)
  delete_from_scope username (ok bindings) = delete_bindings username bindings >>= λ done.
      let rest =
        list_bindings_for_identity server.engine subject_type_local username
        >>= delete_login username
        >> pure (reply tt) in
      if not done then pure (refuse 500) else rest

  unfoldable pub delete_found :
      Caller → String → Result StoreError Binding → State Db (Response (Unit {0}))
  unfolding is_hidden list_bindings_for_scope delete_from_scope
  delete_found caller username (err e) = pure (refuse 404)
  delete_found caller username (ok b) =
      let deleted =
        list_bindings_for_scope server.engine b.namespace >>= delete_from_scope username in
      if is_hidden caller b then pure (refuse 404) else deleted

  unfoldable pub handle_delete_account : Caller → String → State Db (Response (Unit {0}))
  unfolding permits tenant_namespace find_binding_by_subject delete_found
  handle_delete_account caller username =
      let deleted =
        find_binding_by_subject server.engine (tenant_namespace server caller) subject_type_local
          username
        >>= delete_found caller username in
      if not (permits admins caller.role)
      then pure (refuse 403)
      else if caller.username == username
      then pure (refuse 400)
      else deleted

  -- The mail after the password was set.
  unfoldable pub conclude_password :
      User → Result StoreError (Unit {0}) → State Db (Response (Unit {0}))
  conclude_password user (err e) = pure (refuse 500)
  conclude_password user (ok done) = elim user.email [
    | none ↦ pure (reply tt)
    | some email ↦ send_mail email "password-changed" >> pure (reply tt)
  ]

  unfoldable pub set_password :
      Bool → UpdateAccountPasswordRequest → Result StoreError User → State Db (Response (Unit {0}))
  unfolding is_wrong set_user_password conclude_password
  set_password is_self req (err e) = pure (refuse 404)
  set_password is_self req (ok user) =
      let set : State Db (Response (Unit {0})) = elim (server.hash_password req.new_password) [
        | none ↦ pure (refuse 500)
        | some hash ↦ set_user_password server.engine user.id hash >>= conclude_password user
      ] in
      if is_self && is_wrong server user req.current_password then pure (refuse 400) else set

  unfoldable pub set_unless_refused :
      Bool → String → UpdateAccountPasswordRequest → Option ℕ → State Db (Response (Unit {0}))
  unfolding get_user_by_username set_password
  set_unless_refused is_self username req (some status) = pure (refuse status)
  set_unless_refused is_self username req none =
      get_user_by_username server.engine username >>= set_password is_self req

  unfoldable pub set_found :
      Caller
      → String
      → UpdateAccountPasswordRequest
      → Result StoreError Binding
      → State Db (Response (Unit {0}))
  unfolding is_hidden require_sole_organization set_unless_refused
  set_found caller username req (err e) = pure (refuse 404)
  set_found caller username req (ok b) =
      let is_self = caller.username == username in
      let other =
        require_sole_organization server caller username b.namespace
        >>= set_unless_refused false username req in
      let own = set_unless_refused true username req none in
      if not is_self && is_hidden caller b
      then pure (refuse 404)
      else if is_self
      then own
      else other

  -- The namespace of the binding: a superadmin's own is the control plane's.
  unfoldable pub password_namespace : Caller → String → String
  unfolding tenant_namespace
  password_namespace caller username =
      if caller.username == username && caller.role == role_superadmin
      then server.namespace
      else tenant_namespace server caller

  unfoldable pub set_unless_invalid :
      Caller → String → UpdateAccountPasswordRequest → Option ℕ → State Db (Response (Unit {0}))
  unfolding password_namespace find_binding_by_subject set_found
  set_unless_invalid caller username req (some status) = pure (refuse status)
  set_unless_invalid caller username req none =
      find_binding_by_subject server.engine (password_namespace caller username) subject_type_local
        username
      >>= set_found caller username req

  unfoldable pub handle_update_account_password :
      Caller → String → Option UpdateAccountPasswordRequest → State Db (Response (Unit {0}))
  unfolding permits password_refusal set_unless_invalid
  handle_update_account_password caller username none =
      if not (caller.username == username) && not (permits admins caller.role)
      then pure (refuse 403)
      else pure (refuse 400)
  handle_update_account_password caller username (some req) =
      set_unless_invalid caller username req (password_refusal caller username req)
