-- ===== src/Api/Accounts/Update.antt =====
-- internal/api/accounts.go: `handleUpdateAccount`, which changes a role, an email, or both.
pub mod Kept
pub mod Promoted
use hyve.Prelude.{
  String, ℕ, Bool, true, false, not, Option, none, some, ◌==◌, ◌&&◌, ◌||◌, if◌then◌else◌, Result,
  ok, err, is_some,
}
use hyve.Prelude.State.{State, ◌>>=◌, ◌>>◌, pure}
use hyve.Orgdb.{Db, Binding, User, StoreError, not_found, failed, subject_type_local}
use hyve.Orgdb.Users.{get_user_by_username, set_user_email}
use hyve.Orgdb.Bindings.{find_binding_by_subject, update_binding}
use hyve.Api.Server.{Server, Response, reply, refuse, send_mail, permits, role_superadmin}
use hyve.Api.Naming.{resolve_resource_environment}
use hyve.Api.Accounts.{
  Caller, AccountDto, admins, is_hidden, tenant_namespace, to_account_dto,
  require_sole_organization, validate_and_check_email,
}
use hyve.Api.Accounts.Creation.{Scope, scope_in, is_known_role}

pub record UpdateAccountRequest : Type 0 where
  pub role : Option String
  pub email : Option String
  pub namespace : String
  pub environment : String

-- The checks of a new role before its scope is looked up.
unfoldable pub role_refusal : Caller → String → Binding → String → Option ℕ
unfolding is_known_role
role_refusal caller username b role =
    if caller.username == username
    then some 400
    else if not (is_known_role role)
    then some 400
    else if (role == role_superadmin || b.role == role_superadmin)
        && not (caller.role == role_superadmin)
    then some 403
    else none

abbrev pub with_role : String → Scope → Binding → Binding
with_role role scope b = record b {
  role = role;
  namespace = scope.namespace;
  organization_id = scope.organization_id;
  environment_id = scope.environment_id;
}

unfoldable pub unless_taken : Binding → Result StoreError Binding → Result ℕ Binding
unless_taken b (ok other) = err 409
unless_taken b (err not_found) = ok b
unless_taken b (err failed) = err 500

-- Whether an email was removed or replaced by another one.
unfoldable pub is_replaced : String → Option String → Bool
is_replaced old none = true
is_replaced old (some email) = not (email == old)

-- The checks of handleUpdateAccount before its first statement.
unfoldable pub update_refusal : Caller → UpdateAccountRequest → Option ℕ
unfolding permits
update_refusal caller req =
    if not (permits admins caller.role)
    then some 403
    else if not (is_some req.role) && not (is_some req.email)
    then some 400
    else none

module _ (server : Server) where
  -- The switch on the direction of the change.
  unfoldable pub target_scope : UpdateAccountRequest → Binding → String → State Db (Result ℕ Scope)
  unfolding resolve_resource_environment scope_in
  target_scope req b role =
      let demoted =
        resolve_resource_environment server.engine req.namespace req.environment >>= λ env.
        pure (scope_in req.namespace env) in
      if role == role_superadmin
      then pure (
          ok (record {
            namespace = server.namespace;
            organization_id = none;
            environment_id = none;
          }))
      else if b.role == role_superadmin
      then if req.namespace == "" then pure (err 400) else demoted
      else pure (
          ok (record {
            namespace = b.namespace;
            organization_id = b.organization_id;
            environment_id = b.environment_id;
          }))

  -- The check of the destination, and the binding with its new role.
  unfoldable pub move_binding :
      String → String → Binding → Result ℕ Scope → State Db (Result ℕ Binding)
  unfolding find_binding_by_subject unless_taken
  move_binding username role b (err status) = pure (err status)
  move_binding username role b (ok scope) =
      let free =
        find_binding_by_subject server.engine scope.namespace subject_type_local username
        >>= λ found. pure (unless_taken (with_role role scope b) found) in
      if not (scope.namespace == b.namespace) then free else pure (ok (with_role role scope b))

  unfoldable pub move_unless_refused :
      UpdateAccountRequest → String → Binding → String → Option ℕ → State Db (Result ℕ Binding)
  unfolding target_scope move_binding
  move_unless_refused req username b role (some status) = pure (err status)
  move_unless_refused req username b role none =
      target_scope req b role >>= move_binding username role b

  unfoldable pub change_role :
      Caller → String → UpdateAccountRequest → Binding → Option String → State Db (Result ℕ Binding)
  unfolding role_refusal move_unless_refused
  change_role caller username req b none = pure (ok b)
  change_role caller username req b (some role) =
      move_unless_refused req username b role (role_refusal caller username b role)

  unfoldable pub email_unless_refused :
      User → String → Option ℕ → State Db (Result ℕ (Option String))
  unfolding validate_and_check_email
  email_unless_refused user email (some status) = pure (err status)
  email_unless_refused user email none = validate_and_check_email server email user.id

  -- The new email, or the old one if the request names none.
  unfoldable pub change_email :
      Caller → String → User → Binding → Option String → State Db (Result ℕ (Option String))
  unfolding require_sole_organization email_unless_refused
  change_email caller username user b none = pure (ok user.email)
  change_email caller username user b (some email) =
      require_sole_organization server caller username b.namespace
      >>= email_unless_refused user email

  -- The mails to the holder of the account.
  unfoldable pub notify : Option String → Option String → String → String → State Db (Unit {0})
  unfolding is_replaced
  notify old_email new_email old_role new_role =
      let role_mail : State Db (Unit {0}) = elim new_email [
        | none ↦ pure tt
        | some email ↦
            if not (new_role == old_role) then send_mail email "role-changed" else pure tt
      ] in
      let email_mail : State Db (Unit {0}) = elim old_email [
        | none ↦ pure tt
        | some email ↦
            if is_replaced email new_email then send_mail email "email-changed" else pure tt
      ] in
      role_mail >> email_mail

  unfoldable pub conclude_update :
      User
      → String
      → Option String
      → Binding
      → Result StoreError (Unit {0})
      → State Db (Response AccountDto)
  unfolding notify to_account_dto
  conclude_update user old_role email updated (err e) = pure (refuse 500)
  conclude_update user old_role email updated (ok done) =
      notify user.email email old_role updated.role
      >> (to_account_dto server updated >>= λ dto. pure (reply dto))

  -- SetUserEmail, if the request has an email.
  unfoldable pub store_email : User → Bool → Option String → State Db (Result StoreError (Unit {0}))
  unfolding set_user_email
  store_email user false email = pure (ok tt)
  store_email user true email = set_user_email server.engine user.id email

  unfoldable pub conclude_store :
      User
      → UpdateAccountRequest
      → String
      → Option String
      → Result StoreError Binding
      → State Db (Response AccountDto)
  unfolding store_email conclude_update
  conclude_store user req old_role email (err e) = pure (refuse 500)
  conclude_store user req old_role email (ok updated) =
      store_email user (is_some req.email) email >>= conclude_update user old_role email updated

  unfoldable pub store_update :
      User
      → UpdateAccountRequest
      → String
      → Binding
      → Result ℕ (Option String)
      → State Db (Response AccountDto)
  unfolding update_binding conclude_store
  store_update user req old_role b (err status) = pure (refuse status)
  store_update user req old_role b (ok email) =
      update_binding server.engine b >>= conclude_store user req old_role email

  unfoldable pub update_moved :
      Caller
      → String
      → User
      → UpdateAccountRequest
      → String
      → Result ℕ Binding
      → State Db (Response AccountDto)
  unfolding change_email store_update
  update_moved caller username user req old_role (err status) = pure (refuse status)
  update_moved caller username user req old_role (ok b) =
      change_email caller username user b req.email >>= store_update user req old_role b

  unfoldable pub update_user :
      Caller
      → String
      → UpdateAccountRequest
      → Binding
      → Result StoreError User
      → State Db (Response AccountDto)
  unfolding change_role update_moved
  update_user caller username req b (err e) = pure (refuse 500)
  update_user caller username req b (ok user) =
      change_role caller username req b req.role >>= update_moved caller username user req b.role

  unfoldable pub update_found :
      Caller
      → String
      → UpdateAccountRequest
      → Result StoreError Binding
      → State Db (Response AccountDto)
  unfolding is_hidden get_user_by_username update_user
  update_found caller username req (err e) = pure (refuse 404)
  update_found caller username req (ok b) =
      let updated =
        get_user_by_username server.engine username >>= update_user caller username req b in
      if is_hidden caller b then pure (refuse 404) else updated

  unfoldable pub update_unless_refused :
      Caller → String → UpdateAccountRequest → Option ℕ → State Db (Response AccountDto)
  unfolding tenant_namespace find_binding_by_subject update_found
  update_unless_refused caller username req (some status) = pure (refuse status)
  update_unless_refused caller username req none =
      find_binding_by_subject server.engine (tenant_namespace server caller) subject_type_local
        username
      >>= update_found caller username req

  unfoldable pub handle_update_account :
      Caller → String → Option UpdateAccountRequest → State Db (Response AccountDto)
  unfolding permits update_refusal update_unless_refused
  handle_update_account caller username none =
      if not (permits admins caller.role) then pure (refuse 403) else pure (refuse 400)
  handle_update_account caller username (some req) =
      update_unless_refused caller username req (update_refusal caller req)
