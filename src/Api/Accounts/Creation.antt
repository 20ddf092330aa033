-- ===== src/Api/Accounts/Creation.antt =====
-- internal/api/accounts.go: the creation of an account.
pub mod Kept
pub mod Granting
use hyve.Prelude.{
  String, ℕ, Bool, true, false, not, Option, none, some, List, [], ◌∷◌, ◌==◌, ◌&&◌, ◌||◌,
  if◌then◌else◌, any, Result, ok, err, is_some,
}
use hyve.Prelude.Text.{cut_first}
use hyve.Prelude.State.{State, ◌>>=◌, ◌>>◌, pure}
use hyve.Orgdb.{Db, Binding, User, StoreError, not_found, failed, subject_type_local}
use hyve.Orgdb.Users.{
  get_user_by_username, get_user_by_email, create_user, list_bindings_for_identity,
}
use hyve.Orgdb.Bindings.{create_binding, find_binding_by_subject, list_bindings_for_scope}
use hyve.Api.Server.{
  Server, Response, reply, refuse, send_mail, permits, role_admin, role_superadmin,
}
use hyve.Api.Naming.{
  Resolved, no_organization, resolved, unresolved, unavailable, resolve_resource_environment,
}
use hyve.Api.Accounts.{
  Caller, AccountDto, admins, tenant_namespace, to_account_dto, user_email,
  validate_and_check_email,
}

pub record CreateAccountRequest : Type 0 where
  pub username : String
  pub password : String
  pub role : String
  pub email : String
  pub namespace : String
  pub environment : String

pub record CreateAccountResponse : Type 0 where
  pub account : AccountDto
  pub existing_user : Bool

-- Where a new binding goes.
pub record Scope : Type 0 where
  pub namespace : String
  pub organization_id : Option String
  pub environment_id : Option String

-- The switch on the role.
unfoldable pub is_known_role : String → Bool
is_known_role role = role == role_admin || (role == role_superadmin || role == "read-only")

unfoldable pub scope_in : String → Resolved → Result ℕ Scope
scope_in ns no_organization =
    ok (record { namespace = ns; organization_id = none; environment_id = none })
scope_in ns (resolved env) = ok (record {
  namespace = ns;
  organization_id = some env.organization_id;
  environment_id = some env.id;
})
scope_in ns unresolved = err 400
scope_in ns unavailable = err 500

abbrev pub new_user : CreateAccountRequest → Option String → String → User
new_user req email hash = record {
  id = "";
  username = req.username;
  email = email;
  password_hash = some hash;
}

abbrev pub new_binding : CreateAccountRequest → Scope → Binding
new_binding req scope = record {
  id = "";
  namespace = scope.namespace;
  organization_id = scope.organization_id;
  environment_id = scope.environment_id;
  subject_type = subject_type_local;
  identity = req.username;
  role = req.role;
  password_hash = none;
  email = none;
}

-- The checks of handleCreateAccount before its first statement: `none`, or the status that refuses.
unfoldable pub create_refusal : Caller → CreateAccountRequest → Option ℕ
unfolding permits is_known_role
create_refusal caller req =
    if not (permits admins caller.role)
    then some 403
    else if req.username == ""
    then some 400
    else if req.role == role_superadmin && not (caller.role == role_superadmin)
    then some 403
    else if not (is_known_role req.role)
    then some 400
    else none

module _ (server : Server) where
  unfoldable pub resolve_scope : Caller → CreateAccountRequest → State Db (Result ℕ Scope)
  unfolding resolve_resource_environment scope_in tenant_namespace
  resolve_scope caller req =
      let ns =
        if caller.role == role_superadmin && not (req.namespace == "")
        then req.namespace
        else tenant_namespace server caller in
      let resolved = resolve_resource_environment server.engine ns req.environment >>= λ env.
      pure (scope_in ns env) in
      if req.role == role_superadmin
      then pure (
          ok (record {
            namespace = server.namespace;
            organization_id = none;
            environment_id = none;
          }))
      else resolved

  unfoldable pub conclude_new_user :
      CreateAccountRequest → Result ℕ (Option String) → State Db (Result ℕ User)
  unfolding create_user
  conclude_new_user req (err status) = pure (err status)
  conclude_new_user req (ok email) = elim (server.hash_password req.password) [
    | none ↦ pure (err 500)
    | some hash ↦ create_user server.engine (new_user req email hash) >>= λ made.
        pure (elim made [ err e ↦ err 500 | ok user ↦ ok user ])
  ]

  unfoldable pub create_new_user : CreateAccountRequest → State Db (Result ℕ User)
  unfolding validate_and_check_email conclude_new_user
  create_new_user req =
      let made = validate_and_check_email server req.email "" >>= conclude_new_user req in
      if req.password == ""
      then pure (err 400)
      else if server.trim_space req.email == ""
      then pure (err 400)
      else made

  -- The user, and whether it was there before.
  unfoldable pub find_or_create :
      CreateAccountRequest → Result StoreError User → State Db (Result ℕ (User × Bool))
  unfolding create_new_user
  find_or_create req (ok user) = pure (ok (user, true))
  find_or_create req (err not_found) = create_new_user req >>= λ made.
      pure (elim made [ err status ↦ err status | ok user ↦ ok (user, false) ])
  find_or_create req (err failed) = pure (err 500)

  -- The mail to a new user.
  unfoldable pub welcome : User → Bool → State Db (Unit {0})
  welcome user existing =
      if existing
      then pure tt
      else elim user.email [ none ↦ pure tt | some email ↦ send_mail email "account-created" ]

  unfoldable pub conclude_binding :
      User → Bool → Result StoreError Binding → State Db (Response CreateAccountResponse)
  unfolding welcome to_account_dto
  conclude_binding user existing (err e) = pure (refuse 500)
  conclude_binding user existing (ok b) =
      welcome user existing
      >> (to_account_dto server b >>= λ dto.
          pure (reply (record { account = dto; existing_user = existing })))

  unfoldable pub bind_user :
      CreateAccountRequest
      → Scope
      → Result ℕ (User × Bool)
      → State Db (Response CreateAccountResponse)
  unfolding create_binding conclude_binding
  bind_user req scope (err status) = pure (refuse status)
  bind_user req scope (ok (user, existing)) =
      create_binding server.engine (new_binding req scope) >>= conclude_binding user existing

  -- The part after the search for a binding of the user.
  unfoldable pub conclude_absent :
      CreateAccountRequest
      → Scope
      → Result StoreError Binding
      → State Db (Response CreateAccountResponse)
  unfolding get_user_by_username find_or_create bind_user
  conclude_absent req scope (ok b) = pure (refuse 409)
  conclude_absent req scope (err failed) = pure (refuse 500)
  conclude_absent req scope (err not_found) =
      get_user_by_username server.engine req.username >>= find_or_create req >>= bind_user req scope

  unfoldable pub create_in :
      CreateAccountRequest → Result ℕ Scope → State Db (Response CreateAccountResponse)
  unfolding find_binding_by_subject conclude_absent
  create_in req (err status) = pure (refuse status)
  create_in req (ok scope) =
      find_binding_by_subject server.engine scope.namespace subject_type_local req.username
      >>= conclude_absent req scope

  unfoldable pub create_account :
      Caller → CreateAccountRequest → State Db (Response CreateAccountResponse)
  unfolding resolve_scope create_in
  create_account caller req = resolve_scope caller req >>= create_in req

  unfoldable pub create_unless_refused :
      Caller → CreateAccountRequest → Option ℕ → State Db (Response CreateAccountResponse)
  unfolding create_account
  create_unless_refused caller req (some status) = pure (refuse status)
  create_unless_refused caller req none = create_account caller req

  unfoldable pub handle_create_account :
      Caller → Option CreateAccountRequest → State Db (Response CreateAccountResponse)
  unfolding create_unless_refused create_refusal permits
  handle_create_account caller none =
      if not (permits admins caller.role) then pure (refuse 403) else pure (refuse 400)
  handle_create_account caller (some req) =
      create_unless_refused caller req (create_refusal caller req)
