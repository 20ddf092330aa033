-- ===== src/Api/Accounts.antt =====
-- internal/api/accounts.go: who may see, create, change and delete accounts. A handler
-- is given the identity that requireAuth and requireRole put in the context. Whether a mail went out
-- and service accounts are left out.
pub mod Creation
pub mod Changes
pub mod Update
use hyve.Prelude.{
  String, ℕ, Bool, true, false, not, Option, none, some, List, [], ◌∷◌, ◌==◌, ◌&&◌, ◌||◌,
  if◌then◌else◌, any, Result, ok, err, is_some,
}
use hyve.Prelude.Text.{cut_first}
use hyve.Prelude.State.{State, ◌>>=◌, ◌>>◌, pure}
use hyve.Orgdb.{Db, Binding, User, StoreError, not_found, failed, subject_type_local}
use hyve.Orgdb.Users.{
  get_user_by_username, get_user_by_email, create_user, list_bindings_for_identity,
}
use hyve.Orgdb.Bindings.{create_binding, find_binding_by_subject, list_bindings_for_scope}
use hyve.Api.Server.{
  Server, Response, reply, refuse, send_mail, permits, role_admin, role_superadmin,
}
use hyve.Api.Naming.{
  Resolved, no_organization, resolved, unresolved, unavailable, resolve_resource_environment,
}

pub record Caller : Type 0 where
  pub username : String
  pub role : String
  pub namespace : String

pub record AccountDto : Type 0 where
  pub username : String
  pub role : String
  pub email : Option String

abbrev pub admins : List String
admins = role_admin ∷ role_superadmin ∷ []

-- The part of validateAndCheckEmail after the lookup; an error is a status.
unfoldable pub conclude_email : String → String → Result StoreError User → Result ℕ (Option String)
conclude_email email exclude (ok existing) =
    if existing.id == exclude then ok (some email) else err 409
conclude_email email exclude (err not_found) = ok (some email)
conclude_email email exclude (err failed) = err 500

-- The status that refuses a user who may belong to another organization.
unfoldable pub sole_status : Result StoreError Bool → Option ℕ
sole_status (err e) = some 500
sole_status (ok true) = some 403
sole_status (ok false) = none

-- A superadmin's account is not found by an ordinary admin.
unfoldable pub is_hidden : Caller → Binding → Bool
is_hidden caller b = b.role == role_superadmin && not (caller.role == role_superadmin)

module _ (server : Server) where
  unfoldable pub tenant_namespace : Caller → String
  tenant_namespace caller =
      if not (caller.namespace == "") then caller.namespace else server.namespace

  unfoldable pub user_email : String → State Db (Option String)
  unfolding get_user_by_username
  user_email username = get_user_by_username server.engine username >>= λ found.
      pure (elim found [ ok u ↦ u.email | err e ↦ none ])

  unfoldable pub to_account_dto : Binding → State Db AccountDto
  unfolding user_email
  to_account_dto b = user_email b.identity >>= λ email.
      pure (record { username = b.identity; role = b.role; email = email })

  unfoldable pub member_elsewhere : String → String → State Db (Result StoreError Bool)
  unfolding list_bindings_for_identity
  member_elsewhere username namespace =
      list_bindings_for_identity server.engine subject_type_local username >>= λ listed.
      pure (elim listed [
        | err e ↦ err e
        | ok memberships ↦ ok (any (λ b. not (b.namespace == namespace)) memberships)
      ])

  -- requireSoleOrganization: `none`, or the status that refuses.
  unfoldable pub require_sole_organization : Caller → String → String → State Db (Option ℕ)
  unfolding member_elsewhere sole_status
  require_sole_organization caller username namespace =
      let checked =
        member_elsewhere username namespace >>= λ elsewhere. pure (sole_status elsewhere) in
      if caller.role == role_superadmin then pure none else checked

  unfoldable pub validate_and_check_email : String → String → State Db (Result ℕ (Option String))
  unfolding get_user_by_email conclude_email
  validate_and_check_email given exclude =
      let email = server.trim_space given in
      let checked = get_user_by_email server.engine email >>= λ found.
      pure (conclude_email email exclude found) in
      if email == ""
      then pure (ok none)
      else if not (is_some (cut_first b'@' email))
      then pure (err 400)
      else checked

  unfoldable pub get_found : Caller → Result StoreError Binding → State Db (Response AccountDto)
  unfolding is_hidden to_account_dto
  get_found caller (err e) = pure (refuse 404)
  get_found caller (ok b) =
      let shown = to_account_dto b >>= λ dto. pure (reply dto) in
      if is_hidden caller b then pure (refuse 404) else shown

  unfoldable pub handle_get_account : Caller → String → State Db (Response AccountDto)
  unfolding permits tenant_namespace find_binding_by_subject get_found
  handle_get_account caller username =
      let shown =
        find_binding_by_subject server.engine (tenant_namespace caller) subject_type_local username
        >>= get_found caller in
      if not (permits admins caller.role) then pure (refuse 403) else shown

  -- The loop of handleListAccounts.
  unfoldable pub accounts_of : Caller → List Binding → State Db (List AccountDto)
  unfolding to_account_dto is_hidden
  accounts_of caller [] = pure []
  accounts_of caller (b ∷ bindings) =
      let rest = accounts_of caller bindings in
      if not (b.subject_type == subject_type_local) || is_hidden caller b
      then rest
      else to_account_dto b >>= λ dto. rest >>= λ dtos. pure (dto ∷ dtos)

  unfoldable pub handle_list_accounts : Caller → State Db (Response (List AccountDto))
  unfolding list_bindings_for_scope accounts_of tenant_namespace permits
  handle_list_accounts caller =
      let listed = list_bindings_for_scope server.engine (tenant_namespace caller) >>= λ listed.
      elim listed [
        | err e ↦ pure (refuse 500)
        | ok bindings ↦ accounts_of caller bindings >>= λ dtos. pure (reply dtos)
      ] in
      if not (permits admins caller.role) then pure (refuse 403) else listed
