-- ===== src/Api/Accounts/Update/Kept.antt =====
-- The steps of `handleUpdateAccount` in internal/api/accounts.go that leave the bindings.
use hyve.Prelude.{
  String, ℕ, Bool, true, false, Option, none, some, ◌≡◌, ◌∙◌, refl, arith, Result, ok, err, is_some,
}
use hyve.Orgdb.{Binding, User, StoreError, exec, settle, query, query_row, subject_type_local}
use hyve.Orgdb.Users.{get_user_by_username, set_user_email, list_bindings_for_identity}
use hyve.Orgdb.Bindings.{}
use hyve.Orgdb.Bindings.Added.{Keeps}
use hyve.Api.Server.{Server}
use hyve.Api.Accounts.{
  Caller, to_account_dto, user_email, require_sole_organization, member_elsewhere,
}
use hyve.Api.Accounts.Creation.{Scope}
use hyve.Api.Accounts.Creation.Kept.{
  find_binding_by_subject-Keeps, resolve_resource_environment-Keeps, validate_and_check_email-Keeps,
}
use hyve.Api.Accounts.Update.{
  UpdateAccountRequest, role_refusal, target_scope, move_binding, move_unless_refused, change_role,
  email_unless_refused, conclude_store, change_email, notify, conclude_update, store_email,
}

module _ (server : Server) where
  target_scope-Keeps :
      (req : UpdateAccountRequest) (b : Binding) (role : String)
      → Keeps (target_scope server req b role)
  unfolding target_scope
  target_scope-Keeps req b role db =
      ground
        (arith, resolve_resource_environment-Keeps server.engine req.namespace req.environment db)

  move_binding-Keeps :
      (username role : String) (b : Binding) (scope : Result ℕ Scope)
      → Keeps (move_binding server username role b scope)
  unfolding move_binding
  move_binding-Keeps username role b (err status) db = refl
  move_binding-Keeps username role b (ok scope) db = ground (
    arith,
    find_binding_by_subject-Keeps server.engine scope.namespace subject_type_local username db,
  )

  move_unless_refused-Keeps :
      (req : UpdateAccountRequest) (username : String) (b : Binding) (role : String)
      (refusal : Option ℕ)
      → Keeps (move_unless_refused server req username b role refusal)
  unfolding move_unless_refused
  move_unless_refused-Keeps req username b role (some status) db = refl
  move_unless_refused-Keeps req username b role none db =
      let (scope, db') = target_scope server req b role db in
      move_binding-Keeps username role b scope db' ∙ target_scope-Keeps req b role db

  pub change_role-Keeps :
      (caller : Caller) (username : String) (req : UpdateAccountRequest) (b : Binding)
      (role : Option String)
      → Keeps (change_role server caller username req b role)
  unfolding change_role
  change_role-Keeps caller username req b none db = refl
  change_role-Keeps caller username req b (some role) db =
      move_unless_refused-Keeps req username b role (role_refusal caller username b role) db

  email_unless_refused-Keeps :
      (user : User) (email : String) (refusal : Option ℕ)
      → Keeps (email_unless_refused server user email refusal)
  unfolding email_unless_refused
  email_unless_refused-Keeps user email (some status) db = refl
  email_unless_refused-Keeps user email none db =
      validate_and_check_email-Keeps server email user.id db

  pub change_email-Keeps :
      (caller : Caller) (username : String) (user : User) (b : Binding) (email : Option String)
      → Keeps (change_email server caller username user b email)
  unfolding change_email require_sole_organization member_elsewhere list_bindings_for_identity query
  change_email-Keeps caller username user b none db = refl
  change_email-Keeps caller username user b (some email) db =
      let (refusal, db') = require_sole_organization server caller username b.namespace db in
      let read : db'.bindings ≡ db.bindings = ground arith in
      email_unless_refused-Keeps user email refusal db' ∙ read

  conclude_update-Keeps :
      (user : User) (old_role : String) (email : Option String) (updated : Binding)
      (done : Result StoreError (Unit {0}))
      → Keeps (conclude_update server user old_role email updated done)
  unfolding conclude_update notify to_account_dto user_email get_user_by_username query_row
  conclude_update-Keeps user old_role email updated (err e) db = refl
  conclude_update-Keeps user old_role email updated (ok done) db = ground arith

  store_email-Keeps :
      (user : User) (given : Bool) (email : Option String)
      → Keeps (store_email server user given email)
  unfolding store_email set_user_email exec settle
  store_email-Keeps user false email db = refl
  store_email-Keeps user true email db = ground arith

  pub conclude_store-Keeps :
      (user : User) (req : UpdateAccountRequest) (old_role : String) (email : Option String)
      (stored : Result StoreError Binding)
      → Keeps (conclude_store server user req old_role email stored)
  unfolding conclude_store
  conclude_store-Keeps user req old_role email (err e) db = refl
  conclude_store-Keeps user req old_role email (ok updated) db =
      let (done, db') = store_email server user (is_some req.email) email db in
      conclude_update-Keeps user old_role email updated done db'
      ∙ store_email-Keeps user (is_some req.email) email db
