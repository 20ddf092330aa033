-- ===== src/Api/Accounts/Creation/Kept.antt =====
-- What the creation of an account in internal/api/accounts.go does to the bindings beforehand.
use hyve.Prelude.{
  String, ℕ, Bool, Option, ◌==◌, ◌≡◌, ◌∙◌, inl, inr, refl, arith, Result, ok, err, Bool-cases,
  Option-cases,
}
use hyve.Orgdb.{
  Binding, User, Organization, StoreError, Engine, query, query_row, exec, settle, not_found,
  failed,
}
use hyve.Orgdb.Organizations.{get_organization_by_name, get_environment_by_name, list_environments}
use hyve.Orgdb.Users.{
  get_user_by_id, get_user_by_username, get_user_by_email, insert_user, create_user,
}
use hyve.Orgdb.Bindings.{find_binding_by_subject, find_bindings_by_namespace, best_or_missing}
use hyve.Orgdb.Bindings.Added.{Keeps, kept_after}
use hyve.Api.Server.{Server, role_superadmin}
use hyve.Api.Naming.{resolve_in, conclude_resolve, resolve_resource_environment}
use hyve.Api.Accounts.{Caller, user_email, to_account_dto, validate_and_check_email}
use hyve.Api.Accounts.Creation.{
  CreateAccountRequest, new_user, resolve_scope, conclude_new_user, create_new_user, find_or_create,
  welcome, conclude_binding,
}

module _ (engine : Engine) where
  pub get_user_by_username-Keeps :
      (username : String) → Keeps (get_user_by_username engine username)
  unfolding get_user_by_username query_row
  get_user_by_username-Keeps username db = ground arith

  pub insert_user-Keeps : (u : User) → Keeps (insert_user engine u)
  unfolding insert_user get_user_by_id exec settle query_row
  insert_user-Keeps u db = ground arith

  pub create_user-Keeps : (u : User) → Keeps (create_user engine u)
  unfolding create_user
  create_user-Keeps u db = ground (
    arith,
    insert_user-Keeps (record u { id = engine.new_id db.sent }) db,
    insert_user-Keeps u db,
  )

  pub find_binding_by_subject-Keeps :
      (namespace subject_type identity : String)
      → Keeps (find_binding_by_subject engine namespace subject_type identity)
  unfolding find_binding_by_subject find_bindings_by_namespace query
  find_binding_by_subject-Keeps namespace subject_type identity db =
      let found : (find_bindings_by_namespace engine namespace identity db).1.bindings
          ≡ db.bindings =
        ground arith in
      kept_after (find_bindings_by_namespace engine namespace identity)
        (λ bindings db'. (best_or_missing subject_type bindings, db')) db (λ a db'. refl)
      ∙ found

  pub conclude_resolve-Keeps :
      (requested : String) (found : Result StoreError Organization)
      → Keeps (conclude_resolve engine requested found)
  unfolding conclude_resolve resolve_in get_environment_by_name list_environments query query_row
  conclude_resolve-Keeps requested (ok org) db = ground arith
  conclude_resolve-Keeps requested (err not_found) db = refl
  conclude_resolve-Keeps requested (err failed) db = refl

  pub resolve_resource_environment-Keeps :
      (namespace requested : String)
      → Keeps (resolve_resource_environment engine namespace requested)
  unfolding resolve_resource_environment get_organization_by_name query_row
  resolve_resource_environment-Keeps namespace requested db =
      let (found, db') = get_organization_by_name engine namespace db in
      let read : db'.bindings ≡ db.bindings = ground arith in
      conclude_resolve-Keeps requested found db' ∙ read

module _ (server : Server) where
  pub validate_and_check_email-Keeps :
      (given exclude : String) → Keeps (validate_and_check_email server given exclude)
  unfolding validate_and_check_email get_user_by_email query_row
  validate_and_check_email-Keeps given exclude db = ground arith

  pub conclude_new_user-Keeps :
      (req : CreateAccountRequest) (email : Result ℕ (Option String))
      → Keeps (conclude_new_user server req email)
  unfolding conclude_new_user
  conclude_new_user-Keeps req (err status) db = refl
  conclude_new_user-Keeps req (ok email) db =
      elim (Option-cases (server.hash_password req.password)) [
        | inl e ↦ rw (e, conclude_new_user) refl
        | inr (hash, e) ↦
            rw (e, conclude_new_user) (create_user-Keeps server.engine (new_user req email hash) db)
      ]

  pub create_new_user-Keeps : (req : CreateAccountRequest) → Keeps (create_new_user server req)
  unfolding create_new_user
  create_new_user-Keeps req db =
      let (email, db') = validate_and_check_email server req.email "" db in
      ground (
        arith,
        conclude_new_user-Keeps req email db',
        validate_and_check_email-Keeps req.email "" db,
      )

  pub find_or_create-Keeps :
      (req : CreateAccountRequest) (found : Result StoreError User)
      → Keeps (find_or_create server req found)
  unfolding find_or_create
  find_or_create-Keeps req (ok user) db = refl
  find_or_create-Keeps req (err not_found) db = create_new_user-Keeps req db
  find_or_create-Keeps req (err failed) db = refl

  pub conclude_binding-Keeps :
      (user : User) (existing : Bool) (made : Result StoreError Binding)
      → Keeps (conclude_binding server user existing made)
  unfolding conclude_binding welcome to_account_dto user_email get_user_by_username query_row
  conclude_binding-Keeps user existing (err e) db = refl
  conclude_binding-Keeps user existing (ok b) db = ground arith

  pub resolve_scope-Keeps :
      (caller : Caller) (req : CreateAccountRequest) → Keeps (resolve_scope server caller req)
  unfolding resolve_scope
  resolve_scope-Keeps caller req db = elim (Bool-cases (req.role == role_superadmin)) [
    | inl e ↦ rw (e, resolve_scope) refl
    | inr e ↦
        rw (e, resolve_scope)
          (resolve_resource_environment-Keeps server.engine _ req.environment db)
  ]
