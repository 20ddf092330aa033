-- ===== src/Api/Accounts/Creation/Granting.antt =====
-- The bindings that handleCreateAccount in internal/api/accounts.go adds.
use hyve.Prelude.{
  String, ℕ, Bool, false, Option, none, some, ◌==◌, ◌≡◌, ◌≢◌, ◌∙◌, refl, sym, arith, Result, ok,
  err, str_eq_of_ne, ne_of_differ,
}
use hyve.Orgdb.{Db, Binding, User, StoreError, not_found, failed, subject_type_local}
use hyve.Orgdb.Users.{get_user_by_username}
use hyve.Orgdb.Bindings.{find_binding_by_subject, create_binding}
use hyve.Orgdb.Bindings.Added.{
  Adds, same, Grants, Adds_after, Adds_before, Adds_weaken, create_binding-Adds,
}
use hyve.Api.Server.{Server, role_superadmin}
use hyve.Api.Naming.{
  Resolved, no_organization, resolved, unresolved, unavailable, resolve_resource_environment,
}
use hyve.Api.Accounts.{Caller, tenant_namespace}
use hyve.Api.Accounts.Creation.{
  CreateAccountRequest, Scope, scope_in, new_binding, resolve_scope, find_or_create, bind_user,
  conclude_absent, create_in, handle_create_account, create_account, create_unless_refused,
  create_refusal,
}
use hyve.Api.Accounts.Creation.Kept.{
  conclude_binding-Keeps, find_binding_by_subject-Keeps, find_or_create-Keeps,
  get_user_by_username-Keeps, resolve_scope-Keeps,
}

module _ (server : Server) where
  bind_user-Adds :
      (req : CreateAccountRequest) (scope : Scope) (made : Result ℕ (User × Bool)) (db : Db)
      → Adds
          (Grants scope.namespace req.role req.username)
          db.bindings
          (bind_user server req scope made db).1.bindings
  unfolding bind_user
  bind_user-Adds req scope (err status) db = same refl
  bind_user-Adds req scope (ok (user, existing)) db =
      let b = new_binding req scope in
      let (made, db') = create_binding server.engine b db in
      Adds_after (create_binding-Adds server.engine b db)
        (conclude_binding-Keeps server user existing made db')

  conclude_absent-Adds :
      (req : CreateAccountRequest) (scope : Scope) (found : Result StoreError Binding) (db : Db)
      → Adds
          (Grants scope.namespace req.role req.username)
          db.bindings
          (conclude_absent server req scope found db).1.bindings
  unfolding conclude_absent
  conclude_absent-Adds req scope (ok b) db = same refl
  conclude_absent-Adds req scope (err failed) db = same refl
  conclude_absent-Adds req scope (err not_found) db =
      let (user, db1) = get_user_by_username server.engine req.username db in
      let (made, db2) = find_or_create server req user db1 in
      let kept : db2.bindings ≡ db.bindings =
        find_or_create-Keeps server req user db1
        ∙ get_user_by_username-Keeps server.engine req.username db in
      Adds_before kept (bind_user-Adds req scope made db2)

  create_in-Adds :
      (req : CreateAccountRequest) (scope : Scope) (db : Db)
      → Adds
          (Grants scope.namespace req.role req.username)
          db.bindings
          (create_in server req (ok scope) db).1.bindings
  unfolding create_in
  create_in-Adds req scope db =
      let (found, db') =
        find_binding_by_subject server.engine scope.namespace subject_type_local req.username db in
      Adds_before
        (find_binding_by_subject-Keeps server.engine scope.namespace subject_type_local req.username
          db)
        (conclude_absent-Adds req scope found db')

  scope_in-namespace :
      (ns : String) (env : Resolved) {scope : Scope}
      → scope_in ns env ≡ ok scope
      → scope.namespace ≡ ns
  unfolding scope_in
  scope_in-namespace ns no_organization h = cc
  scope_in-namespace ns (resolved env) h = cc
  scope_in-namespace ns unresolved h = cc
  scope_in-namespace ns unavailable h = cc

  -- The scope of a binding that is not a superadmin's, for a caller who is none.
  resolve_scope-tenant_namespace :
      (caller : Caller) (req : CreateAccountRequest) (db : Db) {scope : Scope}
      → (caller.role == role_superadmin) ≡ false
      → (req.role == role_superadmin) ≡ false
      → (resolve_scope server caller req db).0 ≡ ok scope
      → scope.namespace ≡ tenant_namespace server caller
  unfolding resolve_scope
  resolve_scope-tenant_namespace caller req db ordinary plain h =
      scope_in-namespace (tenant_namespace server caller)
        (resolve_resource_environment server.engine (tenant_namespace server caller) req.environment
          db).0
        (rw (ordinary, plain, resolve_scope) at h)

  -- A binding in the caller's own namespace, to a role below superadmin.
  abbrev pub IsOrdinary : Caller → Binding → Type 0
  IsOrdinary caller b = (b.namespace ≡ tenant_namespace server caller) × (b.role ≢ role_superadmin)

  created-IsOrdinary :
      (caller : Caller) (req : CreateAccountRequest) (found : Result ℕ Scope) (db : Db)
      → ((scope : Scope) → found ≡ ok scope → scope.namespace ≡ tenant_namespace server caller)
      → req.role ≢ role_superadmin
      → Adds (IsOrdinary caller) db.bindings (create_in server req found db).1.bindings
  unfolding create_in
  created-IsOrdinary caller req (err status) db own plain = same refl
  created-IsOrdinary caller req (ok scope) db own plain =
      Adds_weaken (create_in-Adds req scope db)
        (λ b (ns, (role, identity)). (ns ∙ own scope refl, λ super. plain (sym role ∙ super)))

  unrefused-IsOrdinary :
      (caller : Caller) (req : CreateAccountRequest) (refusal : Option ℕ) (db : Db)
      → create_refusal caller req ≡ refusal
      → caller.role ≢ role_superadmin
      → Adds
          (IsOrdinary caller)
          db.bindings
          (create_unless_refused server caller req refusal db).1.bindings
  unfolding create_unless_refused create_account create_refusal
  unrefused-IsOrdinary caller req (some status) db e ordinary = same refl
  unrefused-IsOrdinary caller req none db e ordinary =
      let no = str_eq_of_ne ordinary in
      let plain : (req.role == role_superadmin) ≡ false = ground arith in
      let (scope, db') = resolve_scope server caller req db in
      Adds_before (resolve_scope-Keeps server caller req db) (
        created-IsOrdinary caller req scope db'
          (λ found h. resolve_scope-tenant_namespace caller req db no plain h) (ne_of_differ plain))

  -- A caller who is no superadmin adds at most one binding by a request for an account: in the
  -- caller's own namespace, and to a role below superadmin.
  pub handle_create_account-IsOrdinary :
      (caller : Caller) (req : CreateAccountRequest) (db : Db)
      → caller.role ≢ role_superadmin
      → Adds
          (IsOrdinary caller)
          db.bindings
          (handle_create_account server caller (some req) db).1.bindings
  unfolding handle_create_account
  handle_create_account-IsOrdinary caller req db ordinary =
      unrefused-IsOrdinary caller req (create_refusal caller req) db refl ordinary
