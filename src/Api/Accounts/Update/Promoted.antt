-- ===== src/Api/Accounts/Update/Promoted.antt =====
-- Whom `handleUpdateAccount` of internal/api/accounts.go makes a superadmin.
use hyve.Prelude.{
  ◌||◌, String, ℕ, Bool, true, false, Option, none, some, List, [], ◌∷◌, ◌==◌, ◌&&◌, ◌≡◌, ◌≢◌, ◌∙◌,
  ◌⊎◌, inl, inr, refl, sym, ap, arith, any, Result, ok, err, Bool-cases, str_eq_of_ne,
}
use hyve.Orgdb.{
  Db, Binding, User, StoreError, Engine, exec, settle, query_row, not_found, failed,
  subject_type_local,
}
use hyve.Orgdb.Tables.{update}
use hyve.Orgdb.Users.{get_user_by_username}
use hyve.Orgdb.Bindings.{
  find_binding_by_subject, update_binding, with_grant, replace_binding, is_taken, is_dangling,
  is_half_scoped, get_binding_by_id,
}
use hyve.Orgdb.Bindings.Added.{kept_after}
use hyve.Api.Server.{Server, role_superadmin}
use hyve.Api.Accounts.{Caller, is_hidden, tenant_namespace}
use hyve.Api.Accounts.Creation.{Scope}
use hyve.Api.Accounts.Creation.Kept.{find_binding_by_subject-Keeps, get_user_by_username-Keeps}
use hyve.Api.Accounts.Update.{
  UpdateAccountRequest, role_refusal, with_role, unless_taken, target_scope, move_binding,
  move_unless_refused, change_role, update_refusal, update_unless_refused, change_email,
  store_update, update_moved, update_user, update_found, handle_update_account,
}
use hyve.Api.Accounts.Update.Kept.{change_email-Keeps, change_role-Keeps, conclude_store-Keeps}

-- Whether an identity has a binding to superadmin.
abbrev pub is_super : String → List Binding → Bool
is_super identity = any (λ b. b.identity == identity && b.role == role_superadmin)

-- Nobody is a superadmin afterwards who was not before.
abbrev pub PromotesNone : List Binding → List Binding → Type 0
PromotesNone before after =
    (identity : String) → is_super identity after ≡ true → is_super identity before ≡ true

PromotesNone-same : {before after : List Binding} → after ≡ before → PromotesNone before after
PromotesNone-same e identity h = ap (is_super identity) (sym e) ∙ h

PromotesNone-before :
    {before middle : List Binding} (after : List Binding)
    → middle ≡ before
    → PromotesNone middle after
    → PromotesNone before after
PromotesNone-before after e p identity h = ap (is_super identity) (sym e) ∙ p identity h

is_super-update :
    (b : Binding) (rows : List Binding) (identity : String)
    → (b.role == role_superadmin) ≡ false
    → is_super identity (update (λ row. row.id == b.id) (with_grant b) rows) ≡ true
    → is_super identity rows ≡ true
is_super-update b [] identity plain h = h
is_super-update b (row ∷ rows) identity plain h =
    ground (arith, is_super-update b rows identity plain)

module _ (engine : Engine) where
  replaced :
      (b : Binding) (db : Db)
      → ((exec engine (replace_binding b) db).1.bindings ≡ db.bindings)
        ⊎ ((exec engine (replace_binding b) db).1.bindings
            ≡ update (λ row. row.id == b.id) (with_grant b) db.bindings)
  unfolding exec settle
  replaced b db = elim (Bool-cases (is_taken b db.bindings || is_dangling b db)) [
    | inl taken ↦ inl (ground arith)
    | inr free ↦ elim (Bool-cases (engine.is_up db.sent)) [
      | inl up ↦ inr (ground arith)
      | inr down ↦ inl (ground arith)
    ]
  ]

  update_binding-PromotesNone :
      (b : Binding) (db : Db)
      → (b.role == role_superadmin) ≡ false
      → PromotesNone db.bindings (update_binding engine b db).1.bindings
  unfolding update_binding get_binding_by_id query_row
  update_binding-PromotesNone b db plain identity h =
      let stored = exec engine (replace_binding b) in
      elim (Bool-cases (is_half_scoped b)) [
        | inl e ↦ rw (e, update_binding) at h
        | inr e ↦
            let read =
              kept_after stored (λ done. get_binding_by_id engine b.id) db
                (λ done db'. ground arith) in
            let there = ap (is_super identity) (sym read) ∙ rw (e, update_binding) at h in
            elim (replaced b db) [
              | inl k ↦ ap (is_super identity) (sym k) ∙ there
              | inr k ↦
                  is_super-update b db.bindings identity plain
                    (ap (is_super identity) (sym k) ∙ there)
            ]
      ]

module _ (server : Server) where
  unless_taken-role :
      (b b' : Binding) (found : Result StoreError Binding)
      → unless_taken b found ≡ ok b'
      → b'.role ≡ b.role
  unfolding unless_taken
  unless_taken-role b b' (ok other) h = cc
  unless_taken-role b b' (err not_found) h = let e : b ≡ b' = cc in ap (λ x. x.role) (sym e)
  unless_taken-role b b' (err failed) h = cc

  move_binding-role :
      (username role : String) (b b' : Binding) (scope : Result ℕ Scope) (db : Db)
      → (move_binding server username role b scope db).0 ≡ ok b'
      → b'.role ≡ role
  unfolding move_binding
  move_binding-role username role b b' (err status) db h = cc
  move_binding-role username role b b' (ok scope) db h =
      elim (Bool-cases (scope.namespace == b.namespace)) [
        | inl e ↦
            let same : with_role role scope b ≡ b' = let whole = rw (e, move_binding) at h in cc in
            ap (λ x. x.role) (sym same)
        | inr e ↦ unless_taken-role (with_role role scope b) b' _ (rw (e, move_binding) at h)
      ]

  move_unless_refused-role :
      (req : UpdateAccountRequest) (username : String) (b b' : Binding) (role : String)
      (refusal : Option ℕ) (db : Db)
      → (move_unless_refused server req username b role refusal db).0 ≡ ok b'
      → (b'.role ≡ role) × (refusal ≡ none)
  unfolding move_unless_refused
  move_unless_refused-role req username b b' role (some status) db h = cc
  move_unless_refused-role req username b b' role none db h =
      let (scope, db') = target_scope server req b role db in
      (move_binding-role username role b b' scope db' h, refl)

  change_role-ordinary :
      (caller : Caller) (username : String) (req : UpdateAccountRequest) (b b' : Binding)
      (role : Option String) (db : Db)
      → (caller.role == role_superadmin) ≡ false
      → (b.role == role_superadmin) ≡ false
      → (change_role server caller username req b role db).0 ≡ ok b'
      → (b'.role == role_superadmin) ≡ false
  unfolding change_role role_refusal
  change_role-ordinary caller username req b b' none db lower plain h =
      let e : b ≡ b' = cc in ap (λ x. x.role == role_superadmin) (sym e) ∙ plain
  change_role-ordinary caller username req b b' (some role) db lower plain h =
      let (same, allowed) =
        move_unless_refused-role req username b b' role (role_refusal caller username b role) db
          h in
      let below : (role == role_superadmin) ≡ false = ground arith in
      ap (λ r. r == role_superadmin) same ∙ below

  store_update-PromotesNone :
      (user : User) (req : UpdateAccountRequest) (old_role : String) (b : Binding)
      (email : Result ℕ (Option String)) (db : Db)
      → (b.role == role_superadmin) ≡ false
      → PromotesNone db.bindings (store_update server user req old_role b email db).1.bindings
  unfolding store_update
  store_update-PromotesNone user req old_role b (err status) db plain = PromotesNone-same refl
  store_update-PromotesNone user req old_role b (ok email) db plain =
      let (stored, db') = update_binding server.engine b db in
      λ identity h. update_binding-PromotesNone server.engine b db plain identity (
        ap (is_super identity)
          (sym (conclude_store-Keeps server user req old_role email stored db'))
        ∙ h)

  update_moved-PromotesNone :
      (caller : Caller) (username : String) (user : User) (req : UpdateAccountRequest)
      (old_role : String) (moved : Result ℕ Binding) (db : Db)
      → ((b : Binding) → moved ≡ ok b → (b.role == role_superadmin) ≡ false)
      → PromotesNone db.bindings
          (update_moved server caller username user req old_role moved db).1.bindings
  unfolding update_moved
  update_moved-PromotesNone caller username user req old_role (err status) db plain =
      PromotesNone-same refl
  update_moved-PromotesNone caller username user req old_role (ok b) db plain =
      let (email, db') = change_email server caller username user b req.email db in
      PromotesNone-before _ (change_email-Keeps server caller username user b req.email db)
        (store_update-PromotesNone user req old_role b email db' (plain b refl))

  update_user-PromotesNone :
      (caller : Caller) (username : String) (req : UpdateAccountRequest) (b : Binding)
      (user : Result StoreError User) (db : Db)
      → (caller.role == role_superadmin) ≡ false
      → (b.role == role_superadmin) ≡ false
      → PromotesNone db.bindings (update_user server caller username req b user db).1.bindings
  unfolding update_user
  update_user-PromotesNone caller username req b (err e) db lower plain = PromotesNone-same refl
  update_user-PromotesNone caller username req b (ok user) db lower plain =
      let (moved, db') = change_role server caller username req b req.role db in
      PromotesNone-before _ (change_role-Keeps server caller username req b req.role db) (
        update_moved-PromotesNone caller username user req b.role moved db'
          (λ b' h. change_role-ordinary caller username req b b' req.role db lower plain h))

  update_found-PromotesNone :
      (caller : Caller) (username : String) (req : UpdateAccountRequest)
      (found : Result StoreError Binding) (db : Db)
      → (caller.role == role_superadmin) ≡ false
      → PromotesNone db.bindings (update_found server caller username req found db).1.bindings
  unfolding update_found is_hidden
  update_found-PromotesNone caller username req (err e) db lower = PromotesNone-same refl
  update_found-PromotesNone caller username req (ok b) db lower =
      elim (Bool-cases (b.role == role_superadmin)) [
        | inl top ↦ rw (top, lower, update_found) (PromotesNone-same refl)
        | inr plain ↦
            let (user, db') = get_user_by_username server.engine username db in
            rw (plain, update_found)
              (PromotesNone-before _ (get_user_by_username-Keeps server.engine username db)
                (update_user-PromotesNone caller username req b user db' lower plain))
      ]

  update_unless_refused-PromotesNone :
      (caller : Caller) (username : String) (req : UpdateAccountRequest) (refusal : Option ℕ)
      (db : Db)
      → (caller.role == role_superadmin) ≡ false
      → PromotesNone db.bindings
          (update_unless_refused server caller username req refusal db).1.bindings
  unfolding update_unless_refused
  update_unless_refused-PromotesNone caller username req (some status) db lower =
      PromotesNone-same refl
  update_unless_refused-PromotesNone caller username req none db lower =
      let ns = tenant_namespace server caller in
      let (found, db') = find_binding_by_subject server.engine ns subject_type_local username db in
      PromotesNone-before _
        (find_binding_by_subject-Keeps server.engine ns subject_type_local username db)
        (update_found-PromotesNone caller username req found db' lower)

  -- A change of an account by a caller who is no superadmin makes nobody a superadmin: whoever has
  -- such a binding afterwards had one before.
  pub is_super-handle_update_account :
      (caller : Caller) (username : String) (req : UpdateAccountRequest) (db : Db)
      (identity : String)
      → caller.role ≢ role_superadmin
      → is_super identity (handle_update_account server caller username (some req) db).1.bindings
        ≡ true
      → is_super identity db.bindings ≡ true
  unfolding handle_update_account
  is_super-handle_update_account caller username req db identity ordinary h =
      update_unless_refused-PromotesNone caller username req (update_refusal caller req) db
        (str_eq_of_ne ordinary) identity h
