-- ===== src/Api/Accounts/Changes/Sole.antt =====
-- Whose password an admin may set in internal/api/accounts.go.
use mathlib.Core.Path.{subst}
use hyve.Prelude.{
  String, ℕ, true, false, not, Option, none, some, List, [], ◌∷◌, ◌==◌, ◌&&◌, ◌≡◌, ◌≢◌, ◌∙◌, ◌⊎◌,
  inl, inr, refl, sym, ap, arith, any, keep, any-keep, Result, ok, err, Bool-cases, Option-cases,
  str_eq_of_ne, eq_iff,
}
use hyve.Orgdb.{
  Db, Binding, M, ◌>>=◌ as ◌>>>=◌, StoreError, Engine, query, count_statement, subject_type_local,
}
use hyve.Orgdb.Tables.{order_by, any-order_by}
use hyve.Orgdb.Organizations.Transactions.{Result-cases}
use hyve.Orgdb.Users.{list_bindings_for_identity}
use hyve.Orgdb.Bindings.{
  best_of, role_priority, find_binding_by_subject, find_bindings_by_namespace, best_or_missing,
}
use hyve.Api.Server.{Server, role_superadmin}
use hyve.Api.Server.Granted.{best_of_start, bindings_of}
use hyve.Api.Accounts.{
  Caller, is_hidden, tenant_namespace, sole_status, member_elsewhere, require_sole_organization,
}
use hyve.Api.Accounts.Changes.{
  UpdateAccountPasswordRequest, set_unless_refused, set_found, password_refusal, password_namespace,
  set_unless_invalid, handle_update_account_password,
}

-- A pure step after a read leaves what the read leaves.
read_then :
    {A B : Type 0} (m : M A) (g : A → Result StoreError B) (db : Db)
    → ((m >>>= λ a db'. (g a, db')) db).1 ≡ (m db).1
read_then m g db = elim (Result-cases (m db).0) [
  | inl (a, e) ↦ rw (e, ◌>>>=◌) refl
  | inr (x, e) ↦ rw (e, ◌>>>=◌) refl
]

never_outside :
    (ns identity subject_type : String) (bs : List Binding)
    → any
        (λ b.
          (b.namespace == ns && b.identity == identity)
          && (b.subject_type == subject_type && not (b.namespace == ns)))
        bs
      ≡ false
never_outside ns identity subject_type [] = refl
never_outside ns identity subject_type (b ∷ bs) =
    ground (arith, never_outside ns identity subject_type bs)

-- The binding that is found stands in the namespace.
best_or_missing-namespace :
    (ns identity subject_type : String) (bs : List Binding) (b : Binding)
    → best_or_missing subject_type (keep (λ b. b.namespace == ns && b.identity == identity) bs)
      ≡ ok b
    → (b.namespace == ns) ≡ true
unfolding best_or_missing
best_or_missing-namespace ns identity subject_type bs b h =
    let inside = λ (b : Binding). b.namespace == ns && b.identity == identity in
    let typed = λ (b : Binding). b.subject_type == subject_type in
    let outside = λ (b : Binding). not (b.namespace == ns) in
    elim (Option-cases (best_of role_priority (keep typed (keep inside bs)) none)) [
      | inl e ↦ let no = rw (e, best_or_missing) at h in cc
      | inr (best, e) ↦
          let is_b : best ≡ b = let found = rw (e, best_or_missing) at h in cc in
          elim (Bool-cases (b.namespace == ns)) [
            | inl own ↦ own
            | inr away ↦
                let some_outside =
                  best_of_start role_priority outside (keep typed (keep inside bs)) b (rw is_b at e)
                    (rw away refl) in
                let none_outside =
                  any-keep outside typed (keep inside bs)
                  ∙ any-keep (λ (b : Binding). typed b && outside b) inside bs
                  ∙ never_outside ns identity subject_type bs in
                let clash : true ≡ false = sym some_outside ∙ none_outside in cc
          ]
    ]

module _ (engine : Engine) where
  find_binding_counted :
      (ns subject_type identity : String) (db : Db)
      → (find_binding_by_subject engine ns subject_type identity db).1 ≡ count_statement db
  unfolding find_binding_by_subject find_bindings_by_namespace query
  find_binding_counted ns subject_type identity db =
      let read : (find_bindings_by_namespace engine ns identity db).1 ≡ count_statement db =
        ground arith in
      read_then (find_bindings_by_namespace engine ns identity) (best_or_missing subject_type) db
      ∙ read

  find_binding-namespace :
      (ns subject_type identity : String) (db : Db) (b : Binding)
      → (find_binding_by_subject engine ns subject_type identity db).0 ≡ ok b
      → (b.namespace == ns) ≡ true
  unfolding find_binding_by_subject find_bindings_by_namespace query
  find_binding-namespace ns subject_type identity db b h =
      elim (Bool-cases (engine.is_up db.sent)) [
        | inl up ↦
            best_or_missing-namespace ns identity subject_type db.bindings b (rw (up, ◌>>>=◌) at h)
        | inr down ↦ let no = rw (down, ◌>>>=◌) at h in cc
      ]

module _ (server : Server) where
  require_sole_organization-none :
      (caller : Caller) (username ns : String) (db : Db)
      → (caller.role == role_superadmin) ≡ false
      → (require_sole_organization server caller username ns db).0 ≡ none
      → any (λ b. not (b.namespace == ns)) (bindings_of username db) ≡ false
  unfolding require_sole_organization member_elsewhere list_bindings_for_identity query sole_status
  require_sole_organization-none caller username ns db ordinary h =
      elim (Bool-cases (server.engine.is_up db.sent)) [
        | inl up ↦
            let bs = bindings_of username db in
            let outside = λ (b : Binding). not (b.namespace == ns) in
            sym (any-order_by outside (λ b. b.namespace) bs)
            ∙ elim (Bool-cases (any outside (order_by (λ b. b.namespace) bs))) [
              | inl e ↦ let no = rw (ordinary, up, e, require_sole_organization) at h in cc
              | inr e ↦ e
            ]
        | inr down ↦ let no = rw (ordinary, down, require_sole_organization) at h in cc
      ]

  -- What a change of a password by someone else may do to the users: nothing, unless the user
  -- belongs to no namespace but one.
  abbrev pub IsConfined : String → String → Db → Db → Type 0
  IsConfined username ns db db' =
      (db'.users ≡ db.users)
      ⊎ (any (λ b. not (b.namespace == ns)) (bindings_of username db) ≡ false)

  IsConfined-count_statement :
      (username ns : String) (db counted db' : Db)
      → counted ≡ count_statement db
      → IsConfined username ns counted db'
      → IsConfined username ns db db'
  IsConfined-count_statement username ns db counted db' e (inl k) = inl (k ∙ ap (λ d. d.users) e)
  IsConfined-count_statement username ns db counted db' e (inr k) =
      inr (ap (λ d. any (λ b. not (b.namespace == ns)) (bindings_of username d)) (sym e) ∙ k)

  require_sole_organization_users :
      (caller : Caller) (username ns : String) (db : Db)
      → (require_sole_organization server caller username ns db).1.users ≡ db.users
  unfolding require_sole_organization member_elsewhere list_bindings_for_identity query
  require_sole_organization_users caller username ns db = ground arith

  set_unless_refused-IsConfined :
      (caller : Caller) (username ns : String) (req : UpdateAccountPasswordRequest) (db db' : Db)
      (status : Option ℕ)
      → (caller.role == role_superadmin) ≡ false
      → require_sole_organization server caller username ns db ≡ (status, db')
      → IsConfined username ns db (set_unless_refused server false username req status db').1
  unfolding set_unless_refused
  set_unless_refused-IsConfined caller username ns req db db' (some status) ordinary h =
      inl (ap (λ p. p.1.users) (sym h) ∙ require_sole_organization_users caller username ns db)
  set_unless_refused-IsConfined caller username ns req db db' none ordinary h =
      inr (require_sole_organization-none caller username ns db ordinary (ap (λ p. p.0) h))

  set_found-IsConfined :
      (caller : Caller) (username : String) (req : UpdateAccountPasswordRequest)
      (found : Result StoreError Binding) (db : Db) (ns : String)
      → (caller.username == username) ≡ false
      → (caller.role == role_superadmin) ≡ false
      → ((b : Binding) → found ≡ ok b → b.namespace ≡ ns)
      → IsConfined username ns db (set_found server caller username req found db).1
  unfolding set_found
  set_found-IsConfined caller username req (err e) db ns other ordinary own = inl refl
  set_found-IsConfined caller username req (ok b) db ns other ordinary own =
      elim (Bool-cases (is_hidden caller b)) [
        | inl e ↦ inl (rw (other, e, set_found) refl)
        | inr e ↦
            let (status, db') = require_sole_organization server caller username b.namespace db in
            subst (λ n. IsConfined username n db (set_found server caller username req (ok b) db).1)
              (own b refl)
              (rw (other, e, set_found)
                (set_unless_refused-IsConfined caller username b.namespace req db db' status
                  ordinary refl))
      ]

  allowed-IsConfined :
      (caller : Caller) (username : String) (req : UpdateAccountPasswordRequest) (db : Db)
      (refusal : Option ℕ)
      → (caller.username == username) ≡ false
      → (caller.role == role_superadmin) ≡ false
      → IsConfined username
          (tenant_namespace server caller)
          db
          (set_unless_invalid server caller username req refusal db).1
  unfolding set_unless_invalid password_namespace
  allowed-IsConfined caller username req db (some status) other ordinary = inl refl
  allowed-IsConfined caller username req db none other ordinary =
      let ns = tenant_namespace server caller in
      let (found, db') = find_binding_by_subject server.engine ns subject_type_local username db in
      let read : db' ≡ count_statement db =
        find_binding_counted server.engine ns subject_type_local username db in
      let own : (b : Binding) → found ≡ ok b → b.namespace ≡ ns = λ b h.
        let inside = find_binding-namespace server.engine ns subject_type_local username db b h in
        ground (arith, eq_iff b.namespace ns) in
      rw (other, set_unless_invalid)
        (IsConfined-count_statement username ns db db'
          (set_found server caller username req found db').1 read
          (set_found-IsConfined caller username req found db' ns other ordinary own))

  -- A caller who is no superadmin and sets the password of someone else changes the users only if
  -- that user has no binding outside the caller's own namespace.
  pub handle_update_account_password-IsConfined :
      (caller : Caller) (username : String) (req : UpdateAccountPasswordRequest) (db : Db)
      → caller.username ≢ username
      → caller.role ≢ role_superadmin
      → IsConfined username
          (tenant_namespace server caller)
          db
          (handle_update_account_password server caller username (some req) db).1
  unfolding handle_update_account_password
  handle_update_account_password-IsConfined caller username req db other ordinary =
      allowed-IsConfined caller username req db (password_refusal caller username req)
        (str_eq_of_ne other) (str_eq_of_ne ordinary)
