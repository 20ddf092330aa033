-- ===== src/Orgdb/Bindings.antt =====
-- internal/orgdb/crud.go: the bindings of an identity to a role in a namespace.
pub mod Added
use hyve.Prelude.{
  ℕ, String, Bool, true, false, not, Option, none, some, List, [], ◌∷◌, ◌==◌, ◌&&◌, ◌||◌,
  if◌then◌else◌, any, keep, ltb, is_some, Result, ok, err,
}
use hyve.Orgdb.{
  Db, Binding, StoreError, M, ◌>>=◌, ◌>>◌, raise, failed, not_found, Engine, query, query_row, exec,
  subject_type_local,
}
use hyve.Orgdb.Tables.{is_equal, order_by, update}

-- rolePriority, which is roleRank of the API server as well.
unfoldable pub role_priority : String → ℕ
role_priority role =
    if role == "superadmin"
    then 4
    else if role == "admin"
    then 3
    else if role == "read-only"
    then 2
    else 1

abbrev same_option : Option String → Option String → Bool
same_option none none = true
same_option (some s) (some t) = s == t
same_option _ _ = false

-- The unique columns of internal/orgdb/migrations: the id; namespace, environment, subject type and identity together; and the
-- email within a namespace. COALESCE makes no environment that of the empty id.
abbrev environment_of : Binding → String
environment_of b = elim b.environment_id [ none ↦ "" | some id ↦ id ]

abbrev pub clashes : Binding → Binding → Bool
clashes b other =
    other.id == b.id
    || ((other.namespace == b.namespace
          && (environment_of other == environment_of b
              && (other.subject_type == b.subject_type && other.identity == b.identity)))
        || (other.namespace == b.namespace
            && elim b.email [ none ↦ false | some email ↦ is_equal other.email email ]))

-- `(b.OrganizationID == nil) != (b.EnvironmentID == nil)`
abbrev pub is_half_scoped : Binding → Bool
is_half_scoped b =
    is_some b.organization_id && not (is_some b.environment_id)
    || (not (is_some b.organization_id) && is_some b.environment_id)

-- SubjectTypeLocal stands for no subject type.
abbrev pub with_subject_type : Binding → Binding
with_subject_type b =
    if b.subject_type == "" then record b { subject_type = subject_type_local } else b

-- Whether a binding refers to an organization or an environment that is not there.
abbrev pub is_dangling : Binding → Db → Bool
is_dangling b db =
    elim b.organization_id [ none ↦ false | some id ↦ not (any (λ o. o.id == id) db.organizations) ]
    || elim b.environment_id [
      | none ↦ false
      | some id ↦ not (any (λ e. e.id == id) db.environments)
    ]

-- INSERT INTO bindings
abbrev pub add_binding : Binding → Db → Option Db
add_binding b db =
    if any (clashes b) db.bindings || is_dangling b db
    then none
    else some (record db { bindings = b ∷ db.bindings })

-- The columns that UpdateBinding sets.
abbrev pub with_grant : Binding → Binding → Binding
with_grant b row = record row {
  namespace = b.namespace;
  organization_id = b.organization_id;
  environment_id = b.environment_id;
  role = b.role;
  email = b.email;
}

abbrev pub is_taken : Binding → List Binding → Bool
is_taken b rows =
    any
      (λ row.
        row.id == b.id
        && any (λ other. not (other.id == b.id) && clashes (with_grant b row) other) rows)
      rows

abbrev pub replace_binding : Binding → Db → Option Db
replace_binding b db =
    if is_taken b db.bindings || is_dangling b db
    then none
    else some (record db { bindings = update (λ row. row.id == b.id) (with_grant b) db.bindings })

-- The loop that keeps the binding of the highest role, the first of equals.
unfoldable pub best_of : (String → ℕ) → List Binding → Option Binding → Option Binding
best_of rank [] best = best
best_of rank (b ∷ bindings) none = best_of rank bindings (some b)
best_of rank (b ∷ bindings) (some best) =
    best_of rank bindings (some (if ltb (rank best.role) (rank b.role) then b else best))

-- The best binding of the bindings of a subject type, or ErrNotFound.
unfoldable pub best_or_missing : String → List Binding → Result StoreError Binding
unfolding best_of role_priority
best_or_missing subject_type bindings =
    elim (best_of role_priority (keep (λ b. b.subject_type == subject_type) bindings) none) [
      | none ↦ err not_found
      | some best ↦ ok best
    ]

module _ (engine : Engine) where
  unfoldable pub get_binding_by_id : String → M Binding
  unfolding query_row
  get_binding_by_id id = query_row engine (λ db. keep (λ b. b.id == id) db.bindings)

  -- The statements of CreateBinding.
  unfoldable pub store_binding : Binding → M Binding
  unfolding exec get_binding_by_id
  store_binding b = exec engine (add_binding b) >> get_binding_by_id b.id

  -- The part of CreateBinding after the id is set.
  unfoldable pub insert_binding : Binding → M Binding
  unfolding store_binding
  insert_binding b =
      if b.namespace == ""
      then raise failed
      else if is_half_scoped b
      then raise failed
      else store_binding (with_subject_type b)

  unfoldable pub create_binding : Binding → M Binding
  unfolding insert_binding
  create_binding b db =
      if b.id == ""
      then insert_binding (record b { id = engine.new_id db.sent }) db
      else insert_binding b db

  unfoldable pub find_bindings_by_namespace : String → String → M (List Binding)
  unfolding query
  find_bindings_by_namespace namespace identity =
      query engine
        (λ db. keep (λ b. b.namespace == namespace && b.identity == identity) db.bindings)

  unfoldable pub find_binding_by_subject : String → String → String → M Binding
  unfolding find_bindings_by_namespace best_or_missing
  find_binding_by_subject namespace subject_type identity =
      find_bindings_by_namespace namespace identity >>= λ bindings db.
      (best_or_missing subject_type bindings, db)

  unfoldable pub list_bindings_for_scope : String → M (List Binding)
  unfolding query order_by
  list_bindings_for_scope namespace =
      query engine
        (λ db. order_by (λ b. b.identity) (keep (λ b. b.namespace == namespace) db.bindings))

  unfoldable pub set_binding_password : String → String → M (Unit {0})
  unfolding exec
  set_binding_password id hash = exec engine (λ db. some (record db {
    bindings = update (λ b. b.id == id) (λ b. record b { password_hash = some hash }) db.bindings;
  }))

  -- UpdateBinding: refused if a changed row clashes with another one.
  unfoldable pub update_binding : Binding → M Binding
  unfolding exec get_binding_by_id
  update_binding b =
      if is_half_scoped b
      then raise failed
      else exec engine (replace_binding b) >> get_binding_by_id b.id

  -- DeleteBinding, less the tokens of a table that nothing fills any more.
  unfoldable pub delete_binding : String → M (Unit {0})
  unfolding exec
  delete_binding id =
      exec engine (λ db. some db)
      >> exec engine
          (λ db. some (record db { bindings = keep (λ b. not (b.id == id)) db.bindings }))
