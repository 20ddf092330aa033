-- ===== src/Orgdb/Organizations.antt =====
-- internal/orgdb/crud.go: organizations, their environments, and the transactions over both.
pub mod Transactions
pub mod Deleted
use Prim.Native.String as Text
use hyve.Prelude.{
  String, Bool, true, false, not, Option, none, some, List, [], ◌∷◌, ◌==◌, ◌&&◌, ◌||◌,
  if◌then◌else◌, any, keep, Result, ok, err,
}
use hyve.Orgdb.{
  Db, Binding, Organization, Environment, M, ◌>>=◌, ◌>>◌, raise, StoreError, failed, not_found,
  Engine, query, query_row, exec, subject_type_local, default_environment_name, count_statement,
}
use hyve.Orgdb.Tables.{is_equal, order_by, update}
use hyve.Orgdb.Bindings.{add_binding}

-- The tables of one state with the count of another.
abbrev pub with_sent : Db → Db → Db
with_sent db counted = record db { sent = counted.sent }

abbrev pub org_clashes : Organization → Organization → Bool
org_clashes org other =
    other.id == org.id || (other.name == org.name || other.namespace == org.namespace)

abbrev pub env_clashes : Environment → Environment → Bool
env_clashes env other =
    other.id == env.id || (other.organization_id == env.organization_id && other.name == env.name)

-- The inserts, with the unique columns and the keys of other tables that they check.
abbrev pub add_organization : Organization → Db → Option Db
add_organization org db =
    if any (org_clashes org) db.organizations || elim org.reconciling_cluster_id [
      | none ↦ false
      | some id ↦ not (any (λ c. c.id == id) db.reconciling_clusters)
    ]
    then none
    else some (record db { organizations = org ∷ db.organizations })

abbrev pub add_environment : Environment → Db → Option Db
add_environment env db =
    if any (env_clashes env) db.environments
      || not (any (λ o. o.id == env.organization_id) db.organizations)
    then none
    else some (record db { environments = env ∷ db.environments })

-- DELETE FROM bindings WHERE namespace
abbrev pub drop_bindings : String → Db → Option Db
drop_bindings namespace db =
    some (record db { bindings = keep (λ b. not (b.namespace == namespace)) db.bindings })

-- UPDATE organizations SET reconciling_cluster_id = NULL
abbrev pub detach_clusters : String → Db → Option Db
detach_clusters id db = some (record db {
  organizations =
      update (λ o. o.id == id) (λ o. record o { reconciling_cluster_id = none }) db.organizations;
})

-- DELETE FROM environments: refused while a binding refers to one of the rows.
abbrev pub drop_environments : (Environment → Bool) → Db → Option Db
drop_environments doomed db =
    if any (λ e. doomed e && any (λ b. is_equal b.environment_id e.id) db.bindings) db.environments
    then none
    else some (record db { environments = keep (λ e. not (doomed e)) db.environments })

-- DELETE FROM organizations: refused while another table refers to the row.
abbrev pub drop_organization : String → Db → Option Db
drop_organization id db =
    if any (λ b. is_equal b.organization_id id) db.bindings
      || (any (λ e. e.organization_id == id) db.environments
          || any (λ c. is_equal c.organization_id id) db.reconciling_clusters)
    then none
    else some (record db { organizations = keep (λ o. not (o.id == id)) db.organizations })

-- DELETE FROM reconciling_clusters: refused while an organization refers to one of the rows.
abbrev pub drop_clusters : String → Db → Option Db
drop_clusters id db =
    if any
      (λ c.
        is_equal c.organization_id id
        && any (λ o. is_equal o.reconciling_cluster_id c.id) db.organizations)
      db.reconciling_clusters
    then none
    else some (record db {
      reconciling_clusters =
          keep (λ c. not (is_equal c.organization_id id)) db.reconciling_clusters;
    })

module _ (engine : Engine) where
  -- BeginTx, the statements, and Commit, or Rollback where one of these fails.
  unfoldable pub commit : {A : Type 0} → Db → Result StoreError A × Db → Result StoreError A × Db
  commit before (err e, db) = (err e, with_sent before db)
  commit before (ok a, db) =
      if engine.is_up db.sent
      then (ok a, count_statement db)
      else (err failed, with_sent before (count_statement db))

  unfoldable pub transaction : {A : Type 0} → M A → M A
  unfolding commit
  transaction m db =
      if engine.is_up db.sent
      then commit db (m (count_statement db))
      else (err failed, count_statement db)

  unfoldable pub get_organization : String → M Organization
  unfolding query_row
  get_organization id = query_row engine (λ db. keep (λ o. o.id == id) db.organizations)

  unfoldable pub get_organization_by_name : String → M Organization
  unfolding query_row
  get_organization_by_name name =
      query_row engine (λ db. keep (λ o. o.name == name) db.organizations)

  unfoldable pub list_organizations : M (List Organization)
  unfolding query order_by
  list_organizations = query engine (λ db. order_by (λ o. o.name) db.organizations)

  unfoldable pub mark_organization_pending_deletion : String → M (Unit {0})
  unfolding exec
  mark_organization_pending_deletion id = exec engine (λ db. some (record db {
    organizations =
        update (λ o. o.id == id) (λ o. record o { pending_deletion = true }) db.organizations;
  }))

  unfoldable pub list_organizations_pending_deletion : M (List Organization)
  unfolding query order_by
  list_organizations_pending_deletion =
      query engine (λ db. order_by (λ o. o.name) (keep (λ o. o.pending_deletion) db.organizations))

  unfoldable pub list_environments : String → M (List Environment)
  unfolding query order_by
  list_environments organization_id = query engine (λ db.
      order_by (λ e. e.name) (keep (λ e. e.organization_id == organization_id) db.environments))

  unfoldable pub get_environment_by_name : String → String → M Environment
  unfolding query_row
  get_environment_by_name organization_id name =
      query_row engine
        (λ db. keep (λ e. e.organization_id == organization_id && e.name == name) db.environments)

  insert_environment : Environment → M Environment
  unfolding exec get_environment_by_name
  insert_environment env =
      exec engine (add_environment env) >> get_environment_by_name env.organization_id env.name

  unfoldable pub create_environment : Environment → M Environment
  unfolding insert_environment
  create_environment env db =
      if env.id == ""
      then insert_environment (record env { id = engine.new_id db.sent }) db
      else insert_environment env db

  -- The statements of DeleteEnvironment; no row deleted is ErrNotFound.
  unfoldable pub delete_environment_rows : String → M (Unit {0})
  unfolding exec
  delete_environment_rows id =
      exec engine (λ db. some (record db {
        bindings =
            update (λ b. is_equal b.environment_id id) (λ b. record b { environment_id = none })
              db.bindings;
      }))
      >> λ db.
          let found = any (λ e. e.id == id) db.environments in
          (exec engine (drop_environments (λ e. e.id == id)) >>= λ _.
          if found then (λ db'. (ok tt, db')) else raise not_found)
            db

  unfoldable pub delete_environment : String → M (Unit {0})
  unfolding transaction delete_environment_rows
  delete_environment id = transaction (delete_environment_rows id)

  -- The statements of DeleteOrganization.
  unfoldable pub delete_organization_rows : Organization → M (Unit {0})
  unfolding exec
  delete_organization_rows org =
      exec engine (drop_bindings org.namespace)
      >> (exec engine (drop_environments (λ e. e.organization_id == org.id))
          >> (exec engine (detach_clusters org.id)
              >> (exec engine (drop_clusters org.id) >> exec engine (drop_organization org.id))))

  unfoldable pub delete_organization : String → M (Unit {0})
  unfolding get_organization transaction delete_organization_rows
  delete_organization id = get_organization id >>= λ org. transaction (delete_organization_rows org)

  -- The binding of the first admin, if there is to be one.
  insert_admin : Organization → String → String → String → M (Unit {0})
  unfolding exec
  insert_admin org env_id admin_identity admin_role db =
      if admin_identity == ""
      then (ok tt, db)
      else exec engine
          (add_binding (record {
            id = engine.new_id db.sent;
            namespace = org.namespace;
            organization_id = some org.id;
            environment_id = some env_id;
            subject_type = subject_type_local;
            identity = admin_identity;
            role = admin_role;
            password_hash = none;
            email = none;
          }))
          db

  insert_default_environment : Organization → String → M (Unit {0})
  unfolding exec
  insert_default_environment org env_id = exec engine (
      add_environment (record {
        id = env_id;
        organization_id = org.id;
        name = default_environment_name;
        metadata = "{}";
      }))

  -- The statements of CreateOrganizationWithDefaults, after the organization has an id.
  unfoldable pub insert_defaults : Organization → String → String → M (Unit {0})
  unfolding exec insert_default_environment insert_admin
  insert_defaults org admin_identity admin_role = exec engine (add_organization org) >> λ db.
      let env_id = engine.new_id db.sent in
      (insert_default_environment org env_id >> insert_admin org env_id admin_identity admin_role)
        db

  insert_organization_with_defaults :
      Organization → String → String → M (Organization × Environment)
  unfolding transaction insert_defaults get_organization get_environment_by_name
  insert_organization_with_defaults org admin_identity admin_role =
      transaction (insert_defaults org admin_identity admin_role)
      >> get_organization org.id
      >>= λ created. get_environment_by_name org.id default_environment_name >>= λ env db.
          (ok (created, env), db)

  unfoldable pub create_organization_with_defaults :
      Organization → String → String → M (Organization × Environment)
  unfolding insert_organization_with_defaults
  create_organization_with_defaults org admin_identity admin_role db =
      if org.id == ""
      then insert_organization_with_defaults (record org { id = engine.new_id db.sent })
          admin_identity admin_role db
      else insert_organization_with_defaults org admin_identity admin_role db
