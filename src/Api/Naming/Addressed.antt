-- ===== src/Api/Naming/Addressed.antt =====
-- A cluster that is created under a name in internal/api/environmentnaming.go is addressed by it.
use hyve.Prelude.{
  ℕ, String, Bool, true, false, not, List, [], ◌∷◌, ◌==◌, ◌&&◌, ◌≡◌, ◌≢◌, ◌∙◌, refl, sym, ap, arith,
  keep, if◌then◌else◌, ok, err, Result, Bool-cases, inl, inr, str_eq_of_ne, eq_iff,
}
use hyve.Orgdb.{
  Db, Organization, Environment, StoreError, not_found, failed, Engine, query, query_row, first_row,
  count_statement,
}
use hyve.Orgdb.Tables.{order_by}
use hyve.Orgdb.Organizations.{get_organization_by_name, get_environment_by_name, list_environments}
use hyve.Api.Server.{Response, reply, refuse}
use hyve.Api.Naming.{
  join_environment_name, Resolved, no_organization, resolved, unresolved, unavailable,
  ResourceEnvironmentResult, only_environment, effective_of, resolve_in, conclude_resolve,
  resolve_resource_environment, name_in, resolve_create_name, conclude_label,
  effective_environment_label, address_in, conclude_address, resolve_addressed_name,
}

-- What is read of the tables.
abbrev org_named : String → Db → Result StoreError Organization
org_named name db = first_row (keep (λ o. o.name == name) db.organizations)

abbrev env_named : Organization → String → Db → Result StoreError Environment
env_named org name db =
    first_row (keep (λ e. e.organization_id == org.id && e.name == name) db.environments)

abbrev envs_of : Organization → Db → List Environment
envs_of org db = order_by (λ e. e.name) (keep (λ e. e.organization_id == org.id) db.environments)

-- The resolution without the statements.
pick_named : Result StoreError Environment → Resolved
pick_named (ok env) = resolved env
pick_named (err e) = unresolved

pick : String → Db → Result StoreError Organization → Resolved
pick requested db (ok org) =
    if not (requested == "")
    then pick_named (env_named org requested db)
    else only_environment (envs_of org db)
pick requested db (err not_found) = no_organization
pick requested db (err failed) = unavailable

named_address : String → String → Result StoreError Environment → String
named_address requested name (ok env) = join_environment_name requested name
named_address requested name (err e) = name

labelled_address : String → String → String
labelled_address label name = if label == "" then name else join_environment_name label name

address : String → String → Db → Organization → String
address requested name db org =
    if not (requested == "")
    then named_address requested name (env_named org requested db)
    else labelled_address (effective_of (envs_of org db)) name

module _ (engine : Engine) (up : (n : ℕ) → engine.is_up n ≡ true) where
  conclude_resolve-eq :
      (requested : String) (found : Result StoreError Organization) (db : Db)
      → (conclude_resolve engine requested found db).0 ≡ pick requested db found
  unfolding conclude_resolve resolve_in get_environment_by_name query_row list_environments query
      pick pick_named
  conclude_resolve-eq requested (ok org) db = ground (arith, up db.sent)
  conclude_resolve-eq requested (err not_found) db = refl
  conclude_resolve-eq requested (err failed) db = refl

  resolve_create_name-eq :
      (namespace requested short : String) (db : Db)
      → (resolve_create_name engine namespace requested short db).0
        ≡ name_in short (pick requested db (org_named namespace db))
  unfolding resolve_create_name resolve_resource_environment get_organization_by_name query_row pick
  resolve_create_name-eq namespace requested short db =
      rw (up db.sent, resolve_create_name)
        (ap (name_in short)
          (conclude_resolve-eq requested (org_named namespace db) (count_statement db)))

  conclude_label-eq :
      (org : Organization) (db : Db)
      → (conclude_label engine "" (ok org) db).0 ≡ effective_of (envs_of org db)
  unfolding conclude_label list_environments query
  conclude_label-eq org db = rw (up db.sent, conclude_label) refl

  label_at :
      (namespace : String) (org : Organization) (db : Db)
      → org_named namespace db ≡ ok org
      → (effective_environment_label engine namespace "" db).0 ≡ effective_of (envs_of org db)
  unfolding effective_environment_label get_organization_by_name query_row
  label_at namespace org db e = rw (up db.sent, e) (conclude_label-eq org (count_statement db))

  address_in-eq :
      (exists : String → String → Bool) (namespace requested name : String) (org : Organization)
      (db : Db)
      → org_named namespace db ≡ ok org
      → exists namespace name ≡ false
      → (address_in engine exists namespace requested name org db).0 ≡ address requested name db org
  unfolding address_in get_environment_by_name query_row address named_address labelled_address
  address_in-eq exists namespace requested name org db e f = elim (Bool-cases (requested == "")) [
    | inl r ↦ rw (r, f, label_at namespace org db e, address_in) refl
    | inr r ↦ rw (r, up db.sent, address_in) refl
  ]

  resolve_addressed_name-eq :
      (exists : String → String → Bool) (namespace requested name : String) (org : Organization)
      (db : Db)
      → org_named namespace db ≡ ok org
      → exists namespace name ≡ false
      → (resolve_addressed_name engine exists namespace requested name db).0
        ≡ address requested name db org
  unfolding resolve_addressed_name get_organization_by_name query_row conclude_address address
  resolve_addressed_name-eq exists namespace requested name org db e f =
      rw (up db.sent, e)
        (address_in-eq exists namespace requested name org (count_statement db) e f)

-- The row that is read by a name has the name.
env_named-name :
    (org : Organization) (name : String) (envs : List Environment) (env : Environment)
    → first_row (keep (λ e. e.organization_id == org.id && e.name == name) envs) ≡ ok env
    → env.name ≡ name
env_named-name org name [] env h = cc
env_named-name org name (e ∷ envs) env h =
    elim (Bool-cases (e.organization_id == org.id && e.name == name)) [
      | inl t ↦ let same = rw t at h in ground (arith, eq_iff e.name name)
      | inr f ↦ env_named-name org name envs env (rw f at h)
    ]

named_address_created :
    (requested short : String) (found : Result StoreError Environment)
    (r : ResourceEnvironmentResult)
    → ((env : Environment) → found ≡ ok env → env.name ≡ requested)
    → name_in short (pick_named found) ≡ reply r
    → named_address requested short found ≡ r.real_name
unfolding name_in pick_named named_address join_environment_name
named_address_created requested short (ok env) r same h = let e = same env refl in cc
named_address_created requested short (err e) r same h = cc

labelled_address_created :
    (short : String) (envs : List Environment) (r : ResourceEnvironmentResult)
    → r.label ≢ ""
    → name_in short (only_environment envs) ≡ reply r
    → labelled_address (effective_of envs) short ≡ r.real_name
unfolding name_in only_environment labelled_address effective_of
labelled_address_created short [] r named h = cc
labelled_address_created short (env ∷ []) r named h =
    let l : env.name ≡ r.label = cc in rw (str_eq_of_ne {s = env.name} {t = ""} (λ e. named cc)) cc
labelled_address_created short (env ∷ other ∷ envs) r named h = cc

label_in : Response ResourceEnvironmentResult → String
label_in (reply r) = r.label
label_in (refuse status) = ""

pick_created :
    (requested short : String) (db : Db) (found : Result StoreError Organization)
    (r : ResourceEnvironmentResult)
    → r.label ≢ ""
    → name_in short (pick requested db found) ≡ reply r
    → (org : Organization) × (found ≡ ok org) × (address requested short db org ≡ r.real_name)
unfolding pick name_in address label_in
pick_created requested short db (ok org) r named h = elim (Bool-cases (requested == "")) [
  | inl e ↦ (
    org,
    refl,
    rw (e, address) (labelled_address_created short (envs_of org db) r named (rw (e, pick) at h)),
  )
  | inr e ↦ (
    org,
    refl,
    rw (e, address)
        (named_address_created requested short (env_named org requested db) r
          (env_named-name org requested db.environments) (rw (e, pick) at h)),
  )
]
pick_created requested short db (err not_found) r named h = absurd (named (ap label_in (sym h)))
pick_created requested short db (err failed) r named h = cc

module _ (engine : Engine) (up : (n : ℕ) → engine.is_up n ≡ true) where
  -- If the database answers, a cluster that is created in an environment is addressed by the name it
  -- was given and the same `?env`, as long as the organizations and environments stay and no cluster
  -- has the short name itself.
  pub resolve_addressed_name-resolve_create_name :
      (exists : String → String → Bool) (namespace requested short : String) (db later : Db)
      {r : ResourceEnvironmentResult}
      → (resolve_create_name engine namespace requested short db).0 ≡ reply r
      → r.label ≢ ""
      → later.organizations ≡ db.organizations
      → later.environments ≡ db.environments
      → exists namespace short ≡ false
      → (resolve_addressed_name engine exists namespace requested short later).0 ≡ r.real_name
  unfolding address
  resolve_addressed_name-resolve_create_name exists namespace requested short db later h named orgs
        envs free =
      let (org, found, same) =
        pick_created requested short db (org_named namespace db) _ named
          (sym (resolve_create_name-eq engine up namespace requested short db) ∙ h) in
      let found_later : org_named namespace later ≡ ok org = rw orgs found in
      let same_later : address requested short later org ≡ address requested short db org =
        rw envs refl in
      resolve_addressed_name-eq engine up exists namespace requested short org later found_later
        free
      ∙ same_later
      ∙ same
