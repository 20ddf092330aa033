-- ===== src/Api/Naming.antt =====
-- internal/api/environmentnaming.go: the name of a cluster in an environment. `exists` tells whether
-- the namespace has a ClusterDefinition of a name, and a missing store is not modelled.
pub mod Addressed
use hyve.Prelude.{
  String, Bool, true, false, not, Option, none, some, List, [], ◌∷◌, ◌==◌, if◌then◌else◌, any,
  Result, ok, err,
}
use hyve.Prelude.Text.{◌<>◌, strip_prefix}
use hyve.Prelude.State.{State, ◌>>=◌, pure}
use hyve.Orgdb.{
  Db, Organization, Environment, StoreError, not_found, failed, Engine, default_environment_name,
}
use hyve.Orgdb.Organizations.{get_organization_by_name, get_environment_by_name, list_environments}
use hyve.Api.Server.{Response, reply, refuse}

unfoldable pub join_environment_name : String → String → String
join_environment_name environment short_name = environment <> ("-" <> short_name)

unfoldable pub split_environment_prefix : String → String → String
unfolding strip_prefix
split_environment_prefix real_name environment =
    elim (strip_prefix (environment <> "-") real_name) [ none ↦ real_name | some rest ↦ rest ]

-- The three results of resolveResourceEnvironment: `ok` is false for the first and the last.
pub data Resolved : Type 0 where
  no_organization : Resolved
  resolved : Environment → Resolved
  unresolved : Resolved
  unavailable : Resolved

pub record ResourceEnvironmentResult : Type 0 where
  pub real_name : String
  pub label : String
  pub has_environment : Bool

-- The switch on the number of environments.
unfoldable pub only_environment : List Environment → Resolved
only_environment [] = unresolved
only_environment (env ∷ []) = resolved env
only_environment (env ∷ other ∷ envs) = unresolved

unfoldable pub label_of : List Environment → Option String
label_of [] = none
label_of (env ∷ envs) =
    let later = label_of envs in
    if env.name == default_environment_name then some env.name else later

-- The label of the environments of an organization, "" if it stays open.
unfoldable pub effective_of : List Environment → String
unfolding label_of
effective_of (env ∷ []) = env.name
effective_of envs = elim (label_of envs) [ none ↦ "" | some name ↦ name ]

unfoldable pub name_in : String → Resolved → Response ResourceEnvironmentResult
unfolding join_environment_name
name_in short_name no_organization =
    reply (record { real_name = short_name; label = ""; has_environment = false })
name_in short_name (resolved env) = reply (record {
  real_name = join_environment_name env.name short_name;
  label = env.name;
  has_environment = true;
})
name_in short_name unresolved = refuse 400
name_in short_name unavailable = refuse 500

module _ (engine : Engine) where
  unfoldable pub resolve_in : Organization → String → State Db Resolved
  unfolding get_environment_by_name list_environments only_environment
  resolve_in org requested =
      let named = get_environment_by_name engine org.id requested >>= λ found.
      pure (elim found [ ok env ↦ resolved env | err e ↦ unresolved ]) in
      let only = list_environments engine org.id >>= λ listed.
      pure (elim listed [ ok envs ↦ only_environment envs | err e ↦ unresolved ]) in
      if not (requested == "") then named else only

  unfoldable pub conclude_resolve : String → Result StoreError Organization → State Db Resolved
  unfolding resolve_in
  conclude_resolve requested (ok org) = resolve_in org requested
  conclude_resolve requested (err not_found) = pure no_organization
  conclude_resolve requested (err failed) = pure unavailable

  unfoldable pub resolve_resource_environment : String → String → State Db Resolved
  unfolding get_organization_by_name conclude_resolve
  resolve_resource_environment namespace requested =
      get_organization_by_name engine namespace >>= conclude_resolve requested

  unfoldable pub resolve_create_name :
      String → String → String → State Db (Response ResourceEnvironmentResult)
  unfolding resolve_resource_environment name_in
  resolve_create_name namespace requested short_name =
      resolve_resource_environment namespace requested >>= λ env. pure (name_in short_name env)

  -- The part of effectiveEnvironmentLabel after the organization is looked up.
  unfoldable pub conclude_label : String → Result StoreError Organization → State Db String
  unfolding list_environments effective_of
  conclude_label label (err e) = pure label
  conclude_label label (ok org) = list_environments engine org.id >>= λ listed.
      pure (elim listed [ err e ↦ label | ok envs ↦ effective_of envs ])

  unfoldable pub effective_environment_label : String → String → State Db String
  unfolding get_organization_by_name conclude_label
  effective_environment_label namespace label =
      let read = get_organization_by_name engine namespace >>= conclude_label label in
      if not (label == "") then pure label else read

  -- The part of resolveAddressedName for an organization that was found.
  unfoldable pub address_in :
      (String → String → Bool) → String → String → String → Organization → State Db String
  unfolding get_environment_by_name effective_environment_label join_environment_name
  address_in exists namespace requested name org =
      let named = get_environment_by_name engine org.id requested >>= λ found.
      pure (elim found [ ok env ↦ join_environment_name requested name | err e ↦ name ]) in
      let labelled = effective_environment_label namespace "" >>= λ env.
      pure (if env == "" then name else join_environment_name env name) in
      if not (requested == "") then named else if exists namespace name then pure name else labelled

  unfoldable pub conclude_address :
      (String → String → Bool)
      → String
      → String
      → String
      → Result StoreError Organization
      → State Db String
  unfolding address_in
  conclude_address exists namespace requested name (err e) = pure name
  conclude_address exists namespace requested name (ok org) =
      address_in exists namespace requested name org

  unfoldable pub resolve_addressed_name :
      (String → String → Bool) → String → String → String → State Db String
  unfolding get_organization_by_name conclude_address
  resolve_addressed_name exists namespace requested name =
      get_organization_by_name engine namespace >>= conclude_address exists namespace requested name
