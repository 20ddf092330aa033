-- ===== src/Controller/Provider.antt =====
-- internal/controller/state_provider.go: CRDStateProvider, the state of the engine as
-- ClusterDefinition and HyveConfig custom resources.
pub mod Saved
use hyve.Prelude.{
  ℕ, String, Bool, true, false, not, ◌||◌, Option, none, some, List, [], ◌∷◌, map, if◌then◌else◌,
  Result, ok, err,
}
use hyve.Prelude.State.{◌>>=◌, pure, call, ask}
use hyve.Types
use hyve.Types.Refs.{is_empty}
use hyve.V1alpha1.{ClusterDefinition}
use hyve.Crdconv.{
  to_types_cluster_definition, from_types_applied_resources, from_types_applied_agent,
}
use hyve.State.{RepoConfig, local}
use hyve.Controller.Api.{ApiError, not_found, conflict, rejected, Log, M, status_updated, deleted}

-- HyveConfigSpec, as far as it is read here.
pub record HyveConfig : Type 0 where
  pub default_workflow_image : String
  pub strict_resource_delete : Bool

-- The client, for the objects of one namespace.
pub record Cluster : Type 0 where
  pub get : String → Log → Result ApiError ClusterDefinition
  pub list : Log → Result ApiError (List ClusterDefinition)
  pub update_status : ClusterDefinition → Log → Option ApiError
  pub delete : String → Log → Option ApiError
  pub get_config : Log → Result ApiError HyveConfig

abbrev succeeded : Option ApiError → Bool
succeeded none = true
succeeded (some e) = false

-- A missing object reads as the default.
unfoldable repo_config : Result ApiError HyveConfig → Result ApiError RepoConfig
repo_config (err not_found) =
    ok (record {
      mode = local;
      strict_delete = false;
      strict_resource_delete = false;
      env_file = "";
    })
repo_config (err conflict) = err conflict
repo_config (err (rejected message)) = err (rejected message)
repo_config (ok cfg) = ok (record {
  mode = local;
  strict_delete = false;
  strict_resource_delete = cfg.strict_resource_delete;
  env_file = "";
})

workflow_image : Result ApiError HyveConfig → Result ApiError String
workflow_image (err not_found) = ok ""
workflow_image (err conflict) = err conflict
workflow_image (err (rejected message)) = err (rejected message)
workflow_image (ok cfg) = ok cfg.default_workflow_image

abbrev converted : Result ApiError ClusterDefinition → Result ApiError Types.ClusterDefinition
converted (ok cr) = ok (to_types_cluster_definition cr)
converted (err e) = err e

abbrev converted_all :
    Result ApiError (List ClusterDefinition) → Result ApiError (List Types.ClusterDefinition)
converted_all (ok crs) = ok (map to_types_cluster_definition crs)
converted_all (err e) = err e

-- The object with the reconciler's part of the definition in its status.
unfoldable pub with_status_of : Types.ClusterDefinition → ClusterDefinition → ClusterDefinition
with_status_of def cr = record cr {
  status = record cr.status {
    driver_outputs = def.spec.driver_outputs;
    applied_resources = from_types_applied_resources def.spec.applied_resources;
    applied_agent = from_types_applied_agent def.spec.applied_agent;
  };
}

-- A missing object is deleted already.
unless_missing : Option ApiError → Option ApiError
unless_missing none = none
unless_missing (some not_found) = none
unless_missing (some conflict) = some conflict
unless_missing (some (rejected message)) = some (rejected message)

is_populated : Result ApiError ClusterDefinition → Bool
is_populated (err e) = false
is_populated (ok cr) =
    not (is_empty cr.status.driver_outputs) || not (is_empty cr.status.applied_resources)

module _ (cluster : Cluster) where
  load_repo_config : M (Result ApiError RepoConfig)
  unfolding repo_config
  load_repo_config = ask (λ w. repo_config (cluster.get_config w))

  default_workflow_image : M (Result ApiError String)
  unfolding workflow_image
  default_workflow_image = ask (λ w. workflow_image (cluster.get_config w))

  load_cluster_definitions : M (Result ApiError (List Types.ClusterDefinition))
  load_cluster_definitions = ask (λ w. converted_all (cluster.list w))

  unfoldable pub load_cluster_definition : String → M (Result ApiError Types.ClusterDefinition)
  load_cluster_definition name = ask (λ w. converted (cluster.get name w))

  -- With the object as it is fetched.
  unfoldable pub save_fetched :
      Types.ClusterDefinition → Result ApiError ClusterDefinition → M (Option ApiError)
  save_fetched def (err e) = pure (some e)
  save_fetched def (ok cr) =
      call (cluster.update_status (with_status_of def cr))
        (λ failure. status_updated (with_status_of def cr) (succeeded failure))

  unfoldable pub save_cluster_definition : Types.ClusterDefinition → M (Option ApiError)
  save_cluster_definition def =
      ask (cluster.get def.metadata.name) >>= λ fetched. save_fetched def fetched

  unfoldable remove_cluster_file : String → M (Option ApiError)
  unfolding unless_missing
  remove_cluster_file name =
      call (cluster.delete name) (λ failure. deleted name (succeeded failure)) >>= λ failure.
      pure (unless_missing failure)

  unfoldable pub has_state_sidecar : String → M Bool
  unfolding is_populated
  has_state_sidecar name = ask (λ w. is_populated (cluster.get name w))
