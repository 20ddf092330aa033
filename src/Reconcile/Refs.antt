-- ===== src/Reconcile/Refs.antt =====
-- internal/reconcile/clusterref.go, vars.go, host.go and the small functions of manager.go.
pub mod Resolution
use hyve.Prelude.{
  String, Bool, true, false, not, Option, none, some, List, [], ◌∷◌, ◌++◌, ◌&&◌, ◌==◌,
  if◌then◌else◌,
}
use hyve.Prelude.Text.{◌<>◌, strip_prefix, cut_first}
use hyve.Prelude.Maps.{Map, get_or_empty, insert}
use hyve.Types.{ClusterDefinition, WorkflowRef, access_method_primary}
use hyve.Reconcile.World.{Env}

pub find_named : String → List ClusterDefinition → Option ClusterDefinition
find_named name [] = none
find_named name (d ∷ ds) = if d.metadata.name == name then some d else find_named name ds

unfoldable pub resolve_cluster_ref :
    List ClusterDefinition → ClusterDefinition → String → Option ClusterDefinition
unfolding find_named
resolve_cluster_ref defs from ref = elim (find_named ref defs) [
  | some d ↦ some d
  | none ↦
      if from.metadata.environment == ""
      then none
      else find_named (from.metadata.environment <> ("-" <> ref)) defs
]

unfoldable pub is_host_cluster_without_driver : ClusterDefinition → Bool
is_host_cluster_without_driver def =
    def.spec.access_method == access_method_primary && def.spec.driver.source == ""

-- "KEY=VALUE" for each entry of a map.
unfoldable pub assignments : (String → String) → Map String → Env
assignments rename [] = []
assignments rename ((k, v) ∷ m) = (rename k <> ("=" <> v)) ∷ assignments rename m

-- `to_upper` is strings.ToUpper.
unfoldable pub build_module_env : (String → String) → ClusterDefinition → Map String → Env
unfolding assignments
build_module_env to_upper cluster extra =
    ("HYVE_CLUSTER_NAME=" <> cluster.metadata.name)
    ∷ ("HYVE_CLUSTER_REGION=" <> cluster.metadata.region)
    ∷ (assignments (λ k. "HYVE_PARAM_" <> to_upper k) cluster.spec.params
        ++ (assignments (λ k. k) cluster.spec.driver_outputs ++ assignments (λ k. k) extra))

unfoldable pub effective_status : String → Bool → String
effective_status status is_auth_only = if status == "" && is_auth_only then "ACTIVE" else status

-- `runner.image` of the cluster, else the reconciler's default.
unfoldable pub module_image : String → ClusterDefinition → String
module_image default_module_image cluster =
    if not (cluster.spec.runner.image == "")
    then cluster.spec.runner.image
    else default_module_image

abbrev pub params_hash_key : String
params_hash_key = "HYVE_LAST_PARAMS_HASH"

-- `ParamsHash`; `digest` is the hash of the JSON of the map with its keys sorted.
unfoldable pub params_hash : (Map String → String) → Map String → String
params_hash digest [] = ""
params_hash digest (p ∷ ps) = digest (p ∷ ps)

unfoldable pub params_changed : (Map String → String) → ClusterDefinition → Bool
unfolding params_hash get_or_empty
params_changed digest cluster =
    not (get_or_empty params_hash_key cluster.spec.driver_outputs == "")
    && not (
        get_or_empty params_hash_key cluster.spec.driver_outputs
        == params_hash digest cluster.spec.params)

-- `AllWorkflowHookRefs`
unfoldable pub all_workflow_hook_refs : ClusterDefinition → List WorkflowRef
all_workflow_hook_refs c =
    c.spec.workflows.pre_reconcile
    ++ (c.spec.workflows.before_create
        ++ (c.spec.workflows.on_create
            ++ (c.spec.workflows.after_create
                ++ (c.spec.workflows.on_delete ++ c.spec.workflows.after_delete))))

-- The value of the first "key=value", "" if there is none.
unfoldable pub env_value : Env → String → String
env_value [] key = ""
env_value (kv ∷ env) key =
    let rest = env_value env key in
    elim (strip_prefix (key <> "=") kv) [ none ↦ rest | some value ↦ value ]

-- The `injected` map of `runWorkflows`: "key=value" entries with a key.
unfoldable pub injected_vars : Env → Map String → Map String
injected_vars [] m = m
injected_vars (kv ∷ env) m = injected_vars env (elim (cut_first b'=' kv) [
  | none ↦ m
  | some (key, value) ↦ if key == "" then m else insert key value m
])

-- `ValidateEnvRequirements` of internal/module/requirements.go: the names that are not set.
unfoldable pub missing_env : List String → Env → List String
unfolding env_value
missing_env [] env = []
missing_env (name ∷ names) env =
    let rest = missing_env names env in if not (env_value env name == "") then rest else name ∷ rest
