-- ===== src/Reconcile/Dispatch.antt =====
-- `reconcileCluster` of internal/reconcile/manager.go and `reconcileHostCluster` of
-- internal/reconcile/host.go.
pub mod Table
use hyve.Prelude.{
  String, Bool, true, false, not, Option, none, some, [], ◌∷◌, ◌++◌, ◌==◌, ◌&&◌, ◌||◌,
  if◌then◌else◌, all, ok, err,
}
use hyve.Prelude.Text.{◌<>◌}
use hyve.Prelude.Maps.{Map, get_or_empty}
use hyve.Types.{ClusterDefinition}
use hyve.Lock.{LockFile}
use hyve.Reconcile.World.{
  status, Outcome, succeeded, failed, Executor, Env, History, M, ◌>>=◌, ◌>>◌, pure, call, ask, act,
  event, reported, minted,
}
use hyve.Reconcile.Host.{Host, ModuleManifest}
use hyve.Reconcile.Refs.{build_module_env, effective_status, module_image, missing_env}
use hyve.Reconcile.Mgmt.{validate_mgmt_cluster_requirement}
use hyve.Reconcile.Cluster.{
  Failure, module_not_resolved, tools_missing, mgmt_cluster_missing, env_missing, operation_failed,
  kubeconfig_not_minted, status_unrecognized, Done, execute, create_cluster, delete_cluster,
  remove_cluster_file, maintain_cluster, reconcile_contents,
}

-- The cases of the switch on the status.
pub data Action : Type 0 where
  tear_down remove_yaml bring_up maintain wait reject : Action

abbrev pub in_progress : String → Bool
in_progress phase = phase == "CREATING" || phase == "UPDATING" || phase == "DELETING"

-- `spec.delete` and the status.
unfoldable pub next_action : Bool → String → Action
next_action delete phase =
    if delete && (phase == "ACTIVE" || phase == "FAILED")
    then tear_down
    else if delete && phase == "NOT_FOUND"
    then remove_yaml
    else if not delete && (phase == "NOT_FOUND" || phase == "FAILED")
    then bring_up
    else if phase == "ACTIVE" && not delete
    then maintain
    else if in_progress phase
    then wait
    else reject

unfoldable pub is_auth_only : Option ModuleManifest → Bool
is_auth_only none = false
is_auth_only (some manifest) = manifest.module_type == "authOnly"

-- The requirements come from spec.mgmtCluster before the module's manifest.
pub required_mgmt : ClusterDefinition → ModuleManifest → String
required_mgmt cluster manifest =
    if cluster.spec.mgmt_cluster == "" then manifest.mgmt_cluster else cluster.spec.mgmt_cluster

unfoldable pub executor_for : String → String → ClusterDefinition → Executor
unfolding module_image
executor_for default_module_image module_dir cluster = record {
  module_dir = module_dir;
  cluster_name = cluster.metadata.name;
  image = module_image default_module_image cluster;
  mgmt_cluster = cluster.spec.mgmt_cluster;
}

module _ (host : Host) (lf : LockFile) where
  -- What the manifest asks of the process, the repository and the environment, in that order.
  unfoldable pub check_requirements :
      ClusterDefinition → Option ModuleManifest → Env → M (Option Failure)
  unfolding required_mgmt missing_env
  check_requirements cluster none env = pure none
  check_requirements cluster (some manifest) env =
      ask (λ w. host.has_module_runner || all (λ tool. host.has_tool tool w) manifest.tools)
      >>= λ has_tools.
          if not has_tools
          then pure (some tools_missing)
          else (validate_mgmt_cluster_requirement host cluster (required_mgmt cluster manifest)
              >>= λ missing. elim missing [
                | some e ↦ pure (some (mgmt_cluster_missing e))
                | none ↦
                    if host.has_module_runner
                    then elim (missing_env manifest.env env) [
                      | [] ↦ pure none
                      | name ∷ names ↦ pure (some (env_missing (name ∷ names)))
                    ]
                    else pure none
              ])

  unfoldable pub perform :
      Action → Bool → ClusterDefinition → Executor → Env → Map String → String → M Done
  unfolding remove_cluster_file
  perform tear_down true cluster exec env secrets_env phase = pure (ok tt)
  perform tear_down false cluster exec env secrets_env phase =
      delete_cluster host lf cluster exec env
  perform remove_yaml true cluster exec env secrets_env phase = pure (ok tt)
  perform remove_yaml false cluster exec env secrets_env phase =
      remove_cluster_file host lf cluster.metadata.name
  perform bring_up true cluster exec env secrets_env phase = pure (ok tt)
  perform bring_up false cluster exec env secrets_env phase =
      create_cluster host lf cluster exec env secrets_env
  perform maintain dry_run cluster exec env secrets_env phase =
      maintain_cluster host lf dry_run cluster exec env
  perform wait dry_run cluster exec env secrets_env phase = pure (ok tt)
  perform reject dry_run cluster exec env secrets_env phase = pure (err (status_unrecognized phase))

  -- After the status operation has succeeded.
  unfoldable pub dispatch : Bool → ClusterDefinition → Executor → Env → Map String → String → M Done
  unfolding next_action
  dispatch dry_run cluster exec env secrets_env phase =
      act (event "Normal" "StatusChecked")
      >> act (reported phase)
      >> perform (next_action cluster.spec.delete phase) dry_run cluster exec env secrets_env phase

  -- What follows the status operation.
  unfoldable pub conclude_status :
      Bool → ClusterDefinition → Executor → Bool → Env → Map String → Outcome → M Done
  unfolding effective_status get_or_empty
  conclude_status dry_run cluster exec auth_only env secrets_env (failed r message) =
      pure (err (operation_failed status))
  conclude_status dry_run cluster exec auth_only env secrets_env (succeeded r) =
      dispatch dry_run cluster exec env secrets_env
        (effective_status (get_or_empty "HYVE_CLUSTER_STATUS" r.outputs) auth_only)

  -- From the requirements being met on.
  unfoldable pub check_and_dispatch :
      Bool → ClusterDefinition → Executor → Bool → Env → Map String → Option Failure → M Done
  check_and_dispatch dry_run cluster exec auth_only env secrets_env (some f) = pure (err f)
  check_and_dispatch dry_run cluster exec auth_only env secrets_env none =
      execute host lf exec status env >>= λ o.
      conclude_status dry_run cluster exec auth_only env secrets_env o

  -- From the module being resolved on.
  unfoldable pub run_module : ClusterDefinition → Bool → Map String → Option String → M Done
  unfolding executor_for is_auth_only build_module_env
  run_module cluster dry_run secrets_env none = pure (err module_not_resolved)
  run_module cluster dry_run secrets_env (some module_dir) =
      ask (host.load_manifest cluster lf) >>= λ manifest.
      check_requirements cluster manifest (build_module_env host.to_upper cluster secrets_env)
      >>= λ failure.
          check_and_dispatch dry_run cluster
            (executor_for host.default_module_image module_dir cluster) (is_auth_only manifest)
            (build_module_env host.to_upper cluster secrets_env) secrets_env failure

  unfoldable pub reconcile_cluster : ClusterDefinition → Bool → Map String → M Done
  reconcile_cluster cluster dry_run secrets_env =
      ask (host.resolve_module cluster lf) >>= λ resolved.
      run_module cluster dry_run secrets_env resolved

  -- With the answer of the HostKubeconfigIssuer.
  unfoldable pub use_kubeconfig : ClusterDefinition → Bool → Map String → Option String → M Done
  unfolding build_module_env
  use_kubeconfig cluster dry_run secrets_env none = pure (err kubeconfig_not_minted)
  use_kubeconfig cluster dry_run secrets_env (some path) =
      reconcile_contents host lf dry_run cluster
        (build_module_env host.to_upper cluster secrets_env ++ (("KUBECONFIG=" <> path) ∷ []))

  unfoldable pub mint_and_reconcile :
      ClusterDefinition → Bool → Map String → Option (History → Option String) → M Done
  mint_and_reconcile cluster dry_run secrets_env none = pure (ok tt)
  mint_and_reconcile cluster dry_run secrets_env (some mint) =
      call mint (λ _. minted) >>= λ answer. use_kubeconfig cluster dry_run secrets_env answer

  unfoldable pub reconcile_host_cluster : ClusterDefinition → Bool → Map String → M Done
  reconcile_host_cluster cluster dry_run secrets_env =
      if cluster.spec.delete
      then pure (ok tt)
      else (act (reported "ACTIVE")
          >> mint_and_reconcile cluster dry_run secrets_env host.mint_host_kubeconfig)
