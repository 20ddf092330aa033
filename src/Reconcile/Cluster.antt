-- ===== src/Reconcile/Cluster.antt =====
-- What `reconcileCluster` of internal/reconcile/manager.go does to a cluster: authenticate, create,
-- delete, scale.
pub mod Drift
use hyve.Prelude.{
  String, Bool, true, false, Option, none, some, List, [], ◌∷◌, ◌++◌, ◌==◌, if◌then◌else◌, Result,
  ok, err,
}
use hyve.Prelude.Text.{◌<>◌}
use hyve.Prelude.Maps.{Map, get_or_empty, insert, merge}
use hyve.Types.{ClusterDefinition}
use hyve.Lock.{LockFile}
use hyve.Reconcile.World.{
  Operation, create, delete, auth, scale, OperationResult, Outcome, succeeded, failed, Executor,
  Env, M, ◌>>=◌, ◌>>◌, pure, call, ask, act, ran, saved, removed, event, reported, output,
  deduplicated, agent,
}
use hyve.Reconcile.Host.{Host}
use hyve.Reconcile.Refs.{
  assignments, build_module_env, params_hash_key, params_hash, params_changed,
}
use hyve.Reconcile.Locked.{Unlocked}
use hyve.Reconcile.Mgmt.{MgmtError}
use hyve.Reconcile.Hooks.{run_workflows}
use hyve.Reconcile.Resources.Loop.{ResourceError}
use hyve.Reconcile.Resources.Pass.{reconcile_resources}

-- Why a reconciliation returns an error.
pub data Failure : Type 0 where
  not_locked : Unlocked → Failure
  module_not_resolved tools_missing file_not_removed kubeconfig_not_minted : Failure
  mgmt_cluster_missing : MgmtError → Failure
  env_missing : List String → Failure
  operation_failed : Operation → Failure
  resource_failed : ResourceError → Failure
  status_unrecognized : String → Failure

abbrev pub Done : Type 0
Done = Result Failure (Unit {0})

abbrev pub is_success : Outcome → Bool
is_success (succeeded r) = true
is_success (failed r message) = false

abbrev of_stop : Option ResourceError → Done
of_stop none = ok tt
of_stop (some stop) = err (resource_failed stop)

abbrev or_false : Option Bool → Bool
or_false none = false
or_false (some b) = b

-- `driverOutputs` with what a create answered and the hash of the parameters.
pub with_outputs : (Map String → String) → ClusterDefinition → Map String → ClusterDefinition
unfolding merge insert params_hash
with_outputs digest cluster outputs = record cluster {
  spec = record cluster.spec {
    driver_outputs =
        insert params_hash_key (params_hash digest cluster.spec.params)
          (merge cluster.spec.driver_outputs outputs);
  };
}

module _ (host : Host) (lf : LockFile) where
  unfoldable pub execute : Executor → Operation → Env → M Outcome
  execute exec op env =
      call (host.execute exec op env) (λ o. ran exec.cluster_name op (is_success o))

  unfoldable pub save_definition : ClusterDefinition → M Bool
  save_definition cluster = call (host.save_cluster_definition cluster) (λ done. saved cluster done)

  dedupe_kubeconfig_after_auth : String → M (Unit {0})
  dedupe_kubeconfig_after_auth path = if path == "" then pure tt else act (deduplicated path)

  -- The auth operation; the environment gains KUBECONFIG.
  unfoldable pub authenticate : Executor → Env → M Env
  unfolding execute dedupe_kubeconfig_after_auth get_or_empty
  authenticate exec env = execute exec auth env >>= λ o. elim o [
    | failed r message ↦ act (event "Warning" "AuthFailed") >> pure env
    | succeeded r ↦
        dedupe_kubeconfig_after_auth (get_or_empty "KUBECONFIG" r.outputs)
        >> pure (
            if get_or_empty "KUBECONFIG" r.outputs == ""
            then env
            else env ++ (("KUBECONFIG=" <> get_or_empty "KUBECONFIG" r.outputs) ∷ []))
  ]

  unfoldable pub record_output : Operation → Option OperationResult → M (Unit {0})
  record_output op none = pure tt
  record_output op (some r) = act (output op r.raw_output)

  unfoldable pub remove_cluster_file : String → M Done
  remove_cluster_file name =
      call (host.remove_cluster_file name) (λ done. removed name done) >>= λ done.
      pure (if done then ok tt else err file_not_removed)

  -- `createCluster` from a successful create operation on.
  unfoldable pub finish_create : ClusterDefinition → Executor → Map String → M Done
  unfolding save_definition build_module_env
  finish_create cluster exec secrets_env =
      save_definition cluster
      >> act (event "Normal" "Created")
      >> act (reported "CREATING")
      >> authenticate exec (build_module_env host.to_upper cluster secrets_env)
      >>= λ env.
          run_workflows host lf cluster.spec.workflows.on_create cluster.metadata.name env
          >> ask host.strict_resource_delete
          >>= λ strict.
              reconcile_resources host env lf cluster (or_false strict) false
              >> run_workflows host lf cluster.spec.workflows.after_create cluster.metadata.name env
              >> pure (ok tt)

  -- What follows the create operation.
  unfoldable pub conclude_create : ClusterDefinition → Executor → Map String → Outcome → M Done
  unfolding record_output with_outputs
  conclude_create cluster exec secrets_env (failed r message) =
      record_output create r
      >> act (event "Warning" "CreateFailed")
      >> pure (err (operation_failed create))
  conclude_create cluster exec secrets_env (succeeded r) =
      record_output create (some r)
      >> finish_create (with_outputs host.digest cluster r.outputs) exec secrets_env

  unfoldable pub create_cluster : ClusterDefinition → Executor → Env → Map String → M Done
  unfolding assignments
  create_cluster cluster exec env secrets_env =
      act (event "Normal" "Creating")
      >> run_workflows host lf cluster.spec.workflows.before_create cluster.metadata.name env
      >>= λ vars. execute exec create (env ++ assignments (λ k. k) vars) >>= λ o.
          conclude_create cluster exec secrets_env o

  -- What follows the delete operation.
  unfoldable pub conclude_delete : ClusterDefinition → Env → Outcome → M Done
  unfolding record_output
  conclude_delete cluster env (failed r message) =
      record_output delete r
      >> act (event "Warning" "DeleteFailed")
      >> pure (err (operation_failed delete))
  conclude_delete cluster env (succeeded r) =
      record_output delete (some r)
      >> act (event "Normal" "Deleted")
      >> run_workflows host lf cluster.spec.workflows.after_delete cluster.metadata.name env
      >> remove_cluster_file cluster.metadata.name

  unfoldable pub delete_cluster : ClusterDefinition → Executor → Env → M Done
  delete_cluster cluster exec env =
      act (reported "DELETING")
      >> act (event "Normal" "Deleting")
      >> authenticate exec env
      >>= λ env'.
          run_workflows host lf cluster.spec.workflows.on_delete cluster.metadata.name env'
          >> execute exec delete env'
          >>= λ o. conclude_delete cluster env' o

  unfoldable pub conclude_scale : ClusterDefinition → Outcome → M ClusterDefinition
  unfolding save_definition with_outputs
  conclude_scale cluster (failed r message) = pure cluster
  conclude_scale cluster (succeeded r) =
      (let scaled = with_outputs host.digest cluster [] in save_definition scaled >> pure scaled)

  unfoldable pub scale_cluster : ClusterDefinition → Executor → Env → M ClusterDefinition
  scale_cluster cluster exec env =
      run_workflows host lf cluster.spec.workflows.pre_reconcile cluster.metadata.name env
      >> execute exec scale env
      >>= λ o. conclude_scale cluster o

  -- Drift of the parameters; a dry run only reports it.
  unfoldable pub scale_on_drift : Bool → ClusterDefinition → Executor → Env → M ClusterDefinition
  unfolding params_changed
  scale_on_drift true cluster exec env = pure cluster
  scale_on_drift false cluster exec env =
      if params_changed host.digest cluster then scale_cluster cluster exec env else pure cluster

  -- Skipped in a dry run; a failure is only logged.
  unfoldable pub ensure_agent : Bool → ClusterDefinition → Env → M ClusterDefinition
  ensure_agent true cluster env = pure cluster
  ensure_agent false cluster env =
      call (host.reconcile_agent cluster env) (λ _. agent cluster.metadata.name)
      >>= λ (cluster', done). pure cluster'

  -- hyve-agent and the resources, for a cluster that is up.
  unfoldable pub reconcile_contents : Bool → ClusterDefinition → Env → M Done
  reconcile_contents dry_run cluster env = ensure_agent dry_run cluster env >>= λ cluster'.
      ask host.strict_resource_delete >>= λ strict.
      reconcile_resources host env lf cluster' (or_false strict) dry_run >>= λ (after, stop).
      pure (of_stop stop)

  -- The ACTIVE case.
  unfoldable pub maintain_cluster : Bool → ClusterDefinition → Executor → Env → M Done
  maintain_cluster dry_run cluster exec env = authenticate exec env >>= λ env'.
      scale_on_drift dry_run cluster exec env' >>= λ cluster'.
      reconcile_contents dry_run cluster' env'
