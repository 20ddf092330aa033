-- ===== src/Reconcile/Traces/Whole.antt =====
-- The effects of `reconcile_cluster` and `reconcile_host_cluster`.
use native.Mathlib.Omega.{arith}
use hyve.Prelude.{String, Bool, true, false, ◌||◌, Option, none, some, ◌∷◌, ◌≡◌, refl, ◌&&◌}
use hyve.Prelude.Maps.{Map}
use hyve.Types.{ClusterDefinition}
use hyve.Lock.{LockFile}
use hyve.Reconcile.World.{Env, History, Executor, status, Outcome, succeeded, failed, reported}
use hyve.Reconcile.Host.{Host, ModuleManifest}
use hyve.Reconcile.Mgmt.{validate_mgmt_cluster_requirement, resolve_mgmt_cluster}
use hyve.Reconcile.Cluster.{Failure}
use hyve.Reconcile.Dispatch.{
  Action, tear_down, remove_yaml, bring_up, maintain, wait, reject, next_action, check_requirements,
  perform, dispatch, check_and_dispatch, reconcile_cluster, reconcile_host_cluster, required_mgmt,
  conclude_status, run_module, use_kubeconfig, mint_and_reconcile,
}
use hyve.Reconcile.One.{reconcile_unless_unmet}
use hyve.Reconcile.Traces.{Policy, policy_for}
use hyve.Reconcile.Traces.Lifecycle.{
  Keeps, execute-permits, remove_cluster_file-permits, create_cluster-permits,
  delete_cluster-permits, maintain_cluster-permits, reconcile_contents-permits,
}

-- What a policy has to permit for an action.
abbrev allows : Bool → Policy → Action → Bool
allows dry_run p tear_down = dry_run || (p.contents && p.deletes && p.removes)
allows dry_run p remove_yaml = dry_run || p.removes
allows dry_run p bring_up = dry_run || (p.contents && p.creates)
allows dry_run p maintain = (dry_run || p.contents) && (dry_run || p.scales)
allows dry_run p wait = true
allows dry_run p reject = true

next_action-allows :
    (dry_run removing : Bool) (phase : String)
    → allows dry_run (policy_for dry_run removing) (next_action removing phase) ≡ true
unfolding next_action
next_action-allows dry_run removing phase = ground arith

module _ (p : Policy) (host : Host) (lf : LockFile) where
  validate_mgmt-permits :
      (cluster : ClusterDefinition) (ref : String) (h : History)
      → Keeps p host lf (validate_mgmt_cluster_requirement host cluster ref) h
  unfolding validate_mgmt_cluster_requirement resolve_mgmt_cluster
  validate_mgmt-permits cluster ref h k = grind arith

  check_requirements-permits :
      (cluster : ClusterDefinition) (manifest : Option ModuleManifest) (env : Env) (h : History)
      → Keeps p host lf (check_requirements host lf cluster manifest env) h
  unfolding check_requirements
  check_requirements-permits cluster none env h k = k
  check_requirements-permits cluster (some manifest) env h k =
      grind (arith, validate_mgmt-permits cluster (required_mgmt cluster manifest) h k)

  perform-permits :
      (a : Action) (dry_run : Bool) (cluster : ClusterDefinition) (exec : Executor) (env : Env)
      (secrets_env : Map String) (phase : String) (h : History)
      → allows dry_run p a ≡ true
      → Keeps p host lf (perform host lf a dry_run cluster exec env secrets_env phase) h
  unfolding perform
  perform-permits tear_down true cluster exec env secrets_env phase h q k = k
  perform-permits tear_down false cluster exec env secrets_env phase h q k =
      delete_cluster-permits p host lf (ground (arith, q)) cluster exec env h (ground (arith, q))
        (λ env' h'. ground (arith, q)) k
  perform-permits remove_yaml true cluster exec env secrets_env phase h q k = k
  perform-permits remove_yaml false cluster exec env secrets_env phase h q k =
      remove_cluster_file-permits p host lf cluster.metadata.name h q k
  perform-permits bring_up true cluster exec env secrets_env phase h q k = k
  perform-permits bring_up false cluster exec env secrets_env phase h q k =
      create_cluster-permits p host lf (ground (arith, q)) cluster exec env secrets_env h
        (ground (arith, q)) k
  perform-permits maintain dry_run cluster exec env secrets_env phase h q k =
      maintain_cluster-permits p host lf dry_run (ground (arith, q)) cluster exec env h
        (ground (arith, q)) k
  perform-permits wait dry_run cluster exec env secrets_env phase h q k = k
  perform-permits reject dry_run cluster exec env secrets_env phase h q k = k

module _ (host : Host) (lf : LockFile) (dry_run : Bool) where
  abbrev policy_of : ClusterDefinition → Policy
  policy_of cluster = policy_for dry_run cluster.spec.delete

  dispatch-permits :
      (cluster : ClusterDefinition) (exec : Executor) (env : Env) (secrets_env : Map String)
      (phase : String) (h : History)
      → Keeps
          (policy_of cluster)
          host
          lf
          (dispatch host lf dry_run cluster exec env secrets_env phase)
          h
  unfolding dispatch
  dispatch-permits cluster exec env secrets_env phase h k =
      perform-permits (policy_of cluster) host lf _ dry_run cluster exec env secrets_env phase _
        (next_action-allows dry_run cluster.spec.delete phase) k

  conclude_status-permits :
      (cluster : ClusterDefinition) (exec : Executor) (auth_only : Bool) (env : Env)
      (secrets_env : Map String) (o : Outcome) (h : History)
      → Keeps
          (policy_of cluster)
          host
          lf
          (conclude_status host lf dry_run cluster exec auth_only env secrets_env o)
          h
  unfolding conclude_status
  conclude_status-permits cluster exec auth_only env secrets_env (failed r message) h k = k
  conclude_status-permits cluster exec auth_only env secrets_env (succeeded r) h k =
      dispatch-permits cluster exec env secrets_env _ h k

  check_and_dispatch-permits :
      (cluster : ClusterDefinition) (exec : Executor) (auth_only : Bool) (env : Env)
      (secrets_env : Map String) (failure : Option Failure) (h : History)
      → Keeps
          (policy_of cluster)
          host
          lf
          (check_and_dispatch host lf dry_run cluster exec auth_only env secrets_env failure)
          h
  unfolding check_and_dispatch
  check_and_dispatch-permits cluster exec auth_only env secrets_env (some f) h k = k
  check_and_dispatch-permits cluster exec auth_only env secrets_env none h k =
      conclude_status-permits cluster exec auth_only env secrets_env _ _
        (execute-permits (policy_of cluster) host lf exec status env h refl k)

  run_module-permits :
      (cluster : ClusterDefinition) (secrets_env : Map String) (resolved : Option String)
      (h : History)
      → Keeps
          (policy_of cluster)
          host
          lf
          (run_module host lf cluster dry_run secrets_env resolved)
          h
  unfolding run_module
  run_module-permits cluster secrets_env none h k = k
  run_module-permits cluster secrets_env (some module_dir) h k =
      check_and_dispatch-permits cluster _ _ _ secrets_env _ _ (
        check_requirements-permits (policy_of cluster) host lf cluster
          (host.load_manifest cluster lf h) _ h k)

  reconcile_cluster-permits :
      (cluster : ClusterDefinition) (secrets_env : Map String) (h : History)
      → Keeps (policy_of cluster) host lf (reconcile_cluster host lf cluster dry_run secrets_env) h
  unfolding reconcile_cluster
  reconcile_cluster-permits cluster secrets_env h k =
      run_module-permits cluster secrets_env (host.resolve_module cluster lf h) h k

  use_kubeconfig-permits :
      (cluster : ClusterDefinition) (secrets_env : Map String) (answer : Option String)
      (h : History)
      → Keeps
          (policy_of cluster)
          host
          lf
          (use_kubeconfig host lf cluster dry_run secrets_env answer)
          h
  unfolding use_kubeconfig
  use_kubeconfig-permits cluster secrets_env none h k = k
  use_kubeconfig-permits cluster secrets_env (some path) h k =
      reconcile_contents-permits (policy_of cluster) host lf dry_run (ground arith) cluster _ h k

  mint_and_reconcile-permits :
      (cluster : ClusterDefinition) (secrets_env : Map String)
      (issuer : Option (History → Option String)) (h : History)
      → Keeps
          (policy_of cluster)
          host
          lf
          (mint_and_reconcile host lf cluster dry_run secrets_env issuer)
          h
  unfolding mint_and_reconcile
  mint_and_reconcile-permits cluster secrets_env none h k = k
  mint_and_reconcile-permits cluster secrets_env (some mint) h k =
      use_kubeconfig-permits cluster secrets_env (mint h) _ k

  reconcile_host_cluster-permits :
      (cluster : ClusterDefinition) (secrets_env : Map String) (h : History)
      → Keeps
          (policy_of cluster)
          host
          lf
          (reconcile_host_cluster host lf cluster dry_run secrets_env)
          h
  unfolding reconcile_host_cluster
  reconcile_host_cluster-permits cluster secrets_env h k = ground (
    arith,
    mint_and_reconcile-permits cluster secrets_env host.mint_host_kubeconfig (reported "ACTIVE" ∷ h)
        k,
  )

  pub reconcile_unless_unmet-permits :
      (def : ClusterDefinition) (secrets_env : Map String) (unmet : Option String) (h : History)
      → Keeps
          (policy_of def)
          host
          lf
          (reconcile_unless_unmet host lf def dry_run secrets_env unmet)
          h
  unfolding reconcile_unless_unmet
  reconcile_unless_unmet-permits def secrets_env (some name) h k = k
  reconcile_unless_unmet-permits def secrets_env none h k = ground (
    arith,
    reconcile_cluster-permits def secrets_env h k,
    reconcile_host_cluster-permits def secrets_env h k,
  )
