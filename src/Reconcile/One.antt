-- ===== src/Reconcile/One.antt =====
-- `ReconcileOne` of internal/reconcile/manager.go, with what a cluster depends on.
pub mod Unmet
use hyve.Prelude.{
  String, Bool, true, false, Option, none, some, List, [], ◌∷◌, ◌==◌, if◌then◌else◌, ok, err,
}
use hyve.Prelude.Maps.{Map, get_or_empty}
use hyve.Types.{ClusterDefinition}
use hyve.Types.Refs.{is_empty}
use hyve.Lock.{LockFile}
use hyve.Reconcile.World.{
  status, Outcome, succeeded, failed, History, M, ◌>>=◌, pure, call, ask, loaded,
}
use hyve.Reconcile.Host.{Host}
use hyve.Reconcile.Refs.{
  resolve_cluster_ref, is_host_cluster_without_driver, build_module_env, effective_status,
}
use hyve.Reconcile.Locked.{validate_locked}
use hyve.Reconcile.Cluster.{not_locked, Done, execute}
use hyve.Reconcile.Dispatch.{executor_for, is_auth_only, reconcile_cluster, reconcile_host_cluster}

-- An expired cluster is marked for deletion; a time that does not parse is only logged.
mark_expired : Option Bool → ClusterDefinition → ClusterDefinition
mark_expired none def = def
mark_expired (some false) def = def
mark_expired (some true) def = record def { spec = record def.spec { delete = true } }

module _ (host : Host) (lf : LockFile) where
  unfoldable pub expire : ClusterDefinition → History → ClusterDefinition
  unfolding mark_expired
  expire def w =
      if def.spec.expires_at == ""
      then def
      else mark_expired (host.is_past def.spec.expires_at w) def

  conclude_dependency : Bool → Outcome → String
  unfolding effective_status get_or_empty
  conclude_dependency auth_only (failed r message) = ""
  conclude_dependency auth_only (succeeded r) =
      effective_status (get_or_empty "HYVE_CLUSTER_STATUS" r.outputs) auth_only

  unfoldable pub run_dependency : ClusterDefinition → Map String → Option String → M String
  unfolding build_module_env execute executor_for is_auth_only conclude_dependency
  run_dependency dep secrets_env none = pure ""
  run_dependency dep secrets_env (some module_dir) = ask (host.load_manifest dep lf) >>= λ manifest.
      execute host lf (executor_for host.default_module_image module_dir dep) status
        (build_module_env host.to_upper dep secrets_env)
      >>= λ o. pure (conclude_dependency (is_auth_only manifest) o)

  -- A failure reads as "not ACTIVE".
  unfoldable pub check_dependency_status : ClusterDefinition → Map String → M String
  unfolding is_host_cluster_without_driver
  check_dependency_status dep secrets_env =
      if is_host_cluster_without_driver dep
      then pure "ACTIVE"
      else (ask (host.resolve_module dep lf) >>= λ resolved.
          run_dependency dep secrets_env resolved)

  -- Of a dependency that may not be there.
  unfoldable pub is_dependency_active : Map String → Option ClusterDefinition → M Bool
  is_dependency_active secrets_env none = pure false
  is_dependency_active secrets_env (some dep) =
      check_dependency_status dep secrets_env >>= λ phase. pure (phase == "ACTIVE")

  -- The first dependency that is not ACTIVE or not there.
  unfoldable pub first_unmet :
      List ClusterDefinition → ClusterDefinition → Map String → List String → M (Option String)
  first_unmet defs def secrets_env [] = pure none
  first_unmet defs def secrets_env (name ∷ names) =
      is_dependency_active secrets_env (resolve_cluster_ref defs def name) >>= λ active.
      elim active [ true ↦ first_unmet defs def secrets_env names | false ↦ pure (some name) ]

  -- A failure to load the definitions is only logged, and nothing is then unmet.
  unfoldable pub first_unmet_if_loaded :
      ClusterDefinition → Map String → Option (List ClusterDefinition) → M (Option String)
  first_unmet_if_loaded def secrets_env none = pure none
  first_unmet_if_loaded def secrets_env (some defs) =
      first_unmet defs def secrets_env def.spec.depends_on

  unfoldable pub unmet_dependency : ClusterDefinition → Map String → M (Option String)
  unmet_dependency def secrets_env =
      if is_empty def.spec.depends_on
      then pure none
      else (call host.load_cluster_definitions (λ _. loaded) >>= λ answer.
          first_unmet_if_loaded def secrets_env answer)

  -- With the dependency that is not met; the cycle is skipped if there is one.
  unfoldable pub reconcile_unless_unmet :
      ClusterDefinition → Bool → Map String → Option String → M Done
  unfolding is_host_cluster_without_driver
  reconcile_unless_unmet def dry_run secrets_env (some name) = pure (ok tt)
  reconcile_unless_unmet def dry_run secrets_env none =
      if is_host_cluster_without_driver def
      then reconcile_host_cluster host lf def dry_run secrets_env
      else reconcile_cluster host lf def dry_run secrets_env

  -- From the checks of the lock file on.
  unfoldable pub reconcile_checked : ClusterDefinition → Bool → Map String → M Done
  reconcile_checked def dry_run secrets_env =
      if def.spec.pause
      then pure (ok tt)
      else (ask (expire def) >>= λ def'. unmet_dependency def' secrets_env >>= λ unmet.
          reconcile_unless_unmet def' dry_run secrets_env unmet)

  unfoldable pub reconcile_one : ClusterDefinition → Bool → Map String → M Done
  reconcile_one def dry_run secrets_env = elim (validate_locked def lf) [
    | err e ↦ pure (err (not_locked e))
    | ok _ ↦ reconcile_checked def dry_run secrets_env
  ]
