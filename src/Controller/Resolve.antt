-- ===== src/Controller/Resolve.antt =====
-- resolveModuleIfNeeded, resolveWorkflowIfNeeded, resolveResourceIfNeeded and fetchCLISecrets of
-- internal/controller/reconciler.go. Their failures are only logged: the lock file stays as it is.
pub mod Keeps
pub mod Loaded
use hyve.Prelude.{
  String, Bool, true, false, not, ◌||◌, Option, none, some, is_some, List, [], ◌∷◌, ◌==◌,
  if◌then◌else◌, Result, ok, err, keep,
}
use hyve.Prelude.State.{◌>>=◌, ◌>>◌, pure, call, ask}
use hyve.Prelude.Maps.{Map, get_or_empty}
use hyve.Types
use hyve.Types.Refs.{is_remote, is_remote_resource, is_empty}
use hyve.V1alpha1.Records.{Module, ModuleStatus}
use hyve.Lock.{LockFile, LockedModule, get_locked}
use hyve.Lock.Names.{cr_name}
use hyve.Reconcile.Refs.{all_workflow_hook_refs}
use hyve.Controller.Api.{
  ApiError, M, Api, WorkflowRefResult, ResourceRefResult, Installed, ensured, installed_workflows,
  installed_resources,
}
use hyve.Controller.Upsert.{
  upsert_module_cr, upsert_workflow_ref_status_cr, upsert_resource_ref_status_cr,
}

-- secretsEnv, empty if the Secret cannot be read.
unfoldable pub secrets_of : Result ApiError (Map String) → Map String
secrets_of (ok secret) = secret
secrets_of (err e) = []

module_cr : String → String → ModuleStatus → Module
module_cr source version status = record {
  name = cr_name source version;
  spec = record { source = source; version = version };
  status = status;
}

sha256_of : Option LockedModule → String
sha256_of none = ""
sha256_of (some locked) = locked.sha256

pub reloaded_or : LockFile → Result String LockFile → LockFile
reloaded_or lf (ok fresh) = fresh
reloaded_or lf (err message) = lf

-- A loop over the results.
unfoldable pub for_each : {A : Type 0} → (A → M (Unit {0})) → List A → M (Unit {0})
for_each body [] = pure tt
for_each body (a ∷ further) = body a >> for_each body further

module _ (api : Api) where
  -- The lock file after a reload, or the one before it.
  unfoldable pub reload_or : LockFile → M LockFile
  unfolding reloaded_or
  reload_or lf = ask (λ w. reloaded_or lf (api.load_lock_file w))

  unfoldable pub conclude_reload : LockFile → String → String → Result String LockFile → M LockFile
  unfolding module_cr sha256_of
  conclude_reload lf source version (err message) = pure lf
  conclude_reload lf source version (ok reloaded) = ask api.now >>= λ time.
      upsert_module_cr api (
        module_cr source version (record {
          resolved = true;
          sha256 = sha256_of (get_locked reloaded source version);
          resolved_at = time;
          error = "";
        }))
      >> pure reloaded

  -- With the error of EnsureResolvedWithToken.
  unfoldable pub conclude_ensure : LockFile → String → String → Option String → M LockFile
  unfolding module_cr
  conclude_ensure lf source version (some message) =
      upsert_module_cr api (
        module_cr source version
          (record { resolved = false; sha256 = ""; resolved_at = 0; error = message }))
      >> pure lf
  conclude_ensure lf source version none =
      ask api.load_lock_file >>= λ reloaded. conclude_reload lf source version reloaded

  unfoldable pub resolve_module_if_needed : LockFile → String → String → String → M LockFile
  resolve_module_if_needed lf source version token =
      if source == "" || is_some (get_locked lf source version)
      then pure lf
      else (call (api.ensure_resolved source version token) (λ _. ensured source version)
          >>= λ failure. conclude_ensure lf source version failure)

  unfoldable pub conclude_workflows :
      LockFile → Result String (Installed WorkflowRefResult) → M LockFile
  unfolding for_each
  conclude_workflows lf (err message) = pure lf
  conclude_workflows lf (ok installed) =
      for_each (upsert_workflow_ref_status_cr api) installed.results
      >> (if installed.changed then reload_or lf else pure lf)

  -- With the remote references; there is nothing to do without one.
  unfoldable pub install_workflow_refs : LockFile → String → List Types.WorkflowRef → M LockFile
  install_workflow_refs lf token [] = pure lf
  install_workflow_refs lf token (ref ∷ refs) =
      call (api.install_workflows (ref ∷ refs) token) (λ _. installed_workflows (ref ∷ refs))
      >>= λ installed. conclude_workflows lf installed

  unfoldable pub resolve_workflow_if_needed :
      LockFile → Types.ClusterDefinition → String → M LockFile
  resolve_workflow_if_needed lf def token =
      install_workflow_refs lf token (keep is_remote (all_workflow_hook_refs def))

  unfoldable pub conclude_resources :
      LockFile → Result String (Installed ResourceRefResult) → M LockFile
  unfolding for_each
  conclude_resources lf (err message) = pure lf
  conclude_resources lf (ok installed) =
      for_each (upsert_resource_ref_status_cr api) installed.results
      >> (if installed.changed then reload_or lf else pure lf)

  -- With the remote references; there is nothing to do without one.
  unfoldable pub install_resource_refs : LockFile → String → List Types.ResourceRef → M LockFile
  install_resource_refs lf token [] = pure lf
  install_resource_refs lf token (ref ∷ refs) =
      call (api.install_resources (ref ∷ refs) token) (λ _. installed_resources (ref ∷ refs))
      >>= λ installed. conclude_resources lf installed

  unfoldable pub resolve_resource_if_needed :
      LockFile → Types.ClusterDefinition → String → M LockFile
  resolve_resource_if_needed lf def token =
      install_resource_refs lf token (keep is_remote_resource def.spec.resources)

  -- The three, in the order of Reconcile and reconcileDelete.
  unfoldable pub resolve_if_needed : LockFile → Types.ClusterDefinition → Map String → M LockFile
  resolve_if_needed lf def secrets_env =
      let token = get_or_empty "GITHUB_TOKEN" secrets_env in
      resolve_module_if_needed lf def.spec.driver.source def.spec.driver.version token >>= λ lf'.
      resolve_workflow_if_needed lf' def token >>= λ lf''. resolve_resource_if_needed lf'' def token
