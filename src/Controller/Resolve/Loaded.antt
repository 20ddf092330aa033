-- ===== src/Controller/Resolve/Loaded.antt =====
-- Where the lock file of a pass in internal/controller/reconciler.go comes from.
use hyve.Prelude.{
  String, ◌||◌, Option, none, some, is_some, List, [], ◌∷◌, ◌==◌, ◌≡◌, refl, Result, ok, err,
  Bool-cases, inl, inr,
}
use hyve.Prelude.Maps.{Map}
use hyve.Types
use hyve.Lock.{LockFile, get_locked}
use hyve.Controller.Api.{Log, Api, WorkflowRefResult, ResourceRefResult, Installed}
use hyve.Controller.Resolve.{
  reloaded_or, reload_or, conclude_reload, conclude_ensure, resolve_module_if_needed,
  conclude_workflows, install_workflow_refs, resolve_workflow_if_needed, conclude_resources,
  install_resource_refs, resolve_resource_if_needed, resolve_if_needed,
}

-- A property of every lock file that can be loaded.
module _ (api : Api) (P : LockFile → Type 0)
    (loaded : (lf : LockFile) (w : Log) → api.load_lock_file w ≡ ok lf → P lf) where
  reloaded_or-keeps :
      (lf : LockFile) (r : Result String LockFile)
      → ((lf' : LockFile) → r ≡ ok lf' → P lf')
      → P lf
      → P (reloaded_or lf r)
  unfolding reloaded_or
  reloaded_or-keeps lf (ok fresh) h p = h fresh refl
  reloaded_or-keeps lf (err message) h p = p

  reload_or-keeps : (lf : LockFile) (w : Log) → P lf → P (reload_or api lf w).0
  unfolding reload_or
  reload_or-keeps lf w p = reloaded_or-keeps lf _ (λ lf' e. loaded lf' w e) p

  conclude_reload-keeps :
      (lf : LockFile) (source version : String) (r : Result String LockFile) (w : Log)
      → ((lf' : LockFile) → r ≡ ok lf' → P lf')
      → P lf
      → P (conclude_reload api lf source version r w).0
  unfolding conclude_reload
  conclude_reload-keeps lf source version (err message) w h p = p
  conclude_reload-keeps lf source version (ok reloaded) w h p = h reloaded refl

  conclude_ensure-keeps :
      (lf : LockFile) (source version : String) (r : Option String) (w : Log)
      → P lf
      → P (conclude_ensure api lf source version r w).0
  unfolding conclude_ensure
  conclude_ensure-keeps lf source version (some message) w p = p
  conclude_ensure-keeps lf source version none w p =
      conclude_reload-keeps lf source version _ w (λ lf' e. loaded lf' w e) p

  resolve_module_if_needed-keeps :
      (lf : LockFile) (source version token : String) (w : Log)
      → P lf
      → P (resolve_module_if_needed api lf source version token w).0
  unfolding resolve_module_if_needed
  resolve_module_if_needed-keeps lf source version token w p =
      elim (Bool-cases (source == "" || is_some (get_locked lf source version))) [
        | inl e ↦ rw e p
        | inr e ↦ rw e (conclude_ensure-keeps lf source version _ _ p)
      ]

  conclude_workflows-keeps :
      (lf : LockFile) (r : Result String (Installed WorkflowRefResult)) (w : Log)
      → P lf
      → P (conclude_workflows api lf r w).0
  unfolding conclude_workflows
  conclude_workflows-keeps lf (err message) w p = p
  conclude_workflows-keeps lf (ok installed) w p = elim (Bool-cases installed.changed) [
    | inl e ↦ rw e (reload_or-keeps lf _ p)
    | inr e ↦ rw e p
  ]

  install_workflow_refs-keeps :
      (lf : LockFile) (token : String) (refs : List Types.WorkflowRef) (w : Log)
      → P lf
      → P (install_workflow_refs api lf token refs w).0
  unfolding install_workflow_refs
  install_workflow_refs-keeps lf token [] w p = p
  install_workflow_refs-keeps lf token (ref ∷ refs) w p = conclude_workflows-keeps lf _ _ p

  conclude_resources-keeps :
      (lf : LockFile) (r : Result String (Installed ResourceRefResult)) (w : Log)
      → P lf
      → P (conclude_resources api lf r w).0
  unfolding conclude_resources
  conclude_resources-keeps lf (err message) w p = p
  conclude_resources-keeps lf (ok installed) w p = elim (Bool-cases installed.changed) [
    | inl e ↦ rw e (reload_or-keeps lf _ p)
    | inr e ↦ rw e p
  ]

  install_resource_refs-keeps :
      (lf : LockFile) (token : String) (refs : List Types.ResourceRef) (w : Log)
      → P lf
      → P (install_resource_refs api lf token refs w).0
  unfolding install_resource_refs
  install_resource_refs-keeps lf token [] w p = p
  install_resource_refs-keeps lf token (ref ∷ refs) w p = conclude_resources-keeps lf _ _ p

  -- What holds of the lock file and of those that can be loaded holds of the one after the three.
  pub resolve_if_needed-loaded :
      (lf : LockFile) (def : Types.ClusterDefinition) (secrets_env : Map String) (w : Log)
      → P lf
      → P (resolve_if_needed api lf def secrets_env w).0
  unfolding resolve_if_needed resolve_workflow_if_needed resolve_resource_if_needed
  resolve_if_needed-loaded lf def secrets_env w p =
      install_resource_refs-keeps _ _ _ _
        (install_workflow_refs-keeps _ _ _ _ (resolve_module_if_needed-keeps lf _ _ _ w p))
