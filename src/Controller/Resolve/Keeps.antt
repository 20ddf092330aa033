-- ===== src/Controller/Resolve/Keeps.antt =====
-- What the resolution of references in internal/controller/reconciler.go leaves true of the log.
use hyve.Prelude.{
  String, Bool, true, false, ◌||◌, Option, none, some, is_some, List, [], ◌∷◌, ◌==◌, ◌≡◌, refl,
  Result, ok, err, Bool-cases, inl, inr,
}
use hyve.Prelude.Maps.{Map}
use hyve.Types
use hyve.Lock.{LockFile, get_locked}
use hyve.Controller.Api.{
  Action, Log, M, Api, WorkflowRefResult, ResourceRefResult, Installed, updated, status_updated,
  deleted, reconciled, installed_workflows, installed_resources,
}
use hyve.Controller.Upsert.{
  upsert_module_cr, upsert_workflow_ref_status_cr, upsert_resource_ref_status_cr,
}
use hyve.Controller.Upsert.Keeps.{upsert-keeps}
use hyve.Controller.Resolve.{
  for_each, reload_or, conclude_reload, conclude_ensure, resolve_module_if_needed,
  conclude_workflows, install_workflow_refs, resolve_workflow_if_needed, conclude_resources,
  install_resource_refs, resolve_resource_if_needed, resolve_if_needed,
}

-- An action on neither the ClusterDefinition nor the cluster behind it.
abbrev pub is_aside : Action → Bool
is_aside (updated cr done) = false
is_aside (status_updated cr done) = false
is_aside (reconciled def h done) = false
is_aside (deleted name done) = false
is_aside _ = true

module _ (api : Api) (P : Log → Type 0)
    (aside : (a : Action) (w : Log) → is_aside a ≡ true → P w → P (a ∷ w)) where
  for_each-keeps :
      {A : Type 0} (body : A → M (Unit {0}))
      → ((a : A) (w : Log) → P w → P (body a w).1)
      → (items : List A) (w : Log) → P w
      → P (for_each body items w).1
  unfolding for_each
  for_each-keeps body step [] w h = h
  for_each-keeps body step (a ∷ items) w h = for_each-keeps body step items _ (step a w h)

  reload_or-keeps : (lf : LockFile) (w : Log) → P w → P (reload_or api lf w).1
  unfolding reload_or
  reload_or-keeps lf w h = h

  conclude_reload-keeps :
      (lf : LockFile) (source version : String) (r : Result String LockFile) (w : Log)
      → P w
      → P (conclude_reload api lf source version r w).1
  unfolding conclude_reload upsert_module_cr
  conclude_reload-keeps lf source version (err message) w h = h
  conclude_reload-keeps lf source version (ok reloaded) w h =
      upsert-keeps _ P (λ v obj w' h'. aside _ w' refl h') _ w h

  conclude_ensure-keeps :
      (lf : LockFile) (source version : String) (r : Option String) (w : Log)
      → P w
      → P (conclude_ensure api lf source version r w).1
  unfolding conclude_ensure upsert_module_cr
  conclude_ensure-keeps lf source version (some message) w h =
      upsert-keeps _ P (λ v obj w' h'. aside _ w' refl h') _ w h
  conclude_ensure-keeps lf source version none w h = conclude_reload-keeps lf source version _ w h

  resolve_module_if_needed-keeps :
      (lf : LockFile) (source version token : String) (w : Log)
      → P w
      → P (resolve_module_if_needed api lf source version token w).1
  unfolding resolve_module_if_needed
  resolve_module_if_needed-keeps lf source version token w h =
      elim (Bool-cases (source == "" || is_some (get_locked lf source version))) [
        | inl e ↦ rw e h
        | inr e ↦ rw e (conclude_ensure-keeps lf source version _ _ (aside _ w refl h))
      ]

  conclude_workflows-keeps :
      (lf : LockFile) (r : Result String (Installed WorkflowRefResult)) (w : Log)
      → P w
      → P (conclude_workflows api lf r w).1
  unfolding conclude_workflows upsert_workflow_ref_status_cr
  conclude_workflows-keeps lf (err message) w h = h
  conclude_workflows-keeps lf (ok installed) w h = elim (Bool-cases installed.changed) [
    | inl e ↦ rw e (reload_or-keeps lf _ mirrored)
    | inr e ↦ rw e mirrored
  ]
    where
      mirrored : P (for_each (upsert_workflow_ref_status_cr api) installed.results w).1
      mirrored =
          for_each-keeps _
            (λ res w' h'. upsert-keeps _ P (λ v obj w'' h''. aside _ w'' refl h'') _ w' h')
            installed.results w h

  install_workflow_refs-keeps :
      (lf : LockFile) (token : String) (refs : List Types.WorkflowRef) (w : Log)
      → P w
      → P (install_workflow_refs api lf token refs w).1
  unfolding install_workflow_refs
  install_workflow_refs-keeps lf token [] w h = h
  install_workflow_refs-keeps lf token (ref ∷ refs) w h =
      conclude_workflows-keeps lf _ _ (aside (installed_workflows (ref ∷ refs)) w refl h)

  conclude_resources-keeps :
      (lf : LockFile) (r : Result String (Installed ResourceRefResult)) (w : Log)
      → P w
      → P (conclude_resources api lf r w).1
  unfolding conclude_resources upsert_resource_ref_status_cr
  conclude_resources-keeps lf (err message) w h = h
  conclude_resources-keeps lf (ok installed) w h = elim (Bool-cases installed.changed) [
    | inl e ↦ rw e (reload_or-keeps lf _ mirrored)
    | inr e ↦ rw e mirrored
  ]
    where
      mirrored : P (for_each (upsert_resource_ref_status_cr api) installed.results w).1
      mirrored =
          for_each-keeps _
            (λ res w' h'. upsert-keeps _ P (λ v obj w'' h''. aside _ w'' refl h'') _ w' h')
            installed.results w h

  install_resource_refs-keeps :
      (lf : LockFile) (token : String) (refs : List Types.ResourceRef) (w : Log)
      → P w
      → P (install_resource_refs api lf token refs w).1
  unfolding install_resource_refs
  install_resource_refs-keeps lf token [] w h = h
  install_resource_refs-keeps lf token (ref ∷ refs) w h =
      conclude_resources-keeps lf _ _ (aside (installed_resources (ref ∷ refs)) w refl h)

  -- What holds of the log and survives actions aside still holds after the three.
  pub resolve_if_needed-keeps :
      (lf : LockFile) (def : Types.ClusterDefinition) (secrets_env : Map String) (w : Log)
      → P w
      → P (resolve_if_needed api lf def secrets_env w).1
  unfolding resolve_if_needed resolve_workflow_if_needed resolve_resource_if_needed
  resolve_if_needed-keeps lf def secrets_env w h =
      install_resource_refs-keeps _ _ _ _
        (install_workflow_refs-keeps _ _ _ _ (resolve_module_if_needed-keeps lf _ _ _ w h))
