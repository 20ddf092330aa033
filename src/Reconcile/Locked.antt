-- ===== src/Reconcile/Locked.antt =====
-- The checks of internal/reconcile/manager.go that what a cluster refers to is in hyve.lock.
pub mod Hooks
use hyve.Prelude.{
  String, Bool, true, false, not, Option, none, some, List, [], ◌∷◌, ◌==◌, if◌then◌else◌, Result,
  ok, err, ◌>>=◌, is_some,
}
use hyve.Types.{ClusterDefinition, WorkflowRef, ResourceRef}
use hyve.Types.Refs.{is_remote, is_remote_resource}
use hyve.Lock.{LockFile, is_local_source, get_locked, get_locked_workflow, get_locked_resource}
use hyve.Workflowref
use hyve.Workflowref.{
  ParsedSource, PathKind, file, dir, parse_source, apply_path_override, classify_path,
  canonical_source,
}
use hyve.Reconcile.Refs.{is_host_cluster_without_driver, all_workflow_hook_refs}

-- Each names the cluster and the reference.
pub data Unlocked : Type 0 where
  no_driver : String → Unlocked
  module_not_locked : String → String → String → Unlocked
  bad_source : String → Workflowref.Error → Unlocked
  is_directory : String → String → Unlocked
  workflow_not_locked resource_not_locked : String → String → Unlocked

abbrev Check : Type 0
Check = Result Unlocked (Unit {0})

validate_driver_module_locked : ClusterDefinition → LockFile → Check
unfolding is_host_cluster_without_driver is_local_source
validate_driver_module_locked c lf =
    if c.spec.driver.source == ""
    then (if is_host_cluster_without_driver c then ok tt else err (no_driver c.metadata.name))
    else if is_local_source c.spec.driver.source
    then ok tt
    else if is_some (get_locked lf c.spec.driver.source c.spec.driver.version)
    then ok tt
    else err (module_not_locked c.metadata.name c.spec.driver.source c.spec.driver.version)

abbrev wrap {ℓ} : {A : Type ℓ} → String → Result Workflowref.Error A → Result Unlocked A
wrap name (ok a) = ok a
wrap name (err e) = err (bad_source name e)

check_kind : String → WorkflowRef → ParsedSource → LockFile → PathKind → Check
check_kind name ref ps lf dir = err (is_directory name ref.source)
check_kind name ref ps lf file =
    if is_some (get_locked_workflow lf (canonical_source ps) ps.version)
    then ok tt
    else err (workflow_not_locked name ref.source)

-- The body of the loop for one remote reference.
unfoldable pub check_hook_ref : String → LockFile → WorkflowRef → Check
unfolding check_kind
check_hook_ref name lf ref =
    if not (is_remote ref)
    then ok tt
    else wrap name (parse_source ref.source) >>= λ ps.
        let ps' = (apply_path_override ps ref.path).0 in
        wrap name (classify_path ps'.path) >>= λ kind. check_kind name ref ps' lf kind

unfoldable pub check_each {ℓ} : {A : Type ℓ} → (A → Check) → List A → Check
check_each check [] = ok tt
check_each check (x ∷ xs) = let rest = check_each check xs in (check x >>= λ _. rest)

unfoldable pub validate_workflow_refs_locked : ClusterDefinition → LockFile → Check
unfolding check_each
validate_workflow_refs_locked c lf =
    check_each (check_hook_ref c.metadata.name lf) (all_workflow_hook_refs c)

check_resource_kind : String → ResourceRef → ParsedSource → LockFile → PathKind → Check
check_resource_kind name ref ps lf dir = ok tt
check_resource_kind name ref ps lf file =
    if is_some (get_locked_resource lf (canonical_source ps) ps.version)
    then ok tt
    else err (resource_not_locked name ref.source)

check_resource_ref : String → LockFile → ResourceRef → Check
unfolding check_resource_kind
check_resource_ref name lf ref =
    if not (is_remote_resource ref)
    then ok tt
    else wrap name (parse_source ref.source) >>= λ ps.
        wrap name (classify_path ps.path) >>= λ kind. check_resource_kind name ref ps lf kind

validate_resource_refs_locked : ClusterDefinition → LockFile → Check
unfolding check_each check_resource_ref
validate_resource_refs_locked c lf =
    check_each (check_resource_ref c.metadata.name lf) c.spec.resources

-- The three checks in the order of `ReconcileOne` and of `ReconcileAll`.
unfoldable pub validate_locked : ClusterDefinition → LockFile → Check
unfolding validate_driver_module_locked validate_workflow_refs_locked validate_resource_refs_locked
validate_locked c lf = validate_driver_module_locked c lf >>= λ _.
    validate_workflow_refs_locked c lf >>= λ _. validate_resource_refs_locked c lf
