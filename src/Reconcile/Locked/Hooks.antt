-- ===== src/Reconcile/Locked/Hooks.antt =====
-- What the checks of the lock file mean for the hooks that run later.
use native.Mathlib.Omega.{arith}
use hyve.Prelude.{String, Bool, true, not, List, [], ◌∷◌, ◌≡◌, refl, ◌||◌, all, ok}
use hyve.Types.{ClusterDefinition, WorkflowRef}
use hyve.Types.Refs.{is_remote}
use hyve.Lock.{LockFile}
use hyve.Reconcile.Refs.{all_workflow_hook_refs}
use hyve.Reconcile.Locked.{check_hook_ref, check_each, validate_workflow_refs_locked}
use hyve.Reconcile.Hooks.{is_single_file}

-- A remote hook's source that parses to one file.
abbrev pub is_runnable : WorkflowRef → Bool
is_runnable ref = not (is_remote ref) || is_single_file ref

check_hook_ref-is_runnable :
    (name : String) (lf : LockFile) (ref : WorkflowRef)
    → check_hook_ref name lf ref ≡ ok tt
    → is_runnable ref ≡ true
unfolding check_hook_ref is_single_file
check_hook_ref-is_runnable name lf ref e = ground (arith, e)

check_each-is_runnable :
    (name : String) (lf : LockFile) (refs : List WorkflowRef)
    → check_each (check_hook_ref name lf) refs ≡ ok tt
    → all is_runnable refs ≡ true
unfolding check_each
check_each-is_runnable name lf [] e = refl
check_each-is_runnable name lf (ref ∷ refs) e =
    ground (arith, e, check_hook_ref-is_runnable name lf ref, check_each-is_runnable name lf refs)

-- If the workflow references of a cluster pass the check, none of its hooks of any phase is later
-- refused for its source: each is local, or its source parses and names one file.
pub validate_workflow_refs_locked-is_runnable :
    (c : ClusterDefinition) (lf : LockFile)
    → validate_workflow_refs_locked c lf ≡ ok tt
    → all is_runnable (all_workflow_hook_refs c) ≡ true
unfolding validate_workflow_refs_locked
validate_workflow_refs_locked-is_runnable c lf e =
    check_each-is_runnable c.metadata.name lf (all_workflow_hook_refs c) e
