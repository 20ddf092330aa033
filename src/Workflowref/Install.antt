-- ===== src/Workflowref/Install.antt =====
-- `Install` and `Update` of internal/workflowref/orchestration.go: remote workflows are resolved
-- and recorded in the lock file. What fetches them, and the files they come from, is a parameter.
pub mod Locks
use hyve.Prelude.{
  String, Bool, true, false, not, ◌&&◌, Option, none, some, is_some, List, [], ◌∷◌, ◌++◌, ◌==◌,
  if◌then◌else◌, Result, ok, err,
}
use hyve.Prelude.Text.{◌<>◌}
use hyve.Prelude.Maps.{Map, lookup, insert}
use hyve.Types.{WorkflowRef}
use hyve.Types.Refs.{label}
use hyve.Lock.{LockFile, LockedWorkflow, get_locked_workflow, set_locked_workflow}

-- internal/workflowref/types.go, less the bytes of the file.
pub record ResolvedWorkflowFile : Type 0 where
  pub canonical_source : String
  pub raw_version : String
  pub resolved_version : String
  pub name : String
  pub resolved : String
  pub sha256 : String

pub record NameCollision : Type 0 where
  pub name : String
  pub first_source : String
  pub collided_source : String

pub record LockedRef : Type 0 where
  pub canonical_source : String
  pub raw_version : String
  pub name : String
  pub sha256 : String

-- `error` is `none` for a nil error.
pub record RefResult : Type 0 where
  pub name : String
  pub canonical_source : String
  pub raw_version : String
  pub resolved_version : String
  pub sha256 : String
  pub error : Option String

-- The variables of the loop; the lists are in the order of the code.
pub record Run : Type 0 where
  pub lf : LockFile
  pub name_owner : Map String
  pub locked : List LockedRef
  pub collisions : List NameCollision
  pub resolve_errors : List String
  pub results : List RefResult
  pub changed : Bool

abbrev pub start : LockFile → Run
start lf = record {
  lf = lf;
  name_owner = [];
  locked = [];
  collisions = [];
  resolve_errors = [];
  results = [];
  changed = false;
}

-- The collisions after a file, with the source that the name was first seen under.
collide : List NameCollision → ResolvedWorkflowFile → Option String → List NameCollision
collide collisions f none = collisions
collide collisions f (some owner) =
    if owner == f.canonical_source
    then collisions
    else collisions
      ++ (record { name = f.name; first_source = owner; collided_source = f.canonical_source } ∷ [])

unfoldable pub entry_of : ResolvedWorkflowFile → LockedWorkflow
entry_of f = record {
  name = f.name;
  source = f.canonical_source;
  resolved = f.resolved;
  sha256 = f.sha256;
}

locked_ref : ResolvedWorkflowFile → LockedRef
locked_ref f = record {
  canonical_source = f.canonical_source;
  raw_version = f.raw_version;
  name = f.name;
  sha256 = f.sha256;
}

unfoldable pub same_content : ResolvedWorkflowFile → Option LockedWorkflow → Bool
same_content f none = false
same_content f (some existing) = existing.sha256 == f.sha256

-- The body for one file, before the lock is looked at.
unfoldable pub note_file : ResolvedWorkflowFile → Run → Run
unfolding collide
note_file f run = record run {
  collisions = collide run.collisions f (lookup f.name run.name_owner);
  name_owner = insert f.name f.canonical_source run.name_owner;
  results =
      run.results
      ++ (record {
        name = f.name;
        canonical_source = f.canonical_source;
        raw_version = f.raw_version;
        resolved_version = f.resolved_version;
        sha256 = f.sha256;
        error = none;
      }
          ∷ []);
}

unfoldable pub lock_file : ResolvedWorkflowFile → Run → Run
unfolding locked_ref
lock_file f run = record run {
  lf = set_locked_workflow run.lf f.canonical_source f.raw_version (entry_of f);
  locked = run.locked ++ (locked_ref f ∷ []);
  changed = true;
}

unfoldable pub install_file : ResolvedWorkflowFile → Run → Run
unfolding note_file lock_file same_content
install_file f run =
    let noted = note_file f run in
    if same_content f (get_locked_workflow run.lf f.canonical_source f.raw_version)
    then noted
    else lock_file f noted

unfoldable pub install_files : List ResolvedWorkflowFile → Run → Run
install_files [] run = run
install_files (f ∷ files) run = install_files files (install_file f run)

unfoldable pub note_failure : WorkflowRef → String → Run → Run
unfolding label
note_failure ref message run = record run {
  resolve_errors = run.resolve_errors ++ ((label ref <> (": " <> message)) ∷ []);
  results =
      run.results
      ++ (record {
        name = "";
        canonical_source = ref.source;
        raw_version = "";
        resolved_version = "";
        sha256 = "";
        error = some message;
      }
          ∷ []);
}

-- With what Resolve answers.
unfoldable pub install_ref : WorkflowRef → Result String (List ResolvedWorkflowFile) → Run → Run
install_ref ref (err message) run = note_failure ref message run
install_ref ref (ok files) run = install_files files run

pub data InstallError : Type 0 where
  lock_not_loaded lock_not_saved : InstallError

-- Resolve, whose answer may depend on the lock file, and SaveLockFile.
module _ (resolve : String → String → LockFile → String → Result String (List ResolvedWorkflowFile))
    (save_lock_file : LockFile → Bool) where
  unfoldable pub install_refs : String → List WorkflowRef → Run → Run
  install_refs token [] run = run
  install_refs token (ref ∷ refs) run =
      install_refs token refs (install_ref ref (resolve ref.source ref.path run.lf token) run)

  -- The results are returned also where the lock file cannot be saved.
  unfoldable pub conclude_install : Run → Run × Option InstallError
  conclude_install run =
      if not run.changed
      then (record run { locked = [] }, none)
      else if save_lock_file run.lf
      then (run, none)
      else (record run { locked = []; changed = false }, some lock_not_saved)

  -- With the lock file as it is loaded; the lock file on the disk is that of the run if it is
  -- changed.
  unfoldable pub install : Option LockFile → List WorkflowRef → String → Run × Option InstallError
  install none refs token = (
    start (record { version = 0; modules = []; workflows = []; resources = [] }),
    some lock_not_loaded,
  )
  install (some lf) refs token = conclude_install (install_refs token refs (start lf))
