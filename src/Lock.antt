-- ===== src/Lock.antt =====
-- internal/module/lock.go, with the types of internal/module/types.go: the lock file hyve.lock,
-- three maps from "source@version" to what was resolved.
pub mod Keys
pub mod Entries
pub mod Ensure
pub mod Names
use hyve.Prelude.{
  ℕ, String, Bool, Option, none, some, List, [], ◌∷◌, ◌||◌, ◌==◌, if◌then◌else◌, Result, ok, err,
  ◌>>=◌,
}
use hyve.Prelude.Text.{◌<>◌, cut_last}
use hyve.Prelude.Maps.{Map, lookup, insert, erase}
use text.Mathlib.Text.{starts_with}

pub record LockedRunner : Type 0 where
  pub image : String
  pub digest : String

pub record LockedModule : Type 0 where
  pub source : String
  pub resolved : String
  pub sha256 : String
  pub runner : LockedRunner

pub record LockedWorkflow : Type 0 where
  pub name : String
  pub source : String
  pub resolved : String
  pub sha256 : String

pub record LockedResource : Type 0 where
  pub name : String
  pub source : String
  pub resolved : String
  pub sha256 : String

pub record LockFile : Type 0 where
  pub version : ℕ
  pub modules : Map LockedModule
  pub workflows : Map LockedWorkflow
  pub resources : Map LockedResource

pub lock_key : String → String → String
lock_key source version = source <> ("@" <> version)

unfoldable pub get_locked : LockFile → String → String → Option LockedModule
unfolding lock_key lookup
get_locked lf source version = lookup (lock_key source version) lf.modules

pub set_locked : LockFile → String → String → LockedModule → LockFile
unfolding lock_key insert
set_locked lf source version m = record lf {
  modules = insert (lock_key source version) m lf.modules;
}

pub remove_locked : LockFile → String → String → LockFile
unfolding lock_key erase
remove_locked lf source version = record lf { modules = erase (lock_key source version) lf.modules }

unfoldable pub get_locked_workflow : LockFile → String → String → Option LockedWorkflow
unfolding lock_key lookup
get_locked_workflow lf source version = lookup (lock_key source version) lf.workflows

unfoldable pub set_locked_workflow : LockFile → String → String → LockedWorkflow → LockFile
unfolding lock_key insert
set_locked_workflow lf source version w = record lf {
  workflows = insert (lock_key source version) w lf.workflows;
}

unfoldable remove_locked_workflow : LockFile → String → String → LockFile
unfolding lock_key erase
remove_locked_workflow lf source version = record lf {
  workflows = erase (lock_key source version) lf.workflows;
}

unfoldable pub get_locked_resource : LockFile → String → String → Option LockedResource
unfolding lock_key lookup
get_locked_resource lf source version = lookup (lock_key source version) lf.resources

unfoldable set_locked_resource : LockFile → String → String → LockedResource → LockFile
unfolding lock_key insert
set_locked_resource lf source version r = record lf {
  resources = insert (lock_key source version) r lf.resources;
}

unfoldable remove_locked_resource : LockFile → String → String → LockFile
unfolding lock_key erase
remove_locked_resource lf source version = record lf {
  resources = erase (lock_key source version) lf.resources;
}

pub split_lock_key : String → String × String
unfolding cut_last
split_lock_key key = elim (cut_last b'@' key) [ none ↦ (key, "") | some parts ↦ parts ]

-- What a reference to a locked workflow of a given name is found as.
pub record LockedWorkflowMatch : Type 0 where
  pub source : String
  pub version : String
  pub locked : LockedWorkflow

find_workflows : String → Map LockedWorkflow → List LockedWorkflowMatch
unfolding split_lock_key
find_workflows name [] = []
find_workflows name ((key, w) ∷ ws) =
    let rest = find_workflows name ws in
    let (source, version) = split_lock_key key in
    if w.name == name
    then record { source = source; version = version; locked = w } ∷ rest
    else rest

unfoldable find_locked_workflows_by_name : LockFile → String → List LockedWorkflowMatch
unfolding find_workflows
find_locked_workflows_by_name lf name = find_workflows name lf.workflows

pub record LockedResourceMatch : Type 0 where
  pub source : String
  pub version : String
  pub locked : LockedResource

find_resources : String → Map LockedResource → List LockedResourceMatch
unfolding split_lock_key
find_resources name [] = []
find_resources name ((key, r) ∷ rs) =
    let rest = find_resources name rs in
    let (source, version) = split_lock_key key in
    if r.name == name
    then record { source = source; version = version; locked = r } ∷ rest
    else rest

unfoldable find_locked_resources_by_name : LockFile → String → List LockedResourceMatch
unfolding find_resources
find_locked_resources_by_name lf name = find_resources name lf.resources

-- `IsLocalSource` of internal/module/resolver.go.
unfoldable pub is_local_source : String → Bool
is_local_source source =
    starts_with source "./" || starts_with source "../" || starts_with source "/"

-- `ResolvedModule` of internal/module/resolver.go.
pub record ResolvedModule : Type 0 where
  pub dir : String
  pub sha256 : String
  pub resolved : String
  pub runner : LockedRunner
  pub version : String

pub data Error : Type 0 where
  load_failed resolve_failed save_failed : Error

-- hyve.lock on disk: `none` if it is there and cannot be read or parsed.
pub record Disk : Type 0 where
  pub lock_file : Option LockFile
  pub writable : Bool

load : Disk → Result Error LockFile
load d = elim d.lock_file [ none ↦ err load_failed | some lf ↦ ok lf ]

-- `SaveLockFile` writes a temporary file and renames it, so a failure leaves the old one.
save : LockFile → Disk → Result Error Disk
save lf d = if d.writable then ok (record d { lock_file = some lf }) else err save_failed

-- `EnsureResolvedWithToken`; the resolver is what fetches the module, or fails.
module _ (resolve : String → String → Option ResolvedModule) where
  resolve_and_lock : LockFile → String → String → Disk → Result Error (LockedModule × Disk)
  unfolding save set_locked
  resolve_and_lock lf source version d = elim (resolve source version) [
    | none ↦ err resolve_failed
    | some r ↦
        let entry : LockedModule = record {
          source = source;
          resolved = r.resolved;
          sha256 = r.sha256;
          runner = r.runner;
        } in
        (save (set_locked lf source version entry) d >>= λ d'. ok (entry, d'))
  ]

  unfoldable pub ensure_resolved : String → String → Disk → Result Error (LockedModule × Disk)
  unfolding load resolve_and_lock get_locked
  ensure_resolved source version d = load d >>= λ lf. elim (get_locked lf source version) [
    | some locked ↦ ok (locked, d)
    | none ↦ resolve_and_lock lf source version d
  ]
