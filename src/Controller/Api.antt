-- ===== src/Controller/Api.antt =====
-- What internal/controller/reconciler.go uses and does not do itself: the client of the API
-- server, the retry on conflicts, the clock, the lock file on the disk and the resolvers. An
-- answer may depend on all that was done before.
use hyve.Prelude.{ℕ, String, Bool, Option, List, Result}
use hyve.Prelude.State.{State}
use hyve.Prelude.Maps.{Map}
use hyve.Types
use hyve.V1alpha1.{ClusterDefinition}
use hyve.V1alpha1.Records.{Module, WorkflowRefStatus, ResourceRefStatus}
use hyve.Lock.{LockFile}
pub use hyve.Workflowref.Install.{RefResult as WorkflowRefResult}
use hyve.Reconcile.World.{History}
use hyve.Reconcile.Host.{Host}
use hyve.Reconcile.Cluster.{Failure}

pub data ApiError : Type 0 where
  not_found conflict : ApiError
  rejected : String → ApiError

pub data Verb : Type 0 where
  create update update_status : Verb

pub data Action : Type 0 where
  -- Client.Update and Client.Status().Update of the ClusterDefinition, and whether it succeeded
  updated : ClusterDefinition → Bool → Action
  status_updated : ClusterDefinition → Bool → Action
  -- Client.Delete of a ClusterDefinition by its name
  deleted : String → Bool → Action
  -- a pass of the engine over a definition: its effects, and whether it returned no error
  reconciled : Types.ClusterDefinition → History → Bool → Action
  -- module.EnsureResolvedWithToken, workflowref.Install and resourceref.Install
  ensured : String → String → Action
  installed_workflows : List Types.WorkflowRef → Action
  installed_resources : List Types.ResourceRef → Action
  -- attempts to write a resource that records what was resolved
  wrote_module : Verb → Module → Action
  wrote_workflow : Verb → WorkflowRefStatus → Action
  wrote_resource : Verb → ResourceRefStatus → Action

-- The newest action first.
abbrev pub Log : Type 0
Log = List Action

abbrev pub M : Type 0 → Type 0
M A = State Log A

-- The client for one kind of resource: what it answers, the server's object where there is one.
pub record Client (A : Type 0) : Type 0 where
  pub get : String → Log → Result ApiError A
  pub on_create : A → Log → Result ApiError A
  pub on_update : A → Log → Result ApiError A
  pub on_update_status : A → Log → Result ApiError A

-- resourceref.RefResult; `error` is `none` for a nil error.
pub record ResourceRefResult : Type 0 where
  pub name : String
  pub canonical_source : String
  pub raw_version : String
  pub sha256 : String
  pub error : Option String

-- What an Install answers, as far as the controller reads it.
pub record Installed (A : Type 0) : Type 0 where
  pub results : List A
  pub changed : Bool

pub record Api : Type 0 where
  -- r.Client for the ClusterDefinition of the request
  pub get_cluster : Log → Result ApiError ClusterDefinition
  pub update_cluster : ClusterDefinition → Log → Option ApiError
  pub update_cluster_status : ClusterDefinition → Log → Option ApiError
  -- retry.RetryOnConflict
  pub retry_on_conflict : M (Option ApiError) → M (Option ApiError)
  -- r.Client for the resources that record what was resolved
  pub modules : Client Module
  pub workflow_ref_statuses : Client WorkflowRefStatus
  pub resource_ref_statuses : Client ResourceRefStatus
  -- the Secret hyve-cli-secrets, as the reader answers it
  pub get_secret : Log → Result ApiError (Map String)
  -- module.LoadLockFile and the resolvers, which write the lock file
  pub load_lock_file : Log → Result String LockFile
  pub ensure_resolved : String → String → String → Log → Option String
  pub install_workflows :
      List Types.WorkflowRef → String → Log → Result String (Installed WorkflowRefResult)
  pub install_resources :
      List Types.ResourceRef → String → Log → Result String (Installed ResourceRefResult)
  -- controllerutil.ContainsFinalizer, AddFinalizer and RemoveFinalizer
  pub contains_finalizer : ClusterDefinition → String → Bool
  pub add_finalizer : ClusterDefinition → String → ClusterDefinition
  pub remove_finalizer : ClusterDefinition → String → ClusterDefinition
  -- metav1.Now
  pub now : Log → ℕ
  -- what the engine is answered in its next pass, and the text of its error
  pub engine : Log → Host
  pub describe : Failure → String
