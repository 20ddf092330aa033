-- ===== src/Reconcile/World.antt =====
-- What internal/reconcile does outside its own memory, as a history of effects, and what it is
-- answered. An answer may depend on all that was done before, so a `Host` stands for any state of
-- the cloud, the cluster, the disk and the clock. Log lines are left out.
use hyve.Prelude.{String, Bool, Option, List}
use hyve.Prelude.State.{State}
pub use hyve.Prelude.State.{◌>>=◌, ◌>>◌, pure, call, ask, act}
use hyve.Prelude.Maps.{Map}
use hyve.Types.{ClusterDefinition, WorkflowRef}

pub data Operation : Type 0 where
  create delete status auth scale describe : Operation

pub record OperationResult : Type 0 where
  pub outputs : Map String
  pub raw_output : String

-- A failed operation may come with a result too.
pub data Outcome : Type 0 where
  succeeded : OperationResult → Outcome
  failed : Option OperationResult → String → Outcome

-- module.Executor, less the environment and the locator of the management cluster.
pub record Executor : Type 0 where
  pub module_dir : String
  pub cluster_name : String
  pub image : String
  pub mgmt_cluster : String

abbrev pub Env : Type 0
Env = List String

pub data Effect : Type 0 where
  -- a module operation for the named cluster, and whether it succeeded
  ran : String → Operation → Bool → Effect
  -- a hook workflow for the named cluster
  hook : String → WorkflowRef → Effect
  -- the state provider
  loaded : Effect
  saved : ClusterDefinition → Bool → Effect
  removed : String → Bool → Effect
  -- the callbacks of ReconcileHooks
  event : String → String → Effect
  reported : String → Effect
  output : Operation → String → Effect
  -- the local kubeconfig file
  deduplicated : String → Effect
  minted : Effect
  -- hyve-agent's reconciliation for the named cluster
  agent : String → Effect
  -- kubectl and helm, by resource name
  diffed applied uninstalled objects_deleted upgraded : String → Effect

-- The newest effect first.
abbrev pub History : Type 0
History = List Effect

-- A computation that acts, and one that may also fail.
abbrev pub M : Type 0 → Type 0
M A = State History A
