-- ===== src/Reconcile/Host.antt =====
-- What internal/reconcile uses and does not do itself: the module executor, the workflow executor,
-- the state provider, kubectl, helm, the clock, and the settings of a `Reconciler`. Each answer
-- may depend on the history of effects.
use hyve.Prelude.{String, Bool, Option, List}
use hyve.Prelude.Maps.{Map}
use hyve.Types.{ClusterDefinition, WorkflowRef, HelmSpec, SecretSpec, AppliedObject}
use hyve.Lock.{LockFile}
use hyve.Reconcile.World.{History, Executor, Operation, Outcome, Env}

-- module.yaml, as far as the engine reads it.
pub record ModuleManifest : Type 0 where
  pub module_type : String
  pub mgmt_cluster : String
  pub tools : List String
  pub env : List String

-- A fetched manifest: its hash and its text.
pub record ResolvedResource : Type 0 where
  pub canonical_source : String
  pub sha256 : String
  pub text : String

pub record DirEntry : Type 0 where
  pub stem : String
  pub resolved : ResolvedResource

pub record Host : Type 0 where
  -- module.Resolve, module.LoadManifestForSource, exec.LookPath, Executor.Execute
  pub resolve_module : ClusterDefinition → LockFile → History → Option String
  pub load_manifest : ClusterDefinition → LockFile → History → Option ModuleManifest
  pub has_tool : String → History → Bool
  pub execute : Executor → Operation → Env → History → Outcome
  -- the workflow manager and executor: whether they can be made, whether a remote workflow is
  -- resolved and parsed, and the variables that the run hooks print; a hook's outcome is only logged
  pub has_workflows : History → Bool
  pub fetch_workflow : WorkflowRef → LockFile → String → History → Bool
  pub hook_output_vars : Map String → History → Map String
  -- StateProvider
  pub load_cluster_definitions : History → Option (List ClusterDefinition)
  pub strict_resource_delete : History → Option Bool
  pub save_cluster_definition : ClusterDefinition → History → Bool
  pub remove_cluster_file : String → History → Bool
  pub has_state_sidecar : String → History → Bool
  pub get_resource : String → History → Option String
  -- Reconciler.HostClusters and HostKubeconfigIssuer (`none` if nil; the latter answers with the
  -- path of the file it is written to), reconcileAgent
  pub host_clusters : Option (History → Option (List ClusterDefinition × Bool))
  pub mint_host_kubeconfig : Option (History → Option String)
  pub reconcile_agent : ClusterDefinition → Env → History → ClusterDefinition × Bool
  -- resourceref, helm and kubectl
  pub is_dir_source : String → Bool
  pub resolve_dir : String → History → Option (List DirEntry)
  pub resolve_source : String → LockFile → History → Option ResolvedResource
  pub render_helm : String → HelmSpec → Env → History → Option (String × String)
  pub render_secret : String → SecretSpec → History → Option (String × String)
  pub sha256 : String → String
  pub kubectl_diff : String → String → Env → History → Option Bool
  pub kubectl_apply : String → String → Env → History → Bool
  pub kubectl_delete_objects : List AppliedObject → Env → History → Bool
  pub helm_upgrade_install : String → HelmSpec → Env → History → Bool
  pub helm_uninstall : String → String → Env → History → Bool
  pub helm_get_manifest : String → String → Env → History → Option String
  pub parse_manifest_objects : String → String → Option (List AppliedObject)
  -- time.Now, and whether an RFC 3339 time (`none` if it is none) is in the past
  pub now : History → String
  pub is_past : String → History → Option Bool
  -- strings.ToUpper, and the hash of a map's JSON
  pub to_upper : String → String
  pub digest : Map String → String
  -- fields of Reconciler: whether ModuleRunner is set, DefaultModuleImage
  pub has_module_runner : Bool
  pub default_module_image : String
