-- ===== src/Tests/Data.antt =====
-- Concrete definitions, and a host where everything succeeds.
use hyve.Prelude.{true, false, none, some, [], ◌∷◌}
use hyve.Types.{ClusterDefinition, WorkflowsSpec, ResourceRef, AppliedResource}
use hyve.Lock.{LockFile}
use hyve.Reconcile.World.{succeeded, failed, Executor}
use hyve.Reconcile.Host.{Host}
use hyve.Reconcile.Resources.{ResourceItem}
use hyve.Reconcile.Resources.Loop.{Loop, Prepared}

abbrev no_workflows : WorkflowsSpec
no_workflows = record {
  before_create = [];
  on_create = [];
  after_create = [];
  on_delete = [];
  after_delete = [];
  pre_reconcile = [];
}

abbrev app : ResourceRef
app = record {
  name = "app";
  source = "./app.yaml";
  namespace = "default";
  delete = true;
  helm = none;
  secret = none;
}

abbrev applied_app : AppliedResource
applied_app = record {
  source_sha256 = "old";
  helm = false;
  namespace = "default";
  applied_at = "2026-01-01T00:00:00Z";
  objects = [];
}

abbrev pub dev : ClusterDefinition
dev = record {
  api_version = "hyve.io/v1alpha1";
  kind = "ClusterDefinition";
  metadata = record { name = "team-dev"; region = "lon1"; environment = "team" };
  spec = record {
    driver = record { source = "./modules/civo"; version = "" };
    runner = record { image = "" };
    mgmt_cluster = "";
    params = ("nodes", "3") ∷ [];
    driver_outputs = ("ID", "7") ∷ [];
    workflows = no_workflows;
    resources = app ∷ [];
    applied_resources = ("app", applied_app) ∷ ("app/web", applied_app) ∷ [];
    pending_workflows = [];
    workflow_schedules = [];
    delete = false;
    pause = false;
    expires_at = "2026-02-01T00:00:00Z";
    depends_on = [];
    access_method = "";
    agent = record { enabled = false; proxy = false };
    applied_agent = none;
  };
}

-- With a driver that no lock file has.
abbrev pub unlocked : ClusterDefinition
unlocked = record dev {
  spec = record dev.spec { driver = record { source = "github.com/o/m"; version = "1.0" } };
}

abbrev pub dependent : ClusterDefinition
dependent = record dev { spec = record dev.spec { depends_on = "prod" ∷ [] } }

-- With a hook in a file of another repository.
abbrev pub remote_hooked : ClusterDefinition
remote_hooked = record dev {
  spec = record dev.spec {
    workflows = record no_workflows {
      on_create =
          record { name = ""; source = "github.com/o/r//hooks/seed.yaml@v1"; path = "" } ∷ [];
    };
  };
}

abbrev pub no_locks : LockFile
no_locks = record { version = 1; modules = []; workflows = []; resources = [] }

-- With that hook, by its canonical source and its version.
abbrev pub seed_locked : LockFile
seed_locked = record {
  version = 1;
  modules = [];
  workflows =
      (
        "github.com/o/r//hooks/seed.yaml@v1",
        record {
          name = "seed";
          source = "github.com/o/r//hooks/seed.yaml";
          resolved = "v1";
          sha256 = "ab";
        },
      )
      ∷ [];
  resources = [];
}

abbrev pub demo_host : Host
demo_host = record {
  resolve_module = λ def lf h. some "/cache/civo";
  load_manifest = λ def lf h. none;
  has_tool = λ tool h. true;
  execute = λ exec op env h.
      succeeded (record { outputs = ("HYVE_CLUSTER_STATUS", "ACTIVE") ∷ []; raw_output = "done" });
  has_workflows = λ h. true;
  fetch_workflow = λ ref lf token h. true;
  hook_output_vars = λ vars h. [];
  load_cluster_definitions = λ h. some (dev ∷ []);
  strict_resource_delete = λ h. some true;
  save_cluster_definition = λ def h. true;
  remove_cluster_file = λ name h. true;
  has_state_sidecar = λ name h. true;
  get_resource = λ name h. none;
  host_clusters = none;
  mint_host_kubeconfig = none;
  reconcile_agent = λ def env h. (def, true);
  is_dir_source = λ source. false;
  resolve_dir = λ source h. none;
  resolve_source = λ source lf h.
      some (record { canonical_source = source; sha256 = "new"; text = "kind: Pod" });
  render_helm = λ name helm env h. none;
  render_secret = λ name secret h. none;
  sha256 = λ text. text;
  kubectl_diff = λ text namespace env h. some false;
  kubectl_apply = λ text namespace env h. true;
  kubectl_delete_objects = λ objects env h. true;
  helm_upgrade_install = λ name helm env h. true;
  helm_uninstall = λ name namespace env h. true;
  helm_get_manifest = λ name namespace env h. none;
  parse_manifest_objects = λ text namespace. some [];
  now = λ h. "2026-03-01T00:00:00Z";
  is_past = λ time h. some true;
  to_upper = λ text. text;
  digest = λ params. "digest";
  has_module_runner = false;
  default_module_image = "hyve/module";
}

-- Where every operation of a module fails.
abbrev pub failing_host : Host
failing_host = record demo_host { execute = λ exec op env h. failed none "exit status 1" }

abbrev pub demo_executor : Executor
demo_executor = record {
  module_dir = "/cache/civo";
  cluster_name = "team-dev";
  image = "";
  mgmt_cluster = "";
}

abbrev pub app_item : ResourceItem
app_item = record { ref = app; orig_idx = 0; pre = none }

abbrev pub app_loop : Loop
app_loop = record {
  applied_resources = dev.spec.applied_resources;
  remove_idx = [];
  changed = false;
}

abbrev pub app_prepared : Prepared
app_prepared = record { config_hash = "new"; manifest = "kind: Pod"; namespace = "default" }
