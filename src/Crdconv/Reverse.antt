-- ===== src/Crdconv/Reverse.antt =====
-- internal/crdconv/totypes_reverse.go, and `FromTypesStatus` of clusterdefinition.go: from the
-- shared shapes back to the custom resource.
use hyve.Prelude.{String, false, not, ◌&&◌, Option, none, some, List, [], ◌∷◌, map, if◌then◌else◌}
use hyve.Prelude.Maps.{Map}
use hyve.Types
use hyve.V1alpha1

unfoldable pub from_types_agent_spec : Types.AgentSpec → Option V1alpha1.AgentSpec
from_types_agent_spec a =
    if not a.enabled && not a.proxy
    then none
    else some (record { enabled = a.enabled; proxy = a.proxy })

unfoldable pub from_types_applied_agent : Option Types.AppliedAgent → Option V1alpha1.AppliedAgent
from_types_applied_agent none = none
from_types_applied_agent (some a) =
    some (record { config_hash = a.config_hash; applied_at = a.applied_at })

unfoldable pub from_types_driver_ref : Types.DriverRef → V1alpha1.DriverRef
from_types_driver_ref d = record { source = d.source; version = d.version }

unfoldable pub from_types_workflow_ref : Types.WorkflowRef → V1alpha1.WorkflowRef
from_types_workflow_ref r = record { name = r.name; source = r.source; path = r.path }

unfoldable pub from_types_workflow_refs : List Types.WorkflowRef → List V1alpha1.WorkflowRef
from_types_workflow_refs rs = map from_types_workflow_ref rs

unfoldable pub from_types_workflows_spec : Types.WorkflowsSpec → V1alpha1.WorkflowsSpec
from_types_workflows_spec w = record {
  before_create = from_types_workflow_refs w.before_create;
  on_create = from_types_workflow_refs w.on_create;
  after_create = from_types_workflow_refs w.after_create;
  on_delete = from_types_workflow_refs w.on_delete;
  after_delete = from_types_workflow_refs w.after_delete;
  pre_reconcile = from_types_workflow_refs w.pre_reconcile;
}

unfoldable pub from_types_helm_spec : Option Types.HelmSpec → Option V1alpha1.HelmSpec
from_types_helm_spec none = none
from_types_helm_spec (some h) = some (record {
  chart = h.chart;
  repo = h.repo;
  version = h.version;
  namespace = h.namespace;
  values = h.values;
})

-- The loop body over `s.Keys`.
unfoldable pub from_types_key : Types.SecretKeyRef → V1alpha1.SecretKeyRef
from_types_key k = record { env = k.env; key = k.key }

unfoldable pub from_types_secret_spec : Option Types.SecretSpec → Option V1alpha1.SecretSpec
from_types_secret_spec none = none
from_types_secret_spec (some s) =
    some (record { namespace = s.namespace; kind = s.kind; keys = map from_types_key s.keys })

-- The loop body of `FromTypesResourceRefs`.
unfoldable pub from_types_resource_ref : Types.ResourceRef → V1alpha1.ResourceRef
from_types_resource_ref r = record {
  name = r.name;
  source = r.source;
  namespace = r.namespace;
  delete = r.delete;
  helm = from_types_helm_spec r.helm;
  secret = from_types_secret_spec r.secret;
}

unfoldable pub from_types_resource_refs : List Types.ResourceRef → List V1alpha1.ResourceRef
from_types_resource_refs rs = map from_types_resource_ref rs

unfoldable pub from_types_applied_object : Types.AppliedObject → V1alpha1.AppliedObject
from_types_applied_object o = record {
  api_version = o.api_version;
  kind = o.kind;
  namespace = o.namespace;
  name = o.name;
}

-- The loop body of `FromTypesStatus`.
unfoldable pub from_types_applied_resource : Types.AppliedResource → V1alpha1.AppliedResource
from_types_applied_resource v = record {
  source_sha256 = v.source_sha256;
  helm = v.helm;
  namespace = v.namespace;
  applied_at = v.applied_at;
  objects = map from_types_applied_object v.objects;
}

unfoldable pub from_types_applied_resources :
    Map Types.AppliedResource → Map V1alpha1.AppliedResource
from_types_applied_resources [] = []
from_types_applied_resources ((k, v) ∷ m) =
    (k, from_types_applied_resource v) ∷ from_types_applied_resources m

from_types_status :
    Types.ClusterDefinition
    → Map String × Map V1alpha1.AppliedResource × Option V1alpha1.AppliedAgent
from_types_status def = (
  def.spec.driver_outputs,
  from_types_applied_resources def.spec.applied_resources,
  from_types_applied_agent def.spec.applied_agent,
)

unfoldable pub from_types_cluster_definition_spec :
    Types.ClusterDefinition → V1alpha1.ClusterDefinitionSpec
from_types_cluster_definition_spec def = record {
  region = def.metadata.region;
  driver = from_types_driver_ref def.spec.driver;
  runner = record { image = def.spec.runner.image };
  mgmt_cluster = def.spec.mgmt_cluster;
  params = def.spec.params;
  workflows = from_types_workflows_spec def.spec.workflows;
  resources = from_types_resource_refs def.spec.resources;
  delete = def.spec.delete;
  pause = def.spec.pause;
  expires_at = def.spec.expires_at;
  depends_on = def.spec.depends_on;
  access = record { method = def.spec.access_method; agent = from_types_agent_spec def.spec.agent };
}

unfoldable pub from_types_cluster_definition_status :
    Types.ClusterDefinition → V1alpha1.ClusterDefinitionStatus
unfolding from_types_status
from_types_cluster_definition_status def =
    let (driver_outputs, applied, applied_agent) = from_types_status def in
    record {
      driver_outputs = driver_outputs;
      applied_resources = applied;
      applied_agent = applied_agent;
      phase = "";
      conditions = [];
      observed_generation = 0;
      access = record { method = "" };
      last_create_output = "";
      last_delete_output = "";
      agent = record {
        connected = false;
        last_connected_at = "";
        last_disconnected_at = "";
        version = "";
      };
    }
