-- ===== src/Crdconv/Forward.antt =====
-- internal/crdconv/clusterdefinition.go: from the custom resource to the shared shapes.
use hyve.Prelude.{is_some, false, ◌||◌, Option, none, some, List, [], ◌∷◌, map}
use hyve.Prelude.Maps.{Map, get_or_empty}
use hyve.Types
use hyve.V1alpha1

unfoldable pub to_types_agent_spec : Option V1alpha1.AgentSpec → Types.AgentSpec
to_types_agent_spec none = record { enabled = false; proxy = false }
to_types_agent_spec (some a) = record { enabled = a.enabled; proxy = a.proxy }

unfoldable pub to_types_applied_agent : Option V1alpha1.AppliedAgent → Option Types.AppliedAgent
to_types_applied_agent none = none
to_types_applied_agent (some a) =
    some (record { config_hash = a.config_hash; applied_at = a.applied_at })

unfoldable pub to_types_driver_ref : V1alpha1.DriverRef → Types.DriverRef
to_types_driver_ref d = record { source = d.source; version = d.version }

unfoldable pub to_types_workflow_ref : V1alpha1.WorkflowRef → Types.WorkflowRef
to_types_workflow_ref r = record { name = r.name; source = r.source; path = r.path }

unfoldable pub to_types_workflow_refs : List V1alpha1.WorkflowRef → List Types.WorkflowRef
to_types_workflow_refs rs = map to_types_workflow_ref rs

unfoldable pub to_types_workflows_spec : V1alpha1.WorkflowsSpec → Types.WorkflowsSpec
to_types_workflows_spec w = record {
  before_create = to_types_workflow_refs w.before_create;
  on_create = to_types_workflow_refs w.on_create;
  after_create = to_types_workflow_refs w.after_create;
  on_delete = to_types_workflow_refs w.on_delete;
  after_delete = to_types_workflow_refs w.after_delete;
  pre_reconcile = to_types_workflow_refs w.pre_reconcile;
}

unfoldable pub to_types_helm_spec : Option V1alpha1.HelmSpec → Option Types.HelmSpec
to_types_helm_spec none = none
to_types_helm_spec (some h) = some (record {
  chart = h.chart;
  repo = h.repo;
  version = h.version;
  namespace = h.namespace;
  values = h.values;
})

-- The loop body over `s.Keys`.
unfoldable pub to_types_key : V1alpha1.SecretKeyRef → Types.SecretKeyRef
to_types_key k = record { env = k.env; key = k.key }

unfoldable pub to_types_secret_spec : Option V1alpha1.SecretSpec → Option Types.SecretSpec
to_types_secret_spec none = none
to_types_secret_spec (some s) =
    some (record { namespace = s.namespace; kind = s.kind; keys = map to_types_key s.keys })

-- The loop body of `ToTypesResourceRefs`.
unfoldable pub to_types_resource_ref : V1alpha1.ResourceRef → Types.ResourceRef
to_types_resource_ref r = record {
  name = r.name;
  source = r.source;
  namespace = r.namespace;
  delete = r.delete;
  helm = to_types_helm_spec r.helm;
  secret = to_types_secret_spec r.secret;
}

unfoldable pub to_types_resource_refs : List V1alpha1.ResourceRef → List Types.ResourceRef
to_types_resource_refs rs = map to_types_resource_ref rs

unfoldable pub to_types_applied_object : V1alpha1.AppliedObject → Types.AppliedObject
to_types_applied_object o = record {
  api_version = o.api_version;
  kind = o.kind;
  namespace = o.namespace;
  name = o.name;
}

-- The loop body of `ToTypesAppliedResources`.
unfoldable pub to_types_applied_resource : V1alpha1.AppliedResource → Types.AppliedResource
to_types_applied_resource v = record {
  source_sha256 = v.source_sha256;
  helm = v.helm;
  namespace = v.namespace;
  applied_at = v.applied_at;
  objects = map to_types_applied_object v.objects;
}

unfoldable pub to_types_applied_resources : Map V1alpha1.AppliedResource → Map Types.AppliedResource
to_types_applied_resources [] = []
to_types_applied_resources ((k, v) ∷ m) =
    (k, to_types_applied_resource v) ∷ to_types_applied_resources m

unfoldable pub to_types_cluster_definition : V1alpha1.ClusterDefinition → Types.ClusterDefinition
to_types_cluster_definition cr = record {
  api_version = V1alpha1.group_version;
  kind = "ClusterDefinition";
  metadata = record {
    name = cr.metadata.name;
    region = cr.spec.region;
    environment = get_or_empty V1alpha1.environment_label cr.metadata.labels;
  };
  spec = record {
    driver = to_types_driver_ref cr.spec.driver;
    runner = record { image = cr.spec.runner.image };
    mgmt_cluster = cr.spec.mgmt_cluster;
    params = cr.spec.params;
    driver_outputs = cr.status.driver_outputs;
    workflows = to_types_workflows_spec cr.spec.workflows;
    resources = to_types_resource_refs cr.spec.resources;
    applied_resources = to_types_applied_resources cr.status.applied_resources;
    pending_workflows = [];
    workflow_schedules = [];
    delete = cr.spec.delete || is_some cr.metadata.deletion_timestamp;
    pause = cr.spec.pause;
    expires_at = cr.spec.expires_at;
    depends_on = cr.spec.depends_on;
    access_method = cr.spec.access.method;
    agent = to_types_agent_spec cr.spec.access.agent;
    applied_agent = to_types_applied_agent cr.status.applied_agent;
  };
}
