-- ===== src/Crdconv/RoundTrip.antt =====
-- A cluster definition that is stored as a custom resource is read back.
use hyve.Prelude.{
  is_some, ◌≡◌, refl, Bool, false, ◌||◌, Option, none, some, List, [], ◌∷◌, map, arith,
}
use hyve.Prelude.Maps.{Map, get_or_empty}
use hyve.Types
use hyve.V1alpha1
use hyve.Crdconv.Forward.{
  to_types_agent_spec, to_types_applied_agent, to_types_driver_ref, to_types_workflow_ref,
  to_types_workflow_refs, to_types_workflows_spec, to_types_helm_spec, to_types_key,
  to_types_secret_spec, to_types_resource_ref, to_types_resource_refs, to_types_applied_object,
  to_types_applied_resource, to_types_applied_resources, to_types_cluster_definition,
}
use hyve.Crdconv.Reverse.{
  from_types_agent_spec, from_types_applied_agent, from_types_driver_ref, from_types_workflow_ref,
  from_types_workflow_refs, from_types_workflows_spec, from_types_helm_spec, from_types_key,
  from_types_secret_spec, from_types_resource_ref, from_types_resource_refs,
  from_types_applied_object, from_types_applied_resource, from_types_applied_resources,
  from_types_cluster_definition_spec, from_types_cluster_definition_status,
}

map_inverse {ℓ} :
    {A B : Type ℓ} (f : A → B) (g : B → A)
    → ((b : B) → f (g b) ≡ b)
    → (bs : List B) → map f (map g bs) ≡ bs
map_inverse f g h [] = refl
map_inverse f g h (b ∷ bs) = cc (h b, map_inverse f g h bs)

refs_back :
    (rs : List Types.WorkflowRef) → to_types_workflow_refs (from_types_workflow_refs rs) ≡ rs
unfolding to_types_workflow_refs from_types_workflow_refs to_types_workflow_ref
    from_types_workflow_ref
refs_back = map_inverse _ _ (λ r. refl)

workflows_back :
    (w : Types.WorkflowsSpec) → to_types_workflows_spec (from_types_workflows_spec w) ≡ w
unfolding to_types_workflows_spec from_types_workflows_spec
workflows_back w = simp refs_back

helm_back : (h : Option Types.HelmSpec) → to_types_helm_spec (from_types_helm_spec h) ≡ h
unfolding to_types_helm_spec from_types_helm_spec
helm_back none = refl
helm_back (some h) = refl

keys_back : (ks : List Types.SecretKeyRef) → map to_types_key (map from_types_key ks) ≡ ks
unfolding to_types_key from_types_key
keys_back = map_inverse _ _ (λ k. refl)

secret_back : (s : Option Types.SecretSpec) → to_types_secret_spec (from_types_secret_spec s) ≡ s
unfolding to_types_secret_spec from_types_secret_spec
secret_back none = refl
secret_back (some s) = simp keys_back

resource_back : (r : Types.ResourceRef) → to_types_resource_ref (from_types_resource_ref r) ≡ r
unfolding to_types_resource_ref from_types_resource_ref
resource_back r = simp (helm_back, secret_back)

resources_back :
    (rs : List Types.ResourceRef) → to_types_resource_refs (from_types_resource_refs rs) ≡ rs
unfolding to_types_resource_refs from_types_resource_refs
resources_back = map_inverse _ _ resource_back

objects_back :
    (os : List Types.AppliedObject)
    → map to_types_applied_object (map from_types_applied_object os) ≡ os
unfolding to_types_applied_object from_types_applied_object
objects_back = map_inverse _ _ (λ o. refl)

pub applied_back :
    (m : Map Types.AppliedResource)
    → to_types_applied_resources (from_types_applied_resources m) ≡ m
unfolding to_types_applied_resources from_types_applied_resources to_types_applied_resource
    from_types_applied_resource
applied_back [] = refl
applied_back ((k, v) ∷ m) = rw (objects_back v.objects, applied_back m)

agent_back : (a : Types.AgentSpec) → to_types_agent_spec (from_types_agent_spec a) ≡ a
unfolding to_types_agent_spec from_types_agent_spec
agent_back a = ground arith

pub applied_agent_back :
    (a : Option Types.AppliedAgent) → to_types_applied_agent (from_types_applied_agent a) ≡ a
unfolding to_types_applied_agent from_types_applied_agent
applied_agent_back none = refl
applied_agent_back (some a) = refl

-- The object that a store keeps for a definition: its spec and status, under given metadata.
abbrev pub stored : V1alpha1.ObjectMeta → Types.ClusterDefinition → V1alpha1.ClusterDefinition
stored meta def = record {
  api_version = V1alpha1.group_version;
  kind = "ClusterDefinition";
  metadata = meta;
  spec = from_types_cluster_definition_spec def;
  status = from_types_cluster_definition_status def;
}

ruleset back = (workflows_back, resources_back, applied_back, agent_back, applied_agent_back)

-- A definition that is stored as a custom resource under its own name is read back with every
-- field, except that the two queues of workflows are dropped, the environment is the one of the
-- object's label, and a deletion timestamp reads as `delete`.
pub to_types-stored :
    (meta : V1alpha1.ObjectMeta) (def : Types.ClusterDefinition)
    → meta.name ≡ def.metadata.name
    → to_types_cluster_definition (stored meta def) ≡ record {
      api_version = V1alpha1.group_version;
      kind = "ClusterDefinition";
      metadata = record def.metadata {
        environment = get_or_empty V1alpha1.environment_label meta.labels;
      };
      spec = record def.spec {
        pending_workflows = [];
        workflow_schedules = [];
        delete = def.spec.delete || is_some meta.deletion_timestamp;
      };
    }
unfolding to_types_cluster_definition from_types_cluster_definition_spec
    from_types_cluster_definition_status to_types_driver_ref from_types_driver_ref
to_types-stored meta def h = simp (back, h)

refs_forth :
    (rs : List V1alpha1.WorkflowRef) → from_types_workflow_refs (to_types_workflow_refs rs) ≡ rs
unfolding to_types_workflow_refs from_types_workflow_refs to_types_workflow_ref
    from_types_workflow_ref
refs_forth = map_inverse _ _ (λ r. refl)

workflows_forth :
    (w : V1alpha1.WorkflowsSpec) → from_types_workflows_spec (to_types_workflows_spec w) ≡ w
unfolding to_types_workflows_spec from_types_workflows_spec
workflows_forth w = simp refs_forth

helm_forth : (h : Option V1alpha1.HelmSpec) → from_types_helm_spec (to_types_helm_spec h) ≡ h
unfolding to_types_helm_spec from_types_helm_spec
helm_forth none = refl
helm_forth (some h) = refl

keys_forth : (ks : List V1alpha1.SecretKeyRef) → map from_types_key (map to_types_key ks) ≡ ks
unfolding to_types_key from_types_key
keys_forth = map_inverse _ _ (λ k. refl)

secret_forth :
    (s : Option V1alpha1.SecretSpec) → from_types_secret_spec (to_types_secret_spec s) ≡ s
unfolding to_types_secret_spec from_types_secret_spec
secret_forth none = refl
secret_forth (some s) = simp keys_forth

resource_forth : (r : V1alpha1.ResourceRef) → from_types_resource_ref (to_types_resource_ref r) ≡ r
unfolding to_types_resource_ref from_types_resource_ref
resource_forth r = simp (helm_forth, secret_forth)

resources_forth :
    (rs : List V1alpha1.ResourceRef) → from_types_resource_refs (to_types_resource_refs rs) ≡ rs
unfolding to_types_resource_refs from_types_resource_refs
resources_forth = map_inverse _ _ resource_forth

-- What an `agent` block means: an absent block and one with both flags off are the same.
abbrev pub agent_flags : Option V1alpha1.AgentSpec → Bool × Bool
agent_flags none = (false, false)
agent_flags (some a) = (a.enabled, a.proxy)

agent_forth :
    (a : Option V1alpha1.AgentSpec)
    → agent_flags (from_types_agent_spec (to_types_agent_spec a)) ≡ agent_flags a
unfolding to_types_agent_spec from_types_agent_spec
agent_forth none = refl
agent_forth (some a) = ground arith

-- Reading an object and writing its spec back keeps the spec: all fields but `delete` and the
-- agent block are equal, `delete` is also set by a deletion timestamp, and the agent block keeps
-- both its flags.
pub from_types_spec-to_types :
    (cr : V1alpha1.ClusterDefinition)
    → let back = from_types_cluster_definition_spec (to_types_cluster_definition cr) in
      (back ≡ record cr.spec {
        delete = cr.spec.delete || is_some cr.metadata.deletion_timestamp;
        access = record { method = cr.spec.access.method; agent = back.access.agent };
      })
      × (agent_flags back.access.agent ≡ agent_flags cr.spec.access.agent)
unfolding to_types_cluster_definition from_types_cluster_definition_spec to_types_driver_ref
    from_types_driver_ref
from_types_spec-to_types cr = (simp (workflows_forth, resources_forth), agent_forth _)
