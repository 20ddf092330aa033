-- ===== src/V1alpha1.antt =====
-- internal/apis/hyve/v1alpha1/types.go and clusterdefinition_types.go: the ClusterDefinition
-- custom resource, with what the code reads of the Kubernetes metadata.
pub mod Records
use hyve.Prelude.{ℕ, String, Bool, Option, List}
use hyve.Prelude.Maps.{Map}

pub record DriverRef : Type 0 where
  pub source : String
  pub version : String

pub record WorkflowRef : Type 0 where
  pub name : String
  pub source : String
  pub path : String

pub record WorkflowsSpec : Type 0 where
  pub before_create : List WorkflowRef
  pub on_create : List WorkflowRef
  pub after_create : List WorkflowRef
  pub on_delete : List WorkflowRef
  pub after_delete : List WorkflowRef
  pub pre_reconcile : List WorkflowRef

pub record HelmSpec : Type 0 where
  pub chart : String
  pub repo : String
  pub version : String
  pub namespace : String
  pub values : Map String

pub record SecretKeyRef : Type 0 where
  pub env : String
  pub key : String

pub record SecretSpec : Type 0 where
  pub namespace : String
  pub kind : String
  pub keys : List SecretKeyRef

pub record ResourceRef : Type 0 where
  pub name : String
  pub source : String
  pub namespace : String
  pub delete : Bool
  pub helm : Option HelmSpec
  pub secret : Option SecretSpec

pub record AppliedObject : Type 0 where
  pub api_version : String
  pub kind : String
  pub namespace : String
  pub name : String

pub record AppliedResource : Type 0 where
  pub source_sha256 : String
  pub helm : Bool
  pub namespace : String
  pub applied_at : String
  pub objects : List AppliedObject

pub record AppliedAgent : Type 0 where
  pub config_hash : String
  pub applied_at : String

pub record RunnerSpec : Type 0 where
  pub image : String

pub record AgentSpec : Type 0 where
  pub enabled : Bool
  pub proxy : Bool

pub record AccessSpec : Type 0 where
  pub method : String
  pub agent : Option AgentSpec

pub record ClusterDefinitionSpec : Type 0 where
  pub region : String
  pub driver : DriverRef
  pub runner : RunnerSpec
  pub mgmt_cluster : String
  pub params : Map String
  pub workflows : WorkflowsSpec
  pub resources : List ResourceRef
  pub delete : Bool
  pub pause : Bool
  pub expires_at : String
  pub depends_on : List String
  pub access : AccessSpec

pub record AgentStatus : Type 0 where
  pub connected : Bool
  pub last_connected_at : String
  pub last_disconnected_at : String
  pub version : String

pub record AccessStatus : Type 0 where
  pub method : String

-- metav1.Condition; `is_true` stands for ConditionTrue, the code uses no third value.
pub record Condition : Type 0 where
  pub kind : String
  pub is_true : Bool
  pub reason : String
  pub message : String
  pub last_transition_time : ℕ

pub record ClusterDefinitionStatus : Type 0 where
  pub driver_outputs : Map String
  pub applied_resources : Map AppliedResource
  pub applied_agent : Option AppliedAgent
  pub phase : String
  pub conditions : List Condition
  pub observed_generation : ℕ
  pub access : AccessStatus
  pub last_create_output : String
  pub last_delete_output : String
  pub agent : AgentStatus

-- metav1.ObjectMeta, as far as the code reads it.
pub record ObjectMeta : Type 0 where
  pub name : String
  pub labels : Map String
  pub generation : ℕ
  pub deletion_timestamp : Option ℕ
  pub finalizers : List String

pub record ClusterDefinition : Type 0 where
  pub api_version : String
  pub kind : String
  pub metadata : ObjectMeta
  pub spec : ClusterDefinitionSpec
  pub status : ClusterDefinitionStatus

abbrev pub environment_label : String
environment_label = "hyve.io/environment"

abbrev pub cluster_definition_finalizer : String
cluster_definition_finalizer = "hyve.io/cluster-cleanup"

-- GroupVersion.String()
abbrev pub group_version : String
group_version = "hyve.io/v1alpha1"
