-- ===== src/Types.antt =====
-- internal/types/types.go and internal/types/resource.go: the shapes that every part of hyve
-- shares. A nil slice or map is the empty list, a nil pointer is `none`.
pub mod Refs
use hyve.Prelude.{String, Bool, Option, List}
use hyve.Prelude.Maps.{Map}

-- `name` is set for a local workflow, `source` for a remote one.
pub record WorkflowRef : Type 0 where
  pub name : String
  pub source : String
  pub path : String

pub record WorkflowsSpec : Type 0 where
  pub before_create : List WorkflowRef
  pub on_create : List WorkflowRef
  pub after_create : List WorkflowRef
  pub on_delete : List WorkflowRef
  pub after_delete : List WorkflowRef
  pub pre_reconcile : List WorkflowRef

pub record PendingWorkflow : Type 0 where
  pub workflow : String
  pub run_at : String

pub record WorkflowSchedule : Type 0 where
  pub workflow : String
  pub schedule : String

pub record DriverRef : Type 0 where
  pub source : String
  pub version : String

pub record RunnerSpec : Type 0 where
  pub image : String

pub record AgentSpec : Type 0 where
  pub enabled : Bool
  pub proxy : Bool

pub record HelmSpec : Type 0 where
  pub chart : String
  pub repo : String
  pub version : String
  pub namespace : String
  pub values : Map String

pub record SecretKeyRef : Type 0 where
  pub env : String
  pub key : String

pub record SecretSpec : Type 0 where
  pub namespace : String
  pub kind : String
  pub keys : List SecretKeyRef

pub record ResourceRef : Type 0 where
  pub name : String
  pub source : String
  pub namespace : String
  pub delete : Bool
  pub helm : Option HelmSpec
  pub secret : Option SecretSpec

pub record AppliedObject : Type 0 where
  pub api_version : String
  pub kind : String
  pub namespace : String
  pub name : String

pub record AppliedResource : Type 0 where
  pub source_sha256 : String
  pub helm : Bool
  pub namespace : String
  pub applied_at : String
  pub objects : List AppliedObject

pub record AppliedAgent : Type 0 where
  pub config_hash : String
  pub applied_at : String

pub record ClusterSpec : Type 0 where
  pub driver : DriverRef
  pub runner : RunnerSpec
  pub mgmt_cluster : String
  pub params : Map String
  pub driver_outputs : Map String
  pub workflows : WorkflowsSpec
  pub resources : List ResourceRef
  pub applied_resources : Map AppliedResource
  pub pending_workflows : List PendingWorkflow
  pub workflow_schedules : List WorkflowSchedule
  pub delete : Bool
  pub pause : Bool
  pub expires_at : String
  pub depends_on : List String
  pub access_method : String
  pub agent : AgentSpec
  pub applied_agent : Option AppliedAgent

pub record ClusterMetadata : Type 0 where
  pub name : String
  pub region : String
  pub environment : String

pub record ClusterDefinition : Type 0 where
  pub api_version : String
  pub kind : String
  pub metadata : ClusterMetadata
  pub spec : ClusterSpec

abbrev pub access_method_primary : String
access_method_primary = "primary"
