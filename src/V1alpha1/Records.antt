-- ===== src/V1alpha1/Records.antt =====
-- internal/apis/hyve/v1alpha1/module_types.go, workflowrefstatus_types.go and
-- resourcerefstatus_types.go: the custom resources that record what was resolved.
use hyve.Prelude.{ℕ, String, Bool}

-- A custom resource: its name, and the two halves that are written apart.
pub record Object (Spec Status : Type 0) : Type 0 where
  pub name : String
  pub spec : Spec
  pub status : Status

pub record ModuleSpec : Type 0 where
  pub source : String
  pub version : String

-- The times are zero if they are not set.
pub record ModuleStatus : Type 0 where
  pub resolved : Bool
  pub sha256 : String
  pub resolved_at : ℕ
  pub error : String

pub record WorkflowRefStatusSpec : Type 0 where
  pub name : String
  pub source : String

pub record WorkflowRefStatusStatus : Type 0 where
  pub resolved : Bool
  pub raw_version : String
  pub resolved_version : String
  pub sha256 : String
  pub resolved_at : ℕ
  pub error : String

pub record ResourceRefStatusSpec : Type 0 where
  pub name : String
  pub source : String

pub record ResourceRefStatusStatus : Type 0 where
  pub resolved : Bool
  pub raw_version : String
  pub sha256 : String
  pub resolved_at : ℕ
  pub error : String

abbrev pub Module : Type 0
Module = Object ModuleSpec ModuleStatus

abbrev pub WorkflowRefStatus : Type 0
WorkflowRefStatus = Object WorkflowRefStatusSpec WorkflowRefStatusStatus

abbrev pub ResourceRefStatus : Type 0
ResourceRefStatus = Object ResourceRefStatusSpec ResourceRefStatusStatus
