-- ===== src/Tests/Workflows.antt =====
-- The theorems on internal/workflow on concrete inputs, and runs of it.
use mathlib.Core.Option.{map as option_map}
use hyve.Prelude.{
  ℕ, String, ◌⊎◌, true, false, none, some, List, [], ◌∷◌, ◌≡◌, refl, map, ◌==◌, if◌then◌else◌, ◌&&◌,
  all,
}
use hyve.Workflow.Requirements.{
  Machine, WorkflowRequirements, message, secret_not_found, string_lt, version_satisfies, dotted,
  parts_satisfy, trim_v, validate_requirements, fail_if_any,
}
use hyve.Workflow.Requirements.Reports.{subject, missing, validate_requirements-missing}
use hyve.Workflow.Validate.{
  WorkflowJob, WorkflowStep, loop_errors, is_empty, has_circular_dependencies, edges, all_names,
}
use hyve.Workflow.Validate.Cycles.{is_ranked, has_circular_dependencies_ranked}
use hyve.Workflow.Validate.Accepted.{is_complete, is_distinct, is_closed, loop_errors-is_empty}

-- A machine with kubectl 1.29 and a token.
abbrev machine : Machine
machine = record {
  look_path = λ name. if name == "kubectl" then some "/usr/bin/kubectl" else none;
  combined_output = λ path flag. if flag == "version" then some "Client Version: v1.29" else none;
  find_version = λ output. some "1.29";
  getenv = λ name. if name == "TOKEN" then "t" else "";
}

abbrev requirements : WorkflowRequirements
requirements = record {
  tools =
      record { name = "helm"; version = ""; description = "" }
      ∷ record { name = "kubectl"; version = "1.30"; description = "" }
      ∷ record { name = "kubectl"; version = "v1.28"; description = "" }
      ∷ [];
  secrets =
      record { name = "TOKEN"; provider = ""; required = true; description = "" }
      ∷ record { name = "KEY"; provider = "aws"; required = true; description = "" }
      ∷ [];
}

validate_requirements_test :
    option_map (map subject) (validate_requirements machine (some requirements) [] true)
    ≡ some ("helm" ∷ "kubectl" ∷ "KEY" ∷ [])
unfolding validate_requirements version_satisfies dotted string_lt
validate_requirements_test = refl

validate_requirements-missing_example :
    option_map (map subject) (validate_requirements machine (some requirements) [] true)
    ≡ fail_if_any (missing machine requirements [] true)
validate_requirements-missing_example = validate_requirements-missing machine requirements [] true

-- The parts of a version are compared as texts.
later_rejected_test : version_satisfies "1.10.0" "1.9.0" ≡ false
unfolding version_satisfies dotted parts_satisfy trim_v string_lt
later_rejected_test = refl

abbrev step : WorkflowStep
step = record {
  name = "apply";
  command = "";
  script = "";
  action = "kubectl-apply";
  with_params = ("file", "app.yaml") ∷ [];
}

abbrev jobs : List WorkflowJob
jobs =
    record { name = "build"; depends_on = []; steps = step ∷ [] }
    ∷ record { name = "deploy"; depends_on = "build" ∷ []; steps = step ∷ [] }
    ∷ []

loop_errors_test : loop_errors jobs ≡ []
unfolding loop_errors
loop_errors_test = refl

loop_errors-is_empty_example :
    is_empty (loop_errors jobs) ≡ all is_complete jobs && (is_distinct jobs && is_closed jobs jobs)
loop_errors-is_empty_example = loop_errors-is_empty jobs

abbrev rank : String → ℕ
rank name = if name == "deploy" then 1 else 0

has_circular_dependencies_ranked_example :
    ((has_circular_dependencies jobs ≡ some true) × (is_ranked rank jobs ≡ false))
    ⊎ (has_circular_dependencies jobs ≡ some false)
has_circular_dependencies_ranked_example = has_circular_dependencies_ranked rank jobs

has_circular_dependencies_test : has_circular_dependencies jobs ≡ some false
unfolding has_circular_dependencies edges all_names
has_circular_dependencies_test = refl

-- A job that waits for one that waits for it.
abbrev circular : List WorkflowJob
circular =
    record { name = "build"; depends_on = "deploy" ∷ []; steps = step ∷ [] }
    ∷ record { name = "deploy"; depends_on = "build" ∷ []; steps = step ∷ [] }
    ∷ []

circular_test : has_circular_dependencies circular ≡ some true
unfolding has_circular_dependencies edges all_names
circular_test = refl

message_test :
    message (
      secret_not_found
        (record { name = "KEY"; provider = "aws"; required = true; description = "" }))
    ≡ "Required secret 'KEY' not found\n    Set via: aws configure OR export KEY=your-secret"
unfolding message
message_test = refl
