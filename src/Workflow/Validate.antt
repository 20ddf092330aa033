-- ===== src/Workflow/Validate.antt =====
-- internal/workflow/validate.go, the two loops of Validate over the jobs, which check the jobs, their
-- steps and the names in dependsOn, and its search for a cycle, hasCircularDependencies; and the
-- fields of a job and of a step in types.go that they read. Validate also refuses a workflow without
-- a job: this, the header fields and the warnings are not here.
pub mod Accepted
pub mod Ending
pub mod Quiet
pub mod Cycles
use hyve.Prelude.{
  ℕ, zero, suc, Option, none, some, keep, length, String, Bool, true, false, not, List, [], ◌∷◌,
  ◌++◌, ◌==◌, ◌||◌, ◌+◌, if◌then◌else◌, ltb, any,
}
use hyve.Prelude.Maps.{Map, get_or_empty, lookup, insert}

pub record WorkflowStep : Type 0 where
  pub name : String
  pub command : String
  pub script : String
  pub action : String
  pub with_params : Map String

pub record WorkflowJob : Type 0 where
  pub name : String
  pub depends_on : List String
  pub steps : List WorkflowStep

-- The errors by what their texts name; `nameless_job` has the position, counted from 1.
pub data WorkflowError : Type 0 where
  nameless_job : ℕ → WorkflowError
  duplicate_job : String → WorkflowError
  no_steps : String → WorkflowError
  no_execution : String → String → WorkflowError
  multiple_methods : String → String → WorkflowError
  missing_file : String → String → String → WorkflowError
  unknown_job : String → String → WorkflowError

unfoldable pub error_if : Bool → WorkflowError → List WorkflowError
error_if true e = e ∷ []
error_if false e = []

-- 1 for a field that is set.
unfoldable pub count : String → ℕ
count field = if field == "" then 0 else 1

unfoldable pub methods : WorkflowStep → ℕ
unfolding count
methods step = count step.command + count step.script + count step.action

unfoldable pub has_execution : WorkflowStep → Bool
has_execution step =
    not (step.command == "") || (not (step.script == "") || not (step.action == ""))

-- The switch on the action; an unknown one is a warning.
unfoldable pub action_errors : String → WorkflowStep → List WorkflowError
unfolding error_if get_or_empty
action_errors job step =
    if step.action == "kubectl-apply" || step.action == "kubectl-delete"
    then error_if (get_or_empty "file" step.with_params == "")
        (missing_file job step.name step.action)
    else []

unfoldable pub step_errors : String → WorkflowStep → List WorkflowError
unfolding error_if has_execution methods action_errors
step_errors job step =
    error_if (not (has_execution step)) (no_execution job step.name)
    ++ (error_if (ltb 1 (methods step)) (multiple_methods job step.name) ++ action_errors job step)

unfoldable pub steps_errors : String → List WorkflowStep → List WorkflowError
unfolding step_errors
steps_errors job [] = []
steps_errors job (step ∷ steps) = step_errors job step ++ steps_errors job steps

-- `len(job.Steps) == 0`
abbrev pub is_empty {ℓ} : {A : Type ℓ} → List A → Bool
is_empty [] = true
is_empty (x ∷ xs) = false

-- jobNames[name]
abbrev pub has_name : String → List String → Bool
has_name name names = any (λ other. other == name) names

unfoldable pub named_job_errors : List String → WorkflowJob → List WorkflowError
unfolding error_if steps_errors
named_job_errors job_names job =
    error_if (has_name job.name job_names) (duplicate_job job.name)
    ++ (error_if (is_empty job.steps) (no_steps job.name) ++ steps_errors job.name job.steps)

-- The loop over the jobs: the errors, and the names that it has put into `jobNames`.
unfoldable pub jobs_errors : ℕ → List String → List WorkflowJob → List WorkflowError × List String
unfolding named_job_errors
jobs_errors i job_names [] = ([], job_names)
jobs_errors i job_names (job ∷ jobs) =
    let nameless = jobs_errors (i + 1) job_names jobs in
    let named = jobs_errors (i + 1) (job.name ∷ job_names) jobs in
    if job.name == ""
    then (nameless_job i ∷ nameless.0, nameless.1)
    else (named_job_errors job_names job ++ named.0, named.1)

unfoldable pub depends_on_errors : List String → String → List String → List WorkflowError
unfolding error_if
depends_on_errors job_names job [] = []
depends_on_errors job_names job (dep ∷ deps) =
    error_if (not (has_name dep job_names)) (unknown_job job dep)
    ++ depends_on_errors job_names job deps

unfoldable pub dependency_errors : List String → List WorkflowJob → List WorkflowError
unfolding depends_on_errors
dependency_errors job_names [] = []
dependency_errors job_names (job ∷ jobs) =
    depends_on_errors job_names job.name job.depends_on ++ dependency_errors job_names jobs

-- The errors that the two loops over the jobs in `Validate` append, and no others.
unfoldable pub loop_errors : List WorkflowJob → List WorkflowError
unfolding jobs_errors dependency_errors
loop_errors jobs =
    let (errors, job_names) = jobs_errors 1 [] jobs in errors ++ dependency_errors job_names jobs

-- The two maps of hasCircularDependencies: the names whose entry is true.
pub record Search : Type 0 where
  pub visited : List String
  pub rec_stack : List String

-- With the entries of the jobs before.
unfoldable pub graph_of : Map (List String) → List WorkflowJob → Map (List String)
unfolding insert
graph_of graph [] = graph
graph_of graph (job ∷ jobs) = graph_of (insert job.name job.depends_on graph) jobs

abbrev pub or_empty : Option (List String) → List String
or_empty none = []
or_empty (some deps) = deps

-- graph[jobName]
unfoldable pub edges : Map (List String) → String → List String
unfolding lookup
edges graph name = or_empty (lookup name graph)

abbrev pub Visit : Type 0
Visit = String → Search → Option (Bool × Search)

-- What follows a call of hasCycle: a cycle that is found is passed on.
unfoldable pub unless_found :
    Option (Bool × Search) → (Search → Option (Bool × Search)) → Option (Bool × Search)
unless_found none further = none
unless_found (some (true, s)) further = some (true, s)
unless_found (some (false, s)) further = further s

-- The loop over the dependencies of a job, with hasCycle.
unfoldable pub visit_edges : Visit → List String → Search → Option (Bool × Search)
visit_edges has_cycle [] s = some (false, s)
visit_edges has_cycle (dep ∷ deps) s =
    if not (has_name dep s.visited)
    then unless_found (has_cycle dep s) (λ s'. visit_edges has_cycle deps s')
    else if has_name dep s.rec_stack
    then some (true, s)
    else visit_edges has_cycle deps s

-- `none` if the fuel runs out.
unfoldable pub has_cycle : ℕ → Map (List String) → Visit
unfolding visit_edges unless_found edges
has_cycle zero graph name s = none
has_cycle (suc fuel) graph name s =
    unless_found
      (visit_edges (has_cycle fuel graph) (edges graph name)
        (record { visited = name ∷ s.visited; rec_stack = name ∷ s.rec_stack }))
      (λ s'.
        some (false, record s' { rec_stack = keep (λ other. not (other == name)) s'.rec_stack }))

-- The loop over the jobs, with hasCycle.
unfoldable pub visit_jobs : Visit → List WorkflowJob → Search → Option (Bool × Search)
unfolding unless_found
visit_jobs has_cycle [] s = some (false, s)
visit_jobs has_cycle (job ∷ jobs) s =
    if not (has_name job.name s.visited)
    then unless_found (has_cycle job.name s) (λ s'. visit_jobs has_cycle jobs s')
    else visit_jobs has_cycle jobs s

-- Every name that a job has or depends on.
unfoldable pub all_names : List WorkflowJob → List String
all_names [] = []
all_names (job ∷ jobs) = (job.name ∷ job.depends_on) ++ all_names jobs

abbrev pub found_cycle : Option (Bool × Search) → Option Bool
found_cycle none = none
found_cycle (some (found, s)) = some found

-- On fuel for as many calls as there are names.
unfoldable pub has_circular_dependencies : List WorkflowJob → Option Bool
unfolding graph_of has_cycle visit_jobs all_names
has_circular_dependencies jobs = found_cycle (
    visit_jobs (has_cycle (length (all_names jobs)) (graph_of [] jobs)) jobs
      (record { visited = []; rec_stack = [] }))
