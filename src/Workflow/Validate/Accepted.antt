-- ===== src/Workflow/Validate/Accepted.antt =====
-- Which jobs pass the two loops over the jobs of internal/workflow/validate.go.
use hyve.Prelude.{
  ℕ, String, Bool, true, false, not, List, [], ◌∷◌, ◌++◌, ◌==◌, ◌||◌, ◌&&◌, ◌+◌, ◌≡◌, refl, ◌∙◌,
  arith, any, all, if◌then◌else◌, eq_iff,
}
use hyve.Prelude.Maps.{get_or_empty}
use hyve.Workflow.Validate.{
  WorkflowStep, WorkflowJob, WorkflowError, error_if, count, methods, has_execution, action_errors,
  step_errors, steps_errors, is_empty, has_name, named_job_errors, jobs_errors, depends_on_errors,
  unknown_job, dependency_errors, loop_errors,
}

abbrev is_set : String → Bool
is_set field = not (field == "")

-- One of three fields is set.
abbrev pub is_one : Bool → Bool → Bool → Bool
is_one true b c = not b && not c
is_one false true c = not c
is_one false false c = c

-- A step has one way to run, and a kubectl action has a file.
abbrev pub is_runnable : WorkflowStep → Bool
is_runnable step =
    is_one (is_set step.command) (is_set step.script) (is_set step.action)
    && (not (step.action == "kubectl-apply" || step.action == "kubectl-delete")
        || is_set (get_or_empty "file" step.with_params))

abbrev pub is_complete : WorkflowJob → Bool
is_complete job = is_set job.name && (not (is_empty job.steps) && all is_runnable job.steps)

abbrev pub is_named : String → WorkflowJob → Bool
is_named name job = job.name == name

-- No job has the name of a later one.
abbrev pub is_distinct : List WorkflowJob → Bool
is_distinct [] = true
is_distinct (job ∷ jobs) = not (any (is_named job.name) jobs) && is_distinct jobs

-- Each name in dependsOn is that of a job.
abbrev pub is_closed : List WorkflowJob → List WorkflowJob → Bool
is_closed all_jobs jobs = all (λ job. all (λ dep. any (is_named dep) all_jobs) job.depends_on) jobs

is_empty-append : (es fs : List WorkflowError) → is_empty (es ++ fs) ≡ is_empty es && is_empty fs
is_empty-append [] fs = refl
is_empty-append (e ∷ es) fs = refl

is_empty-error_if : (b : Bool) (e : WorkflowError) → is_empty (error_if b e) ≡ not b
unfolding error_if
is_empty-error_if true e = refl
is_empty-error_if false e = refl

step_errors-is_empty :
    (job : String) (step : WorkflowStep) → is_empty (step_errors job step) ≡ is_runnable step
unfolding step_errors error_if has_execution methods count action_errors
step_errors-is_empty job step = ground arith

steps_errors-is_empty :
    (job : String) (steps : List WorkflowStep)
    → is_empty (steps_errors job steps) ≡ all is_runnable steps
unfolding steps_errors
steps_errors-is_empty job [] = refl
steps_errors-is_empty job (step ∷ steps) =
    rw
      (
        is_empty-append (step_errors job step) (steps_errors job steps),
        step_errors-is_empty job step,
        steps_errors-is_empty job steps,
      )
      refl

named_job_errors-is_empty :
    (job_names : List String) (job : WorkflowJob)
    → is_empty (named_job_errors job_names job)
      ≡ not (has_name job.name job_names) && (not (is_empty job.steps) && all is_runnable job.steps)
unfolding named_job_errors
named_job_errors-is_empty job_names job =
    rw
      (
        is_empty-append (error_if (has_name job.name job_names) _) _,
        is_empty-append (error_if (is_empty job.steps) _) _,
        is_empty-error_if (has_name job.name job_names) _,
        is_empty-error_if (is_empty job.steps) _,
        steps_errors-is_empty job.name job.steps,
      )
      refl

-- No job has one of the names.
abbrev is_fresh : List String → List WorkflowJob → Bool
is_fresh job_names jobs = all (λ job. not (has_name job.name job_names)) jobs

is_fresh-nil : (jobs : List WorkflowJob) → is_fresh [] jobs ≡ true
is_fresh-nil [] = refl
is_fresh-nil (job ∷ jobs) = is_fresh-nil jobs

is_fresh-cons :
    (name : String) (job_names : List String) (jobs : List WorkflowJob)
    → is_fresh (name ∷ job_names) jobs ≡ not (any (is_named name) jobs) && is_fresh job_names jobs
is_fresh-cons name job_names [] = refl
is_fresh-cons name job_names (job ∷ jobs) =
    ground (arith, is_fresh-cons name job_names jobs, eq_iff job.name name, eq_iff name job.name)

-- The errors of one iteration, in front of those of the further ones.
is_empty-iteration :
    (nameless : Bool) (e : WorkflowError) (es fs gs : List WorkflowError) (ms ns : List String)
    → is_empty
        (if◌then◌else◌ {A = List WorkflowError × List String} nameless
          (e ∷ es, ms)
          (fs ++ gs, ns)).0
      ≡ not nameless && (is_empty fs && is_empty gs)
is_empty-iteration true e es fs gs ms ns = refl
is_empty-iteration false e es fs gs ms ns = is_empty-append fs gs

-- The conjuncts about one job, and those about the further ones.
regroup :
    (named old whole complete distinct unique fresh : Bool)
    → named && ((not old && whole) && (complete && (distinct && (unique && fresh))))
      ≡ ((named && whole) && complete) && ((unique && distinct) && (not old && fresh))
regroup false old whole complete distinct unique fresh = refl
regroup true true whole complete distinct unique fresh = ground arith
regroup true false whole complete distinct unique fresh = ground arith

jobs_errors-is_empty :
    (i : ℕ) (job_names : List String) (jobs : List WorkflowJob)
    → is_empty (jobs_errors i job_names jobs).0
      ≡ all is_complete jobs && (is_distinct jobs && is_fresh job_names jobs)
unfolding jobs_errors
jobs_errors-is_empty i job_names [] = refl
jobs_errors-is_empty i job_names (job ∷ jobs) =
    let further = jobs_errors (i + 1) (job.name ∷ job_names) jobs in
    is_empty-iteration (job.name == "") _ _ (named_job_errors job_names job) further.0 _ further.1
    ∙ rw
        (
          named_job_errors-is_empty job_names job,
          jobs_errors-is_empty (i + 1) (job.name ∷ job_names) jobs,
          is_fresh-cons job.name job_names jobs,
        )
        (regroup (not (job.name == "")) (has_name job.name job_names) _ _ (is_distinct jobs)
          (not (any (is_named job.name) jobs)) (is_fresh job_names jobs))

-- The names in the map after the loop, if every job has one.
has_name-jobs_errors :
    (i : ℕ) (job_names : List String) (jobs : List WorkflowJob) (name : String)
    → all is_complete jobs ≡ true
    → has_name name (jobs_errors i job_names jobs).1
      ≡ any (is_named name) jobs || has_name name job_names
unfolding jobs_errors
has_name-jobs_errors i job_names [] name h = refl
has_name-jobs_errors i job_names (job ∷ jobs) name h =
    ground (arith, h, has_name-jobs_errors (i + 1) (job.name ∷ job_names) jobs name)

depends_on_errors-is_empty :
    (job_names : List String) (job : String) (deps : List String)
    → is_empty (depends_on_errors job_names job deps) ≡ all (λ dep. has_name dep job_names) deps
unfolding depends_on_errors
depends_on_errors-is_empty job_names job [] = refl
depends_on_errors-is_empty job_names job (dep ∷ deps) = ground (
  arith,
  is_empty-error_if (not (has_name dep job_names)) (unknown_job job dep),
  is_empty-append (error_if (not (has_name dep job_names)) (unknown_job job dep))
      (depends_on_errors job_names job deps),
  depends_on_errors-is_empty job_names job deps,
)

all-cong :
    (p q : String → Bool) → ((x : String) → p x ≡ q x) → (xs : List String) → all p xs ≡ all q xs
all-cong p q h [] = refl
all-cong p q h (x ∷ xs) = rw (h x, all-cong p q h xs) refl

dependency_errors-is_empty :
    (job_names : List String) (all_jobs jobs : List WorkflowJob)
    → ((name : String) → has_name name job_names ≡ any (is_named name) all_jobs)
    → is_empty (dependency_errors job_names jobs) ≡ is_closed all_jobs jobs
unfolding dependency_errors
dependency_errors-is_empty job_names all_jobs [] h = refl
dependency_errors-is_empty job_names all_jobs (job ∷ jobs) h =
    rw
      (
        is_empty-append (depends_on_errors job_names job.name job.depends_on)
            (dependency_errors job_names jobs),
        depends_on_errors-is_empty job_names job.name job.depends_on,
        all-cong (λ dep. has_name dep job_names) (λ dep. any (is_named dep) all_jobs) h
            job.depends_on,
        dependency_errors-is_empty job_names all_jobs jobs h,
      )
      refl

conclude :
    (complete distinct : Bool) {closed reported : Bool}
    → (complete ≡ true → reported ≡ closed)
    → (complete && (distinct && true)) && reported ≡ complete && (distinct && closed)
conclude false distinct h = refl
conclude true true h = h refl
conclude true false h = refl

-- The two loops over the jobs append no error exactly if every job has a name and steps, every step
-- has one way to run and its file, no two jobs share a name, and each name in dependsOn is a job's.
pub loop_errors-is_empty :
    (jobs : List WorkflowJob)
    → is_empty (loop_errors jobs)
      ≡ all is_complete jobs && (is_distinct jobs && is_closed jobs jobs)
unfolding loop_errors
loop_errors-is_empty jobs =
    is_empty-append (jobs_errors 1 [] jobs).0 (dependency_errors (jobs_errors 1 [] jobs).1 jobs)
    ∙ rw (jobs_errors-is_empty 1 [] jobs, is_fresh-nil jobs)
        (conclude _ _ (λ complete.
          dependency_errors-is_empty _ jobs jobs
            (λ name. ground (arith, has_name-jobs_errors 1 [] jobs name complete))))
