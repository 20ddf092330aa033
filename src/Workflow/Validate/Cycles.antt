-- ===== src/Workflow/Validate/Cycles.antt =====
-- When hasCircularDependencies of internal/workflow/validate.go answers true.
use mathlib.Core.Path.{subst}
use hyve.Prelude.{
  ℕ, String, Bool, true, false, not, ◌||◌, ◌⊎◌, Option, none, some, List, [], ◌∷◌, ◌++◌, ◌==◌, ◌≡◌,
  refl, sym, arith, all, length, length-keep-le, ltb, Bool-cases, str_eq_self, inl, inr, eq_iff,
}
use hyve.Prelude.Maps.{Map, lookup, insert, lookup-insert}
use hyve.Workflow.Validate.{
  WorkflowJob, Search, has_name, graph_of, or_empty, edges, has_cycle, visit_jobs, all_names,
  found_cycle, has_circular_dependencies,
}
use hyve.Workflow.Validate.Ending.{left, is_ended, visit_jobs-ends, has_cycle-ends}
use hyve.Workflow.Validate.Quiet.{is_quiet, visit_jobs-Quiet, has_cycle-Quiet}

-- A property of every name and each of its dependencies.
abbrev pub each_edge : (String → String → Bool) → List WorkflowJob → Bool
each_edge q jobs = all (λ job. all (q job.name) job.depends_on) jobs

edges-graph_of :
    (q : String → String → Bool) (graph : Map (List String)) (jobs : List WorkflowJob)
    → each_edge q jobs ≡ true
    → ((name : String) → all (q name) (edges graph name) ≡ true)
    → (name : String) → all (q name) (edges (graph_of graph jobs) name) ≡ true
unfolding graph_of edges
edges-graph_of q graph [] h k name = k name
edges-graph_of q graph (job ∷ jobs) h k name =
    edges-graph_of q (insert job.name job.depends_on graph) jobs (ground (arith, h)) inserted name
  where
    inserted :
        (sought : String)
        → all (q sought) (edges (insert job.name job.depends_on graph) sought) ≡ true
    inserted sought =
        subst (λ o. all (q sought) (or_empty o) ≡ true)
          (sym (lookup-insert job.name sought job.depends_on graph))
          (elim (Bool-cases (job.name == sought)) [
            | inl e ↦ rw e (
                subst (λ n. all (q n) job.depends_on ≡ true) ((eq_iff job.name sought).0 e)
                  (ground (arith, h)))
            | inr e ↦ rw e (k sought)
          ])

has_name-append :
    (x : String) (xs ys : List String) → has_name x (xs ++ ys) ≡ (has_name x xs || has_name x ys)
has_name-append x [] ys = refl
has_name-append x (y ∷ xs) ys = ground (arith, has_name-append x xs ys)

-- The names of the first list are among those of the second.
abbrev IsWithin : List String → List String → Type 0
IsWithin xs ys = (x : String) → has_name x xs ≡ true → has_name x ys ≡ true

all-IsWithin : (xs ys : List String) → IsWithin xs ys → all (λ d. has_name d ys) xs ≡ true
all-IsWithin [] ys h = refl
all-IsWithin (x ∷ xs) ys h =
    let first = h x (grind (arith, str_eq_self x)) in
    let others = all-IsWithin xs ys (λ y m. h y (ground (arith, m))) in
    ground (arith, first, others)

all_names-IsWithin :
    (jobs : List WorkflowJob) (names : List String)
    → IsWithin (all_names jobs) names
    → (each_edge (λ name d. has_name d names) jobs ≡ true)
      × (all (λ job. has_name job.name names) jobs ≡ true)
unfolding all_names
all_names-IsWithin [] names h = (refl, refl)
all_names-IsWithin (job ∷ jobs) names h =
    let first = h job.name (grind (arith, str_eq_self job.name)) in
    let deps =
      all-IsWithin job.depends_on names
        (λ x m. h x (grind (arith, m, has_name-append x job.depends_on (all_names jobs)))) in
    let (edges', named) =
      all_names-IsWithin jobs names
        (λ x m. h x (grind (arith, m, has_name-append x job.depends_on (all_names jobs)))) in
    (ground (arith, deps, edges'), ground (arith, first, named))

-- Each dependency has a lower rank than the job.
abbrev pub is_ranked : (String → ℕ) → List WorkflowJob → Bool
is_ranked rank jobs = each_edge (λ name d. ltb (rank d) (rank name)) jobs

settle :
    (names : List String) (ranked : Bool) (n : ℕ) (r : Option (Bool × Search))
    → is_ended names n r ≡ true
    → (ranked ≡ true → is_quiet (λ x. false) r ≡ true)
    → ((found_cycle r ≡ some true) × (ranked ≡ false)) ⊎ (found_cycle r ≡ some false)
settle names ranked n none e q = cc
settle names ranked n (some (false, s)) e q = inr refl
settle names false n (some (true, s)) e q = inl (refl, refl)
settle names true n (some (true, s)) e q = let nope = q refl in cc

-- hasCircularDependencies ends for any jobs, its fuel being enough, and answers true only if no
-- numbering of the names gives each dependency of each job a number below that of the job: for any
-- numbering, either it answers true, and the numbering fails, or it answers false.
pub has_circular_dependencies_ranked :
    (rank : String → ℕ) (jobs : List WorkflowJob)
    → ((has_circular_dependencies jobs ≡ some true) × (is_ranked rank jobs ≡ false))
      ⊎ (has_circular_dependencies jobs ≡ some false)
unfolding has_circular_dependencies edges lookup
has_circular_dependencies_ranked rank jobs =
    let names = all_names jobs in
    let (within, named) = all_names-IsWithin jobs names (λ x m. m) in
    let start : Search = record { visited = []; rec_stack = [] } in
    let closed = edges-graph_of (λ name d. has_name d names) [] jobs within (λ name. refl) in
    settle names (is_ranked rank jobs) (left names [])
      (visit_jobs (has_cycle (length names) (graph_of [] jobs)) jobs start)
      (visit_jobs-ends names _ (length names)
        (has_cycle-ends names (graph_of [] jobs) closed (length names)) jobs start named
        (length-keep-le (λ n. not (has_name n [])) names))
      (λ ranked.
        visit_jobs-Quiet rank _
          (has_cycle-Quiet rank (graph_of [] jobs)
            (edges-graph_of (λ name d. ltb (rank d) (rank name)) [] jobs ranked (λ name. refl))
            (length names))
          jobs start refl)
