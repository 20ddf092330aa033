-- ===== src/Workflow/Validate/Ending.antt =====
-- The search for a cycle of internal/workflow/validate.go ends.
use hyve.Prelude.{
  ℕ, zero, suc, ◌≤◌, ◌<◌, String, Bool, true, false, not, Option, none, some, List, [], ◌∷◌, ◌≡◌,
  arith, all, keep, length, ltb, String-cases, Bool-cases, str_eq_self, str_eq_of_ne, inl, inr,
}
use hyve.Prelude.Maps.{Map}
use hyve.Workflow.Validate.{
  WorkflowJob, Search, Visit, has_name, edges, unless_found, visit_edges, has_cycle, visit_jobs,
}

-- How many of the names are not visited.
abbrev pub left : List String → List String → ℕ
left names visited = length (keep (λ n. not (has_name n visited)) names)

left-le : (names visited : List String) (x : String) → left names (x ∷ visited) ≤ left names visited
left-le [] visited x = omega arith
left-le (n ∷ names) visited x = ground (arith, left-le names visited x)

left-lt :
    (names visited : List String) (x : String)
    → has_name x visited ≡ false
    → has_name x names ≡ true
    → left names (x ∷ visited) < left names visited
left-lt [] visited x k m = cc
left-lt (n ∷ names) visited x k m = elim (String-cases n x) [
  | inl e ↦ grind (arith, e, k, str_eq_self x, left-le names visited x)
  | inr e ↦ grind (arith, k, m, str_eq_of_ne e, left-lt names visited x k)
]

-- The search has ended, with no more names left than given.
abbrev pub is_ended : List String → ℕ → Option (Bool × Search) → Bool
is_ended names n none = false
is_ended names n (some (found, s)) = not (ltb n (left names s.visited))

module _ (names : List String) where
  is_ended-le :
      (n m : ℕ) (r : Option (Bool × Search))
      → is_ended names n r ≡ true
      → n ≤ m
      → is_ended names m r ≡ true
  is_ended-le n m none e k = cc
  is_ended-le n m (some (found, s)) e k = ground (arith, e, k)

  unless_found-ends :
      (n : ℕ) (r : Option (Bool × Search)) (further : Search → Option (Bool × Search))
      → is_ended names n r ≡ true
      → ((s : Search) → left names s.visited ≤ n → is_ended names n (further s) ≡ true)
      → is_ended names n (unless_found r further) ≡ true
  unfolding unless_found
  unless_found-ends n none further e k = cc
  unless_found-ends n (some (true, s)) further e k = e
  unless_found-ends n (some (false, s)) further e k = k s (ground (arith, e))

  -- What a visit is to do: with no more names left than fuel, it ends.
  abbrev Ending : ℕ → Visit → Type 0
  Ending n visit =
      (name : String) (s : Search)
      → has_name name names ≡ true
      → has_name name s.visited ≡ false
      → left names s.visited ≤ n
      → is_ended names (left names s.visited) (visit name s) ≡ true

  visit_edges-ends :
      (visit : Visit) (n : ℕ)
      → Ending n visit
      → (deps : List String) (s : Search) → all (λ d. has_name d names) deps ≡ true
      → left names s.visited ≤ n
      → is_ended names (left names s.visited) (visit_edges visit deps s) ≡ true
  unfolding visit_edges
  visit_edges-ends visit n h [] s m k = ground arith
  visit_edges-ends visit n h (dep ∷ deps) s m k = elim (Bool-cases (has_name dep s.visited)) [
    | inl e ↦ rw e (ground (arith, m, k, visit_edges-ends visit n h deps s))
    | inr e ↦ rw e (
        unless_found-ends _ (visit dep s) (λ s'. visit_edges visit deps s')
          (h dep s (ground (arith, m)) e k)
          (λ s' lt.
            is_ended-le _ _ _
              (visit_edges-ends visit n h deps s' (ground (arith, m)) (omega (arith, lt, k))) lt))
  ]

  pub visit_jobs-ends :
      (visit : Visit) (n : ℕ)
      → Ending n visit
      → (jobs : List WorkflowJob) (s : Search) → all (λ job. has_name job.name names) jobs ≡ true
      → left names s.visited ≤ n
      → is_ended names (left names s.visited) (visit_jobs visit jobs s) ≡ true
  unfolding visit_jobs
  visit_jobs-ends visit n h [] s m k = ground arith
  visit_jobs-ends visit n h (job ∷ jobs) s m k = elim (Bool-cases (has_name job.name s.visited)) [
    | inl e ↦ rw e (visit_jobs-ends visit n h jobs s (ground (arith, m)) k)
    | inr e ↦ rw e (
        unless_found-ends _ (visit job.name s) (λ s'. visit_jobs visit jobs s')
          (h job.name s (ground (arith, m)) e k)
          (λ s' lt.
            is_ended-le _ _ _
              (visit_jobs-ends visit n h jobs s' (ground (arith, m)) (omega (arith, lt, k))) lt))
  ]

  pub has_cycle-ends :
      (graph : Map (List String))
      → ((name : String) → all (λ d. has_name d names) (edges graph name) ≡ true)
      → (fuel : ℕ) → Ending fuel (has_cycle fuel graph)
  unfolding has_cycle
  has_cycle-ends graph closed zero name s m e k =
      absurd (omega (arith, k, left-lt names s.visited name e m))
  has_cycle-ends graph closed (suc fuel) name s m e k =
      let fewer = left-lt names s.visited name e m in
      is_ended-le _ _ _
        (unless_found-ends _ _ _
          (visit_edges-ends (has_cycle fuel graph) fuel (has_cycle-ends graph closed fuel)
            (edges graph name)
            (record { visited = name ∷ s.visited; rec_stack = name ∷ s.rec_stack }) (closed name)
            (omega (arith, k, fewer)))
          (λ s' lt. ground (arith, lt)))
        (omega (arith, fewer))
