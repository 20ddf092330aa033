-- ===== src/Workflow/Validate/Quiet.antt =====
-- The search for a cycle of internal/workflow/validate.go finds none if the jobs are ranked.
use mathlib.Core.Path.{subst}
use hyve.Prelude.{
  ℕ, zero, suc, ◌≤◌, String, Bool, true, false, not, ◌||◌, ◌&&◌, Option, none, some, List, [], ◌∷◌,
  ◌==◌, ◌≡◌, refl, sym, arith, all, keep, ltb, String-cases, Bool-cases, str_eq_self, str_eq_of_ne,
  inl, inr, eq_iff,
}
use hyve.Prelude.Maps.{Map}
use hyve.Workflow.Validate.{
  WorkflowJob, Search, Visit, has_name, edges, unless_found, visit_edges, has_cycle, visit_jobs,
}

-- No cycle is found, and the names on the stack satisfy the test.
abbrev pub is_quiet : (String → Bool) → Option (Bool × Search) → Bool
is_quiet p none = true
is_quiet p (some (found, s)) = not found && all p s.rec_stack

all-has :
    (p : String → Bool) (name : String) (xs : List String)
    → all p xs ≡ true
    → has_name name xs ≡ true
    → p name ≡ true
all-has p name [] h m = cc
all-has p name (x ∷ xs) h m = elim (String-cases x name) [
  | inl e ↦ subst (λ n. p n ≡ true) e (ground (arith, h))
  | inr e ↦ all-has p name xs (ground (arith, h)) (grind (arith, m, str_eq_of_ne e))
]

-- Taking a name off a list whose further names satisfy the test.
all-keep :
    (p : String → Bool) (name : String) (xs : List String)
    → all (λ x. p x || x == name) xs ≡ true
    → all p (keep (λ x. not (x == name)) xs) ≡ true
all-keep p name [] h = refl
all-keep p name (x ∷ xs) h = ground (arith, h, all-keep p name xs)

all-weaken :
    (p : String → Bool) (name : String) (xs : List String)
    → all p xs ≡ true
    → all (λ x. p x || x == name) xs ≡ true
all-weaken p name [] h = refl
all-weaken p name (x ∷ xs) h = ground (arith, h, all-weaken p name xs)

unless_found-quiet :
    (p : String → Bool) (r : Option (Bool × Search)) (further : Search → Option (Bool × Search))
    → is_quiet p r ≡ true
    → ((s : Search) → all p s.rec_stack ≡ true → is_quiet p (further s) ≡ true)
    → is_quiet p (unless_found r further) ≡ true
unfolding unless_found
unless_found-quiet p none further e k = refl
unless_found-quiet p (some (true, s)) further e k = cc
unless_found-quiet p (some (false, s)) further e k = k s e

module _ (rank : String → ℕ) where
  -- What a visit is to do: if the names on the stack have a higher rank, it finds no cycle, and what
  -- is true of the names on the stack stays true of them.
  abbrev Quiet : Visit → Type 0
  Quiet visit =
      (p : String → Bool) (name : String) (s : Search)
      → ((x : String) → p x ≡ true → ltb (rank name) (rank x) ≡ true)
      → all p s.rec_stack ≡ true
      → is_quiet p (visit name s) ≡ true

  visit_edges-Quiet :
      (visit : Visit) (n : ℕ)
      → Quiet visit
      → (p : String → Bool) → ((x : String) → p x ≡ true → n ≤ rank x)
      → (deps : List String) (s : Search) → all (λ d. ltb (rank d) n) deps ≡ true
      → all p s.rec_stack ≡ true
      → is_quiet p (visit_edges visit deps s) ≡ true
  unfolding visit_edges
  visit_edges-Quiet visit n h p above [] s below k = k
  visit_edges-Quiet visit n h p above (dep ∷ deps) s below k =
      elim (Bool-cases (has_name dep s.visited)) [
        | inl e ↦ elim (Bool-cases (has_name dep s.rec_stack)) [
          | inl f ↦
              let high : n ≤ rank dep = above dep (all-has p dep s.rec_stack k f) in
              absurd (contradict high)
          | inr f ↦ rw (e, f) (visit_edges-Quiet visit n h p above deps s (ground (arith, below)) k)
        ]
        | inr e ↦ rw e (
            unless_found-quiet p (visit dep s) (λ s'. visit_edges visit deps s')
              (h p dep s (λ x px. let high = above x px in ground (arith, below, high)) k)
              (λ s' k'. visit_edges-Quiet visit n h p above deps s' (ground (arith, below)) k'))
      ]
    where
      contradict : n ≤ rank dep → ⊥
      contradict high = ground (arith, below, high)

  pub visit_jobs-Quiet :
      (visit : Visit)
      → Quiet visit
      → (jobs : List WorkflowJob) (s : Search) → all (λ x. false) s.rec_stack ≡ true
      → is_quiet (λ x. false) (visit_jobs visit jobs s) ≡ true
  unfolding visit_jobs
  visit_jobs-Quiet visit h [] s k = k
  visit_jobs-Quiet visit h (job ∷ jobs) s k = elim (Bool-cases (has_name job.name s.visited)) [
    | inl e ↦ rw e (visit_jobs-Quiet visit h jobs s k)
    | inr e ↦ rw e (
        unless_found-quiet (λ x. false) (visit job.name s) (λ s'. visit_jobs visit jobs s')
          (h (λ x. false) job.name s (λ x px. cc) k) (λ s' k'. visit_jobs-Quiet visit h jobs s' k'))
  ]

  pub has_cycle-Quiet :
      (graph : Map (List String))
      → ((name : String) → all (λ d. ltb (rank d) (rank name)) (edges graph name) ≡ true)
      → (fuel : ℕ) → Quiet (has_cycle fuel graph)
  unfolding has_cycle unless_found
  has_cycle-Quiet graph ranked zero p name s above k = refl
  has_cycle-Quiet graph ranked (suc fuel) p name s above k =
      erased
        (visit_edges (has_cycle fuel graph) (edges graph name)
          (record { visited = name ∷ s.visited; rec_stack = name ∷ s.rec_stack }))
        (visit_edges-Quiet (has_cycle fuel graph) (rank name) (has_cycle-Quiet graph ranked fuel)
          (λ x. p x || x == name) (λ x px. at_least x px) (edges graph name)
          (record { visited = name ∷ s.visited; rec_stack = name ∷ s.rec_stack }) (ranked name)
          (pushed s.rec_stack k))
    where
      at_least : (x : String) → (p x || x == name) ≡ true → rank name ≤ rank x
      at_least x px = elim (Bool-cases (x == name)) [
        | inl e ↦ subst (λ n. rank name ≤ rank n) (sym ((eq_iff x name).0 e)) (omega arith)
        | inr e ↦ ground (arith, above x, px, e)
      ]

      pushed : (xs : List String) → all p xs ≡ true → all (λ x. p x || x == name) (name ∷ xs) ≡ true
      pushed xs h = grind (arith, str_eq_self name, all-weaken p name xs h)

      erased :
          (r : Option (Bool × Search))
          → is_quiet (λ x. p x || x == name) r ≡ true
          → is_quiet p (
              unless_found r (λ s'. some (
                false,
                record s' { rec_stack = keep (λ other. not (other == name)) s'.rec_stack },
              )))
            ≡ true
      erased none h = refl
      erased (some (true, s')) h = cc
      erased (some (false, s')) h = all-keep p name s'.rec_stack h
