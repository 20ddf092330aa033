-- ===== src/Reconcile/All/Ends.antt =====
-- The convergence loop ends.
use native.Mathlib.Omega.{arith}
use hyve.Prelude.{
  ℕ, zero, suc, ◌<◌, ◌≤◌, String, Bool, true, false, not, some, Option-cases, inl, inr, List, [],
  ◌∷◌, ◌≡◌, refl, all, String-cases, str_eq_of_ne, str_eq_self, any, keep, length, length-keep-le,
  is_some, ◌==◌,
}
use hyve.Types.{ClusterDefinition}
use hyve.Lock.{LockFile}
use hyve.Reconcile.World.{History}
use hyve.Reconcile.Host.{Host}
use hyve.Reconcile.One.{reconcile_one}
use hyve.Reconcile.All.{is_processed, find_next, reload, convergence_loop, reconcile_all}

-- How many of the names are not processed.
abbrev left : List String → List String → ℕ
left names processed = length (keep (λ n. not (is_processed processed n)) names)

left-le :
    (names processed : List String) (x : String) → left names (x ∷ processed) ≤ left names processed
left-le [] processed x = omega arith
left-le (n ∷ names) processed x = ground (arith, left-le names processed x)

left-lt :
    (names processed : List String) (x : String)
    → is_processed processed x ≡ false
    → any (λ n. n == x) names ≡ true
    → left names (x ∷ processed) < left names processed
left-lt [] processed x k m = cc
left-lt (n ∷ names) processed x k m = elim (String-cases n x) [
  | inl e ↦ grind (arith, e, k, str_eq_self x, left-le names processed x)
  | inr e ↦ grind (arith, k, m, str_eq_of_ne e, left-lt names processed x k)
]

abbrev pub all_named : List String → List ClusterDefinition → Bool
all_named names defs = all (λ (d : ClusterDefinition). any (λ n. n == d.metadata.name) names) defs

find_next-new :
    (processed : List String) (defs : List ClusterDefinition) (d : ClusterDefinition)
    → find_next processed defs ≡ some d
    → is_processed processed d.metadata.name ≡ false
unfolding find_next
find_next-new processed [] d e = cc
find_next-new processed (d' ∷ defs) d e = ground (arith, e, find_next-new processed defs d)

find_next-named :
    (names processed : List String) (defs : List ClusterDefinition) (d : ClusterDefinition)
    → find_next processed defs ≡ some d
    → all_named names defs ≡ true
    → any (λ n. n == d.metadata.name) names ≡ true
unfolding find_next
find_next-named names processed [] d e k = cc
find_next-named names processed (d' ∷ defs) d e k =
    ground (arith, e, k, find_next-named names processed defs d)

module _ (host : Host) (lf : LockFile) (dry_run : Bool) where
  -- The names that the host ever answers with.
  abbrev Loads : List String → Type 0
  Loads names =
      (h : History) (defs : List ClusterDefinition)
      → host.load_cluster_definitions h ≡ some defs
      → all_named names defs ≡ true

  reload-named :
      (names : List String)
      → Loads names
      → (current : List ClusterDefinition) (h : History) → all_named names current ≡ true
      → all_named names (reload host lf dry_run current h).0 ≡ true
  unfolding reload
  reload-named names loads current h k = elim (Option-cases (host.load_cluster_definitions h)) [
    | inl e ↦ ground (arith, e, k)
    | inr (defs, e) ↦ ground (arith, e, loads h defs e)
  ]

  -- The loop ends for any host that only ever answers with definitions of a fixed set of names, as
  -- soon as the fuel exceeds the number of those not processed yet.
  convergence_loop-ends :
      (names : List String)
      → ((h : History) (defs : List ClusterDefinition)
          → host.load_cluster_definitions h ≡ some defs
          → all_named names defs ≡ true)
      → (fuel : ℕ) (processed : List String) (current : List ClusterDefinition) (h : History)
      → all_named names current ≡ true
      → left names processed < fuel
      → is_some (convergence_loop host lf dry_run fuel processed current h).0 ≡ true
  unfolding convergence_loop
  convergence_loop-ends names loads zero processed current h k lt = absurd (omega (arith, lt))
  convergence_loop-ends names loads (suc fuel) processed current h k lt =
      elim (Option-cases (find_next processed current)) [
        | inl e ↦ ground (arith, e)
        | inr (d, e) ↦ ground (
          arith,
          e,
          convergence_loop-ends names loads fuel (d.metadata.name ∷ processed)
              (reload host lf dry_run current (reconcile_one host lf d dry_run [] h).1).0
              (reload host lf dry_run current (reconcile_one host lf d dry_run [] h).1).1
              (reload-named names loads current (reconcile_one host lf d dry_run [] h).1 k)
              (omega (
                arith,
                lt,
                left-lt names processed d.metadata.name (find_next-new processed current d e)
                    (find_next-named names processed current d e k),
              )),
        )
      ]

  left-le_length : (names : List String) → left names [] ≤ length names
  left-le_length names = length-keep-le (λ n. not (is_processed [] n)) names

  -- For a host that only ever answers with definitions of the given names, a run of definitions of
  -- these names ends with fuel one more than the number of names.
  pub reconcile_all-ends :
      (names : List String)
      → ((h : History) (defs : List ClusterDefinition)
          → host.load_cluster_definitions h ≡ some defs
          → all_named names defs ≡ true)
      → (defs : List ClusterDefinition) (h : History) → all_named names defs ≡ true
      → is_some (reconcile_all host lf dry_run (suc (length names)) defs h).0 ≡ true
  unfolding reconcile_all
  reconcile_all-ends names loads [] h k = refl
  reconcile_all-ends names loads (d ∷ defs) h k = ground (
    arith,
    convergence_loop-ends names loads (suc (length names)) [] (d ∷ defs) h k
        (omega (arith, left-le_length names)),
  )
