-- ===== src/Reconcile/Traces/One.antt =====
-- The effects of `reconcile_one`.
use native.Mathlib.Omega.{arith}
use hyve.Prelude.{String, Bool, true, Option, none, some, List, [], ◌∷◌, ◌≡◌, all}
use hyve.Prelude.Maps.{Map}
use hyve.Types.{ClusterDefinition}
use hyve.Lock.{LockFile}
use hyve.Reconcile.World.{History, loaded}
use hyve.Reconcile.Host.{Host}
use hyve.Reconcile.Refs.{resolve_cluster_ref}
use hyve.Reconcile.Dispatch.{}
use hyve.Reconcile.One.{
  expire, run_dependency, check_dependency_status, is_dependency_active, first_unmet,
  first_unmet_if_loaded, unmet_dependency, reconcile_checked, reconcile_one,
}
use hyve.Reconcile.Traces.{Policy, permits, policy_for}
use hyve.Reconcile.Traces.Lifecycle.{Keeps}
use hyve.Reconcile.Traces.Whole.{reconcile_unless_unmet-permits}

module _ (p : Policy) (host : Host) (lf : LockFile) where
  is_dependency_active-permits :
      (secrets_env : Map String) (dep : Option ClusterDefinition) (h : History)
      → Keeps p host lf (is_dependency_active host lf secrets_env dep) h
  unfolding is_dependency_active check_dependency_status run_dependency
  is_dependency_active-permits secrets_env none h k = k
  is_dependency_active-permits secrets_env (some dep) h k = grind arith

  first_unmet-permits :
      (defs : List ClusterDefinition) (def : ClusterDefinition) (secrets_env : Map String)
      (names : List String) (h : History)
      → Keeps p host lf (first_unmet host lf defs def secrets_env names) h
  unfolding first_unmet
  first_unmet-permits defs def secrets_env [] h k = k
  first_unmet-permits defs def secrets_env (name ∷ names) h k = ground (
    arith,
    is_dependency_active-permits secrets_env (resolve_cluster_ref defs def name) h k,
    first_unmet-permits defs def secrets_env names
        (is_dependency_active host lf secrets_env (resolve_cluster_ref defs def name) h).1
        (is_dependency_active-permits secrets_env (resolve_cluster_ref defs def name) h k),
  )

  first_unmet_if_loaded-permits :
      (def : ClusterDefinition) (secrets_env : Map String)
      (answer : Option (List ClusterDefinition)) (h : History)
      → Keeps p host lf (first_unmet_if_loaded host lf def secrets_env answer) h
  unfolding first_unmet_if_loaded
  first_unmet_if_loaded-permits def secrets_env none h k = k
  first_unmet_if_loaded-permits def secrets_env (some defs) h k =
      first_unmet-permits defs def secrets_env def.spec.depends_on h k

  unmet_dependency-permits :
      (def : ClusterDefinition) (secrets_env : Map String) (h : History)
      → Keeps p host lf (unmet_dependency host lf def secrets_env) h
  unfolding unmet_dependency
  unmet_dependency-permits def secrets_env h k = ground (
    arith,
    k,
    first_unmet_if_loaded-permits def secrets_env (host.load_cluster_definitions h) (loaded ∷ h) k,
  )

module _ (host : Host) (lf : LockFile) (dry_run : Bool) where
  -- Whether the definition is marked for deletion, or expired at that moment.
  abbrev pub is_unwanted : ClusterDefinition → History → Bool
  is_unwanted def h = (expire host lf def h).spec.delete

  reconcile_checked-permits :
      (def : ClusterDefinition) (secrets_env : Map String) (h : History)
      → Keeps
          (policy_for dry_run (is_unwanted def h))
          host
          lf
          (reconcile_checked host lf def dry_run secrets_env)
          h
  unfolding reconcile_checked
  reconcile_checked-permits def secrets_env h k = ground (
    arith,
    k,
    reconcile_unless_unmet-permits host lf dry_run (expire host lf def h) secrets_env
        (unmet_dependency host lf (expire host lf def h) secrets_env h).0
        (unmet_dependency host lf (expire host lf def h) secrets_env h).1
        (unmet_dependency-permits (policy_for dry_run (is_unwanted def h)) host lf
          (expire host lf def h) secrets_env h k),
  )

  -- With p the policy that the mode and the definition give: if every effect before is permitted
  -- by p, so is every effect after `reconcile_one`. That is, in a dry run it only reads, reports
  -- and authenticates; else a wanted cluster is never deleted nor its file removed, and one that
  -- is marked for deletion or expired is never created nor scaled.
  pub reconcile_one-permits :
      (def : ClusterDefinition) (secrets_env : Map String) (h : History)
      → all (permits (policy_for dry_run (is_unwanted def h))) h ≡ true
      → all
          (permits (policy_for dry_run (is_unwanted def h)))
          (reconcile_one host lf def dry_run secrets_env h).1
        ≡ true
  unfolding reconcile_one
  reconcile_one-permits def secrets_env h k =
      ground (arith, k, reconcile_checked-permits def secrets_env h k)
