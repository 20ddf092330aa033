-- ===== src/Reconcile/All/Effects.antt =====
-- What `reconcile_all` leaves alone: everything in a dry run, and everything if a check fails.
use native.Mathlib.Omega.{arith}
use hyve.Prelude.{
  ℕ, zero, suc, String, Bool, true, false, not, Option, none, some, Option-cases, inl, inr, List,
  [], ◌∷◌, ◌≡◌, refl, all, Result, ok, err,
}
use hyve.Types.{ClusterDefinition}
use hyve.Lock.{LockFile}
use hyve.Reconcile.World.{History}
use hyve.Reconcile.Host.{Host}
use hyve.Reconcile.Locked.{validate_locked, check_each}
use hyve.Reconcile.Cluster.{Done}
use hyve.Reconcile.One.{reconcile_one}
use hyve.Reconcile.All.{find_next, reload, convergence_loop, reconcile_all}
use hyve.Reconcile.Traces.{permits, policy_for}
use hyve.Reconcile.Traces.One.{reconcile_one-permits}

abbrev is_ok : {E A : Type 0} → Result E A → Bool
is_ok (ok a) = true
is_ok (err e) = false

abbrev pub is_failure : Option Done → Bool
is_failure none = false
is_failure (some result) = not (is_ok result)

abbrev pub is_read_only : History → Bool
is_read_only h = all (permits (policy_for true false)) h

module _ (host : Host) (lf : LockFile) where
  reload-is_read_only :
      (current : List ClusterDefinition) (h : History)
      → is_read_only h ≡ true
      → is_read_only (reload host lf true current h).1 ≡ true
  unfolding reload
  reload-is_read_only current h k = grind (arith, k)

  convergence_loop-is_read_only :
      (fuel : ℕ) (processed : List String) (current : List ClusterDefinition) (h : History)
      → is_read_only h ≡ true
      → is_read_only (convergence_loop host lf true fuel processed current h).1 ≡ true
  unfolding convergence_loop
  convergence_loop-is_read_only zero processed current h k = k
  convergence_loop-is_read_only (suc fuel) processed current h k =
      elim (Option-cases (find_next processed current)) [
        | inl e ↦ ground (arith, e, k)
        | inr (d, e) ↦ ground (
          arith,
          e,
          convergence_loop-is_read_only fuel (d.metadata.name ∷ processed)
              (reload host lf true current (reconcile_one host lf d true [] h).1).0
              (reload host lf true current (reconcile_one host lf d true [] h).1).1
              (reload-is_read_only current (reconcile_one host lf d true [] h).1
                (reconcile_one-permits host lf true d [] h k)),
        )
      ]

  check_each-is_ok :
      (defs : List ClusterDefinition)
      → is_ok (check_each (λ c. validate_locked c lf) defs)
        ≡ all (λ c. is_ok (validate_locked c lf)) defs
  unfolding check_each
  check_each-is_ok [] = refl
  check_each-is_ok (d ∷ defs) = ground (arith, check_each-is_ok defs)

  -- If a definition fails a check of the lock file, or a reference is not locked, nothing is done
  -- for any cluster, and the run ends with an error.
  pub reconcile_all-unlocked :
      (dry_run : Bool) (fuel : ℕ) (defs : List ClusterDefinition) (h : History)
      → all (λ c. is_ok (validate_locked c lf)) defs ≡ false
      → ((reconcile_all host lf dry_run fuel defs h).1 ≡ h)
        × (is_failure (reconcile_all host lf dry_run fuel defs h).0 ≡ true)
  unfolding reconcile_all
  reconcile_all-unlocked dry_run fuel [] h k = cc
  reconcile_all-unlocked dry_run fuel (d ∷ defs) h k =
      ground (arith, k, check_each-is_ok (d ∷ defs))

  -- A dry run of all clusters only reads, reports and authenticates, whatever the host answers.
  pub reconcile_all-is_read_only :
      (fuel : ℕ) (defs : List ClusterDefinition) (h : History)
      → is_read_only h ≡ true
      → is_read_only (reconcile_all host lf true fuel defs h).1 ≡ true
  unfolding reconcile_all
  reconcile_all-is_read_only fuel [] h k = k
  reconcile_all-is_read_only fuel (d ∷ defs) h k =
      ground (arith, k, convergence_loop-is_read_only fuel [] (d ∷ defs) h k)
