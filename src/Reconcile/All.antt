-- ===== src/Reconcile/All.antt =====
-- `ReconcileAll` and its convergence loop, of internal/reconcile/manager.go.
pub mod Effects
pub mod Ends
use hyve.Prelude.{
  ℕ, zero, suc, String, Bool, Option, none, some, List, [], ◌∷◌, ◌==◌, if◌then◌else◌, any, ok, err,
}
use hyve.Types.{ClusterDefinition}
use hyve.Lock.{LockFile}
use hyve.Reconcile.World.{M, ◌>>=◌, ◌>>◌, pure, call, loaded}
use hyve.Reconcile.Host.{Host}
use hyve.Reconcile.Locked.{check_each, validate_locked}
use hyve.Reconcile.Cluster.{not_locked, Done}
use hyve.Reconcile.One.{reconcile_one}

abbrev pub is_processed : List String → String → Bool
is_processed processed name = any (λ p. p == name) processed

-- The first definition whose name is not processed.
pub find_next : List String → List ClusterDefinition → Option ClusterDefinition
find_next processed [] = none
find_next processed (d ∷ defs) =
    let rest = find_next processed defs in
    if is_processed processed d.metadata.name then rest else some d

abbrev succeed : Option (List String) → Option Done
succeed none = none
succeed (some processed) = some (ok tt)

module _ (host : Host) (lf : LockFile) (dry_run : Bool) where
  -- The definitions after a reload; a failure keeps those at hand.
  pub reload : List ClusterDefinition → M (List ClusterDefinition)
  reload current = call host.load_cluster_definitions (λ _. loaded) >>= λ answer. elim answer [
    | none ↦ pure current
    | some defs ↦ pure defs
  ]

  -- `none` if the fuel does not suffice; else the names, the last processed first.
  pub convergence_loop : ℕ → List String → List ClusterDefinition → M (Option (List String))
  unfolding find_next reload
  convergence_loop zero processed current = pure none
  convergence_loop (suc fuel) processed current = elim (find_next processed current) [
    | none ↦ pure (some processed)
    | some next ↦ reconcile_one host lf next dry_run [] >> reload current >>= λ current'.
        convergence_loop fuel (next.metadata.name ∷ processed) current'
  ]

  -- The loop runs only if every definition passes the checks.
  pub reconcile_all : ℕ → List ClusterDefinition → M (Option Done)
  reconcile_all fuel [] = pure (some (ok tt))
  reconcile_all fuel (d ∷ defs) = elim (check_each (λ c. validate_locked c lf) (d ∷ defs)) [
    | err e ↦ pure (some (err (not_locked e)))
    | ok _ ↦ convergence_loop fuel [] (d ∷ defs) >>= λ ended. pure (succeed ended)
  ]
