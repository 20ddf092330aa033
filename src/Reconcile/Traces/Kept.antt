-- ===== src/Reconcile/Traces/Kept.antt =====
-- The file of a cluster that cannot be deleted.
use native.Mathlib.Omega.{arith}
use hyve.Prelude.{true, false, all, ◌≡◌, refl}
use hyve.Types.{ClusterDefinition}
use hyve.Lock.{LockFile}
use hyve.Reconcile.World.{Env, History, Executor, delete}
use hyve.Reconcile.Host.{Host}
use hyve.Reconcile.Cluster.{is_success, execute, delete_cluster}
use hyve.Reconcile.Traces.{Policy, permits}
use hyve.Reconcile.Traces.Lifecycle.{delete_cluster-permits}

-- Everything but the removal of a cluster's file.
abbrev pub no_removal : Policy
no_removal = record {
  contents = true;
  creates = true;
  scales = true;
  deletes = true;
  removes = false;
}

-- As long as the delete operation of a cluster fails, `delete_cluster` does not remove its file,
-- so the deletion is tried again.
pub delete_cluster-no_removal :
    (host : Host) (lf : LockFile) (cluster : ClusterDefinition) (exec : Executor) (env : Env)
    (h : History)
    → ((env' : Env) (h' : History) → is_success (host.execute exec delete env' h') ≡ false)
    → all (permits no_removal) h ≡ true
    → all (permits no_removal) (delete_cluster host lf cluster exec env h).1 ≡ true
unfolding execute
delete_cluster-no_removal host lf cluster exec env h q k =
    delete_cluster-permits no_removal host lf refl cluster exec env h refl
      (λ env' h'. ground (arith, q env' h')) k
