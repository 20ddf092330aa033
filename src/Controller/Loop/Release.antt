-- ===== src/Controller/Loop/Release.antt =====
-- When reconcileDelete of internal/controller/reconciler.go lets an object go.
use hyve.Prelude.{
  String, Bool, true, false, not, ◌&&◌, none, is_some, [], ◌∷◌, ◌≡◌, ap, refl, arith, Result, ok,
}
use hyve.Prelude.Maps.{Map}
use hyve.Types
use hyve.V1alpha1.{ClusterDefinition, cluster_definition_finalizer}
use hyve.Crdconv.{to_types_cluster_definition}
use hyve.Lock.{LockFile}
use hyve.Reconcile.World.{History}
use hyve.Reconcile.Host.{Host}
use hyve.Reconcile.Locked.{validate_locked}
use hyve.Reconcile.One.{reconcile_one, reconcile_checked}
use hyve.Controller.Api.{Log, Api, updated}
use hyve.Controller.Assumed.{Finalizers}
use hyve.Controller.Resolve.Loaded.{resolve_if_needed-loaded}
use hyve.Controller.Loop.{
  update, run_engine, prepare, release, conclude_cleanup, conclude_delete, delete_prepared,
  reconcile_delete, reconcile_found, conclude_get, reconcile, Pass, Requeue,
}

reconcile_one-paused :
    (host : Host) (lf : LockFile) (def : Types.ClusterDefinition) (secrets_env : Map String)
    (h : History)
    → def.spec.pause ≡ true
    → validate_locked def lf ≡ ok tt
    → reconcile_one host lf def false secrets_env h ≡ (ok tt, h)
unfolding reconcile_one reconcile_checked
reconcile_one-paused host lf def secrets_env h p v = ground (arith, p, v)

module _ (api : Api) where
  -- The newest action took the finalizer off, and the server accepted it.
  pub is_released : Log → Bool
  is_released [] = false
  is_released (updated cr done ∷ w) =
      done && not (api.contains_finalizer cr cluster_definition_finalizer)
  is_released (_ ∷ w) = false

  -- The API server knows the object and accepts its updates, and the lock file is there.
  pub record IsAvailable : Type 0 where
    pub found : (w : Log) → (cr : ClusterDefinition) × (api.get_cluster w ≡ ok cr)
    pub accepted : (cr : ClusterDefinition) (w : Log) → api.update_cluster cr w ≡ none
    pub locked : (w : Log) → (lf : LockFile) × (api.load_lock_file w ≡ ok lf)

  abbrev pub IsReleased : Requeue × Log → Type 0
  IsReleased run = (run.0 ≡ ok 0) × (is_released run.1 ≡ true)

  module _ (finalizers : Finalizers api) (available : IsAvailable) where
    release-IsReleased :
        (fresh : ClusterDefinition) (w : Log) → IsReleased (release api (ok fresh) w)
    unfolding release update is_released
    release-IsReleased fresh w =
        rw (available.accepted _ w, finalizers.contains-remove _ _) (refl, refl)

    conclude_cleanup-IsReleased : (w : Log) → IsReleased (conclude_cleanup api (ok tt) w)
    unfolding conclude_cleanup
    conclude_cleanup-IsReleased w =
        let (cr, e) = available.found w in rw e (release-IsReleased cr w)

    conclude_delete-IsReleased :
        (pass : Pass) (w : Log) → pass.0 ≡ ok tt → IsReleased (conclude_delete api pass w)
    unfolding conclude_delete
    conclude_delete-IsReleased (result, h) w e = rw e (conclude_cleanup-IsReleased _)

    -- For what holds of every lock file that can be loaded, and makes a pass succeed.
    module _ (cr : ClusterDefinition) (P : LockFile → Type 0)
        (loads : (lf : LockFile) (w : Log) → api.load_lock_file w ≡ ok lf → P lf)
        (succeeds : (lf : LockFile)
          → P lf
          → (secrets_env : Map String) (w : Log)
          → (run_engine api (to_types_cluster_definition cr) lf secrets_env w).0.0 ≡ ok tt) where
      delete_loaded-IsReleased :
          (loaded : Result String LockFile) (lf : LockFile) (w : Log)
          → loaded ≡ ok lf
          → P lf
          → let prepared = prepare api (to_types_cluster_definition cr) loaded w in
            IsReleased (delete_prepared api cr prepared.0 prepared.1)
      unfolding prepare delete_prepared
      delete_loaded-IsReleased loaded lf w e p = rw e (
          conclude_delete-IsReleased _ _
            (succeeds _ (resolve_if_needed-loaded api P loads lf _ _ w p) _ _))

      reconcile_delete-IsReleased :
          (w : Log)
          → api.contains_finalizer cr cluster_definition_finalizer ≡ true
          → IsReleased (reconcile_delete api cr w)
      unfolding reconcile_delete
      reconcile_delete-IsReleased w e =
          let (lf, loaded) = available.locked w in
          rw e (delete_loaded-IsReleased _ lf w loaded (loads lf w loaded))

      reconcile-IsReleased_loaded :
          (w : Log)
          → api.get_cluster w ≡ ok cr
          → is_some cr.metadata.deletion_timestamp ≡ true
          → api.contains_finalizer cr cluster_definition_finalizer ≡ true
          → IsReleased (reconcile api w)
      unfolding reconcile conclude_get reconcile_found
      reconcile-IsReleased_loaded w g d e = rw (g, d) (reconcile_delete-IsReleased w e)

    module _ (cr : ClusterDefinition)
        (succeeds : (lf : LockFile) (secrets_env : Map String) (w : Log)
          → (run_engine api (to_types_cluster_definition cr) lf secrets_env w).0.0 ≡ ok tt) where
      -- If the API server and the lock file are available and no pass of the engine over the
      -- definition fails, one call of Reconcile for an object that is being deleted takes its
      -- finalizer off.
      pub reconcile-IsReleased :
          (w : Log)
          → api.get_cluster w ≡ ok cr
          → is_some cr.metadata.deletion_timestamp ≡ true
          → api.contains_finalizer cr cluster_definition_finalizer ≡ true
          → IsReleased (reconcile api w)
      reconcile-IsReleased w g d e =
          reconcile-IsReleased_loaded cr (λ lf. Unit {0}) (λ lf w' l. tt) (λ lf p. succeeds lf) w g
            d e

    -- If the API server and the lock file are available, one call of Reconcile takes the finalizer
    -- off a paused object that is being deleted and whose references are locked in every lock file
    -- that the server can load, although the engine has no effect in a pass over its definition
    -- with such a lock file.
    pub reconcile-IsReleased_paused :
        (cr : ClusterDefinition) (w : Log)
        → api.get_cluster w ≡ ok cr
        → is_some cr.metadata.deletion_timestamp ≡ true
        → api.contains_finalizer cr cluster_definition_finalizer ≡ true
        → cr.spec.pause ≡ true
        → ((lf : LockFile) (w' : Log)
            → api.load_lock_file w' ≡ ok lf
            → validate_locked (to_types_cluster_definition cr) lf ≡ ok tt)
        → IsReleased (reconcile api w)
          × ((lf : LockFile) (before : Log)
              → api.load_lock_file before ≡ ok lf
              → (secrets_env : Map String) (w' : Log)
              → (run_engine api (to_types_cluster_definition cr) lf secrets_env w').0.1 ≡ [])
    unfolding run_engine to_types_cluster_definition
    reconcile-IsReleased_paused cr w g d e p v = (
      reconcile-IsReleased_loaded cr
          (λ lf. validate_locked (to_types_cluster_definition cr) lf ≡ ok tt) v
          (λ lf locked secrets_env w'.
            ap (λ run. run.0) (reconcile_one-paused _ lf _ secrets_env [] p locked))
          w g d e,
      λ lf before l secrets_env w'.
          ap (λ run. run.1) (reconcile_one-paused _ lf _ secrets_env [] p (v lf before l)),
    )
