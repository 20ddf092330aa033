-- ===== src/Controller/Loop/Safety.antt =====
-- What a call of Reconcile of internal/controller/reconciler.go leaves in the log.
use hyve.Prelude.{
  String, Bool, true, false, ◌&&◌, ◌||◌, is_some, List, [], ◌∷◌, ◌==◌, ◌≡◌, refl, arith, Result, ok,
  err, Bool-cases, inl, inr,
}
use hyve.Prelude.Maps.{Map}
use hyve.Types
use hyve.V1alpha1.{ClusterDefinition, Condition, cluster_definition_finalizer}
use hyve.Crdconv.{to_types_cluster_definition}
use hyve.Lock.{LockFile}
use hyve.Reconcile.World.{History}
use hyve.Reconcile.Cluster.{Done}
use hyve.Controller.Api.{
  ApiError, not_found, conflict, rejected, Action, Log, Api, updated, status_updated, reconciled,
}
use hyve.Controller.Assumed.{Retries, Finalizers, retry_on_conflict-keeps}
use hyve.Controller.Resolve.Keeps.{is_aside, resolve_if_needed-keeps}
use hyve.Controller.Loop.{
  update, update_status, set_conditions, set_condition, run_engine, prepare, write_fresh,
  write_pass, conclude_pass, reconcile_prepared, conclude_record, record_delete_output,
  record_if_any, release, conclude_cleanup, conclude_delete, delete_prepared, reconcile_delete,
  add_finalizer, reconcile_found, conclude_get, reconcile, is_done, Pass,
}

-- The newest pass of the engine was one over a definition to delete, and returned no error.
is_cleaned : Log → Bool
is_cleaned [] = false
is_cleaned (reconciled def h done ∷ w) = def.spec.delete && done
is_cleaned (_ ∷ w) = is_cleaned w

-- An object that the API server is about to delete is to delete for the engine.
delete-to_types_cluster_definition :
    (cr : ClusterDefinition)
    → is_some cr.metadata.deletion_timestamp ≡ true
    → (to_types_cluster_definition cr).spec.delete ≡ true
unfolding to_types_cluster_definition
delete-to_types_cluster_definition cr h = ground (arith, h)

module _ (api : Api) where
  -- Each update without the finalizer comes after such a pass.
  unfoldable pub is_kept : Log → Bool
  unfolding is_cleaned
  is_kept [] = true
  is_kept (updated cr done ∷ w) =
      let further = is_kept w in
      (api.contains_finalizer cr cluster_definition_finalizer || is_cleaned w) && further
  is_kept (_ ∷ w) = is_kept w

  abbrev pub IsKept : Log → Type 0
  IsKept w = is_kept w ≡ true

  IsKept-aside : (a : Action) (w : Log) → is_aside a ≡ true → IsKept w → IsKept (a ∷ w)
  unfolding is_kept
  IsKept-aside (updated cr done) w a h = cc
  IsKept-aside (status_updated cr done) w a h = cc
  IsKept-aside (reconciled def h' done) w a h = cc
  IsKept-aside _ w a h = h

  prepare-IsKept :
      (def : Types.ClusterDefinition) (loaded : Result String LockFile) (w : Log)
      → IsKept w
      → IsKept (prepare api def loaded w).1
  unfolding prepare
  prepare-IsKept def (err message) w h = h
  prepare-IsKept def (ok lf) w h = resolve_if_needed-keeps api IsKept IsKept-aside lf def _ w h

  write_fresh-IsKept :
      (phase : String) (h : History) (conds : List Condition)
      (answer : Result ApiError ClusterDefinition) (w : Log)
      → IsKept w
      → IsKept (write_fresh api phase h conds answer w).1
  unfolding write_fresh set_conditions update_status is_kept
  write_fresh-IsKept phase h conds (err e) w k = k
  write_fresh-IsKept phase h conds (ok fresh) w k = k

  run_engine-IsKept :
      (def : Types.ClusterDefinition) (lf : LockFile) (secrets_env : Map String) (w : Log)
      → IsKept w
      → IsKept (run_engine api def lf secrets_env w).1
  unfolding run_engine is_kept
  run_engine-IsKept def lf secrets_env w h = h

  conclude_pass-IsKept :
      Retries api
      → (cr : ClusterDefinition) (pass : Pass) (w : Log) → IsKept w
      → IsKept (conclude_pass api cr pass w).1
  unfolding conclude_pass write_pass
  conclude_pass-IsKept retries cr (result, h) w k =
      retry_on_conflict-keeps IsKept _ (λ w' k'. write_fresh-IsKept _ _ _ _ w' k') api retries w k

  reconcile_prepared-IsKept :
      Retries api
      → (cr : ClusterDefinition) (prepared : Result String (LockFile × Map String)) (w : Log)
      → IsKept w
      → IsKept (reconcile_prepared api cr prepared w).1
  unfolding reconcile_prepared
  reconcile_prepared-IsKept retries cr (err message) w h = h
  reconcile_prepared-IsKept retries cr (ok (lf, secrets_env)) w h =
      conclude_pass-IsKept retries cr _ _ (run_engine-IsKept _ lf secrets_env w h)

  add_finalizer-IsKept :
      Finalizers api
      → (cr : ClusterDefinition) (w : Log) → IsKept w
      → IsKept (add_finalizer api cr w).1
  unfolding add_finalizer update is_kept
  add_finalizer-IsKept finalizers cr w h =
      ground (arith, h, finalizers.contains-add cr cluster_definition_finalizer)

  -- Kept, and with a newest pass that ended as told.
  abbrev IsAfter : Bool → Log → Type 0
  IsAfter done w = IsKept w × (is_cleaned w ≡ done)

  conclude_record-IsAfter :
      (done : Bool) (text : String) (result : Done) (answer : Result ApiError ClusterDefinition)
      (w : Log)
      → IsAfter done w
      → IsAfter done (conclude_record api text result answer w).1
  unfolding conclude_record set_condition set_conditions update_status is_kept is_cleaned
  conclude_record-IsAfter done text result (err not_found) w h = h
  conclude_record-IsAfter done text result (err conflict) w h = h
  conclude_record-IsAfter done text result (err (rejected message)) w h = h
  conclude_record-IsAfter done text (ok _) (ok fresh) w h = h
  conclude_record-IsAfter done text (err e) (ok fresh) w h = h

  record_if_any-IsAfter :
      (done : Bool) (text : String) (result : Done) (w : Log)
      → IsAfter done w
      → IsAfter done (record_if_any api text result w).1
  unfolding record_if_any record_delete_output
  record_if_any-IsAfter done text result w h = elim (Bool-cases (text == "")) [
    | inl e ↦ rw e h
    | inr e ↦ rw e (conclude_record-IsAfter done text result _ w h)
  ]

  release-IsKept :
      (answer : Result ApiError ClusterDefinition) (w : Log)
      → IsAfter true w
      → IsKept (release api answer w).1
  unfolding release update is_kept
  release-IsKept (err not_found) w h = h.0
  release-IsKept (err conflict) w h = h.0
  release-IsKept (err (rejected message)) w h = h.0
  release-IsKept (ok fresh) w h = ground (arith, h.0, h.1)

  conclude_cleanup-IsKept :
      (result : Done) (w : Log)
      → IsAfter (is_done result) w
      → IsKept (conclude_cleanup api result w).1
  unfolding conclude_cleanup
  conclude_cleanup-IsKept (err e) w h = h.0
  conclude_cleanup-IsKept (ok _) w h = release-IsKept _ w h

  conclude_delete-IsKept :
      (pass : Pass) (w : Log) → IsAfter (is_done pass.0) w → IsKept (conclude_delete api pass w).1
  unfolding conclude_delete
  conclude_delete-IsKept (result, h') w h =
      conclude_cleanup-IsKept result _ (record_if_any-IsAfter (is_done result) _ result w h)

  run_engine-IsAfter :
      (def : Types.ClusterDefinition) (lf : LockFile) (secrets_env : Map String) (w : Log)
      → def.spec.delete ≡ true
      → IsKept w
      → IsAfter
          (is_done (run_engine api def lf secrets_env w).0.0)
          (run_engine api def lf secrets_env w).1
  unfolding run_engine is_kept is_cleaned
  run_engine-IsAfter def lf secrets_env w d h = (h, rw d refl)

  delete_prepared-IsKept :
      (cr : ClusterDefinition) (prepared : Result String (LockFile × Map String)) (w : Log)
      → is_some cr.metadata.deletion_timestamp ≡ true
      → IsKept w
      → IsKept (delete_prepared api cr prepared w).1
  unfolding delete_prepared
  delete_prepared-IsKept cr (err message) w d h = h
  delete_prepared-IsKept cr (ok (lf, secrets_env)) w d h =
      conclude_delete-IsKept _ _
        (run_engine-IsAfter _ lf secrets_env w (delete-to_types_cluster_definition cr d) h)

  reconcile_delete-IsKept :
      (cr : ClusterDefinition) (w : Log)
      → is_some cr.metadata.deletion_timestamp ≡ true
      → IsKept w
      → IsKept (reconcile_delete api cr w).1
  unfolding reconcile_delete
  reconcile_delete-IsKept cr w d h =
      elim (Bool-cases (api.contains_finalizer cr cluster_definition_finalizer)) [
        | inl e ↦ rw e (delete_prepared-IsKept cr _ _ d (prepare-IsKept _ _ w h))
        | inr e ↦ rw e h
      ]

  module _ (retries : Retries api) (finalizers : Finalizers api) where
    reconcile_found-IsKept :
        (cr : ClusterDefinition) (w : Log) → IsKept w → IsKept (reconcile_found api cr w).1
    unfolding reconcile_found
    reconcile_found-IsKept cr w h = elim (Bool-cases (is_some cr.metadata.deletion_timestamp)) [
      | inl d ↦ rw d (reconcile_delete-IsKept cr w d h)
      | inr d ↦ elim (Bool-cases (api.contains_finalizer cr cluster_definition_finalizer)) [
        | inl e ↦ rw (d, e) (reconcile_prepared-IsKept retries cr _ _ (prepare-IsKept _ _ w h))
        | inr e ↦ rw (d, e) (add_finalizer-IsKept finalizers cr w h)
      ]
    ]

    conclude_get-IsKept :
        (answer : Result ApiError ClusterDefinition) (w : Log)
        → IsKept w
        → IsKept (conclude_get api answer w).1
    unfolding conclude_get
    conclude_get-IsKept (err not_found) w h = h
    conclude_get-IsKept (err conflict) w h = h
    conclude_get-IsKept (err (rejected message)) w h = h
    conclude_get-IsKept (ok cr) w h = reconcile_found-IsKept cr w h

    -- In the log of any calls of Reconcile, each update of the ClusterDefinition that lacks the
    -- finalizer follows a pass of the engine over a definition to delete that returned no error.
    pub is_kept-reconcile : (w : Log) → is_kept w ≡ true → is_kept (reconcile api w).1 ≡ true
    unfolding reconcile
    is_kept-reconcile w h = conclude_get-IsKept _ w h
