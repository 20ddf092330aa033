-- ===== src/Controller/Loop.antt =====
-- `Reconcile`, `reconcileDelete`, `recordDeleteOutput` and `setConditions` of
-- internal/controller/reconciler.go.
pub mod Safety
pub mod Release
pub mod Statuses
use hyve.Prelude.{
  ℕ, String, Bool, true, false, not, Option, none, some, is_some, List, [], ◌∷◌, ◌==◌,
  if◌then◌else◌, Result, ok, err,
}
use hyve.Prelude.State.{◌>>=◌, ◌>>◌, pure, call, ask}
use hyve.Prelude.Maps.{Map}
use hyve.Types
use hyve.V1alpha1.{
  ClusterDefinition, ClusterDefinitionStatus, Condition, cluster_definition_finalizer,
}
use hyve.Crdconv.{to_types_cluster_definition}
use hyve.Lock.{LockFile}
use hyve.Reconcile.World.{History, Operation, Effect, create, delete, reported, output}
use hyve.Reconcile.Cluster.{Failure, Done}
use hyve.Reconcile.One.{reconcile_one}
use hyve.Controller.Conditions.{cluster_conditions, with_conditions, delete_failed}
use hyve.Controller.Api.{
  ApiError, not_found, conflict, rejected, Action, Log, M, Api, updated, status_updated, reconciled,
}
use hyve.Controller.Resolve.{resolve_if_needed, secrets_of}

-- Why a call of Reconcile returns an error.
pub data ReconcileError : Type 0 where
  get_failed finalizer_not_added re_get_failed finalizer_not_removed : ApiError → ReconcileError
  lock_not_loaded : String → ReconcileError
  reconcile_failed delete_cleanup : Failure → ReconcileError

-- The delay of the next reconciliation in seconds, 0 for none.
abbrev pub Requeue : Type 0
Requeue = Result ReconcileError ℕ

abbrev pub resync_interval : ℕ
resync_interval = 300

-- `phase` after the hooks of a pass: the last status reported, "" without one.
unfoldable pub phase_of : History → String
phase_of [] = ""
phase_of (reported phase ∷ h) = phase
phase_of (_ ∷ h) = phase_of h

-- lastCreateOutput and lastDeleteOutput after the hooks of a pass.
unfoldable pub create_output_of : History → String
create_output_of [] = ""
create_output_of (output create text ∷ h) = text
create_output_of (_ ∷ h) = create_output_of h

unfoldable pub delete_output_of : History → String
delete_output_of [] = ""
delete_output_of (output delete text ∷ h) = text
delete_output_of (_ ∷ h) = delete_output_of h

abbrev pub or_else : String → String → String
or_else first second = if first == "" then second else first

abbrev succeeded : Option ApiError → Bool
succeeded none = true
succeeded (some e) = false

abbrev pub is_done : Done → Bool
is_done (ok _) = true
is_done (err e) = false

abbrev pub or_fail : (ApiError → ReconcileError) → Option ApiError → Requeue
or_fail why none = ok 0
or_fail why (some e) = err (why e)

-- A pass of the engine: its result and its effects.
abbrev pub Pass : Type 0
Pass = Done × History

module _ (api : Api) where
  -- Client.Update, and Status().Update.
  unfoldable pub update : ClusterDefinition → M (Option ApiError)
  update cr = call (api.update_cluster cr) (λ failure. updated cr (succeeded failure))

  unfoldable pub update_status : ClusterDefinition → M (Option ApiError)
  update_status cr =
      call (api.update_cluster_status cr) (λ failure. status_updated cr (succeeded failure))

  unfoldable pub set_conditions : ClusterDefinition → ℕ → List Condition → M (Option ApiError)
  set_conditions cr generation conds = ask api.now >>= λ time.
      update_status (record cr { status = with_conditions time generation conds cr.status })

  unfoldable pub set_condition : ClusterDefinition → ℕ → Condition → M (Option ApiError)
  set_condition cr generation cond = set_conditions cr generation (cond ∷ [])

  -- ReconcileOne, not as a dry run.
  unfoldable pub run_engine : Types.ClusterDefinition → LockFile → Map String → M Pass
  run_engine def lf secrets_env w =
      let pass = reconcile_one (api.engine w) lf def false secrets_env [] in
      (pass, reconciled def pass.1 (is_done pass.0) ∷ w)

  -- The lock file and the secrets that a pass is given.
  unfoldable pub prepare :
      Types.ClusterDefinition → Result String LockFile → M (Result String (LockFile × Map String))
  prepare def (err message) = pure (err message)
  prepare def (ok lf) = ask api.get_secret >>= λ secret.
      resolve_if_needed api lf def (secrets_of secret) >>= λ lf'. pure (ok (lf', secrets_of secret))

  unfoldable pub error_text : Done → Option String
  error_text (ok _) = none
  error_text (err e) = some (api.describe e)

  -- The status before the conditions are set.
  unfoldable pub with_pass : String → History → ClusterDefinitionStatus → ClusterDefinitionStatus
  with_pass phase h status = record status {
    last_create_output = or_else (create_output_of h) status.last_create_output;
    last_delete_output = or_else (delete_output_of h) status.last_delete_output;
    phase = phase;
  }

  -- The function that is retried on a conflict, with the fresh object.
  unfoldable pub write_fresh :
      String → History → List Condition → Result ApiError ClusterDefinition → M (Option ApiError)
  write_fresh phase h conds (err e) = pure (some e)
  write_fresh phase h conds (ok fresh) =
      set_conditions (record fresh { status = with_pass phase h fresh.status })
        fresh.metadata.generation conds

  unfoldable pub write_pass : String → History → List Condition → M (Option ApiError)
  write_pass phase h conds = ask api.get_cluster >>= λ fresh. write_fresh phase h conds fresh

  finish_pass : Done → Requeue
  finish_pass (err e) = err (reconcile_failed e)
  finish_pass (ok _) = ok resync_interval

  -- A failure of the update is only logged.
  unfoldable pub conclude_pass : ClusterDefinition → Pass → M Requeue
  unfolding finish_pass
  conclude_pass cr (result, h) =
      let phase = or_else (phase_of h) cr.status.phase in
      api.retry_on_conflict (write_pass phase h (cluster_conditions phase (error_text result)))
      >> pure (finish_pass result)

  unfoldable pub reconcile_prepared :
      ClusterDefinition → Result String (LockFile × Map String) → M Requeue
  reconcile_prepared cr (err message) = pure (err (lock_not_loaded message))
  reconcile_prepared cr (ok (lf, secrets_env)) =
      run_engine (to_types_cluster_definition cr) lf secrets_env >>= λ pass. conclude_pass cr pass

  -- With the fresh object; one that is gone is fine.
  unfoldable pub conclude_record :
      String → Done → Result ApiError ClusterDefinition → M (Option ApiError)
  conclude_record text result (err not_found) = pure none
  conclude_record text result (err conflict) = pure (some conflict)
  conclude_record text result (err (rejected message)) = pure (some (rejected message))
  conclude_record text (ok _) (ok fresh) =
      update_status (record fresh { status = record fresh.status { last_delete_output = text } })
  conclude_record text (err e) (ok fresh) =
      set_condition (record fresh { status = record fresh.status { last_delete_output = text } })
        fresh.metadata.generation (delete_failed (api.describe e))

  unfoldable pub record_delete_output : String → Done → M (Option ApiError)
  record_delete_output text result =
      ask api.get_cluster >>= λ fresh. conclude_record text result fresh

  unfoldable pub record_if_any : String → Done → M (Option ApiError)
  record_if_any text result = if text == "" then pure none else record_delete_output text result

  -- With the fresh object.
  unfoldable pub release : Result ApiError ClusterDefinition → M Requeue
  release (err not_found) = pure (ok 0)
  release (err conflict) = pure (err (re_get_failed conflict))
  release (err (rejected message)) = pure (err (re_get_failed (rejected message)))
  release (ok fresh) =
      update (api.remove_finalizer fresh cluster_definition_finalizer) >>= λ failure.
      pure (or_fail finalizer_not_removed failure)

  unfoldable pub conclude_cleanup : Done → M Requeue
  conclude_cleanup (err e) = pure (err (delete_cleanup e))
  conclude_cleanup (ok _) = ask api.get_cluster >>= λ fresh. release fresh

  -- A failure to record the output is only logged.
  unfoldable pub conclude_delete : Pass → M Requeue
  conclude_delete (result, h) =
      let text = delete_output_of h in record_if_any text result >> conclude_cleanup result

  unfoldable pub delete_prepared :
      ClusterDefinition → Result String (LockFile × Map String) → M Requeue
  delete_prepared cr (err message) = pure (err (lock_not_loaded message))
  delete_prepared cr (ok (lf, secrets_env)) =
      run_engine (to_types_cluster_definition cr) lf secrets_env >>= λ pass. conclude_delete pass

  unfoldable pub reconcile_delete : ClusterDefinition → M Requeue
  reconcile_delete cr =
      if not (api.contains_finalizer cr cluster_definition_finalizer)
      then pure (ok 0)
      else (ask api.load_lock_file >>= λ loaded.
          prepare (to_types_cluster_definition cr) loaded >>= λ prepared.
          delete_prepared cr prepared)

  unfoldable pub add_finalizer : ClusterDefinition → M Requeue
  add_finalizer cr = update (api.add_finalizer cr cluster_definition_finalizer) >>= λ failure.
      pure (or_fail finalizer_not_added failure)

  -- From the guards on.
  unfoldable pub reconcile_found : ClusterDefinition → M Requeue
  reconcile_found cr =
      if is_some cr.metadata.deletion_timestamp
      then reconcile_delete cr
      else if not (api.contains_finalizer cr cluster_definition_finalizer)
      then add_finalizer cr
      else (ask api.load_lock_file >>= λ loaded.
          prepare (to_types_cluster_definition cr) loaded >>= λ prepared.
          reconcile_prepared cr prepared)

  unfoldable pub conclude_get : Result ApiError ClusterDefinition → M Requeue
  conclude_get (err not_found) = pure (ok 0)
  conclude_get (err conflict) = pure (err (get_failed conflict))
  conclude_get (err (rejected message)) = pure (err (get_failed (rejected message)))
  conclude_get (ok cr) = reconcile_found cr

  unfoldable pub reconcile : M Requeue
  reconcile = ask api.get_cluster >>= λ answer. conclude_get answer
