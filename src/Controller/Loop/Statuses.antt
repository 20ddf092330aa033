-- ===== src/Controller/Loop/Statuses.antt =====
-- The statuses that Reconcile of internal/controller/reconciler.go writes.
use hyve.Prelude.{
  ℕ, String, Bool, true, false, not, ◌&&◌, Option, is_some, [], ◌∷◌, ◌==◌, ◌≡◌, refl, arith, Result,
  ok, err, Bool-cases, inl, inr,
}
use hyve.Prelude.Maps.{Map}
use hyve.Types
use hyve.V1alpha1.{ClusterDefinition, ClusterDefinitionStatus, cluster_definition_finalizer}
use hyve.Lock.{LockFile}
use hyve.Reconcile.World.{History}
use hyve.Reconcile.Cluster.{Done}
use hyve.Controller.Conditions.{
  same_status, with_conditions, cluster_conditions, condition_type_ready, condition_type_error,
}
use hyve.Controller.Conditions.View.{is_condition_true, is_condition_true-cluster_conditions}
use hyve.Controller.Api.{ApiError, Action, Log, Api, updated, status_updated, reconciled}
use hyve.Controller.Assumed.{Retries, retry_on_conflict-keeps}
use hyve.Controller.Resolve.Keeps.{is_aside, resolve_if_needed-keeps}
use hyve.Controller.Loop.{
  update, update_status, set_conditions, run_engine, prepare, write_fresh, write_pass, with_pass,
  conclude_pass, reconcile_prepared, add_finalizer, reconcile_found, conclude_get, reconcile,
  is_done, Pass, error_text,
}

-- Whether the newest pass of the engine returned no error.
has_succeeded : Log → Bool
has_succeeded [] = false
has_succeeded (reconciled def h done ∷ w) = done
has_succeeded (_ ∷ w) = has_succeeded w

-- Ready is true exactly for an ACTIVE cluster whose newest pass succeeded, Error exactly if it failed.
describes : Bool → ClusterDefinitionStatus → Bool
describes done status =
    same_status (is_condition_true condition_type_ready status.conditions)
      (done && status.phase == "ACTIVE")
    && same_status (is_condition_true condition_type_error status.conditions) (not done)

-- Each status that was written describes the pass before it.
unfoldable pub is_truthful : Log → Bool
unfolding has_succeeded describes
is_truthful [] = true
is_truthful (status_updated cr done ∷ w) =
    let further = is_truthful w in describes (has_succeeded w) cr.status && further
is_truthful (_ ∷ w) = is_truthful w

abbrev IsTruthful : Log → Type 0
IsTruthful w = is_truthful w ≡ true

IsTruthful-aside : (a : Action) (w : Log) → is_aside a ≡ true → IsTruthful w → IsTruthful (a ∷ w)
unfolding is_truthful
IsTruthful-aside (updated cr done) w a h = cc
IsTruthful-aside (status_updated cr done) w a h = cc
IsTruthful-aside (reconciled def h' done) w a h = cc
IsTruthful-aside _ w a h = h

same_status_self : (a b : Bool) → a ≡ b → same_status a b ≡ true
same_status_self true b e = rw (← e) refl
same_status_self false b e = rw (← e) refl

describes-with_conditions :
    (now generation : ℕ) (failure : Option String) (status : ClusterDefinitionStatus)
    → describes
        (not (is_some failure))
        (with_conditions now generation (cluster_conditions status.phase failure) status)
      ≡ true
unfolding describes with_conditions
describes-with_conditions now generation failure status =
    rw
      (
        (is_condition_true-cluster_conditions now status.phase failure status.conditions).0,
        (is_condition_true-cluster_conditions now status.phase failure status.conditions).1,
        same_status_self (not (is_some failure) && status.phase == "ACTIVE") _ refl,
      )
      (same_status_self (is_some failure) _ (ground arith))

module _ (api : Api) where
  not-error_text : (result : Done) → not (is_some (error_text api result)) ≡ is_done result
  unfolding error_text
  not-error_text (ok _) = refl
  not-error_text (err e) = refl

  -- Truthful, with a newest pass that ended as told.
  abbrev IsAfter : Bool → Log → Type 0
  IsAfter done w = IsTruthful w × (has_succeeded w ≡ done)

  prepare-IsTruthful :
      (def : Types.ClusterDefinition) (loaded : Result String LockFile) (w : Log)
      → IsTruthful w
      → IsTruthful (prepare api def loaded w).1
  unfolding prepare
  prepare-IsTruthful def (err message) w h = h
  prepare-IsTruthful def (ok lf) w h =
      resolve_if_needed-keeps api IsTruthful IsTruthful-aside lf def _ w h

  write_fresh-IsAfter :
      (done : Bool) (phase : String) (effects : History) (failure : Option String)
      (answer : Result ApiError ClusterDefinition) (w : Log)
      → not (is_some failure) ≡ done
      → IsAfter done w
      → IsAfter done (write_fresh api phase effects (cluster_conditions phase failure) answer w).1
  unfolding write_fresh set_conditions update_status is_truthful with_pass
  write_fresh-IsAfter done phase effects failure (err e) w d h = h
  write_fresh-IsAfter done phase effects failure (ok fresh) w d h =
      (rw (h.1, ← d, h.0, describes-with_conditions _ _ failure _) refl, h.1)

  module _ (retries : Retries api) where
    conclude_pass-IsAfter :
        (cr : ClusterDefinition) (pass : Pass) (w : Log)
        → IsAfter (is_done pass.0) w
        → IsAfter (is_done pass.0) (conclude_pass api cr pass w).1
    unfolding conclude_pass write_pass
    conclude_pass-IsAfter cr (result, effects) w h =
        retry_on_conflict-keeps (IsAfter (is_done result)) _
          (λ w' h'. write_fresh-IsAfter _ _ _ _ _ w' (not-error_text result) h') api retries w h

    reconcile_prepared-IsTruthful :
        (cr : ClusterDefinition) (prepared : Result String (LockFile × Map String)) (w : Log)
        → IsTruthful w
        → IsTruthful (reconcile_prepared api cr prepared w).1
    unfolding reconcile_prepared run_engine is_truthful
    reconcile_prepared-IsTruthful cr (err message) w h = h
    reconcile_prepared-IsTruthful cr (ok (lf, secrets_env)) w h =
        (conclude_pass-IsAfter cr _ _ (h, refl)).0

    add_finalizer-IsTruthful :
        (cr : ClusterDefinition) (w : Log) → IsTruthful w → IsTruthful (add_finalizer api cr w).1
    unfolding add_finalizer update is_truthful
    add_finalizer-IsTruthful cr w h = h

    -- For an object that is not being deleted, each status that Reconcile writes describes the
    -- pass before it, so that Ready and Error are never both true.
    pub is_truthful-reconcile :
        (cr : ClusterDefinition) (w : Log)
        → api.get_cluster w ≡ ok cr
        → is_some cr.metadata.deletion_timestamp ≡ false
        → is_truthful w ≡ true
        → is_truthful (reconcile api w).1 ≡ true
    unfolding reconcile conclude_get reconcile_found
    is_truthful-reconcile cr w g d h =
        elim (Bool-cases (api.contains_finalizer cr cluster_definition_finalizer)) [
          | inl e ↦ rw (g, d, e) (reconcile_prepared-IsTruthful cr _ _ (prepare-IsTruthful _ _ w h))
          | inr e ↦ rw (g, d, e) (add_finalizer-IsTruthful cr w h)
        ]
