-- ===== src/Tests/Control.antt =====
-- The theorems on internal/controller/reconciler.go on concrete inputs, and runs of it.
use mathlib.Core.Path.{subst}
use hyve.Prelude.{
  String, true, false, not, none, some, List, [], ◌∷◌, ◌==◌, ◌≡◌, refl, any, keep, ok, err,
  str_eq_self, ap, inl, inr, length, ◌≤◌, arith, Bool-cases, ◌⊎◌, Result, if◌then◌else◌, eq_iff,
}
use hyve.V1alpha1.{ClusterDefinition, Condition, cluster_definition_finalizer}
use hyve.V1alpha1.Records.{WorkflowRefStatus}
use hyve.Crdconv.{
  to_types_cluster_definition, to_types_driver_ref, to_types_workflows_spec, to_types_workflow_refs,
  to_types_resource_refs, to_types_agent_spec, to_types_applied_agent, to_types_applied_resources,
}
use hyve.Lock.{LockFile, get_locked}
use hyve.Prelude.Maps.{Map, lookup, get_or_empty}
use hyve.Reconcile.Refs.{all_workflow_hook_refs, is_host_cluster_without_driver, effective_status}
use hyve.Reconcile.Hooks.{run_workflows}
use hyve.Reconcile.Cluster.{
  execute, delete_cluster, authenticate, conclude_delete, record_output, remove_cluster_file,
}
use hyve.Reconcile.Dispatch.{
  reconcile_cluster, run_module, check_requirements, check_and_dispatch, is_auth_only,
  conclude_status, dispatch, next_action, perform,
}
use hyve.Reconcile.One.{
  reconcile_one, reconcile_checked, expire, unmet_dependency, first_unmet_if_loaded,
  reconcile_unless_unmet,
}
use hyve.Reconcile.Locked.{validate_locked}
use hyve.Controller.Conditions.{
  phase_reason, cluster_conditions, put_conditions, condition_type_ready, condition_type_error,
}
use hyve.Controller.Conditions.View.{
  find_condition, set_views, find_condition-put_conditions, is_condition_true,
  is_condition_true-cluster_conditions,
}
use hyve.Controller.Conditions.Bounds.{start, pass, Written-le}
use hyve.Controller.Api.{
  Api, Client, ApiError, not_found, Verb, Log, WorkflowRefResult, status_updated, wrote_workflow,
}
use hyve.Controller.Assumed.{Retries, Finalizers, attempts}
use hyve.Controller.Upsert.{upsert_workflow_ref_status_cr}
use hyve.Controller.Upsert.Again.{ReadsBack, upsert_workflow_ref_status_cr-again}
use hyve.Controller.Loop.{reconcile, run_engine}
use hyve.Controller.Loop.Safety.{is_kept, is_kept-reconcile}
use hyve.Controller.Loop.Statuses.{is_truthful, is_truthful-reconcile}
use hyve.Controller.Loop.Release.{
  IsAvailable, IsReleased, reconcile-IsReleased, reconcile-IsReleased_paused,
}
use hyve.Controller.Provider.{Cluster, save_cluster_definition, load_cluster_definition}
use hyve.Controller.Provider.Saved.{
  IsSubresource, observing, load_cluster_definition-save_cluster_definition_crd,
}
use hyve.Tests.Data.{dev, no_locks, demo_host}

-- "team-dev" with a local driver, and its finalizer.
abbrev live : ClusterDefinition
live = record {
  api_version = "hyve.io/v1alpha1";
  kind = "ClusterDefinition";
  metadata = record {
    name = "team-dev";
    labels = [];
    generation = 2;
    deletion_timestamp = none;
    finalizers = cluster_definition_finalizer ∷ [];
  };
  spec = record {
    region = "lon1";
    driver = record { source = "./modules/civo"; version = "" };
    runner = record { image = "" };
    mgmt_cluster = "";
    params = [];
    workflows = record {
      before_create = [];
      on_create = [];
      after_create = [];
      on_delete = [];
      after_delete = [];
      pre_reconcile = [];
    };
    resources = [];
    delete = false;
    pause = false;
    expires_at = "";
    depends_on = [];
    access = record { method = ""; agent = none };
  };
  status = record {
    driver_outputs = [];
    applied_resources = [];
    applied_agent = none;
    phase = "";
    conditions = [];
    observed_generation = 1;
    access = record { method = "" };
    last_create_output = "";
    last_delete_output = "";
    agent = record {
      connected = false;
      last_connected_at = "";
      last_disconnected_at = "";
      version = "";
    };
  };
}

abbrev dying : ClusterDefinition
dying = record live { metadata = record live.metadata { deletion_timestamp = some 7 } }

abbrev paused : ClusterDefinition
paused = record dying { spec = record dying.spec { pause = true } }

abbrev no_objects : {A : Type 0} → Client A
no_objects = record {
  get = λ name w. err not_found;
  on_create = λ obj w. ok obj;
  on_update = λ obj w. ok obj;
  on_update_status = λ obj w. ok obj;
}

-- Where the object is the given one and everything succeeds.
abbrev serving : ClusterDefinition → Api
serving cr = record {
  get_cluster = λ w. ok cr;
  update_cluster = λ obj w. none;
  update_cluster_status = λ obj w. none;
  retry_on_conflict = λ f. f;
  modules = no_objects;
  workflow_ref_statuses = no_objects;
  resource_ref_statuses = no_objects;
  get_secret = λ w. err not_found;
  load_lock_file = λ w. ok no_locks;
  ensure_resolved = λ source version token w. none;
  install_workflows = λ refs token w. ok (record { results = []; changed = false });
  install_resources = λ refs token w. ok (record { results = []; changed = false });
  contains_finalizer = λ obj name. any (λ f. f == name) obj.metadata.finalizers;
  add_finalizer = λ obj name. record obj {
    metadata = record obj.metadata { finalizers = name ∷ obj.metadata.finalizers };
  };
  remove_finalizer = λ obj name. record obj {
    metadata = record obj.metadata {
      finalizers = keep (λ f. not (f == name)) obj.metadata.finalizers;
    };
  };
  now = λ w. 5;
  engine = λ w. demo_host;
  describe = λ e. "failed";
}

any-keep-not :
    (name : String) (names : List String)
    → any (λ f. f == name) (keep (λ f. not (f == name)) names) ≡ false
any-keep-not name [] = refl
any-keep-not name (other ∷ names) = ground (arith, any-keep-not name names)

serving-Retries : (cr : ClusterDefinition) → Retries (serving cr)
unfolding attempts
serving-Retries cr = record { tries = λ f w. (0, refl) }

serving-Finalizers : (cr : ClusterDefinition) → Finalizers (serving cr)
serving-Finalizers cr = record {
  contains-add = λ obj name. rw (str_eq_self name) refl;
  contains-remove = λ obj name. any-keep-not name obj.metadata.finalizers;
}

serving-IsAvailable : (cr : ClusterDefinition) → IsAvailable (serving cr)
serving-IsAvailable cr = record {
  found = λ w. (cr, refl);
  accepted = λ obj w. refl;
  locked = λ w. (no_locks, refl);
}

is_kept-reconcile_example : is_kept (serving dying) (reconcile (serving dying) []).1 ≡ true
unfolding is_kept
is_kept-reconcile_example =
    is_kept-reconcile (serving dying) (serving-Retries dying) (serving-Finalizers dying) [] refl

is_truthful-reconcile_example : is_truthful (reconcile (serving live) []).1 ≡ true
unfolding is_truthful
is_truthful-reconcile_example =
    is_truthful-reconcile (serving live) (serving-Retries live) live [] refl refl refl

engine_deletes :
    (lf : LockFile) (secrets_env : Map String)
    → (reconcile_one demo_host lf (to_types_cluster_definition dying) false secrets_env []).0
      ≡ ok tt
unfolding to_types_cluster_definition to_types_driver_ref to_types_workflows_spec
    to_types_workflow_refs to_types_resource_refs to_types_agent_spec to_types_applied_agent
    to_types_applied_resources get_or_empty lookup validate_locked all_workflow_hook_refs
    reconcile_one reconcile_checked expire unmet_dependency first_unmet_if_loaded
    reconcile_unless_unmet is_host_cluster_without_driver reconcile_cluster run_module
    check_requirements check_and_dispatch execute is_auth_only conclude_status effective_status
    dispatch next_action perform delete_cluster authenticate run_workflows conclude_delete
    record_output remove_cluster_file
engine_deletes lf secrets_env = refl

reconcile-IsReleased_example : IsReleased (serving dying) (reconcile (serving dying) [])
unfolding run_engine
reconcile-IsReleased_example =
    reconcile-IsReleased (serving dying) (serving-Finalizers dying) (serving-IsAvailable dying)
      dying (λ lf secrets_env w. engine_deletes lf secrets_env) [] refl refl refl

abbrev ok_or : {A : Type 0} → A → Result String A → A
ok_or a (ok b) = b
ok_or a (err e) = a

-- Paused, with a driver from another repository.
abbrev paused_remote : ClusterDefinition
paused_remote = record paused {
  spec = record paused.spec { driver = record { source = "github.com/o/civo"; version = "v1" } };
}

abbrev civo_locked : LockFile
civo_locked = record no_locks {
  modules =
      (
        "github.com/o/civo@v1",
        record {
          source = "github.com/o/civo";
          resolved = "v1";
          sha256 = "ab";
          runner = record { image = ""; digest = "" };
        },
      )
      ∷ [];
}

-- Where the lock file has that driver.
abbrev locking : Api
locking = record (serving paused_remote) { load_lock_file = λ w. ok civo_locked }

locking-Finalizers : Finalizers locking
locking-Finalizers = record {
  contains-add = λ obj name. rw (str_eq_self name) refl;
  contains-remove = λ obj name. any-keep-not name obj.metadata.finalizers;
}

locking-IsAvailable : IsAvailable locking
locking-IsAvailable = record {
  found = λ w. (paused_remote, refl);
  accepted = λ obj w. refl;
  locked = λ w. (civo_locked, refl);
}

paused_remote-locked :
    validate_locked (to_types_cluster_definition paused_remote) civo_locked ≡ ok tt
unfolding to_types_cluster_definition to_types_driver_ref to_types_workflows_spec
    to_types_workflow_refs to_types_resource_refs validate_locked all_workflow_hook_refs get_locked
paused_remote-locked = refl

loaded-locked :
    (lf : LockFile) (w : Log)
    → locking.load_lock_file w ≡ ok lf
    → validate_locked (to_types_cluster_definition paused_remote) lf ≡ ok tt
loaded-locked lf w e =
    subst (λ l. validate_locked (to_types_cluster_definition paused_remote) l ≡ ok tt)
      (ap (ok_or no_locks) e) paused_remote-locked

reconcile-IsReleased_paused_example :
    IsReleased locking (reconcile locking [])
    × ((lf : LockFile) (before : Log)
        → locking.load_lock_file before ≡ ok lf
        → (secrets_env : Map String) (w' : Log)
        → (run_engine locking (to_types_cluster_definition paused_remote) lf secrets_env w').0.1
          ≡ [])
reconcile-IsReleased_paused_example =
    reconcile-IsReleased_paused locking locking-Finalizers locking-IsAvailable paused_remote [] refl
      refl refl refl loaded-locked

-- A server that keeps the statuses it is given.
read_status : String → Log → Result ApiError WorkflowRefStatus
read_status name [] = err not_found
read_status name (wrote_workflow Verb.update_status obj ∷ w) =
    let older = read_status name w in if obj.name == name then ok obj else older
read_status name (_ ∷ w) = read_status name w

read_status-answers :
    (name : String) (w : Log)
    → (read_status name w ≡ err not_found)
      ⊎ ((found : WorkflowRefStatus) × (read_status name w ≡ ok found) × (found.name ≡ name))
unfolding read_status
read_status-answers name [] = inl refl
read_status-answers name (wrote_workflow Verb.update_status obj ∷ w) =
    elim (Bool-cases (obj.name == name)) [
      | inl e ↦ inr (obj, rw e refl, (eq_iff obj.name name).0 e)
      | inr e ↦ rw e (read_status-answers name w)
    ]
read_status-answers name (_ ∷ w) = read_status-answers name w

abbrev keeping : Api
unfolding read_status
keeping = record (serving live) {
  workflow_ref_statuses = record {
    get = read_status;
    on_create = λ obj w. ok obj;
    on_update = λ obj w. ok obj;
    on_update_status = λ obj w. ok obj;
  };
}

keeping-ReadsBack : ReadsBack keeping.workflow_ref_statuses wrote_workflow
unfolding read_status
keeping-ReadsBack = record {
  answers = read_status-answers;
  creates = λ obj w. (obj, refl, refl);
  updates = λ obj w. (obj, refl, refl);
  keeps_status = λ obj w. rw (str_eq_self obj.name) refl;
}

abbrev resolved_deploy : WorkflowRefResult
resolved_deploy = record {
  name = "deploy";
  canonical_source = "github.com/o/r//deploy.yaml";
  raw_version = "v1";
  resolved_version = "v1.2";
  sha256 = "ab";
  error = none;
}

upsert_workflow_ref_status_cr-again_example :
    (upsert_workflow_ref_status_cr keeping resolved_deploy
      (upsert_workflow_ref_status_cr keeping resolved_deploy []).1).1
    ≡ (upsert_workflow_ref_status_cr keeping resolved_deploy []).1
upsert_workflow_ref_status_cr-again_example =
    upsert_workflow_ref_status_cr-again keeping resolved_deploy [] keeping-ReadsBack

abbrev failed_once : List Condition
failed_once = put_conditions 1 (cluster_conditions "" (some "no module")) []

Written-le_example : length failed_once ≤ 2
Written-le_example = Written-le (pass 1 "" (some "no module") start)

find_condition-put_conditions_example :
    (λ kind. find_condition kind (put_conditions 2 (cluster_conditions "ACTIVE" none) failed_once))
    ≡ set_views 2 (cluster_conditions "ACTIVE" none) (λ kind. find_condition kind failed_once)
find_condition-put_conditions_example =
    find_condition-put_conditions 2 (cluster_conditions "ACTIVE" none) failed_once

is_condition_true-cluster_conditions_example :
    (is_condition_true condition_type_ready
        (put_conditions 2 (cluster_conditions "ACTIVE" none) failed_once)
      ≡ true)
    × (is_condition_true condition_type_error
          (put_conditions 2 (cluster_conditions "ACTIVE" none) failed_once)
        ≡ false)
is_condition_true-cluster_conditions_example =
    is_condition_true-cluster_conditions 2 "ACTIVE" none failed_once

abbrev active : List Condition
active = put_conditions 1 (cluster_conditions "ACTIVE" none) []

phase_reason_not_found : phase_reason "NOT_FOUND" ≡ "NotFound"
unfolding phase_reason
phase_reason_not_found = refl

-- One object, whose status is the last that was written.
newest_status : Log → ClusterDefinition
newest_status [] = live
newest_status (status_updated cr true ∷ w) =
    let older = newest_status w in record older { status = cr.status }
newest_status (_ ∷ w) = newest_status w

newest_status-name : (w : Log) → (newest_status w).metadata.name ≡ "team-dev"
unfolding newest_status
newest_status-name [] = refl
newest_status-name (status_updated cr true ∷ w) = newest_status-name w
newest_status-name (_ ∷ w) = newest_status-name w

abbrev one_object : Cluster
unfolding newest_status
one_object = record {
  get = λ name w. if name == "team-dev" then ok (newest_status w) else err not_found;
  list = λ w. ok (newest_status w ∷ []);
  update_status = λ obj w. none;
  delete = λ name w. none;
  get_config = λ w. err not_found;
}

one_object-IsSubresource : IsSubresource one_object
unfolding newest_status
one_object-IsSubresource = record {
  named = λ name cr w e. ground (arith, e, newest_status-name w, eq_iff name "team-dev");
  takes_status = λ stored obj w e. ground (arith, e);
}

load_cluster_definition-save_cluster_definition_crd_example :
    ((save_cluster_definition one_object dev []).0 ≡ none)
    × ((load_cluster_definition one_object "team-dev"
          (save_cluster_definition one_object dev []).1).0
        ≡ ok (observing dev (to_types_cluster_definition live)))
unfolding newest_status
load_cluster_definition-save_cluster_definition_crd_example =
    load_cluster_definition-save_cluster_definition_crd one_object dev live []
      one_object-IsSubresource refl (λ obj. refl)
