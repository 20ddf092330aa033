-- ===== src/Reconcile/Traces/Contents.antt =====
-- The effects of hooks and of a resource pass.
use native.Mathlib.Omega.{arith}
use hyve.Prelude.{
  String, Bool, true, Bool-cases, Option-cases, inl, inr, ◌||◌, List, [], ◌∷◌, ◌≡◌, all,
}
use hyve.Prelude.Maps.{lookup, erase}
use hyve.Types.{AppliedResource, WorkflowRef, ClusterDefinition}
use hyve.Lock.{LockFile}
use hyve.Reconcile.World.{Env, History}
use hyve.Reconcile.Host.{Host}
use hyve.Reconcile.Traces.{Policy, permits}
use hyve.Reconcile.Refs.{env_value}
use hyve.Reconcile.Hooks.{run_hook, run_hooks, run_workflows}
use hyve.Reconcile.Resources.{ResourceItem, Expansion, applied_keys_for}
use hyve.Reconcile.Resources.Loop.{
  Loop, live_diff, prepare, sync_item, item_loop, Prepared, delete_item, apply_drift,
  remove_applied, delete_keys, apply_item, apply_helm, apply_manifest, step_item, prune, Step,
}
use hyve.Reconcile.Resources.Pass.{reconcile_resources, finish, save, prune_orphans, first_changed}

module _ (p : Policy) (host : Host) (lf : LockFile) where
  module _ (q : p.contents ≡ true) where
    run_hook-permits :
        (name token : String) (ref : WorkflowRef) (h : History)
        → all (permits p) h ≡ true
        → all (permits p) (run_hook host lf name token ref h).1 ≡ true
    unfolding run_hook
    run_hook-permits name token ref h k = grind arith

    run_hooks-permits :
        (name token : String) (refs : List WorkflowRef) (h : History)
        → all (permits p) h ≡ true
        → all (permits p) (run_hooks host lf name token refs h).1 ≡ true
    unfolding run_hooks
    run_hooks-permits name token [] h k = k
    run_hooks-permits name token (ref ∷ refs) h k =
        run_hooks-permits name token refs (run_hook host lf name token ref h).1
          (run_hook-permits name token ref h k)

    pub run_workflows-permits :
        (refs : List WorkflowRef) (name : String) (env : Env) (h : History)
        → all (permits p) h ≡ true
        → all (permits p) (run_workflows host lf refs name env h).1 ≡ true
    unfolding run_workflows
    run_workflows-permits [] name env h k = k
    run_workflows-permits (ref ∷ refs) name env h k =
        ground (arith, run_hooks-permits name (env_value env "GITHUB_TOKEN") (ref ∷ refs) h k)

    module _ (env : Env) where
      remove_applied-permits :
          (key : String) (r : AppliedResource) (h : History)
          → all (permits p) h ≡ true
          → all (permits p) (remove_applied host env lf key r h).1 ≡ true
      unfolding remove_applied
      remove_applied-permits key r h k = grind arith

      apply_item-permits :
          (item : ResourceItem) (m : Prepared) (h : History)
          → all (permits p) h ≡ true
          → all (permits p) (apply_item host env lf item m h).1 ≡ true
      unfolding apply_item apply_helm apply_manifest
      apply_item-permits item m h k = grind arith

      delete_keys-permits :
          (keys : List String) (l : Loop) (h : History)
          → all (permits p) h ≡ true
          → all (permits p) (delete_keys host env lf keys l h).1 ≡ true
      unfolding delete_keys
      delete_keys-permits [] l h k = k
      delete_keys-permits (key ∷ keys) l h k =
          elim (Option-cases (lookup key l.applied_resources)) [
            | inl e ↦ grind (arith, e, delete_keys-permits keys l h k)
            | inr (r, e) ↦ grind (
              arith,
              e,
              delete_keys-permits keys
                  (record l { applied_resources = erase key l.applied_resources })
                  (remove_applied host env lf key r h).1 (remove_applied-permits key r h k),
            )
          ]

      prune-permits :
          (keys : List String) (l : Loop) (h : History)
          → all (permits p) h ≡ true
          → all (permits p) (prune host env lf keys l h).1 ≡ true
      unfolding prune
      prune-permits [] l h k = k
      prune-permits (key ∷ keys) l h k = elim (Option-cases (lookup key l.applied_resources)) [
        | inl e ↦ grind (arith, e, prune-permits keys l h k)
        | inr (r, e) ↦ grind (
          arith,
          e,
          prune-permits keys
              (record l { applied_resources = erase key l.applied_resources; changed = true })
              (remove_applied host env lf key r h).1 (remove_applied-permits key r h k),
          prune-permits keys l (remove_applied host env lf key r h).1
              (remove_applied-permits key r h k),
        )
      ]

  module _ (env : Env) (dry_run : Bool) (q : (dry_run || p.contents) ≡ true) where
    delete_item-permits :
        (item : ResourceItem) (l : Loop) (h : History)
        → all (permits p) h ≡ true
        → all (permits p) (delete_item host env lf dry_run item l h).1 ≡ true
    unfolding delete_item
    delete_item-permits item l h k = elim (Bool-cases dry_run) [
      | inl e ↦ ground (arith, e)
      | inr e ↦ ground (
        arith,
        e,
        q,
        delete_keys-permits (ground (arith, q, e)) env
            (applied_keys_for l.applied_resources item.ref.name) l h k,
      )
    ]

    sync_item-permits :
        (item : ResourceItem) (l : Loop) (h : History)
        → all (permits p) h ≡ true
        → all (permits p) (sync_item host env lf dry_run item l h).1 ≡ true
    unfolding sync_item prepare live_diff apply_drift apply_item
    sync_item-permits item l h k = elim (Bool-cases dry_run) [
      | inl e ↦ grind (arith, e)
      | inr e ↦ grind (arith, e, q)
    ]

    step_item-permits :
        (item : ResourceItem) (l : Loop) (h : History)
        → all (permits p) h ≡ true
        → all (permits p) (step_item host env lf dry_run item l h).1 ≡ true
    unfolding step_item
    step_item-permits item l h k =
        ground (arith, delete_item-permits item l h k, sync_item-permits item l h k)

    item_loop-permits :
        (items : List ResourceItem) (l : Loop) (h : History)
        → all (permits p) h ≡ true
        → all (permits p) (item_loop host env lf dry_run items l h).1 ≡ true
    unfolding item_loop
    item_loop-permits [] l h k = k
    item_loop-permits (item ∷ items) l h k = ground (
      arith,
      step_item-permits item l h k,
      item_loop-permits items (step_item host env lf dry_run item l h).0.0
          (step_item host env lf dry_run item l h).1 (step_item-permits item l h k),
    )

    prune_orphans-permits :
        (strict : Bool) (names : List String) (l : Loop) (h : History)
        → all (permits p) h ≡ true
        → all (permits p) (prune_orphans host env lf strict dry_run names l h).1 ≡ true
    unfolding prune_orphans
    prune_orphans-permits strict names l h k = elim (Bool-cases dry_run) [
      | inl e ↦ grind (arith, e, k)
      | inr e ↦ elim (Bool-cases strict) [
        | inl e' ↦ grind (arith, e, e', prune-permits (ground (arith, q, e)) env names l h k)
        | inr e' ↦ grind (arith, e, e', k)
      ]
    ]

    save-permits :
        (changed : Bool) (cluster : ClusterDefinition) (h : History)
        → all (permits p) h ≡ true
        → all (permits p) (save host env lf dry_run changed cluster h).1 ≡ true
    unfolding save
    save-permits changed cluster h k = elim (Bool-cases dry_run) [
      | inl e ↦ grind (arith, e, k)
      | inr e ↦ grind (arith, e, k, q)
    ]

    finish-permits :
        (strict : Bool) (ex : Expansion) (cluster : ClusterDefinition) (step : Step) (h : History)
        → all (permits p) h ≡ true
        → all (permits p) (finish host env lf strict dry_run ex cluster step h).1 ≡ true
    unfolding finish
    finish-permits strict ex cluster (l, e) h k =
        save-permits _ _ _ (prune_orphans-permits strict _ l h k)

    pub reconcile_resources-permits :
        (cluster : ClusterDefinition) (strict : Bool) (h : History)
        → all (permits p) h ≡ true
        → all (permits p) (reconcile_resources host env lf cluster strict dry_run h).1 ≡ true
    unfolding reconcile_resources first_changed
    reconcile_resources-permits cluster strict h k =
        finish-permits strict _ cluster _ _ (item_loop-permits _ _ h k)
