-- ===== src/Reconcile/Resources/Pass.antt =====
-- `reconcileResources` of internal/reconcile/resources.go: its items, the loop over them, the orphan
-- pass and the save.
use hyve.Prelude.{
  ℕ, ◌+◌, String, Bool, true, false, not, Option, none, some, List, [], ◌∷◌, ◌||◌, ◌&&◌,
  if◌then◌else◌, any, nat_eq,
}
use hyve.Types.{ClusterDefinition, ResourceRef}
use hyve.Types.Refs.{is_empty}
use hyve.Lock.{LockFile}
use hyve.Reconcile.World.{M, Env, ◌>>=◌, pure, call, ask, saved}
use hyve.Reconcile.Host.{Host}
use hyve.Reconcile.Resources.{
  Expansion, spec_resource_names, find_orphaned_resources, expand_resource_items,
}
use hyve.Reconcile.Resources.Loop.{expand, ResourceError, stopped, Loop, Step, item_loop, prune}

-- The resources whose index is not one of the removed.
unfoldable pub kept : List ℕ → ℕ → List ResourceRef → List ResourceRef
kept remove_idx i [] = []
kept remove_idx i (res ∷ resources) =
    let rest = kept remove_idx (i + 1) resources in
    if any (nat_eq i) remove_idx then rest else res ∷ rest

-- The error of the expansion, unless the loop broke with its own.
loop_error : Option String → Option ResourceError → Option ResourceError
loop_error failed (some stop) = some stop
loop_error none none = none
loop_error (some name) none = some (stopped expand name)

module _ (host : Host) (env : Env) (lf : LockFile) where
  unfoldable pub first_changed : ClusterDefinition → M Bool
  first_changed cluster = ask (λ w.
      not (host.has_state_sidecar cluster.metadata.name w)
      && (not (is_empty cluster.spec.driver_outputs)
          || not (is_empty cluster.spec.applied_resources)))

  unfoldable pub prune_orphans : Bool → Bool → List String → Loop → M Loop
  prune_orphans strict true orphans l = pure l
  prune_orphans false false orphans l = pure l
  prune_orphans true false orphans l = prune host env lf orphans l

  unfoldable pub save : Bool → Bool → ClusterDefinition → M Bool
  save true changed cluster = pure true
  save false false cluster = pure true
  save false true cluster = call (host.save_cluster_definition cluster) (λ done. saved cluster done)

  abbrev with_resources : ClusterDefinition → Loop → ClusterDefinition
  with_resources cluster l = record cluster {
    spec = record cluster.spec {
      resources = kept l.remove_idx 0 cluster.spec.resources;
      applied_resources = l.applied_resources;
    };
  }

  -- The orphan pass and the save, after the loop has ended with the given error.
  unfoldable pub finish :
      Bool
      → Bool
      → Expansion
      → ClusterDefinition
      → Step
      → M (ClusterDefinition × Option ResourceError)
  unfolding kept loop_error
  finish strict dry_run ex cluster (l, e) =
      prune_orphans strict dry_run
        (find_orphaned_resources
          (spec_resource_names (with_resources cluster l).spec.resources ex.items) ex.held_prefixes
          l.applied_resources)
        l
      >>= λ l'.
          (let after = record (with_resources cluster l) {
            spec = record (with_resources cluster l).spec {
              applied_resources = l'.applied_resources;
            };
          } in
            save dry_run l'.changed after >>= λ _. pure (after, loop_error ex.failed e))

  -- The loop's variables at its start.
  abbrev pub start : ClusterDefinition → Bool → Loop
  start cluster changed = record {
    applied_resources = cluster.spec.applied_resources;
    remove_idx = [];
    changed = changed;
  }

  -- The definition as it is after the pass, and the error.
  unfoldable pub reconcile_resources :
      ClusterDefinition → Bool → Bool → M (ClusterDefinition × Option ResourceError)
  reconcile_resources cluster strict dry_run = first_changed cluster >>= λ changed.
      ask (λ w.
        expand_resource_items host.is_dir_source (λ source. host.resolve_dir source w) 0
          cluster.spec.resources)
      >>= λ ex. item_loop host env lf dry_run ex.items (start cluster changed) >>= λ step.
          finish strict dry_run ex cluster step
