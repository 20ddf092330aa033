-- ===== src/Tests/Engine.antt =====
-- The engine's theorems on concrete inputs, and runs of it.
use native.Mathlib.Omega.{arith}
use hyve.Prelude.{
  String, true, false, Option, none, some, if◌then◌else◌, ok, err, List, [], ◌∷◌, ◌≡◌, refl, all,
  is_some, ◌==◌,
}
use hyve.Prelude.Maps.{lookup}
use hyve.Types.Refs.{is_remote, is_remote_resource}
use hyve.Workflowref.{canonical_source, parse_source, apply_path_override, classify_path}
use hyve.Lock.{get_locked, get_locked_workflow}
use hyve.Types.{ClusterDefinition, ResourceRef}
use hyve.Reconcile.World.{History}
use hyve.Reconcile.Refs.{all_workflow_hook_refs}
use hyve.Reconcile.Locked.{
  validate_locked, validate_workflow_refs_locked, check_hook_ref, workflow_not_locked,
}
use hyve.Reconcile.Locked.Hooks.{is_runnable, validate_workflow_refs_locked-is_runnable}
use hyve.Reconcile.Cluster.{delete_cluster}
use hyve.Reconcile.Host.{DirEntry}
use hyve.Reconcile.Resources.{expand_resource_items, spec_resource_names, find_orphaned_resources}
use hyve.Reconcile.Resources.Loop.{config_changed, apply_drift, apply_item, delete_item}
use hyve.Reconcile.Resources.Orphans.{has}
use hyve.Reconcile.Resources.Expanded.{has-find_orphaned_resources}
use hyve.Reconcile.Resources.Settled.{config_changed-apply_drift, delete_item-gone}
use hyve.Reconcile.One.{reconcile_one, reconcile_checked}
use hyve.Reconcile.All.{reconcile_all}
use hyve.Reconcile.All.Effects.{
  is_read_only, is_failure, reconcile_all-is_read_only, reconcile_all-unlocked,
}
use hyve.Reconcile.All.Ends.{all_named, reconcile_all-ends}
use hyve.Reconcile.Traces.{permits, policy_for}
use hyve.Reconcile.Traces.Kept.{no_removal, delete_cluster-no_removal}
use hyve.Reconcile.Traces.One.{is_unwanted, reconcile_one-permits}
use hyve.Tests.Data.{
  dev, unlocked, no_locks, demo_host, failing_host, demo_executor, app_item, app_loop, app_prepared,
  remote_hooked, seed_locked,
}

reconcile_one-permits_example :
    all
      (permits (policy_for false (is_unwanted demo_host no_locks false dev [])))
      (reconcile_one demo_host no_locks dev false [] []).1
    ≡ true
reconcile_one-permits_example = reconcile_one-permits demo_host no_locks false dev [] [] refl

delete_cluster-no_removal_example :
    all (permits no_removal) (delete_cluster failing_host no_locks dev demo_executor [] []).1 ≡ true
delete_cluster-no_removal_example =
    delete_cluster-no_removal failing_host no_locks dev demo_executor [] [] (λ env' h'. refl) refl

reconcile_all-is_read_only_example :
    is_read_only (reconcile_all demo_host no_locks true 3 (dev ∷ []) []).1 ≡ true
reconcile_all-is_read_only_example =
    reconcile_all-is_read_only demo_host no_locks 3 (dev ∷ []) [] refl

reconcile_all-unlocked_example :
    ((reconcile_all demo_host no_locks false 3 (dev ∷ unlocked ∷ []) []).1 ≡ [])
    × (is_failure (reconcile_all demo_host no_locks false 3 (dev ∷ unlocked ∷ []) []).0 ≡ true)
unfolding validate_locked all_workflow_hook_refs is_remote_resource get_locked
reconcile_all-unlocked_example =
    reconcile_all-unlocked demo_host no_locks false 3 (dev ∷ unlocked ∷ []) [] refl

abbrev demo_names : List String
demo_names = "team-dev" ∷ []

demo_loads :
    (h : History) (defs : List ClusterDefinition)
    → demo_host.load_cluster_definitions h ≡ some defs
    → all_named demo_names defs ≡ true
demo_loads h defs e = grind (arith, e)

reconcile_all-ends_example :
    is_some (reconcile_all demo_host no_locks false 2 (dev ∷ []) []).0 ≡ true
reconcile_all-ends_example =
    reconcile_all-ends demo_host no_locks false demo_names demo_loads (dev ∷ []) [] refl

remote_hooked-locked : validate_workflow_refs_locked remote_hooked seed_locked ≡ ok tt
unfolding validate_workflow_refs_locked check_hook_ref all_workflow_hook_refs is_remote
    get_locked_workflow parse_source apply_path_override classify_path canonical_source
remote_hooked-locked = refl

-- Without its entry the hook is refused.
remote_hooked-refused :
    validate_workflow_refs_locked remote_hooked no_locks
    ≡ err (workflow_not_locked "team-dev" "github.com/o/r//hooks/seed.yaml@v1")
unfolding validate_workflow_refs_locked check_hook_ref all_workflow_hook_refs is_remote
    get_locked_workflow parse_source apply_path_override classify_path canonical_source
remote_hooked-refused = refl

validate_workflow_refs_locked-is_runnable_example :
    all is_runnable (all_workflow_hook_refs remote_hooked) ≡ true
validate_workflow_refs_locked-is_runnable_example =
    validate_workflow_refs_locked-is_runnable remote_hooked seed_locked remote_hooked-locked

delete_item-gone_example :
    is_some (
      lookup "app/web"
        (delete_item demo_host [] no_locks false app_item app_loop []).0.0.applied_resources)
    ≡ false
unfolding delete_item
delete_item-gone_example =
    delete_item-gone demo_host [] no_locks app_item app_loop [] "app/web" refl refl

config_changed-apply_drift_example :
    config_changed demo_host [] no_locks app_prepared (
      lookup "app"
        (apply_drift demo_host [] no_locks false app_item app_prepared app_loop
          []).0.0.applied_resources)
    ≡ false
unfolding apply_drift apply_item
config_changed-apply_drift_example =
    config_changed-apply_drift demo_host [] no_locks app_item app_prepared app_loop [] refl

-- Two resources from directories, of which the second cannot be listed.
abbrev dirs : List ResourceRef
dirs =
    record app_item.ref { name = "base"; source = "./base" }
    ∷ record app_item.ref { name = "lib"; source = "./lib" }
    ∷ []

abbrev list_dir : String → Option (List DirEntry)
list_dir source =
    if source == "./base"
    then some (
        record {
          stem = "web";
          resolved = record { canonical_source = "./base/web.yaml"; sha256 = "s"; text = "t" };
        }
        ∷ [])
    else none

has-find_orphaned_resources_example :
    has "app/web" (
      let expansion = expand_resource_items (λ source. true) list_dir 0 dirs in
      find_orphaned_resources
        (spec_resource_names dirs expansion.items)
        expansion.held_prefixes
        dev.spec.applied_resources)
    ≡ true
unfolding lookup
has-find_orphaned_resources_example =
    has-find_orphaned_resources (λ source. true) list_dir 0 dirs dev.spec.applied_resources
      "app/web"

-- A paused cluster is left alone.
paused_run :
    (reconcile_one demo_host no_locks
      (record dev { spec = record dev.spec { pause = true } })
      false
      []
      []).1
    ≡ []
unfolding reconcile_one validate_locked reconcile_checked all_workflow_hook_refs is_remote_resource
paused_run = refl
