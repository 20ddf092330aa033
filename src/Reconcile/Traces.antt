-- ===== src/Reconcile/Traces.antt =====
-- Which effects a reconciliation may have, as a policy that the definition and the mode give.
pub mod Contents
pub mod Lifecycle
pub mod Whole
pub mod One
pub mod Kept
use hyve.Prelude.{String, Bool, true, false, not, ◌&&◌}
use hyve.Types.{WorkflowRef, ClusterDefinition}
use hyve.Reconcile.World.{
  Effect, ran, hook, loaded, saved, removed, event, reported, output, deduplicated, minted, agent,
  diffed, applied, uninstalled, objects_deleted, upgraded, Operation, create, delete, status, auth,
  scale, describe,
}

-- Contents stands for hooks, resources, hyve-agent and saved definitions; `removes` for the file of
-- a cluster.
pub record Policy : Type 0 where
  pub contents : Bool
  pub creates : Bool
  pub scales : Bool
  pub deletes : Bool
  pub removes : Bool

abbrev pub permits_operation : Policy → Operation → Bool
permits_operation p create = p.creates
permits_operation p delete = p.deletes
permits_operation p scale = p.scales
permits_operation p status = true
permits_operation p auth = true
permits_operation p describe = true

-- Reading, reporting and authenticating, which tidies the local kubeconfig, are always permitted.
abbrev pub permits : Policy → Effect → Bool
permits p (ran name op done) = permits_operation p op
permits p (hook name ref) = p.contents
permits p loaded = true
permits p (saved def done) = p.contents
permits p (removed name done) = p.removes
permits p (event kind reason) = true
permits p (reported phase) = true
permits p (output op text) = p.contents
permits p (deduplicated path) = true
permits p minted = true
permits p (agent name) = p.contents
permits p (diffed name) = true
permits p (applied name) = p.contents
permits p (uninstalled name) = p.contents
permits p (objects_deleted name) = p.contents
permits p (upgraded name) = p.contents

-- A dry run changes nothing; a cluster is made or torn down as the definition asks.
abbrev pub policy_for : Bool → Bool → Policy
policy_for dry_run removing = record {
  contents = not dry_run;
  creates = not dry_run && not removing;
  scales = not dry_run && not removing;
  deletes = not dry_run && removing;
  removes = not dry_run && removing;
}
