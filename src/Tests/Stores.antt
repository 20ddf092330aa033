-- ===== src/Tests/Stores.antt =====
-- The theorems on references, the lock file, kubeconfig files and custom resources, on concrete
-- inputs.
use native.Mathlib.Omega.{arith}
use hyve.Workflowref.Install.{ResolvedWorkflowFile, install}
use hyve.Workflowref.Install.Locks.{is_backed, is_backed-install}
use hyve.Lock.Names.{cr_name}
use hyve.Lock.Names.Bounds.{is_object_name, cr_name-is_object_name}
use hyve.Prelude.{String, true, some, [], ◌∷◌, ◌≡◌, refl, ◌||◌, is_some, ne_of_differ, ok}
use hyve.Prelude.Text.{HasNo}
use hyve.Prelude.Maps.{get_or_empty}
use hyve.Types
use hyve.V1alpha1
use hyve.Crdconv.{to_types_cluster_definition, from_types_cluster_definition_spec}
use hyve.Crdconv.RoundTrip.{stored, agent_flags, to_types-stored, from_types_spec-to_types}
use hyve.Lock.{LockedModule}
use hyve.Workflowref.{ParsedSource, parse_source}
use hyve.Workflowref.Parse.{print_source, parse_source-print_source}
use hyve.Kubeconfig.{text, Entry, KubeConfigStructure, keep_last_by_name, merge_entry}
use hyve.Kubeconfig.Dedupe.{last_of_each_name, keep_last_by_name-eq}
use hyve.Kubeconfig.Merge.{IsMerged, merge_entry-IsMerged}
use hyve.Tests.Data.{dev, no_locks}

abbrev remote_ref : Types.WorkflowRef
remote_ref = record { name = ""; source = "github.com/o/r//w.yaml"; path = "" }

version_plain : HasNo b'@' "1.0"
version_plain = grind arith

abbrev source : String
source = "git@host/m"

abbrev version : String
version = "1.0"

abbrev locked_module : LockedModule
locked_module = record {
  source = "m";
  resolved = "abc";
  sha256 = "123";
  runner = record { image = ""; digest = "" };
}

abbrev parsed : ParsedSource
parsed = record { host = "h"; org = "o"; repo = "r"; path = "a/b.yaml"; version = "v1" }

parse_source-print_source_example : parse_source (print_source parsed) ≡ ok parsed
parse_source-print_source_example = parse_source-print_source parsed (record {
  host_plain = grind arith;
  org_plain = grind arith;
  org_given = ne_of_differ refl;
  repo_plain = grind arith;
  repo_given = ne_of_differ refl;
  version_plain = grind arith;
})

abbrev item : String → Entry
item name = ("name", text name) ∷ []

abbrev config : KubeConfigStructure
config = record {
  api_version = "v1";
  kind = "Config";
  current_context = "a";
  clusters = item "a" ∷ [];
  contexts = item "a" ∷ item "b" ∷ [];
  users = item "a" ∷ [];
}

keep_last_by_name-eq_example :
    keep_last_by_name (item "a" ∷ item "b" ∷ item "a" ∷ [])
    ≡ last_of_each_name (item "a" ∷ item "b" ∷ item "a" ∷ [])
keep_last_by_name-eq_example = keep_last_by_name-eq (item "a" ∷ item "b" ∷ item "a" ∷ [])

abbrev context : String
context = "a"

merge_entry-IsMerged_example :
    IsMerged "a"
      (item "x")
      (item "x")
      (item "x")
      config
      (merge_entry "a" (item "x") (item "x") (item "x") config)
merge_entry-IsMerged_example = merge_entry-IsMerged "a" (item "x") (item "x") (item "x") config

abbrev meta : V1alpha1.ObjectMeta
meta = record {
  name = "team-dev";
  labels = ("hyve.io/environment", "team") ∷ [];
  generation = 1;
  deletion_timestamp = some 7;
  finalizers = [];
}

to_types-stored_example : to_types_cluster_definition (stored meta dev) ≡ record {
  api_version = V1alpha1.group_version;
  kind = "ClusterDefinition";
  metadata = record dev.metadata { environment = "team" };
  spec = record dev.spec { pending_workflows = []; workflow_schedules = []; delete = true };
}
unfolding get_or_empty
to_types-stored_example = to_types-stored meta dev refl

from_types_spec-to_types_example :
    let back = from_types_cluster_definition_spec (to_types_cluster_definition (stored meta dev)) in
    (back ≡ record (stored meta dev).spec {
      delete = (stored meta dev).spec.delete || is_some meta.deletion_timestamp;
      access = record { method = (stored meta dev).spec.access.method; agent = back.access.agent };
    })
    × (agent_flags back.access.agent ≡ agent_flags (stored meta dev).spec.access.agent)
from_types_spec-to_types_example = from_types_spec-to_types (stored meta dev)

cr_name-is_object_name_example : is_object_name (cr_name "github.com/o/My_Module" "v1.0") ≡ true
cr_name-is_object_name_example = cr_name-is_object_name "github.com/o/My_Module" "v1.0"

abbrev deploy_file : ResolvedWorkflowFile
deploy_file = record {
  canonical_source = "github.com/o/r//deploy.yaml";
  raw_version = "v1";
  resolved_version = "v1.2";
  name = "deploy";
  resolved = "https://raw.githubusercontent.com/o/r/v1.2/deploy.yaml";
  sha256 = "ab";
}

is_backed-install_example :
    is_backed
      (install
        (λ source path lf token. ok (deploy_file ∷ []))
        (λ lf. true)
        (some no_locks)
        (record { name = "deploy"; source = "github.com/o/r//deploy.yaml@v1"; path = "" } ∷ [])
        "").0
    ≡ true
is_backed-install_example =
    is_backed-install (λ source path lf token. ok (deploy_file ∷ [])) (λ lf. true) no_locks
      (record { name = "deploy"; source = "github.com/o/r//deploy.yaml@v1"; path = "" } ∷ []) ""
