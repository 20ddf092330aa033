-- ===== src/Tests/Disks.antt =====
-- The theorems on internal/state/state.go on concrete inputs, and runs of it.
use hyve.Prelude.{
  String, true, none, some, [], ◌∷◌, ◌≡◌, refl, sym, ap, Result, ok, err, ne_of_differ,
}
use hyve.Types.{ClusterDefinition}
use hyve.Crdconv.{to_types_cluster_definition, from_types_cluster_definition_status}
use hyve.State.{
  Disk, System, StateError, load_cluster_definition, decode_cluster_definition, check_local,
}
use hyve.State.Store.{local_of, save_cluster_definition}
use hyve.State.Files.{IsWorking, kept, load_cluster_definition-save_cluster_definition}
use hyve.State.Others.{IsNamed, load_cluster_definition-save_other}
use hyve.Tests.Data.{dev}

abbrev prod : ClusterDefinition
prod = record dev { metadata = record dev.metadata { name = "prod" } }

-- Where every call succeeds, and every text holds the given definition.
abbrev holding : ClusterDefinition → System
holding def = record {
  clean = λ path. path;
  can_mkdir = λ path. true;
  can_read = λ path. true;
  can_write = λ path. true;
  can_remove = λ path. true;
  unmarshal_config = λ text. none;
  marshal_config = λ cfg. some "config";
  marshal_local = λ file. some "local";
  unmarshal_local = λ text. some (local_of def);
  marshal_status = λ status. some "status";
  unmarshal_status = λ text. some (from_types_cluster_definition_status def);
}

abbrev holding_works : (def : ClusterDefinition) → IsWorking (holding def) def
holding_works def = record {
  can_mkdir = λ path. refl;
  can_read = λ path. refl;
  can_write = λ path. refl;
  can_remove = λ path. refl;
  local_text = ("local", refl, refl);
  status_text = ("status", refl, refl);
}

abbrev one_file : Disk
one_file = record { config = none; clusters = some (("prod.yaml", "local") ∷ []); sidecars = [] }

load_cluster_definition-save_cluster_definition_example :
    ((save_cluster_definition (holding dev) dev one_file).0 ≡ none)
    × (load_cluster_definition
          (holding dev)
          "team-dev"
          (save_cluster_definition (holding dev) dev one_file).1
        ≡ ok (kept dev, "local"))
load_cluster_definition-save_cluster_definition_example =
    load_cluster_definition-save_cluster_definition (holding dev) dev (holding_works dev) one_file

abbrev name_of : Result StateError ClusterDefinition → String
name_of (ok def) = def.metadata.name
name_of (err e) = ""

one_file-IsNamed : IsNamed (holding prod) "prod" one_file
unfolding decode_cluster_definition check_local local_of to_types_cluster_definition
one_file-IsNamed text found r d = sym (ap name_of d)

load_cluster_definition-save_other_example :
    load_cluster_definition
      (holding prod)
      "prod"
      (save_cluster_definition (holding prod) dev one_file).1
    ≡ load_cluster_definition (holding prod) "prod" one_file
load_cluster_definition-save_other_example =
    load_cluster_definition-save_other (holding prod) dev "prod" one_file
      (record { file = λ name h. refl; sidecar = λ name h. refl }) refl refl (ne_of_differ refl)
      one_file-IsNamed
