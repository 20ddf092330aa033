-- ===== src/State.antt =====
-- internal/state/state.go: the files of a local repository. A definition is a primary file
-- clusters/<name>.yaml with what a person writes and a sidecar cluster-state/<name>.state.yaml with
-- what the reconciler observed. The YAML library is a parameter, and so is which calls of the
-- operating system succeed.
pub mod Store
pub mod Files
pub mod Others
use hyve.Prelude.{
  String, Bool, true, false, not, ◌&&◌, ◌||◌, Option, none, some, is_some, List, [], ◌∷◌, ◌==◌,
  if◌then◌else◌, Result, ok, err, ◌>>=◌,
}
use hyve.Prelude.Text.{◌<>◌, ends_with}
use hyve.Prelude.Maps.{Map, lookup, insert, erase}
use hyve.Types
use hyve.Types.Refs.{is_empty}
use hyve.V1alpha1
use hyve.Crdconv.{
  to_types_cluster_definition, to_types_applied_resources, from_types_cluster_definition_spec,
  from_types_cluster_definition_status,
}

pub data ReconcileMode : Type 0 where
  unset local cicd : ReconcileMode
  other : String → ReconcileMode

pub record RepoConfig : Type 0 where
  pub mode : ReconcileMode
  pub strict_delete : Bool
  pub strict_resource_delete : Bool
  pub env_file : String

-- A primary file's shape.
pub record LocalClusterDefinition : Type 0 where
  pub api_version : String
  pub kind : String
  pub metadata : V1alpha1.ObjectMeta
  pub spec : V1alpha1.ClusterDefinitionSpec

-- The files below the root: hyve.yaml, those below clusters/ by their path in it, in the order in
-- which WalkDir visits them, `none` without the directory, and the sidecars by their name.
pub record Disk : Type 0 where
  pub config : Option String
  pub clusters : Option (Map String)
  pub sidecars : Map String

-- Which calls succeed, by path in the file's directory, and the two YAML libraries. filepath.Join
-- cleans the path that it joins: `clean` is the path in the directory that comes of it.
pub record System : Type 0 where
  pub clean : String → String
  pub can_mkdir : String → Bool
  pub can_read : String → Bool
  pub can_write : String → Bool
  pub can_remove : String → Bool
  pub unmarshal_config : String → Option RepoConfig
  pub marshal_config : RepoConfig → Option String
  pub marshal_local : LocalClusterDefinition → Option String
  pub unmarshal_local : String → Option LocalClusterDefinition
  pub marshal_status : V1alpha1.ClusterDefinitionStatus → Option String
  pub unmarshal_status : String → Option V1alpha1.ClusterDefinitionStatus

-- By path or name.
pub data StateError : Type 0 where
  not_read not_written not_removed not_made not_parsed not_marshaled : String → StateError
  wrong_kind : String → String → String → StateError
  not_found : String → StateError
  not_searched : StateError

abbrev pub default_env_file_name : String
default_env_file_name = "hyve.env"

abbrev pub cluster_kind : String
cluster_kind = "ClusterDefinition"

abbrev pub state_sidecar_suffix : String
state_sidecar_suffix = ".state.yaml"

abbrev pub empty_status : V1alpha1.ClusterDefinitionStatus
empty_status = record {
  driver_outputs = [];
  applied_resources = [];
  applied_agent = none;
  phase = "";
  conditions = [];
  observed_generation = 0;
  access = record { method = "" };
  last_create_output = "";
  last_delete_output = "";
  agent = record {
    connected = false;
    last_connected_at = "";
    last_disconnected_at = "";
    version = "";
  };
}

unfoldable pub status_is_empty : V1alpha1.ClusterDefinitionStatus → Bool
status_is_empty s = is_empty s.driver_outputs && is_empty s.applied_resources

-- A file that WalkDir hands on is read if it is one of these.
unfoldable pub is_cluster_file : String → Bool
is_cluster_file path =
    not (ends_with path state_sidecar_suffix) && (ends_with path ".yaml" || ends_with path ".yml")

module _ (sys : System) where
  -- Paths in clusters/ and in cluster-state/.
  unfoldable pub cluster_path : String → String
  cluster_path name = sys.clean (name <> ".yaml")

  unfoldable pub sidecar_path : String → String
  sidecar_path name = sys.clean (name <> state_sidecar_suffix)

  -- The path, below the root unless it is absolute.
  resolved_env_file : RepoConfig → String
  resolved_env_file cfg = if cfg.env_file == "" then default_env_file_name else cfg.env_file

  pub resolve_env_file : Disk → String
  unfolding resolved_env_file
  resolve_env_file disk = elim disk.config [
    | none ↦ default_env_file_name
    | some text ↦
        if sys.can_read "hyve.yaml"
        then elim (sys.unmarshal_config text) [
          | none ↦ default_env_file_name
          | some cfg ↦ resolved_env_file cfg
        ]
        else default_env_file_name
  ]

  defaulted : RepoConfig → RepoConfig
  defaulted cfg = elim cfg.mode [ unset ↦ record cfg { mode = local } | _ ↦ cfg ]

  pub load_repo_config : Disk → Result StateError RepoConfig
  unfolding defaulted
  load_repo_config disk = elim disk.config [
    | none ↦ ok (record {
      mode = local;
      strict_delete = false;
      strict_resource_delete = false;
      env_file = "";
    })
    | some text ↦
        if sys.can_read "hyve.yaml"
        then elim (sys.unmarshal_config text) [
          | none ↦ err (not_parsed "hyve.yaml")
          | some cfg ↦ ok (defaulted cfg)
        ]
        else err (not_read "hyve.yaml")
  ]

  -- decodeClusterDefinition, with the parsed file.
  unfoldable pub check_local :
      String → Option LocalClusterDefinition → Result StateError Types.ClusterDefinition
  check_local path none = err (not_parsed path)
  check_local path (some file) =
      if file.api_version == V1alpha1.group_version && file.kind == cluster_kind
      then ok (
          to_types_cluster_definition (record {
            api_version = file.api_version;
            kind = file.kind;
            metadata = file.metadata;
            spec = file.spec;
            status = empty_status;
          }))
      else err (wrong_kind path file.api_version file.kind)

  unfoldable pub decode_cluster_definition :
      String → String → Result StateError Types.ClusterDefinition
  decode_cluster_definition path text = check_local path (sys.unmarshal_local text)

  -- mergeSidecar, with the parsed sidecar.
  unfoldable pub overlay :
      Types.ClusterDefinition
      → Option V1alpha1.ClusterDefinitionStatus
      → Result StateError Types.ClusterDefinition
  overlay cluster none = err (not_parsed cluster.metadata.name)
  overlay cluster (some s) = ok (record cluster {
    spec = record cluster.spec {
      driver_outputs = s.driver_outputs;
      applied_resources = to_types_applied_resources s.applied_resources;
    };
  })

  unfoldable pub overlay_text :
      Types.ClusterDefinition → Option String → Result StateError Types.ClusterDefinition
  overlay_text cluster none = ok cluster
  overlay_text cluster (some text) =
      if sys.can_read (sidecar_path cluster.metadata.name)
      then overlay cluster (sys.unmarshal_status text)
      else err (not_read (sidecar_path cluster.metadata.name))

  unfoldable pub merge_sidecar :
      Disk → Types.ClusterDefinition → Result StateError Types.ClusterDefinition
  merge_sidecar disk cluster =
      overlay_text cluster (lookup (sidecar_path cluster.metadata.name) disk.sidecars)

  unfoldable pub has_state_sidecar : String → Disk → Bool
  has_state_sidecar name disk = is_some (lookup (sidecar_path name) disk.sidecars)

  -- The content of a file below clusters/.
  unfoldable pub read_text : String → Option String → Result StateError String
  read_text path none = err (not_found path)
  read_text path (some text) = if sys.can_read path then ok text else err (not_read path)

  unfoldable pub read_cluster_file : String → Option (Map String) → Result StateError String
  read_cluster_file path none = err (not_found path)
  read_cluster_file path (some files) = read_text path (lookup path files)

  -- With the bytes of the primary file.
  unfoldable pub load_cluster_definition :
      String → Disk → Result StateError (Types.ClusterDefinition × String)
  load_cluster_definition name disk = do
    text ← read_cluster_file (cluster_path name) disk.clusters
    def ← decode_cluster_definition (cluster_path name) text
    merged ← merge_sidecar disk def
    ok (merged, text)
