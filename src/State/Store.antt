-- ===== src/State/Store.antt =====
-- SaveClusterDefinition, RemoveClusterFile and LoadClusterDefinitions of internal/state/state.go.
-- A call that fails in the middle leaves what it wrote before.
use hyve.Prelude.{
  String, Bool, false, not, ◌&&◌, Option, none, some, is_some, List, [], ◌∷◌, ◌==◌, if◌then◌else◌,
  Result, ok, err, ◌>>=◌,
}
use hyve.Prelude.Maps.{Map, lookup, insert, erase}
use hyve.Types
use hyve.V1alpha1
use hyve.Crdconv.{from_types_cluster_definition_spec, from_types_cluster_definition_status}
use hyve.State.{
  Disk, System, StateError, not_read, not_written, not_removed, not_made, not_marshaled, not_found,
  RepoConfig, LocalClusterDefinition, cluster_path, sidecar_path, cluster_kind, status_is_empty,
  is_cluster_file, decode_cluster_definition, merge_sidecar,
}

-- What a call that changes the disk answers, and the disk after it.
abbrev pub Write : Type 0
Write = Option StateError × Disk

abbrev pub files_of : Option (Map String) → Map String
files_of none = []
files_of (some files) = files

-- What SaveClusterDefinition writes to the primary file.
unfoldable pub local_of : Types.ClusterDefinition → LocalClusterDefinition
local_of def = record {
  api_version = V1alpha1.group_version;
  kind = cluster_kind;
  metadata = record {
    name = def.metadata.name;
    labels = [];
    generation = 0;
    deletion_timestamp = none;
    finalizers = [];
  };
  spec = from_types_cluster_definition_spec def;
}

module _ (sys : System) where
  -- With the marshaled configuration.
  unfoldable write_config : Option String → Disk → Write
  write_config none disk = (some (not_marshaled "hyve.yaml"), disk)
  write_config (some text) disk =
      if sys.can_write "hyve.yaml"
      then (none, record disk { config = some text })
      else (some (not_written "hyve.yaml"), disk)

  unfoldable pub save_repo_config : RepoConfig → Disk → Write
  unfolding write_config
  save_repo_config cfg disk = write_config (sys.marshal_config cfg) disk

  -- os.Remove, for which a file that is not there is removed already.
  unfoldable pub remove_sidecar : String → Disk → Write
  remove_sidecar name disk =
      if is_some (lookup (sidecar_path sys name) disk.sidecars)
      then (if sys.can_remove (sidecar_path sys name)
          then (none, record disk { sidecars = erase (sidecar_path sys name) disk.sidecars })
          else (some (not_removed (sidecar_path sys name)), disk))
      else (none, disk)

  -- os.MkdirAll and os.WriteFile with the marshaled status.
  unfoldable pub write_sidecar : String → Option String → Disk → Write
  write_sidecar name none disk = (some (not_marshaled (sidecar_path sys name)), disk)
  write_sidecar name (some text) disk =
      if not (sys.can_mkdir "cluster-state")
      then (some (not_made "cluster-state"), disk)
      else if sys.can_write (sidecar_path sys name)
      then (none, record disk { sidecars = insert (sidecar_path sys name) text disk.sidecars })
      else (some (not_written (sidecar_path sys name)), disk)

  -- From the primary file being written on.
  unfoldable pub save_status : String → V1alpha1.ClusterDefinitionStatus → Disk → Write
  save_status name status disk =
      if status_is_empty status
      then remove_sidecar name disk
      else write_sidecar name (sys.marshal_status status) disk

  -- With the marshaled primary file; the directory is there.
  unfoldable pub save_marshaled : Types.ClusterDefinition → Option String → Disk → Write
  save_marshaled def none disk = (some (not_marshaled def.metadata.name), disk)
  save_marshaled def (some text) disk =
      if sys.can_write (cluster_path sys def.metadata.name)
      then save_status def.metadata.name (from_types_cluster_definition_status def) (record disk {
        clusters = some (insert (cluster_path sys def.metadata.name) text (files_of disk.clusters));
      })
      else (some (not_written (cluster_path sys def.metadata.name)), disk)

  unfoldable pub save_cluster_definition : Types.ClusterDefinition → Disk → Write
  save_cluster_definition def disk =
      if sys.can_mkdir "clusters"
      then save_marshaled def (sys.marshal_local (local_of def))
          (record disk { clusters = some (files_of disk.clusters) })
      else (some (not_made "clusters"), disk)

  -- The path of the first file that holds the cluster; a file that cannot be read or decoded is
  -- passed over.
  is_file_of : String → String → String → Bool
  is_file_of name path text =
      is_cluster_file path && sys.can_read path && elim (decode_cluster_definition sys path text) [
        | ok def ↦ def.metadata.name == name
        | err e ↦ false
      ]

  unfoldable pub find_file : String → Map String → Option String
  unfolding is_file_of
  find_file name [] = none
  find_file name ((path, text) ∷ files) =
      let further = find_file name files in if is_file_of name path text then some path else further

  -- With the path that was found.
  unfoldable pub remove_found : String → Option String → Disk → Write
  remove_found name none disk = (some (not_found name), disk)
  remove_found name (some path) disk =
      if sys.can_remove path
      then remove_sidecar name
          (record disk { clusters = some (erase path (files_of disk.clusters)) })
      else (some (not_removed path), disk)

  unfoldable pub remove_cluster_file : String → Disk → Write
  remove_cluster_file name disk = remove_found name (find_file name (files_of disk.clusters)) disk

  load_file : String → String → Disk → Result StateError Types.ClusterDefinition
  load_file path text disk =
      if sys.can_read path
      then (decode_cluster_definition sys path text >>= λ def. merge_sidecar sys disk def)
      else err (not_read path)

  unfoldable pub load_files : Map String → Disk → Result StateError (List Types.ClusterDefinition)
  unfolding load_file
  load_files [] disk = ok []
  load_files ((path, text) ∷ files) disk =
      let further = load_files files disk in
      if is_cluster_file path
      then (load_file path text disk >>= λ def. further >>= λ defs. ok (def ∷ defs))
      else further

  -- Without the directory there is no cluster.
  unfoldable pub load_cluster_definitions : Disk → Result StateError (List Types.ClusterDefinition)
  load_cluster_definitions disk = load_files (files_of disk.clusters) disk
