-- ===== src/State/Files.antt =====
-- What the files of internal/state/state.go read back.
use hyve.Prelude.{
  String, Bool, true, false, ◌&&◌, none, some, [], ◌∷◌, ◌≡◌, refl, if◌then◌else◌, ok, Bool-cases,
  Option-cases, inl, inr, ap, ◌∙◌, ◌||◌,
}
use hyve.Prelude.Maps.{Map, get_or_empty, lookup, insert, lookup-insert_self, lookup-erase_self}
use hyve.Types
use hyve.Types.Refs.{is_empty}
use hyve.V1alpha1
use hyve.Crdconv.{
  from_types_cluster_definition_spec, from_types_cluster_definition_status,
  from_types_applied_resources, from_types_applied_agent,
}
use hyve.Crdconv.RoundTrip.{to_types-stored, applied_back}
use hyve.State.{
  Disk, System, cluster_path, sidecar_path, status_is_empty, check_local, decode_cluster_definition,
  overlay, overlay_text, merge_sidecar, read_text, read_cluster_file, load_cluster_definition,
}
use hyve.State.Store.{
  files_of, local_of, remove_sidecar, write_sidecar, save_status, save_marshaled,
  save_cluster_definition,
}

-- Every call succeeds, and the YAML libraries read back what they write for the definition.
pub record IsWorking (sys : System) (def : Types.ClusterDefinition) : Type 0 where
  pub can_mkdir : (path : String) → sys.can_mkdir path ≡ true
  pub can_read : (path : String) → sys.can_read path ≡ true
  pub can_write : (path : String) → sys.can_write path ≡ true
  pub can_remove : (path : String) → sys.can_remove path ≡ true
  pub local_text :
      (text : String) × (sys.marshal_local (local_of def) ≡ some text)
      × (sys.unmarshal_local text ≡ some (local_of def))
  pub status_text :
      (text : String) × (sys.marshal_status (from_types_cluster_definition_status def) ≡ some text)
      × (sys.unmarshal_status text ≡ some (from_types_cluster_definition_status def))

-- What the files keep of a definition.
abbrev pub kept : Types.ClusterDefinition → Types.ClusterDefinition
kept def = record {
  api_version = V1alpha1.group_version;
  kind = "ClusterDefinition";
  metadata = record def.metadata { environment = "" };
  spec = record def.spec { pending_workflows = []; workflow_schedules = []; applied_agent = none };
}

-- Without what the reconciler observed.
abbrev desired : Types.ClusterDefinition → Types.ClusterDefinition
desired def = record def {
  spec = record def.spec { driver_outputs = []; applied_resources = []; applied_agent = none };
}

or_false : (b : Bool) → (b || false) ≡ b
or_false true = refl
or_false false = refl

abbrev with_observed :
    Types.ClusterDefinition → Map String → Map Types.AppliedResource → Types.ClusterDefinition
with_observed def outputs applied = record (kept def) {
  spec = record (kept def).spec { driver_outputs = outputs; applied_resources = applied };
}

with_observed-empty :
    (def : Types.ClusterDefinition) (outputs : Map String) (applied : Map Types.AppliedResource)
    → (is_empty outputs && is_empty (from_types_applied_resources applied)) ≡ true
    → with_observed def [] [] ≡ with_observed def outputs applied
unfolding from_types_applied_resources
with_observed-empty def [] [] h = refl
with_observed-empty def [] (a ∷ applied) h = cc
with_observed-empty def (o ∷ outputs) applied h = cc

module _ (sys : System) (def : Types.ClusterDefinition) (working : IsWorking sys def) where
  decode-local_of :
      (path : String) → check_local sys path (some (local_of def)) ≡ ok (kept (desired def))
  unfolding check_local local_of from_types_cluster_definition_spec
      from_types_cluster_definition_status from_types_applied_resources from_types_applied_agent
      get_or_empty lookup
  decode-local_of path =
      ap ok (to_types-stored _ (desired def) refl)
      ∙ ap
          (λ b. ok (record (kept (desired def)) {
            spec = record (kept (desired def)).spec { delete = b };
          }))
          (or_false def.spec.delete)

  abbrev observed : V1alpha1.ClusterDefinitionStatus
  observed = from_types_cluster_definition_status def

  sidecar-save_status :
      (disk : Disk)
      → let saved = save_status sys def.metadata.name observed disk in
        (lookup (sidecar_path sys def.metadata.name) saved.1.sidecars
          ≡ (if status_is_empty observed then none else some working.status_text.0))
        × (saved.1.clusters ≡ disk.clusters)
        × (saved.0 ≡ none)
  unfolding save_status remove_sidecar write_sidecar
  sidecar-save_status disk = elim (Bool-cases (status_is_empty observed)) [
    | inl e ↦ elim (Option-cases (lookup (sidecar_path sys def.metadata.name) disk.sidecars)) [
      | inl absent ↦ rw (e, absent) (absent, refl, refl)
      | inr (_, present) ↦
          rw (e, present, working.can_remove (sidecar_path sys def.metadata.name))
            (lookup-erase_self (sidecar_path sys def.metadata.name) disk.sidecars, refl, refl)
    ]
    | inr e ↦
        rw
          (
            e,
            working.status_text.1,
            working.can_mkdir "cluster-state",
            working.can_write (sidecar_path sys def.metadata.name),
          )
          (lookup-insert_self (sidecar_path sys def.metadata.name) _ disk.sidecars, refl, refl)
  ]

  sidecar-overlay_text :
      (cluster : Types.ClusterDefinition)
      → cluster ≡ kept (desired def)
      → overlay_text sys cluster (
          if status_is_empty (from_types_cluster_definition_status def)
          then none
          else some working.status_text.0)
        ≡ ok (kept def)
  unfolding overlay_text overlay status_is_empty from_types_cluster_definition_status
  sidecar-overlay_text cluster e =
      elim (Bool-cases (status_is_empty (from_types_cluster_definition_status def))) [
        | inl empty ↦ rw empty (
            ap ok (
              e ∙ with_observed-empty def def.spec.driver_outputs def.spec.applied_resources empty))
        | inr full ↦
            rw
              (
                full,
                e,
                working.can_read (sidecar_path sys def.metadata.name),
                working.status_text.2,
              )
              (ap (λ m. ok (with_observed def def.spec.driver_outputs m))
                (applied_back def.spec.applied_resources))
      ]

  -- The disk between the two writes of SaveClusterDefinition.
  written : Disk → Disk
  written disk = record disk {
    clusters =
        some (
          insert (cluster_path sys def.metadata.name) working.local_text.0
            (files_of disk.clusters));
  }

  save-working :
      (disk : Disk)
      → save_cluster_definition sys def disk
        ≡ save_status sys def.metadata.name
            (from_types_cluster_definition_status def)
            (written disk)
  unfolding save_cluster_definition save_marshaled written
  save-working disk =
      rw
        (
          working.can_mkdir "clusters",
          working.local_text.1,
          working.can_write (cluster_path sys def.metadata.name),
        )
        refl

  read-written :
      (disk : Disk)
      → read_cluster_file sys (cluster_path sys def.metadata.name) (written disk).clusters
        ≡ ok working.local_text.0
  unfolding read_cluster_file read_text written
  read-written disk =
      rw
        (
          lookup-insert_self (cluster_path sys def.metadata.name) working.local_text.0
              (files_of disk.clusters),
          working.can_read (cluster_path sys def.metadata.name),
        )
        refl

  load-written :
      (disk after : Disk)
      → after.clusters ≡ (written disk).clusters
      → lookup (sidecar_path sys def.metadata.name) after.sidecars ≡ (
          if status_is_empty (from_types_cluster_definition_status def)
          then none
          else some working.status_text.0)
      → load_cluster_definition sys def.metadata.name after ≡ ok (kept def, working.local_text.0)
  unfolding load_cluster_definition decode_cluster_definition merge_sidecar
  load-written disk after c s =
      rw
        (
          c,
          read-written disk,
          working.local_text.2,
          decode-local_of (cluster_path sys def.metadata.name),
          s,
          sidecar-overlay_text (kept (desired def)) refl,
        )
        refl

  -- If every call succeeds and YAML reads back, saving a definition succeeds, and loading it by
  -- its name gives it back, less its environment, the record of its agent and its two queues.
  pub load_cluster_definition-save_cluster_definition :
      (disk : Disk)
      → ((save_cluster_definition sys def disk).0 ≡ none)
        × (load_cluster_definition sys def.metadata.name (save_cluster_definition sys def disk).1
            ≡ ok (kept def, working.local_text.0))
  load_cluster_definition-save_cluster_definition disk =
      let (s, c, done) = sidecar-save_status (written disk) in
      rw (save-working disk) (done, load-written disk _ c s)
