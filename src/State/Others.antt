-- ===== src/State/Others.antt =====
-- Saving one definition, of internal/state/state.go, leaves the others as they are.
use Prim.Native.Char.{code}
use Prim.Native.String as Text
use text.Mathlib.TextLemmas.{append_cancel_right}
use hyve.Prelude.{
  String, Bool, false, nat_eq, ◌||◌, sym, Option, none, some, [], ◌≡◌, ◌≢◌, refl, ◌∙◌, ap, arith,
  Result, ok, err, ◌>>=◌, Bool-cases, Option-cases, inl, inr,
}
use hyve.Prelude.Text.{◌<>◌}
use hyve.Prelude.Maps.{Map, lookup, insert, lookup-insert_ne, lookup-erase_ne}
use hyve.Types
use hyve.V1alpha1
use hyve.State.{
  Disk, System, StateError, cluster_path, sidecar_path, state_sidecar_suffix, status_is_empty,
  decode_cluster_definition, merge_sidecar, read_text, read_cluster_file, load_cluster_definition,
}
use hyve.State.Store.{
  files_of, remove_sidecar, write_sidecar, save_status, save_marshaled, save_cluster_definition,
}

-- The byte of a slash occurs in the text.
abbrev pub has_slash : String → Bool
has_slash Text.[] = false
has_slash (Text.◌∷◌ c s) = nat_eq (code c) b'/' || has_slash s

-- Joining a directory and the name of a file in it, a name without a slash, leaves the name as it is.
pub record JoinsNames (sys : System) : Type 0 where
  pub file :
      (name : String) → has_slash name ≡ false → sys.clean (name <> ".yaml") ≡ name <> ".yaml"
  pub sidecar :
      (name : String)
      → has_slash name ≡ false
      → sys.clean (name <> state_sidecar_suffix) ≡ name <> state_sidecar_suffix

module _ (sys : System) where
  module _ (joins : JoinsNames sys) {n m : String} (plain : has_slash n ≡ false)
      (plain' : has_slash m ≡ false) (h : n ≢ m) where
    cluster_path-ne : cluster_path sys n ≢ cluster_path sys m
    unfolding cluster_path
    cluster_path-ne e =
        h (append_cancel_right n m ".yaml" (sym (joins.file n plain) ∙ e ∙ joins.file m plain'))

    sidecar_path-ne : sidecar_path sys n ≢ sidecar_path sys m
    unfolding sidecar_path
    sidecar_path-ne e = h (
        append_cancel_right n m state_sidecar_suffix
          (sym (joins.sidecar n plain) ∙ e ∙ joins.sidecar m plain'))

  lookup-remove_sidecar :
      (path name : String) (disk : Disk)
      → sidecar_path sys name ≢ path
      → lookup path (remove_sidecar sys name disk).1.sidecars ≡ lookup path disk.sidecars
  unfolding remove_sidecar
  lookup-remove_sidecar path name disk h =
      ground (arith, lookup-erase_ne (sidecar_path sys name) path disk.sidecars h)

  lookup-write_sidecar :
      (path name : String) (text : Option String) (disk : Disk)
      → sidecar_path sys name ≢ path
      → lookup path (write_sidecar sys name text disk).1.sidecars ≡ lookup path disk.sidecars
  unfolding write_sidecar
  lookup-write_sidecar path name none disk h = refl
  lookup-write_sidecar path name (some text) disk h =
      ground (arith, lookup-insert_ne (sidecar_path sys name) path text disk.sidecars h)

  clusters-write_sidecar :
      (name : String) (text : Option String) (disk : Disk)
      → (write_sidecar sys name text disk).1.clusters ≡ disk.clusters
  unfolding write_sidecar
  clusters-write_sidecar name none disk = refl
  clusters-write_sidecar name (some text) disk = ground arith

  lookup-save_status :
      (path name : String) (status : V1alpha1.ClusterDefinitionStatus) (disk : Disk)
      → sidecar_path sys name ≢ path
      → lookup path (save_status sys name status disk).1.sidecars ≡ lookup path disk.sidecars
  unfolding save_status
  lookup-save_status path name status disk h = elim (Bool-cases (status_is_empty status)) [
    | inl e ↦ rw e (lookup-remove_sidecar path name disk h)
    | inr e ↦ rw e (lookup-write_sidecar path name _ disk h)
  ]

  clusters-save_status :
      (name : String) (status : V1alpha1.ClusterDefinitionStatus) (disk : Disk)
      → (save_status sys name status disk).1.clusters ≡ disk.clusters
  unfolding save_status remove_sidecar
  clusters-save_status name status disk = elim (Bool-cases (status_is_empty status)) [
    | inl e ↦ rw e (ground arith)
    | inr e ↦ rw e (clusters-write_sidecar name _ disk)
  ]

  -- What of a disk a load of the name looks at, and what it looks at is the same on two disks.
  record IsSameFor (name : String) (disk after : Disk) : Type 0 where
    file :
        read_cluster_file sys (cluster_path sys name) after.clusters
        ≡ read_cluster_file sys (cluster_path sys name) disk.clusters
    sidecar :
        lookup (sidecar_path sys name) after.sidecars ≡ lookup (sidecar_path sys name) disk.sidecars

  module _ (def : Types.ClusterDefinition) (name : String)
      (file_ne : cluster_path sys def.metadata.name ≢ cluster_path sys name)
      (sidecar_ne : sidecar_path sys def.metadata.name ≢ sidecar_path sys name) where
    read-insert :
        (text : String) (clusters : Option (Map String))
        → read_cluster_file sys
            (cluster_path sys name)
            (some (insert (cluster_path sys def.metadata.name) text (files_of clusters)))
          ≡ read_cluster_file sys (cluster_path sys name) clusters
    unfolding read_cluster_file read_text lookup
    read-insert text none =
        ap (read_text sys (cluster_path sys name)) (lookup-insert_ne _ _ text [] file_ne)
    read-insert text (some files) =
        ap (read_text sys (cluster_path sys name)) (lookup-insert_ne _ _ text files file_ne)

    save_marshaled-IsSameFor :
        (text : Option String) (disk : Disk)
        → IsSameFor name disk (save_marshaled sys def text disk).1
    unfolding save_marshaled
    save_marshaled-IsSameFor none disk = record { file = refl; sidecar = refl }
    save_marshaled-IsSameFor (some text) disk =
        elim (Bool-cases (sys.can_write (cluster_path sys def.metadata.name))) [
          | inl e ↦ rw e (record {
            file =
                ap (read_cluster_file sys (cluster_path sys name)) (clusters-save_status _ _ _)
                ∙ read-insert text disk.clusters;
            sidecar = lookup-save_status _ _ _ _ sidecar_ne;
          })
          | inr e ↦ rw e (record { file = refl; sidecar = refl })
        ]

    made-IsSameFor :
        (disk : Disk)
        → IsSameFor name disk (record disk { clusters = some (files_of disk.clusters) })
    unfolding read_cluster_file read_text lookup
    made-IsSameFor disk = elim (Option-cases disk.clusters) [
      | inl e ↦ record { file = rw e refl; sidecar = refl }
      | inr (files, e) ↦ record { file = rw e refl; sidecar = refl }
    ]

    save_cluster_definition-IsSameFor :
        (disk : Disk) → IsSameFor name disk (save_cluster_definition sys def disk).1
    unfolding save_cluster_definition
    save_cluster_definition-IsSameFor disk = elim (Bool-cases (sys.can_mkdir "clusters")) [
      | inl e ↦
          let made = made-IsSameFor disk in
          let saved =
            save_marshaled-IsSameFor _ (record disk { clusters = some (files_of disk.clusters) }) in
          rw e (record { file = saved.file ∙ made.file; sidecar = saved.sidecar ∙ made.sidecar })
      | inr e ↦ rw e (record { file = refl; sidecar = refl })
    ]

  -- The file of the name holds, if any, a cluster of that name.
  abbrev pub IsNamed : String → Disk → Type 0
  IsNamed name disk =
      (text : String) (found : Types.ClusterDefinition)
      → read_cluster_file sys (cluster_path sys name) disk.clusters ≡ ok text
      → decode_cluster_definition sys (cluster_path sys name) text ≡ ok found
      → found.metadata.name ≡ name

  abbrev finish :
      Disk → String → Types.ClusterDefinition → Result StateError (Types.ClusterDefinition × String)
  finish disk text found = merge_sidecar sys disk found >>= λ merged. ok (merged, text)

  module _ (name : String) (disk after : Disk) (same : IsSameFor name disk after) where
    finish-same :
        (text : String) (found : Types.ClusterDefinition)
        → found.metadata.name ≡ name
        → finish after text found ≡ finish disk text found
    unfolding merge_sidecar
    finish-same text found e = rw (e, same.sidecar) refl

    decoded-same :
        (text : String) (decoded : Result StateError Types.ClusterDefinition)
        → ((found : Types.ClusterDefinition) → decoded ≡ ok found → found.metadata.name ≡ name)
        → (decoded >>= λ found. finish after text found)
          ≡ (decoded >>= λ found. finish disk text found)
    decoded-same text (ok found) h = finish-same text found (h found refl)
    decoded-same text (err e) h = refl

    read-same :
        (content : Result StateError String)
        → ((text : String) (found : Types.ClusterDefinition)
            → content ≡ ok text
            → decode_cluster_definition sys (cluster_path sys name) text ≡ ok found
            → found.metadata.name ≡ name)
        → (content >>= λ text.
            decode_cluster_definition sys (cluster_path sys name) text >>= λ found.
            finish after text found)
          ≡ (content >>= λ text.
              decode_cluster_definition sys (cluster_path sys name) text >>= λ found.
              finish disk text found)
    read-same (ok text) h = decoded-same text _ (λ found e. h text found refl e)
    read-same (err e) h = refl

    load-same :
        IsNamed name disk
        → load_cluster_definition sys name after ≡ load_cluster_definition sys name disk
    unfolding load_cluster_definition
    load-same named = rw same.file (read-same _ named)

  -- Whatever fails, saving a definition does not change what a load by another name answers, if
  -- neither name has a slash, joining keeps such names, and the file of the other name holds a
  -- cluster of that name.
  pub load_cluster_definition-save_other :
      (def : Types.ClusterDefinition) (name : String) (disk : Disk)
      → JoinsNames sys
      → has_slash def.metadata.name ≡ false
      → has_slash name ≡ false
      → def.metadata.name ≢ name
      → IsNamed name disk
      → load_cluster_definition sys name (save_cluster_definition sys def disk).1
        ≡ load_cluster_definition sys name disk
  load_cluster_definition-save_other def name disk joins plain plain' other named =
      load-same name disk _
        (save_cluster_definition-IsSameFor def name (cluster_path-ne joins plain plain' other)
          (sidecar_path-ne joins plain plain' other) disk)
        named
