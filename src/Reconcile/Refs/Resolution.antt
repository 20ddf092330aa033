-- ===== src/Reconcile/Refs/Resolution.antt =====
-- `resolve_cluster_ref` finds the cluster that is meant.
use native.Mathlib.Omega.{arith}
use hyve.Prelude.{
  String, Bool, true, not, some, List, [], ◌∷◌, ◌≡◌, refl, ◌==◌, ◌&&◌, ◌||◌, if◌then◌else◌, any,
  is_some, Option-cases, inl, inr,
}
use hyve.Prelude.Text.{◌<>◌}
use hyve.Types.{ClusterDefinition}
use hyve.Reconcile.Refs.{find_named, resolve_cluster_ref}

abbrev pub has_cluster : String → List ClusterDefinition → Bool
has_cluster name defs = any (λ (d : ClusterDefinition). d.metadata.name == name) defs

find_named-is_some :
    (name : String) (defs : List ClusterDefinition)
    → is_some (find_named name defs) ≡ has_cluster name defs
unfolding find_named
find_named-is_some name [] = refl
find_named-is_some name (d ∷ defs) = ground (arith, find_named-is_some name defs)

find_named-name :
    (name : String) (defs : List ClusterDefinition) (d : ClusterDefinition)
    → find_named name defs ≡ some d
    → (d.metadata.name == name) ≡ true
unfolding find_named
find_named-name name [] d e = cc
find_named-name name (d' ∷ defs) d e = ground (arith, e, find_named-name name defs d)

-- The cluster that a reference resolves to goes by the reference itself if any cluster does, and
-- else by its short name in the environment of the one that refers.
pub resolve_cluster_ref-name :
    (defs : List ClusterDefinition) (from d : ClusterDefinition) (ref : String)
    → resolve_cluster_ref defs from ref ≡ some d
    → (if has_cluster ref defs
        then d.metadata.name == ref
        else d.metadata.name == (from.metadata.environment <> ("-" <> ref)))
      ≡ true
unfolding resolve_cluster_ref
resolve_cluster_ref-name defs from d ref e = elim (Option-cases (find_named ref defs)) [
  | inl n ↦ ground (
    arith,
    e,
    n,
    find_named-is_some ref defs,
    find_named-name (from.metadata.environment <> ("-" <> ref)) defs d,
  )
  | inr (d', s) ↦ ground (arith, e, s, find_named-is_some ref defs, find_named-name ref defs d)
]

-- A reference resolves exactly if a cluster goes by it, or by its short name in the environment,
-- if there is one, of the one that refers.
pub resolve_cluster_ref-is_some :
    (defs : List ClusterDefinition) (from : ClusterDefinition) (ref : String)
    → is_some (resolve_cluster_ref defs from ref) ≡ (
        has_cluster ref defs
        || (not (from.metadata.environment == "")
            && has_cluster (from.metadata.environment <> ("-" <> ref)) defs))
unfolding resolve_cluster_ref
resolve_cluster_ref-is_some defs from ref = elim (Option-cases (find_named ref defs)) [
  | inl n ↦ ground (
    arith,
    n,
    find_named-is_some ref defs,
    find_named-is_some (from.metadata.environment <> ("-" <> ref)) defs,
  )
  | inr (d', s) ↦ ground (arith, s, find_named-is_some ref defs)
]
