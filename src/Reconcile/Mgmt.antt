-- ===== src/Reconcile/Mgmt.antt =====
-- The management cluster of a module: `validateMgmtClusterRequirement` and `resolveMgmtCluster` of
-- internal/reconcile/manager.go.
pub mod Sharing
use hyve.Prelude.{
  String, Bool, not, Option, none, some, List, [], ◌∷◌, ◌&&◌, ◌||◌, ◌==◌, if◌then◌else◌, Result, ok,
  err,
}
use hyve.Prelude.Text.{◌<>◌}
use hyve.Types.{ClusterDefinition}
use hyve.Reconcile.World.{M, ◌>>=◌, pure, call, ask, loaded}
use hyve.Reconcile.Host.{Host}
use hyve.Reconcile.Refs.{resolve_cluster_ref}

pub data MgmtError : Type 0 where
  cannot_load not_found cannot_look_up_host host_not_shared : MgmtError

-- The host goes by its name, or by its short name in its own environment.
unfoldable pub is_host_named : String → ClusterDefinition → Bool
is_host_named ref h =
    h.metadata.name == ref
    || (not (h.metadata.environment == "")
        && h.metadata.name == (h.metadata.environment <> ("-" <> ref)))

pub find_host : String → Bool → List ClusterDefinition → Result MgmtError ClusterDefinition
find_host ref allowed [] = err not_found
find_host ref allowed (h ∷ hosts) =
    let rest = find_host ref allowed hosts in
    if is_host_named ref h then (if allowed then ok h else err host_not_shared) else rest

module _ (host : Host) where
  ask_host : String → M (Result MgmtError ClusterDefinition)
  unfolding find_host
  ask_host ref = elim host.host_clusters [
    | none ↦ pure (err not_found)
    | some answer ↦ ask (λ w. elim (answer w) [
      | none ↦ err cannot_look_up_host
      | some (hosts, allowed) ↦ find_host ref allowed hosts
    ])
  ]

  unfoldable pub resolve_mgmt_cluster :
      ClusterDefinition → String → M (Result MgmtError ClusterDefinition)
  unfolding ask_host resolve_cluster_ref
  resolve_mgmt_cluster from ref = call host.load_cluster_definitions (λ _. loaded) >>= λ answer.
      elim answer [
        | none ↦ pure (err cannot_load)
        | some defs ↦ elim (resolve_cluster_ref defs from ref) [
          | some def ↦ pure (ok def)
          | none ↦ ask_host ref
        ]
      ]

  -- `none` if the requirement is met.
  unfoldable pub validate_mgmt_cluster_requirement :
      ClusterDefinition → String → M (Option MgmtError)
  validate_mgmt_cluster_requirement cluster ref =
      if ref == ""
      then pure none
      else (resolve_mgmt_cluster cluster ref >>= λ result. elim result [
        | ok def ↦ pure none
        | err e ↦ pure (some e)
      ])
