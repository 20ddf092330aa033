-- ===== src/Controller/Provider/Saved.antt =====
-- What CRDStateProvider of internal/controller/state_provider.go reads back.
use mathlib.Core.Path.{subst}
use hyve.Prelude.{String, none, true, ◌∷◌, ◌≡◌, refl, ap, ok, sym}
use hyve.Types
use hyve.V1alpha1.{ClusterDefinition}
use hyve.Crdconv.{to_types_cluster_definition}
use hyve.Crdconv.RoundTrip.{applied_back, applied_agent_back}
use hyve.Controller.Api.{Log, status_updated}
use hyve.Controller.Provider.{
  Cluster, with_status_of, load_cluster_definition, save_fetched, save_cluster_definition,
}

-- A definition with what the reconciler observed taken from another.
abbrev pub observing : Types.ClusterDefinition → Types.ClusterDefinition → Types.ClusterDefinition
observing def read = record read {
  spec = record read.spec {
    driver_outputs = def.spec.driver_outputs;
    applied_resources = def.spec.applied_resources;
    applied_agent = def.spec.applied_agent;
  };
}

to_types-with_status_of :
    (def : Types.ClusterDefinition) (cr : ClusterDefinition)
    → to_types_cluster_definition (with_status_of def cr)
      ≡ observing def (to_types_cluster_definition cr)
unfolding to_types_cluster_definition with_status_of
to_types-with_status_of def cr =
    rw (applied_back def.spec.applied_resources, applied_agent_back def.spec.applied_agent) refl

-- The status subresource: an accepted write takes over the status of what is sent, and nothing else,
-- and later reads of the name see it. What is read under a name has that name.
pub record IsSubresource (cluster : Cluster) : Type 0 where
  pub named :
      (name : String) (cr : ClusterDefinition) (w : Log)
      → cluster.get name w ≡ ok cr
      → cr.metadata.name ≡ name
  pub takes_status :
      (stored obj : ClusterDefinition) (w : Log)
      → cluster.get obj.metadata.name w ≡ ok stored
      → cluster.get obj.metadata.name (status_updated obj true ∷ w)
        ≡ ok (record stored { status = obj.status })

get-save_fetched :
    (cluster : Cluster) (def : Types.ClusterDefinition) (cr : ClusterDefinition) (w : Log)
    → IsSubresource cluster
    → cluster.get def.metadata.name w ≡ ok cr
    → cluster.get def.metadata.name (status_updated (with_status_of def cr) true ∷ w)
      ≡ ok (with_status_of def cr)
unfolding with_status_of
get-save_fetched cluster def cr w server found =
    let name = server.named def.metadata.name cr w found in
    subst
      (λ n.
        cluster.get n (status_updated (with_status_of def cr) true ∷ w)
        ≡ ok (with_status_of def cr))
      name
      (server.takes_status cr (with_status_of def cr) w
        (subst (λ n. cluster.get n w ≡ ok cr) (sym name) found))

-- If the server has the object, keeps the status subresource and accepts the write, then after a
-- save a load gives the object's spec as it was before, with the outputs, the applied resources and
-- the applied agent of the saved definition.
pub load_cluster_definition-save_cluster_definition_crd :
    (cluster : Cluster) (def : Types.ClusterDefinition) (cr : ClusterDefinition) (w : Log)
    → IsSubresource cluster
    → cluster.get def.metadata.name w ≡ ok cr
    → ((obj : ClusterDefinition) → cluster.update_status obj w ≡ none)
    → ((save_cluster_definition cluster def w).0 ≡ none)
      × ((load_cluster_definition cluster def.metadata.name
            (save_cluster_definition cluster def w).1).0
          ≡ ok (observing def (to_types_cluster_definition cr)))
unfolding save_cluster_definition save_fetched load_cluster_definition
load_cluster_definition-save_cluster_definition_crd cluster def cr w server found accepted =
    rw (found, accepted (with_status_of def cr), get-save_fetched cluster def cr w server found)
      (refl, ap ok (to_types-with_status_of def cr))
