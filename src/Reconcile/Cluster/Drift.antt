-- ===== src/Reconcile/Cluster/Drift.antt =====
-- Recording the parameters ends their drift.
use native.Mathlib.Omega.{arith}
use text.Mathlib.TextEquality.{eq_iff}
use hyve.Prelude.{String, false, none, [], ◌∷◌, ◌≡◌, ◌≢◌, refl, str_eq_self, str_eq_of_ne}
use hyve.Prelude.Maps.{Map, lookup, insert, merge, lookup-insert, get_or_empty}
use hyve.Types.{ClusterDefinition}
use hyve.Reconcile.Refs.{params_hash_key, params_hash, params_changed}
use hyve.Reconcile.Cluster.{with_outputs}

lookup-merge_other :
    (k : String) (dst src : Map String)
    → lookup k src ≡ none
    → lookup k (merge dst src) ≡ lookup k dst
unfolding merge lookup
lookup-merge_other k dst [] e = refl
lookup-merge_other k dst ((j, v) ∷ src) e =
    ground (arith, e, lookup-merge_other k (insert j v dst) src, lookup-insert j k v dst)

-- After a create or a scale has recorded its outputs and the parameters' hash, there is no drift,
-- the record holds the hash, and what the operation did not answer is kept.
pub params_changed-with_outputs :
    (digest : Map String → String) (cluster : ClusterDefinition) (outputs : Map String) (k : String)
    → k ≢ params_hash_key
    → lookup k outputs ≡ none
    → (params_changed digest (with_outputs digest cluster outputs) ≡ false)
      × (lookup k (with_outputs digest cluster outputs).spec.driver_outputs
          ≡ lookup k cluster.spec.driver_outputs)
unfolding params_changed with_outputs get_or_empty
params_changed-with_outputs digest cluster outputs k n e = (
  ground (
    arith,
    lookup-insert params_hash_key params_hash_key (params_hash digest cluster.spec.params)
        (merge cluster.spec.driver_outputs outputs),
    str_eq_self params_hash_key,
    str_eq_self (params_hash digest cluster.spec.params),
  ),
  ground (
    arith,
    lookup-insert params_hash_key k (params_hash digest cluster.spec.params)
        (merge cluster.spec.driver_outputs outputs),
    str_eq_of_ne n,
    eq_iff params_hash_key k,
    n,
    lookup-merge_other k cluster.spec.driver_outputs outputs e,
  ),
)
