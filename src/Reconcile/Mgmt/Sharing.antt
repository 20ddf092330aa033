-- ===== src/Reconcile/Mgmt/Sharing.antt =====
-- When the host cluster serves as a management cluster.
use native.Mathlib.Omega.{arith}
use hyve.Prelude.{String, Bool, true, false, List, [], ◌∷◌, ◌≡◌, refl, ◌&&◌, any, Result, ok, err}
use hyve.Types.{ClusterDefinition}
use hyve.Reconcile.Mgmt.{is_host_named, find_host}

abbrev pub is_found : {E A : Type 0} → Result E A → Bool
is_found (ok a) = true
is_found (err e) = false

-- A host cluster is handed out exactly if the install allows it and one goes by the name.
pub is_found-find_host :
    (ref : String) (allowed : Bool) (hosts : List ClusterDefinition)
    → is_found (find_host ref allowed hosts) ≡ (allowed && any (is_host_named ref) hosts)
unfolding find_host
is_found-find_host ref true [] = refl
is_found-find_host ref false [] = refl
is_found-find_host ref allowed (h ∷ hosts) = ground (arith, is_found-find_host ref allowed hosts)
